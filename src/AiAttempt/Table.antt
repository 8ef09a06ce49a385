-- ===== src/AiAttempt/Table.antt =====
-- apps/local-server/src/ai_attempt.rs: the types, the channels and the queue of finished attempts.
use synapsegit_lp_studio.Prelude.Map.{BTreeMap}
use synapsegit_lp_studio.Prelude.Set.{HashSet}
use synapsegit_lp_studio.Prelude.{
  Bool, List, Option, [], false, if◌then◌else◌, length, list_eq, nat_eq, none, pair_eq, some, suc,
  true, zero, ℕ, ◌&&◌, ◌++◌, ◌==◌, ◌∷◌,
}
use synapsegit_lp_studio.Prelude.Text.{Text, codes}
use synapsegit_lp_studio.Prelude.Set

abbrev pub max_terminal_attempts : ℕ
max_terminal_attempts = 512

abbrev pub u64_max : ℕ
u64_max = 18446744073709551615

pub data AttemptStatus : Type 0 where
  queued running cancelled timed_out provider_failed validation_failed proposal_ready :
      AttemptStatus

unfoldable pub as_str : AttemptStatus → Text
as_str queued = codes "queued"
as_str running = codes "running"
as_str cancelled = codes "cancelled"
as_str timed_out = codes "timed_out"
as_str provider_failed = codes "provider_failed"
as_str validation_failed = codes "validation_failed"
as_str proposal_ready = codes "proposal_ready"

pub data ClaimError : Type 0 where
  project_busy attempt_already_finished generation_exhausted : ClaimError

pub data CancelResult : Type 0 where
  cancel_done already_cancelled cancel_not_active : CancelResult

pub data CompleteResult : Type 0 where
  complete_recorded complete_cancelled complete_not_active : CompleteResult

-- What a claim hands out: the receiver of the channel and the generation.
pub record Cancellation : Type 0 where
  pub receiver : ℕ
  pub generation : ℕ

pub record ActiveAttempt : Type 0 where
  pub attempt_id : Text
  pub generation : ℕ
  pub cancellation : ℕ

pub record TerminalAttempt : Type 0 where
  pub project_id : Text
  pub attempt_id : Text
  pub status : AttemptStatus

pub record AiAttempts : Type 0 where
  pub active_by_project : BTreeMap ActiveAttempt
  pub queued_attempts : HashSet (Text × Text)
  pub terminal : List TerminalAttempt
  pub next_generation : ℕ
  pub channels : List Bool

-- `AiAttempts::default`
abbrev pub default_attempts : AiAttempts
default_attempts = record {
  active_by_project = [];
  queued_attempts = [];
  terminal = [];
  next_generation = 0;
  channels = [];
}

-- `*receiver.borrow()`, and `send(true)`
unfoldable pub borrow : ℕ → List Bool → Bool
borrow i [] = false
borrow zero (b ∷ bs) = b
borrow (suc i) (b ∷ bs) = borrow i bs

unfoldable pub send_true : ℕ → List Bool → List Bool
send_true i [] = []
send_true zero (b ∷ bs) = true ∷ bs
send_true (suc i) (b ∷ bs) = b ∷ send_true i bs

-- `Cancellation::is_cancelled`
unfoldable pub is_cancelled : Cancellation → AiAttempts → Bool
unfolding borrow
is_cancelled c s = borrow c.receiver s.channels

abbrev pub matches : Text → Text → TerminalAttempt → Bool
matches project attempt entry = entry.project_id == project && entry.attempt_id == attempt

-- The status of the last entry that matches: `iter().rev().find(…)`.
unfoldable pub find_last : Text → Text → List TerminalAttempt → Option AttemptStatus
find_last project attempt [] = none
find_last project attempt (entry ∷ l) = elim (find_last project attempt l) [
  | some later ↦ some later
  | none ↦ if matches project attempt entry then some entry.status else none
]

abbrev pub terminal_status : AiAttempts → Text → Text → Option AttemptStatus
terminal_status s project attempt = find_last project attempt s.terminal

abbrev pub was_cancelled : Option AttemptStatus → Bool
was_cancelled (some cancelled) = true
was_cancelled _ = false

-- The first entry that matches gets the status: `iter_mut().find(…)`.
abbrev pub behind : TerminalAttempt → Option (List TerminalAttempt) → Option (List TerminalAttempt)
behind entry none = none
behind entry (some l) = some (entry ∷ l)

unfoldable pub replace_first :
    Text → Text → AttemptStatus → List TerminalAttempt → Option (List TerminalAttempt)
replace_first project attempt status [] = none
replace_first project attempt status (entry ∷ l) =
    let rest = replace_first project attempt status l in
    if matches project attempt entry
    then some (record entry { status = status } ∷ l)
    else behind entry rest

abbrev pub pop_front : List TerminalAttempt → List TerminalAttempt
pop_front [] = []
pop_front (entry ∷ l) = l

unfoldable pub push_terminal : TerminalAttempt → List TerminalAttempt → List TerminalAttempt
push_terminal entry l = (if length l == max_terminal_attempts then pop_front l else l) ++ entry ∷ []

unfoldable pub recorded : Text → Text → AttemptStatus → List TerminalAttempt → List TerminalAttempt
unfolding replace_first push_terminal
recorded project attempt status l = elim (replace_first project attempt status l) [
  | some l' ↦ l'
  | none ↦ push_terminal (record { project_id = project; attempt_id = attempt; status = status }) l
]

-- `record_terminal`
unfoldable pub record_terminal : Text → Text → AttemptStatus → AiAttempts → AiAttempts
unfolding recorded
record_terminal project attempt status s = record s {
  queued_attempts = Set.remove (project, attempt) s.queued_attempts;
  terminal = recorded project attempt status s.terminal;
}
