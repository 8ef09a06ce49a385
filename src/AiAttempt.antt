-- ===== src/AiAttempt.antt =====
-- apps/local-server/src/ai_attempt.rs: the table of AI attempts. One attempt at most is active in a
-- project; a finished one is remembered in a bounded queue; a cancelled one is told so through its
-- `watch` channel, whose value outlives the attempt's entry. The channels are a store in the table,
-- addressed by the order of their creation.
mod Table
pub mod Terminal
pub mod Invariant
pub mod Steps
pub mod Late
pub mod Signals
pub mod Laws
pub mod Tests
unfoldable pub use Table.*
use synapsegit_lp_studio.Prelude.{
  Bool, Option, Result, [], err, false, if◌then◌else◌, is_some, keep, leb, length, list_eq, nat_eq,
  none, not, ok, pair_eq, some, true, ℕ, ◌&&◌, ◌++◌, ◌+◌, ◌==◌, ◌||◌, ◌∷◌,
}
use synapsegit_lp_studio.Prelude.Text.{Text}
use synapsegit_lp_studio.Prelude.Map
use synapsegit_lp_studio.Prelude.Set

unfoldable pub queue : Text → Text → AiAttempts → AiAttempts × Result ClaimError Unit
queue project attempt s =
    if is_some (terminal_status s project attempt)
    then (s, err attempt_already_finished)
    else (record s { queued_attempts = Set.insert (project, attempt) s.queued_attempts }, ok tt)

unfoldable pub claim : Text → Text → AiAttempts → AiAttempts × Result ClaimError Cancellation
claim project attempt s =
    if is_some (terminal_status s project attempt)
    then (s, err attempt_already_finished)
    else if Map.contains_key project s.active_by_project
    then (s, err project_busy)
    else if leb u64_max s.next_generation
    then (s, err generation_exhausted)
    else (
      record {
        active_by_project =
            Map.insert project
              (record {
                attempt_id = attempt;
                generation = s.next_generation + 1;
                cancellation = length s.channels;
              })
              s.active_by_project;
        queued_attempts = Set.remove (project, attempt) s.queued_attempts;
        terminal = s.terminal;
        next_generation = s.next_generation + 1;
        channels = s.channels ++ false ∷ [];
      },
      ok (record { receiver = length s.channels; generation = s.next_generation + 1 }),
    )

-- The active entry of the project, if it is this attempt's: `get(project).filter(…)`.
unfoldable pub active_attempt : AiAttempts → Text → Text → Option ActiveAttempt
active_attempt s project attempt = elim (Map.get project s.active_by_project) [
  | none ↦ none
  | some active ↦ if active.attempt_id == attempt then some active else none
]

unfoldable pub cancel : Text → Text → AiAttempts → AiAttempts × CancelResult
unfolding active_attempt
cancel project attempt s =
    if was_cancelled (terminal_status s project attempt)
    then (s, already_cancelled)
    else elim (active_attempt s project attempt) [
      | some active ↦ (
        record_terminal project attempt cancelled (record s {
          active_by_project = Map.remove project s.active_by_project;
          channels = send_true active.cancellation s.channels;
        }),
        cancel_done,
      )
      | none ↦
          if Set.contains (project, attempt) s.queued_attempts
          then (
            record_terminal project attempt cancelled
                (record s { queued_attempts = Set.remove (project, attempt) s.queued_attempts }),
            cancel_done,
          )
          else (s, cancel_not_active)
    ]

abbrev pub is_exactly : Text → ℕ → ActiveAttempt → Bool
is_exactly attempt generation active =
    active.attempt_id == attempt && active.generation == generation

unfoldable pub complete : Text → Text → ℕ → AttemptStatus → AiAttempts → AiAttempts × CompleteResult
complete project attempt generation status s = elim (Map.get project s.active_by_project) [
  | none ↦ (
    s,
    if was_cancelled (terminal_status s project attempt)
        then complete_cancelled
        else complete_not_active,
  )
  | some active ↦
      if not (is_exactly attempt generation active)
      then (s, complete_not_active)
      else (let cleared = record s { active_by_project = Map.remove project s.active_by_project } in
          if borrow active.cancellation s.channels
            || was_cancelled (terminal_status s project attempt)
          then (record_terminal project attempt cancelled cleared, complete_cancelled)
          else (record_terminal project attempt status cleared, complete_recorded))
]

unfoldable pub is_active_generation : AiAttempts → Text → Text → ℕ → Bool
is_active_generation s project attempt generation = elim (Map.get project s.active_by_project) [
  | none ↦ false
  | some active ↦ is_exactly attempt generation active
]

unfoldable pub release : Text → Text → ℕ → AiAttempts → AiAttempts × Bool
unfolding is_active_generation
release project attempt generation s =
    if is_active_generation s project attempt generation
    then (
      record s {
        active_by_project = Map.remove project s.active_by_project;
        queued_attempts = Set.insert (project, attempt) s.queued_attempts;
      },
      true,
    )
    else (s, false)

unfoldable pub status : AiAttempts → Text → Text → Option AttemptStatus
unfolding active_attempt
status s project attempt = elim (active_attempt s project attempt) [
  | some active ↦ some (if borrow active.cancellation s.channels then cancelled else running)
  | none ↦ elim (terminal_status s project attempt) [
    | some found ↦ some found
    | none ↦ if Set.contains (project, attempt) s.queued_attempts then some queued else none
  ]
]

abbrev pub contains_project : AiAttempts → Text → Bool
contains_project s project = Map.contains_key project s.active_by_project

unfoldable pub remove_queued_project : Text → AiAttempts → AiAttempts
remove_queued_project project s = record s {
  queued_attempts = keep (λ entry. not (entry.0 == project)) s.queued_attempts;
}

unfoldable pub remove_project : Text → AiAttempts → AiAttempts
remove_project project s = record s {
  active_by_project = Map.remove project s.active_by_project;
  queued_attempts = keep (λ entry. not (entry.0 == project)) s.queued_attempts;
  terminal = keep (λ entry. not (entry.project_id == project)) s.terminal;
}
