-- ===== src/AiAttempt/Laws.antt =====
-- apps/local-server/src/ai_attempt.rs: what each operation does, as `status` shows it.
use synapsegit_lp_studio.Prelude.Set
use synapsegit_lp_studio.AiAttempt.{
  AiAttempts, AttemptStatus, already_cancelled, attempt_already_finished, cancel, cancel_done,
  cancelled, claim, complete, complete_recorded, contains_project, is_active_generation, queue,
  queued, release, running, status, u64_max, active_attempt, find_last, record_terminal,
  max_terminal_attempts, terminal_status,
}
use synapsegit_lp_studio.AiAttempt.Invariant.{IsConsistent, borrow-append_false, borrow_beyond}
use synapsegit_lp_studio.AiAttempt.Terminal.{find_last-recorded, find_last-recorded_room, same}
use synapsegit_lp_studio.AiAttempt.Late.{is_active_entry}
use synapsegit_lp_studio.Prelude.{
  ==_iff, ==_refl, arith, err, false, if◌then◌else◌, length, list_eq, nat_eq, none, not, ok,
  pair_eq, some, true, ℕ, ◌&&◌, ◌+◌, ◌<◌, ◌≡◌, ◌≢◌,
}
use synapsegit_lp_studio.Prelude.Text.{Text}
use synapsegit_lp_studio.Prelude.Map.{get-insert, get-remove}
use synapsegit_lp_studio.Prelude.Set.{contains-insert, contains-remove}
use synapsegit_lp_studio.Prelude.Map

cancel_done_state :
    (p a : Text) (s : AiAttempts)
    → IsConsistent s
    → (cancel p a s).1 ≡ cancel_done
    → (find_last p a (cancel p a s).0.terminal ≡ some cancelled)
      × (active_attempt (cancel p a s).0 p a ≡ none)
unfolding cancel record_terminal
cancel_done_state p a s c done = ground (
  arith,
  find_last-recorded p a cancelled s.terminal c.unique,
  get-remove p p s.active_by_project,
  ==_refl p,
)

finished_refuses :
    (p a : Text) (t : AiAttempts)
    → find_last p a t.terminal ≡ some cancelled
    → active_attempt t p a ≡ none
    → (status t p a ≡ some cancelled)
      × (cancel p a t ≡ (t, already_cancelled))
      × (queue p a t ≡ (t, err attempt_already_finished))
      × (claim p a t ≡ (t, err attempt_already_finished))
unfolding cancel queue claim status
finished_refuses p a t e k = ground arith

-- A cancel that is done, in a consistent table, leaves the status `cancelled`; a second cancel
-- changes nothing and says so; and the attempt can be neither queued nor claimed.
pub cancel_done_lem :
    (p a : Text) (s : AiAttempts)
    → IsConsistent s
    → (cancel p a s).1 ≡ cancel_done
    → let t = (cancel p a s).0 in
      (status t p a ≡ some cancelled)
      × (cancel p a t ≡ (t, already_cancelled))
      × (queue p a t ≡ (t, err attempt_already_finished))
      × (claim p a t ≡ (t, err attempt_already_finished))
cancel_done_lem p a s c done =
    let (e, k) = cancel_done_state p a s c done in finished_refuses p a (cancel p a s).0 e k

-- A completion by the active attempt itself, in a consistent table, is recorded: the project is
-- free, the attempt has the status given, and any other active attempt is untouched.
pub complete_active :
    (p a : Text) (g : ℕ) (st : AttemptStatus) (s : AiAttempts)
    → IsConsistent s
    → is_active_generation s p a g ≡ true
    → let t = (complete p a g st s).0 in
      ((complete p a g st s).1 ≡ complete_recorded)
      × (status t p a ≡ some st)
      × (contains_project t p ≡ false)
      × ((q : Text) → p ≢ q → Map.get q t.active_by_project ≡ Map.get q s.active_by_project)
unfolding complete record_terminal status
complete_active p a g st s c active =
    let (x, k, mine, e) = is_active_entry p a g s active in
    let idle = get-remove p p s.active_by_project in
    let free = ==_refl p in
    let unfinished = c.active_unfinished p x k in
    let untold = c.live p x k in
    let own = ==_iff x.attempt_id a in
    let kept = find_last-recorded p a st s.terminal c.unique in
    (
      ground arith,
      ground arith,
      ground arith,
      λ q ne. ground (arith, get-remove p q s.active_by_project, ==_iff p q),
    )

-- A release by the active attempt itself, in a consistent table, puts it back among the queued ones;
-- unless the counter is exhausted, a new claim succeeds, with a generation that is new.
pub release-claim :
    (p a : Text) (g : ℕ) (s : AiAttempts)
    → IsConsistent s
    → is_active_generation s p a g ≡ true
    → s.next_generation < u64_max
    → let t = (release p a g s).0 in
      ((release p a g s).1 ≡ true)
      × (status t p a ≡ some queued)
      × ((claim p a t).1
          ≡ ok (record { receiver = length s.channels; generation = s.next_generation + 1 }))
      × (g < s.next_generation + 1)
      × (status (claim p a t).0 p a ≡ some running)
unfolding release claim status
release-claim p a g s c active room =
    let (x, k, mine, e) = is_active_entry p a g s active in
    ground (
      arith,
      c.active_unfinished p x k,
      c.known p x k,
      ==_iff x.attempt_id a,
      get-remove p p s.active_by_project,
      contains-insert (p, a) (p, a) s.queued_attempts,
      get-insert p p
          (record {
            attempt_id = a;
            generation = s.next_generation + 1;
            cancellation = length s.channels;
          })
          (Map.remove p s.active_by_project),
      ==_refl p,
      ==_refl a,
      borrow-append_false (length s.channels) s.channels,
      borrow_beyond (length s.channels) s.channels (omega arith),
    )

-- While fewer than 512 finished attempts are kept, in a consistent table, recording one gives it its
-- status, drops it from the queue and leaves the status of every other attempt as it is.
pub record_terminal_lem :
    (p a : Text) (st : AttemptStatus) (s : AiAttempts)
    → IsConsistent s
    → length s.terminal < max_terminal_attempts
    → (q b : Text)
    → (terminal_status (record_terminal p a st s) q b
        ≡ (if same p a q b then some st else terminal_status s q b))
      × (Set.contains (q, b) (record_terminal p a st s).queued_attempts
          ≡ (not (same p a q b) && Set.contains (q, b) s.queued_attempts))
unfolding record_terminal
record_terminal_lem p a st s c room q b = (
  find_last-recorded_room p a st s.terminal c.unique q b room,
  contains-remove (p, a) (q, b) s.queued_attempts,
)
