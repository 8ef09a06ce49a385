-- ===== src/AiAttempt/Tests.antt =====
-- apps/local-server/src/ai_attempt.rs: runs on concrete calls, and the properties at them.
use synapsegit_lp_studio.Prelude.Map
use synapsegit_lp_studio.Prelude.Set
use synapsegit_lp_studio.AiAttempt.{
  AiAttempts, Cancellation, already_cancelled, attempt_already_finished, borrow, cancel,
  cancel_done, cancelled, claim, complete, complete_recorded, contains_project, default_attempts,
  find_last, is_active_generation, is_cancelled, max_terminal_attempts, project_busy,
  proposal_ready, queue, queued, record_terminal, release, running, status, terminal_status,
  timed_out, u64_max,
}
use synapsegit_lp_studio.AiAttempt.Terminal.{same}
use synapsegit_lp_studio.AiAttempt.Invariant.{IsConsistent}
use synapsegit_lp_studio.AiAttempt.Steps.{
  call_cancel, call_claim, call_queue, perform, run, run-IsConsistent,
}
use synapsegit_lp_studio.AiAttempt.Late.{by_cancel, late_answer}
use synapsegit_lp_studio.AiAttempt.Signals.{cancellation_told}
use synapsegit_lp_studio.AiAttempt.Laws.{
  cancel_done_lem, complete_active, record_terminal_lem, release-claim,
}
use synapsegit_lp_studio.Prelude.{
  [], arith, err, false, if◌then◌else◌, length, list_beq, list_eq, nat_eq, not, ok, pair_eq, refl,
  some, true, ◌&&◌, ◌+◌, ◌<◌, ◌∷◌, ◌≡◌, ◌≢◌,
}
use synapsegit_lp_studio.Prelude.Text.{Text, codes}

abbrev project : Text
project = codes "project-1"

abbrev first : Text
first = codes "attempt-1"

abbrev busy : AiAttempts
busy = run (call_queue project first ∷ call_claim project first ∷ []) default_attempts

busy_status : status busy project first ≡ some running
unfolding status run perform queue claim Map.get Map.insert Set.insert Set.remove Set.contains
    find_last borrow list_beq
busy_status = refl

busy_active : is_active_generation busy project first 1 ≡ true
unfolding is_active_generation run perform queue claim Map.get Map.insert Set.insert Set.remove
    Set.contains find_last list_beq
busy_active = refl

busy_claims : (claim project (codes "attempt-2") busy).1 ≡ err project_busy
unfolding run perform queue claim Map.get Map.insert Set.insert Set.remove Set.contains find_last
    list_beq
busy_claims = refl

busy_cancelled : (cancel project first busy).1 ≡ cancel_done
unfolding cancel run perform queue claim Map.get Map.insert Set.insert Set.remove Set.contains
    find_last list_beq
busy_cancelled = refl

busy-IsConsistent : IsConsistent busy
busy-IsConsistent = run-IsConsistent (call_queue project first ∷ call_claim project first ∷ [])

run-IsConsistent_example :
    IsConsistent (run (call_queue project first ∷ call_cancel project first ∷ []) default_attempts)
run-IsConsistent_example =
    run-IsConsistent (call_queue project first ∷ call_cancel project first ∷ [])

late_answer_example :
    ((complete project first 1 proposal_ready
        (run (call_queue project (codes "b") ∷ []) (perform (call_cancel project first) busy))).0
      ≡ run (call_queue project (codes "b") ∷ []) (perform (call_cancel project first) busy))
    × ((complete project first 1 proposal_ready
          (run (call_queue project (codes "b") ∷ []) (perform (call_cancel project first) busy))).1
        ≢ complete_recorded)
late_answer_example =
    late_answer project first 1 busy busy-IsConsistent busy_active (call_cancel project first)
      by_cancel (call_queue project (codes "b") ∷ []) proposal_ready

abbrev waiting : AiAttempts
waiting = run (call_queue project first ∷ []) default_attempts

abbrev token : Cancellation
token = record { receiver = 0; generation = 1 }

waiting-claim : claim project first waiting ≡ ((claim project first waiting).0, ok token)
unfolding run perform queue claim Map.get Map.insert Set.insert Set.remove Set.contains find_last
    list_beq
waiting-claim = refl

waiting_active :
    is_active_generation (run [] (claim project first waiting).0) project first 1 ≡ true
unfolding is_active_generation run perform queue claim Map.get Map.insert Set.insert Set.remove
    Set.contains find_last list_beq
waiting_active = refl

cancellation_told_example :
    (is_cancelled token (run [] (claim project first waiting).0) ≡ false)
    × (is_cancelled token (run [] (cancel project first (run [] (claim project first waiting).0)).0)
        ≡ true)
cancellation_told_example =
    cancellation_told project first waiting (claim project first waiting).0 token
      (run-IsConsistent (call_queue project first ∷ [])) waiting-claim [] [] waiting_active

cancel_done_lem_example :
    (status (cancel project first busy).0 project first ≡ some cancelled)
    × (cancel project first (cancel project first busy).0
        ≡ ((cancel project first busy).0, already_cancelled))
    × (queue project first (cancel project first busy).0
        ≡ ((cancel project first busy).0, err attempt_already_finished))
    × (claim project first (cancel project first busy).0
        ≡ ((cancel project first busy).0, err attempt_already_finished))
cancel_done_lem_example = cancel_done_lem project first busy busy-IsConsistent busy_cancelled

complete_active_example :
    ((complete project first 1 proposal_ready busy).1 ≡ complete_recorded)
    × (status (complete project first 1 proposal_ready busy).0 project first ≡ some proposal_ready)
    × (contains_project (complete project first 1 proposal_ready busy).0 project ≡ false)
    × ((q : Text)
        → project ≢ q
        → Map.get q (complete project first 1 proposal_ready busy).0.active_by_project
          ≡ Map.get q busy.active_by_project)
complete_active_example =
    complete_active project first 1 proposal_ready busy busy-IsConsistent busy_active

busy_room : busy.next_generation < u64_max
unfolding run perform queue claim Map.get find_last
busy_room = omega arith

release-claim_example :
    ((release project first 1 busy).1 ≡ true)
    × (status (release project first 1 busy).0 project first ≡ some queued)
    × ((claim project first (release project first 1 busy).0).1
        ≡ ok (record { receiver = length busy.channels; generation = busy.next_generation + 1 }))
    × (1 < busy.next_generation + 1)
    × (status (claim project first (release project first 1 busy).0).0 project first ≡ some running)
release-claim_example = release-claim project first 1 busy busy-IsConsistent busy_active busy_room

busy_few : length busy.terminal < max_terminal_attempts
unfolding run perform queue claim Map.get find_last
busy_few = omega arith

record_terminal_lem_example :
    (terminal_status (record_terminal project first timed_out busy) project (codes "b") ≡ (
      if same project first project (codes "b")
      then some timed_out
      else terminal_status busy project (codes "b")))
    × (Set.contains
          (project, codes "b")
          (record_terminal project first timed_out busy).queued_attempts
        ≡ (not (same project first project (codes "b"))
            && Set.contains (project, codes "b") busy.queued_attempts))
record_terminal_lem_example =
    record_terminal_lem project first timed_out busy busy-IsConsistent busy_few project (codes "b")
