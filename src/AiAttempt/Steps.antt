-- ===== src/AiAttempt/Steps.antt =====
-- apps/local-server/src/ai_attempt.rs: the calls that the server makes, in any order. The table is
-- behind one lock, so an execution is a sequence of whole calls.
use synapsegit_lp_studio.AiAttempt.{
  AiAttempts, AttemptStatus, cancel, claim, complete, queue, release, terminal_status, is_exactly,
  u64_max, was_cancelled, ActiveAttempt, active_attempt, borrow, cancelled, is_active_generation,
  record_terminal, send_true, default_attempts, remove_project, remove_queued_project,
}
use synapsegit_lp_studio.AiAttempt.Invariant.{
  IsConsistent, queue_insert-IsConsistent, claimed-IsConsistent, deactivate,
  deactivate-IsConsistent, queue_remove-IsConsistent, record_terminal-IsConsistent,
  signal-IsConsistent, default-IsConsistent, remove_project-IsConsistent,
  remove_queued_project-IsConsistent,
}
use synapsegit_lp_studio.AiAttempt.Terminal.{
  find_last-recorded-none, length-recorded, recorded-Unique,
}
use synapsegit_lp_studio.Prelude.{
  ==_iff, ==_refl, Bool-cases, List, Option-cases, [], arith, inl, inr, leb, list_eq, nat_eq,
  pair_eq, some, ℕ, ◌||◌, ◌∷◌, ◌≡◌, ◌≢◌,
}
use synapsegit_lp_studio.Prelude.Text.{Text}
use synapsegit_lp_studio.Prelude.Map.{get-remove}
use synapsegit_lp_studio.Prelude.Set.{contains-remove}
use synapsegit_lp_studio.Prelude.Map
use synapsegit_lp_studio.Prelude.Set

module _ (p a : Text) (s : AiAttempts) (c : IsConsistent s) where
  pub queue-IsConsistent : IsConsistent (queue p a s).0
  unfolding queue
  queue-IsConsistent = elim (Option-cases (terminal_status s p a)) [
    | inl e ↦ rw e (queue_insert-IsConsistent s p c a e)
    | inr (st, e) ↦ rw e c
  ]

  pub claim-IsConsistent : IsConsistent (claim p a s).0
  unfolding claim
  claim-IsConsistent = elim (Option-cases (terminal_status s p a)) [
    | inr (st, e) ↦ rw e c
    | inl e ↦ elim (Option-cases (Map.get p s.active_by_project)) [
      | inr (x, k) ↦ rw (e, k) c
      | inl k ↦ elim (Bool-cases (leb u64_max s.next_generation)) [
        | inl r ↦ rw (e, k, r) c
        | inr r ↦ rw (e, k, r) (claimed-IsConsistent s p a c (ground arith) e)
      ]
    ]
  ]

  cancel_active-IsConsistent :
      (x : ActiveAttempt)
      → Map.get p s.active_by_project ≡ some x
      → IsConsistent (
          record_terminal p a cancelled
            (record (deactivate s p) { channels = send_true x.cancellation s.channels }))
  cancel_active-IsConsistent x k =
      record_terminal-IsConsistent _ p (signal-IsConsistent s p c x k) a cancelled
        (ground (arith, get-remove p p s.active_by_project, ==_refl p))

  -- A queued attempt is cancelled while another one is active, or none is.
  cancel_queued-IsConsistent :
      ((x : ActiveAttempt) → Map.get p s.active_by_project ≡ some x → x.attempt_id ≢ a)
      → IsConsistent (
          record_terminal p a cancelled
            (record s { queued_attempts = Set.remove (p, a) s.queued_attempts }))
  unfolding record_terminal
  cancel_queued-IsConsistent other =
      let d = queue_remove-IsConsistent s p c a in
      record {
        bounded = length-recorded p a cancelled s.terminal c.bounded;
        unique = recorded-Unique p a cancelled s.terminal c.unique;
        counter = c.counter;
        known = c.known;
        apart = c.apart;
        live = c.live;
        active_unfinished = λ q x e.
            find_last-recorded-none p a cancelled s.terminal c.unique q x.attempt_id
              (c.active_unfinished q x e)
              (ground (arith, ==_iff p q, ==_iff a x.attempt_id, other x));
        queued_unfinished = λ q b e.
            find_last-recorded-none p a cancelled s.terminal c.unique q b
              (d.queued_unfinished q b (
                ground
                  (arith, contains-remove (p, a) (q, b) (Set.remove (p, a) s.queued_attempts))))
              (ground (arith, contains-remove (p, a) (q, b) (Set.remove (p, a) s.queued_attempts)));
      }

  pub cancel-IsConsistent : IsConsistent (cancel p a s).0
  unfolding cancel
  cancel-IsConsistent = elim (Bool-cases (was_cancelled (terminal_status s p a))) [
    | inl e ↦ rw e c
    | inr e ↦ elim (Option-cases (active_attempt s p a)) [
      | inr (x, k) ↦ rw (e, k) (cancel_active-IsConsistent x (ground arith))
      | inl k ↦ elim (Bool-cases (Set.contains (p, a) s.queued_attempts)) [
        | inl q ↦
            rw (e, k, q) (cancel_queued-IsConsistent (λ x g. ground (arith, ==_iff x.attempt_id a)))
        | inr q ↦ rw (e, k, q) c
      ]
    ]
  ]

  pub release-IsConsistent : (g : ℕ) → IsConsistent (release p a g s).0
  unfolding release
  release-IsConsistent g = elim (Option-cases (Map.get p s.active_by_project)) [
    | inl k ↦ rw (k, release, is_active_generation) c
    | inr (x, k) ↦ elim (Bool-cases (is_exactly a g x)) [
      | inl mine ↦
          rw (k, release, is_active_generation, mine)
            (queue_insert-IsConsistent (deactivate s p) p (deactivate-IsConsistent s p c) a
              (ground (arith, c.active_unfinished p x k, ==_iff x.attempt_id a)))
      | inr other ↦ rw (k, release, is_active_generation, other) c
    ]
  ]

  pub complete-IsConsistent : (g : ℕ) (st : AttemptStatus) → IsConsistent (complete p a g st s).0
  unfolding complete
  complete-IsConsistent g st = elim (Option-cases (Map.get p s.active_by_project)) [
    | inl k ↦ rw (k, complete) c
    | inr (x, k) ↦ elim (Bool-cases (is_exactly a g x)) [
      | inr other ↦ rw (k, complete, other) c
      | inl mine ↦
          elim (Bool-cases
            (borrow x.cancellation s.channels || was_cancelled (terminal_status s p a))) [
              | inl told ↦ rw (k, complete, mine, told) (cleared cancelled)
              | inr untold ↦ rw (k, complete, mine, untold) (cleared st)
            ]
    ]
  ]
    where
      cleared : (final : AttemptStatus) → IsConsistent (record_terminal p a final (deactivate s p))
      cleared final =
          record_terminal-IsConsistent (deactivate s p) p (deactivate-IsConsistent s p c) a final
            (ground (arith, get-remove p p s.active_by_project, ==_refl p))

-- One call on the table, as the server's handlers make it.
pub data Call : Type 0 where
  call_queue call_claim call_cancel : Text → Text → Call
  call_complete : Text → Text → ℕ → AttemptStatus → Call
  call_release : Text → Text → ℕ → Call
  call_remove_project call_remove_queued_project : Text → Call

unfoldable pub perform : Call → AiAttempts → AiAttempts
perform (call_queue p a) s = (queue p a s).0
perform (call_claim p a) s = (claim p a s).0
perform (call_cancel p a) s = (cancel p a s).0
perform (call_complete p a g st) s = (complete p a g st s).0
perform (call_release p a g) s = (release p a g s).0
perform (call_remove_project p) s = remove_project p s
perform (call_remove_queued_project p) s = remove_queued_project p s

unfoldable pub run : List Call → AiAttempts → AiAttempts
unfolding perform
run [] s = s
run (call ∷ calls) s = run calls (perform call s)

pub perform-IsConsistent :
    (call : Call) (s : AiAttempts) → IsConsistent s → IsConsistent (perform call s)
unfolding perform
perform-IsConsistent (call_queue p a) s c = queue-IsConsistent p a s c
perform-IsConsistent (call_claim p a) s c = claim-IsConsistent p a s c
perform-IsConsistent (call_cancel p a) s c = cancel-IsConsistent p a s c
perform-IsConsistent (call_complete p a g st) s c = complete-IsConsistent p a s c g st
perform-IsConsistent (call_release p a g) s c = release-IsConsistent p a s c g
perform-IsConsistent (call_remove_project p) s c = remove_project-IsConsistent s p c
perform-IsConsistent (call_remove_queued_project p) s c = remove_queued_project-IsConsistent s p c

pub run-IsConsistent_of :
    (calls : List Call) (s : AiAttempts) → IsConsistent s → IsConsistent (run calls s)
unfolding run
run-IsConsistent_of [] s c = c
run-IsConsistent_of (call ∷ calls) s c =
    run-IsConsistent_of calls (perform call s) (perform-IsConsistent call s c)

-- After any calls on a new table: at most 512 finished attempts are kept, none twice; active
-- attempts have generations and channels of their own, below the counter, and an unset channel; no
-- active and no queued attempt is among the finished ones.
pub run-IsConsistent : (calls : List Call) → IsConsistent (run calls default_attempts)
run-IsConsistent calls = run-IsConsistent_of calls default_attempts default-IsConsistent
