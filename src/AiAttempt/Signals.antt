-- ===== src/AiAttempt/Signals.antt =====
-- apps/local-server/src/ai_attempt.rs: what the holder of a `Cancellation` is told.
use synapsegit_lp_studio.AiAttempt.{
  ActiveAttempt, AiAttempts, active_attempt, borrow, cancel, claim, complete, queue,
  record_terminal, release, remove_project, remove_queued_project, send_true, Cancellation,
  is_active_generation, is_cancelled,
}
use synapsegit_lp_studio.AiAttempt.Steps.{
  Call, call_cancel, call_claim, perform, run, claim-IsConsistent, run-IsConsistent_of,
}
use synapsegit_lp_studio.AiAttempt.Invariant.{
  IsConsistent, claimed, borrow-send_self, claimed_active,
}
use synapsegit_lp_studio.AiAttempt.Late.{Shrinks, is_active_entry, perform-Shrinks}
use synapsegit_lp_studio.Prelude.{
  ==_iff, Bool, List, Option-cases, [], arith, false, inl, inr, length, list_eq, nat_eq, ok, refl,
  some, suc, true, zero, ℕ, ◌++◌, ◌+◌, ◌∷◌, ◌≡◌, ◌≤◌,
}
use synapsegit_lp_studio.Prelude.Text.{Text}
use synapsegit_lp_studio.Prelude.Map.{get-insert}
use synapsegit_lp_studio.Prelude.Map

-- A channel that was set stays set.
borrow-send_true : (i j : ℕ) (l : List Bool) → borrow j l ≡ true → borrow j (send_true i l) ≡ true
unfolding borrow send_true
borrow-send_true i j [] h = h
borrow-send_true zero zero (b ∷ l) h = refl
borrow-send_true zero (suc j) (b ∷ l) h = h
borrow-send_true (suc i) zero (b ∷ l) h = h
borrow-send_true (suc i) (suc j) (b ∷ l) h = borrow-send_true i j l h

borrow-append : (i : ℕ) (l m : List Bool) → borrow i l ≡ true → borrow i (l ++ m) ≡ true
unfolding borrow
borrow-append i [] m h = cc
borrow-append zero (b ∷ l) m h = h
borrow-append (suc i) (b ∷ l) m h = borrow-append i l m h

perform_keeps_signal :
    (call : Call) (i : ℕ) (s : AiAttempts)
    → borrow i s.channels ≡ true
    → borrow i (perform call s).channels ≡ true
unfolding perform queue claim cancel complete release remove_project remove_queued_project
    record_terminal
perform_keeps_signal (call_claim p a) i s h =
    ground (arith, borrow-append i s.channels (false ∷ []) h)
perform_keeps_signal (call_cancel p a) i s h = elim (Option-cases (active_attempt s p a)) [
  | inl k ↦ ground arith
  | inr (x, k) ↦ ground (arith, borrow-send_true x.cancellation i s.channels h)
]
perform_keeps_signal _ i s h = ground arith

run_keeps_signal :
    (calls : List Call) (i : ℕ) (s : AiAttempts)
    → borrow i s.channels ≡ true
    → borrow i (run calls s).channels ≡ true
unfolding run
run_keeps_signal [] i s h = h
run_keeps_signal (call ∷ calls) i s h =
    run_keeps_signal calls i (perform call s) (perform_keeps_signal call i s h)

-- Whoever is active with generation `g` has channel `i`.
record Owns (g i : ℕ) (s : AiAttempts) : Type 0 where
  issued : g ≤ s.next_generation
  owns :
      (p : Text) (x : ActiveAttempt)
      → Map.get p s.active_by_project ≡ some x
      → x.generation ≡ g
      → x.cancellation ≡ i

Shrinks-Owns : (g i : ℕ) (s t : AiAttempts) → Shrinks s t → Owns g i s → Owns g i t
Shrinks-Owns g i s t d h = record {
  issued = rw d.0 h.issued;
  owns = λ p x e. h.owns p x (d.1 p x e);
}

claim-Owns : (p a : Text) (s : AiAttempts) (g i : ℕ) → Owns g i s → Owns g i (claim p a s).0
unfolding claim
claim-Owns p a s g i h = record {
  issued = ground (arith, h.issued);
  owns = λ q x e f. ground (
    arith,
    h.issued,
    h.owns q x,
    get-insert p q
        (record {
          attempt_id = a;
          generation = s.next_generation + 1;
          cancellation = length s.channels;
        })
        s.active_by_project,
  );
}

perform-Owns : (call : Call) (s : AiAttempts) (g i : ℕ) → Owns g i s → Owns g i (perform call s)
perform-Owns call s g i h = elim (perform-Shrinks call s) [
  | inl d ↦ Shrinks-Owns g i s _ d h
  | inr (p, a, e) ↦ rw e (claim-Owns p a s g i h)
]

run-Owns : (calls : List Call) (s : AiAttempts) (g i : ℕ) → Owns g i s → Owns g i (run calls s)
unfolding run
run-Owns [] s g i h = h
run-Owns (call ∷ calls) s g i h = run-Owns calls (perform call s) g i (perform-Owns call s g i h)

cancel_signals :
    (p a : Text) (s : AiAttempts)
    → IsConsistent s
    → (x : ActiveAttempt) → Map.get p s.active_by_project ≡ some x
    → x.attempt_id ≡ a
    → borrow x.cancellation (cancel p a s).0.channels ≡ true
unfolding cancel record_terminal
cancel_signals p a s c x k mine = ground (
  arith,
  c.active_unfinished p x k,
  ==_iff x.attempt_id a,
  borrow-send_self x.cancellation s.channels (c.known p x k).1,
)

module _ (p a : Text) (s t : AiAttempts) (token : Cancellation) (c : IsConsistent s)
    (got : claim p a s ≡ (t, ok token)) where
  claim_ok :
      (t ≡ claimed s p a)
      × (token.receiver ≡ length s.channels)
      × (token.generation ≡ s.next_generation + 1)
  unfolding claim
  claim_ok = ground arith

  claim_ok-IsConsistent : IsConsistent t
  claim_ok-IsConsistent = rw got at (claim-IsConsistent p a s c)

  claim_ok-Owns : Owns token.generation token.receiver t
  claim_ok-Owns = record {
    issued = rw claim_ok.0 (omega (arith, claim_ok.2));
    owns = λ q x e f. ground (
      arith,
      claimed_active s p a c q x (rw claim_ok.0 at e),
      c.known q x,
      claim_ok.1,
      claim_ok.2,
    );
  }

  -- A claim in a consistent table hands out a cancellation. As long as the attempt is active, after
  -- any calls, the cancellation says that it is not cancelled; once `cancel` has been called on it,
  -- and after any further calls, it says that it is.
  pub cancellation_told :
      (before after : List Call)
      → is_active_generation (run before t) p a token.generation ≡ true
      → (is_cancelled token (run before t) ≡ false)
        × (is_cancelled token (run after (cancel p a (run before t)).0) ≡ true)
  unfolding is_cancelled
  cancellation_told before after active =
      let (x, k, mine, e) = is_active_entry p a token.generation (run before t) active in
      let owner = (run-Owns before t _ _ claim_ok-Owns).owns p x k e in
      let consistent = run-IsConsistent_of before t claim_ok-IsConsistent in
      (
        rw (← owner) (consistent.live p x k),
        run_keeps_signal after _ _
            (rw (← owner) (cancel_signals p a (run before t) consistent x k mine)),
      )
