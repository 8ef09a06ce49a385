-- ===== src/AiAttempt/Late.antt =====
-- apps/local-server/src/ai_attempt.rs: what a provider's answer can do that comes late.
use synapsegit_lp_studio.AiAttempt.{
  ActiveAttempt, AiAttempts, AttemptStatus, cancel, complete, queue, record_terminal, release,
  claim, complete_recorded, is_active_generation, remove_project, remove_queued_project,
}
use synapsegit_lp_studio.AiAttempt.Invariant.{left_active, IsConsistent}
use synapsegit_lp_studio.AiAttempt.Steps.{
  Call, call_cancel, call_claim, call_complete, call_queue, call_release, call_remove_project,
  call_remove_queued_project, perform, run,
}
use synapsegit_lp_studio.Prelude.{
  ==_iff, ==_refl, List, Option-cases, [], arith, inl, inr, length, list_eq, nat_eq, refl, some,
  sym, true, ℕ, ◌+◌, ◌∷◌, ◌≡◌, ◌≢◌, ◌≤◌, ◌⊎◌,
}
use synapsegit_lp_studio.Prelude.Text.{Text}
use synapsegit_lp_studio.Prelude.Map.{get-insert}
use synapsegit_lp_studio.Prelude.Map

-- No active attempt has this generation, and none will: the counter is past it.
pub record IsSpent (g : ℕ) (s : AiAttempts) : Type 0 where
  pub issued : g ≤ s.next_generation
  pub idle :
      (p : Text) (x : ActiveAttempt) → Map.get p s.active_by_project ≡ some x → x.generation ≢ g

-- Less is active, and the counter is the same.
abbrev pub Shrinks : AiAttempts → AiAttempts → Type 0
Shrinks s t =
    (t.next_generation ≡ s.next_generation)
    × ((p : Text) (x : ActiveAttempt)
        → Map.get p t.active_by_project ≡ some x
        → Map.get p s.active_by_project ≡ some x)

Shrinks-IsSpent : (g : ℕ) (s t : AiAttempts) → Shrinks s t → IsSpent g s → IsSpent g t
Shrinks-IsSpent g s t d h = record {
  issued = rw d.0 h.issued;
  idle = λ p x e. h.idle p x (d.1 p x e);
}

module _ (p a : Text) (s : AiAttempts) where
  queue-Shrinks : Shrinks s (queue p a s).0
  unfolding queue
  queue-Shrinks = (ground arith, λ q x e. ground arith)

  cancel-Shrinks : Shrinks s (cancel p a s).0
  unfolding cancel record_terminal
  cancel-Shrinks = (ground arith, λ q x e. ground (arith, left_active s p q x))

  release-Shrinks : (g : ℕ) → Shrinks s (release p a g s).0
  unfolding release
  release-Shrinks g = (ground arith, λ q x e. ground (arith, left_active s p q x))

  complete-Shrinks : (g : ℕ) (st : AttemptStatus) → Shrinks s (complete p a g st s).0
  unfolding complete record_terminal
  complete-Shrinks g st = (ground arith, λ q x e. ground (arith, left_active s p q x))

claim-IsSpent : (p a : Text) (s : AiAttempts) (g : ℕ) → IsSpent g s → IsSpent g (claim p a s).0
unfolding claim
claim-IsSpent p a s g h = record {
  issued = ground (arith, h.issued);
  idle = λ q x e. ground (
    arith,
    h.issued,
    h.idle q x,
    get-insert p q
        (record {
          attempt_id = a;
          generation = s.next_generation + 1;
          cancellation = length s.channels;
        })
        s.active_by_project,
  );
}

-- A call is a claim, or activates nothing.
pub perform-Shrinks :
    (call : Call) (s : AiAttempts)
    → Shrinks s (perform call s) ⊎ ((p : Text) × (a : Text) × (perform call s ≡ (claim p a s).0))
unfolding perform
perform-Shrinks (call_queue p a) s = inl (queue-Shrinks p a s)
perform-Shrinks (call_claim p a) s = inr (p, a, refl)
perform-Shrinks (call_cancel p a) s = inl (cancel-Shrinks p a s)
perform-Shrinks (call_complete p a g st) s = inl (complete-Shrinks p a s g st)
perform-Shrinks (call_release p a g) s = inl (release-Shrinks p a s g)
perform-Shrinks (call_remove_project p) s =
    inl (unfold remove_project in (refl, λ q x e. (left_active s p q x e).0))
perform-Shrinks (call_remove_queued_project p) s =
    inl (unfold remove_queued_project in (refl, λ q x e. e))

perform-IsSpent : (call : Call) (s : AiAttempts) (g : ℕ) → IsSpent g s → IsSpent g (perform call s)
perform-IsSpent call s g h = elim (perform-Shrinks call s) [
  | inl d ↦ Shrinks-IsSpent g s _ d h
  | inr (p, a, e) ↦ rw e (claim-IsSpent p a s g h)
]

run-IsSpent : (calls : List Call) (s : AiAttempts) (g : ℕ) → IsSpent g s → IsSpent g (run calls s)
unfolding run
run-IsSpent [] s g h = h
run-IsSpent (call ∷ calls) s g h = run-IsSpent calls (perform call s) g (perform-IsSpent call s g h)

complete_spent :
    (p a : Text) (g : ℕ) (st : AttemptStatus) (s : AiAttempts)
    → IsSpent g s
    → ((complete p a g st s).0 ≡ s) × ((complete p a g st s).1 ≢ complete_recorded)
unfolding complete
complete_spent p a g st s h = elim (Option-cases (Map.get p s.active_by_project)) [
  | inl k ↦ (ground arith, ground arith)
  | inr (x, k) ↦ (ground (arith, h.idle p x k), ground (arith, h.idle p x k))
]

-- The calls that end the active attempt of generation `g`.
pub data Ends (p a : Text) (g : ℕ) : Call → Type 0 where
  by_cancel : Ends p a g (call_cancel p a)
  by_complete : (st : AttemptStatus) → Ends p a g (call_complete p a g st)
  by_release : Ends p a g (call_release p a g)
  by_removal : Ends p a g (call_remove_project p)

pub is_active_entry :
    (p a : Text) (g : ℕ) (s : AiAttempts)
    → is_active_generation s p a g ≡ true
    → (x : ActiveAttempt) × (Map.get p s.active_by_project ≡ some x)
      × (x.attempt_id ≡ a)
      × (x.generation ≡ g)
unfolding is_active_generation
is_active_entry p a g s h = elim (Option-cases (Map.get p s.active_by_project)) [
  | inl k ↦ absurd (ground arith)
  | inr (x, k) ↦
      (x, k, ground (arith, ==_iff x.attempt_id a), ground (arith, ==_iff x.attempt_id a))
]

-- Where the project has no entry any more, the generation is spent.
cleared-IsSpent :
    (p : Text) (s t : AiAttempts) (x : ActiveAttempt)
    → IsConsistent s
    → Map.get p s.active_by_project ≡ some x
    → t.next_generation ≡ s.next_generation
    → t.active_by_project ≡ Map.remove p s.active_by_project
    → IsSpent x.generation t
cleared-IsSpent p s t x c k n m = record {
  issued = rw n (c.known p x k).0;
  idle = λ q y e f.
      let (old, ne) = left_active s p q y (rw m at e) in (c.apart p q x y k old ne).0 (sym f);
}

module _ (p a : Text) (s : AiAttempts) (c : IsConsistent s) (x : ActiveAttempt)
    (k : Map.get p s.active_by_project ≡ some x) (mine : x.attempt_id ≡ a) where
  cancel_clears :
      ((cancel p a s).0.next_generation ≡ s.next_generation)
      × ((cancel p a s).0.active_by_project ≡ Map.remove p s.active_by_project)
  unfolding cancel record_terminal
  cancel_clears = ground (arith, c.active_unfinished p x k, ==_iff x.attempt_id a)

  complete_clears :
      (st : AttemptStatus)
      → ((complete p a x.generation st s).0.next_generation ≡ s.next_generation)
        × ((complete p a x.generation st s).0.active_by_project ≡ Map.remove p s.active_by_project)
  unfolding complete record_terminal
  complete_clears st = ground (arith, ==_iff x.attempt_id a, ==_refl x.generation)

  release_clears :
      ((release p a x.generation s).0.next_generation ≡ s.next_generation)
      × ((release p a x.generation s).0.active_by_project ≡ Map.remove p s.active_by_project)
  unfolding release
  release_clears = ground (arith, ==_iff x.attempt_id a, ==_refl x.generation)

  Ends-IsSpent :
      {g : ℕ} (call : Call)
      → Ends p a g call
      → x.generation ≡ g
      → IsSpent x.generation (perform call s)
  unfolding perform
  Ends-IsSpent _ by_cancel e = cleared-IsSpent p s _ x c k cancel_clears.0 cancel_clears.1
  Ends-IsSpent _ (by_complete st) e =
      rw (← e) (cleared-IsSpent p s _ x c k (complete_clears st).0 (complete_clears st).1)
  Ends-IsSpent _ by_release e =
      rw (← e) (cleared-IsSpent p s _ x c k release_clears.0 release_clears.1)
  Ends-IsSpent _ by_removal e =
      cleared-IsSpent p s _ x c k (unfold remove_project in refl) (unfold remove_project in refl)

-- In a consistent table, take any call that ends the active attempt `a` of project `p` with
-- generation `g` (a cancel, a completion, a release or the project's removal), and any calls after
-- it. Then a completion with that generation, whatever its status, changes nothing and is not
-- recorded.
pub late_answer :
    (p a : Text) (g : ℕ) (s : AiAttempts)
    → IsConsistent s
    → is_active_generation s p a g ≡ true
    → (last : Call) → Ends p a g last
    → (calls : List Call) (st : AttemptStatus)
    → ((complete p a g st (run calls (perform last s))).0 ≡ run calls (perform last s))
      × ((complete p a g st (run calls (perform last s))).1 ≢ complete_recorded)
late_answer p a g s c active last ends calls st =
    let (x, k, mine, e) = is_active_entry p a g s active in
    let spent = Ends-IsSpent p a s c x k mine last ends e in
    complete_spent p a g st _ (run-IsSpent calls (perform last s) g (rw e at spent))
