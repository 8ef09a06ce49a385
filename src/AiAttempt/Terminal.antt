-- ===== src/AiAttempt/Terminal.antt =====
-- apps/local-server/src/ai_attempt.rs: what `record_terminal` leaves in the queue of finished
-- attempts. The source writes the first entry that matches and reads the last one.
use synapsegit_lp_studio.AiAttempt.{
  TerminalAttempt, AttemptStatus, matches, find_last, replace_first, pop_front,
  max_terminal_attempts, recorded, push_terminal,
}
use synapsegit_lp_studio.Prelude.{
  ==_iff, ==_refl, Bool, List, Option-cases, [], arith, false, if◌then◌else◌, inl, inr, keep,
  length, length-append, list_eq, nat_eq, none, refl, some, ◌&&◌, ◌++◌, ◌+◌, ◌<◌, ◌==◌, ◌∷◌, ◌≡◌,
  ◌≤◌,
}
use synapsegit_lp_studio.Prelude.Text.{Text}

-- No attempt has two entries.
abbrev pub Unique : List TerminalAttempt → Type 0
Unique [] = Unit
Unique (e ∷ l) = (find_last e.project_id e.attempt_id l ≡ none) × Unique l

abbrev pub same : Text → Text → Text → Text → Bool
same p a q b = p == q && a == b

module _ (p a : Text) where
  pub find_last-append :
      (e : TerminalAttempt) (l : List TerminalAttempt)
      → find_last p a (l ++ e ∷ []) ≡ (if matches p a e then some e.status else find_last p a l)
  unfolding find_last
  find_last-append e [] = refl
  find_last-append e (x ∷ l) = ground (arith, find_last-append e l)

  pub find_last-pop_none :
      (l : List TerminalAttempt) → find_last p a l ≡ none → find_last p a (pop_front l) ≡ none
  unfolding find_last
  find_last-pop_none [] h = refl
  find_last-pop_none (x ∷ l) h = ground arith

  pub find_last-keep-none :
      (f : TerminalAttempt → Bool) (l : List TerminalAttempt)
      → find_last p a l ≡ none
      → find_last p a (keep f l) ≡ none
  unfolding find_last keep
  find_last-keep-none f [] h = refl
  find_last-keep-none f (x ∷ l) h = ground (arith, find_last-keep-none f l)

module _ (p a q b : Text) (st : AttemptStatus) where
  pub replace_first-none :
      (l : List TerminalAttempt) → replace_first p a st l ≡ none → find_last p a l ≡ none
  unfolding replace_first find_last
  replace_first-none [] h = refl
  replace_first-none (x ∷ l) h = ground (arith, replace_first-none l)

  pub find_last-replace_first :
      (l l' : List TerminalAttempt)
      → Unique l
      → replace_first p a st l ≡ some l'
      → find_last q b l' ≡ (if same p a q b then some st else find_last q b l)
  unfolding replace_first find_last
  find_last-replace_first [] l' u h = cc
  find_last-replace_first (x ∷ l) l' u h = elim (Option-cases (replace_first p a st l)) [
    | inl e ↦ ground (
      arith,
      ==_iff x.project_id p,
      ==_iff x.attempt_id a,
      ==_iff x.project_id q,
      ==_iff x.attempt_id b,
      ==_iff p q,
      ==_iff a b,
    )
    | inr (r, e) ↦ ground (
      arith,
      find_last-replace_first l r u.1 e,
      ==_iff x.project_id p,
      ==_iff x.attempt_id a,
      ==_iff x.project_id q,
      ==_iff x.attempt_id b,
      ==_iff p q,
      ==_iff a b,
    )
  ]

module _ (p a : Text) (st : AttemptStatus) where
  Unique-replace_first :
      (l l' : List TerminalAttempt) → Unique l → replace_first p a st l ≡ some l' → Unique l'
  unfolding replace_first find_last
  Unique-replace_first [] l' u h = cc
  Unique-replace_first (x ∷ l) l' u h = elim (Option-cases (replace_first p a st l)) [
    | inl e ↦ ground arith
    | inr (r, e) ↦ ground (
      arith,
      Unique-replace_first l r u.1 e,
      find_last-replace_first p a x.project_id x.attempt_id st l r u.1 e,
      ==_iff x.project_id p,
      ==_iff x.attempt_id a,
      ==_iff p x.project_id,
      ==_iff a x.attempt_id,
    )
  ]

  Unique-append :
      (e : TerminalAttempt) (l : List TerminalAttempt)
      → find_last e.project_id e.attempt_id l ≡ none
      → Unique l
      → Unique (l ++ e ∷ [])
  unfolding find_last
  Unique-append e [] h u = (refl, tt)
  Unique-append e (x ∷ l) h u = ground (
    arith,
    Unique-append e l,
    find_last-append x.project_id x.attempt_id e l,
    ==_iff x.project_id e.project_id,
    ==_iff x.attempt_id e.attempt_id,
    ==_iff e.project_id x.project_id,
    ==_iff e.attempt_id x.attempt_id,
  )

pub Unique-keep :
    (f : TerminalAttempt → Bool) (l : List TerminalAttempt) → Unique l → Unique (keep f l)
unfolding keep
Unique-keep f [] u = tt
Unique-keep f (x ∷ l) u =
    ground (arith, Unique-keep f l u.1, find_last-keep-none x.project_id x.attempt_id f l u.0)

Unique-pop_front : (l : List TerminalAttempt) → Unique l → Unique (pop_front l)
Unique-pop_front [] u = tt
Unique-pop_front (x ∷ l) u = u.1

module _ (p a : Text) (st : AttemptStatus) (l : List TerminalAttempt) where
  recorded-push :
      replace_first p a st l ≡ none
      → recorded p a st l ≡ push_terminal (record { project_id = p; attempt_id = a; status = st }) l
  unfolding recorded
  recorded-push e = ground arith

  recorded-replace :
      (r : List TerminalAttempt) → replace_first p a st l ≡ some r → recorded p a st l ≡ r
  unfolding recorded
  recorded-replace r e = ground arith

module _ (p a : Text) (st : AttemptStatus) (l : List TerminalAttempt) (u : Unique l) where
  abbrev fresh_entry : TerminalAttempt
  fresh_entry = record { project_id = p; attempt_id = a; status = st }

  pub recorded-Unique : Unique (recorded p a st l)
  unfolding push_terminal
  recorded-Unique = elim (Option-cases (replace_first p a st l)) [
    | inl e ↦
        let absent = replace_first-none p a p a st l e in
        rw (recorded-push p a st l e) (
          ground (
            arith,
            Unique-append p a st fresh_entry l absent u,
            Unique-append p a st fresh_entry (pop_front l) (find_last-pop_none p a l absent)
                (Unique-pop_front l u),
          ))
    | inr (r, e) ↦ rw (recorded-replace p a st l r e) (Unique-replace_first p a st l r u e)
  ]

  -- What was just recorded is what is read.
  pub find_last-recorded : find_last p a (recorded p a st l) ≡ some st
  unfolding recorded
  find_last-recorded = elim (Option-cases (replace_first p a st l)) [
    | inl e ↦ ground (
      arith,
      find_last-append p a fresh_entry l,
      find_last-append p a fresh_entry (pop_front l),
      ==_refl p,
      ==_refl a,
    )
    | inr (r, e) ↦ ground (arith, find_last-replace_first p a p a st l r u e, ==_refl p, ==_refl a)
  ]

  -- No other attempt becomes finished.
  pub find_last-recorded-none :
      (q b : Text)
      → find_last q b l ≡ none
      → same p a q b ≡ false
      → find_last q b (recorded p a st l) ≡ none
  unfolding recorded
  find_last-recorded-none q b h ne = elim (Option-cases (replace_first p a st l)) [
    | inl e ↦ ground (
      arith,
      find_last-append q b fresh_entry l,
      find_last-append q b fresh_entry (pop_front l),
      find_last-pop_none q b l h,
    )
    | inr (r, e) ↦ ground (arith, find_last-replace_first p a q b st l r u e)
  ]

  -- While the queue has room, the other attempts keep their statuses.
  pub find_last-recorded_room :
      (q b : Text)
      → length l < max_terminal_attempts
      → find_last q b (recorded p a st l) ≡ (if same p a q b then some st else find_last q b l)
  unfolding recorded
  find_last-recorded_room q b room = elim (Option-cases (replace_first p a st l)) [
    | inl e ↦ ground (arith, find_last-append q b fresh_entry l)
    | inr (r, e) ↦ ground (arith, find_last-replace_first p a q b st l r u e)
  ]

module _ (p a : Text) (st : AttemptStatus) where
  length-replace_first :
      (l l' : List TerminalAttempt) → replace_first p a st l ≡ some l' → length l' ≡ length l
  unfolding replace_first
  length-replace_first [] l' h = cc
  length-replace_first (x ∷ l) l' h = elim (Option-cases (replace_first p a st l)) [
    | inl e ↦ ground arith
    | inr (r, e) ↦ ground (arith, length-replace_first l r e)
  ]

  length-pop_front :
      (l : List TerminalAttempt)
      → length l ≡ max_terminal_attempts
      → length (pop_front l) + 1 ≡ max_terminal_attempts
  length-pop_front [] h = absurd (omega arith)
  length-pop_front (x ∷ l) h = omega arith

  pub length-recorded :
      (l : List TerminalAttempt)
      → length l ≤ max_terminal_attempts
      → length (recorded p a st l) ≤ max_terminal_attempts
  unfolding push_terminal
  length-recorded l h = elim (Option-cases (replace_first p a st l)) [
    | inl e ↦ rw (recorded-push p a st l e) (
        ground (
          arith,
          length-append l (record { project_id = p; attempt_id = a; status = st } ∷ []),
          length-append (pop_front l) (record { project_id = p; attempt_id = a; status = st } ∷ []),
          length-pop_front l,
        ))
    | inr (r, e) ↦ rw (recorded-replace p a st l r e) (omega (arith, length-replace_first l r e))
  ]
