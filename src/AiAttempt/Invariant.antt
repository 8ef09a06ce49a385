-- ===== src/AiAttempt/Invariant.antt =====
-- apps/local-server/src/ai_attempt.rs: what holds of the table between two calls.
use synapsegit_lp_studio.AiAttempt.{
  ActiveAttempt, AiAttempts, borrow, default_attempts, find_last, max_terminal_attempts, send_true,
  u64_max, AttemptStatus, record_terminal, remove_project, remove_queued_project,
}
use synapsegit_lp_studio.AiAttempt.Terminal.{
  Unique, find_last-recorded-none, length-recorded, recorded-Unique, Unique-keep,
  find_last-keep-none,
}
use synapsegit_lp_studio.Prelude.{
  ==_iff, Bool, Bool-cases, List, [], ap, arith, false, inl, inr, length, length-append,
  length-keep-le, list_eq, nat_eq, none, not, pair_eq, refl, some, suc, true, zero, ℕ, ◌++◌, ◌+◌,
  ◌<◌, ◌==◌, ◌∙◌, ◌∷◌, ◌≡◌, ◌≢◌, ◌≤◌, ◌⊎◌,
}
use synapsegit_lp_studio.Prelude.Text.{Text}
use synapsegit_lp_studio.Prelude.Map.{get-insert, get-remove}
use synapsegit_lp_studio.Prelude.Set.{contains-insert, contains-keep, contains-remove}
use synapsegit_lp_studio.Prelude.Map
use synapsegit_lp_studio.Prelude.Set

pub record IsConsistent (s : AiAttempts) : Type 0 where
  pub bounded : length s.terminal ≤ max_terminal_attempts
  pub unique : Unique s.terminal
  pub counter : s.next_generation ≤ u64_max
  pub known :
      (p : Text) (x : ActiveAttempt)
      → Map.get p s.active_by_project ≡ some x
      → (x.generation ≤ s.next_generation) × (x.cancellation < length s.channels)
  pub apart :
      (p q : Text) (x y : ActiveAttempt)
      → Map.get p s.active_by_project ≡ some x
      → Map.get q s.active_by_project ≡ some y
      → p ≢ q
      → (x.generation ≢ y.generation) × (x.cancellation ≢ y.cancellation)
  pub live :
      (p : Text) (x : ActiveAttempt)
      → Map.get p s.active_by_project ≡ some x
      → borrow x.cancellation s.channels ≡ false
  pub active_unfinished :
      (p : Text) (x : ActiveAttempt)
      → Map.get p s.active_by_project ≡ some x
      → find_last p x.attempt_id s.terminal ≡ none
  pub queued_unfinished :
      (p a : Text) → Set.contains (p, a) s.queued_attempts ≡ true → find_last p a s.terminal ≡ none

pub default-IsConsistent : IsConsistent default_attempts
unfolding Map.get Set.contains
default-IsConsistent = record {
  bounded = omega arith;
  unique = tt;
  counter = omega arith;
  known = λ p x e. cc;
  apart = λ p q x y e f ne. cc;
  live = λ p x e. cc;
  active_unfinished = λ p x e. cc;
  queued_unfinished = λ p a e. cc;
}

pub borrow-send_self : (i : ℕ) (l : List Bool) → i < length l → borrow i (send_true i l) ≡ true
unfolding borrow send_true
borrow-send_self i [] h = absurd (omega arith)
borrow-send_self zero (b ∷ l) h = refl
borrow-send_self (suc i) (b ∷ l) h = borrow-send_self i l (omega arith)

pub borrow-send_ne : (i j : ℕ) (l : List Bool) → i ≢ j → borrow j (send_true i l) ≡ borrow j l
unfolding borrow send_true
borrow-send_ne i j [] h = refl
borrow-send_ne zero zero (b ∷ l) h = absurd (h refl)
borrow-send_ne zero (suc j) (b ∷ l) h = refl
borrow-send_ne (suc i) zero (b ∷ l) h = refl
borrow-send_ne (suc i) (suc j) (b ∷ l) h = borrow-send_ne i j l (omega arith)

pub length-send_true : (i : ℕ) (l : List Bool) → length (send_true i l) ≡ length l
unfolding send_true
length-send_true i [] = refl
length-send_true zero (b ∷ l) = refl
length-send_true (suc i) (b ∷ l) = ap suc (length-send_true i l)

pub borrow-append_false : (i : ℕ) (l : List Bool) → borrow i (l ++ false ∷ []) ≡ borrow i l
unfolding borrow
borrow-append_false zero [] = refl
borrow-append_false (suc i) [] = refl
borrow-append_false zero (b ∷ l) = refl
borrow-append_false (suc i) (b ∷ l) = borrow-append_false i l

pub borrow_beyond : (i : ℕ) (l : List Bool) → length l ≤ i → borrow i l ≡ false
unfolding borrow
borrow_beyond i [] h = refl
borrow_beyond zero (b ∷ l) h = absurd (omega arith)
borrow_beyond (suc i) (b ∷ l) h = borrow_beyond i l (omega arith)

-- An entry that the map without `p` holds, the map holds, and it is not `p`'s.
module _ (s : AiAttempts) (p : Text) where
  pub left_active :
      (q : Text) (x : ActiveAttempt)
      → Map.get q (Map.remove p s.active_by_project) ≡ some x
      → (Map.get q s.active_by_project ≡ some x) × (p ≢ q)
  left_active q x e = elim (Bool-cases (p == q)) [
    | inl same_key ↦ absurd (ground (arith, get-remove p q s.active_by_project))
    | inr other ↦ (ground (arith, get-remove p q s.active_by_project), ground (arith, ==_iff p q))
  ]

  abbrev pub deactivate : AiAttempts
  deactivate = record s { active_by_project = Map.remove p s.active_by_project }

module _ (s : AiAttempts) (p : Text) (c : IsConsistent s) where
  pub deactivate-IsConsistent : IsConsistent (deactivate s p)
  deactivate-IsConsistent = record {
    bounded = c.bounded;
    unique = c.unique;
    counter = c.counter;
    known = λ q x e. c.known q x (left_active s p q x e).0;
    apart = λ q r x y e f. c.apart q r x y (left_active s p q x e).0 (left_active s p r y f).0;
    live = λ q x e. c.live q x (left_active s p q x e).0;
    active_unfinished = λ q x e. c.active_unfinished q x (left_active s p q x e).0;
    queued_unfinished = c.queued_unfinished;
  }

  -- Telling the attempt that leaves does not reach another one's channel.
  pub signal-IsConsistent :
      (x : ActiveAttempt)
      → Map.get p s.active_by_project ≡ some x
      → IsConsistent (record (deactivate s p) { channels = send_true x.cancellation s.channels })
  signal-IsConsistent x here = record {
    bounded = c.bounded;
    unique = c.unique;
    counter = c.counter;
    known = λ q y e.
        let k = c.known q y (left_active s p q y e).0 in
        (k.0, rw (length-send_true x.cancellation s.channels) k.1);
    apart = λ q r y z e f. c.apart q r y z (left_active s p q y e).0 (left_active s p r z f).0;
    live = λ q y e.
        let (old, ne) = left_active s p q y e in
        borrow-send_ne x.cancellation y.cancellation s.channels (c.apart p q x y here old ne).1
        ∙ c.live q y old;
    active_unfinished = λ q y e. c.active_unfinished q y (left_active s p q y e).0;
    queued_unfinished = c.queued_unfinished;
  }

  module _ (a : Text) where
    pub queue_remove-IsConsistent :
        IsConsistent (record s { queued_attempts = Set.remove (p, a) s.queued_attempts })
    queue_remove-IsConsistent = record {
      bounded = c.bounded;
      unique = c.unique;
      counter = c.counter;
      known = c.known;
      apart = c.apart;
      live = c.live;
      active_unfinished = c.active_unfinished;
      queued_unfinished = λ q b e.
          c.queued_unfinished q b (ground (arith, contains-remove (p, a) (q, b) s.queued_attempts));
    }

    pub queue_insert-IsConsistent :
        find_last p a s.terminal ≡ none
        → IsConsistent (record s { queued_attempts = Set.insert (p, a) s.queued_attempts })
    queue_insert-IsConsistent h = record {
      bounded = c.bounded;
      unique = c.unique;
      counter = c.counter;
      known = c.known;
      apart = c.apart;
      live = c.live;
      active_unfinished = c.active_unfinished;
      queued_unfinished = λ q b e. ground (
        arith,
        c.queued_unfinished q b,
        contains-insert (p, a) (q, b) s.queued_attempts,
        ==_iff p q,
        ==_iff a b,
      );
    }

    -- Of an attempt that is not active.
    pub record_terminal-IsConsistent :
        (st : AttemptStatus)
        → Map.get p s.active_by_project ≡ none
        → IsConsistent (record_terminal p a st s)
    unfolding record_terminal
    record_terminal-IsConsistent st idle = record {
      bounded = length-recorded p a st s.terminal c.bounded;
      unique = recorded-Unique p a st s.terminal c.unique;
      counter = c.counter;
      known = c.known;
      apart = c.apart;
      live = c.live;
      active_unfinished = λ q x e.
          find_last-recorded-none p a st s.terminal c.unique q x.attempt_id
            (c.active_unfinished q x e) (ground (arith, ==_iff p q));
      queued_unfinished = λ q b e.
          find_last-recorded-none p a st s.terminal c.unique q b
            (c.queued_unfinished q b
              (ground (arith, contains-remove (p, a) (q, b) s.queued_attempts)))
            (ground (arith, contains-remove (p, a) (q, b) s.queued_attempts));
    }

pub remove_queued_project-IsConsistent :
    (s : AiAttempts) (p : Text) → IsConsistent s → IsConsistent (remove_queued_project p s)
unfolding remove_queued_project
remove_queued_project-IsConsistent s p c = record {
  bounded = c.bounded;
  unique = c.unique;
  counter = c.counter;
  known = c.known;
  apart = c.apart;
  live = c.live;
  active_unfinished = c.active_unfinished;
  queued_unfinished = λ q b e.
      c.queued_unfinished q b
        (ground (arith, contains-keep (λ x. not (x.0 == p)) (q, b) s.queued_attempts));
}

pub remove_project-IsConsistent :
    (s : AiAttempts) (p : Text) → IsConsistent s → IsConsistent (remove_project p s)
unfolding remove_project
remove_project-IsConsistent s p c = record {
  bounded = omega (arith, length-keep-le {0} (λ x. not (x.project_id == p)) s.terminal, c.bounded);
  unique = Unique-keep _ s.terminal c.unique;
  counter = c.counter;
  known = (deactivate-IsConsistent s p c).known;
  apart = (deactivate-IsConsistent s p c).apart;
  live = (deactivate-IsConsistent s p c).live;
  active_unfinished = λ q x e.
      find_last-keep-none q x.attempt_id _ s.terminal
        ((deactivate-IsConsistent s p c).active_unfinished q x e);
  queued_unfinished = λ q b e. find_last-keep-none q b _ s.terminal (
      c.queued_unfinished q b
        (ground (arith, contains-keep (λ x. not (x.0 == p)) (q, b) s.queued_attempts)));
}

-- The table after a successful claim.
abbrev pub claimed : AiAttempts → Text → Text → AiAttempts
claimed s p a = record {
  active_by_project =
      Map.insert p
        (record {
          attempt_id = a;
          generation = s.next_generation + 1;
          cancellation = length s.channels;
        })
        s.active_by_project;
  queued_attempts = Set.remove (p, a) s.queued_attempts;
  terminal = s.terminal;
  next_generation = s.next_generation + 1;
  channels = s.channels ++ false ∷ [];
}

module _ (s : AiAttempts) (p a : Text) (c : IsConsistent s) where
  -- An entry after the claim is the new one, or an old one of another project.
  pub claimed_active :
      (q : Text) (x : ActiveAttempt)
      → Map.get q (claimed s p a).active_by_project ≡ some x
      → ((p ≡ q)
          × (x.attempt_id ≡ a)
          × (x.generation ≡ s.next_generation + 1)
          × (x.cancellation ≡ length s.channels))
        ⊎ ((p ≢ q) × (Map.get q s.active_by_project ≡ some x))
  claimed_active q x e =
      let entry : ActiveAttempt = record {
        attempt_id = a;
        generation = s.next_generation + 1;
        cancellation = length s.channels;
      } in
      let inserted = get-insert p q entry s.active_by_project in
      elim (Bool-cases (p == q)) [
        | inl same_key ↦ inl (ground (arith, ==_iff p q))
        | inr other ↦ inr (ground (arith, ==_iff p q))
      ]

  pub claimed-IsConsistent :
      s.next_generation < u64_max → find_last p a s.terminal ≡ none → IsConsistent (claimed s p a)
  claimed-IsConsistent room unfinished = record {
    bounded = c.bounded;
    unique = c.unique;
    counter = omega arith;
    known = λ q x e.
        ground (arith, claimed_active q x e, c.known q x, length-append s.channels (false ∷ []));
    apart = λ q r x y e f ne. ground (
      arith,
      claimed_active q x e,
      claimed_active r y f,
      c.known q x,
      c.known r y,
      c.apart q r x y,
    );
    live = λ q x e. ground (
      arith,
      claimed_active q x e,
      c.live q x,
      borrow-append_false x.cancellation s.channels,
      borrow_beyond x.cancellation s.channels,
    );
    active_unfinished = λ q x e. ground (arith, claimed_active q x e, c.active_unfinished q x);
    queued_unfinished = λ q b e.
        c.queued_unfinished q b (ground (arith, contains-remove (p, a) (q, b) s.queued_attempts));
  }
