-- ===== src/Storage/Disk/Triple.antt =====
-- apps/local-server/src/storage.rs: a logic for the operations on the disk. A triple says of an
-- operation that starts on a disk with one property that it ends, with its value, on a disk with the
-- second, or, by an error or a stop, on a disk with the third. A strict triple says besides that the
-- operation ends with its value if no effect is at fault.
use synapsegit_lp_studio.Storage.Paths.{Stored, StorageError}
use synapsegit_lp_studio.Storage.Disk.{
  Disk, Fate, Io, Ran, done, failed, next, of_result, ran, stopped, pass, cleanup, or_else,
}
use synapsegit_lp_studio.Prelude.{
  Bool, Bool-cases, List, [], err, false, if◌then◌else◌, inl, inr, ok, ok_injective, refl, subst,
  sym, true, ◌∷◌, ◌≡◌, ◌≢◌,
}

abbrev pub Holds :
    {A : Type 0} → Bool → (A → Disk → Type 0) → (Disk → Type 0) → List Fate → Ran A → Type 0
Holds strict Q E fates (ran (done a) rest d) = Q a d × (fates ≡ [] → rest ≡ [])
Holds strict Q E fates (ran (failed e) rest d) = E d × (strict ≡ true → fates ≢ [])
Holds strict Q E fates (ran stopped rest d) = E d × (strict ≡ true → fates ≢ [])

pub record Post {A : Type 0} (strict : Bool) (Q : A → Disk → Type 0) (E : Disk → Type 0)
    (fates : List Fate) (x : Ran A) : Type 0 where
  pub held : Holds strict Q E fates x

pub record Triple {A : Type 0} (strict : Bool) (P : Disk → Type 0) (Q : A → Disk → Type 0)
    (E : Disk → Type 0) (m : Io A) : Type 0 where
  pub runs : (fates : List Fate) (d : Disk) → P d → Post strict Q E fates (m fates d)

-- the fates before a part that has run
earlier :
    {A : Type 0} {strict : Bool} {Q : A → Disk → Type 0} {E : Disk → Type 0}
    {fates rest : List Fate} (x : Ran A)
    → (fates ≡ [] → rest ≡ [])
    → Post strict Q E rest x
    → Post strict Q E fates x
earlier (ran (done a) last d) before h = record { held = (h.held.0, λ e. h.held.1 (before e)) }
earlier (ran (failed e) last d) before h = record {
  held = (h.held.0, λ s e. h.held.1 s (before e));
}
earlier (ran stopped last d) before h = record { held = (h.held.0, λ s e. h.held.1 s (before e)) }

next-Post :
    {A B : Type 0} {strict : Bool} {R : B → Disk → Type 0} {Q : A → Disk → Type 0}
    {E : Disk → Type 0} {fates : List Fate} (x : Ran B) (k : B → Io A)
    → Post strict R E fates x
    → ((b : B) → Triple strict (R b) Q E (k b))
    → Post strict Q E fates (next x k)
next-Post (ran (done b) rest d) k h g = earlier (k b rest d) h.held.1 ((g b).runs rest d h.held.0)
next-Post (ran (failed e) rest d) k h g = record { held = h.held }
next-Post (ran stopped rest d) k h g = record { held = h.held }

-- The rules, for one operation after the other.
pub bind-Triple :
    {A B : Type 0} {strict : Bool} {P E : Disk → Type 0} {R : A → Disk → Type 0}
    {Q : B → Disk → Type 0} {m : Io A} {k : A → Io B}
    → Triple strict P R E m
    → ((a : A) → Triple strict (R a) Q E (k a))
    → Triple strict P Q E (λ fates d. next (m fates d) k)
bind-Triple {m} {k} f g = record {
  runs = λ fates d p. next-Post (m fates d) k (f.runs fates d p) g;
}

pub seq-Triple :
    {B : Type 0} {strict : Bool} {P R E : Disk → Type 0} {Q : B → Disk → Type 0} {m : Io Unit}
    {k : Io B}
    → Triple strict P (λ u. R) E m
    → Triple strict R Q E k
    → Triple strict P Q E (λ fates d. next (m fates d) (λ u. k))
seq-Triple {m} {k} f g = record {
  runs = λ fates d p. next-Post (m fates d) (λ u. k) (f.runs fates d p) (λ u. g);
}

weaken-Post :
    {A : Type 0} {strict : Bool} {Q R : A → Disk → Type 0} {E : Disk → Type 0} {fates : List Fate}
    (x : Ran A)
    → ((a : A) (d : Disk) → Q a d → R a d)
    → Post strict Q E fates x
    → Post strict R E fates x
weaken-Post (ran (done a) rest d) f h = record { held = (f a d h.held.0, h.held.1) }
weaken-Post (ran (failed e) rest d) f h = record { held = h.held }
weaken-Post (ran stopped rest d) f h = record { held = h.held }

-- Less to start from, and more to end with.
pub weaken-Triple :
    {A : Type 0} {strict : Bool} {P P' E : Disk → Type 0} {Q Q' : A → Disk → Type 0} {m : Io A}
    → ((d : Disk) → P' d → P d)
    → ((a : A) (d : Disk) → Q a d → Q' a d)
    → Triple strict P Q E m
    → Triple strict P' Q' E m
weaken-Triple {m} f g t = record {
  runs = λ fates d p. weaken-Post (m fates d) g (t.runs fates d (f d p));
}

pub cons_not_empty : (x : Fate) (xs : List Fate) → x ∷ xs ≢ []
cons_not_empty x xs h = cc h

pub result-Post :
    {A : Type 0} {strict : Bool} {Q : A → Disk → Type 0} {E : Disk → Type 0} {before : List Fate}
    (r : Stored A) (a : A) (fates : List Fate) (d : Disk)
    → r ≡ ok a
    → Q a d
    → (before ≡ [] → fates ≡ [])
    → Post strict Q E before (of_result r fates d)
result-Post {Q} (ok b) a fates d e q still = record {
  held = (subst (λ c. Q c d) (sym (ok_injective e)) q, still);
}
result-Post (err e) a fates d h q still = cc

-- A test that is passed, one that may refuse, and a reading that succeeds.
pub passed-Triple :
    {A : Type 0} {strict : Bool} {P E : Disk → Type 0} (r : Stored A) (a : A)
    → r ≡ ok a
    → Triple strict P (λ b d. (b ≡ a) × P d) E (of_result r)
passed-Triple r a e = record { runs = λ fates d p. result-Post r a fates d e (refl, p) (λ h. h) }

pub passes-Triple :
    {strict : Bool} {P E : Disk → Type 0} (r : Stored Unit)
    → r ≡ ok tt
    → Triple strict P (λ u. P) E (of_result r)
passes-Triple r e = record { runs = λ fates d p. result-Post r tt fates d e p (λ h. h) }

-- What the first property implies of other things than the disk may be used.
pub given-Triple :
    {F A : Type 0} {strict : Bool} {P E : Disk → Type 0} {Q : A → Disk → Type 0} {m : Io A}
    → ((d : Disk) → P d → F)
    → (F → Triple strict P Q E m)
    → Triple strict P Q E m
given-Triple f t = record { runs = λ fates d p. (t (f d p)).runs fates d p }

loosen-Post :
    {A : Type 0} {strict : Bool} {Q : A → Disk → Type 0} {E E' : Disk → Type 0} {fates : List Fate}
    (x : Ran A)
    → ((d : Disk) → E d → E' d)
    → Post strict Q E fates x
    → Post strict Q E' fates x
loosen-Post (ran (done a) rest d) f h = record { held = h.held }
loosen-Post (ran (failed e) rest d) f h = record { held = (f d h.held.0, h.held.1) }
loosen-Post (ran stopped rest d) f h = record { held = (f d h.held.0, h.held.1) }

pub loosen-Triple :
    {A : Type 0} {strict : Bool} {P E E' : Disk → Type 0} {Q : A → Disk → Type 0} {m : Io A}
    → ((d : Disk) → E d → E' d)
    → Triple strict P Q E m
    → Triple strict P Q E' m
loosen-Triple {m} f t = record { runs = λ fates d p. loosen-Post (m fates d) f (t.runs fates d p) }

pub pass-Triple :
    {A : Type 0} {strict : Bool} {P E : Disk → Type 0} (a : A) → Triple strict P (λ b. P) E (pass a)
pass-Triple a = record { runs = λ fates d p. record { held = (p, λ e. e) } }

-- The value that an operation takes is known.
pub known-Triple :
    {A B : Type 0} {strict : Bool} {P E : Disk → Type 0} {Q : B → Disk → Type 0} (k : A → Io B)
    (a b : A)
    → Triple strict P Q E (k a)
    → Triple strict (λ d. (b ≡ a) × P d) Q E (k b)
known-Triple {strict} {E} {Q} k a b t = record {
  runs =
      λ fates d (e, p). subst (λ c. Post strict Q E fates (k c fates d)) (sym e) (t.runs fates d p);
}

pub tried-Triple :
    {A : Type 0} {P E : Disk → Type 0} (r : Stored A)
    → ((d : Disk) → P d → E d)
    → Triple false P (λ a d. (r ≡ ok a) × P d) E (of_result r)
tried-Triple (ok a) bad = record { runs = λ fates d p. record { held = ((refl, p), λ e. e) } }
tried-Triple (err e) bad = record {
  runs = λ fates d p. record { held = (bad d p, λ h. absurd (cc h)) };
}

-- What follows a test that may refuse may use that it has passed.
pub tried_then-Triple :
    {A B : Type 0} {P E : Disk → Type 0} {Q : B → Disk → Type 0} (r : Stored A) {k : A → Io B}
    → ((d : Disk) → P d → E d)
    → ((a : A) → r ≡ ok a → Triple false P Q E (k a))
    → Triple false P Q E (λ fates d. next (of_result r fates d) k)
tried_then-Triple (ok a) bad t = record { runs = λ fates d p. (t a refl).runs fates d p }
tried_then-Triple (err e) bad t = record {
  runs = λ fates d p. record { held = (bad d p, λ h. absurd (cc h)) };
}

pub impossible-Triple :
    {A : Type 0} {strict : Bool} {P E : Disk → Type 0} {Q : A → Disk → Type 0} {m : Io A}
    → ((d : Disk) → P d → ⊥)
    → Triple strict P Q E m
impossible-Triple never = record { runs = λ fates d p. absurd (never d p) }

pub branch-Triple :
    {A : Type 0} {strict : Bool} {P E : Disk → Type 0} {Q : A → Disk → Type 0} {m k : Io A}
    (b : Disk → Bool)
    → Triple strict (λ d. P d × (b d ≡ true)) Q E m
    → Triple strict (λ d. P d × (b d ≡ false)) Q E k
    → Triple strict P Q E (λ fates d. if b d then m fates d else k fates d)
branch-Triple {strict} {E} {Q} {m} {k} b when_true when_false = record {
  runs = λ fates d p. elim (Bool-cases (b d)) [
    | inl e ↦
        subst (λ c. Post strict Q E fates (if c then m fates d else k fates d)) (sym e)
          (when_true.runs fates d (p, e))
    | inr e ↦
        subst (λ c. Post strict Q E fates (if c then m fates d else k fates d)) (sym e)
          (when_false.runs fates d (p, e))
  ];
}

cleaned :
    {strict : Bool} {Q : Unit → Disk → Type 0} {E : Disk → Type 0} {fates before : List Fate}
    (x : Ran (Unit {0})) (error : StorageError)
    → (strict ≡ true → before ≢ [])
    → Post strict (λ u. E) E fates x
    → Post strict Q E before (cleanup x error)
cleaned (ran (done u) rest d) error fault h = record { held = (h.held.0, fault) }
cleaned (ran (failed e) rest d) error fault h = record { held = (h.held.0, fault) }
cleaned (ran stopped rest d) error fault h = record { held = (h.held.0, fault) }

pub or_else-Triple :
    {strict : Bool} {P E E' : Disk → Type 0} {Q : Unit → Disk → Type 0} {m handler : Io (Unit {0})}
    → ((d : Disk) → E d → E' d)
    → Triple strict P Q E m
    → Triple strict E (λ u. E') E' handler
    → Triple strict P Q E' (λ fates d. or_else (m fates d) handler)
or_else-Triple {strict} {E} {E'} {Q} {m} {handler} f t h = record {
  runs = λ fates d p. handled fates (m fates d) (t.runs fates d p);
}
  where
    handled :
        (fates : List Fate) (x : Ran (Unit {0}))
        → Post strict Q E fates x
        → Post strict Q E' fates (or_else x handler)
    handled fates (ran (done u) rest d) q = record { held = q.held }
    handled fates (ran stopped rest d) q = record { held = (f d q.held.0, q.held.1) }
    handled fates (ran (failed e) rest d) q =
        cleaned (handler rest d) e q.held.1 (h.runs rest d q.held.0)
