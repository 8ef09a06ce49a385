-- ===== src/ChangeSet/Path/Below.antt =====
-- apps/local-server/src/change_set.rs: what a path that passes `validate_path` is.
use synapsegit_lp_studio.ChangeSet.Types.{max_path_bytes, max_path_depth, Crates, unsafe_path}
use synapsegit_lp_studio.ChangeSet.Path.{unsafe_segment, validate_path, unsafe_text}
use synapsegit_lp_studio.Prelude.{
  ==_iff, All, Bool, Bool-cases, List, [], any, ap, arith, false, if◌then◌else◌, inl, inr, length,
  list_eq, ltb, nat_eq, ok, refl, reject_if, seq-eq-ok, sym, ℕ, ◌==◌, ◌∙◌, ◌∷◌, ◌≡◌, ◌≢◌, ◌≤◌,
}
use synapsegit_lp_studio.Prelude.Text.{Text, codes, contains_char, join, len, split}

-- A name in a directory: not empty, not `.` or `..`, with no separator of any system.
abbrev pub IsPlainSegment : Text → Type 0
IsPlainSegment segment =
    (segment ≢ [])
    × (segment ≢ codes ".")
    × (segment ≢ codes "..")
    × (contains_char segment b'/' ≡ false)
    × (contains_char segment b'\\' ≡ false)

-- The path leads down from the root by 1 to 16 plain names, and has 512 bytes at most.
pub record IsBelowRoot (path : Text) : Type 0 where
  pub parts : List Text
  pub joins : join (codes "/") parts ≡ path
  pub plain : All IsPlainSegment parts
  pub some_depth : 1 ≤ length parts
  pub depth : length parts ≤ max_path_depth
  pub size : len path ≤ max_path_bytes

pub split_cons : (sep : ℕ) (t : Text) → (s : Text) × (r : List Text) × (split sep t ≡ s ∷ r)
unfolding split
split_cons sep [] = ([], [], refl)
split_cons sep (c ∷ t) =
    let (s, r, e) = split_cons sep t in
    elim (Bool-cases (c == sep)) [
      | inl cut ↦ ([], s ∷ r, ground arith)
      | inr on ↦ (c ∷ s, r, ground arith)
    ]

pub split_at :
    (sep c : ℕ) (t s : Text) (r : List Text)
    → split sep t ≡ s ∷ r
    → split sep (c ∷ t) ≡ (if c == sep then [] ∷ s ∷ r else (c ∷ s) ∷ r)
unfolding split
split_at sep c t s r e = ground arith

join_push : (sep s : Text) (c : ℕ) (r : List Text) → join sep ((c ∷ s) ∷ r) ≡ c ∷ join sep (s ∷ r)
unfolding join
join_push sep s c [] = refl
join_push sep s c (t ∷ r) = refl

join_empty :
    (sep : ℕ) (s : Text) (r : List Text)
    → join (sep ∷ []) ([] ∷ s ∷ r) ≡ sep ∷ join (sep ∷ []) (s ∷ r)
unfolding join
join_empty sep s r = refl

pub join-split : (sep : ℕ) (t : Text) → join (sep ∷ []) (split sep t) ≡ t
join-split sep [] = unfold split join in refl
join-split sep (c ∷ t) =
    let (s, r, e) = split_cons sep t in
    let ih : join (sep ∷ []) (s ∷ r) ≡ t = ap (join (sep ∷ [])) (sym e) ∙ join-split sep t in
    elim (Bool-cases (c == sep)) [
      | inl cut ↦
          rw (split_at sep c t s r e, cut)
            (join_empty sep s r
              ∙ ap (λ x. sep ∷ x) ih
              ∙ ap (λ x. x ∷ t) (sym ((==_iff c sep).0 cut)))
      | inr on ↦ rw (split_at sep c t s r e, on) (join_push (sep ∷ []) s c r ∙ ap (◌∷◌ c) ih)
    ]

-- No part holds the separator, nor a character that the whole does not hold.
lacks_cons :
    (c d : ℕ) (t : Text)
    → (d == c) ≡ false
    → contains_char t c ≡ false
    → contains_char (d ∷ t) c ≡ false
unfolding contains_char any
lacks_cons c d t h k = ground arith

lacks_head :
    (c d : ℕ) (t : Text)
    → contains_char (d ∷ t) c ≡ false
    → ((d == c) ≡ false) × (contains_char t c ≡ false)
unfolding contains_char any
lacks_head c d t h = (ground arith, ground arith)

lacks_nil : (c : ℕ) → contains_char [] c ≡ false
unfolding contains_char any
lacks_nil c = refl

abbrev Lacks : ℕ → Text → Type 0
Lacks c part = contains_char part c ≡ false

split_keeps_Lacks :
    (sep c d : ℕ) (t : Text)
    → ((d == sep) ≡ false → (d == c) ≡ false)
    → All (Lacks c) (split sep t)
    → All (Lacks c) (split sep (d ∷ t))
split_keeps_Lacks sep c d t h ih =
    let (s, r, e) = split_cons sep t in
    let parts : All (Lacks c) (s ∷ r) = rw e at ih in
    elim (Bool-cases (d == sep)) [
      | inl cut ↦ rw (split_at sep d t s r e, cut) (lacks_nil c, parts)
      | inr on ↦ rw (split_at sep d t s r e, on) (lacks_cons c d s (h on) parts.0, parts.1)
    ]

split-Lacks : (sep c : ℕ) (t : Text) → contains_char t c ≡ false → All (Lacks c) (split sep t)
split-Lacks sep c [] h = unfold split in (lacks_nil c, tt)
split-Lacks sep c (d ∷ t) h =
    split_keeps_Lacks sep c d t (λ _. (lacks_head c d t h).0)
      (split-Lacks sep c t (lacks_head c d t h).1)

split-Lacks_separator : (sep : ℕ) (t : Text) → All (Lacks sep) (split sep t)
split-Lacks_separator sep [] = unfold split in (lacks_nil sep, tt)
split-Lacks_separator sep (d ∷ t) =
    split_keeps_Lacks sep sep d t (λ on. on) (split-Lacks_separator sep t)

unsafe_segment_named :
    (s : Text) → unsafe_segment s ≡ false → (s ≢ []) × (s ≢ codes ".") × (s ≢ codes "..")
unfolding unsafe_segment
unsafe_segment_named s h =
    (ground arith, ground (arith, ==_iff s (codes ".")), ground (arith, ==_iff s (codes "..")))

All-plain :
    (unsafe : Text → Bool) (parts : List Text)
    → ((s : Text) → unsafe s ≡ false → (s ≢ []) × (s ≢ codes ".") × (s ≢ codes ".."))
    → any unsafe parts ≡ false
    → All (Lacks b'/') parts
    → All (Lacks b'\\') parts
    → All IsPlainSegment parts
unfolding any
All-plain unsafe [] names h slash back = tt
All-plain unsafe (s ∷ parts) names h slash back =
    let named = names s (ground arith) in
    (
      (named.0, named.1, named.2, slash.0, back.0),
      All-plain unsafe parts names (ground arith) slash.1 back.1,
    )

-- A path with no backslash, of a bounded size and depth, whose segments pass a test that refuses the
-- names that are not plain.
pub segments-IsBelowRoot :
    (unsafe : Text → Bool) (path : Text)
    → ((s : Text) → unsafe s ≡ false → (s ≢ []) × (s ≢ codes ".") × (s ≢ codes ".."))
    → len path ≤ max_path_bytes
    → contains_char path b'\\' ≡ false
    → length (split b'/' path) ≤ max_path_depth
    → any unsafe (split b'/' path) ≡ false
    → IsBelowRoot path
segments-IsBelowRoot unsafe path names size back depth h =
    let parts = split b'/' path in
    record {
      parts = parts;
      joins = join-split b'/' path;
      plain =
          All-plain unsafe parts names h (split-Lacks_separator b'/' path)
            (split-Lacks b'/' b'\\' path back);
      some_depth = let (s, r, e) = split_cons b'/' path in rw e (omega arith);
      depth = depth;
      size = size;
    }

unsafe_text_parts :
    (crates : Crates) (path : Text)
    → unsafe_text crates path ≡ false
    → (len path ≤ max_path_bytes) × (contains_char path b'\\' ≡ false)
unfolding unsafe_text
unsafe_text_parts crates path h = (ground arith, ground arith)

-- A path that passes `validate_path` leads down from the root, whatever the operating system: at
-- most 16 names and 512 bytes, none of them empty, `.` or `..`, none with a slash or a backslash.
pub validate_path-IsBelowRoot :
    (crates : Crates) (path : Text) → validate_path crates path ≡ ok tt → IsBelowRoot path
unfolding validate_path
validate_path-IsBelowRoot crates path h =
    let parts = split b'/' path in
    let (text, h₁) = seq-eq-ok (reject_if (unsafe_text crates path) unsafe_path) _ h in
    let (deep, h₂) = seq-eq-ok (reject_if (ltb max_path_depth (length parts)) unsafe_path) _ h₁ in
    let (segments, h₃) = seq-eq-ok (reject_if (any unsafe_segment parts) unsafe_path) _ h₂ in
    let (size, back) = unsafe_text_parts crates path (ground arith) in
    segments-IsBelowRoot unsafe_segment path unsafe_segment_named size back (ground arith)
      (ground arith)
