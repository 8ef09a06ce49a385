-- ===== src/ChangeSet/Reference/Inside.antt =====
-- apps/local-server/src/change_set.rs: where a resolved reference leads, and percent escapes as RFC
-- 3986 has them.
use synapsegit_lp_studio.ChangeSet.Types.{ChangeSetError, Checked, Crates}
use synapsegit_lp_studio.ChangeSet.Path.{validate_path}
use synapsegit_lp_studio.ChangeSet.Path.Below.{IsBelowRoot, validate_path-IsBelowRoot}
use synapsegit_lp_studio.ChangeSet.Reference.{
  finish_resolution, hex_value, resolve_inside, resolve_local_reference, before_suffix,
  is_forbidden, is_not_local, percent_decode, walk,
}
use synapsegit_lp_studio.Prelude.{
  Bool-cases, [], any, arith, bind-eq-ok, err, inl, inr, list_eq, nat_eq, ok, refl, some, ℕ, ◌*◌,
  ◌+◌, ◌∷◌, ◌≡◌, ◌≢◌, ◌⊎◌,
}
use synapsegit_lp_studio.Prelude.Text.{Bytes, Text, codes, contains_char, join, len, trim}

pub index-IsBelowRoot : IsBelowRoot (codes "index.html")
unfolding join contains_char any len
index-IsBelowRoot = record {
  parts = codes "index.html" ∷ [];
  joins = refl;
  plain = ((λ e. cc e, λ e. cc e, λ e. cc e, refl, refl), tt);
  some_depth = omega arith;
  depth = omega arith;
  size = omega arith;
}

finish_resolution-IsBelowRoot :
    (crates : Crates) (resolved path : Text)
    → finish_resolution crates resolved ≡ ok (some path)
    → IsBelowRoot path
unfolding finish_resolution
finish_resolution-IsBelowRoot crates [] path h =
    let e : codes "index.html" ≡ path = ground arith in rw (← e) index-IsBelowRoot
finish_resolution-IsBelowRoot crates (c ∷ t) path h =
    elim (valid_or_not (validate_path crates (c ∷ t))) [
      | inl valid ↦
          let e : c ∷ t ≡ path = ground arith in
          rw (← e) (validate_path-IsBelowRoot crates (c ∷ t) valid)
      | inr (e, invalid) ↦ absurd (ground arith)
    ]
  where
    valid_or_not : (r : Checked Unit) → (r ≡ ok tt) ⊎ ((e : ChangeSetError) × (r ≡ err e))
    valid_or_not (ok tt) = inl refl
    valid_or_not (err e) = inr (e, refl)

-- A reference, from any file, that is resolved to a path is resolved to one that leads down from the
-- root of the site, however many `..`, escapes and slashes it has.
pub resolve_local_reference-IsBelowRoot :
    (crates : Crates) (source_path raw_reference path : Text)
    → resolve_local_reference crates source_path raw_reference ≡ ok (some path)
    → IsBelowRoot path
unfolding resolve_local_reference resolve_inside
resolve_local_reference-IsBelowRoot crates source_path raw_reference path h =
    let reference = trim raw_reference in
    elim (Bool-cases (is_not_local reference)) [
      | inl outside ↦ absurd (ground arith)
      | inr local ↦ elim (Bool-cases (is_forbidden reference)) [
        | inl forbidden ↦ absurd (ground arith)
        | inr allowed ↦
            let inside : resolve_inside crates source_path reference ≡ ok (some path) =
              ground arith in
            let (decoded, e, rest) =
              bind-eq-ok (percent_decode (before_suffix reference)) _ inside in
            let (segments, f, last) = bind-eq-ok (walk _ _) _ rest in
            finish_resolution-IsBelowRoot crates _ path last
      ]
    ]

-- `raw` is what `encoded` stands for: each byte but `%` stands for itself, and `%` with two
-- hexadecimal digits for the byte that they name.
pub data Encodes : Bytes → Bytes → Type 0 where
  nil : Encodes [] []
  plain :
      {b : ℕ} {encoded raw : Bytes}
      → b ≢ b'%'
      → Encodes encoded raw
      → Encodes (b ∷ encoded) (b ∷ raw)
  escape :
      {mark c d high low : ℕ} {encoded raw : Bytes}
      → mark ≡ b'%'
      → hex_value c ≡ some high
      → hex_value d ≡ some low
      → Encodes encoded raw
      → Encodes (mark ∷ c ∷ d ∷ encoded) ((high * 16 + low) ∷ raw)
