-- ===== src/StaticExport/Resolve/Below.antt =====
-- apps/local-server/src/static_export.rs: where a reference that is resolved inside the site leads.
use synapsegit_lp_studio.StaticExport.{unsafe_reference, Exporting, StaticExportError}
use synapsegit_lp_studio.StaticExport.Receipt.{
  local_file, ExternalReferenceV1, ReferenceResolution, ignored,
}
use synapsegit_lp_studio.StaticExport.Resolve.{
  local_path, resolve_local, resolve_reference, resolve_scheme, external_reference, resolve_path,
  to_external, to_local, is_ignored, is_unsafe_reference,
}
use synapsegit_lp_studio.Storage.Paths.{validate_canonical_path}
use synapsegit_lp_studio.Storage.Paths.Below.{validate_canonical_path-IsBelowRoot}
use synapsegit_lp_studio.ChangeSet.Types.{Crates}
use synapsegit_lp_studio.ChangeSet.Path.Below.{IsBelowRoot}
use synapsegit_lp_studio.ChangeSet.Reference.{before_suffix, percent_decode, walk}
use synapsegit_lp_studio.ChangeSet.Reference.Inside.{index-IsBelowRoot}
use synapsegit_lp_studio.Prelude.{
  Bool, Bool-cases, [], arith, bind-eq-ok, err, false, if◌then◌else◌, inl, inr, map_err,
  map_err-eq-ok, ok, ok_injective, seq-eq-ok, subst, sym, true, ◌||◌, ◌∷◌, ◌≡◌, ◌⊎◌,
}
use synapsegit_lp_studio.Prelude.Text.{Text, codes, is_empty, starts_with, to_ascii_lowercase, trim}

local_path-IsBelowRoot :
    (crates : Crates) (source_path resolved path : Text)
    → local_path crates source_path resolved ≡ ok path
    → IsBelowRoot path
unfolding local_path
local_path-IsBelowRoot crates source_path [] path h =
    subst IsBelowRoot (ok_injective h) index-IsBelowRoot
local_path-IsBelowRoot crates source_path (c ∷ t) path h =
    let (checked, last) =
      seq-eq-ok
        (map_err (λ e. unsafe_reference source_path) (validate_canonical_path crates (c ∷ t))) _
        h in
    subst IsBelowRoot (ok_injective last) (
      validate_canonical_path-IsBelowRoot crates (c ∷ t)
        (map_err-eq-ok _ (validate_canonical_path crates (c ∷ t)) tt checked))

resolve_path-IsBelowRoot :
    (crates : Crates) (source_path without_suffix path : Text)
    → resolve_path crates source_path without_suffix ≡ ok path
    → IsBelowRoot path
unfolding resolve_path
resolve_path-IsBelowRoot crates source_path without_suffix path h =
    let (decoded, e, h₁) =
      bind-eq-ok (map_err (λ e. unsafe_reference source_path) (percent_decode without_suffix)) _
        h in
    let (segments, f, last) =
      bind-eq-ok (map_err (λ e. unsafe_reference source_path) (walk _ _)) _ h₁ in
    local_path-IsBelowRoot crates source_path _ path last

resolve_local-IsBelowRoot :
    (crates : Crates) (source_path reference path : Text)
    → resolve_local crates source_path reference ≡ ok path
    → (path ≡ source_path) ⊎ IsBelowRoot path
unfolding resolve_local
resolve_local-IsBelowRoot crates source_path reference path h =
    elim (Bool-cases (is_empty (before_suffix reference))) [
      | inl bare ↦
          let same : ◌≡◌ {A = Exporting Text} (ok source_path) (ok path) = ground arith in
          inl (sym (ok_injective same))
      | inr named ↦ inr (
          resolve_path-IsBelowRoot crates source_path (before_suffix reference) path (ground arith))
    ]

to_external-not_local :
    (r : Exporting ExternalReferenceV1) (path : Text) → to_external r ≡ ok (local_file path) → ⊥
to_external-not_local (err e) path h = cc h
to_external-not_local (ok reference) path h = cc h

to_local-eq : (r : Exporting Text) (path : Text) → to_local r ≡ ok (local_file path) → r ≡ ok path
to_local-eq (err e) path h = cc
to_local-eq (ok p) path h = cc

resolve_scheme-local :
    (crates : Crates) (source_path reference path : Text)
    → resolve_scheme crates source_path reference ≡ ok (local_file path)
    → resolve_local crates source_path reference ≡ ok path
unfolding resolve_scheme
resolve_scheme-local crates source_path reference path h =
    let lower = to_ascii_lowercase reference in
    elim (Bool-cases (starts_with lower (codes "http:") || starts_with lower (codes "https:"))) [
      | inl web ↦ absurd (
          to_external-not_local (external_reference crates source_path reference false) path
            (ground arith))
      | inr not_web ↦ elim (Bool-cases (starts_with reference (codes "//"))) [
        | inl relative ↦ absurd (
            to_external-not_local (external_reference crates source_path reference true) path
              (ground arith))
        | inr not_relative ↦
            to_local-eq (resolve_local crates source_path reference) path (ground arith)
      ]
    ]

behind_tests :
    (skip refuse : Bool) (e : StaticExportError) (r : Exporting ReferenceResolution) (path : Text)
    → (if skip then ok ignored else if refuse then err e else r) ≡ ok (local_file path)
    → r ≡ ok (local_file path)
behind_tests true refuse e r path h = cc
behind_tests false true e r path h = cc
behind_tests false false e r path h = h

-- A reference that is resolved to a path, from any file, is resolved to the file itself or to a path
-- that leads down from the root of the site, however many `..`, escapes and slashes it has.
pub resolve_reference-IsBelowRoot :
    (crates : Crates) (source_path raw_reference path : Text)
    → resolve_reference crates source_path raw_reference ≡ ok (local_file path)
    → (path ≡ source_path) ⊎ IsBelowRoot path
unfolding resolve_reference
resolve_reference-IsBelowRoot crates source_path raw_reference path h =
    let reference = trim raw_reference in
    let scheme : resolve_scheme crates source_path reference ≡ ok (local_file path) =
      behind_tests (is_ignored reference) (is_unsafe_reference reference) _ _ path h in
    resolve_local-IsBelowRoot crates source_path reference path
      (resolve_scheme-local crates source_path reference path scheme)
