-- ===== src/StaticExport/Report/Grows.antt =====
-- apps/local-server/src/static_export.rs: the loops of `analyze_references` only add to what they
-- have found.
use synapsegit_lp_studio.StaticExport.Receipt.{
  ExternalReferenceV1, ReferenceResolution, external, external_reference_key, ignored, local_file,
  runtime_only,
}
use synapsegit_lp_studio.StaticExport.Report.{Analysis, has_file, note_resolution, note_scan}
use synapsegit_lp_studio.ChangeSet.Types.{Files, usize_max}
use synapsegit_lp_studio.StaticExport.{ReferenceScan, Exporting}
use synapsegit_lp_studio.Prelude.{
  ==_iff, Bool-cases, List, arith, inl, inr, list_eq, nat_eq, ok, ok_injective, pair_eq, subst,
  true, ◌+◌, ◌==◌, ◌≡◌,
}
use synapsegit_lp_studio.Prelude.Text.{Text}
use synapsegit_lp_studio.Prelude.Ordered.{contains-insert_by, contains_by, insert_by}
use synapsegit_lp_studio.Prelude.Map.{BTreeSet}
use synapsegit_lp_studio.Prelude.Map

pub record Grows (a b : Analysis) : Type 0 where
  pub externals_stay :
      (r : ExternalReferenceV1)
      → contains_by external_reference_key r a.externals ≡ true
      → contains_by external_reference_key r b.externals ≡ true
  pub origins_stay :
      (t : Text) → Map.contains_key t a.origins ≡ true → Map.contains_key t b.origins ≡ true
  pub dynamic_stay :
      (t : Text)
      → Map.contains_key t a.dynamic_sources ≡ true
      → Map.contains_key t b.dynamic_sources ≡ true
  pub incomplete_stay :
      (t : Text)
      → Map.contains_key t a.incomplete_sources ≡ true
      → Map.contains_key t b.incomplete_sources ≡ true

pub Grows-refl : (a : Analysis) → Grows a a
Grows-refl a = record {
  externals_stay = λ r h. h;
  origins_stay = λ t h. h;
  dynamic_stay = λ t h. h;
  incomplete_stay = λ t h. h;
}

pub Grows-trans : {a b c : Analysis} → Grows a b → Grows b c → Grows a c
Grows-trans f g = record {
  externals_stay = λ r h. g.externals_stay r (f.externals_stay r h);
  origins_stay = λ t h. g.origins_stay t (f.origins_stay t h);
  dynamic_stay = λ t h. g.dynamic_stay t (f.dynamic_stay t h);
  incomplete_stay = λ t h. g.incomplete_stay t (f.incomplete_stay t h);
}

-- A key that is inserted is there, and the others stay.
pub insert-stays :
    (k t : Text) (s : BTreeSet)
    → Map.contains_key t s ≡ true
    → Map.contains_key t (Map.insert k tt s) ≡ true
insert-stays k t s h = ground (arith, Map.get-insert k t tt s)

pub insert-there : (k : Text) (s : BTreeSet) → Map.contains_key k (Map.insert k tt s) ≡ true
insert-there k s = ground (arith, Map.get-insert k k tt s, ==_iff k k)

insert_by-stays :
    (x r : ExternalReferenceV1) (s : List ExternalReferenceV1)
    → contains_by external_reference_key r s ≡ true
    → contains_by external_reference_key r (insert_by external_reference_key x s) ≡ true
unfolding contains_by
insert_by-stays x r s h = ground (arith, contains-insert_by external_reference_key x r s)

insert_by-there :
    (x : ExternalReferenceV1) (s : List ExternalReferenceV1)
    → contains_by external_reference_key x (insert_by external_reference_key x s) ≡ true
unfolding contains_by
insert_by-there x s = ground (
  arith,
  contains-insert_by external_reference_key x x s,
  ==_iff (external_reference_key x) (external_reference_key x),
)

-- What the analysis holds of a resolved reference.
abbrev pub IsNoted : Files → Text → Analysis → ReferenceResolution → Type 0
IsNoted files source_path found ignored = Unit
IsNoted files source_path found runtime_only =
    Map.contains_key source_path found.dynamic_sources ≡ true
IsNoted files source_path found (local_file path) = has_file files path ≡ true
IsNoted files source_path found (external r) =
    (contains_by external_reference_key r found.externals ≡ true)
    × (Map.contains_key r.origin found.origins ≡ true)

pub IsNoted-stays :
    (files : Files) (source_path : Text) (resolution : ReferenceResolution) {a b : Analysis}
    → Grows a b
    → IsNoted files source_path a resolution
    → IsNoted files source_path b resolution
IsNoted-stays files source_path ignored g h = tt
IsNoted-stays files source_path runtime_only g h = g.dynamic_stay source_path h
IsNoted-stays files source_path (local_file path) g h = h
IsNoted-stays files source_path (external r) g h =
    (g.externals_stay r h.0, g.origins_stay r.origin h.1)

pub note_resolution-IsNoted :
    (files : Files) (source_path : Text) (resolution : ReferenceResolution) (a b : Analysis)
    → note_resolution files source_path resolution a ≡ ok b
    → Grows a b × IsNoted files source_path b resolution
unfolding note_resolution
note_resolution-IsNoted files source_path ignored a b h =
    subst (λ c. Grows a c × IsNoted files source_path c ignored) (ok_injective h) (Grows-refl a, tt)
note_resolution-IsNoted files source_path runtime_only a b h =
    subst (λ c. Grows a c × IsNoted files source_path c runtime_only) (ok_injective h)
      (
        record {
          externals_stay = λ r k. k;
          origins_stay = λ t k. k;
          dynamic_stay = λ t. insert-stays source_path t a.dynamic_sources;
          incomplete_stay = λ t k. k;
        },
        insert-there source_path a.dynamic_sources,
      )
note_resolution-IsNoted files source_path (local_file path) a b h =
    elim (Bool-cases (a.local_count == usize_max)) [
      | inl full ↦ absurd (ground arith)
      | inr fits ↦ elim (Bool-cases (has_file files path)) [
        | inr missing ↦ absurd (ground arith)
        | inl there ↦
            let counted : ◌≡◌ {A = Exporting Analysis}
                (ok (record a { local_count = a.local_count + 1 })) (ok b) =
              ground arith in
            subst (λ c. Grows a c × IsNoted files source_path c (local_file path))
              (ok_injective counted)
              (
                record {
                  externals_stay = λ r k. k;
                  origins_stay = λ t k. k;
                  dynamic_stay = λ t k. k;
                  incomplete_stay = λ t k. k;
                },
                there,
              )
      ]
    ]
note_resolution-IsNoted files source_path (external r) a b h =
    subst (λ c. Grows a c × IsNoted files source_path c (external r)) (ok_injective h)
      (
        record {
          externals_stay = λ e. insert_by-stays r e a.externals;
          origins_stay = λ t. insert-stays r.origin t a.origins;
          dynamic_stay = λ t k. k;
          incomplete_stay = λ t k. k;
        },
        (insert_by-there r a.externals, insert-there r.origin a.origins),
      )

pub note_scan-Grows :
    (source_path : Text) (scan : ReferenceScan) (a : Analysis)
    → Grows a (note_scan source_path scan a)
unfolding note_scan
note_scan-Grows source_path scan a = record {
  externals_stay = λ r k. k;
  origins_stay = λ t k. k;
  dynamic_stay = λ t k. ground (arith, insert-stays source_path t a.dynamic_sources k);
  incomplete_stay = λ t k. ground (arith, insert-stays source_path t a.incomplete_sources k);
}
