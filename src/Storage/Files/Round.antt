-- ===== src/Storage/Files/Round.antt =====
-- apps/local-server/src/storage.rs: one round of the loop of `stored_files`, taken apart.
use synapsegit_lp_studio.Storage.Paths.{import_limit, unsafe_import, validate_canonical_path}
use synapsegit_lp_studio.Storage.Disk.{StoredFile}
use synapsegit_lp_studio.Storage.Files.{
  StorageCrates, max_file_bytes, max_total_bytes, stored_file, stored_files_from,
}
use synapsegit_lp_studio.ChangeSet.Types.{Crates, Files}
use synapsegit_lp_studio.Prelude.{
  List, [], ap, bind-eq-ok, false, length, list_eq, ltb, nat_eq, ok, ok_injective, pair_eq,
  passes_of_reject, reject_if, seq-eq-ok, suc, sym, ℕ, ◌+◌, ◌∙◌, ◌∷◌, ◌≡◌,
}
use synapsegit_lp_studio.Prelude.Text.{Bytes, Text}
use synapsegit_lp_studio.Prelude.Set.{HashSet}
use synapsegit_lp_studio.Prelude.Set

-- What the round has checked of the file, and the entries of the files behind it.
pub record StoredRound (crates : Crates) (others : StorageCrates) (path : Text) (bytes : Bytes)
    (rest : Files) (folded : HashSet Text) (total : ℕ) (entries : List StoredFile) : Type 0 where
  pub canonical : validate_canonical_path crates path ≡ ok tt
  pub is_new : Set.contains (crates.folded path) folded ≡ false
  pub is_small : ltb max_file_bytes (length bytes) ≡ false
  pub fits : ltb max_total_bytes (total + length bytes) ≡ false
  pub more : List StoredFile
  pub are_more :
      stored_files_from crates others rest
        (Set.insert (crates.folded path) folded)
        (total + length bytes)
      ≡ ok more
  pub joined : stored_file crates others path bytes ∷ more ≡ entries

pub stored_round :
    (crates : Crates) (others : StorageCrates) (path : Text) (bytes : Bytes) (rest : Files)
    (folded : HashSet Text) (total : ℕ) (entries : List StoredFile)
    → stored_files_from crates others ((path, bytes) ∷ rest) folded total ≡ ok entries
    → StoredRound crates others path bytes rest folded total entries
unfolding stored_files_from
stored_round crates others path bytes rest folded total entries h =
    let (canonical, h₁) = seq-eq-ok (validate_canonical_path crates path) _ h in
    let (new, h₂) =
      seq-eq-ok (reject_if (Set.contains (crates.folded path) folded) unsafe_import) _ h₁ in
    let (small, h₃) = seq-eq-ok (reject_if (ltb max_file_bytes (length bytes)) import_limit) _ h₂ in
    let (within, h₄) =
      seq-eq-ok (reject_if (ltb max_total_bytes (total + length bytes)) import_limit) _ h₃ in
    let (more, are_more, last) =
      bind-eq-ok
        (stored_files_from crates others rest (Set.insert (crates.folded path) folded)
          (total + length bytes))
        _ h₄ in
    record {
      canonical = canonical;
      is_new = passes_of_reject _ _ new;
      is_small = passes_of_reject _ _ small;
      fits = passes_of_reject _ _ within;
      more = more;
      are_more = are_more;
      joined = ok_injective last;
    }

pub stored_files_from-length :
    (crates : Crates) (others : StorageCrates) (files : Files) (folded : HashSet Text) (total : ℕ)
    (entries : List StoredFile)
    → stored_files_from crates others files folded total ≡ ok entries
    → length entries ≡ length files
stored_files_from-length crates others [] folded total entries h =
    unfold stored_files_from in ap length (sym (ok_injective h))
stored_files_from-length crates others ((path, bytes) ∷ files) folded total entries h =
    let r = stored_round crates others path bytes files folded total entries h in
    sym (ap length r.joined)
    ∙ ap suc (stored_files_from-length crates others files _ _ r.more r.are_more)
