-- ===== src/StaticExport/Tests.antt =====
-- apps/local-server/src/static_export.rs: runs on a small site.
use synapsegit_lp_studio.StaticExport.{ReferenceScan}
use synapsegit_lp_studio.StaticExport.Scan.{no_references, of_references, scan_references}
use synapsegit_lp_studio.StaticExport.Receipt.{
  ExternalReferenceV1, external, local_file, ExportFileManifestEntryV1, ExportReceiptV1,
  StaticExportArtifact, StaticExportInput,
}
use synapsegit_lp_studio.StaticExport.Resolve.{
  resolve_reference, external_reference, resolve_local, resolve_scheme,
}
use synapsegit_lp_studio.StaticExport.Report.{
  Analysis, analyze_references, note_files, note_references, note_resolution, note_scan,
  nothing_found, report_of,
}
use synapsegit_lp_studio.StaticExport.Generate.{
  ExportCrates, canonical_file_entries, generate_static_export, receipt_of, validate_export_input,
  with_newline,
}
use synapsegit_lp_studio.ChangeSet.Types.{Crates, Files, Url}
use synapsegit_lp_studio.ChangeSet.Tests.{test_crates}
use synapsegit_lp_studio.StaticExport.Tags.{
  export_at, export_attribute, export_attributes_from, export_element, export_round, export_tag_at,
  export_tag_body, export_tags_from, export_value, is_bad_name_char,
}
use synapsegit_lp_studio.Storage.Paths.{is_unsafe_path, is_unsafe_segment, validate_canonical_path}
use synapsegit_lp_studio.ChangeSet.Reference.{
  directory_segments, percent_bytes, percent_decode, walk,
}
use synapsegit_lp_studio.StaticExport.Generate.Manifest.{entry_of}
use synapsegit_lp_studio.ChangeSet.Path.{sha256}
use synapsegit_lp_studio.StaticExport.Resolve.Redacted.{UrlsWork}
use synapsegit_lp_studio.Prelude.{
  Bool-cases, List, Option, [], all, arith, false, if◌then◌else◌, inl, inr, list_beq, list_eq, map,
  nat_eq, none, ok, refl, some, sym, true, ◌++◌, ◌==◌, ◌∙◌, ◌∷◌, ◌≡◌,
}
use synapsegit_lp_studio.Prelude.Text.{Bytes, Text, codes, len, split}
use synapsegit_lp_studio.Prelude.Utf8.{from_utf8}

abbrev pub parsed : Url
parsed = record {
  scheme = codes "https";
  username = codes "u";
  password = none;
  host_str = some (codes "x.test");
  port = none;
  path = codes "/p";
  query = some (codes "q");
  fragment = none;
  origin = codes "https://x.test";
}

abbrev pub parsed_other : Url
parsed_other = record parsed { username = codes "v"; query = some (codes "r") }

abbrev pub part : Option Text → Text
part none = []
part (some t) = t

abbrev pub export_crates : Crates
export_crates = record test_crates {
  parse_url = λ t. if t == codes "https://v@x.test/p?r" then some parsed_other else some parsed;
  as_str = λ url. url.origin ++ url.username ++ url.path ++ part url.query ++ part url.fragment;
}

parsed_origin :
    (t : Text) (url : Url) → export_crates.parse_url t ≡ some url → url.origin ≡ parsed.origin
parsed_origin t url h = elim (Bool-cases (t == codes "https://v@x.test/p?r")) [
  | inl e ↦ let one : some parsed_other ≡ some url = rw (sym h, e) refl in ground arith
  | inr e ↦ let one : some parsed ≡ some url = rw (sym h, e) refl in ground arith
]

pub urls_work : UrlsWork export_crates
urls_work = record {
  sets_username = λ url web host. refl;
  sets_password = λ url web host. refl;
  sets_query = λ url. refl;
  sets_fragment = λ url. refl;
  origin_of_parts = λ t u a b p q scheme host port. parsed_origin t a p ∙ sym (parsed_origin u b q);
}

abbrev pub other_crates : ExportCrates
other_crates = record {
  media_type_from_path = λ path. codes "text/plain";
  manifest_to_vec = λ schema entries. some (codes "[]");
  receipt_to_vec = λ receipt. some (codes "{}");
  deterministic_zip = λ files. some (codes "PK");
  pkg_version = codes "0.1.0";
}

-- A page with a reference to a style sheet, and one with a reference to another host as well.
abbrev pub page : Bytes
page = codes "<a href='a.css'>"

abbrev pub page_out : Bytes
page_out = codes "<a href='//x.test/p?q'>"

abbrev pub small_site : Files
small_site = (codes "a.css", codes "p{}") ∷ (codes "index.html", page) ∷ []

abbrev pub open_site : Files
open_site = (codes "index.html", page_out) ∷ []

abbrev pub found_in : Text → ReferenceScan
found_in reference = of_references (reference ∷ [])

scan_of_page : scan_references (codes "index.html") page ≡ ok (found_in (codes "a.css"))
unfolding scan_references list_beq export_tags_from export_round export_at export_tag_at
    export_tag_body export_attributes_from export_attribute is_bad_name_char export_value
    export_element
scan_of_page = refl

scan_of_page_out :
    scan_references (codes "index.html") page_out ≡ ok (found_in (codes "//x.test/p?q"))
unfolding scan_references list_beq export_tags_from export_round export_at export_tag_at
    export_tag_body export_attributes_from export_attribute is_bad_name_char export_value
    export_element
scan_of_page_out = refl

scan_of_sheet : scan_references (codes "a.css") (codes "p{}") ≡ ok no_references
unfolding scan_references list_beq
scan_of_sheet = refl

pub sheet_resolves :
    resolve_reference export_crates (codes "index.html") (codes "a.css")
    ≡ ok (local_file (codes "a.css"))
unfolding resolve_reference resolve_scheme resolve_local percent_decode percent_bytes from_utf8 walk
    list_beq directory_segments validate_canonical_path is_unsafe_path len is_unsafe_segment
sheet_resolves = refl

abbrev pub link_out : ExternalReferenceV1
link_out = record {
  source_path = codes "index.html";
  sanitized_url = codes "//x.test/p";
  origin = codes "//x.test";
  userinfo_redacted = true;
  query_redacted = true;
  fragment_redacted = false;
}

out_resolves :
    resolve_reference export_crates (codes "index.html") (codes "//x.test/p?q")
    ≡ ok (external link_out)
unfolding resolve_reference resolve_scheme external_reference list_beq
out_resolves = refl

abbrev pub small_found : Analysis
small_found = record nothing_found { local_count = 1 }

abbrev pub open_found : Analysis
open_found = record nothing_found {
  externals = link_out ∷ [];
  origins = (codes "//x.test", tt) ∷ [];
}

sheet_noted :
    note_resolution small_site (codes "index.html") (local_file (codes "a.css")) nothing_found
    ≡ ok small_found
unfolding note_resolution list_beq
sheet_noted = refl

pub small_analyzed : analyze_references export_crates small_site ≡ ok (report_of small_found)
unfolding analyze_references note_files note_references note_scan
small_analyzed = rw (scan_of_sheet, scan_of_page, sheet_resolves, sheet_noted) refl

pub open_analyzed : analyze_references export_crates open_site ≡ ok (report_of open_found)
unfolding analyze_references note_files note_references note_resolution note_scan
open_analyzed = rw (scan_of_page_out, out_resolves) refl

abbrev pub small_input : StaticExportInput
small_input = record {
  source_revision_id = codes "rev_1";
  source_manifest_sha256 = codes "0123456789abcdef0123456789abcdef0123456789abcdef0123456789abcdef";
  generated_at_utc = codes "2026-01-02T03:04:05Z";
  entry_point = codes "index.html";
  files = small_site;
}

input_passes : validate_export_input export_crates small_input ≡ ok tt
unfolding validate_export_input list_beq is_unsafe_path split is_unsafe_segment
input_passes = refl

abbrev pub small_entries : List ExportFileManifestEntryV1
small_entries = map (entry_of export_crates other_crates) small_site

pub entries_pass : canonical_file_entries export_crates other_crates small_site ≡ ok small_entries
unfolding canonical_file_entries is_unsafe_path len list_beq is_unsafe_segment all
entries_pass = refl

abbrev small_receipt : ExportReceiptV1
small_receipt =
    receipt_of export_crates other_crates small_input small_entries (with_newline (codes "[]")) 19
      (report_of small_found) (codes "PK")

abbrev pub small_artifact : StaticExportArtifact
small_artifact = record {
  zip_bytes = codes "PK";
  receipt = small_receipt;
  receipt_json = with_newline (codes "{}");
  receipt_sha256 = sha256 export_crates (with_newline (codes "{}"));
}

pub small_exported :
    generate_static_export export_crates other_crates small_input ≡ ok small_artifact
unfolding generate_static_export
small_exported = rw (input_passes, entries_pass, small_analyzed) refl
