-- ===== src/StaticExport/Examples.antt =====
-- apps/local-server/src/static_export.rs: the theorems at the runs of the tests.
use synapsegit_lp_studio.StaticExport.{serialization}
use synapsegit_lp_studio.StaticExport.Report.{report_of}
use synapsegit_lp_studio.StaticExport.Generate.{canonical_file_entries, total_from}
use synapsegit_lp_studio.StaticExport.Report.Warned.{IsReported, analyze_references-IsReported}
use synapsegit_lp_studio.StaticExport.Report.Offline.{IsSelfContained, offline-IsSelfContained}
use synapsegit_lp_studio.StaticExport.Report.Sound.{LeadsOut, analyze_references_sound}
use synapsegit_lp_studio.StaticExport.Resolve.Below.{resolve_reference-IsBelowRoot}
use synapsegit_lp_studio.StaticExport.Generate.Manifest.{
  IsManifest, canonical_file_entries_iff, entry_of, lengths, total_from_lem,
}
use synapsegit_lp_studio.StaticExport.Generate.Reviewed.{reviewed-canonical_file_entries}
use synapsegit_lp_studio.StaticExport.Generate.Artifact.{
  IsExported, generate_static_export-IsExported,
}
use synapsegit_lp_studio.StaticExport.Tests.{
  export_crates, link_out, open_analyzed, open_found, open_site, other_crates, page, page_out,
  sheet_resolves, small_analyzed, small_artifact, small_entries, small_exported, small_found,
  small_input, small_site,
}
use synapsegit_lp_studio.ChangeSet.Types.{usize_max}
use synapsegit_lp_studio.ChangeSet.Path.Below.{IsBelowRoot}
use synapsegit_lp_studio.ChangeSet.Tests.{
  read, review, review_returned, site, test_analysis, test_crates,
}
use synapsegit_lp_studio.StaticExport.References.{html_tokenizer_boundary_analysis_incomplete}
use synapsegit_lp_studio.StaticExport.Scan.Loops.{
  AttributesLoop, BoundaryLoop, CssLoop, RawTextEnds, TagsLoop, boundary_scan, scan_loops_lem,
}
use synapsegit_lp_studio.ChangeSet.Markup.{is_tag_name_byte}
use synapsegit_lp_studio.Prelude.{
  Has, [], all, any, arith, err, if◌then◌else◌, list_beq, list_eq, ltb, map, nat_eq, none, ok, refl,
  true, ◌+◌, ◌↔◌, ◌≡◌, ◌⊎◌,
}
use synapsegit_lp_studio.Prelude.Text.{Text, codes, is_ascii_alphanumeric, to_ascii_lowercase}
use synapsegit_lp_studio.Prelude.Ordered.{contains_by}
use synapsegit_lp_studio.Prelude.Map

analyze_references-IsReported_example :
    IsReported export_crates open_site (report_of open_found) (codes "index.html") page_out
unfolding Map.get list_beq
analyze_references-IsReported_example =
    analyze_references-IsReported export_crates open_site (report_of open_found)
      (codes "index.html") page_out open_analyzed refl

offline-IsSelfContained_example : IsSelfContained export_crates small_site (codes "index.html") page
unfolding Map.get list_beq report_of
offline-IsSelfContained_example =
    offline-IsSelfContained export_crates small_site (report_of small_found) (codes "index.html")
      page small_analyzed refl refl

analyze_references_sound_example : Has (LeadsOut export_crates link_out) open_site
unfolding report_of contains_by any list_beq
analyze_references_sound_example =
    analyze_references_sound export_crates open_site (report_of open_found) link_out open_analyzed
      refl

resolve_reference-IsBelowRoot_example :
    (codes "a.css" ≡ codes "index.html") ⊎ IsBelowRoot (codes "a.css")
resolve_reference-IsBelowRoot_example =
    resolve_reference-IsBelowRoot export_crates (codes "index.html") (codes "a.css") (codes "a.css")
      sheet_resolves

total_from_lem_example : total_from 0 small_entries ≡ (
    if ltb usize_max (0 + lengths small_entries)
    then err serialization
    else ok (0 + lengths small_entries))
total_from_lem_example = total_from_lem 0 small_entries (omega arith)

canonical_file_entries_iff_example :
    (canonical_file_entries export_crates other_crates small_site ≡ ok small_entries)
    ↔ IsManifest export_crates other_crates small_site [] small_entries
canonical_file_entries_iff_example =
    canonical_file_entries_iff export_crates other_crates small_site small_entries

reviewed-canonical_file_entries_example :
    canonical_file_entries test_crates other_crates review.files
    ≡ ok (map (entry_of test_crates other_crates) review.files)
reviewed-canonical_file_entries_example =
    reviewed-canonical_file_entries test_crates other_crates test_analysis read (codes "{}")
      (codes "rev-1") site review review_returned

generate_static_export-IsExported_example :
    IsExported export_crates other_crates small_input small_artifact
generate_static_export-IsExported_example =
    generate_static_export-IsExported export_crates other_crates small_input small_artifact
      small_exported

abbrev markup_text : Text
markup_text = codes "<style>p{background:url(p.png)}</style><a href='q'>"

style_is_name : all is_tag_name_byte (codes "style") ≡ true
unfolding all is_tag_name_byte is_ascii_alphanumeric
style_is_name = refl

scan_loops_lem_example :
    TagsLoop (codes "index.html") true markup_text
    × AttributesLoop (codes "index.html") markup_text
    × CssLoop none b'@' markup_text
    × (html_tokenizer_boundary_analysis_incomplete markup_text
        ≡ boundary_scan (to_ascii_lowercase markup_text))
    × BoundaryLoop (to_ascii_lowercase markup_text)
    × RawTextEnds (codes "index.html") (codes "style") markup_text
scan_loops_lem_example =
    scan_loops_lem (codes "index.html") (codes "style") markup_text true none b'@' style_is_name
