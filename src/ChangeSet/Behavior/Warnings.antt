-- ===== src/ChangeSet/Behavior/Warnings.antt =====
-- apps/local-server/src/change_set.rs: the features of a site, and `active_behavior_warnings`.
use synapsegit_lp_studio.ChangeSet.Types.{BlockingWarning, Crates, Files}
use synapsegit_lp_studio.ChangeSet.Path.{sha256, text_media_type_for_path}
use synapsegit_lp_studio.ChangeSet.Markup.{scan_markup_tags}
use synapsegit_lp_studio.ChangeSet.Behavior.{
  BehaviorFeature, external_origins, feature_key, warning_key, witnessed,
}
use synapsegit_lp_studio.ChangeSet.Behavior.Features.{
  Occurrences, analytics_markers, cookie_markers, marker_features, origin_features,
  reference_origins, tags_features,
}
use synapsegit_lp_studio.StaticExport.Scan.{scan_references}
use synapsegit_lp_studio.Prelude.{
  Bool, List, [], err, false, if◌then◌else◌, keep, list_eq, map, nat_eq, none, not, ok, some, ◌++◌,
  ◌==◌, ◌||◌, ◌∷◌,
}
use synapsegit_lp_studio.Prelude.Text.{Bytes, Text, codes}
use synapsegit_lp_studio.Prelude.Utf8.{from_utf8}
use synapsegit_lp_studio.Prelude.Ordered.{collect_by, difference_by}

abbrev pub has_media_type : Text → Text → Bool
has_media_type path media_type = elim (text_media_type_for_path path) [
  | none ↦ false
  | some found ↦ found == media_type
]

unfoldable pub has_markup : Text → Bool
unfolding text_media_type_for_path
has_markup path =
    has_media_type path (codes "text/html")
    || has_media_type path (codes "image/svg+xml")
    || has_media_type path (codes "application/xml")

unfoldable pub script_file_features : Crates → Text → Bytes → List BehaviorFeature
unfolding text_media_type_for_path witnessed sha256
script_file_features crates path bytes =
    if has_media_type path (codes "application/javascript")
    then witnessed (codes "changed_script_content") path path (sha256 crates bytes) ∷ []
    else []

unfoldable pub static_origin_features : Crates → Text → Bytes → List BehaviorFeature
unfolding scan_references origin_features reference_origins
static_origin_features crates path bytes = elim (scan_references path bytes) [
  | err e ↦ []
  | ok scan ↦ origin_features path (codes "static:") [] (reference_origins crates scan.references)
]

abbrev pub no_occurrences : Occurrences
no_occurrences = record { scripts = []; events = []; forms = []; iframes = []; downloads = [] }

unfoldable pub markup_features : Crates → Files → Text → Text → List BehaviorFeature
unfolding has_markup tags_features scan_markup_tags
markup_features crates files path text =
    if has_markup path
    then tags_features crates files path no_occurrences
        (scan_markup_tags crates text (has_media_type path (codes "text/html")))
    else []

unfoldable pub text_features : Crates → Files → Text → Bytes → Text → List BehaviorFeature
unfolding script_file_features origin_features external_origins static_origin_features
    marker_features markup_features
text_features crates files path bytes text =
    script_file_features crates path bytes
    ++ (origin_features path (codes "raw:") [] (external_origins crates text)
        ++ (static_origin_features crates path bytes
            ++ (marker_features (codes "new_analytics") path analytics_markers text
                ++ (marker_features (codes "new_cookie_behavior") path cookie_markers text
                    ++ markup_features crates files path text))))

-- One round of the loop over the files; a file that is no text is skipped.
unfoldable pub file_features : Crates → Files → Text → Bytes → List BehaviorFeature
unfolding from_utf8 text_features
file_features crates files path bytes = elim (from_utf8 bytes) [
  | none ↦ []
  | some text ↦ text_features crates files path bytes text
]

unfoldable pub files_features : Crates → Files → Files → List BehaviorFeature
files_features crates files [] = []
files_features crates files ((path, bytes) ∷ rest) =
    file_features crates files path bytes ++ files_features crates files rest

unfoldable pub behavior_features : Crates → Files → List BehaviorFeature
behavior_features crates files = collect_by feature_key (files_features crates files files) []

abbrev pub message_from : List (Text × Text) → Text → Text
message_from [] code = codes "The proposal introduces active behavior."
message_from ((known, message) ∷ rest) code =
    if code == known then message else message_from rest code

unfoldable pub behavior_message : Text → Text
behavior_message = message_from (
    (codes "new_external_origin", codes "The proposal introduces a new external network origin.")
    ∷ (codes "new_form_action", codes "The proposal introduces a form submission destination.")
    ∷ (codes "new_script", codes "The proposal introduces executable script content.")
    ∷ (
      codes "changed_script_content",
      codes "The proposal creates or changes JavaScript content that may become executable.",
    )
    ∷ (
      codes "new_inline_event_handler",
      codes "The proposal introduces inline event-handler script behavior.",
    )
    ∷ (codes "new_iframe", codes "The proposal introduces embedded frame content.")
    ∷ (codes "new_download", codes "The proposal introduces download behavior.")
    ∷ (codes "new_analytics", codes "The proposal introduces analytics-like behavior.")
    ∷ (codes "new_cookie_behavior", codes "The proposal introduces cookie behavior.")
    ∷ [])

unfoldable pub warning_of : BehaviorFeature → BlockingWarning
unfolding behavior_message
warning_of feature = record {
  code = feature.code;
  path = feature.path;
  destination = feature.destination;
  message = behavior_message feature.code;
}

abbrev pub is_active : BehaviorFeature → Bool
is_active feature = not (feature.code == codes "new_external_origin")

unfoldable pub active_behavior_warnings : Crates → Files → Files → List BlockingWarning
active_behavior_warnings crates accepted proposed =
    collect_by warning_key
      (map warning_of (
        keep is_active (
          difference_by feature_key (behavior_features crates proposed)
            (behavior_features crates accepted))))
      []
