-- ===== src/ChangeSet/Behavior/Features.antt =====
-- apps/local-server/src/change_set.rs: `behavior_features`.
use synapsegit_lp_studio.ChangeSet.Types.{Crates, Files}
use synapsegit_lp_studio.ChangeSet.Path.{sha256}
use synapsegit_lp_studio.ChangeSet.Reference.{resolve_local_reference}
use synapsegit_lp_studio.ChangeSet.Markup.{MarkupTag}
use synapsegit_lp_studio.ChangeSet.Behavior.{
  BehaviorFeature, Counts, external_reference_origin, next_occurrence, occurrences_of, or_else,
  witnessed,
}
use synapsegit_lp_studio.Prelude.{
  Bool, List, Option, [], all, err, if◌then◌else◌, length, list_eq, ltb, map, nat_eq, none, not, ok,
  some, suc, zero, ℕ, ◌%◌, ◌&&◌, ◌++◌, ◌/◌, ◌==◌, ◌^◌, ◌||◌, ◌∷◌,
}
use synapsegit_lp_studio.Prelude.Text.{
  Bytes, Text, as_bytes, codes, decimal, drop, is_ascii_alphanumeric, is_empty, len, starts_with,
  trim,
}
use synapsegit_lp_studio.Prelude.Ordered.{sort_by}
use synapsegit_lp_studio.Prelude.Map.{BTreeMap}
use synapsegit_lp_studio.Prelude.Map

-- `to_be_bytes` of a `u64`
unfoldable pub to_be_bytes : ℕ → Bytes
to_be_bytes n =
    (n / 2 ^ 56 % 256)
    ∷ (n / 2 ^ 48 % 256)
    ∷ (n / 2 ^ 40 % 256)
    ∷ (n / 2 ^ 32 % 256)
    ∷ (n / 2 ^ 24 % 256)
    ∷ (n / 2 ^ 16 % 256)
    ∷ (n / 2 ^ 8 % 256)
    ∷ (n % 256)
    ∷ []

unfoldable pub canonical_bytes : List (Text × Text) → Bytes
unfolding to_be_bytes len as_bytes
canonical_bytes [] = []
canonical_bytes ((name, value) ∷ attributes) =
    to_be_bytes (len name)
    ++ (as_bytes name
        ++ (to_be_bytes (len value) ++ (as_bytes value ++ canonical_bytes attributes)))

abbrev pub attribute_key : Text × Text → List Text
attribute_key (name, value) = name ∷ value ∷ []

unfoldable pub canonical_attributes_sha256 : Crates → List (Text × Text) → Text
unfolding canonical_bytes sort_by sha256
canonical_attributes_sha256 crates attributes =
    sha256 crates (canonical_bytes (sort_by attribute_key attributes))

-- `collect` into a map: the last value of a name stays.
unfoldable pub collect_attributes : List (Text × Text) → BTreeMap Text → BTreeMap Text
collect_attributes [] map = map
collect_attributes ((name, value) ∷ attributes) map =
    collect_attributes attributes (Map.insert name value map)

abbrev pub attribute_map : List (Text × Text) → BTreeMap Text
attribute_map attributes = collect_attributes attributes []

unfoldable pub is_inline_event_handler_attribute : Text → Bool
unfolding len starts_with all is_ascii_alphanumeric as_bytes drop
is_inline_event_handler_attribute name =
    ltb 2 (len name)
    && starts_with name (codes "on")
    && all (λ byte. is_ascii_alphanumeric byte || byte == b'-') (as_bytes (drop 2 name))

-- `format!("{occurrence}:{text}")`
abbrev pub numbered : ℕ → Text → Text
numbered occurrence text = decimal occurrence ++ b':' ∷ text

-- The origins, with their occurrences in the text.
unfoldable pub origin_features : Text → Text → Counts → List Text → List BehaviorFeature
unfolding next_occurrence decimal witnessed
origin_features path kind occurrences [] = []
origin_features path kind occurrences (origin ∷ origins) =
    let (occurrence, occurrences') = next_occurrence occurrences origin in
    witnessed (codes "new_external_origin") path origin (kind ++ decimal occurrence)
    ∷ origin_features path kind occurrences' origins

unfoldable pub reference_origins : Crates → List Text → List Text
unfolding external_reference_origin
reference_origins crates [] = []
reference_origins crates (reference ∷ references) =
    let more = reference_origins crates references in
    elim (external_reference_origin crates reference) [ none ↦ more | some origin ↦ origin ∷ more ]

-- The occurrences of a marker, counted from 1.
unfoldable pub counted_features : Text → Text → Text → ℕ → List BehaviorFeature
unfolding witnessed decimal
counted_features code path marker zero = []
counted_features code path marker (suc n) =
    counted_features code path marker n ++ (witnessed code path marker (decimal (suc n)) ∷ [])

unfoldable pub marker_features : Text → Text → List Text → Text → List BehaviorFeature
unfolding counted_features occurrences_of
marker_features code path [] text = []
marker_features code path (marker ∷ markers) text =
    counted_features code path marker (length (occurrences_of marker text))
    ++ marker_features code path markers text

abbrev pub analytics_markers : List Text
analytics_markers =
    codes "google-analytics"
    ∷ codes "googletagmanager"
    ∷ codes "gtag("
    ∷ codes "analytics("
    ∷ codes "plausible.io"
    ∷ codes "segment.com"
    ∷ codes "mixpanel"
    ∷ codes "matomo"
    ∷ codes "fbq("
    ∷ []

abbrev pub cookie_markers : List Text
cookie_markers = codes "document.cookie" ∷ codes "cookie=" ∷ []

-- The maps of a file's occurrences.
pub record Occurrences : Type 0 where
  pub scripts : Counts
  pub events : Counts
  pub forms : Counts
  pub iframes : Counts
  pub downloads : Counts

abbrev pub Found : Type 0
Found = List BehaviorFeature × Occurrences

-- `{tag}[{name}]`
abbrev pub bracketed : Text → Text → Text
bracketed tag_name name = tag_name ++ b'[' ∷ (name ++ b']' ∷ [])

unfoldable pub event_features :
    Crates → Text → Text → Counts → List (Text × Text) → List BehaviorFeature × Counts
unfolding is_inline_event_handler_attribute next_occurrence witnessed trim decimal sha256
event_features crates path tag_name occurrences [] = ([], occurrences)
event_features crates path tag_name occurrences ((name, value) ∷ attributes) =
    let here = is_inline_event_handler_attribute name && not (is_empty (trim value)) in
    let (occurrence, occurrences') = next_occurrence occurrences (tag_name ++ b':' ∷ name) in
    let (features, last) =
      event_features crates path tag_name (if here then occurrences' else occurrences) attributes in
    if here
    then (
      witnessed (codes "new_inline_event_handler") path (bracketed tag_name name)
            (numbered occurrence (sha256 crates (as_bytes value)))
          ∷ features,
      last,
    )
    else (features, last)

unfoldable pub form_features : Text → Text → BTreeMap Text → Occurrences → Found
unfolding next_occurrence witnessed decimal
form_features path attributes_sha256 attributes found = elim (Map.get (codes "action") attributes) [
  | none ↦ ([], found)
  | some action ↦
      let (occurrence, forms) = next_occurrence found.forms action in
      (
        witnessed (codes "new_form_action") path action (numbered occurrence attributes_sha256)
            ∷ [],
        record found { forms = forms },
      )
]

abbrev pub inline_script : Text
inline_script = codes "inline-script"

unfoldable pub script_fingerprint : ℕ → Text → Text → Option Text → Text
unfolding decimal
script_fingerprint occurrence destination attributes_sha256 body_sha256 =
    if destination == inline_script
    then numbered occurrence
        (attributes_sha256 ++ b':' ∷ or_else body_sha256 (codes "missing-body"))
    else numbered occurrence attributes_sha256

-- The content of the file that a script element names.
unfoldable pub script_content : Crates → Files → Text → Text → List BehaviorFeature
unfolding witnessed sha256
script_content crates files path source = elim (resolve_local_reference crates path source) [
  | err e ↦ []
  | ok none ↦ []
  | ok (some resolved) ↦ elim (Map.get resolved files) [
    | none ↦ []
    | some script_bytes ↦
        witnessed (codes "changed_script_content") resolved source (sha256 crates script_bytes) ∷ []
  ]
]

unfoldable pub script_features :
    Crates → Files → Text → Text → MarkupTag → BTreeMap Text → Occurrences → Found
unfolding next_occurrence witnessed script_fingerprint script_content
script_features crates files path attributes_sha256 tag attributes found =
    let destination = or_else (Map.get (codes "src") attributes) inline_script in
    let (occurrence, scripts) = next_occurrence found.scripts destination in
    (
      witnessed (codes "new_script") path destination
            (script_fingerprint occurrence destination attributes_sha256 tag.body_sha256)
          ∷ elim (Map.get (codes "src") attributes) [
            | none ↦ []
            | some source ↦ script_content crates files path source
          ],
      record found { scripts = scripts },
    )

unfoldable pub iframe_features : Text → Text → BTreeMap Text → Occurrences → Found
unfolding next_occurrence witnessed decimal
iframe_features path attributes_sha256 attributes found =
    let destination = or_else (Map.get (codes "src") attributes) (codes "inline-frame") in
    let (occurrence, iframes) = next_occurrence found.iframes destination in
    (
      witnessed (codes "new_iframe") path destination (numbered occurrence attributes_sha256) ∷ [],
      record found { iframes = iframes },
    )

unfoldable pub download_features : Text → Text → BTreeMap Text → Occurrences → Found
unfolding next_occurrence witnessed decimal
download_features path attributes_sha256 attributes found =
    let destination = or_else (Map.get (codes "href") attributes) (codes "download-attribute") in
    let (occurrence, downloads) = next_occurrence found.downloads destination in
    if Map.contains_key (codes "download") attributes
    then (
      witnessed (codes "new_download") path destination (numbered occurrence attributes_sha256)
          ∷ [],
      record found { downloads = downloads },
    )
    else ([], found)

-- The `match` on the name of the element.
unfoldable pub element_features :
    Crates → Files → Text → Text → MarkupTag → BTreeMap Text → Occurrences → Found
unfolding form_features script_features iframe_features
element_features crates files path attributes_sha256 tag attributes found =
    if tag.name == codes "form"
    then form_features path attributes_sha256 attributes found
    else if tag.name == codes "script"
    then script_features crates files path attributes_sha256 tag attributes found
    else if tag.name == codes "iframe"
    then iframe_features path attributes_sha256 attributes found
    else ([], found)

-- One start tag.
unfoldable pub tag_features : Crates → Files → Text → MarkupTag → Occurrences → Found
unfolding event_features canonical_attributes_sha256 collect_attributes element_features
    download_features
tag_features crates files path tag found =
    let (handlers, events) = event_features crates path tag.name found.events tag.attributes in
    let attributes = attribute_map tag.attributes in
    let attributes_sha256 = canonical_attributes_sha256 crates tag.attributes in
    let (elements, found') =
      element_features crates files path attributes_sha256 tag attributes
        (record found { events = events }) in
    let (downloads, last) = download_features path attributes_sha256 attributes found' in
    (handlers ++ (elements ++ downloads), last)

unfoldable pub tags_features :
    Crates → Files → Text → Occurrences → List MarkupTag → List BehaviorFeature
unfolding tag_features
tags_features crates files path found [] = []
tags_features crates files path found (tag ∷ tags) =
    let (here, found') =
      if tag.closing then ([], found) else tag_features crates files path tag found in
    here ++ tags_features crates files path found' tags
