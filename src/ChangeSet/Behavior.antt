-- ===== src/ChangeSet/Behavior.antt =====
-- apps/local-server/src/change_set.rs: the features of the files that may make a page run or connect,
-- and the warnings for the new ones. Each loop returns what it inserts into the set, in its order.
pub mod Features
pub mod New
pub mod Warnings
use synapsegit_lp_studio.ChangeSet.Types.{BlockingWarning, Crates, usize_max, Url}
use synapsegit_lp_studio.Prelude.{
  Bool, List, Option, [], any, if◌then◌else◌, is_some, length, list_eq, ltb, nat_eq, none, not,
  some, true, ℕ, ◌&&◌, ◌++◌, ◌+◌, ◌-◌, ◌==◌, ◌||◌, ◌∷◌,
}
use synapsegit_lp_studio.Prelude.Text.{
  Text, codes, eq_ignore_ascii_case, is_ascii_alphanumeric, is_one_of, is_whitespace, span,
  starts_with, strip_prefix, take, to_ascii_lowercase, trim,
}
use synapsegit_lp_studio.Prelude.Map.{BTreeMap}
use synapsegit_lp_studio.Prelude.Map

pub record BehaviorFeature : Type 0 where
  pub code : Text
  pub path : Text
  pub destination : Text
  pub fingerprint : Text

-- `BehaviorFeature::witnessed`
unfoldable pub witnessed : Text → Text → Text → Text → BehaviorFeature
witnessed code path destination fingerprint = record {
  code = code;
  path = path;
  destination = destination;
  fingerprint = fingerprint;
}

-- The derived orders.
abbrev pub feature_key : BehaviorFeature → List Text
feature_key f = f.code ∷ f.path ∷ f.destination ∷ f.fingerprint ∷ []

abbrev pub warning_key : BlockingWarning → List Text
warning_key w = w.code ∷ w.path ∷ w.destination ∷ w.message ∷ []

-- The occurrence, from 1, and the counts with it.
abbrev pub Counts : Type 0
Counts = BTreeMap ℕ

abbrev pub saturating_succ : ℕ → ℕ
saturating_succ n = if ltb n usize_max then n + 1 else n

abbrev pub or_default : Option ℕ → ℕ
or_default none = 0
or_default (some n) = n

unfoldable pub next_occurrence : Counts → Text → ℕ × Counts
next_occurrence occurrences key =
    let occurrence = saturating_succ (or_default (Map.get key occurrences)) in
    (occurrence, Map.insert key occurrence occurrences)

-- The places where a pattern stands, as `find` from the end of the last one on meets them: the
-- character before it, and the rest of the text. Case is ignored as in the lowercase text.
unfoldable pub occurrences_from : Text → ℕ → Option ℕ → Text → List (Option ℕ × Text)
occurrences_from pattern skip preceding [] = []
occurrences_from pattern skip preceding (c ∷ t) =
    let here = skip == 0 && starts_with (to_ascii_lowercase (c ∷ t)) pattern in
    let rest =
      occurrences_from pattern (if here then length pattern - 1 else skip - 1) (some c) t in
    if here then (preceding, c ∷ t) ∷ rest else rest

unfoldable pub occurrences_of : Text → Text → List (Option ℕ × Text)
unfolding occurrences_from starts_with to_ascii_lowercase
occurrences_of pattern text = occurrences_from pattern 0 none text

-- The URL at the start of a text: `&tail[..external_url_end(tail)]`.
unfoldable pub url_at : Text → Text
unfolding span is_whitespace any
url_at value = (span (λ c. is_whitespace c || any (λ x. x == c) (codes "\"'<>)]}")) value).0

unfoldable pub scheme_origins : Crates → List (Option ℕ × Text) → List Text
unfolding url_at
scheme_origins crates [] = []
scheme_origins crates ((preceding, tail) ∷ rest) =
    let more = scheme_origins crates rest in
    elim (crates.parse_url (url_at tail)) [ none ↦ more | some url ↦ url.origin ∷ more ]

unfoldable pub has_url_boundary : Option ℕ → Bool
unfolding is_ascii_alphanumeric any
has_url_boundary none = true
has_url_boundary (some c) = not (is_ascii_alphanumeric c) && not (any (λ x. x == c) (codes ":/_-."))

-- The origin of `https:` and the text, without the scheme.
unfoldable pub protocol_relative_origin : Crates → Text → Option Text
unfolding url_at strip_prefix
protocol_relative_origin crates tail = elim (crates.parse_url (codes "https:" ++ url_at tail)) [
  | none ↦ none
  | some url ↦ strip_prefix url.origin (codes "https:")
]

unfoldable pub protocol_relative_origins : Crates → List (Option ℕ × Text) → List Text
unfolding has_url_boundary protocol_relative_origin
protocol_relative_origins crates [] = []
protocol_relative_origins crates ((preceding, tail) ∷ rest) =
    let more = protocol_relative_origins crates rest in
    if has_url_boundary preceding
    then (elim (protocol_relative_origin crates tail) [ none ↦ more | some origin ↦ origin ∷ more ])
    else more

unfoldable pub external_origins : Crates → Text → List Text
unfolding occurrences_of scheme_origins protocol_relative_origins
external_origins crates text =
    scheme_origins crates (occurrences_of (codes "http://") text)
    ++ (scheme_origins crates (occurrences_of (codes "https://") text)
        ++ protocol_relative_origins crates (occurrences_of (codes "//") text))

-- What `external_reference_origin` gives to the parser.
unfoldable pub parse_value : Text → Option Text
unfolding starts_with eq_ignore_ascii_case take
parse_value reference =
    if starts_with reference (codes "//")
    then some (codes "https:" ++ reference)
    else if eq_ignore_ascii_case (take 5 reference) (codes "http:")
        || eq_ignore_ascii_case (take 6 reference) (codes "https:")
    then some reference
    else none

abbrev pub or_else : Option Text → Text → Text
or_else none d = d
or_else (some t) d = t

unfoldable pub origin_of_reference : Text → Url → Option Text
unfolding starts_with strip_prefix is_one_of
origin_of_reference reference url =
    if not (is_one_of url.scheme (codes "http" ∷ codes "https" ∷ [])) || not (is_some url.host_str)
    then none
    else if starts_with reference (codes "//")
    then some (or_else (strip_prefix url.origin (codes "https:")) url.origin)
    else some url.origin

unfoldable pub external_reference_origin : Crates → Text → Option Text
unfolding parse_value trim origin_of_reference
external_reference_origin crates raw_reference =
    let reference = trim raw_reference in
    elim (parse_value reference) [
      | none ↦ none
      | some value ↦ elim (crates.parse_url value) [
        | none ↦ none
        | some url ↦ origin_of_reference reference url
      ]
    ]
