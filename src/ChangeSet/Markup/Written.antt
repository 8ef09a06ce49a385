-- ===== src/ChangeSet/Markup/Written.antt =====
-- apps/local-server/src/change_set.rs: `parse_attributes` on attributes that are written out.
use synapsegit_lp_studio.ChangeSet.Markup.{
  attribute_value, parse_attributes, quoted_value, skip_to_name, value_at,
}
use synapsegit_lp_studio.ChangeSet.Markup.Attributes.{attribute_round, parse_attributes_lem}
use synapsegit_lp_studio.Prelude.{
  ==_refl, All, Bool, List, [], ap, arith, false, if◌then◌else◌, inl, inr, list_eq, map, nat_eq,
  refl, some, subst, sym, true, ℕ, ◌++◌, ◌==◌, ◌||◌, ◌∙◌, ◌∷◌, ◌≡◌, ◌⊎◌,
}
use synapsegit_lp_studio.Prelude.Text.{
  Text, is_empty, is_whitespace, prefixed, span, split_once, to_ascii_lowercase, trim_start,
  trim_start_matches,
}

-- An attribute as a page writes it: a name, and a value between two quotes of one kind.
pub record Written : Type 0 where
  pub name : Text
  pub quote : ℕ
  pub value : Text

abbrev pub ends_name : ℕ → Bool
ends_name c = is_whitespace c || c == b'=' || c == b'/' || c == b'>'

-- The name is not empty, and nothing in it ends a name; the quote is one, and is not in the value.
pub record IsWellWritten (a : Written) : Type 0 where
  pub is_named : is_empty a.name ≡ false
  pub is_name : All (λ c. ends_name c ≡ false) a.name
  pub is_quoted : (a.quote ≡ b'\'') ⊎ (a.quote ≡ b'"')
  pub fits_quote : All (λ c. (c == a.quote) ≡ false) a.value

abbrev pub behind_name : Written → Text → Text
behind_name a rest = b'=' ∷ a.quote ∷ a.value ++ a.quote ∷ rest

unfoldable pub written : List Written → Text
written [] = []
written (a ∷ more) = b' ' ∷ a.name ++ behind_name a (written more)

span_until :
    (p : ℕ → Bool) (t : Text) (d : ℕ) (rest : Text)
    → All (λ c. p c ≡ false) t
    → p d ≡ true
    → span p (t ++ d ∷ rest) ≡ (t, d ∷ rest)
unfolding span
span_until p [] d rest none_in ends = rw ends refl
span_until p (c ∷ t) d rest (here, none_in) ends =
    rw here (ap (λ r. (c ∷ r.0, r.1)) (span_until p t d rest none_in ends))

split_at_quote :
    (quote : ℕ) (t rest : Text)
    → All (λ c. (c == quote) ≡ false) t
    → split_once quote (t ++ quote ∷ rest) ≡ some (t, rest)
unfolding split_once
split_at_quote quote [] rest none_in = rw (==_refl quote) refl
split_at_quote quote (c ∷ t) rest (here, none_in) =
    rw here (ap (prefixed c) (split_at_quote quote t rest none_in))

skip_blank :
    (t rest : Text)
    → is_empty t ≡ false
    → All (λ c. ends_name c ≡ false) t
    → skip_to_name (b' ' ∷ t ++ rest) ≡ t ++ rest
unfolding trim_start_matches is_whitespace
skip_blank [] rest named ends = cc
skip_blank (c ∷ t) rest named (here, ends) =
    let stays : (is_whitespace c || c == b'/') ≡ false = ground arith in rw stays refl

quoted_whole :
    (quote : ℕ) (value rest : Text)
    → All (λ c. (c == quote) ≡ false) value
    → quoted_value quote (value ++ quote ∷ rest) ≡ (value, rest)
unfolding quoted_value
quoted_whole quote value rest fits = rw (split_at_quote quote value rest fits, quoted_value) refl

abbrev ReadsValue : Text → Text → ℕ → Type 0
ReadsValue value rest quote =
    All (λ c. (c == quote) ≡ false) value
    → attribute_value (trim_start (b'=' ∷ quote ∷ value ++ quote ∷ rest)) ≡ (value, rest)

reads_single : (value rest : Text) → ReadsValue value rest b'\''
unfolding attribute_value trim_start trim_start_matches is_whitespace value_at
reads_single value rest fits = quoted_whole b'\'' value rest fits

reads_double : (value rest : Text) → ReadsValue value rest b'"'
unfolding attribute_value trim_start trim_start_matches is_whitespace value_at
reads_double value rest fits = quoted_whole b'"' value rest fits

value_written :
    (a : Written) (rest : Text)
    → (a.quote ≡ b'\'') ⊎ (a.quote ≡ b'"')
    → ReadsValue a.value rest a.quote
value_written a rest (inl e) = subst (ReadsValue a.value rest) (sym e) (reads_single a.value rest)
value_written a rest (inr e) = subst (ReadsValue a.value rest) (sym e) (reads_double a.value rest)

round_written :
    (a : Written) (rest : Text)
    → IsWellWritten a
    → attribute_round (b' ' ∷ a.name ++ behind_name a rest) ≡ (a.name, (a.value, rest))
unfolding is_whitespace
round_written a rest w =
    let skipped = skip_blank a.name (behind_name a rest) w.is_named w.is_name in
    let named =
      span_until ends_name a.name b'=' (a.quote ∷ a.value ++ a.quote ∷ rest) w.is_name refl in
    rw (skipped, named, value_written a rest w.is_quoted w.fits_quote) refl

after_round :
    (input name value rest : Text)
    → attribute_round input ≡ (name, (value, rest))
    → is_empty name ≡ false
    → parse_attributes input ≡ (to_ascii_lowercase name, value) ∷ parse_attributes rest
after_round input name value rest e named =
    parse_attributes_lem input
    ∙ ap
        (λ (r : Text × (Text × Text)).
          if is_empty r.0 then [] else (to_ascii_lowercase r.0, r.1.0) ∷ parse_attributes r.1.1)
        e
    ∙ rw named refl

-- Attributes that are written one behind the other, each behind a blank, as a name, an equals sign and
-- a value in quotes of either kind, are parsed as these names, in lowercase, and these values, whatever
-- a value has but for its quote.
pub parse_attributes-written :
    (attributes : List Written)
    → All IsWellWritten attributes
    → parse_attributes (written attributes)
      ≡ map (λ a. (to_ascii_lowercase a.name, a.value)) attributes
unfolding written
parse_attributes-written [] writable = unfold parse_attributes in refl
parse_attributes-written (a ∷ more) (here, writable) =
    after_round (b' ' ∷ a.name ++ behind_name a (written more)) a.name a.value (written more)
      (round_written a (written more) here) here.is_named
    ∙ ap (λ l. (to_ascii_lowercase a.name, a.value) ∷ l) (parse_attributes-written more writable)
