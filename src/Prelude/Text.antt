-- ===== src/Prelude/Text.antt =====
-- `str` and `String`: a text is the list of its characters, each by its code point. What the
-- server asks of the standard library's strings.
use Prim.Native.Char.{code}
use synapsegit_lp_studio.Prelude.{
  Bool, List, Option, String, [], any, arith, false, if◌then◌else◌, leb, list_eq, ltb, map, nat_eq,
  none, reverse, some, suc, true, zero, ℕ, ◌%◌, ◌&&◌, ◌++◌, ◌+◌, ◌/◌, ◌==◌, ◌||◌, ◌∷◌, ◌≡◌,
}

abbrev pub Text : Type 0
Text = List ℕ

abbrev pub Bytes : Type 0
Bytes = List ℕ

abbrev pub codes : String → Text
codes String.[] = []
codes (String.◌∷◌ c s) = code c ∷ codes s

-- The UTF-8 encoding of one character.
unfoldable pub utf8_char : ℕ → Bytes
utf8_char c =
    if ltb c 0x80
    then c ∷ []
    else if ltb c 0x800
    then (0xc0 + c / 64) ∷ (0x80 + c % 64) ∷ []
    else if ltb c 0x10000
    then (0xe0 + c / 4096) ∷ (0x80 + c / 64 % 64) ∷ (0x80 + c % 64) ∷ []
    else (0xf0 + c / 262144) ∷ (0x80 + c / 4096 % 64) ∷ (0x80 + c / 64 % 64) ∷ (0x80 + c % 64) ∷ []

-- `as_bytes`
unfoldable pub as_bytes : Text → Bytes
unfolding utf8_char
as_bytes [] = []
as_bytes (c ∷ t) = utf8_char c ++ as_bytes t

-- `char::len_utf8`
unfoldable pub len_utf8 : ℕ → ℕ
len_utf8 c = if ltb c 0x80 then 1 else if ltb c 0x800 then 2 else if ltb c 0x10000 then 3 else 4

-- `str::len`, in bytes
unfoldable pub len : Text → ℕ
unfolding len_utf8
len [] = 0
len (c ∷ t) = len_utf8 c + len t

pub len-append : (s t : Text) → len (s ++ t) ≡ len s + len t
unfolding len
len-append [] t = omega arith
len-append (c ∷ s) t = omega (arith, len-append s t)

abbrev pub is_empty {ℓ} : {A : Type ℓ} → List A → Bool
is_empty [] = true
is_empty (c ∷ t) = false

unfoldable pub starts_with : Text → Text → Bool
starts_with t [] = true
starts_with [] (p ∷ ps) = false
starts_with (c ∷ t) (p ∷ ps) = c == p && starts_with t ps

unfoldable pub strip_prefix : Text → Text → Option Text
strip_prefix t [] = some t
strip_prefix [] (p ∷ ps) = none
strip_prefix (c ∷ t) (p ∷ ps) = let rest = strip_prefix t ps in if c == p then rest else none

unfoldable pub ends_with : Text → Text → Bool
unfolding starts_with
ends_with t suffix = starts_with (reverse t) (reverse suffix)

-- `contains`, of a text in a text
unfoldable pub contains : Text → Text → Bool
unfolding starts_with
contains [] pattern = starts_with [] pattern
contains (c ∷ t) pattern = starts_with (c ∷ t) pattern || contains t pattern

unfoldable pub contains_char : Text → ℕ → Bool
unfolding any
contains_char t c = any (λ x. x == c) t

-- `split`, on a character: as many parts as there are separators, and one more
abbrev push_head : ℕ → List Text → List Text
push_head c [] = (c ∷ []) ∷ []
push_head c (s ∷ r) = (c ∷ s) ∷ r

unfoldable pub split : ℕ → Text → List Text
split sep [] = [] ∷ []
split sep (c ∷ t) = let rest = split sep t in if c == sep then [] ∷ rest else push_head c rest

-- `join`
unfoldable pub join : Text → List Text → Text
join sep [] = []
join sep (s ∷ []) = s
join sep (s ∷ t ∷ r) = s ++ (sep ++ join sep (t ∷ r))

-- `split_once` and `rsplit_once`, on a character
abbrev pub prefixed : ℕ → Option (Text × Text) → Option (Text × Text)
prefixed c none = none
prefixed c (some (a, b)) = some (c ∷ a, b)

unfoldable pub split_once : ℕ → Text → Option (Text × Text)
split_once sep [] = none
split_once sep (c ∷ t) =
    let rest = split_once sep t in if c == sep then some ([], t) else prefixed c rest

abbrev swapped : Option (Text × Text) → Option (Text × Text)
swapped none = none
swapped (some (a, b)) = some (reverse b, reverse a)

unfoldable pub rsplit_once : ℕ → Text → Option (Text × Text)
unfolding split_once
rsplit_once sep t = swapped (split_once sep (reverse t))

unfoldable pub last_or_empty : List Text → Text
last_or_empty [] = []
last_or_empty (s ∷ []) = s
last_or_empty (s ∷ t ∷ r) = last_or_empty (t ∷ r)

abbrev pub first_or_empty : List Text → Text
first_or_empty [] = []
first_or_empty (s ∷ r) = s

unfoldable pub to_ascii_lower : ℕ → ℕ
to_ascii_lower c = if leb b'A' c && leb c b'Z' then c + 32 else c

unfoldable pub to_ascii_lowercase : Text → Text
unfolding to_ascii_lower
to_ascii_lowercase = map to_ascii_lower

unfoldable pub eq_ignore_ascii_case : Text → Text → Bool
unfolding to_ascii_lowercase
eq_ignore_ascii_case s t = to_ascii_lowercase s == to_ascii_lowercase t

-- the general category Cc
unfoldable pub is_control : ℕ → Bool
is_control c = ltb c 0x20 || leb 0x7f c && leb c 0x9f

-- the property White_Space
unfoldable pub is_whitespace : ℕ → Bool
is_whitespace c =
    leb 9 c && leb c 13
    || c == 0x20
    || c == 0x85
    || c == 0xa0
    || c == 0x1680
    || leb 0x2000 c && leb c 0x200a
    || c == 0x2028
    || c == 0x2029
    || c == 0x202f
    || c == 0x205f
    || c == 0x3000

unfoldable pub trim_start_matches : (ℕ → Bool) → Text → Text
trim_start_matches p [] = []
trim_start_matches p (c ∷ t) = let rest = trim_start_matches p t in if p c then rest else c ∷ t

unfoldable pub trim : Text → Text
unfolding trim_start_matches is_whitespace
trim t = reverse (trim_start_matches is_whitespace (reverse (trim_start_matches is_whitespace t)))

unfoldable pub trim_start : Text → Text
unfolding trim_start_matches is_whitespace
trim_start = trim_start_matches is_whitespace

-- What stands before the first character that passes the test, and the rest from there on:
-- `find(test).unwrap_or(len)`.
unfoldable pub span : (ℕ → Bool) → Text → Text × Text
span p [] = ([], [])
span p (c ∷ t) = let (before, rest) = span p t in if p c then ([], c ∷ t) else (c ∷ before, rest)

-- `find`, of a text: what stands before it, and the rest from its start on
unfoldable pub find_text : Text → Text → Option (Text × Text)
unfolding starts_with
find_text pattern [] = if starts_with [] pattern then some ([], []) else none
find_text pattern (c ∷ t) =
    let rest = find_text pattern t in
    if starts_with (c ∷ t) pattern then some ([], c ∷ t) else prefixed c rest

unfoldable pub drop : ℕ → Text → Text
drop zero t = t
drop (suc n) [] = []
drop (suc n) (c ∷ t) = drop n t

unfoldable pub take : ℕ → Text → Text
take zero t = []
take (suc n) [] = []
take (suc n) (c ∷ t) = c ∷ take n t

unfoldable pub is_ascii_digit : ℕ → Bool
is_ascii_digit c = leb b'0' c && leb c b'9'

unfoldable pub is_one_of : Text → List Text → Bool
unfolding any
is_one_of t ts = any (λ x. t == x) ts

unfoldable pub is_ascii_alphanumeric : ℕ → Bool
unfolding is_ascii_digit
is_ascii_alphanumeric c = is_ascii_digit c || leb b'A' c && leb c b'Z' || leb b'a' c && leb c b'z'

-- a number in decimal; the fuel is more than its digits
unfoldable pub decimal_from : ℕ → ℕ → Text → Text
decimal_from zero n digits = digits
decimal_from (suc fuel) n digits =
    let here = (b'0' + n % 10) ∷ digits in
    let more = decimal_from fuel (n / 10) here in if ltb n 10 then here else more

unfoldable pub decimal : ℕ → Text
unfolding decimal_from
decimal n = decimal_from (n + 1) n []
