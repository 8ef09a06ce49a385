-- ===== src/Prelude/Utf8.antt =====
-- `String::from_utf8` and `str::from_utf8`: a strict decoder, one byte at a time. It refuses overlong
-- forms, surrogates, code points past U+10FFFF and unfinished characters.
use synapsegit_lp_studio.Prelude.{
  All, Option, [], ap, arith, if◌then◌else◌, leb, list_eq, ltb, nat_eq, none, refl, some, suc, zero,
  ℕ, ◌&&◌, ◌*◌, ◌++◌, ◌+◌, ◌-◌, ◌<◌, ◌==◌, ◌∙◌, ◌∷◌, ◌≡◌, ◌≤◌, ◌⊎◌,
}
use synapsegit_lp_studio.Prelude.Text.{Bytes, Text, as_bytes, utf8_char}

-- How many bytes are still to come, the value so far, and the range of the next byte.
pub record Decoder : Type 0 where
  pub pending : ℕ
  pub value : ℕ
  pub low : ℕ
  pub high : ℕ

abbrev pub between : Decoder
between = record { pending = 0; value = 0; low = 0; high = 0 }

abbrev inside : ℕ → ℕ → ℕ → ℕ → Option (Decoder × Text)
inside pending value low high =
    some (record { pending = pending; value = value; low = low; high = high }, [])

unfoldable pub lead_byte : ℕ → Option (Decoder × Text)
lead_byte b =
    if ltb b 0x80
    then some (between, b ∷ [])
    else if ltb b 0xc2
    then none
    else if ltb b 0xe0
    then inside 1 (b - 0xc0) 0x80 0xbf
    else if b == 0xe0
    then inside 2 0 0xa0 0xbf
    else if b == 0xed
    then inside 2 0xd 0x80 0x9f
    else if ltb b 0xf0
    then inside 2 (b - 0xe0) 0x80 0xbf
    else if b == 0xf0
    then inside 3 0 0x90 0xbf
    else if ltb b 0xf4
    then inside 3 (b - 0xf0) 0x80 0xbf
    else if b == 0xf4
    then inside 3 4 0x80 0x8f
    else none

unfoldable pub next_byte : ℕ → Decoder → ℕ → Option (Decoder × Text)
unfolding lead_byte
next_byte zero d b = lead_byte b
next_byte (suc n) d b =
    let value' = d.value * 64 + (b - 0x80) in
    if leb d.low b && leb b d.high
    then (if n == 0 then some (between, value' ∷ []) else inside n value' 0x80 0xbf)
    else none

abbrev behind : Text → Option Text → Option Text
behind out none = none
behind out (some rest) = some (out ++ rest)

unfoldable pub decode : Decoder → Bytes → Option Text
unfolding next_byte
decode d [] = if d.pending == 0 then some [] else none
decode d (b ∷ bs) = elim (next_byte d.pending d b) [
  | none ↦ none
  | some (d', out) ↦ behind out (decode d' bs)
]

unfoldable pub from_utf8 : Bytes → Option Text
unfolding decode
from_utf8 bytes = decode between bytes

decoded :
    from_utf8 (0x61 ∷ 0xc3 ∷ 0xa9 ∷ 0xe2 ∷ 0x82 ∷ 0xac ∷ 0xf0 ∷ 0x9f ∷ 0x98 ∷ 0x80 ∷ [])
    ≡ some (0x61 ∷ 0xe9 ∷ 0x20ac ∷ 0x1f600 ∷ [])
unfolding from_utf8
decoded = refl

refused :
    (from_utf8 (0xc0 ∷ 0x80 ∷ []) ≡ none)
    × (from_utf8 (0xed ∷ 0xa0 ∷ 0x80 ∷ []) ≡ none)
    × (from_utf8 (0xe2 ∷ 0x82 ∷ []) ≡ none)
unfolding from_utf8
refused = (refl, refl, refl)

-- The characters that Rust's `char` holds.
abbrev pub IsScalar : ℕ → Type 0
IsScalar c = (c < 0xd800) ⊎ ((0xe000 ≤ c) × (c < 0x110000))

decode-utf8_char :
    (c : ℕ) (rest : Bytes)
    → IsScalar c
    → decode between (utf8_char c ++ rest) ≡ behind (c ∷ []) (decode between rest)
unfolding decode utf8_char
decode-utf8_char c rest h = ground arith

decode-as_bytes : (t : Text) → All IsScalar t → decode between (as_bytes t) ≡ some t
decode-as_bytes [] h = unfold as_bytes decode in refl
decode-as_bytes (c ∷ t) h = as_bytes_cons c t h.0 ∙ ap (behind (c ∷ [])) (decode-as_bytes t h.1)
  where
    as_bytes_cons :
        (c : ℕ) (t : Text)
        → IsScalar c
        → decode between (as_bytes (c ∷ t)) ≡ behind (c ∷ []) (decode between (as_bytes t))
    as_bytes_cons c t h = unfold as_bytes in decode-utf8_char c (as_bytes t) h

-- Decoding gives back what was encoded.
pub from_utf8-as_bytes : (t : Text) → All IsScalar t → from_utf8 (as_bytes t) ≡ some t
from_utf8-as_bytes t h = unfold from_utf8 in decode-as_bytes t h
