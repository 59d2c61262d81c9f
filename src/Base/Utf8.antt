-- ===== src/Base/Utf8.antt =====
-- How Go reads the runes of a string (`for _, r := range s`): UTF-8, with U+FFFD for a byte that
-- begins no valid encoding.
use goper.Base.{
  ℕ, zero, suc, ◌+◌, ◌-◌, ◌*◌, Bool, ◌&&◌, List, [], ◌∷◌, ◌==◌, ltb, leb, if◌then◌else◌, length,
}
use goper.Base.Text.{Text}

abbrev pub within : ℕ → ℕ → ℕ → Bool
within lo hi b = leb lo b && leb b hi

abbrev pub rune_error : ℕ
rune_error = 0xFFFD

-- The second byte of an encoding has a range of its own after these first bytes.
abbrev pub second_lo : ℕ → ℕ
second_lo b = if b == 0xE0 then 0xA0 else if b == 0xF0 then 0x90 else 0x80

abbrev pub second_hi : ℕ → ℕ
second_hi b = if b == 0xED then 0x9F else if b == 0xF4 then 0x8F else 0xBF

abbrev pub is_second : ℕ → ℕ → Bool
is_second b c = within (second_lo b) (second_hi b) c

abbrev pub is_next : ℕ → Bool
is_next = within 0x80 0xBF

abbrev pub error_here : Text → ℕ × Text
error_here s = (rune_error, s)

-- Encodings of two, three and four bytes, after the first byte.
unfoldable pub decode_two : ℕ → Text → ℕ × Text
decode_two b [] = error_here []
decode_two b (c ∷ s) = if is_next c then ((b - 0xC0) * 64 + (c - 0x80), s) else error_here (c ∷ s)

unfoldable pub decode_three : ℕ → Text → ℕ × Text
decode_three b (c ∷ d ∷ s) =
    if is_second b c && is_next d
    then (((b - 0xE0) * 64 + (c - 0x80)) * 64 + (d - 0x80), s)
    else error_here (c ∷ d ∷ s)
decode_three b s = error_here s

unfoldable pub decode_four : ℕ → Text → ℕ × Text
decode_four b (c ∷ d ∷ e ∷ s) =
    if is_second b c && is_next d && is_next e
    then ((((b - 0xF0) * 64 + (c - 0x80)) * 64 + (d - 0x80)) * 64 + (e - 0x80), s)
    else error_here (c ∷ d ∷ e ∷ s)
decode_four b s = error_here s

-- The first rune of a string, and what follows it.
unfoldable pub decode_rune : ℕ → Text → ℕ × Text
decode_rune b s =
    if ltb b 0x80
    then (b, s)
    else if within 0xC2 0xDF b
    then decode_two b s
    else if within 0xE0 0xEF b
    then decode_three b s
    else if within 0xF0 0xF4 b
    then decode_four b s
    else error_here s

unfoldable pub runes_on : ℕ → Text → List ℕ
runes_on fuel [] = []
runes_on zero (b ∷ s) = []
runes_on (suc fuel) (b ∷ s) = let (r, rest) = decode_rune b s in r ∷ runes_on fuel rest

-- A rune takes at least one byte, so the length is fuel enough.
unfoldable pub runes : Text → List ℕ
runes s = runes_on (length s) s
