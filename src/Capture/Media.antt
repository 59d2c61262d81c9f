-- ===== src/Capture/Media.antt =====
-- internal/capture/capture.go: content types, and which bodies are worth keeping.
pub mod Printable
use goper.Base.{
  ℕ, zero, suc, ◌+◌, ◌-◌, ◌≤◌, ◌<◌, Bool, true, false, not, ◌&&◌, ◌||◌, List, [], ◌∷◌, ◌++◌, map,
  ◌==◌, ltb, leb, if◌then◌else◌, length, drop,
}
use mathlib.Core.List.{reverse}
use goper.Base.Text.{Text, codes, text_eq}
use goper.Base.Utf8.{runes, within}

-- `strings.ToLower` on a rune. Beyond ASCII it is the table of the `unicode` package.
abbrev pub lower_rune : (ℕ → ℕ) → ℕ → ℕ
lower_rune unicode_lower r =
    if within b'A' b'Z' r then r + 32 else if ltb r 0x80 then r else unicode_lower r

abbrev pub lower_byte : ℕ → ℕ
lower_byte b = if within b'A' b'Z' b then b + 32 else b

unfoldable pub has_prefix : Text → Text → Bool
has_prefix s [] = true
has_prefix [] (p ∷ ps) = false
has_prefix (c ∷ s) (p ∷ ps) = (c == p) && has_prefix s ps

-- `strings.ToLower` on UTF-8, for comparing with ASCII: beyond ASCII two runes alone have a small
-- letter of ASCII, U+0130 (0xC4 0xB0) an i and the Kelvin sign U+212A (0xE2 0x84 0xAA) a k. The
-- bytes of other runes and of invalid encodings, which stay outside of ASCII, are left as they are;
-- white space has no case.
unfoldable pub to_lower : Text → Text
unfolding has_prefix
to_lower [] = []
to_lower (b ∷ s) =
    let lowered = to_lower s in
    if has_prefix (b ∷ s) (0xC4 ∷ 0xB0 ∷ [])
    then b'i' ∷ drop 1 lowered
    else if has_prefix (b ∷ s) (0xE2 ∷ 0x84 ∷ 0xAA ∷ [])
    then b'k' ∷ drop 2 lowered
    else lower_byte b ∷ lowered

-- `strings.Index(ct, ";")` and the slice before it.
unfoldable pub before_semicolon : Text → Text
before_semicolon [] = []
before_semicolon (c ∷ s) = if c == b';' then [] else c ∷ before_semicolon s

-- `unicode.IsSpace` beyond ASCII, in UTF-8: U+0085, U+00A0, U+1680, U+2000 to U+200A, U+2028,
-- U+2029, U+202F, U+205F and U+3000.
abbrev pub wide_spaces : List Text
wide_spaces =
    (0xC2 ∷ 0x85 ∷ [])
    ∷ (0xC2 ∷ 0xA0 ∷ [])
    ∷ (0xE1 ∷ 0x9A ∷ 0x80 ∷ [])
    ∷ (0xE2 ∷ 0x80 ∷ 0x80 ∷ [])
    ∷ (0xE2 ∷ 0x80 ∷ 0x81 ∷ [])
    ∷ (0xE2 ∷ 0x80 ∷ 0x82 ∷ [])
    ∷ (0xE2 ∷ 0x80 ∷ 0x83 ∷ [])
    ∷ (0xE2 ∷ 0x80 ∷ 0x84 ∷ [])
    ∷ (0xE2 ∷ 0x80 ∷ 0x85 ∷ [])
    ∷ (0xE2 ∷ 0x80 ∷ 0x86 ∷ [])
    ∷ (0xE2 ∷ 0x80 ∷ 0x87 ∷ [])
    ∷ (0xE2 ∷ 0x80 ∷ 0x88 ∷ [])
    ∷ (0xE2 ∷ 0x80 ∷ 0x89 ∷ [])
    ∷ (0xE2 ∷ 0x80 ∷ 0x8A ∷ [])
    ∷ (0xE2 ∷ 0x80 ∷ 0xA8 ∷ [])
    ∷ (0xE2 ∷ 0x80 ∷ 0xA9 ∷ [])
    ∷ (0xE2 ∷ 0x80 ∷ 0xAF ∷ [])
    ∷ (0xE2 ∷ 0x81 ∷ 0x9F ∷ [])
    ∷ (0xE3 ∷ 0x80 ∷ 0x80 ∷ [])
    ∷ []

abbrev is_space : ℕ → Bool
is_space c = (c == 32) || within 9 13 c

-- How many bytes the first of these texts takes that `s` begins with, 0 if it begins with none.
width_of : List Text → Text → ℕ
unfolding has_prefix
width_of [] s = 0
width_of (w ∷ ws) s = let rest = width_of ws s in if has_prefix s w then length w else rest

space_width : List Text → Text → ℕ
unfolding width_of
space_width wide [] = 0
space_width wide (c ∷ s) = if is_space c then 1 else width_of wide (c ∷ s)

-- The text behind the white space that it begins with, of which some bytes are still to skip.
trim_by : List Text → ℕ → Text → Text
unfolding space_width
trim_by wide skipped [] = []
trim_by wide (suc skipped) (c ∷ s) = trim_by wide skipped s
trim_by wide zero (c ∷ s) = elim (space_width wide (c ∷ s)) [
  | zero ↦ c ∷ s
  | suc more ↦ trim_by wide more s
]

-- `strings.TrimSpace`; from the end, the bytes of each rune come in reverse.
unfoldable pub trim_space : Text → Text
unfolding trim_by
trim_space s =
    let from_left = trim_by wide_spaces 0 s in
    reverse (trim_by (map reverse wide_spaces) 0 (reverse from_left))

unfoldable pub normalize_media_type : Text → Text
unfolding to_lower before_semicolon trim_space
normalize_media_type content_type = trim_space (before_semicolon (to_lower content_type))

unfoldable pub has_suffix : Text → Text → Bool
unfolding has_prefix
has_suffix s suffix = has_prefix (reverse s) (reverse suffix)

unfoldable pub occurs_in : Text → Text → Bool
unfolding has_prefix
occurs_in [] part = has_prefix [] part
occurs_in (c ∷ s) part = has_prefix (c ∷ s) part || occurs_in s part

unfoldable pub has_json_marker : Text → Bool
unfolding has_suffix occurs_in
has_json_marker ct = has_suffix ct (codes "+json") || occurs_in ct (codes "ndjson")

unfoldable pub is_json_mime_type : Text → Bool
unfolding has_json_marker
is_json_mime_type ct =
    text_eq ct (codes "application/json") || (text_eq ct (codes "text/json") || has_json_marker ct)

unfoldable pub is_json_content_type : Text → Bool
unfolding normalize_media_type is_json_mime_type
is_json_content_type content_type = is_json_mime_type (normalize_media_type content_type)

abbrev pub is_tolerated_control : ℕ → Bool
is_tolerated_control r = (r == 10) || ((r == 13) || (r == 9))

abbrev pub is_printable_char : ℕ → Bool
is_printable_char r = leb 32 r || is_tolerated_control r

unfoldable pub all_printable : List ℕ → Bool
all_printable [] = true
all_printable (r ∷ rs) = if is_printable_char r then all_printable rs else false

unfoldable pub is_printable : Text → Bool
unfolding all_printable runes
is_printable s = all_printable (runes s)

unfoldable pub worth_capturing : Text → Text → Bool
unfolding is_printable is_json_content_type
worth_capturing s content_type = is_printable s || is_json_content_type content_type
