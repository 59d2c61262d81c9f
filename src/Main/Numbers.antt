-- ===== src/Main/Numbers.antt =====
-- How the package flag reads an int or an int64 of cmd/goper/main.go: `strconv.ParseInt` with base 0
-- and 64 bits, an error as `none`.
pub mod Decimal
use goper.Base.{
  ℕ, ◌+◌, ◌-◌, ◌*◌, Bool, true, false, not, ◌&&◌, ◌||◌, [], ◌∷◌, Option, none, some, ◌==◌, ltb, leb,
  if◌then◌else◌,
}
use goper.Base.Chain.{◌>>=◌}
use goper.Base.Int.{ℤ}
use goper.Base.Text.{Text}
use goper.Api.Queries.{positive, negative}

abbrev pub is_letter : ℕ → ℕ → Bool
is_letter small c = (c == small) || ((c + 32) == small)

abbrev pub is_decimal : ℕ → Bool
is_decimal c = leb 48 c && leb c 57

-- The value of a digit or a letter.
abbrev pub digit_value : ℕ → Option ℕ
digit_value c =
    if is_decimal c
    then some (c - 48)
    else if leb 97 c && leb c 122
    then some (c - 87)
    else if leb 65 c && leb c 90
    then some (c - 55)
    else none

abbrev pub below : ℕ → Option ℕ → Option ℕ
below base none = none
below base (some d) = if ltb d base then some d else none

-- The digits after the prefix, with underscores between them.
unfoldable pub digits_in : ℕ → ℕ → Text → Option ℕ
digits_in base acc [] = some acc
digits_in base acc (c ∷ cs) =
    let skipped = digits_in base acc cs in
    if c == b'_'
    then skipped
    else (below base (digit_value c) >>= λ d. digits_in base (acc * base + d) cs)

unfoldable pub base_prefix : ℕ → Option ℕ
base_prefix c =
    if is_letter b'b' c
    then some 2
    else if is_letter b'o' c
    then some 8
    else if is_letter b'x' c
    then some 16
    else none

abbrev pub with_prefix : Option ℕ → Text → Text → ℕ × Text
with_prefix none octal prefixed = (8, octal)
with_prefix (some base) octal prefixed = (base, prefixed)

-- The base that a prefix names, and the text behind it.
unfoldable pub base_of : Text → ℕ × Text
unfolding base_prefix
base_of [] = (10, [])
base_of (z ∷ []) = if z == b'0' then (8, []) else (10, z ∷ [])
base_of (z ∷ p ∷ []) = if z == b'0' then (8, p ∷ []) else (10, z ∷ p ∷ [])
base_of (z ∷ p ∷ c ∷ cs) =
    if z == b'0' then with_prefix (base_prefix p) (p ∷ c ∷ cs) (c ∷ cs) else (10, z ∷ p ∷ c ∷ cs)

unfoldable pub has_underscore : Text → Bool
has_underscore [] = false
has_underscore (c ∷ cs) = (c == b'_') || has_underscore cs

-- What the last byte was.
pub data Last : Type 0 where
  beginning digit underscore other : Last

abbrev pub after_digit : Last → Bool
after_digit digit = true
after_digit _ = false

abbrev pub after_underscore : Last → Bool
after_underscore underscore = true
after_underscore _ = false

abbrev pub is_hex_letter : ℕ → Bool
is_hex_letter c = (leb 97 c && leb c 102) || (leb 65 c && leb c 70)

unfoldable pub underscores_between : Bool → Last → Text → Bool
underscores_between hex last [] = not (after_underscore last)
underscores_between hex last (c ∷ cs) =
    let on_digit = underscores_between hex digit cs in
    let on_underscore = underscores_between hex underscore cs in
    let on_other = underscores_between hex other cs in
    if is_decimal c || (hex && is_hex_letter c)
    then on_digit
    else if c == b'_'
    then after_digit last && on_underscore
    else not (after_underscore last) && on_other

abbrev pub named_base : Option ℕ → Text → Text → Bool
named_base none all rest = underscores_between false beginning all
named_base (some base) all rest = underscores_between (base == 16) digit rest

-- Underscores stand only between digits, or between the prefix and a digit.
unfoldable pub underscore_ok : Text → Bool
unfolding base_prefix
underscore_ok (z ∷ p ∷ cs) =
    if z == b'0'
    then named_base (base_prefix p) (z ∷ p ∷ cs) cs
    else underscores_between false beginning (z ∷ p ∷ cs)
underscore_ok cs = underscores_between false beginning cs

unfoldable pub checked : Text → Text → Option ℕ → Option ℕ
checked all rest none = none
checked all rest (some n) = if has_underscore rest && not (underscore_ok all) then none else some n

unfoldable pub parse_uint : Text → Option ℕ
unfolding checked
parse_uint [] = none
parse_uint (c ∷ cs) =
    let (base, rest) = base_of (c ∷ cs) in checked (c ∷ cs) rest (digits_in base 0 rest)

unfoldable pub parse_int : Text → Option ℤ
parse_int [] = none
parse_int (c ∷ cs) =
    if c == b'-'
    then negative (parse_uint cs)
    else if c == b'+'
    then positive (parse_uint cs)
    else positive (parse_uint (c ∷ cs))
