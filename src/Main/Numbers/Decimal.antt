-- ===== src/Main/Numbers/Decimal.antt =====
-- How the package flag reads an int or an int64 of cmd/goper/main.go: numbers in decimal.
use goper.Base.{
  ℕ, zero, suc, ◌+◌, ◌-◌, ◌/◌, ◌^◌, ◌≤◌, ◌<◌, ◌*◌, true, false, Bool-cases, inl, inr, ◌≡◌, refl, ap,
  ◌∙◌, [], ◌∷◌, Option, none, some, ◌==◌, leb, ltb, arith, All,
}
use native.Mathlib.Nat.{pow-suc}
use goper.Base.Int.{ℤ, pos, negsuc}
use goper.Base.Text.{Text}
use goper.Capture.Entry.{digits_on, itoa, decimal}
use goper.Api.Queries.{digits_value, positive, negative}
use goper.Api.Queries.Numbers.{read_back}
use goper.Main.Numbers.{digits_in, base_of, has_underscore, checked, parse_uint, parse_int}

abbrev IsDigit : ℕ → Type 0
IsDigit c = (48 ≤ c) × (c ≤ 57)

-- Decimal digits, the first of which is not 0.
abbrev IsPlain : Text → Type 0
IsPlain [] = ⊥
IsPlain (c ∷ cs) = (48 < c) × (c ≤ 57) × All IsDigit cs

digits_on-IsPlain :
    (f n : ℕ) (acc : Text) → 0 < n → n < 10 ^ f → All IsDigit acc → IsPlain (digits_on f n acc)
unfolding digits_on
digits_on-IsPlain zero n acc p h ds = absurd (omega arith)
digits_on-IsPlain (suc f) n acc p h ds = elim (Bool-cases (ltb n 10)) [
  | inl small ↦ rw small (omega arith, ground arith, ds)
  | inr large ↦ rw large (
      digits_on-IsPlain f (n / 10) _ (ground (arith, large)) (grind (arith, pow-suc 10 f))
        ((omega arith, omega arith), ds))
]

below_ten : (c : ℕ) → c ≤ 57 → ltb (c - 48) 10 ≡ true
below_ten c h = ground arith

digits_in-decimal : (acc : ℕ) (t : Text) → All IsDigit t → digits_in 10 acc t ≡ digits_value acc t
unfolding digits_in digits_value
digits_in-decimal acc [] h = refl
digits_in-decimal acc (c ∷ cs) h =
    let ((low, high), ds) = h in
    let a : leb 48 c ≡ true = ground arith in
    let b : leb c 57 ≡ true = ground arith in
    let d : (c == b'_') ≡ false = ground arith in
    rw (d, a, b, below_ten c high) (digits_in-decimal (acc * 10 + (c - 48)) cs ds)

has_underscore-decimal : (t : Text) → All IsDigit t → has_underscore t ≡ false
unfolding has_underscore
has_underscore-decimal [] h = refl
has_underscore-decimal (c ∷ cs) h =
    let ih = has_underscore-decimal cs h.1 in
    let d : (c == b'_') ≡ false = ground arith in rw (d, ih) refl

base_of-IsPlain : (t : Text) → IsPlain t → base_of t ≡ (10, t)
unfolding base_of
base_of-IsPlain [] h = absurd h
base_of-IsPlain (z ∷ []) h = let e : (z == b'0') ≡ false = ground arith in rw e refl
base_of-IsPlain (z ∷ p ∷ []) h = let e : (z == b'0') ≡ false = ground arith in rw e refl
base_of-IsPlain (z ∷ p ∷ c ∷ cs) h = let e : (z == b'0') ≡ false = ground arith in rw e refl

All-IsPlain : (t : Text) → IsPlain t → All IsDigit t
All-IsPlain [] h = absurd h
All-IsPlain (c ∷ cs) (low, high, ds) = ((omega arith, high), ds)

checked-decimal :
    (all rest : Text) (o : Option ℕ) → has_underscore rest ≡ false → checked all rest o ≡ o
unfolding checked
checked-decimal all rest none h = refl
checked-decimal all rest (some n) h = rw h refl

parse_uint-IsPlain : (t : Text) → IsPlain t → parse_uint t ≡ digits_value 0 t
unfolding parse_uint
parse_uint-IsPlain [] h = absurd h
parse_uint-IsPlain (c ∷ cs) h =
    let ds = All-IsPlain (c ∷ cs) h in
    rw (base_of-IsPlain (c ∷ cs) h, digits_in-decimal 0 (c ∷ cs) ds)
      (checked-decimal (c ∷ cs) (c ∷ cs) _ (has_underscore-decimal (c ∷ cs) ds))

itoa-IsPlain : (n : ℕ) → 0 < n → n < 10 ^ 20 → IsPlain (itoa n)
unfolding itoa
itoa-IsPlain n p h = digits_on-IsPlain 20 n [] p h tt

parse_uint-itoa : (n : ℕ) → 0 < n → n < 10 ^ 20 → parse_uint (itoa n) ≡ some n
parse_uint-itoa n p h = parse_uint-IsPlain (itoa n) (itoa-IsPlain n p h) ∙ read_back n h

parse_int_unsigned : (t : Text) → IsPlain t → parse_int t ≡ positive (parse_uint t)
unfolding parse_int
parse_int_unsigned [] h = absurd h
parse_int_unsigned (c ∷ cs) h =
    let minus : (c == b'-') ≡ false = ground arith in
    let plus : (c == b'+') ≡ false = ground arith in rw (minus, plus) refl

parse_int_zero : parse_int (itoa 0) ≡ some (pos 0)
unfolding itoa digits_on parse_int parse_uint base_of digits_in checked has_underscore positive
parse_int_zero = refl

parse_int-negative : (t : Text) → parse_int (b'-' ∷ t) ≡ negative (parse_uint t)
unfolding parse_int
parse_int-negative t = refl

-- An int64.
abbrev pub IsInt64 : ℤ → Type 0
IsInt64 (pos n) = n < 2 ^ 63
IsInt64 (negsuc n) = n < 2 ^ 63

pub parse_int-decimal : (z : ℤ) → IsInt64 z → parse_int (decimal z) ≡ some z
unfolding decimal positive negative
parse_int-decimal (pos zero) h = parse_int_zero
parse_int-decimal (pos (suc n)) h =
    let fits : ltb (suc n) (2 ^ 63) ≡ true = ground arith in
    parse_int_unsigned (itoa (suc n)) (itoa-IsPlain (suc n) (omega arith) (omega arith))
    ∙ ap positive (parse_uint-itoa (suc n) (omega arith) (omega arith))
    ∙ rw fits refl
parse_int-decimal (negsuc n) h =
    let fits : ltb n (2 ^ 63) ≡ true = ground arith in
    let next : n + 1 ≡ suc n = omega arith in
    parse_int-negative (itoa (n + 1))
    ∙ ap negative (parse_uint-itoa (n + 1) (omega arith) (omega arith) ∙ ap some next)
    ∙ rw fits refl
