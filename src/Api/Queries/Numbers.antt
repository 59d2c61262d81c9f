-- ===== src/Api/Queries/Numbers.antt =====
-- internal/api/handlers.go: a number in a query string is read as it was written.
use goper.Base.{
  ℕ, zero, suc, ◌+◌, ◌*◌, ◌/◌, ◌%◌, ◌^◌, ◌<◌, ◌≤◌, ◌≡◌, refl, ap, ◌∙◌, inl, inr, arith, true, false,
  [], ◌∷◌, some, ltb, leb, ◌==◌, Bool-cases,
}
use native.Mathlib.Nat.{pow-suc}
use goper.Base.Int.{ℤ, pos, leb_ℤ}
use goper.Base.Text.{Text}
use goper.Capture.Entry.{digits_on, itoa}
use goper.Api.Queries.{
  Values, query_get, digits_value, parse_digits, positive, atoi, int_or_zero, positive_or_zero,
  at_least_zero, parse_int_query, parse_positive_int_query, parse_backfill,
}

digit_step :
    (acc d : ℕ) (cs : Text)
    → d < 10
    → digits_value acc ((48 + d) ∷ cs) ≡ digits_value (acc * 10 + d) cs
unfolding digits_value
digit_step acc d cs h =
    let low : leb 48 (48 + d) ≡ true = ground arith in
    let high : leb (48 + d) 57 ≡ true = ground arith in
    rw (low, high) (ap (λ k. digits_value k cs) (omega arith))

digits_value-digits_on :
    (f n : ℕ) (acc : Text) → n < 10 ^ f → digits_value 0 (digits_on f n acc) ≡ digits_value n acc
unfolding digits_on
digits_value-digits_on zero n acc h = ap (λ k. digits_value k acc) (omega arith)
digits_value-digits_on (suc f) n acc h = elim (Bool-cases (ltb n 10)) [
  | inl small ↦
      rw small (digit_step 0 n acc (ground arith) ∙ ap (λ k. digits_value k acc) (omega arith))
  | inr large ↦ rw large (
      digits_value-digits_on f (n / 10) _ (grind (arith, pow-suc 10 f))
      ∙ digit_step (n / 10) (n % 10) acc (omega arith)
      ∙ ap (λ k. digits_value k acc) (omega arith))
]

abbrev pub StartsWithDigit : Text → Type 0
StartsWithDigit [] = ⊥
StartsWithDigit (c ∷ cs) = 48 ≤ c

digits_on-StartsWithDigit :
    (f n : ℕ) (acc : Text) → StartsWithDigit acc → StartsWithDigit (digits_on f n acc)
unfolding digits_on
digits_on-StartsWithDigit zero n acc h = h
digits_on-StartsWithDigit (suc f) n acc h = elim (Bool-cases (ltb n 10)) [
  | inl small ↦ rw small (omega arith)
  | inr large ↦ rw large (digits_on-StartsWithDigit f (n / 10) ((48 + n % 10) ∷ acc) (omega arith))
]

pub itoa-StartsWithDigit : (n : ℕ) → StartsWithDigit (itoa n)
unfolding itoa digits_on
itoa-StartsWithDigit n = elim (Bool-cases (ltb n 10)) [
  | inl small ↦ rw small (omega arith)
  | inr large ↦ rw large (digits_on-StartsWithDigit 19 (n / 10) ((48 + n % 10) ∷ []) (omega arith))
]

atoi_unsigned : (t : Text) → StartsWithDigit t → atoi t ≡ positive (digits_value 0 t)
unfolding atoi parse_digits
atoi_unsigned [] h = absurd h
atoi_unsigned (c ∷ cs) h =
    let minus : (c == b'-') ≡ false = ground arith in
    let plus : (c == b'+') ≡ false = ground arith in rw (minus, plus) refl

pub read_back : (n : ℕ) → n < 10 ^ 20 → digits_value 0 (itoa n) ≡ some n
unfolding itoa digits_value
read_back n h = digits_value-digits_on 20 n [] h

atoi-itoa : (n : ℕ) → n < 2 ^ 63 → atoi (itoa n) ≡ some (pos n)
unfolding positive
atoi-itoa n h =
    let fits : ltb n (2 ^ 63) ≡ true = ground arith in
    atoi_unsigned (itoa n) (itoa-StartsWithDigit n)
    ∙ ap positive (read_back n (omega arith))
    ∙ rw fits refl

-- A number from 1 to the largest int64 that a query writes in decimal is the number that every
-- reader of numbers in a query gets.
query_numbers :
    (q : Values) (key : Text) (n : ℕ) (def : ℤ)
    → query_get q key ≡ itoa n
    → 0 < n
    → n < 2 ^ 63
    → (parse_int_query q key ≡ pos n)
      × (parse_positive_int_query q key ≡ pos n)
      × (parse_backfill (query_get q key) def ≡ pos n)
unfolding parse_int_query parse_positive_int_query parse_backfill int_or_zero positive_or_zero
    at_least_zero
query_numbers q key n def e p h =
    let v : atoi (query_get q key) ≡ some (pos n) = ap atoi e ∙ atoi-itoa n h in
    let up : leb_ℤ (pos n) (pos 0) ≡ false = ground arith in
    let at_0 : leb_ℤ (pos 0) (pos n) ≡ true = ground arith in rw v (refl, rw up refl, rw at_0 refl)
