-- ===== src/Capture/Ids.antt =====
-- internal/capture/entry.go: no two calls of `NewEntryID` return the same id.
use goper.Base.{
  ℕ, zero, suc, ◌+◌, ◌-◌, ◌*◌, ◌/◌, ◌^◌, ◌<◌, [], ◌∷◌, ◌++◌, ◌≡◌, ◌≢◌, inl, inr, sym, ap, ◌∙◌,
  arith, ltb, All, Bool-cases,
}
use native.Mathlib.Nat.{pow-suc}
use goper.Base.Text.{Text}
use goper.Capture.Entry.{Env, digits_on, itoa, new_entry_id}

-- The number that a text of decimal digits writes, read after the digits of `acc`.
read_digits : ℕ → Text → ℕ
read_digits acc [] = acc
read_digits acc (c ∷ cs) = read_digits (acc * 10 + (c - 48)) cs

read-digits_on :
    (f n : ℕ) (acc : Text) → n < 10 ^ f → read_digits 0 (digits_on f n acc) ≡ read_digits n acc
unfolding read_digits digits_on
read-digits_on zero n acc h = ap (λ k. read_digits k acc) (omega arith)
read-digits_on (suc f) n acc h = elim (Bool-cases (ltb n 10)) [
  | inl small ↦ rw small (ap (λ k. read_digits k acc) (omega arith))
  | inr large ↦ rw large (
      read-digits_on f (n / 10) _ (grind (arith, pow-suc 10 f))
      ∙ ap (λ k. read_digits k acc) (omega arith))
]

itoa_injective : (m n : ℕ) → m < 10 ^ 20 → n < 10 ^ 20 → itoa m ≡ itoa n → m ≡ n
unfolding itoa read_digits
itoa_injective m n p q e =
    sym (read-digits_on 20 m [] p) ∙ ap (read_digits 0) e ∙ read-digits_on 20 n [] q

abbrev pub IsNotDash : ℕ → Type 0
IsNotDash c = c ≢ b'-'

-- The parts before and after the first dash are determined.
split_at_dash :
    (s t : Text) (d e : Text)
    → All IsNotDash s
    → All IsNotDash t
    → s ++ b'-' ∷ d ≡ t ++ b'-' ∷ e
    → d ≡ e
split_at_dash [] [] d e p q h = cc
split_at_dash [] (y ∷ t) d e p q h = absurd (q.0 (ground arith))
split_at_dash (x ∷ s) [] d e p q h = absurd (p.0 (ground arith))
split_at_dash (x ∷ s) (y ∷ t) d e p q h = split_at_dash s t d e p.1 q.1 (ground arith)

pub entry_id_unique :
    (s t : Text) (m n : ℕ)
    → All IsNotDash s
    → All IsNotDash t
    → m < 2 ^ 63
    → n < 2 ^ 63
    → s ++ b'-' ∷ itoa m ≡ t ++ b'-' ∷ itoa n
    → m ≡ n
entry_id_unique s t m n p q h k e =
    itoa_injective m n (omega arith) (omega arith) (split_at_dash s t _ _ p q e)

-- Ids handed out at different values of the counter differ, whatever the clock shows.
new_entry_id_unique :
    (a b : Env)
    → All IsNotDash a.stamp
    → All IsNotDash b.stamp
    → a.counter < 2 ^ 63 - 1
    → b.counter < 2 ^ 63 - 1
    → (new_entry_id a).0 ≡ (new_entry_id b).0
    → a.counter ≡ b.counter
unfolding new_entry_id
new_entry_id_unique a b p q m n e = omega (
  arith,
  entry_id_unique a.stamp b.stamp (a.counter + 1) (b.counter + 1) p q (omega arith) (omega arith) e,
)
