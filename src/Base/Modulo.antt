-- ===== src/Base/Modulo.antt =====
-- Indices that go round a ring of `m` slots.
use Prim.Native.Nat.{ℕ, suc, ◌+◌, ◌-◌, ◌<◌, ◌≤◌, ◌%◌}
use mathlib.Core.Path.{◌≡◌}
use mathlib.Core.Logic.{◌⊎◌, inl, inr}
use native.Mathlib.Decide.{dec_lt}
use native.Mathlib.Omega.{arith}

pub mod_small : (a m : ℕ) → a < m → a % m ≡ a
mod_small a m h = grind arith

pub mod_wrap : (a m : ℕ) → m ≤ a → a < m + m → a % m ≡ a - m
mod_wrap a m h k = grind arith

pub mod_below : (a m : ℕ) → 0 < m → a % m < m
mod_below a m h = grind arith

-- A sum of two indices goes round at most once.
pub mod_cases : (a m : ℕ) → a < m + m → ((a < m) × (a % m ≡ a)) ⊎ ((m ≤ a) × (a % m ≡ a - m))
mod_cases a m h = elim (dec_lt a m) [
  | yes p ↦ inl (p, mod_small a m p)
  | no p ↦ inr (omega arith, mod_wrap a m (omega arith) h)
]

pub mod_shift : (h c i : ℕ) → h < c → i < c → ((h + 1) % c + i) % c ≡ (h + suc i) % c
mod_shift h c i p q =
    ground (arith, mod_cases (h + 1) c, mod_cases ((h + 1) % c + i) c, mod_cases (h + suc i) c)

pub mod_injective : (h c i j : ℕ) → h < c → i < c → j < c → (h + i) % c ≡ (h + j) % c → i ≡ j
mod_injective h c i j p q r e = ground (arith, mod_cases (h + i) c, mod_cases (h + j) c)

pub mod_full : (h c : ℕ) → h < c → (h + c) % c ≡ h
mod_full h c p = ground (arith, mod_cases (h + c) c)
