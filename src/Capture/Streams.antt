-- ===== src/Capture/Streams.antt =====
-- What the capture code uses of io.Reader: io.ReadAll, io.LimitReader and io.MultiReader over a
-- reader that ends with EOF or with an error. An endless stream is one that is longer than any
-- bound at hand.
use goper.Base.{
  arith, ◌≤◌, ◌<◌, ℕ, zero, suc, ◌+◌, ◌-◌, ◌^◌, Bool, true, false, [], ◌++◌, ◌==◌, leb,
  if◌then◌else◌, length, take, drop, ◌≡◌, refl, take-append-drop, ap, inl, inr, Bool-cases,
}
use mathlib.Core.List.{append-nil}
use goper.Base.Int.{ℤ, pos, negsuc}
use goper.Base.Text.{Text}

pub data Ending : Type 0 where
  eof fault : Ending

-- The bytes that reads will return, and what reads return after them. An error comes with a read
-- of its own.
pub record Reader : Type 0 where
  pub bytes : Text
  pub ending : Ending

-- The bytes that were read, whether reading stopped on an error, and the reader afterwards.
pub record ReadResult : Type 0 where
  pub got : Text
  pub failed : Bool
  pub left : Reader

abbrev pub is_fault : Ending → Bool
is_fault eof = false
is_fault fault = true

unfoldable pub read_all : Reader → ReadResult
read_all r = record { got = r.bytes; failed = is_fault r.ending; left = record r { bytes = [] } }

-- `io.ReadAll(io.LimitReader(r, n))`: with nothing left to allow it stops before it reads.
unfoldable pub read_at_most : Reader → ℕ → ReadResult
read_at_most r n =
    if leb n (length r.bytes)
    then record { got = take n r.bytes; failed = false; left = record r { bytes = drop n r.bytes } }
    else read_all r

unfoldable pub read_limited : Reader → ℤ → ReadResult
unfolding read_at_most read_all
read_limited r (pos n) = read_at_most r n
read_limited r (negsuc n) = record { got = []; failed = false; left = r }

-- `io.NopCloser(io.MultiReader(bytes.NewReader(prefix), r))`
unfoldable pub multi_reader : Text → Reader → Reader
multi_reader prefix r = record r { bytes = prefix ++ r.bytes }

-- int64 `limit + 1`, which wraps at the largest limit.
abbrev pub max_int64 : ℕ
max_int64 = 2 ^ 63 - 1

abbrev pub succ_int64 : ℤ → ℤ
succ_int64 (pos n) = if n == max_int64 then negsuc max_int64 else pos (n + 1)
succ_int64 (negsuc zero) = pos 0
succ_int64 (negsuc (suc n)) = negsuc n

reader_path : (r : Reader) {bytes : Text} → bytes ≡ r.bytes → record r { bytes = bytes } ≡ r
reader_path r e = ap (λ b. record r { bytes = b }) e

pub read_all-multi_reader : (r : Reader) → multi_reader (read_all r).got (read_all r).left ≡ r
unfolding multi_reader read_all
read_all-multi_reader r = reader_path r (append-nil r.bytes)

-- What was read, put back in front of the rest, is the reader as it was.
pub read_limited-multi_reader :
    (r : Reader) (n : ℤ) → multi_reader (read_limited r n).got (read_limited r n).left ≡ r
unfolding multi_reader read_limited
read_limited-multi_reader r (pos n) = elim (Bool-cases (leb n (length r.bytes))) [
  | inl e ↦ rw (e, read_at_most) (reader_path r (take-append-drop n r.bytes))
  | inr e ↦ rw (e, read_at_most) (read_all-multi_reader r)
]
read_limited-multi_reader r (negsuc n) = refl

-- What a bounded read returns: the first bytes if there are as many, and else all that `read_all`
-- returns.
pub read_enough :
    (r : Reader) (m : ℕ)
    → m ≤ length r.bytes
    → ((read_limited r (pos m)).got ≡ take m r.bytes) × ((read_limited r (pos m)).failed ≡ false)
unfolding read_limited read_at_most
read_enough r m h = let e : leb m (length r.bytes) ≡ true = ground arith in rw e (refl, refl)

pub read_short :
    (r : Reader) (m : ℕ)
    → length r.bytes < m
    → ((read_limited r (pos m)).got ≡ r.bytes)
      × ((read_limited r (pos m)).failed ≡ is_fault r.ending)
unfolding read_limited read_at_most read_all
read_short r m h = let e : leb m (length r.bytes) ≡ false = ground arith in rw e (refl, refl)
