-- ===== src/Proxy/Sni/Cursor.antt =====
-- internal/proxy/transparent_shared.go: reading at an offset, by what stands in the data from there.
use goper.Base.{
  ℕ, zero, suc, ◌+◌, ◌/◌, ◌%◌, ◌≡◌, refl, sym, ap, ◌∙◌, arith, true, [], ◌∷◌, ◌++◌, some, leb,
  length, length-append, get_elem?, take, drop,
}
use goper.Base.Text.{Text}
use goper.Proxy.Sni.{ok, byte_at, be16_at, slice}

-- Two bytes, the high one first.
abbrev pub be16 : ℕ → Text
be16 n = (n / 256) ∷ (n % 256) ∷ []

-- From an offset on, the data is `rest`.
pub record At (data' : Text) (offset : ℕ) (rest : Text) : Type 0 where
  pub from : drop offset data' ≡ rest
  pub long : offset + length rest ≡ length data'

pub At-start : (data' : Text) → At data' 0 data'
At-start data' = record { from = refl; long = omega arith }

drop-drop : (m n : ℕ) (xs : Text) → drop (m + n) xs ≡ drop n (drop m xs)
drop-drop zero n xs = let e : 0 + n ≡ n = omega arith in ap (λ k. drop k xs) e
drop-drop (suc m) n [] = drop_nothing (suc m + n) ∙ sym (drop_nothing n)
  where
    drop_nothing : (k : ℕ) → drop {A = ℕ} k [] ≡ []
    drop_nothing zero = refl
    drop_nothing (suc k) = refl
drop-drop (suc m) n (x ∷ xs) =
    let e : suc m + n ≡ suc (m + n) = omega arith in ap (λ k. drop k (x ∷ xs)) e ∙ drop-drop m n xs

drop-append : (xs ys : Text) → drop (length xs) (xs ++ ys) ≡ ys
drop-append [] ys = refl
drop-append (x ∷ xs) ys = drop-append xs ys

pub take-append_front : (xs ys : Text) → take (length xs) (xs ++ ys) ≡ xs
take-append_front [] ys = refl
take-append_front (x ∷ xs) ys = ap (◌∷◌ x) (take-append_front xs ys)

pub At-skip :
    (data' xs rest : Text) (offset : ℕ)
    → At data' offset (xs ++ rest)
    → At data' (offset + length xs) rest
At-skip data' xs rest offset a = record {
  from = drop-drop offset (length xs) data' ∙ ap (drop (length xs)) a.from ∙ drop-append xs rest;
  long = omega (arith, a.long, length-append xs rest);
}

-- The same, at an offset that is written otherwise.
pub At-moved : (data' rest : Text) (m n : ℕ) → m ≡ n → At data' m rest → At data' n rest
At-moved data' rest m n e a = rw (← e) a

get_elem?-drop :
    (data' : Text) (offset : ℕ) (c : ℕ) (rest : Text)
    → drop offset data' ≡ c ∷ rest
    → get_elem? data' offset ≡ some c
get_elem?-drop [] zero c rest e = cc
get_elem?-drop [] (suc n) c rest e = cc
get_elem?-drop (x ∷ xs) zero c rest e = ground (arith, e)
get_elem?-drop (x ∷ xs) (suc n) c rest e = get_elem?-drop xs n c rest e

pub At-byte :
    (data' rest : Text) (c offset : ℕ) → At data' offset (c ∷ rest) → byte_at data' offset ≡ ok c
At-byte data' rest c offset a = rw (get_elem?-drop data' offset c rest a.from) refl

pub At-be16 :
    (data' rest : Text) (n offset : ℕ)
    → At data' offset (be16 n ++ rest)
    → be16_at data' offset ≡ ok n
unfolding be16_at
At-be16 data' rest n offset a =
    let next = At-skip data' ((n / 256) ∷ []) ((n % 256) ∷ rest) offset a in
    rw (At-byte data' _ (n / 256) offset a, At-byte data' rest (n % 256) (offset + 1) next)
      (ap ok (omega arith))

pub At-slice :
    (data' xs rest : Text) (offset : ℕ)
    → At data' offset (xs ++ rest)
    → slice data' offset (length xs) ≡ ok xs
unfolding slice
At-slice data' xs rest offset a =
    let fits : leb (offset + length xs) (length data') ≡ true =
      ground (arith, a.long, length-append xs rest) in
    rw (fits, a.from) (ap ok (take-append_front xs rest))
