-- ===== src/Proxy/Sni/Parse.antt =====
-- internal/proxy/transparent_shared.go: parsing any bytes returns a name that is part of them, or
-- none.
use goper.Base.{
  ℕ, suc, ◌+◌, ◌<◌, ◌≤◌, ◌≡◌, refl, inl, inr, arith, [], ◌∷◌, Option, none, some, ltb,
  if◌then◌else◌, length, Bool-cases,
}
use goper.Base.Text.{Text}
use goper.Proxy.Sni.{
  Result, ok, ◌>>=◌, skip_version_random, skip_cipher, skip_session_and_cipher, and_then,
  skip_compression, extensions_len, skip_client_hello_fixed, sni_from_extensions, hello_of,
  hello_from_sni, is_handshake_type, finish_hello, parse_client_hello,
}
use goper.Proxy.Sni.Total.{IsPart, byte_at-ok, be16_at-ok, extensions-Finds}

-- A name that is reported is not empty, and stands in the data.
abbrev pub IsFound : Text → Option Text → Type 0
IsFound data' none = Unit
IsFound data' (some name) = (0 < length name) × IsPart data' name

abbrev pub Parses : Text → Result (Option Text) → Type 0
Parses data' r = (found : Option Text) × (r ≡ ok found) × IsFound data' found

hello_of-IsFound : (data' name : Text) → IsPart data' name → IsFound data' (hello_of name)
hello_of-IsFound data' [] part = tt
hello_of-IsFound data' (c ∷ name) part = (omega arith, part)

hello_from_sni-Parses : (data' : Text) (offset n : ℕ) → Parses data' (hello_from_sni data' offset n)
unfolding hello_from_sni sni_from_extensions
hello_from_sni-Parses data' offset n =
    let end = if ltb (length data') (offset + n) then length data' else offset + n in
    let fits : end ≤ length data' = ground arith in
    let (name, found, part) =
      extensions-Finds (suc (length data')) data' offset end fits (omega arith) (omega arith) in
    (hello_of name, rw (found, ◌>>=◌), hello_of-IsFound data' name part)

-- A function that returns: a value, or that the data is too short.
abbrev Returns {ℓ} : {A : Type ℓ} → Result A → Type ℓ
Returns {A = A} r = (a : A) × (r ≡ ok a)

skip_cipher-Returns : (data' : Text) (offset : ℕ) → Returns (skip_cipher data' offset)
unfolding skip_cipher
skip_cipher-Returns data' offset = elim (Bool-cases (ltb (length data') (offset + 2))) [
  | inl e ↦ (none, rw e)
  | inr e ↦
      let (n, en) = be16_at-ok data' offset (ground (arith, e)) in
      (some (offset + (2 + n)), rw (e, en))
]

skip_session_and_cipher-Returns :
    (data' : Text) (offset : ℕ) → Returns (skip_session_and_cipher data' offset)
unfolding skip_session_and_cipher
skip_session_and_cipher-Returns data' offset = elim (Bool-cases (ltb (length data') (offset + 1))) [
  | inl e ↦ (none, rw e)
  | inr e ↦
      let (n, en) = byte_at-ok data' offset (ground (arith, e)) in
      let (o, eo) = skip_cipher-Returns data' (offset + (1 + n)) in (o, rw (e, en) eo)
]

skip_compression-Returns : (data' : Text) (offset : ℕ) → Returns (skip_compression data' offset)
unfolding skip_compression
skip_compression-Returns data' offset = elim (Bool-cases (ltb (length data') (offset + 1))) [
  | inl e ↦ (none, rw e)
  | inr e ↦
      let (n, en) = byte_at-ok data' offset (ground (arith, e)) in
      (some (offset + (1 + n)), rw (e, en))
]

extensions_len-Returns : (data' : Text) (offset : ℕ) → Returns (extensions_len data' offset)
unfolding extensions_len
extensions_len-Returns data' offset = elim (Bool-cases (ltb (length data') (offset + 2))) [
  | inl e ↦ (none, rw e)
  | inr e ↦
      let (n, en) = be16_at-ok data' offset (ground (arith, e)) in
      (some (offset + 2, n), rw (e, en))
]

and_then-Returns :
    (r : Result (Option ℕ)) (f : ℕ → Result (Option (ℕ × ℕ)))
    → Returns r
    → ((n : ℕ) → Returns (f n))
    → Returns (and_then r f)
and_then-Returns r f (none, e) g = (none, rw e)
and_then-Returns r f (some n, e) g = let (o, eo) = g n in (o, rw e eo)

skip_client_hello_fixed-Returns :
    (data' : Text) (offset : ℕ) → Returns (skip_client_hello_fixed data' offset)
unfolding skip_client_hello_fixed
skip_client_hello_fixed-Returns data' offset =
    and_then-Returns (ok (skip_version_random data' offset)) _ (_, refl)
      (λ a. and_then-Returns _ _ (skip_session_and_cipher-Returns data' a) (λ b.
        and_then-Returns _ _ (skip_compression-Returns data' b) (extensions_len-Returns data')))

finish_hello-Parses :
    (data' : Text) (fixed : Option (ℕ × ℕ)) → Parses data' (finish_hello data' fixed)
unfolding finish_hello
finish_hello-Parses data' none = (none, refl, tt)
finish_hello-Parses data' (some (offset, n)) = hello_from_sni-Parses data' offset n

-- On any bytes the parser returns: it never indexes out of range, its loops end, and a name that
-- it reports is not empty and is a run of those bytes.
pub parse_client_hello-Parses : (data' : Text) → Parses data' (parse_client_hello data')
unfolding parse_client_hello
parse_client_hello-Parses data' = elim (Bool-cases (is_handshake_type data')) [
  | inr e ↦ (none, rw e, tt)
  | inl e ↦
      let (fixed, ef) = skip_client_hello_fixed-Returns data' 4 in
      let (found, r, part) = finish_hello-Parses data' fixed in (found, rw (e, ef) r, part)
]
