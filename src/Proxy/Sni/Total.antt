-- ===== src/Proxy/Sni/Total.antt =====
-- internal/proxy/transparent_shared.go: the two loops over the extensions return on any bytes, and
-- a name that they find is part of the bytes.
use goper.Base.{
  ℕ, zero, suc, ◌+◌, ◌*◌, ◌<◌, ◌≤◌, ◌≡◌, refl, ◌∙◌, inl, inr, arith, true, false, [], ◌∷◌, some,
  leb, if◌then◌else◌, length, get_elem?, take, drop, Bool-cases, leb→le,
}
use goper.Base.Text.{Text}
use goper.Proxy.Sni.{
  Result, ok, ◌>>=◌, byte_at, be16_at, slice, clamp_server_name_list_end, is_dns_entry,
  server_names, sni_from_server_name_list, is_sni_extension, sni_from_extension, extensions,
}

-- A run of the data.
abbrev pub IsPart : Text → Text → Type 0
IsPart data' name = (lo : ℕ) × (n : ℕ) × (lo + n ≤ length data') × (name ≡ take n (drop lo data'))

abbrev pub Finds : Text → Result Text → Type 0
Finds data' r = (name : Text) × (r ≡ ok name) × IsPart data' name

pub nothing_found : (data' : Text) → Finds data' (ok [])
nothing_found data' = ([], refl, (0, 0, omega arith, refl))

get_elem?-some : (data' : Text) (i : ℕ) → i < length data' → (b : ℕ) × (get_elem? data' i ≡ some b)
get_elem?-some [] i h = absurd (omega arith)
get_elem?-some (x ∷ xs) zero h = (x, refl)
get_elem?-some (x ∷ xs) (suc i) h = get_elem?-some xs i (omega arith)

pub byte_at-ok : (data' : Text) (i : ℕ) → i < length data' → (b : ℕ) × (byte_at data' i ≡ ok b)
byte_at-ok data' i h = let (b, e) = get_elem?-some data' i h in (b, rw e)

pub be16_at-ok : (data' : Text) (i : ℕ) → i + 1 < length data' → (n : ℕ) × (be16_at data' i ≡ ok n)
unfolding be16_at
be16_at-ok data' i h =
    let (hi, e) = byte_at-ok data' i (omega arith) in
    let (lo, f) = byte_at-ok data' (i + 1) h in (hi * 256 + lo, rw (e, f))

pub slice-Finds : (data' : Text) (lo n : ℕ) → lo + n ≤ length data' → Finds data' (slice data' lo n)
unfolding slice
slice-Finds data' lo n h =
    let e : leb (lo + n) (length data') ≡ true = ground arith in
    (take n (drop lo data'), rw e, (lo, n, h, refl))

is_dns_entry-fits : (t n offset end : ℕ) → is_dns_entry t n offset end ≡ true → offset + n ≤ end
unfolding is_dns_entry
is_dns_entry-fits t n offset end h = ground arith

pub server_names_end :
    (fuel : ℕ) (data' : Text) (offset end : ℕ)
    → leb (offset + 3) end ≡ false
    → server_names (suc fuel) data' offset end ≡ ok []
unfolding server_names
server_names_end fuel data' offset end e = rw (e, server_names)

pub server_names_step :
    (fuel : ℕ) (data' : Text) (offset end t n : ℕ)
    → leb (offset + 3) end ≡ true
    → byte_at data' offset ≡ ok t
    → be16_at data' (offset + 1) ≡ ok n
    → server_names (suc fuel) data' offset end ≡ (
        if is_dns_entry t n (offset + 3) end
        then slice data' (offset + 3) n
        else server_names fuel data' (offset + 3 + n) end)
unfolding server_names
server_names_step fuel data' offset end t n e et en = ground (arith, e, et, en)

Finds-at : (data' : Text) (r r' : Result Text) → r ≡ r' → Finds data' r' → Finds data' r
Finds-at data' r r' e (name, found, part) = (name, e ∙ found, part)

-- Each round goes on by three bytes at least, so the fuel that is left reaches the end.
server_names-Finds :
    (fuel : ℕ) (data' : Text) (offset end : ℕ)
    → end ≤ length data'
    → 0 < fuel
    → end < fuel + offset
    → Finds data' (server_names fuel data' offset end)
server_names-Finds zero data' offset end h p q = absurd (omega arith)
server_names-Finds (suc fuel) data' offset end h p q = elim (Bool-cases (leb (offset + 3) end)) [
  | inr e ↦ Finds-at data' _ _ (server_names_end fuel data' offset end e) (nothing_found data')
  | inl e ↦
      let inside = leb→le (offset + 3) end e in
      let (t, et) = byte_at-ok data' offset (omega arith) in
      let (n, en) = be16_at-ok data' (offset + 1) (omega arith) in
      let step = server_names_step fuel data' offset end t n e et en in
      elim (Bool-cases (is_dns_entry t n (offset + 3) end)) [
        | inl d ↦
            Finds-at data' _ _ (rw d at step)
              (slice-Finds data' (offset + 3) n (omega (arith, is_dns_entry-fits t n _ end d)))
        | inr d ↦
            Finds-at data' _ _ (rw d at step)
              (server_names-Finds fuel data' (offset + 3 + n) end h (omega arith) (omega arith))
      ]
]

clamp-le : (name_end start n : ℕ) → clamp_server_name_list_end name_end start n ≤ start + n
unfolding clamp_server_name_list_end
clamp-le name_end start n = ground arith

sni_from_server_name_list-Finds :
    (data' : Text) (offset n : ℕ)
    → offset + n ≤ length data'
    → 5 < n
    → Finds data' (sni_from_server_name_list data' offset n)
unfolding sni_from_server_name_list
sni_from_server_name_list-Finds data' offset n h p =
    let (m, e) = be16_at-ok data' offset (omega arith) in
    let end = clamp_server_name_list_end (offset + 2 + m) offset n in
    let fits : end ≤ length data' = omega (arith, clamp-le (offset + 2 + m) offset n) in
    Finds-at data' _ (server_names (suc (length data')) data' (offset + 2) end) (rw (e, ◌>>=◌)) (
      server_names-Finds (suc (length data')) data' (offset + 2) end fits (omega arith)
        (omega arith))

is_sni_extension-fits :
    (t n offset end : ℕ) → is_sni_extension t n offset end ≡ true → (5 < n) × (offset + n ≤ end)
unfolding is_sni_extension
is_sni_extension-fits t n offset end h = ground arith

sni_from_extension-Finds :
    (data' : Text) (offset end t n : ℕ)
    → end ≤ length data'
    → Finds data' (sni_from_extension data' offset end t n)
unfolding sni_from_extension
sni_from_extension-Finds data' offset end t n h =
    elim (Bool-cases (is_sni_extension t n offset end)) [
      | inl e ↦
          let (large, fits) = is_sni_extension-fits t n offset end e in
          Finds-at data' _ (sni_from_server_name_list data' offset n) (rw e)
            (sni_from_server_name_list-Finds data' offset n (omega arith) large)
      | inr e ↦ Finds-at data' _ (ok []) (rw e) (nothing_found data')
    ]

pub extensions_end :
    (fuel : ℕ) (data' : Text) (offset end : ℕ)
    → leb (offset + 4) end ≡ false
    → extensions (suc fuel) data' offset end ≡ ok []
unfolding extensions
extensions_end fuel data' offset end e = rw (e, extensions)

-- The name of one extension, or else what the next ones hold.
abbrev pub or_next : Text → Result Text → Result Text
or_next [] next = next
or_next (c ∷ name) next = ok (c ∷ name)

pub extensions_step :
    (fuel : ℕ) (data' : Text) (offset end t n : ℕ) (name : Text)
    → leb (offset + 4) end ≡ true
    → be16_at data' offset ≡ ok t
    → be16_at data' (offset + 2) ≡ ok n
    → sni_from_extension data' (offset + 4) end t n ≡ ok name
    → extensions (suc fuel) data' offset end
      ≡ or_next name (extensions fuel data' (offset + 4 + n) end)
unfolding extensions
extensions_step fuel data' offset end t n [] e et en es = ground (arith, e, et, en, es)
extensions_step fuel data' offset end t n (c ∷ name) e et en es = ground (arith, e, et, en, es)

or_next-Finds :
    (data' name : Text) (next : Result Text)
    → IsPart data' name
    → Finds data' next
    → Finds data' (or_next name next)
or_next-Finds data' [] next part f = f
or_next-Finds data' (c ∷ name) next part f = (c ∷ name, refl, part)

pub extensions-Finds :
    (fuel : ℕ) (data' : Text) (offset end : ℕ)
    → end ≤ length data'
    → 0 < fuel
    → end < fuel + offset
    → Finds data' (extensions fuel data' offset end)
extensions-Finds zero data' offset end h p q = absurd (omega arith)
extensions-Finds (suc fuel) data' offset end h p q = elim (Bool-cases (leb (offset + 4) end)) [
  | inr e ↦ Finds-at data' _ _ (extensions_end fuel data' offset end e) (nothing_found data')
  | inl e ↦
      let inside = leb→le (offset + 4) end e in
      let (t, et) = be16_at-ok data' offset (omega arith) in
      let (n, en) = be16_at-ok data' (offset + 2) (omega arith) in
      let (name, found, part) = sni_from_extension-Finds data' (offset + 4) end t n h in
      Finds-at data' _ _ (extensions_step fuel data' offset end t n name e et en found) (
        or_next-Finds data' name _ part
          (extensions-Finds fuel data' (offset + 4 + n) end h (omega arith) (omega arith)))
]
