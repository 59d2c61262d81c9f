-- ===== src/Proxy/Sni.antt =====
-- internal/proxy/transparent_shared.go: the server name in a TLS ClientHello. `data` is a list of
-- bytes, so `hi << 8 | lo` is hi * 256 + lo; offsets stay far below the range of an int.
pub mod Total
pub mod Parse
pub mod Cursor
pub mod Encoding
pub mod Extensions
pub mod RoundTrip
use goper.Base.{
  ℕ, zero, suc, ◌+◌, ◌-◌, ◌*◌, ◌^◌, ◌<◌, ◌≤◌, Bool, true, false, not, ◌&&◌, ◌||◌, List, [], ◌∷◌,
  ◌++◌, Option, none, some, ◌==◌, ltb, leb, if◌then◌else◌, length, get_elem?, take, drop,
}
use goper.Base.Text.{Text}

-- What a function returns, or that it indexes out of range, or that its loop ran out of fuel.
pub data Result {ℓ} (A : Type ℓ) : Type ℓ where
  ok : A → Result A
  panicked starved : Result A

infixl 5 ◌>>=◌
abbrev pub ◌>>=◌ {ℓ κ} : {A : Type ℓ} {B : Type κ} → Result A → (A → Result B) → Result B
ok a >>= f = f a
panicked >>= f = panicked
starved >>= f = starved

-- `data[i]`
abbrev or_panic {ℓ} : {A : Type ℓ} → Option A → Result A
or_panic none = panicked
or_panic (some a) = ok a

abbrev pub byte_at : Text → ℕ → Result ℕ
byte_at data' i = or_panic (get_elem? data' i)

-- `int(data[i])<<8 | int(data[i+1])`
unfoldable pub be16_at : Text → ℕ → Result ℕ
be16_at data' i = do hi ← byte_at data' i; lo ← byte_at data' (i + 1); ok (hi * 256 + lo)

-- `data[lo:lo+n]`
unfoldable pub slice : Text → ℕ → ℕ → Result Text
slice data' lo n = if leb (lo + n) (length data') then ok (take n (drop lo data')) else panicked

-- A missing `ok` is `none`.
unfoldable pub skip_version_random : Text → ℕ → Option ℕ
skip_version_random data' offset =
    if ltb (length data') (offset + 34) then none else some (offset + 34)

unfoldable pub skip_cipher : Text → ℕ → Result (Option ℕ)
skip_cipher data' offset =
    if ltb (length data') (offset + 2)
    then ok none
    else (do n ← be16_at data' offset; ok (some (offset + (2 + n))))

unfoldable pub skip_session_and_cipher : Text → ℕ → Result (Option ℕ)
skip_session_and_cipher data' offset =
    if ltb (length data') (offset + 1)
    then ok none
    else (do n ← byte_at data' offset; skip_cipher data' (offset + (1 + n)))

-- `if !ok { return 0, false }`
abbrev pub and_then : Result (Option ℕ) → (ℕ → Result (Option (ℕ × ℕ))) → Result (Option (ℕ × ℕ))
and_then (ok none) f = ok none
and_then (ok (some n)) f = f n
and_then panicked f = panicked
and_then starved f = starved

unfoldable pub skip_compression : Text → ℕ → Result (Option ℕ)
skip_compression data' offset =
    if ltb (length data') (offset + 1)
    then ok none
    else (do n ← byte_at data' offset; ok (some (offset + (1 + n))))

unfoldable pub extensions_len : Text → ℕ → Result (Option (ℕ × ℕ))
extensions_len data' offset =
    if ltb (length data') (offset + 2)
    then ok none
    else (do n ← be16_at data' offset; ok (some (offset + 2, n)))

-- Where the extensions block begins, and its length.
unfoldable pub skip_client_hello_fixed : Text → ℕ → Result (Option (ℕ × ℕ))
skip_client_hello_fixed data' offset = and_then (ok (skip_version_random data' offset)) (λ o.
    and_then (skip_session_and_cipher data' o)
      (λ o'. and_then (skip_compression data' o') (λ o''. extensions_len data' o'')))

unfoldable pub clamp_server_name_list_end : ℕ → ℕ → ℕ → ℕ
clamp_server_name_list_end name_end ext_start ext_len =
    if ltb (ext_start + ext_len) name_end then ext_start + ext_len else name_end

unfoldable pub is_dns_entry : ℕ → ℕ → ℕ → ℕ → Bool
is_dns_entry name_type name_len name_offset name_end =
    (name_type == 0) && (ltb 0 name_len && leb (name_offset + name_len) name_end)

-- The loop over a ServerNameList, on fuel. The empty string stands for no name.
unfoldable pub server_names : ℕ → Text → ℕ → ℕ → Result Text
server_names zero data' name_offset name_end = starved
server_names (suc fuel) data' name_offset name_end = elim (leb (name_offset + 3) name_end) [
  | false ↦ ok []
  | true ↦ do
    name_type ← byte_at data' name_offset
    name_len ← be16_at data' (name_offset + 1)
    elim (is_dns_entry name_type name_len (name_offset + 3) name_end) [
      | true ↦ slice data' (name_offset + 3) name_len
      | false ↦ server_names fuel data' (name_offset + 3 + name_len) name_end
    ]
]

-- Every round goes three bytes on, so the length of the data is fuel enough.
unfoldable pub sni_from_server_name_list : Text → ℕ → ℕ → Result Text
sni_from_server_name_list data' offset ext_len = do
  list_len ← be16_at data' offset
  server_names (suc (length data')) data' (offset + 2)
      (clamp_server_name_list_end (offset + 2 + list_len) offset ext_len)

unfoldable pub is_sni_extension : ℕ → ℕ → ℕ → ℕ → Bool
is_sni_extension ext_type ext_len offset end =
    (ext_type == 0) && (ltb 5 ext_len && leb (offset + ext_len) end)

unfoldable pub sni_from_extension : Text → ℕ → ℕ → ℕ → ℕ → Result Text
sni_from_extension data' offset end ext_type ext_len =
    if is_sni_extension ext_type ext_len offset end
    then sni_from_server_name_list data' offset ext_len
    else ok []

-- The loop over the extensions block, on fuel: every round goes four bytes on. A name that is not
-- empty ends it.
unfoldable pub extensions : ℕ → Text → ℕ → ℕ → Result Text
extensions zero data' offset end = starved
extensions (suc fuel) data' offset end = elim (leb (offset + 4) end) [
  | false ↦ ok []
  | true ↦ do
    ext_type ← be16_at data' offset
    ext_len ← be16_at data' (offset + 2)
    name ← sni_from_extension data' (offset + 4) end ext_type ext_len
    elim name [ [] ↦ extensions fuel data' (offset + 4 + ext_len) end | c ∷ cs ↦ ok (c ∷ cs) ]
]

unfoldable pub sni_from_extensions : Text → ℕ → ℕ → Result Text
sni_from_extensions data' offset end = extensions (suc (length data')) data' offset end

-- A ClientHello without a name is nil, `none`.
abbrev pub hello_of : Text → Option Text
hello_of [] = none
hello_of (c ∷ cs) = some (c ∷ cs)

unfoldable pub hello_from_sni : Text → ℕ → ℕ → Result (Option Text)
hello_from_sni data' offset extensions_len' =
    let end = offset + extensions_len' in
    do
      sni ← sni_from_extensions data' offset (if ltb (length data') end then length data' else end)
      ok (hello_of sni)

unfoldable pub is_handshake_type : Text → Bool
is_handshake_type [] = false
is_handshake_type (b ∷ []) = false
is_handshake_type (b ∷ c ∷ s) = b == 1

unfoldable pub finish_hello : Text → Option (ℕ × ℕ) → Result (Option Text)
finish_hello data' none = ok none
finish_hello data' (some (offset, n)) = hello_from_sni data' offset n

unfoldable pub parse_client_hello : Text → Result (Option Text)
unfolding finish_hello
parse_client_hello data' =
    if is_handshake_type data'
    then (do fixed ← skip_client_hello_fixed data' 4; finish_hello data' fixed)
    else ok none
