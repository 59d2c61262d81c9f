-- ===== src/Proxy/Sni/RoundTrip.antt =====
-- internal/proxy/transparent_shared.go: the name in a well-formed ClientHello is found.
use goper.Base.{
  ℕ, suc, ◌+◌, ◌<◌, ◌≡◌, refl, ap, subst, ◌∙◌, arith, true, false, [], ◌∷◌, ◌++◌, All, Option, some,
  ltb, length, length-append,
}
use mathlib.Core.List.{append_assoc}
use goper.Base.Text.{Text}
use goper.Proxy.Sni.{
  Result, ok, ◌>>=◌, byte_at, and_then, sni_from_extensions, skip_version_random,
  skip_session_and_cipher, skip_cipher, skip_compression, extensions_len, skip_client_hello_fixed,
  hello_of, hello_from_sni, finish_hello, is_handshake_type, parse_client_hello,
}
use goper.Proxy.Sni.Cursor.{be16, At, At-start, At-skip, At-moved, At-byte, At-be16}
use goper.Proxy.Sni.Encoding.{
  encode_extension, encode_extensions, sni_extension, ClientHello, extension_block, after_session,
  encode_hello, IsOther,
}
use goper.Proxy.Sni.Extensions.{extensions-name}

-- Skipping to an offset, from which on the data is `rest`.
abbrev Skips : Text → Result (Option ℕ) → Text → Type 0
Skips data' r rest = (offset : ℕ) × (r ≡ ok (some offset)) × At data' offset rest

skip_counted :
    (data' xs rest : Text) (offset : ℕ)
    → At data' offset (length xs ∷ (xs ++ rest))
    → (ltb (length data') (offset + 1) ≡ false)
      × (byte_at data' offset ≡ ok (length xs))
      × At data' (offset + (1 + length xs)) rest
skip_counted data' xs rest offset a = (
  ground (arith, a.long),
  At-byte data' (xs ++ rest) (length xs) offset a,
  At-moved data' rest (offset + suc (length xs)) _ (omega arith)
      (At-skip data' (length xs ∷ xs) rest offset a),
)

skip_cipher-Skips :
    (data' xs rest : Text) (offset : ℕ)
    → At data' offset (be16 (length xs) ++ (xs ++ rest))
    → Skips data' (skip_cipher data' offset) rest
unfolding skip_cipher
skip_cipher-Skips data' xs rest offset a =
    let room : ltb (length data') (offset + 2) ≡ false = ground (arith, a.long) in
    (
      offset + (2 + length xs),
      rw (room, At-be16 data' (xs ++ rest) (length xs) offset a, ◌>>=◌) refl,
      At-moved data' rest (offset + suc (suc (length xs))) _ (omega arith)
          (At-skip data' (be16 (length xs) ++ xs) rest offset a),
    )

skip_session_and_cipher-Skips :
    (data' xs ys rest : Text) (offset : ℕ)
    → At data' offset (length xs ∷ (xs ++ (be16 (length ys) ++ (ys ++ rest))))
    → Skips data' (skip_session_and_cipher data' offset) rest
unfolding skip_session_and_cipher
skip_session_and_cipher-Skips data' xs ys rest offset a =
    let (room, size, next) = skip_counted data' xs (be16 (length ys) ++ (ys ++ rest)) offset a in
    let (end, skipped, there) = skip_cipher-Skips data' ys rest (offset + (1 + length xs)) next in
    (end, rw (room, size, ◌>>=◌) skipped, there)

skip_compression-Skips :
    (data' xs rest : Text) (offset : ℕ)
    → At data' offset (length xs ∷ (xs ++ rest))
    → Skips data' (skip_compression data' offset) rest
unfolding skip_compression
skip_compression-Skips data' xs rest offset a =
    let (room, size, next) = skip_counted data' xs rest offset a in
    (_, rw (room, size, ◌>>=◌) refl, next)

extensions_len-At :
    (data' rest : Text) (n offset : ℕ)
    → At data' offset (be16 n ++ rest)
    → extensions_len data' offset ≡ ok (some (offset + 2, n))
unfolding extensions_len
extensions_len-At data' rest n offset a =
    let room : ltb (length data') (offset + 2) ≡ false = ground (arith, a.long) in
    rw (room, At-be16 data' rest n offset a, ◌>>=◌) refl

-- The fields before the extension block, from offset 4 on.
skip_client_hello_fixed-block :
    (h : ClientHello) (trailing : Text) (data' : Text)
    → At data' 0 (encode_hello h trailing)
    → length h.start ≡ 37
    → (offset : ℕ) × (skip_client_hello_fixed data' 4
        ≡ ok (some (offset, length (extension_block h))))
      × At data' offset (extension_block h ++ trailing)
unfolding skip_client_hello_fixed skip_version_random encode_hello
skip_client_hello_fixed-block h trailing data' a start =
    let body = length h.session_id ∷ (h.session_id ++ after_session h trailing) in
    let session =
      At-moved data' body (0 + suc (length h.start)) 38 (omega arith)
        (At-skip data' (1 ∷ h.start) body 0 a) in
    let room : ltb (length data') 38 ≡ false = ground (arith, session.long) in
    let (c, e, at_c) = skip_session_and_cipher-Skips data' h.session_id h.ciphers _ 38 session in
    let (x, f, at_x) = skip_compression-Skips data' h.compression _ c at_c in
    let block = extension_block h ++ trailing in
    let n = length (extension_block h) in
    (
      x + 2,
      rw (room, and_then, e, f) (extensions_len-At data' block n x at_x),
      At-skip data' (be16 n) block x at_x,
    )

is_handshake_type-append :
    (s rest : Text) → 0 < length s → is_handshake_type (1 ∷ (s ++ rest)) ≡ true
unfolding is_handshake_type
is_handshake_type-append [] rest p = absurd (omega arith)
is_handshake_type-append (c ∷ s) rest p = refl

hello_of-nonempty : (name : Text) → 0 < length name → hello_of name ≡ some name
hello_of-nonempty [] p = absurd (omega arith)
hello_of-nonempty (c ∷ name) p = refl

-- Every well-formed ClientHello with a server name, whatever its other fields and extensions hold
-- and whatever bytes follow it, is parsed to that name, if no extension before it claims the kind
-- of the server name's.
pub parse-encode_hello :
    (h : ClientHello) (trailing : Text)
    → length h.start ≡ 37
    → All IsOther h.before
    → 0 < length h.name
    → parse_client_hello (encode_hello h trailing) ≡ ok (some h.name)
unfolding parse_client_hello finish_hello hello_from_sni sni_from_extensions
parse-encode_hello h trailing start o p =
    let data' = encode_hello h trailing in
    let (offset, fixed, a) =
      skip_client_hello_fixed-block h trailing data' (At-start data') start in
    let sni = sni_extension h.name h.other_names in
    let after = encode_extensions h.after in
    let whole = length-append (encode_extensions h.before) (encode_extension sni ++ after) in
    let parts = length-append (encode_extension sni) after in
    let all = length-append (extension_block h) trailing in
    let n = length (extension_block h) in
    let inside : ltb (length data') (offset + n) ≡ false = ground (arith, a.long, all) in
    let hand : is_handshake_type data' ≡ true =
      unfold encode_hello in is_handshake_type-append h.start _ (omega (arith, start)) in
    let regrouped =
      append_assoc (encode_extensions h.before) (encode_extension sni ++ after) trailing
      ∙ ap (◌++◌ (encode_extensions h.before))
          (append_assoc (encode_extension sni) after trailing) in
    let here = subst (At data' offset) regrouped a in
    let found =
      extensions-name (suc (length data')) data' h.name h.other_names (after ++ trailing) h.before
        offset (offset + n) here o p (omega (arith, whole, parts)) (omega (arith, a.long, all)) in
    rw (hand, fixed, ◌>>=◌, inside, found) (ap ok (hello_of-nonempty h.name p))
