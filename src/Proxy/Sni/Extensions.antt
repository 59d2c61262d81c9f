-- ===== src/Proxy/Sni/Extensions.antt =====
-- internal/proxy/transparent_shared.go: the name in a well-formed extension block is found.
use goper.Base.{
  ℕ, zero, suc, ◌+◌, ◌<◌, ◌≤◌, ◌≡◌, ◌≢◌, refl, subst, ◌∙◌, arith, true, List, [], ◌∷◌, ◌++◌, All,
  leb, length, length-append,
}
use mathlib.Core.List.{append_assoc}
use goper.Base.Text.{Text}
use goper.Proxy.Sni.{
  Result, ok, ◌>>=◌, be16_at, is_dns_entry, clamp_server_name_list_end, server_names,
  sni_from_server_name_list, is_sni_extension, sni_from_extension, extensions,
}
use goper.Proxy.Sni.Total.{server_names_step, extensions_step, or_next}
use goper.Proxy.Sni.Cursor.{be16, At, At-skip, At-byte, At-be16, At-slice}
use goper.Proxy.Sni.Encoding.{
  Extension, encode_extension, encode_extensions, name_list, sni_extension, IsOther,
}

-- The first entry of a list of names that ends at `end` is taken.
server_names-name :
    (fuel : ℕ) (data' name rest : Text) (offset end : ℕ)
    → At data' offset (0 ∷ be16 (length name) ++ (name ++ rest))
    → 0 < length name
    → offset + 3 + length name ≤ end
    → server_names (suc fuel) data' offset end ≡ ok name
server_names-name fuel data' name rest offset end a p h =
    let more : leb (offset + 3) end ≡ true = ground arith in
    let dns : is_dns_entry 0 (length name) (offset + 3) end ≡ true =
      unfold is_dns_entry in ground arith in
    let kind = At-byte data' _ 0 offset a in
    let size = At-skip data' (0 ∷ []) (be16 (length name) ++ (name ++ rest)) offset a in
    let text = At-skip data' (0 ∷ be16 (length name)) (name ++ rest) offset a in
    server_names_step fuel data' offset end 0 (length name) more kind
      (At-be16 data' (name ++ rest) (length name) (offset + 1) size)
    ∙ rw dns (At-slice data' name rest (offset + 3) text)

-- The server name extension, whose body begins at `offset`.
sni_from_extension-name :
    (data' name others rest : Text) (offset end n : ℕ)
    → At data' offset ((sni_extension name others).body ++ rest)
    → 0 < length name
    → n ≡ length (sni_extension name others).body
    → offset + n ≤ end
    → sni_from_extension data' offset end 0 n ≡ ok name
unfolding sni_from_extension sni_from_server_name_list
sni_from_extension-name data' name others rest offset end n a p e h =
    let list = name_list name others in
    let long : length list ≡ 3 + length name + length others =
      omega (arith, length-append name others) in
    let size : n ≡ 2 + length list = e ∙ omega arith in
    let sni : is_sni_extension 0 n offset end ≡ true =
      unfold is_sni_extension in ground (arith, long, size) in
    let names : At data' (offset + 2) (0 ∷ be16 (length name) ++ (name ++ (others ++ rest))) =
      subst (λ t. At data' (offset + 2) (0 ∷ be16 (length name) ++ t))
        (append_assoc name others rest)
        (At-skip data' (be16 (length list)) (list ++ rest) offset a) in
    let last : clamp_server_name_list_end (offset + 2 + length list) offset n ≡ offset + n =
      unfold clamp_server_name_list_end in ground (arith, size) in
    rw (sni, At-be16 data' (list ++ rest) (length list) offset a, ◌>>=◌, last)
      (server_names-name (length data') data' name (others ++ rest) (offset + 2) (offset + n) names
        p (omega (arith, long, size)))

-- An extension of another kind is passed over.
sni_from_extension-other :
    (data' : Text) (offset end kind n : ℕ)
    → kind ≢ 0
    → sni_from_extension data' offset end kind n ≡ ok []
unfolding sni_from_extension is_sni_extension
sni_from_extension-other data' offset end kind n h = ground (arith, h)

-- An extension at an offset: its kind, its length, its body and what follows.
record Reads (data' : Text) (offset : ℕ) (e : Extension) (rest : Text) : Type 0 where
  kind : be16_at data' offset ≡ ok e.kind
  size : be16_at data' (offset + 2) ≡ ok (length e.body)
  body : At data' (offset + 4) (e.body ++ rest)
  next : At data' (offset + 4 + length e.body) rest
  whole : 4 + length e.body + length rest + offset ≡ length data'

extension-Reads :
    (data' rest : Text) (e : Extension) (offset : ℕ)
    → At data' offset (encode_extension e ++ rest)
    → Reads data' offset e rest
unfolding encode_extension
extension-Reads data' rest e offset a =
    let size = At-skip data' (be16 e.kind) (be16 (length e.body) ++ (e.body ++ rest)) offset a in
    let body = At-skip data' (be16 e.kind ++ be16 (length e.body)) (e.body ++ rest) offset a in
    record {
      kind = At-be16 data' (be16 (length e.body) ++ (e.body ++ rest)) e.kind offset a;
      size = At-be16 data' (e.body ++ rest) (length e.body) (offset + 2) size;
      body = body;
      next = At-skip data' e.body rest (offset + 4) body;
      whole = omega (arith, body.long, length-append e.body rest);
    }

length-encode_extension : (e : Extension) → length (encode_extension e) ≡ 4 + length e.body
unfolding encode_extension
length-encode_extension e = omega arith

or_next_name : (name : Text) (next : Result Text) → 0 < length name → or_next name next ≡ ok name
or_next_name [] next p = absurd (omega arith)
or_next_name (c ∷ name) next p = refl

-- The extension block, walked from one of its extensions on.
pub extensions-name :
    (fuel : ℕ) (data' name others after : Text) (before : List Extension) (offset end : ℕ)
    → At data' offset
        (encode_extensions before ++ (encode_extension (sni_extension name others) ++ after))
    → All IsOther before
    → 0 < length name
    → offset
        + length (encode_extensions before)
        + length (encode_extension (sni_extension name others))
      ≤ end
    → end < fuel + offset
    → extensions fuel data' offset end ≡ ok name
unfolding encode_extensions
extensions-name zero data' name others after before offset end a o p h f = absurd (omega arith)
extensions-name (suc fuel) data' name others after [] offset end a o p h f =
    let sni = sni_extension name others in
    let r = extension-Reads data' after sni offset a in
    let long = length-encode_extension sni in
    let more : leb (offset + 4) end ≡ true = ground (arith, long) in
    extensions_step fuel data' offset end 0 (length sni.body) name more r.kind r.size (
      sni_from_extension-name data' name others after (offset + 4) end (length sni.body) r.body p
        refl (omega (arith, long)))
    ∙ or_next_name name (extensions fuel data' (offset + 4 + length sni.body) end) p
extensions-name (suc fuel) data' name others after (e ∷ before) offset end a o p h f =
    let sni = encode_extension (sni_extension name others) in
    let rest = encode_extensions before ++ (sni ++ after) in
    let r = extension-Reads data' rest e offset (
      subst (At data' offset)
        (append_assoc (encode_extension e) (encode_extensions before) (sni ++ after)) a) in
    let long = length-encode_extension e in
    let both = length-append (encode_extension e) (encode_extensions before) in
    let more : leb (offset + 4) end ≡ true = ground (arith, long, both) in
    extensions_step fuel data' offset end e.kind (length e.body) [] more r.kind r.size
      (sni_from_extension-other data' (offset + 4) end e.kind (length e.body) o.0)
    ∙ extensions-name fuel data' name others after before (offset + 4 + length e.body) end r.next
        o.1 p (omega (arith, long, both)) (omega arith)
