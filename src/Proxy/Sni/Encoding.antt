-- ===== src/Proxy/Sni/Encoding.antt =====
-- The layout of a TLS ClientHello (RFC 8446, section 4.1.2) with a server name (RFC 6066, section
-- 3), which internal/proxy/transparent_shared.go reads.
use goper.Base.{ℕ, List, [], ◌∷◌, ◌++◌, ◌≢◌, length}
use goper.Base.Text.{Text}
use goper.Proxy.Sni.Cursor.{be16}

pub record Extension : Type 0 where
  pub kind : ℕ
  pub body : Text

unfoldable pub encode_extension : Extension → Text
encode_extension e = be16 e.kind ++ be16 (length e.body) ++ e.body

unfoldable pub encode_extensions : List Extension → Text
encode_extensions [] = []
encode_extensions (e ∷ es) = encode_extension e ++ encode_extensions es

-- A list of server names: a host name, then other entries.
abbrev pub name_list : Text → Text → Text
name_list name others = 0 ∷ be16 (length name) ++ name ++ others

-- The extension 0, with the list of names behind its length.
abbrev pub sni_extension : Text → Text → Extension
sni_extension name others = record {
  kind = 0;
  body = be16 (length (name_list name others)) ++ name_list name others;
}

-- `start` is the length of the message, the version and the random bytes; `before` and `after` are
-- the extensions around the server name's.
pub record ClientHello : Type 0 where
  pub start : Text
  pub session_id : Text
  pub ciphers : Text
  pub compression : Text
  pub before : List Extension
  pub name : Text
  pub other_names : Text
  pub after : List Extension

abbrev pub extension_block : ClientHello → Text
extension_block h =
    encode_extensions h.before
    ++ (encode_extension (sni_extension h.name h.other_names) ++ encode_extensions h.after)

-- What follows the session id, and the whole message with what follows it.
abbrev pub after_session : ClientHello → Text → Text
after_session h trailing =
    be16 (length h.ciphers)
    ++ (h.ciphers
        ++ (length h.compression
            ∷ (h.compression
                ++ (be16 (length (extension_block h)) ++ (extension_block h ++ trailing)))))

unfoldable pub encode_hello : ClientHello → Text → Text
encode_hello h trailing =
    1 ∷ (h.start ++ (length h.session_id ∷ (h.session_id ++ after_session h trailing)))

abbrev pub IsOther : Extension → Type 0
IsOther e = e.kind ≢ 0
