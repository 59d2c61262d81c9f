-- ===== src/Examples/Transparent.antt =====
-- internal/proxy/mitm_ca_store.go and transparent_loop.go on concrete files and connections.
use goper.Base.{none, false, [], ◌∷◌, some, ◌≡◌, ◌≢◌, refl}
use goper.Base.Text.{Text, codes, text_eq}
use goper.Proxy.Certificates.{ClientHelloInfo, host_for_hello}
use goper.Proxy.Sni.{ok, be16_at, is_handshake_type, parse_client_hello}
use goper.Capture.Entry.{itoa, digits_on}
use goper.Proxy.OriginalDst.{RawSockaddr, answered, ip_string, get_original_dst}
use goper.Proxy.Transparent.{
  InnerRequest, is_absolute, peek, peek_after_header, tls_record_header, peek_record_body,
  peek_tls_record, hello_in, peek_sni, tls_hello, fallback_host, dispatch_transparent,
}
use goper.Proxy.Transparent.Peeking.{Peeks, peek_sni-Peeks}
use goper.Proxy.Transparent.Routing.{dispatch_transparent_lem}

-- A record of two bytes that holds no hello.
abbrev two_bytes : Text
two_bytes = 3 ∷ 1 ∷ 0 ∷ 2 ∷ 9 ∷ 9 ∷ []

peek_sni-Peeks_example : Peeks (0x16 ∷ two_bytes) (peek_sni (0x16 ∷ two_bytes))
peek_sni-Peeks_example = peek_sni-Peeks (0x16 ∷ two_bytes)

-- 10.0.0.1:443
abbrev original : RawSockaddr
original = record { port_high = 1; port_low = 187; a = 10; b = 0; c = 0; d = 1 }

written_out :
    get_original_dst (answered original) ≡ some (record { ip = codes "10.0.0.1"; port = 443 })
unfolding get_original_dst ip_string itoa digits_on
written_out = refl

abbrev relative : InnerRequest
relative = record { is_connect = false; scheme = []; url_host = []; host = [] }

-- A client that sends no name.
abbrev nameless : ClientHelloInfo
nameless = record { server_name = []; local = none }

dispatch_transparent_lem_example :
    (out : InnerRequest) × (dispatch_transparent
        (get_original_dst (answered original))
        (0x16 ∷ two_bytes)
        relative
      ≡ ok (some out))
    × (out.scheme ≡ codes "https")
    × (out.url_host ≢ [])
    × (host_for_hello (tls_hello nameless (fallback_host (get_original_dst (answered original)) []))
        ≡ out.url_host)
unfolding peek_sni peek_tls_record peek peek_after_header tls_record_header peek_record_body
    hello_in be16_at parse_client_hello is_handshake_type is_absolute text_eq
dispatch_transparent_lem_example =
    dispatch_transparent_lem original two_bytes nameless relative refl refl refl
