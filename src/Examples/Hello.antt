-- ===== src/Examples/Hello.antt =====
-- internal/proxy/transparent_shared.go on a ClientHello of a client that sends its name second.
use goper.Base.{[], ◌∷◌, ◌≡◌, refl, arith, some}
use goper.Base.Text.{Text, codes}
use goper.Proxy.Sni.{ok, parse_client_hello}
use goper.Proxy.Sni.Encoding.{Extension, ClientHello, encode_hello}
use goper.Proxy.Sni.RoundTrip.{parse-encode_hello}

-- Its length, version and random bytes, 37 in all.
abbrev opening : Text
opening = 0 ∷ 0 ∷ 0 ∷ 3 ∷ 3 ∷ codes "0123456789abcdef0123456789abcdef"

abbrev groups : Extension
groups = record { kind = 10; body = 0 ∷ 2 ∷ 0 ∷ 29 ∷ [] }

abbrev tickets : Extension
tickets = record { kind = 35; body = [] }

abbrev named_hello : ClientHello
named_hello = record {
  start = opening;
  session_id = 7 ∷ [];
  ciphers = 0x13 ∷ 1 ∷ [];
  compression = 0 ∷ [];
  before = groups ∷ [];
  name = codes "a.example";
  other_names = [];
  after = tickets ∷ [];
}

parse-encode_hello_example :
    parse_client_hello (encode_hello named_hello (9 ∷ [])) ≡ ok (some (codes "a.example"))
parse-encode_hello_example =
    parse-encode_hello named_hello (9 ∷ []) refl ((λ e. omega (arith, e)), tt) (omega arith)
