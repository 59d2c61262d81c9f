-- ===== src/Proxy/Authority.antt =====
-- internal/proxy/mitm.go: the certificate authority. An error of GenerateCA is `none`; the text of
-- errors is left out.
pub mod Valid
use goper.Base.{ℕ, ◌+◌, ◌-◌, ◌*◌, ◌^◌, true, false, List, [], ◌∷◌, Option, none, some}
use goper.Base.Chain.{◌>>=◌}
use goper.Base.Text.{Text, codes}
use goper.Capture.Entry.{zero_time}
use goper.Proxy.X509.{Key, X509, cert_sign, crl_sign, TlsCertificate, Draws, Crypto}

pub record Ca : Type 0 where
  pub cert : X509
  pub key : Key
  pub tls : TlsCertificate
  pub cert_pool : List X509

-- The interface behind which the certificate cache sees a CA.
pub record CaProvider : Type 0 where
  pub tls_certificate : TlsCertificate
  pub certificate : X509
  pub private_key : Key

unfoldable pub ca_provider : Ca → CaProvider
ca_provider ca = record { tls_certificate = ca.tls; certificate = ca.cert; private_key = ca.key }

-- An hour, in nanoseconds.
abbrev pub hour : ℕ
hour = 3600 * 10 ^ 9

-- A template before its fields are set: Go's zero values.
abbrev pub blank : X509
blank = record {
  raw = [];
  public_key = [];
  serial_number = 0;
  common_name = [];
  organization = [];
  not_before = zero_time;
  not_after = zero_time;
  key_usage = [];
  ext_key_usage = [];
  basic_constraints_valid = false;
  is_ca = false;
  max_path_len = 0;
  ip_addresses = [];
  dns_names = [];
}

unfoldable pub ca_certificate_template : Draws → Option X509
ca_certificate_template draws = do
  serial ← draws.int (2 ^ 128)
  some (record blank {
    serial_number = serial;
    common_name = codes "goper MITM CA";
    organization = codes "goper" ∷ [];
    not_before = draws.now - 24 * hour;
    not_after = draws.now + 10 * 365 * 24 * hour;
    key_usage = cert_sign ∷ crl_sign ∷ [];
    basic_constraints_valid = true;
    is_ca = true;
    max_path_len = 0;
  })

module _ (crypto : Crypto) (draws : Draws) where
  -- The certificate and its encoding.
  unfoldable pub create_certificate : Key → X509 → Option (X509 × Text)
  create_certificate key template = do
    cert_der ← crypto.create_certificate draws.nonce template template (crypto.public_of key) key
    cert ← crypto.parse_certificate cert_der
    some (cert, cert_der)

  unfoldable pub ca_certificate : Key → Option (X509 × Text)
  ca_certificate key = do template ← ca_certificate_template draws; create_certificate key template

  unfoldable pub generate_ca : Option Ca
  generate_ca = do
    key ← draws.key
    made ← ca_certificate key
    some (record {
      cert = made.0;
      key = key;
      tls = record { certificate = made.1 ∷ []; private_key = key };
      cert_pool = made.0 ∷ [];
    })
