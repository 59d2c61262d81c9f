-- ===== src/Proxy/X509.antt =====
-- What internal/proxy/mitm.go, mitm_cert_cache.go and mitm_ca_store.go use of crypto/x509,
-- crypto/tls, crypto/rand and net: certificates by the fields that the code reads or sets, and
-- the operations of these packages as the parameters of one record.
use goper.Base.{ℕ, Bool, List, Option}
use goper.Base.Text.{Text}
use goper.Capture.Entry.{Time}

-- A private key, a public key and an address, each by the bytes that stand for it.
abbrev pub Key : Type 0
Key = Text

abbrev pub PublicKey : Type 0
PublicKey = Text

abbrev pub Ip : Type 0
Ip = Text

pub data KeyUsage : Type 0 where
  digital_signature cert_sign crl_sign : KeyUsage

pub data ExtKeyUsage : Type 0 where
  server_auth : ExtKeyUsage

-- An `x509.Certificate`: a template, whose `raw` and `public_key` are empty, or a parsed one.
pub record X509 : Type 0 where
  pub raw : Text
  pub public_key : PublicKey
  pub serial_number : ℕ
  pub common_name : Text
  pub organization : List Text
  pub not_before : Time
  pub not_after : Time
  pub key_usage : List KeyUsage
  pub ext_key_usage : List ExtKeyUsage
  pub basic_constraints_valid : Bool
  pub is_ca : Bool
  pub max_path_len : ℕ
  pub ip_addresses : List Ip
  pub dns_names : List Text

-- A `tls.Certificate`: the chain of encoded certificates, and the key of the first one.
pub record TlsCertificate : Type 0 where
  pub certificate : List Text
  pub private_key : Key

-- What one generation reads: the clock, a new key, `rand.Int` below a number and the randomness
-- of a signature. `none` is an error of the random source.
pub record Draws : Type 0 where
  pub now : Time
  pub key : Option Key
  pub int : ℕ → Option ℕ
  pub nonce : ℕ

-- The operations of the packages, with `none` for an error and for the nil of `ParseIP`.
pub record Crypto : Type 0 where
  pub public_of : Key → PublicKey
  pub create_certificate : ℕ → X509 → X509 → PublicKey → Key → Option Text
  pub parse_certificate : Text → Option X509
  pub parse_ip : Text → Option Ip
  pub check_signature_from : X509 → X509 → Bool
  pub pem_encode : Text → Text → Option Text
  pub marshal_ec_private_key : Key → Option Text
  pub x509_key_pair : Text → Text → Option TlsCertificate
