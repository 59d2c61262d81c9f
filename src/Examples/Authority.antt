-- ===== src/Examples/Authority.antt =====
-- internal/proxy/mitm.go, mitm_ca_store.go and mitm_cert_cache.go with a crypto library that makes two
-- certificates, one of the CA and one of a host.
use goper.Base.{
  ◌*◌, subst, Bool, true, false, [], ◌∷◌, Option, none, some, ◌≡◌, refl, sym, ap, ◌∙◌,
  if◌then◌else◌, arith,
}
use native.Mathlib.Decide.{ℕ_discrete}
use goper.Base.Text.{Text, codes, text_eq, text_eq_iff}
use goper.Base.Chain.{or_else}
use goper.Proxy.X509.{
  PublicKey, X509, KeyUsage, cert_sign, crl_sign, digital_signature, ExtKeyUsage, server_auth,
  Draws, Crypto,
}
use goper.Proxy.Authority.{
  Ca, blank, hour, ca_certificate_template, create_certificate, ca_certificate, generate_ca,
}
use goper.Proxy.Authority.Valid.{IsMade, IsX509}

KeyUsage-discrete : Discrete KeyUsage
KeyUsage-discrete = hlevel

ExtKeyUsage-discrete : Discrete ExtKeyUsage
ExtKeyUsage-discrete = hlevel

abbrev X509-discrete : Discrete X509
X509-discrete = hlevel (ℕ_discrete)

abbrev ca_template : X509
ca_template = record blank {
  serial_number = 5;
  common_name = codes "goper MITM CA";
  organization = codes "goper" ∷ [];
  not_before = 0;
  not_after = 87_600 * hour;
  key_usage = cert_sign ∷ crl_sign ∷ [];
  basic_constraints_valid = true;
  is_ca = true;
}

-- The template of a.example, a day after the clock's start.
abbrev pub leaf_template : X509
leaf_template = record blank {
  serial_number = 5;
  common_name = codes "a.example";
  organization = codes "goper" ∷ [];
  not_before = 0;
  not_after = 8_760 * hour;
  key_usage = digital_signature ∷ [];
  ext_key_usage = server_auth ∷ [];
  dns_names = codes "a.example" ∷ [];
}

abbrev pub certificate_of : X509 → Text → X509
certificate_of template der = record template { raw = der; public_key = codes "P" }

abbrev toy_made : {t : X509} → Bool → Dec (t ≡ ca_template) → Dec (t ≡ leaf_template) → Option Text
toy_made false ca leaf = none
toy_made true (yes e) leaf = some (codes "CA")
toy_made true (no n) (yes e) = some (codes "LEAF")
toy_made true (no n) (no n') = none

abbrev toy_parse : Text → Option X509
toy_parse der =
    if text_eq der (codes "CA")
    then some (certificate_of ca_template (codes "CA"))
    else if text_eq der (codes "LEAF")
    then some (certificate_of leaf_template (codes "LEAF"))
    else none

-- All keys have the public key "P". A file is what stands in it, and a pair is read from two files
-- that are there.
abbrev pub toy : Crypto
toy = record {
  public_of = λ key. codes "P";
  create_certificate = λ nonce t parent pub_key key.
      toy_made {t = t} (text_eq pub_key (codes "P")) (X509-discrete t ca_template)
        (X509-discrete t leaf_template);
  parse_certificate = toy_parse;
  parse_ip = λ host. none;
  check_signature_from = λ cert parent. parent.is_ca;
  pem_encode = λ bytes kind. some bytes;
  marshal_ec_private_key = λ key. some key;
  x509_key_pair =
      λ cert_pem key_pem. some (record { certificate = cert_pem ∷ []; private_key = key_pem });
}

certificate_of-IsMade :
    (t template : X509) (der given : Text) (pub_key : PublicKey) (cert : X509)
    → t ≡ template
    → pub_key ≡ codes "P"
    → der ≡ given
    → certificate_of template der ≡ cert
    → IsMade t pub_key given cert
certificate_of-IsMade t template der given pub_key cert e p g c =
    subst (IsMade t pub_key given) c (record {
      raw = g;
      public_key = sym p;
      common_name = sym (ap (λ (x : X509). x.common_name) e);
      key_usage = sym (ap (λ (x : X509). x.key_usage) e);
      ext_key_usage = sym (ap (λ (x : X509). x.ext_key_usage) e);
      basic = sym (ap (λ (x : X509). x.basic_constraints_valid) e);
      is_ca = sym (ap (λ (x : X509). x.is_ca) e);
      ip_addresses = sym (ap (λ (x : X509). x.ip_addresses) e);
      dns_names = sym (ap (λ (x : X509). x.dns_names) e);
    })

toy_made-IsMade :
    {t : X509} (b : Bool) (ca : Dec (t ≡ ca_template)) (leaf : Dec (t ≡ leaf_template))
    (pub_key : PublicKey) (der : Text) (cert : X509)
    → text_eq pub_key (codes "P") ≡ b
    → toy_made b ca leaf ≡ some der
    → toy_parse der ≡ some cert
    → IsMade t pub_key der cert
unfolding text_eq
toy_made-IsMade false ca leaf pub_key der cert q h p = absurd (ground (arith, h))
toy_made-IsMade true (yes e) leaf pub_key der cert q h p =
    let d = ap (or_else der) h in
    certificate_of-IsMade _ ca_template (codes "CA") der pub_key cert e
      ((text_eq_iff pub_key (codes "P")).0 q) d (ap (or_else cert) (ap toy_parse d ∙ p))
toy_made-IsMade true (no n) (yes e) pub_key der cert q h p =
    let d = ap (or_else der) h in
    certificate_of-IsMade _ leaf_template (codes "LEAF") der pub_key cert e
      ((text_eq_iff pub_key (codes "P")).0 q) d (ap (or_else cert) (ap toy_parse d ∙ p))
toy_made-IsMade true (no n) (no n') pub_key der cert q h p = absurd (ground (arith, h))

pub toy-IsX509 : IsX509 toy
toy-IsX509 = record {
  made = λ nonce t parent cert pub_key key der h p.
      toy_made-IsMade {t = t} _ (X509-discrete t ca_template) (X509-discrete t leaf_template)
        pub_key der cert refl h p;
  signed = λ nonce t parent cert pub_key key der h p signer. signer.is_ca;
}

abbrev pub morning : Draws
morning = record { now = 0; key = some (codes "K"); int = λ n. some 5; nonce = 0 }

abbrev pub our_ca : Ca
our_ca = record {
  cert = certificate_of ca_template (codes "CA");
  key = codes "K";
  tls = record { certificate = codes "CA" ∷ []; private_key = codes "K" };
  cert_pool = certificate_of ca_template (codes "CA") ∷ [];
}

pub generated : generate_ca toy morning ≡ some our_ca
unfolding generate_ca ca_certificate ca_certificate_template create_certificate text_eq ℕ_discrete
generated = refl
