-- ===== src/Proxy/Authority/Valid.antt =====
-- internal/proxy/mitm.go: a CA that was generated can sign. What the code relies on of
-- crypto/x509 is stated in IsX509.
use goper.Base.{ℕ, ◌^◌, true, subst, List, [], ◌∷◌, some, ◌≡◌, refl, sym, ap, ◌∙◌}
use goper.Base.Chain.{or_else, ◌>>=◌, >>=-eq-some}
use goper.Base.Text.{Text}
use goper.Proxy.X509.{Key, PublicKey, KeyUsage, cert_sign, crl_sign, X509, Draws, Crypto}
use goper.Proxy.Authority.{
  Ca, ca_certificate_template, create_certificate, ca_certificate, generate_ca,
}

-- A certificate that was made from a template for a key.
pub record IsMade (template : X509) (key : PublicKey) (der : Text) (cert : X509) : Type 0 where
  pub raw : cert.raw ≡ der
  pub public_key : cert.public_key ≡ key
  pub common_name : cert.common_name ≡ template.common_name
  pub key_usage : cert.key_usage ≡ template.key_usage
  pub ext_key_usage : cert.ext_key_usage ≡ template.ext_key_usage
  pub basic : cert.basic_constraints_valid ≡ template.basic_constraints_valid
  pub is_ca : cert.is_ca ≡ template.is_ca
  pub ip_addresses : cert.ip_addresses ≡ template.ip_addresses
  pub dns_names : cert.dns_names ≡ template.dns_names

-- A certificate and a key that may sign others.
pub record IsSigner (crypto : Crypto) (cert : X509) (key : Key) : Type 0 where
  pub paired : crypto.public_of key ≡ cert.public_key
  pub is_ca : cert.is_ca ≡ true
  pub basic : cert.basic_constraints_valid ≡ true
  pub others : List KeyUsage
  pub key_usage : cert.key_usage ≡ cert_sign ∷ others

-- Parsing what CreateCertificate returned gives the fields of the template, and the signature is
-- that of the parent whose key signed.
pub record IsX509 (crypto : Crypto) : Type 0 where
  pub made :
      (nonce : ℕ) (template parent cert : X509) (pub_key : PublicKey) (key : Key) (der : Text)
      → crypto.create_certificate nonce template parent pub_key key ≡ some der
      → crypto.parse_certificate der ≡ some cert
      → IsMade template pub_key der cert
  pub signed :
      (nonce : ℕ) (template parent cert : X509) (pub_key : PublicKey) (key : Key) (der : Text)
      → crypto.create_certificate nonce template parent pub_key key ≡ some der
      → crypto.parse_certificate der ≡ some cert
      → IsSigner crypto parent key
      → crypto.check_signature_from cert parent ≡ true

-- What GenerateCA returns.
pub record IsAuthority (crypto : Crypto) (ca : Ca) : Type 0 where
  pub signer : IsSigner crypto ca.cert ca.key
  pub parses : crypto.parse_certificate ca.cert.raw ≡ some ca.cert
  pub chain : ca.tls.certificate ≡ ca.cert.raw ∷ []
  pub same_key : ca.tls.private_key ≡ ca.key
  pub pool : ca.cert_pool ≡ ca.cert ∷ []

-- What a template was made into: the certificate and its encoding.
record Created (crypto : Crypto) (draws : Draws) (key : Key) (made : X509 × Text) : Type 0 where
  template : X509
  templated : ca_certificate_template draws ≡ some template
  created :
      crypto.create_certificate draws.nonce template template (crypto.public_of key) key
      ≡ some made.1
  parsed : crypto.parse_certificate made.1 ≡ some made.0

create_certificate-parsed :
    (crypto : Crypto) (der : Text) (made : X509 × Text)
    → (crypto.parse_certificate der >>= λ cert. some (cert, der)) ≡ some made
    → (made.1 ≡ der) × (crypto.parse_certificate der ≡ some made.0)
create_certificate-parsed crypto der made h =
    let (cert, p, e) = >>=-eq-some (crypto.parse_certificate der) (λ c. some (c, der)) h in
    let same : (cert, der) ≡ made = ap (or_else made) e in
    (sym (ap (λ x. x.1) same), p ∙ ap (λ x. some x.0) same)

create_certificate-Created :
    (crypto : Crypto) (draws : Draws) (key : Key) (template : X509) (made : X509 × Text)
    → ca_certificate_template draws ≡ some template
    → create_certificate crypto draws key template ≡ some made
    → Created crypto draws key made
unfolding create_certificate
create_certificate-Created crypto draws key template made t h =
    let (der, c, h') =
      >>=-eq-some
        (crypto.create_certificate draws.nonce template template (crypto.public_of key) key) _ h in
    let (same, p) = create_certificate-parsed crypto der made h' in
    record {
      template = template;
      templated = t;
      created = c ∙ ap some (sym same);
      parsed = ap crypto.parse_certificate same ∙ p;
    }

ca_certificate-Created :
    (crypto : Crypto) (draws : Draws) (key : Key) (made : X509 × Text)
    → ca_certificate crypto draws key ≡ some made
    → Created crypto draws key made
unfolding ca_certificate
ca_certificate-Created crypto draws key made h =
    let (template, t, h') = >>=-eq-some (ca_certificate_template draws) _ h in
    create_certificate-Created crypto draws key template made t h'

abbrev ca_of : X509 × Text → Key → Ca
ca_of made key = record {
  cert = made.0;
  key = key;
  tls = record { certificate = made.1 ∷ []; private_key = key };
  cert_pool = made.0 ∷ [];
}

generate_ca-Created :
    (crypto : Crypto) (draws : Draws) (ca : Ca)
    → generate_ca crypto draws ≡ some ca
    → (key : Key) × (made : X509 × Text) × (Created crypto draws key made) × (ca_of made key ≡ ca)
unfolding generate_ca
generate_ca-Created crypto draws ca h =
    let (key, drawn, h1) = >>=-eq-some draws.key _ h in
    let (made, certified, h2) = >>=-eq-some (ca_certificate crypto draws key) _ h1 in
    (key, made, ca_certificate-Created crypto draws key made certified, ap (or_else ca) h2)

template-signs :
    (draws : Draws) (template : X509)
    → ca_certificate_template draws ≡ some template
    → (template.is_ca ≡ true)
      × (template.basic_constraints_valid ≡ true)
      × (template.key_usage ≡ cert_sign ∷ crl_sign ∷ [])
unfolding ca_certificate_template
template-signs draws template h =
    let (serial, drawn, h') = >>=-eq-some (draws.int (2 ^ 128)) _ h in
    let same = ap (or_else template) h' in
    (
      sym (ap (λ (t : X509). t.is_ca) same),
      sym (ap (λ (t : X509). t.basic_constraints_valid) same),
      sym (ap (λ (t : X509). t.key_usage) same),
    )

Created-IsAuthority :
    (crypto : Crypto) (draws : Draws) (key : Key) (made : X509 × Text)
    → IsX509 crypto
    → Created crypto draws key made
    → IsAuthority crypto (ca_of made key)
Created-IsAuthority crypto draws key made x c =
    let m =
      x.made draws.nonce c.template c.template made.0 (crypto.public_of key) key made.1 c.created
        c.parsed in
    let (ca, basic, usage) = template-signs draws c.template c.templated in
    record {
      signer = record {
        paired = sym m.public_key;
        is_ca = m.is_ca ∙ ca;
        basic = m.basic ∙ basic;
        others = crl_sign ∷ [];
        key_usage = m.key_usage ∙ usage;
      };
      parses = ap crypto.parse_certificate m.raw ∙ c.parsed;
      chain = ap (λ r. r ∷ []) (sym m.raw);
      same_key = refl;
      pool = refl;
    }

-- A CA that GenerateCA returns can sign certificates: its certificate is that of its key and a CA's.
-- Its TLS pair is the encoding of its certificate with its key, and its pool is that certificate.
pub generate_ca-IsAuthority :
    (crypto : Crypto) (draws : Draws) (ca : Ca)
    → IsX509 crypto
    → generate_ca crypto draws ≡ some ca
    → IsAuthority crypto ca
generate_ca-IsAuthority crypto draws ca x h =
    let (key, made, c, same) = generate_ca-Created crypto draws ca h in
    subst (IsAuthority crypto) same (Created-IsAuthority crypto draws key made x c)
