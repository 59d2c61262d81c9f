-- ===== src/Proxy/Certificates/Verified.antt =====
-- internal/proxy/mitm_cert_cache.go with mitm.go: what a client can check of the certificates that
-- the cache returns.
use goper.Base.{
  ℕ, ◌^◌, true, false, List, [], ◌∷◌, Option, none, some, ◌≡◌, refl, sym, ap, subst, ◌∙◌, arith,
  get_elem?,
}
use goper.Base.Chain.{or_else, >>=-eq-some}
use goper.Base.Text.{Text}
use goper.Proxy.X509.{Ip, X509, server_auth, TlsCertificate, Draws, Crypto}
use goper.Proxy.Authority.{Ca, CaProvider, ca_provider, generate_ca}
use goper.Proxy.Authority.Valid.{IsSigner, IsX509, generate_ca-IsAuthority}
use goper.Proxy.HostCertificate.{with_names, host_certificate_template}
use goper.Proxy.Certificates.{new_cert_cache, Event, run}
use goper.Proxy.Certificates.Agreement.{run-IsCached, found-IsCached}
use goper.Proxy.Certificates.Issuing.{Issued, run-IsIssued}

-- A certificate is for a host: its only name is the host, as an address if it is one.
abbrev pub IsNamed : Option Ip → Text → X509 → Type 0
IsNamed none host cert = (cert.dns_names ≡ host ∷ []) × (cert.ip_addresses ≡ [])
IsNamed (some ip) host cert = (cert.ip_addresses ≡ ip ∷ []) × (cert.dns_names ≡ [])

-- A certificate of the host that the CA's certificate vouches for.
pub record IsFor (crypto : Crypto) (ca : X509) (host : Text) (cert : X509) : Type 0 where
  pub named : IsNamed (crypto.parse_ip host) host cert
  pub common_name : cert.common_name ≡ host
  pub usage : cert.ext_key_usage ≡ server_auth ∷ []
  pub plain : cert.is_ca ≡ false
  pub checked : crypto.check_signature_from cert ca ≡ true

-- The template of a host: its only name, and what its certificate may be used for.
record IsTemplate (o : Option Ip) (host : Text) (template : X509) : Type 0 where
  named : IsNamed o host template
  common_name : template.common_name ≡ host
  usage : template.ext_key_usage ≡ server_auth ∷ []
  plain : template.is_ca ≡ false

with_names-IsTemplate :
    (o : Option Ip) (host : Text) (template : X509)
    → template.dns_names ≡ []
    → template.ip_addresses ≡ []
    → template.common_name ≡ host
    → template.ext_key_usage ≡ server_auth ∷ []
    → template.is_ca ≡ false
    → IsTemplate o host (with_names template host o)
unfolding with_names
with_names-IsTemplate none host template d i c u p = record {
  named = (refl, i);
  common_name = c;
  usage = u;
  plain = p;
}
with_names-IsTemplate (some ip) host template d i c u p = record {
  named = (refl, d);
  common_name = c;
  usage = u;
  plain = p;
}

host_certificate_template-IsTemplate :
    (crypto : Crypto) (ca : CaProvider) (draws : Draws) (host : Text) (template : X509)
    → host_certificate_template crypto ca draws host ≡ some template
    → IsTemplate (crypto.parse_ip host) host template
unfolding host_certificate_template
host_certificate_template-IsTemplate crypto ca draws host template h =
    let (serial, drawn, e) = >>=-eq-some (draws.int (2 ^ 128)) _ h in
    subst (IsTemplate (crypto.parse_ip host) host) (ap (or_else template) e)
      (with_names-IsTemplate (crypto.parse_ip host) host _ refl refl refl refl refl)

IsNamed-same :
    (o : Option Ip) (host : Text) (t c : X509)
    → c.ip_addresses ≡ t.ip_addresses
    → c.dns_names ≡ t.dns_names
    → IsNamed o host t
    → IsNamed o host c
IsNamed-same none host t c i d n = (d ∙ n.0, i ∙ n.1)
IsNamed-same (some ip) host t c i d n = (i ∙ n.0, d ∙ n.1)

Issued-IsFor :
    (crypto : Crypto) (ca : CaProvider) (host : Text) (cert : TlsCertificate) (der : Text)
    (others : List Text) (leaf : X509)
    → IsX509 crypto
    → IsSigner crypto ca.certificate ca.private_key
    → Issued crypto ca host cert
    → cert.certificate ≡ der ∷ others
    → crypto.parse_certificate der ≡ some leaf
    → (others ≡ ca.certificate.raw ∷ []) × IsFor crypto ca.certificate host leaf
Issued-IsFor crypto ca host cert der others leaf x signer i chain parsed =
    let same : i.der ∷ ca.certificate.raw ∷ [] ≡ der ∷ others = sym i.chain ∙ chain in
    let first : i.der ≡ der = ground (arith, same) in
    let rest : others ≡ ca.certificate.raw ∷ [] = ground (arith, same) in
    let at_der = ap crypto.parse_certificate first ∙ parsed in
    let key = crypto.public_of cert.private_key in
    let m =
      x.made i.draws.nonce i.template ca.certificate leaf key ca.private_key i.der i.created
        at_der in
    let t = host_certificate_template-IsTemplate crypto ca i.draws host i.template i.templated in
    (
      rest,
      record {
        named = IsNamed-same _ host i.template leaf m.ip_addresses m.dns_names t.named;
        common_name = m.common_name ∙ t.common_name;
        usage = m.ext_key_usage ∙ t.usage;
        plain = m.is_ca ∙ t.plain;
        checked =
            x.signed i.draws.nonce i.template ca.certificate leaf key ca.private_key i.der i.created
              at_der signer;
      },
    )

-- With a CA that GenerateCA returned, whatever calls of GetCertificate interleave, starting with an
-- empty cache: a certificate that one of them returns for a host comes with exactly the CA's
-- certificate behind it, and, once parsed, it has the host as its only name, as an address if the
-- host is one and else as a DNS name, is for servers and not a CA, and its signature is the CA's.
pub run_verified :
    (crypto : Crypto) (made : Draws) (ca : Ca) (es : List Event) (i : ℕ) (host der : Text)
    (others : List Text) (cert : TlsCertificate) (leaf : X509)
    → IsX509 crypto
    → generate_ca crypto made ≡ some ca
    → get_elem? (run crypto (new_cert_cache (ca_provider ca)) es).returned i ≡ some (host, cert)
    → cert.certificate ≡ der ∷ others
    → crypto.parse_certificate der ≡ some leaf
    → (others ≡ ca.cert.raw ∷ []) × IsFor crypto ca.cert host leaf
unfolding new_cert_cache ca_provider
run_verified crypto made ca es i host der others cert leaf x generated found chain parsed =
    let start = new_cert_cache (ca_provider ca) in
    let authority = generate_ca-IsAuthority crypto made ca x generated in
    let all = run-IsCached crypto start es tt in
    let issued =
      run-IsIssued crypto (ca_provider ca) start es
        (record { same_ca = refl; issued = λ h c p. absurd (ground (arith, p)) }) in
    Issued-IsFor crypto (ca_provider ca) host cert der others leaf x authority.signer
      (issued.issued host cert (found-IsCached _ _ i host cert all found)) chain parsed
