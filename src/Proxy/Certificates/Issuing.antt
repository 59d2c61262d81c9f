-- ===== src/Proxy/Certificates/Issuing.antt =====
-- internal/proxy/mitm_cert_cache.go: every certificate in the cache was made by generateCert for its
-- host, with the cache's CA.
use goper.Base.{
  ℕ, List, [], ◌∷◌, Option, none, some, ◌≡◌, refl, sym, ap, subst, ◌∙◌, Bool-cases, inl, inr, arith,
}
use goper.Base.Chain.{or_else, >>=-eq-some}
use goper.Base.Text.{Text, text_eq, text_eq_iff}
use goper.Proxy.X509.{Key, X509, TlsCertificate, Draws, Crypto}
use goper.Proxy.Authority.{CaProvider}
use goper.Proxy.HostCertificate.{host_certificate_template, sign_host_cert, generate_cert}
use goper.Proxy.Certificates.{
  CertCache, without, look_after, host_for_hello, get_certificate, generate_after, cert_or_generate,
  locked_after, Event, asks, locks, step, run,
}

-- What `generateCert` made of a host.
pub record Issued (crypto : Crypto) (ca : CaProvider) (host : Text) (cert : TlsCertificate)
    : Type 0 where
  pub draws : Draws
  pub template : X509
  pub der : Text
  pub templated : host_certificate_template crypto ca draws host ≡ some template
  pub created :
      crypto.create_certificate draws.nonce template ca.certificate
        (crypto.public_of cert.private_key)
        ca.private_key
      ≡ some der
  pub chain : cert.certificate ≡ der ∷ ca.certificate.raw ∷ []

sign_host_cert-Issued :
    (crypto : Crypto) (ca : CaProvider) (draws : Draws) (host : Text) (key : Key)
    (cert : TlsCertificate)
    → sign_host_cert crypto ca draws host key ≡ some cert
    → Issued crypto ca host cert
unfolding sign_host_cert
sign_host_cert-Issued crypto ca draws host key cert h =
    let (template, t, h1) = >>=-eq-some (host_certificate_template crypto ca draws host) _ h in
    let (der, c, h2) =
      >>=-eq-some
        (crypto.create_certificate draws.nonce template ca.certificate (crypto.public_of key)
          ca.private_key)
        _ h1 in
    let same = ap (or_else cert) h2 in
    record {
      draws = draws;
      template = template;
      der = der;
      templated = t;
      created =
          ap
            (λ (x : TlsCertificate).
              crypto.create_certificate draws.nonce template ca.certificate
                (crypto.public_of x.private_key) ca.private_key)
            (sym same)
          ∙ c;
      chain = ap (λ (x : TlsCertificate). x.certificate) (sym same);
    }

generate_cert-Issued :
    (crypto : Crypto) (ca : CaProvider) (draws : Draws) (host : Text) (cert : TlsCertificate)
    → generate_cert crypto ca draws host ≡ some cert
    → Issued crypto ca host cert
unfolding generate_cert
generate_cert-Issued crypto ca draws host cert h =
    let (key, drawn, h1) = >>=-eq-some draws.key _ h in
    sign_host_cert-Issued crypto ca draws host key cert h1

-- Every certificate in the cache was issued for its host.
pub record IsIssued (crypto : Crypto) (ca : CaProvider) (cc : CertCache) : Type 0 where
  pub same_ca : cc.ca ≡ ca
  pub issued :
      (host : Text) (cert : TlsCertificate) → cc.certs host ≡ some cert → Issued crypto ca host cert

module _ (crypto : Crypto) (ca : CaProvider) where
  generate_after-IsIssued :
      (cc : CertCache) (host : Text) (draws : Draws) (o : Option TlsCertificate)
      → IsIssued crypto ca cc
      → generate_cert crypto ca draws host ≡ o
      → IsIssued crypto ca (generate_after cc host o)
  unfolding generate_after
  generate_after-IsIssued cc host draws none i e = i
  generate_after-IsIssued cc host draws (some cert) i e = record {
    same_ca = i.same_ca;
    issued = λ h c p. elim (Bool-cases (text_eq host h)) [
      | inl same ↦
          let found : some cert ≡ some c = ground (arith, same, p) in
          subst (λ t. Issued crypto ca t c) ((text_eq_iff host h).0 same)
            (subst (Issued crypto ca host) (ap (or_else cert) found)
              (generate_cert-Issued crypto ca draws host cert e))
      | inr other ↦ i.issued h c (ground (arith, other, p))
    ];
  }

  cert_or_generate-IsIssued :
      (cc : CertCache) (host : Text) (draws : Draws) (o : Option TlsCertificate)
      → IsIssued crypto ca cc
      → IsIssued crypto ca (cert_or_generate cc host (generate_cert crypto ca draws host) o)
  unfolding cert_or_generate
  cert_or_generate-IsIssued cc host draws none i = generate_after-IsIssued cc host draws _ i refl
  cert_or_generate-IsIssued cc host draws (some cert) i = record {
    same_ca = i.same_ca;
    issued = i.issued;
  }

  locked_after-IsIssued :
      (cc : CertCache) (k : ℕ) (draws : Draws) (o : Option Text)
      → IsIssued crypto ca cc
      → IsIssued crypto ca (locked_after crypto cc k draws o)
  unfolding locked_after
  locked_after-IsIssued cc k draws none i = i
  locked_after-IsIssued cc k draws (some host) i =
      let left = record cc { waiting = without k cc.waiting } in
      let kept : IsIssued crypto ca left = record { same_ca = i.same_ca; issued = i.issued } in
      subst
        (λ a.
          IsIssued crypto ca
            (cert_or_generate left host (generate_cert crypto a draws host) (cc.certs host)))
        (sym i.same_ca) (cert_or_generate-IsIssued left host draws (cc.certs host) kept)

  look_after-IsIssued :
      (cc : CertCache) (host : Text) (o : Option TlsCertificate)
      → IsIssued crypto ca cc
      → IsIssued crypto ca (look_after cc host o)
  unfolding look_after
  look_after-IsIssued cc host none i = record { same_ca = i.same_ca; issued = i.issued }
  look_after-IsIssued cc host (some cert) i = record { same_ca = i.same_ca; issued = i.issued }

  pub run-IsIssued :
      (cc : CertCache) (es : List Event)
      → IsIssued crypto ca cc
      → IsIssued crypto ca (run crypto cc es)
  unfolding run step get_certificate
  run-IsIssued cc [] i = i
  run-IsIssued cc (asks hello ∷ es) i =
      run-IsIssued (step crypto cc (asks hello)) es
        (look_after-IsIssued cc (host_for_hello hello) _ i)
  run-IsIssued cc (locks k draws ∷ es) i =
      run-IsIssued (step crypto cc (locks k draws)) es (locked_after-IsIssued cc k draws _ i)
