-- ===== src/Proxy/Certificates/Agreement.antt =====
-- internal/proxy/mitm_cert_cache.go: a host has one certificate, however the goroutines interleave.
use goper.Base.{
  ℕ, zero, suc, List, [], ◌∷◌, Option, none, some, ◌≡◌, refl, ap, subst, arith, Bool-cases, inl,
  inr, All, get_elem?,
}
use goper.Base.Text.{Text, text_eq, text_eq_iff}
use goper.Base.Maps.{Dict, insert}
use goper.Proxy.X509.{TlsCertificate, Draws, Crypto}
use goper.Proxy.Authority.{CaProvider}
use goper.Proxy.HostCertificate.{generate_cert}
use goper.Proxy.Certificates.{
  CertCache, new_cert_cache, look_after, host_for_hello, get_certificate, generate_after,
  cert_or_generate, locked_after, Event, asks, locks, step, run,
}

-- Everything that was returned is what the cache has for its host.
abbrev pub IsCached : Dict TlsCertificate → List (Text × TlsCertificate) → Type 0
IsCached certs = All (λ (x : Text × TlsCertificate). certs x.0 ≡ some x.1)

look_after-IsCached :
    (cc : CertCache) (host : Text) (o : Option TlsCertificate)
    → cc.certs host ≡ o
    → IsCached cc.certs cc.returned
    → IsCached (look_after cc host o).certs (look_after cc host o).returned
unfolding look_after
look_after-IsCached cc host none e h = h
look_after-IsCached cc host (some cert) e h = (e, h)

-- A host without a certificate was never returned one.
insert-IsCached :
    (certs : Dict TlsCertificate) (host : Text) (cert : TlsCertificate)
    (xs : List (Text × TlsCertificate))
    → certs host ≡ none
    → IsCached certs xs
    → IsCached (insert host cert certs) xs
insert-IsCached certs host cert [] e h = tt
insert-IsCached certs host cert (x ∷ xs) e h = (kept, insert-IsCached certs host cert xs e h.1)
  where
    kept : insert host cert certs x.0 ≡ some x.1
    kept = elim (Bool-cases (text_eq host x.0)) [
      | inl same ↦ cc ((text_eq_iff host x.0).0 same, e, h.0)
      | inr other ↦ rw other h.0
    ]

cert_or_generate-IsCached :
    (cc : CertCache) (host : Text) (generated o : Option TlsCertificate)
    → cc.certs host ≡ o
    → IsCached cc.certs cc.returned
    → let c = cert_or_generate cc host generated o in IsCached c.certs c.returned
unfolding cert_or_generate generate_after
cert_or_generate-IsCached cc host none none e h = h
cert_or_generate-IsCached cc host (some cert) none e h =
    (ground (arith, text_eq_iff host host), insert-IsCached cc.certs host cert cc.returned e h)
cert_or_generate-IsCached cc host generated (some cert) e h = (e, h)

locked_after-IsCached :
    (crypto : Crypto) (cc : CertCache) (k : ℕ) (draws : Draws) (o : Option Text)
    → IsCached cc.certs cc.returned
    → let c = locked_after crypto cc k draws o in IsCached c.certs c.returned
unfolding locked_after
locked_after-IsCached crypto cc k draws none h = h
locked_after-IsCached crypto cc k draws (some host) h =
    cert_or_generate-IsCached _ host (generate_cert crypto cc.ca draws host) (cc.certs host) refl h

pub run-IsCached :
    (crypto : Crypto) (cc : CertCache) (es : List Event)
    → IsCached cc.certs cc.returned
    → IsCached (run crypto cc es).certs (run crypto cc es).returned
unfolding run step get_certificate
run-IsCached crypto cc [] h = h
run-IsCached crypto cc (asks hello ∷ es) h =
    run-IsCached crypto (step crypto cc (asks hello)) es
      (look_after-IsCached cc (host_for_hello hello) (cc.certs (host_for_hello hello)) refl h)
run-IsCached crypto cc (locks k draws ∷ es) h =
    run-IsCached crypto (step crypto cc (locks k draws)) es
      (locked_after-IsCached crypto cc k draws _ h)

abbrev or_pair : Text × TlsCertificate → Option (Text × TlsCertificate) → Text × TlsCertificate
or_pair x none = x
or_pair x (some y) = y

pub found-IsCached :
    (certs : Dict TlsCertificate) (xs : List (Text × TlsCertificate)) (i : ℕ) (host : Text)
    (cert : TlsCertificate)
    → IsCached certs xs
    → get_elem? xs i ≡ some (host, cert)
    → certs host ≡ some cert
found-IsCached certs [] i host cert h e = ground (arith, e)
found-IsCached certs (x ∷ xs) zero host cert h e =
    subst (λ (y : Text × TlsCertificate). certs y.0 ≡ some y.1) (ap (or_pair x) e) h.0
found-IsCached certs (x ∷ xs) (suc i) host cert h e = found-IsCached certs xs i host cert h.1 e

-- However the calls of any number of goroutines interleave, starting with an empty cache, two calls
-- that return certificates for the same host return the same one, also when several of them
-- missed the cache before the first one was generated.
pub run_agrees :
    (crypto : Crypto) (ca : CaProvider) (es : List Event) (i j : ℕ) (host : Text)
    (c d : TlsCertificate)
    → get_elem? (run crypto (new_cert_cache ca) es).returned i ≡ some (host, c)
    → get_elem? (run crypto (new_cert_cache ca) es).returned j ≡ some (host, d)
    → c ≡ d
run_agrees crypto ca es i j host c d p q =
    let all = run-IsCached crypto (new_cert_cache ca) es (unfold new_cert_cache in tt) in
    let a = found-IsCached _ _ i host c all p in
    let b = found-IsCached _ _ j host d all q in cc (a, b)
