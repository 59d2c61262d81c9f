-- ===== src/Examples/Certificates.antt =====
-- internal/proxy/mitm_ca_store.go and mitm_cert_cache.go with the CA of Examples.Authority.
use goper.Base.{List, [], ◌∷◌, none, some, ◌≡◌, refl, sym, ap, ◌∙◌}
use native.Mathlib.Decide.{ℕ_discrete}
use goper.Base.Text.{codes, text_eq}
use goper.Base.Chain.{or_else}
use goper.Proxy.X509.{TlsCertificate}
use goper.Proxy.Authority.{ca_provider}
use goper.Proxy.CaStore.{broken, encode_ca_key_pem, encode_ca_files, load_or_create_ca}
use goper.Proxy.CaStore.Persistence.{IsKeyPair, no_ca, smooth, load-create, lost_key}
use goper.Proxy.HostCertificate.{
  with_names, host_certificate_template, sign_host_cert, generate_cert,
}
use goper.Proxy.Certificates.{
  ClientHelloInfo, local_addr, host_for_hello, new_cert_cache, look_after, get_certificate,
  generate_after, cert_or_generate, locked_after, Event, asks, locks, step, run,
}
use goper.Proxy.Certificates.Agreement.{run_agrees}
use goper.Proxy.Certificates.Verified.{IsFor, run_verified}
use goper.Examples.Authority.{
  leaf_template, certificate_of, toy, toy-IsX509, morning, our_ca, generated,
}

pub toy-IsKeyPair : IsKeyPair toy
toy-IsKeyPair = record {
  read_back = λ der key_bytes cert_pem key_pem key cert c m k p q.
      let from_cert = ap (or_else der) c in
      let from_key = ap (or_else key) m ∙ ap (or_else key_bytes) k in
      ap (λ x. some (record { certificate = x ∷ []; private_key = key_pem })) (sym from_cert)
      ∙ ap (λ x. some (record { certificate = der ∷ []; private_key = x })) (sym from_key);
}

pub encoded : encode_ca_files toy our_ca ≡ some (codes "CA", codes "K")
unfolding encode_ca_files encode_ca_key_pem
encoded = refl

load-create_example :
    let first = load_or_create_ca toy no_ca smooth morning in
    let later = load_or_create_ca toy first.1 smooth morning in
    (first.0 ≡ some our_ca) × (later.0 ≡ some our_ca) × (later.1 ≡ first.1)
load-create_example =
    load-create toy morning morning our_ca (codes "CA", codes "K") smooth toy-IsX509 toy-IsKeyPair
      generated encoded (refl, refl, refl)

lost_key_example :
    let first = load_or_create_ca toy no_ca (record smooth { key_course = broken none }) morning in
    let later = load_or_create_ca toy first.1 smooth morning in
    (first.0 ≡ none) × (later.0 ≡ none) × (later.1 ≡ first.1)
lost_key_example =
    lost_key toy morning morning our_ca (codes "CA", codes "K") smooth generated encoded refl

abbrev site : ClientHelloInfo
site = record { server_name = codes "a.example"; local = none }

-- Two goroutines ask for the same site and both miss.
abbrev racing : List Event
racing = asks site ∷ asks site ∷ locks 1 morning ∷ locks 0 morning ∷ []

abbrev site_pair : TlsCertificate
site_pair = record { certificate = codes "LEAF" ∷ codes "CA" ∷ []; private_key = codes "K" }

run_agrees_example : site_pair ≡ site_pair
unfolding run step get_certificate look_after host_for_hello local_addr text_eq locked_after
    cert_or_generate generate_after new_cert_cache generate_cert sign_host_cert
    host_certificate_template with_names ca_provider ℕ_discrete
run_agrees_example =
    run_agrees toy (ca_provider our_ca) racing 0 1 (codes "a.example") site_pair site_pair refl refl

run_verified_example :
    (codes "CA" ∷ [] ≡ codes "CA" ∷ [])
    × IsFor toy our_ca.cert (codes "a.example") (certificate_of leaf_template (codes "LEAF"))
unfolding run step get_certificate look_after host_for_hello local_addr text_eq locked_after
    cert_or_generate generate_after new_cert_cache generate_cert sign_host_cert
    host_certificate_template with_names ca_provider ℕ_discrete
run_verified_example =
    run_verified toy morning our_ca racing 0 (codes "a.example") (codes "LEAF") (codes "CA" ∷ [])
      site_pair (certificate_of leaf_template (codes "LEAF")) toy-IsX509 generated refl refl refl
