-- ===== src/Proxy/Certificates.antt =====
-- internal/proxy/mitm_cert_cache.go: the cache of host certificates, asked by many goroutines. Each
-- lock covers one step; what `generateCert` draws in a step is part of the event.
pub mod Agreement
pub mod Issuing
pub mod Verified
use goper.Base.{ℕ, zero, suc, List, [], ◌∷◌, ◌++◌, Option, none, some, if◌then◌else◌}
use goper.Base.Text.{Text, codes, text_eq}
use goper.Proxy.X509.{TlsCertificate, Draws, Crypto}
use goper.Proxy.Authority.{CaProvider}
use goper.Proxy.HostCertificate.{generate_cert}
use goper.Base.Maps.{Dict, empty_dict, insert}

-- The name that the client sends, and the local address of its connection, if there is one.
pub record ClientHelloInfo : Type 0 where
  pub server_name : Text
  pub local : Option Text

unfoldable pub local_addr : Option Text → Text
local_addr none = []
local_addr (some addr) = addr

abbrev pub or_else : Text → Text → Text
or_else host other = if text_eq host [] then other else host

unfoldable pub host_for_hello : ClientHelloInfo → Text
host_for_hello hello =
    or_else (or_else hello.server_name (local_addr hello.local)) (codes "localhost")

-- `certs`, the CA, the goroutines that missed and have not got the write lock yet, by their hosts, and
-- what calls have returned so far.
pub record CertCache : Type 0 where
  pub certs : Dict TlsCertificate
  pub ca : CaProvider
  pub waiting : List Text
  pub returned : List (Text × TlsCertificate)

unfoldable pub new_cert_cache : CaProvider → CertCache
new_cert_cache ca = record { certs = empty_dict; ca = ca; waiting = []; returned = [] }

-- The first part of `GetTlsCertificate`, under the read lock.
unfoldable pub look_after : CertCache → Text → Option TlsCertificate → CertCache
look_after cc host none = record cc { waiting = cc.waiting ++ host ∷ [] }
look_after cc host (some cert) = record cc { returned = (host, cert) ∷ cc.returned }

unfoldable pub get_certificate : CertCache → ClientHelloInfo → CertCache
get_certificate cc hello = let host = host_for_hello hello in look_after cc host (cc.certs host)

-- `GetCertForHost`: a hello with this name and no connection.
unfoldable pub get_cert_for_host : CertCache → Text → CertCache
get_cert_for_host cc host = get_certificate cc (record { server_name = host; local = none })

-- `certOrGenerate`, under the write lock, after looking again; `generated` is what `generateCert`
-- returns where it is called.
unfoldable pub generate_after : CertCache → Text → Option TlsCertificate → CertCache
generate_after cc host none = cc
generate_after cc host (some cert) = record cc {
  certs = insert host cert cc.certs;
  returned = (host, cert) ∷ cc.returned;
}

unfoldable pub cert_or_generate :
    CertCache → Text → Option TlsCertificate → Option TlsCertificate → CertCache
cert_or_generate cc host generated none = generate_after cc host generated
cert_or_generate cc host generated (some cert) = record cc { returned = (host, cert) ∷ cc.returned }

abbrev pub without : ℕ → List Text → List Text
without k [] = []
without zero (h ∷ hs) = hs
without (suc k) (h ∷ hs) = h ∷ without k hs

abbrev nth : List Text → ℕ → Option Text
nth [] k = none
nth (h ∷ hs) zero = some h
nth (h ∷ hs) (suc k) = nth hs k

-- A goroutine asks, or the `k`-th of those that wait gets the write lock.
pub data Event : Type 0 where
  asks : ClientHelloInfo → Event
  locks : ℕ → Draws → Event

module _ (crypto : Crypto) where
  unfoldable pub locked_after : CertCache → ℕ → Draws → Option Text → CertCache
  locked_after cc k draws none = cc
  locked_after cc k draws (some host) =
      let left = record cc { waiting = without k cc.waiting } in
      cert_or_generate left host (generate_cert crypto cc.ca draws host) (cc.certs host)

  unfoldable pub step : CertCache → Event → CertCache
  step cc (asks hello) = get_certificate cc hello
  step cc (locks k draws) = locked_after cc k draws (nth cc.waiting k)

  unfoldable pub run : CertCache → List Event → CertCache
  run cc [] = cc
  run cc (e ∷ es) = run (step cc e) es
