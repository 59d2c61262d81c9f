-- ===== src/Proxy/HostCertificate.antt =====
-- internal/proxy/mitm_cert_cache.go: making the certificate of a host.
use goper.Base.{◌+◌, ◌-◌, ◌*◌, ◌^◌, [], ◌∷◌, Option, none, some}
use goper.Base.Chain.{◌>>=◌}
use goper.Base.Text.{Text, codes}
use goper.Proxy.X509.{Key, Ip, X509, digital_signature, server_auth, TlsCertificate, Draws, Crypto}
use goper.Proxy.Authority.{CaProvider, hour, blank}

-- The names of a template: an address where the host is one, and else the host as a DNS name.
unfoldable pub with_names : X509 → Text → Option Ip → X509
with_names template host none = record template { dns_names = host ∷ [] }
with_names template host (some ip) = record template { ip_addresses = ip ∷ [] }

module _ (crypto : Crypto) (ca : CaProvider) (draws : Draws) where
  unfoldable pub host_certificate_template : Text → Option X509
  host_certificate_template host = do
    serial ← draws.int (2 ^ 128)
    let template = record blank {
      serial_number = serial;
      common_name = host;
      organization = codes "goper" ∷ [];
      not_before = draws.now - 24 * hour;
      not_after = draws.now + 365 * 24 * hour;
      key_usage = digital_signature ∷ [];
      ext_key_usage = server_auth ∷ [];
    } in
        some (with_names template host (crypto.parse_ip host))

  unfoldable pub sign_host_cert : Text → Key → Option TlsCertificate
  sign_host_cert host key = do
    template ← host_certificate_template host
    cert_der ←
        crypto.create_certificate draws.nonce template ca.certificate (crypto.public_of key)
          ca.private_key
    some (record { certificate = cert_der ∷ ca.certificate.raw ∷ []; private_key = key })

  unfoldable pub generate_cert : Text → Option TlsCertificate
  generate_cert host = do key ← draws.key; sign_host_cert host key
