-- ===== src/Proxy/Start.antt =====
-- internal/proxy/proxy.go: making a proxy server out of the settings of internal/config/config.go.
pub mod Session
pub mod Running
use goper.Base.{Bool, [], Option, none, some}
use goper.Base.Text.{Text}
use goper.Capture.Entry.{Env}
use goper.Capture.Recorder.{new_default_recorder}
use goper.Capture.Ring.{new_ring_buffer}
use goper.Main.{Config}
use goper.Proxy.X509.{TlsCertificate, Draws, Crypto}
use goper.Proxy.Authority.{Ca, ca_provider}
use goper.Proxy.CaStore.{CaDir, Course, load_or_create_ca}
use goper.Proxy.Certificates.{CertCache, new_cert_cache}
use goper.Proxy.Handlers.{Server, configure_capture_regexes}

-- The whole of a `Server`: what its handlers use, the cache of certificates and the CA, the settings,
-- and what is set of goproxy.
pub record ProxyServer : Type 0 where
  pub handlers : Server
  pub cache : CertCache
  pub ca : Ca
  pub config : Config
  pub goproxy_verbose : Bool
  pub goproxy_ca : TlsCertificate

-- The server before its filters are compiled.
unfoldable pub fresh : Env → Config → Server
fresh env cfg = record {
  include_re = none;
  exclude_re = none;
  response_body_limit = cfg.response_body_limit;
  recorder = new_default_recorder cfg.request_body_limit cfg.response_body_limit;
  store = new_ring_buffer env cfg.buffer_size;
  outputs = [];
  written = [];
}

unfoldable pub wired : Config → Ca → Option Server → Option ProxyServer
wired cfg ca none = none
wired cfg ca (some s) = some (record {
  handlers = s;
  cache = new_cert_cache (ca_provider ca);
  ca = ca;
  config = cfg;
  goproxy_verbose = cfg.verbose;
  goproxy_ca = (ca_provider ca).tls_certificate;
})

module _ (crypto : Crypto) (compile : Text → Option (Text → Bool)) where
  unfoldable pub with_ca : Env → Config → Option Ca → Option ProxyServer
  with_ca env cfg none = none
  with_ca env cfg (some ca) =
      wired cfg ca
        (configure_capture_regexes compile (fresh env cfg) cfg.capture_include cfg.capture_exclude)

  -- The server, `none` for an error, and what is left in the CA's directory. A CA that was created
  -- stays there when a filter does not compile.
  unfoldable pub new_server : Env → Config → CaDir → Course → Draws → Option ProxyServer × CaDir
  unfolding with_ca
  new_server env cfg disk course draws =
      let (ca, disk') = load_or_create_ca crypto disk course draws in (with_ca env cfg ca, disk')
