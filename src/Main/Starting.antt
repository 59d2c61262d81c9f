-- ===== src/Main/Starting.antt =====
-- cmd/goper/main.go with internal/proxy/proxy.go: accepted settings and a CA are all that NewServer needs.
use goper.Base.{Bool, Option, none, some, ◌≡◌, ◌≢◌, ◌⊎◌, refl, sym, subst}
use goper.Base.Text.{Text, codes}
use goper.Capture.Entry.{Env}
use goper.Main.{Config, parse_config}
use goper.Main.Settings.{compiles, parse_config_lem}
use goper.Proxy.X509.{Draws, Crypto}
use goper.Proxy.Authority.{Ca, ca_provider}
use goper.Proxy.CaStore.{CaDir, Course, load_or_create_ca}
use goper.Proxy.Certificates.{new_cert_cache}
use goper.Proxy.Handlers.{Server, configure_capture_regexes}
use goper.Proxy.Start.{ProxyServer, fresh, wired, with_ca, new_server}

-- A server that is ready: it serves with this CA, under these settings.
abbrev pub Serves : Config → Ca → Option ProxyServer → Type 0
Serves cfg ca o =
    (p : ProxyServer) × (o ≡ some p)
    × (p.ca ≡ ca)
    × (p.config ≡ cfg)
    × (p.cache.ca ≡ ca_provider ca)
    × (p.goproxy_ca ≡ ca.tls)

wired-Serves :
    (cfg : Config) (ca : Ca) (o : Option Server) → o ≢ none → Serves cfg ca (wired cfg ca o)
unfolding wired new_cert_cache ca_provider
wired-Serves cfg ca none n = absurd (n refl)
wired-Serves cfg ca (some s) n = (_, refl, refl, refl, refl, refl)

with_ca-Serves :
    (crypto : Crypto) (compile : Text → Option (Text → Bool)) (env : Env) (cfg : Config) (ca : Ca)
    (o : Option Ca)
    → o ≡ some ca
    → configure_capture_regexes compile (fresh env cfg) cfg.capture_include cfg.capture_exclude
      ≢ none
    → Serves cfg ca (with_ca crypto compile env cfg o)
unfolding with_ca
with_ca-Serves crypto compile env cfg ca o e n =
    subst (λ x. Serves cfg ca (with_ca crypto compile env cfg x)) (sym e) (wired-Serves cfg ca _ n)

-- When the settings are accepted and a CA could be loaded or created, the output format is json or
-- ndjson, and NewServer does not fail: it returns a server with these settings, whose certificate
-- cache signs with that CA and whose goproxy has the CA's key pair.
pub parse_config-new_server :
    (crypto : Crypto) (compile : Text → Option (Text → Bool)) (home : Option Text)
    (cfg cfg' : Config) (log_format : Text) (env : Env) (disk : CaDir) (course : Course)
    (draws : Draws) (ca : Ca)
    → parse_config (compiles compile) home cfg log_format ≡ some cfg'
    → (load_or_create_ca crypto disk course draws).0 ≡ some ca
    → ((cfg'.output_format ≡ codes "json") ⊎ (cfg'.output_format ≡ codes "ndjson"))
      × Serves cfg' ca (new_server crypto compile env cfg' disk course draws).0
unfolding new_server
parse_config-new_server crypto compile home cfg cfg' log_format env disk course draws ca h e =
    let (format, fine) = parse_config_lem compile home cfg cfg' log_format (fresh env cfg') h in
    (format, with_ca-Serves crypto compile env cfg' ca _ e fine)
