-- ===== src/Main/Program/Starts.antt =====
-- cmd/goper/main.go: what serves once the program has started.
use goper.Base.{Bool, true, List, ◌++◌, Option, some, ◌≡◌, refl, ap, ◌∙◌}
use goper.Base.Chain.{>>=-eq-some}
use goper.Base.Text.{Text}
use goper.Api.Handlers.{get_ca, reply_ca, pem_file}
use goper.Base.{◌⊎◌, inl, if◌then◌else◌}
use goper.Api.Server.{ApiServer, ca_url}
use goper.Base.Int.{pos}
use goper.Httpx.{listen_addr, serve, seconds, serving, accepting}
use goper.Proxy.Start.Running
use goper.Api.Server
use goper.Iptables.{Outcome, new_manager}
use goper.Iptables.Table.{IsIptables, IsAllowed}
use goper.Iptables.Teardown.{IsUntouched}
use goper.Main.{Config, setup_transparent_if_enabled}
use goper.Main.Outputs.{outputs_of, setup_outputs-outputs, with_ca-outputs}
use goper.Main.Flags.{parse_flags, parse_args}
use goper.Main.Settings.{compiles}
use goper.Main.Lifecycle.{may_start, setup_transparent-starts}
use goper.Main.Logging.{log_ready}
use goper.Main.Starting.{parse_config-new_server}
use goper.Main.Program.{
  World, Process, Serving, serves, serving_of, wired_outputs, with_server, start,
}
use goper.Main.Program.Exits.{with_transparent-serves}
use goper.Proxy.X509.{Crypto}
use goper.Proxy.Authority.{Ca, ca_provider}
use goper.Proxy.Authority.Valid.{IsX509}
use goper.Proxy.CaStore.{CaDir, load_or_create_ca}
use goper.Proxy.CaStore.Persistence.{IsKeyPair}
use goper.Proxy.CaStore.Published.{IsOwnPair, load_or_create_ca-IsPublished}
use goper.Proxy.Start.{ProxyServer, new_server}

proxy_runs :
    {L : Type 0} (net_listen : Text → L ⊎ Text) (l : L) (p : ProxyServer) (cfg : Config)
    → p.config ≡ cfg
    → net_listen (listen_addr cfg.port) ≡ inl l
    → Running.run net_listen p
      ≡ (if cfg.transparent then accepting l else serving (serve p.handlers l (pos 0)))
unfolding Running.run Running.run_with_listener
proxy_runs net_listen l p cfg same on_port =
    let on_its_port : net_listen (listen_addr p.config.port) ≡ inl l =
      ap (λ (c : Config). net_listen (listen_addr c.port)) same ∙ on_port in
    rw on_its_port (
      ap
        (λ (c : Config).
          if c.transparent then accepting l else serving (serve p.handlers l (pos 0)))
        same)

api_runs :
    {L : Type 0} (net_listen : Text → L ⊎ Text) (m : L) (s : ApiServer)
    → net_listen (listen_addr s.port) ≡ inl m
    → Server.run net_listen s ≡ serving (serve s.handler m (seconds 15))
unfolding Server.run Server.run_with_listener
api_runs net_listen m s on_port = rw on_port refl

with_server-serves :
    {S : Type 0} (run : S → List Text → Outcome × S) (proc : Process) (w : World S) (cfg : Config)
    (o : Option ProxyServer) (p : ProxyServer) (disk : CaDir)
    → o ≡ some p
    → (setup_transparent_if_enabled run proc.euid cfg w.machine (new_manager cfg.port proc.uid)).0
      ≡ 0
    → (with_server run proc w cfg (o, disk)).0
      ≡ serves (serving_of cfg (wired_outputs cfg p) disk (new_manager cfg.port proc.uid))
unfolding with_server
with_server-serves run proc w cfg o p disk e fine = rw e (
    ap (λ x. x.0)
      (with_transparent-serves cfg (wired_outputs cfg p) disk (new_manager cfg.port proc.uid)
        (setup_transparent_if_enabled run proc.euid cfg w.machine (new_manager cfg.port proc.uid))
        fine))

module _ {S : Type 0} (crypto : Crypto) (compile : Text → Option (Text → Bool))
    (run : S → List Text → Outcome × S) (rules : S → List (List Text)) (proc : Process) where
  -- With these listeners on their ports, the servers run with this CA, write to the outputs of the
  -- settings, and hand out the certificate of this CA at the URL that is announced. What the cache of
  -- host certificates signs with is the CA's certificate and key, which are those of the TLS pair
  -- that the PEM file which is handed out belongs to.
  abbrev pub IsReady : {L : Type 0} → (Text → L ⊎ Text) → L → L → Config → Ca → Serving → Type 0
  IsReady net_listen l m cfg ca v =
      (v.proxy_server.cache.ca.tls_certificate ≡ ca.tls)
      × (v.proxy_server.cache.ca.certificate ≡ ca.cert)
      × (v.proxy_server.cache.ca.private_key ≡ ca.key)
      × IsOwnPair crypto ca
      × (v.proxy_server.goproxy_ca ≡ ca.tls)
      × (v.proxy_server.config ≡ cfg)
      × (v.rules ≡ new_manager cfg.port proc.uid)
      × (v.proxy_server.handlers.outputs ≡ outputs_of cfg)
      × ((cert_pem : Text) × (key_pem : Text) × (get_ca v.api_server.handler ≡ pem_file cert_pem)
          × (crypto.x509_key_pair cert_pem key_pem ≡ some ca.tls))
      × (v.announced ≡ some (ca_url cfg.api_port))
      × (Running.run net_listen v.proxy_server ≡ (
          if cfg.transparent
          then accepting l
          else serving (serve v.proxy_server.handlers l (pos 0))))
      × (Server.run net_listen v.api_server ≡ serving (serve v.api_server.handler m (seconds 15)))

  -- When the command line is accepted, a CA is loaded or created and, for transparent mode, the user is
  -- root, on a machine and with libraries as documented, and both ports can be listened on: the servers
  -- start with the outputs that the settings ask for. Wherever the CA comes from and however writing it
  -- goes, the proxy signs with the certificate and the key of the pair whose certificate the API hands
  -- out, and the log announces where. The proxy runs on the port that the iptables rules redirect to,
  -- and the API on its own.
  pub start-IsReady :
      {L : Type 0} (net_listen : Text → L ⊎ Text) (l m : L) (w : World S) (args : List Text)
      (cfg : Config) (ca : Ca)
      → IsX509 crypto
      → IsKeyPair crypto
      → IsIptables run rules
      → IsAllowed run rules
      → IsUntouched (rules w.machine) (new_manager cfg.port proc.uid)
      → parse_args (compiles compile) proc.home args ≡ some cfg
      → (load_or_create_ca crypto w.disk proc.course proc.draws).0 ≡ some ca
      → may_start cfg proc.euid ≡ true
      → net_listen (listen_addr cfg.port) ≡ inl l
      → net_listen (listen_addr cfg.api_port) ≡ inl m
      → (v : Serving) × ((start crypto compile run proc w cfg).0 ≡ serves v)
        × IsReady net_listen l m cfg ca v
  unfolding parse_args new_server start ca_provider get_ca Server.new_server reply_ca log_ready
  start-IsReady net_listen l m w args cfg ca x pair ipt allowed untouched h e may on_l on_m =
      let (g, flags, c) = >>=-eq-some (parse_flags args) _ h in
      let (p, is_p, same_ca, same_cfg, cache, goproxy) =
        (parse_config-new_server crypto compile proc.home g.config cfg g.log_format proc.env w.disk
          proc.course proc.draws ca c e).1 in
      let manager = new_manager cfg.port proc.uid in
      let (fine, added, restored) =
        setup_transparent-starts run rules proc.euid proc.uid cfg w.machine ipt allowed untouched
          may in
      let disk = (load_or_create_ca crypto w.disk proc.course proc.draws).1 in
      let (cert_pem, key_pem, cert, key, paired, own) =
        load_or_create_ca-IsPublished crypto w.disk proc.course proc.draws ca x pair e in
      let v = serving_of cfg (wired_outputs cfg p) disk manager in
      (
        v,
        with_server-serves run proc w cfg _ p disk is_p fine,
        (
          ap (λ a. a.tls_certificate) cache,
          ap (λ a. a.certificate) cache,
          ap (λ a. a.private_key) cache,
          own,
          goproxy,
          same_cfg,
          refl,
          (setup_outputs-outputs p.handlers cfg).0
              ∙ ap (λ l. l ++ outputs_of cfg)
                  (with_ca-outputs crypto compile proc.env cfg _ p is_p).0,
          (cert_pem, key_pem, ap reply_ca cert, paired),
          ap (log_ready cfg) cert,
          proxy_runs net_listen l (wired_outputs cfg p) cfg same_cfg on_l,
          api_runs net_listen m v.api_server on_m,
        ),
      )
