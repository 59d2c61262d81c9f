-- ===== src/Main/Program.antt =====
-- cmd/goper/main.go: the program from its command line to its exit code.
pub mod Exits
pub mod Starts
use goper.Base.{ℕ, zero, suc, Bool, List, Option, none, some}
use goper.Base.Text.{Text}
use goper.Capture.Entry.{Env}
use goper.Api.Server.{ApiServer}
use goper.Api.Server
use goper.Iptables.{Rule, Outcome, new_manager}
use goper.Main.{Config, setup_outputs, setup_transparent_if_enabled, shutdown_transparent}
use goper.Main.Flags.{parse_args}
use goper.Main.Logging.{LogHandler, setup_logging, log_ready}
use goper.Main.Settings.{compiles}
use goper.Proxy.X509.{Draws, Crypto}
use goper.Proxy.CaStore.{CaDir, Course}
use goper.Proxy.Handlers.{Server}
use goper.Proxy.Start.{ProxyServer, new_server}

-- The machine with its iptables, and the CA's directory.
pub record World (S : Type 0) : Type 0 where
  pub machine : S
  pub disk : CaDir

-- The user that the process runs as, with the home directory, and what its start reads: the clock, how
-- writing the CA goes and what generating one draws.
pub record Process : Type 0 where
  pub euid : ℕ
  pub uid : ℕ
  pub home : Option Text
  pub env : Env
  pub course : Course
  pub draws : Draws

-- What a run has set up when its servers start.
pub record Serving : Type 0 where
  pub logger : LogHandler
  pub proxy_server : ProxyServer
  pub api_server : ApiServer
  pub rules : List Rule
  pub announced : Option Text

-- A run that exits with a code, or whose servers start.
pub data Started : Type 0 where
  exits : ℕ → Started
  serves : Serving → Started

-- What comes first once the servers have started: a signal, or the end of a server's `Run`. That is
-- an error always, since neither `Serve` nor the accept loop ends without one.
pub data Ending : Type 0 where
  signalled server_failed : Ending

-- The file that the API hands out, if it can be read.
abbrev pub read_ca_pem : CaDir → Option Text
read_ca_pem disk = disk.cert_file

abbrev pub wired_outputs : Config → ProxyServer → ProxyServer
wired_outputs cfg p = record p { handlers = setup_outputs p.handlers cfg }

abbrev pub serving_of : Config → ProxyServer → CaDir → List Rule → Serving
serving_of cfg p disk rules =
    let ca_pem = read_ca_pem disk in
    record {
      logger = setup_logging cfg;
      proxy_server = p;
      api_server = Server.new_server cfg.api_port p.handlers.store ca_pem;
      rules = rules;
      announced = log_ready cfg ca_pem;
    }

abbrev pub with_transparent :
    {S : Type 0} → Config → ProxyServer → CaDir → List Rule → ℕ × S → Started × World S
with_transparent cfg p disk rules (zero, machine) =
    (serves (serving_of cfg p disk rules), record { machine = machine; disk = disk })
with_transparent cfg p disk rules (suc code, machine) =
    (exits (suc code), record { machine = machine; disk = disk })

module _ {S : Type 0} (run : S → List Text → Outcome × S) where
  unfoldable pub with_server :
      Process → World S → Config → Option ProxyServer × CaDir → Started × World S
  with_server proc w cfg (none, disk) = (exits 1, record w { disk = disk })
  with_server proc w cfg (some p, disk) =
      let rules = new_manager cfg.port proc.uid in
      with_transparent cfg (wired_outputs cfg p) disk rules
        (setup_transparent_if_enabled run proc.euid cfg w.machine rules)

  unfoldable pub finish : Ending → Config → Started × World S → ℕ × World S
  finish ending cfg (exits code, w) = (code, w)
  finish signalled cfg (serves s, w) =
      (0, record w { machine = shutdown_transparent run cfg w.machine s.rules })
  finish server_failed cfg (serves s, w) = (1, w)

module _ {S : Type 0} (crypto : Crypto) (compile : Text → Option (Text → Bool))
    (run : S → List Text → Outcome × S) (proc : Process) where
  -- A run up to the start of its servers.
  unfoldable pub start : World S → Config → Started × World S
  unfolding with_server
  start w cfg =
      with_server run proc w cfg
        (new_server crypto compile proc.env cfg w.disk proc.course proc.draws)

  unfoldable pub run_config : World S → Ending → Config → ℕ × World S
  unfolding finish
  run_config w ending cfg = finish run ending cfg (start w cfg)

  unfoldable pub run_parsed : World S → Ending → Option Config → ℕ × World S
  unfolding run_config
  run_parsed w ending none = (2, w)
  run_parsed w ending (some cfg) = run_config w ending cfg

  unfoldable pub run_program : World S → Ending → List Text → ℕ × World S
  unfolding run_parsed
  run_program w ending args = run_parsed w ending (parse_args (compiles compile) proc.home args)
