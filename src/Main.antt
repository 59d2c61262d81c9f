-- ===== src/Main.antt =====
-- cmd/goper/main.go and internal/config/config.go: the settings of a run, and what a run does to
-- the outputs and to the table of iptables rules. `flag` fills in the Config; `compiles` says
-- whether `regexp.Compile` takes a pattern.
pub mod Settings
pub mod Starting
pub mod Logging
pub mod Outputs
pub mod Program
pub mod Lifecycle
pub mod Numbers
pub mod Flags
use goper.Base.{
  ℕ, ◌^◌, Bool, true, false, not, ◌&&◌, ◌||◌, List, [], ◌∷◌, ◌++◌, Option, none, some, ◌==◌,
  if◌then◌else◌,
}
use goper.Base.Int.{ℤ, pos, negsuc}
use goper.Base.Text.{Text, codes, text_eq}
use goper.Output.Writers.{new_json_body_writer, new_ndjson_body_writer}
use goper.Proxy.Handlers.{Server, add_output}
use goper.Iptables.{Rule, Outcome, new_manager, setup, teardown}

-- `log_level` is the number behind a `slog.Level`.
pub record Config : Type 0 where
  pub port : ℤ
  pub api_port : ℤ
  pub ca_dir : Text
  pub transparent : Bool
  pub verbose : Bool
  pub buffer_size : ℤ
  pub log_format : Text
  pub log_level : ℤ
  pub output_dir : Text
  pub output_format : Text
  pub no_capture : Bool
  pub request_body_limit : ℤ
  pub response_body_limit : ℤ
  pub capture_include : Text
  pub capture_exclude : Text

abbrev pub level_info : ℤ
level_info = pos 0

abbrev pub level_debug : ℤ
level_debug = negsuc 3

unfoldable pub default_config : Config
default_config = record {
  port = pos 8080;
  api_port = pos 8081;
  ca_dir = codes "~/.goper/ca";
  transparent = false;
  verbose = false;
  buffer_size = pos 10_000;
  log_format = codes "text";
  log_level = level_info;
  output_dir = codes "captures";
  output_format = codes "json";
  no_capture = false;
  request_body_limit = pos 0;
  response_body_limit = pos (2 ^ 20);
  capture_include = [];
  capture_exclude = [];
}

unfoldable pub valid_output_format : Text → Bool
valid_output_format f = text_eq f (codes "json") || text_eq f (codes "ndjson")

unfoldable pub validate_capture_regex : (Text → Bool) → Text → Bool
validate_capture_regex compiles pattern = if text_eq pattern [] then true else compiles pattern

-- Whether there is no error.
unfoldable pub validate_config : (Text → Bool) → Config → Bool
validate_config compiles cfg =
    if not (valid_output_format cfg.output_format)
    then false
    else if not (validate_capture_regex compiles cfg.capture_include)
    then false
    else validate_capture_regex compiles cfg.capture_exclude

abbrev with_level : Config → Config
with_level cfg = if cfg.verbose then record cfg { log_level = level_debug } else cfg

unfoldable pub apply_derived_settings : Config → Text → Config
apply_derived_settings cfg log_format =
    let leveled = with_level cfg in
    if text_eq log_format (codes "json")
    then record leveled { log_format = codes "json" }
    else leveled

-- `strings.Replace(path, "~", home, 1)`
unfoldable pub replace_tilde : Text → Text → Text
replace_tilde [] home = []
replace_tilde (c ∷ cs) home =
    let rest = replace_tilde cs home in if c == b'~' then home ++ cs else c ∷ rest

-- `home` is `none` where `os.UserHomeDir` fails.
unfoldable pub expand_home_dir : Option Text → Text → Text
expand_home_dir none path = path
expand_home_dir (some home) path = replace_tilde path home

-- The settings that follow from the parsed flags, `none` for an error.
unfoldable pub parse_config : (Text → Bool) → Option Text → Config → Text → Option Config
parse_config compiles home cfg log_format =
    if validate_config compiles cfg
    then (let derived = apply_derived_settings cfg log_format in
        some (record derived { ca_dir = expand_home_dir home derived.ca_dir }))
    else none

unfoldable pub wire_outputs : Server → Config → Server
wire_outputs s cfg =
    if text_eq cfg.output_format (codes "ndjson")
    then add_output s (new_ndjson_body_writer cfg.output_dir)
    else add_output s (new_json_body_writer cfg.output_dir)

unfoldable pub setup_outputs : Server → Config → Server
unfolding wire_outputs
setup_outputs s cfg =
    if cfg.no_capture then s else if not (text_eq cfg.output_dir []) then wire_outputs s cfg else s

-- Whether the process may manage iptables, by its effective user id.
unfoldable pub check_transparent_privileges : ℕ → Bool
check_transparent_privileges euid = if not (euid == 0) then false else true

-- The machine's state, with the runner that acts on it.
module _ {S : Type 0} (run : S → List Text → Outcome × S) where
  -- Whether there is no error.
  unfoldable pub install_rules : ℕ → S → List Rule → Bool × S
  install_rules euid s rules =
      if not (check_transparent_privileges euid) then (false, s) else setup run s rules

  -- The exit code, 0 to go on.
  unfoldable pub setup_transparent_if_enabled : ℕ → Config → S → List Rule → ℕ × S
  setup_transparent_if_enabled euid cfg s rules =
      if not cfg.transparent
      then (0, s)
      else (let (fine, s') = install_rules euid s rules in if fine then (0, s') else (1, s'))

  -- `teardownTransparent`, which only logs an error.
  unfoldable pub teardown_transparent : S → List Rule → S
  teardown_transparent s rules = teardown run s rules

  unfoldable pub shutdown_transparent : Config → S → List Rule → S
  shutdown_transparent cfg s rules = if not cfg.transparent then s else teardown_transparent s rules
