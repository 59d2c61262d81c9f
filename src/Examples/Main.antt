-- ===== src/Examples/Main.antt =====
-- cmd/goper/main.go on concrete settings.
use goper.Base.{Bool, true, List, ◌∷◌, [], Option, some, ◌≡◌, refl}
use goper.Base.Text.{Text, codes, text_eq}
use goper.Iptables.{new_manager}
use goper.Iptables.Table.{has}
use goper.Main.{
  Config, default_config, parse_config, validate_config, valid_output_format,
  validate_capture_regex, apply_derived_settings, expand_home_dir, replace_tilde,
}
use goper.Main.Settings.{compiles}
use goper.Main.Program.{World, Process, Serving, serves, server_failed, run_program, start}
use goper.Main.Program.Exits.{code_of, table_of, run_program_lem}
use goper.Main.Flags.{
  Given, parse_args, parse_flags, parse_loop, read_argument, take_flag, find_flag, flag_set,
  parse_bool, behind_dashes, split_value,
}
use goper.Main.Flags.Options.{Style}
use goper.Main.Flags.Written.{command_line, parse_flags-command_line}
use goper.Main.Numbers.{
  parse_int, parse_uint, digits_in, base_of, base_prefix, has_underscore, checked,
}
use goper.Api.Queries.{positive}
use goper.Base.{arith, ltb, leb, length}
use goper.Base.Int.{pos, negsuc}
use goper.Main.Program.Starts.{IsReady, start-IsReady}
use goper.Examples.Certificates.{toy-IsKeyPair, encoded}
use goper.Capture.Entry.{Env, decimal, itoa, digits_on}
use goper.Httpx.{listen_addr}
use goper.Base.{◌⊎◌, inl}
use goper.Proxy.CaStore.{load_or_create_ca}
use goper.Proxy.CaStore.Persistence.{no_ca, smooth, load-create}
use goper.Examples.Authority.{toy, toy-IsX509, our_ca, generated, morning}
use goper.Examples.Iptables.{Table, in_memory, itself, in_memory-IsIptables, in_memory-IsAllowed}

abbrev literal : Text → Option (Text → Bool)
literal pattern = some (text_eq pattern)

abbrev dawn : Env
dawn = record { now = 0; stamp = []; counter = 0 }

abbrev as_root : Process
as_root = record {
  euid = 0;
  uid = 0;
  home = some (codes "/root");
  env = dawn;
  course = smooth;
  draws = morning;
}

abbrev clean : World Table
clean = record { machine = []; disk = no_ca }

abbrev transparent_args : List Text
transparent_args = codes "-transparent" ∷ codes "--port" ∷ codes "0x1F90" ∷ []

run_program_lem_example :
    let x = run_program toy literal in_memory as_root clean server_failed transparent_args in
    let o = parse_args (compiles literal) (some (codes "/root")) transparent_args in
    let ca = (load_or_create_ca toy no_ca smooth morning).0 in
    (x.0 ≡ code_of o ca 0 server_failed) × (x.1.machine ≡ table_of o ca 0 0 server_failed [])
unfolding has new_manager
run_program_lem_example =
    run_program_lem toy literal in_memory itself as_root clean server_failed transparent_args
      in_memory-IsIptables in_memory-IsAllowed (λ cfg h. (refl, (refl, (refl, tt))))

-- The settings behind `transparent_args`.
abbrev transparent : Config
transparent = record default_config { transparent = true; ca_dir = codes "/root/.goper/ca" }

transparent_parsed :
    parse_args (compiles literal) (some (codes "/root")) transparent_args ≡ some transparent
unfolding parse_args parse_flags parse_loop read_argument take_flag find_flag flag_set text_eq
    parse_bool parse_int positive parse_uint digits_in base_of base_prefix has_underscore
    behind_dashes split_value checked parse_config validate_config valid_output_format
    validate_capture_regex apply_derived_settings expand_home_dir replace_tilde default_config
transparent_parsed = refl

-- A listener is its address.
abbrev ports : Text → Text ⊎ Text
ports addr = inl addr

on_8080 : ports (listen_addr transparent.port) ≡ inl (codes ":8080")
unfolding decimal itoa digits_on default_config
on_8080 = refl

on_8081 : ports (listen_addr transparent.api_port) ≡ inl (codes ":8081")
unfolding decimal itoa digits_on default_config
on_8081 = refl

start-IsReady_example :
    (v : Serving) × ((start toy literal in_memory as_root clean transparent).0 ≡ serves v)
    × IsReady toy literal in_memory itself as_root ports
        (codes ":8080")
        (codes ":8081")
        transparent
        our_ca
        v
unfolding has new_manager
start-IsReady_example =
    start-IsReady toy literal in_memory itself as_root ports (codes ":8080") (codes ":8081") clean
      transparent_args transparent our_ca toy-IsX509 toy-IsKeyPair in_memory-IsIptables
      in_memory-IsAllowed (refl, (refl, (refl, tt))) transparent_parsed
      (load-create toy morning morning our_ca (codes "CA", codes "K") smooth toy-IsX509
        toy-IsKeyPair generated encoded (refl, refl, refl)).0
      refl on_8080 on_8081

-- The short names with one dash and their value in the next argument, the others otherwise.
abbrev mixed : Text → Style
mixed name = record { two_dashes = ltb 4 (length name); apart = leb (length name) 6 }

abbrev chosen : Given
chosen = record {
  config = record default_config {
    port = pos 9090;
    buffer_size = negsuc 0;
    verbose = true;
    ca_dir = codes "-=-";
    capture_include = codes "a=b";
  };
  log_format = codes "json";
}

parse_flags-command_line_example :
    parse_flags (command_line mixed chosen)
    ≡ some (record chosen {
      config = record chosen.config {
        log_level = default_config.log_level;
        log_format = default_config.log_format;
      };
    })
unfolding default_config
parse_flags-command_line_example = parse_flags-command_line mixed chosen (record {
  port = omega arith;
  api_port = omega arith;
  buffer_size = omega arith;
  request_body_limit = omega arith;
  response_body_limit = omega arith;
})
