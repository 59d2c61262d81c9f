-- ===== src/Main/Flags.antt =====
-- cmd/goper/main.go, parseConfig: the flags of the command line, with what it uses of the package
-- flag: a FlagSet that stops at an error. An error is `none`; a request for help is one.
pub mod Options
pub mod Written
use goper.Base.{ℕ, Bool, true, false, ◌||◌, List, [], ◌∷◌, Option, none, some, ◌==◌, if◌then◌else◌}
use goper.Base.Chain.{◌>>=◌}
use goper.Base.Int.{ℤ}
use goper.Base.Text.{Text, codes, text_eq}
use goper.Main.{Config, default_config, parse_config}
use goper.Main.Numbers.{parse_int}

-- What the flags set: the Config, and the format of the log.
pub record Given : Type 0 where
  pub config : Config
  pub log_format : Text

-- A `flag.Flag` by its value: whether it is a Boolean, and `Set`.
pub record Flag : Type 0 where
  pub is_bool : Bool
  pub set : Text → Given → Option Given

abbrev one_of : List Text → Text → Bool
one_of [] t = false
one_of (s ∷ ss) t = text_eq s t || one_of ss t

abbrev true_texts : List Text
true_texts = codes "1" ∷ codes "t" ∷ codes "T" ∷ codes "true" ∷ codes "TRUE" ∷ codes "True" ∷ []

abbrev false_texts : List Text
false_texts = codes "0" ∷ codes "f" ∷ codes "F" ∷ codes "false" ∷ codes "FALSE" ∷ codes "False" ∷ []

-- `strconv.ParseBool`
unfoldable pub parse_bool : Text → Option Bool
parse_bool t =
    if one_of true_texts t then some true else if one_of false_texts t then some false else none

-- `IntVar` and `Int64Var`, `StringVar` and `BoolVar`.
abbrev pub int_var : (ℤ → Config → Config) → Flag
int_var put = record {
  is_bool = false;
  set = λ t g. (parse_int t >>= λ z. some (record g { config = put z g.config }));
}

abbrev pub string_var : (Text → Config → Config) → Flag
string_var put = record {
  is_bool = false;
  set = λ t g. some (record g { config = put t g.config });
}

abbrev pub bool_var : (Bool → Config → Config) → Flag
bool_var put = record {
  is_bool = true;
  set = λ t g. (parse_bool t >>= λ b. some (record g { config = put b g.config }));
}

abbrev pub log_format_var : Flag
log_format_var = record { is_bool = false; set = λ t g. some (record g { log_format = t }) }

-- The flags that parseConfig defines.
unfoldable pub flag_set : List (Text × Flag)
flag_set =
    (codes "port", int_var (λ z c. record c { port = z }))
    ∷ (codes "api-port", int_var (λ z c. record c { api_port = z }))
    ∷ (codes "ca-dir", string_var (λ t c. record c { ca_dir = t }))
    ∷ (codes "transparent", bool_var (λ b c. record c { transparent = b }))
    ∷ (codes "verbose", bool_var (λ b c. record c { verbose = b }))
    ∷ (codes "buffer", int_var (λ z c. record c { buffer_size = z }))
    ∷ (codes "log-format", log_format_var)
    ∷ (codes "output-dir", string_var (λ t c. record c { output_dir = t }))
    ∷ (codes "output-format", string_var (λ t c. record c { output_format = t }))
    ∷ (codes "no-capture", bool_var (λ b c. record c { no_capture = b }))
    ∷ (codes "request-body-limit", int_var (λ z c. record c { request_body_limit = z }))
    ∷ (codes "response-body-limit", int_var (λ z c. record c { response_body_limit = z }))
    ∷ (codes "capture-include", string_var (λ t c. record c { capture_include = t }))
    ∷ (codes "capture-exclude", string_var (λ t c. record c { capture_exclude = t }))
    ∷ []

unfoldable pub find_flag : Text → List (Text × Flag) → Option Flag
find_flag name [] = none
find_flag name ((n, f) ∷ fs) = if text_eq n name then some f else find_flag name fs

-- An argument: the first that is no flag, bad syntax, or a flag with the value behind `=`.
pub data Argument : Type 0 where
  no_flag bad_syntax : Argument
  named : Text → Option Text → Argument

-- The name up to the first `=`, and what is behind it.
unfoldable pub split_value : Text → Text × Option Text
split_value [] = ([], none)
split_value (c ∷ cs) =
    let (name, value) = split_value cs in if c == b'=' then ([], some cs) else (c ∷ name, value)

-- What is behind the dashes.
unfoldable pub behind_dashes : Text → Argument
behind_dashes [] = bad_syntax
behind_dashes (c ∷ cs) =
    let (name, value) = split_value cs in
    if (c == b'-') || (c == b'=') then bad_syntax else named (c ∷ name) value

unfoldable pub read_argument : Text → Argument
unfolding behind_dashes split_value
read_argument [] = no_flag
read_argument (d ∷ []) = no_flag
read_argument (d ∷ c ∷ cs) =
    if d == b'-' then (if c == b'-' then after_two cs else behind_dashes (c ∷ cs)) else no_flag
  where
    -- `--` alone ends the flags.
    after_two : Text → Argument
    after_two [] = no_flag
    after_two (c ∷ cs) = behind_dashes (c ∷ cs)

-- How the flag of an argument goes on: its value is set, it waits for the next argument, or it is an
-- error.
pub data Turn : Type 0 where
  set_to : Option Given → Turn
  waits : Flag → Turn

unfoldable pub take_flag : Given → Option Flag → Option Text → Turn
take_flag g none value = set_to none
take_flag g (some f) (some v) = set_to (f.set v g)
take_flag g (some f) none = if f.is_bool then set_to (f.set (codes "true") g) else waits f

-- `FlagSet.Parse`; a flag that waits takes the next argument as its value, whatever it is. The
-- arguments behind the flags are not looked at.
unfoldable pub parse_loop : List Text → Option Flag → Given → Option Given
parse_loop [] none g = some g
parse_loop [] (some f) g = none
parse_loop (a ∷ args) (some f) g = f.set a g >>= λ g'. parse_loop args none g'
parse_loop (a ∷ args) none g = elim (read_argument a) [
  | no_flag ↦ some g
  | bad_syntax ↦ none
  | named name value ↦ (elim (take_flag g (find_flag name flag_set) value) [
    | set_to o ↦ o >>= λ g'. parse_loop args none g'
    | waits f ↦ parse_loop args (some f) g
  ])
]

abbrev pub defaults : Given
defaults = record { config = default_config; log_format = codes "text" }

unfoldable pub parse_flags : List Text → Option Given
unfolding parse_loop
parse_flags args = parse_loop args none defaults

-- The settings of a command line, `none` for an error.
unfoldable pub parse_args : (Text → Bool) → Option Text → List Text → Option Config
unfolding parse_flags
parse_args compiles home args =
    parse_flags args >>= λ g. parse_config compiles home g.config g.log_format
