-- ===== src/Main/Flags/Written.antt =====
-- cmd/goper/main.go, parseConfig: a command line that writes all the settings.
use goper.Base.{Bool, true, false, List, [], ◌∷◌, none, some, ◌≡◌, refl, ◌∙◌, All}
use goper.Base.Int.{ℤ}
use goper.Base.Text.{Text, codes, text_eq}
use goper.Capture.Entry.{decimal}
use goper.Main.{Config, default_config}
use goper.Main.Numbers.Decimal.{IsInt64, parse_int-decimal}
use goper.Main.Flags.Options.{Style, write_option, is_name, has_no_equals, parse_loop-option}
use goper.Main.Flags.{
  Given, Flag, int_var, string_var, bool_var, flag_set, find_flag, parse_loop, parse_bool,
  log_format_var, parse_flags, defaults,
}

-- An option with its value, and what it sets.
pub record Setting : Type 0 where
  pub name : Text
  pub flag : Flag
  pub text : Text
  pub put : Given → Given

abbrev int_setting : Text → (ℤ → Config → Config) → ℤ → Setting
int_setting name put z = record {
  name = name;
  flag = int_var put;
  text = decimal z;
  put = λ g. record g { config = put z g.config };
}

abbrev string_setting : Text → (Text → Config → Config) → Text → Setting
string_setting name put t = record {
  name = name;
  flag = string_var put;
  text = t;
  put = λ g. record g { config = put t g.config };
}

abbrev bool_text : Bool → Text
bool_text true = codes "true"
bool_text false = codes "false"

abbrev bool_setting : Text → (Bool → Config → Config) → Bool → Setting
bool_setting name put b = record {
  name = name;
  flag = bool_var put;
  text = bool_text b;
  put = λ g. record g { config = put b g.config };
}

abbrev IsSetting : Setting → Type 0
IsSetting o =
    (is_name o.name ≡ true)
    × (find_flag o.name flag_set ≡ some o.flag)
    × ((g : Given) → o.flag.set o.text g ≡ some (o.put g))

unfoldable pub write_all : (Text → Style) → List Setting → List Text
write_all style [] = []
write_all style (o ∷ os) =
    write_option (style o.name) o.flag.is_bool o.name o.text (write_all style os)

put_all : List Setting → Given → Given
put_all [] g = g
put_all (o ∷ os) g = put_all os (o.put g)

parse_loop-write_all :
    (style : Text → Style) (os : List Setting) (g : Given)
    → All IsSetting os
    → parse_loop (write_all style os) none g ≡ some (put_all os g)
unfolding write_all put_all parse_loop
parse_loop-write_all style [] g h = refl
parse_loop-write_all style (o ∷ os) g ((n, e, s), h) =
    parse_loop-option (style o.name) o.name o.text o.flag g (o.put g) (write_all style os) n e (s g)
    ∙ parse_loop-write_all style os (o.put g) h

bool_setting-sets :
    (put : Bool → Config → Config) (b : Bool) (g : Given)
    → (bool_var put).set (bool_text b) g ≡ some (record g { config = put b g.config })
unfolding parse_bool text_eq
bool_setting-sets put true g = refl
bool_setting-sets put false g = refl

abbrev settings : Given → List Setting
settings g =
    int_setting (codes "port") (λ z c. record c { port = z }) g.config.port
    ∷ int_setting (codes "api-port") (λ z c. record c { api_port = z }) g.config.api_port
    ∷ string_setting (codes "ca-dir") (λ t c. record c { ca_dir = t }) g.config.ca_dir
    ∷ bool_setting (codes "transparent") (λ b c. record c { transparent = b }) g.config.transparent
    ∷ bool_setting (codes "verbose") (λ b c. record c { verbose = b }) g.config.verbose
    ∷ int_setting (codes "buffer") (λ z c. record c { buffer_size = z }) g.config.buffer_size
    ∷ record {
      name = codes "log-format";
      flag = log_format_var;
      text = g.log_format;
      put = λ g'. record g' { log_format = g.log_format };
    }
    ∷ string_setting (codes "output-dir") (λ t c. record c { output_dir = t }) g.config.output_dir
    ∷ string_setting (codes "output-format") (λ t c. record c { output_format = t })
        g.config.output_format
    ∷ bool_setting (codes "no-capture") (λ b c. record c { no_capture = b }) g.config.no_capture
    ∷ int_setting (codes "request-body-limit") (λ z c. record c { request_body_limit = z })
        g.config.request_body_limit
    ∷ int_setting (codes "response-body-limit") (λ z c. record c { response_body_limit = z })
        g.config.response_body_limit
    ∷ string_setting (codes "capture-include") (λ t c. record c { capture_include = t })
        g.config.capture_include
    ∷ string_setting (codes "capture-exclude") (λ t c. record c { capture_exclude = t })
        g.config.capture_exclude
    ∷ []

-- A command line that writes every option, each in its own style.
unfoldable pub command_line : (Text → Style) → Given → List Text
unfolding write_all write_option
command_line style g = write_all style (settings g)

-- The numbers of the settings are int64.
pub record IsInRange (cfg : Config) : Type 0 where
  pub port : IsInt64 cfg.port
  pub api_port : IsInt64 cfg.api_port
  pub buffer_size : IsInt64 cfg.buffer_size
  pub request_body_limit : IsInt64 cfg.request_body_limit
  pub response_body_limit : IsInt64 cfg.response_body_limit

IsSetting-settings : (g : Given) → IsInRange g.config → All IsSetting (settings g)
unfolding is_name has_no_equals find_flag flag_set text_eq
IsSetting-settings g r = (
  (refl, refl, λ g'. rw (parse_int-decimal g.config.port r.port) refl),
  (
    (refl, refl, λ g'. rw (parse_int-decimal g.config.api_port r.api_port) refl),
    (
      (refl, refl, λ g'. refl),
      (
        (refl, refl, bool_setting-sets _ g.config.transparent),
        (
          (refl, refl, bool_setting-sets _ g.config.verbose),
          (
            (refl, refl, λ g'. rw (parse_int-decimal g.config.buffer_size r.buffer_size) refl),
            (
              (refl, refl, λ g'. refl),
              (
                (refl, refl, λ g'. refl),
                (
                  (refl, refl, λ g'. refl),
                  (
                    (refl, refl, bool_setting-sets _ g.config.no_capture),
                    (
                      (
                        refl,
                        refl,
                        λ g'.
                            rw (parse_int-decimal g.config.request_body_limit r.request_body_limit)
                              refl,
                      ),
                      (
                        (
                          refl,
                          refl,
                          λ g'.
                              rw
                                (parse_int-decimal g.config.response_body_limit
                                  r.response_body_limit)
                                refl,
                        ),
                        ((refl, refl, λ g'. refl), ((refl, refl, λ g'. refl), tt)),
                      ),
                    ),
                  ),
                ),
              ),
            ),
          ),
        ),
      ),
    ),
  ),
)

-- Whatever the settings are, as long as their numbers are int64, a command line that writes each of
-- them, with one dash or two and with its value behind `=` or as the next argument, is read as these
-- settings; the level and the format of the log that no flag sets are the default ones.
pub parse_flags-command_line :
    (style : Text → Style) (g : Given)
    → IsInRange g.config
    → parse_flags (command_line style g)
      ≡ some (record g {
        config = record g.config {
          log_level = default_config.log_level;
          log_format = default_config.log_format;
        };
      })
unfolding parse_flags command_line put_all default_config
parse_flags-command_line style g r =
    parse_loop-write_all style (settings g) defaults (IsSetting-settings g r)
