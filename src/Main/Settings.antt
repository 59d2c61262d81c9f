-- ===== src/Main/Settings.antt =====
-- cmd/goper/main.go: which settings are accepted, and what is then known of them.
use goper.Base.{
  ℕ, Bool, true, false, [], ◌∷◌, ◌++◌, Option, none, some, ◌==◌, ◌≡◌, ◌≢◌, ◌⊎◌, inl, inr, refl, sym,
  ap, ◌∙◌, arith, Bool-cases, All,
}
use goper.Base.Text.{Text, codes, text_eq, text_eq_iff}
use goper.Main.{
  Config, valid_output_format, validate_capture_regex, validate_config, apply_derived_settings,
  replace_tilde, expand_home_dir, parse_config,
}
use goper.Proxy.Handlers.{Server, compile_capture_regex, set_regexes, configure_capture_regexes}

abbrev is_some {ℓ} : {A : Type ℓ} → Option A → Bool
is_some none = false
is_some (some a) = true

-- Whether `regexp.Compile`, the parameter `compile`, succeeds.
abbrev pub compiles : (Text → Option (Text → Bool)) → Text → Bool
compiles compile pattern = is_some (compile pattern)

is_some-compiled :
    (o : Option (Text → Bool))
    → is_some o ≡ true
    → (re : Option (Text → Bool)) × (◌≡◌ {A = Option (Option (Text → Bool))}
        (elim o [ none ↦ none | some f ↦ some (some f) ])
        (some re))
is_some-compiled none h = ground arith
is_some-compiled (some f) h = (some f, refl)

validated-compile :
    (compile : Text → Option (Text → Bool)) (pattern : Text)
    → validate_capture_regex (compiles compile) pattern ≡ true
    → (re : Option (Text → Bool)) × (compile_capture_regex compile pattern ≡ some re)
unfolding validate_capture_regex compile_capture_regex
validated-compile compile pattern h = elim (Bool-cases (text_eq pattern [])) [
  | inl e ↦ rw e (none, refl)
  | inr e ↦ rw e (is_some-compiled (compile pattern) (ground (arith, h, e)))
]

validate_config-parts :
    (ok : Text → Bool) (cfg : Config)
    → validate_config ok cfg ≡ true
    → (valid_output_format cfg.output_format ≡ true)
      × (validate_capture_regex ok cfg.capture_include ≡ true)
      × (validate_capture_regex ok cfg.capture_exclude ≡ true)
unfolding validate_config
validate_config-parts ok cfg h = (ground (arith, h), ground (arith, h), ground (arith, h))

apply_derived_settings-same :
    (cfg : Config) (log_format : Text)
    → let d = apply_derived_settings cfg log_format in
      (d.output_format ≡ cfg.output_format)
      × (d.capture_include ≡ cfg.capture_include)
      × (d.capture_exclude ≡ cfg.capture_exclude)
unfolding apply_derived_settings
apply_derived_settings-same cfg log_format = (ground arith, ground arith, ground arith)

-- The port and the mode are those of the flags.
pub apply_derived_settings-port :
    (cfg : Config) (log_format : Text)
    → let d = apply_derived_settings cfg log_format in
      (d.port ≡ cfg.port) × (d.transparent ≡ cfg.transparent)
unfolding apply_derived_settings
apply_derived_settings-port cfg log_format = (ground arith, ground arith)

parse_config-valid :
    (ok : Text → Bool) (home : Option Text) (cfg cfg' : Config) (log_format : Text)
    → parse_config ok home cfg log_format ≡ some cfg'
    → validate_config ok cfg ≡ true
unfolding parse_config
parse_config-valid ok home cfg cfg' log_format h = ground (arith, h)

abbrev pub settled : Option Text → Config → Text → Config
settled home cfg log_format =
    let derived = apply_derived_settings cfg log_format in
    record derived { ca_dir = expand_home_dir home derived.ca_dir }

abbrev config_or : Config → Option Config → Config
config_or default none = default
config_or default (some cfg) = cfg

pub parse_config-settled :
    (ok : Text → Bool) (home : Option Text) (cfg cfg' : Config) (log_format : Text)
    → parse_config ok home cfg log_format ≡ some cfg'
    → cfg' ≡ settled home cfg log_format
unfolding parse_config
parse_config-settled ok home cfg cfg' log_format h =
    ap (config_or cfg) (sym h) ∙ rw (parse_config-valid ok home cfg cfg' log_format h) refl

format_of : (f : Text) → valid_output_format f ≡ true → (f ≡ codes "json") ⊎ (f ≡ codes "ndjson")
unfolding valid_output_format
format_of f v = elim (Bool-cases (text_eq f (codes "json"))) [
  | inl e ↦ inl ((text_eq_iff f (codes "json")).0 e)
  | inr e ↦ inr ((text_eq_iff f (codes "ndjson")).0 (ground (arith, v, e)))
]

-- When the settings are accepted, the output format is json or ndjson, and the proxy server can
-- compile the capture filters of those settings: configuring it with them does not fail.
pub parse_config_lem :
    (compile : Text → Option (Text → Bool)) (home : Option Text) (cfg cfg' : Config)
    (log_format : Text) (s : Server)
    → parse_config (compiles compile) home cfg log_format ≡ some cfg'
    → ((cfg'.output_format ≡ codes "json") ⊎ (cfg'.output_format ≡ codes "ndjson"))
      × (configure_capture_regexes compile s cfg'.capture_include cfg'.capture_exclude ≢ none)
unfolding configure_capture_regexes set_regexes
parse_config_lem compile home cfg cfg' log_format s h =
    let valid = parse_config-valid (compiles compile) home cfg cfg' log_format h in
    let (format, include, exclude) = validate_config-parts (compiles compile) cfg valid in
    let same = apply_derived_settings-same cfg log_format in
    let e = parse_config-settled (compiles compile) home cfg cfg' log_format h in
    let (inc, p) = validated-compile compile cfg.capture_include include in
    let (exc, q) = validated-compile compile cfg.capture_exclude exclude in
    (
      format_of cfg'.output_format
          (ap valid_output_format (ap (λ (c : Config). c.output_format) e ∙ same.0) ∙ format),
      rw
          (
            ap (λ (c : Config). compile_capture_regex compile c.capture_include) e
                ∙ ap (compile_capture_regex compile) same.1
                ∙ p,
            ap (λ (c : Config). compile_capture_regex compile c.capture_exclude) e
                ∙ ap (compile_capture_regex compile) same.2
                ∙ q,
          )
          (λ n. ground (arith, n)),
    )

-- The first tilde of the CA directory is replaced by the home directory, wherever it stands.
expand_home_dir_lem :
    (home before after : Text)
    → All (λ (c : ℕ). c ≢ b'~') before
    → expand_home_dir (some home) (before ++ b'~' ∷ after) ≡ before ++ home ++ after
unfolding expand_home_dir replace_tilde
expand_home_dir_lem home [] after h = ground arith
expand_home_dir_lem home (c ∷ before) after h =
    let other : (c == b'~') ≡ false = ground (arith, h.0) in
    rw other (ap (◌∷◌ c) (expand_home_dir_lem home before after h.1))
