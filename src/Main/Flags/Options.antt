-- ===== src/Main/Flags/Options.antt =====
-- cmd/goper/main.go, parseConfig: one option, as it is written.
use goper.Base.{
  ℕ, Bool, true, false, not, ◌&&◌, List, [], ◌∷◌, ◌++◌, Option, none, some, ◌==◌, ◌≡◌, refl, ap,
  ◌∙◌, arith, if◌then◌else◌, Bool-cases, inl, inr, if_true, if_false,
}
use goper.Base.Text.{Text}
use goper.Main.Flags.{
  Given, Flag, flag_set, find_flag, named, split_value, behind_dashes, read_argument, take_flag,
  parse_loop,
}

-- How an option is written: with one dash or two, and with its value behind `=` or as the next
-- argument. A Boolean's value stands behind `=` always.
pub record Style : Type 0 where
  pub two_dashes : Bool
  pub apart : Bool

abbrev dashed : Style → Text → Text
dashed style name = if style.two_dashes then b'-' ∷ b'-' ∷ name else b'-' ∷ name

unfoldable pub write_option : Style → Bool → Text → Text → List Text → List Text
write_option style is_bool name value rest =
    if style.apart && not is_bool
    then dashed style name ∷ value ∷ rest
    else dashed style (name ++ b'=' ∷ value) ∷ rest

unfoldable pub has_no_equals : Text → Bool
has_no_equals [] = true
has_no_equals (c ∷ cs) = not (c == b'=') && has_no_equals cs

unfoldable pub is_name : Text → Bool
is_name [] = false
is_name (c ∷ cs) = not (c == b'-') && not (c == b'=') && has_no_equals cs

split_value-inline :
    (name value : Text)
    → has_no_equals name ≡ true
    → split_value (name ++ b'=' ∷ value) ≡ (name, some value)
unfolding split_value has_no_equals
split_value-inline [] value h = refl
split_value-inline (c ∷ cs) value h = ground (arith, h, split_value-inline cs value)

split_value-bare : (name : Text) → has_no_equals name ≡ true → split_value name ≡ (name, none)
unfolding split_value has_no_equals
split_value-bare [] h = refl
split_value-bare (c ∷ cs) h = ground (arith, h, split_value-bare cs)

read_argument-dashed :
    (style : Style) (c : ℕ) (cs : Text)
    → (c == b'-') ≡ false
    → read_argument (dashed style (c ∷ cs)) ≡ behind_dashes (c ∷ cs)
unfolding read_argument
read_argument-dashed style c cs h = elim (Bool-cases style.two_dashes) [
  | inl two ↦ rw two refl
  | inr one ↦ rw (one, h) refl
]

behind_dashes-name :
    (c : ℕ) (cs rest : Text) (value : Option Text)
    → is_name (c ∷ cs) ≡ true
    → split_value rest ≡ (cs, value)
    → behind_dashes (c ∷ rest) ≡ named (c ∷ cs) value
unfolding behind_dashes is_name
behind_dashes-name c cs rest value h e = ground (arith, h, e)

-- An option with its value behind `=`, and one without.
read_argument-inline :
    (style : Style) (name value : Text)
    → is_name name ≡ true
    → read_argument (dashed style (name ++ b'=' ∷ value)) ≡ named name (some value)
unfolding is_name
read_argument-inline style [] value h = ground (arith, h)
read_argument-inline style (c ∷ cs) value h =
    read_argument-dashed style c (cs ++ b'=' ∷ value) (ground (arith, h))
    ∙ behind_dashes-name c cs (cs ++ b'=' ∷ value) (some value) h
        (split_value-inline cs value (ground (arith, h)))

read_argument-bare :
    (style : Style) (name : Text)
    → is_name name ≡ true
    → read_argument (dashed style name) ≡ named name none
unfolding is_name
read_argument-bare style [] h = ground (arith, h)
read_argument-bare style (c ∷ cs) h =
    read_argument-dashed style c cs (ground (arith, h))
    ∙ behind_dashes-name c cs cs none h (split_value-bare cs (ground (arith, h)))

-- An option that is written is read as it was: its value is set.
pub parse_loop-option :
    (style : Style) (name value : Text) (f : Flag) (g g' : Given) (rest : List Text)
    → is_name name ≡ true
    → find_flag name flag_set ≡ some f
    → f.set value g ≡ some g'
    → parse_loop (write_option style f.is_bool name value rest) none g ≡ parse_loop rest none g'
unfolding parse_loop write_option take_flag
parse_loop-option style name value f g g' rest n e h =
    elim (Bool-cases (style.apart && not f.is_bool)) [
      | inl apart ↦
          let b : f.is_bool ≡ false = ground (arith, apart) in
          ap (λ args. parse_loop args none g) (if_true _ _ _ apart)
          ∙ rw (parse_loop, read_argument-bare style name n, e, b, h) refl
      | inr inline ↦
          ap (λ args. parse_loop args none g) (if_false _ _ _ inline)
          ∙ rw (parse_loop, read_argument-inline style name value n, e, h) refl
    ]
