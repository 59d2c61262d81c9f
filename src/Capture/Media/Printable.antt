-- ===== src/Capture/Media/Printable.antt =====
-- internal/capture/capture.go: `isPrintable` walks runes, and looks at the bytes only.
use goper.Base.{
  ◌*◌, ℕ, zero, suc, ◌+◌, ◌-◌, ◌≤◌, ◌≡◌, refl, sym, ap, ◌∙◌, inl, inr, arith, Bool, true, false,
  ◌&&◌, List, [], ◌∷◌, ltb, if◌then◌else◌, length, Bool-cases, ◌⊎◌, ◌↔◌, ◌==◌, leb, All,
}
use goper.Base.Text.{Text}
use goper.Base.Utf8.{
  runes_on, decode_rune, decode_two, decode_three, decode_four, within, is_second, is_next,
}
use goper.Capture.Media.{is_printable_char, all_printable, is_printable}

-- A rune that does not stand for its own byte is printable, and so is each byte that it takes.
abbrev IsWide : Text → ℕ × Text → Type 0
IsWide s (r, rest) =
    (is_printable_char r ≡ true) × (all_printable rest ≡ all_printable s) × (length rest ≤ length s)

-- A byte from 0x80 on is printable.
high_printable : (b : ℕ) (s : Text) → 0x80 ≤ b → all_printable (b ∷ s) ≡ all_printable s
unfolding all_printable
high_printable b s h = ground arith

and_left : (a b : Bool) → (a && b) ≡ true → a ≡ true
and_left a b h = ground arith

and_right : (a b : Bool) → (a && b) ≡ true → b ≡ true
and_right a b h = ground arith

decode_two-IsWide : (b : ℕ) (s : Text) → 0xC2 ≤ b → IsWide s (decode_two b s)
unfolding decode_two
decode_two-IsWide b [] h = ground arith
decode_two-IsWide b (c ∷ s) h = elim (Bool-cases (within 0x80 0xBF c)) [
  | inl e ↦ rw e (ground arith, sym (high_printable c s (ground arith)), omega arith)
  | inr e ↦ rw e (ground arith, refl, omega arith)
]

-- The range of the second byte rules out encodings of small runes.
second_high : (b c : ℕ) → is_second b c ≡ true → 0x80 ≤ c
second_high b c h = ground arith

next_high : (c : ℕ) → is_next c ≡ true → 0x80 ≤ c
next_high c h = ground arith

three_large : (b c : ℕ) → 0xE0 ≤ b → is_second b c ≡ true → 32 ≤ (b - 0xE0) * 64 + (c - 0x80)
three_large b c p h = ground arith

four_large : (b c : ℕ) → 0xF0 ≤ b → is_second b c ≡ true → 16 ≤ (b - 0xF0) * 64 + (c - 0x80)
four_large b c p h = ground arith

decode_three-IsWide : (b : ℕ) (s : Text) → 0xE0 ≤ b → IsWide s (decode_three b s)
unfolding decode_three
decode_three-IsWide b [] p = ground arith
decode_three-IsWide b (c ∷ []) p = ground arith
decode_three-IsWide b (c ∷ d ∷ s) p = elim (Bool-cases (is_second b c && is_next d)) [
  | inr e ↦ rw e (ground arith, refl, omega arith)
  | inl e ↦ rw e (
    ground (arith, three_large b c p (and_left _ _ e)),
    sym (
        high_printable c (d ∷ s) (second_high b c (and_left _ _ e))
        ∙ high_printable d s (next_high d (and_right (is_second b c) _ e))),
    omega arith,
  )
]

decode_four-IsWide : (b : ℕ) (s : Text) → 0xF0 ≤ b → IsWide s (decode_four b s)
unfolding decode_four
decode_four-IsWide b [] p = ground arith
decode_four-IsWide b (c ∷ []) p = ground arith
decode_four-IsWide b (c ∷ d ∷ []) p = ground arith
decode_four-IsWide b (c ∷ d ∷ e ∷ s) p =
    elim (Bool-cases (is_second b c && is_next d && is_next e)) [
      | inr f ↦ rw f (ground arith, refl, omega arith)
      | inl f ↦
          let f' = and_left (is_second b c && is_next d) _ f in
          rw f (
            ground (arith, four_large b c p (and_left _ _ f')),
            sym (
                high_printable c (d ∷ e ∷ s) (second_high b c (and_left _ _ f'))
                ∙ high_printable d (e ∷ s) (next_high d (and_right (is_second b c) _ f'))
                ∙ high_printable e s (next_high e (and_right (is_second b c && is_next d) _ f))),
            omega arith,
          )
    ]

decode_rune-IsWide : (b : ℕ) (s : Text) → 0x80 ≤ b → IsWide s (decode_rune b s)
unfolding decode_rune
decode_rune-IsWide b s h =
    let big : ltb b 0x80 ≡ false = ground arith in
    rw big (elim (Bool-cases (within 0xC2 0xDF b)) [
      | inl two ↦ rw two (decode_two-IsWide b s (ground arith))
      | inr not_two ↦ rw not_two (elim (Bool-cases (within 0xE0 0xEF b)) [
        | inl three ↦ rw three (decode_three-IsWide b s (ground arith))
        | inr not_three ↦ rw not_three (elim (Bool-cases (within 0xF0 0xF4 b)) [
          | inl four ↦ rw four (decode_four-IsWide b s (ground arith))
          | inr not_four ↦ rw not_four (ground arith, refl, omega arith)
        ])
      ])
    ])

-- Reading one rune agrees with reading its first byte alone.
decode-byte :
    (b : ℕ) (s : Text)
    → (all_printable ((decode_rune b s).0 ∷ (decode_rune b s).1) ≡ all_printable (b ∷ s))
      × (length (decode_rune b s).1 ≤ length s)
decode-byte b s = elim (Bool-cases (ltb b 0x80)) [
  | inl low ↦
      let e : decode_rune b s ≡ (b, s) = unfold decode_rune in (rw low) in rw e (refl, omega arith)
  | inr high ↦
      let (wide, same, short) = decode_rune-IsWide b s (ground arith) in
      (unfold all_printable in (rw wide same) ∙ sym (high_printable b s (ground arith)), short)
]

all_printable_tail :
    (r : ℕ) (xs ys : List ℕ)
    → all_printable xs ≡ all_printable ys
    → all_printable (r ∷ xs) ≡ all_printable (r ∷ ys)
unfolding all_printable
all_printable_tail r xs ys e = ap (λ k. if is_printable_char r then k else false) e

runes_on-bytes :
    (fuel : ℕ) (s : Text) → length s ≤ fuel → all_printable (runes_on fuel s) ≡ all_printable s
unfolding runes_on
runes_on-bytes fuel [] h = refl
runes_on-bytes zero (b ∷ s) h = absurd (omega arith)
runes_on-bytes (suc fuel) (b ∷ s) h =
    let (same, short) = decode-byte b s in
    all_printable_tail (decode_rune b s).0 _ _
      (runes_on-bytes fuel (decode_rune b s).1 (omega arith))
    ∙ same

is_printable-bytes : (s : Text) → is_printable s ≡ all_printable s
unfolding is_printable
is_printable-bytes s = runes_on-bytes (length s) s (omega arith)

-- A byte of printable text, counted out: from the space on, or a tab, a newline or a carriage return.
abbrev pub IsPlain : ℕ → Type 0
IsPlain b = (32 ≤ b) ⊎ (b ≡ 9) ⊎ (b ≡ 10) ⊎ (b ≡ 13)

IsPlain-is_printable_char : (b : ℕ) → IsPlain b → is_printable_char b ≡ true
IsPlain-is_printable_char b (inl h) = ground arith
IsPlain-is_printable_char b (inr (inl h)) = rw h refl
IsPlain-is_printable_char b (inr (inr (inl h))) = rw h refl
IsPlain-is_printable_char b (inr (inr (inr h))) = rw h refl

is_printable_char-IsPlain : (b : ℕ) → is_printable_char b ≡ true → IsPlain b
is_printable_char-IsPlain b h = elim (Bool-cases (leb 32 b)) [
  | inl big ↦ inl (ground arith)
  | inr small ↦ inr (elim (Bool-cases (b == 9)) [
    | inl tab ↦ inl (ground arith)
    | inr not_tab ↦ inr (elim (Bool-cases (b == 10)) [
      | inl newline ↦ inl (ground arith)
      | inr not_newline ↦ inr (ground arith)
    ])
  ])
]

all_printable-IsPlain :
    (s : Text) → (all_printable s ≡ true → All IsPlain s) × (All IsPlain s → all_printable s ≡ true)
unfolding all_printable
all_printable-IsPlain [] = (λ h. tt, λ h. refl)
all_printable-IsPlain (b ∷ s) = elim (Bool-cases (is_printable_char b)) [
  | inl e ↦
      let (there, back) = all_printable-IsPlain s in
      rw e (λ h. (is_printable_char-IsPlain b e, there h), λ h. back h.1)
  | inr e ↦ rw e (
    λ h. absurd (ground (arith, h)),
    λ h. absurd (ground (arith, e, IsPlain-is_printable_char b h.0)),
  )
]

-- A body is printable exactly when each of its bytes is 32 or more, a tab, a newline or a carriage
-- return, though Go decodes it into runes: no encoding of more bytes, valid or not, changes it.
pub is_printable_lem : (s : Text) → (is_printable s ≡ true) ↔ All IsPlain s
is_printable_lem s =
    let (there, back) = all_printable-IsPlain s in
    let same = is_printable-bytes s in (λ h. there (sym same ∙ h), λ h. same ∙ back h)
