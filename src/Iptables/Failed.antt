-- ===== src/Iptables/Failed.antt =====
-- internal/iptables/iptables.go: the rules that Setup leaves in the table, whether or not it succeeds.
use goper.Base.{
  Bool, true, false, List, [], ◌∷◌, ◌++◌, ◌≡◌, refl, sym, ap, ◌∙◌, subst, Bool-cases, inl, inr,
  if_true, if_false,
}
use mathlib.Core.List.{append_assoc, append-nil}
use goper.Base.Text.{Text}
use goper.Iptables.{Rule, Outcome, ensure_rule, setup}
use goper.Iptables.Table.{key_of, has, IsIptables}
use goper.Iptables.Setup.{
  missing, missing_present, missing_absent, Ensured, ensure_after-Ensured, setup_on,
}

-- Nothing is left to do where there was no error.
abbrev pub IsWhole : Bool → List (List Text) → Type 0
IsWhole true rest = rest ≡ []
IsWhole false rest = Unit

-- The table after `fine` was reported: a first part of the missing rules was added to it.
pub record Progress (table : List (List Text)) (rs : List Rule) (fine : Bool)
    (after : List (List Text)) : Type 0 where
  pub added : List (List Text)
  pub rest : List (List Text)
  pub parts : missing table rs ≡ added ++ rest
  pub left : after ≡ table ++ added
  pub whole : IsWhole fine rest

-- One rule was made sure of, and then the others as far as that went.
Progress-more :
    (table between after : List (List Text)) (r : Rule) (rs : List Rule) (fine : Bool)
    → Ensured table r true between
    → Progress between rs fine after
    → Progress table (r ∷ rs) fine after
Progress-more table between after r rs fine e p = elim (Bool-cases (has (key_of r) table)) [
  | inl h ↦
      let same = e ∙ if_true (has (key_of r) table) _ _ h in
      record {
        added = p.added;
        rest = p.rest;
        parts = missing_present table r rs h ∙ ap (λ t. missing t rs) (sym same) ∙ p.parts;
        left = p.left ∙ ap (λ t. t ++ p.added) same;
        whole = p.whole;
      }
  | inr h ↦
      let more = e ∙ if_false (has (key_of r) table) _ _ h in
      record {
        added = key_of r ∷ p.added;
        rest = p.rest;
        parts =
            missing_absent table r rs h
            ∙ ap (◌∷◌ (key_of r)) (ap (λ t. missing t rs) (sym more) ∙ p.parts);
        left = p.left ∙ ap (λ t. t ++ p.added) more ∙ append_assoc table (key_of r ∷ []) p.added;
        whole = p.whole;
      }
]

module _ {S : Type 0} (run : S → List Text → Outcome × S) (rules : S → List (List Text))
    (ipt : IsIptables run rules) where
  setup_failed :
      (s : S) (r : Rule) (rs : List Rule)
      → (ensure_rule run s r).0 ≡ false
      → setup run s (r ∷ rs) ≡ (false, (ensure_rule run s r).1)
  unfolding setup
  setup_failed s r rs e = rw (e, setup) refl

  -- Whatever Setup reports, it has added a first part of the missing rules to the table, in order, and
  -- all of them if it reports no error.
  pub setup-Progress :
      (s : S) (rs : List Rule) → Progress (rules s) rs (setup run s rs).0 (rules (setup run s rs).1)
  setup-Progress s [] =
      unfold setup missing in
      record {
        added = [];
        rest = [];
        parts = refl;
        left = sym (append-nil (rules s));
        whole = refl;
      }
  setup-Progress s (r ∷ rs) =
      let ensured = ensure_after-Ensured run rules ipt s r _ refl in
      elim (Bool-cases (ensure_rule run s r).0) [
        | inl e ↦
            let s' = (ensure_rule run s r).1 in
            subst (λ (x : Bool × S). Progress (rules s) (r ∷ rs) x.0 (rules x.1))
              (sym (setup_on run rules ipt s r rs e))
              (Progress-more (rules s) (rules s') _ r rs _
                (subst (λ b. Ensured (rules s) r b (rules s')) e ensured) (setup-Progress s' rs))
        | inr e ↦
            let s' = (ensure_rule run s r).1 in
            let same = subst (λ b. Ensured (rules s) r b (rules s')) e ensured in
            subst (λ (x : Bool × S). Progress (rules s) (r ∷ rs) x.0 (rules x.1))
              (sym (setup_failed s r rs e))
              (record {
                added = [];
                rest = missing (rules s) (r ∷ rs);
                parts = refl;
                left = same ∙ sym (append-nil (rules s));
                whole = tt;
              })
      ]
