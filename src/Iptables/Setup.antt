-- ===== src/Iptables/Setup.antt =====
-- internal/iptables/iptables.go: which rules Setup leaves in the table.
use goper.Base.{
  Bool, true, false, List, [], ◌∷◌, ◌++◌, ◌≡◌, ◌≢◌, refl, sym, ap, ◌∙◌, arith, if◌then◌else◌, All,
  Bool-cases, inl, inr, subst,
}
use mathlib.Core.List.{append_assoc, append-nil}
use goper.Base.Text.{Text, codes}
use goper.Iptables.{
  Rule, Outcome, done, not_run, exited, existence, is_done, is_exec_failure, command_args,
  rule_exists, add_rule, ensure_after, ensure_rule, setup,
}
use goper.Iptables.Table.{key_of, has, has-append, has_self, IsIptables, IsAllowed}

-- The rules of a list that a table lacks, in order, each once.
unfoldable pub missing : List (List Text) → List Rule → List (List Text)
missing table [] = []
missing table (r ∷ rs) =
    let rest = missing (table ++ key_of r ∷ []) rs in
    if has (key_of r) table then missing table rs else key_of r ∷ rest

missing-has :
    (table : List (List Text)) (k : List Text) (rs : List Rule)
    → has k table ≡ true
    → has k (table ++ missing table rs) ≡ true
missing-has table k rs h = rw (has-append k table (missing table rs), h)

pub missing_present :
    (table : List (List Text)) (r : Rule) (rs : List Rule)
    → has (key_of r) table ≡ true
    → missing table (r ∷ rs) ≡ missing table rs
unfolding missing
missing_present table r rs h = rw h refl

pub missing_absent :
    (table : List (List Text)) (r : Rule) (rs : List Rule)
    → has (key_of r) table ≡ false
    → missing table (r ∷ rs) ≡ key_of r ∷ missing (table ++ key_of r ∷ []) rs
unfolding missing
missing_absent table r rs h = rw h refl

missing-All :
    (table : List (List Text)) (rs : List Rule)
    → All (λ (r : Rule). has (key_of r) (table ++ missing table rs) ≡ true) rs
missing-All table [] = tt
missing-All table (r ∷ rs) = elim (Bool-cases (has (key_of r) table)) [
  | inl h ↦
      subst (λ m. All (λ (q : Rule). has (key_of q) (table ++ m) ≡ true) (r ∷ rs))
        (sym (missing_present table r rs h))
        (missing-has table (key_of r) rs h, missing-All table rs)
  | inr h ↦
      subst (λ m. All (λ (q : Rule). has (key_of q) (table ++ m) ≡ true) (r ∷ rs))
        (sym (missing_absent table r rs h))
        (
          rw (has-append (key_of r) table (key_of r ∷ missing (table ++ key_of r ∷ []) rs), h)
              (has_self (key_of r) _),
          subst (λ l. All (λ (q : Rule). has (key_of q) l ≡ true) rs)
              (append_assoc table (key_of r ∷ []) (missing (table ++ key_of r ∷ []) rs))
              (missing-All (table ++ key_of r ∷ []) rs),
        )
]

-- The table after one rule was made sure of, or after that failed.
abbrev pub Ensured : List (List Text) → Rule → Bool → List (List Text) → Type 0
Ensured table r true after =
    after ≡ (if has (key_of r) table then table else table ++ key_of r ∷ [])
Ensured table r false after = after ≡ table

missing_on :
    (table after : List (List Text)) (r : Rule) (rs : List Rule)
    → Ensured table r true after
    → after ++ missing after rs ≡ table ++ missing table (r ∷ rs)
missing_on table after r rs h = rw h (elim (Bool-cases (has (key_of r) table)) [
  | inl k ↦ rw (k, missing_present table r rs k) refl
  | inr k ↦
      rw (k, missing_absent table r rs k)
        (append_assoc table (key_of r ∷ []) (missing (table ++ key_of r ∷ []) rs))
])

module _ {S : Type 0} (run : S → List Text → Outcome × S) (rules : S → List (List Text))
    (ipt : IsIptables run rules) where
  add_rule-Ensured :
      (s : S) (r : Rule) (table : List (List Text)) (o : Outcome)
      → rules s ≡ table
      → has (key_of r) table ≡ false
      → (run s (command_args (codes "-A") r)).0 ≡ o
      → Ensured table r (add_rule run s r).0 (rules (add_rule run s r).1)
  unfolding add_rule is_done
  add_rule-Ensured s r table done t h e =
      rw (e, h) (ipt.append_done s r e ∙ ap (λ l. l ++ key_of r ∷ []) t)
  add_rule-Ensured s r table not_run t h e =
      rw e (ipt.append_failed s r (λ d. not_run_ne (sym e ∙ d)) ∙ t)
    where
      not_run_ne : not_run ≢ done
      not_run_ne = ground arith
  add_rule-Ensured s r table exited t h e =
      rw e (ipt.append_failed s r (λ d. exited_ne (sym e ∙ d)) ∙ t)
    where
      exited_ne : exited ≢ done
      exited_ne = ground arith

  pub ensure_after-Ensured :
      (s : S) (r : Rule) (o : Outcome)
      → (run s (command_args (codes "-C") r)).0 ≡ o
      → Ensured (rules s) r (ensure_rule run s r).0 (rules (ensure_rule run s r).1)
  unfolding ensure_rule rule_exists ensure_after existence is_exec_failure
  ensure_after-Ensured s r done e = rw (e, ipt.check_found s r e) (ipt.check_same s r)
  ensure_after-Ensured s r not_run e = rw e (ipt.check_same s r)
  ensure_after-Ensured s r exited e = rw e (
      add_rule-Ensured (run s (command_args (codes "-C") r)).1 r (rules s) _ (ipt.check_same s r)
        (ipt.check_absent s r e) refl)

  pub setup_on :
      (s : S) (r : Rule) (rs : List Rule)
      → (ensure_rule run s r).0 ≡ true
      → setup run s (r ∷ rs) ≡ setup run (ensure_rule run s r).1 rs
  unfolding setup
  setup_on s r rs e = rw (e, setup) refl

  setup_ends :
      (s : S) (r : Rule) (rs : List Rule)
      → (ensure_rule run s r).0 ≡ false
      → (setup run s (r ∷ rs)).0 ≡ false
  unfolding setup
  setup_ends s r rs e = rw (e, setup) refl

  setup-missing :
      (s : S) (rs : List Rule)
      → (setup run s rs).0 ≡ true
      → rules (setup run s rs).1 ≡ rules s ++ missing (rules s) rs
  setup-missing s [] h = unfold setup missing in sym (append-nil (rules s))
  setup-missing s (r ∷ rs) h = elim (Bool-cases (ensure_rule run s r).0) [
    | inl e ↦
        ap (λ (x : Bool × S). rules x.1) (setup_on s r rs e)
        ∙ setup-missing (ensure_rule run s r).1 rs
            (sym (ap (λ (x : Bool × S). x.0) (setup_on s r rs e)) ∙ h)
        ∙ missing_on (rules s) (rules (ensure_rule run s r).1) r rs (
            subst (λ b. Ensured (rules s) r b (rules (ensure_rule run s r).1)) e
              (ensure_after-Ensured s r _ refl))
    | inr e ↦ cc (setup_ends s r rs e, h)
  ]

  -- When Setup reports no error, the table holds the rules that it held and behind them the
  -- missing ones, in the order of the list; so every rule of the list is in it.
  pub setup_lem :
      (s : S) (rs : List Rule)
      → (setup run s rs).0 ≡ true
      → (rules (setup run s rs).1 ≡ rules s ++ missing (rules s) rs)
        × All (λ (r : Rule). has (key_of r) (rules (setup run s rs).1) ≡ true) rs
  setup_lem s rs h = (
    setup-missing s rs h,
    subst (λ t. All (λ (r : Rule). has (key_of r) t ≡ true) rs) (sym (setup-missing s rs h))
        (missing-All (rules s) rs),
  )

  ensure-allowed :
      (s : S) (r : Rule) (o : Outcome)
      → IsAllowed run rules
      → (run s (command_args (codes "-C") r)).0 ≡ o
      → (ensure_rule run s r).0 ≡ true
  unfolding ensure_rule rule_exists ensure_after existence is_exec_failure add_rule is_done
  ensure-allowed s r done a e = rw e refl
  ensure-allowed s r not_run a e = absurd (a.checks s r e)
  ensure-allowed s r exited a e = rw (e, a.appends (run s (command_args (codes "-C") r)).1 r) refl

  -- A process that may run the commands succeeds.
  pub setup-allowed : (s : S) (rs : List Rule) → IsAllowed run rules → (setup run s rs).0 ≡ true
  setup-allowed s [] a = unfold setup in refl
  setup-allowed s (r ∷ rs) a =
      ap (λ (x : Bool × S). x.0) (setup_on s r rs (ensure-allowed s r _ a refl))
      ∙ setup-allowed (ensure_rule run s r).1 rs a
