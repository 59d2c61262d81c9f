-- ===== src/Iptables/Table.antt =====
-- internal/iptables/iptables.go: a table of rules, and what the runner's iptables does with it.
use goper.Base.{
  Bool, true, false, ◌&&◌, List, [], ◌∷◌, ◌++◌, ◌≡◌, ◌≢◌, ◌↔◌, refl, arith, if◌then◌else◌,
}
use goper.Base.Text.{Text, codes, text_eq, text_eq_iff}
use goper.Iptables.{Rule, Outcome, done, not_run, exited, command_args}

-- A rule as a table lists it: its table, its chain and its words.
abbrev pub key_of : Rule → List Text
key_of r = r.table ∷ r.chain ∷ r.spec

unfoldable pub words_eq : List Text → List Text → Bool
words_eq [] [] = true
words_eq [] (v ∷ vs) = false
words_eq (u ∷ us) [] = false
words_eq (u ∷ us) (v ∷ vs) = text_eq u v && words_eq us vs

pub words_eq_iff : (us vs : List Text) → (words_eq us vs ≡ true) ↔ (us ≡ vs)
unfolding words_eq
words_eq_iff [] [] = ((λ h. refl), (λ h. refl))
words_eq_iff [] (v ∷ vs) = ground arith
words_eq_iff (u ∷ us) [] = ground arith
words_eq_iff (u ∷ us) (v ∷ vs) = ground (arith, text_eq_iff u v, words_eq_iff us vs)

unfoldable pub has : List Text → List (List Text) → Bool
has k [] = false
has k (x ∷ xs) = if words_eq x k then true else has k xs

unfoldable pub without_first : List Text → List (List Text) → List (List Text)
without_first k [] = []
without_first k (x ∷ xs) = if words_eq x k then xs else x ∷ without_first k xs

-- The documented behaviour of iptables: `-C` says whether the rule is in its chain, `-A` appends
-- it and `-D` removes its first occurrence. A command that fails changes nothing. As the code does,
-- a failing `-C` is taken to say that the rule is not there: that iptables may be refused (a lock,
-- the user's rights) is left to the appends and removals, which may fail.
pub record IsIptables {S : Type 0} (run : S → List Text → Outcome × S)
    (rules : S → List (List Text)) : Type 0 where
  pub check_found :
      (s : S) (r : Rule)
      → (run s (command_args (codes "-C") r)).0 ≡ done
      → has (key_of r) (rules s) ≡ true
  pub check_absent :
      (s : S) (r : Rule)
      → (run s (command_args (codes "-C") r)).0 ≡ exited
      → has (key_of r) (rules s) ≡ false
  pub check_same : (s : S) (r : Rule) → rules (run s (command_args (codes "-C") r)).1 ≡ rules s
  pub append_done :
      (s : S) (r : Rule)
      → (run s (command_args (codes "-A") r)).0 ≡ done
      → rules (run s (command_args (codes "-A") r)).1 ≡ rules s ++ key_of r ∷ []
  pub append_failed :
      (s : S) (r : Rule)
      → (run s (command_args (codes "-A") r)).0 ≢ done
      → rules (run s (command_args (codes "-A") r)).1 ≡ rules s
  pub remove_done :
      (s : S) (r : Rule)
      → (run s (command_args (codes "-D") r)).0 ≡ done
      → rules (run s (command_args (codes "-D") r)).1 ≡ without_first (key_of r) (rules s)

-- Commands that the process may run: none fails for another reason than a missing rule.
pub record IsAllowed {S : Type 0} (run : S → List Text → Outcome × S) (rules : S → List (List Text))
    : Type 0 where
  pub checks : (s : S) (r : Rule) → (run s (command_args (codes "-C") r)).0 ≢ not_run
  pub appends : (s : S) (r : Rule) → (run s (command_args (codes "-A") r)).0 ≡ done
  pub removes :
      (s : S) (r : Rule)
      → has (key_of r) (rules s) ≡ true
      → (run s (command_args (codes "-D") r)).0 ≡ done

pub has-append :
    (k : List Text) (xs ys : List (List Text))
    → has k (xs ++ ys) ≡ (if has k xs then true else has k ys)
unfolding has
has-append k [] ys = refl
has-append k (x ∷ xs) ys = ground (arith, has-append k xs ys)

pub has_self : (k : List Text) (xs : List (List Text)) → has k (k ∷ xs) ≡ true
unfolding has
has_self k xs = ground (arith, words_eq_iff k k)

pub without_first-append :
    (k : List Text) (xs ys : List (List Text))
    → has k xs ≡ false
    → without_first k (xs ++ k ∷ ys) ≡ xs ++ ys
unfolding has without_first
without_first-append k [] ys h = ground (arith, words_eq_iff k k)
without_first-append k (x ∷ xs) ys h = ground (arith, without_first-append k xs ys)
