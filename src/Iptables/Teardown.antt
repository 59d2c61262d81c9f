-- ===== src/Iptables/Teardown.antt =====
-- internal/iptables/iptables.go: Teardown takes back what Setup did.
use goper.Base.{ℕ, true, false, List, [], ◌∷◌, ◌++◌, map, ◌≡◌, refl, ap, ◌∙◌, arith, All}
use mathlib.Core.List.{append-nil}
use goper.Base.Int.{ℤ}
use goper.Base.Text.{Text, codes, text_eq}
use goper.Iptables.{Rule, Outcome, command_args, setup, teardown, new_manager}
use goper.Iptables.Table.{
  key_of, words_eq, words_eq_iff, has, has-append, has_self, without_first, without_first-append,
  IsIptables, IsAllowed,
}
use goper.Iptables.Setup.{missing, setup_lem, setup-allowed}

-- A table that holds none of the rules, which differ from each other.
abbrev pub IsClear : List (List Text) → List Rule → Type 0
IsClear table [] = Unit
IsClear table (r ∷ rs) =
    (has (key_of r) table ≡ false) × (has (key_of r) (map key_of rs) ≡ false) × IsClear table rs

IsClear-append :
    (table : List (List Text)) (r : Rule) (rs : List Rule)
    → has (key_of r) (map key_of rs) ≡ false
    → IsClear table rs
    → IsClear (table ++ key_of r ∷ []) rs
unfolding has
IsClear-append table r [] h c = tt
IsClear-append table r (q ∷ rs) h c = (
  ground (
    arith,
    has-append (key_of q) table (key_of r ∷ []),
    c.0,
    h,
    words_eq_iff (key_of r) (key_of q),
    words_eq_iff (key_of q) (key_of r),
  ),
  c.1,
  IsClear-append table r rs (ground (arith, h)) c.2,
)

missing_all :
    (table : List (List Text)) (rs : List Rule)
    → IsClear table rs
    → missing table rs ≡ map key_of rs
unfolding missing
missing_all table [] c = refl
missing_all table (r ∷ rs) c =
    rw c.0 (ap (λ l. key_of r ∷ l) (missing_all _ rs (IsClear-append table r rs c.1 c.2)))

-- A table that holds none of the manager's rules.
abbrev pub IsUntouched : List (List Text) → List Rule → Type 0
IsUntouched table = All (λ (r : Rule). has (key_of r) table ≡ false)

-- The manager's three rules differ.
IsClear-new_manager :
    (table : List (List Text)) (proxy_port : ℤ) (uid : ℕ)
    → IsUntouched table (new_manager proxy_port uid)
    → IsClear table (new_manager proxy_port uid)
unfolding new_manager has words_eq text_eq
IsClear-new_manager table proxy_port uid h = (h.0, refl, (h.1.0, refl, (h.1.1.0, refl, tt)))

module _ {S : Type 0} (run : S → List Text → Outcome × S) (rules : S → List (List Text))
    (ipt : IsIptables run rules) (allowed : IsAllowed run rules) where
  teardown-append :
      (s : S) (rs : List Rule) (table : List (List Text))
      → IsClear table rs
      → rules s ≡ table ++ map key_of rs
      → rules (teardown run s rs) ≡ table
  unfolding teardown
  teardown-append s [] table c e = e ∙ append-nil table
  teardown-append s (r ∷ rs) table c e =
      teardown-append (run s (command_args (codes "-D") r)).1 rs table c.2 (
        ipt.remove_done s r (allowed.removes s r there)
        ∙ ap (without_first (key_of r)) e
        ∙ without_first-append (key_of r) table (map key_of rs) c.0)
    where
      there : has (key_of r) (rules s) ≡ true
      there =
          ap (has (key_of r)) e ∙ rw (has-append (key_of r) table _, c.0) (has_self (key_of r) _)

  -- A process that may run the commands, on a table with none of its rules: Setup succeeds and
  -- adds exactly its rules, and Teardown then leaves the table as it was before.
  pub teardown-setup :
      (s : S) (proxy_port : ℤ) (uid : ℕ)
      → IsUntouched (rules s) (new_manager proxy_port uid)
      → let m = new_manager proxy_port uid in
        ((setup run s m).0 ≡ true)
        × (rules (setup run s m).1 ≡ rules s ++ map key_of m)
        × (rules (teardown run (setup run s m).1 m) ≡ rules s)
  teardown-setup s proxy_port uid untouched =
      let c = IsClear-new_manager (rules s) proxy_port uid untouched in
      let m = new_manager proxy_port uid in
      let fine = setup-allowed run rules ipt s m allowed in
      let added =
        (setup_lem run rules ipt s m fine).0 ∙ ap (λ l. rules s ++ l) (missing_all (rules s) m c) in
      (fine, added, teardown-append (setup run s m).1 m (rules s) c added)
