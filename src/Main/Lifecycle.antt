-- ===== src/Main/Lifecycle.antt =====
-- cmd/goper/main.go: what a run does to the table of iptables rules, from its start to a signal.
use goper.Base.{
  ℕ, Bool, true, false, List, ◌++◌, map, ◌==◌, ◌≡◌, refl, arith, if◌then◌else◌, Bool-cases, inl,
  inr,
}
use goper.Base.Text.{Text}
use goper.Iptables.{Outcome, new_manager}
use goper.Iptables.Table.{key_of, IsIptables, IsAllowed}
use goper.Iptables.Teardown.{IsUntouched, teardown-setup}
use goper.Main.{
  Config, check_transparent_privileges, install_rules, teardown_transparent,
  setup_transparent_if_enabled, shutdown_transparent,
}

-- Whether the start may go on, and what is then in the table.
abbrev pub may_start : Config → ℕ → Bool
may_start cfg euid = if cfg.transparent then euid == 0 else true

abbrev pub with_rules : Config → ℕ → List (List Text) → List (List Text)
with_rules cfg uid table =
    if cfg.transparent then table ++ map key_of (new_manager cfg.port uid) else table

module _ {S : Type 0} (run : S → List Text → Outcome × S) (rules : S → List (List Text))
    (euid uid : ℕ) (cfg : Config) (s : S) where
  abbrev transparent_rules : ℕ × S
  transparent_rules = setup_transparent_if_enabled run euid cfg s (new_manager cfg.port uid)

  -- A user who is not root and asks for transparent mode is refused before anything is changed.
  pub setup_transparent-refused : may_start cfg euid ≡ false → transparent_rules ≡ (1, s)
  unfolding setup_transparent_if_enabled install_rules check_transparent_privileges
  setup_transparent-refused h =
      let on : cfg.transparent ≡ true = ground (arith, h) in
      let user : (euid == 0) ≡ false = ground (arith, h, on) in rw (on, user) refl

  pub setup_transparent-starts :
      IsIptables run rules
      → IsAllowed run rules
      → IsUntouched (rules s) (new_manager cfg.port uid)
      → may_start cfg euid ≡ true
      → (transparent_rules.0 ≡ 0)
        × (rules transparent_rules.1 ≡ with_rules cfg uid (rules s))
        × (rules (shutdown_transparent run cfg transparent_rules.1 (new_manager cfg.port uid))
            ≡ rules s)
  unfolding setup_transparent_if_enabled install_rules check_transparent_privileges
      shutdown_transparent teardown_transparent
  setup_transparent-starts ipt allowed untouched h =
      let (fine, added, restored) = teardown-setup run rules ipt allowed s cfg.port uid untouched in
      elim (Bool-cases cfg.transparent) [
        | inr off ↦ rw off (refl, refl, refl)
        | inl on ↦
            let root : (euid == 0) ≡ true = ground (arith, h, on) in
            rw (on, root, fine) (refl, added, restored)
      ]
