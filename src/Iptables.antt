-- ===== src/Iptables.antt =====
-- internal/iptables/iptables.go: the manager that installs and removes the redirect rules. A user
-- id is a natural number.
pub mod Table
pub mod Setup
pub mod Failed
pub mod Teardown
use goper.Base.{ℕ, Bool, true, false, List, [], ◌∷◌, Option, none, some, if◌then◌else◌}
use goper.Base.Text.{Text, codes}
use goper.Base.Int.{ℤ}
use goper.Capture.Entry.{itoa, decimal}

pub record Rule : Type 0 where
  pub table : Text
  pub chain : Text
  pub spec : List Text

-- What `CommandRunner.Run` returns: no error, an `*exec.Error` because the program could not run,
-- or another error.
pub data Outcome : Type 0 where
  done not_run exited : Outcome

unfoldable pub is_exec_failure : Outcome → Bool
is_exec_failure done = false
is_exec_failure not_run = true
is_exec_failure exited = false

abbrev pub redirect : ℤ → Text → Rule
redirect proxy_port dport = record {
  table = codes "nat";
  chain = codes "OUTPUT";
  spec =
      codes "-p"
      ∷ codes "tcp"
      ∷ codes "--dport"
      ∷ dport
      ∷ codes "-j"
      ∷ codes "REDIRECT"
      ∷ codes "--to-port"
      ∷ decimal proxy_port
      ∷ [];
}

abbrev pub return_own : ℕ → Rule
return_own uid = record {
  table = codes "nat";
  chain = codes "OUTPUT";
  spec =
      codes "-m"
      ∷ codes "owner"
      ∷ codes "--uid-owner"
      ∷ itoa uid
      ∷ codes "-j"
      ∷ codes "RETURN"
      ∷ [];
}

-- The rules of a `Manager`.
unfoldable pub new_manager : ℤ → ℕ → List Rule
new_manager proxy_port uid =
    return_own uid ∷ redirect proxy_port (codes "80") ∷ redirect proxy_port (codes "443") ∷ []

abbrev pub command_args : Text → Rule → List Text
command_args op r = codes "-t" ∷ r.table ∷ op ∷ r.chain ∷ r.spec

-- What `ruleExists` makes of the outcome of a check, `none` for an error.
unfoldable pub existence : Outcome → Option Bool
existence done = some true
existence not_run = if is_exec_failure not_run then none else some false
existence exited = if is_exec_failure exited then none else some false

unfoldable pub is_done : Outcome → Bool
is_done done = true
is_done not_run = false
is_done exited = false

-- The runner acts on a state of the machine.
module _ {S : Type 0} (run : S → List Text → Outcome × S) where
  unfoldable pub rule_exists : S → Rule → Option Bool × S
  rule_exists s r = let (o, s') = run s (command_args (codes "-C") r) in (existence o, s')

  -- A call that can fail returns whether it did not.
  unfoldable pub add_rule : S → Rule → Bool × S
  add_rule s r = let (o, s') = run s (command_args (codes "-A") r) in (is_done o, s')

  unfoldable pub ensure_after : Rule → Option Bool × S → Bool × S
  ensure_after r (none, s) = (false, s)
  ensure_after r (some true, s) = (true, s)
  ensure_after r (some false, s) = add_rule s r

  unfoldable pub ensure_rule : S → Rule → Bool × S
  ensure_rule s r = ensure_after r (rule_exists s r)

  unfoldable pub setup : S → List Rule → Bool × S
  setup s [] = (true, s)
  setup s (r ∷ rs) =
      let (fine, s') = ensure_rule s r in elim fine [ true ↦ setup s' rs | false ↦ (false, s') ]

  -- A removal that fails is only logged.
  unfoldable pub teardown : S → List Rule → S
  teardown s [] = s
  teardown s (r ∷ rs) = teardown (run s (command_args (codes "-D") r)).1 rs
