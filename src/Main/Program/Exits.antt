-- ===== src/Main/Program/Exits.antt =====
-- cmd/goper/main.go: with which code the program exits, and which iptables rules it leaves.
use goper.Base.{
  ℕ, zero, suc, arith, Bool, List, Option, none, some, ◌≡◌, refl, sym, subst, if◌then◌else◌,
  Bool-cases, inl, inr,
}
use goper.Base.Chain.{>>=-eq-some}
use goper.Base.Text.{Text}
use goper.Iptables.{Rule, Outcome, new_manager}
use goper.Iptables.Table.{IsIptables, IsAllowed}
use goper.Iptables.Teardown.{IsUntouched}
use goper.Main.{shutdown_transparent, setup_transparent_if_enabled, Config}
use goper.Main.Flags.{parse_flags, parse_args}
use goper.Main.Settings.{compiles}
use goper.Main.Lifecycle.{
  may_start, with_rules, setup_transparent-refused, setup_transparent-starts,
}
use goper.Main.Starting.{parse_config-new_server}
use goper.Main.Program.{
  Serving, serves, serving_of, wired_outputs, World, Process, Ending, signalled, server_failed,
  with_transparent, with_server, finish, start, run_config, run_parsed, run_program,
}
use goper.Proxy.X509.{Crypto}
use goper.Proxy.Authority.{Ca}
use goper.Proxy.CaStore.{CaDir, load_or_create_ca}
use goper.Proxy.Start.{with_ca, ProxyServer, new_server}

-- The exit code of a run that may start its servers, by what ends it, and the table that it leaves.
abbrev pub end_code : Ending → ℕ
end_code signalled = 0
end_code server_failed = 1

abbrev pub end_table : Ending → Config → ℕ → List (List Text) → List (List Text)
end_table signalled cfg uid table = table
end_table server_failed cfg uid table = with_rules cfg uid table

abbrev pub code_of : Option Config → Option Ca → ℕ → Ending → ℕ
code_of none ca euid ending = 2
code_of (some cfg) none euid ending = 1
code_of (some cfg) (some ca) euid ending = if may_start cfg euid then end_code ending else 1

abbrev pub table_of :
    Option Config → Option Ca → ℕ → ℕ → Ending → List (List Text) → List (List Text)
table_of none ca euid uid ending table = table
table_of (some cfg) none euid uid ending table = table
table_of (some cfg) (some ca) euid uid ending table =
    if may_start cfg euid then end_table ending cfg uid table else table

-- A server is there exactly when there is a CA.
abbrev HasServer : Option Ca → Option ProxyServer → Type 0
HasServer none o = o ≡ none
HasServer (some ca) o = (p : ProxyServer) × (o ≡ some p)

pub with_transparent-serves :
    {S : Type 0} (cfg : Config) (p : ProxyServer) (disk : CaDir) (rs : List Rule) (x : ℕ × S)
    → x.0 ≡ 0
    → with_transparent cfg p disk rs x
      ≡ (serves (serving_of cfg p disk rs), record { machine = x.1; disk = disk })
with_transparent-serves cfg p disk rs (zero, machine) h = refl
with_transparent-serves cfg p disk rs (suc code, machine) h = absurd (ground (arith, h))

module _ {S : Type 0} (run : S → List Text → Outcome × S) (rules : S → List (List Text)) where
  -- What a run leaves: the exit code and the table of rules.
  abbrev Ends : ℕ → List (List Text) → ℕ × World S → Type 0
  Ends code table x = (x.0 ≡ code) × (rules x.1.machine ≡ table)

  served-Ends :
      (ending : Ending) (cfg : Config) (uid : ℕ) (table : List (List Text)) (v : Serving)
      (w : World S)
      → rules w.machine ≡ with_rules cfg uid table
      → rules (shutdown_transparent run cfg w.machine v.rules) ≡ table
      → Ends
          (end_code ending)
          (end_table ending cfg uid table)
          (finish run ending cfg (serves v, w))
  unfolding finish
  served-Ends signalled cfg uid table v w added restored = (refl, restored)
  served-Ends server_failed cfg uid table v w added restored = (refl, added)

  with_server-Ends :
      (proc : Process) (w : World S) (ending : Ending) (cfg : Config) (ca : Option Ca)
      (o : Option ProxyServer) (disk : CaDir)
      → IsIptables run rules
      → IsAllowed run rules
      → IsUntouched (rules w.machine) (new_manager cfg.port proc.uid)
      → HasServer ca o
      → Ends
          (code_of (some cfg) ca proc.euid ending)
          (table_of (some cfg) ca proc.euid proc.uid ending (rules w.machine))
          (finish run ending cfg (with_server run proc w cfg (o, disk)))
  unfolding with_server finish
  with_server-Ends proc w ending cfg none o disk ipt allowed untouched e = rw e (refl, refl)
  with_server-Ends proc w ending cfg (some ca) o disk ipt allowed untouched (p, e) =
      rw e (elim (Bool-cases (may_start cfg proc.euid)) [
        | inl may ↦
            let manager = new_manager cfg.port proc.uid in
            let q = wired_outputs cfg p in
            let x = setup_transparent_if_enabled run proc.euid cfg w.machine manager in
            let (fine, added, restored) =
              setup_transparent-starts run rules proc.euid proc.uid cfg w.machine ipt allowed
                untouched may in
            let v = serving_of cfg q disk manager in
            subst
              (λ y.
                Ends (code_of (some cfg) (some ca) proc.euid ending)
                  (table_of (some cfg) (some ca) proc.euid proc.uid ending (rules w.machine))
                  (finish run ending cfg y))
              (sym (with_transparent-serves cfg q disk manager x fine))
              (rw may (served-Ends ending cfg proc.uid (rules w.machine) v _ added restored))
        | inr not_root ↦
            rw
              (
                setup_transparent-refused run rules proc.euid proc.uid cfg w.machine not_root,
                not_root,
              )
              (refl, refl)
      ])

module _ {S : Type 0} (crypto : Crypto) (compile : Text → Option (Text → Bool))
    (run : S → List Text → Outcome × S) (rules : S → List (List Text)) (proc : Process) where
  new_server-HasServer :
      (disk : CaDir) (cfg : Config) (args : List Text) (ca : Option Ca)
      → parse_args (compiles compile) proc.home args ≡ some cfg
      → (load_or_create_ca crypto disk proc.course proc.draws).0 ≡ ca
      → HasServer ca (new_server crypto compile proc.env cfg disk proc.course proc.draws).0
  unfolding parse_args new_server with_ca
  new_server-HasServer disk cfg args none h e = rw e refl
  new_server-HasServer disk cfg args (some ca) h e =
      let (g, flags, c) = >>=-eq-some (parse_flags args) _ h in
      let served =
        (parse_config-new_server crypto compile proc.home g.config cfg g.log_format proc.env disk
          proc.course proc.draws ca c e).1 in
      (served.0, served.1)

  run_parsed-Ends :
      (w : World S) (ending : Ending) (args : List Text) (o : Option Config)
      → IsIptables run rules
      → IsAllowed run rules
      → ((cfg : Config)
          → o ≡ some cfg
          → IsUntouched (rules w.machine) (new_manager cfg.port proc.uid))
      → parse_args (compiles compile) proc.home args ≡ o
      → let ca = (load_or_create_ca crypto w.disk proc.course proc.draws).0 in
        Ends run rules
          (code_of o ca proc.euid ending)
          (table_of o ca proc.euid proc.uid ending (rules w.machine))
          (run_parsed crypto compile run proc w ending o)
  unfolding run_parsed run_config start
  run_parsed-Ends w ending args none ipt allowed untouched h = (refl, refl)
  run_parsed-Ends w ending args (some cfg) ipt allowed untouched h =
      with_server-Ends run rules proc w ending cfg _ _ _ ipt allowed (untouched cfg refl)
        (new_server-HasServer w.disk cfg args _ h refl)

  -- On a machine where iptables behaves as documented and the process may run it, and whose table
  -- has none of the rules for the port of the command line: the program exits with 2, and leaves the
  -- table, if the command line is not accepted; with 1, and leaves it, if the CA can neither be loaded
  -- nor created, or if a user who is not root asks for transparent mode; with 0 after a signal, with
  -- the table as it was; and with 1 when a server fails, and then in transparent mode the rules stay
  -- in the table.
  pub run_program_lem :
      (w : World S) (ending : Ending) (args : List Text)
      → IsIptables run rules
      → IsAllowed run rules
      → ((cfg : Config)
          → parse_args (compiles compile) proc.home args ≡ some cfg
          → IsUntouched (rules w.machine) (new_manager cfg.port proc.uid))
      → let x = run_program crypto compile run proc w ending args in
        let o = parse_args (compiles compile) proc.home args in
        let ca = (load_or_create_ca crypto w.disk proc.course proc.draws).0 in
        (x.0 ≡ code_of o ca proc.euid ending)
        × (rules x.1.machine ≡ table_of o ca proc.euid proc.uid ending (rules w.machine))
  unfolding run_program
  run_program_lem w ending args ipt allowed untouched =
      run_parsed-Ends w ending args _ ipt allowed untouched refl
