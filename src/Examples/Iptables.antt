-- ===== src/Examples/Iptables.antt =====
-- internal/iptables/iptables.go over a table in memory.
use goper.Base.{
  true, false, ◌&&◌, leb, length, List, [], ◌∷◌, ◌++◌, map, ◌≡◌, refl, arith, if◌then◌else◌,
}
use goper.Base.Int.{pos}
use goper.Base.Text.{Text, codes, text_eq}
use goper.Iptables.{
  Outcome, done, not_run, exited, existence, is_done, is_exec_failure, rule_exists, add_rule,
  ensure_after, ensure_rule, new_manager, setup, teardown,
}
use goper.Iptables.Table.{key_of, words_eq, has, without_first, IsIptables, IsAllowed}
use goper.Iptables.Failed.{Progress, setup-Progress}
use goper.Iptables.Teardown.{teardown-setup}

abbrev pub Table : Type 0
Table = List (List Text)

abbrev pub on_key : Table → Text → List Text → Outcome × Table
on_key table op key =
    if text_eq op (codes "-C")
    then (if has key table then (done, table) else (exited, table))
    else if text_eq op (codes "-A")
    then (done, table ++ key ∷ [])
    else (if has key table then (done, without_first key table) else (exited, table))

unfoldable pub in_memory : Table → List Text → Outcome × Table
in_memory table (t ∷ name ∷ op ∷ chain ∷ spec) = on_key table op (name ∷ chain ∷ spec)
in_memory table args = (not_run, table)

abbrev pub itself : Table → Table
itself table = table

pub in_memory-IsIptables : IsIptables in_memory itself
unfolding in_memory text_eq
in_memory-IsIptables = record {
  check_found = λ s r e. ground (arith, e);
  check_absent = λ s r e. ground (arith, e);
  check_same = λ s r. ground arith;
  append_done = λ s r e. refl;
  append_failed = λ s r e. absurd (e refl);
  remove_done = λ s r e. ground (arith, e);
}

pub in_memory-IsAllowed : IsAllowed in_memory itself
unfolding in_memory text_eq
in_memory-IsAllowed = record {
  checks = λ s r e. ground (arith, e);
  appends = λ s r. refl;
  removes = λ s r h. rw h refl;
}

teardown-setup_example :
    let m = new_manager (pos 8080) 0 in
    ((setup in_memory [] m).0 ≡ true)
    × ((setup in_memory [] m).1 ≡ map key_of m)
    × (teardown in_memory (setup in_memory [] m).1 m ≡ [])
unfolding has new_manager
teardown-setup_example =
    teardown-setup in_memory itself in_memory-IsIptables in_memory-IsAllowed [] (pos 8080) 0
      (refl, (refl, (refl, tt)))

-- A table with room for two rules.
unfoldable in_small : Table → List Text → Outcome × Table
in_small table (t ∷ name ∷ op ∷ chain ∷ spec) =
    if text_eq op (codes "-A") && leb 2 (length table)
    then (exited, table)
    else on_key table op (name ∷ chain ∷ spec)
in_small table args = (not_run, table)

in_small-IsIptables : IsIptables in_small itself
unfolding in_small text_eq
in_small-IsIptables = record {
  check_found = λ s r e. ground (arith, e);
  check_absent = λ s r e. ground (arith, e);
  check_same = λ s r. ground arith;
  append_done = λ s r e. ground (arith, e);
  append_failed = λ s r e. ground (arith, e);
  remove_done = λ s r e. ground (arith, e);
}

third_refused : (setup in_small [] (new_manager (pos 8080) 0)).0 ≡ false
unfolding setup ensure_rule ensure_after rule_exists add_rule existence is_exec_failure is_done
    new_manager in_small text_eq has words_eq
third_refused = refl

setup-Progress_example :
    let m = new_manager (pos 8080) 0 in
    Progress [] m (setup in_small [] m).0 (setup in_small [] m).1
setup-Progress_example =
    setup-Progress in_small itself in_small-IsIptables [] (new_manager (pos 8080) 0)
