-- ===== src/Proxy/Concurrent/Sound.antt =====
-- internal/proxy/proxy_body.go with internal/capture/store.go: the invariant of concurrent responses.
use goper.Base.{
  false, ℕ, ◌+◌, ◌^◌, ◌<◌, List, [], ◌∷◌, ◌++◌, length, Option, none, some, ◌≡◌, refl, sym, ap,
  subst, ◌∙◌, arith, ◌≤◌, All, All-append, All-map, inl, inr, Bool-cases,
}
use goper.Base.Text.{Text, text_eq}
use goper.Capture.Entry.{itoa, Time, Env, CapturedEntry, new_entry_id, is_zero_time}
use goper.Capture.Ids.{IsNotDash}
use goper.Capture.Ring.{
  RingBuffer, finalize_entry, assign_id, push_locked, clear, make_room, write_tail,
}
use goper.Capture.Ring.Spec.{Holds, keep_last, keep_last_all, keep_last-append}
use goper.Capture.Ring.Refine.{clear-Holds, write-Holds}
use goper.Capture.Ring.History.{write_tail-capacity}
use goper.Capture.Recorder.{CaptureResult, combine_entry}
use goper.Proxy.Handlers.Issued.{
  IsIssued, IsReady, issued_ne, find-new, IsIssued-new, IsIssued-later,
}
use goper.Capture.Apart.{Avoids, Apart, Apart-append, Avoids-drop, fresh-append}
use goper.Proxy.Concurrent.Taken.{take_at-All, take_at-Apart}
use goper.Proxy.Concurrent.{
  Recording, Event, combines, pushes, clears, env_of, take_at, push_one, step, run,
}

IsIssued-named : (n : ℕ) (id : Text) → IsIssued n id → text_eq id [] ≡ false
IsIssued-named n id i = ap (λ t. text_eq t []) i.spelled ∙ go i.stamp
  where
    go : (s : Text) → text_eq (s ++ b'-' ∷ itoa i.at_count) [] ≡ false
    go [] = unfold text_eq in refl
    go (c ∷ s) = unfold text_eq in refl

-- An entry with an id keeps it, and the counter stays.
finalize_entry-named :
    (env : Env) (e : CapturedEntry)
    → text_eq e.id [] ≡ false
    → ((finalize_entry env e).0.id ≡ e.id) × ((finalize_entry env e).1.counter ≡ env.counter)
unfolding finalize_entry assign_id
finalize_entry-named env e named = rw named (elim (Bool-cases (is_zero_time e.timestamp)) [
  | inl z ↦ rw z (refl, refl)
  | inr z ↦ rw z (refl, refl)
])

abbrev AllIssued : ℕ → List CapturedEntry → Type 0
AllIssued n q = All (λ (e : CapturedEntry). IsIssued n e.id) q

-- The store holds the newest entries of the history, and all ids, also of the pending entries, were
-- handed out once.
pub record IsSound (capacity : ℕ) (st : Recording) : Type 0 where
  pub same : st.store.capacity ≡ capacity
  pub positive : 0 < capacity
  pub holds : Holds st.store (keep_last capacity st.history)
  pub issued : AllIssued st.counter st.history
  pub issued_pending : AllIssued st.counter st.pending
  pub apart : Apart st.history
  pub apart_pending : Apart st.pending
  pub fresh : All (λ (p : CapturedEntry). Avoids p.id st.history) st.pending

-- A new id is none of those that were handed out.
Avoids-new :
    (env : Env) (q : List CapturedEntry)
    → IsReady env
    → AllIssued env.counter q
    → Avoids (new_entry_id env).0 q
Avoids-new env q ready i = All-map _ _ (λ x h. issued_ne env x.id ready h) q i

later : (n : ℕ) (q : List CapturedEntry) → AllIssued n q → AllIssued (n + 1) q
later n q = All-map _ _ (λ x h. IsIssued-later n x.id h) q

IsSound-combines :
    (capacity : ℕ) (st : Recording) (now : Time) (stamp : Text) (entry : CapturedEntry)
    (result : CaptureResult)
    → IsSound capacity st
    → IsReady (env_of st now stamp)
    → IsSound capacity (step st (combines now stamp entry result))
unfolding step combine_entry new_entry_id
IsSound-combines capacity st now stamp entry result s ready =
    let env = env_of st now stamp in
    record {
      same = s.same;
      positive = s.positive;
      holds = s.holds;
      issued = later st.counter st.history s.issued;
      issued_pending = (IsIssued-new env ready, later st.counter st.pending s.issued_pending);
      apart = s.apart;
      apart_pending = (Avoids-new env st.pending ready s.issued_pending, s.apart_pending);
      fresh = (Avoids-new env st.history ready s.issued, s.fresh);
    }

IsSound-clears :
    (capacity : ℕ) (st : Recording) → IsSound capacity st → IsSound capacity (step st clears)
unfolding step clear
IsSound-clears capacity st s = record {
  same = s.same;
  positive = s.positive;
  holds =
      subst (Holds (clear st.store)) (sym (keep_last_all capacity [] (omega arith)))
        (clear-Holds st.store (omega (arith, s.positive, s.same)));
  issued = tt;
  issued_pending = s.issued_pending;
  apart = tt;
  apart_pending = s.apart_pending;
  fresh = All-map _ _ (λ x h. tt) st.pending s.fresh;
}

-- A pushed entry with an id of its own goes behind the others in the ring.
push-Holds :
    (capacity : ℕ) (rb : RingBuffer) (q : List CapturedEntry) (e : CapturedEntry)
    → rb.capacity ≡ capacity
    → Holds rb (keep_last capacity q)
    → Avoids e.id q
    → Holds (write_tail (make_room rb) e) (keep_last capacity (q ++ e ∷ []))
push-Holds capacity rb q e c h a =
    subst (Holds (write_tail (make_room rb) e))
      (ap (λ k. keep_last k (keep_last capacity q ++ e ∷ [])) c
        ∙ keep_last-append capacity q (e ∷ []))
      (write-Holds rb (keep_last capacity q) e h
        (find-new e.id (keep_last capacity q) (Avoids-drop e.id _ q a)))

IsSound-push_one :
    (capacity : ℕ) (st : Recording) (now : Time) (stamp : Text) (n : ℕ)
    (o : Option (CapturedEntry × List CapturedEntry))
    → take_at n st.pending ≡ o
    → IsSound capacity st
    → IsSound capacity (push_one st (env_of st now stamp) o)
unfolding push_one push_locked
IsSound-push_one capacity st now stamp n none h s = s
IsSound-push_one capacity st now stamp n (some (e, rest)) h s =
    let env = env_of st now stamp in
    let stored = (finalize_entry env e).0 in
    let (e_issued, rest_issued) =
      take_at-All (λ p. IsIssued st.counter p.id) n st.pending e rest h s.issued_pending in
    let (id_same, counted) = finalize_entry-named env e (IsIssued-named st.counter e.id e_issued) in
    let (e_fresh, rest_fresh) =
      take_at-All (λ p. Avoids p.id st.history) n st.pending e rest h s.fresh in
    let (avoids, apart) = take_at-Apart n st.pending e rest h s.apart_pending in
    let own = subst (λ i. Avoids i st.history) (sym id_same) e_fresh in
    record {
      same = write_tail-capacity st.store stored ∙ s.same;
      positive = s.positive;
      holds = push-Holds capacity st.store st.history stored s.same s.holds own;
      issued =
          subst (λ k. AllIssued k (st.history ++ stored ∷ [])) (sym counted)
            (All-append _ st.history (stored ∷ []) s.issued
              (subst (IsIssued st.counter) (sym id_same) e_issued, tt));
      issued_pending = subst (λ k. AllIssued k rest) (sym counted) rest_issued;
      apart = Apart-append st.history stored s.apart own;
      apart_pending = apart;
      fresh =
          fresh-append st.history stored rest rest_fresh
            (subst (λ i. Avoids i rest) (sym id_same) avoids);
    }

-- The clock of a step gives a stamp of digits.
abbrev pub IsPlain : Event → Type 0
IsPlain (combines now stamp entry result) = All IsNotDash stamp
IsPlain (pushes now stamp n) = Unit
IsPlain clears = Unit

push_one-counter :
    (capacity : ℕ) (st : Recording) (now : Time) (stamp : Text) (n : ℕ)
    (o : Option (CapturedEntry × List CapturedEntry))
    → take_at n st.pending ≡ o
    → IsSound capacity st
    → (push_one st (env_of st now stamp) o).counter ≡ st.counter
unfolding push_one push_locked
push_one-counter capacity st now stamp n none h s = refl
push_one-counter capacity st now stamp n (some (e, rest)) h s =
    let (e_issued, rest_issued) =
      take_at-All (λ p. IsIssued st.counter p.id) n st.pending e rest h s.issued_pending in
    (finalize_entry-named (env_of st now stamp) e (IsIssued-named st.counter e.id e_issued)).1

step-counter :
    (capacity : ℕ) (st : Recording) (ev : Event)
    → IsSound capacity st
    → (step st ev).counter ≤ st.counter + 1
unfolding step combine_entry new_entry_id
step-counter capacity st (combines now stamp entry result) s = omega arith
step-counter capacity st clears s = omega arith
step-counter capacity st (pushes now stamp n) s =
    omega (arith, push_one-counter capacity st now stamp n (take_at n st.pending) refl s)

pub run-IsSound :
    (capacity : ℕ) (st : Recording) (evs : List Event)
    → IsSound capacity st
    → All IsPlain evs
    → st.counter + length evs < 2 ^ 63
    → IsSound capacity (run st evs)
unfolding run
run-IsSound capacity st [] s plain room = s
run-IsSound capacity st (ev ∷ evs) s plain room =
    run-IsSound capacity (step st ev) evs (next ev plain.0) plain.1
      (omega (arith, step-counter capacity st ev s))
  where
    next : (ev : Event) → IsPlain ev → IsSound capacity (step st ev)
    next (combines now stamp entry result) p =
        IsSound-combines capacity st now stamp entry result s
          (record { plain = p; room = omega (arith, room) })
    next (pushes now stamp n) p =
        unfold step in IsSound-push_one capacity st now stamp n (take_at n st.pending) refl s
    next clears p = IsSound-clears capacity st s
