-- ===== src/Proxy/Handlers/Issued.antt =====
-- internal/proxy/proxy.go with internal/capture/capture.go and store.go: the ids of recorded
-- entries never repeat.
use goper.Base.{
  ℕ, ◌+◌, ◌-◌, ◌^◌, ◌<◌, ◌≤◌, false, List, [], ◌∷◌, ◌++◌, none, ◌≡◌, ◌≢◌, inl, inr, refl, sym, ap,
  subst, ◌∙◌, arith, drop, All, All-append, All-map, Bool-cases, zero, suc,
}
use goper.Base.Text.{Text, text_eq, text_eq_iff}
use goper.Capture.Entry.{Env, CapturedEntry, itoa, new_entry_id, is_zero_time}
use goper.Capture.Ids.{IsNotDash, entry_id_unique}
use goper.Capture.Ring.{RingBuffer, finalize_entry, assign_id, make_room, write_tail}
use goper.Capture.Ring.Spec.{Holds, keep_last, find}
use goper.Capture.Ring.Refine.{write-Holds}

-- An id that was handed out at a value of the counter up to `n`.
pub record IsIssued (n : ℕ) (id : Text) : Type 0 where
  pub stamp : Text
  pub at_count : ℕ
  pub plain : All IsNotDash stamp
  pub before : at_count ≤ n
  pub spelled : id ≡ stamp ++ b'-' ∷ itoa at_count

-- The store holds `q`, whose ids were all handed out before.
pub record IsRecorded (rb : RingBuffer) (env : Env) (q : List CapturedEntry) : Type 0 where
  pub holds : Holds rb q
  pub issued : All (λ (e : CapturedEntry). IsIssued env.counter e.id) q

-- What a clock and a counter have to give: a stamp of digits, and room to count on.
pub record IsReady (env : Env) : Type 0 where
  pub plain : All IsNotDash env.stamp
  pub room : env.counter < 2 ^ 63 - 1

pub IsIssued-new : (env : Env) → IsReady env → IsIssued (env.counter + 1) (new_entry_id env).0
unfolding new_entry_id
IsIssued-new env r = record {
  stamp = env.stamp;
  at_count = env.counter + 1;
  plain = r.plain;
  before = omega arith;
  spelled = refl;
}

pub IsIssued-later : (n : ℕ) (id : Text) → IsIssued n id → IsIssued (n + 1) id
IsIssued-later n id i = record {
  stamp = i.stamp;
  at_count = i.at_count;
  plain = i.plain;
  before = omega (arith, i.before);
  spelled = i.spelled;
}

-- A new id is none of the old ones.
pub issued_ne :
    (env : Env) (id : Text) → IsReady env → IsIssued env.counter id → id ≢ (new_entry_id env).0
unfolding new_entry_id
issued_ne env id r i e = omega (
  arith,
  i.before,
  entry_id_unique i.stamp env.stamp i.at_count (env.counter + 1) i.plain r.plain
      (omega (arith, i.before, r.room)) (omega (arith, r.room)) (sym i.spelled ∙ e),
)

pub find-new :
    (id : Text) (q : List CapturedEntry)
    → All (λ (e : CapturedEntry). e.id ≢ id) q
    → find id q ≡ none
unfolding find
find-new id [] h = refl
find-new id (x ∷ q) h = ground (arith, text_eq_iff x.id id, h.0, find-new id q h.1)

pub id_not_empty : (env : Env) → text_eq (new_entry_id env).0 [] ≡ false
unfolding new_entry_id
id_not_empty env = not_empty env.stamp
  where
    not_empty : (s : Text) → text_eq (s ++ b'-' ∷ itoa (env.counter + 1)) [] ≡ false
    not_empty [] = unfold text_eq in refl
    not_empty (c ∷ s) = unfold text_eq in refl

-- An entry with a new id and the time of the clock is pushed as it is.
pub finalize_entry_same :
    (env : Env) (e : CapturedEntry)
    → text_eq e.id [] ≡ false
    → e.timestamp ≡ env.now
    → finalize_entry env e ≡ (e, env)
unfolding finalize_entry assign_id
finalize_entry_same env e named now = rw named (elim (Bool-cases (is_zero_time e.timestamp)) [
  | inl z ↦ rw z (ap (λ t. (record e { timestamp = t }, env)) (sym now))
  | inr z ↦ rw z refl
])

pub IsIssued-drop :
    (n k : ℕ) (q : List CapturedEntry)
    → All (λ (e : CapturedEntry). IsIssued n e.id) q
    → All (λ (e : CapturedEntry). IsIssued n e.id) (drop k q)
IsIssued-drop n zero q h = h
IsIssued-drop n (suc k) [] h = h
IsIssued-drop n (suc k) (x ∷ q) h = IsIssued-drop n k q h.1

pub write-IsRecorded :
    (rb : RingBuffer) (env : Env) (q : List CapturedEntry) (e : CapturedEntry)
    → IsRecorded rb env q
    → IsReady env
    → e.id ≡ (new_entry_id env).0
    → IsRecorded
        (write_tail (make_room rb) e)
        (new_entry_id env).1
        (keep_last rb.capacity (q ++ e ∷ []))
unfolding new_entry_id
write-IsRecorded rb env q e r ready named = record {
  holds =
      write-Holds rb q e r.holds (
        find-new e.id q (All-map _ _ (λ x i h. issued_ne env x.id ready i (h ∙ named)) q r.issued));
  issued = IsIssued-drop _ _ _ (
      All-append _ q (e ∷ []) (All-map _ _ (λ x i. IsIssued-later env.counter x.id i) q r.issued)
        (subst (IsIssued (env.counter + 1)) (sym named) (IsIssued-new env ready), tt));
}
