-- ===== src/Capture/Ring/History.antt =====
-- internal/capture/store.go: one `Push`, and a ring that entries are pushed into one after another.
use goper.Base.{
  ℕ, zero, suc, ◌-◌, false, List, [], ◌∷◌, ◌++◌, none, ◌≡◌, refl, ap, ◌∙◌, subst, arith, length,
  drop,
}
use mathlib.Core.List.{append_assoc, append-nil}
use goper.Base.Text.{Text, text_eq, text_eq_iff}
use goper.Base.Int.{ℤ}
use goper.Capture.Entry.{CapturedEntry, Env}
use goper.Capture.Ring.{
  RingBuffer, new_ring_buffer, make_room, evict_oldest, write_tail, finalize_entry, push_locked,
}
use goper.Capture.Ring.Spec.{Holds, keep_last, keep_last-append, find, HasDistinctIds}
use goper.Capture.Ring.Refine.{with_capacity-Holds, write-Holds}

-- A new buffer is empty, and never has capacity zero.
pub new_ring_buffer-Holds : (env : Env) (capacity : ℤ) → Holds (new_ring_buffer env capacity) []
unfolding new_ring_buffer
new_ring_buffer-Holds env capacity = with_capacity-Holds env _ (ground arith)

pub write_tail-capacity :
    (rb : RingBuffer) (e : CapturedEntry) → (write_tail (make_room rb) e).capacity ≡ rb.capacity
unfolding write_tail make_room evict_oldest
write_tail-capacity rb e = ground arith

-- A push under the lock, of an entry whose filled-in id is not in the ring, leaves a ring that holds
-- the old entries followed by the stored one, cut to the newest ones up to the capacity; the capacity
-- and the snapshot of subscribers are the ring's own.
pub push_locked-Holds :
    (env : Env) (rb : RingBuffer) (q : List CapturedEntry) (entry : CapturedEntry)
    → Holds rb q
    → find (finalize_entry env entry).0.id q ≡ none
    → let (rb', stored, subs, env') = push_locked env rb entry in
      Holds rb' (keep_last rb.capacity (q ++ stored ∷ []))
      × (stored ≡ (finalize_entry env entry).0)
      × (subs ≡ rb.subscribers)
      × (rb'.capacity ≡ rb.capacity)
unfolding push_locked
push_locked-Holds env rb q entry h fresh =
    (write-Holds rb q (finalize_entry env entry).0 h fresh, refl, refl, write_tail-capacity rb _)

-- The ring after entries with their ids and timestamps filled in were pushed in turn.
unfoldable pub push_all : RingBuffer → List CapturedEntry → RingBuffer
push_all rb [] = rb
push_all rb (e ∷ es) = push_all (write_tail (make_room rb) e) es

find-drop :
    (id : Text) (n : ℕ) (q : List CapturedEntry) → find id q ≡ none → find id (drop n q) ≡ none
unfolding find
find-drop id zero q h = h
find-drop id (suc n) [] h = h
find-drop id (suc n) (x ∷ q) h = find-drop id n q (ground arith)

find_later :
    (id : Text) (q : List CapturedEntry) (e : CapturedEntry) (es : List CapturedEntry)
    → find id (q ++ e ∷ es) ≡ none
    → text_eq e.id id ≡ false
unfolding find
find_later id [] e es h = ground arith
find_later id (x ∷ q) e es h = find_later id q e es (ground arith)

find_earlier :
    (q : List CapturedEntry) (e : CapturedEntry) (es : List CapturedEntry)
    → HasDistinctIds (q ++ e ∷ es)
    → find e.id q ≡ none
unfolding find
find_earlier [] e es d = refl
find_earlier (x ∷ q) e es d = ground (
  arith,
  find_earlier q e es d.1,
  find_later x.id q e es d.0,
  text_eq_iff e.id x.id,
  text_eq_iff x.id e.id,
)

-- After any pushes with ids that never repeat, the ring holds the newest entries in order.
pub push_all-Holds :
    (n : ℕ) (rb : RingBuffer) (q es : List CapturedEntry)
    → rb.capacity ≡ n
    → Holds rb (keep_last n q)
    → HasDistinctIds (q ++ es)
    → Holds (push_all rb es) (keep_last n (q ++ es))
unfolding push_all
push_all-Holds n rb q [] c h d = rw (append-nil q) h
push_all-Holds n rb q (e ∷ es) c h d =
    subst (λ l. Holds (push_all rb (e ∷ es)) (keep_last n l)) regroup
      (push_all-Holds n (write_tail (make_room rb) e) (q ++ e ∷ []) es
        (write_tail-capacity rb e ∙ c) step (rw regroup d))
  where
    regroup : (q ++ e ∷ []) ++ es ≡ q ++ e ∷ es
    regroup = append_assoc q (e ∷ []) es

    step : Holds (write_tail (make_room rb) e) (keep_last n (q ++ e ∷ []))
    step =
        subst (Holds (write_tail (make_room rb) e))
          (ap (λ k. keep_last k (keep_last n q ++ e ∷ [])) c ∙ keep_last-append n q (e ∷ []))
          (write-Holds rb (keep_last n q) e h
            (find-drop e.id (length q - n) q (find_earlier q e es d)))
