-- ===== src/Capture/Subscribers/Interleavings.antt =====
-- internal/capture/store.go: all interleavings of the store's users, and the one that panics.
use goper.Base.{
  ℕ, true, false, List, [], ◌∷◌, ◌++◌, none, some, ◌==◌, ◌≡◌, ◌≢◌, refl, sym, ap, ◌∙◌, inl, inr,
  arith, length, get_elem?, replicate, All, All-append, All-map, Option-cases, Bool-cases,
  get_elem?-set_self, get_elem?-set_ne, get_elem?-lt,
}
use native.Mathlib.Decide.{ℕ_discrete}
use goper.Capture.Entry.{CapturedEntry, Env}
use goper.Capture.Ring.{
  RingBuffer, push_locked, finalize_entry, make_room, evict_oldest, write_tail, clear,
}
use goper.Capture.Subscribers.{
  Heap, World, Event, begin, deliver_next, join, leave, take_one, wipe, ◌>>=◌, contains,
  unsubscribe, begin_push, deliver_at, deliver, take_from, receive, step, run,
}
use goper.Capture.Subscribers.Sends.{
  IsOpen, open_at, send_open, close_open, send_closed, send-open_at,
}
use goper.Capture.Subscribers.Delivery.{All-IsOpen}
use goper.Capture.Subscribers.Safety.{
  IsWired, IsCalm, Pending, AllWaiting, waiting_same, deliver_at_open, join-IsWired, leave-IsWired,
  contained-IsOpen,
}

make_room-subscribers : (rb : RingBuffer) → (make_room rb).subscribers ≡ rb.subscribers
unfolding make_room evict_oldest
make_room-subscribers rb = ground arith

begin-IsWired :
    (env : Env) (entry : CapturedEntry) (w : World) → IsWired w → IsWired (begin_push env entry w)
unfolding begin_push push_locked write_tail make_room evict_oldest
begin-IsWired env entry w h = elim (Bool-cases (w.ring.count == w.ring.capacity)) [
  | inl e ↦ rw e (record { all_open = h.all_open; distinct = h.distinct; waiting = more })
  | inr e ↦ rw e (record { all_open = h.all_open; distinct = h.distinct; waiting = more })
]
  where
    more : AllWaiting w.heap (w.pending ++ (w.ring.subscribers, (finalize_entry env entry).0) ∷ [])
    more = All-append _ w.pending _ h.waiting (h.all_open, tt)

receive-open_at :
    (heap : Heap) (ch d : ℕ)
    → open_at (get_elem? (take_from (get_elem? heap ch) heap ch) d) ≡ open_at (get_elem? heap d)
unfolding take_from
receive-open_at heap ch d = elim (Option-cases (get_elem? heap ch)) [
  | inl e ↦ rw (e, take_from)
  | inr (c, e) ↦ elim (ℕ_discrete ch d) [
    | yes same ↦
        rw (e, take_from, ← same, get_elem?-set_self heap ch _ (get_elem?-lt heap ch c e))
          (ground (arith, e))
    | no other ↦ rw (e, take_from, get_elem?-set_ne heap ch d _ other)
  ]
]

-- From a state in which all channels in use are open, a step of any goroutine does not panic and leads
-- to such a state, if it is no Unsubscribe of a channel that a push under way still has to send on.
pub step-IsWired :
    (e : Event) (w : World)
    → IsWired w
    → IsCalm e w
    → (w' : World) × (step e w ≡ some w') × IsWired w'
unfolding step deliver receive clear
step-IsWired (begin env entry) w h c = (begin_push env entry w, refl, begin-IsWired env entry w h)
step-IsWired (deliver_next k) w h c =
    let (heap, rest, done, waits, same) = deliver_at_open k w.pending w.heap h.waiting in
    (
      record w { heap = heap; pending = rest },
      rw (done, ◌>>=◌),
      record {
        all_open = All-IsOpen w.heap heap w.ring.subscribers same h.all_open;
        distinct = h.distinct;
        waiting = waits;
      },
    )
step-IsWired join w h c = (_, refl, join-IsWired w h)
step-IsWired (leave ch) w h c = leave-IsWired ch w h c
step-IsWired (take_one ch) w h c = (
  _,
  refl,
  record {
    all_open = All-IsOpen w.heap _ w.ring.subscribers (receive-open_at w.heap ch) h.all_open;
    distinct = h.distinct;
    waiting = waiting_same w.heap _ w.pending (receive-open_at w.heap ch) h.waiting;
  },
)
step-IsWired wipe w h c =
    (_, refl, record { all_open = h.all_open; distinct = h.distinct; waiting = h.waiting })

-- A push under way that still has to send on a closed channel panics when it comes to it.
sends_panic :
    (ch : ℕ) (subs : List ℕ) (entry : CapturedEntry) (rb : RingBuffer) (heap : Heap)
    (rest : Pending)
    → contains ch subs ≡ true
    → open_at (get_elem? heap ch) ≡ false
    → All (λ d. ch ≢ d → IsOpen heap d) subs
    → run
        (replicate (length subs) (deliver_next 0))
        (record { ring = rb; heap = heap; pending = (subs, entry) ∷ rest })
      ≡ none
unfolding contains run step deliver deliver_at
sends_panic ch [] entry rb heap rest m shut o = cc
sends_panic ch (d ∷ subs) entry rb heap rest m shut o = elim (ℕ_discrete ch d) [
  | yes same ↦ let stop = send_closed heap d entry (rw (← same) shut) in rw (stop, ◌>>=◌)
  | no other ↦
      let (heap', sent, at_d, others) = send_open heap d entry (o.0 other) in
      rw (sent, ◌>>=◌)
        (sends_panic ch subs entry rb heap' rest (ground arith)
          (ap open_at (others ch (λ s. other (sym s))) ∙ shut)
          (All-map _ _ (λ x f n. send-open_at entry heap heap' d at_d others x ∙ f n) subs o.1))
]

-- The bug: a subscriber that leaves between the lock and the sends of a push makes it panic.
pub leave_during_push_panics :
    (env : Env) (entry : CapturedEntry) (rb : RingBuffer) (heap : Heap) (ch : ℕ)
    → All (IsOpen heap) rb.subscribers
    → contains ch rb.subscribers ≡ true
    → run
        (begin env entry ∷ leave ch ∷ replicate (length rb.subscribers) (deliver_next 0))
        (record { ring = rb; heap = heap; pending = [] })
      ≡ none
unfolding run step begin_push push_locked write_tail unsubscribe
leave_during_push_panics env entry rb heap ch o m =
    let (heap', done, shut, same) =
      close_open heap ch (contained-IsOpen heap ch rb.subscribers o m) in
    let present : contains ch (make_room rb).subscribers ≡ true = rw (make_room-subscribers rb) m in
    rw (present, done, ◌>>=◌)
      (sends_panic ch rb.subscribers (finalize_entry env entry).0 _ heap' [] m shut
        (All-map _ _ (λ d p n. ap open_at (same d n) ∙ p) rb.subscribers o))
