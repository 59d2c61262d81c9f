-- ===== src/Capture/Subscribers/Delivery.antt =====
-- internal/capture/store.go: `Push` run with no other goroutine in between reaches every
-- subscriber.
use goper.Base.{
  ℕ, false, List, [], ◌∷◌, some, if◌then◌else◌, ◌≡◌, ◌≢◌, refl, ◌∙◌, arith, get_elem?, All,
}
use native.Mathlib.Decide.{ℕ_discrete}
use goper.Capture.Entry.{CapturedEntry, Env}
use goper.Capture.Ring.{RingBuffer, finalize_entry, make_room, write_tail, push_locked}
use goper.Capture.Subscribers.{Heap, notify, push, ◌>>=◌, contains}
use goper.Capture.Subscribers.Sends.{IsOpen, open_at, after_send, send_open, send-open_at}

abbrev pub AllDistinct : List ℕ → Type 0
AllDistinct [] = Unit
AllDistinct (ch ∷ subs) = All (λ d. ch ≢ d) subs × AllDistinct subs

-- Openness of all channels carries over to a heap with the same open channels.
pub All-IsOpen :
    (heap heap' : Heap) (subs : List ℕ)
    → ((d : ℕ) → open_at (get_elem? heap' d) ≡ open_at (get_elem? heap d))
    → All (IsOpen heap) subs
    → All (IsOpen heap') subs
All-IsOpen heap heap' [] same h = tt
All-IsOpen heap heap' (ch ∷ subs) same h = (same ch ∙ h.0, All-IsOpen heap heap' subs same h.1)

pub contains-ne : (ch : ℕ) (subs : List ℕ) → All (λ d. ch ≢ d) subs → contains ch subs ≡ false
unfolding contains
contains-ne ch [] h = refl
contains-ne ch (d ∷ subs) h = ground (arith, h.0, contains-ne ch subs h.1)

pub notify_open :
    (subs : List ℕ) (entry : CapturedEntry) (heap : Heap)
    → All (IsOpen heap) subs
    → AllDistinct subs
    → (heap' : Heap) × (notify subs entry heap ≡ some heap')
      × ((d : ℕ)
          → get_elem? heap' d
            ≡ (if contains d subs then after_send entry (get_elem? heap d) else get_elem? heap d))
unfolding notify contains
notify_open [] entry heap o n = (heap, refl, λ d. refl)
notify_open (ch ∷ subs) entry heap o n =
    let (mid, sent, at_ch, others) = send_open heap ch entry o.0 in
    let (heap', done, rest) =
      notify_open subs entry mid
        (All-IsOpen heap mid subs (send-open_at entry heap mid ch at_ch others) o.1) n.1 in
    (
      heap',
      rw (sent, ◌>>=◌) done,
      λ d. elim (ℕ_discrete ch d) [
        | yes same ↦ ground (arith, same, rest d, rest ch, at_ch, contains-ne ch subs n.0)
        | no other ↦ ground (arith, rest d, others d other)
      ],
    )

-- A push with open subscribers does not panic, leaves every other channel alone, and gives each
-- subscriber the stored entry unless its channel is full.
pub push_delivers :
    (env : Env) (rb : RingBuffer) (entry : CapturedEntry) (heap : Heap)
    → All (IsOpen heap) rb.subscribers
    → AllDistinct rb.subscribers
    → let stored = (finalize_entry env entry).0 in
      (heap' : Heap) × (push env rb entry heap ≡ some (write_tail (make_room rb) stored, heap'))
      × ((d : ℕ)
          → get_elem? heap' d ≡ (
              if contains d rb.subscribers
              then after_send stored (get_elem? heap d)
              else get_elem? heap d))
unfolding push push_locked
push_delivers env rb entry heap o n =
    let (heap', done, each) = notify_open rb.subscribers (finalize_entry env entry).0 heap o n in
    (heap', rw (done, ◌>>=◌), each)
