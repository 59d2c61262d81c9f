-- ===== src/Capture/Subscribers.antt =====
-- internal/capture/store.go: subscribers as channels on a heap, and the interleavings of the
-- goroutines that push, subscribe, unsubscribe and receive.
pub mod Sends
pub mod Delivery
pub mod Safety
pub mod Interleavings
pub mod Bounded
pub mod Leaving
use goper.Base.{
  ℕ, zero, suc, ◌+◌, ◌<◌, Bool, true, false, not, ◌&&◌, List, [], ◌∷◌, ◌++◌, Option, none, some,
  ◌==◌, ltb, if◌then◌else◌, length, get_elem?, set,
}
use goper.Capture.Entry.{CapturedEntry, Env}
use goper.Capture.Ring.{RingBuffer, push_locked, clear}

-- `chan *CapturedEntry` with a buffer of `channel_room`.
pub record Channel : Type 0 where
  pub queue : List CapturedEntry
  pub closed : Bool

-- A channel's address is its place in the heap.
abbrev pub Heap : Type 0
Heap = List Channel

abbrev pub channel_room : ℕ
channel_room = 100

-- The send of a `select` with a default: it is skipped when the channel is full, and panics
-- (`none`) when the channel is closed. No address in use lies outside the heap.
send_on : Option Channel → Heap → ℕ → CapturedEntry → Option Heap
send_on none heap ch entry = none
send_on (some c) heap ch entry =
    if c.closed
    then none
    else if ltb (length c.queue) channel_room
    then some (set heap ch (record c { queue = c.queue ++ entry ∷ [] }))
    else some heap

unfoldable pub send_or_skip : Heap → ℕ → CapturedEntry → Option Heap
unfolding send_on
send_or_skip heap ch entry = send_on (get_elem? heap ch) heap ch entry

-- `close`, which panics on a closed channel.
close_on : Option Channel → Heap → ℕ → Option Heap
close_on none heap ch = none
close_on (some c) heap ch =
    if c.closed then none else some (set heap ch (record c { closed = true }))

unfoldable pub close_channel : Heap → ℕ → Option Heap
unfolding close_on
close_channel heap ch = close_on (get_elem? heap ch) heap ch

infixl 5 ◌>>=◌
abbrev pub ◌>>=◌ {ℓ κ} : {A : Type ℓ} {B : Type κ} → Option A → (A → Option B) → Option B
none >>= f = none
some a >>= f = f a

-- `notifySubscribers`: one send for each address of the snapshot, in order.
unfoldable pub notify : List ℕ → CapturedEntry → Heap → Option Heap
notify [] entry heap = some heap
notify (ch ∷ subs) entry heap = do heap' ← send_or_skip heap ch entry; notify subs entry heap'

-- `Push` with no other goroutine between the lock and the sends.
unfoldable pub push : Env → RingBuffer → CapturedEntry → Heap → Option (RingBuffer × Heap)
push env rb entry heap =
    let (rb', stored, subs, env') = push_locked env rb entry in
    do heap' ← notify subs stored heap; some (rb', heap')

unfoldable pub contains : ℕ → List ℕ → Bool
contains ch [] = false
contains ch (sub ∷ subs) = if sub == ch then true else contains ch subs

unfoldable pub remove_first : ℕ → List ℕ → List ℕ
remove_first ch [] = []
remove_first ch (sub ∷ subs) = if sub == ch then subs else sub ∷ remove_first ch subs

-- The store with its channels, and for each push that has released the lock the sends to do.
pub record World : Type 0 where
  pub ring : RingBuffer
  pub heap : Heap
  pub pending : List (List ℕ × CapturedEntry)

abbrev new_channel : Channel
new_channel = record { queue = []; closed = false }

unfoldable pub subscribe : World → World × ℕ
subscribe w =
    let ch = length w.heap in
    let rb = w.ring in
    (
      record w {
        ring = record rb { subscribers = rb.subscribers ++ ch ∷ [] };
        heap = w.heap ++ new_channel ∷ [];
      },
      ch,
    )

unsubscribe_found : World → ℕ → Option World
unsubscribe_found w ch = do
  heap ← close_channel w.heap ch
  let rb = w.ring
  some (record w { ring = record rb { subscribers = remove_first ch rb.subscribers }; heap = heap })

unfoldable pub unsubscribe : World → ℕ → Option World
unfolding unsubscribe_found
unsubscribe w ch = if contains ch w.ring.subscribers then unsubscribe_found w ch else some w

-- `Push` up to the release of the lock.
unfoldable pub begin_push : Env → CapturedEntry → World → World
begin_push env entry w =
    let (rb, stored, subs, env') = push_locked env w.ring entry in
    record w { ring = rb; pending = w.pending ++ (subs, stored) ∷ [] }

-- The next send of the `k`-th push that is under way, which may be any of them.
unfoldable pub deliver_at :
    ℕ → List (List ℕ × CapturedEntry) → Heap → Option (Heap × List (List ℕ × CapturedEntry))
deliver_at k [] heap = some (heap, [])
deliver_at zero (([], entry) ∷ rest) heap = some (heap, rest)
deliver_at zero ((ch ∷ subs, entry) ∷ rest) heap = do
  heap' ← send_or_skip heap ch entry
  some (heap', (subs, entry) ∷ rest)
deliver_at (suc k) (p ∷ rest) heap = do
  (heap', rest') ← deliver_at k rest heap
  some (heap', p ∷ rest')

unfoldable pub deliver : ℕ → World → Option World
deliver k w = do
  (heap, pending) ← deliver_at k w.pending w.heap
  some (record w { heap = heap; pending = pending })

-- A subscriber takes the oldest entry of its channel.
abbrev tail_of : List CapturedEntry → List CapturedEntry
tail_of [] = []
tail_of (e ∷ es) = es

take_from : Option Channel → Heap → ℕ → Heap
take_from none heap ch = heap
take_from (some c) heap ch = set heap ch (record c { queue = tail_of c.queue })

unfoldable pub receive : World → ℕ → World
unfolding take_from
receive w ch = record w { heap = take_from (get_elem? w.heap ch) w.heap ch }

pub data Event : Type 0 where
  begin : Env → CapturedEntry → Event
  deliver_next : ℕ → Event
  join : Event
  leave : ℕ → Event
  take_one : ℕ → Event
  wipe : Event

-- One step of some goroutine; `none` is a panic.
unfoldable pub step : Event → World → Option World
step (begin env entry) w = some (begin_push env entry w)
step (deliver_next k) w = deliver k w
step join w = some (subscribe w).0
step (leave ch) w = unsubscribe w ch
step (take_one ch) w = some (receive w ch)
step wipe w = some (record w { ring = clear w.ring })

unfoldable pub run : List Event → World → Option World
run [] w = some w
run (e ∷ es) w = do w' ← step e w; run es w'
