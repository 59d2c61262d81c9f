-- ===== src/Capture/Subscribers/Safety.antt =====
-- internal/capture/store.go: which interleavings of pushes and subscriptions are free of panics.
use goper.Base.{
  ℕ, zero, suc, ◌<◌, true, false, List, [], ◌∷◌, ◌++◌, some, ◌==◌, ◌≡◌, ◌≢◌, refl, sym, ap, ◌∙◌,
  inl, inr, arith, length, get_elem?, All, All-append, All-map, Option-cases, Bool-cases,
  get_elem?-lt, get_elem?-append_end, get_elem?-append_ne,
}
use native.Mathlib.Decide.{ℕ_discrete}
use goper.Capture.Entry.{CapturedEntry}
use goper.Capture.Subscribers.{
  Channel, Heap, World, Event, leave, ◌>>=◌, contains, remove_first, subscribe, unsubscribe,
  deliver_at,
}
use goper.Capture.Subscribers.Sends.{IsOpen, open_at, send_open, close_open, send-open_at}
use goper.Capture.Subscribers.Delivery.{AllDistinct, All-IsOpen}

-- Every subscriber and every channel that a push under way still has to send on is open.
pub record IsWired (w : World) : Type 0 where
  pub all_open : All (IsOpen w.heap) w.ring.subscribers
  pub distinct : AllDistinct w.ring.subscribers
  pub waiting : All (λ (p : List ℕ × CapturedEntry). All (IsOpen w.heap) p.0) w.pending

-- Nobody leaves while a push under way still has to send on that channel.
abbrev pub IsCalm : Event → World → Type 0
IsCalm (leave ch) w = All (λ (p : List ℕ × CapturedEntry). contains ch p.0 ≡ false) w.pending
IsCalm _ w = Unit

abbrev pub Pending : Type 0
Pending = List (List ℕ × CapturedEntry)

abbrev pub AllWaiting : Heap → Pending → Type 0
AllWaiting heap pending = All (λ (p : List ℕ × CapturedEntry). All (IsOpen heap) p.0) pending

pub waiting_same :
    (heap heap' : Heap) (pending : Pending)
    → ((d : ℕ) → open_at (get_elem? heap' d) ≡ open_at (get_elem? heap d))
    → AllWaiting heap pending
    → AllWaiting heap' pending
waiting_same heap heap' pending same = All-map _ _ (λ p. All-IsOpen heap heap' p.0 same) pending

pub deliver_at_open :
    (k : ℕ) (pending : Pending) (heap : Heap)
    → AllWaiting heap pending
    → (heap' : Heap) × (rest : Pending) × (deliver_at k pending heap ≡ some (heap', rest))
      × AllWaiting heap' rest
      × ((d : ℕ) → open_at (get_elem? heap' d) ≡ open_at (get_elem? heap d))
unfolding deliver_at
deliver_at_open k [] heap h = (heap, [], refl, tt, λ d. refl)
deliver_at_open zero (([], entry) ∷ rest) heap h = (heap, rest, refl, h.1, λ d. refl)
deliver_at_open zero ((ch ∷ subs, entry) ∷ rest) heap h =
    let (heap', sent, at_ch, others) = send_open heap ch entry h.0.0 in
    let same = send-open_at entry heap heap' ch at_ch others in
    (
      heap',
      (subs, entry) ∷ rest,
      rw (sent, ◌>>=◌),
      (All-IsOpen heap heap' subs same h.0.1, waiting_same heap heap' rest same h.1),
      same,
    )
deliver_at_open (suc k) (p ∷ pending) heap h =
    let (heap', rest, done, waits, same) = deliver_at_open k pending heap h.1 in
    (heap', p ∷ rest, rw (done, ◌>>=◌), (All-IsOpen heap heap' p.0 same h.0, waits), same)

pub open-lt : (heap : Heap) (d : ℕ) → IsOpen heap d → d < length heap
open-lt heap d o = elim (Option-cases (get_elem? heap d)) [
  | inl e ↦ absurd (ground (arith, e))
  | inr (c, e) ↦ get_elem?-lt heap d c e
]

IsOpen-append : (heap : Heap) (c : Channel) (d : ℕ) → IsOpen heap d → IsOpen (heap ++ c ∷ []) d
IsOpen-append heap c d o =
    ap open_at (get_elem?-append_ne heap c d (omega (arith, open-lt heap d o))) ∙ o

-- A new address differs from every subscriber's.
distinct_append :
    (heap : Heap) (subs : List ℕ)
    → All (IsOpen heap) subs
    → AllDistinct subs
    → AllDistinct (subs ++ length heap ∷ [])
distinct_append heap [] o n = (tt, tt)
distinct_append heap (ch ∷ subs) o n = (
  All-append (λ d. ch ≢ d) subs (length heap ∷ []) n.0 (omega (arith, open-lt heap ch o.0), tt),
  distinct_append heap subs o.1 n.1,
)

pub join-IsWired : (w : World) → IsWired w → IsWired (subscribe w).0
unfolding subscribe
join-IsWired w h = record {
  all_open =
      All-append (IsOpen _) w.ring.subscribers (length w.heap ∷ [])
        (All-map _ _ (IsOpen-append w.heap _) w.ring.subscribers h.all_open)
        (ap open_at (get_elem?-append_end w.heap _), tt);
  distinct = distinct_append w.heap w.ring.subscribers h.all_open h.distinct;
  waiting = All-map _ _ (λ p. All-map _ _ (IsOpen-append w.heap _) p.0) w.pending h.waiting;
}

remove_first-All {κ} :
    (P : ℕ → Type κ) (ch : ℕ) (subs : List ℕ) → All P subs → All P (remove_first ch subs)
unfolding remove_first
remove_first-All P ch [] h = tt
remove_first-All P ch (d ∷ subs) h = elim (Bool-cases (d == ch)) [
  | inl e ↦ rw e h.1
  | inr e ↦ rw e (h.0, remove_first-All P ch subs h.1)
]

remove_first_distinct :
    (ch : ℕ) (subs : List ℕ) → AllDistinct subs → AllDistinct (remove_first ch subs)
unfolding remove_first
remove_first_distinct ch [] h = tt
remove_first_distinct ch (d ∷ subs) h = elim (Bool-cases (d == ch)) [
  | inl e ↦ rw e h.1
  | inr e ↦ rw e (remove_first-All _ ch subs h.0, remove_first_distinct ch subs h.1)
]

-- Once a channel is removed it is not among distinct subscribers any more.
removed_ne : (ch : ℕ) (subs : List ℕ) → AllDistinct subs → All (λ d. ch ≢ d) (remove_first ch subs)
unfolding remove_first
removed_ne ch [] n = tt
removed_ne ch (d ∷ subs) n = elim (ℕ_discrete d ch) [
  | yes e ↦
      let t : (d == ch) ≡ true = ground arith in rw t (All-map _ _ (λ x ne s. ne (e ∙ s)) subs n.0)
  | no e ↦
      let t : (d == ch) ≡ false = ground arith in rw t ((λ s. e (sym s)), removed_ne ch subs n.1)
]

pub absent_ne : (ch : ℕ) (subs : List ℕ) → contains ch subs ≡ false → All (λ d. ch ≢ d) subs
unfolding contains
absent_ne ch [] h = tt
absent_ne ch (d ∷ subs) h = (ground arith, absent_ne ch subs (ground arith))

-- Channels other than the closed one stay open.
All-others :
    (heap heap' : Heap) (ch : ℕ) (subs : List ℕ)
    → ((d : ℕ) → ch ≢ d → get_elem? heap' d ≡ get_elem? heap d)
    → All (λ d. ch ≢ d) subs
    → All (IsOpen heap) subs
    → All (IsOpen heap') subs
All-others heap heap' ch [] same n h = tt
All-others heap heap' ch (d ∷ subs) same n h =
    (ap open_at (same d n.0) ∙ h.0, All-others heap heap' ch subs same n.1 h.1)

pub contained-IsOpen :
    (heap : Heap) (ch : ℕ) (subs : List ℕ)
    → All (IsOpen heap) subs
    → contains ch subs ≡ true
    → IsOpen heap ch
unfolding contains
contained-IsOpen heap ch [] o h = cc
contained-IsOpen heap ch (d ∷ subs) o h = elim (ℕ_discrete d ch) [
  | yes e ↦ rw (← e) o.0
  | no e ↦ contained-IsOpen heap ch subs o.1 (ground arith)
]

waiting_others :
    (heap heap' : Heap) (ch : ℕ) (pending : Pending)
    → ((d : ℕ) → ch ≢ d → get_elem? heap' d ≡ get_elem? heap d)
    → All (λ (p : List ℕ × CapturedEntry). contains ch p.0 ≡ false) pending
    → AllWaiting heap pending
    → AllWaiting heap' pending
waiting_others heap heap' ch [] same n h = tt
waiting_others heap heap' ch (p ∷ rest) same n h = (
  All-others heap heap' ch p.0 same (absent_ne ch p.0 n.0) h.0,
  waiting_others heap heap' ch rest same n.1 h.1,
)

pub leave-IsWired :
    (ch : ℕ) (w : World)
    → IsWired w
    → IsCalm (leave ch) w
    → (w' : World) × (unsubscribe w ch ≡ some w') × IsWired w'
unfolding unsubscribe
leave-IsWired ch w h calm = elim (Bool-cases (contains ch w.ring.subscribers)) [
  | inr absent ↦ (w, rw absent, h)
  | inl present ↦
      let (heap', done, shut, same) =
        close_open w.heap ch (contained-IsOpen w.heap ch w.ring.subscribers h.all_open present) in
      let subs = remove_first ch w.ring.subscribers in
      let rb = w.ring in
      (
        record w { ring = record rb { subscribers = subs }; heap = heap' },
        rw (present, done, ◌>>=◌),
        record {
          all_open =
              All-others w.heap heap' ch subs same (removed_ne ch _ h.distinct)
                (remove_first-All _ ch _ h.all_open);
          distinct = remove_first_distinct ch _ h.distinct;
          waiting = waiting_others w.heap heap' ch w.pending same calm h.waiting;
        },
      )
]
