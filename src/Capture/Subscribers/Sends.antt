-- ===== src/Capture/Subscribers/Sends.antt =====
-- internal/capture/store.go: what one send, one close and one round of sends do to the channels.
use goper.Base.{
  ℕ, Bool, true, false, not, [], ◌∷◌, ◌++◌, Option, none, some, ltb, if◌then◌else◌, ◌≡◌, ◌≢◌, refl,
  ap, ◌∙◌, inl, inr, arith, length, get_elem?, set, Option-cases, Bool-cases, get_elem?-set_self,
  get_elem?-set_ne, get_elem?-lt,
}
use native.Mathlib.Decide.{ℕ_discrete}
use goper.Capture.Entry.{CapturedEntry}
use goper.Capture.Subscribers.{Channel, Heap, channel_room, send_or_skip, close_channel}

abbrev pub open_at : Option Channel → Bool
open_at none = false
open_at (some c) = not c.closed

abbrev pub IsOpen : Heap → ℕ → Type 0
IsOpen heap ch = open_at (get_elem? heap ch) ≡ true

-- What a channel holds after a send.
abbrev pub after_send : CapturedEntry → Option Channel → Option Channel
after_send entry none = none
after_send entry (some c) =
    if ltb (length c.queue) channel_room
    then some (record c { queue = c.queue ++ entry ∷ [] })
    else some c

pub send_open :
    (heap : Heap) (ch : ℕ) (entry : CapturedEntry)
    → IsOpen heap ch
    → (heap' : Heap) × (send_or_skip heap ch entry ≡ some heap')
      × (get_elem? heap' ch ≡ after_send entry (get_elem? heap ch))
      × ((d : ℕ) → ch ≢ d → get_elem? heap' d ≡ get_elem? heap d)
unfolding send_or_skip
send_open heap ch entry o = elim (Option-cases (get_elem? heap ch)) [
  | inl e ↦ ground (arith, e)
  | inr (c, e) ↦ elim (Bool-cases (ltb (length c.queue) channel_room)) [
    | inl room ↦ (
      set heap ch (record c { queue = c.queue ++ entry ∷ [] }),
      ground (arith, e, room),
      get_elem?-set_self heap ch _ (get_elem?-lt heap ch c e) ∙ ground (arith, e, room),
      λ d n. get_elem?-set_ne heap ch d _ n,
    )
    | inr full ↦ (heap, ground (arith, e, full), ground (arith, e, full), λ d n. refl)
  ]
]

pub send_closed :
    (heap : Heap) (ch : ℕ) (entry : CapturedEntry)
    → open_at (get_elem? heap ch) ≡ false
    → send_or_skip heap ch entry ≡ none
unfolding send_or_skip
send_closed heap ch entry o = ground arith

pub close_open :
    (heap : Heap) (ch : ℕ)
    → IsOpen heap ch
    → (heap' : Heap) × (close_channel heap ch ≡ some heap')
      × (open_at (get_elem? heap' ch) ≡ false)
      × ((d : ℕ) → ch ≢ d → get_elem? heap' d ≡ get_elem? heap d)
unfolding close_channel
close_open heap ch o = elim (Option-cases (get_elem? heap ch)) [
  | inl e ↦ ground (arith, e)
  | inr (c, e) ↦ (
    set heap ch (record c { closed = true }),
    ground (arith, e),
    ap open_at (get_elem?-set_self heap ch _ (get_elem?-lt heap ch c e)),
    λ d n. get_elem?-set_ne heap ch d _ n,
  )
]

-- A send keeps every channel as open as it was.
pub send-open_at :
    (entry : CapturedEntry) (heap heap' : Heap) (ch : ℕ)
    → get_elem? heap' ch ≡ after_send entry (get_elem? heap ch)
    → ((d : ℕ) → ch ≢ d → get_elem? heap' d ≡ get_elem? heap d)
    → (d : ℕ) → open_at (get_elem? heap' d) ≡ open_at (get_elem? heap d)
send-open_at entry heap heap' ch at_ch others d = elim (ℕ_discrete ch d) [
  | yes same ↦ rw (← same, at_ch) (ground arith)
  | no other ↦ ap open_at (others d other)
]
