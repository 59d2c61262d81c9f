-- ===== src/Api/Stream.antt =====
-- internal/api/handlers_sse.go: the stream of entries to one client. `json.Marshal` of an entry is
-- the parameter `marshal`, `none` for its error.
pub mod Frames
pub mod Leaving
use goper.Base.{
  ℕ, zero, suc, Bool, true, false, ◌&&◌, List, [], ◌∷◌, ◌++◌, Option, none, some, if◌then◌else◌,
}
use goper.Base.Int.{ℤ, pos, leb_ℤ}
use goper.Base.Text.{Text, codes}
use goper.Capture.Entry.{CapturedEntry, zero_time}
use goper.Capture.Filter.{limit_only}
use goper.Capture.Ring.{RingBuffer, list}
use goper.Capture.Subscribers.{World, subscribe, unsubscribe, ◌>>=◌}

-- What a client has received, and how many writes to it succeed before its connection is lost.
pub record Client : Type 0 where
  pub sent : List Text
  pub room : ℕ

unfoldable pub write_after : ℕ → Client → Text → Bool × Client
write_after zero c text = (false, c)
write_after (suc n) c text = (true, record c { sent = c.sent ++ text ∷ []; room = n })

-- A write and its flush.
unfoldable pub write : Client → Text → Bool × Client
unfolding write_after
write c text = write_after c.room c text

abbrev pub newlines : Text
newlines = 10 ∷ 10 ∷ []

abbrev pub ping_text : Text
ping_text = codes ": ping" ++ newlines

abbrev pub event_text : Text → Text
event_text data' = codes "data: " ++ data' ++ newlines

unfoldable pub write_sse_ping : Client → Bool × Client
write_sse_ping c = write c ping_text

unfoldable pub write_marshalled : Client → Option Text → Bool × Client
write_marshalled c none = (true, c)
write_marshalled c (some data') = write c (event_text data')

-- What the select of a stream may find ready.
pub data StreamEvent : Type 0 where
  cancelled ticked closed : StreamEvent
  arrived : CapturedEntry → StreamEvent

module _ (marshal : CapturedEntry → Option Text) where
  unfoldable pub write_sse : Client → CapturedEntry → Bool × Client
  unfolding write_marshalled
  write_sse c entry = write_marshalled c (marshal entry)

  unfoldable pub write_entries : Client → List CapturedEntry → Bool × Client
  write_entries c [] = (true, c)
  write_entries c (e ∷ es) =
      let (fine, c') = write_sse c e in
      let rest = write_entries c' es in if fine then rest else (false, c')

  unfoldable pub backfill_sse : RingBuffer → Client → ℤ → Bool × Client
  backfill_sse store c backfill =
      if leb_ℤ backfill (pos 0)
      then (true, c)
      else write_entries c (list store (limit_only backfill))

  unfoldable pub stream_select : Client → StreamEvent → Bool × Client
  stream_select c cancelled = (false, c)
  stream_select c ticked = write_sse_ping c
  stream_select c closed = (false, c)
  stream_select c (arrived e) = write_sse c e

  -- The loop on the events in the order in which it finds them.
  unfoldable pub stream_loop : Client → List StreamEvent → Client
  stream_loop c [] = c
  stream_loop c (e ∷ es) =
      let (healthy, c') = stream_select c e in
      let rest = stream_loop c' es in if healthy then rest else c'

  -- A client whose writer can flush.
  unfoldable pub stream_requests : RingBuffer → Client → ℤ → List StreamEvent → Client
  stream_requests store c backfill events =
      let (fine, c') = backfill_sse store c backfill in if fine then stream_loop c' events else c'

  -- The same with its channel: it is opened behind the backfill and closed when the loop has ended.
  -- `none` is a panic. What other goroutines do in between is in Capture.Subscribers.
  stream_subscribed : World → Client → List StreamEvent → Option (World × Client)
  unfolding stream_loop
  stream_subscribed w c events =
      let (w', ch) = subscribe w in do left ← unsubscribe w' ch; some (left, stream_loop c events)

  unfoldable pub stream_session : World → Client → ℤ → List StreamEvent → Option (World × Client)
  unfolding stream_subscribed
  stream_session w c backfill events =
      let (fine, c') = backfill_sse w.ring c backfill in
      if fine then stream_subscribed w c' events else some (w, c')
