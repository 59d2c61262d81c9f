-- ===== src/Api/Stream/Leaving.antt =====
-- internal/api/handlers_sse.go: what a stream leaves behind in the store.
use goper.Base.{List, Option, some, ◌≡◌, refl, inl, inr, Bool-cases}
use goper.Base.Int.{ℤ}
use goper.Base.Text.{Text}
use goper.Capture.Entry.{CapturedEntry}
use goper.Capture.Subscribers.{World, ◌>>=◌}
use goper.Capture.Subscribers.Safety.{IsWired}
use goper.Capture.Subscribers.Leaving.{joined-leaves}
use goper.Api.Stream.{
  Client, StreamEvent, backfill_sse, stream_loop, stream_subscribed, stream_session,
}

module _ (marshal : CapturedEntry → Option Text) where
  -- However a stream goes, it does not panic, and the store is left with the subscribers it had.
  pub stream_session_lem :
      (w : World) (c : Client) (backfill : ℤ) (events : List StreamEvent)
      → IsWired w
      → (w' : World) × (c' : Client) × (stream_session marshal w c backfill events ≡ some (w', c'))
        × (w'.ring ≡ w.ring)
  unfolding stream_session stream_subscribed
  stream_session_lem w c backfill events h =
      let (fine, c') = backfill_sse marshal w.ring c backfill in
      elim (Bool-cases fine) [
        | inr lost ↦ (w, c', rw lost refl, refl)
        | inl kept ↦
            let (w', left, same) = joined-leaves w h in
            (w', stream_loop marshal c' events, rw (kept, left, ◌>>=◌) refl, same)
      ]
