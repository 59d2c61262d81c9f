-- ===== src/Proxy/Concurrent/Alone.antt =====
-- internal/proxy/proxy_body.go: the two steps of a goroutine, with no other in between, beside the
-- handler of a response.
use goper.Base.{List, [], ◌∷◌, ◌≡◌, refl}
use goper.Base.Text.{Text}
use goper.Capture.Entry.{Env, CapturedEntry, new_entry_id}
use goper.Capture.Ring.{push_locked}
use goper.Capture.Recorder.{combine_entry, recorder_capture_response}
use goper.Proxy.Body.{Response}
use goper.Proxy.Handlers.{
  Server, CaptureCtx, full_entry, push_entry, capture_streaming, capture_response_into,
}
use goper.Proxy.Concurrent.{Recording, Event, combines, pushes, take_at, push_one, step, run}

-- The two steps for a response with these body bytes.
abbrev steps : Server → Env → CaptureCtx → Response → Text → List Event
steps s env ctx resp body =
    combines env.now env.stamp ctx.entry
      (recorder_capture_response s.recorder env resp.status_code resp.header body ctx.start)
    ∷ pushes env.now env.stamp 0
    ∷ []

abbrev recording : Server → Env → List CapturedEntry → List CapturedEntry → Recording
recording s env pending history = record {
  store = s.store;
  counter = env.counter;
  pending = pending;
  history = history;
}

-- The two steps do to the store and to the counter what the handler of a response does.
pub capture_response_into-run :
    (s : Server) (env : Env) (ctx : CaptureCtx) (resp : Response) (body : Text)
    (pending history : List CapturedEntry)
    → let st = run (recording s env pending history) (steps s env ctx resp body) in
      let x = capture_response_into s env ctx resp body in
      (st.store ≡ x.0.store) × (st.counter ≡ x.1.counter) × (st.pending ≡ pending)
unfolding capture_response_into full_entry push_entry run step push_one take_at combine_entry
    push_locked new_entry_id
capture_response_into-run s env ctx resp body pending history = (refl, refl, refl)

-- The same for a response that streams, whose body is not read.
pub capture_streaming-run :
    (s : Server) (env : Env) (ctx : CaptureCtx) (resp : Response)
    (pending history : List CapturedEntry)
    → let st = run (recording s env pending history) (steps s env ctx resp []) in
      let x = capture_streaming s env ctx resp in
      (st.store ≡ x.0.store) × (st.counter ≡ x.1.counter) × (st.pending ≡ pending)
unfolding capture_streaming full_entry push_entry run step push_one take_at combine_entry
    push_locked new_entry_id
capture_streaming-run s env ctx resp pending history = (refl, refl, refl)
