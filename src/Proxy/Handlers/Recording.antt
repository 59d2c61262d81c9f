-- ===== src/Proxy/Handlers/Recording.antt =====
-- internal/proxy/proxy.go and proxy_body.go: what a response leaves in the store and the outputs.
use goper.Base.{
  ℕ, Bool, true, false, ◌||◌, List, [], ◌∷◌, ◌++◌, Option, none, some, ◌≡◌, inl, inr, refl, sym, ap,
  arith, if◌then◌else◌, Bool-cases, map,
}
use mathlib.Core.List.{append-nil}
use goper.Base.Int.{ℤ}
use goper.Base.Text.{Text}
use goper.Capture.Entry.{Env, CapturedEntry, new_entry_id}
use goper.Capture.Ring.{push_locked, make_room, write_tail}
use goper.Capture.Ring.Spec.{keep_last}
use goper.Capture.Recorder.{CaptureResult, combine_entry}
use goper.Capture.Streams.{Reader}
use goper.Output.Writers.{Writer}
use goper.Proxy.Body.{
  Response, BodyRead, read_body_bounded, read_body_of, read_present, rewire, is_streaming_response,
  fix_content_length,
}
use goper.Output.Writers.{Writer}
use goper.Proxy.Body.Streaming.{read_body_bounded-response}
use goper.Proxy.Handlers.{
  Server, CaptureCtx, full_entry, push_entry, capture_streaming, capture_response_into,
  write_outputs, after_read, record_response,
}
use goper.Proxy.Handlers.Issued.{
  IsRecorded, IsReady, finalize_entry_same, id_not_empty, write-IsRecorded,
}

-- The pushed entry goes in as it is.
push_entry_new :
    (s : Server) (env : Env) (entry : CapturedEntry) (result : CaptureResult)
    → let (e, env1) = combine_entry env entry result in
      push_entry s env1 e ≡ (record s { store = write_tail (make_room s.store) e }, env1)
unfolding push_entry push_locked combine_entry new_entry_id
push_entry_new s env entry result =
    rw
      (finalize_entry_same (new_entry_id env).1 (combine_entry env entry result).0
        (id_not_empty env) refl)
      refl

write_outputs-map :
    (e : CapturedEntry) (ws : List Writer) → write_outputs e ws ≡ map (λ w. (w, e)) ws
unfolding write_outputs
write_outputs-map e [] = refl
write_outputs-map e (w ∷ ws) = ap (λ r. (w, e) ∷ r) (write_outputs-map e ws)

pub full_entry_fixed :
    (s : Server) (env : Env) (ctx : CaptureCtx) (resp : Response) (body : Text) (cut : Bool)
    → full_entry s env ctx (fix_content_length resp body cut) body ≡ full_entry s env ctx resp body
unfolding fix_content_length full_entry
full_entry_fixed s env ctx resp body true = refl
full_entry_fixed s env ctx resp body false = refl

-- The writes to the outputs that follow what reading the body returned.
unfoldable pub writes_of : BodyRead → CapturedEntry → List Writer → List (Writer × CapturedEntry)
writes_of b e outputs = if b.failed || b.skipped then [] else map (λ w. (w, e)) outputs

-- The entries that are kept after what reading the body returned.
unfoldable pub kept_after : BodyRead → ℕ → List CapturedEntry → CapturedEntry → List CapturedEntry
kept_after b capacity q e = if b.failed then q else keep_last capacity (q ++ e ∷ [])

full_entry-IsRecorded :
    (s : Server) (env : Env) (ctx : CaptureCtx) (resp : Response) (body : Text)
    (q : List CapturedEntry)
    → IsRecorded s.store env q
    → IsReady env
    → let (e, env1) = full_entry s env ctx resp body in
      IsRecorded (write_tail (make_room s.store) e) env1 (keep_last s.store.capacity (q ++ e ∷ []))
unfolding full_entry combine_entry
full_entry-IsRecorded s env ctx resp body q r ready =
    write-IsRecorded s.store env q (full_entry s env ctx resp body).0 r ready refl

-- The server with the entry of a response in its store.
abbrev stored : Server → Env → CaptureCtx → Response → Text → Server
stored s env ctx resp body = record s {
  store = write_tail (make_room s.store) (full_entry s env ctx resp body).0;
}

push_full :
    (s : Server) (env : Env) (ctx : CaptureCtx) (resp : Response) (body : Text)
    → push_entry s (full_entry s env ctx resp body).1 (full_entry s env ctx resp body).0
      ≡ (stored s env ctx resp body, (full_entry s env ctx resp body).1)
unfolding full_entry
push_full s env ctx resp body = push_entry_new s env ctx.entry _

pub capture_streaming_lem :
    (s : Server) (env : Env) (ctx : CaptureCtx) (resp : Response)
    → capture_streaming s env ctx resp
      ≡ (stored s env ctx resp [], (full_entry s env ctx resp []).1)
unfolding capture_streaming
capture_streaming_lem s env ctx resp = push_full s env ctx resp []

pub capture_response_into_lem :
    (s : Server) (env : Env) (ctx : CaptureCtx) (resp : Response) (body : Text)
    → let e = (full_entry s env ctx resp body).0 in
      capture_response_into s env ctx resp body ≡ (
        record (stored s env ctx resp body) { written = s.written ++ map (λ w. (w, e)) s.outputs },
        (full_entry s env ctx resp body).1,
      )
unfolding capture_response_into
capture_response_into_lem s env ctx resp body =
    rw
      (
        push_full s env ctx resp body,
        write_outputs-map (full_entry s env ctx resp body).0 s.outputs,
      )
      refl

after_read_lem :
    (s : Server) (env : Env) (ctx : CaptureCtx) (b : BodyRead) (resp : Response)
    (q : List CapturedEntry)
    → (b.skipped ≡ true → b.body ≡ [])
    → IsRecorded s.store env q
    → IsReady env
    → let x = after_read s env ctx b resp in
      let e = (full_entry s env ctx resp b.body).0 in
      IsRecorded x.0.store x.1 (kept_after b s.store.capacity q e)
      × (x.0.written ≡ s.written ++ writes_of b e s.outputs)
unfolding after_read kept_after writes_of
after_read_lem s env ctx b resp q empty r ready = elim (Bool-cases b.failed) [
  | inl f ↦ rw f (r, sym (append-nil s.written))
  | inr f ↦ rw f (elim (Bool-cases b.skipped) [
    | inl k ↦
        rw (k, capture_streaming_lem s env ctx resp, empty k)
          (as_recorded [], sym (append-nil s.written))
    | inr k ↦
        rw
          (
            k,
            capture_response_into_lem s env ctx (fix_content_length resp b.body b.truncated) b.body,
            full_entry_fixed s env ctx resp b.body b.truncated,
          )
          (as_recorded b.body, refl)
  ])
]
  where
    as_recorded :
        (body : Text)
        → IsRecorded
            (stored s env ctx resp body).store
            (full_entry s env ctx resp body).1
            (keep_last s.store.capacity (q ++ (full_entry s env ctx resp body).0 ∷ []))
    as_recorded body = full_entry-IsRecorded s env ctx resp body q r ready

read_body_of-skipped :
    (resp : Response) (o : Option Reader) (limit : ℤ)
    → (read_body_of resp o limit).0.skipped ≡ true
    → (read_body_of resp o limit).0.body ≡ []
unfolding read_body_of read_present rewire
read_body_of-skipped resp none limit h = refl
read_body_of-skipped resp (some body) limit h = elim (Bool-cases (is_streaming_response resp)) [
  | inl k ↦ rw k refl
  | inr k ↦ ground (arith, k)
]

-- A response is recorded in a store that holds entries with ids handed out before. If reading the
-- body fails, the store and the outputs stay as they are. Otherwise the store holds the entries
-- it had and behind them the entry of the response, cut to the newest ones up to the capacity,
-- and each output in turn is written the same entry, except for a stream, which is stored only.
-- All ids in the store have still been handed out, so the next response can be recorded too.
pub record_response_lem :
    (s : Server) (env : Env) (ctx : CaptureCtx) (resp : Response) (q : List CapturedEntry)
    → IsRecorded s.store env q
    → IsReady env
    → let b = (read_body_bounded resp s.response_body_limit).0 in
      let e = (full_entry s env ctx resp b.body).0 in
      let (s', env', out) = record_response s env ctx resp in
      IsRecorded s'.store env' (kept_after b s.store.capacity q e)
      × (s'.written ≡ s.written ++ writes_of b e s.outputs)
unfolding record_response
record_response_lem s env ctx resp q r ready =
    rw (read_body_bounded-response resp s.response_body_limit) (
      after_read_lem s env ctx (read_body_bounded resp s.response_body_limit).0 resp q
        (unfold read_body_bounded in read_body_of-skipped resp resp.body s.response_body_limit) r
        ready)
