-- ===== src/Proxy/Session/Captured.antt =====
-- internal/proxy/proxy.go: what a session writes to the outputs.
use goper.Base.{
  List, [], ◌∷◌, ◌++◌, ◌||◌, Option, none, some, ◌≡◌, inl, inr, refl, sym, ap, ◌∙◌, Bool-cases,
  if◌then◌else◌,
}
use mathlib.Core.List.{append_assoc, append-nil}
use goper.Capture.Entry.{Env, CapturedEntry}
use goper.Output.Calls.{calls, calls-append}
use goper.Proxy.Body.{Response, BodyRead, read_body_bounded, fix_content_length}
use goper.Proxy.Body.Streaming.{read_body_bounded-response}
use goper.Proxy.Handlers.{
  Server, CaptureCtx, full_entry, after_read, record_response, handle_response,
}
use goper.Proxy.Handlers.Recording.{
  full_entry_fixed, capture_streaming_lem, capture_response_into_lem,
}
use goper.Proxy.Session.{Exchange, at_response, user_data, exchange, session}

-- The entry of a response whose body was read, if it does not stream.
abbrev pub entry_written : CapturedEntry → BodyRead → List CapturedEntry
entry_written e b = if b.failed || b.skipped then [] else e ∷ []

abbrev pub captured_of : Server → Env → Option CaptureCtx → Option Response → List CapturedEntry
captured_of s env none resp = []
captured_of s env (some ctx) none = []
captured_of s env (some ctx) (some resp) =
    let b = (read_body_bounded resp s.response_body_limit).0 in
    entry_written (full_entry s env ctx resp b.body).0 b

-- The entries of the exchanges whose URL passes the filters and whose response could be read and does
-- not stream.
unfoldable pub captured : Server → Env → List Exchange → List CapturedEntry
captured s env [] = []
captured s env (x ∷ xs) =
    let (s', env') = exchange s env x in
    captured_of s (at_response env x) (user_data s env x) x.response ++ captured s' env' xs

-- The outputs stay, and these entries are written to them.
abbrev IsWritten : Server → List CapturedEntry → Server → Type 0
IsWritten s es s' = (s'.outputs ≡ s.outputs) × (s'.written ≡ s.written ++ calls s.outputs es)

after_read-IsWritten :
    (s : Server) (env : Env) (ctx : CaptureCtx) (b : BodyRead) (resp : Response)
    → IsWritten s
        (entry_written (full_entry s env ctx resp b.body).0 b)
        (after_read s env ctx b resp).0
unfolding after_read calls
after_read-IsWritten s env ctx b resp = elim (Bool-cases b.failed) [
  | inl f ↦ rw f (refl, sym (append-nil s.written))
  | inr f ↦ rw f (elim (Bool-cases b.skipped) [
    | inl k ↦ rw (k, capture_streaming_lem s env ctx resp) (refl, sym (append-nil s.written))
    | inr k ↦
        rw
          (
            k,
            capture_response_into_lem s env ctx (fix_content_length resp b.body b.truncated) b.body,
            full_entry_fixed s env ctx resp b.body b.truncated,
          )
          (refl, ap (λ l. s.written ++ l) (sym (append-nil _)))
  ])
]

nothing-IsWritten : (s : Server) → IsWritten s [] s
unfolding calls
nothing-IsWritten s = (refl, sym (append-nil s.written))

handle_response-IsWritten :
    (s : Server) (env : Env) (ctx : Option CaptureCtx) (resp : Option Response)
    → IsWritten s (captured_of s env ctx resp) (handle_response s env ctx resp).0
unfolding handle_response record_response
handle_response-IsWritten s env none resp = nothing-IsWritten s
handle_response-IsWritten s env (some ctx) none = nothing-IsWritten s
handle_response-IsWritten s env (some ctx) (some resp) =
    rw (read_body_bounded-response resp s.response_body_limit)
      (after_read-IsWritten s env ctx (read_body_bounded resp s.response_body_limit).0 resp)

-- The calls of WriteEntry in a session are those for the captured entries, in order, and each entry
-- goes to every output in turn.
pub session-IsWritten :
    (s : Server) (env : Env) (xs : List Exchange)
    → (session s env xs).0.written ≡ s.written ++ calls s.outputs (captured s env xs)
unfolding session captured exchange
session-IsWritten s env [] = (nothing-IsWritten s).1
session-IsWritten s env (x ∷ xs) =
    let first = captured_of s (at_response env x) (user_data s env x) x.response in
    let s' = (exchange s env x).0 in
    let env' = (exchange s env x).1 in
    let (same, first_written) =
      handle_response-IsWritten s (at_response env x) (user_data s env x) x.response in
    session-IsWritten s' env' xs
    ∙ ap (λ l. l ++ calls s'.outputs (captured s' env' xs)) first_written
    ∙ append_assoc s.written (calls s.outputs first) (calls s'.outputs (captured s' env' xs))
    ∙ ap (λ ws. s.written ++ (calls s.outputs first ++ calls ws (captured s' env' xs))) same
    ∙ ap (λ l. s.written ++ l) (sym (calls-append s.outputs first (captured s' env' xs)))
