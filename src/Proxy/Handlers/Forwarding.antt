-- ===== src/Proxy/Handlers/Forwarding.antt =====
-- internal/proxy/proxy.go: what the handlers pass on.
use goper.Base.{Bool, true, false, Option, none, ◌≡◌, ◌⊎◌, inl, inr, refl, arith, Bool-cases}
use goper.Base.Text.{Text}
use goper.Capture.Entry.{Env}
use goper.Capture.Recorder.{Request}
use goper.Proxy.Body.{Response, BodyRead, read_body_bounded, fix_content_length}
use goper.Proxy.Body.Streaming.{read_body_bounded-response}
use goper.Proxy.Handlers.{
  Server, CaptureCtx, regex_allows, regex_excludes, should_capture, handle_request, after_read,
  record_response, handle_response,
}

-- A URL that the include filter does not match, or that the exclude filter matches.
abbrev pub IsFiltered : Server → Text → Type 0
IsFiltered s url =
    (regex_allows s.include_re url ≡ false) ⊎ (regex_excludes s.exclude_re url ≡ true)

IsFiltered-should_capture :
    (s : Server) (r : Request) → IsFiltered s r.url → should_capture s r ≡ false
unfolding should_capture
IsFiltered-should_capture s r (inl e) = rw e
IsFiltered-should_capture s r (inr e) = elim (Bool-cases (regex_allows s.include_re r.url)) [
  | inl a ↦ rw (a, e)
  | inr a ↦ rw a
]

-- An exchange whose URL is filtered passes through: request and response are untouched, and
-- neither the store nor the outputs see it.
pub filtered_untouched :
    (s : Server) (env env' : Env) (r : Request) (resp : Option Response)
    → IsFiltered s r.url
    → (handle_request s env r ≡ (r, none))
      × (handle_response s env' (handle_request s env r).1 resp ≡ (s, env', resp))
unfolding handle_request handle_response
filtered_untouched s env env' r resp f = rw (IsFiltered-should_capture s r f) (refl, refl)

-- The response with its length as it came.
abbrev pub same_length : Response → Response → Response
same_length resp out = record out { content_length = resp.content_length }

fixed_same :
    (resp : Response) (body : Text) (cut : Bool)
    → same_length resp (fix_content_length resp body cut) ≡ resp
unfolding fix_content_length
fixed_same resp body cut = ground arith

after_read_same :
    (s : Server) (env : Env) (ctx : CaptureCtx) (b : BodyRead) (resp : Response)
    → same_length resp (after_read s env ctx b resp).2 ≡ resp
unfolding after_read
after_read_same s env ctx b resp = elim (Bool-cases b.failed) [
  | inl f ↦ rw f
  | inr f ↦ rw f (elim (Bool-cases b.skipped) [
    | inl k ↦ rw k
    | inr k ↦ rw k (fixed_same resp b.body b.truncated)
  ])
]

-- Whatever happens while a response is recorded, the client gets its status, its headers and all
-- the bytes of its body.
pub record_response_forwards :
    (s : Server) (env : Env) (ctx : CaptureCtx) (resp : Response)
    → same_length resp (record_response s env ctx resp).2 ≡ resp
unfolding record_response
record_response_forwards s env ctx resp =
    rw (read_body_bounded-response resp s.response_body_limit)
      (after_read_same s env ctx (read_body_bounded resp s.response_body_limit).0 resp)
