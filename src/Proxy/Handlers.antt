-- ===== src/Proxy/Handlers.antt =====
-- internal/proxy/proxy.go and proxy_body.go: the request and response handlers of the proxy
-- server. One handler reads the clock as one instant. The sends to subscribers that end a push are
-- in Capture.Subscribers.
pub mod Forwarding
pub mod Issued
pub mod Recording
use goper.Base.{
  ℕ, Bool, true, false, not, ◌&&◌, List, [], ◌∷◌, ◌++◌, map, Option, none, some, ◌==◌,
  if◌then◌else◌,
}
use goper.Base.Int.{ℤ}
use goper.Base.Text.{Text, text_eq}
use goper.Capture.Entry.{Time, CapturedEntry, Env}
use goper.Capture.Ring.{RingBuffer, push_locked}
use goper.Capture.Recorder.{
  Request, DefaultRecorder, recorder_capture_request, recorder_capture_response, combine_entry,
}
use goper.Output.Writers.{Writer}
use goper.Proxy.Body.{Response, BodyRead, read_body_bounded, fix_content_length}

-- A compiled `*regexp.Regexp` is the test that `MatchString` makes; nil is `none`. `outputs` are
-- the writers, and `written` lists the calls of `WriteEntry`, whose errors are only logged.
pub record Server : Type 0 where
  pub include_re : Option (Text → Bool)
  pub exclude_re : Option (Text → Bool)
  pub response_body_limit : ℤ
  pub recorder : DefaultRecorder
  pub store : RingBuffer
  pub outputs : List Writer
  pub written : List (Writer × CapturedEntry)

pub record CaptureCtx : Type 0 where
  pub entry : CapturedEntry
  pub start : Time

-- `regexp.Compile` is the parameter `compile`, `none` for its error.
unfoldable pub compile_capture_regex :
    (Text → Option (Text → Bool)) → Text → Option (Option (Text → Bool))
compile_capture_regex compile pattern =
    if text_eq pattern []
    then some none
    else (elim (compile pattern) [ none ↦ none | some re ↦ some (some re) ])

unfoldable pub set_regexes :
    Server → Option (Option (Text → Bool)) → Option (Option (Text → Bool)) → Option Server
set_regexes s none exclude = none
set_regexes s (some include) none = none
set_regexes s (some include) (some exclude) =
    some (record s { include_re = include; exclude_re = exclude })

unfoldable pub configure_capture_regexes :
    (Text → Option (Text → Bool)) → Server → Text → Text → Option Server
unfolding set_regexes compile_capture_regex
configure_capture_regexes compile s include exclude =
    set_regexes s (compile_capture_regex compile include) (compile_capture_regex compile exclude)

unfoldable pub add_output : Server → Writer → Server
add_output s w = record s { outputs = s.outputs ++ w ∷ [] }

unfoldable pub regex_allows : Option (Text → Bool) → Text → Bool
regex_allows none url = true
regex_allows (some re) url = re url

unfoldable pub regex_excludes : Option (Text → Bool) → Text → Bool
regex_excludes none url = false
regex_excludes (some re) url = re url

unfoldable pub should_capture : Server → Request → Bool
should_capture s r =
    if not (regex_allows s.include_re r.url)
    then false
    else if regex_excludes s.exclude_re r.url
    then false
    else true

-- The request that goes on, and the `UserData` of its context.
unfoldable pub handle_request : Server → Env → Request → Request × Option CaptureCtx
handle_request s env r =
    if should_capture s r
    then (let (entry, r') = recorder_capture_request s.recorder r in
        (r', some (record { entry = entry; start = env.now })))
    else (r, none)

-- The entry of a response with these body bytes.
unfoldable pub full_entry : Server → Env → CaptureCtx → Response → Text → CapturedEntry × Env
full_entry s env ctx resp body =
    combine_entry env ctx.entry
      (recorder_capture_response s.recorder env resp.status_code resp.header body ctx.start)

unfoldable pub push_entry : Server → Env → CapturedEntry → Server × Env
push_entry s env entry =
    let (rb, stored, subs, env') = push_locked env s.store entry in (record s { store = rb }, env')

unfoldable pub capture_streaming : Server → Env → CaptureCtx → Response → Server × Env
capture_streaming s env ctx resp =
    let (entry, env') = full_entry s env ctx resp [] in push_entry s env' entry

unfoldable pub write_outputs : CapturedEntry → List Writer → List (Writer × CapturedEntry)
write_outputs entry [] = []
write_outputs entry (w ∷ ws) = (w, entry) ∷ write_outputs entry ws

unfoldable pub capture_response_into : Server → Env → CaptureCtx → Response → Text → Server × Env
capture_response_into s env ctx resp body =
    let (entry, env') = full_entry s env ctx resp body in
    let (s', env'') = push_entry s env' entry in
    (record s' { written = s'.written ++ write_outputs entry s'.outputs }, env'')

-- The server, the clock and the response that goes on, given what reading the body returned.
unfoldable pub after_read :
    Server → Env → CaptureCtx → BodyRead → Response → Server × Env × Response
after_read s env ctx b resp =
    if b.failed
    then (s, env, resp)
    else if b.skipped
    then (let (s', env') = capture_streaming s env ctx resp in (s', env', resp))
    else (let fixed = fix_content_length resp b.body b.truncated in
        let (s', env') = capture_response_into s env ctx fixed b.body in (s', env', fixed))

unfoldable pub record_response : Server → Env → CaptureCtx → Response → Server × Env × Response
unfolding after_read
record_response s env ctx resp =
    let (b, resp') = read_body_bounded resp s.response_body_limit in after_read s env ctx b resp'

abbrev and_response : Server × Env × Response → Server × Env × Option Response
and_response (s, env, resp) = (s, env, some resp)

-- `responseData` finds no context, or a nil response, and then nothing is recorded.
unfoldable pub handle_response :
    Server → Env → Option CaptureCtx → Option Response → Server × Env × Option Response
handle_response s env none resp = (s, env, resp)
handle_response s env (some ctx) none = (s, env, none)
handle_response s env (some ctx) (some resp) = and_response (record_response s env ctx resp)
