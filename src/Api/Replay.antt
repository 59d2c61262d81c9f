-- ===== src/Api/Replay.antt =====
-- internal/api/handlers_replay.go: sending a captured request again. The parameters stand for
-- net/http: `canonical` is the spelling of a header name, `accepts` says whether http.NewRequest
-- takes a method and a URL, and `send` is the client, `none` for its error.
pub mod Headers
use goper.Base.{ℕ, ◌^◌, Bool, true, false, List, [], ◌∷◌, Option, none, some, if◌then◌else◌}
use goper.Base.Int.{ℤ, pos}
use goper.Base.Text.{Text, codes, text_eq}
use goper.Base.Maps.{Dict, empty_dict, insert}
use goper.Capture.Entry.{CapturedEntry, HeaderMap}
use goper.Capture.Media.{to_lower}
use goper.Capture.Streams.{Reader, ReadResult, read_limited}
use goper.Capture.Recorder.{Header, listed}

-- 1 MiB.
abbrev pub replay_max_body : ℕ
replay_max_body = 2 ^ 20

abbrev pub hop_by_hop_headers : List Text
hop_by_hop_headers =
    codes "connection"
    ∷ codes "proxy-connection"
    ∷ codes "keep-alive"
    ∷ codes "transfer-encoding"
    ∷ codes "te"
    ∷ codes "trailer"
    ∷ codes "upgrade"
    ∷ codes "host"
    ∷ codes "content-length"
    ∷ []

abbrev pub is_hop_by_hop : Text → Bool
is_hop_by_hop k = listed (to_lower k) hop_by_hop_headers

-- The parts of an `http.Request` that a replay sets; each header has one value.
pub record ReplayRequest : Type 0 where
  pub method : Text
  pub url : Text
  pub header : Dict Text
  pub body : Option Text

pub record Reply : Type 0 where
  pub status_code : ℤ
  pub header : Header
  pub body : Reader

-- What `replayEntry` writes: an error with its status, or the response and its body.
pub data ReplayOutcome : Type 0 where
  not_found bad_request bad_gateway : ReplayOutcome
  replayed : ℤ → Header → Text → ReplayOutcome

unfoldable pub copy_replay_headers : (Text → Text) → Dict Text → HeaderMap → Dict Text
copy_replay_headers canonical header [] = header
copy_replay_headers canonical header ((k, v) ∷ headers) =
    let skipped = copy_replay_headers canonical header headers in
    let copied = copy_replay_headers canonical (insert (canonical k) v header) headers in
    if is_hop_by_hop k then skipped else copied

unfoldable pub read_reply : Option Reply → ReplayOutcome
read_reply none = bad_gateway
read_reply (some resp) =
    let r = read_limited resp.body (pos replay_max_body) in
    if r.failed then bad_gateway else replayed resp.status_code resp.header r.got

-- What http.NewRequest makes of a method: an empty one means GET.
abbrev pub method_or_get : Text → Text
method_or_get method = if text_eq method [] then codes "GET" else method

module _ (canonical : Text → Text) (accepts : Text → Text → Bool)
    (send : ReplayRequest → Option Reply) where
  unfoldable pub build_replay_request : CapturedEntry → Option ReplayRequest
  build_replay_request entry =
      if accepts entry.method entry.url
      then some (record {
        method = method_or_get entry.method;
        url = entry.url;
        header = copy_replay_headers canonical empty_dict entry.request_headers;
        body = entry.request_body;
      })
      else none

  unfoldable pub perform_replay : Option ReplayRequest → ReplayOutcome
  unfolding read_reply
  perform_replay none = bad_request
  perform_replay (some req) = read_reply (send req)

  -- `ReplayRequest` on what the store finds.
  unfoldable pub replay_entry : Option CapturedEntry → ReplayOutcome
  unfolding perform_replay
  replay_entry none = not_found
  replay_entry (some entry) = perform_replay (build_replay_request entry)
