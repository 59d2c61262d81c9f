-- ===== src/Capture/Recorder.antt =====
-- internal/capture/capture.go: what a recorder keeps of a request and of its response.
pub mod Redaction
pub mod Bodies
use goper.Base.{
  ℕ, zero, suc, ◌-◌, ◌/◌, ◌^◌, Bool, true, false, ◌&&◌, List, [], ◌∷◌, ◌++◌, Option, none, some,
  ◌==◌, leb, if◌then◌else◌, length,
}
use goper.Base.Int.{ℤ, pos, negsuc, leb_ℤ, ltb_ℤ}
use goper.Base.Text.{Text, codes, text_eq}
use goper.Capture.Entry.{Time, HeaderMap, zero_time, CapturedEntry, Env, new_entry_id}
use goper.Capture.Media.{to_lower, worth_capturing}
use goper.Capture.Streams.{Reader, ReadResult, read_all, read_limited, multi_reader, succ_int64}

-- `http.Header`: canonical names with their lists of values, in the order of one iteration.
abbrev pub Header : Type 0
Header = List (Text × List Text)

-- `header.Get` of a canonical name: its first value, or the empty string.
abbrev first_value : List Text → Text
first_value [] = []
first_value (v ∷ vs) = v

unfoldable pub header_get : Header → Text → Text
header_get [] name = []
header_get ((k, vs) ∷ h) name = if text_eq k name then first_value vs else header_get h name

abbrev pub redaction : Text
redaction = codes "***REDACTED***"

abbrev pub redacted_headers : List Text
redacted_headers =
    codes "authorization" ∷ codes "cookie" ∷ codes "set-cookie" ∷ codes "proxy-authorization" ∷ []

unfoldable pub listed : Text → List Text → Bool
listed key [] = false
listed key (h ∷ hs) = if text_eq h key then true else listed key hs

unfoldable pub redact_header : Text → Bool
unfolding listed
redact_header key = listed key redacted_headers

-- `strings.Join(v, ", ")`, which is the value itself for a single one.
unfoldable pub join_values : List Text → Text
join_values [] = []
join_values (v ∷ []) = v
join_values (v ∷ w ∷ vs) = v ++ codes ", " ++ join_values (w ∷ vs)

abbrev pub stored_value : Text → List Text → Text
stored_value k vs = if redact_header (to_lower k) then redaction else join_values vs

unfoldable pub headers_to_map : Header → HeaderMap
headers_to_map [] = []
headers_to_map ((k, vs) ∷ h) = (k, stored_value k vs) ∷ headers_to_map h

-- The parts of an `http.Request` that the recorder reads.
pub record Request : Type 0 where
  pub method : Text
  pub url : Text
  pub scheme : Text
  pub host : Text
  pub path : Text
  pub header : Header
  pub body : Option Reader

unfoldable pub read_bounded : Reader → ℤ → ReadResult
read_bounded r limit = if leb_ℤ limit (pos 0) then read_all r else read_limited r (succ_int64 limit)

abbrev pub request_entry : Request → Option Text → CapturedEntry
request_entry req body = record {
  id = [];
  timestamp = zero_time;
  duration_ms = pos 0;
  method = req.method;
  url = req.url;
  scheme = req.scheme;
  host = req.host;
  path = req.path;
  request_headers = headers_to_map req.header;
  request_body = body;
  status_code = pos 0;
  response_headers = [];
  response_body = none;
  content_type = [];
}

-- The entry and the request that is proxied on: the body is restored unless reading it failed.
abbrev pub take_body : Request → ReadResult → CapturedEntry × Request
take_body req r =
    if r.failed
    then (request_entry req none, record req { body = some r.left })
    else (request_entry req (some r.got), record req { body = some (multi_reader r.got r.left) })

unfoldable pub capture_body_of : Request → ℤ → Option Reader → CapturedEntry × Request
capture_body_of req limit none = (request_entry req none, req)
capture_body_of req limit (some body) = take_body req (read_bounded body limit)

unfoldable pub capture_request : Request → ℤ → CapturedEntry × Request
unfolding capture_body_of
capture_request req limit = capture_body_of req limit req.body

unfoldable pub over_limit : ℤ → ℕ → Bool
over_limit limit n = ltb_ℤ (pos 0) limit && ltb_ℤ limit (pos n)

unfoldable pub drop_over : ℤ → Option Text → Option Text
drop_over limit none = none
drop_over limit (some body) = if over_limit limit (length body) then none else some body

pub record DefaultRecorder : Type 0 where
  pub request_body_limit : ℤ
  pub response_body_limit : ℤ

abbrev pub new_default_recorder : ℤ → ℤ → DefaultRecorder
new_default_recorder request_body_limit response_body_limit = record {
  request_body_limit = request_body_limit;
  response_body_limit = response_body_limit;
}

unfoldable pub recorder_capture_request : DefaultRecorder → Request → CapturedEntry × Request
unfolding drop_over
recorder_capture_request r req =
    let (entry, req') = capture_request req r.request_body_limit in
    (record entry { request_body = drop_over r.request_body_limit entry.request_body }, req')

pub record CaptureResult : Type 0 where
  pub status_code : ℤ
  pub response_headers : HeaderMap
  pub response_body : Option Text
  pub content_type : Text
  pub duration_ms : ℤ

-- `time.Since(start).Milliseconds()`, rounded toward zero.
abbrev pub millis_since : Time → Time → ℤ
millis_since start now =
    if leb start now then pos ((now - start) / 10 ^ 6) else minus ((start - now) / 10 ^ 6)
  where
    minus : ℕ → ℤ
    minus zero = pos 0
    minus (suc n) = negsuc n

unfoldable pub capture_body : Text → Text → Option Text
capture_body body content_type =
    if length body == 0 then none else if worth_capturing body content_type then some body else none

unfoldable pub capture_response : Env → ℤ → Header → Text → Time → CaptureResult
capture_response env status header body start = record {
  status_code = status;
  response_headers = headers_to_map header;
  response_body = capture_body body (header_get header (codes "Content-Type"));
  content_type = header_get header (codes "Content-Type");
  duration_ms = millis_since start env.now;
}

unfoldable pub recorder_capture_response :
    DefaultRecorder → Env → ℤ → Header → Text → Time → CaptureResult
unfolding drop_over
recorder_capture_response r env status header body start =
    let result = capture_response env status header body start in
    record result { response_body = drop_over r.response_body_limit result.response_body }

-- The whole entry gets a new id and the current time.
unfoldable pub combine_entry : Env → CapturedEntry → CaptureResult → CapturedEntry × Env
combine_entry env entry result =
    let (id, env') = new_entry_id env in
    (
      record entry {
        status_code = result.status_code;
        response_headers = result.response_headers;
        response_body = result.response_body;
        content_type = result.content_type;
        duration_ms = result.duration_ms;
        id = id;
        timestamp = env.now;
      },
      env',
    )
