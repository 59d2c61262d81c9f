-- ===== src/Proxy/Body.antt =====
-- internal/proxy/proxy_body.go and proxy.go: reading a response body for capture while the whole
-- body still streams to the client.
pub mod Streaming
pub mod Bounds
pub mod Length
use goper.Base.{
  ℕ, zero, suc, ◌+◌, ◌*◌, ◌^◌, Bool, true, false, not, ◌&&◌, ◌||◌, List, [], ◌∷◌, ◌++◌, Option,
  none, some, ◌==◌, if◌then◌else◌, length,
}
use goper.Base.Int.{ℤ, pos, negsuc, leb_ℤ, ltb_ℤ, eqb_ℤ}
use goper.Base.Text.{Text, codes, text_eq}
use goper.Capture.Media.{normalize_media_type}
use goper.Capture.Recorder.{Header, header_get}
use goper.Capture.Streams.{Reader, ReadResult, read_all, read_limited, multi_reader, succ_int64}

-- The parts of an `http.Response` that the proxy reads or rewrites.
pub record Response : Type 0 where
  pub status_code : ℤ
  pub header : Header
  pub content_length : ℤ
  pub body : Option Reader

-- 64 MiB. It is a variable of the package that only tests assign.
unfoldable pub unlimited_read_safety_cap : ℕ
unlimited_read_safety_cap = 64 * 2 ^ 20

unfoldable pub is_streaming_content_type : Text → Bool
is_streaming_content_type content_type =
    let ct = normalize_media_type content_type in
    text_eq ct (codes "text/event-stream") || text_eq ct (codes "multipart/x-mixed-replace")

unfoldable pub is_streaming_response : Response → Bool
is_streaming_response resp =
    ltb_ℤ resp.content_length (pos 0)
    && is_streaming_content_type (header_get resp.header (codes "Content-Type"))

unfoldable pub read_for_capture : Reader → ℤ → ℤ → ReadResult
read_for_capture body content_length limit =
    if ltb_ℤ (pos 0) limit
    then read_limited body (succ_int64 limit)
    else if leb_ℤ (pos 0) content_length
    then read_all body
    else read_limited body (pos unlimited_read_safety_cap)

unfoldable pub capture_exceeded_limit : Response → Text → ℤ → Bool
capture_exceeded_limit resp buffered limit =
    if ltb_ℤ (pos 0) limit
    then eqb_ℤ (pos (length buffered)) (succ_int64 limit)
    else ltb_ℤ resp.content_length (pos 0) && (length buffered == unlimited_read_safety_cap)

-- The results of `readBodyBounded`, `failed` for its error.
pub record BodyRead : Type 0 where
  pub body : Text
  pub truncated : Bool
  pub skipped : Bool
  pub failed : Bool

-- `readAndRewire` and the end of `readBodyBounded`, given what reading returned.
unfoldable pub rewire : Response → ReadResult → ℤ → BodyRead × Response
rewire resp r limit = (
  if r.failed
      then record { body = []; truncated = false; skipped = false; failed = true }
      else record {
        body = r.got;
        truncated = capture_exceeded_limit resp r.got limit;
        skipped = false;
        failed = false;
      },
  record resp { body = some (multi_reader r.got r.left) },
)

-- `canReadBody` asks for a body that does not stream.
unfoldable pub read_present : Response → Reader → ℤ → BodyRead × Response
read_present resp body limit =
    if is_streaming_response resp
    then (record { body = []; truncated = false; skipped = true; failed = false }, resp)
    else rewire resp (read_for_capture body resp.content_length limit) limit

unfoldable pub read_body_of : Response → Option Reader → ℤ → BodyRead × Response
read_body_of resp none limit =
    (record { body = []; truncated = false; skipped = false; failed = false }, resp)
read_body_of resp (some body) limit = read_present resp body limit

unfoldable pub read_body_bounded : Response → ℤ → BodyRead × Response
unfolding read_body_of read_present
read_body_bounded resp limit = read_body_of resp resp.body limit

unfoldable pub fix_content_length : Response → Text → Bool → Response
fix_content_length resp body truncated =
    if truncated
    then record resp { content_length = negsuc 0 }
    else record resp { content_length = pos (length body) }
