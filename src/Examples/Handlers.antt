-- ===== src/Examples/Handlers.antt =====
-- internal/proxy/proxy.go on a concrete exchange.
use goper.Base.{Bool, [], ◌∷◌, none, some, ◌≡◌, arith}
use goper.Base.Int.{pos, negsuc}
use goper.Base.Text.{Text, codes, text_eq}
use goper.Capture.Entry.{Env, zero_time}
use goper.Capture.Streams.{Reader, eof}
use goper.Capture.Ring.{with_capacity}
use goper.Capture.Ring.Refine.{with_capacity-Holds}
use goper.Capture.Recorder.{Request, request_entry}
use goper.Output.Writers.{json_body_writer, ndjson_body_writer}
use goper.Proxy.Body.{Response, read_body_bounded}
use goper.Proxy.Handlers.{Server, CaptureCtx, record_response, full_entry}
use goper.Proxy.Handlers.Forwarding.{record_response_forwards, same_length}
use goper.Proxy.Handlers.Issued.{IsRecorded}
use goper.Proxy.Handlers.Recording.{record_response_lem, kept_after, writes_of}

abbrev pub noon : Env
noon = record { now = zero_time; stamp = codes "20260101120000"; counter = 0 }

abbrev only_a : Text → Bool
only_a url = text_eq url (codes "http://a/")

abbrev server : Server
server = record {
  include_re = some only_a;
  exclude_re = none;
  response_body_limit = pos 100;
  recorder = record { request_body_limit = pos 100; response_body_limit = pos 100 };
  store = with_capacity noon 2;
  outputs = json_body_writer (codes "a") ∷ ndjson_body_writer (codes "b") ∷ [];
  written = [];
}

abbrev pub request_for : Text → Request
request_for url = record {
  method = codes "GET";
  url = url;
  scheme = codes "http";
  host = codes "a";
  path = codes "/";
  header = [];
  body = none;
}

abbrev page : Reader
page = record { bytes = codes "{}"; ending = eof }

abbrev pub answer : Response
answer = record {
  status_code = pos 200;
  header = (codes "Content-Type", codes "application/json" ∷ []) ∷ [];
  content_length = negsuc 0;
  body = some page;
}

abbrev asked : CaptureCtx
asked = record { entry = request_entry (request_for (codes "http://a/")) none; start = zero_time }

record_response_forwards_example :
    same_length answer (record_response server noon asked answer).2 ≡ answer
record_response_forwards_example = record_response_forwards server noon asked answer

nothing-IsRecorded : IsRecorded server.store noon []
nothing-IsRecorded = record { holds = with_capacity-Holds noon 2 (omega arith); issued = tt }

record_response_lem_example :
    let b = (read_body_bounded answer (pos 100)).0 in
    let e = (full_entry server noon asked answer b.body).0 in
    let (s', env', out) = record_response server noon asked answer in
    IsRecorded s'.store env' (kept_after b 2 [] e)
    × (s'.written
        ≡ writes_of b e (json_body_writer (codes "a") ∷ ndjson_body_writer (codes "b") ∷ []))
unfolding with_capacity
record_response_lem_example =
    record_response_lem server noon asked answer [] nothing-IsRecorded
      (record { plain = omega arith; room = omega arith })
