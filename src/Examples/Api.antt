-- ===== src/Examples/Api.antt =====
-- internal/api on a small store.
use goper.Base.{Bool, true, List, [], ◌∷◌, ◌++◌, Option, none, some, ◌≡◌, refl, arith, take}
use goper.Base.Int.{pos}
use goper.Base.Text.{Text, codes, text_eq}
use goper.Capture.Entry.{CapturedEntry, Env, Time, zero_time}
use goper.Capture.Streams.{eof}
use goper.Capture.Ring.{RingBuffer, with_capacity, get}
use goper.Capture.Ring.Spec.{Holds, find}
use goper.Capture.Ring.Refine.{with_capacity-Holds}
use goper.Capture.Ring.History.{push_all, push_all-Holds}
use goper.Api.Queries.{Values}
use goper.Api.Handlers.{Handler}
use goper.Api.Stream.{Client, stream_requests, ticked, arrived, cancelled}
use goper.Api.Stream.Frames.{stream_requests_lem, frames, live_frames, given}
use goper.Api.Replay.{ReplayRequest, Reply, replayed, replay_max_body, replay_entry}
use goper.Api.Replay.Headers.{replay_entry_lem}

abbrev entry_with : Text → CapturedEntry
entry_with id = record {
  id = id;
  timestamp = zero_time;
  duration_ms = pos 3;
  method = codes "GET";
  url = codes "http://a/";
  scheme = codes "http";
  host = codes "a";
  path = codes "/";
  request_headers = (codes "Accept", codes "a/b") ∷ (codes "Connection", codes "close") ∷ [];
  request_body = none;
  status_code = pos 200;
  response_headers = [];
  response_body = some (codes "{}");
  content_type = codes "application/json";
}

abbrev first : CapturedEntry
first = entry_with (codes "1")

abbrev second : CapturedEntry
second = entry_with (codes "2")

abbrev dawn : Env
dawn = record { now = zero_time; stamp = codes "20260101060000"; counter = 0 }

abbrev pub stored : List CapturedEntry
stored = first ∷ second ∷ []

abbrev pub store : RingBuffer
store = push_all (with_capacity dawn 5) stored

pub store-Holds : Holds store stored
unfolding find text_eq with_capacity
store-Holds =
    push_all-Holds 5 (with_capacity dawn 5) [] stored refl
      (with_capacity-Holds dawn 5 (omega arith)) (refl, (refl, tt))

abbrev pub limit_12 : Values
limit_12 = (codes "limit", codes "12" ∷ []) ∷ []

abbrev pub no_time : Text → Option Time
no_time text = none

abbrev pub handler : Handler
handler = record { store = store; ca_pem = none }

abbrev pub id_only : CapturedEntry → Option Text
id_only e = some e.id

abbrev pub fresh_client : Client
fresh_client = record { sent = []; room = 9 }

stream_requests_lem_example :
    stream_requests id_only store fresh_client (pos 1) (ticked ∷ arrived second ∷ cancelled ∷ [])
    ≡ given [] 9 (
        frames id_only (first ∷ [])
        ++ live_frames id_only (ticked ∷ arrived second ∷ cancelled ∷ []))
stream_requests_lem_example =
    stream_requests_lem id_only store stored fresh_client 1
      (ticked ∷ arrived second ∷ cancelled ∷ []) store-Holds (omega arith)

abbrev as_it_is : Text → Text
as_it_is name = name

abbrev anything : Text → Text → Bool
anything method url = true

abbrev reply : Reply
reply = record {
  status_code = pos 204;
  header = [];
  body = record { bytes = codes "fine"; ending = eof };
}

abbrev answer_always : ReplayRequest → Option Reply
answer_always req = some reply

replay_entry_lem_example :
    replay_entry as_it_is anything answer_always (get store (codes "2"))
    ≡ replayed (pos 204) [] (take replay_max_body (codes "fine"))
unfolding find text_eq
replay_entry_lem_example =
    replay_entry_lem as_it_is anything answer_always store stored (codes "2") second reply
      store-Holds refl (refl, (refl, tt)) refl refl refl
