-- ===== src/Api/Routes.antt =====
-- internal/api/api.go and ui.go: the routes of the API and what its middleware adds. Which route chi
-- finds for a method and a path, with the value of `{id}`, is a parameter. The middleware of
-- chi that recovers from panics leaves replies as they are.
pub mod Clearing
pub mod Served
use goper.Base.{ℕ, ◌-◌, Bool, List, [], ◌∷◌, Option, none, some, if◌then◌else◌}
use goper.Base.Text.{Text, codes, text_eq}
use goper.Capture.Entry.{CapturedEntry, Time}
use goper.Capture.Ring.{get}
use goper.Capture.Subscribers.{Heap, World}
use goper.Api.Queries.{Values, backfill_count}
use goper.Api.Handlers.{
  Response, json_field, Handler, list_requests, get_request, clear_requests, get_stats, get_ca,
}
use goper.Api.Stream.{Client, StreamEvent, stream_session}
use goper.Api.Replay.{ReplayRequest, Reply, ReplayOutcome, replay_entry}

pub data Endpoint : Type 0 where
  list_endpoint stream_endpoint get_endpoint replay_endpoint clear_endpoint stats_endpoint :
      Endpoint
  ca_endpoint ui_endpoint : Endpoint

pub record Route : Type 0 where
  pub method : Text
  pub pattern : Text
  pub endpoint : Endpoint

abbrev get_route : Text → Endpoint → Route
get_route pattern endpoint = record { method = codes "GET"; pattern = pattern; endpoint = endpoint }

-- The routes that NewServer registers.
unfoldable pub routes : List Route
routes =
    get_route (codes "/api/requests") list_endpoint
    ∷ get_route (codes "/api/requests/stream") stream_endpoint
    ∷ get_route (codes "/api/requests/{id}") get_endpoint
    ∷ record {
      method = codes "POST";
      pattern = codes "/api/requests/{id}/replay";
      endpoint = replay_endpoint;
    }
    ∷ record { method = codes "DELETE"; pattern = codes "/api/requests"; endpoint = clear_endpoint }
    ∷ get_route (codes "/api/stats") stats_endpoint
    ∷ get_route (codes "/api/ca.pem") ca_endpoint
    ∷ get_route (codes "/") ui_endpoint
    ∷ get_route (codes "/ui") ui_endpoint
    ∷ get_route (codes "/index.html") ui_endpoint
    ∷ []

-- A connection as a stream sees it: whether its writer can flush, what its client has received, and
-- what the select of the stream finds ready.
pub record Connection : Type 0 where
  pub can_flush : Bool
  pub client : Client
  pub events : List StreamEvent

pub record ApiRequest : Type 0 where
  pub method : Text
  pub path : Text
  pub query : Values
  pub connection : Connection

-- What is sent: a reply of a handler, what a client has received when its stream has ended, the
-- replay of an entry, the page of ui.go with its content type, the empty 200 of an OPTIONS request,
-- chi's error where it finds no route, or that of a panic.
pub data Answer : Type 0 where
  replies_with : Response → Answer
  streamed : Client → Answer
  replays : ReplayOutcome → Answer
  shows_ui : Text → Text → Answer
  empty_ok : Answer
  unrouted : Answer
  panics : Answer

-- The handler's state with the channels of its store's subscribers.
pub record Service : Type 0 where
  pub handler : Handler
  pub heap : Heap

abbrev pub world_of : Service → World
world_of s = record { ring = s.handler.store; heap = s.heap; pending = [] }

-- What the API uses of chi, net/http and encoding/json (Api.Replay, Api.Stream), of `time`, and of the
-- page that is embedded.
pub record Outside : Type 0 where
  pub find_route : List Route → Text → Text → Option (Route × Text)
  pub parse_time : Text → Option Time
  pub index_html : Text
  pub marshal : CapturedEntry → Option Text
  pub canonical : Text → Text
  pub accepts : Text → Text → Bool
  pub send : ReplayRequest → Option Reply

-- The headers of a reply that the middleware sets, and what is sent.
pub record Sent : Type 0 where
  pub headers : List (Text × Text)
  pub answer : Answer

abbrev pub cors_headers : List (Text × Text)
cors_headers =
    (codes "Access-Control-Allow-Origin", codes "*")
    ∷ (codes "Access-Control-Allow-Methods", codes "GET, POST, PUT, DELETE, OPTIONS")
    ∷ (codes "Access-Control-Allow-Headers", codes "Content-Type")
    ∷ []

abbrev sent_with_cors : Service × Answer → Service × Sent
sent_with_cors (h, answer) = (h, record { headers = cors_headers; answer = answer })

unfoldable pub cors_middleware :
    (Service → ApiRequest → Service × Answer) → Service → ApiRequest → Service × Sent
cors_middleware next h r =
    if text_eq r.method (codes "OPTIONS")
    then sent_with_cors (h, empty_ok)
    else sent_with_cors (next h r)

-- What is logged of a request: its method and path, the status and the bytes that were sent, and how
-- long it took, in nanoseconds.
pub record LogLine : Type 0 where
  pub method : Text
  pub path : Text
  pub status : ℕ
  pub bytes : ℕ
  pub duration : ℕ

-- `measure` is what the `WrapResponseWriter` of chi has counted.
unfoldable pub slog_middleware :
    (Sent → ℕ × ℕ)
    → Time
    → Time
    → (Service → ApiRequest → Service × Sent)
    → Service
    → ApiRequest
    → Service × Sent × LogLine
slog_middleware measure started ended next h r =
    let (h', sent) = next h r in
    let (status, bytes) = measure sent in
    (
      h',
      sent,
      record {
        method = r.method;
        path = r.path;
        status = status;
        bytes = bytes;
        duration = ended - started;
      },
    )

-- The page that is embedded.
abbrev pub serve_ui : Text → Answer
serve_ui index_html = shows_ui (codes "text/html; charset=utf-8") index_html

module _ (out : Outside) (now : Time) where
  abbrev cleared : Service → Handler × Response → Service × Answer
  cleared s (h, response) = (record s { handler = h }, replies_with response)

  abbrev after_stream : Service → Option (World × Client) → Service × Answer
  after_stream s none = (s, panics)
  after_stream s (some (w, c)) =
      (record { handler = record s.handler { store = w.ring }; heap = w.heap }, streamed c)

  unfoldable pub run_stream : Service → ApiRequest → Service × Answer
  run_stream s r =
      let c = r.connection in
      if c.can_flush
      then after_stream s
          (stream_session out.marshal (world_of s) c.client (backfill_count r.query) c.events)
      else (s, replies_with (json_field 500 (codes "error") (codes "streaming not supported")))

  unfoldable pub run_endpoint : Service → ApiRequest → Text → Endpoint → Service × Answer
  unfolding run_stream
  run_endpoint s r id list_endpoint =
      (s, replies_with (list_requests out.parse_time s.handler r.query))
  run_endpoint s r id stream_endpoint = run_stream s r
  run_endpoint s r id get_endpoint = (s, replies_with (get_request s.handler id))
  run_endpoint s r id replay_endpoint =
      (s, replays (replay_entry out.canonical out.accepts out.send (get s.handler.store id)))
  run_endpoint s r id clear_endpoint = cleared s (clear_requests s.handler)
  run_endpoint s r id stats_endpoint = (s, replies_with (get_stats now s.handler))
  run_endpoint s r id ca_endpoint = (s, replies_with (get_ca s.handler))
  run_endpoint s r id ui_endpoint = (s, serve_ui out.index_html)

  unfoldable pub run_route : Service → ApiRequest → Option (Route × Text) → Service × Answer
  run_route s r none = (s, unrouted)
  run_route s r (some (route, id)) = run_endpoint s r id route.endpoint

  unfoldable pub serve_api : (Sent → ℕ × ℕ) → Time → Service → ApiRequest → Service × Sent × LogLine
  unfolding slog_middleware
  serve_api measure ended s r =
      slog_middleware measure now ended
        (cors_middleware (λ s' q. run_route s' q (out.find_route routes q.method q.path))) s r
