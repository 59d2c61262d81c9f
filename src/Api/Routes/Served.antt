-- ===== src/Api/Routes/Served.antt =====
-- internal/api/api.go: what is sent for the entries that the store holds, from the request's path on.
use goper.Base.{ℕ, List, [], some, ◌≡◌, refl, ap, ◌∙◌, inl, inr, All, drop}
use goper.Base.Text.{Text, codes, text_eq}
use goper.Capture.Entry.{CapturedEntry, Time}
use goper.Capture.Ring.Spec.{Holds, find}
use goper.Capture.Ring.Refine.{paginate-nil}
use goper.Capture.Subscribers.Safety.{IsWired}
use goper.Api.Queries.{Values, list_opts_from_query}
use goper.Api.Handlers.{json_field}
use goper.Api.Handlers.Replies.{asked, page_of, entry_or_404, list_requests_lem, get_request_lem}
use goper.Api.Routes.{
  list_endpoint, get_endpoint, Route, routes, ApiRequest, Connection, Sent, Service, Answer,
  replies_with, Outside, world_of, slog_middleware, cors_middleware, run_endpoint, run_route,
  serve_api,
}
use goper.Api.Routes.Clearing.{IsChi, is_static, serve_api_lem}

abbrev collection : Text
collection = codes "/api/requests"

abbrev member : Text
member = codes "/api/requests/{id}"

-- A GET on the collection lists, and one on a member looks it up.
abbrev Reads : Route → Type 0
Reads r =
    (r.method ≡ codes "GET" → r.pattern ≡ collection → r.endpoint ≡ list_endpoint)
    × (r.method ≡ codes "GET" → r.pattern ≡ member → r.endpoint ≡ get_endpoint)

routes-Reads : All Reads routes
unfolding routes
routes-Reads = (
  (λ m p. refl, λ m p. cc),
  (
    (λ m p. cc, λ m p. cc),
    (
      (λ m p. cc, λ m p. refl),
      (
        (λ m p. cc, λ m p. cc),
        (
          (λ m p. cc, λ m p. cc),
          (
            (λ m p. cc, λ m p. cc),
            (
              (λ m p. cc, λ m p. cc),
              ((λ m p. cc, λ m p. cc), ((λ m p. cc, λ m p. cc), ((λ m p. cc, λ m p. cc), tt))),
            ),
          ),
        ),
      ),
    ),
  ),
)

-- A GET for a path, and a DELETE of the collection.
abbrev pub get_of : Text → Values → Connection → ApiRequest
get_of path query conn = record {
  method = codes "GET";
  path = path;
  query = query;
  connection = conn;
}

abbrev pub delete_all : Connection → ApiRequest
delete_all conn = record {
  method = codes "DELETE";
  path = collection;
  query = [];
  connection = conn;
}

module _ (out : Outside) (now : Time) (measure : Sent → ℕ × ℕ) (ended : Time) where
  -- The service behind a request, and what was sent.
  abbrev pub answered : Service → ApiRequest → Service × Answer
  answered s r = let (s', sent, line) = serve_api out now measure ended s r in (s', sent.answer)

  get-routed :
      (s : Service) (path : Text) (query : Values) (conn : Connection) (route : Route) (id : Text)
      → out.find_route routes (codes "GET") path ≡ some (route, id)
      → answered s (get_of path query conn)
        ≡ run_endpoint out now s (get_of path query conn) id route.endpoint
  unfolding serve_api slog_middleware cors_middleware text_eq run_route
  get-routed s path query conn route id e = ap (run_route out now s (get_of path query conn)) e

  list_answered :
      (s : Service) (q : List CapturedEntry) (query : Values) (conn : Connection)
      → Holds s.handler.store q
      → IsChi out.find_route
      → (answered s (get_of collection query conn)).1
        ≡ replies_with (page_of (asked out.parse_time query q))
  unfolding routes is_static
  list_answered s q query conn held chi =
      let (route, id, e, same) = chi.static_found [] (drop 1 routes) (first_route) refl in
      let reads = chi.registered Reads routes (codes "GET") collection id route routes-Reads e in
      let at_list = reads.0 (chi.same_method routes (codes "GET") collection id route e) same in
      ap (λ x. x.1) (get-routed s collection query conn route id e)
      ∙ ap (λ p. (run_endpoint out now s (get_of collection query conn) id p).1) at_list
      ∙ unfold run_endpoint in
        ap replies_with (list_requests_lem out.parse_time s.handler q query held)
    where
      first_route : Route
      first_route = record { method = codes "GET"; pattern = collection; endpoint = list_endpoint }

  get_answered :
      (s : Service) (q : List CapturedEntry) (path id : Text) (query : Values) (conn : Connection)
      (route : Route)
      → Holds s.handler.store q
      → IsChi out.find_route
      → out.find_route routes (codes "GET") path ≡ some (route, id)
      → route.pattern ≡ member
      → (answered s (get_of path query conn)).1 ≡ replies_with (entry_or_404 (find id q))
  get_answered s q path id query conn route held chi e same =
      let reads = chi.registered Reads routes (codes "GET") path id route routes-Reads e in
      let at_get = reads.1 (chi.same_method routes (codes "GET") path id route e) same in
      ap (λ x. x.1) (get-routed s path query conn route id e)
      ∙ ap (λ p. (run_endpoint out now s (get_of path query conn) id p).1) at_get
      ∙ unfold run_endpoint in ap replies_with (get_request_lem s.handler q id held)

  deleted-Holds :
      (s : Service) (q : List CapturedEntry) (conn : Connection)
      → Holds s.handler.store q
      → IsWired (world_of s)
      → IsChi out.find_route
      → Holds (answered s (delete_all conn)).0.handler.store []
  deleted-Holds s q conn held wired chi =
      elim (serve_api_lem out now s q measure ended (delete_all conn) held wired chi).1 [
        | inl emptied ↦ emptied.1.0
        | inr kept ↦ absurd (kept.0 (refl, refl))
      ]

  -- On a store that holds a list of entries and whose subscribers are open, a GET of /api/requests is
  -- answered with the page of the entries that its query asks for, with its length. A GET for whose
  -- path chi finds the route of a member, with an id, is answered with the first entry of that id, or
  -- with 404 where there is none. After a DELETE of /api/requests, the page has no entries and every
  -- id is answered with 404.
  pub served :
      (s : Service) (q : List CapturedEntry) (path id : Text) (query : Values) (conn : Connection)
      (route : Route)
      → Holds s.handler.store q
      → IsWired (world_of s)
      → IsChi out.find_route
      → out.find_route routes (codes "GET") path ≡ some (route, id)
      → route.pattern ≡ member
      → let emptied = (answered s (delete_all conn)).0 in
        ((answered s (get_of collection query conn)).1
          ≡ replies_with (page_of (asked out.parse_time query q)))
        × ((answered s (get_of path query conn)).1 ≡ replies_with (entry_or_404 (find id q)))
        × ((answered emptied (get_of collection query conn)).1 ≡ replies_with (page_of []))
        × ((answered emptied (get_of path query conn)).1
            ≡ replies_with (json_field 404 (codes "error") (codes "entry not found")))
  unfolding find
  served s q path id query conn route held wired chi e same =
      let emptied = (answered s (delete_all conn)).0 in
      let gone = deleted-Holds s q conn held wired chi in
      (
        list_answered s q query conn held chi,
        get_answered s q path id query conn route held chi e same,
        list_answered emptied [] query conn gone chi
            ∙ ap (λ l. replies_with (page_of l))
                (paginate-nil (list_opts_from_query out.parse_time query)),
        get_answered emptied [] path id query conn route gone chi e same,
      )
