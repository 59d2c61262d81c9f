-- ===== src/Api/Routes/Clearing.antt =====
-- internal/api/api.go: which requests change the handler, whatever else is served.
use goper.Base.{
  ℕ, Bool, true, false, List, [], ◌∷◌, ◌++◌, Option, none, some, ◌==◌, if◌then◌else◌, ◌≡◌, ◌≢◌, ◌⊎◌,
  inl, inr, refl, sym, ap, ◌∙◌, arith, All, Bool-cases, take, drop,
}
use goper.Base.Text.{Text, codes, text_eq, text_eq_iff}
use goper.Capture.Entry.{CapturedEntry, Time}
use goper.Capture.Ring.{clear}
use goper.Capture.Ring.Spec.{Holds}
use goper.Capture.Ring.Refine.{clear-Holds}
use goper.Capture.Subscribers.Safety.{IsWired}
use goper.Api.Queries.{backfill_count}
use goper.Api.Handlers.{json_field, clear_requests}
use goper.Api.Stream.Leaving.{stream_session_lem}
use goper.Api.Routes.{
  Endpoint, list_endpoint, stream_endpoint, get_endpoint, replay_endpoint, clear_endpoint,
  stats_endpoint, ca_endpoint, ui_endpoint, Route, routes, ApiRequest, Sent, cors_headers, Service,
  Answer, replies_with, Outside, world_of, slog_middleware, cors_middleware, run_stream,
  run_endpoint, run_route, serve_api,
}

-- A pattern without parameters and wildcards.
unfoldable pub is_static : Text → Bool
is_static [] = true
is_static (c ∷ cs) = if c == b'{' then false else if c == b'*' then false else is_static cs

-- What is relied on of chi: a route that it finds is one of those registered, has the method of the
-- request, and, if its pattern is static, the path. Where a route with a static pattern is
-- registered, a request of its method for that path finds a route with that pattern.
pub record IsChi (find_route : List Route → Text → Text → Option (Route × Text)) : Type 1 where
  pub registered :
      (P : Route → Type 0) (rs : List Route) (method path id : Text) (r : Route)
      → All P rs
      → find_route rs method path ≡ some (r, id)
      → P r
  pub same_method :
      (rs : List Route) (method path id : Text) (r : Route)
      → find_route rs method path ≡ some (r, id)
      → r.method ≡ method
  pub same_path :
      (rs : List Route) (method path id : Text) (r : Route)
      → is_static r.pattern ≡ true
      → find_route rs method path ≡ some (r, id)
      → r.pattern ≡ path
  pub static_found :
      (before after : List Route) (r : Route)
      → is_static r.pattern ≡ true
      → (found : Route) × (id : Text) × (find_route (before ++ r ∷ after) r.method r.pattern
          ≡ some (found, id))
        × (found.pattern ≡ r.pattern)

-- The request that clears the store.
abbrev pub IsClear : ApiRequest → Type 0
IsClear r = (r.method ≡ codes "DELETE") × (r.path ≡ codes "/api/requests")

-- The route that clears is the DELETE on the collection, the only one of that method.
abbrev Clears : Route → Endpoint → Type 0
Clears r clear_endpoint = (r.method ≡ codes "DELETE") × (r.pattern ≡ codes "/api/requests")
Clears r list_endpoint = r.method ≢ codes "DELETE"
Clears r stream_endpoint = r.method ≢ codes "DELETE"
Clears r get_endpoint = r.method ≢ codes "DELETE"
Clears r replay_endpoint = r.method ≢ codes "DELETE"
Clears r stats_endpoint = r.method ≢ codes "DELETE"
Clears r ca_endpoint = r.method ≢ codes "DELETE"
Clears r ui_endpoint = r.method ≢ codes "DELETE"

get_other : codes "GET" ≢ codes "DELETE"
get_other e = cc

post_other : codes "POST" ≢ codes "DELETE"
post_other e = cc

options_other : codes "OPTIONS" ≢ codes "DELETE"
options_other e = cc

routes-Clears : All (λ (r : Route). Clears r r.endpoint) routes
unfolding routes
routes-Clears = (
  get_other,
  (
    get_other,
    (
      get_other,
      (
        post_other,
        ((refl, refl), (get_other, (get_other, (get_other, (get_other, (get_other, tt)))))),
      ),
    ),
  ),
)

-- The store has been emptied, the subscribers are who they were, and this is replied.
abbrev pub IsEmptied : Service → Service × Answer → Type 0
IsEmptied s (s', answer) =
    Holds s'.handler.store []
    × (s'.handler.store.subscribers ≡ s.handler.store.subscribers)
    × (s'.handler.ca_pem ≡ s.handler.ca_pem)
    × (s'.heap ≡ s.heap)
    × (answer ≡ replies_with (json_field 200 (codes "status") (codes "cleared")))

-- A request that clears does so, and any other leaves the handler with its store as it is.
abbrev pub ClearsOrKeeps : Service → ApiRequest → Service × Answer → Type 0
ClearsOrKeeps s r next =
    (IsClear r × IsEmptied s next) ⊎ ((¬ IsClear r) × (next.0.handler ≡ s.handler))

some_other : {A : Type 0} {a : A} → some a ≢ none
some_other e = cc

module _ (out : Outside) (now : Time) (s : Service) (q : List CapturedEntry) where
  run_stream-handler :
      (r : ApiRequest) → IsWired (world_of s) → (run_stream out now s r).0.handler ≡ s.handler
  unfolding run_stream
  run_stream-handler r wired = elim (Bool-cases r.connection.can_flush) [
    | inr no_flusher ↦ rw no_flusher refl
    | inl flusher ↦
        let c = r.connection in
        let (w', c', ends, same) =
          stream_session_lem out.marshal (world_of s) c.client (backfill_count r.query) c.events
            wired in
        let handler = s.handler in
        rw (flusher, ends) (ap (λ rb. record handler { store = rb }) same)
  ]

  run_endpoint-keeps :
      (r : ApiRequest) (id : Text) (route : Route) (e : Endpoint)
      → Holds s.handler.store q
      → IsWired (world_of s)
      → Clears route e
      → route.method ≡ r.method
      → (is_static route.pattern ≡ true → route.pattern ≡ r.path)
      → ClearsOrKeeps s r (run_endpoint out now s r id e)
  unfolding run_endpoint clear_requests
  run_endpoint-keeps r id route clear_endpoint held wired c m p =
      let static : is_static route.pattern ≡ true = ap is_static c.1 ∙ unfold is_static in refl in
      inl (
        (sym m ∙ c.0, sym (p static) ∙ c.1),
        (
          clear-Holds s.handler.store (omega (arith, held.head_in)),
          unfold clear in refl,
          refl,
          refl,
          refl,
        ),
      )
  run_endpoint-keeps r id route list_endpoint held wired c m p = inr (λ k. c (m ∙ k.0), refl)
  run_endpoint-keeps r id route stream_endpoint held wired c m p =
      inr (λ k. c (m ∙ k.0), run_stream-handler r wired)
  run_endpoint-keeps r id route get_endpoint held wired c m p = inr (λ k. c (m ∙ k.0), refl)
  run_endpoint-keeps r id route replay_endpoint held wired c m p = inr (λ k. c (m ∙ k.0), refl)
  run_endpoint-keeps r id route stats_endpoint held wired c m p = inr (λ k. c (m ∙ k.0), refl)
  run_endpoint-keeps r id route ca_endpoint held wired c m p = inr (λ k. c (m ∙ k.0), refl)
  run_endpoint-keeps r id route ui_endpoint held wired c m p = inr (λ k. c (m ∙ k.0), refl)

  -- A route for the request that clears is found.
  clear_found :
      (r : ApiRequest)
      → IsChi out.find_route
      → IsClear r
      → out.find_route routes r.method r.path ≢ none
  unfolding routes is_static
  clear_found r chi k missing =
      let (found, id, e, same) =
        chi.static_found (take 4 routes) (drop 5 routes)
          (record {
            method = codes "DELETE";
            pattern = codes "/api/requests";
            endpoint = clear_endpoint;
          })
          refl in
      let gone : out.find_route routes (codes "DELETE") (codes "/api/requests") ≡ none =
        ap (λ m. out.find_route routes m (codes "/api/requests")) (sym k.0)
        ∙ ap (out.find_route routes r.method) (sym k.1)
        ∙ missing in
      some_other (sym e ∙ gone)

  run_route-keeps :
      (r : ApiRequest) (found : Option (Route × Text))
      → Holds s.handler.store q
      → IsWired (world_of s)
      → IsChi out.find_route
      → out.find_route routes r.method r.path ≡ found
      → ClearsOrKeeps s r (run_route out now s r found)
  unfolding run_route
  run_route-keeps r none held wired chi e = inr (λ k. clear_found r chi k e, refl)
  run_route-keeps r (some (route, id)) held wired chi e =
      run_endpoint-keeps r id route route.endpoint held wired
        (chi.registered (λ (x : Route). Clears x x.endpoint) routes r.method r.path id route
          routes-Clears e)
        (chi.same_method routes r.method r.path id route e)
        (λ static. chi.same_path routes r.method r.path id route static e)

  -- On a store that holds a list of entries and whose subscribers are open, every reply of the API
  -- carries the CORS headers, and its method and path are logged. A DELETE of /api/requests empties
  -- the store, whose subscribers stay, and says so. Any other request, whatever its method and path,
  -- leaves the handler with its store as it is, a stream included, which is no subscriber any
  -- more when it ends.
  pub serve_api_lem :
      (measure : Sent → ℕ × ℕ) (ended : Time) (r : ApiRequest)
      → Holds s.handler.store q
      → IsWired (world_of s)
      → IsChi out.find_route
      → let (s', sent, line) = serve_api out now measure ended s r in
        (sent.headers ≡ cors_headers)
        × ClearsOrKeeps s r (s', sent.answer)
        × (line.method ≡ r.method)
        × (line.path ≡ r.path)
  unfolding serve_api slog_middleware cors_middleware
  serve_api_lem measure ended r held wired chi =
      elim (Bool-cases (text_eq r.method (codes "OPTIONS"))) [
        | inl e ↦
            let other = (text_eq_iff r.method (codes "OPTIONS")).0 e in
            rw e (refl, inr (λ k. options_other (sym other ∙ k.0), refl), refl, refl)
        | inr e ↦ rw e (refl, run_route-keeps r _ held wired chi refl, refl, refl)
      ]
