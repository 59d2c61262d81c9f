-- ===== src/Examples/Routes.antt =====
-- internal/api/api.go with a router that knows static patterns only.
use goper.Base.{
  ℕ, true, false, ◌++◌, List, [], ◌∷◌, Option, none, some, ◌&&◌, if◌then◌else◌, if_true, if_false,
  ◌≡◌, ◌≢◌, drop, refl, sym, ap, subst, ◌∙◌, arith, All, Bool-cases, inl, inr,
}
use goper.Base.Chain.{or_else}
use goper.Base.Text.{Text, codes, text_eq, text_eq_iff, text_eq_self}
use goper.Capture.Ring.Spec.{Holds, find}
use goper.Capture.Subscribers.Safety.{IsWired}
use goper.Api.Routes.{
  Endpoint, Route, routes, replies_with, ApiRequest, Connection, Sent, Service, Outside, world_of,
  cors_headers, serve_api,
}
use goper.Api.Routes.Clearing.{IsChi, is_static, ClearsOrKeeps, serve_api_lem}
use goper.Api.Routes.Served.{served, answered, delete_all, get_of}
use goper.Api.Handlers.{json_field}
use goper.Api.Handlers.Replies.{asked, page_of, entry_or_404}
use goper.Examples.Api.{
  no_time, handler, store, stored, store-Holds, id_only, fresh_client, limit_12,
}

unfoldable find_literal : List Route → Text → Text → Option (Route × Text)
find_literal [] method path = none
find_literal (r ∷ rs) method path =
    let rest = find_literal rs method path in
    if text_eq r.method method && text_eq r.pattern path then some (r, []) else rest

-- A route that is found is registered, with this method and this path.
find_literal-found :
    (P : Route → Type 0) (rs : List Route) (method path id : Text) (r : Route)
    → All P rs
    → find_literal rs method path ≡ some (r, id)
    → P r × (r.method ≡ method) × (r.pattern ≡ path)
unfolding find_literal
find_literal-found P [] method path id r all h = absurd (ground (arith, h))
find_literal-found P (q ∷ rs) method path id r all h =
    elim (Bool-cases (text_eq q.method method && text_eq q.pattern path)) [
      | inl e ↦
          let same : q ≡ r =
            ap (λ (x : Route × Text). x.0)
              (ap (or_else (r, id))
                (sym (if_true _ (some (q, [])) (find_literal rs method path) e) ∙ h)) in
          subst (λ (x : Route). P x × (x.method ≡ method) × (x.pattern ≡ path)) same
            (
              all.0,
              (text_eq_iff q.method method).0 (ground (arith, e)),
              (text_eq_iff q.pattern path).0 (ground (arith, e)),
            )
      | inr e ↦
          find_literal-found P rs method path id r all.1
            (sym (if_false _ (some (q, [])) (find_literal rs method path) e) ∙ h)
    ]

any : (rs : List Route) → All (λ (r : Route). r ≡ r) rs
any [] = tt
any (r ∷ rs) = (refl, any rs)

-- A literal path that is registered is found.
find_literal-static :
    (before after : List Route) (r : Route)
    → is_static r.pattern ≡ true
    → (found : Route) × (id : Text) × (find_literal (before ++ r ∷ after) r.method r.pattern
        ≡ some (found, id))
      × (found.pattern ≡ r.pattern)
unfolding find_literal
find_literal-static [] after r h =
    (r, [], rw (text_eq_self r.method, text_eq_self r.pattern) refl, refl)
find_literal-static (q ∷ before) after r h =
    elim (Bool-cases (text_eq q.method r.method && text_eq q.pattern r.pattern)) [
      | inl e ↦ (q, [], rw e refl, (text_eq_iff q.pattern r.pattern).0 (ground (arith, e)))
      | inr e ↦
          let (found, id, f, same) = find_literal-static before after r h in
          (found, id, rw e f, same)
    ]

true_ne : true ≢ false
true_ne e = cc

abbrev member : Text
member = codes "/api/requests/{id}"

-- A member's path, with the id behind the 14 bytes of "/api/requests/".
unfoldable find_member : List Route → Text → Text → Option (Route × Text)
find_member [] method path = none
find_member (r ∷ rs) method path =
    let rest = find_member rs method path in
    if text_eq r.method method && text_eq r.pattern member then some (r, drop 14 path) else rest

find_member-found :
    (P : Route → Type 0) (rs : List Route) (method path id : Text) (r : Route)
    → All P rs
    → find_member rs method path ≡ some (r, id)
    → P r × (r.method ≡ method) × (r.pattern ≡ member)
unfolding find_member
find_member-found P [] method path id r all h = absurd (ground (arith, h))
find_member-found P (q ∷ rs) method path id r all h =
    elim (Bool-cases (text_eq q.method method && text_eq q.pattern member)) [
      | inl e ↦
          let same : q ≡ r =
            ap (λ (x : Route × Text). x.0)
              (ap (or_else (r, id))
                (sym (if_true _ (some (q, drop 14 path)) (find_member rs method path) e) ∙ h)) in
          subst (λ (x : Route). P x × (x.method ≡ method) × (x.pattern ≡ member)) same
            (
              all.0,
              (text_eq_iff q.method method).0 (ground (arith, e)),
              (text_eq_iff q.pattern member).0 (ground (arith, e)),
            )
      | inr e ↦
          find_member-found P rs method path id r all.1
            (sym (if_false _ (some (q, drop 14 path)) (find_member rs method path) e) ∙ h)
    ]

abbrev first_found : Option (Route × Text) → Option (Route × Text) → Option (Route × Text)
first_found none later = later
first_found (some x) later = some x

unfoldable find_toy : List Route → Text → Text → Option (Route × Text)
find_toy rs method path = first_found (find_literal rs method path) (find_member rs method path)

-- What a router finds is registered, with the method, and at the path if the pattern is static.
abbrev IsFound : (Route → Type 0) → Text → Text → Route → Type 0
IsFound P method path r =
    P r × (r.method ≡ method) × (is_static r.pattern ≡ true → r.pattern ≡ path)

find_toy-IsFound :
    (P : Route → Type 0) (rs : List Route) (method path id : Text) (r : Route)
    → All P rs
    → find_toy rs method path ≡ some (r, id)
    → IsFound P method path r
unfolding find_toy
find_toy-IsFound P rs method path id r all h = go (find_literal rs method path) refl h
  where
    go :
        (o : Option (Route × Text))
        → find_literal rs method path ≡ o
        → first_found o (find_member rs method path) ≡ some (r, id)
        → IsFound P method path r
    go none e h' =
        let (p, m, at_member) = find_member-found P rs method path id r all h' in
        let dynamic : is_static member ≡ false = unfold is_static in refl in
        (p, m, λ static. absurd (true_ne (sym static ∙ ap is_static at_member ∙ dynamic)))
    go (some x) e h' =
        let (p, m, at_path) = find_literal-found P rs method path id r all (e ∙ h') in
        (p, m, λ static. at_path)

find_toy-IsChi : IsChi find_toy
unfolding find_toy
find_toy-IsChi = record {
  registered = λ P rs method path id r all h. (find_toy-IsFound P rs method path id r all h).0;
  same_method = λ rs method path id r h.
      (find_toy-IsFound (λ (q : Route). q ≡ q) rs method path id r (any rs) h).1;
  same_path = λ rs method path id r static h.
      (find_toy-IsFound (λ (q : Route). q ≡ q) rs method path id r (any rs) h).2 static;
  static_found = λ before after r static.
      let (found, id, e, same) = find_literal-static before after r static in
      (
        found,
        id,
        ap (λ o. first_found o (find_member (before ++ r ∷ after) r.method r.pattern)) e,
        same,
      );
}

abbrev toy_outside : Outside
toy_outside = record {
  find_route = find_toy;
  parse_time = no_time;
  index_html = codes "<html>";
  marshal = id_only;
  canonical = λ k. k;
  accepts = λ method url. true;
  send = λ r. none;
}

-- One subscriber waits on an open channel.
abbrev service : Service
service = record {
  handler = record handler { store = record store { subscribers = 0 ∷ [] } };
  heap = record { queue = []; closed = false } ∷ [];
}

service-IsWired : IsWired (world_of service)
service-IsWired = record { all_open = (refl, tt); distinct = (tt, tt); waiting = tt }

service-Holds : Holds service.handler.store stored
service-Holds =
    let held = store-Holds in
    record {
      sized = held.sized;
      head_in = held.head_in;
      tail_at = held.tail_at;
      counted = held.counted;
      fits = held.fits;
      slots = held.slots;
      indexed = held.indexed;
      distinct = held.distinct;
    }

abbrev connected : Connection
connected = record { can_flush = true; client = fresh_client; events = [] }

abbrev clearing : ApiRequest
clearing = record {
  method = codes "DELETE";
  path = codes "/api/requests";
  query = [];
  connection = connected;
}

abbrev ok_and_empty : Sent → ℕ × ℕ
ok_and_empty sent = (200, 0)

serve_api_lem_example :
    let (s', sent, line) = serve_api toy_outside 0 ok_and_empty 5 service clearing in
    (sent.headers ≡ cors_headers)
    × ClearsOrKeeps service clearing (s', sent.answer)
    × (line.method ≡ codes "DELETE")
    × (line.path ≡ codes "/api/requests")
serve_api_lem_example =
    serve_api_lem toy_outside 0 service stored ok_and_empty 5 clearing service-Holds service-IsWired
      find_toy-IsChi

abbrev route_of_member : Route
route_of_member = record {
  method = codes "GET";
  pattern = member;
  endpoint = Endpoint.get_endpoint;
}

member_found :
    find_toy routes (codes "GET") (codes "/api/requests/2") ≡ some (route_of_member, codes "2")
unfolding find_toy find_literal find_member routes text_eq
member_found = refl

served_example :
    let emptied = (answered toy_outside 0 ok_and_empty 5 service (delete_all connected)).0 in
    ((answered toy_outside 0 ok_and_empty 5 service
        (get_of (codes "/api/requests") limit_12 connected)).1
      ≡ replies_with (page_of (asked no_time limit_12 stored)))
    × ((answered toy_outside 0 ok_and_empty 5 service
          (get_of (codes "/api/requests/2") limit_12 connected)).1
        ≡ replies_with (entry_or_404 (find (codes "2") stored)))
    × ((answered toy_outside 0 ok_and_empty 5 emptied
          (get_of (codes "/api/requests") limit_12 connected)).1
        ≡ replies_with (page_of []))
    × ((answered toy_outside 0 ok_and_empty 5 emptied
          (get_of (codes "/api/requests/2") limit_12 connected)).1
        ≡ replies_with (json_field 404 (codes "error") (codes "entry not found")))
served_example =
    served toy_outside 0 ok_and_empty 5 service stored (codes "/api/requests/2") (codes "2")
      limit_12 connected route_of_member service-Holds service-IsWired find_toy-IsChi member_found
      refl
