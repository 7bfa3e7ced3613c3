-- ===== src/EndpointsPage/Synced.antt =====
-- The page against the route that it talks to, while no two of its requests for the endpoints overlap.
use multi_rpc.Prelude.{
  ℕ, ◌≡◌, refl, ap, sym, ◌∙◌, Bool, true, false, not, ◌||◌, inl, inr, Option, none, some, List, [],
  ◌∷◌, ◌++◌, filter, get_elem?, Text, lit, ◌+◌, text_eq, ok, arith, Bool-cases, ◌==◌,
}
use multi_rpc.Json.{Json}
use multi_rpc.Middleware.{Privy}
use multi_rpc.Endpoints.{
  CustomEndpoint, NewEndpoint, Store, Probe, Reply, error, added, listing, success, known, caller,
  endpoints_of, post_endpoint, delete_endpoint, get_endpoints,
}
use multi_rpc.Endpoints.Outcomes.{Added, Deleted, post_endpoint-cases, delete_endpoint-cases}
use multi_rpc.Browser.{Outcome, lost, answered}
use multi_rpc.EndpointsPage.{
  effect_ran, fetch_custom_endpoints, Page, Form, Event, Adding, clicked_add, clicked_remove,
  add_answered, remove_answered, step, click_add, add_custom_endpoint, finish_adding,
  finish_removing, fetch_rpc_health, remove_custom_endpoint, is_incomplete, body_of, opened, closed,
  typed, refreshed, health_answered, listing_answered, finish_health, finish_listing,
}

-- What the page makes of an answer of the route.
abbrev pub adding_outcome : Reply → Outcome CustomEndpoint
adding_outcome (added ep) = answered ep
adding_outcome (error status message) = Outcome.refused (some message)
adding_outcome (listing eps) = Outcome.refused none
adding_outcome success = Outcome.refused none

abbrev pub removing_outcome : Reply → Outcome (Unit {0})
removing_outcome success = answered tt
removing_outcome (error status message) = Outcome.refused (some message)
removing_outcome (listing eps) = Outcome.refused none
removing_outcome (added ep) = Outcome.refused none

-- what the route draws and learns while it adds an endpoint
pub record Draws : Type 0 where
  pub id : Text
  pub time : ℕ
  pub probe : Probe
  pub is_url : Text → Bool

abbrev pub listing_outcome : Reply → Outcome (Option (List CustomEndpoint))
listing_outcome (listing eps) = answered (some eps)
listing_outcome (error status message) = Outcome.refused (some message)
listing_outcome (added ep) = Outcome.refused none
listing_outcome success = Outcome.refused none

-- what the page does and learns besides its requests for the endpoints
pub data Aside : Type 0 where
  shows_dialog hides_dialog refreshes : Aside
  types : Form → Aside
  learns_health : Outcome Json → Aside

-- A change, or a fetch of the list by the effect, that is answered before anything else happens; or
-- something besides.
pub data Action : Type 0 where
  adds : Draws → Action
  removes : (id : Text) → Action
  lists : Action
  sees : Aside → Action

abbrev pub event_of : Aside → Event
event_of shows_dialog = opened
event_of hides_dialog = closed
event_of refreshes = refreshed
event_of (types form) = typed form
event_of (learns_health o) = health_answered o

module _ (privy : Privy) (authorization : Option Text) where
  abbrev pub serve_add : Draws → Page → Store → Option Adding → Page × Store
  serve_add d p store none = (p, store)
  serve_add d p store (some a) =
      let (reply, store') =
        post_endpoint privy authorization d.id d.time d.probe d.is_url (ok a.body) store in
      (step (add_answered 0 (adding_outcome reply)) p, store')

  abbrev pub exchange : Action → Page × Store → Page × Store
  exchange (adds d) (p, store) =
      let p' = step clicked_add p in serve_add d p' store (get_elem? p'.adding 0)
  exchange (removes id) (p, store) =
      let (reply, store') = delete_endpoint privy authorization (some id) store in
      (step (remove_answered 0 (removing_outcome reply)) (step (clicked_remove id) p), store')
  exchange lists (p, store) =
      let reply = get_endpoints privy authorization store in
      (step (listing_answered (listing_outcome reply)) (step effect_ran p), store)
  exchange (sees a) (p, store) = (step (event_of a) p, store)

  unfoldable pub exchanges : List Action → Page × Store → Page × Store
  exchanges [] s = s
  exchanges (a ∷ rest) s = exchanges rest (exchange a s)

  -- Nothing is on its way, and the page shows what the route has.
  pub record IsSynced (u : Text) (s : Page × Store) : Type 0 where
    pub no_add : s.0.adding ≡ []
    pub no_remove : s.0.removing ≡ []
    pub shown : s.0.custom_endpoints ≡ endpoints_of u s.1

  module _ (u : Text)
      (knows : (failure : Text) → caller privy failure authorization ≡ known u) where
    finish_health-IsSynced :
        (o : Outcome Json) (p : Page) (store : Store)
        → IsSynced u (p, store)
        → IsSynced u (finish_health o p, store)
    unfolding finish_health
    finish_health-IsSynced lost p store h = ground arith
    finish_health-IsSynced (Outcome.refused e) p store h = ground arith
    finish_health-IsSynced (answered v) p store h = ground arith

    sees-IsSynced :
        (a : Aside) (p : Page) (store : Store)
        → IsSynced u (p, store)
        → IsSynced u (step (event_of a) p, store)
    unfolding step fetch_rpc_health
    sees-IsSynced shows_dialog p store h = ground arith
    sees-IsSynced hides_dialog p store h = ground arith
    sees-IsSynced refreshes p store h = ground arith
    sees-IsSynced (types f) p store h = ground arith
    sees-IsSynced (learns_health o) p store h = elim (Bool-cases (p.health_calls == 0)) [
      | inl none_left ↦ rw none_left h
      | inr due ↦ rw due (finish_health-IsSynced o _ store (ground arith))
    ]

    -- The list that the route answers is the one that the page shows.
    lists-IsSynced :
        (p : Page) (store : Store) → IsSynced u (p, store) → IsSynced u (exchange lists (p, store))
    unfolding step fetch_rpc_health fetch_custom_endpoints finish_listing get_endpoints
    lists-IsSynced p store h =
        let due : (p.listing_calls + 1 == 0) ≡ false = ground arith in
        rw (knows (lit "Failed to fetch endpoints"), due)
          (record { no_add = h.no_add; no_remove = h.no_remove; shown = refl })

    -- The answer of the route, whichever it is, keeps the page and the store together.
    finish_adding-IsSynced :
        (p : Page) (store : Store) (body : NewEndpoint) (r : Reply × Store)
        → IsSynced u (p, store)
        → Added privy authorization u knows store r
        → IsSynced u (
          finish_adding
              (record { endpoints = p.custom_endpoints; body = body })
              (adding_outcome r.0)
              (record p { is_adding = true; endpoint_error = []; adding = [] }),
          r.1,
        )
    unfolding finish_adding fetch_rpc_health
    finish_adding-IsSynced p store body r h (inl (ep, answer, more)) = rw answer (record {
      no_add = refl;
      no_remove = h.no_remove;
      shown = ap (λ eps. eps ++ ep ∷ []) h.shown ∙ sym more;
    })
    finish_adding-IsSynced p store body r h (inr (n, m, e)) =
        rw e (record { no_add = refl; no_remove = h.no_remove; shown = h.shown })

    finish_removing-IsSynced :
        (p : Page) (store : Store) (id : Text) (r : Reply × Store)
        → IsSynced u (p, store)
        → Deleted privy authorization u knows id store r
        → IsSynced u (
          finish_removing
              (record { endpoints = p.custom_endpoints; id = id })
              (removing_outcome r.0)
              (record p { removing = [] }),
          r.1,
        )
    unfolding finish_removing fetch_rpc_health
    finish_removing-IsSynced p store id r h (inl (answer, less)) = rw answer (record {
      no_add = h.no_add;
      no_remove = refl;
      shown = ap (filter (λ ep. not (text_eq ep.id id))) h.shown ∙ sym less;
    })
    finish_removing-IsSynced p store id r h (inr (n, m, e)) =
        rw e (record { no_add = h.no_add; no_remove = refl; shown = h.shown })

    exchange-IsSynced :
        (a : Action) (p : Page) (store : Store)
        → IsSynced u (p, store)
        → IsSynced u (exchange a (p, store))
    unfolding step click_add add_custom_endpoint remove_custom_endpoint
    exchange-IsSynced (sees a) p store h = sees-IsSynced a p store h
    exchange-IsSynced lists p store h = lists-IsSynced p store h
    exchange-IsSynced (removes id) p store h = rw h.no_remove (
        finish_removing-IsSynced p store id _ h
          (delete_endpoint-cases privy authorization u knows id store))
    exchange-IsSynced (adds d) p store h =
        elim (Bool-cases (is_incomplete p.new_endpoint || p.is_adding)) [
          | inl held ↦
              rw (held, h.no_add)
                (record { no_add = refl; no_remove = h.no_remove; shown = h.shown })
          | inr free ↦
              let complete : is_incomplete p.new_endpoint ≡ false = ground arith in
              rw (free, complete, h.no_add)
                (finish_adding-IsSynced p store (body_of p.new_endpoint) _ h (
                  post_endpoint-cases privy authorization u knows d.id d.time d.probe d.is_url
                    (body_of p.new_endpoint) store))
        ]

    -- If the page shows the endpoints that the route has for the user of its token, then it does so
    -- after any sequence of additions, removals and fetches of the list, refused ones included, of
    -- which each is answered by the route before the next begins, with any typing, opening and closing
    -- of the dialog, refreshing and answers about the health in between.
    pub exchanges-IsSynced :
        (actions : List Action) (p : Page) (store : Store)
        → IsSynced u (p, store)
        → IsSynced u (exchanges actions (p, store))
    unfolding exchanges
    exchanges-IsSynced [] p store h = h
    exchanges-IsSynced (a ∷ rest) p store h =
        let next = exchange a (p, store) in
        exchanges-IsSynced rest next.0 next.1 (exchange-IsSynced a p store h)
