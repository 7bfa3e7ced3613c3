-- ===== src/EndpointsPage/Stale.antt =====
-- What the page shows after requests that overlap.
use multi_rpc.Prelude.{
  ◌≤◌, ◌<◌, ◌≡◌, ◌≢◌, ap, true, false, not, List, [], ◌∷◌, ◌++◌, any, filter, length, length-append,
  Text, text_eq, arith,
}
use multi_rpc.Endpoints.{CustomEndpoint}
use multi_rpc.Browser.{answered}
use multi_rpc.EndpointsPage.{
  Page, Event, clicked_add, clicked_remove, add_answered, remove_answered, step, run, click_add,
  add_custom_endpoint, finish_adding, finish_removing, fetch_rpc_health, remove_custom_endpoint,
  is_incomplete,
}

abbrev pub others : Text → List CustomEndpoint → List CustomEndpoint
others id eps = filter (λ ep. not (text_eq ep.id id)) eps

length-others : (id : Text) (eps : List CustomEndpoint) → length (others id eps) ≤ length eps
length-others id [] = omega arith
length-others id (ep ∷ eps) = ground (arith, length-others id eps)

length-others_of_any :
    (id : Text) (eps : List CustomEndpoint)
    → any (λ ep. text_eq ep.id id) eps ≡ true
    → length (others id eps) < length eps
length-others_of_any id [] h = cc h
length-others_of_any id (ep ∷ eps) h =
    ground (arith, length-others id eps, length-others_of_any id eps)

-- The endpoints after one is removed and, before the answer comes, another one is added.
abbrev pub crossing : Page → Text → List Event → List CustomEndpoint
crossing p id answers = (run (clicked_remove id ∷ clicked_add ∷ answers) p).custom_endpoints

module _ (p : Page) (id : Text) (ep : CustomEndpoint) (no_add : p.adding ≡ [])
    (no_remove : p.removing ≡ []) (enabled : p.is_adding ≡ false)
    (complete : is_incomplete p.new_endpoint ≡ false) where
  crossing-remove_last :
      crossing p id (add_answered 0 (answered ep) ∷ remove_answered 0 (answered tt) ∷ [])
      ≡ others id p.custom_endpoints
  unfolding run step click_add add_custom_endpoint finish_adding finish_removing fetch_rpc_health
      remove_custom_endpoint
  crossing-remove_last = ground arith

  crossing-add_last :
      crossing p id (remove_answered 0 (answered tt) ∷ add_answered 0 (answered ep) ∷ [])
      ≡ p.custom_endpoints ++ ep ∷ []
  unfolding run step click_add add_custom_endpoint finish_adding finish_removing fetch_rpc_health
      remove_custom_endpoint
  crossing-add_last = ground arith

  -- If an endpoint of the page is removed and, with nothing else on its way, another one is added before
  -- the answer comes, then the page ends without the new endpoint or with the removed one, by which
  -- answer is the last, though both were answered as done.
  pub run-crossing :
      any (λ ep. text_eq ep.id id) p.custom_endpoints ≡ true
      → let done = others id p.custom_endpoints ++ ep ∷ [] in
        (crossing p id (add_answered 0 (answered ep) ∷ remove_answered 0 (answered tt) ∷ [])
          ≡ others id p.custom_endpoints)
        × (crossing p id (remove_answered 0 (answered tt) ∷ add_answered 0 (answered ep) ∷ [])
            ≡ p.custom_endpoints ++ ep ∷ [])
        × (others id p.custom_endpoints ≢ done)
        × (p.custom_endpoints ++ ep ∷ [] ≢ done)
  run-crossing shown =
      let fewer = length-others_of_any id p.custom_endpoints shown in
      (
        crossing-remove_last,
        crossing-add_last,
        λ e. omega (arith, ap length e, length-append (others id p.custom_endpoints) (ep ∷ [])),
        λ e. omega (
          arith,
          fewer,
          ap length e,
          length-append (others id p.custom_endpoints) (ep ∷ []),
          length-append p.custom_endpoints (ep ∷ []),
        ),
      )
