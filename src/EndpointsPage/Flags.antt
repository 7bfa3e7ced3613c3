-- ===== src/EndpointsPage/Flags.antt =====
-- The button that adds an endpoint and the request behind it.
use multi_rpc.Prelude.{
  ℕ, zero, suc, ◌≡◌, refl, Bool, true, false, Option, none, some, List, [], ◌∷◌, get_elem?,
  Bool-cases, inl, inr, ◌==◌,
}
use multi_rpc.Json.{Json}
use multi_rpc.Endpoints.{CustomEndpoint}
use multi_rpc.Browser.{Outcome, lost, refused, answered, without_at}
use multi_rpc.EndpointsPage.{
  effect_ran, fetch_custom_endpoints, Page, Event, Adding, Removing, opened, closed, typed,
  refreshed, clicked_add, clicked_remove, health_answered, listing_answered, add_answered,
  remove_answered, step, run, mounted, click_add, add_custom_endpoint, finish_adding,
  finish_removing, finish_health, finish_listing, fetch_rpc_health, remove_custom_endpoint,
  add_ends, remove_ends, is_incomplete,
}

-- The flag says whether the one request is on its way.
abbrev pub HasFlag : Bool → List Adding → Type 0
HasFlag false [] = Unit
HasFlag true (a ∷ []) = Unit
HasFlag _ _ = ⊥

finish_adding-flags :
    (a : Adding) (o : Outcome CustomEndpoint) (p : Page)
    → ((finish_adding a o p).is_adding ≡ false) × ((finish_adding a o p).adding ≡ p.adding)
unfolding finish_adding fetch_rpc_health
finish_adding-flags a lost p = (refl, refl)
finish_adding-flags a (refused e) p = (refl, refl)
finish_adding-flags a (answered ep) p = (refl, refl)

abbrev Flagged : Page → Type 0
Flagged p = HasFlag p.is_adding p.adding

finish_health-Flagged : (o : Outcome Json) (p : Page) → Flagged p → Flagged (finish_health o p)
unfolding finish_health
finish_health-Flagged lost p h = h
finish_health-Flagged (refused e) p h = h
finish_health-Flagged (answered v) p h = h

finish_listing-Flagged :
    (o : Outcome (Option (List CustomEndpoint))) (p : Page)
    → Flagged p
    → Flagged (finish_listing o p)
unfolding finish_listing
finish_listing-Flagged lost p h = h
finish_listing-Flagged (refused e) p h = h
finish_listing-Flagged (answered eps) p h = h

remove_ends-Flagged :
    (i : ℕ) (o : Outcome (Unit {0})) (r : Option Removing) (p : Page)
    → Flagged p
    → Flagged (remove_ends i o p r)
unfolding finish_removing fetch_rpc_health
remove_ends-Flagged i o none p h = h
remove_ends-Flagged i lost (some r) p h = h
remove_ends-Flagged i (refused e) (some r) p h = h
remove_ends-Flagged i (answered u) (some r) p h = h

-- Only the first and only request can be answered, which leaves none.
add_ends-Flagged :
    (i : ℕ) (o : Outcome CustomEndpoint) (sent : List Adding) (flag : Bool) (p : Page)
    → p.adding ≡ sent
    → HasFlag flag sent
    → Flagged p
    → Flagged (add_ends i o p (get_elem? sent i))
add_ends-Flagged i o [] flag p listed h same = same
add_ends-Flagged (suc i) o (a ∷ []) flag p listed h same = same
add_ends-Flagged zero o (a ∷ []) flag p listed h same =
    let (lowered, left) = finish_adding-flags a o (record p { adding = without_at 0 p.adding }) in
    rw (lowered, left, listed) tt
add_ends-Flagged i o (a ∷ b ∷ sent) true p listed h same = absurd h
add_ends-Flagged i o (a ∷ b ∷ sent) false p listed h same = absurd h

click_add-Flagged :
    (bad flag : Bool) (sent : List Adding) (p : Page)
    → is_incomplete p.new_endpoint ≡ bad
    → p.is_adding ≡ flag
    → p.adding ≡ sent
    → HasFlag flag sent
    → Flagged p
    → Flagged (click_add p)
unfolding click_add add_custom_endpoint
click_add-Flagged true flag sent p test flagged listed h same = rw test same
click_add-Flagged false true sent p test flagged listed h same = rw (test, flagged, listed) h
click_add-Flagged false false [] p test flagged listed h same = rw (test, flagged, listed) tt
click_add-Flagged false false (a ∷ sent) p test flagged listed h same = absurd h

step-Flagged : (e : Event) (p : Page) → Flagged p → Flagged (step e p)
unfolding step remove_custom_endpoint fetch_rpc_health fetch_custom_endpoints
step-Flagged effect_ran p h = h
step-Flagged opened p h = h
step-Flagged closed p h = h
step-Flagged (typed f) p h = h
step-Flagged refreshed p h = h
step-Flagged clicked_add p h =
    click_add-Flagged (is_incomplete p.new_endpoint) p.is_adding p.adding p refl refl refl h h
step-Flagged (clicked_remove id) p h = h
step-Flagged (health_answered o) p h = elim (Bool-cases (p.health_calls == 0)) [
  | inl none_left ↦ rw none_left h
  | inr due ↦ rw due (finish_health-Flagged o _ h)
]
step-Flagged (listing_answered o) p h = elim (Bool-cases (p.listing_calls == 0)) [
  | inl none_left ↦ rw none_left h
  | inr due ↦ rw due (finish_listing-Flagged o _ h)
]
step-Flagged (add_answered i o) p h = add_ends-Flagged i o p.adding p.is_adding p refl h h
step-Flagged (remove_answered i o) p h = remove_ends-Flagged i o (get_elem? p.removing i) p h

run-Flagged : (es : List Event) (p : Page) → Flagged p → Flagged (run es p)
unfolding run
run-Flagged [] p h = h
run-Flagged (e ∷ es) p h = run-Flagged es (step e p) (step-Flagged e p h)

-- Whatever happens on the page, at most one request that adds an endpoint is on its way, and the button
-- is held back by the flag exactly then.
pub run-HasFlag : (es : List Event) → HasFlag (run es mounted).is_adding (run es mounted).adding
unfolding mounted
run-HasFlag es = run-Flagged es mounted tt
