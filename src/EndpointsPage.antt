-- ===== src/EndpointsPage.antt =====
-- web-ui/src/app/dashboard/endpoints/page.tsx: the page of the custom endpoints. A handler runs to its
-- first wait and again when its request is answered; it then works with the endpoints that the page had
-- at the click. What is drawn, and the timer that stops when the page is left, are not modelled.
pub mod Flags
pub mod Stale
pub mod Synced
use multi_rpc.Prelude.{
  ℕ, zero, suc, ◌+◌, ◌-◌, ◌==◌, Bool, true, false, not, ◌||◌, Option, none, some, List, [], ◌∷◌,
  ◌++◌, filter, get_elem?, Text, lit, text_or, text_eq, if◌then◌else◌,
}
use multi_rpc.Json.{Json}
use multi_rpc.Browser.{Outcome, lost, refused, answered, without_at}
use multi_rpc.Endpoints.{CustomEndpoint, NewEndpoint, is_given}

-- what is typed into the dialog
pub record Form : Type 0 where
  pub url : Text
  pub name : Text
  pub region : Text

-- the requests on their way that change the endpoints, with the endpoints that their handlers know
pub record Adding : Type 0 where
  pub endpoints : List CustomEndpoint
  pub body : NewEndpoint

pub record Removing : Type 0 where
  pub endpoints : List CustomEndpoint
  pub id : Text

-- the state of the component, and its requests on their way
pub record Page : Type 0 where
  pub rpc_health : Option Json
  pub custom_endpoints : List CustomEndpoint
  pub is_loading_health : Bool
  pub show_add_modal : Bool
  pub new_endpoint : Form
  pub is_adding : Bool
  pub endpoint_error : Text
  pub health_calls : ℕ
  pub listing_calls : ℕ
  pub adding : List Adding
  pub removing : List Removing

pub data Event : Type 0 where
  -- the effect, on mounting and when the token's function is a new one
  effect_ran : Event
  opened closed : Event
  typed : Form → Event
  refreshed : Event
  clicked_add : Event
  clicked_remove : (id : Text) → Event
  health_answered : Outcome Json → Event
  listing_answered : Outcome (Option (List CustomEndpoint)) → Event
  add_answered : (i : ℕ) → Outcome CustomEndpoint → Event
  remove_answered : (i : ℕ) → Outcome (Unit {0}) → Event

abbrev pub empty_form : Form
empty_form = record { url = []; name = []; region = [] }

-- `JSON.stringify(newEndpoint)`, as the route reads it
unfoldable pub body_of : Form → NewEndpoint
body_of form = record { url = some form.url; name = some form.name; region = some form.region }

-- `!newEndpoint.url || !newEndpoint.name`
unfoldable pub is_incomplete : Form → Bool
is_incomplete form = not (is_given (some form.url)) || not (is_given (some form.name))

-- `fetchRpcHealth`
unfoldable pub fetch_rpc_health : Page → Page
fetch_rpc_health p = record p { health_calls = p.health_calls + 1 }

-- `fetchCustomEndpoints`
unfoldable pub fetch_custom_endpoints : Page → Page
fetch_custom_endpoints p = record p { listing_calls = p.listing_calls + 1 }

-- `addCustomEndpoint` up to its first wait
unfoldable pub add_custom_endpoint : Page → Page
add_custom_endpoint p =
    if is_incomplete p.new_endpoint
    then record p { endpoint_error = lit "URL and name are required" }
    else record p {
      is_adding = true;
      endpoint_error = [];
      adding =
          p.adding ++ record { endpoints = p.custom_endpoints; body = body_of p.new_endpoint } ∷ [];
    }

-- its rest, with its `finally`
unfoldable pub finish_adding : Adding → Outcome CustomEndpoint → Page → Page
finish_adding a lost p = record p {
  endpoint_error = lit "Failed to add endpoint. Please try again.";
  is_adding = false;
}
finish_adding a (refused error) p = record p {
  endpoint_error = text_or error (lit "Failed to add endpoint");
  is_adding = false;
}
finish_adding a (answered ep) p = fetch_rpc_health (record p {
  custom_endpoints = a.endpoints ++ ep ∷ [];
  show_add_modal = false;
  new_endpoint = empty_form;
  is_adding = false;
})

-- `removeCustomEndpoint`
unfoldable pub remove_custom_endpoint : Text → Page → Page
remove_custom_endpoint id p = record p {
  removing = p.removing ++ record { endpoints = p.custom_endpoints; id = id } ∷ [];
}

unfoldable pub finish_removing : Removing → Outcome (Unit {0}) → Page → Page
finish_removing r lost p = p
finish_removing r (refused error) p = p
finish_removing r (answered _) p =
    fetch_rpc_health
      (record p { custom_endpoints = filter (λ ep. not (text_eq ep.id r.id)) r.endpoints })

-- the rest of `fetchRpcHealth`
unfoldable pub finish_health : Outcome Json → Page → Page
finish_health (answered value) p = record p { rpc_health = some value; is_loading_health = false }
finish_health _ p = record p { is_loading_health = false }

abbrev pub or_nil : Option (List CustomEndpoint) → List CustomEndpoint
or_nil none = []
or_nil (some eps) = eps

-- the rest of `fetchCustomEndpoints`
unfoldable pub finish_listing : Outcome (Option (List CustomEndpoint)) → Page → Page
finish_listing (answered eps) p = record p { custom_endpoints = or_nil eps }
finish_listing _ p = p

abbrev pub add_ends : ℕ → Outcome CustomEndpoint → Page → Option Adding → Page
add_ends i o p none = p
add_ends i o p (some a) = finish_adding a o (record p { adding = without_at i p.adding })

abbrev pub remove_ends : ℕ → Outcome (Unit {0}) → Page → Option Removing → Page
remove_ends i o p none = p
remove_ends i o p (some r) = finish_removing r o (record p { removing = without_at i p.removing })

-- the button that adds is disabled while the form is incomplete or an endpoint is being added
unfoldable pub click_add : Page → Page
click_add p = if is_incomplete p.new_endpoint || p.is_adding then p else add_custom_endpoint p

-- An answer to a request that is not on its way leaves the state.
unfoldable pub step : Event → Page → Page
step effect_ran p = fetch_custom_endpoints (fetch_rpc_health p)
step opened p = record p { show_add_modal = true }
step closed p = record p { show_add_modal = false }
step (typed form) p = record p { new_endpoint = form }
step refreshed p = fetch_rpc_health p
step clicked_add p = click_add p
step (clicked_remove id) p = remove_custom_endpoint id p
step (health_answered o) p =
    if p.health_calls == 0
    then p
    else finish_health o (record p { health_calls = p.health_calls - 1 })
step (listing_answered o) p =
    if p.listing_calls == 0
    then p
    else finish_listing o (record p { listing_calls = p.listing_calls - 1 })
step (add_answered i o) p = add_ends i o p (get_elem? p.adding i)
step (remove_answered i o) p = remove_ends i o p (get_elem? p.removing i)

unfoldable pub run : List Event → Page → Page
run [] p = p
run (e ∷ es) p = run es (step e p)

-- the page before its first effects
unfoldable pub mounted : Page
mounted = record {
  rpc_health = none;
  custom_endpoints = [];
  is_loading_health = true;
  show_add_modal = false;
  new_endpoint = empty_form;
  is_adding = false;
  endpoint_error = [];
  health_calls = 0;
  listing_calls = 0;
  adding = [];
  removing = [];
}
