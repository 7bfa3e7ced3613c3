-- ===== src/Endpoints.antt =====
-- web-ui/src/app/api/rpc/endpoints/route.ts: the custom endpoints of each user, kept in a map of the
-- process. What Privy, the parser of URLs and the network answer to a request is part of its record.
pub mod Sharing
pub mod Outcomes
use multi_rpc.Prelude.{
  ℕ, ◌-◌, Bool, true, false, not, ◌||◌, Option, none, some, List, [], ◌∷◌, ◌++◌, filter, Text, lit,
  text_or, text_eq, remove_first, Dict, get, set, Result, ok, err, if◌then◌else◌,
}
use multi_rpc.Middleware.{Privy}

pub record CustomEndpoint : Type 0 where
  pub id : Text
  pub url : Text
  pub name : Text
  pub region : Text
  pub healthy : Bool
  pub latency : ℕ
  pub added_at : ℕ

abbrev pub Store : Type 0
Store = Dict (List CustomEndpoint)

-- the properties that the handler reads of the body; a missing one is `none`
pub record NewEndpoint : Type 0 where
  pub url : Option Text
  pub name : Option Text
  pub region : Option Text

pub data Reply : Type 0 where
  error : (status : ℕ) (message : Text) → Reply
  listing : List CustomEndpoint → Reply
  added : CustomEndpoint → Reply
  success : Reply

-- The probe of `testEndpoint`: the clock before it, and the answer's `ok` with the clock then, or
-- nothing if the fetch threw.
pub record Probe : Type 0 where
  pub start : ℕ
  pub answer : Option (Bool × ℕ)

-- `testEndpoint(url)`
unfoldable pub test_endpoint : Probe → Bool × ℕ
test_endpoint probe = elim probe.answer [
  | none ↦ (false, 0)
  | some (is_ok, done) ↦ (is_ok, done - probe.start)
]

-- `customEndpoints.get(userId) || []`
abbrev pub list_or_nil : Option (List CustomEndpoint) → List CustomEndpoint
list_or_nil none = []
list_or_nil (some endpoints) = endpoints

unfoldable pub endpoints_of : Text → Store → List CustomEndpoint
endpoints_of user store = list_or_nil (get user store)

abbrev pub is_given : Option Text → Bool
is_given none = false
is_given (some []) = false
is_given (some (c ∷ s)) = true

-- The user of a request, or the answer to one that has none: what the three handlers begin with.
pub data Caller : Type 0 where
  known : (id : Text) → Caller
  refused : (status : ℕ) (message : Text) → Caller

abbrev claims : (failure : Text) → Result (Option Text) → Caller
claims failure (err e) = refused 500 failure
claims failure (ok none) = refused 401 (lit "Invalid token")
claims failure (ok (some id)) = known id

unfoldable pub caller : Privy → (failure : Text) → Option Text → Caller
caller privy failure none = refused 401 (lit "Unauthorized")
caller privy failure (some []) = refused 401 (lit "Unauthorized")
caller privy failure (some (c ∷ s)) = claims failure (privy (remove_first (c ∷ s) (lit "Bearer ")))

module _ (privy : Privy) (authorization : Option Text) where
  abbrev listed : Store → Caller → Reply
  listed store (refused status message) = error status message
  listed store (known id) = listing (endpoints_of id store)

  -- `GET`
  unfoldable pub get_endpoints : Store → Reply
  get_endpoints store = listed store (caller privy (lit "Failed to fetch endpoints") authorization)

  -- the endpoint that a request adds
  unfoldable pub new_endpoint : Text → Text → Option Text → Bool × ℕ → Text → ℕ → CustomEndpoint
  new_endpoint url name region (healthy, latency) id time = record {
    id = id;
    url = url;
    name = name;
    region = text_or region (lit "Custom");
    healthy = healthy;
    latency = latency;
    added_at = time;
  }

  unfoldable pub append_endpoint : Text → CustomEndpoint → Store → Store
  append_endpoint user endpoint store = set user (endpoints_of user store ++ endpoint ∷ []) store

  -- what the rest of `POST` draws and learns: a random id, the time, the probe, and whether a text
  -- parses as a URL
  module _ (id : Text) (time : ℕ) (probe : Probe) (is_url : Text → Bool) where
    abbrev add : Text → NewEndpoint → Store → Reply × Store
    add user body store =
        if not (is_given body.url) || not (is_given body.name)
        then (error 400 (lit "URL and name are required"), store)
        else if not (is_url (text_or body.url []))
        then (error 400 (lit "Invalid URL format"), store)
        else (
          added (
              new_endpoint (text_or body.url []) (text_or body.name []) body.region
                (test_endpoint probe) id time),
          append_endpoint user
              (new_endpoint (text_or body.url []) (text_or body.name []) body.region
                (test_endpoint probe) id time)
              store,
        )

    abbrev posted : Result NewEndpoint → Store → Caller → Reply × Store
    posted body store (refused status message) = (error status message, store)
    posted (err e) store (known u) = (error 500 (lit "Failed to add endpoint"), store)
    posted (ok body) store (known u) = add u body store

    -- `POST`
    unfoldable pub post_endpoint : Result NewEndpoint → Store → Reply × Store
    post_endpoint body store =
        posted body store (caller privy (lit "Failed to add endpoint") authorization)

  abbrev deleted : Option Text → Store → Caller → Reply × Store
  deleted id store (refused status message) = (error status message, store)
  deleted none store (known u) = (error 400 (lit "Endpoint ID is required"), store)
  deleted (some []) store (known u) = (error 400 (lit "Endpoint ID is required"), store)
  deleted (some (c ∷ s)) store (known u) =
      (success, set u (filter (λ ep. not (text_eq ep.id (c ∷ s))) (endpoints_of u store)) store)

  -- `DELETE`, with the `id` of the query
  unfoldable pub delete_endpoint : Option Text → Store → Reply × Store
  delete_endpoint id store =
      deleted id store (caller privy (lit "Failed to delete endpoint") authorization)
