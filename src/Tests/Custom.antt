-- ===== src/Tests/Custom.antt =====
-- Two users and their custom endpoints.
use multi_rpc.Prelude.{
  ℕ, ◌≡◌, ◌≢◌, refl, true, Bool, Option, none, some, List, [], ◌∷◌, ◌++◌, Text, lit, text_eq,
  starts_with, remove_first, Result, ok, arith, sym, ◌∙◌,
}
use multi_rpc.Endpoints.{
  CustomEndpoint, Store, NewEndpoint, Probe, listing, added, get_endpoints, post_endpoint,
  delete_endpoint, caller, known, endpoints_of, new_endpoint, test_endpoint,
}
use multi_rpc.Endpoints.Sharing.{get_endpoints-post_endpoint, endpoints_of-others}
use multi_rpc.Tests.Guard.{privy}

abbrev alice : Option Text
alice = some (lit "Bearer good")

abbrev endpoint : Text → CustomEndpoint
endpoint id = record {
  id = id;
  url = lit "https://rpc.test";
  name = lit "mine";
  region = lit "Custom";
  healthy = true;
  latency = 7;
  added_at = 50;
}

abbrev store : Store
store = (lit "alice", endpoint (lit "e1") ∷ []) ∷ (lit "bob", endpoint (lit "e1") ∷ []) ∷ []

abbrev body : Result NewEndpoint
body = ok (record { url = some (lit "https://rpc.test"); name = some (lit "mine"); region = none })

abbrev probe : Probe
probe = record { start = 40; answer = some (true, 47) }

accepted :
    (post_endpoint privy alice (lit "e2") 50 probe (λ _. true) body store).0
    ≡ added (endpoint (lit "e2"))
unfolding post_endpoint caller remove_first starts_with text_eq new_endpoint test_endpoint
accepted = refl

get_endpoints-post_endpoint_example :
    (eps : List CustomEndpoint) × (get_endpoints privy alice store ≡ listing eps)
    × (get_endpoints privy alice
          (post_endpoint privy alice (lit "e2") 50 probe (λ _. true) body store).1
        ≡ listing (eps ++ endpoint (lit "e2") ∷ []))
get_endpoints-post_endpoint_example =
    get_endpoints-post_endpoint privy alice (lit "e2") 50 probe (λ _. true) body store
      (endpoint (lit "e2")) accepted

alice-known : (failure : Text) → caller privy failure alice ≡ known (lit "alice")
unfolding caller remove_first starts_with text_eq
alice-known failure = refl

known-injective : (s t : Text) → known s ≡ known t → s ≡ t
known-injective s t h = ground arith

alice-not_bob : (failure : Text) → caller privy failure alice ≢ known (lit "bob")
alice-not_bob failure h =
    let same = known-injective (lit "alice") (lit "bob") (sym (alice-known failure) ∙ h) in
    ground arith

endpoints_of-others_example :
    ((id : Option Text)
      → endpoints_of (lit "bob") (delete_endpoint privy alice id store).1
        ≡ endpoints_of (lit "bob") store)
    × ((id : Text) (time : ℕ) (probe : Probe) (is_url : Text → Bool) (body : Result NewEndpoint)
        → endpoints_of (lit "bob") (post_endpoint privy alice id time probe is_url body store).1
          ≡ endpoints_of (lit "bob") store)
endpoints_of-others_example = endpoints_of-others privy alice (lit "bob") store alice-not_bob
