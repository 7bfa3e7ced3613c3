-- ===== src/Tests/Pages.antt =====
-- The pages of the dashboard at work.
use multi_rpc.Prelude.{
  ◌≡◌, ◌≢◌, refl, true, false, ◌⊎◌, Option, none, some, List, [], ◌∷◌, ◌++◌, all, map, Text, lit,
  text_eq, get, pos, ok, err,
}
use multi_rpc.Middleware.{Privy}
use multi_rpc.Browser.{answered}
use multi_rpc.Platform.{KeyRow}
use multi_rpc.Endpoints.{CustomEndpoint, Store, caller, known, endpoints_of}
use multi_rpc.EndpointsPage
use multi_rpc.EndpointsPage.{is_incomplete}
use multi_rpc.EndpointsPage.Stale.{others, crossing, run-crossing}
use multi_rpc.EndpointsPage.Synced.{
  Draws, adds, removes, lists, sees, refreshes, exchanges, IsSynced, exchanges-IsSynced,
}
use multi_rpc.KeysPage.{View, all_keys, drawn_codes}
use multi_rpc.KeysPage.Drawing.{shown_key, is_hidden, drawn_codes-listed}
use multi_rpc.KeysPage.Requests
use multi_rpc.KeysPage.Requests.Refreshing.{IsBusy, run-IsBusy}
use multi_rpc.SettingsPage
use multi_rpc.SettingsPage.Whitelist.{IsDistinct, whitelist, run-IsDistinct}

abbrev privy : Privy
privy token = ok (some (lit "ada"))

abbrev ada : Option Text
ada = some (lit "Bearer x")

ada-known : (failure : Text) → caller privy failure ada ≡ known (lit "ada")
unfolding caller
ada-known failure = refl

-- the endpoints
abbrev endpoint : Text → CustomEndpoint
endpoint id = record {
  id = id;
  url = lit "https://rpc.test";
  name = lit "mine";
  region = lit "Custom";
  healthy = true;
  latency = 7;
  added_at = 50;
}

abbrev endpoints_page : EndpointsPage.Page
endpoints_page = record {
  rpc_health = none;
  custom_endpoints = endpoint (lit "e1") ∷ [];
  is_loading_health = false;
  show_add_modal = true;
  new_endpoint = record { url = lit "https://rpc.two"; name = lit "two"; region = [] };
  is_adding = false;
  endpoint_error = [];
  health_calls = 0;
  listing_calls = 0;
  adding = [];
  removing = [];
}

abbrev store : Store
store = (lit "ada", endpoint (lit "e1") ∷ []) ∷ []

abbrev draws : Draws
draws = record {
  id = lit "e2";
  time = 60;
  probe = record { start = 50; answer = some (true, 57) };
  is_url = λ s. true;
}

page-IsSynced : IsSynced privy ada (lit "ada") (endpoints_page, store)
unfolding endpoints_of get text_eq
page-IsSynced = record { no_add = refl; no_remove = refl; shown = refl }

exchanges-IsSynced_example : IsSynced privy ada (lit "ada") (
    exchanges privy ada
      (adds draws ∷ sees refreshes ∷ lists ∷ removes (lit "e1") ∷ [])
      (endpoints_page, store))
exchanges-IsSynced_example =
    exchanges-IsSynced privy ada (lit "ada") ada-known
      (adds draws ∷ sees refreshes ∷ lists ∷ removes (lit "e1") ∷ []) endpoints_page store
      page-IsSynced

form_complete : is_incomplete endpoints_page.new_endpoint ≡ false
unfolding is_incomplete
form_complete = refl

e1_shown : text_eq (lit "e1") (lit "e1") ≡ true
unfolding text_eq
e1_shown = refl

run-crossing_example :
    let done = others (lit "e1") (endpoint (lit "e1") ∷ []) ++ endpoint (lit "e2") ∷ [] in
    (crossing endpoints_page (lit "e1") (
        EndpointsPage.add_answered 0 (answered (endpoint (lit "e2")))
        ∷ EndpointsPage.remove_answered 0 (answered tt)
        ∷ [])
      ≡ others (lit "e1") (endpoint (lit "e1") ∷ []))
    × (crossing endpoints_page (lit "e1") (
          EndpointsPage.remove_answered 0 (answered tt)
          ∷ EndpointsPage.add_answered 0 (answered (endpoint (lit "e2")))
          ∷ [])
        ≡ endpoint (lit "e1") ∷ endpoint (lit "e2") ∷ [])
    × (others (lit "e1") (endpoint (lit "e1") ∷ []) ≢ done)
    × (endpoint (lit "e1") ∷ endpoint (lit "e2") ∷ [] ≢ done)
run-crossing_example =
    run-crossing endpoints_page (lit "e1") (endpoint (lit "e2")) refl refl refl form_complete
      (rw e1_shown refl)

-- the keys
abbrev key_row : KeyRow
key_row = record {
  id = lit "k1";
  user_id = lit "u1";
  name = lit "main";
  key = lit "hash";
  active = true;
  rate_limit = pos 10;
  monthly_limit = none;
  created_at = 1;
  last_used_at = none;
  expires_at = none;
}

abbrev first_view : View
first_view = record { query = []; status = all_keys; environment = none; show_secrets = [] }

abbrev same : Text → Text
same s = s

drawn_codes-listed_example :
    ((all (is_hidden same first_view) (key_row ∷ []) ≡ true)
      × (drawn_codes same first_view (map shown_key (key_row ∷ [])) ≡ ok []))
    ⊎ ((all (is_hidden same first_view) (key_row ∷ []) ≡ false)
        × ((e : Text) × (drawn_codes same first_view (map shown_key (key_row ∷ [])) ≡ err e)))
drawn_codes-listed_example = drawn_codes-listed same first_view (key_row ∷ []) refl

abbrev creating : List Requests.Event
creating =
    Requests.typed (record Requests.empty_form { name = lit "main" })
    ∷ Requests.clicked_create
    ∷ Requests.create_answered 0 (answered tt)
    ∷ Requests.fetch_answered 0 (answered [])
    ∷ []

run-IsBusy_example : IsBusy (Requests.run creating Requests.mounted)
run-IsBusy_example = run-IsBusy creating

-- the settings
abbrev adding : List SettingsPage.Event
adding =
    SettingsPage.typed_ip (lit "10.0.0.1")
    ∷ SettingsPage.clicked_add_ip
    ∷ SettingsPage.typed_ip (lit "10.0.0.1")
    ∷ SettingsPage.clicked_add_ip
    ∷ []

run-IsDistinct_example :
    IsDistinct (whitelist (SettingsPage.run adding (SettingsPage.mounted (lit "s"))))
run-IsDistinct_example = run-IsDistinct adding (lit "s") (tt, (tt, (tt, (tt, tt))))
