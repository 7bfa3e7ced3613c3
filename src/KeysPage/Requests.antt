-- ===== src/KeysPage/Requests.antt =====
-- web-ui/src/app/dashboard/keys/enhanced-keys.tsx: the requests of the page of the keys. A handler that
-- fetches the keys again goes on when that fetch ends, however it ends.
pub mod Refreshing
use multi_rpc.Prelude.{
  ℕ, ℤ, pos, Bool, true, false, not, ◌||◌, Option, none, some, List, [], ◌∷◌, ◌++◌, filter, map,
  get_elem?, Text, lit, text_eq, if◌then◌else◌,
}
use multi_rpc.Browser.{Outcome, lost, refused, answered, without_at}
use multi_rpc.KeyRoute.{trim}
use multi_rpc.Endpoints.{is_given}
use multi_rpc.KeysPage.{ApiKey, enhance}

pub record KeyForm : Type 0 where
  pub name : Text
  pub description : Text
  pub environment : Text
  -- nothing where `parseInt` finds no number
  pub rate_limit : Option ℤ
  pub monthly_limit : Text
  pub permissions : List Text
  pub expires_in : Text
  pub custom_expiry : Text

-- what goes on after the keys were fetched
pub data After : Type 0 where
  nothing ends_creating ends_deleting : After

pub record Page : Type 0 where
  pub api_keys : List ApiKey
  pub is_loading : Bool
  pub show_create_modal : Bool
  pub show_delete_modal : Bool
  pub key_to_delete : Option Text
  pub is_creating : Bool
  pub is_deleting : Bool
  pub key_form : KeyForm
  -- the requests on their way
  pub fetching : List After
  pub creating : List KeyForm
  pub deleting : List Text
  pub toggling : List (Text × Bool)

pub data Event : Type 0 where
  -- the effect, on mounting and when the token's function is a new one
  effect_ran : Event
  set_create_modal set_delete_modal : Bool → Event
  typed : KeyForm → Event
  switched : (permission : Text) (checked : Bool) → Event
  clicked_create : Event
  chose_delete : (id : Text) → Event
  clicked_delete : Event
  clicked_toggle : (id : Text) (active : Bool) → Event
  fetch_answered : (i : ℕ) → Outcome (List ApiKey) → Event
  create_answered delete_answered toggle_answered : (i : ℕ) → Outcome (Unit {0}) → Event

-- `resetKeyForm`
unfoldable pub empty_form : KeyForm
empty_form = record {
  name = [];
  description = [];
  environment = lit "development";
  rate_limit = some (pos 100);
  monthly_limit = [];
  permissions = [];
  expires_in = lit "never";
  custom_expiry = [];
}

-- a permission's switch
unfoldable pub switch_permission : Text → Bool → KeyForm → KeyForm
switch_permission permission true f = record f { permissions = f.permissions ++ permission ∷ [] }
switch_permission permission false f = record f {
  permissions = filter (λ q. not (text_eq q permission)) f.permissions;
}

unfoldable pub fetch_api_keys : After → Page → Page
fetch_api_keys after p = record p { fetching = p.fetching ++ after ∷ [] }

unfoldable pub go_on : After → Page → Page
go_on nothing p = p
go_on ends_creating p = record p {
  show_create_modal = false;
  key_form = empty_form;
  is_creating = false;
}
go_on ends_deleting p = record p {
  show_delete_modal = false;
  key_to_delete = none;
  is_deleting = false;
}

-- the rest of `fetchApiKeys`
unfoldable pub finish_fetching : Outcome (List ApiKey) → Page → Page
finish_fetching (answered ks) p = record p { api_keys = map enhance ks; is_loading = false }
finish_fetching _ p = record p { is_loading = false }

-- `createApiKey`
unfoldable pub create_api_key : Page → Page
create_api_key p =
    if not (is_given (some (trim p.key_form.name)))
    then p
    else record p { is_creating = true; creating = p.creating ++ p.key_form ∷ [] }

unfoldable pub finish_creating : Outcome (Unit {0}) → Page → Page
finish_creating (answered _) p = fetch_api_keys ends_creating p
finish_creating _ p = record p { is_creating = false }

-- `deleteApiKey(keyId)`
unfoldable pub delete_api_key : Text → Page → Page
delete_api_key id p = record p { is_deleting = true; deleting = p.deleting ++ id ∷ [] }

unfoldable pub finish_deleting : Outcome (Unit {0}) → Page → Page
finish_deleting (answered _) p = fetch_api_keys ends_deleting p
finish_deleting _ p = record p { is_deleting = false }

-- `toggleKeyStatus(keyId, active)`
unfoldable pub toggle_key_status : Text → Bool → Page → Page
toggle_key_status id active p = record p { toggling = p.toggling ++ (id, active) ∷ [] }

unfoldable pub finish_toggling : Outcome (Unit {0}) → Page → Page
finish_toggling (answered _) p = fetch_api_keys nothing p
finish_toggling _ p = p

-- the buttons of the two dialogs
unfoldable pub click_create : Page → Page
click_create p =
    if p.is_creating || not (is_given (some p.key_form.name)) then p else create_api_key p

abbrev pub delete_chosen : Option Text → Page → Page
delete_chosen none p = p
delete_chosen (some []) p = p
delete_chosen (some (c ∷ s)) p = delete_api_key (c ∷ s) p

unfoldable pub click_delete : Page → Page
click_delete p = if p.is_deleting then p else delete_chosen p.key_to_delete p

abbrev pub fetch_ends : ℕ → Outcome (List ApiKey) → Page → Option After → Page
fetch_ends i o p none = p
fetch_ends i o p (some after) =
    go_on after (finish_fetching o (record p { fetching = without_at i p.fetching }))

abbrev pub create_ends : ℕ → Outcome (Unit {0}) → Page → Option KeyForm → Page
create_ends i o p none = p
create_ends i o p (some f) = finish_creating o (record p { creating = without_at i p.creating })

abbrev pub delete_ends : ℕ → Outcome (Unit {0}) → Page → Option Text → Page
delete_ends i o p none = p
delete_ends i o p (some id) = finish_deleting o (record p { deleting = without_at i p.deleting })

abbrev pub toggle_ends : ℕ → Outcome (Unit {0}) → Page → Option (Text × Bool) → Page
toggle_ends i o p none = p
toggle_ends i o p (some t) = finish_toggling o (record p { toggling = without_at i p.toggling })

-- An answer to a request that is not on its way leaves the state.
unfoldable pub step : Event → Page → Page
step effect_ran p = fetch_api_keys nothing p
step (set_create_modal b) p = record p { show_create_modal = b }
step (set_delete_modal b) p = record p { show_delete_modal = b }
step (typed f) p = record p { key_form = f }
step (switched permission checked) p = record p {
  key_form = switch_permission permission checked p.key_form;
}
step clicked_create p = click_create p
step (chose_delete id) p = record p { key_to_delete = some id; show_delete_modal = true }
step clicked_delete p = click_delete p
step (clicked_toggle id active) p = toggle_key_status id active p
step (fetch_answered i o) p = fetch_ends i o p (get_elem? p.fetching i)
step (create_answered i o) p = create_ends i o p (get_elem? p.creating i)
step (delete_answered i o) p = delete_ends i o p (get_elem? p.deleting i)
step (toggle_answered i o) p = toggle_ends i o p (get_elem? p.toggling i)

unfoldable pub run : List Event → Page → Page
run [] p = p
run (e ∷ es) p = run es (step e p)

-- the page before its first effects
unfoldable pub mounted : Page
mounted = record {
  api_keys = [];
  is_loading = true;
  show_create_modal = false;
  show_delete_modal = false;
  key_to_delete = none;
  is_creating = false;
  is_deleting = false;
  key_form = empty_form;
  fetching = [];
  creating = [];
  deleting = [];
  toggling = [];
}
