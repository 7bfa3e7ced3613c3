-- ===== src/ProfilePage.antt =====
-- web-ui/src/app/dashboard/profile/page.tsx: the page of the profile. Of what is drawn only the figures
-- are kept. A user is known by the fields of the form and what the figures read, and `logout` is a
-- flag.
pub mod Closing
pub mod Forgetting
use multi_rpc.Prelude.{
  ℕ, ◌+◌, ◌-◌, ◌==◌, Bool, true, false, Option, none, some, List, [], ◌∷◌, ◌++◌, get_elem?, Text,
  lit, text_or, text_eq, if◌then◌else◌,
}
use multi_rpc.Browser.{Outcome, lost, refused, answered, without_at}
use multi_rpc.Dashboard.{Totals}
use multi_rpc.Profile.{Stats, ProfileChange}

-- the user of an answer; the stats and the usage may be missing
pub record ShownUser : Type 0 where
  pub name : Option Text
  pub email : Option Text
  pub image : Option Text
  pub stats : Option Stats
  pub monthly : Option Totals
  pub today : Option Totals

pub record Form : Type 0 where
  pub name : Text
  pub email : Text
  pub image : Text

pub record Page : Type 0 where
  pub user : Option ShownUser
  pub loading : Bool
  pub saving : Bool
  pub editing : Bool
  pub show_delete_modal : Bool
  pub delete_confirmation : Text
  pub form : Form
  pub logged_out : Bool
  -- the requests on their way, and how many deletions were ever asked for
  pub fetches : ℕ
  pub saves : List Form
  pub deletions : ℕ
  pub asked : ℕ

pub data Event : Type 0 where
  -- a user is there, or the token's function is a new one
  user_changed : Event
  fetch_answered : Outcome ShownUser → Event
  clicked_edit clicked_cancel : Event
  typed : Form → Event
  clicked_save : Event
  save_answered : (i : ℕ) → Outcome ShownUser → Event
  set_delete_modal : Bool → Event
  cancelled_delete : Event
  typed_confirmation : Text → Event
  clicked_delete : Event
  delete_answered : Outcome (Unit {0}) → Event

unfoldable pub form_of : ShownUser → Form
form_of u = record {
  name = text_or u.name [];
  email = text_or u.email [];
  image = text_or u.image [];
}

-- `JSON.stringify(formData)`, as the route reads it
unfoldable pub change_of : Form → ProfileChange
change_of f = record {
  name = some (some f.name);
  email = some (some f.email);
  image = some (some f.image);
}

-- `fetchUserProfile`
unfoldable pub fetch_user_profile : Page → Page
fetch_user_profile p = record p { loading = true; fetches = p.fetches + 1 }

unfoldable pub finish_fetching : Outcome ShownUser → Page → Page
finish_fetching (answered u) p = record p { user = some u; form = form_of u; loading = false }
finish_fetching _ p = record p { loading = false }

abbrev pub form_or : Form → Option ShownUser → Form
form_or f none = f
form_or f (some u) = form_of u

-- the button that cancels, which is drawn only with a user
unfoldable pub cancel : Page → Page
cancel p = record p { editing = false; form = form_or p.form p.user }

-- `handleSave`
unfoldable pub handle_save : Page → Page
handle_save p = record p { saving = true; saves = p.saves ++ p.form ∷ [] }

unfoldable pub finish_saving : Outcome ShownUser → Page → Page
finish_saving (answered u) p = record p { user = some u; editing = false; saving = false }
finish_saving _ p = record p { saving = false }

abbrev pub save_ends : ℕ → Outcome ShownUser → Page → Option Form → Page
save_ends i o p none = p
save_ends i o p (some f) = finish_saving o (record p { saves = without_at i p.saves })

-- `handleDeleteAccount`
unfoldable pub handle_delete_account : Page → Page
handle_delete_account p =
    if text_eq p.delete_confirmation (lit "DELETE")
    then record p { deletions = p.deletions + 1; asked = p.asked + 1 }
    else p

unfoldable pub finish_deleting : Outcome (Unit {0}) → Page → Page
finish_deleting (answered _) p = record p { logged_out = true }
finish_deleting _ p = p

-- An answer to a request that is not on its way leaves the state.
unfoldable pub step : Event → Page → Page
step user_changed p = fetch_user_profile p
step (fetch_answered o) p =
    if p.fetches == 0 then p else finish_fetching o (record p { fetches = p.fetches - 1 })
step clicked_edit p = record p { editing = true }
step clicked_cancel p = cancel p
step (typed f) p = record p { form = f }
step clicked_save p = if p.saving then p else handle_save p
step (save_answered i o) p = save_ends i o p (get_elem? p.saves i)
step (set_delete_modal b) p = record p { show_delete_modal = b }
step cancelled_delete p = record p { show_delete_modal = false; delete_confirmation = [] }
step (typed_confirmation t) p = record p { delete_confirmation = t }
step clicked_delete p = handle_delete_account p
step (delete_answered o) p =
    if p.deletions == 0 then p else finish_deleting o (record p { deletions = p.deletions - 1 })

unfoldable pub run : List Event → Page → Page
run [] p = p
run (e ∷ es) p = run es (step e p)

-- the page before its first effects
unfoldable pub mounted : Page
mounted = record {
  user = none;
  loading = true;
  saving = false;
  editing = false;
  show_delete_modal = false;
  delete_confirmation = [];
  form = record { name = []; email = []; image = [] };
  logged_out = false;
  fetches = 0;
  saves = [];
  deletions = 0;
  asked = 0;
}

abbrev keys_of : Option Stats → ℕ
keys_of none = 0
keys_of (some s) = s.total_api_keys

abbrev invoices_of : Option Stats → ℕ
invoices_of none = 0
invoices_of (some s) = s.total_invoices

abbrev requests_of : Option Totals → ℕ
requests_of none = 0
requests_of (some t) = t.requests

-- the four figures under the profile: keys, requests of the month and of the day, invoices
pub record Figures : Type 0 where
  pub keys : ℕ
  pub this_month : ℕ
  pub this_day : ℕ
  pub invoices : ℕ

unfoldable pub figures_of : ShownUser → Figures
figures_of u = record {
  keys = keys_of u.stats;
  this_month = requests_of u.monthly;
  this_day = requests_of u.today;
  invoices = invoices_of u.stats;
}
