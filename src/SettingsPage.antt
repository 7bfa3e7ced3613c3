-- ===== src/SettingsPage.antt =====
-- web-ui/src/app/dashboard/settings/enhanced-settings.tsx: the page of the settings. The theme of the
-- browser, which follows the preferences, is left out; a new secret is drawn by the environment.
pub mod Whitelist
use multi_rpc.Prelude.{
  ℕ, ◌+◌, ◌-◌, ◌==◌, Bool, true, false, not, ◌&&◌, Option, none, some, List, [], ◌∷◌, ◌++◌, any,
  filter, get_elem?, Text, lit, text_eq, if◌then◌else◌,
}
use multi_rpc.Browser.{Outcome, lost, refused, answered, without_at}
use multi_rpc.Endpoints.{is_given}
use multi_rpc.Settings.{Notifications, Security, Preferences, Webhooks, UserSettings}

pub record Page : Type 0 where
  pub loading : Bool
  pub saving : Bool
  pub settings : UserSettings
  pub new_ip_address : Text
  pub show_webhook_secret : Bool
  pub webhook_secret : Text
  -- the requests on their way
  pub fetches : ℕ
  pub saves : List UserSettings

pub data Event : Type 0 where
  -- a user is there, or the token's function is a new one
  user_changed : Event
  fetch_answered : Outcome (Option UserSettings) → Event
  clicked_save : Event
  save_answered : (i : ℕ) → Outcome (Unit {0}) → Event
  typed_ip : Text → Event
  clicked_add_ip : Event
  clicked_remove_ip : (ip : Text) → Event
  set_notifications : Notifications → Event
  set_two_factor : Bool → Event
  set_expiry : Text → Event
  set_preferences : Preferences → Event
  set_webhooks : (enabled : Bool) (url : Text) → Event
  switched_event : (id : Text) (checked : Bool) → Event
  toggled_secret : Event
  regenerated : (secret : Text) → Event

-- the settings that the page begins with
unfoldable pub first_settings : UserSettings
first_settings = record {
  notifications = record {
    email = true;
    api_errors = true;
    usage_alerts = true;
    weekly_reports = false;
    product_updates = true;
  };
  security = record { two_factor_enabled = false; api_key_expiry = lit "90"; ip_whitelist = [] };
  preferences = record {
    theme = lit "system";
    language = lit "en";
    timezone = lit "UTC";
    date_format = lit "MM/DD/YYYY";
  };
  webhooks = record { enabled = false; url = []; events = [] };
}

-- `fetchSettings` up to its first wait, and its rest
unfoldable pub fetch_settings : Page → Page
fetch_settings p = record p { loading = true; fetches = p.fetches + 1 }

unfoldable pub finish_fetching : Outcome (Option UserSettings) → Page → Page
finish_fetching (answered (some s)) p = record p { settings = s; loading = false }
finish_fetching _ p = record p { loading = false }

-- `saveSettings`
unfoldable pub save_settings : Page → Page
save_settings p = record p { saving = true; saves = p.saves ++ p.settings ∷ [] }

abbrev pub save_ends : ℕ → Page → Option UserSettings → Page
save_ends i p none = p
save_ends i p (some s) = record p { saving = false; saves = without_at i p.saves }

abbrev pub with_whitelist : List Text → UserSettings → UserSettings
with_whitelist ips s = record s { security = record s.security { ip_whitelist = ips } }

abbrev pub is_among : Text → List Text → Bool
is_among ip ips = any (λ other. text_eq other ip) ips

-- `addIpAddress`
unfoldable pub add_ip_address : Page → Page
add_ip_address p =
    if is_given (some p.new_ip_address)
      && not (is_among p.new_ip_address p.settings.security.ip_whitelist)
    then record p {
      settings =
          with_whitelist (p.settings.security.ip_whitelist ++ p.new_ip_address ∷ []) p.settings;
      new_ip_address = [];
    }
    else p

-- `removeIpAddress`
unfoldable pub remove_ip_address : Text → Page → Page
remove_ip_address ip p = record p {
  settings =
      with_whitelist (filter (λ other. not (text_eq other ip)) p.settings.security.ip_whitelist)
        p.settings;
}

-- a check box of the events
unfoldable pub switch_event : Text → Bool → Webhooks → Webhooks
switch_event id true w = record w { events = w.events ++ id ∷ [] }
switch_event id false w = record w { events = filter (λ e. not (text_eq e id)) w.events }

-- An answer to a request that is not on its way leaves the state; the button that saves is disabled
-- while the page is saving.
unfoldable pub step : Event → Page → Page
step user_changed p = fetch_settings p
step (fetch_answered o) p =
    if p.fetches == 0 then p else finish_fetching o (record p { fetches = p.fetches - 1 })
step clicked_save p = if p.saving then p else save_settings p
step (save_answered i o) p = save_ends i p (get_elem? p.saves i)
step (typed_ip ip) p = record p { new_ip_address = ip }
step clicked_add_ip p = add_ip_address p
step (clicked_remove_ip ip) p = remove_ip_address ip p
step (set_notifications n) p = record p { settings = record p.settings { notifications = n } }
step (set_two_factor b) p = record p {
  settings = record p.settings { security = record p.settings.security { two_factor_enabled = b } };
}
step (set_expiry t) p = record p {
  settings = record p.settings { security = record p.settings.security { api_key_expiry = t } };
}
step (set_preferences q) p = record p { settings = record p.settings { preferences = q } }
step (set_webhooks enabled url) p = record p {
  settings = record p.settings {
    webhooks = record p.settings.webhooks { enabled = enabled; url = url };
  };
}
step (switched_event id checked) p = record p {
  settings = record p.settings { webhooks = switch_event id checked p.settings.webhooks };
}
step toggled_secret p = record p { show_webhook_secret = not p.show_webhook_secret }
step (regenerated secret) p = record p { webhook_secret = lit "whsec_" ++ secret }

unfoldable pub run : List Event → Page → Page
run [] p = p
run (e ∷ es) p = run es (step e p)

-- the page before its first effects
unfoldable pub mounted : (secret : Text) → Page
mounted secret = record {
  loading = true;
  saving = false;
  settings = first_settings;
  new_ip_address = [];
  show_webhook_secret = false;
  webhook_secret = lit "whsec_" ++ secret;
  fetches = 0;
  saves = [];
}
