-- ===== src/Settings.antt =====
-- web-ui/src/app/api/user/settings/route.ts: the settings of a user. The route has no state.
use multi_rpc.Prelude.{
  ℕ, Bool, true, false, Option, some, List, [], Text, lit, Result, ok, err, Act, return, throw,
  try_catch,
}
use multi_rpc.Middleware.{Privy}
use multi_rpc.Backend.{guarded}

pub record Notifications : Type 0 where
  pub email : Bool
  pub api_errors : Bool
  pub usage_alerts : Bool
  pub weekly_reports : Bool
  pub product_updates : Bool

pub record Security : Type 0 where
  pub two_factor_enabled : Bool
  pub api_key_expiry : Text
  pub ip_whitelist : List Text

pub record Preferences : Type 0 where
  pub theme : Text
  pub language : Text
  pub timezone : Text
  pub date_format : Text

pub record Webhooks : Type 0 where
  pub enabled : Bool
  pub url : Text
  pub events : List Text

pub record UserSettings : Type 0 where
  pub notifications : Notifications
  pub security : Security
  pub preferences : Preferences
  pub webhooks : Webhooks

pub data Reply : Type 0 where
  settings : UserSettings → Reply
  -- `success`, with the settings of the body
  saved : Option UserSettings → Reply
  refused : (status : ℕ) (error : Text) → Reply

-- the settings that `GET` answers
unfoldable pub route_settings : UserSettings
route_settings = record {
  notifications = record {
    email = true;
    api_errors = true;
    usage_alerts = true;
    weekly_reports = false;
    product_updates = true;
  };
  security = record { two_factor_enabled = false; api_key_expiry = lit "90"; ip_whitelist = [] };
  preferences = record {
    theme = lit "system";
    language = lit "en";
    timezone = lit "UTC";
    date_format = lit "MM/DD/YYYY";
  };
  webhooks = record { enabled = false; url = []; events = [] };
}

module _ {World : Type 0} (privy : Privy) where
  -- `GET`
  unfoldable pub get_settings : Option Text → Act World Reply
  get_settings authorization =
      try_catch (guarded refused (some privy) (return (settings route_settings)) authorization)
        (λ e. return (refused 500 (lit "Failed to fetch settings")))

  abbrev save : Result (Option UserSettings) → Act World Reply
  save (err e) = throw e
  save (ok sent) = return (saved sent)

  -- `PUT`, with the `settings` of the body
  unfoldable pub put_settings : Result (Option UserSettings) → Option Text → Act World Reply
  put_settings body authorization =
      try_catch (guarded refused (some privy) (save body) authorization)
        (λ e. return (refused 500 (lit "Failed to update settings")))
