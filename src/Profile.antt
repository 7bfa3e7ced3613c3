-- ===== src/Profile.antt =====
-- web-ui/src/app/api/user/profile/route.ts: reading, changing and closing an account. Privy's client and
-- the queries of the database are the parameter `Profiles`; what a query includes about a user, besides
-- the counts, is the abstract type `Included`.
pub mod Closing
use multi_rpc.Prelude.{
  ℕ, Bool, true, false, Option, none, some, List, [], ◌∷◌, Text, lit, text_or, remove_first, Result,
  ok, err, Act, ◌>>=◌, ◌>>◌, return, throw, try_catch,
}
use multi_rpc.Platform.{Platform, KeyChange}
use multi_rpc.ApiKey.{deactivate}
use multi_rpc.Limiter.Usage.{number_or_zero}
use multi_rpc.Dashboard.{Totals}

-- what the route reads of Privy's claims
pub record Claims : Type 0 where
  pub user_id : Text
  pub email : Option Text
  pub wallet_address : Option Text

pub record Counts : Type 0 where
  pub api_keys : ℕ
  pub usage : ℕ
  pub invoices : ℕ
  pub webhooks : ℕ

pub record UserRow (Included : Type 0) : Type 0 where
  pub id : Text
  pub name : Option Text
  pub email : Option Text
  pub image : Option Text
  pub included : Included
  pub count : Counts

pub record NewUser : Type 0 where
  pub privy_id : Text
  pub email : Option Text
  pub wallet_address : Option Text

-- the `data` of `prisma.user.update`: a missing field is left alone
pub record ProfileChange : Type 0 where
  pub name : Option (Option Text)
  pub email : Option (Option Text)
  pub image : Option (Option Text)

-- the sums of `prisma.usage.aggregate`
pub record Sums : Type 0 where
  pub requests : Option ℕ
  pub success_count : Option ℕ
  pub error_count : Option ℕ
  pub bytes_in : Option ℕ
  pub bytes_out : Option ℕ

pub record Profiles (p : Platform) (Included : Type 0) : Type 0 where
  -- privy.verifyAuthToken
  pub verify_token : Text → Result (Option Claims)
  pub find_user : (privy_id : Text) → Act p.World (Option (UserRow Included))
  pub create_user : NewUser → Act p.World (UserRow Included)
  pub sum_usage : (user_id : Text) (since : ℕ) → Act p.World Sums
  pub find_usage : (user_id : Text) (date : ℕ) → Act p.World (Option Totals)
  pub update_user : (privy_id : Text) → ProfileChange → Act p.World (UserRow Included)
  -- prisma.user.update with `apiKeys.updateMany` where `active` is true
  pub update_active_keys : (privy_id : Text) → KeyChange → Act p.World (Unit {0})

pub record Stats : Type 0 where
  pub total_api_keys : ℕ
  pub total_invoices : ℕ
  pub total_webhooks : ℕ

pub data Reply (Included : Type 0) : Type 0 where
  profile :
      (user : UserRow Included) (stats : Stats) (monthly : Totals) (today : Option Totals)
      → Reply Included
  welcome : (user : UserRow Included) → Reply Included
  updated : (user : UserRow Included) → Reply Included
  closed : Reply Included
  refused : (status : ℕ) (error : Text) → Reply Included

-- `Number(sum || 0)` of each sum
unfoldable pub totals_of : Sums → Totals
totals_of s = record {
  requests = number_or_zero s.requests;
  success_count = number_or_zero s.success_count;
  error_count = number_or_zero s.error_count;
  bytes_in = number_or_zero s.bytes_in;
  bytes_out = number_or_zero s.bytes_out;
}

unfoldable pub stats_of : Counts → Stats
stats_of c = record {
  total_api_keys = c.api_keys;
  total_invoices = c.invoices;
  total_webhooks = c.webhooks;
}

-- `value || null`
abbrev or_null : Option Text → Option Text
or_null none = none
or_null (some []) = none
or_null (some (c ∷ s)) = some (c ∷ s)

unfoldable pub new_user : Claims → NewUser
new_user claims = record {
  privy_id = claims.user_id;
  email = or_null claims.email;
  wallet_address = or_null claims.wallet_address;
}

module _ (p : Platform) {Included : Type 0} (profiles : Profiles p Included) where
  open p use {World, now, start_of_day, start_of_month}
  open profiles use {
    verify_token, find_user, create_user, sum_usage, find_usage, update_user, update_active_keys,
  }

  abbrev pub admitted :
      (Claims → Act World (Reply Included)) → Result (Option Claims) → Act World (Reply Included)
  admitted serve (err e) = throw e
  admitted serve (ok none) = return (refused 401 (lit "Invalid token"))
  admitted serve (ok (some claims)) = serve claims

  abbrev pub authorized :
      (Claims → Act World (Reply Included)) → Option Text → Act World (Reply Included)
  authorized serve none = return (refused 401 (lit "Unauthorized"))
  authorized serve (some []) = return (refused 401 (lit "Unauthorized"))
  authorized serve (some (c ∷ s)) =
      admitted serve (verify_token (remove_first (c ∷ s) (lit "Bearer ")))

  -- the frame of each handler
  abbrev pub handler :
      Text → (Claims → Act World (Reply Included)) → Option Text → Act World (Reply Included)
  handler failure serve authorization =
      try_catch (authorized serve authorization) (λ e. return (refused 500 failure))

  abbrev pub this_month : Act World ℕ
  this_month w = (ok (start_of_month (now w)), w)

  abbrev pub this_day : Act World ℕ
  this_day w = (ok (start_of_day (now w)), w)

  unfoldable pub show_user : UserRow Included → Act World (Reply Included)
  show_user user = do
    month ← this_month
    sums ← sum_usage user.id month
    day ← this_day
    today ← find_usage user.id day
    return (profile user (stats_of user.count) (totals_of sums) today)

  abbrev pub show_found : Claims → Option (UserRow Included) → Act World (Reply Included)
  show_found claims none = do user ← create_user (new_user claims); return (welcome user)
  show_found claims (some user) = show_user user

  -- `GET`
  unfoldable pub get_profile : Option Text → Act World (Reply Included)
  get_profile =
      handler (lit "Internal server error")
        (λ claims. do found ← find_user claims.user_id; show_found claims found)

  abbrev pub change_user : Result ProfileChange → Claims → Act World (Reply Included)
  change_user (err e) claims = throw e
  change_user (ok change) claims = do
    user ← update_user claims.user_id change
    return (updated user)

  -- `PUT`, with the outcome of `request.json()`
  unfoldable pub put_profile : Result ProfileChange → Option Text → Act World (Reply Included)
  put_profile body = handler (lit "Failed to update profile") (change_user body)

  abbrev pub close_account : Claims → Act World (Reply Included)
  close_account claims = do update_active_keys claims.user_id deactivate; return closed

  -- `DELETE`
  unfoldable pub delete_profile : Option Text → Act World (Reply Included)
  delete_profile = handler (lit "Failed to delete account") close_account
