-- ===== src/Dashboard.antt =====
-- web-ui/src/app/api/user/dashboard/route.ts: the data of the dashboard. The query for the user is the
-- parameter `find_member`, and the calendar that gives the time it asks from is `since`. Of a subscription
-- only the plan is kept. A key's `monthlyLimit` is a
-- BigInt, which `JSON.stringify` refuses with an exception.
pub mod Reading
pub mod Plans
use multi_rpc.Prelude.{
  ℕ, zero, suc, ◌+◌, ℤ, pos, negsuc, Bool, true, false, any, Option, none, some, List, [], ◌∷◌,
  Text, lit, text_or, text_eq, remove_first, Result, ok, err, Act, ◌>>=◌, return, throw, try_catch,
  if◌then◌else◌,
}
use multi_rpc.Platform.{Platform, KeyRow, UsageRow}
use multi_rpc.Middleware.{Privy}

-- the totals of a month
pub record Totals : Type 0 where
  pub requests : ℕ
  pub success_count : ℕ
  pub error_count : ℕ
  pub bytes_in : ℕ
  pub bytes_out : ℕ

pub record Limits : Type 0 where
  pub requests : ℤ
  pub rate_limit : ℤ

-- the user with what is included
pub record Member : Type 0 where
  pub id : Text
  pub api_keys : List KeyRow
  pub plan : Option Text
  pub usage : List UsageRow

pub record Overview : Type 0 where
  pub api_keys : List KeyRow
  pub plan : Option Text
  pub usage : Totals
  pub limits : Option Limits

pub data Reply : Type 0 where
  overview : Overview → Reply
  refused : (status : ℕ) (error : Text) → Reply

unfoldable pub no_usage : Totals
no_usage = record { requests = 0; success_count = 0; error_count = 0; bytes_in = 0; bytes_out = 0 }

unfoldable pub add_usage : Totals → UsageRow → Totals
add_usage acc row = record {
  requests = acc.requests + row.requests;
  success_count = acc.success_count + row.success_count;
  error_count = acc.error_count + row.error_count;
  bytes_in = acc.bytes_in + row.bytes_in;
  bytes_out = acc.bytes_out + row.bytes_out;
}

-- `reduce`
unfoldable pub total_usage : Totals → List UsageRow → Totals
total_usage acc [] = acc
total_usage acc (row ∷ rows) = total_usage (add_usage acc row) rows

abbrev limits : ℤ → ℤ → Limits
limits requests rate_limit = record { requests = requests; rate_limit = rate_limit }

-- `planLimits[plan]`
unfoldable pub dashboard_limits : Text → Option Limits
dashboard_limits plan =
    if text_eq plan (lit "FREE")
    then some (limits (pos 100000) (pos 10))
    else if text_eq plan (lit "STARTER")
    then some (limits (pos 1000000) (pos 50))
    else if text_eq plan (lit "PRO")
    then some (limits (pos 10000000) (pos 100))
    else if text_eq plan (lit "ENTERPRISE")
    then some (limits (negsuc 0) (pos 1000))
    else none

abbrev pub free_limits : Limits
free_limits = limits (pos 100000) (pos 10)

-- what is answered where the database has no user or throws
unfoldable pub nothing_known : Reply
nothing_known =
    overview (record { api_keys = []; plan = none; usage = no_usage; limits = some free_limits })

unfoldable pub overview_of : Member → Overview
overview_of member = record {
  api_keys = member.api_keys;
  plan = member.plan;
  usage = total_usage no_usage member.usage;
  limits = dashboard_limits (text_or member.plan (lit "FREE"));
}

abbrev pub has_big_int : KeyRow → Bool
has_big_int row = elim row.monthly_limit [ none ↦ false | some n ↦ true ]

-- NextResponse.json of an overview
unfoldable pub serialize : {World : Type 0} → Overview → Act World Reply
serialize o =
    if any has_big_int o.api_keys
    then throw (lit "Do not know how to serialize a BigInt")
    else return (overview o)

module _ (p : Platform) (find_member : (privy_id : Text) (since : ℕ) → Act p.World (Option Member))
    (since : ℕ → ℕ) (privy : Option Privy) where
  open p use {World, now}

  abbrev pub answered : Option Member → Act World Reply
  answered none = return nothing_known
  answered (some member) = serialize (overview_of member)

  -- the inner `try`
  unfoldable pub read_member : Text → Act World Reply
  read_member id w =
      try_catch (do found ← find_member id (since (now w)); answered found)
        (λ e. return nothing_known) w

  abbrev pub claimed : Result (Option Text) → Act World Reply
  claimed (err e) = throw e
  claimed (ok none) = return (refused 401 (lit "Invalid token"))
  claimed (ok (some id)) = read_member id

  abbrev pub of_token : Option Privy → Text → Act World Reply
  of_token none token = read_member (lit "demo-user")
  of_token (some check) token = claimed (check token)

  abbrev pub authorized : Option Text → Act World Reply
  authorized none = return (refused 401 (lit "Unauthorized"))
  authorized (some []) = return (refused 401 (lit "Unauthorized"))
  authorized (some (c ∷ s)) = of_token privy (remove_first (c ∷ s) (lit "Bearer "))

  -- `GET`
  unfoldable pub get_dashboard : Option Text → Act World Reply
  get_dashboard authorization =
      try_catch (authorized authorization)
        (λ e. return (refused 500 (lit "Failed to fetch dashboard data")))
