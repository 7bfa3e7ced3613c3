-- ===== src/KeyRoute.antt =====
-- web-ui/src/app/api/keys/route.ts: the handlers that list, create, revoke and update API keys. The
-- query's `id` and the outcome of `request.json()` are part of the request. The numbers of a body are
-- integers.
pub mod Handlers
pub mod Plans
pub mod Creating
use multi_rpc.Prelude.{
  ℕ, zero, suc, ◌+◌, Bool, true, false, not, ◌&&◌, ◌==◌, Option, none, some, List, [], ◌∷◌, ◌++◌,
  Text, lit, text_or, text_eq, remove_first, substring, length, ltb, leb, if◌then◌else◌, ℤ, pos,
  negsuc, num_or, leb_ℤ, min_ℤ, Result, ok, err, Act, ◌>>=◌, ◌>>◌, return, throw, try_catch,
  to_decimal,
}
use multi_rpc.Limiter.{int_decimal}
use multi_rpc.Platform.{Platform, KeyChange}
use multi_rpc.ApiKey.{
  CreateOptions, CreatedKey, ListedKey, GeneratedKey, create, list, revoke, update, generate_key,
  get_now, expiry,
}
use multi_rpc.Middleware.{Privy}

pub record User : Type 0 where
  pub id : Text
  pub email : Text

-- prisma.user.upsert and prisma.subscription.findUnique, whose answer is the row's plan
pub record Accounts (p : Platform) : Type 0 where
  pub upsert_user : Text → Act p.World (Text × Option Text)
  pub find_plan : Text → Act p.World (Option Text)

-- the properties that `POST` and `PUT` read of the body
pub record KeyBody : Type 0 where
  pub name : Option Text
  pub expires_in : Option ℤ
  pub rate_limit : Option ℤ
  pub daily_limit : Option ℤ
  pub monthly_limit : Option ℤ

pub record KeyRequest : Type 0 where
  pub authorization : Option Text
  pub id : Option Text
  pub body : Result KeyBody

pub record NewKeyReply : Type 0 where
  pub id : Text
  pub name : Text
  pub key : Text
  pub prefix : Text
  pub active : Bool
  pub created_at : ℕ
  pub expires_at : Option ℕ
  pub rate_limit : ℤ
  pub daily_limit : Option ℤ
  pub monthly_limit : Option ℤ

pub data KeyReply : Type 0 where
  error : (status : ℕ) (message : Text) → KeyReply
  keys : List ListedKey → KeyReply
  created : NewKeyReply → KeyReply
  success : KeyReply

pub record PlanLimits : Type 0 where
  pub max_keys : ℤ
  pub rate_limit : ℤ
  pub daily_limit : ℤ
  pub monthly_limit : ℤ

abbrev pub plan_row : ℤ → ℤ → ℤ → ℤ → PlanLimits
plan_row max_keys rate_limit daily_limit monthly_limit = record {
  max_keys = max_keys;
  rate_limit = rate_limit;
  daily_limit = daily_limit;
  monthly_limit = monthly_limit;
}

-- `limits[plan]`; `negsuc 0` is -1
unfoldable pub plan_limits : Text → Option PlanLimits
plan_limits plan =
    if text_eq plan (lit "FREE")
    then some (plan_row (pos 1) (pos 10) (pos 1000) (pos 10000))
    else if text_eq plan (lit "STARTER")
    then some (plan_row (pos 5) (pos 50) (pos 10000) (pos 100000))
    else if text_eq plan (lit "PRO")
    then some (plan_row (pos 20) (pos 100) (pos 100000) (pos 1000000))
    else if text_eq plan (lit "ENTERPRISE")
    then some (plan_row (negsuc 0) (pos 1000) (negsuc 0) (negsuc 0))
    else none

-- the white space that `trim` takes off
abbrev pub is_space : ℕ → Bool
is_space c =
    if leb 9 c && leb c 13
    then true
    else if c == 32
    then true
    else if c == 160
    then true
    else if c == 5760
    then true
    else if leb 8192 c && leb c 8202
    then true
    else if c == 8232
    then true
    else if c == 8233
    then true
    else if c == 8239
    then true
    else if c == 8287
    then true
    else if c == 12288
    then true
    else c == 65279

abbrev pub put_before : ℕ → Text → Text
put_before c [] = if is_space c then [] else c ∷ []
put_before c (d ∷ s) = c ∷ d ∷ s

unfoldable pub trim_end : Text → Text
trim_end [] = []
trim_end (c ∷ s) = put_before c (trim_end s)

unfoldable pub trim_start : Text → Text
trim_start [] = []
trim_start (c ∷ s) = let rest = trim_start s in if is_space c then rest else c ∷ s

abbrev pub trim : Text → Text
trim s = trim_end (trim_start s)

-- a limit of the plan caps what is asked for
abbrev pub capped : Option ℤ → ℤ → ℤ
capped asked limit = min_ℤ (num_or asked limit) limit

-- `limit > 0 ? Math.min(asked || limit, limit) : asked`
abbrev pub capped_if : Option ℤ → ℤ → Option ℤ
capped_if asked limit = if leb_ℤ limit (pos 0) then asked else some (capped asked limit)

-- the options of the key that is created
unfoldable pub options_for : PlanLimits → KeyBody → CreateOptions
options_for limits body = record {
  expires_in = body.expires_in;
  rate_limit = some (capped body.rate_limit limits.rate_limit);
  daily_limit = capped_if body.daily_limit limits.daily_limit;
  monthly_limit = capped_if body.monthly_limit limits.monthly_limit;
}

-- `planLimits.maxKeys > 0 && existingKeys >= planLimits.maxKeys`
unfoldable pub is_full : PlanLimits → ℕ → Bool
is_full limits existing =
    not (leb_ℤ limits.max_keys (pos 0)) && leb_ℤ limits.max_keys (pos existing)

-- `a || b` on a number and one that may be missing
abbrev pub nonzero_or : ℤ → Option ℤ → Option ℤ
nonzero_or (pos zero) b = b
nonzero_or (pos (suc n)) b = some (pos (suc n))
nonzero_or (negsuc n) b = some (negsuc n)

abbrev pub or_zero : Option ℤ → ℤ
or_zero none = pos 0
or_zero (some n) = n

unfoldable pub created_reply : KeyBody → CreatedKey → NewKeyReply
created_reply body c = record {
  id = c.row.id;
  name = c.row.name;
  key = c.row.key;
  prefix = text_or (some c.prefix) (substring c.row.key 0 12 ++ lit "...");
  active = c.row.active;
  created_at = c.row.created_at;
  expires_at = c.row.expires_at;
  rate_limit = c.row.rate_limit;
  daily_limit = nonzero_or c.daily_limit body.daily_limit;
  monthly_limit = nonzero_or (or_zero c.row.monthly_limit) body.monthly_limit;
}

-- the answer of `POST` when the database is away: a key that is stored nowhere
unfoldable pub mock_reply : Text → KeyBody → GeneratedKey → ℕ → NewKeyReply
mock_reply name body generated time = record {
  id = lit "demo-" ++ to_decimal time;
  name = name;
  key = generated.key;
  prefix = generated.prefix;
  active = true;
  created_at = time;
  expires_at = expiry body.expires_in time;
  rate_limit = num_or body.rate_limit (pos 10);
  daily_limit = some (num_or body.daily_limit (pos 10000));
  monthly_limit = some (num_or body.monthly_limit (pos 100000));
}

-- the answer of `GET` when the listing throws
abbrev pub mock_listing : ℕ → List ListedKey
mock_listing time =
    record {
      id = lit "demo-key-1";
      name = lit "Development Key";
      prefix = lit "mrpc_demo...";
      active = true;
      created_at = time;
      last_used_at = none;
      expires_at = none;
      rate_limit = pos 10;
      daily_limit = pos 10000;
      monthly_limit = pos 100000;
    }
    ∷ []

abbrev pub demo_user : User
demo_user = record { id = lit "demo-user"; email = lit "demo@example.com" }

abbrev pub changes : KeyBody → KeyChange
changes body = record {
  active = none;
  last_used_at = none;
  name = body.name;
  rate_limit = body.rate_limit;
  daily_limit = body.daily_limit;
  monthly_limit = body.monthly_limit;
}
