-- ===== src/Platform.antt =====
-- What the server code calls and does not implement: the clock and the calendar of the host, random
-- numbers, SHA-256, the network and the database behind Prisma. `World` is the state of all these.
-- A call may throw (the database is away, the network fails); its outcome depends on the world.
-- The rows and the arguments follow web-ui/prisma/schema.prisma.
use multi_rpc.Prelude.{ℕ, ℤ, Bool, Option, List, Text, Act, Result}
use multi_rpc.Json.{Json}

-- model ApiKey
pub record KeyRow : Type 0 where
  pub id : Text
  pub user_id : Text
  pub name : Text
  pub key : Text
  pub active : Bool
  pub rate_limit : ℤ
  pub monthly_limit : Option ℤ
  pub created_at : ℕ
  pub last_used_at : Option ℕ
  pub expires_at : Option ℕ

-- the `data` of `prisma.apiKey.create`
pub record NewKey : Type 0 where
  pub name : Text
  pub key : Text
  pub user_id : Text
  pub active : Bool
  pub expires_at : Option ℕ
  pub rate_limit : ℤ
  pub monthly_limit : ℤ

-- the `data` of `prisma.apiKey.update` and `updateMany`: a missing field is left alone
pub record KeyChange : Type 0 where
  pub active : Option Bool
  pub last_used_at : Option ℕ
  pub name : Option Text
  pub rate_limit : Option ℤ
  pub daily_limit : Option ℤ
  pub monthly_limit : Option ℤ

-- the sums of `prisma.usage.aggregate`, and the `data` of `prisma.usage.upsert`
pub record UsageWhere : Type 0 where
  pub user_id : Text
  pub api_key_id : Text
  pub since : ℕ

pub record UsageRow : Type 0 where
  pub user_id : Text
  pub api_key_id : Text
  pub date : ℕ
  pub requests : ℕ
  pub success_count : ℕ
  pub error_count : ℕ
  pub bytes_in : ℕ
  pub bytes_out : ℕ

-- the increments of an update
pub record UsageChange : Type 0 where
  pub requests : ℕ
  pub success_count : Option ℕ
  pub error_count : Option ℕ
  pub bytes_in : ℕ
  pub bytes_out : ℕ

-- What `fetch` resolves to: `ok`, and what `json()` does when it is awaited.
pub record HttpResponse : Type 0 where
  pub is_ok : Bool
  pub json : Result Json

pub record Platform : Type 1 where
  pub World : Type 0
  -- Date.now()
  pub now : World → ℕ
  -- the local midnight before a time, and the first midnight of its month
  pub start_of_day : ℕ → ℕ
  pub start_of_month : ℕ → ℕ
  -- crypto.randomBytes(n), crypto.createHash('sha256').update(s).digest('hex')
  pub random_bytes : ℕ → World → List ℕ × World
  pub sha256_hex : Text → Text
  -- prisma.apiKey
  pub create_key : NewKey → Act World KeyRow
  pub find_unique_key : Text → Act World (Option KeyRow)
  pub update_key : Text → KeyChange → Act World (Unit {0})
  pub find_many_keys : Text → Act World (List KeyRow)
  pub update_many_keys : (id user_id : Text) → KeyChange → Act World ℕ
  pub count_active_keys : Text → Act World ℕ
  -- prisma.usage
  pub sum_requests : UsageWhere → Act World (Option ℕ)
  pub upsert_usage : (user_id : Text) (date : ℕ) → UsageChange → UsageRow → Act World (Unit {0})
  -- await fetch(url, { method: "POST", body: JSON.stringify(value) }), and one that is not awaited
  pub fetch : Text → Json → Act World HttpResponse
  pub begin_fetch : Text → Json → World → World
  -- JSON.stringify(value).length
  pub json_length : Json → ℕ
  -- new Date(t).toISOString()
  pub iso : ℕ → Text
