-- ===== src/Limiter.antt =====
-- web-ui/src/lib/rate-limiter.ts: the in-memory half of `RateLimiter`. Times are milliseconds since
-- the epoch. The class's static cache is passed in and out; each reading of the clock is an argument.
pub mod Keys
pub mod Counts
pub mod Bounds
pub mod Refinement
pub mod Usage
pub mod Recording
pub mod Attribution
use multi_rpc.Prelude.{
  ℕ, ◌+◌, ◌-◌, ◌*◌, ◌/◌, Bool, Option, none, some, List, [], ◌∷◌, ◌++◌, Text, Dict, get, set,
  modify, remove_where, to_decimal, lit, ltb, if◌then◌else◌, ℤ, pos, negsuc, leb_ℤ,
}

pub record Entry : Type 0 where
  pub count : ℕ
  pub reset_at : ℕ

pub record RateLimitResult : Type 0 where
  pub allowed : Bool
  pub limit : ℤ
  pub remaining : ℕ
  pub reset : ℕ
  pub retry_after : Option ℕ

-- `${identifier}:${index}`
unfoldable pub cache_key : Text → ℕ → Text
cache_key identifier index = identifier ++ b':' ∷ to_decimal index

-- `cleanup()`, at the clock's reading `now`
unfoldable pub cleanup : ℕ → Dict Entry → Dict Entry
cleanup now = remove_where (λ e. ltb e.reset_at now)

-- The entry that `check` goes on with, and the cache with it in place. The cleanup reads the clock
-- again.
unfoldable pub current_entry : Text → ℕ → ℕ → Dict Entry → Entry × Dict Entry
current_entry key reset_at cleanup_now cache = elim (get key cache) [
  | some entry ↦ (entry, cache)
  | none ↦
      let fresh : Entry = record { count = 0; reset_at = reset_at } in
      (fresh, cleanup cleanup_now (set key fresh cache))
]

-- `current.count++`, on the object that the cache may still hold
abbrev pub increment : Entry → Entry
increment e = record e { count = e.count + 1 }

-- `Math.max(0, limit - count)`
abbrev pub room_left : ℤ → ℕ → ℕ
room_left (pos n) count = n - count
room_left (negsuc n) count = 0

-- what `check` returns once it has counted; `Math.ceil` rounds the milliseconds up to seconds
unfoldable pub result_of : ℕ → ℤ → ℕ → ℕ → RateLimitResult
result_of count limit reset_at now =
    let allowed = leb_ℤ (pos count) limit in
    record {
      allowed = allowed;
      limit = limit;
      remaining = room_left limit count;
      reset = reset_at;
      retry_after = if allowed then none else some ((reset_at - now + 999) / 1000);
    }

-- `check(identifier, limit, window)`, called at `now`
unfoldable pub check : Text → ℤ → ℕ → ℕ → ℕ → Dict Entry → RateLimitResult × Dict Entry
check identifier limit window now cleanup_now cache =
    let reset_at = now + window * 1000 in
    let key = cache_key identifier (now / (window * 1000)) in
    let (entry, cache') = current_entry key reset_at cleanup_now cache in
    (result_of (entry.count + 1) limit reset_at now, modify key increment cache')

-- `n.toString()` of an integer
abbrev pub int_decimal : ℤ → Text
int_decimal (pos n) = to_decimal n
int_decimal (negsuc n) = b'-' ∷ to_decimal (n + 1)

-- `getRateLimitHeaders(result)`, with `iso` for `Date.toISOString`
unfoldable pub get_rate_limit_headers : (ℕ → Text) → RateLimitResult → List (Text × Text)
get_rate_limit_headers iso result =
    (lit "X-RateLimit-Limit", int_decimal result.limit)
    ∷ (lit "X-RateLimit-Remaining", to_decimal result.remaining)
    ∷ (lit "X-RateLimit-Reset", iso result.reset)
    ∷ elim result.retry_after [
      | none ↦ []
      | some after ↦ if ltb 0 after then (lit "Retry-After", to_decimal after) ∷ [] else []
    ]
