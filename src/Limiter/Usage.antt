-- ===== src/Limiter/Usage.antt =====
-- web-ui/src/lib/rate-limiter.ts: the usage records in the database, `checkUsage` and `recordUsage`.
use multi_rpc.Prelude.{
  ℕ, ℤ, pos, Bool, true, ◌&&◌, Option, none, some, Text, if◌then◌else◌, Act, ◌>>=◌, return,
  try_catch, leb_ℤ, not,
}
use multi_rpc.Platform.{Platform, UsageRow, UsageChange}

pub record UsageCheck : Type 0 where
  pub allowed : Bool
  pub daily_usage : ℕ
  pub monthly_usage : ℕ

-- `Number(sum || 0)`
abbrev pub number_or_zero : Option ℕ → ℕ
number_or_zero none = 0
number_or_zero (some n) = n

-- `usage < limit`
abbrev pub below : ℕ → ℤ → Bool
below usage limit = not (leb_ℤ limit (pos usage))

-- one request more, in the counter of its outcome
unfoldable pub usage_change : Bool → ℕ → ℕ → UsageChange
usage_change success bytes_in bytes_out = record {
  requests = 1;
  success_count = if success then some 1 else none;
  error_count = if success then none else some 1;
  bytes_in = bytes_in;
  bytes_out = bytes_out;
}

unfoldable pub usage_row : Text → Text → ℕ → Bool → ℕ → ℕ → UsageRow
usage_row user_id key_id today success bytes_in bytes_out = record {
  user_id = user_id;
  api_key_id = key_id;
  date = today;
  requests = 1;
  success_count = if success then 1 else 0;
  error_count = if success then 0 else 1;
  bytes_in = bytes_in;
  bytes_out = bytes_out;
}

module _ (p : Platform) where
  open p use {World, now, start_of_day, start_of_month, sum_requests, upsert_usage}

  abbrev sums : Text → Text → ℤ → ℤ → ℕ → Act World UsageCheck
  sums user_id key_id daily_limit monthly_limit time = do
    day ←
        sum_requests (record { user_id = user_id; api_key_id = key_id; since = start_of_day time })
    month ←
        sum_requests
          (record { user_id = user_id; api_key_id = key_id; since = start_of_month time })
    return (record {
      allowed =
          below (number_or_zero day) daily_limit && below (number_or_zero month) monthly_limit;
      daily_usage = number_or_zero day;
      monthly_usage = number_or_zero month;
    })

  -- The two sums are asked for together; here one after the other.
  unfoldable pub check_usage : Text → Text → ℤ → ℤ → Act World UsageCheck
  check_usage user_id key_id daily_limit monthly_limit w =
      try_catch (sums user_id key_id daily_limit monthly_limit (now w))
        (λ e. return (record { allowed = true; daily_usage = 0; monthly_usage = 0 })) w

  -- The method and the latency are passed and not recorded.
  unfoldable pub record_usage : Text → Text → Bool → ℕ → ℕ → Act World (Unit {0})
  record_usage user_id key_id success bytes_in bytes_out w =
      let today = start_of_day (now w) in
      try_catch
        (upsert_usage user_id today (usage_change success bytes_in bytes_out)
          (usage_row user_id key_id today success bytes_in bytes_out))
        (λ e. return tt) w
