-- ===== src/AnalyticsPage.antt =====
-- web-ui/src/app/dashboard/analytics/optimized-analytics.tsx: the page of the analytics over the cache of
-- the browser. What is drawn is left out: `shown` is the `data` of the page, none before the first answer.
pub mod Accounts
pub mod Caching
pub mod Current
pub mod Refreshing
use multi_rpc.Prelude.{
  ℕ, Bool, true, false, Option, none, some, List, [], ◌∷◌, ◌++◌, get_elem?, Text, lit, text_eq,
  Result, ok, err, if◌then◌else◌,
}
use multi_rpc.ApiCache.{Cache, Fetched, threw, not_ok, answered, fetch_cached, fill, clear_expired}
use multi_rpc.Browser.{without_at}

pub data TimeRange : Type 0 where
  hours_24 days_7 days_30 : TimeRange

abbrev pub range_text : TimeRange → Text
range_text hours_24 = lit "24h"
range_text days_7 = lit "7d"
range_text days_30 = lit "30d"

-- the address of a fetch
abbrev pub url_of : TimeRange → Text
url_of range = lit "/api/rpc/analytics?range=" ++ range_text range

-- the key that `cachedFetch` gives to a fetch without a body
abbrev pub key_of : TimeRange → Text
key_of range = url_of range ++ lit "-" ++ lit "{}"

-- a call of `fetchAnalyticsData`, with the range of its closure
pub record Request : Type 0 where
  pub range : TimeRange
  pub use_cache : Bool

-- What `fetch` comes to; the body of an answer that is not `ok` counts too.
pub data Response (A : Type 0) : Type 0 where
  no_answer : (message : Text) → Response A
  bad_status : (status_text : Text) → (body : Result A) → Response A
  good_status : (body : Result A) → Response A

pub record Page (A : Type 0) : Type 0 where
  pub loading : Bool
  pub shown : Option A
  pub time_range : TimeRange
  pub refreshing : Bool
  pub cache : Cache A
  -- the calls that wait for the token, and the fetches on their way
  pub waiting : List Request
  pub fetching : List Request

pub data Event (A : Type 0) : Type 0 where
  -- the effect, on the mount and for a new function of the token
  effect_ran : Event A
  selected : TimeRange → Event A
  clicked_refresh : Event A
  token_answered : (i : ℕ) → Result (Option Text) → (now : ℕ) → Event A
  fetch_answered : (i : ℕ) → Response A → (now : ℕ) → Event A
  -- the timer of the cache
  swept : (now : ℕ) → Event A

-- five minutes
abbrev pub cache_ttl : ℕ
cache_ttl = 300000

module _ {A : Type 0} where
  -- what `cachedFetch` sees of a response
  abbrev pub seen : Response A → Fetched A
  seen (no_answer message) = threw message
  seen (bad_status status_text body) = not_ok status_text
  seen (good_status body) = answered body

  -- `response.json()` without a look at the status
  abbrev pub body_of : Response A → Result A
  body_of (no_answer message) = err message
  body_of (bad_status status_text body) = body
  body_of (good_status body) = body

  -- `fetchAnalyticsData`, up to the token
  unfoldable pub fetch_analytics_data : Bool → Page A → Page A
  fetch_analytics_data use_cache p = record p {
    waiting = p.waiting ++ record { range = p.time_range; use_cache = use_cache } ∷ [];
  }

  -- the `finally`
  abbrev pub finally : Page A → Page A
  finally p = record p { loading = false; refreshing = false }

  abbrev pub finish : Result A → Page A → Page A
  finish (ok value) p = finally (record p { shown = some value })
  finish (err message) p = finally p

  abbrev pub go_fetching : Request → Page A → Page A
  go_fetching r p = record p { fetching = p.fetching ++ r ∷ [] }

  -- a new range is a new `fetchAnalyticsData`, which the effect calls
  unfoldable pub select : TimeRange → Page A → Page A
  select range p =
      if text_eq (range_text range) (range_text p.time_range)
      then p
      else fetch_analytics_data true (record p { time_range = range })

  -- `handleRefresh`
  unfoldable pub click_refresh : Page A → Page A
  click_refresh p = fetch_analytics_data false (record p { refreshing = true })

  -- a call of the network: its value for the page, and the cache after it
  unfoldable pub arrived : Request → Response A → ℕ → Cache A → Result A × Cache A
  arrived r response now cache =
      if r.use_cache
      then fill (key_of r.range) (some cache_ttl) (seen response) now cache
      else (body_of response, cache)

  abbrev pub settle : Result A × Cache A → Page A → Page A
  settle (result, cache) p = finish result (record p { cache = cache })

  abbrev pub fetch_ends : ℕ → Response A → ℕ → Page A → Option Request → Page A
  fetch_ends i response now p none = p
  fetch_ends i response now p (some r) =
      settle (arrived r response now p.cache) (record p { fetching = without_at i p.fetching })

  module _ (truthy : A → Bool) where
    -- the first half of `cachedFetch`
    abbrev pub looked_up : Request → Page A → Option A × Cache A → Page A
    looked_up r p (none, cache) = go_fetching r (record p { cache = cache })
    looked_up r p (some value, cache) =
        if truthy value
        then finish (ok value) (record p { cache = cache })
        else go_fetching r (record p { cache = cache })

    unfoldable pub with_token : Request → ℕ → Page A → Page A
    with_token r now p =
        if r.use_cache
        then looked_up r p (fetch_cached (key_of r.range) now p.cache)
        else go_fetching r p

    abbrev pub go_on : Request → Result (Option Text) → ℕ → Page A → Page A
    go_on r (err message) now p = finally p
    go_on r (ok none) now p = finally p
    go_on r (ok (some [])) now p = finally p
    go_on r (ok (some (c ∷ token))) now p = with_token r now p

    abbrev pub token_ends : ℕ → Result (Option Text) → ℕ → Page A → Option Request → Page A
    token_ends i token now p none = p
    token_ends i token now p (some r) =
        go_on r token now (record p { waiting = without_at i p.waiting })

    -- While it loads, the page has no controls. An answer to a call that is not on its way leaves the state.
    unfoldable pub step : Event A → Page A → Page A
    step effect_ran p = fetch_analytics_data true p
    step (selected range) p = if p.loading then p else select range p
    step clicked_refresh p = if p.loading then p else if p.refreshing then p else click_refresh p
    step (token_answered i token now) p = token_ends i token now p (get_elem? p.waiting i)
    step (fetch_answered i response now) p = fetch_ends i response now p (get_elem? p.fetching i)
    step (swept now) p = record p { cache = clear_expired now p.cache }

    unfoldable pub run : List (Event A) → Page A → Page A
    run [] p = p
    run (e ∷ es) p = run es (step e p)

  -- the page before its first effect; the cache outlives it
  unfoldable pub mounted : Cache A → Page A
  mounted cache = record {
    loading = true;
    shown = none;
    time_range = days_7;
    refreshing = false;
    cache = cache;
    waiting = [];
    fetching = [];
  }
