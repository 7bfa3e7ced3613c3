-- ===== src/ApiCache.antt =====
-- web-ui/src/lib/api-cache.ts: the browser's cache of API answers. `Date.now()` is an argument, and so
-- is the outcome of `fetch`.
pub mod Reads
use multi_rpc.Prelude.{
  ℕ, ◌+◌, ◌-◌, Bool, true, false, Option, none, some, Text, lit, ◌++◌, Dict, get, set, delete,
  remove_where, ltb, if◌then◌else◌, Result, ok, err, List, [], ◌∷◌,
}

pub record CacheEntry (D : Type 0) : Type 0 where
  pub value : D
  pub timestamp : ℕ
  pub ttl : ℕ

-- one minute
abbrev pub default_ttl : ℕ
default_ttl = 60000

abbrev pub Cache : Type 0 → Type 0
Cache D = Dict (CacheEntry D)

abbrev pub ttl_or_default : Option ℕ → ℕ
ttl_or_default none = default_ttl
ttl_or_default (some t) = t

-- What a fetch comes to: an exception, a status that is not ok, or the outcome of `json()`.
pub data Fetched (D : Type 0) : Type 0 where
  threw : (message : Text) → Fetched D
  not_ok : (status_text : Text) → Fetched D
  answered : Result D → Fetched D

module _ {D : Type 0} where
  -- `now - entry.timestamp > entry.ttl`; a clock that went back gives a negative age.
  abbrev pub is_expired : ℕ → CacheEntry D → Bool
  is_expired now entry = ltb entry.ttl (now - entry.timestamp)

  -- `set(key, data, ttl)`
  unfoldable pub store : Text → D → Option ℕ → ℕ → Cache D → Cache D
  store key value ttl now cache =
      set key (record { value = value; timestamp = now; ttl = ttl_or_default ttl }) cache

  abbrev pub fetched : Text → ℕ → Cache D → Option (CacheEntry D) → Option D × Cache D
  fetched key now cache none = (none, cache)
  fetched key now cache (some entry) =
      if is_expired now entry then (none, delete key cache) else (some entry.value, cache)

  -- `get(key)`
  unfoldable pub fetch_cached : Text → ℕ → Cache D → Option D × Cache D
  fetch_cached key now cache = fetched key now cache (get key cache)

  -- `clear()`
  unfoldable pub clear : Cache D → Cache D
  clear cache = []

  -- `clearExpired()`
  unfoldable pub clear_expired : ℕ → Cache D → Cache D
  clear_expired now = remove_where (is_expired now)

  -- the part after a miss; `later` is the time when the answer is there
  unfoldable pub fill : Text → Option ℕ → Fetched D → ℕ → Cache D → Result D × Cache D
  fill key ttl (threw message) later cache = (err message, cache)
  fill key ttl (not_ok status_text) later cache =
      (err (lit "Failed to fetch: " ++ status_text), cache)
  fill key ttl (answered (err message)) later cache = (err message, cache)
  fill key ttl (answered (ok value)) later cache = (ok value, store key value ttl later cache)

  -- `if (cached)`: a cached value that is falsy counts as a miss
  abbrev pub served :
      (D → Bool) → Text → Option ℕ → Fetched D → ℕ → Option D × Cache D → Result D × Cache D
  served truthy key ttl outcome later (some value, cache) =
      if truthy value then (ok value, cache) else fill key ttl outcome later cache
  served truthy key ttl outcome later (none, cache) = fill key ttl outcome later cache

  -- `cachedFetch(url, options, ttl)`, with `key` for the cache key of its two first arguments
  unfoldable pub cached_fetch :
      (D → Bool) → Text → Option ℕ → Fetched D → ℕ → ℕ → Cache D → Result D × Cache D
  cached_fetch truthy key ttl outcome now later cache =
      served truthy key ttl outcome later (fetch_cached key now cache)
