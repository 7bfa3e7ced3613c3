-- ===== src/Tests/Cache.antt =====
-- Reads of the browser's cache.
use multi_rpc.Prelude.{ℕ, ◌≡◌, ◌≢◌, none, some, [], ◌∷◌, lit, ltb, arith, if◌then◌else◌, delete}
use multi_rpc.ApiCache.{Cache, store, fetch_cached}
use multi_rpc.ApiCache.Reads.{fetch_cached-store}

abbrev cache : Cache ℕ
cache = (lit "/api/keys", record { value = 4; timestamp = 10; ttl = 50 }) ∷ []

apart : lit "/api/keys" ≢ lit "/api/stats"
apart h = ground arith

fetch_cached-store_example :
    let cache' = store (lit "/api/stats") 7 (some 100) 20 cache in
    (fetch_cached (lit "/api/stats") 30 cache'
      ≡ (if ltb 120 30 then (none, delete (lit "/api/stats") cache') else (some 7, cache')))
    × ((fetch_cached (lit "/api/keys") 30 cache').0 ≡ (fetch_cached (lit "/api/keys") 30 cache).0)
fetch_cached-store_example =
    fetch_cached-store (lit "/api/stats") (lit "/api/keys") 7 (some 100) 20 30 cache (omega arith)
      apart
