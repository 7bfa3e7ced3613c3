-- ===== src/AnalyticsPage/Accounts.antt =====
-- What the next account on the same browser sees.
use multi_rpc.Prelude.{
  ℕ, ◌+◌, ◌≤◌, ◌≡◌, refl, ap, Bool, true, false, Option, none, some, [], ◌∷◌, Text, ok,
}
use multi_rpc.ApiCache.{Cache, fetch_cached, fill, store}
use multi_rpc.ApiCache.Reads.{read-back, live}
use multi_rpc.AnalyticsPage.{
  Page, Request, days_7, good_status, effect_ran, token_answered, fetch_answered, key_of, cache_ttl,
  fetch_analytics_data, looked_up, arrived, with_token, step, run, mounted,
}

abbrev asked : Request
asked = record { range = days_7; use_cache = true }

module _ {A : Type 0} (truthy : A → Bool) where
  -- a visit of the page that has asked for the token and got it
  abbrev pub opened : (token : Text) → (now : ℕ) → Cache A → Page A
  opened token now cache =
      run truthy (effect_ran ∷ token_answered 0 (ok (some token)) now ∷ []) (mounted cache)

  -- the cache after a visit whose fetch is answered
  abbrev pub visited : (token : Text) → (now : ℕ) → A → (later : ℕ) → Cache A → Cache A
  visited token now value later cache =
      (step truthy (fetch_answered 0 (good_status (ok value)) later) (opened token now cache)).cache

  opened-miss :
      (c : ℕ) (token : Text) (now : ℕ) (cache : Cache A)
      → (fetch_cached (key_of days_7) now cache).0 ≡ none
      → opened (c ∷ token) now cache ≡ record (mounted cache) {
        cache = (fetch_cached (key_of days_7) now cache).1;
        fetching = asked ∷ [];
      }
  unfolding run step fetch_analytics_data with_token mounted
  opened-miss c token now cache miss = opened-looked (fetch_cached (key_of days_7) now cache) miss
    where
      opened-looked :
          (r : Option A × Cache A)
          → r.0 ≡ none
          → looked_up truthy asked (mounted cache) r
            ≡ record (mounted cache) { cache = r.1; fetching = asked ∷ [] }
      opened-looked (none, c') h = refl
      opened-looked (some v, c') h = cc h

  pub opened-hit :
      (c : ℕ) (token : Text) (now : ℕ) (cache : Cache A) (value : A)
      → (fetch_cached (key_of days_7) now cache) ≡ (some value, cache)
      → truthy value ≡ true
      → opened (c ∷ token) now cache
        ≡ record (mounted cache) { shown = some value; loading = false }
  unfolding run step fetch_analytics_data with_token mounted
  opened-hit c token now cache value hit real = rw (hit, real) refl

  visited-stored :
      (c : ℕ) (token : Text) (value : A) (cache : Cache A) (now later : ℕ)
      → (fetch_cached (key_of days_7) now cache).0 ≡ none
      → visited (c ∷ token) now value later cache
        ≡ store
            (key_of days_7)
            value
            (some cache_ttl)
            later
            (fetch_cached (key_of days_7) now cache).1
  unfolding step arrived fill mounted
  visited-stored c token value cache now later miss =
      ap (λ p. (step truthy (fetch_answered 0 (good_status (ok value)) later) p).cache)
        (opened-miss c token now cache miss)

  -- An account visits the page, and its fetch, which finds nothing cached, is answered. Whatever account
  -- visits the page next on that browser within five minutes is shown the analytics of the first one,
  -- and nothing is asked of the server.
  pub opened-visited :
      (c d : ℕ) (token other : Text) (value : A) (cache : Cache A) (now later again : ℕ)
      → truthy value ≡ true
      → (fetch_cached (key_of days_7) now cache).0 ≡ none
      → later ≤ again
      → again ≤ later + cache_ttl
      → let page = opened (d ∷ other) again (visited (c ∷ token) now value later cache) in
        (page.shown ≡ some value) × (page.fetching ≡ [])
  unfolding mounted
  opened-visited c d token other value cache now later again real miss ordered live' =
      rw
        (
          visited-stored c token value cache now later miss,
          opened-hit d other again _ value
              (rw (live (later + cache_ttl) again live') at (
                read-back (key_of days_7) value (some cache_ttl) later again
                  (fetch_cached (key_of days_7) now cache).1 ordered))
              real,
        )
        (refl, refl)
