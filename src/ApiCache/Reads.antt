-- ===== src/ApiCache/Reads.antt =====
-- What can be read from the cache after a write or a sweep.
use multi_rpc.Prelude.{
  ℕ, ◌+◌, ◌≤◌, Bool, true, false, Option, none, some, Text, Distinct, get, set, delete, get-set,
  get-remove_where, text_eq_iff, text_eq_refl, ltb, if◌then◌else◌, ok, ◌≡◌, refl, ◌≢◌, arith,
  Option-cases, Bool-cases, inl, inr,
}
use multi_rpc.ApiCache.{
  CacheEntry, Cache, is_expired, store, fetch_cached, clear_expired, cached_fetch, fill, served,
  Fetched, answered, ttl_or_default,
}

pub live : (end time : ℕ) → time ≤ end → ltb end time ≡ false
live end time h = ground arith

module _ {D : Type 0} where
  pub read-back :
      (key : Text) (value : D) (ttl : Option ℕ) (now later : ℕ) (cache : Cache D)
      → now ≤ later
      → let cache' = store key value ttl now cache in
        fetch_cached key later cache' ≡ (
          if ltb (now + ttl_or_default ttl) later
          then (none, delete key cache')
          else (some value, cache'))
  unfolding fetch_cached store
  read-back key value ttl now later cache ordered =
      let entry : CacheEntry D = record {
        value = value;
        timestamp = now;
        ttl = ttl_or_default ttl;
      } in
      ground (arith, get-set key key entry cache, text_eq_refl key)

  -- What is read depends on the entry alone.
  pub reads-alike :
      (key : Text) (now : ℕ) (one two : Cache D)
      → get key one ≡ get key two
      → (fetch_cached key now one).0 ≡ (fetch_cached key now two).0
  unfolding fetch_cached
  reads-alike key now one two same = elim (Option-cases (get key two)) [
    | inl absent ↦ rw (same, absent) refl
    | inr (e, there) ↦ elim (Bool-cases (is_expired now e)) [
      | inl old ↦ rw (same, there, old) refl
      | inr fresh ↦ rw (same, there, fresh) refl
    ]
  ]

  -- A value is read back until its time to live is over and not afterwards, when its entry is dropped;
  -- the other keys read as before.
  pub fetch_cached-store :
      (key other : Text) (value : D) (ttl : Option ℕ) (now later : ℕ) (cache : Cache D)
      → now ≤ later
      → other ≢ key
      → let cache' = store key value ttl now cache in
        (fetch_cached key later cache' ≡ (
          if ltb (now + ttl_or_default ttl) later
          then (none, delete key cache')
          else (some value, cache')))
        × ((fetch_cached other later cache').0 ≡ (fetch_cached other later cache).0)
  unfolding fetch_cached store
  fetch_cached-store key other value ttl now later cache ordered apart =
      let entry : CacheEntry D = record {
        value = value;
        timestamp = now;
        ttl = ttl_or_default ttl;
      } in
      (
        read-back key value ttl now later cache ordered,
        reads-alike other later (set key entry cache) cache
            (ground (arith, get-set key other entry cache, text_eq_iff key other)),
      )

  -- A sweep at any time is invisible to a read that comes no earlier.
  pub fetch_cached-clear_expired :
      (key : Text) (swept now : ℕ) (cache : Cache D)
      → Distinct cache
      → swept ≤ now
      → (fetch_cached key now (clear_expired swept cache)).0 ≡ (fetch_cached key now cache).0
  unfolding fetch_cached clear_expired
  fetch_cached-clear_expired key swept now cache d ordered = elim (Option-cases (get key cache)) [
    | inl absent ↦ ground (arith, get-remove_where (is_expired swept) key cache d)
    | inr (e, there) ↦ ground (arith, get-remove_where (is_expired swept) key cache d)
  ]

  filled :
      (truthy : D → Bool) (key : Text) (ttl : Option ℕ) (value : D) (later : ℕ)
      (r : Option D × Cache D)
      → r.0 ≡ none
      → served truthy key ttl (answered (ok value)) later r
        ≡ (ok value, store key value ttl later r.1)
  unfolding fill
  filled truthy key ttl value later (none, c) h = refl
  filled truthy key ttl value later (some x, c) h = cc h

  -- Once a fetch has brought a value that is not falsy, later fetches under its key are answered with
  -- it from the cache until its time to live is over, whatever the network would say.
  pub cached_fetch-twice :
      (truthy : D → Bool) (key : Text) (ttl : Option ℕ) (value : D) (again : Fetched D)
      (now later then_ : ℕ) (cache : Cache D)
      → truthy value ≡ true
      → (fetch_cached key now cache).0 ≡ none
      → later ≤ then_
      → then_ ≤ later + ttl_or_default ttl
      → let cache' = (cached_fetch truthy key ttl (answered (ok value)) now later cache).1 in
        cached_fetch truthy key ttl again then_ then_ cache' ≡ (ok value, cache')
  unfolding cached_fetch
  cached_fetch-twice truthy key ttl value again now later then_ cache h miss o l =
      let first : cached_fetch truthy key ttl (answered (ok value)) now later cache
          ≡ (ok value, store key value ttl later (fetch_cached key now cache).1) =
        filled truthy key ttl value later (fetch_cached key now cache) miss in
      rw first (
        rw
          (
            read-back key value ttl later then_ (fetch_cached key now cache).1 o,
            live (later + ttl_or_default ttl) then_ l,
            h,
          )
          refl)
