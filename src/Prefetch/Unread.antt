-- ===== src/Prefetch/Unread.antt =====
-- What prefetching does for the reads of the cache.
use multi_rpc.Prelude.{
  ℕ, ◌≡◌, refl, subst, sym, ap, ◌∙◌, Bool, true, false, not, ◌==◌, all, Option, none, some, List,
  [], ◌∷◌, ◌++◌, Text, lit, text_eq, text_eq_iff, arith, Bool-cases, inl, inr, ok, err, All,
  All-append, find, get, get-set, starts_with,
}
use multi_rpc.ApiCache.Reads.{reads-alike}
use multi_rpc.ApiCache.{threw, not_ok, answered, Cache, Fetched, store, fill, served, cached_fetch}
use multi_rpc.Prefetch.{
  Query, Prefetcher, Priority, high, low, Event, asked, timer, idle_callback, visible, fetched,
  query_of, queries, without, among, removed, fetch_for, prefetch_dashboard_data, do_prefetch,
  prefetch_route, arrive, step, run, mounted,
}

-- the key under which `cachedFetch` keeps the answer for an address and a body in JSON
abbrev pub cache_key : Text → Text → Text
cache_key url body = url ++ lit "-" ++ body

-- a text with no dash
abbrev pub is_plain : Text → Bool
is_plain s = all (λ c. not (c == 45)) s

cache_key-dash : (url body : Text) → is_plain (cache_key url body) ≡ false
cache_key-dash [] body = refl
cache_key-dash (c ∷ url) body = ground (arith, cache_key-dash url body)

plain-of :
    {made : Query} (q : Query)
    → some made ≡ some q
    → is_plain made.url ≡ true
    → is_plain q.url ≡ true
plain-of {made} q h k = let same : made ≡ q = cc h in subst (λ x. is_plain x.url ≡ true) same k

query_of-is_plain : (route : Text) (q : Query) → query_of route ≡ some q → is_plain q.url ≡ true
unfolding query_of
query_of-is_plain route q h = elim (Bool-cases (text_eq route (lit "/dashboard"))) [
  | inl y ↦ plain-of q (rw y at h) refl
  | inr n ↦ elim (Bool-cases (text_eq route (lit "/dashboard/keys"))) [
    | inl y ↦ plain-of q (rw (n, y) at h) refl
    | inr m ↦ elim (Bool-cases (text_eq route (lit "/dashboard/analytics"))) [
      | inl y ↦ plain-of q (rw (n, m, y) at h) refl
      | inr k ↦ cc (rw (n, m, k) at h)
    ]
  ]
]

-- the queries that are on their way have keys with no dash
abbrev IsPlain : List Query → Type 0
IsPlain qs = All (λ q. is_plain q.url ≡ true) qs

queries-IsPlain :
    (route : Text) (found : Option Query) → query_of route ≡ found → IsPlain (queries found)
queries-IsPlain route none h = tt
queries-IsPlain route (some q) h = (query_of-is_plain route q h, tt)

without-IsPlain : (url : Text) (qs : List Query) → IsPlain qs → IsPlain (without url qs)
without-IsPlain url [] h = tt
without-IsPlain url (q ∷ qs) (h, hs) = elim (Bool-cases (text_eq url q.url)) [
  | inl y ↦ rw y hs
  | inr n ↦ rw n (h, without-IsPlain url qs hs)
]

find-is_plain :
    (url : Text) (qs : List Query) (q : Query)
    → IsPlain qs
    → find (λ x. text_eq url x.url) qs ≡ some q
    → is_plain q.url ≡ true
find-is_plain url [] q h k = cc k
find-is_plain url (x ∷ qs) q (h, hs) k = elim (Bool-cases (text_eq url x.url)) [
  | inl y ↦ plain-of q (rw y at k) h
  | inr n ↦ find-is_plain url qs q hs (rw n at k)
]

module _ {D : Type 0} (token : Option Text) (url body : Text) (cache : Cache D) where
  -- what prefetching keeps: plain queries, and the entry of the key
  abbrev IsUnread : Prefetcher D → Type 0
  IsUnread p =
      IsPlain p.fetching × (get (cache_key url body) p.cache ≡ get (cache_key url body) cache)

  fetch_for-IsUnread :
      (token : Option Text) (route : Text) (p : Prefetcher D)
      → IsUnread p
      → IsUnread (fetch_for token route p)
  fetch_for-IsUnread none route p h = h
  fetch_for-IsUnread (some []) route p h = h
  fetch_for-IsUnread (some (c ∷ s)) route p (h, k) =
      (All-append _ p.fetching _ h (queries-IsPlain route (query_of route) refl), k)

  do_prefetch-IsUnread :
      (href : Text) (p : Prefetcher D) → IsUnread p → IsUnread (do_prefetch token href p)
  unfolding do_prefetch prefetch_dashboard_data
  do_prefetch-IsUnread href p h = elim (Bool-cases (starts_with href (lit "/dashboard"))) [
    | inl y ↦ rw y (fetch_for-IsUnread token href (record p { routes = p.routes ++ href ∷ [] }) h)
    | inr n ↦ rw n h
  ]

  prefetch_route-IsUnread :
      (href : Text) (priority : Priority) (p : Prefetcher D)
      → IsUnread p
      → IsUnread (prefetch_route href priority p)
  unfolding prefetch_route
  prefetch_route-IsUnread href high p h = elim (Bool-cases (among href p.queue)) [
    | inl y ↦ rw y h
    | inr n ↦ rw n h
  ]
  prefetch_route-IsUnread href low p h = elim (Bool-cases (among href p.queue)) [
    | inl y ↦ rw y h
    | inr n ↦ rw n h
  ]

  -- a key with no dash is none of `cachedFetch`
  apart : (key : Text) → is_plain key ≡ true → text_eq key (cache_key url body) ≡ false
  apart key plain = elim (Bool-cases (text_eq key (cache_key url body))) [
    | inl y ↦
        let same : key ≡ cache_key url body = (text_eq_iff key (cache_key url body)).0 y in
        let wrong : true ≡ false = sym plain ∙ ap is_plain same ∙ cache_key-dash url body in
        cc wrong
    | inr n ↦ n
  ]

  arrive-IsUnread :
      (value : D) (now : ℕ) (arrived : Text) (p : Prefetcher D) (found : Option Query)
      → find (λ q. text_eq arrived q.url) p.fetching ≡ found
      → IsUnread p
      → IsUnread (arrive value now p found)
  unfolding store
  arrive-IsUnread value now arrived p none e h = h
  arrive-IsUnread value now arrived p (some q) e (h, k) =
      let plain = find-is_plain arrived p.fetching q h e in
      (
        without-IsPlain q.url p.fetching h,
        get-set q.url (cache_key url body) _ p.cache ∙ rw (apart q.url plain) k,
      )

  step-IsUnread : (e : Event D) (p : Prefetcher D) → IsUnread p → IsUnread (step token e p)
  unfolding step
  step-IsUnread (asked href priority) p h = prefetch_route-IsUnread href priority p h
  step-IsUnread (timer href) p h = elim (Bool-cases (among href p.waiting)) [
    | inl y ↦ rw y h
    | inr n ↦ rw n h
  ]
  step-IsUnread (idle_callback href) p h = elim (Bool-cases (among href p.idle)) [
    | inl y ↦ rw y (do_prefetch-IsUnread href (record p { idle = removed href p.idle }) h)
    | inr n ↦ rw n h
  ]
  step-IsUnread (visible href) p h = elim (Bool-cases (starts_with href (lit "/dashboard"))) [
    | inl y ↦ rw y (do_prefetch-IsUnread href p h)
    | inr n ↦ rw n h
  ]
  step-IsUnread (fetched arrived value now) p h = arrive-IsUnread value now arrived p _ refl h

  run-IsUnread : (es : List (Event D)) (p : Prefetcher D) → IsUnread p → IsUnread (run token es p)
  unfolding run
  run-IsUnread [] p h = h
  run-IsUnread (e ∷ es) p h = run-IsUnread es (step token e p) (step-IsUnread e p h)

  fill-alike :
      (ttl : Option ℕ) (outcome : Fetched D) (later : ℕ) (one two : Cache D)
      → (fill (cache_key url body) ttl outcome later one).0
        ≡ (fill (cache_key url body) ttl outcome later two).0
  unfolding fill
  fill-alike ttl (threw message) later one two = refl
  fill-alike ttl (not_ok status) later one two = refl
  fill-alike ttl (answered (ok value)) later one two = refl
  fill-alike ttl (answered (err message)) later one two = refl

  hit-alike :
      (truthy : D → Bool) (ttl : Option ℕ) (outcome : Fetched D) (later : ℕ) (v : D)
      (one two : Cache D)
      → (served truthy (cache_key url body) ttl outcome later (some v, one)).0
        ≡ (served truthy (cache_key url body) ttl outcome later (some v, two)).0
  hit-alike truthy ttl outcome later v one two = elim (Bool-cases (truthy v)) [
    | inl y ↦ rw y refl
    | inr n ↦ rw n (fill-alike ttl outcome later one two)
  ]

  served-alike :
      (truthy : D → Bool) (ttl : Option ℕ) (outcome : Fetched D) (later : ℕ)
      (one two : Option D × Cache D)
      → one.0 ≡ two.0
      → (served truthy (cache_key url body) ttl outcome later one).0
        ≡ (served truthy (cache_key url body) ttl outcome later two).0
  served-alike truthy ttl outcome later (none, one) (none, two) h =
      fill-alike ttl outcome later one two
  served-alike truthy ttl outcome later (some v, one) (some v', two) h =
      let same : v ≡ v' = cc h in
      subst
        (λ x.
          (served truthy (cache_key url body) ttl outcome later (some v, one)).0
          ≡ (served truthy (cache_key url body) ttl outcome later (some x, two)).0)
        same (hit-alike truthy ttl outcome later v one two)
  served-alike truthy ttl outcome later (none, one) (some v', two) h = cc h
  served-alike truthy ttl outcome later (some v, one) (none, two) h = cc h

  -- Whatever is prefetched from a mount on, and whenever the answers arrive: every later `cachedFetch`,
  -- of whatever address and body, is answered as if nothing had been prefetched.
  pub cached_fetch-run :
      (truthy : D → Bool) (ttl : Option ℕ) (outcome : Fetched D) (now later : ℕ)
      (es : List (Event D))
      → (cached_fetch truthy
          (cache_key url body)
          ttl
          outcome
          now
          later
          (run token es (mounted cache)).cache).0
        ≡ (cached_fetch truthy (cache_key url body) ttl outcome now later cache).0
  unfolding cached_fetch
  cached_fetch-run truthy ttl outcome now later es =
      let (plain, same) = run-IsUnread es (mounted cache) (tt, refl) in
      served-alike truthy ttl outcome later _ _
        (reads-alike (cache_key url body) now (run token es (mounted cache)).cache cache same)
