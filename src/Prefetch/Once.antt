-- ===== src/Prefetch/Once.antt =====
-- No route is prefetched twice by the queue.
use multi_rpc.Prelude.{
  ℕ, suc, ◌+◌, ◌≤◌, ◌≡◌, refl, true, false, ◌||◌, find, All, starts_with, lit, none, some, Option,
  List, [], ◌∷◌, ◌++◌, Text, text_eq, text_eq_iff, arith, Bool-cases, inl, inr, if◌then◌else◌,
}
use multi_rpc.ApiCache.{Cache}
use multi_rpc.Prefetch.{
  Prefetcher, Query, arrive, Event, Priority, high, low, schedule, fetch_for,
  prefetch_dashboard_data, asked, timer, idle_callback, visible, fetched, among, removed,
  do_prefetch, prefetch_route, step, run, mounted,
}

abbrev pub occurrences : Text → List Text → ℕ
occurrences t [] = 0
occurrences t (x ∷ xs) = if text_eq t x then suc (occurrences t xs) else occurrences t xs

-- the events without the links that become visible, which have a hook of their own
abbrev pub IsQueued : {D : Type 0} → Event D → Type 0
IsQueued (asked href priority) = Unit
IsQueued (timer href) = Unit
IsQueued (idle_callback href) = Unit
IsQueued (visible href) = ⊥
IsQueued (fetched url value now) = Unit

occurrences-append :
    (t : Text) (xs ys : List Text) → occurrences t (xs ++ ys) ≡ occurrences t xs + occurrences t ys
occurrences-append t [] ys = omega arith
occurrences-append t (x ∷ xs) ys = ground (arith, occurrences-append t xs ys)

occurrences-removed :
    (t h : Text) (xs : List Text)
    → among h xs ≡ true
    → occurrences t (removed h xs) + occurrences t (h ∷ []) ≡ occurrences t xs
occurrences-removed t h [] k = cc k
occurrences-removed t h (x ∷ xs) k = elim (Bool-cases (text_eq h x)) [
  | inl y ↦ let same : h ≡ x = (text_eq_iff h x).0 y in rw (y, same) (ground arith)
  | inr n ↦ rw n (ground (arith, occurrences-removed t h xs (rw n at k)))
]

among-append : (t h : Text) (xs : List Text) → among t (xs ++ h ∷ []) ≡ (among t xs || text_eq t h)
among-append t h [] = ground arith
among-append t h (x ∷ xs) = ground (arith, among-append t h xs)

-- Whatever is due or done for a route counts once, and only for a route in the queue.
abbrev pub IsOnce : {D : Type 0} → Prefetcher D → Type 0
IsOnce p =
    (t : Text)
    → occurrences t p.waiting + occurrences t p.idle + occurrences t p.routes
      ≤ (if among t p.queue then 1 else 0)

module _ {D : Type 0} (token : Option Text) where
  -- only the fetches of a prefetch depend on the token
  do_prefetch-parts :
      (href : Text) (p : Prefetcher D)
      → ((do_prefetch token href p).routes ≡ p.routes ++ href ∷ [])
        × ((do_prefetch token href p).idle ≡ p.idle)
        × ((do_prefetch token href p).waiting ≡ p.waiting)
        × ((do_prefetch token href p).queue ≡ p.queue)
  unfolding do_prefetch prefetch_dashboard_data
  do_prefetch-parts href p = elim (Bool-cases (starts_with href (lit "/dashboard"))) [
    | inl y ↦ rw y (go token)
    | inr n ↦ rw n (refl, refl, refl, refl)
  ]
    where
      go :
          (token : Option Text)
          → let p' = fetch_for token href (record p { routes = p.routes ++ href ∷ [] }) in
            (p'.routes ≡ p.routes ++ href ∷ [])
            × (p'.idle ≡ p.idle)
            × (p'.waiting ≡ p.waiting)
            × (p'.queue ≡ p.queue)
      go none = (refl, refl, refl, refl)
      go (some []) = (refl, refl, refl, refl)
      go (some (c ∷ s)) = (refl, refl, refl, refl)

  prefetch_route-IsOnce :
      (href : Text) (priority : Priority) (p : Prefetcher D)
      → IsOnce p
      → IsOnce (prefetch_route href priority p)
  unfolding prefetch_route
  prefetch_route-IsOnce href priority p h t = elim (Bool-cases (among href p.queue)) [
    | inl y ↦ rw y (h t)
    | inr n ↦ rw n (go n priority)
  ]
    where
      go :
          among href p.queue ≡ false
          → (priority : Priority)
          → let p' = schedule priority href (record p { queue = p.queue ++ href ∷ [] }) in
            occurrences t p'.waiting + occurrences t p'.idle + occurrences t p'.routes
            ≤ (if among t p'.queue then 1 else 0)
      go n high = elim (Bool-cases (text_eq t href)) [
        | inl y ↦
            let same : t ≡ href = (text_eq_iff t href).0 y in
            let away : among t p.queue ≡ false = rw same n in
            ground (
              arith,
              h t,
              away,
              y,
              occurrences-append t p.idle (href ∷ []),
              among-append t href p.queue,
            )
        | inr m ↦
            ground
              (arith, h t, m, occurrences-append t p.idle (href ∷ []), among-append t href p.queue)
      ]
      go n low = elim (Bool-cases (text_eq t href)) [
        | inl y ↦
            let same : t ≡ href = (text_eq_iff t href).0 y in
            let away : among t p.queue ≡ false = rw same n in
            ground (
              arith,
              h t,
              away,
              y,
              occurrences-append t p.waiting (href ∷ []),
              among-append t href p.queue,
            )
        | inr m ↦
            ground (
              arith,
              h t,
              m,
              occurrences-append t p.waiting (href ∷ []),
              among-append t href p.queue,
            )
      ]

  step-IsOnce : (e : Event D) (p : Prefetcher D) → IsQueued e → IsOnce p → IsOnce (step token e p)
  unfolding step
  step-IsOnce (asked href priority) p q h t = prefetch_route-IsOnce href priority p h t
  step-IsOnce (timer href) p q h t = elim (Bool-cases (among href p.waiting)) [
    | inl y ↦ rw y (
        ground (
          arith,
          h t,
          occurrences-append t p.idle (href ∷ []),
          occurrences-removed t href p.waiting y,
        ))
    | inr n ↦ rw n (h t)
  ]
  step-IsOnce (idle_callback href) p q h t = elim (Bool-cases (among href p.idle)) [
    | inl y ↦
        let (routes, idle, waiting, queue) =
          do_prefetch-parts href (record p { idle = removed href p.idle }) in
        rw (y, routes, idle, waiting, queue)
          (ground (
            arith,
            h t,
            occurrences-append t p.routes (href ∷ []),
            occurrences-removed t href p.idle y,
          ))
    | inr n ↦ rw n (h t)
  ]
  step-IsOnce (visible href) p q h t = elim q [ ]
  step-IsOnce (fetched url value now) p q h t = arrived (find (λ q. text_eq url q.url) p.fetching)
    where
      arrived :
          (found : Option Query)
          → let p' = arrive value now p found in
            occurrences t p'.waiting + occurrences t p'.idle + occurrences t p'.routes
            ≤ (if among t p'.queue then 1 else 0)
      arrived none = h t
      arrived (some query) = h t

  run-IsOnce :
      (es : List (Event D)) (p : Prefetcher D)
      → All IsQueued es
      → IsOnce p
      → IsOnce (run token es p)
  unfolding run
  run-IsOnce [] p q h = h
  run-IsOnce (e ∷ es) p q h = run-IsOnce es (step token e p) q.1 (step-IsOnce e p q.0 h)

  -- However often a route is asked for, at whatever priority, and in whatever order the timers, the idle
  -- callbacks and the answers come, the hook's queue gives the route to the router at most once.
  pub run-routes :
      (cache : Cache D) (es : List (Event D)) (href : Text)
      → All IsQueued es
      → occurrences href (run token es (mounted cache)).routes ≤ 1
  run-routes cache es href q =
      ground (arith, run-IsOnce es (mounted cache) q (λ t. omega arith) href)
