-- ===== src/AnalyticsPage/Current.antt =====
-- The page against a server that answers: which range its data is of.
use multi_rpc.Prelude.{
  ℕ, zero, suc, ◌≡◌, refl, ap, sym, subst, ◌∙◌, Bool, true, false, Bool-cases, inl, inr, Option,
  none, some, List, [], ◌∷◌, ◌++◌, get_elem?, Text, text_eq, Result, ok, err, All, All-append,
}
use multi_rpc.Browser.{without_at}
use multi_rpc.ApiCache.{Cache, fill, store}
use multi_rpc.AnalyticsPage.{
  Page, Event, Response, Request, TimeRange, good_status, effect_ran, selected, clicked_refresh,
  token_answered, fetch_answered, swept, key_of, range_text, cache_ttl, fetch_analytics_data,
  finish, go_fetching, select, click_refresh, arrived, settle, fetch_ends, looked_up, with_token,
  go_on, token_ends, step, run, mounted,
}
use multi_rpc.AnalyticsPage.Caching.{
  Agrees, store-Agrees, clear_expired-Agrees, IsRead, fetch_cached-IsRead,
}

abbrev IsAt : TimeRange → List Request → Type 0
IsAt range rs = All (λ r. r.range ≡ range) rs

IsAt-without_at :
    (range : TimeRange) (i : ℕ) (rs : List Request) → IsAt range rs → IsAt range (without_at i rs)
IsAt-without_at range i [] h = tt
IsAt-without_at range zero (r ∷ rs) h = h.1
IsAt-without_at range (suc i) (r ∷ rs) h = (h.0, IsAt-without_at range i rs h.1)

IsAt-get_elem? :
    (range : TimeRange) (i : ℕ) (rs : List Request) (r : Request)
    → IsAt range rs
    → get_elem? rs i ≡ some r
    → r.range ≡ range
IsAt-get_elem? range i [] r h e = cc e
IsAt-get_elem? range zero (q ∷ rs) r h e =
    let same : q ≡ r = cc e in subst (λ x. x.range ≡ range) same h.0
IsAt-get_elem? range (suc i) (q ∷ rs) r h e = IsAt-get_elem? range i rs r h.1 e

never_empty : (rs : List Request) (r : Request) {C : Type 0} → rs ++ r ∷ [] ≡ [] → C
never_empty [] r h = cc h
never_empty (q ∷ rs) r h = cc h

module _ {A : Type 0} (server : TimeRange → A) where
  -- the token that is not missing
  abbrev pub IsToken : Result (Option Text) → Type 0
  IsToken (ok (some (c ∷ token))) = Unit
  IsToken _ = false ≡ true

  -- Tokens are there, the server answers each fetch for its range, and another range is selected only
  -- while no request is open.
  abbrev pub IsServing : Event A → Page A → Type 0
  IsServing (selected range) p = (p.waiting ≡ []) × (p.fetching ≡ [])
  IsServing (token_answered i token now) p = IsToken token
  IsServing (fetch_answered i response now) p =
      (r : Request) → get_elem? p.fetching i ≡ some r → response ≡ good_status (ok (server r.range))
  IsServing _ p = Unit

  record IsCurrent (p : Page A) : Type 0 where
    pub waiting : IsAt p.time_range p.waiting
    pub fetching : IsAt p.time_range p.fetching
    pub cached : Agrees server p.cache
    pub shown :
        p.waiting ≡ []
        → p.fetching ≡ []
        → (value : A) → p.shown ≡ some value
        → value ≡ server p.time_range

  fetch_analytics_data-IsCurrent :
      (use_cache : Bool) (p : Page A)
      → IsAt p.time_range p.waiting
      → IsAt p.time_range p.fetching
      → Agrees server p.cache
      → IsCurrent (fetch_analytics_data use_cache p)
  unfolding fetch_analytics_data
  fetch_analytics_data-IsCurrent use_cache p w f c = record {
    waiting = All-append _ p.waiting _ w (refl, tt);
    fetching = f;
    cached = c;
    shown = λ e _ v _. never_empty p.waiting _ e;
  }

  -- a value of the range shown
  finish-IsCurrent :
      (value : A) (p : Page A)
      → IsAt p.time_range p.waiting
      → IsAt p.time_range p.fetching
      → Agrees server p.cache
      → value ≡ server p.time_range
      → IsCurrent (finish (ok value) p)
  finish-IsCurrent value p w f c e = record {
    waiting = w;
    fetching = f;
    cached = c;
    shown = λ _ _ v h. let same : value ≡ v = cc h in sym same ∙ e;
  }

  go_fetching-IsCurrent :
      (r : Request) (p : Page A)
      → IsAt p.time_range p.waiting
      → IsAt p.time_range p.fetching
      → r.range ≡ p.time_range
      → Agrees server p.cache
      → IsCurrent (go_fetching r p)
  go_fetching-IsCurrent r p w f e c = record {
    waiting = w;
    fetching = All-append _ p.fetching _ f (e, tt);
    cached = c;
    shown = λ _ h v _. never_empty p.fetching _ h;
  }

  select-IsCurrent :
      (range : TimeRange) (p : Page A)
      → p.waiting ≡ []
      → p.fetching ≡ []
      → IsCurrent p
      → IsCurrent (select range p)
  unfolding select
  select-IsCurrent range p no_waiting no_fetching h =
      elim (Bool-cases (text_eq (range_text range) (range_text p.time_range))) [
        | inl same ↦ rw same h
        | inr other ↦ rw other (
            fetch_analytics_data-IsCurrent true (record p { time_range = range }) (rw no_waiting tt)
              (rw no_fetching tt) h.cached)
      ]

  click_refresh-IsCurrent : (p : Page A) → IsCurrent p → IsCurrent (click_refresh p)
  unfolding click_refresh
  click_refresh-IsCurrent p h =
      fetch_analytics_data-IsCurrent false (record p { refreshing = true }) h.waiting h.fetching
        h.cached

  module _ (truthy : A → Bool) where
    looked_up-IsCurrent :
        (r : Request) (p : Page A) (found : Option A × Cache A)
        → IsRead server r.range found
        → r.range ≡ p.time_range
        → IsAt p.time_range p.waiting
        → IsAt p.time_range p.fetching
        → IsCurrent (looked_up truthy r p found)
    looked_up-IsCurrent r p (none, cache) h e w f =
        go_fetching-IsCurrent r (record p { cache = cache }) w f e h
    looked_up-IsCurrent r p (some value, cache) (h, own) e w f = elim (Bool-cases (truthy value)) [
      | inl real ↦
          rw real (finish-IsCurrent value (record p { cache = cache }) w f h (own ∙ ap server e))
      | inr falsy ↦ rw falsy (go_fetching-IsCurrent r (record p { cache = cache }) w f e h)
    ]

    with_token-IsCurrent :
        (r : Request) (now : ℕ) (p : Page A)
        → Agrees server p.cache
        → r.range ≡ p.time_range
        → IsAt p.time_range p.waiting
        → IsAt p.time_range p.fetching
        → IsCurrent (with_token truthy r now p)
    unfolding with_token
    with_token-IsCurrent r now p c e w f = elim (Bool-cases r.use_cache) [
      | inl cached ↦
          simp (cached)
            (looked_up-IsCurrent r p _ (fetch_cached-IsRead server r.range now p.cache c) e w f)
      | inr direct ↦ simp (direct) (go_fetching-IsCurrent r p w f e c)
    ]

    go_on-IsCurrent :
        (r : Request) (token : Result (Option Text)) (now : ℕ) (p : Page A)
        → IsToken token
        → Agrees server p.cache
        → r.range ≡ p.time_range
        → IsAt p.time_range p.waiting
        → IsAt p.time_range p.fetching
        → IsCurrent (go_on truthy r token now p)
    go_on-IsCurrent r (err m) now p h = cc h
    go_on-IsCurrent r (ok none) now p h = cc h
    go_on-IsCurrent r (ok (some [])) now p h = cc h
    go_on-IsCurrent r (ok (some (c ∷ token))) now p h = with_token-IsCurrent r now p

    token_ends-IsCurrent :
        (i : ℕ) (token : Result (Option Text)) (now : ℕ) (p : Page A) (found : Option Request)
        → get_elem? p.waiting i ≡ found
        → IsToken token
        → IsCurrent p
        → IsCurrent (token_ends truthy i token now p found)
    token_ends-IsCurrent i token now p none e t h = h
    token_ends-IsCurrent i token now p (some r) e t h =
        go_on-IsCurrent r token now (record p { waiting = without_at i p.waiting }) t h.cached
          (IsAt-get_elem? p.time_range i p.waiting r h.waiting e)
          (IsAt-without_at p.time_range i p.waiting h.waiting) h.fetching

    arrived-IsCurrent :
        (r : Request) (now : ℕ) (p : Page A)
        → Agrees server p.cache
        → r.range ≡ p.time_range
        → IsAt p.time_range p.waiting
        → IsAt p.time_range p.fetching
        → IsCurrent (settle (arrived r (good_status (ok (server r.range))) now p.cache) p)
    unfolding arrived fill
    arrived-IsCurrent r now p c e w f = elim (Bool-cases r.use_cache) [
      | inl cached ↦ simp (cached) (
          finish-IsCurrent (server r.range)
            (record p {
              cache = store (key_of r.range) (server r.range) (some cache_ttl) now p.cache;
            })
            w f (store-Agrees server r.range (some cache_ttl) now p.cache c) (ap server e))
      | inr direct ↦ simp (direct) (finish-IsCurrent (server r.range) p w f c (ap server e))
    ]

    fetch_ends-IsCurrent :
        (i : ℕ) (response : Response A) (now : ℕ) (p : Page A) (found : Option Request)
        → get_elem? p.fetching i ≡ found
        → IsServing (fetch_answered i response now) p
        → IsCurrent p
        → IsCurrent (fetch_ends i response now p found)
    fetch_ends-IsCurrent i response now p none e s h = h
    fetch_ends-IsCurrent i response now p (some r) e s h = rw (s r e) (
        arrived-IsCurrent r now (record p { fetching = without_at i p.fetching }) h.cached
          (IsAt-get_elem? p.time_range i p.fetching r h.fetching e) h.waiting
          (IsAt-without_at p.time_range i p.fetching h.fetching))

    step-IsCurrent :
        (e : Event A) (p : Page A) → IsServing e p → IsCurrent p → IsCurrent (step truthy e p)
    unfolding step
    step-IsCurrent effect_ran p s h =
        fetch_analytics_data-IsCurrent true p h.waiting h.fetching h.cached
    step-IsCurrent (selected range) p s h = elim (Bool-cases p.loading) [
      | inl hidden ↦ simp (hidden) h
      | inr drawn ↦ simp (drawn) (select-IsCurrent range p s.0 s.1 h)
    ]
    step-IsCurrent clicked_refresh p s h = elim (Bool-cases p.loading) [
      | inl hidden ↦ simp (hidden) h
      | inr drawn ↦ elim (Bool-cases p.refreshing) [
        | inl busy ↦ simp (drawn, busy) h
        | inr free ↦ simp (drawn, free) (click_refresh-IsCurrent p h)
      ]
    ]
    step-IsCurrent (token_answered i token now) p s h =
        token_ends-IsCurrent i token now p _ refl s h
    step-IsCurrent (fetch_answered i response now) p s h =
        fetch_ends-IsCurrent i response now p _ refl s h
    step-IsCurrent (swept now) p s h = record {
      waiting = h.waiting;
      fetching = h.fetching;
      cached = clear_expired-Agrees server now p.cache h.cached;
      shown = h.shown;
    }

    abbrev pub AreServing : List (Event A) → Page A → Type 0
    AreServing [] p = Unit
    AreServing (e ∷ es) p = IsServing e p × AreServing es (step truthy e p)

    run-IsCurrent :
        (es : List (Event A)) (p : Page A)
        → AreServing es p
        → IsCurrent p
        → IsCurrent (run truthy es p)
    unfolding run
    run-IsCurrent [] p s h = h
    run-IsCurrent (e ∷ es) p (s, ss) h =
        run-IsCurrent es (step truthy e p) ss (step-IsCurrent e p s h)

    mounted-IsCurrent : (cache : Cache A) → Agrees server cache → IsCurrent (mounted cache)
    unfolding mounted
    mounted-IsCurrent cache h = record {
      waiting = tt;
      fetching = tt;
      cached = h;
      shown = λ _ _ v e. cc e;
    }

    -- While each fetch is answered by the server for its range, each token is there, and another range is
    -- selected only when no request is open: from a mount on a cache that agrees with the server, with
    -- whatever hits, refreshes, sweeps and order of the answers, a page with no request open shows
    -- nothing or the server's answer for the range that is selected.
    pub run-selected :
        (es : List (Event A)) (cache : Cache A) (value : A)
        → Agrees server cache
        → AreServing es (mounted cache)
        → let p = run truthy es (mounted cache) in
          p.waiting ≡ [] → p.fetching ≡ [] → p.shown ≡ some value → value ≡ server p.time_range
    run-selected es cache value agrees serving no_waiting no_fetching shown_ =
        (run-IsCurrent es (mounted cache) serving (mounted-IsCurrent cache agrees)).shown no_waiting
          no_fetching value shown_
