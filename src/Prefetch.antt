-- ===== src/Prefetch.antt =====
-- web-ui/src/hooks/use-prefetch.ts: prefetching of routes and of their data into the cache of
-- web-ui/src/lib/api-cache.ts. The browser's timers and idle callbacks run in any order and so do the
-- fetches come back; the text of a body that is stored is of an abstract type.
pub mod Once
pub mod Unread
use multi_rpc.Prelude.{
  ℕ, Bool, true, false, Option, none, some, List, [], ◌∷◌, ◌++◌, any, find, Text, lit, text_eq,
  starts_with, if◌then◌else◌,
}
use multi_rpc.ApiCache.{Cache, store}

-- what is fetched for a route, and for how long the answer is kept
pub record Query : Type 0 where
  pub url : Text
  pub ttl : ℕ

-- the queue of the hook, the timers and the idle callbacks that are due, the routes that the router
-- was given, the fetches on their way, and the cache
pub record Prefetcher (D : Type 0) : Type 0 where
  pub queue : List Text
  pub waiting : List Text
  pub idle : List Text
  pub routes : List Text
  pub fetching : List Query
  pub cache : Cache D

pub data Priority : Type 0 where
  high : Priority
  low : Priority

-- `prefetchDashboardData`: the query of a route
unfoldable pub query_of : Text → Option Query
query_of route =
    if text_eq route (lit "/dashboard")
    then some (record { url = lit "/api/user/dashboard"; ttl = 300000 })
    else if text_eq route (lit "/dashboard/keys")
    then some (record { url = lit "/api/keys"; ttl = 60000 })
    else if text_eq route (lit "/dashboard/analytics")
    then some (record { url = lit "/api/rpc/analytics?range=7d"; ttl = 300000 })
    else none

abbrev pub among : Text → List Text → Bool
among t xs = any (text_eq t) xs

-- a timer or a callback that has run is no longer due
abbrev pub removed : Text → List Text → List Text
removed t [] = []
removed t (x ∷ xs) = if text_eq t x then xs else x ∷ removed t xs

abbrev pub without : Text → List Query → List Query
without url [] = []
without url (q ∷ qs) = if text_eq url q.url then qs else q ∷ without url qs

abbrev pub queries : Option Query → List Query
queries none = []
queries (some q) = q ∷ []

-- what happens next: a route is asked for, a timer or an idle callback is due, a link becomes visible,
-- or the answer to a fetch arrives
pub data Event (D : Type 0) : Type 0 where
  asked : (href : Text) (priority : Priority) → Event D
  timer : (href : Text) → Event D
  idle_callback : (href : Text) → Event D
  visible : (href : Text) → Event D
  fetched : (url : Text) (value : D) (now : ℕ) → Event D

module _ {D : Type 0} where
  abbrev pub fetch_for : Option Text → Text → Prefetcher D → Prefetcher D
  fetch_for none route p = p
  fetch_for (some []) route p = p
  fetch_for (some (c ∷ s)) route p = record p { fetching = p.fetching ++ queries (query_of route) }

  -- `prefetchDashboardData(route)`, with the token of the local storage
  unfoldable pub prefetch_dashboard_data : Option Text → Text → Prefetcher D → Prefetcher D
  prefetch_dashboard_data token route p = fetch_for token route p

  -- `doPrefetch`
  unfoldable pub do_prefetch : Option Text → Text → Prefetcher D → Prefetcher D
  do_prefetch token href p =
      let p' = record p { routes = p.routes ++ href ∷ [] } in
      if starts_with href (lit "/dashboard") then prefetch_dashboard_data token href p' else p'

  abbrev pub schedule : Priority → Text → Prefetcher D → Prefetcher D
  schedule high href p = record p { idle = p.idle ++ href ∷ [] }
  schedule low href p = record p { waiting = p.waiting ++ href ∷ [] }

  -- `prefetchRoute(href, options)`
  unfoldable pub prefetch_route : Text → Priority → Prefetcher D → Prefetcher D
  prefetch_route href priority p =
      if among href p.queue
      then p
      else schedule priority href (record p { queue = p.queue ++ href ∷ [] })

  abbrev pub arrive : D → ℕ → Prefetcher D → Option Query → Prefetcher D
  arrive value now p none = p
  arrive value now p (some q) = record p {
    fetching = without q.url p.fetching;
    cache = store q.url value (some q.ttl) now p.cache;
  }

  -- An event that is not due leaves the state. A callback of a link that became visible prefetches
  -- without the queue.
  unfoldable pub step : Option Text → Event D → Prefetcher D → Prefetcher D
  step token (asked href priority) p = prefetch_route href priority p
  step token (timer href) p =
      if among href p.waiting
      then record p { waiting = removed href p.waiting; idle = p.idle ++ href ∷ [] }
      else p
  step token (idle_callback href) p =
      if among href p.idle
      then do_prefetch token href (record p { idle = removed href p.idle })
      else p
  step token (visible href) p =
      if starts_with href (lit "/dashboard") then do_prefetch token href p else p
  step token (fetched url value now) p =
      arrive value now p (find (λ q. text_eq url q.url) p.fetching)

  unfoldable pub run : Option Text → List (Event D) → Prefetcher D → Prefetcher D
  run token [] p = p
  run token (e ∷ es) p = run token es (step token e p)

  abbrev pub mounted : Cache D → Prefetcher D
  mounted cache = record {
    queue = [];
    waiting = [];
    idle = [];
    routes = [];
    fetching = [];
    cache = cache;
  }
