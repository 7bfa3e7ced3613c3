-- ===== src/Tests/Browser.antt =====
-- Runs of the hook for prefetching and of the provider of the socket.
use multi_rpc.Prelude.{
  ℕ, ◌≡◌, ◌≢◌, true, false, arith, Option, Text, text_eq, starts_with, none, some, List, [], ◌∷◌,
  lit, ok,
}
use multi_rpc.ApiCache.{answered, cached_fetch}
use multi_rpc.Prefetch.{Event, asked, idle_callback, fetched, high, low, run, mounted}
use multi_rpc.Prefetch.Unread.{cache_key, cached_fetch-run}
use multi_rpc.Socket.{Hook, opened, closing, connect, disconnect, step, on_open, on_close}
use multi_rpc.Provider.{
  Happening, token_answered, socket_opens, socket_closes, happens, happen, act, websocket_url,
  render, is_same, mounted as mounted_provider,
}
use multi_rpc.Provider.Closing.{happens-unconnected}

-- the keys' page is asked for twice and its data arrives
abbrev events : List (Event ℕ)
events =
    asked (lit "/dashboard/keys") high
    ∷ asked (lit "/dashboard/keys") low
    ∷ idle_callback (lit "/dashboard/keys")
    ∷ fetched (lit "/api/keys") 7 100
    ∷ []

cached_fetch-run_example :
    (cached_fetch
      (λ v. true)
      (cache_key (lit "/api/keys") (lit "{}"))
      none
      (answered (ok 8))
      200
      300
      (run (some (lit "token")) events (mounted [])).cache).0
    ≡ (cached_fetch
        (λ v. true)
        (cache_key (lit "/api/keys") (lit "{}"))
        none
        (answered (ok 8))
        200
        300
        []).0
cached_fetch-run_example =
    cached_fetch-run (some (lit "token")) (lit "/api/keys") (lit "{}") [] (λ v. true) none
      (answered (ok 8)) 200 300 events

-- the provider of the socket: a connection opens and closes, and so does the one in its place
abbrev service : Option Text
service = some (lit "http://a")

abbrev visit : List Happening
visit = token_answered (some (lit "t")) ∷ socket_opens 0 ∷ socket_closes 0 ∷ socket_closes 1 ∷ []

abbrev hook_after : Hook
hook_after = (happens service true 5 visit (mounted_provider service true 5)).hook

all_closed : (j : ℕ) → hook_after.ready j ≢ closing
unfolding happens happen act mounted_provider websocket_url render connect disconnect step is_same
    on_open on_close text_eq starts_with
all_closed j = ground arith

happens-unconnected_example :
    (hook_after.is_connected ≡ false)
    × ((i : ℕ) → hook_after.current ≡ some i → hook_after.ready i ≢ opened)
happens-unconnected_example = happens-unconnected service true 5 visit all_closed
