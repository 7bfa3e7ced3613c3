-- ===== src/AnalyticsPage/Refreshing.antt =====
-- What a refresh leaves.
use multi_rpc.Prelude.{ℕ, ◌≡◌, refl, ap, Bool, true, false, some, [], ◌∷◌, Text, ok}
use multi_rpc.ApiCache.{fetch_cached}
use multi_rpc.AnalyticsPage.{
  Page, days_7, good_status, clicked_refresh, token_answered, fetch_answered, key_of,
  fetch_analytics_data, click_refresh, arrived, with_token, step, run, mounted,
}
use multi_rpc.AnalyticsPage.Accounts.{opened, opened-hit}

module _ {A : Type 0} (truthy : A → Bool) where
  -- a refresh from the click to its answer
  abbrev pub refreshed : (token : Text) → A → ℕ → Page A → Page A
  refreshed token value now = run truthy (
      clicked_refresh
      ∷ token_answered 0 (ok (some token)) now
      ∷ fetch_answered 0 (good_status (ok value)) now
      ∷ [])

  -- If a page with no request on its way is refreshed, it shows the new value; but the next visit of the
  -- page shows the value that the cache had before, while that one lives.
  pub opened-refreshed :
      (c d : ℕ) (token other : Text) (old new : A) (p : Page A) (now again : ℕ)
      → p.loading ≡ false
      → p.refreshing ≡ false
      → p.waiting ≡ []
      → p.fetching ≡ []
      → fetch_cached (key_of days_7) again p.cache ≡ (some old, p.cache)
      → truthy old ≡ true
      → let after = refreshed (c ∷ token) new now p in
        (after.shown ≡ some new) × ((opened truthy (d ∷ other) again after.cache).shown ≡ some old)
  unfolding run step fetch_analytics_data click_refresh with_token arrived mounted
  opened-refreshed c d token other old new p now again shown_ idle no_waiting no_fetching hit real =
      simp (shown_, idle, no_waiting, no_fetching)
        (refl, ap (λ q. q.shown) (opened-hit truthy d other again p.cache old hit real))
