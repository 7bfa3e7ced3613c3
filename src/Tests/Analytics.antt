-- ===== src/Tests/Analytics.antt =====
-- The page of the analytics, for two accounts and a server whose answers are numbers.
use multi_rpc.Prelude.{
  ◌≡◌, refl, Bool, true, ℕ, Option, none, some, List, [], ◌∷◌, lit, ok, ap, get, set, arith,
  text_eq,
}
use multi_rpc.ApiCache.{fetch_cached, fill, store}
use multi_rpc.AnalyticsPage.{
  Event, Request, TimeRange, hours_24, days_7, days_30, effect_ran, selected, token_answered,
  fetch_answered, good_status, fetch_analytics_data, arrived, select, with_token, step, run,
  mounted,
}
use multi_rpc.AnalyticsPage.Accounts.{opened, visited, opened-visited}
use multi_rpc.AnalyticsPage.Current.{AreServing, run-selected}

abbrev real : ℕ → Bool
real n = true

opened-visited_example :
    let page = opened real (lit "bob") 5000 (visited real (lit "ada") 1000 42 2000 []) in
    (page.shown ≡ some 42) × (page.fetching ≡ [])
unfolding fetch_cached get
opened-visited_example =
    opened-visited real 97 98 (lit "da") (lit "ob") 42 [] 1000 2000 5000 refl refl (ground arith)
      (ground arith)

abbrev server : TimeRange → ℕ
server hours_24 = 1
server days_7 = 7
server days_30 = 30

-- a visit of seven days, and then of thirty
abbrev visits : List (Event ℕ)
visits =
    effect_ran
    ∷ token_answered 0 (ok (some (lit "ada"))) 10
    ∷ fetch_answered 0 (good_status (ok 7)) 20
    ∷ selected days_30
    ∷ token_answered 0 (ok (some (lit "ada"))) 30
    ∷ fetch_answered 0 (good_status (ok 30)) 40
    ∷ []

abbrev answer_to : Option Request → ℕ
answer_to none = 0
answer_to (some r) = server r.range

visits-AreServing : AreServing server real visits (mounted [])
unfolding step fetch_analytics_data arrived select with_token mounted text_eq fetch_cached get fill
    store set
visits-AreServing = (
  tt,
  (
    tt,
    (
      λ r e. ap (λ q. good_status (ok (answer_to q))) e,
      ((refl, refl), (tt, (λ r e. ap (λ q. good_status (ok (answer_to q))) e, tt))),
    ),
  ),
)

shown_last : (run real visits (mounted [])).shown ≡ some 30
unfolding run step fetch_analytics_data arrived select with_token mounted text_eq fetch_cached get
    fill store set
shown_last = refl

run-selected_example : 30 ≡ server (run real visits (mounted [])).time_range
unfolding run step fetch_analytics_data arrived select with_token mounted text_eq fetch_cached get
    fill store set
run-selected_example =
    run-selected server real visits [] 30 tt visits-AreServing refl refl shown_last
