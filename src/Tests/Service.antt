-- ===== src/Tests/Service.antt =====
-- The statistics, and the health of the application.
use mathlib.Core.List.{Permᴰ}
use multi_rpc.Prelude.{
  map, ◌==◌, ◌+◌, ℕ, ◌≤◌, ◌≡◌, true, false, arith, Option, none, some, List, [], ◌∷◌, ◌++◌, take,
  length, Text, lit, ok, err,
}
use multi_rpc.Backend.Health.{EndpointDetails, BackendHealth, overall}
use multi_rpc.MonitoringPage
use multi_rpc.MonitoringPage.{both, healthy_count, degraded_count, down_count, is_operational}
use multi_rpc.MonitoringPage.Reports.{reported, step-overall}
use multi_rpc.HealthCheck as HealthCheck
use multi_rpc.HealthCheck.{get_health-is_healthy}
use multi_rpc.Environment.{missing_vars, required_env_vars}
use multi_rpc.Rpc.Balancer.{Env}
use multi_rpc.Stats.{
  MethodCount, count_of, percentage_of, sum_of, with_percentages, transform_methods_breakdown,
}
use multi_rpc.Stats.Breakdown.{requests, transform-total}
use multi_rpc.Stats.Ranking.{IsDescending, transform-ranking}

-- the breakdown
abbrev methods : List (Text × ℕ)
methods =
    (lit "a", 5)
    ∷ (lit "b", 50)
    ∷ (lit "c", 20)
    ∷ (lit "d", 1)
    ∷ (lit "e", 4)
    ∷ (lit "f", 10)
    ∷ (lit "g", 10)
    ∷ []

abbrev ratio : ℕ → ℕ → ℕ
ratio total count = count

transform-total_example :
    let rows = transform_methods_breakdown ratio (some methods) in
    (sum_of count_of rows ≡ requests methods)
    × (sum_of percentage_of rows ≡ sum_of percentage_of (with_percentages ratio methods))
    × (length rows ≤ 6)
transform-total_example = transform-total ratio methods

transform-ranking_example :
    (others : List MethodCount) × Permᴰ
      (take 5 (transform_methods_breakdown ratio (some methods)) ++ others)
      (with_percentages ratio methods)
    × IsDescending (take 5 (transform_methods_breakdown ratio (some methods)) ++ others)
transform-ranking_example = transform-ranking ratio methods

-- an application with all variables, whose service and database are both away
abbrev full_env : Env
full_env name = some (lit "x")

get_health-is_healthy_example :
    (r : HealthCheck.HealthReply) × (w' : ℕ) × (HealthCheck.get_health full_env
        (λ w. w)
        (λ w. (err (lit "away"), w))
        (λ w. (err (lit "away"), w))
        5
      ≡ (ok r, w'))
    × (HealthCheck.is_healthy r ≡ (length (missing_vars full_env required_env_vars) == 0))
get_health-is_healthy_example =
    get_health-is_healthy full_env (λ w. w) (λ w. (err (lit "away"), w))
      (λ w. (err (lit "away"), w)) 5

-- the page of the monitoring, with whole rates and texts for alerts
abbrev up : EndpointDetails ℕ
up = record {
  url = lit "http://a";
  healthy = true;
  latency = 20;
  success_rate = 99;
  requests_total = 5;
  region = lit "eu";
  error = none;
}

abbrev watched : List (EndpointDetails ℕ)
watched = up ∷ record up { healthy = false; latency = 900 } ∷ []

abbrev no_mean : List ℕ → Option ℕ
no_mean rates = none

abbrev backend_health : BackendHealth
backend_health = record { status = none; uptime = none }

abbrev watching : MonitoringPage.Page ℕ Text
watching = record {
  health_checks = [];
  alerts = [];
  is_loading = true;
  auto_refresh = true;
  notifications = true;
  interval = true;
  fetching = 1;
}

step-overall_example :
    let whole = overall 0 no_mean backend_health watched in
    let q =
      MonitoringPage.step 0
        (MonitoringPage.fetch_answered (both (some (ok (map reported watched))) none) 5)
        watching in
    (healthy_count q ≡ whole.healthy_endpoints)
    × (healthy_count q + degraded_count q + down_count q ≡ whole.total_endpoints)
    × (is_operational q ≡ (whole.healthy_endpoints == whole.total_endpoints))
step-overall_example = step-overall 0 no_mean backend_health watched none 5 watching (ground arith)
