-- ===== src/Backend/Health.antt =====
-- web-ui/src/app/api/rpc/health/route.ts: the health of the endpoints. What the service's JSON holds is
-- `BackendHealth` and `BackendEndpoint`, with whole milliseconds and counts; a rate with decimals is of an
-- abstract type, and `mean_rate` is the mean of rates to one decimal.
use multi_rpc.Prelude.{
  ℕ, zero, suc, ◌+◌, ◌*◌, ◌/◌, Bool, ◌&&◌, Option, none, some, List, [], ◌∷◌, map, filter, length,
  Text, lit, text_or, text_eq, Result, ok, err, Act, ◌>>=◌, return, throw, try_catch, if◌then◌else◌,
}
use multi_rpc.Limiter.Usage.{number_or_zero}
use multi_rpc.Middleware.{Privy}
use multi_rpc.Backend.{guarded}

pub record BackendHealth : Type 0 where
  pub status : Option Text
  pub uptime : Option ℕ

pub record BackendEndpoint (Rate : Type 0) : Type 0 where
  pub url : Text
  pub status : Text
  pub avg_response_time : Option ℕ
  pub success_rate : Option Rate
  pub total_requests : Option ℕ
  pub region : Option Text
  pub last_error : Option Text

pub record EndpointDetails (Rate : Type 0) : Type 0 where
  pub url : Text
  pub healthy : Bool
  pub latency : ℕ
  pub success_rate : Rate
  pub requests_total : ℕ
  pub region : Text
  pub error : Option Text

pub record OverallHealth (Rate : Type 0) : Type 0 where
  pub healthy_endpoints : ℕ
  pub total_endpoints : ℕ
  -- the mean of no latencies is no number, `null` in the answer
  pub average_latency : Option ℕ
  pub total_requests : ℕ
  pub success_rate : Option Rate
  pub system_status : Text
  pub uptime : ℕ

-- a response whose `json()` gives an `A`
pub record Answer (A : Type 0) : Type 0 where
  pub is_ok : Bool
  pub json : Result A

pub data HealthReply (Rate : Type 0) : Type 0 where
  report : List (EndpointDetails Rate) → OverallHealth Rate → HealthReply Rate
  -- the fixed data of the route, when the service is away, and when anything else throws
  mock_data : HealthReply Rate
  mock_data_on_error : HealthReply Rate
  refused : (status : ℕ) (error : Text) → HealthReply Rate

-- `Math.round(sum / n)`, where half is rounded up
unfoldable pub round_mean : ℕ → ℕ → Option ℕ
round_mean sum zero = none
round_mean sum (suc n) = some ((2 * sum + suc n) / (2 * suc n))

abbrev pub sum_of {ℓ} : {A : Type ℓ} → (A → ℕ) → List A → ℕ
sum_of f [] = 0
sum_of f (x ∷ xs) = f x + sum_of f xs

module _ {Rate : Type 0} (zero_rate : Rate) (mean_rate : List Rate → Option Rate) where
  abbrev rate_or_zero : Option Rate → Rate
  rate_or_zero none = zero_rate
  rate_or_zero (some r) = r

  unfoldable pub details : BackendEndpoint Rate → EndpointDetails Rate
  details ep = record {
    url = ep.url;
    healthy = text_eq ep.status (lit "Healthy");
    latency = number_or_zero ep.avg_response_time;
    success_rate = rate_or_zero ep.success_rate;
    requests_total = number_or_zero ep.total_requests;
    region = text_or ep.region (lit "Unknown");
    error = if text_eq ep.status (lit "Unhealthy") then ep.last_error else none;
  }

  unfoldable pub overall : BackendHealth → List (EndpointDetails Rate) → OverallHealth Rate
  overall health eps = record {
    healthy_endpoints = length (filter (λ ep. ep.healthy) eps);
    total_endpoints = length eps;
    average_latency = round_mean (sum_of (λ ep. ep.latency) eps) (length eps);
    total_requests = sum_of (λ ep. ep.requests_total) eps;
    success_rate = mean_rate (map (λ ep. ep.success_rate) eps);
    system_status = text_or health.status (lit "healthy");
    uptime = number_or_zero health.uptime;
  }

  unfoldable pub report_of : BackendHealth → List (BackendEndpoint Rate) → HealthReply Rate
  report_of health endpoints = let eps = map details endpoints in report eps (overall health eps)

  -- `fetch_health` and `fetch_endpoints` are the two calls of the service, with what their `json()` gives
  module _ {World : Type 0} (privy : Option Privy) (fetch_health : Act World (Answer BackendHealth))
      (fetch_endpoints : Act World (Answer (List (BackendEndpoint Rate)))) where
    abbrev awaited : {A : Type 0} → Result A → Act World A
    awaited (ok a) = return a
    awaited (err e) = throw e

    abbrev combined :
        Answer BackendHealth → Answer (List (BackendEndpoint Rate)) → Act World (HealthReply Rate)
    combined h e =
        if h.is_ok && e.is_ok
        then (do
          health ← awaited h.json
          endpoints ← awaited e.json
          return (report_of health endpoints))
        else return mock_data

    unfoldable pub read_health : Act World (HealthReply Rate)
    read_health =
        try_catch (do h ← fetch_health; e ← fetch_endpoints; combined h e) (λ e. return mock_data)

    -- `GET`
    unfoldable pub get_rpc_health : Option Text → Act World (HealthReply Rate)
    get_rpc_health authorization =
        try_catch (guarded refused privy read_health authorization) (λ e. return mock_data_on_error)
