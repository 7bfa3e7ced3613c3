-- ===== src/MonitoringPage/Reports.antt =====
-- The page against the route of the health.
use multi_rpc.Prelude.{
  ℕ, ◌+◌, ◌==◌, ◌<◌, ◌≡◌, refl, Bool, true, false, Bool-cases, inl, inr, Option, none, some, List,
  [], ◌∷◌, map, filter, length, lit, text_eq, Result, ok, err, ltb, if◌then◌else◌, arith,
}
use multi_rpc.Backend.Health.{EndpointDetails, BackendHealth, BackendEndpoint, details, overall}
use multi_rpc.Limiter.Usage.{number_or_zero}
use multi_rpc.MonitoringPage.{
  Page, Status, healthy, degraded, down, HealthCheck, Reported, both, fetch_answered, status_of,
  is_healthy, is_degraded, is_down, healthy_count, degraded_count, down_count, is_operational,
  check_of, read_alerts, finish, step,
}

-- an endpoint of the route's report, as the page reads it; the report has no `error_count`
abbrev pub reported : {Rate : Type 0} → EndpointDetails Rate → Reported Rate
reported ep = record {
  url = ep.url;
  healthy = ep.healthy;
  latency = some ep.latency;
  success_rate = some ep.success_rate;
  error_count = none;
}

status_of-is_healthy : (b : Bool) (latency : Option ℕ) → is_healthy (status_of b latency) ≡ b
unfolding status_of
status_of-is_healthy true latency = refl
status_of-is_healthy false latency = ground arith

module _ {Rate : Type 0} (zero_rate : Rate) (now : ℕ) where
  abbrev checks : List (EndpointDetails Rate) → List (HealthCheck Rate)
  checks eps = map (check_of zero_rate now) (map reported eps)

  healthy-checks :
      (eps : List (EndpointDetails Rate))
      → length (filter (λ h. is_healthy h.status) (checks eps))
        ≡ length (filter (λ ep. ep.healthy) eps)
  unfolding check_of
  healthy-checks [] = refl
  healthy-checks (ep ∷ eps) =
      ground (arith, status_of-is_healthy ep.healthy (some ep.latency), healthy-checks eps)

  length-checks : (eps : List (EndpointDetails Rate)) → length (checks eps) ≡ length eps
  length-checks [] = refl
  length-checks (ep ∷ eps) = omega (arith, length-checks eps)

-- A status is one of the three.
Status-sum :
    {Rate : Type 0} (cs : List (HealthCheck Rate))
    → length (filter (λ h. is_healthy h.status) cs)
        + length (filter (λ h. is_degraded h.status) cs)
        + length (filter (λ h. is_down h.status) cs)
      ≡ length cs
Status-sum [] = omega arith
Status-sum (c ∷ cs) = by_status c.status (Status-sum cs)
  where
    by_status :
        (s : Status)
        → length (filter (λ h. is_healthy h.status) cs)
            + length (filter (λ h. is_degraded h.status) cs)
            + length (filter (λ h. is_down h.status) cs)
          ≡ length cs
        → length (
              if is_healthy s
              then c ∷ filter (λ h. is_healthy h.status) cs
              else filter (λ h. is_healthy h.status) cs)
            + length (
                if is_degraded s
                then c ∷ filter (λ h. is_degraded h.status) cs
                else filter (λ h. is_degraded h.status) cs)
            + length (
                if is_down s
                then c ∷ filter (λ h. is_down h.status) cs
                else filter (λ h. is_down h.status) cs)
          ≡ length (c ∷ cs)
    by_status healthy h = omega (arith, h)
    by_status degraded h = omega (arith, h)
    by_status down h = omega (arith, h)

module _ {Rate Alert : Type 0} (zero_rate : Rate) (mean_rate : List Rate → Option Rate) where
  read_alerts-keeps :
      (alerts : Option (Result (Option (List Alert)))) (p : Page Rate Alert)
      → (read_alerts alerts p).health_checks ≡ p.health_checks
  read_alerts-keeps none p = refl
  read_alerts-keeps (some (err m)) p = refl
  read_alerts-keeps (some (ok a)) p = refl

  shown-checks :
      (eps : List (EndpointDetails Rate)) (alerts : Option (Result (Option (List Alert)))) (now : ℕ)
      (p : Page Rate Alert)
      → 0 < p.fetching
      → (step zero_rate
          (fetch_answered (both (some (ok (map reported eps))) alerts) now)
          p).health_checks
        ≡ checks zero_rate now eps
  unfolding step finish
  shown-checks eps alerts now p due = elim (Bool-cases (p.fetching == 0)) [
    | inl none_left ↦ absurd (ground arith)
    | inr some_left ↦ simp (some_left) (read_alerts-keeps alerts _)
  ]

  -- When the answer to a fetch of the page is the route's report, whatever comes of the alerts: the page
  -- counts as many healthy endpoints as the report, its three counts add up to the report's endpoints,
  -- and the system is operational where the two figures of the report agree.
  pub step-overall :
      (health : BackendHealth) (eps : List (EndpointDetails Rate))
      (alerts : Option (Result (Option (List Alert)))) (now : ℕ) (p : Page Rate Alert)
      → 0 < p.fetching
      → let whole = overall zero_rate mean_rate health eps in
        let q =
          step zero_rate (fetch_answered (both (some (ok (map reported eps))) alerts) now) p in
        (healthy_count q ≡ whole.healthy_endpoints)
        × (healthy_count q + degraded_count q + down_count q ≡ whole.total_endpoints)
        × (is_operational q ≡ (whole.healthy_endpoints == whole.total_endpoints))
  unfolding overall healthy_count degraded_count down_count is_operational
  step-overall health eps alerts now p due =
      let same = healthy-checks zero_rate now eps in
      let all_ = length-checks zero_rate now eps in
      rw (shown-checks eps alerts now p due)
        (same, omega (arith, all_, Status-sum (checks zero_rate now eps)), rw (same, all_) refl)

-- What the page makes of an endpoint of the service: one that answers within half a second is down as
-- soon as it is anything but healthy, degraded included, and only a slow one is degraded.
pub details-status :
    {Rate : Type 0} (zero_rate : Rate) (mean_rate : List Rate → Option Rate)
    (ep : BackendEndpoint Rate) (now : ℕ)
    → (check_of zero_rate now (reported (details zero_rate mean_rate ep))).status ≡ (
        if text_eq ep.status (lit "Healthy")
        then healthy
        else if ltb 500 (number_or_zero ep.avg_response_time)
        then degraded
        else down)
unfolding check_of status_of details
details-status zero_rate mean_rate ep now = elim (Bool-cases (text_eq ep.status (lit "Healthy"))) [
  | inl well ↦ rw well refl
  | inr ill ↦ rw ill refl
]
