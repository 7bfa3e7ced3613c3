-- ===== src/MonitoringPage.antt =====
-- web-ui/src/app/dashboard/monitoring/page.tsx: the page that watches the endpoints. Rates and alerts are
-- of abstract types. Of what is drawn the counts and the status of the system are kept.
pub mod Reports
use multi_rpc.Prelude.{
  ℕ, ◌+◌, ◌-◌, ◌==◌, Bool, true, false, not, ◌&&◌, Option, none, some, List, [], map, filter,
  length, Text, Result, ok, err, ltb, if◌then◌else◌, ◌∷◌,
}
use multi_rpc.Limiter.Usage.{number_or_zero}

pub data Status : Type 0 where
  healthy degraded down : Status

pub record HealthCheck (Rate : Type 0) : Type 0 where
  pub endpoint : Text
  pub status : Status
  pub latency : ℕ
  pub last_check : ℕ
  pub uptime : Rate
  pub errors : ℕ

-- an endpoint of an answer or of the socket; any figure may be missing
pub record Reported (Rate : Type 0) : Type 0 where
  pub url : Text
  pub healthy : Bool
  pub latency : Option ℕ
  pub success_rate : Option Rate
  pub error_count : Option ℕ

-- What the two requests come to: the token or a fetch threw, or both are answered. An answer that is
-- not `ok` is none; reading a body may throw.
pub data Answers (Rate Alert : Type 0) : Type 0 where
  failed : Answers Rate Alert
  both :
      (health : Option (Result (List (Reported Rate))))
      → (alerts : Option (Result (Option (List Alert)))) → Answers Rate Alert

pub record Page (Rate Alert : Type 0) : Type 0 where
  pub health_checks : List (HealthCheck Rate)
  pub alerts : List Alert
  pub is_loading : Bool
  pub auto_refresh : Bool
  pub notifications : Bool
  -- whether the interval runs, and the calls of `fetchMonitoringData` on their way
  pub interval : Bool
  pub fetching : ℕ

pub data Event (Rate Alert : Type 0) : Type 0 where
  -- the effect, on the mount and for a new function of the token
  effect_ran : Event Rate Alert
  ticked : Event Rate Alert
  clicked_refresh : Event Rate Alert
  switched_auto_refresh : Bool → Event Rate Alert
  switched_notifications : Bool → Event Rate Alert
  fetch_answered : Answers Rate Alert → (now : ℕ) → Event Rate Alert
  -- another connection or health of the socket
  socket_changed :
      (is_connected : Bool)
      → (health : Option (List (Reported Rate))) → (now : ℕ) → Event Rate Alert

-- `ep.healthy ? "healthy" : ep.latency > 500 ? "degraded" : "down"`
unfoldable pub status_of : Bool → Option ℕ → Status
status_of true latency = healthy
status_of false latency = if ltb 500 (number_or_zero latency) then degraded else down

abbrev pub is_healthy : Status → Bool
is_healthy healthy = true
is_healthy _ = false

abbrev pub is_degraded : Status → Bool
is_degraded degraded = true
is_degraded _ = false

abbrev pub is_down : Status → Bool
is_down down = true
is_down _ = false

abbrev pub alerts_or_none : {Alert : Type 0} → Option (List Alert) → List Alert
alerts_or_none none = []
alerts_or_none (some alerts) = alerts

module _ {Rate : Type 0} (zero_rate : Rate) where
  abbrev pub rate_or_zero : Option Rate → Rate
  rate_or_zero none = zero_rate
  rate_or_zero (some rate) = rate

  unfoldable pub check_of : ℕ → Reported Rate → HealthCheck Rate
  check_of now ep = record {
    endpoint = ep.url;
    status = status_of ep.healthy ep.latency;
    latency = number_or_zero ep.latency;
    last_check = now;
    uptime = rate_or_zero ep.success_rate;
    errors = number_or_zero ep.error_count;
  }

module _ {Rate Alert : Type 0} where
  unfoldable pub healthy_count : Page Rate Alert → ℕ
  healthy_count p = length (filter (λ h. is_healthy h.status) p.health_checks)

  unfoldable pub degraded_count : Page Rate Alert → ℕ
  degraded_count p = length (filter (λ h. is_degraded h.status) p.health_checks)

  unfoldable pub down_count : Page Rate Alert → ℕ
  down_count p = length (filter (λ h. is_down h.status) p.health_checks)

  -- whether the system is shown as operational
  unfoldable pub is_operational : Page Rate Alert → Bool
  is_operational p = healthy_count p == length p.health_checks

  -- `fetchMonitoringData`, up to the answers
  unfoldable pub fetch_monitoring_data : Page Rate Alert → Page Rate Alert
  fetch_monitoring_data p = record p { fetching = p.fetching + 1 }

  -- the effect: a call and, if wanted, an interval; the interval before it is cleared
  unfoldable pub poll : Page Rate Alert → Page Rate Alert
  poll p = fetch_monitoring_data (record p { interval = p.auto_refresh })

  unfoldable pub switch_auto_refresh : Bool → Page Rate Alert → Page Rate Alert
  switch_auto_refresh true p = if p.auto_refresh then p else poll (record p { auto_refresh = true })
  switch_auto_refresh false p =
      if p.auto_refresh then poll (record p { auto_refresh = false }) else p

  abbrev pub read_alerts : Option (Result (Option (List Alert))) → Page Rate Alert → Page Rate Alert
  read_alerts none p = p
  read_alerts (some (err message)) p = p
  read_alerts (some (ok alerts)) p = record p { alerts = alerts_or_none alerts }

  module _ (zero_rate : Rate) where
    -- `setHealthChecks`
    abbrev pub show : ℕ → List (Reported Rate) → Page Rate Alert → Page Rate Alert
    show now eps p = record p { health_checks = map (check_of zero_rate now) eps }

    -- what a body that cannot be read throws ends the call before the alerts
    unfoldable pub finish : Answers Rate Alert → ℕ → Page Rate Alert → Page Rate Alert
    finish failed now p = p
    finish (both none alerts) now p = read_alerts alerts p
    finish (both (some (err message)) alerts) now p = p
    finish (both (some (ok eps)) alerts) now p = read_alerts alerts (show now eps p)

    abbrev pub from_socket :
        Bool → Option (List (Reported Rate)) → ℕ → Page Rate Alert → Page Rate Alert
    from_socket true (some eps) now p = show now eps p
    from_socket _ _ now p = p

    -- An answer to a call that is not on its way leaves the state.
    unfoldable pub step : Event Rate Alert → Page Rate Alert → Page Rate Alert
    step effect_ran p = poll p
    step ticked p = if p.interval then fetch_monitoring_data p else p
    step clicked_refresh p = fetch_monitoring_data p
    step (switched_auto_refresh b) p = switch_auto_refresh b p
    step (switched_notifications b) p = record p { notifications = b }
    step (fetch_answered answers now) p =
        if p.fetching == 0
        then p
        else finish answers now (record p { fetching = p.fetching - 1; is_loading = false })
    step (socket_changed is_connected health now) p = from_socket is_connected health now p

    unfoldable pub run : List (Event Rate Alert) → Page Rate Alert → Page Rate Alert
    run [] p = p
    run (e ∷ es) p = run es (step e p)

  -- the page before its first effects
  unfoldable pub mounted : Page Rate Alert
  mounted = record {
    health_checks = [];
    alerts = [];
    is_loading = true;
    auto_refresh = true;
    notifications = true;
    interval = false;
    fetching = 0;
  }
