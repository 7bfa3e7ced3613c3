-- ===== src/Rpc/Balancer.antt =====
-- web-ui/src/app/api/rpc/route.ts: `LoadBalancer` and the configuration that it reads.
pub mod Choosing
use multi_rpc.Prelude.{
  ℕ, ◌+◌, ◌-◌, ◌%◌, Bool, true, false, not, Option, none, some, List, [], ◌∷◌, Text, lit, Dict, get,
  set, text_or, filter, length, get_elem?, ltb, if◌then◌else◌, ◌≡◌, ◌==◌,
}

-- process.env
abbrev pub Env : Type 0
Env = Text → Option Text

pub record Endpoint : Type 0 where
  pub url : Text
  pub weight : ℕ
  pub priority : ℕ

unfoldable pub rpc_backend_url : Env → Text
rpc_backend_url env = text_or (env (lit "NEXT_PUBLIC_RPC_URL")) (lit "http://localhost:8080")

-- RPC_ENDPOINTS[0].url
unfoldable pub first_url : Env → Text
first_url env = text_or (env (lit "SOLANA_RPC_URL_1")) (lit "https://api.mainnet-beta.solana.com")

unfoldable pub rpc_endpoints : Env → List Endpoint
rpc_endpoints env =
    record { url = first_url env; weight = 1; priority = 1 }
    ∷ record {
      url = text_or (env (lit "SOLANA_RPC_URL_2")) (lit "https://solana-api.projectserum.com");
      weight = 1;
      priority = 2;
    }
    ∷ record {
      url = text_or (env (lit "SOLANA_RPC_URL_3")) (lit "https://rpc.ankr.com/solana");
      weight = 1;
      priority = 3;
    }
    ∷ []

pub record HealthStatus : Type 0 where
  pub healthy : Bool
  pub last_check : ℕ

pub record LoadBalancer : Type 0 where
  pub current_index : ℕ
  pub health_status : Dict HealthStatus

abbrev pub is_stale : ℕ → Option HealthStatus → Bool
is_stale now none = true
is_stale now (some h) = ltb 30000 (now - h.last_check)

-- `health?.healthy`
abbrev pub known_healthy : Option HealthStatus → Bool
known_healthy none = false
known_healthy (some h) = h.healthy

-- `!health || health.healthy`
abbrev pub may_be_healthy : Option HealthStatus → Bool
may_be_healthy none = true
may_be_healthy (some h) = h.healthy

unfoldable pub healthy_endpoints : Env → LoadBalancer → List Endpoint
healthy_endpoints env lb =
    filter (λ ep. may_be_healthy (get ep.url lb.health_status)) (rpc_endpoints env)

-- The endpoint chosen, whether a health check of the backend is started, and the balancer after.
pub record Choice : Type 0 where
  pub url : Text
  pub check_backend : Bool
  pub balancer : LoadBalancer

abbrev pub url_of : Option Endpoint → Text → Text
url_of none d = d
url_of (some ep) d = ep.url

-- the rotation over the healthy endpoints
unfoldable pub rotate : Env → List Endpoint → LoadBalancer → Text × LoadBalancer
rotate env healthy lb = if length healthy == 0 then (first_url env, lb) else (
  url_of (get_elem? healthy (lb.current_index % length healthy)) (first_url env),
  record lb { current_index = lb.current_index + 1 },
)

-- `getNextEndpoint()`, called at `now`
unfoldable pub get_next_endpoint : Env → ℕ → LoadBalancer → Choice
get_next_endpoint env now lb =
    let backend_health = get (rpc_backend_url env) lb.health_status in
    let (url, lb') = rotate env (healthy_endpoints env lb) lb in
    if known_healthy backend_health
    then record {
      url = rpc_backend_url env;
      check_backend = is_stale now backend_health;
      balancer = lb;
    }
    else record { url = url; check_backend = is_stale now backend_health; balancer = lb' }

-- the end of `checkHealth(url)`: `answered` is `response.ok`, or nothing if the fetch threw
unfoldable pub health_checked : Text → Option Bool → ℕ → LoadBalancer → LoadBalancer
health_checked url none now lb = record lb {
  health_status = set url (record { healthy = false; last_check = now }) lb.health_status;
}
health_checked url (some answered) now lb = record lb {
  health_status = set url (record { healthy = answered; last_check = now }) lb.health_status;
}

-- `markUnhealthy(url)`
unfoldable pub mark_unhealthy : Text → ℕ → LoadBalancer → LoadBalancer
mark_unhealthy url now lb = record lb {
  health_status = set url (record { healthy = false; last_check = now }) lb.health_status;
}
