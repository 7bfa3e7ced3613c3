-- ===== src/Rpc/Health.antt =====
-- web-ui/src/app/api/rpc/route.ts: `GET`, the health report. The probes of the endpoints run together;
-- `probe` is what each comes to: the answer's `ok`, or nothing if the fetch threw, and the time it took.
use multi_rpc.Prelude.{
  ℕ, Bool, true, false, ◌||◌, Option, none, some, List, [], ◌∷◌, map, any, All, Text, lit, text_eq,
  text_eq_iff, Dict, set, if◌then◌else◌, ◌≡◌, refl, ◌↔◌, ◌∙◌, ap, sym, arith, Bool-cases, inl, inr,
}
use multi_rpc.Rpc.Balancer.{Env, Endpoint, rpc_backend_url, rpc_endpoints}

pub record EndpointHealth : Type 0 where
  pub status : Text
  pub latency : ℕ

pub record HealthReport : Type 0 where
  pub status : Text
  pub endpoints : Dict EndpointHealth

abbrev pub Probe : Type 0
Probe = Text → Option Bool × ℕ

abbrev pub is_ok : Option Bool → Bool
is_ok none = false
is_ok (some answer) = answer

unfoldable pub health_of : Option Bool × ℕ → EndpointHealth
health_of (answer, latency) = record {
  status = if is_ok answer then lit "healthy" else lit "unhealthy";
  latency = latency;
}

unfoldable pub checked_urls : Env → List Text
checked_urls env = rpc_backend_url env ∷ map (λ (ep : Endpoint). ep.url) (rpc_endpoints env)

-- the object `health`, which has one entry for each address
unfoldable pub collect : Probe → List Text → Dict EndpointHealth
collect probe [] = []
collect probe (url ∷ urls) = set url (health_of (probe url)) (collect probe urls)

abbrev pub is_healthy : Text × EndpointHealth → Bool
is_healthy entry = text_eq entry.1.status (lit "healthy")

unfoldable pub get_health : Env → Probe → HealthReport
get_health env probe =
    let health = collect probe (checked_urls env) in
    record {
      status = if any is_healthy health then lit "operational" else lit "degraded";
      endpoints = health;
    }

abbrev answers : Probe → Text → Bool
answers probe url = is_ok (probe url).0

Agrees : Probe → Text × EndpointHealth → Type 0
Agrees probe entry = entry.1 ≡ health_of (probe entry.0)

healthy-answers :
    (probe : Probe) (url : Text) → is_healthy (url, health_of (probe url)) ≡ answers probe url
unfolding health_of text_eq
healthy-answers probe url = elim (Bool-cases (is_ok (probe url).0)) [
  | inl y ↦ rw y refl
  | inr n ↦ rw n refl
]

set-health :
    (probe : Probe) (url : Text) (d : Dict EndpointHealth)
    → All (Agrees probe) d
    → All (Agrees probe) (set url (health_of (probe url)) d)
      × (any is_healthy (set url (health_of (probe url)) d)
          ≡ (answers probe url || any is_healthy d))
unfolding set Agrees
set-health probe url [] a = ((refl, tt), ground (arith, healthy-answers probe url))
set-health probe url ((k, h) ∷ d) a = elim (Bool-cases (text_eq k url)) [
  | inl y ↦
      let same : k ≡ url = (text_eq_iff k url).0 y in
      let old : is_healthy (k, h) ≡ answers probe url =
        ap (λ (x : EndpointHealth). is_healthy (k, x)) a.0
        ∙ healthy-answers probe k
        ∙ ap (answers probe) same in
      (
        rw y (ap (λ u. health_of (probe u)) (sym same), a.1),
        rw y (ground (arith, old, healthy-answers probe url)),
      )
  | inr n ↦
      let rest = set-health probe url d a.1 in (rw n (a.0, rest.0), rw n (ground (arith, rest.1)))
]

collect-health :
    (probe : Probe) (urls : List Text)
    → All (Agrees probe) (collect probe urls)
      × (any is_healthy (collect probe urls) ≡ any (answers probe) urls)
unfolding collect
collect-health probe [] = (tt, refl)
collect-health probe (url ∷ urls) =
    let (agrees, same) = collect-health probe urls in
    let (agrees', same') = set-health probe url (collect probe urls) agrees in
    (agrees', ground (arith, same, same'))

-- The report says that the proxy is operational exactly if the backend or one of the configured
-- endpoints answers well: a single one is enough.
pub get_health-operational :
    (env : Env) (probe : Probe)
    → ((get_health env probe).status ≡ lit "operational")
      ↔ (any (λ url. is_ok (probe url).0) (checked_urls env) ≡ true)
unfolding get_health
get_health-operational env probe =
    let same = (collect-health probe (checked_urls env)).1 in
    elim (Bool-cases (any is_healthy (collect probe (checked_urls env)))) [
      | inl y ↦ (λ h. ground (arith, same), λ h. rw y refl)
      | inr n ↦ (
        λ h. let wrong : lit "degraded" ≡ lit "operational" = (rw n at h) in ground arith,
        λ h. ground (arith, same),
      )
    ]
