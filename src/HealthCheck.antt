-- ===== src/HealthCheck.antt =====
-- web-ui/src/app/api/health/route.ts: the health of the application. The clock, the probe of the service,
-- whose value is the answer's `ok`, and the query of the database are parameters.
use multi_rpc.Prelude.{
  ℕ, ◌≡◌, refl, Bool, true, false, ◌==◌, Option, none, some, length, Text, lit, text_or, Result, ok,
  err, Act, catch_from, ◌>>=◌, ◌>>◌, return, try_catch, Dict, Bool-cases, inl, inr,
}
use multi_rpc.Rpc.Balancer.{Env}
use multi_rpc.Rpc.Post.{truthy}
use multi_rpc.Environment.{missing_vars, required_env_vars, validate_env}

pub record Services : Type 0 where
  pub backend : Text
  pub database : Text

pub data HealthReply : Type 0 where
  healthy :
      (time : ℕ) (version : Text) (services : Services) (environment : Option Text) → HealthReply
  unhealthy : (status : ℕ) (error : Text) (time : ℕ) → HealthReply

abbrev status_text : Bool → Text
status_text true = lit "healthy"
status_text false = lit "degraded"

abbrev pub is_healthy : HealthReply → Bool
is_healthy (healthy time version services environment) = true
is_healthy (unhealthy status error time) = false

abbrev reply_of : Env → Bool → Bool → ℕ → HealthReply
reply_of env backend database time =
    healthy time (text_or (env (lit "npm_package_version")) (lit "1.0.0"))
      (record { backend = status_text backend; database = status_text database })
      (env (lit "NODE_ENV"))

module _ {World : Type 0} (env : Env) (now : World → ℕ) (probe : Act World Bool)
    (query : Act World (Unit {0})) where
  abbrev get_now : Act World ℕ
  get_now w = (ok (now w), w)

  unfoldable pub backend_healthy : Act World Bool
  backend_healthy = try_catch probe (λ e. return false)

  abbrev asked : Option Text → Act World Bool
  asked none = return true
  asked (some address) = try_catch (do query; return true) (λ e. return false)

  -- the database is asked only if DATABASE_URL is set
  unfoldable pub database_healthy : Act World Bool
  database_healthy = asked (truthy (env (lit "DATABASE_URL")))

  abbrev report : Act World HealthReply
  report = do
    backend ← backend_healthy
    database ← database_healthy
    time ← get_now
    return (reply_of env backend database time)

  abbrev missing : Act World HealthReply
  missing = do time ← get_now; return (unhealthy 503 (lit "Missing environment variables") time)

  abbrev validated : Result (Dict Text) → Act World HealthReply
  validated (ok vars) = report
  validated (err e) = missing

  abbrev failed : Act World HealthReply
  failed = do time ← get_now; return (unhealthy 503 (lit "Internal server error") time)

  -- `GET`
  unfoldable pub get_health : Act World HealthReply
  get_health = try_catch (validated (validate_env env)) (λ e. failed)

  caught :
      (m : Act World Bool) (w : World)
      → (b : Bool) × (w' : World) × (try_catch m (λ e. return false) w ≡ (ok b, w'))
  caught m w = go (m w)
    where
      go :
          (r : Result Bool × World)
          → (b : Bool) × (w' : World) × (catch_from (λ e. return false) r ≡ (ok b, w'))
      go (ok b, w') = (b, w', refl)
      go (err e, w') = (false, w', refl)

  database-total :
      (address : Option Text) (w : World)
      → (b : Bool) × (w' : World) × (asked address w ≡ (ok b, w'))
  database-total none w = (true, w, refl)
  database-total (some address) w = caught (do query; return true) w

  -- The application is always answered for, and it is called healthy exactly if no required variable is
  -- missing, whatever the service and the database do.
  pub get_health-is_healthy :
      (w : World)
      → (r : HealthReply) × (w' : World) × (get_health w ≡ (ok r, w'))
        × (is_healthy r ≡ (length (missing_vars env required_env_vars) == 0))
  unfolding get_health validate_env backend_healthy database_healthy
  get_health-is_healthy w = elim (Bool-cases (length (missing_vars env required_env_vars) == 0)) [
    | inl y ↦
        let (b, w₁, up) = caught probe w in
        let (d, w₂, there) = database-total (truthy (env (lit "DATABASE_URL"))) w₁ in
        (reply_of env b d (now w₂), w₂, rw (y, up, there) refl, rw y refl)
    | inr n ↦ (unhealthy 503 (lit "Missing environment variables") (now w), w, rw n refl, rw n refl)
  ]
