-- ===== src/Dashboard/Plans.antt =====
-- The limits of the plans, as the dashboard shows them and as the route of the keys grants them.
use multi_rpc.Prelude.{
  ℕ, ◌*◌, ◌<◌, ◌≡◌, refl, ap, subst, ◌∙◌, ℤ, pos, negsuc, Option, some, ◌⊎◌, inl, inr, Text, lit,
  text_eq, arith, Bool-cases,
}
use multi_rpc.KeyRoute.{PlanLimits, plan_limits}
use multi_rpc.Dashboard.{Limits, dashboard_limits}

-- no limit on either side, or ten times the limit of the keys
abbrev pub IsTenfold : ℤ → ℤ → Type 0
IsTenfold granted shown =
    ((granted ≡ negsuc 0) × (shown ≡ negsuc 0))
    ⊎ ((n : ℕ) × (0 < n) × (granted ≡ pos n) × (shown ≡ pos (10 * n)))

shown-of :
    (row granted : PlanLimits) (found : Option Limits) (shown : Limits)
    → some row ≡ some granted
    → found ≡ some shown
    → shown.rate_limit ≡ row.rate_limit
    → IsTenfold row.monthly_limit shown.requests
    → (x : Limits) × (found ≡ some x)
      × (x.rate_limit ≡ granted.rate_limit)
      × IsTenfold granted.monthly_limit x.requests
shown-of row granted found shown e f rate tenfold =
    let same : row ≡ granted = cc e in
    (
      shown,
      f,
      rate ∙ ap (λ x. x.rate_limit) same,
      subst (λ x. IsTenfold x.monthly_limit shown.requests) same tenfold,
    )

-- For every plan with limits on keys the dashboard shows the same rate limit, and ten times the
-- requests per month that a key is granted, or no limit where a key has none.
pub dashboard_limits-plan_limits :
    (plan : Text) (granted : PlanLimits)
    → plan_limits plan ≡ some granted
    → (shown : Limits) × (dashboard_limits plan ≡ some shown)
      × (shown.rate_limit ≡ granted.rate_limit)
      × IsTenfold granted.monthly_limit shown.requests
unfolding plan_limits dashboard_limits
dashboard_limits-plan_limits plan granted h = elim (Bool-cases (text_eq plan (lit "FREE"))) [
  | inl y ↦
      rw y (shown-of _ granted _ _ (rw y at h) refl refl (inr (10000, omega arith, refl, refl)))
  | inr n ↦ elim (Bool-cases (text_eq plan (lit "STARTER"))) [
    | inl y ↦
        rw (n, y)
          (shown-of _ granted _ _ (rw (n, y) at h) refl refl
            (inr (100000, omega arith, refl, refl)))
    | inr m ↦ elim (Bool-cases (text_eq plan (lit "PRO"))) [
      | inl y ↦
          rw (n, m, y)
            (shown-of _ granted _ _ (rw (n, m, y) at h) refl refl
              (inr (1000000, omega arith, refl, refl)))
      | inr k ↦ elim (Bool-cases (text_eq plan (lit "ENTERPRISE"))) [
        | inl y ↦
            rw (n, m, k, y)
              (shown-of _ granted _ _ (rw (n, m, k, y) at h) refl refl (inl (refl, refl)))
        | inr j ↦ cc (rw (n, m, k, j) at h)
      ]
    ]
  ]
]
