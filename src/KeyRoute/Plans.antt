-- ===== src/KeyRoute/Plans.antt =====
-- What a plan allows.
use multi_rpc.Prelude.{
  Option, none, some, Text, ℤ, pos, negsuc, num_or, leb_ℤ, ◌≤ℤ◌, ◌≡◌, arith, Bool-cases, inl, inr,
  ◌⊎◌,
}
use multi_rpc.KeyRoute.{PlanLimits, KeyBody, plan_limits, options_for, capped}

-- A limit that is capped by a positive one is not zero, so that no default takes its place.
capped-le :
    (asked : Option ℤ) (limit : ℤ) (default_ : ℤ)
    → pos 1 ≤ℤ limit
    → num_or (some (capped asked limit)) default_ ≤ℤ limit
capped-le none limit default_ h = ground arith
capped-le (some (pos n)) limit default_ h = ground arith
capped-le (some (negsuc n)) limit default_ h = ground arith

rate-positive :
    (plan : Text) (limits : PlanLimits)
    → plan_limits plan ≡ some limits
    → pos 1 ≤ℤ limits.rate_limit
unfolding plan_limits
rate-positive plan limits h = ground arith

-- On every plan the rate limit of a new key is at most the plan's, whatever the request asks for; so
-- is its monthly limit, unless the plan has none. The defaults of the key manager do not interfere.
pub options_for-capped :
    (plan : Text) (limits : PlanLimits) (body : KeyBody)
    → plan_limits plan ≡ some limits
    → (num_or (options_for limits body).rate_limit (pos 10) ≤ℤ limits.rate_limit)
      × ((limits.monthly_limit ≤ℤ pos 0)
          ⊎ (num_or (options_for limits body).monthly_limit (pos 100000) ≤ℤ limits.monthly_limit))
unfolding options_for
options_for-capped plan limits body h = (
  capped-le body.rate_limit limits.rate_limit (pos 10) (rate-positive plan limits h),
  elim (Bool-cases (leb_ℤ limits.monthly_limit (pos 0))) [
    | inl y ↦ inl (ground arith)
    | inr n ↦
        inr (rw n (capped-le body.monthly_limit limits.monthly_limit (pos 100000) (ground arith)))
  ],
)
