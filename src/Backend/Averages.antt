-- ===== src/Backend/Averages.antt =====
-- The figures of the health report.
use native.Mathlib.Nat.{le-div_iff_mul-le, div-lt_iff_lt-mul}
use multi_rpc.Prelude.{
  ℕ, zero, suc, ◌+◌, ◌*◌, ◌/◌, ◌≤◌, ◌<◌, ◌≡◌, refl, Bool, Option, some, List, [], ◌∷◌, filter,
  length, All, arith,
}
use multi_rpc.Backend.Health.{BackendHealth, EndpointDetails, overall, round_mean, sum_of}

sum_of-between {ℓ} :
    {A : Type ℓ} (f : A → ℕ) (lo hi : ℕ) (xs : List A)
    → All (λ x. (lo ≤ f x) × (f x ≤ hi)) xs
    → (length xs * lo ≤ sum_of f xs) × (sum_of f xs ≤ length xs * hi)
sum_of-between f lo hi [] h = (omega arith, omega arith)
sum_of-between f lo hi (x ∷ xs) ((a, b), hs) =
    let (c, d) = sum_of-between f lo hi xs hs in (ground arith, ground arith)

round_mean-between :
    (sum n lo hi : ℕ)
    → 0 < n
    → n * lo ≤ sum
    → sum ≤ n * hi
    → (m : ℕ) × (round_mean sum n ≡ some m) × (lo ≤ m) × (m ≤ hi)
unfolding round_mean
round_mean-between sum zero lo hi p a b = ground arith
round_mean-between sum (suc n) lo hi p a b = (
  _,
  refl,
  (le-div_iff_mul-le {k = 2 * suc n} {x = lo} {y = 2 * sum + suc n} (omega arith)).1 (ground arith),
  (let below : (2 * sum + suc n) / (2 * suc n) < suc hi =
        (div-lt_iff_lt-mul {k = 2 * suc n} {x = 2 * sum + suc n} {y = suc hi} (omega arith)).1
          (ground arith) in
      omega arith),
)

length-filter {ℓ} :
    {A : Type ℓ} (test : A → Bool) (xs : List A) → length (filter test xs) ≤ length xs
length-filter test [] = omega arith
length-filter test (x ∷ xs) = ground (arith, length-filter test xs)

-- Of any report on endpoints at least one of which is there, with latencies between two bounds: the
-- average latency is a number between the same bounds, and at most all endpoints are healthy.
pub overall-between :
    {Rate : Type 0} (zero_rate : Rate) (mean_rate : List Rate → Option Rate)
    (health : BackendHealth) (eps : List (EndpointDetails Rate)) (lo hi : ℕ)
    → 0 < length eps
    → All (λ ep. (lo ≤ ep.latency) × (ep.latency ≤ hi)) eps
    → let report = overall zero_rate mean_rate health eps in
      (m : ℕ) × (report.average_latency ≡ some m)
      × (lo ≤ m)
      × (m ≤ hi)
      × (report.healthy_endpoints ≤ report.total_endpoints)
unfolding overall
overall-between zero_rate mean_rate health eps lo hi some_ep bounded =
    let (a, b) = sum_of-between (λ ep. ep.latency) lo hi eps bounded in
    let (m, average, low, high) = round_mean-between _ (length eps) lo hi some_ep a b in
    (m, average, low, high, length-filter (λ ep. ep.healthy) eps)
