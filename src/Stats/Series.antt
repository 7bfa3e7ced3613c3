-- ===== src/Stats/Series.antt =====
-- `generateTimeSeriesData` of web-ui/src/app/api/rpc/stats/route.ts. A point keeps its time in
-- milliseconds, of which the answer has the ISO text. The draws of `Math.random()` are calls on the
-- world, and a rate with decimals is of an abstract type.
use multi_rpc.Prelude.{
  ℕ, zero, suc, ◌+◌, ◌-◌, ◌*◌, ◌<◌, ◌≡◌, refl, ◌∙◌, some, List, [], ◌∷◌, length, get_elem?, Text,
  lit, text_eq, if◌then◌else◌, arith, ap,
}

pub record Point (Rate : Type 0) : Type 0 where
  pub timestamp : ℕ
  pub requests : ℕ
  pub success_rate : Rate
  pub latency : ℕ

pub record Chance (World Rate : Type 0) : Type 0 where
  -- Date.now()
  pub now : World → ℕ
  -- Math.floor(Math.random() * n)
  pub random_below : ℕ → World → ℕ × World
  -- 98 + Math.random() * 2, and Math.random() * 2
  pub random_success : World → Rate × World
  pub random_error : World → Rate × World

-- `unit === "minutes" ? 60000 : 3600000`
unfoldable pub interval_of : Text → ℕ
interval_of unit = if text_eq unit (lit "minutes") then 60000 else 3600000

module _ {World Rate : Type 0} (chance : Chance World Rate) where
  open chance use {now, random_below, random_success}

  unfoldable pub draw_point : ℕ → World → Point Rate × World
  draw_point time w =
      let (requests, w₁) = random_below 1000 w in
      let (success, w₂) = random_success w₁ in
      let (latency, w₃) = random_below 20 w₂ in
      (
        record {
          timestamp = time;
          requests = requests + 2000;
          success_rate = success;
          latency = latency + 30;
        },
        w₃,
      )

  -- the loop over `i` from `points - 1` down to 0
  unfoldable pub points_from : (start interval points : ℕ) → World → List (Point Rate) × World
  points_from start interval zero w = ([], w)
  points_from start interval (suc i) w =
      let (point, w₁) = draw_point (start - i * interval) w in
      let (points, w₂) = points_from start interval i w₁ in (point ∷ points, w₂)

  unfoldable pub generate_time_series_data : ℕ → Text → World → List (Point Rate) × World
  generate_time_series_data points unit w = points_from (now w) (interval_of unit) points w

  draw_point-timestamp : (time : ℕ) (w : World) → (draw_point time w).0.timestamp ≡ time
  unfolding draw_point
  draw_point-timestamp time w = refl

  points_from-timestamp :
      (start interval points j : ℕ) (w : World)
      → j < points
      → (point : Point Rate) × (get_elem? (points_from start interval points w).0 j ≡ some point)
        × (point.timestamp ≡ start - (points - 1 - j) * interval)
  unfolding points_from
  points_from-timestamp start interval zero j w h = ground arith
  points_from-timestamp start interval (suc i) zero w h =
      (_, refl, draw_point-timestamp _ w ∙ ap (λ n. start - n * interval) (omega arith))
  points_from-timestamp start interval (suc i) (suc j) w h =
      let (point, there, time) = points_from-timestamp start interval i j _ (omega arith) in
      (point, there, time ∙ ap (λ n. start - n * interval) (omega arith))

  length-points_from :
      (start interval points : ℕ) (w : World)
      → length (points_from start interval points w).0 ≡ points
  unfolding points_from
  length-points_from start interval zero w = refl
  length-points_from start interval (suc i) w = ap suc (length-points_from start interval i _)

  -- A series has as many points as are asked for, and the point at each place is as many minutes (or
  -- hours, for any other unit) before the present as there are points after it.
  pub generate_time_series_data-times :
      (points j : ℕ) (unit : Text) (w : World)
      → j < points
      → let series = (generate_time_series_data points unit w).0 in
        (length series ≡ points)
        × (point : Point Rate) × (get_elem? series j ≡ some point)
        × (point.timestamp ≡ now w - (points - 1 - j) * interval_of unit)
  unfolding generate_time_series_data
  generate_time_series_data-times points j unit w h =
      let (point, there, time) = points_from-timestamp (now w) (interval_of unit) points j w h in
      (length-points_from (now w) (interval_of unit) points w, point, there, time)
