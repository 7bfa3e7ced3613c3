-- ===== src/Stats/Current.antt =====
-- `GET` of web-ui/src/app/api/rpc/stats/route.ts, over what the service's two answers hold.
use multi_rpc.Prelude.{
  ℕ, zero, suc, ◌+◌, ◌≤◌, ◌<◌, ◌≡◌, refl, ◌⊎◌, inl, inr, Option, none, some, List, [], Text, lit,
  Result, ok, err, Act, ◌>>=◌, return, throw, try_catch, if◌then◌else◌, arith,
}
use multi_rpc.Json.{Json}
use multi_rpc.Middleware.{Privy}
use multi_rpc.Backend.{guarded}
use multi_rpc.Backend.Health.{Answer}
use multi_rpc.Stats.{MethodCount, default_breakdown, transform_methods_breakdown}
use multi_rpc.Stats.Series.{Point, Chance, generate_time_series_data}

-- the metrics of the service; a missing property is `none`
pub record Metrics (Rate : Type 0) : Type 0 where
  pub requests_per_second : Option ℕ
  pub active_connections : Option ℕ
  pub average_latency : Option ℕ
  -- an error rate that is not 0
  pub error_rate : Option Rate
  pub last_hour : Option (List (Point Rate))
  pub last_24h : Option (List (Point Rate))
  pub endpoints : Option (List Json)
  pub methods : Option (List (Text × ℕ))

pub record Current (Rate : Type 0) : Type 0 where
  pub requests_per_second : ℕ
  pub active_connections : ℕ
  pub average_latency : ℕ
  pub error_rate : Rate

-- The endpoints of the service, or the three fixed rows of the route.
pub data Performance : Type 0 where
  of_backend : List Json → Performance
  mock_rows : Performance

pub record StatsReport (Rate : Type 0) : Type 0 where
  pub current : Current Rate
  pub last_hour : List (Point Rate)
  pub last_24h : List (Point Rate)
  pub endpoints_performance : Performance
  pub methods_breakdown : List MethodCount

pub data StatsReply (Rate : Type 0) : Type 0 where
  stats : StatsReport Rate → StatsReply Rate
  refused : (status : ℕ) (error : Text) → StatsReply Rate

abbrev or_default {ℓ} : {A : Type ℓ} → Option A → A → A
or_default none d = d
or_default (some a) d = a

-- `a || b` on arrays, of which the empty one is true
abbrev or_else {ℓ} : {A : Type ℓ} → Option A → Option A → Option A
or_else none b = b
or_else (some a) b = some a

-- what the service says, where it is not 0, and else a draw
abbrev pub IsFigure : Option ℕ → ℕ → ℕ → ℕ → Type 0
IsFigure said n least shown =
    ((k : ℕ) × (said ≡ some (suc k)) × (shown ≡ suc k))
    ⊎ (((said ≡ none) ⊎ (said ≡ some 0)) × (least ≤ shown) × (shown < least + n))

module _ {World Rate : Type 0} (chance : Chance World Rate) (ratio : ℕ → ℕ → ℕ) where
  open chance use {now, random_below, random_success, random_error}

  -- `Math.floor(Math.random() * n) + least`
  abbrev pub draw_from : ℕ → ℕ → World → ℕ × World
  draw_from n least w = let (k, w₁) = random_below n w in (k + least, w₁)

  -- `figure || Math.floor(Math.random() * n) + least`
  unfoldable pub figure_or : Option ℕ → ℕ → ℕ → World → ℕ × World
  figure_or none n least w = draw_from n least w
  figure_or (some zero) n least w = draw_from n least w
  figure_or (some (suc k)) n least w = (suc k, w)

  abbrev error_or : Option Rate → World → Rate × World
  error_or none w = random_error w
  error_or (some r) w = (r, w)

  unfoldable pub current_of : Metrics Rate → World → Current Rate × World
  current_of m w =
      let (requests, w₁) = figure_or m.requests_per_second 50 100 w in
      let (connections, w₂) = figure_or m.active_connections 200 300 w₁ in
      let (latency, w₃) = figure_or m.average_latency 20 30 w₂ in
      let (error, w₄) = error_or m.error_rate w₃ in
      (
        record {
          requests_per_second = requests;
          active_connections = connections;
          average_latency = latency;
          error_rate = error;
        },
        w₄,
      )

  abbrev series_or : Option (List (Point Rate)) → ℕ → Text → World → List (Point Rate) × World
  series_or none points unit w = generate_time_series_data chance points unit w
  series_or (some series) points unit w = (series, w)

  -- `transformedData`
  unfoldable pub transform : Metrics Rate → Option (List Json) → World → StatsReport Rate × World
  transform m stats_endpoints w =
      let (current, w₁) = current_of m w in
      let (hour, w₂) = series_or m.last_hour 60 (lit "minutes") w₁ in
      let (day, w₃) = series_or m.last_24h 24 (lit "hours") w₂ in
      (
        record {
          current = current;
          last_hour = hour;
          last_24h = day;
          endpoints_performance = of_backend (or_default (or_else m.endpoints stats_endpoints) []);
          methods_breakdown = transform_methods_breakdown ratio (some (or_default m.methods []));
        },
        w₃,
      )

  abbrev no_metrics : Metrics Rate
  no_metrics = record {
    requests_per_second = none;
    active_connections = none;
    average_latency = none;
    error_rate = none;
    last_hour = none;
    last_24h = none;
    endpoints = none;
    methods = none;
  }

  -- `mockStats`
  unfoldable pub mock_stats : World → StatsReport Rate × World
  mock_stats w =
      let (current, w₁) = current_of no_metrics w in
      let (hour, w₂) = generate_time_series_data chance 60 (lit "minutes") w₁ in
      let (day, w₃) = generate_time_series_data chance 24 (lit "hours") w₂ in
      (
        record {
          current = current;
          last_hour = hour;
          last_24h = day;
          endpoints_performance = mock_rows;
          methods_breakdown = default_breakdown;
        },
        w₃,
      )

  abbrev given : {A : Type 0} → (A × World) → Result A × World
  given (a, w) = (ok a, w)

  -- `fetch_metrics` and `fetch_stats` are the two calls of the service; of the second only the
  -- endpoints are read
  module _ (privy : Option Privy) (fetch_metrics : Act World (Answer (Metrics Rate)))
      (fetch_stats : Act World (Answer (Option (List Json)))) where
    abbrev awaited : {A : Type 0} → Result A → Act World A
    awaited (ok a) = return a
    awaited (err e) = throw e

    abbrev endpoints_of : Answer (Option (List Json)) → Act World (Option (List Json))
    endpoints_of s = if s.is_ok then awaited s.json else return none

    abbrev made_up : Act World (Option (StatsReport Rate))
    made_up = return none

    abbrev transformed :
        Answer (Metrics Rate) → Answer (Option (List Json)) → Act World (Option (StatsReport Rate))
    transformed m s =
        if m.is_ok
        then (do
          metrics ← awaited m.json
          endpoints ← endpoints_of s
          report ← (λ w. given (transform metrics endpoints w))
          return (some report))
        else made_up

    -- the inner `try`, which leaves off with nothing where the made-up data is due
    unfoldable pub read_stats : Act World (Option (StatsReport Rate))
    read_stats = try_catch (do m ← fetch_metrics; s ← fetch_stats; transformed m s) (λ e. made_up)

    abbrev or_mock : Option (StatsReport Rate) → Act World (StatsReply Rate)
    or_mock none = do report ← (λ w. given (mock_stats w)); return (stats report)
    or_mock (some report) = return (stats report)

    abbrev serve_stats : Act World (StatsReply Rate)
    serve_stats = do found ← read_stats; or_mock found

    -- `GET`
    unfoldable pub get_stats : Option Text → Act World (StatsReply Rate)
    get_stats authorization =
        try_catch (guarded refused privy serve_stats authorization)
          (λ e. return (refused 500 (lit "Failed to fetch statistics")))

  module _ (drawn : (n : ℕ) (w : World) → 0 < n → (random_below n w).0 < n) where
    figure_or-IsFigure :
        (said : Option ℕ) (n least : ℕ) (w : World)
        → 0 < n
        → IsFigure said n least (figure_or said n least w).0
    unfolding figure_or
    figure_or-IsFigure none n least w some_n =
        inr (inl refl, ground arith, ground (arith, drawn n w some_n))
    figure_or-IsFigure (some zero) n least w some_n =
        inr (inr refl, ground arith, ground (arith, drawn n w some_n))
    figure_or-IsFigure (some (suc k)) n least w some_n = inl (k, refl, refl)

    -- If each draw is below its bound, each of three figures of the report on the service's metrics is
    -- the service's where that is there and not 0, and otherwise is made up: between 100 and 149
    -- requests per second, between 300 and 499 connections, a latency between 30 and 49.
    pub transform-figures :
        (m : Metrics Rate) (stats_endpoints : Option (List Json)) (w : World)
        → let current = (transform m stats_endpoints w).0.current in
          IsFigure m.requests_per_second 50 100 current.requests_per_second
          × IsFigure m.active_connections 200 300 current.active_connections
          × IsFigure m.average_latency 20 30 current.average_latency
    unfolding transform current_of
    transform-figures m stats_endpoints w = (
      figure_or-IsFigure m.requests_per_second 50 100 w (omega arith),
      figure_or-IsFigure m.active_connections 200 300 _ (omega arith),
      figure_or-IsFigure m.average_latency 20 30 _ (omega arith),
    )
