-- ===== src/Limiter/Attribution.antt =====
-- On which key a day of requests is counted.
use multi_rpc.Prelude.{
  ℕ, ◌+◌, ◌≡◌, refl, ap, ◌∙◌, false, ◌&&◌, Bool-cases, inl, inr, Option, none, some, List, [], ◌∷◌,
  find, Text, text_eq, if◌then◌else◌, ℤ, ok, bind-of_ok, Act, ◌>>=◌, return, arith,
}
use multi_rpc.Platform.{Platform, UsageRow, UsageChange, UsageWhere}
use multi_rpc.Limiter.Usage.{
  UsageCheck, check_usage, record_usage, number_or_zero, usage_row, below,
}
use multi_rpc.Limiter.Recording.{
  is_of, incremented, upserted, is_asked, sum_where, UsageTable, after_upsert, Call, change_of,
  row_of, record_all, OnDay, row_in, record_usage-row, record_usage-rows,
}

abbrev pub asking : Text → Text → ℕ → UsageWhere
asking user_id k since = record { user_id = user_id; api_key_id = k; since = since }

-- An upsert into the row of another key does not change the sum of a key.
sum_where-upserted :
    (user_id k : Text) (date since : ℕ) (c : UsageChange) (new : UsageRow) (rows : List UsageRow)
    → text_eq (after_upsert c new (find (is_of user_id date) rows)).api_key_id k ≡ false
    → sum_where (asking user_id k since) (upserted user_id date c new rows)
      ≡ sum_where (asking user_id k since) rows
unfolding sum_where upserted incremented
sum_where-upserted user_id k date since c new [] h = ground arith
sum_where-upserted user_id k date since c new (row ∷ rows) h =
    elim (Bool-cases (is_of user_id date row)) [
      | inl y ↦
          let apart : text_eq row.api_key_id k ≡ false = (rw y at h) in rw y (ground (arith, apart))
      | inr n ↦ rw n (
          ap (λ t. (if is_asked (asking user_id k since) row then row.requests else 0) + t)
            (sum_where-upserted user_id k date since c new rows (rw n at h)))
    ]

module _ (p : Platform) (user_id k : Text) (daily_limit monthly_limit : ℤ) where
  open p use {World, now, start_of_day, start_of_month, sum_requests}

  abbrev pub summed : Option ℕ → Option ℕ → UsageCheck
  summed d m = record {
    allowed = below (number_or_zero d) daily_limit && below (number_or_zero m) monthly_limit;
    daily_usage = number_or_zero d;
    monthly_usage = number_or_zero m;
  }

  abbrev pub month_of : World → UsageWhere
  month_of w = asking user_id k (start_of_month (now w))

  abbrev after_day : World → Option ℕ → Act World UsageCheck
  after_day w d = sum_requests (month_of w) >>= λ m. return (summed d m)

  check_usage-summed :
      (w : World) (d m : Option ℕ)
      → (sum_requests (asking user_id k (start_of_day (now w))) w).0 ≡ ok d
      → (sum_requests (month_of w) (sum_requests (asking user_id k (start_of_day (now w))) w).1).0
        ≡ ok m
      → (check_usage p user_id k daily_limit monthly_limit w).0 ≡ ok (summed d m)
  unfolding check_usage
  check_usage-summed w d m first second =
      let r = sum_requests (asking user_id k (start_of_day (now w))) w in
      rw
        (
          bind-of_ok (after_day w) r d first,
          bind-of_ok (λ m. return (summed d m)) (sum_requests (month_of w) r.1) m second,
        )
        refl

module _ (p : Platform) (table : UsageTable p) (user_id : Text) (day : ℕ) where
  open p use {World, now, start_of_day, start_of_month, sum_requests}

  record_all-sum_where :
      (calls : List Call) (k : Text) (since : ℕ) (w : World) (row : UsageRow)
      → row_in p table user_id day w ≡ some row
      → text_eq row.api_key_id k ≡ false
      → OnDay p table user_id day calls w
      → sum_where (asking user_id k since) (table.rows (record_all p table user_id day calls w))
        ≡ sum_where (asking user_id k since) (table.rows w)
  unfolding incremented
  record_all-sum_where [] k since w row found apart h = refl
  record_all-sum_where (c ∷ calls) k since w row found apart h =
      let next : row_in p table user_id day
            (record_usage p user_id c.key_id c.success c.bytes_in c.bytes_out w).1
          ≡ some (incremented (change_of c) row) =
        record_usage-row p table user_id day c w h.0 h.1 ∙ rw found refl in
      record_all-sum_where calls k since _ (incremented (change_of c) row) next apart h.2
      ∙ rw (record_usage-rows p table user_id day c w h.0 h.1) (
          sum_where-upserted user_id k day since (change_of c) (row_of user_id day c) (table.rows w)
            (rw found apart))

  record_all-first :
      (c : Call) (calls : List Call) (k : Text) (since : ℕ) (w : World)
      → row_in p table user_id day w ≡ none
      → text_eq c.key_id k ≡ false
      → OnDay p table user_id day (c ∷ calls) w
      → sum_where
          (asking user_id k since)
          (table.rows (record_all p table user_id day (c ∷ calls) w))
        ≡ sum_where (asking user_id k since) (table.rows w)
  unfolding usage_row
  record_all-first c calls k since w empty apart h =
      let start : row_in p table user_id day
            (record_usage p user_id c.key_id c.success c.bytes_in c.bytes_out w).1
          ≡ some (row_of user_id day c) =
        record_usage-row p table user_id day c w h.0 h.1 ∙ rw empty refl in
      record_all-sum_where calls k since _ (row_of user_id day c) start apart h.2
      ∙ rw (record_usage-rows p table user_id day c w h.0 h.1) (
          sum_where-upserted user_id k day since (change_of c) (row_of user_id day c) (table.rows w)
            (rw empty apart))

  -- If no request of a user was recorded on a day and then some are, the first of them with one key and
  -- the others with any keys, then a check of another key of the same user on that day, where the
  -- database answers, finds the daily usage that this key had before all of them.
  pub check_usage-recorded :
      (c : Call) (calls : List Call) (k : Text) (daily_limit monthly_limit : ℤ) (w : World)
      (d m : Option ℕ)
      → row_in p table user_id day w ≡ none
      → text_eq c.key_id k ≡ false
      → OnDay p table user_id day (c ∷ calls) w
      → let w₁ = record_all p table user_id day (c ∷ calls) w in
        start_of_day (now w₁) ≡ day
        → (sum_requests (asking user_id k day) w₁).0 ≡ ok d
        → (sum_requests
            (asking user_id k (start_of_month (now w₁)))
            (sum_requests (asking user_id k day) w₁).1).0
          ≡ ok m
        → (r : UsageCheck) × ((check_usage p user_id k daily_limit monthly_limit w₁).0 ≡ ok r)
          × (r.daily_usage ≡ sum_where (asking user_id k day) (table.rows w))
  check_usage-recorded c calls k daily_limit monthly_limit w d m empty apart h today first second =
      let w₁ = record_all p table user_id day (c ∷ calls) w in
      (
        summed p user_id k daily_limit monthly_limit d m,
        check_usage-summed p user_id k daily_limit monthly_limit w₁ d m (rw today first)
            (rw today second),
        table.sum_result (asking user_id k day) w₁ d first
            ∙ record_all-first c calls k day w empty apart h,
      )
