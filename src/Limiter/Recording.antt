-- ===== src/Limiter/Recording.antt =====
-- What a day of recorded requests leaves in the table of usage.
use multi_rpc.Prelude.{
  ℕ, ◌+◌, ◌≡◌, refl, ◌∙◌, Bool, true, ◌&&◌, ◌==◌, leb, Bool-cases, inl, inr, Option, none, some,
  List, [], ◌∷◌, find, length, filter, Text, text_eq, text_eq_refl, if◌then◌else◌, ok, catch-of_ok,
  return, arith,
}
use multi_rpc.Platform.{Platform, UsageRow, UsageChange, UsageWhere}
use multi_rpc.Limiter.Usage.{usage_change, usage_row, record_usage, number_or_zero}

-- a row of a user and a day, which is what the table's unique index names
abbrev pub is_of : Text → ℕ → UsageRow → Bool
is_of user_id date row = text_eq row.user_id user_id && row.date == date

unfoldable pub incremented : UsageChange → UsageRow → UsageRow
incremented c row = record row {
  requests = row.requests + c.requests;
  success_count = row.success_count + number_or_zero c.success_count;
  error_count = row.error_count + number_or_zero c.error_count;
  bytes_in = row.bytes_in + c.bytes_in;
  bytes_out = row.bytes_out + c.bytes_out;
}

-- an upsert: the row that is there is incremented, or the new row is added
unfoldable pub upserted : Text → ℕ → UsageChange → UsageRow → List UsageRow → List UsageRow
upserted user_id date c new [] = new ∷ []
upserted user_id date c new (row ∷ rows) =
    if is_of user_id date row
    then incremented c row ∷ rows
    else row ∷ upserted user_id date c new rows

-- the sum of the requests in the rows that a query asks for
abbrev pub is_asked : UsageWhere → UsageRow → Bool
is_asked q row =
    text_eq row.user_id q.user_id && (text_eq row.api_key_id q.api_key_id && leb q.since row.date)

unfoldable pub sum_where : UsageWhere → List UsageRow → ℕ
sum_where q [] = 0
sum_where q (row ∷ rows) = (if is_asked q row then row.requests else 0) + sum_where q rows

-- the table behind `prisma.usage`
pub record UsageTable (p : Platform) : Type 0 where
  pub rows : p.World → List UsageRow
  pub upsert_rows :
      (user_id : Text) (date : ℕ) (c : UsageChange) (new : UsageRow) (w : p.World)
      → (p.upsert_usage user_id date c new w).0 ≡ ok tt
      → rows (p.upsert_usage user_id date c new w).1 ≡ upserted user_id date c new (rows w)
  pub sum_result :
      (q : UsageWhere) (w : p.World) (s : Option ℕ)
      → (p.sum_requests q w).0 ≡ ok s
      → number_or_zero s ≡ sum_where q (rows w)

abbrev pub after_upsert : UsageChange → UsageRow → Option UsageRow → UsageRow
after_upsert c new none = new
after_upsert c new (some row) = incremented c row

find-upserted :
    (user_id : Text) (date : ℕ) (c : UsageChange) (new : UsageRow) (rows : List UsageRow)
    → is_of user_id date new ≡ true
    → find (is_of user_id date) (upserted user_id date c new rows)
      ≡ some (after_upsert c new (find (is_of user_id date) rows))
unfolding upserted incremented
find-upserted user_id date c new [] h = rw h refl
find-upserted user_id date c new (row ∷ rows) h = elim (Bool-cases (is_of user_id date row)) [
  | inl y ↦ rw y (rw y refl)
  | inr n ↦ rw n (rw n (find-upserted user_id date c new rows h))
]

-- one request that is recorded
pub record Call : Type 0 where
  pub key_id : Text
  pub success : Bool
  pub bytes_in : ℕ
  pub bytes_out : ℕ

abbrev pub change_of : Call → UsageChange
change_of c = usage_change c.success c.bytes_in c.bytes_out

abbrev pub row_of : Text → ℕ → Call → UsageRow
row_of user_id date c = usage_row user_id c.key_id date c.success c.bytes_in c.bytes_out

-- the row after more requests of the day
abbrev tallied : List Call → UsageRow → UsageRow
tallied [] row = row
tallied (c ∷ calls) row = tallied calls (incremented (change_of c) row)

abbrev pub bytes_of : (Call → ℕ) → List Call → ℕ
bytes_of f [] = 0
bytes_of f (c ∷ calls) = f c + bytes_of f calls

abbrev pub successes : List Call → ℕ
successes calls = length (filter (λ (c : Call). c.success) calls)

-- what a row has gained
pub record Gained (calls : List Call) (before after : UsageRow) : Type 0 where
  pub key_kept : after.api_key_id ≡ before.api_key_id
  pub requests : after.requests ≡ before.requests + length calls
  pub success_count : after.success_count ≡ before.success_count + successes calls
  pub both_counts :
      after.success_count + after.error_count
      ≡ before.success_count + before.error_count + length calls
  pub bytes_in : after.bytes_in ≡ before.bytes_in + bytes_of (λ c. c.bytes_in) calls
  pub bytes_out : after.bytes_out ≡ before.bytes_out + bytes_of (λ c. c.bytes_out) calls

tallied-Gained : (calls : List Call) (row : UsageRow) → Gained calls row (tallied calls row)
unfolding incremented usage_change
tallied-Gained [] row = ground arith
tallied-Gained (c ∷ calls) row =
    let rest = tallied-Gained calls (incremented (change_of c) row) in ground arith

module _ (p : Platform) (table : UsageTable p) (user_id : Text) (day : ℕ) where
  open p use {World, now, start_of_day, upsert_usage}

  abbrev pub record_all : List Call → World → World
  record_all [] w = w
  record_all (c ∷ calls) w =
      record_all calls (record_usage p user_id c.key_id c.success c.bytes_in c.bytes_out w).1

  -- Each request is recorded on the day, and the database takes it.
  abbrev pub OnDay : List Call → World → Type 0
  OnDay [] w = Unit
  OnDay (c ∷ calls) w =
      (start_of_day (now w) ≡ day)
      × ((upsert_usage user_id day (change_of c) (row_of user_id day c) w).0 ≡ ok tt)
      × OnDay calls (record_usage p user_id c.key_id c.success c.bytes_in c.bytes_out w).1

  abbrev pub row_in : World → Option UsageRow
  row_in w = find (is_of user_id day) (table.rows w)

  pub record_usage-rows :
      (c : Call) (w : World)
      → start_of_day (now w) ≡ day
      → (upsert_usage user_id day (change_of c) (row_of user_id day c) w).0 ≡ ok tt
      → table.rows (record_usage p user_id c.key_id c.success c.bytes_in c.bytes_out w).1
        ≡ upserted user_id day (change_of c) (row_of user_id day c) (table.rows w)
  unfolding record_usage
  record_usage-rows c w today taken =
      rw
        (
          today,
          catch-of_ok (λ e. return tt)
              (upsert_usage user_id day (change_of c) (row_of user_id day c) w) tt taken,
        )
        (table.upsert_rows user_id day (change_of c) (row_of user_id day c) w taken)

  pub record_usage-row :
      (c : Call) (w : World)
      → start_of_day (now w) ≡ day
      → (upsert_usage user_id day (change_of c) (row_of user_id day c) w).0 ≡ ok tt
      → row_in (record_usage p user_id c.key_id c.success c.bytes_in c.bytes_out w).1
        ≡ some (after_upsert (change_of c) (row_of user_id day c) (row_in w))
  unfolding usage_row
  record_usage-row c w today taken =
      let new : is_of user_id day (row_of user_id day c) ≡ true =
        rw (text_eq_refl user_id) (ground arith) in
      rw (record_usage-rows c w today taken)
        (find-upserted user_id day (change_of c) (row_of user_id day c) (table.rows w) new)

  record_more :
      (calls : List Call) (w : World) (row : UsageRow)
      → row_in w ≡ some row
      → OnDay calls w
      → row_in (record_all calls w) ≡ some (tallied calls row)
  record_more [] w row found h = found
  record_more (c ∷ calls) w row found h =
      record_more calls _ (incremented (change_of c) row)
        (record_usage-row c w h.0 h.1 ∙ rw found refl) h.2

  -- If no request of a user was recorded on a day and then some are, each of them taken by the
  -- database, then the row of the day counts them all, with their outcomes and their bytes, and it
  -- counts them on the key of the first of them, whichever keys the others came with.
  pub record_all-row :
      (c : Call) (calls : List Call) (w : World)
      → row_in w ≡ none
      → OnDay (c ∷ calls) w
      → (row : UsageRow) × (row_in (record_all (c ∷ calls) w) ≡ some row)
        × (row.api_key_id ≡ c.key_id)
        × (row.requests ≡ length (c ∷ calls))
        × (row.success_count ≡ successes (c ∷ calls))
        × (row.success_count + row.error_count ≡ length (c ∷ calls))
        × (row.bytes_in ≡ bytes_of (λ (c : Call). c.bytes_in) (c ∷ calls))
        × (row.bytes_out ≡ bytes_of (λ (c : Call). c.bytes_out) (c ∷ calls))
  unfolding usage_row
  record_all-row c calls w empty h =
      let first : row_in (record_usage p user_id c.key_id c.success c.bytes_in c.bytes_out w).1
          ≡ some (row_of user_id day c) =
        record_usage-row c w h.0 h.1 ∙ rw empty refl in
      let gained = tallied-Gained calls (row_of user_id day c) in
      (
        tallied calls (row_of user_id day c),
        record_more calls _ (row_of user_id day c) first h.2,
        gained.key_kept,
        omega (arith, gained.requests),
        ground arith,
        ground arith,
        gained.bytes_in,
        gained.bytes_out,
      )
