-- ===== src/Tests/Usage.antt =====
-- A database of usage that is a list of rows, and two keys of one user on one day.
use multi_rpc.Prelude.{
  ℕ, ◌+◌, ◌≡◌, refl, true, false, none, some, Option, List, [], ◌∷◌, lit, text_eq, Result, ok, err,
  pos, to_decimal,
}
use multi_rpc.Platform.{Platform, UsageRow}
use multi_rpc.Tests.Memory.{ok-injective}
use multi_rpc.Limiter.Usage.{number_or_zero, UsageCheck, check_usage}
use multi_rpc.Limiter.Recording.{
  UsageTable, Call, upserted, sum_where, record_all, row_in, record_all-row,
}
use multi_rpc.Limiter.Attribution.{asking, check_usage-recorded}

abbrev ledger : Platform
ledger = record {
  World = List UsageRow;
  now = λ w. 1000;
  start_of_day = λ t. 0;
  start_of_month = λ t. 0;
  random_bytes = λ n w. ([], w);
  sha256_hex = λ s. s;
  create_key = λ d w. (err (lit "no keys"), w);
  find_unique_key = λ hash w. (ok none, w);
  update_key = λ id c w. (ok tt, w);
  find_many_keys = λ user_id w. (ok [], w);
  update_many_keys = λ id user_id c w. (ok 0, w);
  count_active_keys = λ user_id w. (ok 0, w);
  sum_requests = λ q w. (ok (some (sum_where q w)), w);
  upsert_usage = λ user_id date c new w. (ok tt, upserted user_id date c new w);
  fetch = λ url v w. (err (lit "no network"), w);
  begin_fetch = λ url v w. w;
  json_length = λ v. 2;
  iso = to_decimal;
}

answered_sum :
    (a : ℕ) (s : Option ℕ) → ◌≡◌ {A = Result (Option ℕ)} (ok (some a)) (ok s) → number_or_zero s ≡ a
answered_sum a s h = rw (ok-injective h) refl

abbrev ledger_table : UsageTable ledger
ledger_table = record {
  rows = λ w. w;
  upsert_rows = λ user_id date c new w h. refl;
  sum_result = λ q w s h. answered_sum (sum_where q w) s h;
}

abbrev first_call : Call
first_call = record { key_id = lit "k1"; success = true; bytes_in = 3; bytes_out = 5 }

abbrev second_call : Call
second_call = record { key_id = lit "k2"; success = false; bytes_in = 4; bytes_out = 6 }

record_all-row_example :
    (row : UsageRow) × (row_in ledger ledger_table
        (lit "u1")
        0
        (record_all ledger ledger_table (lit "u1") 0 (first_call ∷ second_call ∷ []) [])
      ≡ some row)
    × (row.api_key_id ≡ lit "k1")
    × (row.requests ≡ 2)
    × (row.success_count ≡ 1)
    × (row.success_count + row.error_count ≡ 2)
    × (row.bytes_in ≡ 7)
    × (row.bytes_out ≡ 11)
record_all-row_example =
    record_all-row ledger ledger_table (lit "u1") 0 first_call (second_call ∷ []) [] refl
      (refl, refl, (refl, refl, tt))

k1_apart : text_eq (lit "k1") (lit "k2") ≡ false
unfolding text_eq
k1_apart = refl

check_usage-recorded_example :
    let w =
      record_all ledger ledger_table
        (lit "u1")
        0
        (first_call ∷ second_call ∷ second_call ∷ [])
        [] in
    (r : UsageCheck) × ((check_usage ledger (lit "u1") (lit "k2") (pos 1) (pos 1) w).0 ≡ ok r)
    × (r.daily_usage ≡ sum_where (asking (lit "u1") (lit "k2") 0) [])
check_usage-recorded_example =
    check_usage-recorded ledger ledger_table (lit "u1") 0 first_call
      (second_call ∷ second_call ∷ []) (lit "k2") (pos 1) (pos 1) [] _ _ refl k1_apart
      (refl, refl, (refl, refl, (refl, refl, tt))) refl refl refl
