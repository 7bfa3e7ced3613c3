-- ===== src/Tests/Memory.antt =====
-- A database of keys that is a list of rows, at a fixed time, behind a network that answers every
-- request with the request itself.
use multi_rpc.Prelude.{
  ℕ, zero, suc, ◌≡◌, refl, ap, true, Option, none, some, List, [], ◌∷◌, ◌++◌, map, find, filter,
  length, Result, ok, err, lit, to_decimal, arith,
}
use multi_rpc.Platform.{Platform, KeyRow, NewKey}
use multi_rpc.ApiKey.Verify.{KeyTable, IsRowOf, has_key, has_id, is_owned, apply_where}

abbrev pub row_of : NewKey → KeyRow
row_of d = record {
  id = lit "k" ++ d.key;
  user_id = d.user_id;
  name = d.name;
  key = d.key;
  active = d.active;
  rate_limit = d.rate_limit;
  monthly_limit = some d.monthly_limit;
  created_at = 1000;
  last_used_at = none;
  expires_at = d.expires_at;
}

abbrev pub insert : NewKey → List KeyRow → Option KeyRow → Result KeyRow × List KeyRow
insert d w none = (ok (row_of d), w ++ row_of d ∷ [])
insert d w (some old) = (err (lit "unique constraint"), w)

abbrev pub repeat : ℕ → List ℕ
repeat zero = []
repeat (suc n) = 171 ∷ repeat n

abbrev pub memory : Platform
memory = record {
  World = List KeyRow;
  now = λ w. 1000;
  start_of_day = λ t. 0;
  start_of_month = λ t. 0;
  random_bytes = λ n w. (repeat n, w);
  sha256_hex = λ s. lit "h" ++ s;
  create_key = λ d w. insert d w (find (has_key d.key) w);
  find_unique_key = λ hash w. (ok (find (has_key hash) w), w);
  update_key = λ id c w. (ok tt, map (apply_where (has_id id) c) w);
  find_many_keys = λ user_id w. (ok w, w);
  update_many_keys = λ id user_id c w.
      (ok (length (filter (is_owned id user_id) w)), map (apply_where (is_owned id user_id) c) w);
  count_active_keys = λ user_id w. (ok (length w), w);
  sum_requests = λ u w. (ok none, w);
  upsert_usage = λ user_id date c r w. (ok tt, w);
  fetch = λ url v w. (ok (record { is_ok = true; json = ok v }), w);
  begin_fetch = λ url v w. w;
  json_length = λ v. 2;
  iso = to_decimal;
}

pub inserted :
    (d : NewKey) (w : List KeyRow) (found : Option KeyRow) (row : KeyRow)
    → (insert d w found).0 ≡ ok row
    → ((insert d w found).1 ≡ w ++ (row ∷ [])) × IsRowOf d row × (found ≡ none)
inserted d w none row h =
    let same : row_of d ≡ row = ground arith in
    rw (← same) (
      refl,
      record {
        user_id = refl;
        key = refl;
        active = refl;
        expires_at = refl;
        rate_limit = refl;
        monthly_limit = refl;
      },
      refl,
    )
inserted d w (some old) row h = cc h

pub ok-injective : {A : Type 0} {x y : A} → ok x ≡ ok y → y ≡ x
ok-injective h = ground arith

-- what two equal outcomes have in common
pub values-of :
    {S A : Type 0} {a a' : A} {w w' : S}
    → ◌≡◌ {A = Result A × S} (ok a, w) (ok a', w')
    → (a ≡ a') × (w ≡ w')
values-of {S} {A} {a} {a'} h =
    let same : ok a ≡ ok a' = ap (λ r. r.0) h in (cc same, ap (λ r. r.1) h)

abbrev pub memory_table : KeyTable memory
memory_table = record {
  keys = λ w. w;
  find_unique_rows = λ hash w. refl;
  find_unique_result = λ hash w found h. ok-injective h;
  create_rows = λ d w row h. inserted d w (find (has_key d.key) w) row h;
  update_rows = λ id c w h. refl;
  update_many_rows = λ id user_id c w n h. (refl, ok-injective h);
}
