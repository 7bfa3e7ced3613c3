-- ===== src/ApiKey/Lifecycle.antt =====
-- The life of a key: what `verify` answers after it was created, revoked or has expired.
use multi_rpc.Prelude.{
  ℕ, ◌≡◌, refl, Bool, true, false, Option, none, some, List, [], ◌∷◌, ◌++◌, map, find, lit, length,
  Text, text_eq_refl, arith, ◌∙◌, ok, err, Result, bind_from, catch_from, Bool-cases, inl, inr,
  return, throw, ltb, ℤ, pos, num_or, All, ap, sym,
}
use multi_rpc.Platform.{Platform, KeyRow, KeyChange}
use multi_rpc.ApiKey.{
  CreateOptions, CreatedKey, GeneratedKey, key_data, is_valid_format, is_expired, verify,
  verify_row, verify_found, hash_key, deactivate, touch, create, generate_key, key_of_bytes,
  new_key, key_length, revoke,
}
use multi_rpc.ApiKey.Format.{IsByte, key_of_bytes-is_valid_format}
use multi_rpc.ApiKey.Verify.{KeyTable, has_key, is_owned, apply_where}

find-append_none :
    (test : KeyRow → Bool) (rows : List KeyRow) (row : KeyRow)
    → find test rows ≡ none
    → test row ≡ true
    → find test (rows ++ row ∷ []) ≡ some row
find-append_none test [] row h t = ground arith
find-append_none test (x ∷ rows) row h t = ground (arith, find-append_none test rows row)

-- An update that the test does not notice is applied to the row that a search finds.
pub find-map :
    (test : KeyRow → Bool) (f : KeyRow → KeyRow) (blind : (x : KeyRow) → test (f x) ≡ test x)
    (rows : List KeyRow) (row : KeyRow)
    → find test rows ≡ some row
    → find test (map f rows) ≡ some (f row)
find-map test f blind [] row h = cc h
find-map test f blind (x ∷ rows) row h = ground (arith, blind x, find-map test f blind rows row)

pub has_key-apply_where :
    (hash : Text) (test : KeyRow → Bool) (c : KeyChange) (row : KeyRow)
    → has_key hash (apply_where test c row) ≡ has_key hash row
has_key-apply_where hash test c row = elim (Bool-cases (test row)) [ inl y ↦ rw y | inr n ↦ rw n ]

num_or_twice :
    (x : Option ℤ) → num_or (some (num_or x (pos 100000))) (pos 100000) ≡ num_or x (pos 100000)
num_or_twice x = ground arith

-- `create` after its insert
abbrev after_insert :
    {S : Type 0} → GeneratedKey → CreateOptions → Result KeyRow × S → Result CreatedKey × S
after_insert g options r =
    bind_from
      (λ row. return (record {
        row = record row { key = g.key };
        prefix = g.prefix;
        daily_limit = num_or options.daily_limit (pos 10000);
      }))
      (catch_from (λ e. throw (lit "Failed to create API key")) r)

inserted :
    {S : Type 0} (g : GeneratedKey) (options : CreateOptions) (c : CreatedKey)
    (r : Result KeyRow × S)
    → (after_insert g options r).0 ≡ ok c
    → (row : KeyRow) × (r.0 ≡ ok row)
      × (c.row ≡ record row { key = g.key })
      × ((after_insert g options r).1 ≡ r.1)
inserted g options c (ok row, s) h = (row, refl, ground arith, refl)
inserted g options c (err e, s) h = cc h

-- `revoke` after its update
revoked-rows :
    {S : Type 0} (r : Result ℕ × S)
    → (catch_from (λ e. return false) (bind_from (λ n. return (ltb 0 n)) r)).0 ≡ ok true
    → (n : ℕ) × (r.0 ≡ ok n)
      × ((catch_from (λ e. return false) (bind_from (λ n. return (ltb 0 n)) r)).1 ≡ r.1)
revoked-rows (ok n, s) h = (n, refl, refl)
revoked-rows (err e, s) h = cc h

module _ (p : Platform) (table : KeyTable p) where
  open table use {
    keys, find_unique_result, find_unique_rows, create_rows, update_many_rows, update_rows,
  }

  -- `verify` on a key whose row is known, when the database answers.
  verify-known :
      (key : Text) (w : p.World) (found : Option KeyRow) (row : KeyRow)
      → is_valid_format key ≡ true
      → find (has_key (p.sha256_hex key)) (keys w) ≡ some row
      → (p.find_unique_key (p.sha256_hex key) w).0 ≡ ok found
      → verify p key w
        ≡ catch_from
            (λ e. return none)
            (verify_row p row (p.find_unique_key (p.sha256_hex key) w).1)
  unfolding verify hash_key
  verify-known key w found row valid known h =
      let same : found ≡ some row = find_unique_result _ _ _ h ∙ known in
      rw valid (go (p.find_unique_key (p.sha256_hex key) w) (rw same at h))
    where
      go :
          (r : Result (Option KeyRow) × p.World)
          → r.0 ≡ ok (some row)
          → catch_from (λ e. return none) (bind_from (verify_found p) r)
            ≡ catch_from (λ e. return none) (verify_row p row r.1)
      go (ok (some row'), w') e = let q : row' ≡ row = ground arith in rw q
      go (ok none, w') e = cc e
      go (err e', w') e = cc e

  -- A stored key that is active and has not expired is granted.
  verify-stored :
      (key : Text) (w : p.World) (found : Option KeyRow) (row : KeyRow)
      → is_valid_format key ≡ true
      → find (has_key (p.sha256_hex key)) (keys w) ≡ some row
      → (p.find_unique_key (p.sha256_hex key) w).0 ≡ ok found
      → row.active ≡ true
      → let w' = (p.find_unique_key (p.sha256_hex key) w).1 in
        is_expired row.expires_at (p.now w') ≡ false
        → (p.update_key row.id (touch (p.now w')) w').0 ≡ ok tt
        → (verify p key w).0 ≡ ok (some (key_data row))
  unfolding verify_row key_data
  verify-stored key w found row valid known answered on live stamped =
      rw (verify-known key w found row valid known answered, on, live) (go _ stamped)
    where
      go :
          (r : Result (Unit {0}) × p.World)
          → r.0 ≡ ok tt
          → (catch_from (λ e. return none) (bind_from (λ _. return (some (key_data row))) r)).0
            ≡ ok (some (key_data row))
      go (ok tt, w') e = refl
      go (err e', w') e = cc e

  -- What a creation that succeeds leaves in the table.
  pub create-stored :
      (user_id name : Text) (options : CreateOptions) (w : p.World) (c : CreatedKey)
      → All IsByte (p.random_bytes key_length w).0
      → length (p.random_bytes key_length w).0 ≡ key_length
      → (create p user_id name options w).0 ≡ ok c
      → (row : KeyRow) × (is_valid_format c.row.key ≡ true)
        × (find (has_key (p.sha256_hex c.row.key)) (keys (create p user_id name options w).1)
            ≡ some row)
        × (row.active ≡ true)
        × (row.expires_at ≡ c.row.expires_at)
        × (row.id ≡ c.row.id)
        × (row.user_id ≡ user_id)
        × (row.rate_limit ≡ num_or options.rate_limit (pos 10))
        × (row.monthly_limit ≡ some (num_or options.monthly_limit (pos 100000)))
  unfolding create generate_key new_key key_of_bytes hash_key
  create-stored user_id name options w c bytes n made =
      let g = key_of_bytes p (p.random_bytes key_length w).0 in
      let w₁ = (p.random_bytes key_length w).1 in
      let d = new_key p user_id name options g (p.now w₁) in
      let (row, stored, same, end) = inserted g options c (p.create_key d w₁) made in
      let (rows, shape, absent) = create_rows d w₁ row stored in
      let key_same : c.row.key ≡ g.key = ap (λ (r : KeyRow). r.key) same in
      (
        row,
        rw key_same (key_of_bytes-is_valid_format p _ bytes n),
        rw (key_same, end, rows)
            (find-append_none (has_key d.key) (keys w₁) row absent
              (rw shape.key (text_eq_refl d.key))),
        shape.active,
        sym (ap (λ (r : KeyRow). r.expires_at) same),
        sym (ap (λ (r : KeyRow). r.id) same),
        shape.user_id,
        shape.rate_limit,
        shape.monthly_limit,
      )

  -- A key that was created, where the source of random bytes gives as many bytes as it is asked for,
  -- is granted its owner and its limits, the defaults for those that were not given, as long as the
  -- database answers the look-up and takes the note of its use, and the key has not expired.
  pub verify-create :
      (user_id name : Text) (options : CreateOptions) (w : p.World) (c : CreatedKey)
      → All IsByte (p.random_bytes key_length w).0
      → length (p.random_bytes key_length w).0 ≡ key_length
      → (create p user_id name options w).0 ≡ ok c
      → let w₁ = (create p user_id name options w).1 in
        let w₂ = (p.find_unique_key (p.sha256_hex c.row.key) w₁).1 in
        (found : Option KeyRow)
        → (p.find_unique_key (p.sha256_hex c.row.key) w₁).0 ≡ ok found
        → is_expired c.row.expires_at (p.now w₂) ≡ false
        → (p.update_key c.row.id (touch (p.now w₂)) w₂).0 ≡ ok tt
        → (verify p c.row.key w₁).0
          ≡ ok (
              some (record {
                user_id = user_id;
                key_id = c.row.id;
                rate_limit = num_or options.rate_limit (pos 10);
                daily_limit = pos 10000;
                monthly_limit = num_or options.monthly_limit (pos 100000);
              }))
  unfolding key_data
  verify-create user_id name options w c bytes n made found answered live stamped =
      let (row, valid, known, on, expiry, id, owner, rate, monthly) =
        create-stored user_id name options w c bytes n made in
      verify-stored c.row.key (create p user_id name options w).1 found row valid known answered on
        (rw expiry live) (rw id stamped)
      ∙ ground (arith, num_or_twice options.monthly_limit)

  -- A key that is switched off is refused, whatever the database answers.
  pub verify-inactive :
      (key : Text) (w : p.World) (row : KeyRow)
      → find (has_key (p.sha256_hex key)) (keys w) ≡ some row
      → row.active ≡ false
      → (verify p key w).0 ≡ ok none
  unfolding verify verify_row hash_key
  verify-inactive key w row known off = elim (Bool-cases (is_valid_format key)) [
    | inl valid ↦ rw valid (go (p.find_unique_key (p.sha256_hex key) w) refl)
    | inr wrong ↦ rw wrong
  ]
    where
      go :
          (r : Result (Option KeyRow) × p.World)
          → r ≡ p.find_unique_key (p.sha256_hex key) w
          → (catch_from (λ e. return none) (bind_from (verify_found p) r)).0 ≡ ok none
      go (ok none, w') e = refl
      go (ok (some row'), w') e =
          let same : some row' ≡ some row =
            find_unique_result _ _ _ (ap (λ r. r.0) (sym e)) ∙ known in
          let off' : row'.active ≡ false = ground arith in rw off'
      go (err e', w') e = refl

  -- Once a stored key has been revoked by its owner, `verify` refuses it.
  pub verify-revoke :
      (user_id key : Text) (w : p.World) (row : KeyRow)
      → find (has_key (p.sha256_hex key)) (keys w) ≡ some row
      → row.user_id ≡ user_id
      → (revoke p user_id row.id w).0 ≡ ok true
      → (verify p key (revoke p user_id row.id w).1).0 ≡ ok none
  unfolding revoke
  verify-revoke user_id key w row known owner revoked =
      let (n, updated, end) =
        revoked-rows (p.update_many_keys row.id user_id deactivate w) revoked in
      let rows = (update_many_rows row.id user_id deactivate w n updated).0 in
      verify-inactive key (revoke p user_id row.id w).1
        (apply_where (is_owned row.id user_id) deactivate row)
        (rw (end, rows)
          (find-map (has_key (p.sha256_hex key)) _
            (has_key-apply_where (p.sha256_hex key) (is_owned row.id user_id) deactivate) (keys w)
            row known))
        (rw (owner, text_eq_refl row.id, text_eq_refl user_id))
