-- ===== src/ApiKey/Verify.antt =====
-- What `verify` grants and refuses. The documented behaviour of the database that the proofs rely on
-- is the record `KeyTable`: the table of keys as a list of rows, and what each call does to it.
use multi_rpc.Prelude.{
  ℕ, ◌≡◌, refl, Bool, true, false, ◌&&◌, Option, none, some, List, [], ◌∷◌, ◌++◌, map, find, filter,
  length, Text, text_eq, if◌then◌else◌, arith, ok, err, Result, bind_from, catch_from, Bool-cases,
  inl, inr, return, catch-ok, sym, ap,
}
use multi_rpc.Platform.{Platform, KeyRow, NewKey, KeyChange}
use multi_rpc.ApiKey.{
  KeyData, key_data, is_valid_format, is_expired, verify, verify_row, verify_found, hash_key,
  deactivate, touch,
}

-- the fields that a change sets
abbrev pub changed {ℓ} : {A : Type ℓ} → Option A → A → A
changed none a = a
changed (some b) a = b

abbrev pub changed_maybe {ℓ} : {A : Type ℓ} → Option A → Option A → Option A
changed_maybe none a = a
changed_maybe (some b) a = some b

abbrev pub apply_change : KeyChange → KeyRow → KeyRow
apply_change c row = record row {
  active = changed c.active row.active;
  last_used_at = changed_maybe c.last_used_at row.last_used_at;
  name = changed c.name row.name;
  rate_limit = changed c.rate_limit row.rate_limit;
  monthly_limit = changed_maybe c.monthly_limit row.monthly_limit;
}

abbrev pub has_key : Text → KeyRow → Bool
has_key hash row = text_eq row.key hash

abbrev pub has_id : Text → KeyRow → Bool
has_id id row = text_eq row.id id

abbrev pub is_owned : Text → Text → KeyRow → Bool
is_owned id user_id row = text_eq row.id id && text_eq row.user_id user_id

abbrev pub apply_where : (KeyRow → Bool) → KeyChange → KeyRow → KeyRow
apply_where test c row = if test row then apply_change c row else row

-- the row that an insert makes of its data
pub record IsRowOf (d : NewKey) (row : KeyRow) : Type 0 where
  pub user_id : row.user_id ≡ d.user_id
  pub key : row.key ≡ d.key
  pub active : row.active ≡ d.active
  pub expires_at : row.expires_at ≡ d.expires_at
  pub rate_limit : row.rate_limit ≡ d.rate_limit
  pub monthly_limit : row.monthly_limit ≡ some d.monthly_limit

-- `key` and `id` are unique in the schema: an insert of a key that is there throws.
pub record KeyTable (p : Platform) : Type 0 where
  pub keys : p.World → List KeyRow
  pub find_unique_rows : (hash : Text) (w : p.World) → keys (p.find_unique_key hash w).1 ≡ keys w
  pub find_unique_result :
      (hash : Text) (w : p.World) (found : Option KeyRow)
      → (p.find_unique_key hash w).0 ≡ ok found
      → found ≡ find (has_key hash) (keys w)
  pub create_rows :
      (d : NewKey) (w : p.World) (row : KeyRow)
      → (p.create_key d w).0 ≡ ok row
      → (keys (p.create_key d w).1 ≡ keys w ++ (row ∷ []))
        × IsRowOf d row
        × (find (has_key d.key) (keys w) ≡ none)
  pub update_rows :
      (id : Text) (c : KeyChange) (w : p.World)
      → (p.update_key id c w).0 ≡ ok tt
      → keys (p.update_key id c w).1 ≡ map (apply_where (has_id id) c) (keys w)
  pub update_many_rows :
      (id user_id : Text) (c : KeyChange) (w : p.World) (n : ℕ)
      → (p.update_many_keys id user_id c w).0 ≡ ok n
      → (keys (p.update_many_keys id user_id c w).1
          ≡ map (apply_where (is_owned id user_id) c) (keys w))
        × (n ≡ length (filter (is_owned id user_id) (keys w)))

-- `verify` never throws, whatever the database does: the development login of the RPC route, which
-- stands in a `catch` around it, is unreachable.
pub verify_total :
    (p : Platform) (key : Text) (w : p.World)
    → (found : Option KeyData) × ((verify p key w).0 ≡ ok found)
unfolding verify
verify_total p key w = elim (Bool-cases (is_valid_format key)) [
  | inl valid ↦ rw valid (catch-ok none _)
  | inr wrong ↦ rw wrong (none, refl)
]

-- What is left of a verification once the row's update has been asked for.
granted-of :
    {S : Type 0} (last : Option KeyData) (granted : KeyData) (r : Result (Unit {0}) × S)
    → (catch_from (λ e. return none) (bind_from (λ _. return last) r)).0 ≡ ok (some granted)
    → last ≡ some granted
granted-of last granted (ok tt, s) h = ground arith
granted-of last granted (err e, s) h = cc

verify_row_sound :
    (p : Platform) (row : KeyRow) (w : p.World) (granted : KeyData)
    → (catch_from (λ e. return none) (verify_row p row w)).0 ≡ ok (some granted)
    → (row.active ≡ true) × (is_expired row.expires_at (p.now w) ≡ false) × (granted ≡ key_data row)
unfolding verify_row key_data
verify_row_sound p row w granted h = elim (Bool-cases row.active) [
  | inl live ↦ elim (Bool-cases (is_expired row.expires_at (p.now w))) [
    | inl over ↦
        cc (granted-of none granted (p.update_key row.id deactivate w) (rw (live, over) at h))
    | inr good ↦
        let q =
          granted-of (some (key_data row)) granted (p.update_key row.id (touch (p.now w)) w)
            (rw (live, good) at h) in
        (live, good, cc q)
  ]
  | inr off ↦ let q : ok none ≡ ok (some granted) = (rw off at h) in cc q
]

module _ (p : Platform) (table : KeyTable p) where
  open table use {keys, find_unique_result}

  -- Whatever `verify` grants belongs to a stored key whose hash is that of the text, which is active
  -- and has not expired; and the text has the format of a key.
  pub verify_sound :
      (key : Text) (w : p.World) (granted : KeyData)
      → (verify p key w).0 ≡ ok (some granted)
      → (row : KeyRow) × (find (has_key (p.sha256_hex key)) (keys w) ≡ some row)
        × (row.active ≡ true)
        × (is_expired row.expires_at (p.now (p.find_unique_key (p.sha256_hex key) w).1) ≡ false)
        × (granted ≡ key_data row)
        × (is_valid_format key ≡ true)
  unfolding verify hash_key
  verify_sound key w granted h = elim (Bool-cases (is_valid_format key)) [
    | inl valid ↦ go valid (p.find_unique_key (p.sha256_hex key) w) refl (rw valid at h)
    | inr wrong ↦ let q : ok none ≡ ok (some granted) = (rw wrong at h) in cc q
  ]
    where
      go :
          is_valid_format key ≡ true
          → (r : Result (Option KeyRow) × p.World) → r ≡ p.find_unique_key (p.sha256_hex key) w
          → (catch_from (λ e. return none) (bind_from (verify_found p) r)).0 ≡ ok (some granted)
          → (row : KeyRow) × (find (has_key (p.sha256_hex key)) (keys w) ≡ some row)
            × (row.active ≡ true)
            × (is_expired row.expires_at (p.now r.1) ≡ false)
            × (granted ≡ key_data row)
            × (is_valid_format key ≡ true)
      go valid (ok none, w') e h' = cc h'
      go valid (ok (some row), w') e h' =
          let (live, good, same) = verify_row_sound p row w' granted h' in
          (row, sym (find_unique_result _ _ _ (ap (λ r. r.0) (sym e))), live, good, same, valid)
      go valid (err e', w') e h' = cc h'
