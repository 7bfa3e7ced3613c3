-- ===== src/ApiKey.antt =====
-- web-ui/src/lib/api-key.ts: `ApiKeyManager`, over the database and the cryptography of `Platform`.
-- `verify` also returns the row's user object, which no caller reads; it is left out.
pub mod Format
pub mod Verify
pub mod Lifecycle
use multi_rpc.Prelude.{
  ℕ, ◌+◌, ◌-◌, ◌*◌, ◌/◌, ◌%◌, ◌≡◌, Bool, true, false, not, ◌&&◌, ◌||◌, ◌==◌, Option, none, some,
  List, [], ◌∷◌, ◌++◌, map, Text, lit, substring, starts_with, all, length, drop, ltb, leb,
  if◌then◌else◌, ℤ, pos, negsuc, num_or, Act, ok, err, ◌>>=◌, ◌>>◌, return, throw, try_catch,
}
use multi_rpc.Platform.{Platform, KeyRow, NewKey, KeyChange}

abbrev pub key_prefix : Text
key_prefix = lit "mrpc"

abbrev pub key_length : ℕ
key_length = 32

-- `Buffer.toString('hex')`: two digits for each byte
abbrev pub hex_digit : ℕ → ℕ
hex_digit n = if ltb n 10 then b'0' + n else 87 + n

unfoldable pub to_hex : List ℕ → Text
to_hex [] = []
to_hex (b ∷ bs) = hex_digit (b / 16) ∷ hex_digit (b % 16) ∷ to_hex bs

pub record GeneratedKey : Type 0 where
  pub key : Text
  pub hashed_key : Text
  pub prefix : Text

-- `[a-f0-9]`
unfoldable pub is_hex : ℕ → Bool
is_hex c = leb b'a' c && leb c b'f' || leb b'0' c && leb c b'9'

-- `/^mrpc_[a-f0-9]{64}$/.test(key)`
unfoldable pub is_valid_format : Text → Bool
is_valid_format key =
    let start = key_prefix ++ lit "_" in
    let rest = drop (length start) key in
    starts_with key start && all is_hex rest && length rest == key_length * 2

pub record CreateOptions : Type 0 where
  pub expires_in : Option ℤ
  pub rate_limit : Option ℤ
  pub daily_limit : Option ℤ
  pub monthly_limit : Option ℤ

abbrev pub day_ms : ℕ
day_ms = 24 * 60 * 60 * 1000

-- A date that many days from now; one before the epoch is kept at the epoch.
abbrev pub date_after : ℕ → ℤ → ℕ
date_after now (pos n) = now + n * day_ms
date_after now (negsuc n) = now - (n + 1) * day_ms

-- `expiresIn ? new Date(…) : null`
unfoldable pub expiry : Option ℤ → ℕ → Option ℕ
expiry none now = none
expiry (some (negsuc n)) now = some (date_after now (negsuc n))
expiry (some (pos n)) now = if ltb 0 n then some (date_after now (pos n)) else none

-- The row as stored, with the key itself in place of its hash, and what is not stored.
pub record CreatedKey : Type 0 where
  pub row : KeyRow
  pub prefix : Text
  pub daily_limit : ℤ

pub record KeyData : Type 0 where
  pub user_id : Text
  pub key_id : Text
  pub rate_limit : ℤ
  pub daily_limit : ℤ
  pub monthly_limit : ℤ

-- `apiKey.expiresAt && apiKey.expiresAt < new Date()`
unfoldable pub is_expired : Option ℕ → ℕ → Bool
is_expired none now = false
is_expired (some t) now = ltb t now

abbrev pub no_change : KeyChange
no_change = record {
  active = none;
  last_used_at = none;
  name = none;
  rate_limit = none;
  daily_limit = none;
  monthly_limit = none;
}

abbrev pub deactivate : KeyChange
deactivate = record no_change { active = some false }

abbrev pub touch : ℕ → KeyChange
touch now = record no_change { last_used_at = some now }

unfoldable pub key_data : KeyRow → KeyData
key_data row = record {
  user_id = row.user_id;
  key_id = row.id;
  rate_limit = row.rate_limit;
  daily_limit = pos 10000;
  monthly_limit = num_or row.monthly_limit (pos 100000);
}

pub record ListedKey : Type 0 where
  pub id : Text
  pub name : Text
  pub prefix : Text
  pub active : Bool
  pub created_at : ℕ
  pub last_used_at : Option ℕ
  pub expires_at : Option ℕ
  pub rate_limit : ℤ
  pub daily_limit : ℤ
  pub monthly_limit : ℤ

-- `Number(null)` is 0.
unfoldable pub listed : KeyRow → ListedKey
listed row = record {
  id = row.id;
  name = row.name;
  prefix = lit "mrpc_" ++ substring row.key 5 12 ++ lit "...";
  active = row.active;
  created_at = row.created_at;
  last_used_at = row.last_used_at;
  expires_at = row.expires_at;
  rate_limit = row.rate_limit;
  daily_limit = pos 10000;
  monthly_limit = num_or row.monthly_limit (pos 0);
}

module _ (p : Platform) where
  open p use {
    World, now, random_bytes, sha256_hex, create_key, find_unique_key, update_key, find_many_keys,
    update_many_keys,
  }

  unfoldable pub hash_key : Text → Text
  hash_key key = sha256_hex key

  -- the key, its hash and its prefix, from the random bytes
  unfoldable pub key_of_bytes : List ℕ → GeneratedKey
  key_of_bytes bytes =
      let key = key_prefix ++ lit "_" ++ to_hex bytes in
      record { key = key; hashed_key = hash_key key; prefix = substring key 0 12 ++ lit "..." }

  unfoldable pub generate_key : Act World GeneratedKey
  generate_key w = let (bytes, w') = random_bytes key_length w in (ok (key_of_bytes bytes), w')

  abbrev pub get_now : Act World ℕ
  get_now w = (ok (now w), w)

  -- the `data` of the insert
  unfoldable pub new_key : Text → Text → CreateOptions → GeneratedKey → ℕ → NewKey
  new_key user_id name options generated time = record {
    name = name;
    key = generated.hashed_key;
    user_id = user_id;
    active = true;
    expires_at = expiry options.expires_in time;
    rate_limit = num_or options.rate_limit (pos 10);
    monthly_limit = num_or options.monthly_limit (pos 100000);
  }

  unfoldable pub create : Text → Text → CreateOptions → Act World CreatedKey
  create user_id name options = do
    generated ← generate_key
    time ← get_now
    row ←
        try_catch (create_key (new_key user_id name options generated time))
          (λ e. throw (lit "Failed to create API key"))
    return (record {
      row = record row { key = generated.key };
      prefix = generated.prefix;
      daily_limit = num_or options.daily_limit (pos 10000);
    })

  -- an expired key is switched off; any other notes its use
  abbrev pub retire : KeyRow → Act World (Option KeyData)
  retire row = do update_key row.id deactivate; return none

  abbrev pub accept : KeyRow → ℕ → Act World (Option KeyData)
  accept row time = do update_key row.id (touch time); return (some (key_data row))

  abbrev pub check_expiry : KeyRow → Act World (Option KeyData)
  check_expiry row = do
    time ← get_now
    if is_expired row.expires_at time then retire row else accept row time

  -- the checks on the row that was found
  unfoldable pub verify_row : KeyRow → Act World (Option KeyData)
  verify_row row = if not row.active then return none else check_expiry row

  abbrev pub verify_found : Option KeyRow → Act World (Option KeyData)
  verify_found none = return none
  verify_found (some row) = verify_row row

  unfoldable pub verify : Text → Act World (Option KeyData)
  verify key =
      if not (is_valid_format key)
      then return none
      else try_catch (do found ← find_unique_key (hash_key key); verify_found found)
          (λ e. return none)

  unfoldable pub list : Text → Act World (List ListedKey)
  list user_id =
      try_catch (do keys ← find_many_keys user_id; return (map listed keys)) (λ e. return [])

  unfoldable pub revoke : Text → Text → Act World Bool
  revoke user_id key_id =
      try_catch (do n ← update_many_keys key_id user_id deactivate; return (ltb 0 n))
        (λ e. return false)

  unfoldable pub update : Text → Text → KeyChange → Act World Bool
  update user_id key_id change =
      try_catch (do n ← update_many_keys key_id user_id change; return (ltb 0 n))
        (λ e. return false)
