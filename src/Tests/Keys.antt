-- ===== src/Tests/Keys.antt =====
-- The life of one API key in the database of `Memory`.
use multi_rpc.Prelude.{
  ◌≡◌, refl, true, false, none, some, [], ◌∷◌, ◌++◌, find, Text, lit, pos, arith, text_eq,
  starts_with, All, ok,
}
use multi_rpc.Platform.{KeyRow}
use multi_rpc.ApiKey.{
  CreateOptions, CreatedKey, create, verify, revoke, is_valid_format, is_hex, to_hex, key_of_bytes,
  generate_key, hash_key, new_key, verify_row, key_data, is_expired, expiry,
}
use multi_rpc.ApiKey.Format.{IsByte}
use multi_rpc.ApiKey.Verify.{has_key, verify_sound}
use multi_rpc.ApiKey.Lifecycle.{verify-create, verify-revoke}
use multi_rpc.Tests.Memory.{memory, memory_table, repeat}

abbrev key : Text
key = lit "mrpc_abababababababababababababababababababababababababababababababab"

abbrev options : CreateOptions
options = record {
  expires_in = some (pos 30);
  rate_limit = some (pos 50);
  daily_limit = none;
  monthly_limit = none;
}

abbrev row : KeyRow
row = record {
  id = lit "k1";
  user_id = lit "u1";
  name = lit "main";
  key = lit "h" ++ key;
  active = true;
  rate_limit = pos 50;
  monthly_limit = none;
  created_at = 1;
  last_used_at = none;
  expires_at = some 5000;
}

key_found : find (has_key (lit "h" ++ key)) (row ∷ []) ≡ some row
unfolding text_eq
key_found = refl

bytes-IsByte : All IsByte (repeat 32)
bytes-IsByte = ground arith

granted : (verify memory key (row ∷ [])).0 ≡ ok (some (key_data row))
unfolding verify hash_key verify_row is_expired is_valid_format is_hex starts_with text_eq
granted = refl

verify_sound_example :
    (r : KeyRow) × (find (has_key (lit "h" ++ key)) (row ∷ []) ≡ some r)
    × (r.active ≡ true)
    × (is_expired r.expires_at 1000 ≡ false)
    × (key_data row ≡ key_data r)
    × (is_valid_format key ≡ true)
verify_sound_example = verify_sound memory memory_table key (row ∷ []) (key_data row) granted

revoked : (revoke memory (lit "u1") (lit "k1") (row ∷ [])).0 ≡ ok true
unfolding revoke text_eq
revoked = refl

verify-revoke_example :
    (verify memory key (revoke memory (lit "u1") (lit "k1") (row ∷ [])).1).0 ≡ ok none
verify-revoke_example =
    verify-revoke memory memory_table (lit "u1") key (row ∷ []) row key_found refl revoked

abbrev made : CreatedKey
made = record {
  row = record {
    id = lit "kh" ++ key;
    user_id = lit "u2";
    name = lit "ci";
    key = key;
    active = true;
    rate_limit = pos 50;
    monthly_limit = some (pos 100000);
    created_at = 1000;
    last_used_at = none;
    expires_at = some 2592001000;
  };
  prefix = lit "mrpc_abababa...";
  daily_limit = pos 10000;
}

created : (create memory (lit "u2") (lit "ci") options []).0 ≡ ok made
unfolding create generate_key key_of_bytes hash_key new_key to_hex expiry
created = refl

created_unexpired : is_expired made.row.expires_at 1000 ≡ false
unfolding is_expired
created_unexpired = refl

verify-create_example :
    (verify memory key (create memory (lit "u2") (lit "ci") options []).1).0
    ≡ ok (
        some (record {
          user_id = lit "u2";
          key_id = made.row.id;
          rate_limit = pos 50;
          daily_limit = pos 10000;
          monthly_limit = pos 100000;
        }))
verify-create_example =
    verify-create memory memory_table (lit "u2") (lit "ci") options [] made bytes-IsByte refl
      created (find (has_key (lit "h" ++ key)) (create memory (lit "u2") (lit "ci") options []).1)
      refl created_unexpired refl
