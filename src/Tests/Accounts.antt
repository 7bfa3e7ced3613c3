-- ===== src/Tests/Accounts.antt =====
-- The routes of the API keys without Privy, where every request is of the demo user.
use multi_rpc.Prelude.{
  ◌≡◌, refl, true, none, some, List, [], ◌∷◌, find, Text, lit, text_eq, pos, ok,
}
use multi_rpc.Platform.{KeyRow}
use multi_rpc.ApiKey.{revoke, verify}
use multi_rpc.ApiKey.Verify.{has_key}
use multi_rpc.KeyRoute.{Accounts, KeyBody, KeyRequest, success, demo_user}
use multi_rpc.KeyRoute.Handlers.{get_user_from_token, delete_key}
use multi_rpc.KeyRoute.Creating.{verify-delete_key}
use multi_rpc.Tests.Memory.{memory, memory_table}

abbrev on_plan : Text → Accounts memory
on_plan plan = record {
  upsert_user = λ id w. (ok (id, none), w);
  find_plan = λ id w. (ok (some plan), w);
}

abbrev body : KeyBody
body = record {
  name = some (lit " ci ");
  expires_in = none;
  rate_limit = some (pos 900);
  daily_limit = none;
  monthly_limit = none;
}

abbrev request : KeyRequest
request = record { authorization = some (lit "Bearer x"); id = some (lit "k1"); body = ok body }

demo :
    (plan : Text) (w : List KeyRow)
    → get_user_from_token memory (on_plan plan) none (some (lit "Bearer x")) w
      ≡ (ok (some demo_user), w)
unfolding get_user_from_token
demo plan w = refl

abbrev row : KeyRow
row = record {
  id = lit "k1";
  user_id = lit "demo-user";
  name = lit "main";
  key = lit "hkey";
  active = true;
  rate_limit = pos 10;
  monthly_limit = none;
  created_at = 1;
  last_used_at = none;
  expires_at = none;
}

abbrev key : Text
key = lit "mrpc_abababababababababababababababababababababababababababababababab"

there : find (has_key (lit "hkey")) (row ∷ []) ≡ some row
unfolding text_eq
there = refl

deleted : (delete_key memory (on_plan (lit "FREE")) none request (row ∷ [])).0 ≡ ok success
unfolding delete_key get_user_from_token revoke text_eq
deleted = refl

verify-delete_key_example :
    (verify memory
      (lit "key")
      (delete_key memory (on_plan (lit "FREE")) none request (row ∷ [])).1).0
    ≡ ok none
verify-delete_key_example =
    verify-delete_key memory (on_plan (lit "FREE")) none memory_table request (row ∷ []) (row ∷ [])
      demo_user (lit "key") row (demo (lit "FREE") (row ∷ [])) there refl refl deleted
