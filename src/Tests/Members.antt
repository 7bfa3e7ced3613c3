-- ===== src/Tests/Members.antt =====
-- Members: their sign-up, their dashboard and the end of their account.
use multi_rpc.Prelude.{
  ℕ, ◌≡◌, refl, ap, sym, subst, ◌<◌, true, any, find, map, Option, none, some, List, [], ◌∷◌, ◌++◌,
  Text, text_eq, lit, ok, err, Act, pos, arith,
}
use multi_rpc.Platform.{KeyRow, UsageRow}
use multi_rpc.Middleware.{Privy}
use multi_rpc.ApiKey.{
  CreatedKey, CreateOptions, create, verify, generate_key, key_of_bytes, hash_key, new_key, to_hex,
  expiry,
}
use multi_rpc.ApiKey.Verify.{has_key, apply_where}
use multi_rpc.SignUp.{
  Registry, SignUpBody, signed_up, sign_up, parse, register, create_first_key, generate_api_key,
  default_key, free_subscription, local_id,
}
use multi_rpc.SignUp.Keys.{verify-sign_up}
use multi_rpc.Dashboard.{Member, nothing_known, get_dashboard}
use multi_rpc.Dashboard.Reading.{get_dashboard-create}
use multi_rpc.Profile.{Profiles, UserRow, updated, closed, delete_profile, put_profile}
use multi_rpc.Profile.Closing.{is_active_of, verify-delete_profile}
use multi_rpc.Browser.{answered}
use multi_rpc.ProfilePage.{
  clicked_edit, clicked_save, typed, Page, Form, Event, typed_confirmation, clicked_delete,
  delete_answered, save_answered, change_of, handle_delete_account, finish_deleting, step, run,
  mounted,
}
use multi_rpc.ProfilePage.Closing.{confirms, run-logged_out}
use multi_rpc.ProfilePage.Forgetting.{outcome_of, HasNoFigures, put_profile-figures}
use multi_rpc.Tests.Memory.{memory, memory_table, values-of}

abbrev key_row : Text → KeyRow
key_row key = record {
  id = lit "k1";
  user_id = lit "u1";
  name = lit "main";
  key = key;
  active = true;
  rate_limit = pos 10;
  monthly_limit = none;
  created_at = 1;
  last_used_at = none;
  expires_at = none;
}

-- sign-up
abbrev registry : Registry memory
registry = record {
  is_email = λ s. true;
  random_below = λ n w. (7, w);
  random_name = λ w. (lit "abcdefghi", w);
  bcrypt = λ s n w. (ok s, w);
  find_user = λ email w. (ok none, w);
  create_user = λ new w. (ok (record { id = lit "u1"; email = new.email; name = new.name }), w);
  create_default_key = λ d w. (ok (key_row d.key), w ++ key_row d.key ∷ []);
  create_subscription = λ s w. (ok tt, w);
}

abbrev ada : SignUpBody
ada = record { email = some (lit "a@b.c"); password = some (lit "12345678"); name = none }

signed :
    (sign_up memory registry (ok ada) []).0
    ≡ ok (
        signed_up
          (record { id = lit "u1"; email = lit "a@b.c"; name = none })
          (lit "sk_HHHHHHHHHHHHHHHHHHHHHHHHHHHHHHHH"))
unfolding sign_up parse register create_first_key generate_api_key default_key free_subscription
    local_id
signed = refl

verify-sign_up_example :
    verify memory (lit "sk_HHHHHHHHHHHHHHHHHHHHHHHHHHHHHHHH") [] ≡ (ok none, [])
verify-sign_up_example =
    verify-sign_up memory registry (λ d w w₁ row h. ap (λ r. r.key) (sym (values-of h).0)) ada
      (record { id = lit "u1"; email = lit "a@b.c"; name = none })
      (lit "sk_HHHHHHHHHHHHHHHHHHHHHHHHHHHHHHHH") [] [] signed

-- the dashboard
abbrev day : UsageRow
day = record {
  user_id = lit "u1";
  api_key_id = lit "k1";
  date = 1;
  requests = 5;
  success_count = 4;
  error_count = 1;
  bytes_in = 100;
  bytes_out = 200;
}

abbrev member_with : List KeyRow → Member
member_with rows = record {
  id = lit "u1";
  api_keys = rows;
  plan = some (lit "PRO");
  usage = day ∷ day ∷ [];
}

abbrev find_member : Text → ℕ → Act (List KeyRow) (Option Member)
find_member id from w = (ok (some (member_with w)), w)

abbrev from_start : ℕ → ℕ
from_start t = 0

complete :
    (id hash : Text) (from : ℕ) (w w₁ : List KeyRow) (member : Member) (row : KeyRow)
    → find_member id from w ≡ (ok (some member), w₁)
    → find (has_key hash) w ≡ some row
    → row.user_id ≡ member.id
    → find (has_key hash) member.api_keys ≡ some row
complete id hash from w w₁ member row h known own =
    let found : some (member_with w) ≡ some member = (values-of h).0 in
    let same : member_with w ≡ member = cc found in
    subst (λ m. find (has_key hash) m.api_keys ≡ some row) same known

abbrev options : CreateOptions
options = record { expires_in = none; rate_limit = none; daily_limit = none; monthly_limit = none }

abbrev p1 : Privy
p1 token = ok (some (lit "p1"))

abbrev key : Text
key = lit "mrpc_abababababababababababababababababababababababababababababababab"

abbrev stored : KeyRow
stored = record {
  id = lit "kh" ++ key;
  user_id = lit "u1";
  name = lit "main";
  key = lit "h" ++ key;
  active = true;
  rate_limit = pos 10;
  monthly_limit = some (pos 100000);
  created_at = 1000;
  last_used_at = none;
  expires_at = none;
}

abbrev made : CreatedKey
made = record {
  row = record stored { key = key };
  prefix = lit "mrpc_abababa...";
  daily_limit = pos 10000;
}

created : create memory (lit "u1") (lit "main") options [] ≡ (ok made, stored ∷ [])
unfolding create generate_key key_of_bytes hash_key new_key to_hex expiry
created = refl

seen_by :
    find_member (lit "p1") 0 (create memory (lit "u1") (lit "main") options []).1
    ≡ (ok (some (member_with (stored ∷ []))), stored ∷ [])
seen_by = rw created refl

get_dashboard-create_example :
    get_dashboard memory find_member from_start
      (some p1)
      (some (lit "Bearer x"))
      (create memory (lit "u1") (lit "main") options []).1
    ≡ (ok nothing_known, stored ∷ [])
get_dashboard-create_example =
    get_dashboard-create memory memory_table find_member from_start p1 complete (lit "p1")
      (lit "main") options [] (stored ∷ []) made (member_with (stored ∷ [])) 66 (lit "earer x")
      (ground arith) refl (ap (λ r. r.0) created) seen_by refl

-- the end of an account
abbrev profiles : Profiles memory (Unit {0})
profiles = record {
  verify_token =
      λ t. ok (some (record { user_id = lit "p1"; email = none; wallet_address = none }));
  find_user = λ id w. (ok none, w);
  create_user = λ new w. (err (lit "read only"), w);
  sum_usage = λ id since w. (err (lit "no usage"), w);
  find_usage = λ id date w. (ok none, w);
  update_user = λ id change w. (err (lit "read only"), w);
  update_active_keys = λ id c w. (ok tt, map (apply_where (is_active_of (lit "u1")) c) w);
}

ended : (delete_profile memory profiles (some (lit "Bearer x")) (stored ∷ [])).0 ≡ ok closed
unfolding delete_profile
ended = refl

hashed : find (has_key (lit "h" ++ key)) (stored ∷ []) ≡ some stored
unfolding text_eq
hashed = refl

verify-delete_profile_example :
    (verify memory key (delete_profile memory profiles (some (lit "Bearer x")) (stored ∷ [])).1).0
    ≡ ok none
verify-delete_profile_example =
    verify-delete_profile memory memory_table profiles (λ id w. lit "u1")
      (λ id w w₁ h. sym (values-of h).1) 66 (lit "earer x") key
      (record { user_id = lit "p1"; email = none; wallet_address = none }) (stored ∷ []) stored refl
      hashed refl ended

-- the page of the profile
abbrev closing : List Event
closing = typed_confirmation (lit "DELETE") ∷ clicked_delete ∷ delete_answered (answered tt) ∷ []

is_out : (run closing mounted).logged_out ≡ true
unfolding run step mounted handle_delete_account finish_deleting text_eq
is_out = refl

run-logged_out_example : (0 < (run closing mounted).asked) × (any confirms closing ≡ true)
run-logged_out_example = run-logged_out closing is_out

abbrev ada_row : UserRow (Unit {0})
ada_row = record {
  id = lit "u1";
  name = some (lit "Ada");
  email = none;
  image = none;
  included = tt;
  count = record { api_keys = 1; usage = 0; invoices = 0; webhooks = 0 };
}

abbrev writable : Profiles memory (Unit {0})
writable = record profiles { update_user = λ id change w. (ok ada_row, w) }

abbrev ada_form : Form
ada_form = record { name = lit "Ada"; email = []; image = [] }

abbrev saving : Page
saving = record mounted { saving = true; saves = ada_form ∷ [] }

written :
    (put_profile memory writable (ok (change_of ada_form)) (some (lit "Bearer x")) []).0
    ≡ ok (updated ada_row)
unfolding put_profile
written = refl

put_profile-figures_example :
    let reply =
      (put_profile memory writable (ok (change_of ada_form)) (some (lit "Bearer x")) []).0 in
    HasNoFigures (
      run
        (save_answered 0 (outcome_of reply) ∷ clicked_edit ∷ typed ada_form ∷ clicked_save ∷ [])
        saving)
put_profile-figures_example =
    put_profile-figures memory writable ada_form saving (some (lit "Bearer x")) [] ada_row
      (clicked_edit ∷ typed ada_form ∷ clicked_save ∷ []) refl written (tt, (tt, (tt, tt)))
