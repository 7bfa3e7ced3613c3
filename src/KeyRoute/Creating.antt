-- ===== src/KeyRoute/Creating.antt =====
-- What the four handlers answer.
use multi_rpc.Prelude.{
  ℕ, Bool, true, false, Option, none, some, List, [], ◌∷◌, Text, lit, text_or, find, length, ◌==◌,
  Result, ok, err, bind_from, catch_from, catch-ok, return, ◌≡◌, refl, arith,
}
use multi_rpc.Platform.{Platform, KeyRow}
use multi_rpc.ApiKey.{
  CreatedKey, ListedKey, create, list, revoke, verify, generate_key, key_of_bytes, key_length,
}
use multi_rpc.ApiKey.Verify.{KeyTable, has_key}
use multi_rpc.ApiKey.Lifecycle.{verify-revoke}
use multi_rpc.Middleware.{Privy}
use multi_rpc.KeyRoute.{
  User, Accounts, KeyBody, KeyRequest, KeyReply, error, keys, created, success, PlanLimits,
  plan_limits, options_for, is_full, created_reply, mock_reply, trim,
}
use multi_rpc.KeyRoute.Handlers.{
  get_user_from_token, get_keys, post_key, delete_key, put_key, create_stored, plan_of,
  too_many_keys, mock_keys, revoke_key, found_reply,
}

list_total :
    (p : Platform) (user_id : Text) (w : p.World)
    → (ks : List ListedKey) × ((list p user_id w).0 ≡ ok ks)
unfolding list
list_total p user_id w = catch-ok [] _

revoke_total :
    (p : Platform) (user_id key_id : Text) (w : p.World)
    → (b : Bool) × ((revoke p user_id key_id w).0 ≡ ok b)
unfolding revoke
revoke_total p user_id key_id w = catch-ok false _

module _ (p : Platform) (accounts : Accounts p) (privy : Option Privy) where
  -- Each of the four handlers answers every request: no exception leaves it.
  pub handlers_total :
      (req : KeyRequest) (w : p.World)
      → ((r : KeyReply) × ((get_keys p accounts privy req w).0 ≡ ok r))
        × ((r : KeyReply) × ((post_key p accounts privy req w).0 ≡ ok r))
        × ((r : KeyReply) × ((delete_key p accounts privy req w).0 ≡ ok r))
        × ((r : KeyReply) × ((put_key p accounts privy req w).0 ≡ ok r))
  unfolding get_keys post_key delete_key put_key
  handlers_total req w = (catch-ok _ _, catch-ok _ _, catch-ok _ _, catch-ok _ _)

  module _ (req : KeyRequest) (w w₁ : p.World) (user : User)
      (known : get_user_from_token p accounts privy req.authorization w
        ≡ (ok (some user), w₁)) where
    -- `GET` answers an authenticated user with the manager's list; the stand-in list is never used.
    pub get_keys-list :
        (ks : List ListedKey) × ((list p user.id w₁).0 ≡ ok ks)
        × (get_keys p accounts privy req w ≡ (ok (keys ks), (list p user.id w₁).1))
    unfolding get_keys
    get_keys-list =
        let (ks, answered) = list_total p user.id w₁ in
        (ks, answered, rw known (go (list p user.id w₁) answered))
      where
        go :
            {ks : List ListedKey} (r : Result (List ListedKey) × p.World)
            → r.0 ≡ ok ks
            → catch_from
                (λ e. return (error 500 (lit "Failed to fetch API keys")))
                (catch_from
                  (λ e. mock_keys p accounts privy)
                  (bind_from (λ ks. return (keys ks)) r))
              ≡ (ok (keys ks), r.1)
        go (ok f, w') e = ground arith
        go (err m, w') e = cc e

    -- An authenticated user who names a key while the plan has no room left is answered 403 and gets
    -- no key, if the database answers both questions.
    pub post_key-full :
        (body : KeyBody) (found : Option Text) (limits : PlanLimits) (n : ℕ) (w₂ w₃ : p.World)
        → req.body ≡ ok body
        → length (trim (text_or body.name [])) == 0 ≡ false
        → accounts.find_plan user.id w₁ ≡ (ok found, w₂)
        → p.count_active_keys user.id w₂ ≡ (ok n, w₃)
        → plan_limits (plan_of p accounts privy found) ≡ some limits
        → is_full limits n ≡ true
        → post_key p accounts privy req w
          ≡ (ok (too_many_keys p accounts privy limits (plan_of p accounts privy found)), w₃)
    unfolding post_key create_stored
    post_key-full body found limits n w₂ w₃ read named plan counted row full =
        rw (known, read, named, plan, counted, row, full)

    -- An authenticated user who names a key while the plan has room gets the key that the manager
    -- creates with the options of that plan, if the database answers.
    pub post_key-create :
        (body : KeyBody) (found : Option Text) (limits : PlanLimits) (n : ℕ) (w₂ w₃ w₄ : p.World)
        (c : CreatedKey)
        → req.body ≡ ok body
        → length (trim (text_or body.name [])) == 0 ≡ false
        → accounts.find_plan user.id w₁ ≡ (ok found, w₂)
        → p.count_active_keys user.id w₂ ≡ (ok n, w₃)
        → plan_limits (plan_of p accounts privy found) ≡ some limits
        → is_full limits n ≡ false
        → create p user.id (trim (text_or body.name [])) (options_for limits body) w₃ ≡ (ok c, w₄)
        → post_key p accounts privy req w ≡ (ok (created (created_reply body c)), w₄)
    unfolding post_key create_stored
    post_key-create body found limits n w₂ w₃ w₄ c read named plan counted row room made =
        rw (known, read, named, plan, counted, row, room, made)

    -- When an authenticated user names a key and the database fails on the way, the answer is a key
    -- all the same: one that was generated after the failure and was not given to the database.
    pub post_key-unstored :
        (body : KeyBody) (message : Text) (w₂ : p.World)
        → req.body ≡ ok body
        → length (trim (text_or body.name [])) == 0 ≡ false
        → create_stored p accounts privy user (trim (text_or body.name [])) body w₁
          ≡ (err message, w₂)
        → let random = p.random_bytes key_length w₂ in
          post_key p accounts privy req w ≡ (
            ok (
                created (
                  mock_reply
                    (trim (text_or body.name []))
                    body
                    (key_of_bytes p random.0)
                    (p.now random.1))),
            random.1,
          )
    unfolding post_key generate_key
    post_key-unstored body message w₂ read named away = rw (known, read, named, away)

  -- A `DELETE` that succeeds is a revocation that succeeds.
  revoked-by :
      (id : Option Text) (user : User) (w : p.World) (row : KeyRow)
      → id ≡ some row.id
      → (catch_from
          (λ e. return (error 500 (lit "Failed to delete API key")))
          (revoke_key p accounts privy id user w)).0
        ≡ ok success
      → ((revoke p user.id row.id w).0 ≡ ok true)
        × ((catch_from
              (λ e. return (error 500 (lit "Failed to delete API key")))
              (revoke_key p accounts privy id user w)).1
            ≡ (revoke p user.id row.id w).1)
  revoked-by none user w row asked h = cc h
  revoked-by (some []) user w row asked h = cc h
  revoked-by (some (c ∷ s)) user w row asked h =
      let (b, answered) = revoke_total p user.id (c ∷ s) w in
      let same : c ∷ s ≡ row.id = ground arith in
      rw (← same) (go (revoke p user.id (c ∷ s) w) answered h)
    where
      go :
          {b : Bool} (r : Result Bool × p.World)
          → r.0 ≡ ok b
          → (catch_from
              (λ e. return (error 500 (lit "Failed to delete API key")))
              (catch_from
                (λ e. return success)
                (bind_from (λ done. return (found_reply p accounts privy done)) r))).0
            ≡ ok success
          → (r.0 ≡ ok true)
            × ((catch_from
                  (λ e. return (error 500 (lit "Failed to delete API key")))
                  (catch_from
                    (λ e. return success)
                    (bind_from (λ done. return (found_reply p accounts privy done)) r))).1
                ≡ r.1)
      go (ok true, w') e k = (refl, refl)
      go (ok false, w') e k = cc k
      go (err m, w') e k = cc e

  -- Once `DELETE` has answered the owner of a stored key with success, for the id of its row,
  -- `verify` refuses that key.
  pub verify-delete_key :
      (table : KeyTable p) (req : KeyRequest) (w w₁ : p.World) (user : User) (key : Text)
      (row : KeyRow)
      → get_user_from_token p accounts privy req.authorization w ≡ (ok (some user), w₁)
      → find (has_key (p.sha256_hex key)) (table.keys w₁) ≡ some row
      → row.user_id ≡ user.id
      → req.id ≡ some row.id
      → (delete_key p accounts privy req w).0 ≡ ok success
      → (verify p key (delete_key p accounts privy req w).1).0 ≡ ok none
  unfolding delete_key
  verify-delete_key table req w w₁ user key row known there owner asked done =
      let (gone, end) = revoked-by req.id user w₁ row asked (rw known at done) in
      rw (known, end) (verify-revoke p table user.id key w₁ row there owner gone)
