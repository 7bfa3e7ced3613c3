-- ===== src/KeyRoute/Handlers.antt =====
-- web-ui/src/app/api/keys/route.ts: `getUserFromToken` and the four handlers.
use multi_rpc.Prelude.{
  ℕ, Bool, true, false, ◌==◌, Option, none, some, [], ◌∷◌, ◌++◌, Text, lit, text_or, remove_first,
  length, if◌then◌else◌, Result, ok, err, Act, ◌>>=◌, return, throw, try_catch,
}
use multi_rpc.Limiter.{int_decimal}
use multi_rpc.Platform.{Platform}
use multi_rpc.ApiKey.{create, list, revoke, update, generate_key, get_now}
use multi_rpc.Middleware.{Privy}
use multi_rpc.KeyRoute.{
  User, Accounts, KeyBody, KeyRequest, KeyReply, error, keys, created, success, PlanLimits,
  plan_limits, trim, options_for, is_full, created_reply, mock_reply, mock_listing, demo_user,
  changes,
}

module _ (p : Platform) (accounts : Accounts p) (privy : Option Privy) where
  open p use {World, count_active_keys}
  open accounts use {upsert_user, find_plan}

  abbrev pub account : Text → Result (Option Text) → Act World (Option User)
  account token (err e) = throw e
  account token (ok none) = return none
  account token (ok (some id)) = do
    row ← upsert_user id
    return (some (record { id = row.0; email = text_or row.1 (id ++ lit "@privy.io") }))

  abbrev pub user_of_token : Option Privy → Text → Act World (Option User)
  user_of_token none token = return (some demo_user)
  user_of_token (some check) token = try_catch (account token (check token)) (λ e. return none)

  -- `getUserFromToken(authorization)`
  unfoldable pub get_user_from_token : Option Text → Act World (Option User)
  get_user_from_token none = return none
  get_user_from_token (some []) = return none
  get_user_from_token (some (c ∷ s)) = user_of_token privy (remove_first (c ∷ s) (lit "Bearer "))

  abbrev pub with_user : (User → Act World KeyReply) → Option User → Act World KeyReply
  with_user serve none = return (error 401 (lit "Unauthorized"))
  with_user serve (some user) = serve user

  -- the frame of each handler
  abbrev pub handler : Text → KeyRequest → (User → Act World KeyReply) → Act World KeyReply
  handler failure req serve =
      try_catch (do user ← get_user_from_token req.authorization; with_user serve user)
        (λ e. return (error 500 failure))

  abbrev pub mock_keys : Act World KeyReply
  mock_keys = do time ← get_now p; return (keys (mock_listing time))

  abbrev pub list_keys : User → Act World KeyReply
  list_keys user = try_catch (do ks ← list p user.id; return (keys ks)) (λ e. mock_keys)

  -- `GET`
  unfoldable pub get_keys : KeyRequest → Act World KeyReply
  get_keys req = handler (lit "Failed to fetch API keys") req list_keys

  abbrev pub too_many_keys : PlanLimits → Text → KeyReply
  too_many_keys limits plan = error 403 (
      lit "Maximum number of API keys ("
      ++ int_decimal limits.max_keys
      ++ lit ") reached for "
      ++ plan
      ++ lit " plan")

  abbrev pub create_within : User → Text → KeyBody → PlanLimits → Act World KeyReply
  create_within user name body limits = do
    c ← create p user.id name (options_for limits body)
    return (created (created_reply body c))

  -- A plan with no entry makes the reading of its limits throw.
  abbrev pub create_if_room :
      User → Text → KeyBody → Text → ℕ → Option PlanLimits → Act World KeyReply
  create_if_room user name body plan existing none =
      throw (lit "Cannot read properties of undefined")
  create_if_room user name body plan existing (some limits) =
      if is_full limits existing
      then return (too_many_keys limits plan)
      else create_within user name body limits

  abbrev pub plan_of : Option Text → Text
  plan_of found = text_or found (lit "FREE")

  -- the inner `try` of `POST`
  unfoldable pub create_stored : User → Text → KeyBody → Act World KeyReply
  create_stored user name body = do
    found ← find_plan user.id
    existing ← count_active_keys user.id
    create_if_room user name body (plan_of found) existing (plan_limits (plan_of found))

  -- its `catch`
  abbrev pub create_mock : Text → KeyBody → Act World KeyReply
  create_mock name body = do
    generated ← generate_key p
    time ← get_now p
    return (created (mock_reply name body generated time))

  abbrev pub create_named : User → KeyBody → Text → Act World KeyReply
  create_named user body name =
      if length name == 0
      then return (error 400 (lit "Name is required"))
      else try_catch (create_stored user name body) (λ e. create_mock name body)

  abbrev pub create_from : User → Result KeyBody → Act World KeyReply
  create_from user (err e) = throw e
  create_from user (ok body) = create_named user body (trim (text_or body.name []))

  -- `POST`
  unfoldable pub post_key : KeyRequest → Act World KeyReply
  post_key req = handler (lit "Failed to create API key") req (λ user. create_from user req.body)

  -- what `DELETE` and `PUT` answer
  abbrev pub found_reply : Bool → KeyReply
  found_reply true = success
  found_reply false = error 404 (lit "API key not found")

  abbrev pub revoke_key : Option Text → User → Act World KeyReply
  revoke_key none user = return (error 400 (lit "Key ID is required"))
  revoke_key (some []) user = return (error 400 (lit "Key ID is required"))
  revoke_key (some (c ∷ s)) user =
      try_catch (do done ← revoke p user.id (c ∷ s); return (found_reply done))
        (λ e. return success)

  -- `DELETE`
  unfoldable pub delete_key : KeyRequest → Act World KeyReply
  delete_key req = handler (lit "Failed to delete API key") req (revoke_key req.id)

  abbrev pub update_from : Text → User → Result KeyBody → Act World KeyReply
  update_from id user (err e) = throw e
  update_from id user (ok body) =
      try_catch (do done ← update p user.id id (changes body); return (found_reply done))
        (λ e. return success)

  abbrev pub update_key : Option Text → Result KeyBody → User → Act World KeyReply
  update_key none body user = return (error 400 (lit "Key ID is required"))
  update_key (some []) body user = return (error 400 (lit "Key ID is required"))
  update_key (some (c ∷ s)) body user = update_from (c ∷ s) user body

  -- `PUT`
  unfoldable pub put_key : KeyRequest → Act World KeyReply
  put_key req = handler (lit "Failed to update API key") req (update_key req.id req.body)
