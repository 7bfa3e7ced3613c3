-- ===== src/Rpc/Post/Refusals.antt =====
-- Who is served by the RPC proxy, and what a refusal leaves untouched.
use multi_rpc.Prelude.{
  ◌≡◌, true, false, Option, none, some, [], ◌++◌, Text, Result, ok, err, lit, bind_from, catch_from,
  catch-ok, return, arith, starts_with-append,
}
use multi_rpc.Platform.{Platform}
use multi_rpc.ApiKey.{KeyData, verify}
use multi_rpc.ApiKey.Verify.{verify_total}
use multi_rpc.Limiter.{check}
use multi_rpc.Rpc.Balancer.{Env}
use multi_rpc.Rpc.Post.{
  RpcCall, Auth, Response, Shared, Handler, await_from, authenticate, authenticate_by, post, handle,
  admit, limit, truthy, auth_of, dashboard_auth, mock_auth, unauthorized, internal_error, too_many,
  user_text,
}

module _ (p : Platform) (env : Env) (meanwhile : p.World → Shared → Shared) where
  -- the handler's state when the request comes in
  abbrev pub fresh : Shared → p.World → Handler p
  fresh shared w = record { shared = shared; world = w; responses = [] }

  -- The state after the key of the request was looked up.
  abbrev looked_up : Shared → p.World → Handler p
  looked_up shared w = record { shared = meanwhile w shared; world = w; responses = [] }

  -- A request that brings an API key is authenticated by what `verify` answers and by nothing else:
  -- the stand-in user for development is never used.
  authenticate-verify :
      (req : RpcCall) (key : Text) (shared : Shared) (w : p.World)
      → truthy req.api_key ≡ some key
      → (found : Option KeyData) × ((verify p key w).0 ≡ ok found)
        × (authenticate p env meanwhile req (fresh shared w)
            ≡ (ok (auth_of found), looked_up shared (verify p key w).1))
  unfolding authenticate authenticate_by
  authenticate-verify req key shared w given =
      let (found, answered) = verify_total p key w in
      (found, answered, rw given (go (verify p key w) answered))
    where
      go :
          {found : Option KeyData} (r : Result (Option KeyData) × p.World)
          → r.0 ≡ ok found
          → catch_from
              (λ e. return mock_auth)
              (bind_from
                (λ found. return (auth_of found))
                (await_from p env meanwhile (fresh shared w) r))
            ≡ (ok (auth_of found), looked_up shared r.1)
      go (ok f, w') e = ground arith
      go (err m, w') e = cc e

  -- `POST` always answers: no exception leaves it.
  post_total :
      (req : RpcCall) (shared : Shared) (w : p.World)
      → (response : Response) × ((post p env meanwhile req shared w).0 ≡ ok response)
  unfolding post
  post_total req shared w = catch-ok internal_error _

  -- A request whose API key is refused is answered 401; the limiter is not charged and no endpoint is
  -- chosen or asked.
  post-unauthorized :
      (req : RpcCall) (key : Text) (shared : Shared) (w : p.World)
      → truthy req.api_key ≡ some key
      → (verify p key w).0 ≡ ok none
      → post p env meanwhile req shared w ≡ (ok unauthorized, looked_up shared (verify p key w).1)
  unfolding post handle
  post-unauthorized req key shared w given refused =
      let (found, answered, auth) = authenticate-verify req key shared w given in
      let same : found ≡ none = ground arith in rw (auth, same)

  -- A request that is authenticated and over the rate limit of its user is answered 429 with the
  -- limiter's headers; the limiter has counted it, and no endpoint is chosen or asked.
  post-too_many :
      (req : RpcCall) (shared : Shared) (w : p.World) (auth : Auth) (s : Handler p)
      → authenticate p env meanwhile req (fresh shared w) ≡ (ok auth, s)
      → auth.authenticated ≡ true
      → let checked =
          check
            (user_text auth.user_id)
            auth.rate_limit
            1
            (p.now s.world)
            (p.now s.world)
            s.shared.limiter in
        checked.0.allowed ≡ false
        → post p env meanwhile req shared w ≡ (
          ok (too_many p env meanwhile checked.0),
          record s { shared = record s.shared { limiter = checked.1 } },
        )
  unfolding post handle admit limit
  post-too_many req shared w auth s known yes_ over = rw (known, yes_, over)

  -- Without an API key any text behind `Bearer ` passes for the token of the dashboard: whatever the
  -- text, the request is authenticated as the user of the dashboard, and nothing is looked up.
  authenticate-bearer :
      (req : RpcCall) (token : Text) (shared : Shared) (w : p.World)
      → truthy req.api_key ≡ none
      → req.authorization ≡ some (lit "Bearer " ++ token)
      → authenticate p env meanwhile req (fresh shared w) ≡ (ok dashboard_auth, fresh shared w)
  unfolding authenticate authenticate_by
  authenticate-bearer req token shared w no_key bearer =
      rw (no_key, bearer, starts_with-append (lit "Bearer ") token)
