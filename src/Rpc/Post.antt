-- ===== src/Rpc/Post.antt =====
-- web-ui/src/app/api/rpc/route.ts: `POST`. The limiter's cache and the balancer are shared by all
-- requests of the process; what other requests do to them while this one waits is `meanwhile`, an
-- arbitrary function of the world that the wait ends in.
pub mod Asking
pub mod Gathering
pub mod Replies
pub mod Refusals
use multi_rpc.Prelude.{
  ℕ, ◌+◌, ◌-◌, Bool, true, false, not, ◌&&◌, Option, none, some, List, [], ◌∷◌, ◌++◌, Text, lit,
  starts_with, Dict, if◌then◌else◌, ℤ, pos, negsuc, num_or, Result, ok, err, Act, ◌>>=◌, ◌>>◌,
  return, throw, try_catch, to_decimal,
}
use multi_rpc.Json.{Json, Fields, property, is_array, elements}
use multi_rpc.Platform.{Platform, HttpResponse}
use multi_rpc.Limiter.{Entry, RateLimitResult, check, get_rate_limit_headers}
use multi_rpc.Limiter.Usage.{record_usage}
use multi_rpc.ApiKey.{KeyData, verify}
use multi_rpc.Rpc.Balancer.{
  Env, LoadBalancer, get_next_endpoint, mark_unhealthy, rpc_backend_url, first_url,
}

-- What the route reads of a request: two headers and the outcome of `request.json()`.
pub record RpcCall : Type 0 where
  pub api_key : Option Text
  pub authorization : Option Text
  pub body : Result Json

-- the locals of the handler
pub record Auth : Type 0 where
  pub user_id : Option Text
  pub key_id : Option Text
  pub rate_limit : ℤ
  pub daily_limit : ℤ
  pub monthly_limit : ℤ
  pub authenticated : Bool

-- An element of the response: what an endpoint answered, or the error made for the request's id.
pub data Reply : Type 0 where
  upstream : Json → Reply
  failed : (id : Json) (message : Text) → Reply

pub data Body : Type 0 where
  rpc_error : (code : ℤ) (message : Text) → Body
  single : Option Reply → Body
  batch : List Reply → Body

pub record Response : Type 0 where
  pub status : ℕ
  pub body : Body
  pub headers : List (Text × Text)

pub record Shared : Type 0 where
  pub limiter : Dict Entry
  pub balancer : LoadBalancer

abbrev pub no_auth : Auth
no_auth = record {
  user_id = none;
  key_id = none;
  rate_limit = pos 10;
  daily_limit = pos 1000;
  monthly_limit = pos 10000;
  authenticated = false;
}

abbrev pub key_auth : KeyData → Auth
key_auth k = record {
  user_id = some k.user_id;
  key_id = some k.key_id;
  rate_limit = k.rate_limit;
  daily_limit = k.daily_limit;
  monthly_limit = num_or (some k.monthly_limit) (pos 10000);
  authenticated = true;
}

abbrev pub auth_of : Option KeyData → Auth
auth_of none = no_auth
auth_of (some k) = key_auth k

abbrev pub mock_auth : Auth
mock_auth = record no_auth {
  user_id = some (lit "demo-user");
  key_id = some (lit "demo-key");
  authenticated = true;
}

abbrev pub dashboard_auth : Auth
dashboard_auth = record no_auth {
  user_id = some (lit "dashboard-user");
  rate_limit = pos 100;
  daily_limit = pos 100000;
  monthly_limit = pos 1000000;
  authenticated = true;
}

-- `authorization?.startsWith("Bearer ")`
abbrev pub is_bearer : Option Text → Bool
is_bearer none = false
is_bearer (some a) = starts_with a (lit "Bearer ")

-- A text that is there and not empty, as `if (text)` asks.
abbrev pub truthy : Option Text → Option Text
truthy none = none
truthy (some []) = none
truthy (some (c ∷ s)) = some (c ∷ s)

-- a user id in a template string
abbrev pub user_text : Option Text → Text
user_text none = lit "null"
user_text (some u) = u

abbrev pub unauthorized : Response
unauthorized = record {
  status = 401;
  body =
      rpc_error (negsuc 31999)
        (lit "Authentication required. Please provide an API key via x-api-key header.");
  headers = [];
}

abbrev pub internal_error : Response
internal_error = record {
  status = 500;
  body = rpc_error (negsuc 32602) (lit "Internal server error");
  headers = [];
}

abbrev pub first_reply : List Reply → Option Reply
first_reply [] = none
first_reply (r ∷ rs) = some r

-- The state of one request: what it shares, the world, and the replies gathered so far.
pub record Handler (p : Platform) : Type 0 where
  pub shared : Shared
  pub world : p.World
  pub responses : List Reply

module _ (p : Platform) (env : Env) (meanwhile : p.World → Shared → Shared) where
  open p use {World, now, fetch, begin_fetch, json_length, iso}

  -- `await`: the world goes on, and other requests with it
  abbrev pub await_from : {A : Type 0} → Handler p → Result A × World → Result A × Handler p
  await_from s (r, w) = (r, record s { world = w; shared = meanwhile w s.shared })

  abbrev pub await : {A : Type 0} → Act World A → Act (Handler p) A
  await m s = await_from s (m s.world)

  -- by the API key, if there is one, else by a bearer token of the dashboard
  unfoldable pub authenticate_by : Option Text → Option Text → Act (Handler p) Auth
  authenticate_by (some key) authorization =
      try_catch (do found ← await (verify p key); return (auth_of found)) (λ e. return mock_auth)
  authenticate_by none authorization =
      if is_bearer authorization then return dashboard_auth else return no_auth

  unfoldable pub authenticate : RpcCall → Act (Handler p) Auth
  authenticate req = authenticate_by (truthy req.api_key) req.authorization

  -- `RateLimiter.check(userId, rateLimit, 1)`, which does not wait
  unfoldable pub limit : Auth → Act (Handler p) RateLimitResult
  limit auth s =
      let (result, cache) =
        check (user_text auth.user_id) auth.rate_limit 1 (now s.world) (now s.world)
          s.shared.limiter in
      (ok result, record s { shared = record s.shared { limiter = cache } })

  -- the body of a health check
  abbrev pub health_request : Json
  health_request = Json.obj (
      Fields.field (lit "jsonrpc") (Json.str (lit "2.0")) (
        Fields.field (lit "id") (Json.num (pos 1))
          (Fields.field (lit "method") (Json.str (lit "getHealth")) Fields.end)))

  -- `loadBalancer.getNextEndpoint()`; a health check that it starts is not awaited
  unfoldable pub next_endpoint : Act (Handler p) Text
  next_endpoint s =
      let c = get_next_endpoint env (now s.world) s.shared.balancer in
      let started = begin_fetch (rpc_backend_url env) health_request s.world in
      (
        ok c.url,
        record s {
          shared = record s.shared { balancer = c.balancer };
          world = if c.check_backend then started else s.world;
        },
      )

  unfoldable pub mark : Text → Act (Handler p) (Unit {0})
  mark url s = (
    ok tt,
    record s {
      shared = record s.shared { balancer = mark_unhealthy url (now s.world) s.shared.balancer };
    },
  )

  -- `responses.push(reply)`
  abbrev pub push : Reply → Act (Handler p) (Unit {0})
  push reply s = (ok tt, record s { responses = s.responses ++ reply ∷ [] })

  abbrev pub json_of : HttpResponse → Act World Json
  json_of response w = (response.json, w)

  abbrev pub pure : {A : Type 0} → Result A → Act (Handler p) A
  pure r s = (r, s)

  -- the second try, at the first endpoint
  abbrev pub take_second : HttpResponse → Act (Handler p) Json
  take_second second =
      if second.is_ok then await (json_of second) else throw (lit "All endpoints failed")

  unfoldable pub fall_back : Json → Act (Handler p) Json
  fall_back rpc = do second ← await (fetch (first_url env) rpc); take_second second

  abbrev pub take_first : Text → Json → HttpResponse → Act (Handler p) Json
  take_first endpoint rpc response =
      if response.is_ok then await (json_of response) else mark endpoint >> fall_back rpc

  unfoldable pub ask : Text → Json → Act (Handler p) Json
  ask endpoint rpc = do response ← await (fetch endpoint rpc); take_first endpoint rpc response

  -- The record is not awaited, and its outcome is ignored.
  abbrev pub write_usage : Text → Text → Json → Json → Act (Handler p) (Unit {0})
  write_usage user_id key_id rpc data_ s =
      let written =
        record_usage p user_id key_id true (json_length rpc) (json_length data_) s.world in
      (ok tt, record s { world = written.1 })

  -- `if (keyId && userId)`
  unfoldable pub note_for : Option Text → Option Text → Json → Json → Act (Handler p) (Unit {0})
  note_for none user_id rpc data_ = return tt
  note_for (some key_id) none rpc data_ = return tt
  note_for (some key_id) (some user_id) rpc data_ = do
    method ← pure (property (lit "method") rpc)
    write_usage user_id key_id rpc data_

  unfoldable pub note_usage : Auth → Json → Json → Act (Handler p) (Unit {0})
  note_usage auth = note_for (truthy auth.key_id) (truthy auth.user_id)

  -- what follows an answer, and what follows an exception
  abbrev pub settle : Auth → Json → Json → Act (Handler p) (Unit {0})
  settle auth rpc data_ = do push (upstream data_); note_usage auth rpc data_

  abbrev pub excuse : Json → Text → Act (Handler p) (Unit {0})
  excuse rpc message = do id ← pure (property (lit "id") rpc); push (failed id message)

  -- the body of the loop over the requests
  unfoldable pub process_one : Auth → Json → Act (Handler p) (Unit {0})
  process_one auth rpc = do
    endpoint ← next_endpoint
    try_catch (do data_ ← ask endpoint rpc; settle auth rpc data_) (excuse rpc)

  unfoldable pub process : Auth → List Json → Act (Handler p) (Unit {0})
  process auth [] = return tt
  process auth (rpc ∷ rest) = do process_one auth rpc; process auth rest

  abbrev pub too_many : RateLimitResult → Response
  too_many result = record {
    status = 429;
    body = rpc_error (negsuc 32004) (lit "Rate limit exceeded");
    headers = get_rate_limit_headers iso result;
  }

  -- the answer to a request that was processed
  unfoldable pub success : Json → RateLimitResult → ℕ → Act (Handler p) Response
  success body result start s = (
    ok (record {
      status = 200;
      body = if is_array body then batch s.responses else single (first_reply s.responses);
      headers =
          get_rate_limit_headers iso result
          ++ (lit "X-Response-Time", to_decimal (now s.world - start) ++ lit "ms") ∷ [];
    }),
    s,
  )

  unfoldable pub serve : RpcCall → Auth → RateLimitResult → ℕ → Act (Handler p) Response
  serve req auth result start = do
    body ← await (λ w. (req.body, w))
    process auth (elements body)
    success body result start

  unfoldable pub admit : RpcCall → Auth → ℕ → Act (Handler p) Response
  admit req auth start = do
    result ← limit auth
    if result.allowed then serve req auth result start else return (too_many result)

  unfoldable pub handle : RpcCall → ℕ → Act (Handler p) Response
  handle req start = do
    auth ← authenticate req
    if auth.authenticated then admit req auth start else return unauthorized

  unfoldable pub post : RpcCall → Shared → World → Result Response × Handler p
  post req shared w =
      try_catch (handle req (now w)) (λ e. return internal_error)
        (record { shared = shared; world = w; responses = [] })
