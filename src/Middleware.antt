-- ===== src/Middleware.antt =====
-- web-ui/src/middleware.ts: the guard in front of the pages and the API routes. Privy's client is a
-- parameter, absent when it is not configured; a token is a user id, nothing, or an exception.
-- The matcher of the framework, which decides whether the guard runs at all, is not modelled.
pub mod Guard
use multi_rpc.Prelude.{
  Bool, true, false, ◌&&◌, Option, none, some, List, [], ◌∷◌, Text, lit, starts_with, remove_first,
  text_eq, any, Dict, get, set, Result, ok, err, ℕ, if◌then◌else◌,
}

-- privy.verifyAuthToken(token), with `claims.userId`
abbrev pub Privy : Type 0
Privy = Text → Result (Option Text)

-- Header names of a request are in lower case.
pub record Request : Type 0 where
  pub pathname : Text
  pub headers : Dict Text
  pub privy_cookie : Option Text
  -- crypto.randomUUID(), drawn for this request
  pub request_id : Text

pub data Outcome : Type 0 where
  -- the request goes on, with these headers; those of the response are set
  pass : (response_headers request_headers : Dict Text) → Outcome
  reject : (status : ℕ) (error : Text) → Outcome
  redirect : (path : Text) → Outcome

unfoldable pub protected_routes : List Text
protected_routes =
    lit "/dashboard"
    ∷ lit "/api/rpc"
    ∷ lit "/api/apikeys"
    ∷ lit "/api/usage"
    ∷ lit "/api/user"
    ∷ lit "/api/subscription"
    ∷ []

unfoldable pub auth_routes : List Text
auth_routes = lit "/auth" ∷ lit "/login" ∷ lit "/signup" ∷ []

unfoldable pub is_protected_route : Text → Bool
unfolding protected_routes
is_protected_route pathname = any (λ route. starts_with pathname route) protected_routes

unfoldable pub is_auth_route : Text → Bool
unfolding auth_routes
is_auth_route pathname = any (λ route. text_eq route pathname) auth_routes

abbrev pub is_api : Text → Bool
is_api pathname = starts_with pathname (lit "/api")

unfoldable pub security_headers : Text → Dict Text
security_headers request_id = set (lit "X-Request-ID") request_id (
    set (lit "Permissions-Policy") (lit "camera=(), microphone=(), geolocation=()") (
      set (lit "Referrer-Policy") (lit "strict-origin-when-cross-origin") (
        set (lit "X-XSS-Protection") (lit "1; mode=block") (
          set (lit "X-Frame-Options") (lit "DENY")
            (set (lit "X-Content-Type-Options") (lit "nosniff") [])))))

abbrev pub truthy : Option Text → Option Text
truthy none = none
truthy (some []) = none
truthy (some (c ∷ s)) = some (c ∷ s)

abbrev pub or_else : Option Text → Option Text → Option Text
or_else none o = o
or_else (some t) o = some t

abbrev pub strip_bearer : Option Text → Option Text
strip_bearer none = none
strip_bearer (some a) = some (remove_first a (lit "Bearer "))

-- the token of the authorization header, or else of the cookie; an empty one counts as none
unfoldable pub token_of : Request → Option Text
token_of req =
    or_else (truthy (strip_bearer (get (lit "authorization") req.headers)))
      (truthy req.privy_cookie)

-- what an API route or a page answers to a request that is not authenticated
abbrev pub deny : Text → Text → Outcome
deny pathname error = if is_api pathname then reject 401 error else redirect (lit "/auth")

abbrev pub copy_headers : Dict Text → Dict Text → Dict Text
copy_headers [] into = into
copy_headers ((k, v) ∷ headers) into = copy_headers headers (set k v into)

abbrev pub plain : Request → Outcome
plain req = pass (security_headers req.request_id) req.headers

-- an API request goes on with the user's id among its headers
unfoldable pub forward : Request → Text → Outcome
forward req user_id =
    pass (copy_headers (security_headers req.request_id) [])
      (set (lit "x-request-id") req.request_id (set (lit "x-user-id") user_id req.headers))

abbrev pub signed_in : Result (Option Text) → Bool
signed_in (ok (some user)) = true
signed_in (ok none) = false
signed_in (err e) = false

-- the end of the function: authenticated users are sent away from the pages for signing in
unfoldable pub auth_pages : Option Privy → Request → Option Text → Outcome
auth_pages (some privy) req (some token) =
    if is_auth_route req.pathname && signed_in (privy token)
    then redirect (lit "/dashboard")
    else plain req
auth_pages (some privy) req none = plain req
auth_pages none req token = plain req

-- the `try` of a protected route, on the outcome of the verification
abbrev pub verified : Privy → Request → Text → Result (Option Text) → Outcome
verified privy req token (err e) = deny req.pathname (lit "Invalid token")
verified privy req token (ok none) = deny req.pathname (lit "Invalid token")
verified privy req token (ok (some user_id)) =
    if is_api req.pathname then forward req user_id else auth_pages (some privy) req (some token)

unfoldable pub protect : Option Privy → Request → Option Text → Outcome
protect none req token = plain req
protect (some privy) req none = deny req.pathname (lit "Unauthorized")
protect (some privy) req (some token) = verified privy req token (privy token)

unfoldable pub middleware : Option Privy → Request → Outcome
middleware privy req =
    if is_protected_route req.pathname
    then protect privy req (token_of req)
    else auth_pages privy req (token_of req)
