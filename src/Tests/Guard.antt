-- ===== src/Tests/Guard.antt =====
-- Requests that meet the guard, in front of a Privy that knows one token.
use multi_rpc.Prelude.{
  ◌≡◌, refl, true, false, false, none, some, [], ◌∷◌, ◌++◌, Text, lit, text_eq, starts_with, Dict,
  get, set, ok, err, if◌then◌else◌, remove_first, ◌⊎◌,
}
use multi_rpc.Middleware.{
  Privy, Request, pass, middleware, protect, forward, is_protected_route, protected_routes, is_api,
  token_of, security_headers,
}
use multi_rpc.Middleware.Guard.{middleware-pass}

abbrev pub privy : Privy
privy token = if text_eq token (lit "good") then ok (some (lit "alice")) else err (lit "bad token")

-- a request that says it comes from somebody else
abbrev request_to : Text → Text → Request
request_to path token = record {
  pathname = path;
  headers = (lit "x-user-id", lit "mallory") ∷ (lit "authorization", lit "Bearer " ++ token) ∷ [];
  privy_cookie = none;
  request_id = lit "r1";
}

abbrev good : Request
good = request_to (lit "/api/user/profile") (lit "good")

guarded : is_protected_route (lit "/api/user/profile") ≡ true
unfolding is_protected_route starts_with protected_routes
guarded = refl

abbrev answer : Dict Text
answer =
    (lit "X-Content-Type-Options", lit "nosniff")
    ∷ (lit "X-Frame-Options", lit "DENY")
    ∷ (lit "X-XSS-Protection", lit "1; mode=block")
    ∷ (lit "Referrer-Policy", lit "strict-origin-when-cross-origin")
    ∷ (lit "Permissions-Policy", lit "camera=(), microphone=(), geolocation=()")
    ∷ (lit "X-Request-ID", lit "r1")
    ∷ []

abbrev onward : Dict Text
onward =
    (lit "x-user-id", lit "alice")
    ∷ (lit "authorization", lit "Bearer good")
    ∷ (lit "x-request-id", lit "r1")
    ∷ []

passed : middleware (some privy) good ≡ pass answer onward
unfolding middleware is_protected_route starts_with protect token_of get text_eq remove_first
    forward security_headers set protected_routes
passed = refl

middleware-pass_example :
    (token : Text) × (user : Text) × (token_of good ≡ some token)
    × (privy token ≡ ok (some user))
    × (((is_api good.pathname ≡ true) × (get (lit "x-user-id") onward ≡ some user))
        ⊎ ((is_api good.pathname ≡ false) × (onward ≡ good.headers)))
middleware-pass_example = middleware-pass privy good answer onward guarded passed

abbrev bad : Request
bad = request_to (lit "/api/user/profile") (lit "forged")
