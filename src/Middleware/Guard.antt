-- ===== src/Middleware/Guard.antt =====
-- What the guard lets through.
use multi_rpc.Prelude.{
  true, false, ◌&&◌, Option, none, some, ◌++◌, Text, lit, starts_with, text_eq, text_eq_iff, subst,
  get, set, get-set, Dict, Result, ok, err, if◌then◌else◌, ◌≡◌, refl, Bool-cases, inl, inr, arith,
  ◌⊎◌, ap, sym, ◌∙◌, ◌≢◌,
}
use multi_rpc.Middleware.{
  Privy, Request, pass, reject, redirect, is_protected_route, is_auth_route, is_api,
  security_headers, token_of, deny, plain, forward, auth_pages, verified, protect, middleware,
  signed_in,
}

-- No protected route is a page for signing in.
protected-not-auth :
    (pathname : Text) → is_protected_route pathname ≡ true → is_auth_route pathname ≡ false
unfolding is_auth_route is_protected_route starts_with
protected-not-auth pathname h = elim (Bool-cases (text_eq (lit "/auth") pathname)) [
  | inl e ↦ cc (subst Guarded (sym (named (lit "/auth") e)) h)
  | inr n ↦ elim (Bool-cases (text_eq (lit "/login") pathname)) [
    | inl e ↦ cc (subst Guarded (sym (named (lit "/login") e)) h)
    | inr n' ↦ elim (Bool-cases (text_eq (lit "/signup") pathname)) [
      | inl e ↦ cc (subst Guarded (sym (named (lit "/signup") e)) h)
      | inr n'' ↦ rw (n, n', n'')
    ]
  ]
]
  where
    Guarded : Text → Type 0
    Guarded s = is_protected_route s ≡ true

    named : (s : Text) → text_eq s pathname ≡ true → s ≡ pathname
    named s e = (text_eq_iff s pathname).0 e

auth_pages-plain :
    (privy : Option Privy) (req : Request) (token : Option Text)
    → is_auth_route req.pathname ≡ false
    → auth_pages privy req token ≡ plain req
unfolding auth_pages
auth_pages-plain (some privy) req (some token) h = rw h
auth_pages-plain (some privy) req none h = refl
auth_pages-plain none req token h = refl

deny-not_pass :
    (pathname error : Text) (answer headers : Dict Text) → deny pathname error ≢ pass answer headers
deny-not_pass pathname error answer headers h = elim (Bool-cases (is_api pathname)) [
  | inl y ↦ cc (rw y at h)
  | inr n ↦ cc (rw n at h)
]

forward-user :
    (req : Request) (user : Text) (answer headers : Dict Text)
    → forward req user ≡ pass answer headers
    → get (lit "x-user-id") headers ≡ some user
unfolding forward text_eq
forward-user req user answer headers h =
    let same : set (lit "x-request-id") req.request_id (set (lit "x-user-id") user req.headers)
        ≡ headers =
      ground arith in
    rw (← same, get-set, get-set)

-- Where Privy is configured, a request to a protected route goes on only with a token that Privy
-- accepts; an API route then finds the id of that user in the header `x-user-id`, whatever the client
-- wrote there, and a page finds its headers as they were.
pub middleware-pass :
    (privy : Privy) (req : Request) (answer headers : Dict Text)
    → is_protected_route req.pathname ≡ true
    → middleware (some privy) req ≡ pass answer headers
    → (token : Text) × (user : Text) × (token_of req ≡ some token)
      × (privy token ≡ ok (some user))
      × (((is_api req.pathname ≡ true) × (get (lit "x-user-id") headers ≡ some user))
          ⊎ ((is_api req.pathname ≡ false) × (headers ≡ req.headers)))
unfolding middleware protect
middleware-pass privy req answer headers guarded h = go (token_of req) refl (rw guarded at h)
  where
    Through : Type 0
    Through =
        (token : Text) × (user : Text) × (token_of req ≡ some token)
        × (privy token ≡ ok (some user))
        × (((is_api req.pathname ≡ true) × (get (lit "x-user-id") headers ≡ some user))
            ⊎ ((is_api req.pathname ≡ false) × (headers ≡ req.headers)))

    accepted :
        (token : Text) (r : Result (Option Text))
        → token_of req ≡ some token
        → privy token ≡ r
        → verified privy req token r ≡ pass answer headers
        → Through
    accepted token (err e) t q k = absurd (deny-not_pass _ _ _ _ k)
    accepted token (ok none) t q k = absurd (deny-not_pass _ _ _ _ k)
    accepted token (ok (some user)) t q k = (
      token,
      user,
      t,
      q,
      elim (Bool-cases (is_api req.pathname)) [
        | inl api ↦ inl (api, forward-user req user answer headers (rw api at k))
        | inr page ↦
            let k' : auth_pages (some privy) req (some token) ≡ pass answer headers =
              (rw page at k) in
            let plain_ =
              auth_pages-plain (some privy) req (some token)
                (protected-not-auth req.pathname guarded) in
            inr (page, cc (k', plain_))
      ],
    )

    go :
        (t : Option Text)
        → token_of req ≡ t
        → protect (some privy) req t ≡ pass answer headers
        → Through
    go none e k = absurd (deny-not_pass _ _ _ _ k)
    go (some token) e k = accepted token (privy token) e refl k

-- Where Privy is configured, a request to a protected route with no token, or with one that Privy
-- does not accept, is answered 401 on the API and sent to `/auth` elsewhere.
pub middleware-deny :
    (privy : Privy) (req : Request)
    → is_protected_route req.pathname ≡ true
    → ((token : Text) → token_of req ≡ some token → signed_in (privy token) ≡ false)
    → (error : Text) × (middleware (some privy) req
        ≡ (if is_api req.pathname then reject 401 error else redirect (lit "/auth")))
unfolding middleware protect
middleware-deny privy req guarded refused = rw guarded (go (token_of req) refl)
  where
    wrong :
        (token : Text) (r : Result (Option Text))
        → signed_in r ≡ false
        → (error : Text) × (verified privy req token r
            ≡ (if is_api req.pathname then reject 401 error else redirect (lit "/auth")))
    wrong token (err e) f = (_, refl)
    wrong token (ok none) f = (_, refl)
    wrong token (ok (some user)) f = cc f

    go :
        (t : Option Text)
        → token_of req ≡ t
        → (error : Text) × (protect (some privy) req t
            ≡ (if is_api req.pathname then reject 401 error else redirect (lit "/auth")))
    go none e = (_, refl)
    go (some token) e = wrong token (privy token) (refused token e)

billing-routes :
    (rest : Text)
    → (is_protected_route (lit "/api/billing" ++ rest) ≡ false)
      × (is_auth_route (lit "/api/billing" ++ rest) ≡ false)
unfolding is_protected_route is_auth_route starts_with text_eq
billing-routes rest = (refl, refl)

-- The billing routes are not among the protected ones: whatever the configuration, their requests go
-- on with the headers that the client sent, a forged `x-user-id` included.
pub middleware-billing :
    (privy : Option Privy) (req : Request) (rest : Text)
    → req.pathname ≡ lit "/api/billing" ++ rest
    → middleware privy req ≡ pass (security_headers req.request_id) req.headers
unfolding middleware
middleware-billing privy req rest there =
    let open_ : is_protected_route req.pathname ≡ false =
      ap is_protected_route there ∙ (billing-routes rest).0 in
    rw open_
      (auth_pages-plain privy req (token_of req) (ap is_auth_route there ∙ (billing-routes rest).1))

auth_pages-answer :
    (privy : Option Privy) (req : Request) (token : Option Text) (answer headers : Dict Text)
    → auth_pages privy req token ≡ pass answer headers
    → answer ≡ security_headers req.request_id
unfolding auth_pages
auth_pages-answer (some privy) req (some token) answer headers h =
    elim (Bool-cases (is_auth_route req.pathname && signed_in (privy token))) [
      | inl y ↦ cc (rw y at h)
      | inr n ↦ let h' : plain req ≡ pass answer headers = (rw n at h) in cc h'
    ]
auth_pages-answer (some privy) req none answer headers h = cc h
auth_pages-answer none req token answer headers h = cc h

forward-answer :
    (req : Request) (user : Text) (answer headers : Dict Text)
    → forward req user ≡ pass answer headers
    → answer ≡ security_headers req.request_id
unfolding forward security_headers set text_eq
forward-answer req user answer headers h = cc h

verified-answer :
    (privy : Privy) (req : Request) (token : Text) (r : Result (Option Text))
    (answer headers : Dict Text)
    → verified privy req token r ≡ pass answer headers
    → answer ≡ security_headers req.request_id
verified-answer privy req token (err e) answer headers h = absurd (deny-not_pass _ _ _ _ h)
verified-answer privy req token (ok none) answer headers h = absurd (deny-not_pass _ _ _ _ h)
verified-answer privy req token (ok (some user)) answer headers h =
    elim (Bool-cases (is_api req.pathname)) [
      | inl y ↦ forward-answer req user answer headers (rw y at h)
      | inr n ↦ auth_pages-answer (some privy) req (some token) answer headers (rw n at h)
    ]

protect-answer :
    (privy : Option Privy) (req : Request) (token : Option Text) (answer headers : Dict Text)
    → protect privy req token ≡ pass answer headers
    → answer ≡ security_headers req.request_id
unfolding protect
protect-answer none req token answer headers h = cc h
protect-answer (some privy) req none answer headers h = absurd (deny-not_pass _ _ _ _ h)
protect-answer (some privy) req (some token) answer headers h =
    verified-answer privy req token (privy token) answer headers h

middleware-answer :
    (privy : Option Privy) (req : Request) (answer headers : Dict Text)
    → middleware privy req ≡ pass answer headers
    → answer ≡ security_headers req.request_id
unfolding middleware
middleware-answer privy req answer headers h = elim (Bool-cases (is_protected_route req.pathname)) [
  | inl y ↦ protect-answer privy req (token_of req) answer headers (rw y at h)
  | inr n ↦ auth_pages-answer privy req (token_of req) answer headers (rw n at h)
]

-- Every request that goes on gets its response protected against framing and sniffing.
pub middleware-security :
    (privy : Option Privy) (req : Request) (answer headers : Dict Text)
    → middleware privy req ≡ pass answer headers
    → (get (lit "X-Frame-Options") answer ≡ some (lit "DENY"))
      × (get (lit "X-Content-Type-Options") answer ≡ some (lit "nosniff"))
      × (get (lit "X-Request-ID") answer ≡ some req.request_id)
unfolding security_headers set get text_eq
middleware-security privy req answer headers h =
    rw (middleware-answer privy req answer headers h) (refl, refl, refl)
