-- ===== src/Rpc/Post/Replies.antt =====
-- One reply for each request of a batch, in order.
use multi_rpc.Prelude.{
  ℕ, ◌≡◌, refl, true, Option, none, some, List, [], ◌++◌, Text, Result, ok, err, bind_from,
  catch_from, bind-inv, catch-inv, ◌>>◌, return, Bool-cases, inl, inr, arith, if◌then◌else◌, ap,
  sym, ◌∙◌,
}
use multi_rpc.Json.{Json, elements, is_array}
use multi_rpc.Platform.{Platform}
use multi_rpc.ApiKey.{KeyData, verify}
use multi_rpc.Limiter.{RateLimitResult, check}
use multi_rpc.Rpc.Balancer.{Env}
use multi_rpc.Rpc.Post.{
  RpcCall, Auth, Reply, single, batch, Response, Shared, Handler, await_from, process, serve,
  success, handle, admit, limit, authenticate, authenticate_by, mock_auth, auth_of, is_bearer,
  too_many, user_text, internal_error, unauthorized, first_reply, post, truthy,
}
use multi_rpc.Rpc.Post.Gathering.{AnswersAll, Out, Keeps, process-AnswersAll}

module _ (p : Platform) (env : Env) (meanwhile : p.World → Shared → Shared) where
  authenticate_by-Keeps :
      (key authorization : Option Text)
      → Keeps p (authenticate_by p env meanwhile key authorization)
  unfolding authenticate_by
  authenticate_by-Keeps (some key) authorization s = go (verify p key s.world)
    where
      go :
          (r : Result (Option KeyData) × p.World)
          → (catch_from
              (λ e. return mock_auth)
              (bind_from
                (λ found. return (auth_of found))
                (await_from p env meanwhile s r))).1.responses
            ≡ s.responses
      go (ok found, w) = refl
      go (err e, w) = refl
  authenticate_by-Keeps none authorization s = elim (Bool-cases (is_bearer authorization)) [
    | inl y ↦ rw y
    | inr n ↦ rw n
  ]

  authenticate-Keeps : (req : RpcCall) → Keeps p (authenticate p env meanwhile req)
  unfolding authenticate
  authenticate-Keeps req = authenticate_by-Keeps (truthy req.api_key) req.authorization

  -- How a response of status 200 came about: the caller was authenticated and admitted by the limiter,
  -- and each request of the body was asked in its turn.
  pub record Served (req : RpcCall) (s : Handler p) (response : Response) : Type 0 where
    pub auth : Auth
    pub admitted_as : Handler p
    pub result : RateLimitResult
    pub counted : Handler p
    pub value : Json
    pub replies : List Reply
    pub known : authenticate p env meanwhile req s ≡ (ok auth, admitted_as)
    pub authenticated : auth.authenticated ≡ true
    pub limited : limit p env meanwhile auth admitted_as ≡ (ok result, counted)
    pub allowed : result.allowed ≡ true
    pub body : req.body ≡ ok value
    pub answered :
        AnswersAll p env meanwhile auth
          (record counted { shared = meanwhile counted.world counted.shared })
          (elements value)
          replies
    pub shape :
        response.body ≡ (if is_array value then batch replies else single (first_reply replies))

  -- What the loop over the requests of a body leaves in the response.
  abbrev Replied : RpcCall → Auth → Handler p → Response → Type 0
  Replied req auth s response =
      (v : Json) × (rs : List Reply) × (req.body ≡ ok v)
      × AnswersAll p env meanwhile auth (record s { shared = meanwhile s.world s.shared })
          (elements v) rs
      × (response.body ≡ (if is_array v then batch rs else single (first_reply rs)))

  serve-Replied :
      (req : RpcCall) (auth : Auth) (result : RateLimitResult) (start : ℕ) (s : Handler p)
      (response : Response)
      → s.responses ≡ []
      → (serve p env meanwhile req auth result start s).0 ≡ ok response
      → Replied req auth s response
  unfolding serve success
  serve-Replied req auth result start s response none_yet h = go req.body refl h
    where
      go :
          (b : Result Json)
          → req.body ≡ b
          → (bind_from
              (λ body.
                process p env meanwhile auth (elements body)
                >> success p env meanwhile body result start)
              (await_from p env meanwhile s (b, s.world))).0
            ≡ ok response
          → Replied req auth s response
      go (err e) q h' = cc h'
      go (ok v) q h' =
          let s₁ = record s { world = s.world; shared = meanwhile s.world s.shared } in
          let (u, s₂, done, last) =
            bind-inv (λ _. success p env meanwhile v result start)
              (process p env meanwhile auth (elements v) s₁) response h' in
          let (rs, all, gathered) =
            process-AnswersAll p env meanwhile auth (elements v) s₁ (ap (λ r. r.0) done) in
          let end : s₂.responses ≡ rs =
            ap (λ (r : Out p (Unit {0})). r.1.responses) (sym done)
            ∙ gathered
            ∙ ap (λ l. l ++ rs) none_yet in
          let final = ap (λ r. r.0) (sym last) ∙ h' in (v, rs, q, all, ground (arith, final, end))

  admit-Served :
      (req : RpcCall) (auth : Auth) (start : ℕ) (s s₁ : Handler p) (response : Response)
      → authenticate p env meanwhile req s ≡ (ok auth, s₁)
      → auth.authenticated ≡ true
      → s₁.responses ≡ []
      → (admit p env meanwhile req auth start s₁).0 ≡ ok response
      → response.status ≡ 200
      → Served req s response
  unfolding admit limit
  admit-Served req auth start s s₁ response known in_ none_yet h good =
      let checked =
        check (user_text auth.user_id) auth.rate_limit 1 (p.now s₁.world) (p.now s₁.world)
          s₁.shared.limiter in
      let counted = record s₁ { shared = record s₁.shared { limiter = checked.1 } } in
      elim (Bool-cases checked.0.allowed) [
        | inl y ↦
            let (v, rs, body, all, shape) =
              serve-Replied req auth checked.0 start counted response none_yet (rw y at h) in
            record {
              auth = auth;
              admitted_as = s₁;
              result = checked.0;
              counted = counted;
              value = v;
              replies = rs;
              known = known;
              authenticated = in_;
              limited = refl;
              allowed = y;
              body = body;
              answered = all;
              shape = shape;
            }
        | inr n ↦
            let wrong : ok (too_many p env meanwhile checked.0) ≡ ok response = (rw n at h) in
            absurd (ground arith)
      ]

  handle-Served :
      (req : RpcCall) (start : ℕ) (s : Handler p) (response : Response)
      → s.responses ≡ []
      → (handle p env meanwhile req start s).0 ≡ ok response
      → response.status ≡ 200
      → Served req s response
  unfolding handle
  handle-Served req start s response none_yet h good =
      let (auth, s₁, known, last) =
        bind-inv
          (λ (auth : Auth).
            if auth.authenticated
            then admit p env meanwhile req auth start
            else return unauthorized)
          (authenticate p env meanwhile req s) response h in
      let empty : s₁.responses ≡ [] =
        ap (λ (r : Out p Auth). r.1.responses) (sym known) ∙ authenticate-Keeps req s ∙ none_yet in
      let final = ap (λ (r : Out p Response). r.0) (sym last) ∙ h in
      elim (Bool-cases auth.authenticated) [
        | inl yes_ ↦
            admit-Served req auth start s s₁ response known yes_ empty (rw yes_ at final) good
        | inr no_ ↦
            let wrong : ok unauthorized ≡ ok response = (rw no_ at final) in absurd (ground arith)
      ]

  -- A response of status 200 goes to a caller who is authenticated and whom the limiter admits, and it
  -- holds one reply for each request of the body, in order. Each is what the network made of that very
  -- request in its turn: the value from the endpoint that the balancer then chose or, where the answer
  -- of that one was not ok, from the first endpoint; or else the error that came of it, under the
  -- request's own id. A batch is answered by a batch, a single request by its reply.
  pub post-Served :
      (req : RpcCall) (shared : Shared) (w : p.World) (response : Response)
      → (post p env meanwhile req shared w).0 ≡ ok response
      → response.status ≡ 200
      → Served req (record { shared = shared; world = w; responses = [] }) response
  unfolding post
  post-Served req shared w response h good =
      let s : Handler p = record { shared = shared; world = w; responses = [] } in
      elim (catch-inv (λ e. return internal_error) (handle p env meanwhile req (p.now w) s) response
        h) [
          | inl made ↦ handle-Served req (p.now w) s response refl made good
          | inr (e, s', threw, internal) ↦ absurd (ground arith)
        ]
