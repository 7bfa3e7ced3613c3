-- ===== src/Endpoints/Sharing.antt =====
-- Whose endpoints a request sees and changes.
use multi_rpc.Prelude.{
  ℕ, Bool, false, not, ◌≡◌, ◌≢◌, refl, Option, none, some, List, [], ◌∷◌, ◌++◌, filter, any, Text,
  lit, text_or, text_eq, text_eq_iff, text_eq_refl, remove_first, set, get-set, Result, ok, err,
  if◌then◌else◌, arith, ap, ◌∙◌,
}
use multi_rpc.Middleware.{Privy}
use multi_rpc.Endpoints.{
  CustomEndpoint, Store, NewEndpoint, listing, added, success, Probe, endpoints_of, caller,
  get_endpoints, post_endpoint, delete_endpoint, append_endpoint, known, refused, claims, Caller,
  posted, deleted, new_endpoint, test_endpoint,
}

pub endpoints_of-set :
    (u v : Text) (eps : List CustomEndpoint) (store : Store)
    → endpoints_of v (set u eps store) ≡ (if text_eq u v then eps else endpoints_of v store)
unfolding endpoints_of
endpoints_of-set u v eps store = ground (arith, get-set u v eps store)

none-left :
    (id : Text) (eps : List CustomEndpoint)
    → any (λ ep. text_eq ep.id id) (filter (λ ep. not (text_eq ep.id id)) eps) ≡ false
none-left id [] = refl
none-left id (ep ∷ eps) = ground (arith, none-left id eps)

-- The user of a request does not depend on the handler.
caller-known :
    (privy : Privy) (one two : Text) (authorization : Option Text) (u : Text)
    → caller privy one authorization ≡ known u
    → caller privy two authorization ≡ known u
unfolding caller
caller-known privy one two none u h = cc h
caller-known privy one two (some []) u h = cc h
caller-known privy one two (some (c ∷ s)) u h = go (privy (remove_first (c ∷ s) (lit "Bearer "))) h
  where
    go : (r : Result (Option Text)) → claims one r ≡ known u → claims two r ≡ known u
    go (err e) k = cc k
    go (ok none) k = cc k
    go (ok (some id)) k = ground arith

module _ (privy : Privy) (authorization : Option Text) where
  get_endpoints-known :
      (f u : Text) (store : Store)
      → caller privy f authorization ≡ known u
      → get_endpoints privy authorization store ≡ listing (endpoints_of u store)
  unfolding get_endpoints
  get_endpoints-known f u store h =
      rw (caller-known privy f (lit "Failed to fetch endpoints") authorization u h) refl

  module _ (id : Text) (time : ℕ) (probe : Probe) (is_url : Text → Bool) where
    posted-others :
        (body : Result NewEndpoint) (store : Store) (c : Caller) (v : Text)
        → c ≢ known v
        → endpoints_of v (posted privy authorization id time probe is_url body store c).1
          ≡ endpoints_of v store
    unfolding append_endpoint
    posted-others body store (refused n m) v other = refl
    posted-others (err e) store (known u) v other = refl
    posted-others (ok body) store (known u) v other =
        let apart : ¬ (u ≡ v) = λ same. other (ap known same) in
        ground (
          arith,
          text_eq_iff u v,
          endpoints_of-set u v
              (endpoints_of u store
                ++ new_endpoint privy authorization (text_or body.url []) (text_or body.name [])
                    body.region (test_endpoint probe) id time
                  ∷ [])
              store,
        )

    posted-added :
        (body : Result NewEndpoint) (store : Store) (c : Caller) (ep : CustomEndpoint)
        → (posted privy authorization id time probe is_url body store c).0 ≡ added ep
        → (u : Text) × (c ≡ known u)
          × (endpoints_of u (posted privy authorization id time probe is_url body store c).1
              ≡ endpoints_of u store ++ (ep ∷ []))
    unfolding append_endpoint
    posted-added body store (refused n m) ep h = cc h
    posted-added (err e) store (known u) ep h = cc h
    posted-added (ok body) store (known u) ep h = (
      u,
      refl,
      ground (
        arith,
        text_eq_refl u,
        endpoints_of-set u u
            (endpoints_of u store
              ++ new_endpoint privy authorization (text_or body.url []) (text_or body.name [])
                  body.region (test_endpoint probe) id time
                ∷ [])
            store,
      ),
    )

    -- What `POST` answers with an endpoint is at the end of what the same user's `GET` lists next.
    pub get_endpoints-post_endpoint :
        (body : Result NewEndpoint) (store : Store) (ep : CustomEndpoint)
        → (post_endpoint privy authorization id time probe is_url body store).0 ≡ added ep
        → (eps : List CustomEndpoint) × (get_endpoints privy authorization store ≡ listing eps)
          × (get_endpoints privy authorization
                (post_endpoint privy authorization id time probe is_url body store).1
              ≡ listing (eps ++ ep ∷ []))
    unfolding post_endpoint
    get_endpoints-post_endpoint body store ep h =
        let f = lit "Failed to add endpoint" in
        let (u, who, more) = posted-added body store (caller privy f authorization) ep h in
        (
          endpoints_of u store,
          get_endpoints-known f u store who,
          get_endpoints-known f u _ who ∙ ap listing more,
        )

  deleted-others :
      (id : Option Text) (store : Store) (c : Caller) (v : Text)
      → c ≢ known v
      → endpoints_of v (deleted privy authorization id store c).1 ≡ endpoints_of v store
  deleted-others id store (refused n m) v other = refl
  deleted-others none store (known u) v other = refl
  deleted-others (some []) store (known u) v other = refl
  deleted-others (some (c ∷ s)) store (known u) v other =
      let apart : ¬ (u ≡ v) = λ same. other (ap known same) in
      ground (
        arith,
        text_eq_iff u v,
        endpoints_of-set u v (filter (λ ep. not (text_eq ep.id (c ∷ s))) (endpoints_of u store))
            store,
      )

  deleted-success :
      (id : Option Text) (store : Store) (c : Caller)
      → (deleted privy authorization id store c).0 ≡ success
      → (u : Text) × (key : Text) × (id ≡ some key)
        × (c ≡ known u)
        × (endpoints_of u (deleted privy authorization id store c).1
            ≡ filter (λ ep. not (text_eq ep.id key)) (endpoints_of u store))
  deleted-success id store (refused n m) h = cc h
  deleted-success none store (known u) h = cc h
  deleted-success (some []) store (known u) h = cc h
  deleted-success (some (c ∷ s)) store (known u) h = (
    u,
    c ∷ s,
    refl,
    refl,
    ground (
      arith,
      text_eq_refl u,
      endpoints_of-set u u (filter (λ ep. not (text_eq ep.id (c ∷ s))) (endpoints_of u store))
          store,
    ),
  )

  -- A `DELETE` that answers success takes the endpoints of that id, and no other, off what the same
  -- user's `GET` lists.
  pub get_endpoints-delete_endpoint :
      (id : Option Text) (store : Store)
      → (delete_endpoint privy authorization id store).0 ≡ success
      → (key : Text) × (eps : List CustomEndpoint) × (id ≡ some key)
        × (get_endpoints privy authorization store ≡ listing eps)
        × (get_endpoints privy authorization (delete_endpoint privy authorization id store).1
            ≡ listing (filter (λ ep. not (text_eq ep.id key)) eps))
        × (any (λ ep. text_eq ep.id key) (filter (λ ep. not (text_eq ep.id key)) eps) ≡ false)
  unfolding delete_endpoint
  get_endpoints-delete_endpoint id store h =
      let f = lit "Failed to delete endpoint" in
      let (u, key, given, who, less) = deleted-success id store (caller privy f authorization) h in
      (
        key,
        endpoints_of u store,
        given,
        get_endpoints-known f u store who,
        get_endpoints-known f u _ who ∙ ap listing less,
        none-left key (endpoints_of u store),
      )

  -- A request changes nobody's endpoints but those of the user that Privy takes it for.
  pub endpoints_of-others :
      (v : Text) (store : Store)
      → ((failure : Text) → caller privy failure authorization ≢ known v)
      → ((id : Option Text)
          → endpoints_of v (delete_endpoint privy authorization id store).1 ≡ endpoints_of v store)
        × ((id : Text) (time : ℕ) (probe : Probe) (is_url : Text → Bool) (body : Result NewEndpoint)
            → endpoints_of v (post_endpoint privy authorization id time probe is_url body store).1
              ≡ endpoints_of v store)
  unfolding delete_endpoint post_endpoint
  endpoints_of-others v store other = (
    λ id. deleted-others id store _ v (other (lit "Failed to delete endpoint")),
    λ id time probe is_url body.
        posted-others id time probe is_url body store _ v (other (lit "Failed to add endpoint")),
  )
