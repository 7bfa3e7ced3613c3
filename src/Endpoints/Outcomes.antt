-- ===== src/Endpoints/Outcomes.antt =====
-- What a change that is answered has done to the store, for a user who is known.
use multi_rpc.Prelude.{
  ℕ, Bool, not, ◌||◌, ◌≡◌, refl, ◌⊎◌, inl, inr, Bool-cases, Option, some, [], ◌∷◌, ◌++◌, filter,
  Text, lit, text_or, text_eq, text_eq_refl, ok,
}
use multi_rpc.Middleware.{Privy}
use multi_rpc.Endpoints.{
  CustomEndpoint, Store, NewEndpoint, Reply, error, added, success, Probe, is_given, endpoints_of,
  caller, append_endpoint, new_endpoint, test_endpoint, known, posted, deleted, post_endpoint,
  delete_endpoint,
}
use multi_rpc.Endpoints.Sharing.{endpoints_of-set}

module _ (privy : Privy) (authorization : Option Text) (u : Text)
    (knows : (failure : Text) → caller privy failure authorization ≡ known u) where
  -- The endpoint that is answered has been added, or an error is answered and the store is left.
  abbrev pub Added : Store → Reply × Store → Type 0
  Added store r =
      ((ep : CustomEndpoint) × (r.0 ≡ added ep)
        × (endpoints_of u r.1 ≡ endpoints_of u store ++ ep ∷ []))
      ⊎ ((n : ℕ) × (m : Text) × (r ≡ (error n m, store)))

  abbrev pub Deleted : Text → Store → Reply × Store → Type 0
  Deleted id store r =
      ((r.0 ≡ success)
        × (endpoints_of u r.1 ≡ filter (λ ep. not (text_eq ep.id id)) (endpoints_of u store)))
      ⊎ ((n : ℕ) × (m : Text) × (r ≡ (error n m, store)))

  posted-cases :
      (id : Text) (time : ℕ) (probe : Probe) (is_url : Text → Bool) (body : NewEndpoint)
      (store : Store)
      → Added store (posted privy authorization id time probe is_url (ok body) store (known u))
  unfolding append_endpoint
  posted-cases id time probe is_url body store =
      let ep =
        new_endpoint privy authorization (text_or body.url []) (text_or body.name []) body.region
          (test_endpoint probe) id time in
      elim (Bool-cases (not (is_given body.url) || not (is_given body.name))) [
        | inl y ↦ rw y (inr (400, lit "URL and name are required", refl))
        | inr n ↦ elim (Bool-cases (not (is_url (text_or body.url [])))) [
          | inl y' ↦ rw (n, y') (inr (400, lit "Invalid URL format", refl))
          | inr n' ↦
              rw
                (
                  n,
                  n',
                  endpoints_of-set u u (endpoints_of u store ++ ep ∷ []) store,
                  text_eq_refl u,
                )
                (inl (ep, refl, refl))
        ]
      ]

  pub post_endpoint-cases :
      (id : Text) (time : ℕ) (probe : Probe) (is_url : Text → Bool) (body : NewEndpoint)
      (store : Store)
      → Added store (post_endpoint privy authorization id time probe is_url (ok body) store)
  unfolding post_endpoint
  post_endpoint-cases id time probe is_url body store =
      rw (knows (lit "Failed to add endpoint")) (posted-cases id time probe is_url body store)

  deleted-cases :
      (id : Text) (store : Store)
      → Deleted id store (deleted privy authorization (some id) store (known u))
  deleted-cases [] store = inr (400, lit "Endpoint ID is required", refl)
  deleted-cases (c ∷ s) store =
      let rest = filter (λ ep. not (text_eq ep.id (c ∷ s))) (endpoints_of u store) in
      inl (refl, rw (endpoints_of-set u u rest store, text_eq_refl u) refl)

  pub delete_endpoint-cases :
      (id : Text) (store : Store)
      → Deleted id store (delete_endpoint privy authorization (some id) store)
  unfolding delete_endpoint
  delete_endpoint-cases id store =
      rw (knows (lit "Failed to delete endpoint")) (deleted-cases id store)
