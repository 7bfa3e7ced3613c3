-- ===== src/Rpc/Balancer/Choosing.antt =====
-- Which endpoint the balancer chooses.
use native.Mathlib.Nat.{mod-lt}
use multi_rpc.Prelude.{
  ℕ, zero, suc, ◌+◌, ◌%◌, subst, Dict, ◌<◌, ◌≡◌, refl, ◌⊎◌, inl, inr, Bool, true, false, some, List,
  [], ◌∷◌, Text, get, get-set, text_eq, text_eq_refl, filter, length, get_elem?, any,
  get_elem?-some, arith, Bool-cases, ◌==◌, sym, ◌∙◌,
}
use multi_rpc.Rpc.Balancer.{
  Env, Endpoint, LoadBalancer, HealthStatus, rpc_backend_url, first_url, rpc_endpoints,
  healthy_endpoints, known_healthy, may_be_healthy, get_next_endpoint, mark_unhealthy, rotate,
  url_of,
}

get_elem?-filter :
    (test : Endpoint → Bool) (eps : List Endpoint) (i : ℕ) (ep : Endpoint)
    → get_elem? (filter test eps) i ≡ some ep
    → (test ep ≡ true) × (any (λ x. text_eq x.url ep.url) eps ≡ true)
get_elem?-filter test [] i ep h = cc h
get_elem?-filter test (x ∷ eps) zero ep h =
    ground (arith, text_eq_refl x.url, get_elem?-filter test eps zero ep)
get_elem?-filter test (x ∷ eps) (suc i) ep h =
    ground (arith, get_elem?-filter test eps i ep, get_elem?-filter test eps (suc i) ep)

-- The rotation gives an element of the list, or the first endpoint when the list is empty.
rotate-element :
    (env : Env) (healthy : List Endpoint) (lb : LoadBalancer)
    → ((healthy ≡ []) × ((rotate env healthy lb).0 ≡ first_url env))
      ⊎ ((i : ℕ) × (ep : Endpoint) × (get_elem? healthy i ≡ some ep)
          × ((rotate env healthy lb).0 ≡ ep.url))
unfolding rotate
rotate-element env [] lb = inl (refl, refl)
rotate-element env (x ∷ xs) lb =
    let i = lb.current_index % length (x ∷ xs) in
    let (ep, e) = get_elem?-some (x ∷ xs) i (mod-lt lb.current_index (omega arith)) in
    inr (i, ep, e, ground arith)

filter-nil :
    (test : Endpoint → Bool) (eps : List Endpoint) → filter test eps ≡ [] → any test eps ≡ false
filter-nil test [] h = refl
filter-nil test (x ∷ eps) h = ground (arith, filter-nil test eps)

-- The endpoint that is chosen is the backend, if that is known to be healthy; else it is one of the
-- configured endpoints that is not known to be unhealthy, and only if there is none the first.
pub get_next_endpoint-choice :
    (env : Env) (now : ℕ) (lb : LoadBalancer)
    → let url = (get_next_endpoint env now lb).url in
      let health = λ (u : Text). get u lb.health_status in
      ((known_healthy (health (rpc_backend_url env)) ≡ true) × (url ≡ rpc_backend_url env))
      ⊎ ((known_healthy (health (rpc_backend_url env)) ≡ false)
          × (any (λ ep. text_eq ep.url url) (rpc_endpoints env) ≡ true)
          × (may_be_healthy (health url) ≡ true))
      ⊎ ((known_healthy (health (rpc_backend_url env)) ≡ false)
          × (any (λ ep. may_be_healthy (health ep.url)) (rpc_endpoints env) ≡ false)
          × (url ≡ first_url env))
unfolding get_next_endpoint healthy_endpoints
get_next_endpoint-choice env now lb =
    elim (Bool-cases (known_healthy (get (rpc_backend_url env) lb.health_status))) [
      | inl up ↦ inl (up, rw up)
      | inr down ↦ elim (rotate-element env (healthy_endpoints env lb) lb) [
        | inl (empty, first) ↦
            inr (inr (down, filter-nil usable (rpc_endpoints env) empty, rw down first))
        | inr (i, ep, at, chosen) ↦
            let (ready, listed) = get_elem?-filter usable (rpc_endpoints env) i ep at in
            inr (inl (down, rw (down, chosen) listed, rw (down, chosen) ready))
      ]
    ]
  where
    usable : Endpoint → Bool
    usable ep = may_be_healthy (get ep.url lb.health_status)

marked-unhealthy :
    (url : Text) (marked : ℕ) (lb : LoadBalancer)
    → get url (mark_unhealthy url marked lb).health_status
      ≡ some (record { healthy = false; last_check = marked })
unfolding mark_unhealthy
marked-unhealthy url marked lb = rw (get-set, text_eq_refl url)

-- An endpoint that has just been marked unhealthy is chosen only if it is the first one and no
-- configured endpoint is usable, the backend not being known to be healthy either.
pub get_next_endpoint-mark_unhealthy :
    (env : Env) (url : Text) (marked now : ℕ) (lb : LoadBalancer)
    → let lb' = mark_unhealthy url marked lb in
      (get_next_endpoint env now lb').url ≡ url
      → (url ≡ first_url env)
        × (any (λ ep. may_be_healthy (get ep.url lb'.health_status)) (rpc_endpoints env) ≡ false)
        × (known_healthy (get (rpc_backend_url env) lb'.health_status) ≡ false)
get_next_endpoint-mark_unhealthy env url marked now lb back =
    elim (get_next_endpoint-choice env now (mark_unhealthy url marked lb)) [
      | inl (up, same) ↦
          let up' = subst (λ u. known_healthy (get u health) ≡ true) (sym same ∙ back) up in
          cc (marked-unhealthy url marked lb, up')
      | inr (inl (down, listed, ready)) ↦
          let ready' = subst (λ u. may_be_healthy (get u health) ≡ true) back ready in
          cc (marked-unhealthy url marked lb, ready')
      | inr (inr (down, none_left, first)) ↦ (sym back ∙ first, none_left, down)
    ]
  where
    health : Dict HealthStatus
    health = (mark_unhealthy url marked lb).health_status

-- the balancer after that many choices
abbrev pub after_choices : Env → ℕ → ℕ → LoadBalancer → LoadBalancer
after_choices env now zero lb = lb
after_choices env now (suc n) lb = after_choices env now n (get_next_endpoint env now lb).balancer

choice-balancer :
    (env : Env) (now : ℕ) (lb : LoadBalancer)
    → known_healthy (get (rpc_backend_url env) lb.health_status) ≡ false
    → 0 < length (healthy_endpoints env lb)
    → ((get_next_endpoint env now lb).balancer ≡ record lb { current_index = lb.current_index + 1 })
      × ((get_next_endpoint env now lb).url
          ≡ url_of
              (get_elem?
                (healthy_endpoints env lb)
                (lb.current_index % length (healthy_endpoints env lb)))
              (first_url env))
unfolding get_next_endpoint rotate
choice-balancer env now lb down left =
    let n : (length (healthy_endpoints env lb) == 0) ≡ false = ground arith in
    (rw (down, n), rw (down, n))

after_choices-status :
    (env : Env) (now n : ℕ) (lb : LoadBalancer)
    → known_healthy (get (rpc_backend_url env) lb.health_status) ≡ false
    → 0 < length (healthy_endpoints env lb)
    → after_choices env now n lb ≡ record lb { current_index = lb.current_index + n }
unfolding healthy_endpoints
after_choices-status env now zero lb down left = ground arith
after_choices-status env now (suc n) lb down left = rw (choice-balancer env now lb down left).0 (
    after_choices-status env now n (record lb { current_index = lb.current_index + 1 }) down left
    ∙ ground arith)

-- While no health report comes in and the backend is down, the choices go round: the n-th choice from
-- now takes the usable endpoint at the current index plus n, modulo their number.
pub after_choices-rotation :
    (env : Env) (now n : ℕ) (lb : LoadBalancer)
    → known_healthy (get (rpc_backend_url env) lb.health_status) ≡ false
    → 0 < length (healthy_endpoints env lb)
    → (ep : Endpoint) × (get_elem?
          (healthy_endpoints env lb)
          ((lb.current_index + n) % length (healthy_endpoints env lb))
        ≡ some ep)
      × ((get_next_endpoint env now (after_choices env now n lb)).url ≡ ep.url)
unfolding healthy_endpoints
after_choices-rotation env now n lb down some_left =
    let eps = healthy_endpoints env lb in
    let i = (lb.current_index + n) % length eps in
    let (ep, at) = get_elem?-some eps i (mod-lt (lb.current_index + n) some_left) in
    let here = record lb { current_index = lb.current_index + n } in
    (
      ep,
      at,
      rw (after_choices-status env now n lb down some_left)
          ((choice-balancer env now here down some_left).1 ∙ rw at),
    )
