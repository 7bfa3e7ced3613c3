-- ===== src/RpcClient/Answers.antt =====
-- When the client hands out an answer.
use multi_rpc.Prelude.{
  true, Option, some, List, [], ◌∷◌, Text, lit, Result, ok, err, Act, bind_from, ◌≡◌, refl,
  Bool-cases, inl, inr,
}
use multi_rpc.Json.{Json}
use multi_rpc.RpcClient.{HttpAnswer, RpcClient, send_request, checked}

module _ {World : Type 0}
    (fetch : Text → List (Text × Text) → Option Json → Act World HttpAnswer) where
  checked-ok :
      (r : Result HttpAnswer × World) (v : Json)
      → (bind_from (checked fetch) r).0 ≡ ok v
      → (answer : HttpAnswer) × (r.0 ≡ ok answer) × (answer.is_ok ≡ true) × (answer.json ≡ ok v)
  checked-ok (err e, w) v h = cc h
  checked-ok (ok answer, w) v h = elim (Bool-cases answer.is_ok) [
    | inl y ↦ (answer, refl, y, (rw y at h))
    | inr n ↦ cc (rw n at h)
  ]

  -- What `sendRequest` hands out is the JSON of an answer with a status of success, to a POST that
  -- carried the request and the API key.
  pub send_request-ok :
      (client : RpcClient) (request v : Json) (w : World)
      → (send_request fetch client request w).0 ≡ ok v
      → (answer : HttpAnswer) × ((fetch client.base_url
            ((lit "Content-Type", lit "application/json") ∷ (lit "X-API-Key", client.api_key) ∷ [])
            (some request)
            w).0
          ≡ ok answer)
        × (answer.is_ok ≡ true)
        × (answer.json ≡ ok v)
  unfolding send_request
  send_request-ok client request v w h = checked-ok _ v h
