-- ===== src/Backend/Config.antt =====
-- web-ui/src/app/api/rpc/config/route.ts: reading and replacing the configuration of the service.
use multi_rpc.Prelude.{
  ℕ, ◌≡◌, refl, ◌∙◌, Bool, true, false, not, Option, none, some, List, [], ◌∷◌, Text, lit,
  remove_first, Result, ok, err, Act, ◌>>=◌, ◌>>◌, return, throw, try_catch, if◌then◌else◌,
}
use multi_rpc.Platform.{HttpResponse}
use multi_rpc.Rpc.Balancer.{Env}
use multi_rpc.Middleware.{Privy}
use multi_rpc.Json.{Json, property, is_array}
use multi_rpc.Backend.{BackendCall, backend_call, guarded}

pub record DefaultEndpoint : Type 0 where
  pub url : Text
  pub weight : ℕ
  pub priority : ℕ
  pub max_retries : ℕ
  pub timeout : ℕ

pub data ConfigReply : Type 0 where
  config : Json → ConfigReply
  -- the default, with the routing strategy, the time that answers are kept, and no consensus
  default_config :
      (endpoints : List DefaultEndpoint) (routing_strategy : Text) (cache_ttl : ℕ)
      (consensus_required : Bool)
      → ConfigReply
  success : (message : Text) (warning : Option Text) → ConfigReply
  refused : (status : ℕ) (error : Text) → ConfigReply

abbrev default_endpoint : Text → ℕ → DefaultEndpoint
default_endpoint url priority = record {
  url = url;
  weight = 1;
  priority = priority;
  max_retries = 3;
  timeout = 5000;
}

abbrev default_reply : ConfigReply
default_reply =
    default_config
      (default_endpoint (lit "https://api.mainnet-beta.solana.com") 1
        ∷ default_endpoint (lit "https://solana-api.projectserum.com") 2
        ∷ [])
      (lit "health_based") 60 false

abbrev pub stored : ConfigReply
stored = success (lit "Configuration updated") none

abbrev pub local_only : ConfigReply
local_only =
    success (lit "Configuration updated (local only)")
      (some (lit "Backend not available, changes are not persisted"))

module _ {World : Type 0} (env : Env) (fetch : BackendCall → Act World HttpResponse)
    (privy : Privy) where
  abbrev of_response : HttpResponse → Act World ConfigReply
  of_response r = if r.is_ok then given r.json else return default_reply
    where
      given : Result Json → Act World ConfigReply
      given (ok v) = return (config v)
      given (err e) = throw e

  unfoldable pub read_config : Act World ConfigReply
  read_config =
      try_catch
        (do
          response ← fetch (backend_call env (lit "/config") (lit "GET") none)
          of_response response)
        (λ e. return default_reply)

  -- `GET`
  unfoldable pub get_config : Option Text → Act World ConfigReply
  get_config authorization =
      try_catch (guarded refused (some privy) read_config authorization)
        (λ e. return (refused 500 (lit "Failed to fetch configuration")))

  abbrev pub update_call : Json → BackendCall
  update_call v = backend_call env (lit "/config") (lit "POST") (some v)

  abbrev pub reload_call : BackendCall
  reload_call = backend_call env (lit "/config/reload") (lit "POST") none

  -- the reload that a stored configuration triggers
  abbrev pub reload : Act World ConfigReply
  reload = do fetch reload_call; return stored

  abbrev pub after_update : HttpResponse → Act World ConfigReply
  after_update r = if r.is_ok then reload else return local_only

  unfoldable pub update_config : Json → Act World ConfigReply
  update_config v =
      try_catch (do response ← fetch (update_call v); after_update response)
        (λ e. return local_only)

  -- `!config.endpoints || !Array.isArray(config.endpoints)`
  abbrev pub update_if_valid : Json → Result Json → Act World ConfigReply
  update_if_valid v (err e) = throw e
  update_if_valid v (ok endpoints) =
      if not (is_array endpoints)
      then return (refused 400 (lit "Invalid configuration format"))
      else update_config v

  abbrev pub update_from : Result Json → Act World ConfigReply
  update_from (err e) = throw e
  update_from (ok v) = update_if_valid v (property (lit "endpoints") v)

  -- `POST`
  unfoldable pub post_config : Result Json → Option Text → Act World ConfigReply
  post_config body authorization =
      try_catch (guarded refused (some privy) (update_from body) authorization)
        (λ e. return (refused 500 (lit "Failed to update configuration")))

  module _ (kept : World → Json)
      (stores : (v : Json) (r : HttpResponse) (w w₁ : World)
        → fetch (update_call v) w ≡ (ok r, w₁)
        → r.is_ok ≡ true
        → kept w₁ ≡ v)
      (keeps : (e : Text) (w w₁ : World)
        → fetch reload_call w ≡ (err e, w₁)
        → kept w₁ ≡ kept w) where
    -- If the service keeps a configuration that it accepts, and a reload that fails does not change
    -- it, then an update by a user that the service accepts, and whose reload fails, is answered with
    -- the warning that nothing is persisted, while the service has kept the new configuration.
    pub post_config-warning :
        (v endpoints : Json) (x : ℕ) (s id e : Text) (r : HttpResponse) (w w₁ w₂ : World)
        → privy (remove_first (x ∷ s) (lit "Bearer ")) ≡ ok (some id)
        → property (lit "endpoints") v ≡ ok endpoints
        → is_array endpoints ≡ true
        → fetch (update_call v) w ≡ (ok r, w₁)
        → r.is_ok ≡ true
        → fetch reload_call w₁ ≡ (err e, w₂)
        → (post_config (ok v) (some (x ∷ s)) w ≡ (ok local_only, w₂)) × (kept w₂ ≡ v)
    unfolding post_config update_config guarded
    post_config-warning v endpoints x s id e r w w₁ w₂ token given listed updated accepted failed =
        (
          rw (token, given, listed, updated, accepted, failed) refl,
          keeps e w₁ w₂ failed ∙ stores v r w w₁ updated accepted,
        )
