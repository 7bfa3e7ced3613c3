-- ===== src/Backend.antt =====
-- What the routes that ask the Rust service share: the check of the token at the start of their handlers
-- and the calls of the service. Each call carries the admin key of the environment.
pub mod Config
pub mod Health
pub mod Averages
use multi_rpc.Prelude.{
  ℕ, Bool, Option, none, some, [], ◌∷◌, ◌++◌, Text, lit, text_or, remove_first, Result, ok, err,
  Act, return, throw,
}
use multi_rpc.Rpc.Balancer.{Env}
use multi_rpc.Middleware.{Privy}
use multi_rpc.Json.{Json}

pub record BackendCall : Type 0 where
  pub url : Text
  pub method : Text
  pub api_key : Text
  pub body : Option Json

-- `process.env.NEXT_PUBLIC_RPC_URL || "http://localhost:8080"`
abbrev pub backend_url : Env → Text
backend_url env = text_or (env (lit "NEXT_PUBLIC_RPC_URL")) (lit "http://localhost:8080")

-- a call of the service at a path, under `process.env.RPC_ADMIN_KEY || ""`
unfoldable pub backend_call : Env → (path method : Text) → Option Json → BackendCall
backend_call env path method body = record {
  url = backend_url env ++ path;
  method = method;
  api_key = text_or (env (lit "RPC_ADMIN_KEY")) [];
  body = body;
}

-- The requests that have a token are served; where Privy is not configured the token is not looked at.
module _ {World Reply : Type 0} (refuse : (status : ℕ) (error : Text) → Reply) where
  abbrev pub verified : Act World Reply → Result (Option Text) → Act World Reply
  verified serve (err e) = throw e
  verified serve (ok none) = return (refuse 401 (lit "Invalid token"))
  verified serve (ok (some id)) = serve

  abbrev pub checked : Option Privy → Act World Reply → Text → Act World Reply
  checked none serve token = serve
  checked (some privy) serve token = verified serve (privy token)

  unfoldable pub guarded : Option Privy → Act World Reply → Option Text → Act World Reply
  guarded privy serve none = return (refuse 401 (lit "Unauthorized"))
  guarded privy serve (some []) = return (refuse 401 (lit "Unauthorized"))
  guarded privy serve (some (c ∷ s)) = checked privy serve (remove_first (c ∷ s) (lit "Bearer "))
