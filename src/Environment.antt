-- ===== src/Environment.antt =====
-- web-ui/src/lib/env-validation.ts: `validateEnv`, over `process.env` as a function. An address that
-- does not parse is only logged, so that check is left out.
pub mod Validation
use multi_rpc.Prelude.{
  ℕ, Bool, true, false, not, ◌==◌, Option, none, some, List, [], ◌∷◌, ◌++◌, filter, length, Text,
  lit, Dict, set, Result, ok, err, if◌then◌else◌,
}
use multi_rpc.Rpc.Balancer.{Env}
use multi_rpc.Rpc.Post.{truthy}

unfoldable pub required_env_vars : List Text
required_env_vars =
    lit "NEXT_PUBLIC_PRIVY_APP_ID" ∷ lit "PRIVY_APP_SECRET" ∷ lit "NEXT_PUBLIC_SOLANA_RPC_URL" ∷ []

unfoldable pub optional_env_vars : List Text
optional_env_vars =
    lit "NEXT_PUBLIC_RPC_URL"
    ∷ lit "RPC_ADMIN_KEY"
    ∷ lit "DATABASE_URL"
    ∷ lit "STRIPE_SECRET_KEY"
    ∷ lit "STRIPE_WEBHOOK_SECRET"
    ∷ lit "NEXT_PUBLIC_STRIPE_PUBLISHABLE_KEY"
    ∷ []

abbrev pub is_some : Option Text → Bool
is_some none = false
is_some (some v) = true

-- the names with no value, or an empty one
unfoldable pub missing_vars : Env → List Text → List Text
missing_vars env names = filter (λ name. not (is_some (truthy (env name)))) names

abbrev pub put : Text → Option Text → Dict Text → Dict Text
put name none vars = vars
put name (some v) vars = set name v vars

-- a loop that copies the values that are there
unfoldable pub copy_vars : Env → List Text → Dict Text → Dict Text
copy_vars env [] vars = vars
copy_vars env (name ∷ names) vars = copy_vars env names (put name (truthy (env name)) vars)

-- `missingVars.join(', ')`
unfoldable pub join : List Text → Text
join [] = []
join (name ∷ []) = name
join (name ∷ next ∷ names) = name ++ lit ", " ++ join (next ∷ names)

unfoldable pub validate_env : Env → Result (Dict Text)
validate_env env =
    let missing = missing_vars env required_env_vars in
    if length missing == 0
    then ok (copy_vars env optional_env_vars (copy_vars env required_env_vars []))
    else err (lit "Missing required environment variables: " ++ join missing)
