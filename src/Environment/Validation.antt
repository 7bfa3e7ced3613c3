-- ===== src/Environment/Validation.antt =====
-- What a validated environment holds.
use multi_rpc.Prelude.{
  Bool, true, false, ◌||◌, ◌==◌, Option, none, some, List, [], ◌∷◌, ◌++◌, length, any, all, Text,
  text_eq, text_eq_iff, lit, Dict, get, get-set, ok, err, if◌then◌else◌, ◌≡◌, refl, arith,
  Bool-cases, inl, inr, ◌∙◌, ◌⊎◌,
}
use multi_rpc.Rpc.Balancer.{Env}
use multi_rpc.Rpc.Post.{truthy}
use multi_rpc.Environment.{
  required_env_vars, optional_env_vars, is_some, missing_vars, join, put, copy_vars, validate_env,
}

abbrev pub among : Text → List Text → Bool
among name names = any (λ n. text_eq n name) names

get-put :
    (k name : Text) (v : Option Text) (vars : Dict Text)
    → get k (put name v vars)
      ≡ (if text_eq name k then (if is_some v then v else get k vars) else get k vars)
get-put k name none vars = ground arith
get-put k name (some v) vars = get-set name k v vars

get-copy_vars :
    (env : Env) (k : Text) (names : List Text) (vars : Dict Text)
    → get k (copy_vars env names vars) ≡ (
        if among k names
        then (if is_some (truthy (env k)) then truthy (env k) else get k vars)
        else get k vars)
unfolding copy_vars
get-copy_vars env k [] vars = refl
get-copy_vars env k (name ∷ names) vars = elim (Bool-cases (text_eq name k)) [
  | inl y ↦
      let same : name ≡ k = (text_eq_iff name k).0 y in
      get-copy_vars env k names (put name (truthy (env name)) vars)
      ∙ rw (get-put k name (truthy (env name)) vars, y, same) (ground arith)
  | inr n ↦
      get-copy_vars env k names (put name (truthy (env name)) vars)
      ∙ rw (get-put k name (truthy (env name)) vars, n) refl
]

none-missing :
    (env : Env) (names : List Text)
    → length (missing_vars env names) == 0 ≡ all (λ name. is_some (truthy (env name))) names
unfolding missing_vars
none-missing env [] = refl
none-missing env (name ∷ names) = ground (arith, none-missing env names)

-- An environment is valid exactly if each required variable has a value that is not empty; then the
-- result holds, under each name of the two lists, the value of the variable if it is not empty, and
-- nothing else. Otherwise the error names the required variables that have none.
pub validate_env_lem :
    (env : Env)
    → ((all (λ name. is_some (truthy (env name))) required_env_vars ≡ true)
        × ((vars : Dict Text) × (validate_env env ≡ ok vars)
            × ((k : Text)
                → get k vars ≡ (
                    if among k required_env_vars || among k optional_env_vars
                    then truthy (env k)
                    else none))))
      ⊎ ((all (λ name. is_some (truthy (env name))) required_env_vars ≡ false)
          × (validate_env env
              ≡ err (
                  lit "Missing required environment variables: "
                  ++ join (missing_vars env required_env_vars))))
unfolding validate_env get
validate_env_lem env =
    let same = none-missing env required_env_vars in
    elim (Bool-cases (all (λ name. is_some (truthy (env name))) required_env_vars)) [
      | inl y ↦ inl (
        y,
        (
          copy_vars env optional_env_vars (copy_vars env required_env_vars []),
          rw (same, y) refl,
          λ k.
              get-copy_vars env k optional_env_vars (copy_vars env required_env_vars [])
              ∙ rw (get-copy_vars env k required_env_vars []) (ground arith),
        ),
      )
      | inr n ↦ inr (n, rw (same, n) refl)
    ]
