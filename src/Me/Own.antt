-- ===== src/Me/Own.antt =====
-- Whose account the route shows.
use multi_rpc.Prelude.{
  ℕ, ◌≡◌, refl, Option, none, some, ◌∷◌, Text, lit, remove_first, Result, ok, err, Act, bind_from,
  catch_from, catch-of_ok,
}
use multi_rpc.Platform.{Platform}
use multi_rpc.Middleware.{Privy}
use multi_rpc.Me.{Account, account, made_up, get_me, read_account, invent, found_or_invented}

module _ (p : Platform) (find_user : (privy_id : Text) → Act p.World (Option Account))
    (finds : (id : Text) (w w₁ : p.World) (user : Account)
      → find_user id w ≡ (ok (some user), w₁)
      → user.privy_id ≡ id) where
  read_account-own :
      (privy : Option Privy) (id : Text) (w : p.World)
      → (user : Account) × ((read_account p find_user privy id w).0 ≡ ok (account user))
        × (user.privy_id ≡ id)
  unfolding read_account made_up
  read_account-own privy id w = go (find_user id w) refl
    where
      go :
          (r : Result (Option Account) × p.World)
          → find_user id w ≡ r
          → (user : Account) × ((catch_from
                (λ e. invent p find_user privy id)
                (bind_from (found_or_invented p find_user privy id) r)).0
              ≡ ok (account user))
            × (user.privy_id ≡ id)
      go (ok (some user), w₁) e = (user, refl, finds id w w₁ user e)
      go (ok none, w₁) e = (_, refl, refl)
      go (err m, w₁) e = (_, refl, refl)

  -- If the query finds a user by the id that it asks for, then a token that Privy accepts is always
  -- answered with an account, also when the database throws, and the account is under the id of the
  -- token.
  pub get_me-own :
      (check : Privy) (x : ℕ) (s id : Text) (w : p.World)
      → check (remove_first (x ∷ s) (lit "Bearer ")) ≡ ok (some id)
      → (user : Account) × ((get_me p find_user (some check) (some (x ∷ s)) w).0
          ≡ ok (account user))
        × (user.privy_id ≡ id)
  unfolding get_me
  get_me-own check x s id w token =
      let (user, shown, own) = read_account-own (some check) id w in
      (
        user,
        rw (token, catch-of_ok _ (read_account p find_user (some check) id w) (account user) shown)
            shown,
        own,
      )
