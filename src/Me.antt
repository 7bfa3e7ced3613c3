-- ===== src/Me.antt =====
-- web-ui/src/app/api/user/me/route.ts: the account of the caller. The query for it is the parameter
-- `find_user`.
pub mod Own
use multi_rpc.Prelude.{
  ℕ, Option, none, some, [], ◌∷◌, Text, lit, remove_first, Result, ok, err, Act, ◌>>=◌, return,
  throw, try_catch,
}
use multi_rpc.Platform.{Platform}
use multi_rpc.Middleware.{Privy}

-- what the query selects
pub record Account : Type 0 where
  pub id : Text
  pub privy_id : Text
  pub email : Option Text
  pub wallet_address : Option Text
  pub name : Option Text
  pub created_at : ℕ

pub data Reply : Type 0 where
  account : Account → Reply
  refused : (status : ℕ) (error : Text) → Reply

-- the account that is made up where the database has none or throws
unfoldable pub made_up : (id : Text) (now : ℕ) → Account
made_up id now = record {
  id = id;
  privy_id = id;
  email = some (lit "user@example.com");
  wallet_address = none;
  name = none;
  created_at = now;
}

module _ (p : Platform) (find_user : (privy_id : Text) → Act p.World (Option Account))
    (privy : Option Privy) where
  open p use {World, now}

  abbrev pub invent : Text → Act World Reply
  invent id w = (ok (account (made_up id (now w))), w)

  abbrev pub found_or_invented : Text → Option Account → Act World Reply
  found_or_invented id none = invent id
  found_or_invented id (some user) = return (account user)

  -- the inner `try`
  unfoldable pub read_account : Text → Act World Reply
  read_account id = try_catch (do found ← find_user id; found_or_invented id found) (λ e. invent id)

  abbrev pub claimed : Result (Option Text) → Act World Reply
  claimed (err e) = throw e
  claimed (ok none) = return (refused 401 (lit "Invalid token"))
  claimed (ok (some id)) = read_account id

  abbrev pub of_token : Option Privy → Text → Act World Reply
  of_token none token = read_account (lit "demo-user")
  of_token (some check) token = claimed (check token)

  abbrev pub authorized : Option Text → Act World Reply
  authorized none = return (refused 401 (lit "Unauthorized"))
  authorized (some []) = return (refused 401 (lit "Unauthorized"))
  authorized (some (c ∷ s)) = of_token privy (remove_first (c ∷ s) (lit "Bearer "))

  -- `GET`
  unfoldable pub get_me : Option Text → Act World Reply
  get_me authorization =
      try_catch (authorized authorization) (λ e. return (refused 500 (lit "Internal server error")))
