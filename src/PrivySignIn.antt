-- ===== src/PrivySignIn.antt =====
-- web-ui/src/app/api/auth/privy/route.ts: the account of someone who signs in with Privy. The profile at
-- Privy is the parameter `get_user`; the times of the mock user, which are not answered, are left out.
pub mod Profiles
use multi_rpc.Prelude.{
  ℕ, zero, suc, pos, negsuc, Bool, true, false, Option, none, some, List, [], ◌∷◌, Text, lit,
  text_eq, if◌then◌else◌, Result, ok, err, Act, ◌>>=◌, return, throw, try_catch,
}
use multi_rpc.Json.{Json, undefined, null, str, arr, obj, num, bool, property, items}

-- what the route reads of a profile at Privy
pub record PrivyUser : Type 0 where
  pub email : Option Text
  pub google_name : Option Text
  pub twitter_username : Option Text

-- the mock user
pub record User : Type 0 where
  pub id : Json
  pub privy_id : Json
  pub email : Json
  pub wallet_address : Json
  pub wallet_type : Json
  pub name : Json

pub data Reply : Type 0 where
  signed_in : (id email wallet_address : Json) → Reply
  refused : (status : ℕ) (error : Text) → Reply

unfoldable pub truthy : Json → Bool
truthy undefined = false
truthy null = false
truthy (bool b) = b
truthy (num (pos zero)) = false
truthy (num (pos (suc n))) = true
truthy (num (negsuc n)) = true
truthy (str []) = false
truthy (str (c ∷ s)) = true
truthy (arr vs) = true
truthy (obj fs) = true

-- `a || b`
unfoldable pub or_json : Json → Json → Json
or_json a b = if truthy a then a else b

-- `v?.name`
unfoldable pub property_maybe : Text → Json → Result Json
property_maybe name undefined = ok undefined
property_maybe name null = ok undefined
property_maybe name v = property name v

abbrev pub json_of : Option Text → Json
json_of none = undefined
json_of (some s) = str s

-- `acc.type === "wallet"`
unfoldable pub is_wallet_type : Json → Bool
is_wallet_type (str s) = text_eq s (lit "wallet")
is_wallet_type _ = false

module _ {World : Type 0} (get_user : Json → Act World (Option PrivyUser)) where
  -- a pure step that may throw
  abbrev pub pure : {A : Type 0} → Result A → Act World A
  pure r w = (r, w)

  -- `accounts.find((acc) => acc.type === "wallet")`
  unfoldable pub find_wallet : List Json → Act World Json
  find_wallet [] = return undefined
  find_wallet (acc ∷ accs) =
      let rest = find_wallet accs in
      do kind ← pure (property (lit "type") acc); if is_wallet_type kind then return acc else rest

  -- `linkedAccounts?.find(…)`: only an array has the method
  unfoldable pub find_linked : Json → Act World Json
  find_linked undefined = return undefined
  find_linked null = return undefined
  find_linked (arr vs) = find_wallet (items vs)
  find_linked _ = throw (lit "linkedAccounts.find is not a function")

  abbrev pub linked_address : Json → Act World Json
  linked_address linked = do acc ← find_linked linked; pure (property_maybe (lit "address") acc)

  unfoldable pub wallet_address_of : (wallet linked : Json) → Act World Json
  wallet_address_of wallet linked = do
    own ← pure (property_maybe (lit "address") wallet)
    if truthy own then return own else linked_address linked

  -- what the profile fills in
  unfoldable pub fill_in : (email : Json) → User → Option PrivyUser → User
  fill_in email user none = user
  fill_in email user (some profile) = record user {
    email = or_json email (or_json (json_of profile.email) null);
    name = or_json (json_of profile.google_name) (or_json (json_of profile.twitter_username) null);
  }

  -- the inner `try`
  abbrev pub look_up : (email : Json) → User → Act World User
  look_up email user =
      try_catch (do profile ← get_user user.privy_id; return (fill_in email user profile))
        (λ e. return user)

  abbrev pub answer : User → Act World Reply
  answer user = return (signed_in user.id user.email user.wallet_address)

  unfoldable pub sign_in : Json → Act World Reply
  sign_in body = do
    privy_id ← pure (property (lit "privyId") body)
    email ← pure (property (lit "email") body)
    wallet ← pure (property (lit "wallet") body)
    linked ← pure (property (lit "linkedAccounts") body)
    wallet_address ← wallet_address_of wallet linked
    wallet_type ← pure (property_maybe (lit "walletClient") wallet)
    user ← look_up email (record {
      id = privy_id;
      privy_id = privy_id;
      email = or_json email null;
      wallet_address = wallet_address;
      wallet_type = or_json wallet_type (str (lit "unknown"));
      name = null;
    })
    answer user

  -- `POST`, with the outcome of `req.json()`
  unfoldable pub post_privy : Result Json → Act World Reply
  post_privy body =
      try_catch (do value ← pure body; sign_in value)
        (λ e. return (refused 500 (lit "Authentication failed")))
