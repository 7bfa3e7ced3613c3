-- ===== src/PrivySignIn/Profiles.antt =====
-- What the answer tells of the profile at Privy.
use multi_rpc.Prelude.{◌≡◌, refl, false, some, ◌∷◌, Text, lit, ok, Option, Act}
use multi_rpc.Json.{Json, Fields, str, obj, property, lookup_field}
use multi_rpc.PrivySignIn.{
  PrivyUser, signed_in, truthy, or_json, property_maybe, wallet_address_of, post_privy, sign_in,
  fill_in,
}

property_maybe-ok : (name : Text) (v : Json) → (u : Json) × (property_maybe name v ≡ ok u)
unfolding property_maybe property
property_maybe-ok name Json.undefined = (_, refl)
property_maybe-ok name Json.null = (_, refl)
property_maybe-ok name (Json.bool b) = (_, refl)
property_maybe-ok name (Json.num n) = (_, refl)
property_maybe-ok name (Json.str s) = (_, refl)
property_maybe-ok name (Json.arr vs) = (_, refl)
property_maybe-ok name (Json.obj fs) = (_, refl)

-- Whoever sends an id without an e-mail address is answered the address that Privy has of the user of
-- that id, as soon as the wallet's part of the body can be read; no token is asked for.
pub post_privy-email :
    {World : Type 0} (get_user : Json → Act World (Option PrivyUser)) (fs : Fields) (w w₁ : World)
    (profile : PrivyUser) (c : _) (s : Text) (wallet : Json)
    → truthy (lookup_field (lit "email") fs) ≡ false
    → wallet_address_of get_user
        (lookup_field (lit "wallet") fs)
        (lookup_field (lit "linkedAccounts") fs)
        w
      ≡ (ok wallet, w)
    → get_user (lookup_field (lit "privyId") fs) w ≡ (ok (some profile), w₁)
    → profile.email ≡ some (c ∷ s)
    → post_privy get_user (ok (obj fs)) w
      ≡ (ok (signed_in (lookup_field (lit "privyId") fs) (str (c ∷ s)) wallet), w₁)
unfolding post_privy sign_in property fill_in or_json truthy
post_privy-email get_user fs w w₁ profile c s wallet unnamed read known address =
    let (u, kind) = property_maybe-ok (lit "walletClient") (lookup_field (lit "wallet") fs) in
    rw (read, kind, known, address, unnamed) refl
