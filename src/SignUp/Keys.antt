-- ===== src/SignUp/Keys.antt =====
-- The key that a new account starts with, and what comes of it.
use multi_rpc.Prelude.{
  ℕ, ◌≡◌, refl, ap, subst, false, Option, none, some, ◌++◌, Text, lit, ok, err, Result, starts_with,
  return, bind-after, catch-after,
}
use multi_rpc.Platform.{Platform, KeyRow}
use multi_rpc.ApiKey.{is_valid_format, verify}
use multi_rpc.SignUp.{
  Registry, Reply, Valid, UserRow, DefaultKey, SignUpBody, signed_up, refused, default_key,
  create_first_key, register, register_new, sign_up, sign_up_valid, parse, new_user,
  generate_api_key, free_subscription,
}

-- no text that starts with `sk_` has the format of a key
starts_sk-invalid : (s : Text) → is_valid_format (lit "sk_" ++ s) ≡ false
unfolding is_valid_format starts_with
starts_sk-invalid s = refl

verify-malformed :
    (p : Platform) (key : Text) (w : p.World)
    → is_valid_format key ≡ false
    → verify p key w ≡ (ok none, w)
unfolding verify
verify-malformed p key w h = rw h refl

module _ (p : Platform) (registry : Registry p)
    (stored : (d : DefaultKey) (w w₁ : p.World) (row : KeyRow)
      → registry.create_default_key d w ≡ (ok row, w₁)
      → row.key ≡ d.key) where
  -- the key of an answer is no key
  abbrev IsUseless : Reply → p.World → Type 0
  IsUseless (refused status error) w = Unit
  IsUseless (signed_up user key) w = is_valid_format key ≡ false

  refused-IsUseless :
      (status : ℕ) (error : Text) (r : Reply) (w : p.World)
      → ok (refused status error) ≡ ok r
      → IsUseless r w
  refused-IsUseless status error r w h =
      let answered : refused status error ≡ r = cc h in subst (λ x. IsUseless x w) answered tt

  create_first_key-invalid :
      (user_id : Text) (w : p.World) (row : KeyRow)
      → (create_first_key p registry user_id w).0 ≡ ok row
      → is_valid_format row.key ≡ false
  unfolding create_first_key default_key
  create_first_key-invalid user_id w row h =
      go (registry.create_default_key (default_key user_id drawn.0) drawn.1) refl h
    where
      drawn : Text × p.World
      drawn = generate_api_key p registry w

      go :
          (r : Result KeyRow × p.World)
          → registry.create_default_key (default_key user_id drawn.0) drawn.1 ≡ r
          → r.0 ≡ ok row
          → is_valid_format row.key ≡ false
      go (ok row', w₁) e h =
          let same : row' ≡ row = cc h in
          subst (λ x. is_valid_format x.key ≡ false) same
            (rw (stored _ _ w₁ row' e) (starts_sk-invalid drawn.0))
      go (err m, w₁) e h = cc h

  register-IsUseless :
      (body : Valid) (w : p.World) (r : Reply)
      → (register p registry body w).0 ≡ ok r
      → IsUseless r (register p registry body w).1
  unfolding register
  register-IsUseless body w =
      bind-after IsUseless _ (registry.bcrypt body.password 12 w) λ hashed w₁ e₁.
        bind-after IsUseless _ (new_user p registry body w₁) λ new w₂ e₂.
          bind-after IsUseless _ (registry.create_user new w₂) λ user w₃ e₃.
            bind-after IsUseless _ (create_first_key p registry user.id w₃) λ key w₄ e₄.
              bind-after IsUseless (λ _. return (signed_up user key.key))
                (registry.create_subscription (free_subscription user.id) w₄)
                λ u w₅ e₅ r h.
                  let answered : signed_up user key.key ≡ r = cc h in
                  subst (λ x. IsUseless x w₅) answered
                    (create_first_key-invalid user.id w₃ key (ap (λ x. x.0) e₄))

  sign_up_valid-IsUseless :
      (body : Option Valid) (w : p.World) (r : Reply)
      → (sign_up_valid p registry body w).0 ≡ ok r
      → IsUseless r (sign_up_valid p registry body w).1
  sign_up_valid-IsUseless none w r h = refused-IsUseless 400 _ r w h
  sign_up_valid-IsUseless (some body) w r h =
      bind-after IsUseless _ (registry.find_user body.email w) (λ found w₁ e. go found w₁) r h
    where
      go :
          (found : Option UserRow) (w₁ : p.World) (r : Reply)
          → (register_new p registry body found w₁).0 ≡ ok r
          → IsUseless r (register_new p registry body found w₁).1
      go none w₁ r h = register-IsUseless body w₁ r h
      go (some user) w₁ r h = refused-IsUseless 400 _ r w₁ h

  -- If the database stores the default key that it is given, the key that a sign-up is answered with
  -- is never accepted: in every state of the world `verify` answers that there is no such key.
  pub verify-sign_up :
      (body : SignUpBody) (user : UserRow) (key : Text) (w later : p.World)
      → (sign_up p registry (ok body) w).0 ≡ ok (signed_up user key)
      → verify p key later ≡ (ok none, later)
  unfolding sign_up
  verify-sign_up body user key w later h = verify-malformed p key later (
      catch-after IsUseless _ (sign_up_valid p registry (parse registry.is_email body) w)
        (sign_up_valid-IsUseless (parse registry.is_email body) w)
        (λ e w₁ a k. refused-IsUseless 500 _ a w₁ k) (signed_up user key) h)
