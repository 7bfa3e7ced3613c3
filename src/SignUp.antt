-- ===== src/SignUp.antt =====
-- web-ui/src/app/api/auth/signup/route.ts: the creation of an account with its default key. The schema's
-- test for an email address is zod's; bcrypt, the random numbers and the database are the parameter
-- `Registry`. The `details` of an answer about a wrong body are zod's and are left out.
pub mod Keys
use multi_rpc.Prelude.{
  ℕ, zero, suc, Bool, true, false, not, ◌&&◌, leb, length, get_elem?, Option, none, some, List, [],
  ◌∷◌, ◌++◌, Text, lit, Result, ok, err, Act, ◌>>=◌, ◌>>◌, return, throw, try_catch, if◌then◌else◌,
  to_decimal,
}
use multi_rpc.Platform.{Platform, KeyRow}

pub record SignUpBody : Type 0 where
  pub email : Option Text
  pub password : Option Text
  pub name : Option Text

-- the `data` of `prisma.user.create`, and its row
pub record NewUser : Type 0 where
  pub email : Text
  pub privy_id : Text
  pub name : Option Text

pub record UserRow : Type 0 where
  pub id : Text
  pub email : Text
  pub name : Option Text

-- the `data` of `prisma.apiKey.create` and of `prisma.subscription.create`
pub record DefaultKey : Type 0 where
  pub user_id : Text
  pub name : Text
  pub key : Text

pub record FreeSubscription : Type 0 where
  pub user_id : Text
  pub stripe_customer_id : Text
  pub plan : Text
  pub status : Text

pub record Registry (p : Platform) : Type 0 where
  -- z.string().email()
  pub is_email : Text → Bool
  -- Math.floor(Math.random() * n), and Math.random().toString(36).substr(2, 9)
  pub random_below : ℕ → p.World → ℕ × p.World
  pub random_name : p.World → Text × p.World
  -- bcrypt.hash(password, rounds)
  pub bcrypt : Text → ℕ → Act p.World Text
  pub find_user : Text → Act p.World (Option UserRow)
  pub create_user : NewUser → Act p.World UserRow
  pub create_default_key : DefaultKey → Act p.World KeyRow
  pub create_subscription : FreeSubscription → Act p.World (Unit {0})

pub data Reply : Type 0 where
  signed_up : (user : UserRow) (api_key : Text) → Reply
  refused : (status : ℕ) (error : Text) → Reply

pub record Valid : Type 0 where
  pub email : Text
  pub password : Text
  pub name : Option Text

abbrev has_length : ℕ → Option Text → Bool
has_length n none = true
has_length n (some s) = leb n (length s)

-- signupSchema.safeParse(body)
unfoldable pub parse : (Text → Bool) → SignUpBody → Option Valid
parse is_email body = elim body.email [
  | none ↦ none
  | some email ↦ elim body.password [
    | none ↦ none
    | some password ↦
        if is_email email && leb 8 (length password) && has_length 2 body.name
        then some (record { email = email; password = password; name = body.name })
        else none
  ]
]

abbrev pub chars : Text
chars = lit "ABCDEFGHIJKLMNOPQRSTUVWXYZabcdefghijklmnopqrstuvwxyz0123456789"

-- `chars.charAt(i)`
abbrev pub char_at : Text → ℕ → Text
char_at s i = elim (get_elem? s i) [ none ↦ [] | some c ↦ c ∷ [] ]

unfoldable pub local_id : ℕ → Text → Text
local_id time name = lit "local_" ++ to_decimal time ++ lit "_" ++ name

unfoldable pub free_subscription : Text → FreeSubscription
free_subscription user_id = record {
  user_id = user_id;
  stripe_customer_id = lit "cus_free_" ++ user_id;
  plan = lit "FREE";
  status = lit "active";
}

unfoldable pub default_key : Text → Text → DefaultKey
default_key user_id generated = record {
  user_id = user_id;
  name = lit "Default Key";
  key = lit "sk_" ++ generated;
}

module _ (p : Platform) (registry : Registry p) where
  open p use {World, now}
  open registry use {
    is_email, random_below, random_name, bcrypt, find_user, create_user, create_default_key,
    create_subscription,
  }

  abbrev draw_chars : ℕ → Text → World → Text × World
  draw_chars zero result w = (result, w)
  draw_chars (suc n) result w =
      let (i, w₁) = random_below (length chars) w in draw_chars n (result ++ char_at chars i) w₁

  -- `generateApiKey()`
  unfoldable pub generate_api_key : World → Text × World
  generate_api_key w = draw_chars 32 [] w

  -- the `data` of the user that is created
  abbrev new_user : Valid → Act World NewUser
  new_user body w =
      let (name, w₁) = random_name w in
      (ok (record { email = body.email; privy_id = local_id (now w) name; name = body.name }), w₁)

  abbrev drawn_key : Text → Act World DefaultKey
  drawn_key user_id w =
      let (generated, w₁) = generate_api_key w in (ok (default_key user_id generated), w₁)

  -- the key that a new account starts with
  unfoldable pub create_first_key : Text → Act World KeyRow
  create_first_key user_id = do data' ← drawn_key user_id; create_default_key data'

  unfoldable pub register : Valid → Act World Reply
  register body = do
    hashed ← bcrypt body.password 12
    new ← new_user body
    user ← create_user new
    key ← create_first_key user.id
    create_subscription (free_subscription user.id)
    return (signed_up user key.key)

  abbrev pub register_new : Valid → Option UserRow → Act World Reply
  register_new body none = register body
  register_new body (some user) = return (refused 400 (lit "User already exists"))

  abbrev pub sign_up_valid : Option Valid → Act World Reply
  sign_up_valid none = return (refused 400 (lit "Invalid input"))
  sign_up_valid (some body) = do found ← find_user body.email; register_new body found

  abbrev pub sign_up_body : Result SignUpBody → Act World Reply
  sign_up_body (err e) = throw e
  sign_up_body (ok body) = sign_up_valid (parse is_email body)

  -- `POST`
  unfoldable pub sign_up : Result SignUpBody → Act World Reply
  sign_up body =
      try_catch (sign_up_body body) (λ e. return (refused 500 (lit "Internal server error")))
