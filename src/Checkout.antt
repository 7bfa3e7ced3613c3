-- ===== src/Checkout.antt =====
-- web-ui/src/app/api/billing/create-checkout-session/route.ts: the checkout sessions. Stripe and the
-- database are the parameter `Shop`; the request's header `x-user-id` and body are arguments. The
-- fields of a session that are the same in all of them are left out.
pub mod Purchase
use multi_rpc.Prelude.{
  ℕ, Bool, true, false, not, any, Option, none, some, List, [], ◌∷◌, ◌++◌, Text, lit, text_or,
  text_eq, Result, ok, err, Act, ◌>>=◌, ◌>>◌, return, throw, try_catch, if◌then◌else◌,
}
use multi_rpc.Rpc.Balancer.{Env}

-- a user with the Stripe customer of its subscription
pub record Buyer : Type 0 where
  pub id : Text
  pub email : Option Text
  pub name : Option Text
  pub stripe_customer_id : Option Text

-- the `create` of `prisma.subscription.upsert`
pub record NewSubscription : Type 0 where
  pub user_id : Text
  pub stripe_customer_id : Text
  pub plan : Text
  pub status : Text

pub record Session : Type 0 where
  pub customer : Text
  pub price : Text
  pub success_url : Text
  pub cancel_url : Text
  pub user_id : Text
  pub plan : Text

pub record Shop (World : Type 0) : Type 0 where
  -- prisma.user.findUnique by `privyId`
  pub find_buyer : Text → Act World (Option Buyer)
  -- stripe.customers.create
  pub create_customer : (email name : Option Text) (user_id : Text) → Act World Text
  -- prisma.subscription.upsert by `userId`: the update sets the customer's id
  pub upsert_subscription : (user_id customer : Text) → NewSubscription → Act World (Unit {0})
  -- stripe.checkout.sessions.create, whose answer is the session's `url`
  pub create_session : Session → Act World (Option Text)

pub data Reply : Type 0 where
  opened : (url : Option Text) → Reply
  refused : (status : ℕ) (error : Text) → Reply

-- `["STARTER", "PRO", "ENTERPRISE"].includes(plan)`
unfoldable pub is_plan : Text → Bool
is_plan plan = any (text_eq plan) (lit "STARTER" ∷ lit "PRO" ∷ lit "ENTERPRISE" ∷ [])

-- PRICE_IDS
unfoldable pub price_id : Env → Text → Text
price_id env plan =
    if text_eq plan (lit "STARTER")
    then text_or (env (lit "STRIPE_STARTER_PRICE_ID")) (lit "price_starter")
    else if text_eq plan (lit "PRO")
    then text_or (env (lit "STRIPE_PRO_PRICE_ID")) (lit "price_pro")
    else text_or (env (lit "STRIPE_ENTERPRISE_PRICE_ID")) (lit "price_enterprise")

-- an undefined variable in a template
abbrev shown : Option Text → Text
shown none = lit "undefined"
shown (some v) = v

unfoldable pub session : Env → Text → Text → Buyer → Session
session env plan customer buyer = record {
  customer = customer;
  price = price_id env plan;
  success_url =
      shown (env (lit "NEXT_PUBLIC_APP_URL"))
      ++ lit "/dashboard?success=true&session_id={CHECKOUT_SESSION_ID}";
  cancel_url = shown (env (lit "NEXT_PUBLIC_APP_URL")) ++ lit "/dashboard?canceled=true";
  user_id = buyer.id;
  plan = plan;
}

abbrev inactive : Text → Text → NewSubscription
inactive user_id customer = record {
  user_id = user_id;
  stripe_customer_id = customer;
  plan = lit "FREE";
  status = lit "inactive";
}

module _ {World : Type 0} (env : Env) (shop : Shop World) where
  open shop use {find_buyer, create_customer, upsert_subscription, create_session}

  abbrev pub new_customer : Buyer → Act World Text
  new_customer buyer = do
    customer ← create_customer buyer.email buyer.name buyer.id
    upsert_subscription buyer.id customer (inactive buyer.id customer)
    return customer

  -- Get or create the Stripe customer; a missing id and an empty one are the same.
  unfoldable pub customer_of : Buyer → Option Text → Act World Text
  customer_of buyer none = new_customer buyer
  customer_of buyer (some []) = new_customer buyer
  customer_of buyer (some (c ∷ s)) = return (c ∷ s)

  abbrev pub open_session : Text → Buyer → Act World Reply
  open_session plan buyer = do
    customer ← customer_of buyer buyer.stripe_customer_id
    url ← create_session (session env plan customer buyer)
    return (opened url)

  abbrev pub sell : Text → Option Buyer → Act World Reply
  sell plan none = return (refused 404 (lit "User not found"))
  sell plan (some buyer) = open_session plan buyer

  abbrev pub order : Text → Text → Act World Reply
  order user_id plan =
      if not (is_plan plan)
      then return (refused 400 (lit "Invalid plan"))
      else (do found ← find_buyer user_id; sell plan found)

  -- a plan that is no text is on no list
  abbrev pub ordered : Text → Result (Option Text) → Act World Reply
  ordered user_id (err e) = throw e
  ordered user_id (ok none) = return (refused 400 (lit "Invalid plan"))
  ordered user_id (ok (some plan)) = order user_id plan

  abbrev pub identified : Option Text → Result (Option Text) → Act World Reply
  identified none body = return (refused 401 (lit "Unauthorized"))
  identified (some []) body = return (refused 401 (lit "Unauthorized"))
  identified (some (c ∷ s)) body = ordered (c ∷ s) body

  -- `POST`
  unfoldable pub post_session : Option Text → Result (Option Text) → Act World Reply
  post_session user_id body =
      try_catch (identified user_id body)
        (λ e. return (refused 500 (lit "Failed to create checkout session")))
