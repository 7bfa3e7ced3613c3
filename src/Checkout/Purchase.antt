-- ===== src/Checkout/Purchase.antt =====
-- A purchase, from the checkout session to the event that Stripe sends when it is paid.
use multi_rpc.Prelude.{
  ℕ, ◌≡◌, refl, sym, ap, subst, ◌∙◌, true, Option, none, some, [], ◌∷◌, find, Text, lit, text_or,
  text_eq, ok, bind-after, catch-after, Bool-cases, inl, inr,
}
use multi_rpc.Rpc.Balancer.{Env}
use multi_rpc.Webhook.{SubscriptionRow, Billing, checkout_completed, received, handle}
use multi_rpc.Webhook.Tables.{BillingTables, of_customer}
use multi_rpc.Webhook.Subscriptions.{handle-checkout}
use multi_rpc.Checkout.{
  Buyer, Session, NewSubscription, Shop, Reply, opened, refused, is_plan, price_id, session,
  customer_of, new_customer, post_session, inactive, sell, open_session, order,
}

-- The documented behaviour of the calls on Stripe's sessions, of which `last_session` is the latest,
-- and on the table of subscriptions, where users and customers are unique.
pub record ShopTables (b : Billing) (tables : BillingTables b) (shop : Shop b.World) : Type 0 where
  pub last_session : b.World → Option Session
  pub buyer_rows :
      (id : Text) (w w₁ : b.World) (buyer : Buyer)
      → shop.find_buyer id w ≡ (ok (some buyer), w₁)
      → tables.subscriptions w₁ ≡ tables.subscriptions w
  -- the customer that is found with a user is of a row of this user
  pub buyer_customer :
      (id : Text) (w w₁ : b.World) (buyer : Buyer) (customer : Text)
      → shop.find_buyer id w ≡ (ok (some buyer), w₁)
      → buyer.stripe_customer_id ≡ some customer
      → (row : SubscriptionRow) × (find (of_customer customer) (tables.subscriptions w) ≡ some row)
        × (row.user_id ≡ buyer.id)
  -- after an upsert the customer has a row, and it is of the user
  pub upsert_row :
      (user_id customer : Text) (new : NewSubscription) (w w₁ : b.World)
      → shop.upsert_subscription user_id customer new w ≡ (ok tt, w₁)
      → (row : SubscriptionRow) × (find (of_customer customer) (tables.subscriptions w₁) ≡ some row)
        × (row.user_id ≡ user_id)
  pub session_rows :
      (s : Session) (w w₁ : b.World) (url : Option Text)
      → shop.create_session s w ≡ (ok url, w₁)
      → tables.subscriptions w₁ ≡ tables.subscriptions w
  pub session_last :
      (s : Session) (w w₁ : b.World) (url : Option Text)
      → shop.create_session s w ≡ (ok url, w₁)
      → last_session w₁ ≡ some s

module _ (b : Billing) (tables : BillingTables b) (shop : Shop b.World)
    (laws : ShopTables b tables shop) (env : Env) where
  open laws use {last_session}

  -- `customer` has a row of the user
  abbrev IsCustomer : Text → Text → b.World → Type 0
  IsCustomer user_id customer w =
      (row : SubscriptionRow) × (find (of_customer customer) (tables.subscriptions w) ≡ some row)
      × (row.user_id ≡ user_id)

  IsCustomer-moved :
      (user_id customer : Text) (w w₁ : b.World)
      → tables.subscriptions w₁ ≡ tables.subscriptions w
      → IsCustomer user_id customer w
      → IsCustomer user_id customer w₁
  IsCustomer-moved user_id customer w w₁ e (row, there, own) = (row, rw e there, own)

  new_customer-IsCustomer :
      (buyer : Buyer) (w : b.World) (customer : Text)
      → (new_customer env shop buyer w).0 ≡ ok customer
      → IsCustomer buyer.id customer (new_customer env shop buyer w).1
  new_customer-IsCustomer buyer w =
      bind-after (IsCustomer buyer.id) _ (shop.create_customer buyer.email buyer.name buyer.id w)
        λ c w₁ made.
          bind-after (IsCustomer buyer.id) _
            (shop.upsert_subscription buyer.id c (inactive buyer.id c) w₁)
            λ u w₂ stored customer h.
              let same : c ≡ customer = cc h in
              subst (λ x. IsCustomer buyer.id x w₂) same
                (laws.upsert_row buyer.id c (inactive buyer.id c) w₁ w₂ stored)

  customer_of-IsCustomer :
      (id : Text) (w w₁ : b.World) (buyer : Buyer)
      → shop.find_buyer id w ≡ (ok (some buyer), w₁)
      → (customer : Text) → (customer_of env shop buyer buyer.stripe_customer_id w₁).0 ≡ ok customer
      → IsCustomer buyer.id customer (customer_of env shop buyer buyer.stripe_customer_id w₁).1
  unfolding customer_of
  customer_of-IsCustomer id w w₁ buyer found = go buyer.stripe_customer_id refl
    where
      go :
          (c : Option Text)
          → buyer.stripe_customer_id ≡ c
          → (customer : Text) → (customer_of env shop buyer c w₁).0 ≡ ok customer
          → IsCustomer buyer.id customer (customer_of env shop buyer c w₁).1
      go none e customer h = new_customer-IsCustomer buyer w₁ customer h
      go (some []) e customer h = new_customer-IsCustomer buyer w₁ customer h
      go (some (c ∷ s)) e customer h =
          let (row, there, own) = laws.buyer_customer id w w₁ buyer (c ∷ s) found e in
          let rows = laws.buyer_rows id w w₁ buyer found in
          let same : (c ∷ s) ≡ customer = cc h in (row, rw (sym same, rows) there, own)

  -- what a session that is opened leaves behind
  abbrev IsOpen : Text → Reply → b.World → Type 0
  IsOpen plan (refused status error) w = Unit
  IsOpen plan (opened url) w =
      (buyer : Buyer) × (customer : Text) × (is_plan plan ≡ true)
      × (last_session w ≡ some (session env plan customer buyer))
      × IsCustomer buyer.id customer w

  refused-IsOpen :
      (plan : Text) (status : ℕ) (error : Text) (r : Reply) (w : b.World)
      → ok (refused status error) ≡ ok r
      → IsOpen plan r w
  refused-IsOpen plan status error r w h =
      let answered : refused status error ≡ r = cc h in subst (λ x. IsOpen plan x w) answered tt

  open_session-IsOpen :
      (plan id : Text) (w w₁ : b.World) (buyer : Buyer)
      → is_plan plan ≡ true
      → shop.find_buyer id w ≡ (ok (some buyer), w₁)
      → (r : Reply) → (open_session env shop plan buyer w₁).0 ≡ ok r
      → IsOpen plan r (open_session env shop plan buyer w₁).1
  open_session-IsOpen plan id w w₁ buyer listed found =
      bind-after (IsOpen plan) _ (customer_of env shop buyer buyer.stripe_customer_id w₁)
        λ c w₂ made.
          bind-after (IsOpen plan) _ (shop.create_session (session env plan c buyer) w₂)
            λ url w₃ done r h.
              let s = session env plan c buyer in
              let was : IsCustomer buyer.id c w₂ =
                subst (λ x. IsCustomer buyer.id c x.1) made
                  (customer_of-IsCustomer id w w₁ buyer found c (ap (λ x. x.0) made)) in
              let last = laws.session_last s w₂ w₃ url done in
              let rows = laws.session_rows s w₂ w₃ url done in
              let answered : opened url ≡ r = cc h in
              subst (λ x. IsOpen plan x w₃) answered
                (buyer, c, listed, last, IsCustomer-moved buyer.id c w₂ w₃ rows was)

  order-IsOpen :
      (user_id plan : Text) (w : b.World) (r : Reply)
      → (order env shop user_id plan w).0 ≡ ok r
      → IsOpen plan r (order env shop user_id plan w).1
  order-IsOpen user_id plan w r h = elim (Bool-cases (is_plan plan)) [
    | inl y ↦ rw y (bind-after (IsOpen plan) _ (shop.find_buyer user_id w) (sold y) r (rw y at h))
    | inr n ↦ rw n (refused-IsOpen plan 400 _ r w (rw n at h))
  ]
    where
      sold :
          is_plan plan ≡ true
          → (found : Option Buyer) (w₁ : b.World) → shop.find_buyer user_id w ≡ (ok found, w₁)
          → (r : Reply) → (sell env shop plan found w₁).0 ≡ ok r
          → IsOpen plan r (sell env shop plan found w₁).1
      sold y none w₁ e r h = refused-IsOpen plan 404 _ r w₁ h
      sold y (some buyer) w₁ e r h = open_session-IsOpen plan user_id w w₁ buyer y e r h

  plan-text_or : (plan : Text) → is_plan plan ≡ true → text_or (some plan) (lit "STARTER") ≡ plan
  unfolding is_plan text_eq
  plan-text_or [] h = cc h
  plan-text_or (c ∷ s) h = refl

  ordered-IsOpen :
      (user_id plan : Text) (w : b.World) (r : Reply)
      → (post_session env shop (some user_id) (ok (some plan)) w).0 ≡ ok r
      → IsOpen plan r (post_session env shop (some user_id) (ok (some plan)) w).1
  unfolding post_session
  ordered-IsOpen [] plan w r h = refused-IsOpen plan 401 _ r w h
  ordered-IsOpen (c ∷ s) plan w r h =
      catch-after (IsOpen plan) _ (order env shop (c ∷ s) plan w) (order-IsOpen (c ∷ s) plan w)
        (λ e w₁ a k. refused-IsOpen plan 500 _ a w₁ k) r h

  -- When a request for a checkout is answered with a session's address, the plan is one of the three
  -- on sale, and the session that Stripe opened last is for this plan and its price, and for a
  -- customer that has a subscription row of the session's user.
  pub post_session-session :
      (user_id plan : Text) (w : b.World) (url : Option Text)
      → (post_session env shop (some user_id) (ok (some plan)) w).0 ≡ ok (opened url)
      → let after = (post_session env shop (some user_id) (ok (some plan)) w).1 in
        (s : Session) × (row : SubscriptionRow) × (is_plan plan ≡ true)
        × (last_session after ≡ some s)
        × (s.plan ≡ plan)
        × (s.price ≡ price_id env plan)
        × (find (of_customer s.customer) (tables.subscriptions after) ≡ some row)
        × (row.user_id ≡ s.user_id)
  unfolding session
  post_session-session user_id plan w url h =
      let (buyer, customer, listed, last, (row, there, own)) =
        ordered-IsOpen user_id plan w (opened url) h in
      (session env plan customer buyer, row, listed, last, refl, refl, there, own)

  -- When a request for a checkout was answered with a session's address, and Stripe then reports that
  -- the session it opened last is completed, with the customer and the plan of that session, and is
  -- answered 200, the customer's row is of the session's user, is active under the reported
  -- subscription, and is on the plan that was asked for.
  pub handle-post_session :
      (user_id plan subscription : Text) (w : b.World) (url : Option Text) (s : Session)
      → let after = (post_session env shop (some user_id) (ok (some plan)) w).1 in
        let event = checkout_completed s.customer subscription (some s.plan) in
        (post_session env shop (some user_id) (ok (some plan)) w).0 ≡ ok (opened url)
        → last_session after ≡ some s
        → (handle b event after).0 ≡ ok received
        → (row : SubscriptionRow) × (find
              (of_customer s.customer)
              (tables.subscriptions (handle b event after).1)
            ≡ some row)
          × (row.user_id ≡ s.user_id)
          × (row.stripe_subscription_id ≡ some subscription)
          × (row.status ≡ lit "active")
          × (row.plan ≡ plan)
  handle-post_session user_id plan subscription w url s answered last paid =
      let after = (post_session env shop (some user_id) (ok (some plan)) w).1 in
      let (s', row, listed, last', same_plan, price, there, own) =
        post_session-session user_id plan w url answered in
      let same : s' ≡ s = cc (sym last' ∙ last) in
      let there₂ : find (of_customer s.customer) (tables.subscriptions after) ≡ some row =
        subst (λ x. find (of_customer x.customer) (tables.subscriptions after) ≡ some row) same
          there in
      let planned : s.plan ≡ plan = ap (λ x. x.plan) (sym same) ∙ same_plan in
      (
        _,
        handle-checkout b tables s.customer subscription (some s.plan) after row there₂ paid,
        own ∙ ap (λ x. x.user_id) same,
        refl,
        refl,
        rw planned (plan-text_or plan listed),
      )
