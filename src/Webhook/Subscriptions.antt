-- ===== src/Webhook/Subscriptions.antt =====
-- The life of a subscription over Stripe's events.
use mathlib.Core.Option
use multi_rpc.Prelude.{
  ◌≡◌, refl, Bool, Option, some, List, [], ◌∷◌, map, find, Text, ok, lit, text_or, ap, ◌∙◌,
  Bool-cases, inl, inr,
}
use multi_rpc.Webhook.{
  SubscriptionRow, SubscriptionChange, Billing, checkout_completed, received, handle, dispatch,
  activation,
}
use multi_rpc.Webhook.Tables.{BillingTables, apply_change, apply_where, of_customer}
use multi_rpc.Webhook.Invoices.{handled}

-- Updating twice the rows that a test picks is updating them once, if the test does not notice.
map-apply_where_twice :
    (test : SubscriptionRow → Bool) (c : SubscriptionChange)
    (blind : (row : SubscriptionRow) → test (apply_change c row) ≡ test row)
    (twice : (row : SubscriptionRow) → apply_change c (apply_change c row) ≡ apply_change c row)
    (rows : List SubscriptionRow)
    → map (apply_where test c) (map (apply_where test c) rows) ≡ map (apply_where test c) rows
unfolding apply_where
map-apply_where_twice test c blind twice [] = refl
map-apply_where_twice test c blind twice (x ∷ rows) = elim (Bool-cases (test x)) [
  | inl y ↦ rw (y, blind x, y, twice x, map-apply_where_twice test c blind twice rows)
  | inr n ↦ rw (n, n, map-apply_where_twice test c blind twice rows)
]

find-activated :
    (customer subscription : Text) (plan : Option Text) (rows : List SubscriptionRow)
    (row : SubscriptionRow)
    → find (of_customer customer) rows ≡ some row
    → find
        (of_customer customer)
        (map (apply_where (of_customer customer) (activation subscription plan)) rows)
      ≡ some (apply_change (activation subscription plan) row)
unfolding apply_where
find-activated customer subscription plan [] row h = cc h
find-activated customer subscription plan (x ∷ rows) row h =
    elim (Bool-cases (of_customer customer x)) [
      | inl y ↦
          let same : some x ≡ some row = (rw y at h) in
          rw (y, y) (ap (Option.map (apply_change (activation subscription plan))) same)
      | inr n ↦ rw (n, n) (find-activated customer subscription plan rows row (rw n at h))
    ]

module _ (b : Billing) (tables : BillingTables b) where
  open tables use {subscriptions, by_customer_rows, by_subscription_rows, by_subscription_absent}

  -- A completed checkout that is answered 200 leaves the customer's subscription, where there is
  -- one, active, on the plan of the session (the starter plan if it names none), under the session's
  -- subscription id.
  pub handle-checkout :
      (customer subscription : Text) (plan : Option Text) (w : b.World) (row : SubscriptionRow)
      → find (of_customer customer) (subscriptions w) ≡ some row
      → (handle b (checkout_completed customer subscription plan) w).0 ≡ ok received
      → find
          (of_customer customer)
          (subscriptions (handle b (checkout_completed customer subscription plan) w).1)
        ≡ some (record row {
          stripe_subscription_id = some subscription;
          status = lit "active";
          plan = text_or plan (lit "STARTER");
        })
  unfolding handle dispatch activation
  handle-checkout customer subscription plan w row known h =
      let change = activation subscription plan in
      let (made, end) = handled (b.update_by_customer customer change w) h in
      rw (end, by_customer_rows customer change w made)
        (find-activated customer subscription plan (subscriptions w) row known)

  -- Stripe may deliver an event again: a second delivery of a completed checkout that goes through
  -- leaves the subscriptions as the first one did.
  pub handle-checkout_twice :
      (customer subscription : Text) (plan : Option Text) (w : b.World)
      → let event = checkout_completed customer subscription plan in
        let once = (handle b event w).1 in
        (handle b event w).0 ≡ ok received
        → (handle b event once).0 ≡ ok received
        → subscriptions (handle b event once).1 ≡ subscriptions once
  unfolding handle dispatch activation
  handle-checkout_twice customer subscription plan w h h' =
      let change = activation subscription plan in
      let (made, end) = handled (b.update_by_customer customer change w) h in
      let after = (handle b (checkout_completed customer subscription plan) w).1 in
      let (made', end') = handled (b.update_by_customer customer change after) h' in
      ap subscriptions end'
      ∙ by_customer_rows customer change after made'
      ∙ rw (end, by_customer_rows customer change w made)
          (map-apply_where_twice (of_customer customer) change (λ _. refl) (λ _. refl)
            (subscriptions w))
