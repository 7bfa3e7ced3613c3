-- ===== src/Tests/Billing.antt =====
-- A purchase against tables in memory.
use multi_rpc.Prelude.{
  ◌≡◌, refl, ap, sym, ◌∙◌, Option-cases, inl, inr, Bool, false, Option, none, some, List, [], ◌∷◌,
  map, find, Text, lit, text_eq, text_eq_refl, Result, ok, err,
}
use multi_rpc.Rpc.Balancer.{Env}
use multi_rpc.Webhook.{
  SubscriptionRow, SubscriptionChange, Billing, other, checkout_completed, received, handle,
  dispatch,
}
use multi_rpc.Webhook.Tables.{BillingTables, apply_where, of_customer, of_subscription}
use multi_rpc.Checkout.{
  Buyer, Session, Shop, opened, session, is_plan, price_id, customer_of, post_session,
}
use multi_rpc.Checkout.Purchase.{ShopTables, handle-post_session}
use multi_rpc.Tests.Memory.{values-of}

abbrev World : Type 0
World = List SubscriptionRow × Option Session

abbrev change_where :
    (SubscriptionRow → Bool) → SubscriptionChange → World → Result (Unit {0}) × World
change_where test c w = change_found (find test w.0)
  where
    change_found : Option SubscriptionRow → Result (Unit {0}) × World
    change_found none = (err (lit "not found"), w)
    change_found (some row) = (ok tt, (map (apply_where test c) w.0, w.1))

abbrev billing : Billing
billing = record {
  World = World;
  construct_event = λ body signature. ok other;
  update_by_customer = λ id c w. change_where (of_customer id) c w;
  update_by_subscription = λ id c w. change_where (of_subscription id) c w;
  create_invoice = λ row w. (err (lit "read only"), w);
}

found-absent :
    (test : SubscriptionRow → Bool) (c : SubscriptionChange) (w : World)
    → find test w.0 ≡ none
    → (e : Text) × (change_where test c w ≡ (err e, w))
found-absent test c w h = (lit "not found", rw h refl)

found-rows :
    (test : SubscriptionRow → Bool) (c : SubscriptionChange) (w : World)
    → (change_where test c w).0 ≡ ok tt
    → (change_where test c w).1.0 ≡ map (apply_where test c) w.0
found-rows test c w h = elim (Option-cases (find test w.0)) [
  | inl n ↦ cc (rw n at h)
  | inr (row, y) ↦ rw y refl
]

tables : BillingTables billing
tables = record {
  subscriptions = λ w. w.0;
  invoices = λ w. [];
  by_customer_absent = λ id c w h. found-absent (of_customer id) c w h;
  by_customer_rows = λ id c w h. found-rows (of_customer id) c w h;
  by_subscription_absent = λ id c w h. found-absent (of_subscription id) c w h;
  by_subscription_rows = λ id c w h. found-rows (of_subscription id) c w h;
  create_invoice_present = λ row old w h. (lit "read only", refl);
  create_invoice_rows = λ row w h. cc h;
}

abbrev row_of : Text → Text → SubscriptionRow
row_of user_id customer = record {
  user_id = user_id;
  stripe_customer_id = customer;
  stripe_subscription_id = none;
  status = lit "inactive";
  plan = lit "FREE";
  period_start = none;
  period_end = none;
  cancel_at_period_end = false;
}

abbrev buyer : Buyer
buyer = record { id = lit "u1"; email = some (lit "a@b.c"); name = none; stripe_customer_id = none }

abbrev shop : Shop World
shop = record {
  find_buyer = λ id w. (ok (some buyer), w);
  create_customer = λ email name id w. (ok (lit "cus"), w);
  upsert_subscription = λ id customer new w. (ok tt, (row_of id customer ∷ w.0, w.1));
  create_session = λ s w. (ok (some (lit "https://pay")), (w.0, some s));
}

found-buyer :
    (b : Buyer) (customer : Text) (w w₁ : World)
    → ◌≡◌ {A = Result (Option Buyer) × World} (ok (some buyer), w) (ok (some b), w₁)
    → b.stripe_customer_id ≡ some customer
    → ⊥
found-buyer b customer w w₁ h k =
    let found : some buyer ≡ some b = (values-of h).0 in
    let same : buyer ≡ b = cc found in
    let missing : none ≡ some customer = ap (λ x. x.stripe_customer_id) same ∙ k in cc missing

laws : ShopTables billing tables shop
unfolding tables
laws = record {
  last_session = λ w. w.1;
  buyer_rows = λ id w w₁ b h. ap (λ x. x.0) (sym (values-of h).1);
  buyer_customer = λ id w w₁ b customer h k. absurd (found-buyer b customer w w₁ h k);
  upsert_row = λ id customer new w w₁ h. (
    row_of id customer,
    rw (ap (λ x. x.0) (sym (values-of h).1), text_eq_refl customer) refl,
    refl,
  );
  session_rows = λ s w w₁ url h. ap (λ x. x.0) (sym (values-of h).1);
  session_last = λ s w w₁ url h. ap (λ x. x.1) (sym (values-of h).1);
}

abbrev env : Env
env name = none

abbrev start : World
start = ([], none)

abbrev bought : Session
bought = record {
  customer = lit "cus";
  price = lit "price_pro";
  success_url = lit "undefined/dashboard?success=true&session_id={CHECKOUT_SESSION_ID}";
  cancel_url = lit "undefined/dashboard?canceled=true";
  user_id = lit "u1";
  plan = lit "PRO";
}

ordered :
    post_session env shop (some (lit "p1")) (ok (some (lit "PRO"))) start
    ≡ (ok (opened (some (lit "https://pay"))), (row_of (lit "u1") (lit "cus") ∷ [], some bought))
unfolding post_session is_plan text_eq customer_of session price_id
ordered = refl

paid :
    (handle billing
      (checkout_completed (lit "cus") (lit "sub") (some (lit "PRO")))
      (row_of (lit "u1") (lit "cus") ∷ [], some bought)).0
    ≡ ok received
unfolding handle dispatch text_eq
paid = refl

handle-post_session_example :
    let after = (post_session env shop (some (lit "p1")) (ok (some (lit "PRO"))) start).1 in
    let event = checkout_completed (lit "cus") (lit "sub") (some (lit "PRO")) in
    (row : SubscriptionRow) × (find (of_customer (lit "cus")) (handle billing event after).1.0
      ≡ some row)
    × (row.user_id ≡ lit "u1")
    × (row.stripe_subscription_id ≡ some (lit "sub"))
    × (row.status ≡ lit "active")
    × (row.plan ≡ lit "PRO")
unfolding tables laws post_session
handle-post_session_example =
    handle-post_session billing tables shop laws env (lit "p1") (lit "PRO") (lit "sub") start
      (some (lit "https://pay")) bought (ap (λ x. x.0) ordered) (ap (λ x. x.1.1) ordered)
      (rw ordered paid)
