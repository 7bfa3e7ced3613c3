-- ===== src/Tests/Stripe.antt =====
-- Stripe's events against two tables in memory.
use multi_rpc.Prelude.{
  ◌≡◌, refl, Bool, false, Option, none, some, List, [], ◌∷◌, ◌++◌, map, find, Text, lit, Result, ok,
  err,
}
use multi_rpc.Webhook.{SubscriptionRow, SubscriptionChange, InvoiceRow, Billing, other}
use multi_rpc.Webhook.Tables.{BillingTables, apply_where, of_customer, of_subscription, of_invoice}

abbrev Tables : Type 0
Tables = List SubscriptionRow × List InvoiceRow

abbrev update_found :
    (SubscriptionRow → Bool)
    → SubscriptionChange
    → Tables
    → Option SubscriptionRow
    → Result (Unit {0}) × Tables
update_found test c w none = (err (lit "not found"), w)
update_found test c (rows, made) (some row) = (ok tt, (map (apply_where test c) rows, made))

abbrev insert : InvoiceRow → Tables → Option InvoiceRow → Result (Unit {0}) × Tables
insert row (rows, made) none = (ok tt, (rows, made ++ row ∷ []))
insert row w (some old) = (err (lit "unique constraint"), w)

abbrev memory : Billing
memory = record {
  World = Tables;
  construct_event = λ body signature. ok other;
  update_by_customer = λ id c w. update_found (of_customer id) c w (find (of_customer id) w.0);
  update_by_subscription =
      λ id c w. update_found (of_subscription id) c w (find (of_subscription id) w.0);
  create_invoice = λ row w. insert row w (find (of_invoice row.stripe_invoice_id) w.1);
}

update-absent :
    (test : SubscriptionRow → Bool) (c : SubscriptionChange) (w : Tables)
    (found : Option SubscriptionRow)
    → found ≡ none
    → (e : Text) × (update_found test c w found ≡ (err e, w))
update-absent test c w none h = (lit "not found", refl)
update-absent test c w (some row) h = cc h

update-rows :
    (test : SubscriptionRow → Bool) (c : SubscriptionChange) (w : Tables)
    (found : Option SubscriptionRow)
    → (update_found test c w found).0 ≡ ok tt
    → (update_found test c w found).1.0 ≡ map (apply_where test c) w.0
update-rows test c w none h = cc h
update-rows test c (rows, made) (some row) h = refl

insert-present :
    (row old : InvoiceRow) (w : Tables) (found : Option InvoiceRow)
    → found ≡ some old
    → (e : Text) × (insert row w found ≡ (err e, w))
insert-present row old w none h = cc h
insert-present row old w (some x) h = (lit "unique constraint", refl)

insert-rows :
    (row : InvoiceRow) (w : Tables) (found : Option InvoiceRow)
    → (insert row w found).0 ≡ ok tt
    → (insert row w found).1.1 ≡ w.1 ++ (row ∷ [])
insert-rows row (rows, made) none h = refl
insert-rows row w (some x) h = cc h

tables : BillingTables memory
tables = record {
  subscriptions = λ w. w.0;
  invoices = λ w. w.1;
  by_customer_absent = λ id c w h. update-absent (of_customer id) c w _ h;
  by_customer_rows = λ id c w h. update-rows (of_customer id) c w _ h;
  by_subscription_absent = λ id c w h. update-absent (of_subscription id) c w _ h;
  by_subscription_rows = λ id c w h. update-rows (of_subscription id) c w _ h;
  create_invoice_present = λ row old w h. insert-present row old w _ h;
  create_invoice_rows = λ row w h. insert-rows row w _ h;
}

abbrev free : SubscriptionRow
free = record {
  user_id = lit "u1";
  stripe_customer_id = lit "cus";
  stripe_subscription_id = some (lit "sub");
  status = lit "inactive";
  plan = lit "FREE";
  period_start = none;
  period_end = none;
  cancel_at_period_end = false;
}

abbrev start : Tables
start = (free ∷ [], [])
