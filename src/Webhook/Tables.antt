-- ===== src/Webhook/Tables.antt =====
-- The documented behaviour of the two tables: an update of a row that is not there throws, and so
-- does an insert under a Stripe id that is there, since the column is unique; a call that throws
-- changes nothing.
use multi_rpc.Prelude.{
  ◌≡◌, Bool, false, Option, none, some, List, [], ◌∷◌, ◌++◌, map, find, Text, text_eq, ok, err,
  if◌then◌else◌,
}
use multi_rpc.Webhook.{SubscriptionRow, SubscriptionChange, InvoiceRow, Billing}

abbrev pub changed {ℓ} : {A : Type ℓ} → Option A → A → A
changed none a = a
changed (some b) a = b

abbrev pub changed_maybe {ℓ} : {A : Type ℓ} → Option A → Option A → Option A
changed_maybe none a = a
changed_maybe (some b) a = some b

abbrev pub apply_change : SubscriptionChange → SubscriptionRow → SubscriptionRow
apply_change c row = record row {
  stripe_subscription_id = changed c.stripe_subscription_id row.stripe_subscription_id;
  status = changed c.status row.status;
  plan = changed c.plan row.plan;
  period_start = changed_maybe c.period_start row.period_start;
  period_end = changed_maybe c.period_end row.period_end;
  cancel_at_period_end = changed c.cancel_at_period_end row.cancel_at_period_end;
}

abbrev pub is_text : Text → Option Text → Bool
is_text t none = false
is_text t (some s) = text_eq s t

abbrev pub of_customer : Text → SubscriptionRow → Bool
of_customer id row = text_eq row.stripe_customer_id id

abbrev pub of_subscription : Text → SubscriptionRow → Bool
of_subscription id row = is_text id row.stripe_subscription_id

abbrev pub of_invoice : Text → InvoiceRow → Bool
of_invoice id row = text_eq row.stripe_invoice_id id

unfoldable pub apply_where :
    (SubscriptionRow → Bool) → SubscriptionChange → SubscriptionRow → SubscriptionRow
apply_where test c row = if test row then apply_change c row else row

pub record BillingTables (b : Billing) : Type 0 where
  pub subscriptions : b.World → List SubscriptionRow
  pub invoices : b.World → List InvoiceRow
  pub by_customer_absent :
      (id : Text) (c : SubscriptionChange) (w : b.World)
      → find (of_customer id) (subscriptions w) ≡ none
      → (e : Text) × (b.update_by_customer id c w ≡ (err e, w))
  pub by_customer_rows :
      (id : Text) (c : SubscriptionChange) (w : b.World)
      → (b.update_by_customer id c w).0 ≡ ok tt
      → subscriptions (b.update_by_customer id c w).1
        ≡ map (apply_where (of_customer id) c) (subscriptions w)
  pub by_subscription_absent :
      (id : Text) (c : SubscriptionChange) (w : b.World)
      → find (of_subscription id) (subscriptions w) ≡ none
      → (e : Text) × (b.update_by_subscription id c w ≡ (err e, w))
  pub by_subscription_rows :
      (id : Text) (c : SubscriptionChange) (w : b.World)
      → (b.update_by_subscription id c w).0 ≡ ok tt
      → subscriptions (b.update_by_subscription id c w).1
        ≡ map (apply_where (of_subscription id) c) (subscriptions w)
  pub create_invoice_present :
      (row old : InvoiceRow) (w : b.World)
      → find (of_invoice row.stripe_invoice_id) (invoices w) ≡ some old
      → (e : Text) × (b.create_invoice row w ≡ (err e, w))
  pub create_invoice_rows :
      (row : InvoiceRow) (w : b.World)
      → (b.create_invoice row w).0 ≡ ok tt
      → invoices (b.create_invoice row w).1 ≡ invoices w ++ (row ∷ [])
