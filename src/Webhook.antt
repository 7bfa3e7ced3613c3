-- ===== src/Webhook.antt =====
-- web-ui/src/app/api/webhooks/stripe/route.ts: the handler of Stripe's events. Stripe's library and the
-- two tables of the database that the handler writes are the parameter `Billing`.
pub mod Tables
pub mod Invoices
pub mod Subscriptions
use multi_rpc.Prelude.{
  ℕ, ◌*◌, Bool, true, false, Option, none, some, [], Text, lit, text_or, Result, ok, err, Act,
  ◌>>=◌, ◌>>◌, return, try_catch,
}

-- model Subscription, as far as the handler reads and writes it
pub record SubscriptionRow : Type 0 where
  pub user_id : Text
  pub stripe_customer_id : Text
  pub stripe_subscription_id : Option Text
  pub status : Text
  pub plan : Text
  pub period_start : Option ℕ
  pub period_end : Option ℕ
  pub cancel_at_period_end : Bool

-- the `data` of `prisma.subscription.update`: a missing field is left alone
pub record SubscriptionChange : Type 0 where
  pub stripe_subscription_id : Option (Option Text)
  pub status : Option Text
  pub plan : Option Text
  pub period_start : Option ℕ
  pub period_end : Option ℕ
  pub cancel_at_period_end : Option Bool

-- model Invoice, and the `data` of `prisma.invoice.create`
pub record InvoiceRow : Type 0 where
  pub user_id : Text
  pub stripe_invoice_id : Text
  pub amount : ℕ
  pub currency : Text
  pub status : Text
  pub paid_at : Option ℕ

-- the events by their type, with the fields that the handler reads; times are in seconds
pub data Event : Type 0 where
  checkout_completed : (customer subscription : Text) (plan : Option Text) → Event
  subscription_updated : (id status : Text) (start end : ℕ) (cancel_at_period_end : Bool) → Event
  subscription_deleted : (id : Text) → Event
  invoice_paid :
      (id : Text) (user_id : Option Text) (amount_paid : ℕ) (currency : Text) (paid_at : ℕ) → Event
  invoice_payment_failed :
      (id : Text) (user_id : Option Text) (amount_due : ℕ) (currency : Text) → Event
  other : Event

pub record Billing : Type 1 where
  pub World : Type 0
  -- stripe.webhooks.constructEvent(body, signature, webhookSecret)
  pub construct_event : (body : Text) (signature : Option Text) → Result Event
  -- prisma.subscription.update, by each of the two unique columns
  pub update_by_customer : Text → SubscriptionChange → Act World (Unit {0})
  pub update_by_subscription : Text → SubscriptionChange → Act World (Unit {0})
  -- prisma.invoice.create
  pub create_invoice : InvoiceRow → Act World (Unit {0})

pub data Response : Type 0 where
  received : Response
  failed : (status : ℕ) (error : Text) → Response

abbrev pub status_of : Response → ℕ
status_of received = 200
status_of (failed status error) = status

abbrev pub no_change : SubscriptionChange
no_change = record {
  stripe_subscription_id = none;
  status = none;
  plan = none;
  period_start = none;
  period_end = none;
  cancel_at_period_end = none;
}

unfoldable pub activation : Text → Option Text → SubscriptionChange
activation subscription plan = record no_change {
  stripe_subscription_id = some (some subscription);
  status = some (lit "active");
  plan = some (text_or plan (lit "STARTER"));
}

unfoldable pub renewal : Text → ℕ → ℕ → Bool → SubscriptionChange
renewal status start end cancel = record no_change {
  status = some status;
  period_start = some (start * 1000);
  period_end = some (end * 1000);
  cancel_at_period_end = some cancel;
}

unfoldable pub cancellation : SubscriptionChange
cancellation = record no_change {
  stripe_subscription_id = some none;
  status = some (lit "canceled");
  plan = some (lit "FREE");
}

unfoldable pub paid_invoice : Text → Option Text → ℕ → Text → ℕ → InvoiceRow
paid_invoice id user_id amount currency paid_at = record {
  user_id = text_or user_id [];
  stripe_invoice_id = id;
  amount = amount;
  currency = currency;
  status = lit "paid";
  paid_at = some (paid_at * 1000);
}

unfoldable pub failed_invoice : Text → Option Text → ℕ → Text → InvoiceRow
failed_invoice id user_id amount currency = record {
  user_id = text_or user_id [];
  stripe_invoice_id = id;
  amount = amount;
  currency = currency;
  status = lit "failed";
  paid_at = none;
}

module _ (b : Billing) where
  open b use {World, construct_event, update_by_customer, update_by_subscription, create_invoice}

  -- the `switch` over the event's type
  unfoldable pub dispatch : Event → Act World (Unit {0})
  dispatch (checkout_completed customer subscription plan) =
      update_by_customer customer (activation subscription plan)
  dispatch (subscription_updated id status start end cancel) =
      update_by_subscription id (renewal status start end cancel)
  dispatch (subscription_deleted id) = update_by_subscription id cancellation
  dispatch (invoice_paid id user_id amount currency paid_at) =
      create_invoice (paid_invoice id user_id amount currency paid_at)
  dispatch (invoice_payment_failed id user_id amount currency) =
      create_invoice (failed_invoice id user_id amount currency)
  dispatch other = return tt

  -- the second `try` of the handler
  unfoldable pub handle : Event → Act World Response
  handle event =
      try_catch (do dispatch event; return received)
        (λ e. return (failed 500 (lit "Webhook handler failed")))

  abbrev pub handle_result : Result Event → Act World Response
  handle_result (ok event) = handle event
  handle_result (err e) = return (failed 400 (lit "Invalid signature"))

  unfoldable pub post : Text → Option Text → Act World Response
  post body signature = handle_result (construct_event body signature)
