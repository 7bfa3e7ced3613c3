-- ===== src/Webhook/Invoices.antt =====
-- What becomes of an invoice over several events.
use multi_rpc.Prelude.{
  ℕ, ◌≡◌, refl, Option, some, List, [], ◌∷◌, ◌++◌, find, Text, text_eq_refl, Result, ok, err, lit,
  bind_from, catch_from, return, Bool-cases, inl, inr,
}
use multi_rpc.Webhook.{
  InvoiceRow, Billing, invoice_paid, invoice_payment_failed, received, failed, handle, dispatch,
  failed_invoice, paid_invoice,
}
use multi_rpc.Webhook.Tables.{BillingTables, of_invoice}

find-append_last :
    (id : Text) (rows : List InvoiceRow) (row : InvoiceRow)
    → row.stripe_invoice_id ≡ id
    → (old : InvoiceRow) × (find (of_invoice id) (rows ++ row ∷ []) ≡ some old)
find-append_last id [] row same = (row, rw (same, text_eq_refl id))
find-append_last id (x ∷ rows) row same =
    let (old, there) = find-append_last id rows row same in
    elim (Bool-cases (of_invoice id x)) [ inl y ↦ (x, rw y) | inr n ↦ (old, rw n there) ]

-- An event that was answered 200 went through.
pub handled :
    {S : Type 0} (r : Result (Unit {0}) × S)
    → let out =
        catch_from
          (λ e. return (failed 500 (lit "Webhook handler failed")))
          (bind_from (λ _. return received) r) in
      out.0 ≡ ok received → (r.0 ≡ ok tt) × (out.1 ≡ r.1)
handled (ok tt, s) h = (refl, refl)
handled (err e, s) h = cc h

module _ (b : Billing) (tables : BillingTables b) where
  open tables use {invoices, create_invoice_present, create_invoice_rows}

  -- Once an invoice is in the table, paid or failed, every later event of its payment is answered 500
  -- and changes nothing.
  pub handle-invoice_again :
      (id : Text) (old : InvoiceRow) (w : b.World)
      → find (of_invoice id) (invoices w) ≡ some old
      → (user_id : Option Text) (amount : ℕ) (currency : Text) (paid_at : ℕ)
      → (handle b (invoice_paid id user_id amount currency paid_at) w
          ≡ (ok (failed 500 (lit "Webhook handler failed")), w))
        × (handle b (invoice_payment_failed id user_id amount currency) w
            ≡ (ok (failed 500 (lit "Webhook handler failed")), w))
  unfolding handle dispatch paid_invoice failed_invoice
  handle-invoice_again id old w there user_id amount currency paid_at =
      let (e, one) =
        create_invoice_present (paid_invoice id user_id amount currency paid_at) old w there in
      let (e', two) =
        create_invoice_present (failed_invoice id user_id amount currency) old w there in
      (rw one, rw two)

  -- An invoice whose payment failed can never be recorded as paid: after a failure that was answered
  -- 200, the event of its payment is answered 500 and changes nothing.
  pub handle-failed_then_paid :
      (id : Text) (user_id user_id' : Option Text) (due paid : ℕ) (currency currency' : Text)
      (paid_at : ℕ) (w : b.World)
      → let after = (handle b (invoice_payment_failed id user_id due currency) w).1 in
        (handle b (invoice_payment_failed id user_id due currency) w).0 ≡ ok received
        → handle b (invoice_paid id user_id' paid currency' paid_at) after
          ≡ (ok (failed 500 (lit "Webhook handler failed")), after)
  unfolding failed_invoice handle dispatch
  handle-failed_then_paid id user_id user_id' due paid currency currency' paid_at w recorded =
      let (made, end) =
        handled (b.create_invoice (failed_invoice id user_id due currency) w) recorded in
      let rows = create_invoice_rows (failed_invoice id user_id due currency) w made in
      let (old, there) =
        find-append_last id (invoices w) (failed_invoice id user_id due currency) refl in
      (handle-invoice_again id old _ (rw (end, rows) there) user_id' paid currency' paid_at).0
