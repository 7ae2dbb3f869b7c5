-- ===== src/Billing/Payments.antt =====
-- apps/billing-service/src/payments/customer.payments.service.ts: what a confirmed or failed
-- PayOS payment writes.
pub mod Claim
pub mod Settled
pub mod Credit
pub mod Tests
use service_hub_backend.Base.{
  ℕ, ◌+◌, Bool, true, false, not, ◌&&◌, ◌||◌, List, [], ◌∷◌, ◌++◌, Option, none, some, ◌==◌,
  if◌then◌else◌, or_else, is_some,
}
use service_hub_backend.Base.Text.{Text, codes}
use service_hub_backend.Base.Table.{find_first, update_many, count}
use service_hub_backend.Reliability.Json.{obj, end}
use service_hub_backend.Reliability.Outbox.{PublishOptions, publish_local}
use service_hub_backend.Billing.Rows.{
  Invoice, paid, Payment, transfer, success, failed, LedgerRow, income, succeeded, invoice_payment,
  Db, Env, is_paid, invoice_has_id, payment_has_id, payment_has_link, ledger_has_reference,
  text_field, key_field, key_field?, amount_field, date_field,
}

-- A JavaScript number, as far as `Number.isFinite` goes. PayOS reports no negative amounts.
pub data Amount : Type 0 where
  finite : ℕ → Amount
  not_finite : Amount

-- libs/common/src/constants/event.patterns.ts
abbrev pub invoice_paid : Text
invoice_paid = codes "billing.invoice_paid.v1"

-- `findUnique` on the link, with the invoice, which the foreign key provides.
pub payment_with_invoice : ℕ → Db → Option (Payment × Invoice)
payment_with_invoice link db = elim (find_first (payment_has_link link) db.payments) [
  | none ↦ none
  | some payment ↦ elim (find_first (invoice_has_id payment.invoice_id) db.invoices) [
    | none ↦ none
    | some invoice ↦ some (payment, invoice)
  ]
]

-- `(revision || 1) + 1`
abbrev pub next_revision : ℕ → ℕ
next_revision revision = (if revision == 0 then 1 else revision) + 1

abbrev pub not_paid_with_id : ℕ → Invoice → Bool
not_paid_with_id i invoice = invoice.id == i && not (is_paid invoice.status)

abbrev pub set_paid : ℕ → Invoice → Invoice
set_paid now invoice = record invoice {
  status = paid;
  revision = invoice.revision + 1;
  updated_at = now;
}

-- The conditional update of the invoice: whether its count was 1, and the tables.
claim_invoice : Env → ℕ → Db → Bool × Db
claim_invoice env invoice_id db = (
  count (not_paid_with_id invoice_id) db.invoices == 1,
  record db { invoices = update_many (not_paid_with_id invoice_id) (set_paid env.now) db.invoices },
)

abbrev pub set_success : ℕ → Payment → Payment
set_success paid_at payment = record payment {
  payment_method = transfer;
  status = success;
  paid_at = some (or_else payment.paid_at paid_at);
}

paid_event : Env → ℕ → ℕ → ℕ → Invoice → PublishOptions
paid_event env invoice_id contract_id paid_at invoice = record {
  event_type = invoice_paid;
  source = none;
  subject = none;
  ordering_key = some (env.uuid contract_id);
  aggregate_type = codes "INVOICE";
  aggregate_id = env.uuid invoice_id;
  aggregate_revision = some (next_revision invoice.revision);
  payload = obj (
      key_field env (codes "invoiceId") invoice_id (
        text_field env (codes "invoiceNumber") invoice.invoice_number (
          key_field env (codes "contractId") contract_id (
            key_field? env (codes "customerId") invoice.customer_id (
              key_field env (codes "providerId") invoice.provider_id (
                amount_field env (codes "amount") invoice.total (
                  text_field env (codes "paymentMethod") (codes "TRANSFER")
                    (date_field env (codes "paidAt") paid_at end))))))));
  correlation_id = none;
}

-- The event is written only on the transition, and only for an invoice with a contract.
publish_paid : Env → Bool → ℕ → ℕ → Invoice → Db → Db
unfolding paid_event
publish_paid env false invoice_id paid_at invoice db = db
publish_paid env true invoice_id paid_at invoice db = elim invoice.contract_id [
  | none ↦ db
  | some contract_id ↦ record db {
    outbox =
        (publish_local env.platform env.secret env.now env.outbox_key
          (paid_event env invoice_id contract_id paid_at invoice) db.outbox).1;
  }
]

unfoldable pub credit_row : Env → Invoice → ℕ → ℕ → LedgerRow
credit_row env invoice paid_at amount = record {
  id = env.ledger_key;
  provider_id = invoice.provider_id;
  invoice_id = some invoice.id;
  payout_batch_id = none;
  ledger_type = income;
  amount = amount;
  status = succeeded;
  reference_id = invoice_payment invoice.id;
  external_transaction_id = none;
  error_message = none;
  created_at = env.now;
  updated_at = env.now;
  completed_at = some paid_at;
}

abbrev pub set_credit : Env → ℕ → ℕ → LedgerRow → LedgerRow
set_credit env paid_at amount row = record row {
  amount = amount;
  status = succeeded;
  updated_at = env.now;
  completed_at = some paid_at;
}

-- `ledger.upsert` on the unique reference.
pub upsert_credit : Env → Invoice → ℕ → ℕ → List LedgerRow → List LedgerRow
unfolding credit_row
upsert_credit env invoice paid_at amount ledger =
    let same = ledger_has_reference (invoice_payment invoice.id) in
    if is_some (find_first same ledger)
    then update_many same (set_credit env paid_at amount) ledger
    else ledger ++ (credit_row env invoice paid_at amount ∷ [])

-- The three writes that follow the claim.
pub record_payment : Env → Bool → ℕ → ℕ → ℕ → Payment → Invoice → Db → Db
unfolding publish_paid upsert_credit
record_payment env transitioned invoice_id paid_at amount payment invoice db =
    let d1 = record db {
      payments = update_many (payment_has_id payment.id) (set_success paid_at) db.payments;
    } in
    let d2 = publish_paid env transitioned invoice_id paid_at invoice d1 in
    record d2 { ledger = upsert_credit env invoice paid_at amount d2.ledger }

-- The second read, after an update that changed no row.
pub is_paid_now : ℕ → Db → Bool
is_paid_now invoice_id db = elim (find_first (invoice_has_id invoice_id) db.invoices) [
  | none ↦ false
  | some invoice ↦ is_paid invoice.status
]

pub settle_payment : Env → (Db → Db) → ℕ → ℕ → ℕ → Payment → Invoice → Db → Bool × Db
unfolding claim_invoice record_payment is_paid_now
settle_payment env between invoice_id paid_at amount payment invoice db =
    if is_paid invoice.status
    then (false, record_payment env false invoice_id paid_at amount payment invoice (between db))
    else let (transitioned, d) = claim_invoice env invoice_id (between db) in
      if transitioned || is_paid_now invoice_id d
      then (
        transitioned,
        record_payment env transitioned invoice_id paid_at amount payment invoice d,
      )
      else (false, d)

-- `markInvoicePaidInTransaction`. `between` is what other transactions commit between the read of
-- the payment and the conditional update, which READ COMMITTED lets this one see.
pub mark_invoice_paid : Env → (Db → Db) → ℕ → ℕ → ℕ → Amount → Db → Bool × Db
unfolding payment_with_invoice settle_payment
mark_invoice_paid env between invoice_id link paid_at not_finite db = (false, between db)
mark_invoice_paid env between invoice_id link paid_at (finite amount) db =
    elim (payment_with_invoice link db) [
      | none ↦ (false, between db)
      | some (payment, invoice) ↦
          if payment.invoice_id == invoice_id
          then settle_payment env between invoice_id paid_at amount payment invoice db
          else (false, between db)
    ]

-- `markPaymentFailed`
pub mark_payment_failed : ℕ → ℕ → Db → Db
mark_payment_failed invoice_id link db = elim (find_first (payment_has_link link) db.payments) [
  | none ↦ db
  | some payment ↦
      if payment.invoice_id == invoice_id
      then record db {
        payments =
            update_many (payment_has_id payment.id)
              (λ p. record p { status = failed; paid_at = none }) db.payments;
      }
      else db
]
