-- ===== src/Billing/Invoices.antt =====
-- apps/billing-service/src/invoices/invoices.service.ts: `payInvoice`, a provider's record of a
-- cash payment.
pub mod Atomic
pub mod Replay
pub mod Cash
mod Tests
use service_hub_backend.Base.{
  ℕ, ◌+◌, Bool, true, false, not, ◌&&◌, ◌||◌, List, [], ◌∷◌, ◌++◌, Option, none, some, ◌==◌,
  if◌then◌else◌, is_some,
}
use service_hub_backend.Base.Text.{Text, codes}
use service_hub_backend.Base.Table.{find_first, update_many, count}
use service_hub_backend.Reliability.Json.{Json, obj, end}
use service_hub_backend.Reliability.Outbox.{PublishOptions, publish_local}
use service_hub_backend.Billing.Rows.{
  Invoice, InvoiceStatus, unpaid, paid, overdue, Payment, PaymentMethod, cash, PaymentStatus,
  success, failed, Db, Env, is_paid, is_pending, invoice_has_id, payment_has_link, text_field,
  key_field, key_field?, amount_field, date_field,
}
use service_hub_backend.Billing.Payments.{invoice_paid, next_revision, set_paid}

-- `unique` is Prisma's P2002, which the transaction throws where the link is taken.
pub data PayError : Type 0 where
  not_found already_paid key_of_other_invoice not_payable unique : PayError

pub data PayResult : Type 0 where
  payment_of : Payment → PayResult
  refused : PayError → PayResult

abbrev pub owned_by : ℕ → ℕ → Invoice → Bool
owned_by i provider_id invoice = invoice.id == i && invoice.provider_id == provider_id

abbrev pub is_open : InvoiceStatus → Bool
is_open unpaid = true
is_open overdue = true
is_open paid = false

abbrev pub open_and_owned : ℕ → ℕ → Invoice → Bool
open_and_owned i provider_id invoice = owned_by i provider_id invoice && is_open invoice.status

-- The online attempts that a cash payment gives up.
abbrev pub pending_of : ℕ → Payment → Bool
pending_of i payment = payment.invoice_id == i && is_pending payment.status

abbrev pub set_failed : Payment → Payment
set_failed payment = record payment { status = failed }

pub cash_payment : Env → ℕ → Option ℕ → Payment
cash_payment env i key = record {
  id = env.payment_key;
  invoice_id = i;
  payment_method = cash;
  payment_link_id = key;
  status = success;
  paid_at = some env.now;
  created_at = env.now;
}

cash_event : Env → ℕ → ℕ → ℕ → Invoice → PublishOptions
cash_event env provider_id i contract_id invoice = record {
  event_type = invoice_paid;
  source = none;
  subject = none;
  ordering_key = some (env.uuid contract_id);
  aggregate_type = codes "INVOICE";
  aggregate_id = env.uuid i;
  aggregate_revision = some (next_revision invoice.revision);
  payload = obj (
      key_field env (codes "invoiceId") i (
        text_field env (codes "invoiceNumber") invoice.invoice_number (
          key_field env (codes "contractId") contract_id (
            key_field? env (codes "customerId") invoice.customer_id (
              key_field env (codes "providerId") provider_id (
                amount_field env (codes "amount") invoice.total (
                  text_field env (codes "paymentMethod") (codes "CASH")
                    (date_field env (codes "paidAt") env.now end))))))));
  correlation_id = none;
}

pub publish_cash : Env → ℕ → ℕ → Invoice → Db → Db
unfolding cash_event
publish_cash env provider_id i invoice db = elim invoice.contract_id [
  | none ↦ db
  | some contract_id ↦ record db {
    outbox =
        (publish_local env.platform env.secret env.now env.outbox_key
          (cash_event env provider_id i contract_id invoice) db.outbox).1;
  }
]

-- `payment.create`, which needs a link of its own.
link_taken : Option ℕ → List Payment → Bool
link_taken none payments = false
link_taken (some link) payments = is_some (find_first (payment_has_link link) payments)

-- The writes of the transaction. An error rolls all of them back.
write_cash : Env → ℕ → ℕ → Option ℕ → Invoice → Db → PayResult × Db
unfolding cash_payment link_taken publish_cash
write_cash env provider_id i key invoice db =
    let payments = update_many (pending_of i) set_failed db.payments in
    if count (open_and_owned i provider_id) db.invoices == 1
    then (if link_taken key payments then (refused unique, db) else (
      payment_of (cash_payment env i key),
      publish_cash env provider_id i invoice (record db {
        invoices = update_many (open_and_owned i provider_id) (set_paid env.now) db.invoices;
        payments = payments ++ (cash_payment env i key ∷ []);
      }),
    ))
    else (refused not_payable, db)

-- The serializable transaction.
pub pay_transaction : Env → ℕ → ℕ → Option ℕ → Db → PayResult × Db
unfolding write_cash
pay_transaction env provider_id i key db = elim (find_first (owned_by i provider_id) db.invoices) [
  | none ↦ (refused not_found, db)
  | some invoice ↦
      if is_paid invoice.status
      then (refused already_paid, db)
      else write_cash env provider_id i key invoice db
]

-- The payment that has the key, of whatever invoice; a request without a key looks for none.
pub earlier : ℕ → Option ℕ → Db → Option Payment
earlier i none db = none
earlier i (some key) db = find_first (payment_has_link key) db.payments

-- `catch`: where the link was taken meanwhile for this invoice, its payment is the answer.
pub recover : ℕ → Option ℕ → PayResult × Db → PayResult × Db
unfolding earlier
recover i key (payment_of p, db) = (payment_of p, db)
recover i key (refused unique, db) = elim (earlier i key db) [
  | none ↦ (refused unique, db)
  | some p ↦ if p.invoice_id == i then (payment_of p, db) else (refused unique, db)
]
recover i key (refused e, db) = (refused e, db)

-- `payInvoice`. `between` is what other transactions commit before this one begins.
pub pay_invoice : Env → (Db → Db) → ℕ → ℕ → Option ℕ → Db → PayResult × Db
unfolding pay_transaction earlier recover
pay_invoice env between provider_id i key db =
    elim (find_first (owned_by i provider_id) db.invoices) [
      | none ↦ (refused not_found, db)
      | some invoice ↦ elim (earlier i key db) [
        | some p ↦
            if p.invoice_id == i then (payment_of p, db) else (refused key_of_other_invoice, db)
        | none ↦ recover i key (pay_transaction env provider_id i key (between db))
      ]
    ]
