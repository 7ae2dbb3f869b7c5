-- ===== src/Billing/Payments/Tests.antt =====
-- An invoice, its PayOS payment, and what confirming it comes to.
use mathlib.Core.Option
use service_hub_backend.Base.{ℕ, ◌≡◌, refl, true, false, [], ◌∷◌, some, none, arith}
use service_hub_backend.Base.Text.{codes, decimal}
use service_hub_backend.Base.Table.{find_first}
use service_hub_backend.Reliability.Outbox.Tests.{sample_platform}
use service_hub_backend.Billing.Rows.{
  Invoice, Payment, LedgerStatus, LedgerRow, income, Db, Env, paid, success, unpaid, transfer,
  pending, invoice_payment, invoice_has_id, payment_has_link, ledger_has_reference,
}
use service_hub_backend.Billing.Payments.{
  payment_with_invoice, finite, set_paid, is_paid_now, mark_invoice_paid,
}
use service_hub_backend.Billing.Payments.Claim.{HasUniqueInvoices, mark_invoice_paid_late}
use service_hub_backend.Billing.Payments.Credit.{
  HasUniqueReferences, mark_invoice_paid-HasUniqueReferences,
}
use service_hub_backend.Billing.Payments.Settled.{mark_invoice_paid_settles}

abbrev pub sample_env : Env
sample_env = record {
  platform = sample_platform;
  secret = codes "k";
  now = 100;
  payment_key = 21;
  ledger_key = 31;
  outbox_key = 41;
  invoice_key = 12;
  uuid = decimal;
  amount_text = decimal;
}

abbrev pub sample_invoice : Invoice
sample_invoice = record {
  id = 11;
  invoice_number = codes "INV-1";
  customer_id = some 5;
  contract_id = some 6;
  provider_id = 7;
  total = 900;
  status = unpaid;
  revision = 1;
  created_at = 10;
  updated_at = 10;
}

abbrev pub sample_payment : Payment
sample_payment = record {
  id = 20;
  invoice_id = 11;
  payment_method = transfer;
  payment_link_id = some 77;
  status = pending;
  paid_at = none;
  created_at = 50;
}

abbrev pub sample_db : Db
sample_db = record {
  invoices = sample_invoice ∷ [];
  items = [];
  payments = sample_payment ∷ [];
  ledger = [];
  batches = [];
  outbox = [];
}

-- Another transaction has settled the invoice meanwhile.
abbrev paid_db : Db
paid_db = record sample_db { invoices = set_paid 99 sample_invoice ∷ [] }

sample_link : payment_with_invoice 77 sample_db ≡ some (sample_payment, sample_invoice)
unfolding payment_with_invoice
sample_link = refl

sample_db-HasUniqueInvoices : HasUniqueInvoices sample_db
sample_db-HasUniqueInvoices i = ground arith

paid_db-HasUniqueInvoices : HasUniqueInvoices paid_db
paid_db-HasUniqueInvoices i = ground arith

paid_db_paid : is_paid_now 11 paid_db ≡ true
unfolding is_paid_now
paid_db_paid = refl

-- The customer has paid 1 of 900.
mark_invoice_paid_settles_example :
    let (transitioned, db') = mark_invoice_paid sample_env (λ d. d) 11 77 60 (finite 1) sample_db in
    (transitioned ≡ true)
    × (find_first (invoice_has_id 11) db'.invoices
        ≡ some (record sample_invoice { status = paid; revision = 2; updated_at = 100 }))
    × (find_first (payment_has_link 77) db'.payments
        ≡ some (record sample_payment {
          payment_method = transfer;
          status = success;
          paid_at = some 60;
        }))
    × (Option.map {B = ℕ × LedgerStatus}
          (λ r. (r.amount, r.status))
          (find_first (ledger_has_reference (invoice_payment 11)) db'.ledger)
        ≡ some (1, LedgerStatus.succeeded))
mark_invoice_paid_settles_example =
    mark_invoice_paid_settles sample_env 11 77 60 1 sample_db sample_payment sample_invoice
      sample_link refl refl sample_db-HasUniqueInvoices

mark_invoice_paid_late_example :
    let (transitioned, db') =
      mark_invoice_paid sample_env (λ d. paid_db) 11 77 60 (finite 900) sample_db in
    (transitioned ≡ false) × (db'.outbox ≡ [])
mark_invoice_paid_late_example =
    mark_invoice_paid_late sample_env (λ d. paid_db) 11 77 60 (finite 900) sample_db
      paid_db-HasUniqueInvoices paid_db_paid

no_rows-HasUniqueReferences : HasUniqueReferences []
no_rows-HasUniqueReferences r = omega arith

mark_invoice_paid-HasUniqueReferences_example :
    HasUniqueReferences
      (mark_invoice_paid sample_env (λ d. d) 11 77 60 (finite 900) sample_db).1.ledger
mark_invoice_paid-HasUniqueReferences_example =
    mark_invoice_paid-HasUniqueReferences sample_env (λ d. d) 11 77 60 (finite 900) sample_db
      no_rows-HasUniqueReferences

abbrev credit : LedgerRow
credit = record {
  id = 31;
  provider_id = 7;
  invoice_id = some 11;
  payout_batch_id = none;
  ledger_type = income;
  amount = 900;
  status = LedgerStatus.succeeded;
  reference_id = invoice_payment 11;
  external_transaction_id = none;
  error_message = none;
  created_at = 99;
  updated_at = 99;
  completed_at = some 60;
}

-- The invoice is PAID and credited with 900.
abbrev credited_db : Db
credited_db = record paid_db { ledger = credit ∷ [] }
