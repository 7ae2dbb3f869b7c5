-- ===== src/Billing/Payments/Settled.antt =====
-- What a confirmed payment leaves in the tables.
use mathlib.Core.Option
use service_hub_backend.Base.{
  ℕ, ◌≡◌, refl, Bool, true, false, List, [], ◌∷◌, none, some, arith, Option-cases, inl, inr, ap,
  ◌∙◌, ◌+◌,
}
use service_hub_backend.Base.Table.{
  find_first, update_many, find_first-update_many, find_first-append, find_first_holds,
}
use service_hub_backend.Billing.Rows.{
  Invoice, Payment, paid, success, transfer, LedgerStatus, Db, Env, is_paid, invoice_has_id,
  payment_has_id, payment_has_link, LedgerRow, invoice_payment, ledger_has_reference,
}
use service_hub_backend.Billing.Payments.{
  finite, not_paid_with_id, set_paid, finite, set_success, set_credit, credit_row, upsert_credit,
  claim_invoice, record_payment, publish_paid, settle_payment, payment_with_invoice,
  mark_invoice_paid,
}
use service_hub_backend.Billing.Payments.Claim.{
  HasUniqueInvoices, record_payment_invoices, count_of_unpaid,
}

-- The credit of an invoice after the upsert.
credited : Env → Invoice → ℕ → ℕ → List LedgerRow → LedgerRow
credited env invoice paid_at amount ledger =
    elim (find_first (ledger_has_reference (invoice_payment invoice.id)) ledger) [
      | some row ↦ set_credit env paid_at amount row
      | none ↦ credit_row env invoice paid_at amount
    ]

upsert_credit-find :
    (env : Env) (invoice : Invoice) (paid_at amount : ℕ) (ledger : List LedgerRow)
    → find_first
        (ledger_has_reference (invoice_payment invoice.id))
        (upsert_credit env invoice paid_at amount ledger)
      ≡ some (credited env invoice paid_at amount ledger)
unfolding upsert_credit credited
upsert_credit-find env invoice paid_at amount ledger =
    let same = ledger_has_reference (invoice_payment invoice.id) in
    elim (Option-cases (find_first same ledger)) [
      | inl e ↦
          ground
            (arith, e, find_first-append same ledger (credit_row env invoice paid_at amount ∷ []))
      | inr (row, e) ↦ ground (
        arith,
        e,
        find_first_holds same ledger e,
        find_first-update_many same same (set_credit env paid_at amount) ledger (λ x. refl),
      )
    ]

credited_amount :
    (env : Env) (invoice : Invoice) (paid_at amount : ℕ) (ledger : List LedgerRow)
    → ((credited env invoice paid_at amount ledger).amount ≡ amount)
      × ((credited env invoice paid_at amount ledger).status ≡ LedgerStatus.succeeded)
unfolding credited credit_row
credited_amount env invoice paid_at amount ledger = ground arith

record_payment_payments :
    (env : Env) (t : Bool) (i paid_at amount : ℕ) (payment : Payment) (invoice : Invoice) (db : Db)
    → (record_payment env t i paid_at amount payment invoice db).payments
      ≡ update_many (payment_has_id payment.id) (set_success paid_at) db.payments
unfolding record_payment publish_paid
record_payment_payments env false i paid_at amount payment invoice db = refl
record_payment_payments env true i paid_at amount payment invoice db = ground arith

pub record_payment_ledger :
    (env : Env) (t : Bool) (i paid_at amount : ℕ) (payment : Payment) (invoice : Invoice) (db : Db)
    → (record_payment env t i paid_at amount payment invoice db).ledger
      ≡ upsert_credit env invoice paid_at amount db.ledger
unfolding record_payment publish_paid
record_payment_ledger env false i paid_at amount payment invoice db = refl
record_payment_ledger env true i paid_at amount payment invoice db = ground arith

payment_with_invoice_found :
    (link : ℕ) (db : Db) (payment : Payment) (invoice : Invoice)
    → payment_with_invoice link db ≡ some (payment, invoice)
    → (find_first (payment_has_link link) db.payments ≡ some payment)
      × (find_first (invoice_has_id payment.invoice_id) db.invoices ≡ some invoice)
unfolding payment_with_invoice
payment_with_invoice_found link db payment invoice h =
    elim (Option-cases (find_first (payment_has_link link) db.payments)) [
      | inl e ↦ ground arith
      | inr (x, e) ↦ elim (Option-cases (find_first (invoice_has_id x.invoice_id) db.invoices)) [
        | inl e' ↦ ground arith
        | inr (y, e') ↦ ground arith
      ]
    ]

-- One that finds the invoice unpaid.
module _ (env : Env) (i link paid_at amount : ℕ) (db : Db) (payment : Payment) (invoice : Invoice)
    (found : payment_with_invoice link db ≡ some (payment, invoice))
    (owned : payment.invoice_id ≡ i) (open_invoice : is_paid invoice.status ≡ false)
    (unique : HasUniqueInvoices db) where
  claimed : Db
  claimed = (claim_invoice env i db).1

  invoice_found : find_first (invoice_has_id i) db.invoices ≡ some invoice
  invoice_found = rw (← owned) ((payment_with_invoice_found link db payment invoice found).1)

  mark_invoice_paid_unfolds :
      mark_invoice_paid env (λ d. d) i link paid_at (finite amount) db
      ≡ (true, record_payment env true i paid_at amount payment invoice claimed)
  unfolding mark_invoice_paid settle_payment claimed claim_invoice
  mark_invoice_paid_unfolds = ground (
    arith,
    found,
    owned,
    open_invoice,
    count_of_unpaid i db.invoices invoice invoice_found open_invoice (unique i),
  )

  claimed_invoice : find_first (invoice_has_id i) claimed.invoices ≡ some (set_paid env.now invoice)
  unfolding claimed claim_invoice
  claimed_invoice = ground (
    arith,
    invoice_found,
    open_invoice,
    find_first_holds (invoice_has_id i) db.invoices invoice_found,
    find_first-update_many (invoice_has_id i) (not_paid_with_id i) (set_paid env.now) db.invoices
        (λ x. refl),
  )

  settled_payment :
      find_first
        (payment_has_link link)
        (update_many (payment_has_id payment.id) (set_success paid_at) db.payments)
      ≡ some (set_success paid_at payment)
  settled_payment = ground (
    arith,
    (payment_with_invoice_found link db payment invoice found).0,
    find_first-update_many (payment_has_link link) (payment_has_id payment.id) (set_success paid_at)
        db.payments (λ x. refl),
  )

  first_time : set_success paid_at payment ≡ record payment {
    payment_method = transfer;
    status = success;
    paid_at = elim payment.paid_at [ none ↦ some paid_at | some t ↦ some t ];
  }
  first_time = ground arith

  -- A confirmed PayOS payment of an unpaid invoice makes the invoice PAID at the next revision, the
  -- payment SUCCESS by transfer with its first payment time kept, and the invoice's ledger credit
  -- SUCCEEDED with the amount that PayOS reports, whatever that amount is beside the total: provided that
  -- the link is that of a payment of this invoice, that invoice keys are unique, and that no other
  -- transaction commits in between.
  pub mark_invoice_paid_settles :
      let (transitioned, db') = mark_invoice_paid env (λ d. d) i link paid_at (finite amount) db in
      (transitioned ≡ true)
      × (find_first (invoice_has_id i) db'.invoices
          ≡ some (record invoice {
            status = paid;
            revision = invoice.revision + 1;
            updated_at = env.now;
          }))
      × (find_first (payment_has_link link) db'.payments
          ≡ some (record payment {
            payment_method = transfer;
            status = success;
            paid_at = elim payment.paid_at [ none ↦ some paid_at | some t ↦ some t ];
          }))
      × (Option.map {B = ℕ × LedgerStatus}
            (λ r. (r.amount, r.status))
            (find_first (ledger_has_reference (invoice_payment invoice.id)) db'.ledger)
          ≡ some (amount, LedgerStatus.succeeded))
  mark_invoice_paid_settles = rw mark_invoice_paid_unfolds (
    refl,
    rw (record_payment_invoices env true i paid_at amount payment invoice claimed) claimed_invoice,
    rw (record_payment_payments env true i paid_at amount payment invoice claimed)
        (unfold claimed claim_invoice in settled_payment ∙ ap some first_time),
    rw (
      record_payment_ledger env true i paid_at amount payment invoice claimed,
      upsert_credit-find env invoice paid_at amount claimed.ledger,
      (credited_amount env invoice paid_at amount claimed.ledger).0,
      (credited_amount env invoice paid_at amount claimed.ledger).1,
    ),
  )
