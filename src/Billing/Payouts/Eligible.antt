-- ===== src/Billing/Payouts/Eligible.antt =====
-- What is eligible is what is left, and a reserved amount is not eligible again.
use service_hub_backend.Base.{
  ℕ, ◌+◌, ◌<◌, ◌≡◌, true, ◌&&◌, List, [], ◌∷◌, ◌++◌, Option, none, some, arith, Option-cases, inl,
  inr,
}
use service_hub_backend.Base.Table.{find_first, find_first_holds}
use service_hub_backend.Billing.Rows.{
  Invoice, LedgerRow, payout_of, Db, Env, is_paid, invoice_has_id, ledger_has_reference,
}
use service_hub_backend.Billing.Payouts.{
  EligibleInvoice, is_income, is_succeeded, debited, paid_invoice, remaining_of, eligible_of,
  PayoutRetryJob, reservation, reserve,
}

paid_invoice_found :
    (k : Option ℕ) (invoices : List Invoice) (x : Invoice)
    → paid_invoice k invoices ≡ some x
    → (k ≡ some x.id) × (is_paid x.status ≡ true)
unfolding paid_invoice
paid_invoice_found none invoices x h = cc
paid_invoice_found (some i) invoices x h =
    elim (Option-cases (find_first (invoice_has_id i) invoices)) [
      | inl e ↦ ground arith
      | inr (y, e) ↦ ground (arith, find_first_holds (invoice_has_id i) invoices e)
    ]

-- An invoice is eligible for what its credit is worth beyond the payouts that are pending, made or
-- of unknown outcome: it is PAID, the credit SUCCEEDED, and the amount is positive.
pub eligible_of_remaining :
    (db : Db) (row : LedgerRow) (e : EligibleInvoice)
    → eligible_of db row ≡ some e
    → (is_income row.ledger_type && is_succeeded row.status ≡ true)
      × (row.invoice_id ≡ some e.invoice_id)
      × (0 < e.amount)
      × (e.amount + debited e.invoice_id db.ledger ≡ row.amount)
unfolding eligible_of remaining_of
eligible_of_remaining db row e h = elim (Option-cases (paid_invoice row.invoice_id db.invoices)) [
  | inl a ↦ ground arith
  | inr (x, a) ↦ let (k, _) = paid_invoice_found row.invoice_id db.invoices x a in ground (arith, k)
]

debited-append :
    (i : ℕ) (ledger more : List LedgerRow)
    → debited i (ledger ++ more) ≡ debited i ledger + debited i more
unfolding debited
debited-append i [] more = omega arith
debited-append i (x ∷ ledger) more = ground (arith, debited-append i ledger more)

debited-reservation :
    (env : Env) (job : PayoutRetryJob) (provider_id i amount : ℕ)
    → debited i (reservation env job provider_id i amount ∷ []) ≡ amount
unfolding debited reservation
debited-reservation env job provider_id i amount = ground arith

remaining_of_spent :
    (row : LedgerRow) (x : Invoice) (i : ℕ) (ledger : List LedgerRow)
    → row.invoice_id ≡ some i
    → row.amount ≡ debited i ledger
    → remaining_of row x ledger ≡ none
unfolding remaining_of
remaining_of_spent row x i ledger k h = ground arith

-- Once the eligible amount of an invoice has a new reservation in the ledger, the invoice is not
-- eligible any more: no other batch pays it out again.
pub eligible_of-reserve :
    (env : Env) (job : PayoutRetryJob) (provider_id : ℕ) (db : Db) (row : LedgerRow)
    (e : EligibleInvoice) (ledger : List LedgerRow)
    → eligible_of db row ≡ some e
    → find_first
        (ledger_has_reference (payout_of job.reference_id provider_id e.invoice_id))
        db.ledger
      ≡ none
    → reserve env job provider_id (e.invoice_id, e.amount) db.ledger ≡ some ledger
    → eligible_of (record db { ledger = ledger }) row ≡ none
unfolding eligible_of
eligible_of-reserve env job provider_id db row e ledger h fresh run =
    let new = reservation env job provider_id e.invoice_id e.amount in
    let (_, k, _, left) = eligible_of_remaining db row e h in
    let made : ledger ≡ db.ledger ++ (new ∷ []) = unfold reserve in ground arith in
    let spent : row.amount ≡ debited e.invoice_id ledger =
      rw
        (
          made,
          debited-append e.invoice_id db.ledger (new ∷ []),
          debited-reservation env job provider_id e.invoice_id e.amount,
        )
        (omega (arith, left)) in
    elim (Option-cases (paid_invoice row.invoice_id db.invoices)) [
      | inl a ↦ ground arith
      | inr (x, a) ↦ ground (arith, remaining_of_spent row x e.invoice_id ledger k spent)
    ]
