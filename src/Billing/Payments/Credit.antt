-- ===== src/Billing/Payments/Credit.antt =====
-- The ledger has one credit for each invoice.
use service_hub_backend.Base.{
  ◌==◌, ◌||◌, ℕ, ◌≤◌, ◌≡◌, refl, true, false, List, arith, Bool-cases, Option-cases, inl, inr,
}
use service_hub_backend.Base.Table.{
  find_first, count, count-update_many, count-append, count_of_none,
}
use service_hub_backend.Billing.Rows.{
  Invoice, Payment, Db, Env, is_paid, LedgerRow, ReferenceId, invoice_payment, payout_of,
  ledger_has_reference, same_reference,
}
use service_hub_backend.Billing.Payments.{
  not_finite, finite, is_paid_now, Amount, finite, set_credit, upsert_credit, claim_invoice,
  settle_payment, payment_with_invoice, mark_invoice_paid,
}
use service_hub_backend.Billing.Payments.Settled.{record_payment_ledger}

-- The ledger rows that have one reference.
abbrev pub HasUniqueReferences : List LedgerRow → Type 0
HasUniqueReferences ledger = (r : ReferenceId) → count (ledger_has_reference r) ledger ≤ 1

same_reference_refl : (r : ReferenceId) → same_reference r r ≡ true
same_reference_refl (invoice_payment i) = ground arith
same_reference_refl (payout_of r p i) = ground arith

same_reference→eq : (r s : ReferenceId) → same_reference r s ≡ true → r ≡ s
same_reference→eq (invoice_payment i) (invoice_payment j) h = ground arith
same_reference→eq (invoice_payment i) (payout_of s q j) h = cc
same_reference→eq (payout_of r p i) (invoice_payment j) h = cc
same_reference→eq (payout_of r p i) (payout_of s q j) h = ground arith

upsert_credit-HasUniqueReferences :
    (env : Env) (invoice : Invoice) (paid_at amount : ℕ) (ledger : List LedgerRow)
    → HasUniqueReferences ledger
    → HasUniqueReferences (upsert_credit env invoice paid_at amount ledger)
unfolding upsert_credit
upsert_credit-HasUniqueReferences env invoice paid_at amount ledger u r =
    let same = ledger_has_reference (invoice_payment invoice.id) in
    elim (Option-cases (find_first same ledger)) [
      | inr (row, e) ↦
          rw
            (
              e,
              count-update_many (ledger_has_reference r) same (set_credit env paid_at amount) ledger
                  (λ x. refl),
            )
            (u r)
      | inl e ↦
          rw (e, count-append)
            (elim (Bool-cases (same_reference (invoice_payment invoice.id) r)) [
              | inr other ↦ rw other (omega (arith, u r))
              | inl this ↦
                  rw
                    (
                      this,
                      ← same_reference→eq (invoice_payment invoice.id) r this,
                      count_of_none same ledger e,
                    )
                    (omega arith)
            ])
    ]

settle_payment-HasUniqueReferences :
    (env : Env) (between : Db → Db) (i paid_at amount : ℕ) (payment : Payment) (invoice : Invoice)
    (db : Db)
    → HasUniqueReferences (between db).ledger
    → HasUniqueReferences (settle_payment env between i paid_at amount payment invoice db).1.ledger
unfolding settle_payment claim_invoice
settle_payment-HasUniqueReferences env between i paid_at amount payment invoice db u =
    let credit =
      upsert_credit-HasUniqueReferences env invoice paid_at amount (between db).ledger u in
    let d = (claim_invoice env i (between db)).1 in
    let t = (claim_invoice env i (between db)).0 in
    elim (Bool-cases (is_paid invoice.status)) [
      | inl e ↦
          rw (e, record_payment_ledger env false i paid_at amount payment invoice (between db))
            credit
      | inr e ↦ elim (Bool-cases (t || is_paid_now i d)) [
        | inl go ↦ rw (e, go, record_payment_ledger env t i paid_at amount payment invoice d) credit
        | inr stop ↦ rw (e, stop) u
      ]
    ]

-- Confirming a payment, whatever its outcome and whatever other transactions commit in between,
-- keeps at most one ledger row for each reference.
pub mark_invoice_paid-HasUniqueReferences :
    (env : Env) (between : Db → Db) (i link paid_at : ℕ) (amount : Amount) (db : Db)
    → HasUniqueReferences (between db).ledger
    → HasUniqueReferences (mark_invoice_paid env between i link paid_at amount db).1.ledger
unfolding mark_invoice_paid
mark_invoice_paid-HasUniqueReferences env between i link paid_at not_finite db u = u
mark_invoice_paid-HasUniqueReferences env between i link paid_at (finite a) db u =
    elim (Option-cases (payment_with_invoice link db)) [
      | inl e ↦ rw (e, mark_invoice_paid) u
      | inr ((payment, invoice), e) ↦ elim (Bool-cases (payment.invoice_id == i)) [
        | inr other ↦ rw (e, mark_invoice_paid) (rw other u)
        | inl own ↦
            rw (e, mark_invoice_paid)
              (rw own
                (settle_payment-HasUniqueReferences env between i paid_at a payment invoice db u))
      ]
    ]
