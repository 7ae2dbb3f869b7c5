-- ===== src/Billing/Payments/Claim.antt =====
-- The conditional update that lets one transaction alone move an invoice to PAID.
use service_hub_backend.Base.{
  ℕ, ◌≤◌, ◌≡◌, refl, Bool, true, false, List, [], ◌∷◌, some, arith, Option-cases, inl, inr,
}
use service_hub_backend.Base.Table.{find_first, count, find_first-update_many}
use service_hub_backend.Billing.Rows.{Invoice, Payment, Db, Env, is_paid, invoice_has_id}
use service_hub_backend.Billing.Payments.{
  Amount, finite, not_finite, not_paid_with_id, set_paid, claim_invoice, record_payment,
  publish_paid, is_paid_now, settle_payment, payment_with_invoice, mark_invoice_paid,
}

-- Invoice keys are unique.
abbrev pub HasUniqueInvoices : Db → Type 0
HasUniqueInvoices db = (i : ℕ) → count (invoice_has_id i) db.invoices ≤ 1

pub record_payment_invoices :
    (env : Env) (t : Bool) (i paid_at amount : ℕ) (payment : Payment) (invoice : Invoice) (db : Db)
    → (record_payment env t i paid_at amount payment invoice db).invoices ≡ db.invoices
unfolding record_payment publish_paid
record_payment_invoices env false i paid_at amount payment invoice db = refl
record_payment_invoices env true i paid_at amount payment invoice db = ground arith

record_payment_outbox :
    (env : Env) (i paid_at amount : ℕ) (payment : Payment) (invoice : Invoice) (db : Db)
    → (record_payment env false i paid_at amount payment invoice db).outbox ≡ db.outbox
unfolding record_payment publish_paid
record_payment_outbox env i paid_at amount payment invoice db = refl

count_le :
    (i : ℕ) (invoices : List Invoice)
    → count (not_paid_with_id i) invoices ≤ count (invoice_has_id i) invoices
count_le i [] = omega arith
count_le i (x ∷ invoices) = ground (arith, count_le i invoices)

count_of_paid :
    (i : ℕ) (invoices : List Invoice) (x : Invoice)
    → find_first (invoice_has_id i) invoices ≡ some x
    → is_paid x.status ≡ true
    → count (invoice_has_id i) invoices ≤ 1
    → count (not_paid_with_id i) invoices ≡ 0
count_of_paid i [] x h p u = cc
count_of_paid i (y ∷ invoices) x h p u =
    ground (arith, count_of_paid i invoices x, count_le i invoices)

pub count_of_unpaid :
    (i : ℕ) (invoices : List Invoice) (x : Invoice)
    → find_first (invoice_has_id i) invoices ≡ some x
    → is_paid x.status ≡ false
    → count (invoice_has_id i) invoices ≤ 1
    → count (not_paid_with_id i) invoices ≡ 1
count_of_unpaid i [] x h p u = cc
count_of_unpaid i (y ∷ invoices) x h p u =
    ground (arith, count_of_unpaid i invoices x, count_le i invoices)

-- A claim leaves every paid invoice paid.
claim_invoice_paid :
    (env : Env) (i j : ℕ) (db : Db)
    → is_paid_now j db ≡ true
    → is_paid_now j (claim_invoice env i db).1 ≡ true
unfolding is_paid_now claim_invoice
claim_invoice_paid env i j db h = ground (
  arith,
  find_first-update_many (invoice_has_id j) (not_paid_with_id i) (set_paid env.now) db.invoices
      (λ x. refl),
)

is_paid_now-record_payment :
    (env : Env) (t : Bool) (i j paid_at amount : ℕ) (payment : Payment) (invoice : Invoice)
    (db : Db)
    → is_paid_now j (record_payment env t i paid_at amount payment invoice db) ≡ is_paid_now j db
unfolding is_paid_now
is_paid_now-record_payment env t i j paid_at amount payment invoice db =
    rw (record_payment_invoices env t i paid_at amount payment invoice db)

settle_payment_paid :
    (env : Env) (between : Db → Db) (i j paid_at amount : ℕ) (payment : Payment) (invoice : Invoice)
    (db : Db)
    → is_paid_now j (between db) ≡ true
    → is_paid_now j (settle_payment env between i paid_at amount payment invoice db).1 ≡ true
unfolding settle_payment
settle_payment_paid env between i j paid_at amount payment invoice db h = ground (
  arith,
  is_paid_now-record_payment env false i j paid_at amount payment invoice (between db),
  claim_invoice_paid env i j (between db) h,
  is_paid_now-record_payment env (claim_invoice env i (between db)).0 i j paid_at amount payment
      invoice (claim_invoice env i (between db)).1,
)

-- Confirming a payment leaves every invoice PAID that is PAID when the conditional update runs.
pub mark_invoice_paid_paid :
    (env : Env) (between : Db → Db) (i link paid_at : ℕ) (amount : Amount) (db : Db) (j : ℕ)
    → is_paid_now j (between db) ≡ true
    → is_paid_now j (mark_invoice_paid env between i link paid_at amount db).1 ≡ true
unfolding mark_invoice_paid
mark_invoice_paid_paid env between i link paid_at not_finite db j h = h
mark_invoice_paid_paid env between i link paid_at (finite a) db j h =
    elim (Option-cases (payment_with_invoice link db)) [
      | inl e ↦ rw (e, mark_invoice_paid) h
      | inr ((payment, invoice), e) ↦
          ground (arith, settle_payment_paid env between i j paid_at a payment invoice db h)
    ]

claim_invoice_late :
    (env : Env) (i : ℕ) (db : Db)
    → HasUniqueInvoices db
    → is_paid_now i db ≡ true
    → ((claim_invoice env i db).0 ≡ false) × ((claim_invoice env i db).1.outbox ≡ db.outbox)
unfolding claim_invoice is_paid_now
claim_invoice_late env i db u h = elim (Option-cases (find_first (invoice_has_id i) db.invoices)) [
  | inl e ↦ ground arith
  | inr (x, e) ↦ ground (arith, count_of_paid i db.invoices x e, u i)
]

settle_payment_late :
    (env : Env) (between : Db → Db) (i paid_at amount : ℕ) (payment : Payment) (invoice : Invoice)
    (db : Db)
    → HasUniqueInvoices (between db)
    → is_paid_now i (between db) ≡ true
    → ((settle_payment env between i paid_at amount payment invoice db).0 ≡ false)
      × ((settle_payment env between i paid_at amount payment invoice db).1.outbox
          ≡ (between db).outbox)
unfolding settle_payment
settle_payment_late env between i paid_at amount payment invoice db u h = ground (
  arith,
  record_payment_outbox env i paid_at amount payment invoice (between db),
  claim_invoice_late env i (between db) u h,
  record_payment_outbox env i paid_at amount payment invoice (claim_invoice env i (between db)).1,
)

-- If another transaction has made the invoice PAID by the time of the conditional update, this one
-- reports no transition and writes no event, whatever it had read before, provided that invoice keys
-- are unique.
pub mark_invoice_paid_late :
    (env : Env) (between : Db → Db) (i link paid_at : ℕ) (amount : Amount) (db : Db)
    → HasUniqueInvoices (between db)
    → is_paid_now i (between db) ≡ true
    → let (transitioned, db') = mark_invoice_paid env between i link paid_at amount db in
      (transitioned ≡ false) × (db'.outbox ≡ (between db).outbox)
unfolding mark_invoice_paid
mark_invoice_paid_late env between i link paid_at not_finite db u h = (refl, refl)
mark_invoice_paid_late env between i link paid_at (finite a) db u h =
    elim (Option-cases (payment_with_invoice link db)) [
      | inl e ↦ rw (e, mark_invoice_paid) (refl, refl)
      | inr ((payment, invoice), e) ↦
          ground (arith, settle_payment_late env between i paid_at a payment invoice db u h)
    ]
