-- ===== src/Billing/Invoices/Cash.antt =====
-- What a cash payment that goes through leaves behind.
use service_hub_backend.Base.{
  ℕ, ◌+◌, ◌≤◌, ◌≡◌, refl, true, false, List, [], ◌∷◌, ◌++◌, Option, none, some, arith,
}
use service_hub_backend.Base.Table.{
  find_first_holds, find_first, update_many, count, find_first-update_many,
}
use service_hub_backend.Billing.Rows.{
  cash, paid, success, Invoice, Payment, Db, Env, payment_has_link,
}
use service_hub_backend.Billing.Payments.{set_paid}
use service_hub_backend.Billing.Invoices.{
  payment_of, owned_by, is_open, open_and_owned, pending_of, set_failed, cash_payment, publish_cash,
  link_taken, write_cash, pay_transaction, earlier, recover, pay_invoice,
}
use service_hub_backend.Billing.Invoices.Replay.{publish_cash_rest, cash_db}

count-open_le :
    (provider i : ℕ) (invoices : List Invoice)
    → count (open_and_owned i provider) invoices ≤ count (owned_by i provider) invoices
count-open_le provider i [] = omega arith
count-open_le provider i (x ∷ invoices) = ground (arith, count-open_le provider i invoices)

count-open :
    (provider i : ℕ) (invoices : List Invoice) (x : Invoice)
    → find_first (owned_by i provider) invoices ≡ some x
    → is_open x.status ≡ true
    → count (owned_by i provider) invoices ≤ 1
    → count (open_and_owned i provider) invoices ≡ 1
count-open provider i [] x h p u = cc
count-open provider i (y ∷ invoices) x h p u =
    ground (arith, count-open provider i invoices x, count-open_le provider i invoices)

none_pending :
    (i : ℕ) (payments rest : List Payment)
    → find_first (pending_of i) rest ≡ none
    → find_first (pending_of i) (update_many (pending_of i) set_failed payments ++ rest) ≡ none
none_pending i [] rest h = h
none_pending i (x ∷ payments) rest h = ground (arith, none_pending i payments rest h)

link_free :
    (i : ℕ) (key : Option ℕ) (db : Db)
    → earlier i key db ≡ none
    → link_taken key (update_many (pending_of i) set_failed db.payments) ≡ false
unfolding link_taken earlier
link_free i none db h = refl
link_free i (some k) db h = ground (
  arith,
  find_first-update_many (payment_has_link k) (pending_of i) set_failed db.payments (λ x. refl),
)

pay_invoice_runs :
    (env : Env) (provider i : ℕ) (key : Option ℕ) (db : Db) (invoice : Invoice)
    → find_first (owned_by i provider) db.invoices ≡ some invoice
    → is_open invoice.status ≡ true
    → count (owned_by i provider) db.invoices ≤ 1
    → earlier i key db ≡ none
    → pay_invoice env (λ d. d) provider i key db ≡ (
      payment_of (cash_payment env i key),
      publish_cash env provider i invoice (cash_db env provider i key db),
    )
unfolding pay_invoice pay_transaction write_cash recover
pay_invoice_runs env provider i key db invoice found open_status only free = ground (
  arith,
  count-open provider i db.invoices invoice found open_status only,
  link_free i key db free,
)

-- A cash payment that goes through on an unpaid invoice of the provider, with no earlier use of
-- its key: the answer is a SUCCESS payment in cash, the invoice is PAID at the next revision, and
-- no online attempt for it is left
-- PENDING, provided that invoice keys are unique and no other transaction commits in between.
pub pay_invoice_settles :
    (env : Env) (provider i : ℕ) (key : Option ℕ) (db : Db) (invoice : Invoice)
    → find_first (owned_by i provider) db.invoices ≡ some invoice
    → is_open invoice.status ≡ true
    → count (owned_by i provider) db.invoices ≤ 1
    → earlier i key db ≡ none
    → let (answer, db') = pay_invoice env (λ d. d) provider i key db in
      (answer
        ≡ payment_of (record {
          id = env.payment_key;
          invoice_id = i;
          payment_method = cash;
          payment_link_id = key;
          status = success;
          paid_at = some env.now;
          created_at = env.now;
        }))
      × (find_first (owned_by i provider) db'.invoices
          ≡ some (record invoice {
            status = paid;
            revision = invoice.revision + 1;
            updated_at = env.now;
          }))
      × (find_first (pending_of i) db'.payments ≡ none)
unfolding cash_payment
pay_invoice_settles env provider i key db invoice found open_status only free =
    let (a, b) = publish_cash_rest env provider i invoice (cash_db env provider i key db) in
    rw (pay_invoice_runs env provider i key db invoice found open_status only free) (
      refl,
      rw a (
          ground (
            arith,
            found,
            find_first_holds (owned_by i provider) db.invoices found,
            find_first-update_many (owned_by i provider) (open_and_owned i provider)
                (set_paid env.now) db.invoices (λ x. refl),
          )),
      rw b (none_pending i db.payments (cash_payment env i key ∷ []) (ground arith)),
    )
