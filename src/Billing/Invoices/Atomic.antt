-- ===== src/Billing/Invoices/Atomic.antt =====
-- A refused cash payment writes nothing.
use service_hub_backend.Base.{ℕ, ◌≡◌, refl, Option, arith, ◌⊎◌, Option-cases, inl, inr}
use service_hub_backend.Base.Table.{find_first}
use service_hub_backend.Billing.Rows.{Invoice, Db, Env}
use service_hub_backend.Billing.Invoices.{
  PayError, not_found, already_paid, key_of_other_invoice, not_payable, unique, PayResult,
  payment_of, refused, owned_by, write_cash, pay_transaction, earlier, recover, pay_invoice,
}

write_cash_atomic :
    (env : Env) (provider i : ℕ) (key : Option ℕ) (invoice : Invoice) (db : Db) (e : PayError)
    → (write_cash env provider i key invoice db).0 ≡ refused e
    → (write_cash env provider i key invoice db).1 ≡ db
unfolding write_cash
write_cash_atomic env provider i key invoice db e h = ground arith

pub pay_transaction_atomic :
    (env : Env) (provider i : ℕ) (key : Option ℕ) (db : Db) (e : PayError)
    → (pay_transaction env provider i key db).0 ≡ refused e
    → (pay_transaction env provider i key db).1 ≡ db
unfolding pay_transaction
pay_transaction_atomic env provider i key db e h =
    elim (Option-cases (find_first (owned_by i provider) db.invoices)) [
      | inl none_found ↦ ground arith
      | inr (invoice, found) ↦ ground (arith, write_cash_atomic env provider i key invoice db e)
    ]

pub recover_state :
    (i : ℕ) (key : Option ℕ) (r : PayResult) (db : Db) → (recover i key (r, db)).1 ≡ db
unfolding recover
recover_state i key (payment_of p) db = refl
recover_state i key (refused unique) db = ground arith
recover_state i key (refused not_found) db = refl
recover_state i key (refused already_paid) db = refl
recover_state i key (refused key_of_other_invoice) db = refl
recover_state i key (refused not_payable) db = refl

recover_refused :
    (i : ℕ) (key : Option ℕ) (r : PayResult) (db : Db) (e : PayError)
    → (recover i key (r, db)).0 ≡ refused e
    → r ≡ refused e
unfolding recover
recover_refused i key (payment_of p) db e h = h
recover_refused i key (refused unique) db e h = ground arith
recover_refused i key (refused not_found) db e h = h
recover_refused i key (refused already_paid) db e h = h
recover_refused i key (refused key_of_other_invoice) db e h = h
recover_refused i key (refused not_payable) db e h = h

-- A cash payment that is refused, for whatever reason, has written nothing: the tables are those
-- that it read, or those that other transactions had committed meanwhile.
pub pay_invoice_atomic :
    (env : Env) (between : Db → Db) (provider i : ℕ) (key : Option ℕ) (db : Db) (e : PayError)
    → (pay_invoice env between provider i key db).0 ≡ refused e
    → ((pay_invoice env between provider i key db).1 ≡ db)
      ⊎ ((pay_invoice env between provider i key db).1 ≡ between db)
unfolding pay_invoice
pay_invoice_atomic env between provider i key db e h =
    elim (Option-cases (find_first (owned_by i provider) db.invoices)) [
      | inl none_found ↦ rw (none_found, pay_invoice) (inl refl)
      | inr (invoice, found) ↦ elim (Option-cases (earlier i key db)) [
        | inr (p, old) ↦ inl (ground arith)
        | inl fresh ↦ inr (
            ground (
              arith,
              recover_state i key (pay_transaction env provider i key (between db)).0
                  (pay_transaction env provider i key (between db)).1,
              recover_refused i key (pay_transaction env provider i key (between db)).0
                  (pay_transaction env provider i key (between db)).1 e,
              pay_transaction_atomic env provider i key (between db) e,
            ))
      ]
    ]
