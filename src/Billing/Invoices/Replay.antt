-- ===== src/Billing/Invoices/Replay.antt =====
-- A repeated cash payment answers with the first one.
use service_hub_backend.Base.{
  ℕ, ◌≡◌, refl, true, false, List, [], ◌∷◌, ◌++◌, Option, some, arith, ◌==◌, Bool-cases,
  Option-cases, inl, inr, is_some,
}
use service_hub_backend.Base.Table.{find_first, update_many, count, find_first-append}
use service_hub_backend.Billing.Rows.{Invoice, Payment, Db, Env, payment_has_link}
use service_hub_backend.Billing.Payments.{set_paid}
use service_hub_backend.Billing.Invoices.{
  not_found, already_paid, key_of_other_invoice, not_payable, unique, PayResult, payment_of,
  refused, owned_by, open_and_owned, pending_of, set_failed, cash_payment, publish_cash, link_taken,
  write_cash, pay_transaction, earlier, recover, pay_invoice,
}
use service_hub_backend.Billing.Invoices.Atomic.{pay_transaction_atomic, recover_state}

-- A payment of the invoice holds the key.
record HoldsKey (provider i k : ℕ) (p : Payment) (db : Db) : Type 0 where
  has_owner : is_some (find_first (owned_by i provider) db.invoices) ≡ true
  found : find_first (payment_has_link k) db.payments ≡ some p
  own : p.invoice_id ≡ i

pub publish_cash_rest :
    (env : Env) (provider i : ℕ) (invoice : Invoice) (db : Db)
    → ((publish_cash env provider i invoice db).invoices ≡ db.invoices)
      × ((publish_cash env provider i invoice db).payments ≡ db.payments)
unfolding publish_cash
publish_cash_rest env provider i invoice db = ground arith

owned-paid :
    (env : Env) (provider i : ℕ) (invoices : List Invoice)
    → is_some (
        find_first
          (owned_by i provider)
          (update_many (open_and_owned i provider) (set_paid env.now) invoices))
      ≡ is_some (find_first (owned_by i provider) invoices)
owned-paid env provider i [] = refl
owned-paid env provider i (x ∷ invoices) = ground (arith, owned-paid env provider i invoices)

-- The tables before the event is written.
abbrev pub cash_db : Env → ℕ → ℕ → Option ℕ → Db → Db
cash_db env provider i key db = record db {
  invoices = update_many (open_and_owned i provider) (set_paid env.now) db.invoices;
  payments = update_many (pending_of i) set_failed db.payments ++ (cash_payment env i key ∷ []);
}

cash_db-HoldsKey :
    (env : Env) (provider i k : ℕ) (invoice : Invoice) (db : Db)
    → is_some (find_first (owned_by i provider) db.invoices) ≡ true
    → link_taken (some k) (update_many (pending_of i) set_failed db.payments) ≡ false
    → HoldsKey provider i k
        (cash_payment env i (some k))
        (publish_cash env provider i invoice (cash_db env provider i (some k) db))
unfolding link_taken cash_payment
cash_db-HoldsKey env provider i k invoice db o free =
    let (a, b) = publish_cash_rest env provider i invoice (cash_db env provider i (some k) db) in
    record {
      has_owner = rw a (rw (owned-paid env provider i db.invoices) o);
      found = rw b (
          ground (
            arith,
            find_first-append (payment_has_link k)
                (update_many (pending_of i) set_failed db.payments)
                (cash_payment env i (some k) ∷ []),
          ));
      own = refl;
    }

write_cash_key :
    (env : Env) (provider i k : ℕ) (invoice : Invoice) (db : Db) (p : Payment)
    → is_some (find_first (owned_by i provider) db.invoices) ≡ true
    → (write_cash env provider i (some k) invoice db).0 ≡ payment_of p
    → HoldsKey provider i k p (write_cash env provider i (some k) invoice db).1
unfolding write_cash
write_cash_key env provider i k invoice db p o h =
    elim (Bool-cases (count (open_and_owned i provider) db.invoices == 1)) [
      | inr gone ↦ ground arith
      | inl one ↦
          elim (Bool-cases
            (link_taken (some k) (update_many (pending_of i) set_failed db.payments))) [
              | inl taken ↦ ground arith
              | inr free ↦
                  let e : cash_payment env i (some k) ≡ p = ground arith in
                  rw (one, free, ← e) (cash_db-HoldsKey env provider i k invoice db o free)
            ]
    ]

pay_transaction_key :
    (env : Env) (provider i k : ℕ) (db : Db) (p : Payment)
    → (pay_transaction env provider i (some k) db).0 ≡ payment_of p
    → HoldsKey provider i k p (pay_transaction env provider i (some k) db).1
unfolding pay_transaction
pay_transaction_key env provider i k db p h =
    elim (Option-cases (find_first (owned_by i provider) db.invoices)) [
      | inl none_found ↦ ground arith
      | inr (invoice, found) ↦ ground (arith, write_cash_key env provider i k invoice db p)
    ]

pay_transaction_unique :
    (env : Env) (provider i k : ℕ) (db : Db)
    → (pay_transaction env provider i (some k) db).0 ≡ refused unique
    → is_some (find_first (owned_by i provider) db.invoices) ≡ true
unfolding pay_transaction
pay_transaction_unique env provider i k db h = ground arith

recover_key :
    (provider i k : ℕ) (r : PayResult) (db : Db) (p : Payment)
    → (r ≡ payment_of p → HoldsKey provider i k p db)
    → (r ≡ refused unique → is_some (find_first (owned_by i provider) db.invoices) ≡ true)
    → (recover i (some k) (r, db)).0 ≡ payment_of p
    → HoldsKey provider i k p db
unfolding recover earlier
recover_key provider i k (payment_of q) db p a b h = a h
recover_key provider i k (refused unique) db p a b h =
    elim (Option-cases (find_first (payment_has_link k) db.payments)) [
      | inl e ↦ ground arith
      | inr (q, e) ↦ ground arith
    ]
recover_key provider i k (refused not_found) db p a b h = cc
recover_key provider i k (refused already_paid) db p a b h = cc
recover_key provider i k (refused key_of_other_invoice) db p a b h = cc
recover_key provider i k (refused not_payable) db p a b h = cc

pay_invoice_key :
    (env : Env) (between : Db → Db) (provider i k : ℕ) (db : Db) (p : Payment)
    → (pay_invoice env between provider i (some k) db).0 ≡ payment_of p
    → HoldsKey provider i k p (pay_invoice env between provider i (some k) db).1
unfolding pay_invoice earlier
pay_invoice_key env between provider i k db p h =
    elim (Option-cases (find_first (owned_by i provider) db.invoices)) [
      | inl e ↦ ground arith
      | inr (x, e) ↦ elim (Option-cases (find_first (payment_has_link k) db.payments)) [
        | inr (q, e') ↦ ground arith
        | inl e' ↦
            let t = pay_transaction env provider i (some k) (between db) in
            let run : pay_invoice env between provider i (some k) db ≡ recover i (some k) t =
              ground arith in
            rw (run, recover_state i (some k) t.0 t.1)
              (recover_key provider i k t.0 t.1 p
                (pay_transaction_key env provider i k (between db) p)
                (λ u.
                  rw (pay_transaction_atomic env provider i (some k) (between db) unique u)
                    (pay_transaction_unique env provider i k (between db) u))
                (rw run at h))
      ]
    ]

pay_invoice_held :
    (env : Env) (between : Db → Db) (provider i k : ℕ) (db : Db) (p : Payment)
    → HoldsKey provider i k p db
    → pay_invoice env between provider i (some k) db ≡ (payment_of p, db)
unfolding pay_invoice earlier
pay_invoice_held env between provider i k db p held =
    elim (Option-cases (find_first (owned_by i provider) db.invoices)) [
      | inl e ↦ ground arith
      | inr (x, e) ↦ ground arith
    ]

-- A cash payment that is repeated with its idempotency key, at any later time and whatever other
-- transactions do during the repetition, answers with the same payment and changes nothing.
pub pay_invoice_again :
    (env env' : Env) (between between' : Db → Db) (provider i k : ℕ) (db : Db) (p : Payment)
    → (pay_invoice env between provider i (some k) db).0 ≡ payment_of p
    → let db' = (pay_invoice env between provider i (some k) db).1 in
      pay_invoice env' between' provider i (some k) db' ≡ (payment_of p, db')
pay_invoice_again env env' between between' provider i k db p h =
    pay_invoice_held env' between' provider i k _ p
      (pay_invoice_key env between provider i k db p h)
