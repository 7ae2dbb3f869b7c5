-- ===== src/Contracts/Lifecycle/Endings.antt =====
-- Cancellation, expiry, payment, termination and booking as transitions of the table of contracts.
use service_hub_backend.Contracts.Lifecycle.Approval.{send_billing_contracts}
use service_hub_backend.Base.Table.{find_first}
use service_hub_backend.Contracts.Lifecycle.Moves.{changes_status, Transition, changes_where, stays}
use service_hub_backend.Contracts.Customer.{
  check_signatures_complete, of_customer, same_status, send_billing,
}
use service_hub_backend.Contracts.Prepaid.{
  activate_contract_after_prepayment, expire_contract, give_up, is_overdue,
}
use service_hub_backend.Contracts.Rows.{
  Response-cases, Contract, ContractStatus, Db, Env, Remote, active, cancel_prepayment_invoice,
  change_contract, contract_has_id, is_active_status, is_pending_payment,
}
use service_hub_backend.Contracts.Booking.{
  cancel_commit, cancel_paid, cancel_service, is_cancellable, of_customer_in,
}
use service_hub_backend.Base.{
  List, Bool-cases, Option-cases, arith, inl, inr, refl, some, true, ℕ, ◌&&◌, ◌==◌, ◌≡◌,
}

cancel_commit-Transition :
    (env : Env) (s : ContractStatus) (customer_id i : ℕ) (db : Db)
    → is_cancellable s ≡ true
    → (before : List Contract) → db.contracts ≡ before
    → Transition before (cancel_commit env s customer_id i db).1.contracts
unfolding cancel_commit same_status
cancel_commit-Transition env s customer_id i db may before same_rows =
    changes_where (of_customer_in s customer_id i) (give_up env.now) (λ x. refl)
      (λ x h. ground (arith, h, may)) (λ x. refl) (ground (arith, same_rows))

cancel_paid-Transition :
    (env : Env) (remote : Remote) (s : ContractStatus) (customer_id i : ℕ) (db : Db)
    → is_cancellable s ≡ true
    → Transition db.contracts (cancel_paid env remote (λ d. d) s customer_id i db).1.contracts
unfolding cancel_paid
cancel_paid-Transition env remote s customer_id i db may =
    let call = cancel_prepayment_invoice i in
    let rows = send_billing_contracts remote call db in
    elim (Response-cases (send_billing remote call db).0) [
      | inl (u, e) ↦
          rw (e, cancel_paid)
            (cancel_commit-Transition env s customer_id i (send_billing remote call db).1 may
              db.contracts rows)
      | inr (inl (code, e)) ↦ stays (rw (e, cancel_paid) rows)
      | inr (inr e) ↦ stays (rw (e, cancel_paid) rows)
    ]

pub cancel_service-Transition :
    (env : Env) (remote : Remote) (customer_id i : ℕ) (db : Db)
    → Transition db.contracts (cancel_service env remote (λ d. d) customer_id i db).1.contracts
unfolding cancel_service
cancel_service-Transition env remote customer_id i db =
    elim (Option-cases (find_first (of_customer customer_id i) db.contracts)) [
      | inl e ↦ stays (rw (e, cancel_service) refl)
      | inr (c, e) ↦ elim (Bool-cases (is_cancellable c.status)) [
        | inr k ↦ stays (rw (e, cancel_service, k) refl)
        | inl k ↦ elim (Bool-cases (is_pending_payment c.status)) [
          | inr l ↦
              rw (e, cancel_service, k, l)
                (cancel_commit-Transition env c.status customer_id i db k db.contracts refl)
          | inl l ↦
              rw (e, cancel_service, k, l)
                (cancel_paid-Transition env remote c.status customer_id i db k)
        ]
      ]
    ]

pub activate_contract_after_prepayment-Transition :
    (env : Env) (remote : Remote) (i : ℕ) (db : Db)
    → Transition db.contracts
        (activate_contract_after_prepayment env remote (λ d. d) i db).1.contracts
unfolding activate_contract_after_prepayment change_contract
activate_contract_after_prepayment-Transition env remote i db =
    elim (Option-cases (find_first (contract_has_id i) db.contracts)) [
      | inl e ↦ stays (rw (e, activate_contract_after_prepayment) refl)
      | inr (c, e) ↦ elim (Bool-cases (is_active_status c.status)) [
        | inl k ↦ stays (rw (e, activate_contract_after_prepayment, k) refl)
        | inr k ↦ elim (Bool-cases (is_pending_payment c.status)) [
          | inr l ↦ stays (rw (e, activate_contract_after_prepayment, k, l) refl)
          | inl l ↦
              let signed =
                (check_signatures_complete remote i c.require_signature db).fully_signed in
              elim (Bool-cases signed) [
                | inr m ↦ stays (rw (e, activate_contract_after_prepayment, k, l, m) refl)
                | inl m ↦
                    changes_status i (λ x. record x { status = active; updated_at = env.now }) c
                      (λ x. refl) e (ground (arith, l)) refl
                      (rw (e, activate_contract_after_prepayment, k, l, m) refl)
              ]
        ]
      ]
    ]

-- A round of the timer.
pub expire_contract-Transition :
    (env : Env) (remote : Remote) (i : ℕ) (db db' : Db)
    → expire_contract env remote i db ≡ some db'
    → Transition db.contracts db'.contracts
unfolding expire_contract send_billing
expire_contract-Transition env remote i db db' h =
    changes_where (λ c. c.id == i && is_overdue env.now c) (give_up env.now) (λ x. refl)
      (λ x q. ground (arith, q)) (λ x. refl) (ground (arith, h))
