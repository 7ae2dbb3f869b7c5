-- ===== src/Contracts/Lifecycle/Approval.antt =====
-- The customer's operations as transitions of the table of contracts.
use service_hub_backend.Contracts.Provider.{service_of}
use service_hub_backend.Base.Table.{count, find_first}
use service_hub_backend.Contracts.Lifecycle.Moves.{Transition, changes_where, stays}
use service_hub_backend.Contracts.Lifecycle.{Moves}
use service_hub_backend.Base.{
  Bool, Bool-cases, Option-cases, ap, arith, false, inl, inr, is_some, none, refl, some, true, ℕ,
  ◌&&◌, ◌==◌, ◌∙◌, ◌≡◌,
}
use service_hub_backend.Contracts.Rows.{
  is_pending_signature, BillingCall, Contract, Db, Env, Remote, Response, answered, contract_has_id,
  is_active_status, is_pending_payment, pending_payment, pending_signature, raised, rejected,
}
use service_hub_backend.Contracts.Customer.{
  activate_contract_after_customer_sign, approval_of, approve_row, confirm_contract_terms,
  is_prepayment, of_customer, transition_after_customer_approval, answer_with, approval_commit,
  approval_raced, in_status, next_status, request_prepayment, same_status, send_billing,
}

pub send_billing_contracts :
    (remote : Remote) (call : BillingCall) (db : Db)
    → (send_billing remote call db).1.contracts ≡ db.contracts
unfolding send_billing
send_billing_contracts remote call db = ground arith

-- A request for an invoice leaves the contracts as they are.
pub request_prepayment_contracts :
    (remote : Remote) (c : Contract) (db : Db)
    → (request_prepayment remote c db).1.contracts ≡ db.contracts
unfolding request_prepayment
request_prepayment_contracts remote c db =
    elim (Option-cases (find_first (service_of c.id) db.services)) [
      | inl e ↦ rw (e, request_prepayment) refl
      | inr (s, e) ↦ elim (Option-cases (remote.price_details s.service_price_id)) [
        | inl k ↦ rw (e, request_prepayment, k) refl
        | inr (none, k) ↦ rw (e, request_prepayment, k) refl
        | inr (some detail, k) ↦ elim (Bool-cases detail.is_one_time) [
          | inr l ↦ rw (e, request_prepayment, k, l) refl
          | inl l ↦ rw (e, request_prepayment, k, l) (send_billing_contracts remote _ db)
        ]
      ]
    ]

answer_with_db : {A : Type 0} (a : A) (r : Response Unit × Db) → (answer_with a r).1 ≡ r.1
answer_with_db a (answered u, db) = refl
answer_with_db a (rejected code, db) = refl
answer_with_db a (raised, db) = refl

requested :
    {A : Type 0} (a : A) (remote : Remote) (c : Contract) (db : Db)
    → (answer_with a (request_prepayment remote c db)).1.contracts ≡ db.contracts
requested a remote c db =
    ap (λ d. d.contracts) (answer_with_db a (request_prepayment remote c db))
    ∙ request_prepayment_contracts remote c db

approval_raced_contracts :
    (remote : Remote) (c : Contract) (db : Db)
    → (approval_raced remote c db).1.contracts ≡ db.contracts
unfolding approval_raced
approval_raced_contracts remote c db =
    elim (Option-cases (find_first (contract_has_id c.id) db.contracts)) [
      | inl e ↦ rw (e, approval_raced) refl
      | inr (x, e) ↦ elim (Bool-cases (is_pending_payment x.status && is_some x.signed_at)) [
        | inl k ↦ rw (e, approval_raced, k) (requested pending_payment remote c db)
        | inr k ↦ elim (Bool-cases (is_active_status x.status)) [
          | inl l ↦ rw (e, approval_raced, k, l) refl
          | inr l ↦ rw (e, approval_raced, k, l) refl
        ]
      ]
    ]

approve_row-Moves :
    (now : ℕ) (prepaid signed : Bool) (i : ℕ) (x : Contract)
    → in_status pending_signature i x ≡ true
    → Moves x (approve_row (next_status prepaid signed) now x)
unfolding same_status
approve_row-Moves now true signed i x h = ground (arith, h)
approve_row-Moves now false true i x h = ground (arith, h)
approve_row-Moves now false false i x h = ground (arith, h)

approval_commit-Transition :
    (env : Env) (remote : Remote) (prepaid signed : Bool) (c : Contract) (db : Db)
    → Transition db.contracts
        (approval_commit env remote prepaid (next_status prepaid signed) c db).1.contracts
unfolding approval_commit
approval_commit-Transition env remote prepaid signed c db =
    let q = in_status pending_signature c.id in
    let f = approve_row (next_status prepaid signed) env.now in
    elim (Bool-cases (count q db.contracts == 0)) [
      | inl e ↦ stays (rw (e, approval_commit) (approval_raced_contracts remote c db))
      | inr e ↦ elim (Bool-cases prepaid) [
        | inl k ↦
            changes_where q f (λ x. refl) (λ x h. approve_row-Moves env.now prepaid signed c.id x h)
              (λ x. refl) (rw (e, approval_commit, k) (requested _ remote c _))
        | inr k ↦
            changes_where q f (λ x. refl) (λ x h. approve_row-Moves env.now prepaid signed c.id x h)
              (λ x. refl) (rw (e, approval_commit, k) refl)
      ]
    ]

approval_of-Transition :
    (env : Env) (remote : Remote) (c : Contract) (db : Db)
    → Transition db.contracts (approval_of env remote (λ d. d) c db).1.contracts
unfolding approval_of
approval_of-Transition env remote c db = elim (Bool-cases (is_active_status c.status)) [
  | inl e ↦ stays (rw (e, approval_of) refl)
  | inr e ↦ elim (Option-cases (is_prepayment remote c db)) [
    | inl k ↦ stays (rw (e, approval_of, k) refl)
    | inr (prepaid, k) ↦ elim (Bool-cases (is_pending_payment c.status && is_some c.signed_at)) [
      | inl l ↦ stays (rw (e, approval_of, k, l) (requested c.status remote c db))
      | inr l ↦ elim (Bool-cases (is_pending_signature c.status)) [
        | inr m ↦ stays (rw (e, approval_of, k, l, m) refl)
        | inl m ↦
            rw (e, approval_of, k, l, m) (approval_commit-Transition env remote prepaid _ c db)
      ]
    ]
  ]
]

-- The customer's approval is a transition of the table.
pub transition_after_customer_approval-Transition :
    (env : Env) (remote : Remote) (i : ℕ) (db : Db)
    → Transition db.contracts
        (transition_after_customer_approval env remote (λ d. d) i db).1.contracts
unfolding transition_after_customer_approval
transition_after_customer_approval-Transition env remote i db =
    elim (Option-cases (find_first (contract_has_id i) db.contracts)) [
      | inl e ↦ stays (rw (e, transition_after_customer_approval) refl)
      | inr (c, e) ↦
          rw (e, transition_after_customer_approval) (approval_of-Transition env remote c db)
    ]

pub activate_contract_after_customer_sign-Transition :
    (env : Env) (remote : Remote) (file_id : ℕ) (db : Db)
    → Transition db.contracts
        (activate_contract_after_customer_sign env remote (λ d. d) file_id db).1.contracts
unfolding activate_contract_after_customer_sign
activate_contract_after_customer_sign-Transition env remote file_id db =
    elim (Option-cases (find_first (λ f. f.id == file_id) db.files)) [
      | inl e ↦ stays (rw (e, activate_contract_after_customer_sign) refl)
      | inr (f, e) ↦
          rw (e, activate_contract_after_customer_sign)
            (transition_after_customer_approval-Transition env remote f.contract_id db)
    ]

pub confirm_contract_terms-Transition :
    (env : Env) (remote : Remote) (customer_id i : ℕ) (db : Db)
    → Transition db.contracts
        (confirm_contract_terms env remote (λ d. d) customer_id i db).1.contracts
unfolding confirm_contract_terms
confirm_contract_terms-Transition env remote customer_id i db =
    elim (Option-cases (find_first (of_customer customer_id i) db.contracts)) [
      | inl e ↦ stays (rw (e, confirm_contract_terms) refl)
      | inr (c, e) ↦ elim (Bool-cases c.require_signature) [
        | inl k ↦ stays (rw (e, confirm_contract_terms, k) refl)
        | inr k ↦
            rw (e, confirm_contract_terms, k)
              (transition_after_customer_approval-Transition env remote c.id db)
      ]
    ]
