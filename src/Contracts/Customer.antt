-- ===== src/Contracts/Customer.antt =====
-- apps/contract-service/src/contracts/customer.contracts.service.ts: the booking of a service, its
-- cancellation, the customer's approval and the deadlines of prepaid contracts. `between` is what
-- others commit between the first query of a call and its update; the clock and the catalog do
-- not change within a call.
use service_hub_backend.Base.Table.{count, find_first, update_many}
use service_hub_backend.Base.{
  is_some, none, or_else, true, ◌∷◌, not, false, ◌&&◌, if◌then◌else◌, ◌==◌, some, Option, ℕ, Bool,
}
use service_hub_backend.Contracts.Provider.{service_of, last_file}
use service_hub_backend.Contracts.Rows.{
  is_cancelled, is_terminated, cancelled, contract_has_id, draft, expired, is_expired, terminated,
  create_prepayment_invoice, is_pending_payment, PriceDetail, is_pending_signature,
  is_active_status, active, Verification, BillingCall, pending_signature, pending_payment, is_draft,
  ContractService, Remote, Db, Contract, ContractStatus, Env, Response, answered, rejected, raised,
}

-- `findFirst({ where: { id, customerId } })`
abbrev pub of_customer : ℕ → ℕ → Contract → Bool
of_customer customer_id contract_id c = c.id == contract_id && c.customer_id == customer_id

-- Two hours.
abbrev pub payment_window : ℕ
payment_window = 7200000

pub record Signatures : Type 0 where
  pub fully_signed : Bool
  pub provider_signed : Bool
  pub customer_signed : Bool

abbrev pub signatures_of : Option Verification → Signatures
signatures_of none = record {
  fully_signed = false;
  provider_signed = false;
  customer_signed = false;
}
signatures_of (some v) = record {
  fully_signed = v.provider_signed && v.customer_signed;
  provider_signed = v.provider_signed;
  customer_signed = v.customer_signed;
}

unfoldable pub check_signatures_complete : Remote → ℕ → Bool → Db → Signatures
check_signatures_complete remote contract_id require_signature db =
    if not require_signature
    then record { fully_signed = true; provider_signed = true; customer_signed = true }
    else elim (last_file contract_id db.files) [
      | none ↦ signatures_of none
      | some file ↦ signatures_of (remote.verify_contract file.id)
    ]

-- A command to the billing service, which is carried out or fails.
unfoldable pub send_billing : Remote → BillingCall → Db → Response Unit × Db
send_billing remote call db =
    if remote.carries_out call
    then (answered tt, record db { billing = call ∷ db.billing })
    else (raised, db)

-- `quantity ?? 1`
abbrev prepayment : Contract → ContractService → PriceDetail → BillingCall
prepayment c s detail =
    create_prepayment_invoice c.id c.customer_id c.provider_id s.service_price_id
      (or_else s.quantity 1) detail.unit detail.price

-- `contract.services[0]` is the first row of the contract.
unfoldable pub request_prepayment : Remote → Contract → Db → Response Unit × Db
unfolding send_billing
request_prepayment remote c db = elim (find_first (service_of c.id) db.services) [
  | none ↦ (rejected 400, db)
  | some s ↦ elim (remote.price_details s.service_price_id) [
    | none ↦ (raised, db)
    | some none ↦ (rejected 400, db)
    | some (some detail) ↦
        if detail.is_one_time
        then send_billing remote (prepayment c s detail) db
        else (rejected 400, db)
  ]
]

-- `isPrepayment`; `none` where the call to the catalog fails.
pub is_prepayment : Remote → Contract → Db → Option Bool
is_prepayment remote c db = elim (find_first (service_of c.id) db.services) [
  | none ↦ some false
  | some s ↦ elim (remote.price_details s.service_price_id) [
    | none ↦ none
    | some none ↦ some false
    | some (some detail) ↦ some detail.is_one_time
  ]
]

-- The row of an approved contract.
abbrev pub approve_row : ContractStatus → ℕ → Contract → Contract
approve_row s now c = record c { status = s; signed_at = some now; updated_at = now }

unfoldable pub same_status : ContractStatus → ContractStatus → Bool
same_status draft s = is_draft s
same_status pending_signature s = is_pending_signature s
same_status pending_payment s = is_pending_payment s
same_status active s = is_active_status s
same_status expired s = is_expired s
same_status terminated s = is_terminated s
same_status cancelled s = is_cancelled s

abbrev pub in_status : ContractStatus → ℕ → Contract → Bool
unfolding same_status
in_status s contract_id c = c.id == contract_id && same_status s c.status

-- An answer with the result of an earlier command: its failure is the call's.
abbrev pub answer_with : {A : Type 0} → A → Response Unit × Db → Response A × Db
answer_with a (answered u, db) = (answered a, db)
answer_with a (rejected code, db) = (rejected code, db)
answer_with a (raised, db) = (raised, db)

-- `nextStatus`
abbrev pub next_status : Bool → Bool → ContractStatus
next_status true fully_signed = pending_payment
next_status false true = active
next_status false false = pending_signature

-- No row was updated: another transaction has moved the contract.
unfoldable pub approval_raced : Remote → Contract → Db → Response ContractStatus × Db
unfolding request_prepayment
approval_raced remote c db = elim (find_first (contract_has_id c.id) db.contracts) [
  | none ↦ (rejected 409, db)
  | some current ↦
      if is_pending_payment current.status && is_some current.signed_at
      then answer_with pending_payment (request_prepayment remote c db)
      else if is_active_status current.status
      then (answered active, db)
      else (rejected 409, db)
]

-- The guarded update and what follows it.
unfoldable pub approval_commit :
    Env → Remote → Bool → ContractStatus → Contract → Db → Response ContractStatus × Db
unfolding approval_raced request_prepayment
approval_commit env remote prepaid s c db =
    let q = in_status pending_signature c.id in
    let db' : Db = record db { contracts = update_many q (approve_row s env.now) db.contracts } in
    if count q db.contracts == 0
    then approval_raced remote c db
    else if prepaid
    then answer_with s (request_prepayment remote c db')
    else (answered s, db')

unfoldable pub approval_of : Env → Remote → (Db → Db) → Contract → Db → Response ContractStatus × Db
unfolding request_prepayment approval_commit check_signatures_complete is_prepayment
approval_of env remote between c db =
    if is_active_status c.status then (answered active, db) else elim (is_prepayment remote c db) [
      | none ↦ (raised, db)
      | some prepaid ↦
          if is_pending_payment c.status && is_some c.signed_at
          then answer_with c.status (request_prepayment remote c db)
          else if not (is_pending_signature c.status)
          then (rejected 409, db)
          else approval_commit env remote prepaid
              (next_status prepaid
                (check_signatures_complete remote c.id c.require_signature db).fully_signed)
              c (between db)
    ]

unfoldable pub transition_after_customer_approval :
    Env → Remote → (Db → Db) → ℕ → Db → Response ContractStatus × Db
unfolding approval_of
transition_after_customer_approval env remote between contract_id db =
    elim (find_first (contract_has_id contract_id) db.contracts) [
      | none ↦ (rejected 404, db)
      | some c ↦ approval_of env remote between c db
    ]

-- The signature service calls it after the customer has signed.
unfoldable pub activate_contract_after_customer_sign :
    Env → Remote → (Db → Db) → ℕ → Db → Response ContractStatus × Db
unfolding transition_after_customer_approval
activate_contract_after_customer_sign env remote between file_id db =
    elim (find_first (λ f. f.id == file_id) db.files) [
      | none ↦ (rejected 404, db)
      | some f ↦ transition_after_customer_approval env remote between f.contract_id db
    ]

unfoldable pub confirm_contract_terms :
    Env → Remote → (Db → Db) → ℕ → ℕ → Db → Response ContractStatus × Db
unfolding transition_after_customer_approval
confirm_contract_terms env remote between customer_id contract_id db =
    elim (find_first (of_customer customer_id contract_id) db.contracts) [
      | none ↦ (rejected 404, db)
      | some c ↦
          if c.require_signature
          then (rejected 400, db)
          else transition_after_customer_approval env remote between c.id db
    ]
