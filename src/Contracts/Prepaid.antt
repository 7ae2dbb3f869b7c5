-- ===== src/Contracts/Prepaid.antt =====
-- apps/contract-service/src/contracts/customer.contracts.service.ts: the activation of a contract
-- that was prepaid, and the timer that runs every minute over the contracts awaiting a payment.
use service_hub_backend.Contracts.Customer.{
  check_signatures_complete, payment_window, request_prepayment, send_billing,
}
use service_hub_backend.Contracts.Rows.{
  Contract, ContractService, ContractStatus, Db, Env, Remote, Response, active, answered, cancelled,
  change_contract, contract_has_id, delete_prepayment_invoice, is_active_status, is_pending_payment,
  raised, rejected,
}
use service_hub_backend.Contracts.Provider.{service_of}
use service_hub_backend.Base.Table.{find_first, find_many, update_many}
use service_hub_backend.Base.{
  [], Bool, List, Option, false, if◌then◌else◌, is_some, leb, length, ltb, map, none, not, some,
  true, ℕ, ◌&&◌, ◌+◌, ◌==◌, ◌∷◌,
}

-- `activateContractAfterPrepayment`: the update is by key alone, after the checks.
unfoldable pub activate_contract_after_prepayment :
    Env → Remote → (Db → Db) → ℕ → Db → Response ContractStatus × Db
unfolding check_signatures_complete change_contract
activate_contract_after_prepayment env remote between contract_id db =
    elim (find_first (contract_has_id contract_id) db.contracts) [
      | none ↦ (rejected 404, db)
      | some c ↦
          if is_active_status c.status
          then (answered active, db)
          else if not (is_pending_payment c.status)
          then (rejected 409, db)
          else if not
              (check_signatures_complete remote contract_id c.require_signature db).fully_signed
          then (rejected 400, db)
          else (
            answered active,
            change_contract contract_id (λ x. record x { status = active; updated_at = env.now })
                (between db),
          )
    ]

-- `signedAt: { lte: deadlineCutoff }`, which no NULL satisfies. The cutoff is `now - 2 h`.
abbrev pub signed_before : ℕ → Contract → Bool
signed_before now c = elim c.signed_at [ none ↦ false | some t ↦ leb (t + payment_window) now ]

abbrev pub is_overdue : ℕ → Contract → Bool
is_overdue now c = is_pending_payment c.status && signed_before now c

abbrev pub give_up : ℕ → Contract → Contract
give_up now c = record c { status = cancelled; updated_at = now }

-- One round of the loop; an answer that is a failure ends the loop.
unfoldable pub expire_contract : Env → Remote → ℕ → Db → Option Db
unfolding send_billing
expire_contract env remote i db =
    let (answer, db') = send_billing remote (delete_prepayment_invoice i) db in
    elim answer [
      | answered u ↦ some (record db' {
        contracts =
            update_many (λ c. c.id == i && is_overdue env.now c) (give_up env.now) db'.contracts;
      })
      | rejected code ↦ none
      | raised ↦ none
    ]

-- The loop, and whether it came to its end.
unfoldable pub expire_all : Env → Remote → List ℕ → Db → Bool × Db
unfolding expire_contract
expire_all env remote [] db = (true, db)
expire_all env remote (i ∷ is) db = elim (expire_contract env remote i db) [
  | none ↦ (false, db)
  | some db' ↦ expire_all env remote is db'
]

abbrev pub keys_of : List Contract → List ℕ
keys_of = map (λ c. c.id)

unfoldable pub expire_pending_prepayment_contracts : Env → Remote → Db → Response ℕ × Db
unfolding expire_all
expire_pending_prepayment_contracts env remote db =
    let is = keys_of (find_many (is_overdue env.now) db.contracts) in
    let (ended, db') = expire_all env remote is db in
    if ended then (answered (length is), db') else (raised, db')

-- `signedAt: { gt: … }` and `services: { some: {} }`.
abbrev pub is_awaited : ℕ → List ContractService → Contract → Bool
is_awaited now services c =
    is_pending_payment c.status
    && (elim c.signed_at [ none ↦ false | some t ↦ ltb now (t + payment_window) ]
        && is_some (find_first (service_of c.id) services))

-- The failures of the requests are caught one by one.
unfoldable pub request_all : Remote → List Contract → Db → Db
unfolding request_prepayment
request_all remote [] db = db
request_all remote (c ∷ cs) db = request_all remote cs (request_prepayment remote c db).1

unfoldable pub process_prepayment_deadlines : Env → Remote → Db → Response Unit × Db
unfolding expire_pending_prepayment_contracts request_all
process_prepayment_deadlines env remote db =
    let (answer, db') = expire_pending_prepayment_contracts env remote db in
    elim answer [
      | answered n ↦ (
        answered tt,
        request_all remote (find_many (is_awaited env.now db'.services) db'.contracts) db',
      )
      | rejected code ↦ (rejected code, db')
      | raised ↦ (raised, db')
    ]
