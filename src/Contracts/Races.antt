-- ===== src/Contracts/Races.antt =====
-- What becomes of two operations on a contract that overlap.
use service_hub_backend.Contracts.Prepaid.{give_up}
use service_hub_backend.Contracts.Customer.{of_customer}
use service_hub_backend.Contracts.Booking.{
  cancel_commit, cancel_service, is_cancellable, of_customer_in,
}
use service_hub_backend.Contracts.Provider.{
  commit_and_notify, move_to, send_checks, send_contract, update_and_publish,
}
use service_hub_backend.Base.Table.{
  count, find_first, find_first-update_many, find_first_holds, update_many, update_many_none,
}
use service_hub_backend.Base.{
  ==_iff, Bool-cases, arith, false, inl, inr, refl, some, true, ℕ, ◌+◌, ◌||◌, ◌∙◌, ◌≡◌,
}
use service_hub_backend.Contracts.Rows.{
  Contract, Env, Remote, answered, change_contract, contract_has_id, is_draft, is_pending_payment,
  is_pending_signature, pending_signature, publish, rejected, Db,
}

-- `sendContract` reads the status before its transaction and does not check it again: a contract
-- that has passed the checks and is changed in between, say cancelled by its customer, is put to
-- PENDING_SIGNATURE at its next revision all the same.
pub send_contract_raced :
    (env : Env) (remote : Remote) (between : Db → Db) (p i : ℕ) (db : Db) (c d : Contract)
    → send_checks remote p i db ≡ answered c
    → find_first (contract_has_id i) (between db).contracts ≡ some d
    → find_first (contract_has_id i) (send_contract env remote between p i db).1.contracts
      ≡ some
          (record d { status = pending_signature; updated_at = env.now; revision = d.revision + 1 })
unfolding send_contract commit_and_notify update_and_publish publish change_contract
send_contract_raced env remote between p i db c d checked found =
    let is_i : d.id ≡ i =
      (==_iff d.id i).0 (find_first_holds (contract_has_id i) (between db).contracts found) in
    let moved : find_first (contract_has_id i) (
          update_many (contract_has_id i) (move_to pending_signature env.now)
            (between db).contracts)
        ≡ some (move_to pending_signature env.now d) =
      find_first-update_many (contract_has_id i) (contract_has_id i)
        (move_to pending_signature env.now) (between db).contracts (λ x. refl)
      ∙ rw found (ground (arith, is_i)) in
    elim (Bool-cases remote.notifies) [
      | inl k ↦ rw (send_contract, checked, commit_and_notify, update_and_publish, found, k) moved
      | inr k ↦ rw (send_contract, checked, commit_and_notify, update_and_publish, found, k) moved
    ]

-- `cancelService` puts the status that it read into the condition of its update: where it has
-- changed, the call is refused with 409 and changes nothing.
cancel_service_raced :
    (env : Env) (remote : Remote) (between : Db → Db) (customer_id i : ℕ) (db : Db) (c : Contract)
    → find_first (of_customer customer_id i) db.contracts ≡ some c
    → is_draft c.status || is_pending_signature c.status ≡ true
    → count (of_customer_in c.status customer_id i) (between db).contracts ≡ 0
    → ((cancel_service env remote between customer_id i db).0 ≡ rejected 409)
      × ((cancel_service env remote between customer_id i db).1.contracts ≡ (between db).contracts)
unfolding cancel_service cancel_commit
cancel_service_raced env remote between customer_id i db c found was gone =
    let may : is_cancellable c.status ≡ true = ground (arith, was) in
    let waits : is_pending_payment c.status ≡ false = ground (arith, was) in
    let same =
      update_many_none (of_customer_in c.status customer_id i) (give_up env.now)
        (between db).contracts gone in
    rw (cancel_service, found, may, waits, cancel_commit, gone) (refl, same)
