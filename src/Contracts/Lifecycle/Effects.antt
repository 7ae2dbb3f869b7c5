-- ===== src/Contracts/Lifecycle/Effects.antt =====
-- What each operation does to the table of contracts: nothing, or one update of it.
use service_hub_backend.Base.Text.{Text}
use service_hub_backend.Contracts.Keys.{HasUniqueKeys, find_by_key}
use service_hub_backend.Contracts.Lifecycle.Moves.{changes_status, Transition, stays}
use service_hub_backend.Contracts.Lifecycle.{Moves}
use service_hub_backend.Base.Table.{find_first, update_many}
use service_hub_backend.Contracts.Provider.{
  cancel_checks, cancel_contract, cancelled_event, revoke_contract, revoked, file_check, row_checks,
  commit_and_notify, last_file, move_to, of_provider, send_checks, send_contract, sent_event,
  update_and_publish,
}
use service_hub_backend.Reliability.Outbox.{PublishOptions}
use service_hub_backend.Contracts.Rows.{
  Response-cases, cancelled, is_pending_signature, Contract, Db, Env, Remote, Response, answered,
  change_contract, contract_has_id, is_draft, pending_signature, publish, rejected,
}
use service_hub_backend.Base.{
  Bool-cases, ap, false, if◌then◌else◌, not, ◌∙◌, Bool, List, Option-cases, arith, inl, inr, refl,
  some, true, ℕ, ◌≡◌, ◌⊎◌,
}

if_rejected :
    {A : Type 0} (b : Bool) (code : ℕ) (r : Response A) (a : A)
    → (if b then rejected code else r) ≡ answered a
    → (b ≡ false) × (r ≡ answered a)
if_rejected true code r a h = cc
if_rejected false code r a h = (refl, h)

file_check_answered :
    (remote : Remote) (x : Contract) (db : Db) (c : Contract)
    → file_check remote x db ≡ answered c
    → x ≡ c
unfolding file_check
file_check_answered remote x db c h = elim (Option-cases (last_file x.id db.files)) [
  | inl e ↦ ground (arith, rw (e, file_check) at h)
  | inr (y, e) ↦ ground (arith, rw (e, file_check) at h)
]

row_checks_answered :
    (remote : Remote) (x : Contract) (db : Db) (c : Contract)
    → row_checks remote x db ≡ answered c
    → (x ≡ c) × (not (is_draft x.status) ≡ false)
unfolding row_checks
row_checks_answered remote x db c h =
    let (was, h₁) = if_rejected _ 400 _ c h in
    let (_, h₂) = if_rejected _ 400 _ c h₁ in
    let (_, h₃) = if_rejected _ 400 _ c h₂ in (file_check_answered remote x db c h₃, was)

send_checks_answered :
    (remote : Remote) (p i : ℕ) (db : Db) (c : Contract)
    → send_checks remote p i db ≡ answered c
    → (find_first (of_provider p i) db.contracts ≡ some c) × (is_draft c.status ≡ true)
unfolding send_checks
send_checks_answered remote p i db c h =
    elim (Option-cases (find_first (of_provider p i) db.contracts)) [
      | inl e ↦ ground (arith, rw (e, send_checks) at h)
      | inr (x, e) ↦
          let (same_row, was) = row_checks_answered remote x db c (rw (e, send_checks) at h) in
          (e ∙ ap some same_row, ground (arith, same_row, was))
    ]

commit_and_notify_contracts :
    (env : Env) (remote : Remote) (i : ℕ) (f : Contract → Contract)
    (event : Contract → PublishOptions) (db : Db)
    → ((commit_and_notify env remote i f event db).1.contracts ≡ db.contracts)
      ⊎ ((commit_and_notify env remote i f event db).1.contracts
          ≡ update_many (contract_has_id i) f db.contracts)
unfolding commit_and_notify update_and_publish publish change_contract
commit_and_notify_contracts env remote i f event db =
    elim (Option-cases (find_first (contract_has_id i) db.contracts)) [
      | inl e ↦ inl (ground arith)
      | inr (x, e) ↦ inr (ground arith)
    ]

-- The row that a query with more conditions has found is the one with the key.
pub keyed :
    (p i : ℕ) (cs : List Contract) (c : Contract)
    → HasUniqueKeys cs
    → find_first (of_provider p i) cs ≡ some c
    → find_first (contract_has_id i) cs ≡ some c
keyed p i cs c u found =
    find_by_key (contract_has_id i) (of_provider p i) cs c (u i) (λ x h. ground (arith, h)) found

-- A change of one row by its key, or none.
committed :
    (env : Env) (remote : Remote) (i : ℕ) (f : Contract → Contract)
    (event : Contract → PublishOptions) (db : Db) (c : Contract)
    → ((x : Contract) → (f x).id ≡ x.id)
    → find_first (contract_has_id i) db.contracts ≡ some c
    → Moves c (f c)
    → (f c).room_id ≡ c.room_id
    → Transition db.contracts (commit_and_notify env remote i f event db).1.contracts
committed env remote i f event db c keep found moves room =
    elim (commit_and_notify_contracts env remote i f event db) [
      | inl e ↦ stays e
      | inr e ↦ changes_status i f c keep found moves room e
    ]

pub send_contract-Transition :
    (env : Env) (remote : Remote) (p i : ℕ) (db : Db)
    → HasUniqueKeys db.contracts
    → Transition db.contracts (send_contract env remote (λ d. d) p i db).1.contracts
unfolding send_contract
send_contract-Transition env remote p i db u = elim (Response-cases (send_checks remote p i db)) [
  | inr (inl (code, e)) ↦ stays (rw (e, send_contract) refl)
  | inr (inr e) ↦ stays (rw (e, send_contract) refl)
  | inl (c, e) ↦
      let (found, was) = send_checks_answered remote p i db c e in
      rw (e, send_contract)
        (committed env remote i (move_to pending_signature env.now) (sent_event env) db c
          (λ x. refl) (keyed p i db.contracts c u found) (ground (arith, was)) refl)
]

cancel_checks_answered :
    (p i : ℕ) (reason : Text) (db : Db) (c : Contract)
    → cancel_checks p i reason db ≡ answered c
    → (find_first (of_provider p i) db.contracts ≡ some c) × (is_draft c.status ≡ true)
unfolding cancel_checks
cancel_checks_answered p i reason db c h =
    elim (Option-cases (find_first (of_provider p i) db.contracts)) [
      | inl e ↦ ground (arith, rw (e, cancel_checks) at h)
      | inr (x, e) ↦ ground (arith, rw (e, cancel_checks) at h)
    ]

pub cancel_contract-Transition :
    (env : Env) (remote : Remote) (p i : ℕ) (reason : Text) (db : Db)
    → HasUniqueKeys db.contracts
    → Transition db.contracts (cancel_contract env remote (λ d. d) p i reason db).1.contracts
unfolding cancel_contract
cancel_contract-Transition env remote p i reason db u =
    elim (Response-cases (cancel_checks p i reason db)) [
      | inr (inl (code, e)) ↦ stays (rw (e, cancel_contract) refl)
      | inr (inr e) ↦ stays (rw (e, cancel_contract) refl)
      | inl (c, e) ↦
          let (found, was) = cancel_checks_answered p i reason db c e in
          rw (e, cancel_contract)
            (committed env remote i (move_to cancelled env.now) (cancelled_event env reason) db c
              (λ x. refl) (keyed p i db.contracts c u found) (ground (arith, was)) refl)
    ]

pub revoke_contract-Transition :
    (env : Env) (p i : ℕ) (db : Db)
    → HasUniqueKeys db.contracts
    → Transition db.contracts (revoke_contract env (λ d. d) p i db).1.contracts
unfolding revoke_contract change_contract
revoke_contract-Transition env p i db u =
    elim (Option-cases (find_first (of_provider p i) db.contracts)) [
      | inl e ↦ stays (rw (e, revoke_contract) refl)
      | inr (c, e) ↦ elim (Bool-cases (is_pending_signature c.status)) [
        | inr other ↦ stays (rw (e, revoke_contract, other) refl)
        | inl was ↦
            changes_status i (revoked env.now) c (λ x. refl) (keyed p i db.contracts c u e)
              (ground (arith, was)) refl (rw (e, revoke_contract, was) refl)
      ]
    ]
