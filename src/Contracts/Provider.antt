-- ===== src/Contracts/Provider.antt =====
-- apps/contract-service/src/contracts/provider.contracts.service.ts: `sendContract`,
-- `revokeContract`, `cancelContract` and the events they publish.
-- The status is read before the transaction and the row is then updated by its key alone;
-- `between` is what others commit meanwhile.
use service_hub_backend.Base.{
  ℕ, ◌+◌, Bool, true, false, ◌&&◌, ◌||◌, not, List, [], ◌∷◌, Option, none, some, ◌==◌, ltb, leb,
  if◌then◌else◌, length,
}
use service_hub_backend.Base.Text.{Text, codes, is_empty}
use service_hub_backend.Base.Table.{find_first, count}
use service_hub_backend.Reliability.Json.{Fields, obj, end}
use service_hub_backend.Reliability.Outbox.{PublishOptions}
use service_hub_backend.Contracts.Rows.{
  ContractStatus, draft, pending_signature, cancelled, Contract, ContractService, ContractFile, Db,
  Env, Remote, Response, answered, rejected, raised, contract_has_id, is_draft,
  is_pending_signature, key_member, key_member?, bool_member, text_member, publish, change_contract,
}

-- `findFirst({ where: { id, providerId } })`
abbrev pub of_provider : ℕ → ℕ → Contract → Bool
of_provider provider_id contract_id c = c.id == contract_id && c.provider_id == provider_id

abbrev pub file_of : ℕ → ContractFile → Bool
file_of contract_id file = file.contract_id == contract_id

abbrev pub service_of : ℕ → ContractService → Bool
service_of contract_id s = s.contract_id == contract_id

-- `findFirst` with `orderBy: { id: 'desc' }`.
pub last_file : ℕ → List ContractFile → Option ContractFile
last_file contract_id [] = none
last_file contract_id (x ∷ xs) =
    let rest = last_file contract_id xs in
    if x.contract_id == contract_id
    then elim rest [ none ↦ some x | some y ↦ if leb y.id x.id then some x else some y ]
    else rest

-- `startsWith`
unfoldable pub starts_with : Text → Text → Bool
starts_with [] s = true
starts_with (x ∷ xs) [] = false
starts_with (x ∷ xs) (y ∷ ys) = x == y && starts_with xs ys

unfoldable pub is_request_draft : Text → Bool
unfolding starts_with
is_request_draft n = starts_with (codes "YCDV-") n || starts_with (codes "CTR-") n

-- `data: { status, updatedAt, revision: { increment: 1 } }`
abbrev pub move_to : ContractStatus → ℕ → Contract → Contract
move_to s now c = record c { status = s; updated_at = now; revision = c.revision + 1 }

-- What the events have in common.
unfoldable pub contract_event : Env → Text → Contract → Fields → PublishOptions
contract_event env event_type c payload = record {
  event_type = event_type;
  source = none;
  subject = none;
  ordering_key = none;
  aggregate_type = codes "Contract";
  aggregate_id = env.uuid c.id;
  aggregate_revision = some c.revision;
  payload = obj payload;
  correlation_id = none;
}

-- The members that every event but the failure of an activation begins with.
abbrev pub party_members : Env → Contract → Fields → Fields
party_members env c rest = key_member env (codes "contractId") c.id (
    text_member (codes "contractNumber") c.contract_number (
      key_member env (codes "providerId") c.provider_id (
        key_member env (codes "customerId") c.customer_id
          (key_member? env (codes "roomId") c.room_id rest))))

pub sent_event : Env → Contract → PublishOptions
unfolding contract_event
sent_event env c = contract_event env (codes "contract.sent_for_signing.v1") c (
    party_members env c (
      bool_member (codes "requireSignature") c.require_signature
        (text_member (codes "status") (codes "PENDING_SIGNATURE") end)))

pub cancelled_event : Env → Text → Contract → PublishOptions
unfolding contract_event
cancelled_event env reason c =
    contract_event env (codes "contract.cancelled.v1") c
      (party_members env c (text_member (codes "reason") reason end))

-- `tx.contract.update` answers the row as it is then; without a row it throws.
unfoldable pub update_and_publish :
    Env → ℕ → (Contract → Contract) → (Contract → PublishOptions) → Db → Option (Contract × Db)
unfolding publish change_contract
update_and_publish env contract_id f event db =
    elim (find_first (contract_has_id contract_id) db.contracts) [
      | none ↦ none
      | some c ↦ some (f c, publish env (event (f c)) (change_contract contract_id f db))
    ]

-- Whether the signature service vouches for the provider; a failed call vouches for nobody.
pub provider_signed : Remote → ContractFile → Bool
provider_signed remote file = elim (remote.verify_contract file.id) [
  | none ↦ false
  | some v ↦ v.provider_signed
]

-- Without a signing file `createSigningFile` is given the row without its services, and
-- `contract.services.map` throws.
unfoldable pub file_check : Remote → Contract → Db → Response Contract
unfolding last_file provider_signed
file_check remote c db = elim (last_file c.id db.files) [
  | none ↦ raised
  | some file ↦
      if c.require_signature && not (provider_signed remote file) then rejected 400 else answered c
]

-- The checks of `sendContract` on the row.
unfoldable pub row_checks : Remote → Contract → Db → Response Contract
unfolding is_request_draft file_check
row_checks remote c db =
    if not (is_draft c.status)
    then rejected 400
    else if is_request_draft c.contract_number
    then rejected 400
    else if count (service_of c.id) db.services == 0
    then rejected 400
    else file_check remote c db

unfoldable pub send_checks : Remote → ℕ → ℕ → Db → Response Contract
unfolding row_checks
send_checks remote provider_id contract_id db =
    elim (find_first (of_provider provider_id contract_id) db.contracts) [
      | none ↦ rejected 404
      | some c ↦ row_checks remote c db
    ]

-- The customer is notified after the commit: a refused notification fails the call.
abbrev pub after_notice : Remote → Contract → Db → Response Contract × Db
after_notice remote c db = if remote.notifies then (answered c, db) else (raised, db)

unfoldable pub commit_and_notify :
    Env
    → Remote
    → ℕ
    → (Contract → Contract)
    → (Contract → PublishOptions)
    → Db
    → Response Contract × Db
unfolding update_and_publish
commit_and_notify env remote contract_id f event db =
    elim (update_and_publish env contract_id f event db) [
      | none ↦ (raised, db)
      | some (c, db') ↦ after_notice remote c db'
    ]

unfoldable pub send_contract : Env → Remote → (Db → Db) → ℕ → ℕ → Db → Response Contract × Db
unfolding send_checks commit_and_notify sent_event
send_contract env remote between provider_id contract_id db =
    elim (send_checks remote provider_id contract_id db) [
      | answered c ↦
          commit_and_notify env remote contract_id (move_to pending_signature env.now)
            (sent_event env) (between db)
      | rejected code ↦ (rejected code, db)
      | raised ↦ (raised, db)
    ]

abbrev pub revoked : ℕ → Contract → Contract
revoked now c = record c { status = draft; updated_at = now }

unfoldable pub revoke_contract : Env → (Db → Db) → ℕ → ℕ → Db → Response Unit × Db
unfolding change_contract
revoke_contract env between provider_id contract_id db =
    elim (find_first (of_provider provider_id contract_id) db.contracts) [
      | none ↦ (rejected 404, db)
      | some c ↦
          if not (is_pending_signature c.status)
          then (rejected 400, db)
          else (answered tt, change_contract contract_id (revoked env.now) (between db))
    ]

-- `reason` is the text after `trim`, which is empty where none is given.
unfoldable pub cancel_checks : ℕ → ℕ → Text → Db → Response Contract
cancel_checks provider_id contract_id reason db =
    if is_empty reason
    then rejected 400
    else if ltb 2000 (length reason)
    then rejected 400
    else elim (find_first (of_provider provider_id contract_id) db.contracts) [
      | none ↦ rejected 404
      | some c ↦ if not (is_draft c.status) then rejected 400 else answered c
    ]

unfoldable pub cancel_contract :
    Env → Remote → (Db → Db) → ℕ → ℕ → Text → Db → Response Contract × Db
unfolding cancel_checks commit_and_notify cancelled_event
cancel_contract env remote between provider_id contract_id reason db =
    elim (cancel_checks provider_id contract_id reason db) [
      | answered c ↦
          commit_and_notify env remote contract_id (move_to cancelled env.now)
            (cancelled_event env reason) (between db)
      | rejected code ↦ (rejected code, db)
      | raised ↦ (raised, db)
    ]
