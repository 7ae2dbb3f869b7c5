-- ===== src/Contracts/Activation.antt =====
-- apps/contract-service/src/contracts/provider.contracts.service.ts, `handleInvoicePaidEvent`: a
-- paid invoice activates its contract, or its refund is asked for.
-- No other transaction changes the contract between the query and the update; the sending of
-- realtime messages is not modelled.
pub mod Paid
use service_hub_backend.Base.Table.{find_first}
use service_hub_backend.Reliability.Json.{end}
use service_hub_backend.Reliability.Outbox.{PublishOptions}
use service_hub_backend.Base.Text.{codes}
use service_hub_backend.Reliability.Inbox.{Ending, InboxRow, consume}
use service_hub_backend.Contracts.Rows.{
  Contract, Db, Env, Remote, Verification, active, change_contract, contract_has_id,
  is_active_status, key_member, key_member?, publish, text_member,
}
use service_hub_backend.Billing.Sagas.{Event, claim_of}
use service_hub_backend.Base.{
  Bool, List, false, if◌then◌else◌, none, or_else, some, true, ◌&&◌, ◌+◌, Option, ℕ,
}
use service_hub_backend.Contracts.Provider.{contract_event, party_members, file_of}

-- The payload; an absent one has no keys.
pub record InvoicePaid : Type 0 where
  pub contract_id : Option ℕ
  pub invoice_id : Option ℕ

abbrev both_signed : Option Verification → Bool
both_signed none = false
both_signed (some v) = v.provider_signed && v.customer_signed

-- The first file of the contract is the one whose signatures count.
unfoldable pub fully_signed : Remote → Contract → Db → Bool
fully_signed remote c db =
    if c.require_signature
    then elim (find_first (file_of c.id) db.files) [
      | none ↦ false
      | some file ↦ both_signed (remote.verify_contract file.id)
    ]
    else true

-- `signedAt: contract.signedAt || now`
abbrev pub activated : ℕ → Contract → Contract
activated now c = record c {
  status = active;
  signed_at = some (or_else c.signed_at now);
  updated_at = now;
  revision = c.revision + 1;
}

-- Both events are ordered by their contract.
abbrev ordered : Env → Contract → PublishOptions → PublishOptions
ordered env c o = record o { ordering_key = some (env.uuid c.id) }

pub activated_event : Env → Contract → PublishOptions
activated_event env c = ordered env c (
    contract_event env (codes "contract.activated.v1") c
      (party_members env c (text_member (codes "activatedAt") (env.platform.iso env.now) end)))

pub activation_failed_event : Env → Option ℕ → Contract → PublishOptions
activation_failed_event env invoice_id c = ordered env c (
    contract_event env (codes "contract.activation_failed.v1") c (
      key_member env (codes "contractId") c.id (
        key_member? env (codes "invoiceId") invoice_id (
          text_member (codes "reason") (codes "Chưa hoàn tất chữ ký số 2 bên trước khi kích hoạt.")
            end))))

-- The contract is not active yet.
unfoldable pub settle_contract : Env → Remote → Option ℕ → Contract → Db → Db
unfolding fully_signed activated_event activation_failed_event
settle_contract env remote invoice_id c db =
    if fully_signed remote c db
    then publish env (activated_event env (activated env.now c))
        (change_contract c.id (activated env.now) db)
    else publish env (activation_failed_event env invoice_id c) db

unfoldable pub invoice_paid : Env → Remote → InvoicePaid → Db → Db
unfolding settle_contract
invoice_paid env remote p db = elim p.contract_id [
  | none ↦ db
  | some contract_id ↦ elim (find_first (contract_has_id contract_id) db.contracts) [
    | none ↦ db
    | some c ↦
        if is_active_status c.status then db else settle_contract env remote p.invoice_id c db
  ]
]

abbrev pub payload_of : Event InvoicePaid → InvoicePaid
payload_of e = or_else e.payload (record { contract_id = none; invoice_id = none })

-- `commits` is false where the database fails; the branches without a contract send nothing to it.
unfoldable pub paid_body : Env → Remote → Bool → Event InvoicePaid → Db → Option Db
unfolding invoice_paid
paid_body env remote commits e db = elim (payload_of e).contract_id [
  | none ↦ some db
  | some i ↦ if commits then some (invoice_paid env remote (payload_of e) db) else none
]

pub handle_invoice_paid_event :
    Env → Remote → Bool → Event InvoicePaid → List InboxRow → Db → Ending × List InboxRow × Db
unfolding paid_body
handle_invoice_paid_event env remote commits e inbox db =
    consume (claim_of (codes "contract-invoice-paid-consumer") e) env.now
      (paid_body env remote commits e) inbox db
