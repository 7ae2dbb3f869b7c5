-- ===== src/Contracts/Rows.antt =====
-- The tables of apps/contract-service that the modelled operations read or write, and the answers
-- of other services. Keys are only compared, so they are numbers; times are milliseconds, and
-- every call reads the clock once. Money is in hundredths of a dong.
use service_hub_backend.Base.{
  inl, inr, refl, ◌≡◌, ◌⊎◌, ℕ, Bool, true, false, ◌||◌, List, Option, none, some, ◌==◌,
}
use service_hub_backend.Base.Text.{Text}
use service_hub_backend.Base.Table.{update_many}
use service_hub_backend.Reliability.Json.{Fields, null, bool, str, field}
use service_hub_backend.Reliability.Outbox.{Platform, OutboxRow, PublishOptions, publish_local}

pub data ContractStatus : Type 0 where
  draft pending_signature active expired terminated cancelled pending_payment : ContractStatus

pub record Contract : Type 0 where
  pub id : ℕ
  pub contract_number : Text
  pub provider_id : ℕ
  pub room_id : Option ℕ
  pub customer_id : ℕ
  pub start_date : ℕ
  pub end_date : Option ℕ
  pub status : ContractStatus
  pub revision : ℕ
  pub require_signature : Bool
  pub signed_at : Option ℕ
  pub created_at : ℕ
  pub updated_at : ℕ

pub record ContractService : Type 0 where
  pub contract_id : ℕ
  pub service_price_id : ℕ
  pub quantity : Option ℕ
  pub created_at : ℕ

pub record ContractFile : Type 0 where
  pub id : ℕ
  pub contract_id : ℕ
  pub pdf_url : Text
  pub hash_contract : Option Text

pub record ContractTerm : Type 0 where
  pub contract_id : ℕ
  pub term_id : ℕ
  pub created_at : ℕ

pub record Term : Type 0 where
  pub id : ℕ
  pub is_active : Bool

pub record ContractTemplate : Type 0 where
  pub id : ℕ
  pub provider_id : Option ℕ

pub data ViolationCaseStatus : Type 0 where
  reported rejected resolved cancelled : ViolationCaseStatus

pub data ViolationTargetType : Type 0 where
  customer provider both : ViolationTargetType

pub record ViolationRule : Type 0 where
  pub id : ℕ
  pub name : Text
  pub target_type : ViolationTargetType
  pub is_active : Bool

pub record ViolationCase : Type 0 where
  pub id : ℕ
  pub violation_rule_id : ℕ
  pub contract_id : ℕ
  pub provider_id : ℕ
  pub reported_by : ℕ
  pub service_id : Option ℕ
  pub status : ViolationCaseStatus
  pub description : Text
  pub evidence : List Text
  pub occurred_at : ℕ
  pub created_at : ℕ
  pub updated_at : ℕ

pub data ViolationActionType : Type 0 where
  warning request_correction fine restrict terminate_contract no_action : ViolationActionType

pub record ViolationAction : Type 0 where
  pub id : ℕ
  pub violation_case_id : ℕ
  pub performed_by : ℕ
  pub action_type : ViolationActionType
  pub reason : Text
  pub amount : Option ℕ
  pub created_at : ℕ

pub data RestrictionScopeType : Type 0 where
  platform provider service : RestrictionScopeType

pub record Restriction : Type 0 where
  pub id : ℕ
  pub violation_action_id : ℕ
  pub provider_id : Option ℕ
  pub customer_id : Option ℕ
  pub service_id : Option ℕ
  pub scope_type : RestrictionScopeType
  pub reason : Text
  pub start_at : ℕ
  pub end_at : Option ℕ
  pub created_by : ℕ
  pub is_deleted : Bool

pub data AppealStatus : Type 0 where
  pending approved rejected cancelled : AppealStatus

pub record ViolationAppeal : Type 0 where
  pub id : ℕ
  pub violation_case_id : ℕ
  pub appellant_id : ℕ
  pub reason : Text
  pub status : AppealStatus
  pub created_at : ℕ

-- A command that is sent to the billing service.
pub data BillingCall : Type 0 where
  create_prepayment_invoice : ℕ → ℕ → ℕ → ℕ → ℕ → Text → ℕ → BillingCall
  cancel_prepayment_invoice delete_prepayment_invoice : ℕ → BillingCall

-- The tables, and the commands that the billing service has carried out, the latest first.
pub record Db : Type 0 where
  pub contracts : List Contract
  pub services : List ContractService
  pub files : List ContractFile
  pub terms : List ContractTerm
  pub known_terms : List Term
  pub templates : List ContractTemplate
  pub rules : List ViolationRule
  pub cases : List ViolationCase
  pub actions : List ViolationAction
  pub appeals : List ViolationAppeal
  pub restrictions : List Restriction
  pub outbox : List OutboxRow
  pub billing : List BillingCall

-- What a call takes from outside: the runtime's functions, the outbox secret, the clock and the
-- keys that the database gives to new rows.
pub record Env : Type 0 where
  pub platform : Platform
  pub secret : Text
  pub now : ℕ
  pub uuid : ℕ → Text
  pub outbox_key : ℕ
  pub contract_key : ℕ
  pub file_key : ℕ
  pub rule_key : ℕ
  pub case_key : ℕ
  pub action_key : ℕ
  pub restriction_key : ℕ

pub record Verification : Type 0 where
  pub provider_signed : Bool
  pub customer_signed : Bool

pub record PriceDetail : Type 0 where
  pub price : ℕ
  pub unit : Text
  pub service_id : ℕ
  pub provider_id : ℕ
  pub is_one_time : Bool

-- The other services: the signatures of a file (`none` where the call fails), the details of a
-- price (the outer `none` where the call fails), whether a command to the billing service
-- succeeds, and whether a notification is accepted.
pub record Remote : Type 0 where
  pub verify_contract : ℕ → Option Verification
  pub price_details : ℕ → Option (Option PriceDetail)
  pub carries_out : BillingCall → Bool
  pub notifies : Bool

-- The answer of a call: a value, an `RpcException` or `HttpException` with its status code, or
-- another exception, which the caller sees as a failure of the service.
pub data Response (A : Type 0) : Type 0 where
  answered : A → Response A
  rejected : ℕ → Response A
  raised : Response A

pub Response-cases :
    {A : Type 0} (r : Response A)
    → ((a : A) × (r ≡ answered a)) ⊎ ((code : ℕ) × (r ≡ rejected code)) ⊎ (r ≡ raised)
Response-cases (answered a) = inl (a, refl)
Response-cases (rejected code) = inr (inl (code, refl))
Response-cases raised = inr (inr refl)

abbrev pub contract_has_id : ℕ → Contract → Bool
contract_has_id i contract = contract.id == i

abbrev pub is_draft : ContractStatus → Bool
is_draft draft = true
is_draft _ = false

abbrev pub is_pending_signature : ContractStatus → Bool
is_pending_signature pending_signature = true
is_pending_signature _ = false

abbrev pub is_pending_payment : ContractStatus → Bool
is_pending_payment pending_payment = true
is_pending_payment _ = false

abbrev pub is_active_status : ContractStatus → Bool
is_active_status active = true
is_active_status _ = false

abbrev pub is_expired : ContractStatus → Bool
is_expired expired = true
is_expired _ = false

abbrev pub is_terminated : ContractStatus → Bool
is_terminated terminated = true
is_terminated _ = false

abbrev pub is_cancelled : ContractStatus → Bool
is_cancelled cancelled = true
is_cancelled _ = false

-- The statuses in which a contract holds its room.
abbrev pub is_open : ContractStatus → Bool
is_open s = is_draft s || (is_pending_signature s || (is_pending_payment s || is_active_status s))

-- Members of the JSON payloads; `null` stands for an absent key.
abbrev pub key_member : Env → Text → ℕ → Fields → Fields
key_member env k i rest = field k (str (env.uuid i)) rest

abbrev pub key_member? : Env → Text → Option ℕ → Fields → Fields
key_member? env k none rest = field k null rest
key_member? env k (some i) rest = field k (str (env.uuid i)) rest

abbrev pub bool_member : Text → Bool → Fields → Fields
bool_member k b rest = field k (bool b) rest

abbrev pub text_member : Text → Text → Fields → Fields
text_member k s rest = field k (str s) rest

-- `outboxService.publishLocal` in the transaction.
unfoldable pub publish : Env → PublishOptions → Db → Db
publish env o db = record db {
  outbox = (publish_local env.platform env.secret env.now env.outbox_key o db.outbox).1;
}

-- `contract.update` on the key.
unfoldable pub change_contract : ℕ → (Contract → Contract) → Db → Db
change_contract i f db = record db { contracts = update_many (contract_has_id i) f db.contracts }
