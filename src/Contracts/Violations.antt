-- ===== src/Contracts/Violations.antt =====
-- apps/contract-service/src/violations: `createReport`, `createAppeal` and `handleAction` of
-- violations.service.ts, and `createViolationReport` of customer.violations.service.ts.
use service_hub_backend.Reliability.Outbox.{PublishOptions}
use service_hub_backend.Base.Table.{find_first, update_many}
use service_hub_backend.Base.Text.{Text, codes}
use service_hub_backend.Contracts.Rows.{
  fine, provider, reported, terminate_contract, Contract, Db, Env, Remote, Response,
  ViolationAction, ViolationActionType, ViolationCase, ViolationCaseStatus, ViolationRule,
  ViolationTargetType, answered, change_contract, contract_has_id, is_active_status, key_member,
  key_member?, publish, raised, rejected, resolved, terminated, text_member,
}
use service_hub_backend.Reliability.Json.{end, field, num, obj}
use service_hub_backend.Contracts.Restrictions.{new_restriction, restricts}
use service_hub_backend.Contracts.Provider.{contract_event, move_to}
use service_hub_backend.Base.{
  Bool, List, Option, [], false, if◌then◌else◌, none, not, or_else, some, true, ℕ, ◌&&◌, ◌++◌, ◌==◌,
  ◌||◌, ◌∷◌,
}

abbrev pub action_is_fine : ViolationActionType → Bool
action_is_fine fine = true
action_is_fine _ = false

abbrev pub terminates : ViolationActionType → Bool
terminates terminate_contract = true
terminates _ = false

abbrev pub is_reported : ViolationCaseStatus → Bool
is_reported reported = true
is_reported _ = false

abbrev pub targets_customer : ViolationTargetType → Bool
targets_customer provider = false
targets_customer _ = true

abbrev pub case_has_id : ℕ → ViolationCase → Bool
case_has_id i c = c.id == i

-- `amount` is absent or zero: none.
pub record ActionData : Type 0 where
  pub provider_id : ℕ
  pub violation_case_id : ℕ
  pub action_type : ViolationActionType
  pub description : Text
  pub performed_by : ℕ
  pub resolve_violation : Bool
  pub create_restriction : Bool
  pub amount : Option ℕ

-- `violationRule: { targetType: { in: ['CUSTOMER', 'BOTH'] } }`
rule_allows : ℕ → List ViolationRule → Bool
rule_allows rule_id rules = elim (find_first (λ r. r.id == rule_id) rules) [
  | none ↦ false
  | some r ↦ targets_customer r.target_type
]

pub is_actionable : ActionData → List ViolationRule → ViolationCase → Bool
unfolding rule_allows
is_actionable d rules c =
    c.id == d.violation_case_id
    && (c.provider_id == d.provider_id
        && (is_reported c.status
            && (c.reported_by == d.performed_by || rule_allows c.violation_rule_id rules)))

pub terminated_event : Env → ActionData → Contract → PublishOptions
unfolding contract_event
terminated_event env d c = contract_event env (codes "contract.terminated.v1") c (
    key_member env (codes "contractId") c.id (
      text_member (codes "contractNumber") c.contract_number (
        key_member env (codes "providerId") d.provider_id (
          key_member env (codes "customerId") c.customer_id (
            key_member? env (codes "roomId") c.room_id (
              text_member (codes "reason") d.description
                (key_member env (codes "violationCaseId") d.violation_case_id end)))))))

-- 200 000 dong where no amount is given. `amount_text` prints an amount.
pub fine_event : Env → (ℕ → Text) → ActionData → ViolationCase → Contract → PublishOptions
fine_event env amount_text d v c = record {
  event_type = codes "violation.fine_imposed.v1";
  source = none;
  subject = none;
  ordering_key = none;
  aggregate_type = codes "ViolationCase";
  aggregate_id = env.uuid v.id;
  aggregate_revision = some 1;
  payload = obj (
      key_member env (codes "violationCaseId") v.id (
        key_member env (codes "contractId") v.contract_id (
          key_member env (codes "providerId") d.provider_id (
            key_member env (codes "customerId") c.customer_id (
              field (codes "fineAmount") (num (amount_text (or_else d.amount 20000000)))
                (text_member (codes "reason") d.description end))))));
  correlation_id = none;
}

new_action : Env → ActionData → ViolationCase → ViolationAction
new_action env d v = record {
  id = env.action_key;
  violation_case_id = v.id;
  performed_by = d.performed_by;
  action_type = d.action_type;
  reason = d.description;
  amount = d.amount;
  created_at = env.now;
}

-- The parts of the transaction, in their order; each runs under its own condition.
unfoldable pub add_action : Env → ActionData → ViolationCase → Db → Db
unfolding new_action
add_action env d v db = record db { actions = db.actions ++ (new_action env d v ∷ []) }

unfoldable pub end_contract : Env → ActionData → Contract → Db → Db
unfolding publish change_contract terminated_event
end_contract env d c db =
    if terminates d.action_type
    then publish env (terminated_event env d (move_to terminated env.now c))
        (change_contract c.id (move_to terminated env.now) db)
    else db

unfoldable pub announce_fine : Env → (ℕ → Text) → ActionData → ViolationCase → Contract → Db → Db
unfolding publish fine_event
announce_fine env amount_text d v c db =
    if action_is_fine d.action_type then publish env (fine_event env amount_text d v c) db else db

unfoldable pub restrict_customer : Env → ActionData → Contract → Db → Db
restrict_customer env d c db =
    if terminates d.action_type && d.create_restriction
    then elim (find_first (restricts env.now d.provider_id c.customer_id) db.restrictions) [
      | some r ↦ db
      | none ↦ record db {
        restrictions =
            db.restrictions
            ++ (new_restriction env env.action_key d.provider_id c.customer_id d.performed_by
                  d.description
                ∷ []);
      }
    ]
    else db

unfoldable pub resolve_case : Env → ActionData → ViolationCase → Db → Db
resolve_case env d v db =
    if d.resolve_violation || terminates d.action_type
    then record db {
      cases =
          update_many (case_has_id v.id) (λ x. record x { status = resolved; updated_at = env.now })
            db.cases;
    }
    else db

unfoldable pub act : Env → (ℕ → Text) → ActionData → ViolationCase → Contract → Db → Db
unfolding add_action end_contract announce_fine restrict_customer resolve_case
act env amount_text d v c db = resolve_case env d v (
    restrict_customer env d c
      (announce_fine env amount_text d v c (end_contract env d c (add_action env d v db))))

-- A serializable transaction, then a notification after a termination. The case's contract exists:
-- its column is a foreign key.
unfoldable pub handle_action : Env → (ℕ → Text) → Remote → ActionData → Db → Response Unit × Db
unfolding is_actionable act
handle_action env amount_text remote d db = elim (find_first (is_actionable d db.rules) db.cases) [
  | none ↦ (rejected 404, db)
  | some v ↦ elim (find_first (contract_has_id v.contract_id) db.contracts) [
    | none ↦ (raised, db)
    | some c ↦
        if terminates d.action_type && not (is_active_status c.status)
        then (rejected 400, db)
        else if terminates d.action_type && not remote.notifies
        then (raised, act env amount_text d v c db)
        else (answered tt, act env amount_text d v c db)
  ]
]
