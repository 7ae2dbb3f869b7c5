-- ===== src/Contracts/Tests.antt =====
-- The contract service at concrete tables.
use service_hub_backend.Billing.Sagas.{Event}
use service_hub_backend.Contracts.Lifecycle.Deadlines.{
  expire_pending_prepayment_contracts_none_left,
}
use service_hub_backend.Base.Table.{count, find_first}
use service_hub_backend.Contracts.Restrictions.Market.{get_marketplace_restrictions_clear}
use service_hub_backend.Contracts.Booking.{of_customer_in}
use service_hub_backend.Contracts.Customer.{same_status}
use service_hub_backend.Reliability.Inbox.{done}
use service_hub_backend.Reliability.Json.{obj, end}
use service_hub_backend.Reliability.Outbox.Publishing.{IsPublished}
use service_hub_backend.Reliability.Outbox.{Platform}
use service_hub_backend.Contracts.Races.{send_contract_raced}
use service_hub_backend.Contracts.Provider.{revoke_contract, send_checks, send_contract}
use service_hub_backend.Contracts.Restrictions.Blocking.{
  block_customer_blocks, lift_restriction_lifts,
}
use service_hub_backend.Base.Text.{codes}
use service_hub_backend.Contracts.Activation.Paid.{
  handle_invoice_paid_event_activates, settle_contract_again,
}
use service_hub_backend.Contracts.Prepaid.{expire_pending_prepayment_contracts, is_overdue}
use service_hub_backend.Contracts.Restrictions.{
  BlockCustomer, block_customer, check_provider_access, check_service_access,
  get_marketplace_restrictions, lift_restriction,
}
use service_hub_backend.Contracts.Lifecycle.Steps.{
  History, IsSound, Run-Follows, Run-IsSound, Run_closed, here, next, revokes, sends,
}
use service_hub_backend.Contracts.Activation.{
  InvoicePaid, fully_signed, handle_invoice_paid_event, settle_contract,
}
use service_hub_backend.Base.{[], any, arith, false, none, ◌+◌, refl, some, true, ◌==◌, ◌∷◌, ◌≡◌}
use service_hub_backend.Contracts.Rows.{
  Contract, ContractFile, ContractService, Env, PriceDetail, Remote, Verification, answered,
  cancelled, contract_has_id, draft, pending_payment, pending_signature, Db, active, key_member,
  key_member?, text_member,
}

abbrev platform : Platform
platform = record { iso = λ t. t ∷ []; sha256 = λ s. 1 ∷ s; hmac_sha256 = λ k s. 2 ∷ s }

abbrev env : Env
env = record {
  platform = platform;
  secret = codes "s";
  now = 9000000;
  uuid = λ i. i ∷ [];
  outbox_key = 41;
  contract_key = 50;
  file_key = 51;
  rule_key = 52;
  case_key = 53;
  action_key = 54;
  restriction_key = 55;
}

abbrev contract : Contract
contract = record {
  id = 6;
  contract_number = codes "HD-1";
  provider_id = 7;
  room_id = some 3;
  customer_id = 5;
  start_date = 0;
  end_date = none;
  status = draft;
  revision = 1;
  require_signature = true;
  signed_at = none;
  created_at = 10;
  updated_at = 10;
}

abbrev file : ContractFile
file = record { id = 61; contract_id = 6; pdf_url = codes "u"; hash_contract = some (codes "h") }

abbrev bed : ContractService
bed = record { contract_id = 6; service_price_id = 21; quantity = none; created_at = 10 }

abbrev tables : Db
tables = record {
  contracts = contract ∷ [];
  services = bed ∷ [];
  files = file ∷ [];
  terms = [];
  known_terms = [];
  templates = [];
  rules = [];
  cases = [];
  actions = [];
  appeals = [];
  restrictions = [];
  outbox = [];
  billing = [];
}

abbrev both : Verification
both = record { provider_signed = true; customer_signed = true }

abbrev one_time : PriceDetail
one_time = record {
  price = 900;
  unit = codes "m";
  service_id = 22;
  provider_id = 7;
  is_one_time = true;
}

abbrev remote : Remote
remote = record {
  verify_contract = λ i. some both;
  price_details = λ i. some (some one_time);
  carries_out = λ call. true;
  notifies = true;
}

abbrev silent : Remote
silent = record remote { verify_contract = λ i. none }

tables-IsSound : IsSound tables.contracts
tables-IsSound = record { keys = λ i. ground arith; rooms = λ p r. ground arith }

-- The contract is sent, and then the timer looks at it.
Run-IsSound_example :
    let sent = (send_contract env remote (λ x. x) 7 6 tables).1 in
    IsSound (revoke_contract env (λ x. x) 7 6 sent).1.contracts
Run-IsSound_example =
    Run-IsSound
      (next (next here (sends env remote 7 6 tables))
        (revokes env 7 6 (send_contract env remote (λ x. x) 7 6 tables).1))
      tables-IsSound

Run-Follows_example :
    (y : Contract) × (find_first
        (contract_has_id 6)
        (send_contract env remote (λ x. x) 7 6 tables).1.contracts
      ≡ some y)
    × History contract y
Run-Follows_example =
    Run-Follows (next here (sends env remote 7 6 tables)) tables-IsSound 6 contract refl

abbrev ended : Db
ended = record tables { contracts = record contract { status = cancelled } ∷ [] }

ended-IsSound : IsSound ended.contracts
ended-IsSound = record { keys = λ i. ground arith; rooms = λ p r. ground arith }

Run_closed_example :
    (y : Contract) × (find_first
        (contract_has_id 6)
        (send_contract env remote (λ x. x) 7 6 ended).1.contracts
      ≡ some y)
    × (y.status ≡ cancelled)
Run_closed_example =
    Run_closed 6 (record contract { status = cancelled }) (next here (sends env remote 7 6 ended))
      ended-IsSound refl refl

abbrev waiting : Contract
waiting = record contract { status = pending_payment; signed_at = some 20 }

abbrev unpaid_tables : Db
unpaid_tables = record tables { contracts = waiting ∷ [] }

expire_pending_prepayment_contracts_none_left_example :
    let (answer, db') = expire_pending_prepayment_contracts env remote unpaid_tables in
    (answer ≡ answered 1) × (count (is_overdue 9000000) db'.contracts ≡ 0)
expire_pending_prepayment_contracts_none_left_example =
    expire_pending_prepayment_contracts_none_left env remote unpaid_tables (λ call. refl)

abbrev payment : InvoicePaid
payment = record { contract_id = some 6; invoice_id = some 11 }

abbrev paid : Event InvoicePaid
paid = record {
  id = 1;
  event_type = codes "billing.invoice_paid.v1";
  source = codes "servicehub.internal";
  ordering_key = codes "11";
  aggregate_id = some 11;
  payload = some payment;
}

signed : fully_signed remote (record contract { status = cancelled }) ended ≡ true
unfolding fully_signed
signed = refl

-- A contract that was cancelled.
handle_invoice_paid_event_activates_example :
    let (ending, _, db') = handle_invoice_paid_event env remote true paid [] ended in
    (ending ≡ done)
    × (find_first (contract_has_id 6) db'.contracts
        ≡ some (record contract {
          status = active;
          signed_at = some 9000000;
          updated_at = 9000000;
          revision = 2;
        }))
    × IsPublished
        (codes "contract.activated.v1")
        (6 ∷ [])
        2
        (obj (
          key_member env (codes "contractId") 6 (
            text_member (codes "contractNumber") (codes "HD-1") (
              key_member env (codes "providerId") 7 (
                key_member env (codes "customerId") 5 (
                  key_member? env
                    (codes "roomId")
                    (some 3)
                    (text_member (codes "activatedAt") (9000000 ∷ []) end)))))))
        []
        db'.outbox
handle_invoice_paid_event_activates_example =
    handle_invoice_paid_event_activates env remote paid payment [] ended 6
      (record contract { status = cancelled }) refl refl refl refl refl signed

unsigned : fully_signed silent waiting unpaid_tables ≡ false
unfolding fully_signed
unsigned = refl

settle_contract_again_example :
    let db' = settle_contract env silent (some 11) waiting unpaid_tables in
    settle_contract (record env { now = 9000500; outbox_key = 42 }) silent (some 12) waiting db'
    ≡ db'
settle_contract_again_example =
    settle_contract_again env silent silent 9000500 42 (some 11) (some 12) waiting unpaid_tables
      unsigned unsigned

checked : send_checks remote 7 6 tables ≡ answered contract
unfolding send_checks
checked = refl

send_contract_raced_example :
    find_first (contract_has_id 6) (send_contract env remote (λ x. ended) 7 6 tables).1.contracts
    ≡ some (record contract {
      status = pending_signature;
      updated_at = 9000000;
      revision = contract.revision + 1;
    })
send_contract_raced_example =
    send_contract_raced env remote (λ x. ended) 7 6 tables contract
      (record contract { status = cancelled }) checked refl

nobody : count (of_customer_in draft 5 6) ended.contracts ≡ 0
unfolding same_status
nobody = refl

abbrev block : BlockCustomer
block = record {
  provider_id = 7;
  customer_id = 5;
  reason = codes "debt";
  block_by = 8;
  contract_id = none;
}

blocked : (block_customer env block tables).0 ≡ answered 53
unfolding block_customer
blocked = refl

block_customer_blocks_example :
    let db' = (block_customer env block tables).1 in
    (check_provider_access 9000001 7 (some 5) db' ≡ true)
    × (check_service_access 9000001 22 7 (some 5) db' ≡ true)
block_customer_blocks_example =
    block_customer_blocks env block tables 53 9000001 22 blocked (omega arith)

lift_restriction_lifts_example :
    let db' = (block_customer env block tables).1 in
    let (answer, lifted_db) = lift_restriction 9000002 7 55 db' in
    (answer ≡ answered tt)
    × (check_provider_access 9000003 7 (some 5) lifted_db
        ≡ check_provider_access 9000003 7 (some 5) tables)
lift_restriction_lifts_example =
    lift_restriction_lifts env block tables 53 9000002 9000003 blocked refl (omega arith)

free : check_service_access 9000000 22 7 (some 5) tables ≡ false
unfolding check_service_access
free = refl

get_marketplace_restrictions_clear_example :
    let m = get_marketplace_restrictions 9000000 5 (22 ∷ []) (7 ∷ []) tables in
    (m.platform_blocked ≡ false)
    × (any (λ j. j == 7) m.blocked_provider_ids ≡ false)
    × (any (λ j. j == 22) m.blocked_service_ids ≡ false)
get_marketplace_restrictions_clear_example =
    get_marketplace_restrictions_clear 9000000 22 7 5 (22 ∷ []) (7 ∷ []) tables free
