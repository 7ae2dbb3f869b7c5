-- ===== src/Contracts/Booking.antt =====
-- apps/contract-service/src/contracts/customer.contracts.service.ts: `createServiceBooking` and
-- `cancelService`; the sending of realtime messages is not modelled.
use service_hub_backend.Base.Text.{text_eq, Text}
use service_hub_backend.Contracts.Prepaid.{give_up}
use service_hub_backend.Contracts.Rows.{
  Contract, ContractStatus, Db, Env, Remote, Response, answered, cancel_prepayment_invoice, draft,
  is_draft, is_pending_payment, is_pending_signature, raised, rejected,
}
use service_hub_backend.Contracts.Restrictions.{check_service_access}
use service_hub_backend.Contracts.Customer.{of_customer, same_status, send_billing}
use service_hub_backend.Base.Table.{count, find_first, update_many}
use service_hub_backend.Base.{
  is_some, Bool, Option, [], false, if◌then◌else◌, ltb, none, not, some, true, ℕ, ◌&&◌, ◌++◌, ◌==◌,
  ◌||◌, ◌∷◌,
}

-- A quantity is a whole number.
pub record Booking : Type 0 where
  pub customer_id : ℕ
  pub service_price_id : ℕ
  pub quantity : ℕ
  pub require_signature : Bool
  pub provider_id : ℕ

pub record PriceInfo : Type 0 where
  pub service_id : ℕ
  pub provider_id : ℕ

-- What the other services answer; `none` where a call fails. The price may be unknown or inactive.
pub record BookingReplies : Type 0 where
  pub is_ekyc_verified : Option Bool
  pub price_info : Option (Option PriceInfo)
  pub is_provider_active : Option Bool

abbrev pub booking_contract : Env → Text → Booking → Contract
booking_contract env contract_number b = record {
  id = env.contract_key;
  contract_number = contract_number;
  provider_id = b.provider_id;
  room_id = none;
  customer_id = b.customer_id;
  start_date = env.now;
  end_date = none;
  status = draft;
  revision = 1;
  require_signature = b.require_signature;
  signed_at = none;
  created_at = env.now;
  updated_at = env.now;
}

-- The transaction of two rows.
unfoldable pub book : Env → Text → Booking → Db → Db
book env contract_number b db = record db {
  contracts = db.contracts ++ (booking_contract env contract_number b ∷ []);
  services =
      db.services
      ++ (record {
        contract_id = env.contract_key;
        service_price_id = b.service_price_id;
        quantity = some b.quantity;
        created_at = env.now;
      }
          ∷ []);
}

-- The primary key and the unique contract number: the database refuses a taken one.
abbrev pub is_taken : ℕ → Text → Contract → Bool
is_taken key contract_number c = c.id == key || text_eq c.contract_number contract_number

unfoldable pub booking_access : Env → Text → Booking → PriceInfo → Db → Response Unit × Db
unfolding book check_service_access
booking_access env contract_number b info db =
    if check_service_access env.now info.service_id b.provider_id (some b.customer_id) db
    then (rejected 400, db)
    else if is_some (find_first (is_taken env.contract_key contract_number) db.contracts)
    then (raised, db)
    else (answered tt, book env contract_number b db)

unfoldable pub booking_provider :
    Env → Text → BookingReplies → Booking → PriceInfo → Db → Response Unit × Db
unfolding booking_access
booking_provider env contract_number replies b info db =
    if not (info.provider_id == b.provider_id)
    then (rejected 400, db)
    else elim replies.is_provider_active [
      | none ↦ (raised, db)
      | some false ↦ (rejected 400, db)
      | some true ↦ booking_access env contract_number b info db
    ]

unfoldable pub booking_price : Env → Text → BookingReplies → Booking → Db → Response Unit × Db
unfolding booking_provider
booking_price env contract_number replies b db =
    if ltb b.quantity 1 then (rejected 400, db) else elim replies.price_info [
      | none ↦ (raised, db)
      | some none ↦ (rejected 400, db)
      | some (some info) ↦ booking_provider env contract_number replies b info db
    ]

unfoldable pub create_service_booking :
    Env → Text → BookingReplies → Booking → Db → Response Unit × Db
unfolding booking_price
create_service_booking env contract_number replies b db = elim replies.is_ekyc_verified [
  | none ↦ (raised, db)
  | some false ↦ (rejected 403, db)
  | some true ↦ booking_price env contract_number replies b db
]

abbrev pub is_cancellable : ContractStatus → Bool
is_cancellable s = is_draft s || (is_pending_signature s || is_pending_payment s)

abbrev pub of_customer_in : ContractStatus → ℕ → ℕ → Contract → Bool
of_customer_in s customer_id contract_id c =
    c.id == contract_id && (c.customer_id == customer_id && same_status s c.status)

-- The guarded update; `s` is the status that was read.
unfoldable pub cancel_commit : Env → ContractStatus → ℕ → ℕ → Db → Response Unit × Db
cancel_commit env s customer_id contract_id db =
    let q = of_customer_in s customer_id contract_id in
    let db' : Db = record db { contracts = update_many q (give_up env.now) db.contracts } in
    if count q db.contracts == 1 then (answered tt, db') else (rejected 409, db')

-- A contract that awaits its payment has its invoice cancelled first.
unfoldable pub cancel_paid :
    Env → Remote → (Db → Db) → ContractStatus → ℕ → ℕ → Db → Response Unit × Db
unfolding cancel_commit send_billing
cancel_paid env remote between s customer_id contract_id db =
    let (answer, db') = send_billing remote (cancel_prepayment_invoice contract_id) db in
    elim answer [
      | answered u ↦ cancel_commit env s customer_id contract_id (between db')
      | rejected code ↦ (rejected code, db')
      | raised ↦ (raised, db')
    ]

unfoldable pub cancel_service : Env → Remote → (Db → Db) → ℕ → ℕ → Db → Response Unit × Db
unfolding cancel_commit cancel_paid
cancel_service env remote between customer_id contract_id db =
    elim (find_first (of_customer customer_id contract_id) db.contracts) [
      | none ↦ (rejected 404, db)
      | some c ↦
          if not (is_cancellable c.status)
          then (rejected 409, db)
          else if is_pending_payment c.status
          then cancel_paid env remote between c.status customer_id contract_id db
          else cancel_commit env c.status customer_id contract_id (between db)
    ]
