-- ===== src/Contracts/Lifecycle/Steps.antt =====
-- The operations of the contract service as a step relation, and what holds of every run.
-- Operations do not overlap, and a payment comes in time; see Races for those that do not.
use service_hub_backend.Base.Text.{Text}
use service_hub_backend.Contracts.Lifecycle.Endings.{
  activate_contract_after_prepayment-Transition, cancel_service-Transition,
  expire_contract-Transition,
}
use service_hub_backend.Contracts.Lifecycle.Drafting.{create_contract-Transition}
use service_hub_backend.Contracts.Prepaid.{activate_contract_after_prepayment, expire_contract}
use service_hub_backend.Contracts.Drafts.{CreateContract, DraftReplies, create_contract}
use service_hub_backend.Contracts.Lifecycle.{Moves, may_become}
use service_hub_backend.Base.Table.{find_first}
use service_hub_backend.Contracts.Lifecycle.Effects.{
  cancel_contract-Transition, revoke_contract-Transition, send_contract-Transition,
}
use service_hub_backend.Contracts.Provider.{cancel_contract, revoke_contract, send_contract}
use service_hub_backend.Contracts.Updates.{update_contract}
use service_hub_backend.Contracts.Lifecycle.Moves.{
  Transition, Transition-Follows, Transition-HasUniqueKeys, stays,
}
use service_hub_backend.Contracts.Violations.{ActionData, handle_action}
use service_hub_backend.Contracts.Activation.{InvoicePaid, invoice_paid}
use service_hub_backend.Contracts.Lifecycle.Rooms.{HasOwnRooms, Transition-HasOwnRooms}
use service_hub_backend.Contracts.Rows.{
  Contract, ContractStatus, Db, Env, Remote, contract_has_id, is_cancelled, is_expired,
  is_terminated,
}
use service_hub_backend.Contracts.Lifecycle.Approval.{
  activate_contract_after_customer_sign-Transition, confirm_contract_terms-Transition,
  request_prepayment_contracts,
}
use service_hub_backend.Contracts.Booking.{
  Booking, BookingReplies, cancel_service, create_service_booking,
}
use service_hub_backend.Contracts.Customer.{
  activate_contract_after_customer_sign, confirm_contract_terms, request_prepayment,
}
use service_hub_backend.Base.{Bool, List, arith, refl, some, true, ℕ, ◌||◌, ◌∙◌, ◌≡◌, ◌≤◌}
use service_hub_backend.Contracts.Lifecycle.Editing.{update_contract-Transition}
use service_hub_backend.Contracts.Edits.{EditReplies, Renderer, UpdateContract}
use service_hub_backend.Contracts.Keys.{Follows, HasUniqueKeys}
use service_hub_backend.Contracts.Lifecycle.Origins.{
  IsInTime, create_service_booking-Transition, handle_action-Transition, invoice_paid-Transition,
}

-- One call, one round of the timer or one event.
pub data Step : Db → Db → Type 0 where
  creates_contract :
      (env : Env) (number : Text) (replies : DraftReplies) (p : ℕ) (d : CreateContract) (db : Db)
      → Step db (create_contract env number replies (λ x. x) p d db).1
  updates_contract :
      (env : Env) (render : Renderer) (replies : EditReplies) (p i : ℕ) (u : UpdateContract)
      (db : Db)
      → Step db (update_contract env render replies p i u db).1
  sends :
      (env : Env) (remote : Remote) (p i : ℕ) (db : Db)
      → Step db (send_contract env remote (λ x. x) p i db).1
  revokes : (env : Env) (p i : ℕ) (db : Db) → Step db (revoke_contract env (λ x. x) p i db).1
  cancels :
      (env : Env) (remote : Remote) (p i : ℕ) (reason : Text) (db : Db)
      → Step db (cancel_contract env remote (λ x. x) p i reason db).1
  books :
      (env : Env) (number : Text) (replies : BookingReplies) (b : Booking) (db : Db)
      → Step db (create_service_booking env number replies b db).1
  cancels_service :
      (env : Env) (remote : Remote) (c i : ℕ) (db : Db)
      → Step db (cancel_service env remote (λ x. x) c i db).1
  signs :
      (env : Env) (remote : Remote) (file : ℕ) (db : Db)
      → Step db (activate_contract_after_customer_sign env remote (λ x. x) file db).1
  confirms :
      (env : Env) (remote : Remote) (c i : ℕ) (db : Db)
      → Step db (confirm_contract_terms env remote (λ x. x) c i db).1
  activates :
      (env : Env) (remote : Remote) (i : ℕ) (db : Db)
      → Step db (activate_contract_after_prepayment env remote (λ x. x) i db).1
  expires :
      (env : Env) (remote : Remote) (i : ℕ) (db db' : Db)
      → expire_contract env remote i db ≡ some db'
      → Step db db'
  requests_invoice :
      (remote : Remote) (c : Contract) (db : Db) → Step db (request_prepayment remote c db).1
  pays :
      (env : Env) (remote : Remote) (p : InvoicePaid) (db : Db)
      → IsInTime p db
      → Step db (invoice_paid env remote p db)
  handles_action :
      (env : Env) (amount_text : ℕ → Text) (remote : Remote) (d : ActionData) (db : Db)
      → Step db (handle_action env amount_text remote d db).1

pub data Run (start : Db) : Db → Type 0 where
  here : Run start start
  next : {db db' : Db} → Run start db → Step db db' → Run start db'

-- Every operation is a transition of the life cycle: each contract stays as it is or moves along
-- one of its edges, with its parties and without a fall of its revision, and a contract that
-- appears is a draft of revision 1.
pub Step-Transition :
    {db db' : Db} → Step db db' → HasUniqueKeys db.contracts → Transition db.contracts db'.contracts
Step-Transition (creates_contract env number replies p d db) u =
    create_contract-Transition env number replies p d db
Step-Transition (updates_contract env render replies p i e db) u =
    update_contract-Transition env render replies p i e db u
Step-Transition (sends env remote p i db) u = send_contract-Transition env remote p i db u
Step-Transition (revokes env p i db) u = revoke_contract-Transition env p i db u
Step-Transition (cancels env remote p i reason db) u =
    cancel_contract-Transition env remote p i reason db u
Step-Transition (books env number replies b db) u =
    create_service_booking-Transition env number replies b db
Step-Transition (cancels_service env remote c i db) u = cancel_service-Transition env remote c i db
Step-Transition (signs env remote file db) u =
    activate_contract_after_customer_sign-Transition env remote file db
Step-Transition (confirms env remote c i db) u = confirm_contract_terms-Transition env remote c i db
Step-Transition (activates env remote i db) u =
    activate_contract_after_prepayment-Transition env remote i db
Step-Transition (expires env remote i db db' e) u = expire_contract-Transition env remote i db db' e
Step-Transition (requests_invoice remote c db) u = stays (request_prepayment_contracts remote c db)
Step-Transition (pays env remote p db in_time) u = invoice_paid-Transition env remote p db in_time
Step-Transition (handles_action env amount_text remote d db) u =
    handle_action-Transition env amount_text remote d db

-- The state of the table that the operations keep: no key twice, and no room held twice.
pub record IsSound (cs : List Contract) : Type 0 where
  pub keys : HasUniqueKeys cs
  pub rooms : HasOwnRooms cs

pub Step-IsSound : {db db' : Db} → Step db db' → IsSound db.contracts → IsSound db'.contracts
Step-IsSound {db} {db'} step sound =
    let t = Step-Transition step sound.keys in
    record {
      keys = Transition-HasUniqueKeys db.contracts db'.contracts t sound.keys;
      rooms = Transition-HasOwnRooms db.contracts db'.contracts t sound.keys sound.rooms;
    }

-- In every run of operations that do not overlap, with payments in time, from tables in which no
-- key and no room stands twice, no room comes to be held by two open contracts of a provider, and
-- no key to stand twice.
pub Run-IsSound : {start db : Db} → Run start db → IsSound start.contracts → IsSound db.contracts
Run-IsSound here sound = sound
Run-IsSound (next run step) sound = Step-IsSound step (Run-IsSound run sound)

-- The statuses that a path of the life cycle connects.
pub data Leads (s : ContractStatus) : ContractStatus → Type 0 where
  stop : Leads s s
  go : {t u : ContractStatus} → Leads s t → may_become t u ≡ true → Leads s u

-- What becomes of a contract: its status by a path, its revision, and its parties.
abbrev pub History : Contract → Contract → Type 0
History x y =
    Leads x.status y.status
    × (x.revision ≤ y.revision)
    × (y.provider_id ≡ x.provider_id)
    × (y.customer_id ≡ x.customer_id)

History-next : (x y z : Contract) → History x y → Moves y z → History x z
History-next x y z (path, r, p, c) (edge, s, q, d) =
    (go path edge, omega (arith, r, s), q ∙ p, d ∙ c)

-- In every such run each contract remains, with its parties and without a fall of its revision,
-- and its status has followed a path of the life cycle.
pub Run-Follows :
    {start db : Db}
    → Run start db
    → IsSound start.contracts
    → Follows History start.contracts db.contracts
Run-Follows here sound i x found = (x, found, (stop, omega arith, refl, refl))
Run-Follows {start} {db} (next {db = mid} run step) sound i x found =
    let (y, hy, h) = Run-Follows run sound i x found in
    let t = Step-Transition step (Run-IsSound run sound).keys in
    let (z, hz, m) = Transition-Follows mid.contracts db.contracts t i y hy in
    (z, hz, History-next x y z h m)

abbrev pub is_closed : ContractStatus → Bool
is_closed s = is_expired s || (is_terminated s || is_cancelled s)

Leads-closed : {s t : ContractStatus} → Leads s t → is_closed s ≡ true → t ≡ s
Leads-closed stop c = refl
Leads-closed {s} {t} (go path edge) c =
    let same = Leads-closed path c in ground (arith, same, edge, c)

-- In every such run a contract that was EXPIRED, TERMINATED or CANCELLED still is.
pub Run_closed :
    {start db : Db} (i : ℕ) (x : Contract)
    → Run start db
    → IsSound start.contracts
    → find_first (contract_has_id i) start.contracts ≡ some x
    → is_closed x.status ≡ true
    → (y : Contract) × (find_first (contract_has_id i) db.contracts ≡ some y)
      × (y.status ≡ x.status)
Run_closed i x run sound found closed =
    let (y, hy, h) = Run-Follows run sound i x found in (y, hy, Leads-closed h.0 closed)
