-- ===== src/Contracts/Lifecycle.antt =====
-- The life cycle of a contract, which the operations of the contract service implement.
pub mod Effects
pub mod Approval
pub mod Endings
pub mod Origins
pub mod Rooms
pub mod Drafting
pub mod Editing
pub mod Moves
pub mod Steps
pub mod Deadlines
use service_hub_backend.Contracts.Updates.{holds_room_other}
use service_hub_backend.Base.Table.{find_first}
use service_hub_backend.Contracts.Drafts.{holds_room}
use service_hub_backend.Base.{List, none, ℕ, ◌⊎◌, Bool, true, ◌||◌, ◌≡◌, ◌≤◌}
use service_hub_backend.Contracts.Rows.{
  Contract, active, cancelled, draft, expired, is_active_status, is_cancelled, is_draft, is_expired,
  is_pending_payment, is_pending_signature, is_terminated, pending_payment, pending_signature,
  terminated, ContractStatus,
}

-- The statuses that one operation may lead to: the documented transitions, and none.
abbrev pub may_become : ContractStatus → ContractStatus → Bool
may_become draft s = is_draft s || (is_pending_signature s || is_cancelled s)
may_become pending_signature s =
    is_pending_signature s
    || (is_draft s || (is_pending_payment s || (is_active_status s || is_cancelled s)))
may_become pending_payment s = is_pending_payment s || (is_active_status s || is_cancelled s)
may_become active s = is_active_status s || is_terminated s
may_become expired s = is_expired s
may_become terminated s = is_terminated s
may_become cancelled s = is_cancelled s

-- A transition, or none; the revision does not fall, and the parties stay.
abbrev pub Moves : Contract → Contract → Type 0
Moves x y =
    (may_become x.status y.status ≡ true)
    × (x.revision ≤ y.revision)
    × (y.provider_id ≡ x.provider_id)
    × (y.customer_id ≡ x.customer_id)

-- A room that a contract comes to hold is held by no other contract.
abbrev pub TakesRoom : List Contract → Contract → Contract → Type 0
TakesRoom before x y =
    (p r : ℕ)
    → holds_room p r y ≡ true
    → (holds_room p r x ≡ true) ⊎ (find_first (holds_room_other p x.id r) before ≡ none)
