-- ===== src/Contracts/Lifecycle/Origins.antt =====
-- Bookings, terminations and payments as transitions of the table of contracts.
use service_hub_backend.Contracts.Activation.{
  InvoicePaid, activated, fully_signed, invoice_paid, settle_contract,
}
use service_hub_backend.Contracts.Provider.{move_to}
use service_hub_backend.Contracts.Booking.{
  Booking, BookingReplies, PriceInfo, book, booking_access, booking_contract, booking_price,
  booking_provider, create_service_booking, is_taken,
}
use service_hub_backend.Base.Text.{Text}
use service_hub_backend.Contracts.Restrictions.{restricts, check_service_access}
use service_hub_backend.Base.Table.{find_first_holds, find_first}
use service_hub_backend.Contracts.Rows.{
  is_active_status, is_pending_payment, Contract, Db, Env, Remote, ViolationCase, change_contract,
  contract_has_id, publish, terminated,
}
use service_hub_backend.Contracts.Violations.{
  action_is_fine, is_actionable, ActionData, act, add_action, announce_fine, end_contract,
  handle_action, resolve_case, restrict_customer, terminates,
}
use service_hub_backend.Contracts.Lifecycle.Moves.{changes_status, Transition, creates, stays}
use service_hub_backend.Base.{
  ==_iff, Option, not, sym, ◌&&◌, ◌||◌, ◌∙◌, Bool-cases, List, Option-cases, [], ap, arith, false,
  inl, inr, ltb, none, refl, some, true, ℕ, ◌==◌, ◌∷◌, ◌≡◌, ◌⊎◌,
}

-- A booking is refused, or makes a row under a new key.
abbrev IsBooked : Env → Text → Booking → Db → Db → Type 0
IsBooked env number b db after =
    (after ≡ db)
    ⊎ ((after ≡ book env number b db)
        × (find_first (is_taken env.contract_key number) db.contracts ≡ none))

booking_access-IsBooked :
    (env : Env) (number : Text) (b : Booking) (info : PriceInfo) (db : Db)
    → IsBooked env number b db (booking_access env number b info db).1
unfolding booking_access
booking_access-IsBooked env number b info db =
    let blocked =
      check_service_access env.now info.service_id b.provider_id (some b.customer_id) db in
    elim (Bool-cases blocked) [
      | inl e ↦ inl (rw (booking_access, e) refl)
      | inr e ↦ elim (Option-cases (find_first (is_taken env.contract_key number) db.contracts)) [
        | inl k ↦ inr (rw (booking_access, e, k) refl, k)
        | inr (c, k) ↦ inl (rw (booking_access, e, k) refl)
      ]
    ]

booking_provider-IsBooked :
    (env : Env) (number : Text) (replies : BookingReplies) (b : Booking) (info : PriceInfo)
    (db : Db)
    → IsBooked env number b db (booking_provider env number replies b info db).1
unfolding booking_provider
booking_provider-IsBooked env number replies b info db =
    elim (Bool-cases (info.provider_id == b.provider_id)) [
      | inr e ↦ inl (rw (booking_provider, e) refl)
      | inl e ↦ elim (Option-cases replies.is_provider_active) [
        | inl k ↦ inl (rw (booking_provider, e, k) refl)
        | inr (false, k) ↦ inl (rw (booking_provider, e, k) refl)
        | inr (true, k) ↦ rw (booking_provider, e, k) (booking_access-IsBooked env number b info db)
      ]
    ]

create_service_booking-IsBooked :
    (env : Env) (number : Text) (replies : BookingReplies) (b : Booking) (db : Db)
    → IsBooked env number b db (create_service_booking env number replies b db).1
unfolding create_service_booking booking_price
create_service_booking-IsBooked env number replies b db =
    elim (Option-cases replies.is_ekyc_verified) [
      | inl e ↦ inl (rw (create_service_booking, e) refl)
      | inr (false, e) ↦ inl (rw (create_service_booking, e) refl)
      | inr (true, e) ↦ elim (Bool-cases (ltb b.quantity 1)) [
        | inl k ↦ inl (rw (create_service_booking, e, booking_price, k) refl)
        | inr k ↦ elim (Option-cases replies.price_info) [
          | inl l ↦ inl (rw (create_service_booking, e, booking_price, k, l) refl)
          | inr (none, l) ↦ inl (rw (create_service_booking, e, booking_price, k, l) refl)
          | inr (some info, l) ↦
              rw (create_service_booking, e, booking_price, k, l)
                (booking_provider-IsBooked env number replies b info db)
        ]
      ]
    ]

pub fresh_key :
    (key : ℕ) (number : Text) (cs : List Contract)
    → find_first (is_taken key number) cs ≡ none
    → find_first (contract_has_id key) cs ≡ none
fresh_key key number [] h = refl
fresh_key key number (x ∷ cs) h = ground (arith, fresh_key key number cs)

pub create_service_booking-Transition :
    (env : Env) (number : Text) (replies : BookingReplies) (b : Booking) (db : Db)
    → Transition db.contracts (create_service_booking env number replies b db).1.contracts
unfolding book
create_service_booking-Transition env number replies b db =
    elim (create_service_booking-IsBooked env number replies b db) [
      | inl e ↦ stays (ap (λ d. d.contracts) e)
      | inr (e, k) ↦
          creates (booking_contract env number b) (fresh_key env.contract_key number db.contracts k)
            refl refl (λ p r h. ground (arith, h)) (ap (λ d. d.contracts) e)
    ]

resolve_case_contracts :
    (env : Env) (d : ActionData) (v : ViolationCase) (db : Db)
    → (resolve_case env d v db).contracts ≡ db.contracts
unfolding resolve_case
resolve_case_contracts env d v db = ground arith

restrict_customer_contracts :
    (env : Env) (d : ActionData) (c : Contract) (db : Db)
    → (restrict_customer env d c db).contracts ≡ db.contracts
unfolding restrict_customer
restrict_customer_contracts env d c db =
    elim (Bool-cases (terminates d.action_type && d.create_restriction)) [
      | inr e ↦ rw (restrict_customer, e) refl
      | inl e ↦
          elim (Option-cases
            (find_first (restricts env.now d.provider_id c.customer_id) db.restrictions)) [
              | inl k ↦ rw (restrict_customer, e, k) refl
              | inr (r, k) ↦ rw (restrict_customer, e, k) refl
            ]
    ]

announce_fine_contracts :
    (env : Env) (amount_text : ℕ → Text) (d : ActionData) (v : ViolationCase) (c : Contract)
    (db : Db)
    → (announce_fine env amount_text d v c db).contracts ≡ db.contracts
unfolding announce_fine publish
announce_fine_contracts env amount_text d v c db =
    elim (Bool-cases (action_is_fine d.action_type)) [
      | inl e ↦ rw (announce_fine, e) refl
      | inr e ↦ rw (announce_fine, e) refl
    ]

-- Only a termination touches the contract.
act_contracts :
    (env : Env) (amount_text : ℕ → Text) (d : ActionData) (v : ViolationCase) (c : Contract)
    (db : Db)
    → (act env amount_text d v c db).contracts
      ≡ (end_contract env d c (add_action env d v db)).contracts
unfolding act
act_contracts env amount_text d v c db =
    let ended = end_contract env d c (add_action env d v db) in
    let announced = announce_fine env amount_text d v c ended in
    resolve_case_contracts env d v (restrict_customer env d c announced)
    ∙ (restrict_customer_contracts env d c announced
        ∙ announce_fine_contracts env amount_text d v c ended)

end_contract-Transition :
    (env : Env) (d : ActionData) (v : ViolationCase) (c : Contract) (db : Db)
    → find_first (contract_has_id c.id) db.contracts ≡ some c
    → terminates d.action_type && not (is_active_status c.status) ≡ false
    → Transition db.contracts (end_contract env d c (add_action env d v db)).contracts
unfolding end_contract publish change_contract add_action
end_contract-Transition env d v c db found may = elim (Bool-cases (terminates d.action_type)) [
  | inr e ↦ stays (rw (end_contract, e) refl)
  | inl e ↦
      changes_status c.id (move_to terminated env.now) c (λ x. refl) found (ground (arith, may, e))
        refl (rw (end_contract, e) refl)
]

acted :
    (env : Env) (amount_text : ℕ → Text) (d : ActionData) (v : ViolationCase) (c : Contract)
    (db : Db)
    → find_first (contract_has_id v.contract_id) db.contracts ≡ some c
    → terminates d.action_type && not (is_active_status c.status) ≡ false
    → Transition db.contracts (act env amount_text d v c db).contracts
acted env amount_text d v c db found may =
    let same_key : v.contract_id ≡ c.id =
      sym ((==_iff c.id v.contract_id).0 (find_first_holds _ db.contracts found)) in
    rw (act_contracts env amount_text d v c db)
      (end_contract-Transition env d v c db (rw same_key at found) may)

pub handle_action-Transition :
    (env : Env) (amount_text : ℕ → Text) (remote : Remote) (d : ActionData) (db : Db)
    → Transition db.contracts (handle_action env amount_text remote d db).1.contracts
unfolding handle_action
handle_action-Transition env amount_text remote d db =
    elim (Option-cases (find_first (is_actionable d db.rules) db.cases)) [
      | inl e ↦ stays (rw (handle_action, e) refl)
      | inr (v, e) ↦ elim (Option-cases (find_first (contract_has_id v.contract_id) db.contracts)) [
        | inl k ↦ stays (rw (handle_action, e, k) refl)
        | inr (c, k) ↦
            elim (Bool-cases (terminates d.action_type && not (is_active_status c.status))) [
              | inl l ↦ stays (rw (handle_action, e, k, l) refl)
              | inr l ↦ elim (Bool-cases (terminates d.action_type && not remote.notifies)) [
                | inl m ↦ rw (handle_action, e, k, l, m) (acted env amount_text d v c db k l)
                | inr m ↦ rw (handle_action, e, k, l, m) (acted env amount_text d v c db k l)
              ]
            ]
      ]
    ]

-- The payment of an invoice, of a contract that awaits a payment or is active.
abbrev pub IsInTime : InvoicePaid → Db → Type 0
IsInTime p db =
    (i : ℕ) (c : Contract)
    → p.contract_id ≡ some i
    → find_first (contract_has_id i) db.contracts ≡ some c
    → is_pending_payment c.status || is_active_status c.status ≡ true

settle_contract-Transition :
    (env : Env) (remote : Remote) (invoice_id : Option ℕ) (c : Contract) (db : Db)
    → find_first (contract_has_id c.id) db.contracts ≡ some c
    → is_pending_payment c.status || is_active_status c.status ≡ true
    → Transition db.contracts (settle_contract env remote invoice_id c db).contracts
unfolding settle_contract publish change_contract
settle_contract-Transition env remote invoice_id c db found was =
    elim (Bool-cases (fully_signed remote c db)) [
      | inl e ↦
          changes_status c.id (activated env.now) c (λ x. refl) found (ground (arith, was)) refl
            (rw (settle_contract, e) refl)
      | inr e ↦ stays (rw (settle_contract, e) refl)
    ]

pub invoice_paid-Transition :
    (env : Env) (remote : Remote) (p : InvoicePaid) (db : Db)
    → IsInTime p db
    → Transition db.contracts (invoice_paid env remote p db).contracts
unfolding invoice_paid
invoice_paid-Transition env remote p db in_time = elim (Option-cases p.contract_id) [
  | inl e ↦ stays (rw (invoice_paid, e) refl)
  | inr (i, e) ↦ elim (Option-cases (find_first (contract_has_id i) db.contracts)) [
    | inl k ↦ stays (rw (invoice_paid, e, k) refl)
    | inr (c, k) ↦ elim (Bool-cases (is_active_status c.status)) [
      | inl l ↦ stays (rw (invoice_paid, e, k, l) refl)
      | inr l ↦
          let same_key : i ≡ c.id = sym ((==_iff c.id i).0 (find_first_holds _ db.contracts k)) in
          rw (invoice_paid, e, k, l)
            (settle_contract-Transition env remote p.invoice_id c db (rw same_key at k)
              (in_time i c e k))
    ]
  ]
]
