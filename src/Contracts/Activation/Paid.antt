-- ===== src/Contracts/Activation/Paid.antt =====
-- What the payment of an invoice does to its contract.
use service_hub_backend.Reliability.Outbox.{publish_local}
use service_hub_backend.Contracts.Provider.{contract_event}
use service_hub_backend.Base.Text.{codes}
use service_hub_backend.Reliability.Json.{obj, end}
use service_hub_backend.Contracts.Rows.{
  Contract, Db, Env, Remote, active, key_member, key_member?, text_member, change_contract,
  contract_has_id, is_active_status, publish,
}
use service_hub_backend.Reliability.Inbox.Once.{consume_done, has_event}
use service_hub_backend.Base.Table.{
  find_first, find_first-update_many, find_first_holds, update_many,
}
use service_hub_backend.Reliability.Outbox.Publishing.{
  IsPublished, publish_local-IsPublished, publish_local_again,
}
use service_hub_backend.Billing.Sagas.{Event, claim_of}
use service_hub_backend.Base.{
  none, ◌+◌, ap, ==_iff, List, Option, arith, false, refl, some, true, ℕ, ◌∙◌, ◌≡◌,
}
use service_hub_backend.Reliability.Inbox.{InboxRow, done}
use service_hub_backend.Contracts.Activation.{
  InvoicePaid, activated, activated_event, activation_failed_event, fully_signed,
  handle_invoice_paid_event, invoice_paid, paid_body, settle_contract,
}

invoice_paid_open :
    (env : Env) (remote : Remote) (p : InvoicePaid) (db : Db) (i : ℕ) (c : Contract)
    → p.contract_id ≡ some i
    → find_first (contract_has_id i) db.contracts ≡ some c
    → is_active_status c.status ≡ false
    → invoice_paid env remote p db ≡ settle_contract env remote p.invoice_id c db
unfolding invoice_paid
invoice_paid_open env remote p db i c of found other = rw (invoice_paid, of, found, other) refl

-- A first delivery for a known contract that is not active, in a transaction that commits.
handled :
    (env : Env) (remote : Remote) (e : Event InvoicePaid) (p : InvoicePaid) (inbox : List InboxRow)
    (db : Db) (i : ℕ) (c : Contract)
    → has_event (codes "contract-invoice-paid-consumer") e.id inbox ≡ false
    → e.payload ≡ some p
    → p.contract_id ≡ some i
    → find_first (contract_has_id i) db.contracts ≡ some c
    → is_active_status c.status ≡ false
    → let (ending, _, db') = handle_invoice_paid_event env remote true e inbox db in
      (ending ≡ done) × (db' ≡ settle_contract env remote p.invoice_id c db)
unfolding handle_invoice_paid_event paid_body claim_of
handled env remote e p inbox db i c fresh has of found other =
    let (a, b, _) =
      consume_done (claim_of (codes "contract-invoice-paid-consumer") e) env.now
        (paid_body env remote true e) inbox db (settle_contract env remote p.invoice_id c db) fresh
        (rw (paid_body, has, of, has)
          (ap some (invoice_paid_open env remote p db i c of found other))) in
    (a, b)

activated_lem :
    (now : ℕ) (c : Contract)
    → activated now c ≡ record c {
      status = active;
      signed_at = elim c.signed_at [ none ↦ some now | some t ↦ some t ];
      updated_at = now;
      revision = c.revision + 1;
    }
activated_lem now c = ground arith

-- The first delivery of a payment for a contract that is not ACTIVE and is fully signed (or needs
-- no signatures) makes the contract ACTIVE under the next revision, its first signing time kept,
-- whatever its status was: also DRAFT, EXPIRED, TERMINATED or CANCELLED. The outbox then has the
-- activation under that revision: an earlier event, or a new one with the contract's parties.
pub handle_invoice_paid_event_activates :
    (env : Env) (remote : Remote) (e : Event InvoicePaid) (p : InvoicePaid) (inbox : List InboxRow)
    (db : Db) (i : ℕ) (c : Contract)
    → has_event (codes "contract-invoice-paid-consumer") e.id inbox ≡ false
    → e.payload ≡ some p
    → p.contract_id ≡ some i
    → find_first (contract_has_id i) db.contracts ≡ some c
    → is_active_status c.status ≡ false
    → fully_signed remote c db ≡ true
    → let (ending, _, db') = handle_invoice_paid_event env remote true e inbox db in
      (ending ≡ done)
      × (find_first (contract_has_id i) db'.contracts
          ≡ some (record c {
            status = active;
            signed_at = elim c.signed_at [ none ↦ some env.now | some t ↦ some t ];
            updated_at = env.now;
            revision = c.revision + 1;
          }))
      × IsPublished
          (codes "contract.activated.v1")
          (env.uuid c.id)
          (c.revision + 1)
          (obj (
            key_member env (codes "contractId") c.id (
              text_member (codes "contractNumber") c.contract_number (
                key_member env (codes "providerId") c.provider_id (
                  key_member env (codes "customerId") c.customer_id (
                    key_member? env
                      (codes "roomId")
                      c.room_id
                      (text_member (codes "activatedAt") (env.platform.iso env.now) end)))))))
          db.outbox
          db'.outbox
unfolding settle_contract publish change_contract activated_event contract_event
handle_invoice_paid_event_activates env remote e p inbox db i c fresh has of found other signed =
    let (a, b) = handled env remote e p inbox db i c fresh has of found other in
    let is_i : c.id ≡ i =
      (==_iff c.id i).0 (find_first_holds (contract_has_id i) db.contracts found) in
    let moved : find_first (contract_has_id i)
          (update_many (contract_has_id c.id) (activated env.now) db.contracts)
        ≡ some (activated env.now c) =
      rw is_i (
        find_first-update_many (contract_has_id i) (contract_has_id i) (activated env.now)
          db.contracts (λ x. refl)
        ∙ rw found (ground arith)) in
    (
      a,
      rw (b, settle_contract, signed) (moved ∙ ap some (activated_lem env.now c)),
      rw (b, settle_contract, signed)
          (publish_local-IsPublished env.platform env.secret env.now env.outbox_key
            (activated_event env (activated env.now c)) db.outbox),
    )

-- Without the signatures it leaves the contracts as they are and publishes the failure of the
-- activation, under the contract's present revision.
pub handle_invoice_paid_event_unsigned :
    (env : Env) (remote : Remote) (e : Event InvoicePaid) (p : InvoicePaid) (inbox : List InboxRow)
    (db : Db) (i : ℕ) (c : Contract)
    → has_event (codes "contract-invoice-paid-consumer") e.id inbox ≡ false
    → e.payload ≡ some p
    → p.contract_id ≡ some i
    → find_first (contract_has_id i) db.contracts ≡ some c
    → is_active_status c.status ≡ false
    → fully_signed remote c db ≡ false
    → let (ending, _, db') = handle_invoice_paid_event env remote true e inbox db in
      (ending ≡ done)
      × (db'.contracts ≡ db.contracts)
      × (db'.outbox
          ≡ (publish_local env.platform env.secret env.now env.outbox_key
              (activation_failed_event env p.invoice_id c)
              db.outbox).1)
unfolding settle_contract publish
handle_invoice_paid_event_unsigned env remote e p inbox db i c fresh has of found other signed =
    let (a, b) = handled env remote e p inbox db i c fresh has of found other in
    (a, rw (b, settle_contract, signed) refl, rw (b, settle_contract, signed) refl)

-- A second payment for a contract whose activation has failed, of whatever invoice and whenever,
-- publishes nothing while the signatures are still missing and the revision is the same: no
-- failure, and so no refund, of the second payment is ever announced.
pub settle_contract_again :
    (env : Env) (remote remote' : Remote) (later key : ℕ) (invoice_id invoice_id' : Option ℕ)
    (c : Contract) (db : Db)
    → fully_signed remote c db ≡ false
    → fully_signed remote' c db ≡ false
    → let db' = settle_contract env remote invoice_id c db in
      settle_contract (record env { now = later; outbox_key = key }) remote' invoice_id' c db' ≡ db'
unfolding settle_contract publish activation_failed_event contract_event fully_signed
settle_contract_again env remote remote' later key invoice_id invoice_id' c db h h' =
    let again =
      publish_local_again env.platform env.secret env.now env.outbox_key later key
        (activation_failed_event env invoice_id c) (activation_failed_event env invoice_id' c)
        db.outbox refl refl refl in
    let o = activation_failed_event env invoice_id c in
    let first : settle_contract env remote invoice_id c db ≡ publish env o db =
      rw (settle_contract, h) refl in
    let signed : fully_signed remote' c (publish env o db) ≡ false = h' in
    rw (first, settle_contract, signed) (ap (λ r. record db { outbox = r.1 }) again)
