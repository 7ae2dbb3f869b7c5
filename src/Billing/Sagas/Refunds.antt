-- ===== src/Billing/Sagas/Refunds.antt =====
-- `handleContractActivationFailedEvent`: the refund of a contract that could not be activated.
use service_hub_backend.Base.{
  same_key, ℕ, ◌≡◌, refl, Bool, true, false, ◌&&◌, List, [], ◌∷◌, Option, none, some, arith, ◌==◌,
  leb, ◌+◌, if◌then◌else◌, is_some,
}
use service_hub_backend.Base.Text.{Text, codes}
use service_hub_backend.Base.Table.{
  find_first, find_many, update_many, find_first-update_many, find_first_holds,
}
use service_hub_backend.Reliability.Json.{obj, end}
use service_hub_backend.Reliability.Outbox.Publishing.{IsPublished, publish_local-IsPublished}
use service_hub_backend.Reliability.Outbox.{PublishOptions, or_text, publish_local}
use service_hub_backend.Reliability.Inbox.{InboxRow, Ending, done, consume}
use service_hub_backend.Reliability.Inbox.Once.{has_event, consume_done}
use service_hub_backend.Billing.Rows.{
  Invoice, Payment, failed, Db, Env, is_paid, is_success, invoice_has_id, text_field, key_field,
  key_field?, amount_field, date_field,
}
use service_hub_backend.Billing.Payments.{next_revision}
use service_hub_backend.Billing.Sagas.{Event, claim_of, or_key}
use service_hub_backend.Billing.Sagas.Cancelled.{payment_of}

-- The payload; an absent one has no keys.
pub record ActivationFailed : Type 0 where
  pub contract_id : Option ℕ
  pub invoice_id : Option ℕ
  pub reason : Option Text

-- `findFirst` with `orderBy: { updatedAt: 'desc' }`.
latest : List Invoice → Option Invoice
latest [] = none
latest (x ∷ xs) = elim (latest xs) [
  | none ↦ some x
  | some y ↦ if leb y.updated_at x.updated_at then some x else some y
]

paid_of : ℕ → Invoice → Bool
paid_of contract_id invoice = same_key invoice.contract_id contract_id && is_paid invoice.status

by_contract : Option ℕ → Db → Option Invoice
unfolding latest paid_of
by_contract none db = none
by_contract (some contract_id) db = latest (find_many (paid_of contract_id) db.invoices)

by_key : Option ℕ → Db → Option Invoice
by_key none db = none
by_key (some i) db = find_first (invoice_has_id i) db.invoices

pub refunded_invoice : Option ℕ → ActivationFailed → Db → Option Invoice
unfolding by_contract by_key
refunded_invoice aggregate_id p db = elim (by_key (or_key p.invoice_id aggregate_id) db) [
  | some invoice ↦ some invoice
  | none ↦ by_contract p.contract_id db
]

abbrev pub set_revision : ℕ → Invoice → Invoice
set_revision now invoice = record invoice {
  revision = next_revision invoice.revision;
  updated_at = now;
}

abbrev pub success_of : ℕ → Payment → Bool
success_of i p = p.invoice_id == i && is_success p.status

abbrev pub set_failed : Payment → Payment
set_failed p = record p { status = failed }

fail_payments : ℕ → List Payment → List Payment
fail_payments i payments =
    if is_some (find_first (payment_of i) payments)
    then update_many (success_of i) set_failed payments
    else payments

pub refund_event : Env → ActivationFailed → Invoice → PublishOptions
refund_event env p invoice = record {
  event_type = codes "billing.refund_requested.v1";
  source = none;
  subject = none;
  ordering_key = none;
  aggregate_type = codes "Invoice";
  aggregate_id = env.uuid invoice.id;
  aggregate_revision = some (next_revision invoice.revision);
  payload = obj (
      key_field env (codes "invoiceId") invoice.id (
        text_field env (codes "invoiceNumber") invoice.invoice_number (
          key_field? env (codes "contractId") invoice.contract_id (
            key_field? env (codes "customerId") invoice.customer_id (
              key_field env (codes "providerId") invoice.provider_id (
                amount_field env (codes "amount") invoice.total (
                  text_field env (codes "reason")
                    (or_text p.reason
                      (codes "Kích hoạt hợp đồng thất bại do không đủ chữ ký số hợp lệ."))
                    (text_field env (codes "status") (codes "REFUND_PENDING")
                      (date_field env (codes "refundRequestedAt") env.now end)))))))));
  correlation_id = none;
}

-- The writes for the invoice that was found.
pub refund : Env → ActivationFailed → Invoice → Db → Db
unfolding fail_payments refund_event
refund env p invoice db = record db {
  invoices =
      update_many (invoice_has_id invoice.id)
        (λ x. set_revision env.now (record x { revision = invoice.revision })) db.invoices;
  payments = fail_payments invoice.id db.payments;
  outbox =
      (publish_local env.platform env.secret env.now env.outbox_key (refund_event env p invoice)
        db.outbox).1;
}

abbrev pub payload_of : Event ActivationFailed → ActivationFailed
payload_of e = elim e.payload [
  | none ↦ record { contract_id = none; invoice_id = none; reason = none }
  | some p ↦ p
]

-- The transaction; `commits` is false where the database fails.
refund_body : Env → Bool → Event ActivationFailed → Db → Option Db
unfolding refunded_invoice refund
refund_body env commits e db = elim (refunded_invoice e.aggregate_id (payload_of e) db) [
  | none ↦ if commits then some db else none
  | some invoice ↦ if commits then some (refund env (payload_of e) invoice db) else none
]

pub handle_contract_activation_failed :
    Env → Bool → Event ActivationFailed → List InboxRow → Db → Ending × List InboxRow × Db
unfolding refund_body claim_of
handle_contract_activation_failed env commits e inbox db =
    consume (claim_of (codes "billing-contract-activation-failed-consumer") e) env.now
      (refund_body env commits e) inbox db

fail_payments_none :
    (i : ℕ) (payments : List Payment)
    → find_first (success_of i) (update_many (success_of i) set_failed payments) ≡ none
fail_payments_none i [] = refl
fail_payments_none i (x ∷ payments) = ground (arith, fail_payments_none i payments)

no_success :
    (i : ℕ) (payments : List Payment)
    → is_some (find_first (payment_of i) payments) ≡ false
    → find_first (success_of i) payments ≡ none
no_success i [] h = refl
no_success i (x ∷ payments) h = ground (arith, no_success i payments)

fail_payments_lem :
    (i : ℕ) (payments : List Payment) → find_first (success_of i) (fail_payments i payments) ≡ none
unfolding fail_payments
fail_payments_lem i payments = ground (arith, fail_payments_none i payments, no_success i payments)

-- The first delivery of a failed activation that names an invoice, in a transaction that commits:
-- the invoice is at the next revision with its status left as it was (PAID or not), no payment of
-- it is SUCCESS any more, and the outbox has a request for the refund under that revision: an earlier
-- one, or a new one whose payload asks for the invoice's total.
pub handle_contract_activation_failed_refunds :
    (env : Env) (e : Event ActivationFailed) (inbox : List InboxRow) (db : Db) (i : ℕ)
    (invoice : Invoice)
    → has_event (codes "billing-contract-activation-failed-consumer") e.id inbox ≡ false
    → or_key (payload_of e).invoice_id e.aggregate_id ≡ some i
    → find_first (invoice_has_id i) db.invoices ≡ some invoice
    → let (ending, _, db') = handle_contract_activation_failed env true e inbox db in
      (ending ≡ done)
      × (find_first (invoice_has_id i) db'.invoices
          ≡ some (record invoice {
            revision = (if invoice.revision == 0 then 1 else invoice.revision) + 1;
            updated_at = env.now;
          }))
      × (find_first (success_of i) db'.payments ≡ none)
      × IsPublished
          (codes "billing.refund_requested.v1")
          (env.uuid invoice.id)
          ((if invoice.revision == 0 then 1 else invoice.revision) + 1)
          (obj (
            key_field env (codes "invoiceId") invoice.id (
              text_field env (codes "invoiceNumber") invoice.invoice_number (
                key_field? env (codes "contractId") invoice.contract_id (
                  key_field? env (codes "customerId") invoice.customer_id (
                    key_field env (codes "providerId") invoice.provider_id (
                      amount_field env (codes "amount") invoice.total (
                        text_field env
                          (codes "reason")
                          (or_text
                            (payload_of e).reason
                            (codes "Kích hoạt hợp đồng thất bại do không đủ chữ ký số hợp lệ."))
                          (text_field env
                            (codes "status")
                            (codes "REFUND_PENDING")
                            (date_field env (codes "refundRequestedAt") env.now end))))))))))
          db.outbox
          db'.outbox
unfolding handle_contract_activation_failed claim_of refund_body refunded_invoice by_key refund
    refund_event
handle_contract_activation_failed_refunds env e inbox db i invoice fresh target found =
    let same : (invoice.id == i) ≡ true = find_first_holds (invoice_has_id i) db.invoices found in
    let id : invoice.id ≡ i = ground arith in
    let run : refund_body env true e db ≡ some (refund env (payload_of e) invoice db) =
      ground arith in
    let (a, b, _) =
      consume_done (claim_of (codes "billing-contract-activation-failed-consumer") e) env.now
        (refund_body env true e) inbox db (refund env (payload_of e) invoice db) fresh run in
    let updated : find_first (invoice_has_id i) (refund env (payload_of e) invoice db).invoices
        ≡ some (set_revision env.now invoice) =
      ground (
        arith,
        id,
        found,
        same,
        find_first-update_many (invoice_has_id i) (invoice_has_id invoice.id)
            (λ x. set_revision env.now (record x { revision = invoice.revision })) db.invoices
            (λ x. refl),
      ) in
    let failed : find_first (success_of i) (refund env (payload_of e) invoice db).payments ≡ none =
      rw id (fail_payments_lem i db.payments) in
    (
      a,
      rw b updated,
      rw b failed,
      rw b (
          publish_local-IsPublished env.platform env.secret env.now env.outbox_key
            (refund_event env (payload_of e) invoice) db.outbox),
    )
