-- ===== src/Billing/Sagas/Tests.antt =====
-- Events of the contract service at the billing service.
use service_hub_backend.Base.{◌≡◌, refl, true, [], ◌∷◌, none, some}
use service_hub_backend.Base.Text.{codes}
use service_hub_backend.Base.Table.{find_first}
use service_hub_backend.Reliability.Inbox.{done}
use service_hub_backend.Reliability.Outbox.{or_text}
use service_hub_backend.Billing.Rows.{
  key_field, key_field?, text_field, amount_field, date_field, Db, Invoice, invoice_has_id,
}
use service_hub_backend.Billing.Payments.{set_paid}
use service_hub_backend.Billing.Payments.Tests.{sample_env, sample_invoice, sample_db}
use service_hub_backend.Billing.Sagas.{Event}
use service_hub_backend.Billing.Sagas.Cancelled.{
  ContractCancelled, contract_of, payment_of, item_of, handle_contract_cancelled,
  handle_contract_cancelled_deletes,
}
use service_hub_backend.Reliability.Json.{obj, end}
use service_hub_backend.Reliability.Outbox.Publishing.{IsPublished}
use service_hub_backend.Billing.Sagas.Refunds.{
  ActivationFailed, success_of, payload_of, handle_contract_activation_failed,
  handle_contract_activation_failed_refunds,
}
use service_hub_backend.Billing.Sagas.Fines.{
  FineImposed, is_fine, case_ref, impose_fine, impose_fine_again,
}

abbrev cancelled : Event ContractCancelled
cancelled = record {
  id = 1;
  event_type = codes "contract.cancelled.v1";
  source = codes "servicehub.internal";
  ordering_key = codes "6";
  aggregate_id = some 6;
  payload = none;
}

abbrev pay : Db → Db
pay db = record db { invoices = set_paid 99 sample_invoice ∷ [] }

abbrev paid_other : Invoice
paid_other = record sample_invoice { id = 12; contract_id = some 9 }

abbrev two_invoices : Db
two_invoices = record sample_db { invoices = sample_invoice ∷ paid_other ∷ [] }

of_contract : contract_of cancelled ≡ some 6
unfolding contract_of
of_contract = refl

handle_contract_cancelled_deletes_example :
    let (ending, _, db') = handle_contract_cancelled pay true 100 cancelled [] sample_db in
    (ending ≡ done)
    × (find_first (invoice_has_id 11) db'.invoices ≡ none)
    × (find_first (payment_of 11) db'.payments ≡ none)
    × (find_first (item_of 11) db'.items ≡ none)
handle_contract_cancelled_deletes_example =
    handle_contract_cancelled_deletes pay 100 cancelled [] sample_db 6 11 sample_invoice refl
      of_contract refl refl

abbrev activation_failed : Event ActivationFailed
activation_failed = record {
  id = 2;
  event_type = codes "contract.activation_failed.v1";
  source = codes "servicehub.internal";
  ordering_key = codes "6";
  aggregate_id = some 6;
  payload = some (record { contract_id = some 6; invoice_id = some 11; reason = none });
}

handle_contract_activation_failed_refunds_example :
    let (ending, _, db') =
      handle_contract_activation_failed sample_env true activation_failed [] sample_db in
    (ending ≡ done)
    × (find_first (invoice_has_id 11) db'.invoices
        ≡ some (record sample_invoice { revision = 2; updated_at = 100 }))
    × (find_first (success_of 11) db'.payments ≡ none)
    × IsPublished
        (codes "billing.refund_requested.v1")
        (sample_env.uuid 11)
        2
        (obj (
          key_field sample_env (codes "invoiceId") sample_invoice.id (
            text_field sample_env (codes "invoiceNumber") sample_invoice.invoice_number (
              key_field? sample_env (codes "contractId") sample_invoice.contract_id (
                key_field? sample_env (codes "customerId") sample_invoice.customer_id (
                  key_field sample_env (codes "providerId") sample_invoice.provider_id (
                    amount_field sample_env (codes "amount") sample_invoice.total (
                      text_field sample_env
                        (codes "reason")
                        (or_text
                          (payload_of activation_failed).reason
                          (codes "Kích hoạt hợp đồng thất bại do không đủ chữ ký số hợp lệ."))
                        (text_field sample_env (codes "status") (codes "REFUND_PENDING") (
                          date_field sample_env
                            (codes "refundRequestedAt")
                            sample_env.now
                            end))))))))))
        []
        db'.outbox
handle_contract_activation_failed_refunds_example =
    handle_contract_activation_failed_refunds sample_env activation_failed [] sample_db 11
      sample_invoice refl refl refl

abbrev fine : FineImposed
fine = record {
  violation_case_id = codes "0a1b2c3d-1111";
  contract_id = some 6;
  provider_id = 7;
  customer_id = 5;
  fine_amount = 0;
  reason = codes "noise";
}

abbrev other_fine : FineImposed
other_fine = record fine { violation_case_id = codes "0a1b2c3d-2222"; fine_amount = 900 }

abbrev fine_imposed : Event FineImposed
fine_imposed = record {
  id = 3;
  event_type = codes "violation.fine_imposed.v1";
  source = codes "servicehub.internal";
  ordering_key = codes "6";
  aggregate_id = some 6;
  payload = some fine;
}

no_fine : find_first (is_fine (case_ref fine.violation_case_id)) sample_db.invoices ≡ none
unfolding is_fine case_ref
no_fine = refl

same_ref : case_ref other_fine.violation_case_id ≡ case_ref fine.violation_case_id
unfolding case_ref
same_ref = refl

impose_fine_again_example :
    impose_fine sample_env
      (codes "5678")
      other_fine
      (impose_fine sample_env (codes "1234") fine sample_db)
    ≡ impose_fine sample_env (codes "1234") fine sample_db
impose_fine_again_example =
    impose_fine_again sample_env sample_env (codes "1234") (codes "5678") fine other_fine sample_db
      same_ref
