-- ===== src/Billing/Payouts/Tests.antt =====
-- A payout of one invoice to one provider.
use service_hub_backend.Base.{
  false, ◌==◌, ◌+◌, ◌<◌, ◌≡◌, ◌&&◌, refl, true, List, [], ◌∷◌, some, none, All,
}
use service_hub_backend.Base.Text.{codes, text_eq}
use service_hub_backend.Base.Table.{find_first, find_many}
use service_hub_backend.Billing.Rows.{LedgerRow, payout_of, Db, ledger_has_reference, LedgerStatus}
use service_hub_backend.Billing.Payments.{set_paid, credit_row}
use service_hub_backend.Billing.Payments.Tests.{sample_env, sample_invoice, sample_db}
use service_hub_backend.Billing.Payouts.{
  EligibleInvoice, is_income, is_succeeded, debited, eligible_of, PayoutRetryJob, reservation,
  reserve, ensure_batch_reservation,
}
use service_hub_backend.Billing.Payouts.Eligible.{eligible_of_remaining, eligible_of-reserve}
use service_hub_backend.Billing.Payouts.Reservation.{ensure_batch_reservation_again}
use service_hub_backend.Billing.Payouts.Queue.{QueuedJob, RetryQueue, Run}
use service_hub_backend.Billing.Payouts.Results.{
  Payout, of_batch, persist_payout_results, mark_batch_unknown, map_transaction_status,
}
use service_hub_backend.Billing.Payouts.Results.Confirmed.{
  IsConfirmed, persist_payout_results-IsConfirmed, debited-mark_batch_unknown,
}

-- 900 dong in hundredths.
abbrev credit : LedgerRow
credit = record (credit_row sample_env sample_invoice 60 90000) { id = 30 }

abbrev credited_db : Db
credited_db = record sample_db { invoices = set_paid 60 sample_invoice ∷ []; ledger = credit ∷ [] }

abbrev eligible : EligibleInvoice
eligible = record {
  invoice_id = 11;
  invoice_number = codes "INV-1";
  provider_id = 7;
  amount = 90000;
}

abbrev job : PayoutRetryJob
job = record {
  payout_batch_id = 50;
  reference_id = 1700;
  payout_id = none;
  enqueued_at = 90;
  payouts = record { reference_id = 7; amount = 90000 } ∷ [];
  invoice_map = (7, 11 ∷ []) ∷ [];
  invoice_amounts = (7, (11, 90000) ∷ []) ∷ [];
}

abbrev reserved : List LedgerRow
reserved = credit ∷ reservation sample_env job 7 11 90000 ∷ []

abbrev reserved_db : Db
reserved_db = record credited_db {
  batches = record { id = 50; batch_id = 1700; status = codes "DRAFTING"; created_at = 90 } ∷ [];
  ledger = reserved;
}

is_eligible : eligible_of credited_db credit ≡ some eligible
unfolding eligible_of credit_row
is_eligible = refl

eligible_of_remaining_example :
    (is_income credit.ledger_type && is_succeeded credit.status ≡ true)
    × (credit.invoice_id ≡ some 11)
    × (0 < 90000)
    × (90000 + debited 11 credited_db.ledger ≡ credit.amount)
eligible_of_remaining_example = eligible_of_remaining credited_db credit eligible is_eligible

not_reserved : find_first (ledger_has_reference (payout_of 1700 7 11)) credited_db.ledger ≡ none
unfolding credit_row
not_reserved = refl

reserves : reserve sample_env job 7 (11, 90000) credited_db.ledger ≡ some reserved
unfolding reserve credit_row
reserves = refl

eligible_of-reserve_example : eligible_of (record credited_db { ledger = reserved }) credit ≡ none
eligible_of-reserve_example =
    eligible_of-reserve sample_env job 7 credited_db credit eligible reserved is_eligible
      not_reserved reserves

ensures : ensure_batch_reservation sample_env job credited_db ≡ some reserved_db
unfolding ensure_batch_reservation credit_row
ensures = refl

ensure_batch_reservation_again_example :
    ensure_batch_reservation sample_env job reserved_db ≡ some reserved_db
ensure_batch_reservation_again_example =
    ensure_batch_reservation_again sample_env sample_env job credited_db reserved_db ensures

abbrev answer : Payout
answer = record {
  id = 60;
  approval_state = codes "COMPLETED";
  transactions =
      record {
        id = some 61;
        reference_id = 7;
        amount = 90000;
        state = codes "SUCCEEDED";
        error_message = none;
      }
      ∷ [];
}

abbrev after_answer : Db
after_answer = record reserved_db {
  batches = record { id = 50; batch_id = 60; status = codes "COMPLETED"; created_at = 90 } ∷ [];
  ledger =
      credit
      ∷ record (reservation sample_env job 7 11 90000) {
        status = LedgerStatus.succeeded;
        external_transaction_id = some 61;
        completed_at = some 100;
      }
      ∷ [];
}

persists : persist_payout_results sample_env 50 answer reserved_db ≡ some (7 ∷ [], after_answer)
unfolding persist_payout_results reservation credit_row map_transaction_status text_eq
persists = refl

persist_payout_results-IsConfirmed_example :
    All (IsConfirmed (find_many (of_batch 50) reserved_db.ledger) answer.transactions) (7 ∷ [])
persist_payout_results-IsConfirmed_example =
    persist_payout_results-IsConfirmed sample_env 50 answer reserved_db after_answer (7 ∷ [])
      persists

debited-mark_batch_unknown_example :
    debited 11 (mark_batch_unknown sample_env 50 (codes "timeout") reserved_db).ledger
    ≡ debited 11 reserved_db.ledger
debited-mark_batch_unknown_example =
    debited-mark_batch_unknown sample_env 50 (codes "timeout") reserved_db 11

abbrev first_job : QueuedJob
first_job = record {
  job_id = 1;
  is_notification = false;
  content = 0;
  attempt = 0;
  enqueued_at = 5;
}

abbrev second_job : QueuedJob
second_job = record first_job { job_id = 2 }

abbrev in_flight : QueuedJob
in_flight = record first_job { job_id = 3 }

abbrev queue : RetryQueue
queue = record {
  queue = second_job ∷ first_job ∷ [];
  processing = in_flight ∷ [];
  dedupe = [];
  done = [];
}

-- The second job fails.
abbrev run_one : QueuedJob → Run
run_one job = record { content = 0; follow_up = none; is_ok = job.job_id == 1 }
