-- ===== src/Billing/Payouts.antt =====
-- apps/billing-service/src/payouts/payouts.service.ts: which revenue is paid out to the providers,
-- and how a batch reserves it in the ledger. Sums of amounts are exact.
pub mod Eligible
pub mod Reservation
pub mod Results
pub mod Queue
mod Tests
use service_hub_backend.Base.{
  ℕ, ◌+◌, ◌-◌, ◌*◌, ◌%◌, Bool, true, false, not, ◌&&◌, ◌||◌, List, [], ◌∷◌, ◌++◌, Option, none,
  some, ◌==◌, leb, if◌then◌else◌, all, any, length, map, sum, or_else, is_some,
}
use service_hub_backend.Base.Text.{Text, codes}
use service_hub_backend.Base.Table.{find_first}
use service_hub_backend.Billing.Rows.{
  Invoice, LedgerRow, LedgerType, income, payout, refund, LedgerStatus, pending, processing,
  succeeded, failed, unknown, cancelled, payout_of, PayoutBatch, Db, Env, is_paid, invoice_has_id,
  ledger_has_reference,
}

pub record EligibleInvoice : Type 0 where
  pub invoice_id : ℕ
  pub invoice_number : Text
  pub provider_id : ℕ
  pub amount : ℕ

abbrev pub is_income : LedgerType → Bool
is_income income = true
is_income _ = false

abbrev pub is_payout : LedgerType → Bool
is_payout payout = true
is_payout _ = false

abbrev pub is_succeeded : LedgerStatus → Bool
is_succeeded succeeded = true
is_succeeded _ = false

-- `status: { in: ["PENDING", "PROCESSING", "SUCCEEDED", "UNKNOWN"] }`
abbrev pub is_held : LedgerStatus → Bool
is_held pending = true
is_held processing = true
is_held succeeded = true
is_held unknown = true
is_held failed = false
is_held cancelled = false

abbrev pub same_invoice : ℕ → Option ℕ → Bool
same_invoice i none = false
same_invoice i (some j) = j == i

abbrev pub is_debit : ℕ → LedgerRow → Bool
is_debit i row = is_payout row.ledger_type && (same_invoice i row.invoice_id && is_held row.status)

-- `debitedByInvoice.get(i) ?? 0`
unfoldable pub debited : ℕ → List LedgerRow → ℕ
debited i [] = 0
debited i (row ∷ rows) =
    let rest = debited i rows in if is_debit i row then row.amount + rest else rest

-- `Number.isSafeInteger`, for an amount in hundredths.
abbrev pub is_safe_integer : ℕ → Bool
is_safe_integer a = (a % 100 == 0) && leb a (9007199254740991 * 100)

paid_invoice : Option ℕ → List Invoice → Option Invoice
paid_invoice none invoices = none
paid_invoice (some i) invoices = elim (find_first (invoice_has_id i) invoices) [
  | none ↦ none
  | some invoice ↦ if is_paid invoice.status then some invoice else none
]

-- What is left of a credit.
remaining_of : LedgerRow → Invoice → List LedgerRow → Option EligibleInvoice
unfolding debited
remaining_of row invoice ledger =
    let spent = debited (or_else row.invoice_id 0) ledger in
    if leb row.amount spent
    then none
    else if is_safe_integer (row.amount - spent)
    then some (record {
      invoice_id = invoice.id;
      invoice_number = invoice.invoice_number;
      provider_id = invoice.provider_id;
      amount = row.amount - spent;
    })
    else none

pub eligible_of : Db → LedgerRow → Option EligibleInvoice
unfolding paid_invoice remaining_of
eligible_of db row =
    if is_income row.ledger_type && is_succeeded row.status
    then elim (paid_invoice row.invoice_id db.invoices) [
      | none ↦ none
      | some invoice ↦ remaining_of row invoice db.ledger
    ]
    else none

eligible_rows : Db → List LedgerRow → List EligibleInvoice
unfolding eligible_of
eligible_rows db [] = []
eligible_rows db (row ∷ rows) = elim (eligible_of db row) [
  | none ↦ eligible_rows db rows
  | some e ↦ e ∷ eligible_rows db rows
]

-- `findEligibleInvoices`
pub find_eligible_invoices : Db → List EligibleInvoice
unfolding eligible_rows
find_eligible_invoices db = eligible_rows db db.ledger

-- A provider's item of the request to PayOS.
pub record PayoutItem : Type 0 where
  pub reference_id : ℕ
  pub amount : ℕ

-- A job of kind PAYOUT that has its data. `invoice_map` and `invoice_amounts` are objects.
pub record PayoutRetryJob : Type 0 where
  pub payout_batch_id : ℕ
  pub reference_id : ℕ
  pub payout_id : Option ℕ
  pub enqueued_at : ℕ
  pub payouts : List PayoutItem
  pub invoice_map : List (ℕ × List ℕ)
  pub invoice_amounts : List (ℕ × List (ℕ × ℕ))

get {ℓ} : {A : Type ℓ} → ℕ → List (ℕ × A) → Option A
get k [] = none
get k ((j, a) ∷ rest) = if j == k then some a else get k rest

abbrev pub is_member : List ℕ → ℕ → Bool
is_member ids i = any (λ j. j == i) ids

-- The checks of one item before the transaction.
is_allocated : PayoutRetryJob → PayoutItem → Bool
unfolding get
is_allocated job item = elim (get item.reference_id job.invoice_amounts) [
  | none ↦ false
  | some amounts ↦
      let ids = or_else (get item.reference_id job.invoice_map) [] in
      let total = sum (map (λ p. p.1) amounts) in
      not (length ids == 0)
      && (is_safe_integer total
          && ((total == item.amount)
              && ((length amounts == length ids) && all (λ p. is_member ids p.0) amounts)))
]

-- The new ledger row; its key is the job's, made different by the invoice's.
pub reservation : Env → PayoutRetryJob → ℕ → ℕ → ℕ → LedgerRow
reservation env job provider_id invoice_id amount = record {
  id = env.ledger_key + invoice_id;
  provider_id = provider_id;
  invoice_id = some invoice_id;
  payout_batch_id = some job.payout_batch_id;
  ledger_type = payout;
  amount = amount;
  status = pending;
  reference_id = payout_of job.reference_id provider_id invoice_id;
  external_transaction_id = none;
  error_message = none;
  created_at = env.now;
  updated_at = env.now;
  completed_at = none;
}

abbrev pub agrees : PayoutRetryJob → ℕ → ℕ → ℕ → LedgerRow → Bool
agrees job provider_id invoice_id amount row =
    (row.provider_id == provider_id)
    && (same_invoice invoice_id row.invoice_id
        && ((row.amount == amount) && same_invoice job.payout_batch_id row.payout_batch_id))

-- One turn of the inner loop: `none` where the reservation conflicts with an earlier one.
pub reserve : Env → PayoutRetryJob → ℕ → ℕ × ℕ → List LedgerRow → Option (List LedgerRow)
unfolding reservation
reserve env job provider_id (invoice_id, amount) ledger =
    elim (find_first (ledger_has_reference (payout_of job.reference_id provider_id invoice_id))
      ledger) [
        | some row ↦ if agrees job provider_id invoice_id amount row then some ledger else none
        | none ↦ some (ledger ++ (reservation env job provider_id invoice_id amount ∷ []))
      ]

pub reserve_all : Env → PayoutRetryJob → ℕ → List (ℕ × ℕ) → List LedgerRow → Option (List LedgerRow)
unfolding reserve
reserve_all env job provider_id [] ledger = some ledger
reserve_all env job provider_id (p ∷ amounts) ledger = elim (reserve env job provider_id p ledger) [
  | none ↦ none
  | some ledger' ↦ reserve_all env job provider_id amounts ledger'
]

reserve_providers :
    Env → PayoutRetryJob → List (ℕ × List (ℕ × ℕ)) → List LedgerRow → Option (List LedgerRow)
unfolding reserve_all
reserve_providers env job [] ledger = some ledger
reserve_providers env job ((provider_id, amounts) ∷ rest) ledger =
    if any (λ item. item.reference_id == provider_id) job.payouts
    then elim (reserve_all env job provider_id amounts ledger) [
      | none ↦ none
      | some ledger' ↦ reserve_providers env job rest ledger'
    ]
    else none

abbrev pub batch_has_id : ℕ → PayoutBatch → Bool
batch_has_id i batch = batch.id == i

is_other_payout : Option ℕ → ℕ → Bool
is_other_payout none batch_id = false
is_other_payout (some payout_id) batch_id = not (batch_id == payout_id)

abbrev pub new_batch : PayoutRetryJob → PayoutBatch
new_batch job = record {
  id = job.payout_batch_id;
  batch_id = job.reference_id;
  status = codes "DRAFTING";
  created_at = job.enqueued_at;
}

-- The batch is found, or written; `none` where it is another one's.
find_batch : PayoutRetryJob → List PayoutBatch → Option (List PayoutBatch)
unfolding is_other_payout
find_batch job batches = elim (find_first (batch_has_id job.payout_batch_id) batches) [
  | some batch ↦
      if not (batch.batch_id == job.reference_id) && is_other_payout job.payout_id batch.batch_id
      then none
      else some batches
  | none ↦ some (batches ++ (new_batch job ∷ []))
]

-- `ensureBatchReservation`: `none` where it throws, and then nothing is written.
pub ensure_batch_reservation : Env → PayoutRetryJob → Db → Option Db
unfolding is_allocated find_batch reserve_providers
ensure_batch_reservation env job db =
    if all (is_allocated job) job.payouts
    then elim (find_batch job db.batches) [
      | none ↦ none
      | some batches ↦ elim (reserve_providers env job job.invoice_amounts db.ledger) [
        | none ↦ none
        | some ledger ↦ some (record db { batches = batches; ledger = ledger })
      ]
    ]
    else none
