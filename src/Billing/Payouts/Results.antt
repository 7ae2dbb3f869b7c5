-- ===== src/Billing/Payouts/Results.antt =====
-- What the answer of PayOS to a batch writes: `persistPayoutResults`, `mapTransactionStatus` and
-- `markBatchUnknown`.
pub mod Confirmed
use service_hub_backend.Base.{
  ℕ, ◌+◌, ◌≡◌, refl, Bool, true, false, not, ◌&&◌, ◌||◌, List, [], ◌∷◌, ◌++◌, Option, none, some,
  arith, ◌==◌, if◌then◌else◌, Bool-cases, Option-cases, inl, inr, any, map, sum, All, is_some,
}
use service_hub_backend.Base.Text.{Text, codes, text_eq}
use service_hub_backend.Base.Table.{find_first, find_many, update_many}
use service_hub_backend.Reliability.Outbox.{or_null}
use service_hub_backend.Billing.Rows.{
  LedgerRow, LedgerStatus, pending, processing, succeeded, failed, unknown, cancelled, PayoutBatch,
  Db, Env,
}
use service_hub_backend.Billing.Payouts.{
  same_invoice, is_payout, is_succeeded, is_member, is_debit, debited, batch_has_id,
}

-- A transaction of the answer; its amount is in hundredths.
pub record Transaction : Type 0 where
  pub id : Option ℕ
  pub reference_id : ℕ
  pub amount : ℕ
  pub state : Text
  pub error_message : Option Text

pub record Payout : Type 0 where
  pub id : ℕ
  pub approval_state : Text
  pub transactions : List Transaction

unfoldable pub map_transaction_status : Text → LedgerStatus
map_transaction_status state =
    if text_eq state (codes "SUCCEEDED")
    then succeeded
    else if text_eq state (codes "FAILED") || text_eq state (codes "REVERSED")
    then failed
    else if text_eq state (codes "CANCELLED")
    then cancelled
    else if text_eq state (codes "RECEIVED") || text_eq state (codes "PROCESSING")
    then processing
    else unknown

abbrev pub of_batch : ℕ → LedgerRow → Bool
of_batch batch_id row = same_invoice batch_id row.payout_batch_id && is_payout row.ledger_type

abbrev pub of_provider : ℕ → LedgerRow → Bool
of_provider provider_id row = row.provider_id == provider_id

abbrev pub requested : ℕ → List LedgerRow → ℕ
requested provider_id entries =
    sum (map (λ row. row.amount) (find_many (of_provider provider_id) entries))

abbrev pub status_of : Transaction → ℕ → LedgerStatus
status_of t amount = if t.amount == amount then map_transaction_status t.state else unknown

message_of : Env → Transaction → ℕ → Option Text
message_of env t amount =
    if t.amount == amount
    then or_null t.error_message
    else some (
        codes "PayOS payout amount mismatch: expected "
        ++ (env.amount_text amount
            ++ (codes ", received " ++ (env.amount_text t.amount ++ codes "."))))

set_result : Env → Transaction → ℕ → LedgerRow → LedgerRow
unfolding message_of
set_result env t amount row = record row {
  status = status_of t amount;
  error_message = message_of env t amount;
  completed_at = if is_succeeded (status_of t amount) then some env.now else none;
  updated_at = env.now;
}

-- The key of PayOS is unique in the ledger: `none` where another row has it.
set_external : ℕ → Option ℕ → List LedgerRow → Option (List LedgerRow)
set_external key none ledger = some ledger
set_external key (some external_id) ledger =
    if any (λ row. not (row.id == key) && same_invoice external_id row.external_transaction_id)
      ledger
    then none
    else some (
        update_many (λ row. row.id == key)
          (λ row. record row { external_transaction_id = some external_id }) ledger)

-- One turn of the loop; `none` where it throws. A transaction of no entry is skipped.
persist_transaction :
    Env
    → ℕ
    → List LedgerRow
    → Transaction
    → List LedgerRow × List ℕ
    → Option (List LedgerRow × List ℕ)
unfolding set_result set_external
persist_transaction env batch_id entries t (ledger, notified) =
    elim (find_first (of_provider t.reference_id) entries) [
      | none ↦ some (ledger, notified)
      | some entry ↦
          let amount = requested t.reference_id entries in
          elim (set_external entry.id t.id (
            update_many (λ row. of_batch batch_id row && of_provider t.reference_id row)
              (set_result env t amount) ledger)) [
                | none ↦ none
                | some ledger' ↦ some (
                  ledger',
                  if is_succeeded (status_of t amount)
                      then notified ++ (t.reference_id ∷ [])
                      else notified,
                )
              ]
    ]

persist_transactions :
    Env
    → ℕ
    → List LedgerRow
    → List Transaction
    → List LedgerRow × List ℕ
    → Option (List LedgerRow × List ℕ)
unfolding persist_transaction
persist_transactions env batch_id entries [] s = some s
persist_transactions env batch_id entries (t ∷ ts) s =
    elim (persist_transaction env batch_id entries t s) [
      | none ↦ none
      | some s' ↦ persist_transactions env batch_id entries ts s'
    ]

set_missing : Env → LedgerRow → LedgerRow
set_missing env row = record row {
  status = unknown;
  error_message = some (codes "PayOS response did not include this provider transaction.");
  updated_at = env.now;
}

-- The providers of the entries that the answer leaves out.
is_missing : ℕ → List LedgerRow → List ℕ → LedgerRow → Bool
is_missing batch_id entries returned row =
    of_batch batch_id row
    && (not (is_member returned row.provider_id)
        && is_some (find_first (of_provider row.provider_id) entries))

-- `persistPayoutResults`: the providers to notify; `none` where it throws.
unfoldable pub persist_payout_results : Env → ℕ → Payout → Db → Option (List ℕ × Db)
unfolding persist_transactions set_missing is_missing
persist_payout_results env batch_id result db =
    elim (find_first (batch_has_id batch_id) db.batches) [
      | none ↦ none
      | some batch ↦
          let entries = find_many (of_batch batch_id) db.ledger in
          let returned = map (λ t. t.reference_id) result.transactions in
          elim (persist_transactions env batch_id entries result.transactions (db.ledger, [])) [
            | none ↦ none
            | some (ledger, notified) ↦ some (
              notified,
              record db {
                batches =
                    update_many (batch_has_id batch_id)
                      (λ b. record b { batch_id = result.id; status = result.approval_state })
                      db.batches;
                ledger =
                    update_many (is_missing batch_id entries returned) (set_missing env) ledger;
              },
            )
          ]
    ]

abbrev pub is_open_status : LedgerStatus → Bool
is_open_status pending = true
is_open_status processing = true
is_open_status _ = false

abbrev pub set_unknown : Env → Text → LedgerRow → LedgerRow
set_unknown env reason row = record row {
  status = unknown;
  error_message = some reason;
  updated_at = env.now;
}

-- `markBatchUnknown`, when its transaction commits.
pub mark_batch_unknown : Env → ℕ → Text → Db → Db
mark_batch_unknown env batch_id reason db = record db {
  batches =
      update_many (batch_has_id batch_id) (λ b. record b { status = codes "PROCESSING" })
        db.batches;
  ledger =
      update_many (λ row. of_batch batch_id row && is_open_status row.status)
        (set_unknown env reason) db.ledger;
}
