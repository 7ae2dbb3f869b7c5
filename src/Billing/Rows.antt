-- ===== src/Billing/Rows.antt =====
-- The tables of apps/billing-service that the modelled operations read or write. Keys, payment
-- links and idempotency keys are only compared, so they are numbers, and an absent or empty one is
-- `none`. Money is in hundredths of a dong (the columns are DECIMAL(18, 2)), times in milliseconds.
use service_hub_backend.Base.{ℕ, Bool, true, false, List, Option, none, some, ◌==◌, ◌&&◌}
use service_hub_backend.Base.Text.{Text}
use service_hub_backend.Reliability.Json.{Fields, null, num, str, field}
use service_hub_backend.Reliability.Outbox.{Platform, OutboxRow}

pub data InvoiceStatus : Type 0 where
  unpaid paid overdue : InvoiceStatus

pub record Invoice : Type 0 where
  pub id : ℕ
  pub invoice_number : Text
  pub customer_id : Option ℕ
  pub contract_id : Option ℕ
  pub provider_id : ℕ
  pub total : ℕ
  pub status : InvoiceStatus
  pub revision : ℕ
  pub created_at : ℕ
  pub updated_at : ℕ

pub data PaymentMethod : Type 0 where
  cash transfer : PaymentMethod

pub data PaymentStatus : Type 0 where
  pending success failed : PaymentStatus

pub record Payment : Type 0 where
  pub id : ℕ
  pub invoice_id : ℕ
  pub payment_method : PaymentMethod
  pub payment_link_id : Option ℕ
  pub status : PaymentStatus
  pub paid_at : Option ℕ
  pub created_at : ℕ

pub record InvoiceItem : Type 0 where
  pub invoice_id : ℕ
  pub quantity : ℕ
  pub unit : Text
  pub unit_price : ℕ
  pub amount : ℕ
  pub created_at : ℕ

pub data LedgerType : Type 0 where
  income payout refund : LedgerType

pub data LedgerStatus : Type 0 where
  pending processing succeeded failed unknown cancelled : LedgerStatus

-- The texts `INVOICE_PAYMENT:<invoice>` and `PAYOUT:<reference>:<provider>:<invoice>`.
pub data ReferenceId : Type 0 where
  invoice_payment : ℕ → ReferenceId
  payout_of : ℕ → ℕ → ℕ → ReferenceId

pub record LedgerRow : Type 0 where
  pub id : ℕ
  pub provider_id : ℕ
  pub invoice_id : Option ℕ
  pub payout_batch_id : Option ℕ
  pub ledger_type : LedgerType
  pub amount : ℕ
  pub status : LedgerStatus
  pub reference_id : ReferenceId
  pub external_transaction_id : Option ℕ
  pub error_message : Option Text
  pub created_at : ℕ
  pub updated_at : ℕ
  pub completed_at : Option ℕ

pub record PayoutBatch : Type 0 where
  pub id : ℕ
  pub batch_id : ℕ
  pub status : Text
  pub created_at : ℕ

pub record Db : Type 0 where
  pub invoices : List Invoice
  pub items : List InvoiceItem
  pub payments : List Payment
  pub ledger : List LedgerRow
  pub batches : List PayoutBatch
  pub outbox : List OutboxRow

-- What a transaction takes from outside: the runtime's functions, the outbox secret, the clock,
-- the keys that the database gives to new rows, and how keys and amounts are printed.
pub record Env : Type 0 where
  pub platform : Platform
  pub secret : Text
  pub now : ℕ
  pub payment_key : ℕ
  pub ledger_key : ℕ
  pub outbox_key : ℕ
  pub invoice_key : ℕ
  pub uuid : ℕ → Text
  pub amount_text : ℕ → Text

abbrev pub is_paid : InvoiceStatus → Bool
is_paid paid = true
is_paid _ = false

abbrev pub is_pending : PaymentStatus → Bool
is_pending pending = true
is_pending _ = false

abbrev pub is_success : PaymentStatus → Bool
is_success success = true
is_success _ = false

abbrev pub invoice_has_id : ℕ → Invoice → Bool
invoice_has_id i invoice = invoice.id == i

abbrev pub payment_has_id : ℕ → Payment → Bool
payment_has_id i payment = payment.id == i

abbrev pub payment_has_link : ℕ → Payment → Bool
payment_has_link link payment = elim payment.payment_link_id [ none ↦ false | some l ↦ l == link ]

abbrev pub same_reference : ReferenceId → ReferenceId → Bool
same_reference (invoice_payment i) (invoice_payment j) = i == j
same_reference (invoice_payment i) (payout_of a b c) = false
same_reference (payout_of r p i) (invoice_payment j) = false
same_reference (payout_of r p i) (payout_of s q j) = (r == s) && ((p == q) && (i == j))

abbrev pub ledger_has_reference : ReferenceId → LedgerRow → Bool
ledger_has_reference r row = same_reference row.reference_id r

-- Members of the JSON payloads; `null` stands for an absent key.
abbrev pub text_field : Env → Text → Text → Fields → Fields
text_field env k v rest = field k (str v) rest

abbrev pub key_field : Env → Text → ℕ → Fields → Fields
key_field env k i rest = field k (str (env.uuid i)) rest

abbrev pub key_field? : Env → Text → Option ℕ → Fields → Fields
key_field? env k none rest = field k null rest
key_field? env k (some i) rest = field k (str (env.uuid i)) rest

abbrev pub amount_field : Env → Text → ℕ → Fields → Fields
amount_field env k a rest = field k (num (env.amount_text a)) rest

-- A `Date` is printed as its ISO text.
abbrev pub date_field : Env → Text → ℕ → Fields → Fields
date_field env k t rest = field k (str (env.platform.iso t)) rest
