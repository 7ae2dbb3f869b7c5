-- ===== src/Billing/Sagas.antt =====
-- apps/billing-service/src/invoices/invoices.service.ts: the handlers of other services' events.
pub mod Cancelled
pub mod Refunds
pub mod Fines
mod Tests
use service_hub_backend.Base.{ℕ, Option, none, some, List}
use service_hub_backend.Base.Text.{Text}
use service_hub_backend.Reliability.Inbox.{ClaimOptions, InboxRow, Ending, consume}
use service_hub_backend.Billing.Rows.{Db}

-- An `EventEnvelope` with a payload of the given type, as far as the handlers read it.
pub record Event (A : Type 0) : Type 0 where
  pub id : ℕ
  pub event_type : Text
  pub source : Text
  pub ordering_key : Text
  pub aggregate_id : Option ℕ
  pub payload : Option A

module _ {A : Type 0} where
  unfoldable pub claim_of : Text → Event A → ClaimOptions
  claim_of consumer_name e = record {
    consumer_name = consumer_name;
    event_id = e.id;
    event_type = e.event_type;
    producer = some e.source;
    ordering_key = some e.ordering_key;
    payload_hash = none;
  }

-- `x || y` on keys.
abbrev pub or_key : Option ℕ → Option ℕ → Option ℕ
or_key none y = y
or_key (some x) y = some x
