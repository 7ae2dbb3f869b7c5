-- ===== src/Reliability/Poller.antt =====
-- libs/common/src/reliability/outbox-poller.service.ts: one polling cycle over `outbox_message`.
pub mod Pass
pub mod Batch
pub mod Attempts
mod Tests
use service_hub_backend.Base.{
  ◌≡◌, ℕ, ◌+◌, ◌*◌, ◌^◌, min, Bool, true, false, not, ◌&&◌, List, [], ◌∷◌, ◌++◌, Option, none, some,
  ◌==◌, ltb, leb, if◌then◌else◌, take,
}
use service_hub_backend.Base.Text.{Text, codes, is_empty}
use service_hub_backend.Base.Table.{find_many, update_many}
use service_hub_backend.Reliability.Json.{Json}
use service_hub_backend.Reliability.Outbox.{
  Platform, Status, pending, published, dead_letter, tampered, OutboxRow, or_text, or_null,
  verify_signature,
}

-- reliability.types.ts; a consumer's keys are the row's.
pub record EventEnvelope : Type 0 where
  pub id : ℕ
  pub spec_version : Text
  pub event_type : Text
  pub source : Text
  pub subject : Text
  pub ordering_key : Text
  pub aggregate_type : Text
  pub aggregate_id : Text
  pub aggregate_revision : ℕ
  pub payload : Json
  pub correlation_id : Option Text
  pub occurred_at : Text

-- A caught error: its name, its message, and what `String` makes of it.
pub record Failure : Type 0 where
  pub name : Option Text
  pub message : Option Text
  pub printed : Text

-- What a call of `clientProxy.emit` comes to: the broker takes the event, or the call throws. A
-- call that returns a promise which is rejected later is left out: nothing handles the rejection,
-- and it ends the process.
pub data Emission : Type 0 where
  sent : Emission
  thrown : Failure → Emission

-- One cycle of one worker: its clock at the query and at each row, the rows that other workers
-- have locked, and the broker.
pub record Worker : Type 0 where
  pub platform : Platform
  pub secret : Text
  pub now : ℕ
  pub clock : ℕ → ℕ
  pub is_locked : ℕ → Bool
  pub broker : EventEnvelope → Emission

abbrev pub is_pending : Status → Bool
is_pending pending = true
is_pending _ = false

-- `WHERE status = 'PENDING' AND next_attempt_at <= now … SKIP LOCKED`
unfoldable pub is_due : Worker → OutboxRow → Bool
is_due w row = is_pending row.status && (leb row.next_attempt_at w.now && not (w.is_locked row.id))

-- `ORDER BY occurred_at ASC`
insert_row : OutboxRow → List OutboxRow → List OutboxRow
insert_row r [] = r ∷ []
insert_row r (x ∷ xs) = if leb r.occurred_at x.occurred_at then r ∷ x ∷ xs else x ∷ insert_row r xs

pub sort_rows : List OutboxRow → List OutboxRow
unfolding insert_row
sort_rows [] = []
sort_rows (r ∷ rs) = insert_row r (sort_rows rs)

pub select_rows : Worker → ℕ → List OutboxRow → List OutboxRow
unfolding sort_rows is_due
select_rows w batch table = take batch (sort_rows (find_many (is_due w) table))

unfoldable pub envelope_of : Worker → OutboxRow → EventEnvelope
envelope_of w row = record {
  id = row.id;
  spec_version = or_text (some row.spec_version) (codes "1.0");
  event_type = row.event_type;
  source = row.source;
  subject = row.subject;
  ordering_key = row.ordering_key;
  aggregate_type = row.aggregate_type;
  aggregate_id = row.aggregate_id;
  aggregate_revision = row.aggregate_revision;
  payload = row.payload;
  correlation_id = or_null row.correlation_id;
  occurred_at = w.platform.iso row.occurred_at;
}

-- Which of the three updates the loop body makes.
pub data Outcome : Type 0 where
  refused delivered : Outcome
  failed : Failure → Outcome

outcome_of_emission : Emission → Outcome
outcome_of_emission sent = delivered
outcome_of_emission (thrown e) = failed e

pub classify : Worker → OutboxRow → Outcome
unfolding outcome_of_emission envelope_of
classify w row =
    if verify_signature w.platform w.secret row
    then outcome_of_emission (w.broker (envelope_of w row))
    else refused

-- `Math.min(Math.pow(2, attemptCount) * 1000, 60000)`
unfoldable pub delay_ms : ℕ → ℕ
delay_ms attempt_count = min (2 ^ attempt_count * 1000) 60000

-- The update of the stored row `r`, computed from the selected row `row`.
write : Worker → OutboxRow → Outcome → OutboxRow → OutboxRow
unfolding delay_ms
write w row refused r = record r {
  status = tampered;
  last_error_code = some (codes "INVALID_ROW_SIGNATURE");
  last_error_message = some (codes "Chữ ký số nội bộ của dòng dữ liệu không khớp.");
}
write w row delivered r = record r { status = published; published_at = some (w.clock row.id) }
write w row (failed e) r = record r {
  attempt_count = row.attempt_count + 1;
  next_attempt_at = w.clock row.id + delay_ms row.attempt_count;
  status = if leb row.max_attempts (row.attempt_count + 1) then dead_letter else pending;
  last_error_code = some (or_text e.name (codes "EMIT_ERROR"));
  last_error_message = some (or_text e.message e.printed);
}

-- The table, the envelopes that `emit` took, in order, and `processedCount`.
pub record PollState : Type 0 where
  pub table : List OutboxRow
  pub emitted : List EventEnvelope
  pub processed_count : ℕ

step : Worker → OutboxRow → Outcome → PollState → PollState
unfolding write envelope_of
step w row refused s = record s {
  table = update_many (λ r. r.id == row.id) (write w row refused) s.table;
}
step w row delivered s = record {
  table = update_many (λ r. r.id == row.id) (write w row delivered) s.table;
  emitted = s.emitted ++ (envelope_of w row ∷ []);
  processed_count = s.processed_count + 1;
}
step w row (failed e) s = record s {
  table = update_many (λ r. r.id == row.id) (write w row (failed e)) s.table;
}

pass : Worker → List OutboxRow → PollState → PollState
unfolding step classify
pass w [] s = s
pass w (row ∷ rows) s = pass w rows (step w row (classify w row) s)

-- The early return on no rows is the loop over no rows.
unfoldable pub process_pending_messages : Worker → ℕ → List OutboxRow → PollState
unfolding pass select_rows
process_pending_messages w batch table =
    pass w (select_rows w batch table) (record { table = table; emitted = []; processed_count = 0 })
