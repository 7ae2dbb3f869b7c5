-- ===== src/Reliability/Poller/Tests.antt =====
-- Polling cycles over a table of two rows.
use service_hub_backend.Base.{
  ◌≡◌, refl, ◌+◌, false, List, [], ◌∷◌, some, none, arith, if◌then◌else◌, any, leb,
}
use service_hub_backend.Base.Text.{codes, text_eq, decimal, text_lt}
use service_hub_backend.Base.Table.{find_first}
use service_hub_backend.Reliability.Json.{canonicalize_json}
use service_hub_backend.Reliability.Outbox.{
  OutboxRow, new_row, pending, dead_letter, verify_signature, compute_signature, payload_json,
}
use service_hub_backend.Reliability.Outbox.Tests.{sample_platform, sample_event}
use service_hub_backend.Reliability.Poller.{
  Worker, Failure, sent, thrown, select_rows, classify, process_pending_messages, is_due,
}
use service_hub_backend.Reliability.Poller.Pass.{
  IsOnly, after_cycle, has_id, settle, process_pending_messages_find,
}
use service_hub_backend.Reliability.Poller.Attempts.{AllFail, retry_all, retry_all-status}

-- Due at 5, and not before 50.
abbrev now_row : OutboxRow
now_row = new_row sample_platform (codes "k") 5 1 sample_event

abbrev later_row : OutboxRow
later_row = new_row sample_platform (codes "k") 50 2 sample_event

abbrev rows : List OutboxRow
rows = later_row ∷ now_row ∷ []

abbrev worker : Worker
worker = record {
  platform = sample_platform;
  secret = codes "k";
  now = 10;
  clock = λ i. 20;
  is_locked = λ i. false;
  broker = λ e. sent;
}

abbrev timeout : Failure
timeout = record { name = none; message = some (codes "timeout"); printed = codes "Error: timeout" }

abbrev cut_off : Worker
cut_off = record worker { broker = λ e. thrown timeout }

now-IsOnly : IsOnly now_row rows
unfolding new_row
now-IsOnly = ((λ e. ground arith), ((λ e. refl), tt))

later-IsOnly : IsOnly later_row rows
unfolding new_row
later-IsOnly = ((λ e. refl), ((λ e. ground arith), tt))

now_found : find_first (has_id now_row.id) rows ≡ some now_row
unfolding new_row
now_found = refl

later_found : find_first (has_id later_row.id) rows ≡ some later_row
unfolding new_row
later_found = refl

later_waits : is_due worker later_row ≡ false
unfolding new_row is_due
later_waits = refl

process_pending_messages_find_example :
    find_first (has_id now_row.id) (process_pending_messages worker 50 rows).table
    ≡ some (
        if any (has_id now_row.id) (select_rows worker 50 rows)
        then after_cycle worker now_row
        else now_row)
process_pending_messages_find_example =
    process_pending_messages_find worker 50 rows now_row now-IsOnly now_found

both_fail : AllFail (cut_off ∷ cut_off ∷ []) now_row
unfolding classify verify_signature compute_signature payload_json new_row settle text_eq decimal
    canonicalize_json text_lt
both_fail = ((timeout, refl), ((timeout, refl), tt))

retry_all-status_example :
    let r = retry_all (cut_off ∷ cut_off ∷ []) now_row in
    (r.attempt_count ≡ now_row.attempt_count + 2)
    × (r.max_attempts ≡ now_row.max_attempts)
    × (r.status
        ≡ (if leb now_row.max_attempts (now_row.attempt_count + 2) then dead_letter else pending))
retry_all-status_example = retry_all-status cut_off (cut_off ∷ []) now_row both_fail
