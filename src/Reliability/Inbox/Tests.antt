-- ===== src/Reliability/Inbox/Tests.antt =====
-- Deliveries of one event to a consumer that counts.
use mathlib.Core.Option
use service_hub_backend.Base.{ℕ, ◌≡◌, refl, ◌+◌, [], Option, some, none}
use service_hub_backend.Base.Text.{codes}
use service_hub_backend.Base.Table.{find_first}
use service_hub_backend.Reliability.Inbox.{ClaimOptions, failed, has_key, skipped, raised, consume}
use service_hub_backend.Reliability.Inbox.Once.{consume_again, consume_raised}

abbrev event : ClaimOptions
event = record {
  consumer_name = codes "billing";
  event_id = 3;
  event_type = codes "contract.cancelled.v1";
  producer = none;
  ordering_key = none;
  payload_hash = none;
}

abbrev add_one : ℕ → Option ℕ
add_one n = some (n + 1)

abbrev throw : ℕ → Option ℕ
throw n = none

consume_again_example :
    let (_, inbox', db') = consume event 5 add_one [] 0 in
    consume event 9 add_one inbox' db' ≡ (skipped, inbox', db')
consume_again_example = consume_again event event 5 9 add_one add_one [] 0 refl refl

consume_raised_example :
    let (ending, inbox', db') = consume event 5 throw [] 0 in
    (ending ≡ raised)
    × (db' ≡ 0)
    × (Option.map (λ r. r.status) (find_first (has_key event.consumer_name event.event_id) inbox')
        ≡ some failed)
    × (consume event 9 add_one inbox' db' ≡ (skipped, inbox', 0))
consume_raised_example = consume_raised event 5 9 throw add_one [] 0 refl refl
