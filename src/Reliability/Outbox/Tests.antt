-- ===== src/Reliability/Outbox/Tests.antt =====
-- Runs of the outbox on concrete events.
use service_hub_backend.Base.{◌≡◌, refl, ◌≢◌, true, List, [], ◌∷◌, some, none, arith}
use service_hub_backend.Base.Text.{codes, decimal}
use service_hub_backend.Reliability.Json.{Json, num, obj, field, end}
use service_hub_backend.Reliability.Json.Reorder.{Reorder, obj_of, swap}
use service_hub_backend.Reliability.Outbox.{
  Platform, OutboxRow, PublishOptions, published, verify_signature, publish_local, hmac_secret,
}
use service_hub_backend.Reliability.Outbox.Publishing.{
  HasUniqueEvents, publish_local-HasUniqueEvents,
}
use service_hub_backend.Reliability.Outbox.Signing.{publish_local-verify}

abbrev pub sample_platform : Platform
sample_platform = record { iso = decimal; sha256 = λ m. m; hmac_sha256 = λ secret m. 1 ∷ m }

abbrev pub sample_payload : Json
sample_payload = obj (field (codes "b") (num (codes "1")) (field (codes "a") (num (codes "2")) end))

abbrev stored_payload : Json
stored_payload = obj (field (codes "a") (num (codes "2")) (field (codes "b") (num (codes "1")) end))

abbrev pub sample_event : PublishOptions
sample_event = record {
  event_type = codes "billing.invoice_paid.v1";
  source = none;
  subject = none;
  ordering_key = none;
  aggregate_type = codes "INVOICE";
  aggregate_id = codes "7";
  aggregate_revision = some 2;
  payload = sample_payload;
  correlation_id = none;
}

abbrev first_table : List OutboxRow
first_table = (publish_local sample_platform (codes "k") 5 1 sample_event []).1

abbrev next_event : PublishOptions
next_event = record sample_event { aggregate_revision = some 3 }

no_events-HasUniqueEvents : HasUniqueEvents []
no_events-HasUniqueEvents e i n = omega arith

publish_local-HasUniqueEvents_example :
    HasUniqueEvents (publish_local sample_platform (codes "k") 9 2 next_event first_table).1
publish_local-HasUniqueEvents_example =
    publish_local-HasUniqueEvents sample_platform (codes "k") 9 2 next_event first_table (
      publish_local-HasUniqueEvents sample_platform (codes "k") 5 1 sample_event []
        no_events-HasUniqueEvents)

b_not_a : codes "b" ≢ codes "a"
b_not_a h = ground arith

stored-Reorder : Reorder sample_payload stored_payload
stored-Reorder =
    obj_of (swap (codes "b") (codes "a") (num (codes "1")) (num (codes "2")) end b_not_a)

publish_local-verify_example :
    verify_signature sample_platform
      (codes "k")
      (record (publish_local sample_platform (codes "k") 5 1 sample_event []).0 {
        payload = stored_payload;
        status = published;
        attempt_count = 1;
      })
    ≡ true
publish_local-verify_example =
    publish_local-verify sample_platform (codes "k") 5 1 sample_event [] published 1
      (λ secret m. refl) refl stored-Reorder

default_secret : hmac_secret (some []) none ≡ codes "servicehub-outbox-internal-key-change-in-prod"
unfolding hmac_secret
default_secret = refl
