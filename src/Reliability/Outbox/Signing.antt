-- ===== src/Reliability/Outbox/Signing.antt =====
-- What a row's signature vouches for.
use service_hub_backend.Base.{◌≡◌, refl, true, List, Option, none, ℕ, or_else}
use service_hub_backend.Base.Text.{Text, text_eq_refl}
use service_hub_backend.Base.Table.{find_first}
use service_hub_backend.Reliability.Json.{Json}
use service_hub_backend.Reliability.Json.Reorder.{
  Reorder, same, arr_of, obj_of, canonicalize_json-Reorder,
}
use service_hub_backend.Reliability.Outbox.Publishing.{publish_local_fresh}
use service_hub_backend.Reliability.Outbox.{
  Platform, HasDigests, OutboxRow, PublishOptions, payload_json, verify_signature,
  compute_signature, new_row, same_event, publish_local, Status,
}

pub payload_json-Reorder : {v w : Json} → Reorder v w → payload_json v ≡ payload_json w
unfolding payload_json
payload_json-Reorder (same v) = refl
payload_json-Reorder (arr_of r) = canonicalize_json-Reorder (arr_of r)
payload_json-Reorder (obj_of r) = canonicalize_json-Reorder (obj_of r)

new_row-verify :
    (p : Platform) (secret : Text) (now key : ℕ) (o : PublishOptions) {stored : Json}
    (status : Status) (attempts : ℕ)
    → HasDigests p
    → Reorder o.payload stored
    → verify_signature p secret (record (new_row p secret now key o) {
      payload = stored;
      status = status;
      attempt_count = attempts;
    })
      ≡ true
unfolding new_row verify_signature compute_signature
new_row-verify p secret now key o status attempts digests r =
    rw (← payload_json-Reorder r) (rw (digests secret _) (text_eq_refl _))

-- A row that `publishLocal` creates passes `verifySignature` with the same secret, also after the
-- database has given the members of the payload's objects back in another order, and whatever the
-- poller has written to its status and attempts meanwhile, if the event was not in the table
-- before and digests are not empty.
pub publish_local-verify :
    (p : Platform) (secret : Text) (now key : ℕ) (o : PublishOptions) (table : List OutboxRow)
    {stored : Json} (status : Status) (attempts : ℕ)
    → HasDigests p
    → find_first (same_event o.event_type o.aggregate_id (or_else o.aggregate_revision 1)) table
      ≡ none
    → Reorder o.payload stored
    → verify_signature p secret (record (publish_local p secret now key o table).0 {
      payload = stored;
      status = status;
      attempt_count = attempts;
    })
      ≡ true
publish_local-verify p secret now key o table status attempts digests fresh r =
    rw (publish_local_fresh p secret now key o table fresh)
      (new_row-verify p secret now key o status attempts digests r)

-- The signature covers five fields only: the row's key, its routing (source, subject, ordering
-- key, aggregate type) and its correlation id can be changed, and it still passes exactly when it
-- did before.
pub verify_signature_blind :
    (p : Platform) (secret : Text) (row : OutboxRow) (id : ℕ)
    (source subject ordering_key aggregate_type : Text) (correlation_id : Option Text)
    → verify_signature p secret (record row {
      id = id;
      source = source;
      subject = subject;
      ordering_key = ordering_key;
      aggregate_type = aggregate_type;
      correlation_id = correlation_id;
    })
      ≡ verify_signature p secret row
unfolding verify_signature
verify_signature_blind p secret row id source subject ordering_key aggregate_type correlation_id =
    refl
