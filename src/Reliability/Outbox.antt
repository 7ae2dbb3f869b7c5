-- ===== src/Reliability/Outbox.antt =====
-- libs/common/src/reliability/outbox.service.ts: the rows of `outbox_message`, their signature
-- and `publishLocal`. Times are milliseconds; a text that is absent or `null` is `none`.
pub mod Publishing
pub mod Signing
pub mod Tests
use service_hub_backend.Base.{
  ◌≡◌, ℕ, ◌+◌, Bool, true, false, ◌&&◌, List, [], ◌∷◌, ◌++◌, Option, none, some, ◌==◌,
  if◌then◌else◌, or_else,
}
use service_hub_backend.Base.Text.{Text, codes, text_eq, is_empty, decimal}
use service_hub_backend.Base.Table.{find_first}
use service_hub_backend.Reliability.Json.{Json, str, canonicalize_json}

-- Code of the runtime: `Date.toISOString`, and the two hex digests of node's `crypto`.
pub record Platform : Type 0 where
  pub iso : ℕ → Text
  pub sha256 : Text → Text
  pub hmac_sha256 : Text → Text → Text

-- A hex digest has 64 characters, so it is not the empty text.
abbrev pub HasDigests : Platform → Type 0
HasDigests p = (secret m : Text) → is_empty (p.hmac_sha256 secret m) ≡ false

pub data Status : Type 0 where
  pending published dead_letter tampered : Status

pub record OutboxRow : Type 0 where
  pub id : ℕ
  pub spec_version : Text
  pub event_type : Text
  pub source : Text
  pub subject : Text
  pub ordering_key : Text
  pub aggregate_type : Text
  pub aggregate_id : Text
  pub aggregate_revision : ℕ
  pub payload : Json
  pub row_signature : Option Text
  pub status : Status
  pub attempt_count : ℕ
  pub max_attempts : ℕ
  pub next_attempt_at : ℕ
  pub last_error_code : Option Text
  pub last_error_message : Option Text
  pub correlation_id : Option Text
  pub occurred_at : ℕ
  pub published_at : Option ℕ

pub record PublishOptions : Type 0 where
  pub event_type : Text
  pub source : Option Text
  pub subject : Option Text
  pub ordering_key : Option Text
  pub aggregate_type : Text
  pub aggregate_id : Text
  pub aggregate_revision : Option ℕ
  pub payload : Json
  pub correlation_id : Option Text

-- `x || y` on texts.
abbrev pub or_text : Option Text → Text → Text
or_text none y = y
or_text (some x) y = if is_empty x then y else x

-- `x || null`
abbrev pub or_null : Option Text → Option Text
or_null none = none
or_null (some x) = if is_empty x then none else some x

-- The constructor's choice of the secret, from the two environment variables.
unfoldable pub hmac_secret : Option Text → Option Text → Text
hmac_secret outbox_hmac_secret hmac_secret_var =
    or_text outbox_hmac_secret
      (or_text hmac_secret_var (codes "servicehub-outbox-internal-key-change-in-prod"))

-- The text that is signed: the five fields with a colon between them.
raw_text : Platform → Text → Text → ℕ → Text → ℕ → Text
raw_text p event_type aggregate_id revision payload_hash occurred_at =
    event_type
    ++ (58
        ∷ (aggregate_id
            ++ (58 ∷ (decimal revision ++ (58 ∷ (payload_hash ++ (58 ∷ p.iso occurred_at)))))))

unfoldable pub compute_signature : Platform → Text → Text → Text → ℕ → Text → ℕ → Text
unfolding raw_text
compute_signature p secret event_type aggregate_id revision payload_hash occurred_at =
    p.hmac_sha256 secret (raw_text p event_type aggregate_id revision payload_hash occurred_at)

-- A payload that is a text is hashed as it stands.
unfoldable pub payload_json : Json → Text
payload_json (str s) = s
payload_json v = canonicalize_json v

-- `timingSafeEqual` throws on texts of unequal length, and the `catch` answers false.
matches : Option Text → Text → Bool
matches none expected = false
matches (some given) expected = if is_empty given then false else text_eq given expected

unfoldable pub verify_signature : Platform → Text → OutboxRow → Bool
unfolding matches
verify_signature p secret row = matches row.row_signature (
    compute_signature p secret row.event_type row.aggregate_id row.aggregate_revision
      (p.sha256 (payload_json row.payload)) row.occurred_at)

-- The `where` of the idempotency query.
unfoldable pub same_event : Text → Text → ℕ → OutboxRow → Bool
same_event event_type aggregate_id revision row =
    text_eq row.event_type event_type
    && (text_eq row.aggregate_id aggregate_id && row.aggregate_revision == revision)

-- The row that `publishLocal` hands to `create`; the database chooses the key.
unfoldable pub new_row : Platform → Text → ℕ → ℕ → PublishOptions → OutboxRow
new_row p secret now key o =
    let revision = or_else o.aggregate_revision 1 in
    record {
      id = key;
      spec_version = codes "1.0";
      event_type = o.event_type;
      source = or_text o.source (codes "servicehub.internal");
      subject = or_text o.subject o.aggregate_id;
      ordering_key = or_text o.ordering_key o.aggregate_id;
      aggregate_type = o.aggregate_type;
      aggregate_id = o.aggregate_id;
      aggregate_revision = revision;
      payload = o.payload;
      row_signature = some (
          compute_signature p secret o.event_type o.aggregate_id revision
            (p.sha256 (payload_json o.payload)) now);
      status = pending;
      attempt_count = 0;
      max_attempts = 5;
      next_attempt_at = now;
      last_error_code = none;
      last_error_message = none;
      correlation_id = or_null o.correlation_id;
      occurred_at = now;
      published_at = none;
    }

-- Returns the row of the event, old or new, and the table.
unfoldable pub publish_local :
    Platform → Text → ℕ → ℕ → PublishOptions → List OutboxRow → OutboxRow × List OutboxRow
unfolding new_row same_event
publish_local p secret now key o table =
    elim (find_first (same_event o.event_type o.aggregate_id (or_else o.aggregate_revision 1))
      table) [
        | some existing ↦ (existing, table)
        | none ↦ (new_row p secret now key o, table ++ (new_row p secret now key o ∷ []))
      ]
