-- ===== src/Reliability/Inbox.antt =====
-- libs/common/src/reliability/inbox.service.ts: the table `inbox_message`, and the shape in which
-- the consumers of apps/billing-service/src/invoices/invoices.service.ts use it.
-- A failure of the database other than the two that are written out is not modelled.
pub mod Once
mod Tests
use service_hub_backend.Base.{
  ℕ, Bool, true, false, ◌&&◌, List, [], ◌∷◌, ◌++◌, Option, none, some, ◌==◌, if◌then◌else◌,
}
use service_hub_backend.Base.Text.{Text, codes, text_eq}
use service_hub_backend.Base.Table.{find_first, update_many}
use service_hub_backend.Reliability.Outbox.{or_text, or_null}

pub data InboxStatus : Type 0 where
  processing processed failed : InboxStatus

pub record InboxRow : Type 0 where
  pub consumer_name : Text
  pub event_id : ℕ
  pub event_type : Text
  pub producer : Text
  pub ordering_key : Option Text
  pub payload_hash : Option Text
  pub status : InboxStatus
  pub received_at : ℕ
  pub processed_at : Option ℕ

pub record ClaimOptions : Type 0 where
  pub consumer_name : Text
  pub event_id : ℕ
  pub event_type : Text
  pub producer : Option Text
  pub ordering_key : Option Text
  pub payload_hash : Option Text

-- The primary key: consumer and event.
pub has_key : Text → ℕ → InboxRow → Bool
has_key consumer_name event_id row =
    row.event_id == event_id && text_eq row.consumer_name consumer_name

claim_row : ClaimOptions → ℕ → InboxRow
claim_row o now = record {
  consumer_name = o.consumer_name;
  event_id = o.event_id;
  event_type = o.event_type;
  producer = or_text o.producer (codes "servicehub.broker");
  ordering_key = or_null o.ordering_key;
  payload_hash = or_null o.payload_hash;
  status = processing;
  received_at = now;
  processed_at = none;
}

-- `create` fails with P2002 where the key is taken, and `claim` then answers false.
pub claim : ClaimOptions → ℕ → List InboxRow → Bool × List InboxRow
unfolding claim_row has_key
claim o now inbox = elim (find_first (has_key o.consumer_name o.event_id) inbox) [
  | some taken ↦ (false, inbox)
  | none ↦ (true, inbox ++ (claim_row o now ∷ []))
]

-- `update` throws where no row has the key: `none`.
update_row : Text → ℕ → (InboxRow → InboxRow) → List InboxRow → Option (List InboxRow)
unfolding has_key
update_row consumer_name event_id f inbox =
    elim (find_first (has_key consumer_name event_id) inbox) [
      | some row ↦ some (update_many (has_key consumer_name event_id) f inbox)
      | none ↦ none
    ]

pub mark_processed : Text → ℕ → ℕ → List InboxRow → Option (List InboxRow)
unfolding update_row
mark_processed consumer_name event_id now =
    update_row consumer_name event_id
      (λ r. record r { status = processed; processed_at = some now })

pub mark_failed : Text → ℕ → List InboxRow → Option (List InboxRow)
unfolding update_row
mark_failed consumer_name event_id =
    update_row consumer_name event_id (λ r. record r { status = failed })

-- How a delivery ended: returned early, returned, or threw (and the broker may deliver again).
pub data Ending : Type 0 where
  skipped done raised : Ending

module _ {Db : Type 0} where
  -- `catch`: mark the row, and throw on. `markFailed` may throw itself.
  on_error : ClaimOptions → List InboxRow → Db → Ending × List InboxRow × Db
  on_error o inbox db = elim (mark_failed o.consumer_name o.event_id inbox) [
    | some inbox' ↦ (raised, inbox', db)
    | none ↦ (raised, inbox, db)
  ]

  -- `markProcessed` stands inside the `try`.
  after_body : ClaimOptions → ℕ → List InboxRow → Db → Option Db → Ending × List InboxRow × Db
  unfolding on_error
  after_body o now inbox db none = on_error o inbox db
  after_body o now inbox db (some db') =
      elim (mark_processed o.consumer_name o.event_id now inbox) [
        | some inbox' ↦ (done, inbox', db')
        | none ↦ on_error o inbox db'
      ]

  -- A handler: claim, run the transaction (`none` if it throws, and then it is rolled back), mark.
  pub consume :
      ClaimOptions → ℕ → (Db → Option Db) → List InboxRow → Db → Ending × List InboxRow × Db
  unfolding after_body
  consume o now body inbox db =
      let (claimed, inbox') = claim o now inbox in
      if claimed then after_body o now inbox' db (body db) else (skipped, inbox, db)
