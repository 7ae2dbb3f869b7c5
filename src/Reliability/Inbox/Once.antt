-- ===== src/Reliability/Inbox/Once.antt =====
-- An event is handled at most once by a consumer.
use service_hub_backend.Base.{
  ℕ, ◌≡◌, refl, ◌∙◌, ap, Bool, true, false, List, [], ◌∷◌, ◌++◌, Option, none, some, arith,
  Bool-cases, inl, inr, is_some,
}
use mathlib.Core.Option
use service_hub_backend.Base.Text.{Text, text_eq_refl}
use service_hub_backend.Base.Table.{find_first, update_many}
use service_hub_backend.Reliability.Inbox.{
  InboxRow, processed, failed, ClaimOptions, has_key, claim_row, claim, update_row, mark_processed,
  mark_failed, Ending, skipped, done, raised, after_body, on_error, consume,
}

abbrev pub has_event : Text → ℕ → List InboxRow → Bool
has_event c e inbox = is_some (find_first (has_key c e) inbox)

has_event-append :
    (o : ClaimOptions) (now : ℕ) (inbox : List InboxRow)
    → has_event o.consumer_name o.event_id (inbox ++ claim_row o now ∷ []) ≡ true
unfolding has_key claim_row
has_event-append o now [] = ground (arith, text_eq_refl o.consumer_name)
has_event-append o now (x ∷ inbox) = ground (arith, has_event-append o now inbox)

has_event-update :
    (c : Text) (e : ℕ) (f : InboxRow → InboxRow) (inbox : List InboxRow)
    → ((r : InboxRow) → has_key c e (f r) ≡ has_key c e r)
    → has_event c e (update_many (has_key c e) f inbox) ≡ has_event c e inbox
has_event-update c e f [] keep = refl
has_event-update c e f (x ∷ inbox) keep = ground (arith, keep x, has_event-update c e f inbox keep)

claim-taken :
    (o : ClaimOptions) (now : ℕ) (inbox : List InboxRow)
    → has_event o.consumer_name o.event_id inbox ≡ true
    → claim o now inbox ≡ (false, inbox)
unfolding claim
claim-taken o now inbox h = ground arith

claim-fresh :
    (o : ClaimOptions) (now : ℕ) (inbox : List InboxRow)
    → has_event o.consumer_name o.event_id inbox ≡ false
    → claim o now inbox ≡ (true, inbox ++ claim_row o now ∷ [])
unfolding claim
claim-fresh o now inbox h = ground arith

update_row-taken :
    (c : Text) (e : ℕ) (f : InboxRow → InboxRow) (inbox : List InboxRow)
    → has_event c e inbox ≡ true
    → update_row c e f inbox ≡ some (update_many (has_key c e) f inbox)
unfolding update_row
update_row-taken c e f inbox h = ground arith

abbrev failed_row : InboxRow → InboxRow
failed_row r = record r { status = failed }

failed-status :
    (o : ClaimOptions) (now : ℕ) (inbox : List InboxRow)
    → has_event o.consumer_name o.event_id inbox ≡ false
    → Option.map
        (λ r. r.status)
        (find_first (has_key o.consumer_name o.event_id) (
          update_many
            (has_key o.consumer_name o.event_id)
            failed_row
            (inbox ++ claim_row o now ∷ [])))
      ≡ some failed
unfolding has_key claim_row
failed-status o now [] h = ground (arith, text_eq_refl o.consumer_name)
failed-status o now (x ∷ inbox) h = ground (arith, failed-status o now inbox)

processed-status :
    (o : ClaimOptions) (now : ℕ) (inbox : List InboxRow)
    → has_event o.consumer_name o.event_id inbox ≡ false
    → Option.map
        (λ r. r.status)
        (find_first (has_key o.consumer_name o.event_id) (
          update_many
            (has_key o.consumer_name o.event_id)
            (λ r. record r { status = processed; processed_at = some now })
            (inbox ++ claim_row o now ∷ [])))
      ≡ some processed
unfolding has_key claim_row
processed-status o now [] h = ground (arith, text_eq_refl o.consumer_name)
processed-status o now (x ∷ inbox) h = ground (arith, processed-status o now inbox)

abbrev processed_row : ℕ → InboxRow → InboxRow
processed_row now r = record r { status = processed; processed_at = some now }

mark_failed-taken :
    (c : Text) (e : ℕ) (inbox : List InboxRow)
    → has_event c e inbox ≡ true
    → mark_failed c e inbox ≡ some (update_many (has_key c e) failed_row inbox)
unfolding mark_failed
mark_failed-taken c e inbox h = update_row-taken c e failed_row inbox h

mark_processed-taken :
    (c : Text) (e now : ℕ) (inbox : List InboxRow)
    → has_event c e inbox ≡ true
    → mark_processed c e now inbox ≡ some (update_many (has_key c e) (processed_row now) inbox)
unfolding mark_processed
mark_processed-taken c e now inbox h = update_row-taken c e (processed_row now) inbox h

module _ {Db : Type 0} where
  consume_taken :
      (o : ClaimOptions) (now : ℕ) (body : Db → Option Db) (inbox : List InboxRow) (db : Db)
      → has_event o.consumer_name o.event_id inbox ≡ true
      → consume o now body inbox db ≡ (skipped, inbox, db)
  unfolding consume
  consume_taken o now body inbox db h = rw (claim-taken o now inbox h)

  -- The state after a first delivery, by what its body did.
  settled : ClaimOptions → ℕ → List InboxRow → Db → Option Db → Ending × List InboxRow × Db
  settled o now inbox db none = (
    raised,
    update_many (has_key o.consumer_name o.event_id) (λ r. record r { status = failed })
        (inbox ++ claim_row o now ∷ []),
    db,
  )
  settled o now inbox db (some db') = (
    done,
    update_many (has_key o.consumer_name o.event_id)
        (λ r. record r { status = processed; processed_at = some now })
        (inbox ++ claim_row o now ∷ []),
    db',
  )

  after_body-settled :
      (o : ClaimOptions) (now : ℕ) (inbox : List InboxRow) (db : Db) (r : Option Db)
      → after_body o now (inbox ++ claim_row o now ∷ []) db r ≡ settled o now inbox db r
  unfolding after_body on_error settled
  after_body-settled o now inbox db none =
      ground (arith, mark_failed-taken o.consumer_name o.event_id _ (has_event-append o now inbox))
  after_body-settled o now inbox db (some db') =
      ground (
        arith,
        mark_processed-taken o.consumer_name o.event_id now _ (has_event-append o now inbox),
      )

  consume_fresh :
      (o : ClaimOptions) (now : ℕ) (body : Db → Option Db) (inbox : List InboxRow) (db : Db)
      → has_event o.consumer_name o.event_id inbox ≡ false
      → consume o now body inbox db ≡ settled o now inbox db (body db)
  unfolding consume
  consume_fresh o now body inbox db h =
      rw (claim-fresh o now inbox h) (after_body-settled o now inbox db (body db))

  has_event-settled :
      (o : ClaimOptions) (now : ℕ) (inbox : List InboxRow) (db : Db) (r : Option Db)
      → has_event o.consumer_name o.event_id (settled o now inbox db r).1 ≡ true
  unfolding settled has_key
  has_event-settled o now inbox db none =
      has_event-update o.consumer_name o.event_id _ _ (λ r. refl) ∙ has_event-append o now inbox
  has_event-settled o now inbox db (some db') =
      has_event-update o.consumer_name o.event_id _ _ (λ r. refl) ∙ has_event-append o now inbox

  has_event-consume :
      (o : ClaimOptions) (now : ℕ) (body : Db → Option Db) (inbox : List InboxRow) (db : Db)
      → has_event o.consumer_name o.event_id (consume o now body inbox db).1 ≡ true
  has_event-consume o now body inbox db =
      elim (Bool-cases (has_event o.consumer_name o.event_id inbox)) [
        | inl old ↦ rw (consume_taken o now body inbox db old) old
        | inr fresh ↦
            rw (consume_fresh o now body inbox db fresh)
              (has_event-settled o now inbox db (body db))
      ]

  -- Once an event has been delivered to a consumer, however that delivery ended, a delivery of the
  -- same event to the same consumer is skipped and changes neither the inbox nor the database.
  pub consume_again :
      (o o' : ClaimOptions) (now later : ℕ) (body body' : Db → Option Db) (inbox : List InboxRow)
      (db : Db)
      → o'.consumer_name ≡ o.consumer_name
      → o'.event_id ≡ o.event_id
      → let (_, inbox', db') = consume o now body inbox db in
        consume o' later body' inbox' db' ≡ (skipped, inbox', db')
  consume_again o o' now later body body' inbox db c e =
      consume_taken o' later body' _ _ (rw (c, e) (has_event-consume o now body inbox db))

  -- A new event whose transaction throws leaves the database as it was and its inbox row FAILED,
  -- and a redelivery is skipped: the event is never applied.
  pub consume_raised :
      (o : ClaimOptions) (now later : ℕ) (body body' : Db → Option Db) (inbox : List InboxRow)
      (db : Db)
      → has_event o.consumer_name o.event_id inbox ≡ false
      → body db ≡ none
      → let (ending, inbox', db') = consume o now body inbox db in
        (ending ≡ raised)
        × (db' ≡ db)
        × (Option.map (λ r. r.status) (find_first (has_key o.consumer_name o.event_id) inbox')
            ≡ some failed)
        × (consume o later body' inbox' db' ≡ (skipped, inbox', db))
  consume_raised o now later body body' inbox db fresh e =
      let first : consume o now body inbox db ≡ settled o now inbox db none =
        consume_fresh o now body inbox db fresh ∙ ap (settled o now inbox db) e in
      rw first (
        unfold settled in
        (
          refl,
          refl,
          failed-status o now inbox fresh,
          consume_taken o later body' _ _ (has_event-settled o now inbox db none),
        ))

  -- A new event whose transaction succeeds is applied, and its inbox row is PROCESSED.
  pub consume_done :
      (o : ClaimOptions) (now : ℕ) (body : Db → Option Db) (inbox : List InboxRow) (db db' : Db)
      → has_event o.consumer_name o.event_id inbox ≡ false
      → body db ≡ some db'
      → let (ending, inbox', applied) = consume o now body inbox db in
        (ending ≡ done)
        × (applied ≡ db')
        × (Option.map (λ r. r.status) (find_first (has_key o.consumer_name o.event_id) inbox')
            ≡ some processed)
  consume_done o now body inbox db db' fresh e =
      let first : consume o now body inbox db ≡ settled o now inbox db (some db') =
        consume_fresh o now body inbox db fresh ∙ ap (settled o now inbox db) e in
      rw first (unfold settled in (refl, refl, processed-status o now inbox fresh))
