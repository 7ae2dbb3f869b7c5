-- ===== src/Billing/Sagas/Cancelled.antt =====
-- `handleContractCancelledEvent`: the open invoices of a cancelled contract are deleted.
use service_hub_backend.Base.{
  same_key, ℕ, ◌≡◌, refl, Bool, true, false, not, ◌&&◌, List, [], ◌∷◌, Option, none, some, map,
  arith, ◌==◌, if◌then◌else◌, any,
}
use service_hub_backend.Base.Text.{codes}
use service_hub_backend.Base.Table.{find_first, find_many, delete_many, update_many, count}
use service_hub_backend.Reliability.Inbox.{InboxRow, Ending, done, raised, skipped, consume}
use service_hub_backend.Reliability.Inbox.Once.{has_event, consume_done}
use service_hub_backend.Billing.Rows.{
  Invoice, Payment, InvoiceItem, LedgerRow, Db, is_paid, invoice_has_id,
}
use service_hub_backend.Billing.Sagas.{Event, claim_of, or_key}

pub record ContractCancelled : Type 0 where
  pub contract_id : Option ℕ

abbrev pub open_of : ℕ → Invoice → Bool
open_of contract_id invoice =
    same_key invoice.contract_id contract_id && not (is_paid invoice.status)

abbrev pub is_in : List ℕ → ℕ → Bool
is_in ids i = any (λ j. j == i) ids

abbrev pub ids_of : List Invoice → List ℕ
ids_of = map (λ invoice. invoice.id)

abbrev credits_in : List ℕ → LedgerRow → Bool
credits_in ids row = elim row.invoice_id [ none ↦ false | some i ↦ is_in ids i ]

-- The transaction of three deletions. The ledger's key of a deleted invoice is set to null.
delete_invoices : List ℕ → Db → Db
delete_invoices ids db = record db {
  payments = delete_many (λ p. is_in ids p.invoice_id) db.payments;
  items = delete_many (λ item. is_in ids item.invoice_id) db.items;
  invoices = delete_many (λ invoice. is_in ids invoice.id) db.invoices;
  ledger = update_many (credits_in ids) (λ row. record row { invoice_id = none }) db.ledger;
}

-- The transaction is left out where no invoice was found.
delete_found : List ℕ → Db → Db
unfolding delete_invoices
delete_found [] db = db
delete_found (i ∷ ids) db = delete_invoices (i ∷ ids) db

-- The keys are read before the transaction begins; `between` is what others commit meanwhile.
delete_open : (Db → Db) → ℕ → Db → Db
unfolding delete_found
delete_open between contract_id db =
    delete_found (ids_of (find_many (open_of contract_id) db.invoices)) (between db)

unfoldable pub contract_of : Event ContractCancelled → Option ℕ
contract_of e = elim e.payload [
  | none ↦ e.aggregate_id
  | some p ↦ or_key p.contract_id e.aggregate_id
]

-- `commits` is false where the database fails.
cancel_body : (Db → Db) → Bool → Event ContractCancelled → Db → Option Db
unfolding delete_open contract_of
cancel_body between commits e db = elim (contract_of e) [
  | none ↦ some (between db)
  | some contract_id ↦ if commits then some (delete_open between contract_id db) else none
]

-- A transaction that fails leaves what others have committed.
abbrev left_by : (Db → Db) → Ending → Db → Db → Db
left_by between raised db db' = between db
left_by between skipped db db' = db'
left_by between done db db' = db'

pub handle_contract_cancelled :
    (Db → Db)
    → Bool
    → ℕ
    → Event ContractCancelled
    → List InboxRow
    → Db
    → Ending × List InboxRow × Db
unfolding cancel_body claim_of
handle_contract_cancelled between commits now e inbox db =
    let (ending, inbox', db') =
      consume (claim_of (codes "billing-contract-cancelled-consumer") e) now
        (cancel_body between commits e) inbox db in
    (ending, inbox', if commits then db' else left_by between ending db db')

abbrev pub payment_of : ℕ → Payment → Bool
payment_of i p = p.invoice_id == i

abbrev pub item_of : ℕ → InvoiceItem → Bool
item_of i item = item.invoice_id == i

find_first-deleted {ℓ} :
    {A : Type ℓ} (f : A → ℕ) (ids : List ℕ) (i : ℕ) (xs : List A)
    → is_in ids i ≡ true
    → find_first (λ x. f x == i) (delete_many (λ x. is_in ids (f x)) xs) ≡ none
find_first-deleted f ids i [] h = refl
find_first-deleted f ids i (x ∷ xs) h = ground (arith, find_first-deleted f ids i xs h)

find_first-kept {ℓ} :
    {A : Type ℓ} (f : A → ℕ) (ids : List ℕ) (i : ℕ) (xs : List A)
    → is_in ids i ≡ false
    → find_first (λ x. f x == i) (delete_many (λ x. is_in ids (f x)) xs)
      ≡ find_first (λ x. f x == i) xs
find_first-kept f ids i [] h = refl
find_first-kept f ids i (x ∷ xs) h = ground (arith, find_first-kept f ids i xs h)

is_in-open :
    (c i : ℕ) (invoices : List Invoice) (x : Invoice)
    → find_first (invoice_has_id i) invoices ≡ some x
    → open_of c x ≡ true
    → is_in (ids_of (find_many (open_of c) invoices)) i ≡ true
is_in-open c i [] x h k = cc
is_in-open c i (y ∷ invoices) x h k = ground (arith, is_in-open c i invoices x)

is_in-rest :
    (c i : ℕ) (invoices : List Invoice)
    → count (λ x. invoice_has_id i x && open_of c x) invoices ≡ 0
    → is_in (ids_of (find_many (open_of c) invoices)) i ≡ false
is_in-rest c i [] h = refl
is_in-rest c i (y ∷ invoices) h = ground (arith, is_in-rest c i invoices)

delete_found-in :
    (ids : List ℕ) (i : ℕ) (db : Db)
    → is_in ids i ≡ true
    → (find_first (invoice_has_id i) (delete_found ids db).invoices ≡ none)
      × (find_first (payment_of i) (delete_found ids db).payments ≡ none)
      × (find_first (item_of i) (delete_found ids db).items ≡ none)
unfolding delete_found delete_invoices
delete_found-in [] i db h = cc
delete_found-in (j ∷ ids) i db h = (
  find_first-deleted (λ x. x.id) (j ∷ ids) i db.invoices h,
  find_first-deleted (λ x. x.invoice_id) (j ∷ ids) i db.payments h,
  find_first-deleted (λ x. x.invoice_id) (j ∷ ids) i db.items h,
)

delete_found-rest :
    (ids : List ℕ) (i : ℕ) (db : Db)
    → is_in ids i ≡ false
    → (find_first (invoice_has_id i) (delete_found ids db).invoices
        ≡ find_first (invoice_has_id i) db.invoices)
      × (find_first (payment_of i) (delete_found ids db).payments
          ≡ find_first (payment_of i) db.payments)
unfolding delete_found delete_invoices
delete_found-rest [] i db h = (refl, refl)
delete_found-rest (j ∷ ids) i db h = (
  find_first-kept (λ x. x.id) (j ∷ ids) i db.invoices h,
  find_first-kept (λ x. x.invoice_id) (j ∷ ids) i db.payments h,
)

-- A first delivery whose transaction commits.
handled :
    (between : Db → Db) (now : ℕ) (e : Event ContractCancelled) (inbox : List InboxRow) (db : Db)
    (c : ℕ)
    → has_event (codes "billing-contract-cancelled-consumer") e.id inbox ≡ false
    → contract_of e ≡ some c
    → let (ending, _, db') = handle_contract_cancelled between true now e inbox db in
      (ending ≡ done) × (db' ≡ delete_open between c db)
unfolding handle_contract_cancelled cancel_body claim_of
handled between now e inbox db c fresh of =
    let (a, b, _) =
      consume_done (claim_of (codes "billing-contract-cancelled-consumer") e) now
        (cancel_body between true e) inbox db (delete_open between c db) fresh
        (rw (of, cancel_body) refl) in
    (a, b)

-- The first delivery of a cancellation, in a transaction that commits, deletes every invoice that was open when the handler
-- looked, with its payments and items, also one that another transaction has made PAID before the
-- deletion.
pub handle_contract_cancelled_deletes :
    (between : Db → Db) (now : ℕ) (e : Event ContractCancelled) (inbox : List InboxRow) (db : Db)
    (c i : ℕ) (invoice : Invoice)
    → has_event (codes "billing-contract-cancelled-consumer") e.id inbox ≡ false
    → contract_of e ≡ some c
    → find_first (invoice_has_id i) db.invoices ≡ some invoice
    → open_of c invoice ≡ true
    → let (ending, _, db') = handle_contract_cancelled between true now e inbox db in
      (ending ≡ done)
      × (find_first (invoice_has_id i) db'.invoices ≡ none)
      × (find_first (payment_of i) db'.payments ≡ none)
      × (find_first (item_of i) db'.items ≡ none)
unfolding delete_open
handle_contract_cancelled_deletes between now e inbox db c i invoice fresh of found is_open =
    let (a, b) = handled between now e inbox db c fresh of in
    let gone = is_in-open c i db.invoices invoice found is_open in
    let (x, y, z) = delete_found-in _ i (between db) gone in (a, rw b x, rw b y, rw b z)

-- It leaves every other invoice with its payments as it is at the time of the deletion: those of
-- other contracts, and those that were PAID when the handler looked.
handle_contract_cancelled_keeps :
    (between : Db → Db) (now : ℕ) (e : Event ContractCancelled) (inbox : List InboxRow) (db : Db)
    (c i : ℕ)
    → has_event (codes "billing-contract-cancelled-consumer") e.id inbox ≡ false
    → contract_of e ≡ some c
    → count (λ x. invoice_has_id i x && open_of c x) db.invoices ≡ 0
    → let (_, _, db') = handle_contract_cancelled between true now e inbox db in
      (find_first (invoice_has_id i) db'.invoices
        ≡ find_first (invoice_has_id i) (between db).invoices)
      × (find_first (payment_of i) db'.payments ≡ find_first (payment_of i) (between db).payments)
unfolding delete_open
handle_contract_cancelled_keeps between now e inbox db c i fresh of other =
    let (_, b) = handled between now e inbox db c fresh of in
    let kept = is_in-rest c i db.invoices other in
    let (x, y) = delete_found-rest _ i (between db) kept in (rw b x, rw b y)
