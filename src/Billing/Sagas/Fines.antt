-- ===== src/Billing/Sagas/Fines.antt =====
-- `handleViolationFineImposedEvent`: a fine becomes an invoice.
use service_hub_backend.Base.{
  ℕ, ◌-◌, ◌≡◌, refl, Bool, true, false, ◌&&◌, ◌||◌, List, [], ◌∷◌, ◌++◌, Option, none, some, map,
  arith, ◌==◌, leb, ltb, if◌then◌else◌, take, Option-cases, inl, inr,
}
use service_hub_backend.Base.Text.{Text, codes}
use service_hub_backend.Base.Table.{find_first, find_first-append}
use service_hub_backend.Reliability.Json.{obj, end}
use service_hub_backend.Reliability.Outbox.{PublishOptions, publish_local}
use service_hub_backend.Reliability.Inbox.{InboxRow, Ending, done, consume}
use service_hub_backend.Reliability.Inbox.Once.{has_event, consume_done}
use service_hub_backend.Billing.Rows.{
  Invoice, InvoiceItem, Db, Env, unpaid, text_field, key_field, key_field?, amount_field,
}
use service_hub_backend.Billing.Sagas.{Event, claim_of}

-- The payload. A fine that is absent, not a number or negative is 0. A payload without `reason` is
-- left out: `canonicalizeJson` signs it with the word `undefined`, which JSONB does not store.
pub record FineImposed : Type 0 where
  pub violation_case_id : Text
  pub contract_id : Option ℕ
  pub provider_id : ℕ
  pub customer_id : ℕ
  pub fine_amount : ℕ
  pub reason : Text

-- `toUpperCase` on ASCII, which is what keys are made of.
abbrev pub upper : ℕ → ℕ
upper c = if leb 97 c && leb c 122 then c - 32 else c

-- `slice(0, 8).toUpperCase()`
unfoldable pub case_ref : Text → Text
case_ref violation_case_id = map upper (take 8 violation_case_id)

is_prefix : Text → Text → Bool
is_prefix [] s = true
is_prefix (x ∷ xs) [] = false
is_prefix (x ∷ xs) (y ∷ ys) = x == y && is_prefix xs ys

-- Prisma's `contains`.
contains : Text → Text → Bool
unfolding is_prefix
contains part [] = is_prefix part []
contains part (y ∷ ys) = is_prefix part (y ∷ ys) || contains part ys

unfoldable pub is_fine : Text → Invoice → Bool
unfolding contains
is_fine ref invoice = contains (codes "FINE-" ++ ref) invoice.invoice_number

-- `random` is the number of four digits, as a text.
pub fine_number : Text → Text → Text
fine_number ref random = codes "INV-" ++ ((codes "FINE-" ++ ref) ++ (codes "-" ++ random))

-- 200 000 dong, where no amount is given.
abbrev pub fine_total : FineImposed → ℕ
fine_total p = if ltb 0 p.fine_amount then p.fine_amount else 20000000

pub fine_invoice : Env → Text → FineImposed → Invoice
unfolding fine_number case_ref
fine_invoice env random p = record {
  id = env.invoice_key;
  invoice_number = fine_number (case_ref p.violation_case_id) random;
  customer_id = some p.customer_id;
  contract_id = p.contract_id;
  provider_id = p.provider_id;
  total = fine_total p;
  status = unpaid;
  revision = 1;
  created_at = env.now;
  updated_at = env.now;
}

fine_item : Env → FineImposed → InvoiceItem
fine_item env p = record {
  invoice_id = env.invoice_key;
  quantity = 1;
  unit = codes "Lần phạt";
  unit_price = fine_total p;
  amount = fine_total p;
  created_at = env.now;
}

fine_event : Env → FineImposed → Invoice → PublishOptions
fine_event env p invoice = record {
  event_type = codes "billing.fine_invoice_created.v1";
  source = none;
  subject = none;
  ordering_key = none;
  aggregate_type = codes "Invoice";
  aggregate_id = env.uuid invoice.id;
  aggregate_revision = some 1;
  payload = obj (
      key_field env (codes "invoiceId") invoice.id (
        text_field env (codes "invoiceNumber") invoice.invoice_number (
          key_field? env (codes "contractId") invoice.contract_id (
            key_field? env (codes "customerId") invoice.customer_id (
              key_field env (codes "providerId") invoice.provider_id (
                amount_field env (codes "total") (fine_total p) (
                  text_field env (codes "violationCaseId") p.violation_case_id
                    (text_field env (codes "reason") p.reason end))))))));
  correlation_id = none;
}

-- The transaction.
pub impose_fine : Env → Text → FineImposed → Db → Db
unfolding is_fine case_ref fine_invoice fine_item fine_event
impose_fine env random p db =
    elim (find_first (is_fine (case_ref p.violation_case_id)) db.invoices) [
      | some existing ↦ db
      | none ↦ record db {
        invoices = db.invoices ++ (fine_invoice env random p ∷ []);
        items = db.items ++ (fine_item env p ∷ []);
        outbox =
            (publish_local env.platform env.secret env.now env.outbox_key
              (fine_event env p (fine_invoice env random p)) db.outbox).1;
      }
    ]

-- Without a payload every fine is taken for an earlier one, and the database refuses a new row;
-- `commits` is false where it fails otherwise.
fine_body : Env → Text → Bool → Option FineImposed → Db → Option Db
unfolding impose_fine is_fine
fine_body env random commits none db = elim (find_first (is_fine []) db.invoices) [
  | some existing ↦ some db
  | none ↦ none
]
fine_body env random commits (some p) db =
    if commits then some (impose_fine env random p db) else none

pub handle_violation_fine_imposed :
    Env → Text → Bool → Event FineImposed → List InboxRow → Db → Ending × List InboxRow × Db
unfolding fine_body claim_of
handle_violation_fine_imposed env random commits e inbox db =
    consume (claim_of (codes "billing-violation-fine-consumer") e) env.now
      (fine_body env random commits e.payload) inbox db

is_prefix-append : (s t : Text) → is_prefix s (s ++ t) ≡ true
unfolding is_prefix
is_prefix-append [] t = refl
is_prefix-append (x ∷ s) t = ground (arith, is_prefix-append s t)

contains-prefix : (s t : Text) → contains s (s ++ t) ≡ true
unfolding contains is_prefix
contains-prefix [] [] = refl
contains-prefix [] (y ∷ t) = refl
contains-prefix (x ∷ s) t = ground (arith, is_prefix-append s t)

contains-append : (r s t : Text) → contains s (r ++ (s ++ t)) ≡ true
unfolding contains
contains-append [] s t = contains-prefix s t
contains-append (x ∷ r) s t = ground (arith, contains-append r s t)

fine_invoice-is_fine :
    (env : Env) (random : Text) (p : FineImposed)
    → is_fine (case_ref p.violation_case_id) (fine_invoice env random p) ≡ true
unfolding is_fine fine_invoice fine_number
fine_invoice-is_fine env random p =
    contains-append (codes "INV-") (codes "FINE-" ++ case_ref p.violation_case_id)
      (codes "-" ++ random)

impose_fine_found :
    (env : Env) (random : Text) (p : FineImposed) (db : Db) (x : Invoice)
    → find_first (is_fine (case_ref p.violation_case_id)) db.invoices ≡ some x
    → impose_fine env random p db ≡ db
unfolding impose_fine
impose_fine_found env random p db x h = ground arith

impose_fine-finds :
    (env : Env) (random : Text) (p : FineImposed) (db : Db)
    → find_first (is_fine (case_ref p.violation_case_id)) db.invoices ≡ none
    → find_first (is_fine (case_ref p.violation_case_id)) (impose_fine env random p db).invoices
      ≡ some (fine_invoice env random p)
unfolding impose_fine
impose_fine-finds env random p db h =
    let earlier = is_fine (case_ref p.violation_case_id) in
    ground (
      arith,
      h,
      find_first-append earlier db.invoices (fine_invoice env random p ∷ []),
      fine_invoice-is_fine env random p,
    )

-- After a fine has been imposed for a case, every later one with the same first eight characters
-- of its case number changes nothing, be it a repetition or the fine of another case.
pub impose_fine_again :
    (env env' : Env) (random random' : Text) (p p' : FineImposed) (db : Db)
    → case_ref p'.violation_case_id ≡ case_ref p.violation_case_id
    → impose_fine env' random' p' (impose_fine env random p db) ≡ impose_fine env random p db
impose_fine_again env env' random random' p p' db same =
    elim (Option-cases (find_first (is_fine (case_ref p.violation_case_id)) db.invoices)) [
      | inr (x, e) ↦
          rw (impose_fine_found env random p db x e)
            (impose_fine_found env' random' p' db x (rw same e))
      | inl e ↦
          impose_fine_found env' random' p' (impose_fine env random p db)
            (fine_invoice env random p) (rw same (impose_fine-finds env random p db e))
    ]

-- The first delivery of a fine for a case without one, in a transaction that commits, creates an
-- UNPAID invoice for the provider and the customer with the fine as its total (200 000 dong where
-- none is given).
pub handle_violation_fine_imposed_creates :
    (env : Env) (random : Text) (e : Event FineImposed) (p : FineImposed) (inbox : List InboxRow)
    (db : Db)
    → has_event (codes "billing-violation-fine-consumer") e.id inbox ≡ false
    → e.payload ≡ some p
    → find_first (is_fine (case_ref p.violation_case_id)) db.invoices ≡ none
    → let (ending, _, db') = handle_violation_fine_imposed env random true e inbox db in
      (ending ≡ done) × (db'.invoices ≡ db.invoices ++ (fine_invoice env random p ∷ []))
unfolding handle_violation_fine_imposed claim_of fine_body
handle_violation_fine_imposed_creates env random e p inbox db fresh has none_yet =
    let made : (impose_fine env random p db).invoices
        ≡ db.invoices ++ (fine_invoice env random p ∷ []) =
      unfold impose_fine in ground arith in
    let (a, b, _) =
      consume_done (claim_of (codes "billing-violation-fine-consumer") e) env.now
        (fine_body env random true e.payload) inbox db (impose_fine env random p db) fresh
        (rw (has, fine_body) refl) in
    (a, rw b made)
