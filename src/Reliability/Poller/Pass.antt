-- ===== src/Reliability/Poller/Pass.antt =====
-- A cycle updates the rows one after another; this is what it does to each row.
use service_hub_backend.Base.{
  ◌⊎◌, ◌+◌, ◌*◌, ◌^◌, min, ℕ, ◌≡◌, refl, Bool, false, List, [], ◌∷◌, some, arith, ◌==◌, ==_iff,
  if◌then◌else◌, any, All, Bool-cases, inl, inr, All-take, sym, leb,
}
use service_hub_backend.Base.Table.{find_first, find_many, update_many}
use service_hub_backend.Reliability.Outbox.{
  OutboxRow, dead_letter, or_text, pending, published, tampered, verify_signature,
}
use service_hub_backend.Base.Text.{codes}
use service_hub_backend.Reliability.Poller.{
  Emission, sent, thrown, Failure, envelope_of, outcome_of_emission, delay_ms, Worker, PollState,
  Outcome, refused, delivered, failed, is_due, insert_row, sort_rows, select_rows, classify, write,
  step, pass, process_pending_messages,
}

-- What a cycle writes for a row that it selected.
unfoldable pub settle : Worker → OutboxRow → OutboxRow
unfolding write
settle w row = write w row (classify w row) row

abbrev pub has_id : ℕ → OutboxRow → Bool
has_id i r = r.id == i

-- The effect of the update for `row` on a stored row.
touch : Worker → OutboxRow → OutboxRow → OutboxRow
touch w row r = if r.id == row.id then write w row (classify w row) r else r

touch_all : Worker → List OutboxRow → OutboxRow → OutboxRow
unfolding touch
touch_all w [] r = r
touch_all w (row ∷ rows) r = touch_all w rows (touch w row r)

write_id : (w : Worker) (row r : OutboxRow) (o : Outcome) → (write w row o r).id ≡ r.id
unfolding write
write_id w row r refused = refl
write_id w row r delivered = refl
write_id w row r (failed e) = refl

write_again :
    (w : Worker) (row r : OutboxRow) (o : Outcome)
    → write w row o (write w row o r) ≡ write w row o r
unfolding write
write_again w row r refused = refl
write_again w row r delivered = refl
write_again w row r (failed e) = refl

find_first-update :
    (i k : ℕ) (f : OutboxRow → OutboxRow) (table : List OutboxRow) (r : OutboxRow)
    → ((x : OutboxRow) → (f x).id ≡ x.id)
    → find_first (has_id i) table ≡ some r
    → find_first (has_id i) (update_many (has_id k) f table) ≡ some (if r.id == k then f r else r)
find_first-update i k f [] r keep h = cc
find_first-update i k f (x ∷ table) r keep h =
    ground (arith, keep x, find_first-update i k f table r keep)

step_find :
    (w : Worker) (row : OutboxRow) (o : Outcome) (s : PollState) (i : ℕ) (r : OutboxRow)
    → find_first (has_id i) s.table ≡ some r
    → find_first (has_id i) (step w row o s).table
      ≡ some (if r.id == row.id then write w row o r else r)
unfolding step
step_find w row refused s i r h =
    find_first-update i row.id _ s.table r (λ x. write_id w row x refused) h
step_find w row delivered s i r h =
    find_first-update i row.id _ s.table r (λ x. write_id w row x delivered) h
step_find w row (failed e) s i r h =
    find_first-update i row.id _ s.table r (λ x. write_id w row x (failed e)) h

pass_find :
    (w : Worker) (rows : List OutboxRow) (s : PollState) (i : ℕ) (r : OutboxRow)
    → find_first (has_id i) s.table ≡ some r
    → find_first (has_id i) (pass w rows s).table ≡ some (touch_all w rows r)
unfolding pass touch_all
pass_find w [] s i r h = h
pass_find w (row ∷ rows) s i r h =
    pass_find w rows (step w row (classify w row) s) i (touch w row r)
      (unfold touch in step_find w row (classify w row) s i r h)

-- In a list of rows, `r` is the only one with its key.
abbrev pub IsOnly : OutboxRow → List OutboxRow → Type 0
IsOnly r = All (λ s. s.id ≡ r.id → s ≡ r)

touch_self : (w : Worker) (row r : OutboxRow) → row ≡ r → touch w row r ≡ settle w r
unfolding touch settle
touch_self w row r e = rw e (ground arith)

touch_again : (w : Worker) (row r : OutboxRow) → row ≡ r → touch w row (settle w r) ≡ settle w r
unfolding touch settle
touch_again w row r e =
    rw e (ground (arith, write_again w r r (classify w r), write_id w r r (classify w r)))

touch_other : (w : Worker) (row r : OutboxRow) → (r.id == row.id) ≡ false → touch w row r ≡ r
unfolding touch
touch_other w row r e = rw e

settle_id : (w : Worker) (r : OutboxRow) → (settle w r).id ≡ r.id
unfolding settle
settle_id w r = write_id w r r (classify w r)

touch_all-settled :
    (w : Worker) (rows : List OutboxRow) (r : OutboxRow)
    → IsOnly r rows
    → touch_all w rows (settle w r) ≡ settle w r
unfolding touch_all
touch_all-settled w [] r h = refl
touch_all-settled w (row ∷ rows) r h = elim (Bool-cases (r.id == row.id)) [
  | inl e ↦
      rw (touch_again w row r (h.0 (sym ((==_iff r.id row.id).0 e))))
        (touch_all-settled w rows r h.1)
  | inr e ↦ rw (touch_other w row (settle w r) (rw settle_id e)) (touch_all-settled w rows r h.1)
]

touch_all-selected :
    (w : Worker) (rows : List OutboxRow) (r : OutboxRow)
    → IsOnly r rows
    → touch_all w rows r ≡ (if any (has_id r.id) rows then settle w r else r)
unfolding touch_all
touch_all-selected w [] r h = refl
touch_all-selected w (row ∷ rows) r h = elim (Bool-cases (r.id == row.id)) [
  | inl e ↦
      let same : row.id ≡ r.id = sym ((==_iff r.id row.id).0 e) in
      rw
        (touch_self w row r (h.0 same), touch_all-settled w rows r h.1, (==_iff row.id r.id).1 same)
  | inr e ↦
      let other : (row.id == r.id) ≡ false = ground arith in
      rw (touch_other w row r e, other) (touch_all-selected w rows r h.1)
]

module _ {ℓ} (P : OutboxRow → Type ℓ) where
  All-find_many :
      (p : OutboxRow → Bool) (rows : List OutboxRow) → All P rows → All P (find_many p rows)
  All-find_many p [] h = tt
  All-find_many p (x ∷ rows) h = elim (Bool-cases (p x)) [
    | inl e ↦ rw e (h.0, All-find_many p rows h.1)
    | inr e ↦ rw e (All-find_many p rows h.1)
  ]

  All-insert_row :
      (r : OutboxRow) (rows : List OutboxRow) → P r → All P rows → All P (insert_row r rows)
  unfolding insert_row
  All-insert_row r [] p h = (p, tt)
  All-insert_row r (x ∷ rows) p h = elim (Bool-cases (leb r.occurred_at x.occurred_at)) [
    | inl e ↦ rw e (p, h)
    | inr e ↦ rw e (h.0, All-insert_row r rows p h.1)
  ]

  pub All-sort_rows : (rows : List OutboxRow) → All P rows → All P (sort_rows rows)
  unfolding sort_rows
  All-sort_rows [] h = tt
  All-sort_rows (x ∷ rows) h = All-insert_row x (sort_rows rows) h.0 (All-sort_rows rows h.1)

  pub All-select_rows :
      (w : Worker) (batch : ℕ) (table : List OutboxRow)
      → All P table
      → All P (select_rows w batch table)
  unfolding select_rows
  All-select_rows w batch table h =
      All-take P batch _ (All-sort_rows _ (All-find_many (is_due w) table h))

-- What a selected row has to come to, by its signature and by the broker's answer.
abbrev pub after_cycle : Worker → OutboxRow → OutboxRow
after_cycle w r =
    if verify_signature w.platform w.secret r
    then elim (w.broker (envelope_of w r)) [
      | sent ↦ record r { status = published; published_at = some (w.clock r.id) }
      | thrown e ↦ record r {
        attempt_count = r.attempt_count + 1;
        next_attempt_at = w.clock r.id + min (2 ^ r.attempt_count * 1000) 60000;
        status = if leb r.max_attempts (r.attempt_count + 1) then dead_letter else pending;
        last_error_code = some (or_text e.name (codes "EMIT_ERROR"));
        last_error_message = some (or_text e.message e.printed);
      }
    ]
    else record r {
      status = tampered;
      last_error_code = some (codes "INVALID_ROW_SIGNATURE");
      last_error_message = some (codes "Chữ ký số nội bộ của dòng dữ liệu không khớp.");
    }

Emission-cases : (x : Emission) → (x ≡ sent) ⊎ ((e : Failure) × (x ≡ thrown e))
Emission-cases sent = inl refl
Emission-cases (thrown e) = inr (e, refl)

settle-after_cycle : (w : Worker) (r : OutboxRow) → settle w r ≡ after_cycle w r
unfolding settle write classify outcome_of_emission delay_ms
settle-after_cycle w r = elim (Bool-cases (verify_signature w.platform w.secret r)) [
  | inr e ↦ rw (settle, classify, e) refl
  | inl e ↦ elim (Emission-cases (w.broker (envelope_of w r))) [
    | inl s ↦ rw (settle, classify, e, s) refl
    | inr (f, s) ↦ rw (settle, classify, e, s) refl
  ]
]

-- One cycle, row by row, provided that keys are unique. A row that the cycle selected is TAMPERED
-- if its signature does not verify; else PUBLISHED at the worker's time if the broker takes it; and
-- if the broker throws, it has one more attempt, waits for 2 ^ n seconds, at most 60, where n is
-- the number of its earlier attempts, and is DEAD_LETTER once its attempts are used up, else PENDING. Every other row is
-- left alone.
pub process_pending_messages_find :
    (w : Worker) (batch : ℕ) (table : List OutboxRow) (r : OutboxRow)
    → IsOnly r table
    → find_first (has_id r.id) table ≡ some r
    → find_first (has_id r.id) (process_pending_messages w batch table).table
      ≡ some (if any (has_id r.id) (select_rows w batch table) then after_cycle w r else r)
unfolding process_pending_messages
process_pending_messages_find w batch table r only found =
    rw
      (
        ← settle-after_cycle w r,
        ← touch_all-selected w (select_rows w batch table) r
            (All-select_rows (λ s. s.id ≡ r.id → s ≡ r) w batch table only),
      )
      (pass_find w (select_rows w batch table) _ r.id r found)
