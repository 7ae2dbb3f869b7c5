-- ===== src/Reliability/Poller/Batch.antt =====
-- Which rows a cycle takes, in what order, and what it hands to the broker and counts.
use service_hub_backend.Base.{
  zero, ℕ, suc, ◌≡◌, refl, ◌+◌, ◌≤◌, Bool, true, false, List, [], ◌∷◌, ◌++◌, some, map, arith,
  if◌then◌else◌, any, All, All-map, Bool-cases, inl, inr, All-take, take, length, length-take, sym,
  ◌∙◌, leb, leb→le,
}
use mathlib.Core.List.{append-nil, append_assoc}
use service_hub_backend.Base.Table.{find_first, find_many}
use service_hub_backend.Reliability.Outbox.{OutboxRow}
use service_hub_backend.Reliability.Poller.{
  Worker, PollState, Outcome, refused, delivered, failed, envelope_of, is_due, insert_row,
  sort_rows, select_rows, classify, step, pass, process_pending_messages,
}
use service_hub_backend.Reliability.Poller.Pass.{
  has_id, IsOnly, All-select_rows, All-sort_rows, process_pending_messages_find,
}

-- Each row was written no later than the one behind it.
abbrev pub IsOrdered : List OutboxRow → Type 0
IsOrdered [] = Unit
IsOrdered (x ∷ rows) = All (λ y. x.occurred_at ≤ y.occurred_at) rows × IsOrdered rows

abbrev IsAfter : ℕ → OutboxRow → Type 0
IsAfter t y = t ≤ y.occurred_at

insert_row-IsAfter :
    (t : ℕ) (r : OutboxRow) (rows : List OutboxRow)
    → t ≤ r.occurred_at
    → All (IsAfter t) rows
    → All (IsAfter t) (insert_row r rows)
unfolding insert_row
insert_row-IsAfter t r [] h k = (h, tt)
insert_row-IsAfter t r (x ∷ rows) h k = elim (Bool-cases (leb r.occurred_at x.occurred_at)) [
  | inl e ↦ rw e (h, k)
  | inr e ↦ rw e (k.0, insert_row-IsAfter t r rows h k.1)
]

IsAfter-weaken :
    (t u : ℕ) (rows : List OutboxRow) → t ≤ u → All (IsAfter u) rows → All (IsAfter t) rows
IsAfter-weaken t u rows h = All-map (λ y k. omega arith) rows

insert_row-IsOrdered :
    (r : OutboxRow) (rows : List OutboxRow) → IsOrdered rows → IsOrdered (insert_row r rows)
unfolding insert_row
insert_row-IsOrdered r [] h = (tt, tt)
insert_row-IsOrdered r (x ∷ rows) h = elim (Bool-cases (leb r.occurred_at x.occurred_at)) [
  | inl e ↦
      let le : r.occurred_at ≤ x.occurred_at = leb→le _ _ e in
      rw e ((le, IsAfter-weaken r.occurred_at x.occurred_at rows le h.0), h)
  | inr e ↦
      let le : x.occurred_at ≤ r.occurred_at = ground arith in
      rw e (insert_row-IsAfter x.occurred_at r rows le h.0, insert_row-IsOrdered r rows h.1)
]

sort_rows-IsOrdered : (rows : List OutboxRow) → IsOrdered (sort_rows rows)
unfolding sort_rows
sort_rows-IsOrdered [] = tt
sort_rows-IsOrdered (x ∷ rows) = insert_row-IsOrdered x (sort_rows rows) (sort_rows-IsOrdered rows)

take-IsOrdered : (n : ℕ) (rows : List OutboxRow) → IsOrdered rows → IsOrdered (take n rows)
take-IsOrdered zero rows h = tt
take-IsOrdered (suc n) [] h = tt
take-IsOrdered (suc n) (x ∷ rows) h =
    (All-take (IsAfter x.occurred_at) n rows h.0, take-IsOrdered n rows h.1)

-- The database answers with no more rows than the batch size, oldest first.
pub select_rows-IsOrdered :
    (w : Worker) (batch : ℕ) (table : List OutboxRow)
    → (length (select_rows w batch table) ≤ batch) × IsOrdered (select_rows w batch table)
unfolding select_rows
select_rows-IsOrdered w batch table = (
  omega (arith, length-take batch (sort_rows (find_many (is_due w) table))),
  take-IsOrdered batch _ (sort_rows-IsOrdered (find_many (is_due w) table)),
)

find_many-holds :
    (p : OutboxRow → Bool) (rows : List OutboxRow) → All (λ r. p r ≡ true) (find_many p rows)
find_many-holds p [] = tt
find_many-holds p (x ∷ rows) = elim (Bool-cases (p x)) [
  | inl e ↦ rw e (e, find_many-holds p rows)
  | inr e ↦ rw e (find_many-holds p rows)
]

abbrev pub is_delivered : Outcome → Bool
is_delivered refused = false
is_delivered delivered = true
is_delivered (failed e) = false

pass_emitted :
    (w : Worker) (rows : List OutboxRow) (s : PollState)
    → (pass w rows s).emitted
      ≡ s.emitted ++ map (envelope_of w) (find_many (λ r. is_delivered (classify w r)) rows)
unfolding pass
pass_emitted w [] s = sym (append-nil s.emitted)
pass_emitted w (row ∷ rows) s =
    elim (classify w row)
      as (λ o.
        (pass w rows (step w row o s)).emitted
        ≡ s.emitted
          ++ map (envelope_of w) (
              if is_delivered o
              then row ∷ find_many (λ r. is_delivered (classify w r)) rows
              else find_many (λ r. is_delivered (classify w r)) rows)) [
                | refused ↦ unfold step in pass_emitted w rows (step w row refused s)
                | delivered ↦
                    unfold step in
                    (pass_emitted w rows (step w row delivered s)
                      ∙ append_assoc s.emitted (envelope_of w row ∷ []) _)
                | failed e ↦ unfold step in pass_emitted w rows (step w row (failed e) s)
              ]

pass_count :
    (w : Worker) (rows : List OutboxRow) (s : PollState)
    → (pass w rows s).processed_count
      ≡ s.processed_count + length (find_many (λ r. is_delivered (classify w r)) rows)
unfolding pass
pass_count w [] s = omega arith
pass_count w (row ∷ rows) s =
    elim (classify w row)
      as (λ o.
        (pass w rows (step w row o s)).processed_count
        ≡ s.processed_count
          + length (
              if is_delivered o
              then row ∷ find_many (λ r. is_delivered (classify w r)) rows
              else find_many (λ r. is_delivered (classify w r)) rows)) [
                | refused ↦ unfold step in pass_count w rows (step w row refused s)
                | delivered ↦
                    unfold step in omega (arith, pass_count w rows (step w row delivered s))
                | failed e ↦ unfold step in pass_count w rows (step w row (failed e) s)
              ]

abbrev start : List OutboxRow → PollState
start table = record { table = table; emitted = []; processed_count = 0 }

-- What a cycle sends and counts: the envelopes of the selected rows whose signature holds and for
-- which `emit` did not throw, in the order of the selection, and their number.
process_pending_messages_emits :
    (w : Worker) (batch : ℕ) (table : List OutboxRow)
    → let rows = find_many (λ r. is_delivered (classify w r)) (select_rows w batch table) in
      let s = process_pending_messages w batch table in
      (s.emitted ≡ map (envelope_of w) rows) × (s.processed_count ≡ length rows)
unfolding process_pending_messages
process_pending_messages_emits w batch table = (
  pass_emitted w (select_rows w batch table) _,
  omega (arith, pass_count w (select_rows w batch table) (start table)),
)

any_of_All :
    (w : Worker) (i : ℕ) (rows : List OutboxRow)
    → All (λ s. s.id ≡ i → is_due w s ≡ false) rows
    → All (λ s. is_due w s ≡ true) rows
    → any (has_id i) rows ≡ false
any_of_All w i [] h k = refl
any_of_All w i (x ∷ rows) h k = ground (arith, h.0, any_of_All w i rows h.1 k.1)

select_rows-due :
    (w : Worker) (batch : ℕ) (table : List OutboxRow)
    → All (λ s. is_due w s ≡ true) (select_rows w batch table)
unfolding select_rows
select_rows-due w batch table =
    All-take _ batch _ (All-sort_rows _ _ (find_many-holds (is_due w) table))

-- A row that is not due (it is settled, waits for its next attempt, or is locked by another
-- worker) comes out of a cycle as it was, provided that keys are unique.
pub process_pending_messages_rest :
    (w : Worker) (batch : ℕ) (table : List OutboxRow) (r : OutboxRow)
    → IsOnly r table
    → find_first (has_id r.id) table ≡ some r
    → is_due w r ≡ false
    → find_first (has_id r.id) (process_pending_messages w batch table).table ≡ some r
process_pending_messages_rest w batch table r only found rest =
    let none_due : any (has_id r.id) (select_rows w batch table) ≡ false =
      any_of_All w r.id _
        (All-select_rows (λ s. s.id ≡ r.id → is_due w s ≡ false) w batch table
          (All-map (λ s f e. rw (f e) rest) table only))
        (select_rows-due w batch table) in
    rw (process_pending_messages_find w batch table r only found, none_due)
