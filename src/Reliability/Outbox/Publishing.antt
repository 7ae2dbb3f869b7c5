-- ===== src/Reliability/Outbox/Publishing.antt =====
-- `publishLocal` writes an event once.
use service_hub_backend.Base.{
  ℕ, ◌==◌, ◌&&◌, ◌⊎◌, refl, ◌≡◌, ◌≤◌, Bool, true, inl, inr, List, [], ◌∷◌, ◌++◌, none, some, arith,
  or_else, Bool-cases, Option-cases,
}
use service_hub_backend.Reliability.Json.{Json}
use service_hub_backend.Base.Text.{Text, text_eq, text_eq_iff, text_eq_refl}
use service_hub_backend.Base.Table.{count-append, count_of_none, find_first, count}
use service_hub_backend.Reliability.Outbox.{
  Platform, OutboxRow, PublishOptions, same_event, new_row, publish_local,
}

find_first-append_none {ℓ} :
    {A : Type ℓ} (p : A → Bool) (xs : List A) (a : A)
    → find_first p xs ≡ none
    → p a ≡ true
    → find_first p (xs ++ a ∷ []) ≡ some a
find_first-append_none p [] a h e = ground arith
find_first-append_none p (x ∷ xs) a h e = ground (arith, find_first-append_none p xs a)

abbrev wanted : PublishOptions → OutboxRow → Bool
wanted o = same_event o.event_type o.aggregate_id (or_else o.aggregate_revision 1)

new_row-wanted :
    (p : Platform) (secret : Text) (now key : ℕ) (o : PublishOptions)
    → wanted o (new_row p secret now key o) ≡ true
unfolding new_row same_event
new_row-wanted p secret now key o =
    ground (arith, text_eq_refl o.event_type, text_eq_refl o.aggregate_id)

publish_local_found :
    (p : Platform) (secret : Text) (now key : ℕ) (o : PublishOptions) (table : List OutboxRow)
    (row : OutboxRow)
    → find_first (wanted o) table ≡ some row
    → publish_local p secret now key o table ≡ (row, table)
unfolding publish_local
publish_local_found p secret now key o table row h = ground arith

pub publish_local_fresh :
    (p : Platform) (secret : Text) (now key : ℕ) (o : PublishOptions) (table : List OutboxRow)
    → find_first (wanted o) table ≡ none
    → publish_local p secret now key o table
      ≡ (new_row p secret now key o, table ++ (new_row p secret now key o ∷ []))
unfolding publish_local
publish_local_fresh p secret now key o table h = ground arith

-- An event of this type, aggregate and revision is in the table: an earlier one, or a new one with
-- this payload.
abbrev pub IsPublished : Text → Text → ℕ → Json → List OutboxRow → List OutboxRow → Type 0
IsPublished event_type aggregate_id revision payload before after =
    (x : OutboxRow) × (find_first
        (λ row.
          text_eq row.event_type event_type
          && (text_eq row.aggregate_id aggregate_id && row.aggregate_revision == revision))
        after
      ≡ some x)
    × ((find_first
            (λ row.
              text_eq row.event_type event_type
              && (text_eq row.aggregate_id aggregate_id && row.aggregate_revision == revision))
            before
          ≡ some x)
        ⊎ (x.payload ≡ payload))

pub publish_local-IsPublished :
    (p : Platform) (secret : Text) (now key : ℕ) (o : PublishOptions) (table : List OutboxRow)
    → IsPublished o.event_type o.aggregate_id
        (or_else o.aggregate_revision 1)
        o.payload
        table
        (publish_local p secret now key o table).1
unfolding same_event new_row
publish_local-IsPublished p secret now key o table =
    elim (Option-cases (find_first (wanted o) table)) [
      | inl fresh ↦ (
        new_row p secret now key o,
        rw (publish_local_fresh p secret now key o table fresh) (
            find_first-append_none (wanted o) table (new_row p secret now key o) fresh
              (new_row-wanted p secret now key o)),
        inr refl,
      )
      | inr (x, found) ↦
          (x, rw (publish_local_found p secret now key o table x found) found, inl found)
    ]

-- Publishing an event again, at any later time and whatever else the options say, returns the
-- first row and leaves the table as the first call left it.
pub publish_local_again :
    (p : Platform) (secret : Text) (now key later key' : ℕ) (o o' : PublishOptions)
    (table : List OutboxRow)
    → o'.event_type ≡ o.event_type
    → o'.aggregate_id ≡ o.aggregate_id
    → or_else o'.aggregate_revision 1 ≡ or_else o.aggregate_revision 1
    → publish_local p secret later key' o' (publish_local p secret now key o table).1
      ≡ publish_local p secret now key o table
publish_local_again p secret now key later key' o o' table e f g =
    let same : wanted o' ≡ wanted o = simp (e, f, g) in
    elim (Option-cases (find_first (wanted o) table)) [
      | inl fresh ↦ rw (publish_local_fresh p secret now key o table fresh) (
          publish_local_found p secret later key' o' _ _ (
            rw same (
              find_first-append_none (wanted o) table (new_row p secret now key o) fresh
                (new_row-wanted p secret now key o))))
      | inr (row, found) ↦
          rw (publish_local_found p secret now key o table row found)
            (publish_local_found p secret later key' o' table row (rw same found))
    ]

-- No event stands twice in the table.
abbrev pub HasUniqueEvents : List OutboxRow → Type 0
HasUniqueEvents table =
    (event_type aggregate_id : Text) (revision : ℕ)
    → count (same_event event_type aggregate_id revision) table ≤ 1

same_event-new_row :
    (p : Platform) (secret : Text) (now key : ℕ) (o : PublishOptions) (e i : Text) (n : ℕ)
    → same_event e i n (new_row p secret now key o) ≡ true
    → (e ≡ o.event_type) × (i ≡ o.aggregate_id) × (n ≡ or_else o.aggregate_revision 1)
unfolding new_row same_event
same_event-new_row p secret now key o e i n h =
    ground (arith, text_eq_iff o.event_type e, text_eq_iff o.aggregate_id i)

-- `publishLocal` keeps every event (type, aggregate and revision) at most once in the table.
pub publish_local-HasUniqueEvents :
    (p : Platform) (secret : Text) (now key : ℕ) (o : PublishOptions) (table : List OutboxRow)
    → HasUniqueEvents table
    → HasUniqueEvents (publish_local p secret now key o table).1
publish_local-HasUniqueEvents p secret now key o table h e i n =
    elim (Option-cases (find_first (wanted o) table)) [
      | inr (row, found) ↦ rw (publish_local_found p secret now key o table row found) (h e i n)
      | inl fresh ↦
          rw (publish_local_fresh p secret now key o table fresh, count-append)
            (elim (Bool-cases (same_event e i n (new_row p secret now key o))) [
              | inr other ↦ rw other (omega (arith, h e i n))
              | inl this ↦
                  let (a, b, c) = same_event-new_row p secret now key o e i n this in
                  rw (this, a, b, c, count_of_none (wanted o) table fresh) (omega arith)
            ])
    ]
