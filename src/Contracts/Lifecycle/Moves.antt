-- ===== src/Contracts/Lifecycle/Moves.antt =====
-- The moves of one transaction over the table of contracts.
use service_hub_backend.Contracts.Drafts.{holds_room}
use service_hub_backend.Base.Table.{
  count, count-append, count-update_many, count_of_none, find_first, update_many,
}
use service_hub_backend.Contracts.Keys.{
  Follows-refl, HasUniqueKeys, append-Follows, found_same, Follows, update_many-Follows,
}
use service_hub_backend.Contracts.Rows.{draft, Contract, contract_has_id}
use service_hub_backend.Base.{
  ==_iff, [], none, sym, ◌++◌, ◌∷◌, ◌≤◌, Bool, Bool-cases, List, arith, inl, inr, some, true, ℕ,
  ◌==◌, ◌≡◌,
}
use service_hub_backend.Contracts.Lifecycle.{TakesRoom, Moves}

pub Moves-refl : (x : Contract) → Moves x x
Moves-refl x = ground arith

-- The one row with the key is changed.
pub change-Moves :
    (i : ℕ) (f : Contract → Contract) (cs : List Contract) (c : Contract)
    → ((x : Contract) → (f x).id ≡ x.id)
    → find_first (contract_has_id i) cs ≡ some c
    → Moves c (f c)
    → Follows Moves cs (update_many (contract_has_id i) f cs)
change-Moves i f cs c keep found moves =
    update_many-Follows Moves (contract_has_id i) f cs keep (λ j x h.
      elim (Bool-cases (x.id == i)) [
        | inr other ↦ rw other (Moves-refl x)
        | inl this ↦ rw (this, found_same i j cs x c h found this) moves
      ])

-- Rows of one status are changed.
pub guarded-Moves :
    (q : Contract → Bool) (f : Contract → Contract) (cs : List Contract)
    → ((x : Contract) → (f x).id ≡ x.id)
    → ((x : Contract) → q x ≡ true → Moves x (f x))
    → Follows Moves cs (update_many q f cs)
guarded-Moves q f cs keep moves = update_many-Follows Moves q f cs keep (λ j x h.
    elim (Bool-cases (q x)) [
      | inr other ↦ rw other (Moves-refl x)
      | inl this ↦ rw this (moves x this)
    ])

-- A move that leaves the room as it is takes none: a closed contract is not opened again.
pub holds_same_room :
    (x y : Contract) (p r : ℕ)
    → Moves x y
    → y.room_id ≡ x.room_id
    → holds_room p r y ≡ true
    → holds_room p r x ≡ true
holds_same_room x y p r moves room h = ground (arith, moves, room, h)

same_room :
    (before : List Contract) (x y : Contract)
    → Moves x y
    → y.room_id ≡ x.room_id
    → TakesRoom before x y
same_room before x y moves room p r h = inl (holds_same_room x y p r moves room h)

-- What one transaction may do to the table.
pub data Transition (before after : List Contract) : Type 0 where
  stays : after ≡ before → Transition before after
  changes :
      (i : ℕ) (f : Contract → Contract) (c : Contract)
      → ((x : Contract) → (f x).id ≡ x.id)
      → find_first (contract_has_id i) before ≡ some c
      → Moves c (f c)
      → TakesRoom before c (f c)
      → after ≡ update_many (contract_has_id i) f before
      → Transition before after
  changes_where :
      (q : Contract → Bool) (f : Contract → Contract)
      → ((x : Contract) → (f x).id ≡ x.id)
      → ((x : Contract) → q x ≡ true → Moves x (f x))
      → ((x : Contract) → (f x).room_id ≡ x.room_id)
      → after ≡ update_many q f before
      → Transition before after
  creates :
      (c : Contract)
      → find_first (contract_has_id c.id) before ≡ none
      → c.status ≡ draft
      → c.revision ≡ 1
      → ((p r : ℕ) → holds_room p r c ≡ true → find_first (holds_room p r) before ≡ none)
      → after ≡ before ++ (c ∷ [])
      → Transition before after

-- A change of the status alone.
pub changes_status :
    {before after : List Contract} (i : ℕ) (f : Contract → Contract) (c : Contract)
    → ((x : Contract) → (f x).id ≡ x.id)
    → find_first (contract_has_id i) before ≡ some c
    → Moves c (f c)
    → (f c).room_id ≡ c.room_id
    → after ≡ update_many (contract_has_id i) f before
    → Transition before after
changes_status {before} i f c keep found moves room e =
    changes i f c keep found moves (same_room before c (f c) moves room) e

pub Transition-Follows :
    (before after : List Contract) → Transition before after → Follows Moves before after
Transition-Follows before after (stays e) = rw e (Follows-refl Moves before Moves-refl)
Transition-Follows before after (changes i f c keep found moves room e) =
    rw e (change-Moves i f before c keep found moves)
Transition-Follows before after (changes_where q f keep moves room e) =
    rw e (guarded-Moves q f before keep moves)
Transition-Follows before after (creates c fresh d r room e) =
    rw e (append-Follows Moves before (c ∷ []) Moves-refl)

count_one : (i : ℕ) (c : Contract) → count (contract_has_id i) (c ∷ []) ≤ 1
count_one i c = ground arith

pub Transition-HasUniqueKeys :
    (before after : List Contract)
    → Transition before after
    → HasUniqueKeys before
    → HasUniqueKeys after
Transition-HasUniqueKeys before after (stays e) u = rw e u
Transition-HasUniqueKeys before after (changes j f c keep found moves room e) u = λ i.
    rw
      (
        e,
        count-update_many (contract_has_id i) (contract_has_id j) f before
            (λ x. ground (arith, keep x)),
      )
      (u i)
Transition-HasUniqueKeys before after (changes_where q f keep moves room e) u = λ i.
    rw (e, count-update_many (contract_has_id i) q f before (λ x. ground (arith, keep x))) (u i)
Transition-HasUniqueKeys before after (creates c fresh d r room e) u = λ i.
    rw (e, count-append (contract_has_id i) before (c ∷ []))
      (elim (Bool-cases (contract_has_id i c)) [
        | inr other ↦ ground (arith, u i, other)
        | inl this ↦
            let none_yet : count (contract_has_id i) before ≡ 0 =
              count_of_none (contract_has_id i) before (rw (sym ((==_iff c.id i).0 this)) fresh) in
            ground (arith, none_yet)
      ])
