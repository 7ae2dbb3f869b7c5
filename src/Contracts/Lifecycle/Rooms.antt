-- ===== src/Contracts/Lifecycle/Rooms.antt =====
-- No room is held by two open contracts of a provider.
use service_hub_backend.Contracts.Keys.{HasUniqueKeys}
use service_hub_backend.Contracts.Lifecycle.{TakesRoom}
use service_hub_backend.Contracts.Lifecycle.Moves.{
  Transition, changes, changes_where, creates, holds_same_room, stays,
}
use service_hub_backend.Contracts.Rows.{Contract, contract_has_id}
use service_hub_backend.Base.Table.{
  update_many_none, count-append, count_of_none, find_first_holds, count, find_first, update_many,
}
use service_hub_backend.Contracts.Drafts.{holds_room}
use service_hub_backend.Base.{
  ==_iff, Bool-cases, inl, inr, Bool, List, [], false, none, not, refl, some, true, ℕ, ◌&&◌, ◌+◌,
  ◌==◌, ◌∷◌, ◌≡◌, ◌≤◌, arith,
}

abbrev pub HasOwnRooms : List Contract → Type 0
HasOwnRooms cs = (p r : ℕ) → count (holds_room p r) cs ≤ 1

-- Among the other rows of a table without a second one nothing is changed.
count_changed :
    (P : Contract → Bool) (i : ℕ) (f : Contract → Contract) (cs : List Contract) (c : Contract)
    → count (contract_has_id i) cs ≤ 1
    → find_first (contract_has_id i) cs ≡ some c
    → count P (update_many (contract_has_id i) f cs) + count P (c ∷ [])
      ≡ count P cs + count P (f c ∷ [])
count_changed P i f [] c u h = cc
count_changed P i f (x ∷ cs) c u h = elim (Bool-cases (x.id == i)) [
  | inl e ↦
      let this : x ≡ c = ground (arith, h, e) in
      let rest : count (contract_has_id i) cs ≡ 0 = ground (arith, u, e) in
      rw (e, update_many_none (contract_has_id i) f cs rest, this) (ground arith)
  | inr e ↦
      let rest : count (contract_has_id i) cs ≤ 1 = ground (arith, u, e) in
      let found : find_first (contract_has_id i) cs ≡ some c = ground (arith, h, e) in
      rw e (ground (arith, count_changed P i f cs c rest found))
]

count_absent :
    (P : Contract → Bool) (i : ℕ) (cs : List Contract)
    → count (contract_has_id i) cs ≡ 0
    → find_first (λ x. P x && not (x.id == i)) cs ≡ none
    → count P cs ≡ 0
count_absent P i [] u o = refl
count_absent P i (x ∷ cs) u o = ground (arith, count_absent P i cs)

-- Where no other row satisfies a condition that the row does not, none does.
count_others :
    (P : Contract → Bool) (i : ℕ) (cs : List Contract) (c : Contract)
    → count (contract_has_id i) cs ≤ 1
    → find_first (contract_has_id i) cs ≡ some c
    → P c ≡ false
    → find_first (λ x. P x && not (x.id == i)) cs ≡ none
    → count P cs ≡ 0
count_others P i [] c u h n o = refl
count_others P i (x ∷ cs) c u h n o = elim (Bool-cases (x.id == i)) [
  | inl e ↦
      let this : x ≡ c = ground (arith, h, e) in
      let rest : count (contract_has_id i) cs ≡ 0 = ground (arith, u, e) in
      let none_here : P x ≡ false = rw this n in
      rw none_here (count_absent P i cs rest (ground (arith, o, none_here)))
  | inr e ↦
      let rest : count (contract_has_id i) cs ≤ 1 = ground (arith, u, e) in
      let found : find_first (contract_has_id i) cs ≡ some c = ground (arith, h, e) in
      ground (arith, o, e, count_others P i cs c rest found n)
]

count_where :
    (P q : Contract → Bool) (f : Contract → Contract) (cs : List Contract)
    → ((x : Contract) → q x ≡ true → P (f x) ≡ true → P x ≡ true)
    → count P (update_many q f cs) ≤ count P cs
count_where P q f [] h = omega arith
count_where P q f (x ∷ cs) h = ground (arith, h x, count_where P q f cs h)

changed-HasOwnRooms :
    (i : ℕ) (f : Contract → Contract) (cs : List Contract) (c : Contract)
    → HasUniqueKeys cs
    → HasOwnRooms cs
    → find_first (contract_has_id i) cs ≡ some c
    → TakesRoom cs c (f c)
    → HasOwnRooms (update_many (contract_has_id i) f cs)
changed-HasOwnRooms i f cs c u own found takes p r =
    let P = holds_room p r in
    let total = count_changed P i f cs c (u i) found in
    let is_i : c.id ≡ i = (==_iff c.id i).0 (find_first_holds (contract_has_id i) cs found) in
    elim (Bool-cases (P (f c))) [
      | inr k ↦ ground (arith, total, own p r, k)
      | inl k ↦ elim (Bool-cases (P c)) [
        | inl l ↦ ground (arith, total, own p r, k, l)
        | inr l ↦ elim (takes p r k) [
          | inl m ↦ cc
          | inr m ↦
              let zero_before : count P cs ≡ 0 =
                count_others P i cs c (u i) found l (rw is_i at m) in
              ground (arith, total, zero_before, k, l)
        ]
      ]
    ]

-- A transition lets no open contract take a room that another one holds.
pub Transition-HasOwnRooms :
    (before after : List Contract)
    → Transition before after
    → HasUniqueKeys before
    → HasOwnRooms before
    → HasOwnRooms after
Transition-HasOwnRooms before after (stays e) u own = rw e own
Transition-HasOwnRooms before after (changes i f c keep found moves takes e) u own =
    rw e (changed-HasOwnRooms i f before c u own found takes)
Transition-HasOwnRooms before after (changes_where q f keep moves room e) u own = λ p r. rw e (
    let kept =
      count_where (holds_room p r) q f before
        (λ x h k. holds_same_room x (f x) p r (moves x h) (room x) k) in
    omega (arith, kept, own p r))
Transition-HasOwnRooms before after (creates c fresh d r₁ free e) u own = λ p r.
    rw (e, count-append (holds_room p r) before (c ∷ []))
      (elim (Bool-cases (holds_room p r c)) [
        | inr k ↦ ground (arith, own p r, k)
        | inl k ↦ ground (arith, count_of_none (holds_room p r) before (free p r k))
      ])
