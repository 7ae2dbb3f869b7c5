-- ===== src/Contracts/Keys.antt =====
-- The primary key of the table of contracts, and how rows are followed through updates.
use mathlib.Core.Option
use service_hub_backend.Contracts.Rows.{Contract, contract_has_id}
use service_hub_backend.Base.Table.{
  find_first_holds, count, find_first, find_first-append, find_first-update_many, update_many,
}
use service_hub_backend.Base.{
  sym, ◌==◌, Bool, List, [], ap, arith, if◌then◌else◌, some, true, ℕ, ◌++◌, ◌∙◌, ◌∷◌, ◌≡◌, ◌≢◌, ◌≤◌,
}

-- No two rows have one key.
abbrev pub HasUniqueKeys : List Contract → Type 0
HasUniqueKeys cs = (i : ℕ) → count (contract_has_id i) cs ≤ 1

-- Every row is still there, and stands in the relation to what it has become.
abbrev pub Follows : (Contract → Contract → Type 0) → List Contract → List Contract → Type 0
Follows R before after =
    (i : ℕ) (x : Contract)
    → find_first (contract_has_id i) before ≡ some x
    → (y : Contract) × (find_first (contract_has_id i) after ≡ some y) × R x y

pub Follows-refl :
    (R : Contract → Contract → Type 0) (cs : List Contract)
    → ((x : Contract) → R x x)
    → Follows R cs cs
Follows-refl R cs same i x h = (x, h, same x)

pub Follows-trans :
    (R : Contract → Contract → Type 0) (a_rows b_rows cs : List Contract)
    → ((x y z : Contract) → R x y → R y z → R x z)
    → Follows R a_rows b_rows
    → Follows R b_rows cs
    → Follows R a_rows cs
Follows-trans R a_rows b_rows cs trans f g i x h =
    let (y, hy, r) = f i x h in let (z, hz, s) = g i y hy in (z, hz, trans x y z r s)

pub update_many-Follows :
    (R : Contract → Contract → Type 0) (q : Contract → Bool) (f : Contract → Contract)
    (cs : List Contract)
    → ((x : Contract) → (f x).id ≡ x.id)
    → ((i : ℕ) (x : Contract)
        → find_first (contract_has_id i) cs ≡ some x
        → R x (if q x then f x else x))
    → Follows R cs (update_many q f cs)
update_many-Follows R q f cs keep each i x h =
    let moved : find_first (contract_has_id i) (update_many q f cs)
        ≡ some (if q x then f x else x) =
      find_first-update_many (contract_has_id i) q f cs (λ y. ground (arith, keep y))
      ∙ ap (Option.map (λ y. if q y then f y else y)) h in
    (if q x then f x else x, moved, each i x h)

pub append-Follows :
    (R : Contract → Contract → Type 0) (cs more : List Contract)
    → ((x : Contract) → R x x)
    → Follows R cs (cs ++ more)
append-Follows R cs more same i x h =
    (x, ground (arith, h, find_first-append (contract_has_id i) cs more), same x)

pub count_zero {ℓ} :
    {A : Type ℓ} (p q : A → Bool) (xs : List A) (c : A)
    → count p xs ≡ 0
    → ((x : A) → q x ≡ true → p x ≡ true)
    → find_first q xs ≢ some c
count_zero p q [] c h sub e = cc
count_zero p q (x ∷ xs) c h sub e = ground (arith, sub x, count_zero p q xs c)

-- A query that asks for a key and more finds the row that the key alone finds.
pub find_by_key {ℓ} :
    {A : Type ℓ} (p q : A → Bool) (xs : List A) (c : A)
    → count p xs ≤ 1
    → ((x : A) → q x ≡ true → p x ≡ true)
    → find_first q xs ≡ some c
    → find_first p xs ≡ some c
find_by_key p q [] c one sub h = cc
find_by_key p q (x ∷ xs) c one sub h =
    ground (arith, sub x, find_by_key p q xs c, count_zero p q xs c)

-- Two queries by keys that find rows of one key find one row.
pub found_same :
    (i j : ℕ) (cs : List Contract) (x c : Contract)
    → find_first (contract_has_id j) cs ≡ some x
    → find_first (contract_has_id i) cs ≡ some c
    → (x.id == i) ≡ true
    → x ≡ c
found_same i j cs x c h k e =
    let is_j : (x.id == j) ≡ true = find_first_holds (contract_has_id j) cs h in
    let same_key : i ≡ j = ground (arith, is_j, e) in
    let both : some x ≡ some c = sym h ∙ rw same_key at k in cc
