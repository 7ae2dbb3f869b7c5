-- ===== src/Base/Table.antt =====
-- A database table as the list of its rows, with the queries that the services send.
use Prim.Native.Nat.{ℕ, suc, ◌+◌}
use mathlib.Core.Path.{◌≡◌, refl}
use mathlib.Core.Logic.{inl, inr}
use mathlib.Core.Bool.{Bool, true}
use mathlib.Core.Option
use mathlib.Core.Option.{Option, none, some}
use mathlib.Core.List.{List, [], ◌∷◌, ◌++◌}
use native.Mathlib.Omega.{arith}
use service_hub_backend.Base.Tests.{if◌then◌else◌, Bool-cases}

module _ {ℓ} {A : Type ℓ} where
  -- `findFirst` and, on a unique key, `findUnique`.
  abbrev pub find_first : (A → Bool) → List A → Option A
  find_first p [] = none
  find_first p (x ∷ xs) = if p x then some x else find_first p xs

  -- `findMany`
  abbrev pub find_many : (A → Bool) → List A → List A
  find_many p [] = []
  find_many p (x ∷ xs) = if p x then x ∷ find_many p xs else find_many p xs

  -- `updateMany`, and `update` on a unique key.
  abbrev pub update_many : (A → Bool) → (A → A) → List A → List A
  update_many p f [] = []
  update_many p f (x ∷ xs) = (if p x then f x else x) ∷ update_many p f xs

  -- `deleteMany`
  abbrev pub delete_many : (A → Bool) → List A → List A
  delete_many p [] = []
  delete_many p (x ∷ xs) = if p x then delete_many p xs else x ∷ delete_many p xs

  -- `count`, also the `.count` that `updateMany` and `deleteMany` return.
  abbrev pub count : (A → Bool) → List A → ℕ
  count p [] = 0
  count p (x ∷ xs) = let rest = count p xs in if p x then suc rest else rest

module _ {ℓ} {A : Type ℓ} where
  -- The row that a query returns satisfies its condition.
  pub find_first_holds :
      (p : A → Bool) (xs : List A) {a : A} → find_first p xs ≡ some a → p a ≡ true
  find_first_holds p [] h = cc
  find_first_holds p (x ∷ xs) h = elim (Bool-cases (p x)) [
    | inl e ↦ ground (arith, e)
    | inr e ↦ find_first_holds p xs (rw e at h)
  ]

module _ {ℓ} {A : Type ℓ} where
  -- A query whose condition an update leaves alone finds the same row, updated.
  pub find_first-update_many :
      (p q : A → Bool) (f : A → A) (xs : List A)
      → ((x : A) → p (f x) ≡ p x)
      → find_first p (update_many q f xs)
        ≡ Option.map (λ x. if q x then f x else x) (find_first p xs)
  find_first-update_many p q f [] keep = refl
  find_first-update_many p q f (x ∷ xs) keep =
      ground (arith, keep x, find_first-update_many p q f xs keep)

  pub find_first-append :
      (p : A → Bool) (xs ys : List A)
      → find_first p (xs ++ ys)
        ≡ elim (find_first p xs) [ some a ↦ some a | none ↦ find_first p ys ]
  find_first-append p [] ys = refl
  find_first-append p (x ∷ xs) ys = ground (arith, find_first-append p xs ys)

  pub count-append : (p : A → Bool) (xs ys : List A) → count p (xs ++ ys) ≡ count p xs + count p ys
  count-append p [] ys = omega arith
  count-append p (x ∷ xs) ys = ground (arith, count-append p xs ys)

  pub count_of_none : (p : A → Bool) (xs : List A) → find_first p xs ≡ none → count p xs ≡ 0
  count_of_none p [] h = refl
  count_of_none p (x ∷ xs) h = ground (arith, count_of_none p xs)

  pub count-update_many :
      (p q : A → Bool) (f : A → A) (xs : List A)
      → ((x : A) → p (f x) ≡ p x)
      → count p (update_many q f xs) ≡ count p xs
  count-update_many p q f [] keep = refl
  count-update_many p q f (x ∷ xs) keep = ground (arith, keep x, count-update_many p q f xs keep)

  -- An update that finds no row changes nothing.
  pub update_many_none :
      (p : A → Bool) (f : A → A) (xs : List A) → count p xs ≡ 0 → update_many p f xs ≡ xs
  update_many_none p f [] h = refl
  update_many_none p f (x ∷ xs) h = ground (arith, update_many_none p f xs)
