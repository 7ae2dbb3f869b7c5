-- ===== src/Contracts/Restrictions/Blocking.antt =====
-- Blocking a customer, and lifting the restriction.
use service_hub_backend.Base.Table.{count, find_first, update_many}
use service_hub_backend.Contracts.Restrictions.{
  is_liftable, lift_restriction, lifted, BlockCustomer, block_customer, blocks_provider,
  blocks_service, check_provider_access, check_service_access, is_in_force, new_restriction,
  restricts, target_contract,
}
use service_hub_backend.Base.{
  false, none, ◌<◌, ◌==◌, Bool, List, Option-cases, [], arith, inl, inr, is_some, lt→ltb, refl,
  some, true, ℕ, ◌&&◌, ◌++◌, ◌∷◌, ◌≡◌, ◌≤◌,
}
use service_hub_backend.Contracts.Rows.{Env, Restriction, answered, rejected, Db}

-- What a blocking that is answered has done.
abbrev new_row : Env → BlockCustomer → Restriction
new_row env b = new_restriction env env.action_key b.provider_id b.customer_id b.block_by b.reason

block_customer_restrictions :
    (env : Env) (b : BlockCustomer) (db : Db) (k : ℕ)
    → (block_customer env b db).0 ≡ answered k
    → ((block_customer env b db).1.restrictions ≡ db.restrictions ++ (new_row env b ∷ []))
      × ((block_customer env b db).1.contracts ≡ db.contracts)
unfolding block_customer
block_customer_restrictions env b db k h = elim (Option-cases (target_contract b db)) [
  | inl e ↦ ground (arith, rw (block_customer, e) at h)
  | inr (c, e) ↦
      elim (Option-cases
        (find_first (restricts env.now b.provider_id b.customer_id) db.restrictions)) [
          | inr (r, f) ↦ ground (arith, rw (block_customer, e, f) at h)
          | inl f ↦ rw (block_customer, e, f) (refl, refl)
        ]
]

appended {ℓ} :
    {A : Type ℓ} (p : A → Bool) (xs : List A) (x : A)
    → p x ≡ true
    → is_some (find_first p (xs ++ (x ∷ []))) ≡ true
appended p [] x h = ground arith
appended p (y ∷ xs) x h = ground (arith, appended p xs x h)

-- A customer who has been blocked is refused, from then on, by the provider and for every service
-- of the provider.
pub block_customer_blocks :
    (env : Env) (b : BlockCustomer) (db : Db) (k later service_id : ℕ)
    → (block_customer env b db).0 ≡ answered k
    → env.now ≤ later
    → let db' = (block_customer env b db).1 in
      (check_provider_access later b.provider_id (some b.customer_id) db' ≡ true)
      × (check_service_access later service_id b.provider_id (some b.customer_id) db' ≡ true)
unfolding check_provider_access check_service_access
block_customer_blocks env b db k later service_id h since =
    let (rows, _) = block_customer_restrictions env b db k h in
    let from = lt→ltb in
    (
      rw rows (
          appended (blocks_provider later b.provider_id b.customer_id) db.restrictions
            (new_row env b) (ground (arith, since))),
      rw rows (
          appended
            (λ r.
              is_in_force later r && blocks_service service_id b.provider_id (some b.customer_id) r)
            db.restrictions (new_row env b) (ground (arith, since))),
    )

block_customer_blocked :
    (env : Env) (b : BlockCustomer) (db : Db)
    → is_some (find_first (restricts env.now b.provider_id b.customer_id) db.restrictions) ≡ true
    → block_customer env b db ≡ (rejected 400, db)
unfolding block_customer
block_customer_blocked env b db h = elim (Option-cases (target_contract b db)) [
  | inl e ↦ rw (block_customer, e) refl
  | inr (c, e) ↦
      elim (Option-cases
        (find_first (restricts env.now b.provider_id b.customer_id) db.restrictions)) [
          | inl f ↦ ground (arith, rw f at h)
          | inr (r, f) ↦ rw (block_customer, e, f) refl
        ]
]

-- Blocking the customer again, at any time, for any reason and contract, is refused with 400 and
-- changes nothing.
pub block_customer_again :
    (env env' : Env) (b b' : BlockCustomer) (db : Db) (k : ℕ)
    → (block_customer env b db).0 ≡ answered k
    → b'.provider_id ≡ b.provider_id
    → b'.customer_id ≡ b.customer_id
    → let db' = (block_customer env b db).1 in block_customer env' b' db' ≡ (rejected 400, db')
unfolding block_customer
block_customer_again env env' b b' db k h p c =
    let db' = (block_customer env b db).1 in
    let (rows, _) = block_customer_restrictions env b db k h in
    let found : is_some
          (find_first (restricts env'.now b'.provider_id b'.customer_id) db'.restrictions)
        ≡ true =
      rw rows (
        appended (restricts env'.now b'.provider_id b'.customer_id) db.restrictions (new_row env b)
          (ground (arith, p, c))) in
    block_customer_blocked env' b' db' found

unique_row :
    (q : Restriction → Bool) (f : Restriction → Restriction) (xs : List Restriction)
    (x : Restriction)
    → count q xs ≡ 0
    → q x ≡ true
    → (update_many q f (xs ++ (x ∷ [])) ≡ xs ++ (f x ∷ [])) × (count q (xs ++ (x ∷ [])) ≡ 1)
unique_row q f [] x n h = ground (arith, h)
unique_row q f (y ∷ xs) x n h =
    let (rows, total) = unique_row q f xs x (ground (arith, n)) h in
    let other : q y ≡ false = ground (arith, n) in (rw (other, rows) refl, rw (other, total) refl)

passed_over {ℓ} :
    {A : Type ℓ} (p : A → Bool) (xs : List A) (x : A)
    → p x ≡ false
    → is_some (find_first p (xs ++ (x ∷ []))) ≡ is_some (find_first p xs)
passed_over p [] x h = ground arith
passed_over p (y ∷ xs) x h = ground (arith, passed_over p xs x h)

not_liftable :
    (p key : ℕ) (rs : List Restriction)
    → find_first (λ r. r.id == key) rs ≡ none
    → count (is_liftable p key) rs ≡ 0
not_liftable p key [] h = refl
not_liftable p key (r ∷ rs) h = ground (arith, not_liftable p key rs)

-- Lifting the restriction of a blocking, whose key is new, succeeds, and from the next instant on
-- the provider is open to the customer exactly if it was without the blocking.
pub lift_restriction_lifts :
    (env : Env) (b : BlockCustomer) (db : Db) (k later t : ℕ)
    → (block_customer env b db).0 ≡ answered k
    → find_first (λ r. r.id == env.restriction_key) db.restrictions ≡ none
    → later < t
    → let db' = (block_customer env b db).1 in
      let (answer, lifted_db) = lift_restriction later b.provider_id env.restriction_key db' in
      (answer ≡ answered tt)
      × (check_provider_access t b.provider_id (some b.customer_id) lifted_db
          ≡ check_provider_access t b.provider_id (some b.customer_id) db)
unfolding lift_restriction check_provider_access
lift_restriction_lifts env b db k later t h fresh after =
    let (rows, _) = block_customer_restrictions env b db k h in
    let q = is_liftable b.provider_id env.restriction_key in
    let mine : q (new_row env b) ≡ true = ground arith in
    let (updated, one) =
      unique_row q (lifted later) db.restrictions (new_row env b)
        (not_liftable b.provider_id env.restriction_key db.restrictions fresh) mine in
    let ended : blocks_provider t b.provider_id b.customer_id (lifted later (new_row env b))
        ≡ false =
      ground (arith, after) in
    let over =
      passed_over (blocks_provider t b.provider_id b.customer_id) db.restrictions
        (lifted later (new_row env b)) ended in
    rw (rows, lift_restriction, one, updated) (refl, over)
