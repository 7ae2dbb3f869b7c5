-- ===== src/Contracts/Restrictions/Market.antt =====
-- The marketplace's view of the restrictions agrees with the check of a single service.
use service_hub_backend.Contracts.Rows.{
  Db, RestrictionScopeType, platform, provider, service, Restriction,
}
use service_hub_backend.Base.Table.{find_first, find_many}
use service_hub_backend.Contracts.Restrictions.{
  add_key?, check_service_access, get_marketplace_restrictions, Marketplace, blocks_service,
  is_in_force, mark_all, mark_restriction, market_restriction,
}
use service_hub_backend.Base.{
  Bool-cases, Option, inl, inr, none, ◌⊎◌, Bool, List, [], all, any, arith, false, is_some, not,
  refl, same_key, some, true, ℕ, ◌&&◌, ◌++◌, ◌==◌, ◌||◌, ◌∷◌, ◌≡◌,
}

-- A restriction of the customer that blocks neither the provider nor the service.
abbrev spares : ℕ → ℕ → ℕ → Restriction → Bool
spares s p c r = same_key r.customer_id c && not (blocks_service s p (some c) r)

abbrev IsClear : ℕ → ℕ → Marketplace → Type 0
IsClear s p m =
    (m.platform_blocked ≡ false)
    × (any (λ j. j == p) m.blocked_provider_ids ≡ false)
    × (any (λ j. j == s) m.blocked_service_ids ≡ false)

any-append : (q : ℕ → Bool) (xs : List ℕ) (i : ℕ) → any q (xs ++ (i ∷ [])) ≡ any q xs || q i
any-append q [] i = ground arith
any-append q (x ∷ xs) i = ground (arith, any-append q xs i)

scope_cases : (x : RestrictionScopeType) → (x ≡ platform) ⊎ (x ≡ provider) ⊎ (x ≡ service)
scope_cases platform = inl refl
scope_cases provider = inr (inl refl)
scope_cases service = inr (inr refl)

add_key?-clear :
    (t : ℕ) (o : Option ℕ) (ids : List ℕ)
    → any (λ j. j == t) ids ≡ false
    → same_key o t ≡ false
    → any (λ j. j == t) (add_key? o ids) ≡ false
add_key?-clear t none ids h k = h
add_key?-clear t (some i) ids h k = ground (arith, h, k, any-append (λ j. j == t) ids i)

mark_restriction-IsClear :
    (s p c : ℕ) (r : Restriction) (m : Marketplace)
    → spares s p c r ≡ true
    → IsClear s p m
    → IsClear s p (mark_restriction r m)
unfolding mark_restriction
mark_restriction-IsClear s p c r m h (a, b, d) = elim (scope_cases r.scope_type) [
  | inl e ↦ ground (arith, rw e at h)
  | inr (inl e) ↦
      let other : same_key r.provider_id p ≡ false = ground (arith, rw e at h) in
      rw (mark_restriction, e) (a, add_key?-clear p r.provider_id m.blocked_provider_ids b other, d)
  | inr (inr e) ↦
      let other : same_key r.service_id s ≡ false = ground (arith, rw e at h) in
      rw (mark_restriction, e) (a, b, add_key?-clear s r.service_id m.blocked_service_ids d other)
]

mark_all-IsClear :
    (s p c : ℕ) (rs : List Restriction) (m : Marketplace)
    → all (spares s p c) rs ≡ true
    → IsClear s p m
    → IsClear s p (mark_all rs m)
unfolding mark_all
mark_all-IsClear s p c [] m h clear = clear
mark_all-IsClear s p c (r ∷ rs) m h clear =
    let (this, rest) : (spares s p c r ≡ true) × (all (spares s p c) rs ≡ true) =
      ground (arith, h) in
    mark_all-IsClear s p c rs (mark_restriction r m) rest
      (mark_restriction-IsClear s p c r m this clear)

and_not : (a b : Bool) → a ≡ true → b ≡ false → a && not b ≡ true
and_not a b h k = ground (arith, h, k)

spared :
    (now s p c : ℕ) (service_ids provider_ids : List ℕ) (r : Restriction)
    → is_in_force now r && blocks_service s p (some c) r ≡ false
    → market_restriction now c service_ids provider_ids r ≡ true
    → spares s p c r ≡ true
spared now s p c service_ids provider_ids r other m =
    let mine : same_key r.customer_id c ≡ true = ground (arith, m) in
    let force : is_in_force now r ≡ true = ground (arith, m) in
    let free : blocks_service s p (some c) r ≡ false = rw force at other in
    and_not (same_key r.customer_id c) (blocks_service s p (some c) r) mine free

all_spared :
    (now s p c : ℕ) (service_ids provider_ids : List ℕ) (rs : List Restriction)
    → is_some (find_first (λ r. is_in_force now r && blocks_service s p (some c) r) rs) ≡ false
    → all (spares s p c) (find_many (market_restriction now c service_ids provider_ids) rs) ≡ true
all_spared now s p c service_ids provider_ids [] h = refl
all_spared now s p c service_ids provider_ids (r ∷ rs) h =
    let q : Restriction → Bool = λ x. is_in_force now x && blocks_service s p (some c) x in
    let other : q r ≡ false = ground (arith, h) in
    let rest : is_some (find_first q rs) ≡ false = ground (arith, h) in
    let tail = all_spared now s p c service_ids provider_ids rs rest in
    elim (Bool-cases (market_restriction now c service_ids provider_ids r)) [
      | inr e ↦ rw e tail
      | inl e ↦
          let this : spares s p c r ≡ true = spared now s p c service_ids provider_ids r other e in
          rw (e, this) tail
    ]

-- Where a customer may order a service of a provider, the marketplace shows the customer as not
-- blocked on the platform, and neither the provider nor the service among the blocked ones,
-- whatever lists it was asked for.
pub get_marketplace_restrictions_clear :
    (now s p c : ℕ) (service_ids provider_ids : List ℕ) (db : Db)
    → check_service_access now s p (some c) db ≡ false
    → let m = get_marketplace_restrictions now c service_ids provider_ids db in
      (m.platform_blocked ≡ false)
      × (any (λ j. j == p) m.blocked_provider_ids ≡ false)
      × (any (λ j. j == s) m.blocked_service_ids ≡ false)
unfolding check_service_access get_marketplace_restrictions
get_marketplace_restrictions_clear now s p c service_ids provider_ids db h =
    mark_all-IsClear s p c
      (find_many (market_restriction now c service_ids provider_ids) db.restrictions)
      (record { platform_blocked = false; blocked_provider_ids = []; blocked_service_ids = [] })
      (all_spared now s p c service_ids provider_ids db.restrictions h) (refl, refl, refl)
