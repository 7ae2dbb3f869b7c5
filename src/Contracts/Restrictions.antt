-- ===== src/Contracts/Restrictions.antt =====
-- apps/contract-service/src/contracts: who may not order what. `blockCustomer`, `liftRestriction`,
-- `findRestrictions` of provider.contracts.service.ts, and `checkServiceAccess`,
-- `checkProviderAccess`, `getMarketplaceRestrictions` of customer.contracts.service.ts.
pub mod Blocking
pub mod Market
use service_hub_backend.Base.Text.{Text, codes, text_eq}
use service_hub_backend.Base.Table.{count, find_first, find_many, update_many}
use service_hub_backend.Contracts.Rows.{
  Contract, Db, Env, Response, Restriction, RestrictionScopeType, ViolationRule, answered, customer,
  platform, provider, rejected, resolved, restrict, service,
}
use service_hub_backend.Base.{
  same_key, [], Bool, List, Option, any, false, if◌then◌else◌, is_some, leb, ltb, none, not, some,
  true, ℕ, ◌&&◌, ◌++◌, ◌==◌, ◌||◌, ◌∷◌,
}

abbrev pub is_platform : RestrictionScopeType → Bool
is_platform platform = true
is_platform _ = false

abbrev pub is_provider_scope : RestrictionScopeType → Bool
is_provider_scope provider = true
is_provider_scope _ = false

abbrev pub is_service_scope : RestrictionScopeType → Bool
is_service_scope service = true
is_service_scope _ = false

-- `OR: [{ endAt: null }, { endAt: { gt: now } }]`
abbrev pub is_open_at : ℕ → Option ℕ → Bool
is_open_at now none = true
is_open_at now (some t) = ltb now t

-- A restriction that has begun, has not ended and is not deleted.
abbrev pub is_in_force : ℕ → Restriction → Bool
is_in_force now r = not r.is_deleted && (leb r.start_at now && is_open_at now r.end_at)

-- `OR: [{ customerId: null }, ...(customerId ? [{ customerId }] : [])]`
abbrev pub concerns : Option ℕ → Option ℕ → Bool
concerns none asker = true
concerns (some c) none = false
concerns (some c) (some asker) = c == asker

abbrev pub blocks_service : ℕ → ℕ → Option ℕ → Restriction → Bool
blocks_service service_id provider_id asker r =
    (is_platform r.scope_type && elim asker [ none ↦ false | some c ↦ same_key r.customer_id c ])
    || ((is_provider_scope r.scope_type
          && (same_key r.provider_id provider_id && concerns r.customer_id asker))
        || (is_service_scope r.scope_type
            && (same_key r.service_id service_id && concerns r.customer_id asker)))

unfoldable pub check_service_access : ℕ → ℕ → ℕ → Option ℕ → Db → Bool
check_service_access now service_id provider_id asker db = is_some (
    find_first (λ r. is_in_force now r && blocks_service service_id provider_id asker r)
      db.restrictions)

-- Here `endAt: { gte: now }`.
abbrev pub blocks_provider : ℕ → ℕ → ℕ → Restriction → Bool
blocks_provider now provider_id c r =
    is_provider_scope r.scope_type
    && (same_key r.provider_id provider_id
        && (same_key r.customer_id c
            && (not r.is_deleted
                && (leb r.start_at now && elim r.end_at [ none ↦ true | some t ↦ leb now t ]))))

pub check_provider_access : ℕ → ℕ → Option ℕ → Db → Bool
check_provider_access now provider_id none db = false
check_provider_access now provider_id (some c) db =
    is_some (find_first (blocks_provider now provider_id c) db.restrictions)

abbrev pub is_among : List ℕ → Option ℕ → Bool
is_among ids none = false
is_among ids (some i) = any (λ j. j == i) ids

abbrev pub market_restriction : ℕ → ℕ → List ℕ → List ℕ → Restriction → Bool
market_restriction now c service_ids provider_ids r =
    same_key r.customer_id c
    && (is_in_force now r
        && (is_platform r.scope_type
            || ((is_provider_scope r.scope_type && is_among provider_ids r.provider_id)
                || (is_service_scope r.scope_type && is_among service_ids r.service_id))))

pub record Marketplace : Type 0 where
  pub platform_blocked : Bool
  pub blocked_provider_ids : List ℕ
  pub blocked_service_ids : List ℕ

-- `Set.add`, in the order of insertion.
abbrev pub add_key : ℕ → List ℕ → List ℕ
add_key i ids = if any (λ j. j == i) ids then ids else ids ++ (i ∷ [])

abbrev pub add_key? : Option ℕ → List ℕ → List ℕ
add_key? none ids = ids
add_key? (some i) ids = add_key i ids

-- The `switch` of the loop.
unfoldable pub mark_restriction : Restriction → Marketplace → Marketplace
mark_restriction r m = elim r.scope_type [
  | platform ↦ record m { platform_blocked = true }
  | provider ↦ record m { blocked_provider_ids = add_key? r.provider_id m.blocked_provider_ids }
  | service ↦ record m { blocked_service_ids = add_key? r.service_id m.blocked_service_ids }
]

pub mark_all : List Restriction → Marketplace → Marketplace
unfolding mark_restriction
mark_all [] m = m
mark_all (r ∷ rs) m = mark_all rs (mark_restriction r m)

pub get_marketplace_restrictions : ℕ → ℕ → List ℕ → List ℕ → Db → Marketplace
unfolding mark_all
get_marketplace_restrictions now c service_ids provider_ids db =
    mark_all (find_many (market_restriction now c service_ids provider_ids) db.restrictions)
      (record { platform_blocked = false; blocked_provider_ids = []; blocked_service_ids = [] })

-- The condition under which a restriction can still be lifted.
abbrev pub is_liftable : ℕ → ℕ → Restriction → Bool
is_liftable provider_id restriction_id r =
    r.id == restriction_id
    && (same_key r.provider_id provider_id
        && (is_provider_scope r.scope_type && (not r.is_deleted && not (is_some r.end_at))))

abbrev pub lifted : ℕ → Restriction → Restriction
lifted now r = record r { end_at = some now }

-- `updateMany` has its effect also where the call then answers 404.
pub lift_restriction : ℕ → ℕ → ℕ → Db → Response Unit × Db
lift_restriction now provider_id restriction_id db =
    let q = is_liftable provider_id restriction_id in
    let db' : Db = record db { restrictions = update_many q (lifted now) db.restrictions } in
    if count q db.restrictions == 1 then (answered tt, db') else (rejected 404, db')

-- The filter of `findRestrictions`: all, `ACTIVE` or `LIFTED`.
pub data RestrictionFilter : Type 0 where
  every still_active already_lifted : RestrictionFilter

abbrev pub has_filter : RestrictionFilter → Restriction → Bool
has_filter every r = true
has_filter still_active r = not (is_some r.end_at)
has_filter already_lifted r = is_some r.end_at

pub find_restrictions : ℕ → RestrictionFilter → Db → List Restriction
find_restrictions provider_id filter db =
    find_many
      (λ r.
        same_key r.provider_id provider_id
        && (is_provider_scope r.scope_type && (not r.is_deleted && has_filter filter r)))
      db.restrictions

pub record BlockCustomer : Type 0 where
  pub provider_id : ℕ
  pub customer_id : ℕ
  pub reason : Text
  pub block_by : ℕ
  pub contract_id : Option ℕ

-- `orderBy: { createdAt: 'desc' }`
abbrev pub latest_contract : (Contract → Bool) → List Contract → Option Contract
latest_contract p [] = none
latest_contract p (x ∷ xs) =
    let rest = latest_contract p xs in
    if p x
    then elim rest [
      | none ↦ some x
      | some y ↦ if leb y.created_at x.created_at then some x else some y
    ]
    else rest

abbrev pub between_parties : ℕ → ℕ → Contract → Bool
between_parties provider_id customer_id c =
    c.provider_id == provider_id && c.customer_id == customer_id

pub target_contract : BlockCustomer → Db → Option Contract
target_contract b db = elim b.contract_id [
  | some i ↦
      find_first (λ c. c.id == i && between_parties b.provider_id b.customer_id c) db.contracts
  | none ↦ latest_contract (between_parties b.provider_id b.customer_id) db.contracts
]

-- A restriction of the customer by the provider that has not ended, begun or not.
abbrev pub restricts : ℕ → ℕ → ℕ → Restriction → Bool
restricts now provider_id customer_id r =
    same_key r.provider_id provider_id
    && (same_key r.customer_id customer_id
        && (is_provider_scope r.scope_type && (not r.is_deleted && is_open_at now r.end_at)))

abbrev pub own_rule_name : Text
own_rule_name = codes "Không còn hợp đồng hiệu lực - Provider tự chặn"

abbrev pub rule_has_name : Text → ViolationRule → Bool
rule_has_name name rule = text_eq rule.name name

-- `findFirst`, else `create`: the rule's key and the table.
pub find_or_create_rule :
    ℕ → Text → (ViolationRule → Bool) → List ViolationRule → ℕ × List ViolationRule
find_or_create_rule key name p rules = elim (find_first p rules) [
  | some rule ↦ (rule.id, rules)
  | none ↦ (
    key,
    rules ++ (record { id = key; name = name; target_type = customer; is_active = true } ∷ []),
  )
]

abbrev pub new_restriction : Env → ℕ → ℕ → ℕ → ℕ → Text → Restriction
new_restriction env action_id provider_id customer_id by reason = record {
  id = env.restriction_key;
  violation_action_id = action_id;
  provider_id = some provider_id;
  customer_id = some customer_id;
  service_id = none;
  scope_type = provider;
  reason = reason;
  start_at = env.now;
  end_at = none;
  created_by = by;
  is_deleted = false;
}

-- The three rows that the nested `create` makes.
abbrev block_rows : Env → BlockCustomer → Contract → ℕ → Db → Db
block_rows env b c rule_id db = record db {
  cases =
      db.cases
      ++ (record {
        id = env.case_key;
        violation_rule_id = rule_id;
        contract_id = c.id;
        provider_id = b.provider_id;
        reported_by = b.block_by;
        service_id = none;
        status = resolved;
        description = b.reason;
        evidence = [];
        occurred_at = env.now;
        created_at = env.now;
        updated_at = env.now;
      }
          ∷ []);
  actions =
      db.actions
      ++ (record {
        id = env.action_key;
        violation_case_id = env.case_key;
        performed_by = b.block_by;
        action_type = restrict;
        reason = b.reason;
        amount = none;
        created_at = env.now;
      }
          ∷ []);
  restrictions =
      db.restrictions
      ++ (new_restriction env env.action_key b.provider_id b.customer_id b.block_by b.reason ∷ []);
}

-- A serializable transaction.
unfoldable pub block_customer : Env → BlockCustomer → Db → Response ℕ × Db
unfolding target_contract find_or_create_rule
block_customer env b db = elim (target_contract b db) [
  | none ↦ (rejected 400, db)
  | some c ↦ elim (find_first (restricts env.now b.provider_id b.customer_id) db.restrictions) [
    | some r ↦ (rejected 400, db)
    | none ↦
        let (rule_id, rules) =
          find_or_create_rule env.rule_key own_rule_name (rule_has_name own_rule_name) db.rules in
        (answered env.case_key, block_rows env b c rule_id (record db { rules = rules }))
  ]
]
