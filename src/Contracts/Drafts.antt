-- ===== src/Contracts/Drafts.antt =====
-- apps/contract-service/src/contracts/provider.contracts.service.ts: `createContract` with the
-- checks of its room, its services and its template. The conflicting contract is looked for before
-- the transaction; `between` is what others commit meanwhile.
use service_hub_backend.Base.Text.{Text}
use service_hub_backend.Contracts.Booking.{is_taken}
use service_hub_backend.Contracts.Restrictions.{add_key}
use service_hub_backend.Base.Table.{find_first}
use service_hub_backend.Base.{
  all, same_key, Bool, List, Option, [], any, false, if◌then◌else◌, is_some, length, map, none, not,
  or_else, some, true, ℕ, ◌&&◌, ◌++◌, ◌==◌, ◌∷◌,
}
use service_hub_backend.Contracts.Rows.{
  Contract, ContractService, ContractTemplate, ContractTerm, Term, Env, Response, answered, draft,
  is_open, raised, rejected, Db,
}

-- A service of the payload.
pub record Line : Type 0 where
  pub service_price_id : ℕ
  pub quantity : Option ℕ

-- A date that is not given stands for the present in `start_date`.
pub record CreateContract : Type 0 where
  pub customer_id : ℕ
  pub room_id : Option ℕ
  pub start_date : Option ℕ
  pub end_date : Option ℕ
  pub require_signature : Option Bool
  pub services : List Line
  pub term_ids : List ℕ
  pub template_id : Option ℕ

-- What the identity and catalog services answer; `none` where a call fails. A price comes with the
-- prices of the services that its service requires; an empty list also stands for a null.
pub record DraftReplies : Type 0 where
  pub knows_customer : Bool
  pub rooms : Option (List ℕ)
  pub prices : List ℕ → Option (List (List (Option ℕ)))

-- `[...new Set(ids)]`
unfoldable pub distinct : List ℕ → List ℕ → List ℕ
distinct seen [] = seen
distinct seen (i ∷ ids) = distinct (add_key i seen) ids

abbrev pub price_ids : List Line → List ℕ
price_ids = map (λ l. l.service_price_id)

abbrev pub holds_room : ℕ → ℕ → Contract → Bool
holds_room provider_id room_id c =
    c.provider_id == provider_id && (same_key c.room_id room_id && is_open c.status)

-- `currentPriceIds` holds the keys of the lines collected so far.
pub add_required : List (Option ℕ) → List Line → List Line
add_required [] lines = lines
add_required (none ∷ rs) lines = add_required rs lines
add_required (some i ∷ rs) lines =
    let more =
      add_required rs (lines ++ (record { service_price_id = i; quantity = some 1 } ∷ [])) in
    let same = add_required rs lines in if any (λ j. j == i) (price_ids lines) then same else more

unfoldable pub resolve : List (List (Option ℕ)) → List Line → List Line
unfolding add_required
resolve [] lines = lines
resolve (item ∷ items) lines = resolve items (add_required item lines)

-- Where the catalog does not answer, the services are taken as they are.
unfoldable pub resolve_new : DraftReplies → List Line → Response (List Line)
unfolding resolve distinct
resolve_new replies [] = answered []
resolve_new replies (l ∷ ls) =
    let ids = distinct [] (price_ids (l ∷ ls)) in
    elim (replies.prices ids) [
      | none ↦ answered (l ∷ ls)
      | some prices ↦
          if length prices == length ids then answered (resolve prices (l ∷ ls)) else rejected 400
    ]

unfoldable pub is_template_available : ℕ → Option ℕ → List ContractTemplate → Bool
is_template_available p none templates = true
is_template_available p (some i) templates =
    is_some (
      find_first (λ t. t.id == i && elim t.provider_id [ none ↦ true | some q ↦ q == p ]) templates)

-- `quantity || 1`
abbrev or_one : Option ℕ → ℕ
or_one none = 1
or_one (some q) = if q == 0 then 1 else q

abbrev new_service : Env → Line → ContractService
new_service env l = record {
  contract_id = env.contract_key;
  service_price_id = l.service_price_id;
  quantity = some (or_one l.quantity);
  created_at = env.now;
}

abbrev pub new_term : ℕ → ℕ → ℕ → ContractTerm
new_term now contract_id i = record { contract_id = contract_id; term_id = i; created_at = now }

abbrev pub draft_contract : Env → Text → ℕ → CreateContract → Contract
draft_contract env contract_number provider_id p = record {
  id = env.contract_key;
  contract_number = contract_number;
  provider_id = provider_id;
  room_id = p.room_id;
  customer_id = p.customer_id;
  start_date = or_else p.start_date env.now;
  end_date = p.end_date;
  status = draft;
  revision = 1;
  require_signature = or_else p.require_signature false;
  signed_at = none;
  created_at = env.now;
  updated_at = env.now;
}

-- The terms exist and are named once: a foreign key and a unique pair.
unfoldable pub are_terms : List ℕ → List Term → Bool
unfolding distinct
are_terms ids known =
    length (distinct [] ids) == length ids
    && all (λ i. is_some (find_first (λ t. t.id == i) known)) ids

-- The transaction; the database refuses a taken key or number, and a term that it does not know or
-- that is named twice.
unfoldable pub insert_draft :
    Env → Text → ℕ → CreateContract → List Line → Db → Response Contract × Db
unfolding are_terms
insert_draft env contract_number provider_id p lines db =
    if is_some (find_first (is_taken env.contract_key contract_number) db.contracts)
    then (raised, db)
    else if not (are_terms p.term_ids db.known_terms)
    then (raised, db)
    else (
      answered (draft_contract env contract_number provider_id p),
      record db {
        contracts = db.contracts ++ (draft_contract env contract_number provider_id p ∷ []);
        services = db.services ++ map (new_service env) lines;
        terms = db.terms ++ map (new_term env.now env.contract_key) p.term_ids;
      },
    )

-- The room is among the provider's, and no open contract holds it.
unfoldable pub room_check : DraftReplies → ℕ → Option ℕ → Db → Response Unit
room_check replies provider_id none db = answered tt
room_check replies provider_id (some room_id) db = elim replies.rooms [
  | none ↦ rejected 400
  | some [] ↦ rejected 404
  | some (r ∷ rs) ↦
      if not (r == room_id)
      then rejected 404
      else if is_some (find_first (holds_room provider_id room_id) db.contracts)
      then rejected 400
      else answered tt
]

unfoldable pub draft_lines :
    Env → Text → DraftReplies → (Db → Db) → ℕ → CreateContract → Db → Response Contract × Db
unfolding resolve_new insert_draft is_template_available
draft_lines env contract_number replies between provider_id p db =
    elim (resolve_new replies p.services) [
      | rejected code ↦ (rejected code, db)
      | raised ↦ (raised, db)
      | answered lines ↦
          if is_template_available provider_id p.template_id db.templates
          then insert_draft env contract_number provider_id p lines (between db)
          else (rejected 400, db)
    ]

unfoldable pub create_contract :
    Env → Text → DraftReplies → (Db → Db) → ℕ → CreateContract → Db → Response Contract × Db
unfolding room_check draft_lines
create_contract env contract_number replies between provider_id p db =
    if not replies.knows_customer
    then (rejected 400, db)
    else elim (room_check replies provider_id p.room_id db) [
      | rejected code ↦ (rejected code, db)
      | raised ↦ (raised, db)
      | answered u ↦ draft_lines env contract_number replies between provider_id p db
    ]
