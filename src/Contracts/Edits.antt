-- ===== src/Contracts/Edits.antt =====
-- apps/contract-service/src/contracts/provider.contracts.service.ts: `updateContract` and the part
-- of `createSigningFile` that writes the database. The rendering of the PDF, its upload and its
-- hash are a parameter. No other transaction changes the tables within a call.
use service_hub_backend.Contracts.Provider.{file_of, is_request_draft, service_of}
use service_hub_backend.Base.Text.{Text, is_empty}
use service_hub_backend.Base.Table.{delete_many, find_first, find_many, update_many}
use service_hub_backend.Contracts.Drafts.{Line, new_term, distinct}
use service_hub_backend.Base.{
  Bool, List, Option, [], any, false, if◌then◌else◌, is_some, length, map, none, not, or_else, some,
  true, ℕ, ◌++◌, ◌/◌, ◌==◌, ◌||◌, ◌∷◌,
}
use service_hub_backend.Contracts.Rows.{
  Contract, ContractFile, ContractService, ContractTerm, Env, change_contract, Db,
}

-- The outer `none` stands for a key that is absent, the inner one for null or an empty text.
pub record UpdateContract : Type 0 where
  pub room_id : Option (Option ℕ)
  pub start_date : Option ℕ
  pub end_date : Option (Option ℕ)
  pub require_signature : Option Bool
  pub services : Option (List Line)
  pub term_ids : Option (List ℕ)
  pub template_id : Option ℕ

-- The address and the hash of the document of a contract; `none` where making it throws.
abbrev pub Renderer : Type 0
Renderer = Contract → Db → Option (Text × Text)

-- The rooms of the provider among those asked for, the prices with what their services require,
-- and the number that a completed request gets.
pub record EditReplies : Type 0 where
  pub own_rooms : Option (List ℕ)
  pub prices : List ℕ → Option (List (List (Option ℕ)))
  pub contract_number : Text

-- The file that the contract has is overwritten, and keeps its key.
unfoldable pub write_file : Env → ℕ → Text × Text → Db → Db
write_file env contract_id (url, hash) db = elim (find_first (file_of contract_id) db.files) [
  | some file ↦ record db {
    files =
        update_many (λ f. f.id == file.id)
          (λ f. record f { pdf_url = url; hash_contract = some hash }) db.files;
  }
  | none ↦ record db {
    files =
        db.files
        ++ (record {
          id = env.file_key;
          contract_id = contract_id;
          pdf_url = url;
          hash_contract = some hash;
        }
            ∷ []);
  }
]

unfoldable pub create_signing_file : Env → Renderer → Contract → Db → Option Db
unfolding write_file
create_signing_file env render c db = elim (render c db) [
  | none ↦ none
  | some document ↦ some (write_file env c.id document db)
]

-- `toISOString().slice(0, 10)`: the day.
abbrev pub day : ℕ → ℕ
day t = t / 86400000

same_option : Option ℕ → Option ℕ → Bool
same_option none none = true
same_option none (some y) = false
same_option (some x) none = false
same_option (some x) (some y) = x == y

pub same_bool : Bool → Bool → Bool
same_bool true b = b
same_bool false b = not b

abbrev pub day? : Option ℕ → Option ℕ
day? none = none
day? (some t) = some (day t)

-- The comparisons of the single columns; an absent key changes nothing.
pub columns_changed : UpdateContract → Contract → Bool
unfolding same_option same_bool
columns_changed p c =
    elim p.room_id [ none ↦ false | some r ↦ not (same_option r c.room_id) ]
    || (elim p.start_date [ none ↦ false | some t ↦ not (day t == day c.start_date) ]
        || (elim p.end_date [ none ↦ false | some t ↦ not (same_option (day? t) (day? c.end_date)) ]
            || (elim p.require_signature [
              | none ↦ false
              | some b ↦ not (same_bool b c.require_signature)
            ]
                || is_some p.template_id)))

-- `existingMap.get(id)`: the last of the rows with the key counts.
quantity_of : ℕ → List ContractService → Option ℕ
quantity_of i [] = none
quantity_of i (s ∷ ss) = elim (quantity_of i ss) [
  | some q ↦ some q
  | none ↦ if s.service_price_id == i then some (or_else s.quantity 1) else none
]

line_changed : List ContractService → Line → Bool
unfolding quantity_of same_option
line_changed old l =
    not (same_option (quantity_of l.service_price_id old) (some (or_else l.quantity 1)))

pub services_changed : Option (List Line) → List ContractService → Bool
unfolding line_changed
services_changed none old = false
services_changed (some lines) old =
    if length lines == length old then any (line_changed old) lines else true

pub terms_changed : Option (List ℕ) → List ContractTerm → Bool
unfolding distinct
terms_changed none old = false
terms_changed (some ids) old =
    let new = distinct [] ids in
    if length new == length old then any (λ i. not (any (λ t. t.term_id == i) old)) new else true

abbrev own_services : ℕ → Db → List ContractService
own_services contract_id db = find_many (service_of contract_id) db.services

abbrev pub term_of : ℕ → ContractTerm → Bool
term_of contract_id t = t.contract_id == contract_id

abbrev pub is_hashed : Option ContractFile → Bool
is_hashed none = false
is_hashed (some file) = elim file.hash_contract [ none ↦ false | some h ↦ not (is_empty h) ]

unfoldable pub has_changed : UpdateContract → Option (List Line) → Contract → Db → Bool
unfolding is_request_draft columns_changed services_changed terms_changed
has_changed p lines c db =
    is_request_draft c.contract_number
    || (columns_changed p c
        || (services_changed lines (own_services c.id db)
            || terms_changed p.term_ids (find_many (term_of c.id) db.terms)))

unfoldable pub edited : Env → EditReplies → UpdateContract → Contract → Contract
unfolding is_request_draft
edited env replies p c = record c {
  room_id = or_else p.room_id c.room_id;
  start_date = or_else p.start_date c.start_date;
  end_date = or_else p.end_date c.end_date;
  require_signature = or_else p.require_signature c.require_signature;
  contract_number =
      if is_request_draft c.contract_number then replies.contract_number else c.contract_number;
  updated_at = env.now;
}

-- `quantity ?? 1`
abbrev edited_service : Env → ℕ → Line → ContractService
edited_service env contract_id l = record {
  contract_id = contract_id;
  service_price_id = l.service_price_id;
  quantity = some (or_else l.quantity 1);
  created_at = env.now;
}

unfoldable pub replace_services : Env → ℕ → Option (List Line) → Db → Db
replace_services env i none db = db
replace_services env i (some lines) db = record db {
  services = delete_many (service_of i) db.services ++ map (edited_service env i) lines;
}

unfoldable pub replace_terms : Env → ℕ → Option (List ℕ) → Db → Db
replace_terms env i none db = db
replace_terms env i (some ids) db = record db {
  terms = delete_many (term_of i) db.terms ++ map (new_term env.now i) ids;
}

-- A failure of `createSigningFile` is caught.
unfoldable pub sign_again : Env → Renderer → Option (List Line) → Contract → Db → Db
unfolding create_signing_file
sign_again env render none c db = db
sign_again env render (some []) c db = db
sign_again env render (some (l ∷ ls)) c db = or_else (create_signing_file env render c db) db

-- `contract.update` with its nested writes, and then the document.
unfoldable pub write_edit :
    Env → Renderer → EditReplies → UpdateContract → Option (List Line) → Contract → Db → Db
unfolding edited replace_services replace_terms sign_again change_contract
write_edit env render replies p lines c db = sign_again env render lines (edited env replies p c) (
    replace_terms env c.id p.term_ids
      (replace_services env c.id lines (change_contract c.id (edited env replies p) db)))
