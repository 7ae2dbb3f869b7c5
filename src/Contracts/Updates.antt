-- ===== src/Contracts/Updates.antt =====
-- apps/contract-service/src/contracts/provider.contracts.service.ts: the checks of
-- `updateContract` and their order.
use service_hub_backend.Base.Table.{count, find_first}
use service_hub_backend.Contracts.Provider.{file_of, of_provider}
use service_hub_backend.Contracts.Drafts.{
  Line, holds_room, is_template_available, price_ids, resolve, distinct,
}
use service_hub_backend.Contracts.Edits.{
  EditReplies, Renderer, UpdateContract, has_changed, is_hashed, write_edit,
}
use service_hub_backend.Contracts.Rows.{
  Contract, Db, Env, Response, Term, answered, is_draft, is_pending_signature, raised, rejected,
}
use service_hub_backend.Base.{
  Bool, List, Option, [], any, false, if◌then◌else◌, is_some, length, none, not, some, true, ℕ,
  ◌&&◌, ◌==◌, ◌||◌,
}

-- Another open contract in the room.
abbrev pub holds_room_other : ℕ → ℕ → ℕ → Contract → Bool
holds_room_other provider_id contract_id room_id c =
    holds_room provider_id room_id c && not (c.id == contract_id)

unfoldable pub room_edit_check : EditReplies → ℕ → ℕ → Option (Option ℕ) → Db → Response Unit
room_edit_check replies provider_id contract_id none db = answered tt
room_edit_check replies provider_id contract_id (some none) db = answered tt
room_edit_check replies provider_id contract_id (some (some room_id)) db = elim replies.own_rooms [
  | none ↦ raised
  | some rooms ↦
      if not (length rooms == 1)
      then rejected 400
      else if is_some (find_first (holds_room_other provider_id contract_id room_id) db.contracts)
      then rejected 400
      else answered tt
]

-- The services must be given once each, and at least one; the required ones are added where the
-- catalog answers.
unfoldable pub resolve_edit : EditReplies → Option (List Line) → Response (Option (List Line))
unfolding resolve distinct
resolve_edit replies none = answered none
resolve_edit replies (some lines) =
    let ids = distinct [] (price_ids lines) in
    if length ids == 0 || not (length ids == length lines)
    then rejected 400
    else elim (replies.prices ids) [
      | none ↦ answered (some lines)
      | some prices ↦ answered (some (resolve prices lines))
    ]

unfoldable pub terms_check : Option (List ℕ) → List Term → Response Unit
unfolding distinct
terms_check none known = answered tt
terms_check (some term_ids) known =
    let ids = distinct [] term_ids in
    if not (length ids == length term_ids)
    then rejected 400
    else if count (λ t. any (λ i. i == t.id) ids && t.is_active) known == length ids
    then answered tt
    else rejected 400

-- Whether something changed, and the tables.
unfoldable pub finish_edit :
    Env → Renderer → EditReplies → UpdateContract → Option (List Line) → Contract → Db → Bool × Db
unfolding has_changed write_edit
finish_edit env render replies p lines c db =
    if not (has_changed p lines c db) && is_hashed (find_first (file_of c.id) db.files)
    then (false, db)
    else (true, write_edit env render replies p lines c db)

unfoldable pub edit_terms :
    Env
    → Renderer
    → EditReplies
    → ℕ
    → UpdateContract
    → Option (List Line)
    → Contract
    → Db
    → Response Bool × Db
unfolding terms_check finish_edit is_template_available
edit_terms env render replies provider_id p lines c db =
    elim (terms_check p.term_ids db.known_terms) [
      | rejected code ↦ (rejected code, db)
      | raised ↦ (raised, db)
      | answered u ↦
          if is_template_available provider_id p.template_id db.templates
          then (let (changed, db') = finish_edit env render replies p lines c db in
              (answered changed, db'))
          else (rejected 400, db)
    ]

unfoldable pub edit_services :
    Env → Renderer → EditReplies → ℕ → UpdateContract → Contract → Db → Response Bool × Db
unfolding resolve_edit edit_terms
edit_services env render replies provider_id p c db = elim (resolve_edit replies p.services) [
  | rejected code ↦ (rejected code, db)
  | raised ↦ (raised, db)
  | answered lines ↦ edit_terms env render replies provider_id p lines c db
]

unfoldable pub edit_row :
    Env → Renderer → EditReplies → ℕ → UpdateContract → Contract → Db → Response Bool × Db
unfolding room_edit_check edit_services
edit_row env render replies provider_id p c db =
    if not (is_draft c.status || is_pending_signature c.status)
    then (rejected 400, db)
    else elim (room_edit_check replies provider_id c.id p.room_id db) [
      | rejected code ↦ (rejected code, db)
      | raised ↦ (raised, db)
      | answered u ↦ edit_services env render replies provider_id p c db
    ]

-- The answer says whether anything changed.
unfoldable pub update_contract :
    Env → Renderer → EditReplies → ℕ → ℕ → UpdateContract → Db → Response Bool × Db
unfolding edit_row
update_contract env render replies provider_id contract_id p db =
    elim (find_first (of_provider provider_id contract_id) db.contracts) [
      | none ↦ (rejected 404, db)
      | some c ↦ edit_row env render replies provider_id p c db
    ]
