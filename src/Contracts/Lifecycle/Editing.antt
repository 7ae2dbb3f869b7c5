-- ===== src/Contracts/Lifecycle/Editing.antt =====
-- `updateContract` as a transition of the table of contracts.
use mathlib.Core.Path.{subst}
use service_hub_backend.Contracts.Keys.{HasUniqueKeys}
use service_hub_backend.Base.Table.{find_first, find_first_holds, update_many}
use service_hub_backend.Contracts.Lifecycle.{TakesRoom}
use service_hub_backend.Contracts.Lifecycle.Effects.{keyed}
use service_hub_backend.Contracts.Provider.{file_of, of_provider}
use service_hub_backend.Contracts.Updates.{
  edit_row, edit_services, edit_terms, finish_edit, holds_room_other, resolve_edit, room_edit_check,
  terms_check, update_contract,
}
use service_hub_backend.Contracts.Lifecycle.Moves.{Transition, changes, stays}
use service_hub_backend.Contracts.Drafts.{Line, is_template_available}
use service_hub_backend.Contracts.Rows.{
  Response-cases, Contract, Db, Env, answered, change_contract, contract_has_id, is_draft,
  is_pending_signature,
}
use service_hub_backend.Contracts.Edits.{
  EditReplies, Renderer, UpdateContract, create_signing_file, edited, has_changed, is_hashed,
  replace_services, replace_terms, sign_again, write_edit, write_file,
}
use service_hub_backend.Base.{
  Bool-cases, List, Option, Option-cases, [], arith, inl, inr, none, not, refl, some, sym, ℕ, ◌&&◌,
  ◌||◌, ◌∙◌, ◌∷◌, ◌≡◌,
}

room_edit_check_free :
    (replies : EditReplies) (p i : ℕ) (room : Option (Option ℕ)) (db : Db) (u : Unit) (r : ℕ)
    → room_edit_check replies p i room db ≡ answered u
    → room ≡ some (some r)
    → find_first (holds_room_other p i r) db.contracts ≡ none
unfolding room_edit_check
room_edit_check_free replies p i none db u r h k = cc
room_edit_check_free replies p i (some none) db u r h k = cc
room_edit_check_free replies p i (some (some j)) db u r h k =
    let same : j ≡ r = ground (arith, k) in
    elim (Option-cases replies.own_rooms) [
      | inl e ↦ ground (arith, rw (room_edit_check, e) at h)
      | inr (rooms, e) ↦ elim (Option-cases (find_first (holds_room_other p i r) db.contracts)) [
        | inl l ↦ l
        | inr (c, l) ↦ ground (arith, rw (room_edit_check, e, same, l) at h)
      ]
    ]

edited-TakesRoom :
    (env : Env) (replies : EditReplies) (p : UpdateContract) (c : Contract) (db : Db) (u : Unit)
    → room_edit_check replies c.provider_id c.id p.room_id db ≡ answered u
    → TakesRoom db.contracts c (edited env replies p c)
unfolding edited
edited-TakesRoom env replies p c db u h q r k =
    let same : c.provider_id ≡ q = ground (arith, k) in
    elim (Option-cases p.room_id) [
      | inl e ↦ inl (rw (edited, e) at k)
      | inr (none, e) ↦ ground (arith, rw (edited, e) at k)
      | inr (some j, e) ↦
          let is_r : j ≡ r = ground (arith, rw (edited, e) at k) in
          inr (
            rw (sym same)
              (room_edit_check_free replies c.provider_id c.id p.room_id db u r h (rw is_r at e)))
    ]

sign_again_contracts :
    (env : Env) (render : Renderer) (lines : Option (List Line)) (c : Contract) (db : Db)
    → (sign_again env render lines c db).contracts ≡ db.contracts
unfolding sign_again create_signing_file write_file
sign_again_contracts env render none c db = refl
sign_again_contracts env render (some []) c db = refl
sign_again_contracts env render (some (l ∷ ls)) c db = elim (Option-cases (render c db)) [
  | inl e ↦ rw (sign_again, create_signing_file, e) refl
  | inr ((url, hash), e) ↦ elim (Option-cases (find_first (file_of c.id) db.files)) [
    | inl k ↦ rw (sign_again, create_signing_file, e, write_file, k) refl
    | inr (f, k) ↦ rw (sign_again, create_signing_file, e, write_file, k) refl
  ]
]

replace_terms_contracts :
    (env : Env) (i : ℕ) (ids : Option (List ℕ)) (db : Db)
    → (replace_terms env i ids db).contracts ≡ db.contracts
unfolding replace_terms
replace_terms_contracts env i none db = refl
replace_terms_contracts env i (some ids) db = refl

replace_services_contracts :
    (env : Env) (i : ℕ) (lines : Option (List Line)) (db : Db)
    → (replace_services env i lines db).contracts ≡ db.contracts
unfolding replace_services
replace_services_contracts env i none db = refl
replace_services_contracts env i (some ids) db = refl

write_edit_contracts :
    (env : Env) (render : Renderer) (replies : EditReplies) (p : UpdateContract)
    (lines : Option (List Line)) (c : Contract) (db : Db)
    → (write_edit env render replies p lines c db).contracts
      ≡ update_many (contract_has_id c.id) (edited env replies p) db.contracts
unfolding write_edit change_contract
write_edit_contracts env render replies p lines c db =
    let changed = change_contract c.id (edited env replies p) db in
    let served = replace_services env c.id lines changed in
    sign_again_contracts env render lines (edited env replies p c)
      (replace_terms env c.id p.term_ids served)
    ∙ (replace_terms_contracts env c.id p.term_ids served
        ∙ replace_services_contracts env c.id lines changed)

finish_edit-Transition :
    (env : Env) (render : Renderer) (replies : EditReplies) (p : UpdateContract)
    (lines : Option (List Line)) (c : Contract) (db : Db) (u : Unit)
    → find_first (contract_has_id c.id) db.contracts ≡ some c
    → room_edit_check replies c.provider_id c.id p.room_id db ≡ answered u
    → Transition db.contracts (finish_edit env render replies p lines c db).1.contracts
unfolding finish_edit edited
finish_edit-Transition env render replies p lines c db u found free =
    let same = not (has_changed p lines c db) && is_hashed (find_first (file_of c.id) db.files) in
    elim (Bool-cases same) [
      | inl e ↦ stays (rw (finish_edit, e) refl)
      | inr e ↦
          changes c.id (edited env replies p) c (λ x. refl) found (ground arith)
            (edited-TakesRoom env replies p c db u free)
            (rw (finish_edit, e) (write_edit_contracts env render replies p lines c db))
    ]

edit_terms-Transition :
    (env : Env) (render : Renderer) (replies : EditReplies) (q : ℕ) (p : UpdateContract)
    (lines : Option (List Line)) (c : Contract) (db : Db) (u : Unit)
    → find_first (contract_has_id c.id) db.contracts ≡ some c
    → room_edit_check replies c.provider_id c.id p.room_id db ≡ answered u
    → Transition db.contracts (edit_terms env render replies q p lines c db).1.contracts
unfolding edit_terms
edit_terms-Transition env render replies q p lines c db u found free =
    elim (Response-cases (terms_check p.term_ids db.known_terms)) [
      | inr (inl (code, e)) ↦ stays (rw (edit_terms, e) refl)
      | inr (inr e) ↦ stays (rw (edit_terms, e) refl)
      | inl (v, e) ↦ elim (Bool-cases (is_template_available q p.template_id db.templates)) [
        | inr k ↦ stays (rw (edit_terms, e, k) refl)
        | inl k ↦
            rw (edit_terms, e, k)
              (finish_edit-Transition env render replies p lines c db u found free)
      ]
    ]

edit_row-Transition :
    (env : Env) (render : Renderer) (replies : EditReplies) (p : UpdateContract) (c : Contract)
    (db : Db)
    → find_first (contract_has_id c.id) db.contracts ≡ some c
    → Transition db.contracts (edit_row env render replies c.provider_id p c db).1.contracts
unfolding edit_row edit_services
edit_row-Transition env render replies p c db found =
    elim (Bool-cases (is_draft c.status || is_pending_signature c.status)) [
      | inr e ↦ stays (rw (edit_row, e) refl)
      | inl e ↦ elim (Response-cases (room_edit_check replies c.provider_id c.id p.room_id db)) [
        | inr (inl (code, k)) ↦ stays (rw (edit_row, e, k) refl)
        | inr (inr k) ↦ stays (rw (edit_row, e, k) refl)
        | inl (u, k) ↦ elim (Response-cases (resolve_edit replies p.services)) [
          | inr (inl (code, l)) ↦ stays (rw (edit_row, e, k, edit_services, l) refl)
          | inr (inr l) ↦ stays (rw (edit_row, e, k, edit_services, l) refl)
          | inl (lines, l) ↦
              rw (edit_row, e, k, edit_services, l)
                (edit_terms-Transition env render replies c.provider_id p lines c db u found k)
        ]
      ]
    ]

pub update_contract-Transition :
    (env : Env) (render : Renderer) (replies : EditReplies) (q i : ℕ) (p : UpdateContract) (db : Db)
    → HasUniqueKeys db.contracts
    → Transition db.contracts (update_contract env render replies q i p db).1.contracts
unfolding update_contract
update_contract-Transition env render replies q i p db u =
    elim (Option-cases (find_first (of_provider q i) db.contracts)) [
      | inl e ↦ stays (rw (update_contract, e) refl)
      | inr (c, e) ↦
          let (is_i, of_q) : (c.id ≡ i) × (c.provider_id ≡ q) =
            ground (arith, find_first_holds (of_provider q i) db.contracts e) in
          let row : Transition db.contracts
              (edit_row env render replies c.provider_id p c db).1.contracts =
            edit_row-Transition env render replies p c db
              (rw (sym is_i) at (keyed q i db.contracts c u e)) in
          rw (update_contract, e)
            (subst (λ o. Transition db.contracts (edit_row env render replies o p c db).1.contracts)
              of_q row)
    ]
