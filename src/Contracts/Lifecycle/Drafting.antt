-- ===== src/Contracts/Lifecycle/Drafting.antt =====
-- `createContract` and `updateContract` as transitions of the table of contracts.
use service_hub_backend.Contracts.Booking.{is_taken}
use service_hub_backend.Contracts.Lifecycle.Origins.{fresh_key}
use service_hub_backend.Base.Table.{find_first}
use service_hub_backend.Base.Text.{Text}
use service_hub_backend.Contracts.Rows.{Response-cases, Db, Env, answered}
use service_hub_backend.Contracts.Lifecycle.Moves.{Transition, creates, stays}
use service_hub_backend.Contracts.Drafts.{
  CreateContract, DraftReplies, Line, create_contract, draft_contract, draft_lines, holds_room,
  are_terms, insert_draft, is_template_available, resolve_new, room_check,
}
use service_hub_backend.Base.{
  ==_iff, Bool-cases, List, Option, Option-cases, [], arith, inl, inr, none, refl, same_key, some,
  sym, true, ℕ, ◌∷◌, ◌≡◌,
}

-- What the checks of a room leave open.
abbrev IsFree : ℕ → Option ℕ → Db → Type 0
IsFree p room db =
    (r : ℕ) → same_key room r ≡ true → find_first (holds_room p r) db.contracts ≡ none

room_check-IsFree :
    (replies : DraftReplies) (p : ℕ) (room : Option ℕ) (db : Db) (u : Unit)
    → room_check replies p room db ≡ answered u
    → IsFree p room db
unfolding room_check
room_check-IsFree replies p none db u h r k = cc
room_check-IsFree replies p (some i) db u h r k =
    let same : i ≡ r = (==_iff i r).0 k in
    elim (Option-cases replies.rooms) [
      | inl e ↦ ground (arith, rw (room_check, e) at h)
      | inr ([], e) ↦ ground (arith, rw (room_check, e) at h)
      | inr (x ∷ xs, e) ↦ elim (Option-cases (find_first (holds_room p r) db.contracts)) [
        | inl l ↦ l
        | inr (c, l) ↦ ground (arith, rw (room_check, e, same, l) at h)
      ]
    ]

insert_draft-Transition :
    (env : Env) (number : Text) (p : ℕ) (d : CreateContract) (lines : List Line) (db : Db)
    → IsFree p d.room_id db
    → Transition db.contracts (insert_draft env number p d lines db).1.contracts
unfolding insert_draft
insert_draft-Transition env number p d lines db free =
    elim (Option-cases (find_first (is_taken env.contract_key number) db.contracts)) [
      | inr (c, e) ↦ stays (rw (insert_draft, e) refl)
      | inl e ↦ elim (Bool-cases (are_terms d.term_ids db.known_terms)) [
        | inr t ↦ stays (rw (insert_draft, e, t) refl)
        | inl t ↦
            creates (draft_contract env number p d)
              (fresh_key env.contract_key number db.contracts e) refl refl
              (λ q r h.
                let same : p ≡ q = ground (arith, h) in rw (sym same) (free r (ground (arith, h))))
              (rw (insert_draft, e, t) refl)
      ]
    ]

draft_lines-Transition :
    (env : Env) (number : Text) (replies : DraftReplies) (p : ℕ) (d : CreateContract) (db : Db)
    → IsFree p d.room_id db
    → Transition db.contracts (draft_lines env number replies (λ x. x) p d db).1.contracts
unfolding draft_lines
draft_lines-Transition env number replies p d db free =
    elim (Response-cases (resolve_new replies d.services)) [
      | inr (inl (code, e)) ↦ stays (rw (draft_lines, e) refl)
      | inr (inr e) ↦ stays (rw (draft_lines, e) refl)
      | inl (lines, e) ↦ elim (Bool-cases (is_template_available p d.template_id db.templates)) [
        | inr k ↦ stays (rw (draft_lines, e, k) refl)
        | inl k ↦ rw (draft_lines, e, k) (insert_draft-Transition env number p d lines db free)
      ]
    ]

pub create_contract-Transition :
    (env : Env) (number : Text) (replies : DraftReplies) (p : ℕ) (d : CreateContract) (db : Db)
    → Transition db.contracts (create_contract env number replies (λ x. x) p d db).1.contracts
unfolding create_contract
create_contract-Transition env number replies p d db = elim (Bool-cases replies.knows_customer) [
  | inr e ↦ stays (rw (create_contract, e) refl)
  | inl e ↦ elim (Response-cases (room_check replies p d.room_id db)) [
    | inr (inl (code, k)) ↦ stays (rw (create_contract, e, k) refl)
    | inr (inr k) ↦ stays (rw (create_contract, e, k) refl)
    | inl (u, k) ↦
        rw (create_contract, e, k)
          (draft_lines-Transition env number replies p d db
            (room_check-IsFree replies p d.room_id db u k))
  ]
]
