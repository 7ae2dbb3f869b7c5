-- ===== src/Contracts/Lifecycle/Deadlines.antt =====
-- The timer over the contracts that await a payment.
use service_hub_backend.Contracts.Customer.{request_prepayment, send_billing}
use service_hub_backend.Base.Table.{count, find_many, update_many}
use service_hub_backend.Contracts.Lifecycle.Steps.{Run, expires, here, next, requests_invoice}
use service_hub_backend.Contracts.Rows.{
  Response-cases, answered, delete_prepayment_invoice, BillingCall, Contract, Db, Env, Remote,
}
use service_hub_backend.Contracts.Prepaid.{
  expire_all, expire_contract, expire_pending_prepayment_contracts, give_up, is_awaited, is_overdue,
  keys_of, process_prepayment_deadlines, request_all,
}
use service_hub_backend.Base.{
  length, Bool, all, not, refl, ◌∙◌, Bool-cases, List, Option-cases, [], any, arith, inl, inr, some,
  true, ℕ, ◌&&◌, ◌==◌, ◌∷◌, ◌≡◌,
}

expire_all-Run :
    (env : Env) (remote : Remote) (start : Db) (is : List ℕ) (db : Db)
    → Run start db
    → Run start (expire_all env remote is db).1
unfolding expire_all
expire_all-Run env remote start [] db run = run
expire_all-Run env remote start (i ∷ is) db run =
    elim (Option-cases (expire_contract env remote i db)) [
      | inl e ↦ rw (expire_all, e) run
      | inr (db', e) ↦
          rw (expire_all, e)
            (expire_all-Run env remote start is db' (next run (expires env remote i db db' e)))
    ]

request_all-Run :
    (remote : Remote) (start : Db) (cs : List Contract) (db : Db)
    → Run start db
    → Run start (request_all remote cs db)
unfolding request_all
request_all-Run remote start [] db run = run
request_all-Run remote start (c ∷ cs) db run =
    request_all-Run remote start cs (request_prepayment remote c db).1
      (next run (requests_invoice remote c db))

expire_pending-Run :
    (env : Env) (remote : Remote) (db : Db)
    → Run db (expire_pending_prepayment_contracts env remote db).1
unfolding expire_pending_prepayment_contracts
expire_pending-Run env remote db =
    let is = keys_of (find_many (is_overdue env.now) db.contracts) in
    let run = expire_all-Run env remote db is db here in
    elim (Bool-cases (expire_all env remote is db).0) [
      | inl e ↦ rw (expire_pending_prepayment_contracts, e) run
      | inr e ↦ rw (expire_pending_prepayment_contracts, e) run
    ]

-- A pass of the timer is a run of the life cycle, also where it breaks off.
pub process_prepayment_deadlines-Run :
    (env : Env) (remote : Remote) (db : Db) → Run db (process_prepayment_deadlines env remote db).1
unfolding process_prepayment_deadlines
process_prepayment_deadlines-Run env remote db =
    let answer = (expire_pending_prepayment_contracts env remote db).0 in
    let db' = (expire_pending_prepayment_contracts env remote db).1 in
    let run = expire_pending-Run env remote db in
    elim (Response-cases answer) [
      | inl (n, e) ↦
          rw (process_prepayment_deadlines, e)
            (request_all-Run remote db (find_many (is_awaited env.now db'.services) db'.contracts)
              db' run)
      | inr (inl (code, e)) ↦ rw (process_prepayment_deadlines, e) run
      | inr (inr e) ↦ rw (process_prepayment_deadlines, e) run
    ]

-- A round over a key leaves no overdue row with the key, and makes none.
expire_contract_rows :
    (env : Env) (remote : Remote) (i : ℕ) (db db' : Db)
    → expire_contract env remote i db ≡ some db'
    → db'.contracts
      ≡ update_many (λ c. c.id == i && is_overdue env.now c) (give_up env.now) db.contracts
unfolding expire_contract send_billing
expire_contract_rows env remote i db db' h = ground (arith, h)

abbrev pub overdue : ℕ → List Contract → List ℕ
overdue now cs = keys_of (find_many (is_overdue now) cs)

-- The overdue rows that a list of keys passes over.
abbrev is_left : ℕ → List ℕ → Contract → Bool
is_left now is c = is_overdue now c && not (any (λ j. j == c.id) is)

count-none_left :
    (now : ℕ) (cs : List Contract) → count (is_overdue now) cs ≡ count (is_left now []) cs
count-none_left now [] = refl
count-none_left now (x ∷ cs) = ground (arith, count-none_left now cs)

count-round :
    (now i : ℕ) (is : List ℕ) (cs : List Contract)
    → count (is_left now is) (update_many (λ c. c.id == i && is_overdue now c) (give_up now) cs)
      ≡ count (is_left now (i ∷ is)) cs
count-round now i is [] = refl
count-round now i is (x ∷ cs) = ground (arith, count-round now i is cs)

carried_out :
    (env : Env) (remote : Remote) (i : ℕ) (db : Db)
    → ((call : BillingCall) → remote.carries_out call ≡ true)
    → (db' : Db) × (expire_contract env remote i db ≡ some db')
unfolding expire_contract send_billing
carried_out env remote i db all =
    let ok = all (delete_prepayment_invoice i) in
    let sent : (send_billing remote (delete_prepayment_invoice i) db).0 ≡ answered tt =
      rw (send_billing, ok) refl in
    let db' : Db = (send_billing remote (delete_prepayment_invoice i) db).1 in
    (
      record db' {
        contracts =
            update_many (λ c. c.id == i && is_overdue env.now c) (give_up env.now) db'.contracts;
      },
      rw (expire_contract, sent) refl,
    )

count-expire_all :
    (env : Env) (remote : Remote) (is : List ℕ) (db : Db)
    → ((call : BillingCall) → remote.carries_out call ≡ true)
    → ((expire_all env remote is db).0 ≡ true)
      × (count (is_overdue env.now) (expire_all env remote is db).1.contracts
          ≡ count (is_left env.now is) db.contracts)
unfolding expire_all
count-expire_all env remote [] db all = (refl, count-none_left env.now db.contracts)
count-expire_all env remote (i ∷ is) db all =
    let (db', e) = carried_out env remote i db all in
    let (ended, rest) = count-expire_all env remote is db' all in
    rw (expire_all, e)
      (
        ended,
        rest
            ∙ rw (expire_contract_rows env remote i db db' e)
                (count-round env.now i is db.contracts),
      )

covered :
    (now : ℕ) (is : List ℕ) (cs : List Contract)
    → ((i : ℕ) → any (λ j. j == i) (overdue now cs) ≡ true → any (λ j. j == i) is ≡ true)
    → count (is_left now is) cs ≡ 0
covered now is [] h = refl
covered now is (x ∷ cs) h =
    let rest = covered now is cs (λ i k. h i (ground (arith, k))) in
    elim (Bool-cases (is_overdue now x)) [
      | inr e ↦ ground (arith, rest, e)
      | inl e ↦
          let known : any (λ j. j == x.id) is ≡ true = h x.id (ground (arith, e)) in
          ground (arith, rest, known)
    ]

-- Where the billing service carries out every command, the pass over the overdue contracts answers
-- their number and leaves no contract that awaits its payment two hours after it was signed.
pub expire_pending_prepayment_contracts_none_left :
    (env : Env) (remote : Remote) (db : Db)
    → ((call : BillingCall) → remote.carries_out call ≡ true)
    → let (answer, db') = expire_pending_prepayment_contracts env remote db in
      (answer ≡ answered (length (overdue env.now db.contracts)))
      × (count (is_overdue env.now) db'.contracts ≡ 0)
unfolding expire_pending_prepayment_contracts
expire_pending_prepayment_contracts_none_left env remote db all =
    let is = overdue env.now db.contracts in
    let (ended, left) = count-expire_all env remote is db all in
    rw (expire_pending_prepayment_contracts, ended)
      (refl, left ∙ covered env.now is db.contracts (λ i k. k))
