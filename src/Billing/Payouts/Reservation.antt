-- ===== src/Billing/Payouts/Reservation.antt =====
-- A reservation that is repeated finds itself.
pub mod Held
use service_hub_backend.Base.{
  refl, all, Bool-cases, ◌==◌, any, ℕ, ◌≡◌, true, List, [], ◌∷◌, some, arith, Option-cases, inl,
  inr,
}
use service_hub_backend.Base.Table.{find_first, find_first-append}
use service_hub_backend.Billing.Rows.{LedgerRow, payout_of, Env, ledger_has_reference}
use service_hub_backend.Billing.Payouts.{
  new_batch, is_allocated, batch_has_id, PayoutBatch, Db, reserve_providers, reserve_all,
  ensure_batch_reservation, find_batch, PayoutRetryJob, reservation, agrees, reserve,
}
use service_hub_backend.Billing.Payouts.Reservation.Held.{
  IsHeld, AreHeld, some_inj, reserve_all-keeps, reserve_all-AreHeld, reserve_all_held,
}

-- So have all the providers of the job, each of which has an item in the request.
abbrev AllHeld : PayoutRetryJob → List (ℕ × List (ℕ × ℕ)) → List LedgerRow → Type 0
AllHeld job [] ledger = Unit
AllHeld job ((r, amounts) ∷ rest) ledger =
    (any (λ item. item.reference_id == r) job.payouts ≡ true)
    × AreHeld job r amounts ledger
    × AllHeld job rest ledger

reserve_providers-IsHeld :
    (env : Env) (job : PayoutRetryJob) (q : ℕ) (s : ℕ × ℕ) (rest : List (ℕ × List (ℕ × ℕ)))
    (ledger ledger' : List LedgerRow)
    → reserve_providers env job rest ledger ≡ some ledger'
    → IsHeld job q s ledger
    → IsHeld job q s ledger'
unfolding reserve_providers
reserve_providers-IsHeld env job q s [] ledger ledger' h held = rw (← some_inj h) held
reserve_providers-IsHeld env job q s ((r, amounts) ∷ rest) ledger ledger' h held =
    elim (Bool-cases (any (λ item. item.reference_id == r) job.payouts)) [
      | inr lacks ↦ ground arith
      | inl has ↦ elim (Option-cases (reserve_all env job r amounts ledger)) [
        | inl e ↦ ground arith
        | inr (l, e) ↦
            reserve_providers-IsHeld env job q s rest l ledger'
              (rw (has, e, reserve_providers) at h)
              (reserve_all-keeps env job r q s amounts ledger l e held)
      ]
    ]

reserve_providers-keeps :
    (env : Env) (job : PayoutRetryJob) (q : ℕ) (amounts : List (ℕ × ℕ))
    (rest : List (ℕ × List (ℕ × ℕ))) (ledger ledger' : List LedgerRow)
    → reserve_providers env job rest ledger ≡ some ledger'
    → AreHeld job q amounts ledger
    → AreHeld job q amounts ledger'
reserve_providers-keeps env job q [] rest ledger ledger' h held = tt
reserve_providers-keeps env job q (s ∷ amounts) rest ledger ledger' h held = (
  reserve_providers-IsHeld env job q s rest ledger ledger' h held.0,
  reserve_providers-keeps env job q amounts rest ledger ledger' h held.1,
)

reserve_providers-AllHeld :
    (env : Env) (job : PayoutRetryJob) (rest : List (ℕ × List (ℕ × ℕ)))
    (ledger ledger' : List LedgerRow)
    → reserve_providers env job rest ledger ≡ some ledger'
    → AllHeld job rest ledger'
unfolding reserve_providers
reserve_providers-AllHeld env job [] ledger ledger' h = tt
reserve_providers-AllHeld env job ((r, amounts) ∷ rest) ledger ledger' h =
    elim (Bool-cases (any (λ item. item.reference_id == r) job.payouts)) [
      | inr lacks ↦ ground arith
      | inl has ↦ elim (Option-cases (reserve_all env job r amounts ledger)) [
        | inl e ↦ ground arith
        | inr (l, e) ↦
            let next : reserve_providers env job rest l ≡ some ledger' =
              rw (has, e, reserve_providers) at h in
            (
              has,
              reserve_providers-keeps env job r amounts rest l ledger' next
                  (reserve_all-AreHeld env job r amounts ledger l e),
              reserve_providers-AllHeld env job rest l ledger' next,
            )
      ]
    ]

reserve_providers_held :
    (env : Env) (job : PayoutRetryJob) (rest : List (ℕ × List (ℕ × ℕ))) (ledger : List LedgerRow)
    → AllHeld job rest ledger
    → reserve_providers env job rest ledger ≡ some ledger
unfolding reserve_providers
reserve_providers_held env job [] ledger h = refl
reserve_providers_held env job ((r, amounts) ∷ rest) ledger (has, held, more) =
    rw (has, reserve_all_held env job r amounts ledger held)
      (reserve_providers_held env job rest ledger more)

find_batch_again :
    (job : PayoutRetryJob) (batches batches' : List PayoutBatch)
    → find_batch job batches ≡ some batches'
    → find_batch job batches' ≡ some batches'
unfolding find_batch
find_batch_again job batches batches' h =
    let same = batch_has_id job.payout_batch_id in
    elim (Option-cases (find_first same batches)) [
      | inr (x, e) ↦ ground arith
      | inl e ↦ ground (arith, e, find_first-append same batches (new_batch job ∷ []))
    ]

ensure_held :
    (env : Env) (job : PayoutRetryJob) (db : Db)
    → all (is_allocated job) job.payouts ≡ true
    → find_batch job db.batches ≡ some db.batches
    → reserve_providers env job job.invoice_amounts db.ledger ≡ some db.ledger
    → ensure_batch_reservation env job db ≡ some db
unfolding ensure_batch_reservation
ensure_held env job db has batch held = ground arith

-- A job whose reservation was made, and that is processed again, at any later time, makes no other:
-- the reservation succeeds and leaves the batches and the ledger as they are.
pub ensure_batch_reservation_again :
    (env env' : Env) (job : PayoutRetryJob) (db db' : Db)
    → ensure_batch_reservation env job db ≡ some db'
    → ensure_batch_reservation env' job db' ≡ some db'
unfolding ensure_batch_reservation
ensure_batch_reservation_again env env' job db db' h =
    elim (Bool-cases (all (is_allocated job) job.payouts)) [
      | inr lacks ↦ ground arith
      | inl has ↦ elim (Option-cases (find_batch job db.batches)) [
        | inl e ↦ ground arith
        | inr (b, e) ↦
            elim (Option-cases (reserve_providers env job job.invoice_amounts db.ledger)) [
              | inl f ↦ ground arith
              | inr (l, f) ↦
                  let batches : b ≡ db'.batches = ground arith in
                  let ledger : l ≡ db'.ledger = ground arith in
                  let held =
                    reserve_providers_held env' job job.invoice_amounts l
                      (reserve_providers-AllHeld env job job.invoice_amounts db.ledger l f) in
                  ensure_held env' job db' has (rw batches at (find_batch_again job db.batches b e))
                    (rw ledger at held)
            ]
      ]
    ]
