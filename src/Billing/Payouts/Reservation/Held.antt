-- ===== src/Billing/Payouts/Reservation/Held.antt =====
-- The reservations of one provider, once made, are found again.
use service_hub_backend.Base.{
  refl, ℕ, ◌≡◌, true, List, [], ◌∷◌, some, arith, Option-cases, inl, inr,
}
use service_hub_backend.Base.Table.{find_first, find_first-append}
use service_hub_backend.Billing.Rows.{LedgerRow, payout_of, Env, ledger_has_reference}
use service_hub_backend.Billing.Payouts.{reserve_all, PayoutRetryJob, reservation, agrees, reserve}

-- The ledger has the reservation.
pub record IsHeld (job : PayoutRetryJob) (provider_id : ℕ) (p : ℕ × ℕ) (ledger : List LedgerRow)
    : Type 0 where
  pub row : LedgerRow
  pub found :
      find_first (ledger_has_reference (payout_of job.reference_id provider_id p.0)) ledger
      ≡ some row
  pub right : agrees job provider_id p.0 p.1 row ≡ true

pub some_inj : {a b : List LedgerRow} → some a ≡ some b → a ≡ b
some_inj h = ground arith

abbrev pub AreHeld : PayoutRetryJob → ℕ → List (ℕ × ℕ) → List LedgerRow → Type 0
AreHeld job provider_id [] ledger = Unit
AreHeld job provider_id (p ∷ amounts) ledger =
    IsHeld job provider_id p ledger × AreHeld job provider_id amounts ledger

reserve-IsHeld :
    (env : Env) (job : PayoutRetryJob) (provider_id i a : ℕ) (ledger ledger' : List LedgerRow)
    → reserve env job provider_id (i, a) ledger ≡ some ledger'
    → IsHeld job provider_id (i, a) ledger'
unfolding reserve
reserve-IsHeld env job provider_id i a ledger ledger' h =
    let same = ledger_has_reference (payout_of job.reference_id provider_id i) in
    let new = reservation env job provider_id i a in
    elim (Option-cases (find_first same ledger)) [
      | inr (x, e) ↦ record { row = x; found = ground arith; right = ground arith }
      | inl e ↦ record {
        row = new;
        found = unfold reservation in ground (arith, find_first-append same ledger (new ∷ []));
        right = unfold reservation in ground arith;
      }
    ]

reserve-keeps :
    (env : Env) (job : PayoutRetryJob) (r q : ℕ) (p s : ℕ × ℕ) (ledger ledger' : List LedgerRow)
    → reserve env job r p ledger ≡ some ledger'
    → IsHeld job q s ledger
    → IsHeld job q s ledger'
unfolding reserve
reserve-keeps env job r q (i, a) s ledger ledger' h held =
    let same = ledger_has_reference (payout_of job.reference_id r i) in
    let new = reservation env job r i a in
    elim (Option-cases (find_first same ledger)) [
      | inr (x, e) ↦ record {
        row = held.row;
        found = ground (arith, held.found);
        right = held.right;
      }
      | inl e ↦ record {
        row = held.row;
        found = ground (
          arith,
          held.found,
          find_first-append (ledger_has_reference (payout_of job.reference_id q s.0)) ledger
              (new ∷ []),
        );
        right = held.right;
      }
    ]

reserve_held :
    (env : Env) (job : PayoutRetryJob) (provider_id : ℕ) (p : ℕ × ℕ) (ledger : List LedgerRow)
    → IsHeld job provider_id p ledger
    → reserve env job provider_id p ledger ≡ some ledger
unfolding reserve
reserve_held env job provider_id (i, a) ledger held = ground (arith, held.found, held.right)

pub reserve_all-keeps :
    (env : Env) (job : PayoutRetryJob) (r q : ℕ) (s : ℕ × ℕ) (amounts : List (ℕ × ℕ))
    (ledger ledger' : List LedgerRow)
    → reserve_all env job r amounts ledger ≡ some ledger'
    → IsHeld job q s ledger
    → IsHeld job q s ledger'
unfolding reserve_all
reserve_all-keeps env job r q s [] ledger ledger' h held = rw (← some_inj h) held
reserve_all-keeps env job r q s (p ∷ amounts) ledger ledger' h held =
    elim (Option-cases (reserve env job r p ledger)) [
      | inl e ↦ ground arith
      | inr (l, e) ↦
          reserve_all-keeps env job r q s amounts l ledger' (rw (e, reserve_all) at h)
            (reserve-keeps env job r q p s ledger l e held)
    ]

pub reserve_all-AreHeld :
    (env : Env) (job : PayoutRetryJob) (r : ℕ) (amounts : List (ℕ × ℕ))
    (ledger ledger' : List LedgerRow)
    → reserve_all env job r amounts ledger ≡ some ledger'
    → AreHeld job r amounts ledger'
unfolding reserve_all
reserve_all-AreHeld env job r [] ledger ledger' h = tt
reserve_all-AreHeld env job r ((i, a) ∷ amounts) ledger ledger' h =
    elim (Option-cases (reserve env job r (i, a) ledger)) [
      | inl e ↦ ground arith
      | inr (l, e) ↦
          let rest : reserve_all env job r amounts l ≡ some ledger' = rw (e, reserve_all) at h in
          (
            reserve_all-keeps env job r r (i, a) amounts l ledger' rest
                (reserve-IsHeld env job r i a ledger l e),
            reserve_all-AreHeld env job r amounts l ledger' rest,
          )
    ]

pub reserve_all_held :
    (env : Env) (job : PayoutRetryJob) (r : ℕ) (amounts : List (ℕ × ℕ)) (ledger : List LedgerRow)
    → AreHeld job r amounts ledger
    → reserve_all env job r amounts ledger ≡ some ledger
unfolding reserve_all
reserve_all_held env job r [] ledger h = refl
reserve_all_held env job r (p ∷ amounts) ledger h =
    rw (reserve_held env job r p ledger h.0, reserve_all)
      (reserve_all_held env job r amounts ledger h.1)
