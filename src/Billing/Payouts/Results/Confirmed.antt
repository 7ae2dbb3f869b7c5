-- ===== src/Billing/Payouts/Results/Confirmed.antt =====
-- Which providers are told that they were paid, and what an unknown outcome keeps in reserve.
use service_hub_backend.Base.{
  ℕ, ◌≡◌, refl, Bool, true, false, ◌&&◌, List, [], ◌∷◌, ◌++◌, some, arith, ◌==◌, if◌then◌else◌,
  Option-cases, inl, inr, any, All,
}
use service_hub_backend.Base.Text.{codes, Text, text_eq}
use service_hub_backend.Base.Table.{find_first, find_many, update_many}
use service_hub_backend.Billing.Rows.{LedgerRow, Db, Env}
use service_hub_backend.Billing.Payouts.{debited, is_succeeded, batch_has_id}
use service_hub_backend.Billing.Payouts.Results.{
  Transaction, Payout, map_transaction_status, of_batch, of_provider, requested, status_of,
  set_result, set_external, persist_transaction, persist_transactions, persist_payout_results,
  is_open_status, set_unknown, mark_batch_unknown,
}

-- A transaction of the answer that PayOS reports as SUCCEEDED, with the amount that the ledger
-- asks for.
abbrev pub confirms : List LedgerRow → ℕ → Transaction → Bool
confirms entries provider_id t =
    (t.reference_id == provider_id)
    && (text_eq t.state (codes "SUCCEEDED") && (t.amount == requested provider_id entries))

abbrev pub IsConfirmed : List LedgerRow → List Transaction → ℕ → Type 0
IsConfirmed entries ts provider_id = any (confirms entries provider_id) ts ≡ true

status_of-confirms :
    (entries : List LedgerRow) (t : Transaction)
    → is_succeeded (status_of t (requested t.reference_id entries)) ≡ true
    → confirms entries t.reference_id t ≡ true
unfolding map_transaction_status
status_of-confirms entries t h = ground arith

All-append {ℓ} : (P : ℕ → Type ℓ) (xs : List ℕ) (x : ℕ) → All P xs → P x → All P (xs ++ x ∷ [])
All-append P [] x h k = (k, tt)
All-append P (y ∷ xs) x h k = (h.0, All-append P xs x h.1 k)

notified_after :
    (P : ℕ → Type 0) (entries : List LedgerRow) (t : Transaction) (notified : List ℕ) (b : Bool)
    → All P notified
    → (b ≡ true → P t.reference_id)
    → All P (if b then notified ++ (t.reference_id ∷ []) else notified)
notified_after P entries t notified true h k = All-append P notified t.reference_id h (k refl)
notified_after P entries t notified false h k = h

persist_transaction_confirmed :
    (P : ℕ → Type 0) (env : Env) (batch_id : ℕ) (entries ledger ledger' : List LedgerRow)
    (t : Transaction) (notified notified' : List ℕ)
    → persist_transaction env batch_id entries t (ledger, notified) ≡ some (ledger', notified')
    → All P notified
    → (confirms entries t.reference_id t ≡ true → P t.reference_id)
    → All P notified'
unfolding persist_transaction
persist_transaction_confirmed P env batch_id entries ledger ledger' t notified notified' h all one =
    let amount = requested t.reference_id entries in
    let b = is_succeeded (status_of t amount) in
    let set =
      update_many (λ row. of_batch batch_id row && of_provider t.reference_id row)
        (set_result env t amount) ledger in
    elim (Option-cases (find_first (of_provider t.reference_id) entries)) [
      | inl e ↦ let same : notified ≡ notified' = ground arith in rw (← same) all
      | inr (x, e) ↦ elim (Option-cases (set_external x.id t.id set)) [
        | inl f ↦ ground arith
        | inr (l, f) ↦
            let same : (if b then notified ++ (t.reference_id ∷ []) else notified) ≡ notified' =
              ground arith in
            rw (← same) (
              notified_after P entries t notified b all (λ u. one (status_of-confirms entries t u)))
      ]
    ]

persist_transactions_confirmed :
    (P : ℕ → Type 0) (env : Env) (batch_id : ℕ) (entries : List LedgerRow) (ts : List Transaction)
    (ledger ledger' : List LedgerRow) (notified notified' : List ℕ)
    → persist_transactions env batch_id entries ts (ledger, notified) ≡ some (ledger', notified')
    → All P notified
    → ((p : ℕ) → any (confirms entries p) ts ≡ true → P p)
    → All P notified'
unfolding persist_transactions
persist_transactions_confirmed P env batch_id entries [] ledger ledger' notified notified' h all
      each =
    let same : notified ≡ notified' = ground arith in rw (← same) all
persist_transactions_confirmed P env batch_id entries (t ∷ ts) ledger ledger' notified notified' h
      all each =
    elim (Option-cases (persist_transaction env batch_id entries t (ledger, notified))) [
      | inl e ↦ ground arith
      | inr ((l, n), e) ↦
          persist_transactions_confirmed P env batch_id entries ts l ledger' n notified'
            (rw (e, persist_transactions) at h)
            (persist_transaction_confirmed P env batch_id entries ledger l t notified n e all
              (λ u. each t.reference_id (rw u refl)))
            (λ p u. each p (ground (arith, u)))
    ]

-- Every provider that is to be told of its payout has a transaction in the answer that PayOS
-- reports as SUCCEEDED and whose amount is the sum of the provider's entries in the ledger.
pub persist_payout_results-IsConfirmed :
    (env : Env) (batch_id : ℕ) (result : Payout) (db db' : Db) (notified : List ℕ)
    → persist_payout_results env batch_id result db ≡ some (notified, db')
    → All (IsConfirmed (find_many (of_batch batch_id) db.ledger) result.transactions) notified
unfolding persist_payout_results
persist_payout_results-IsConfirmed env batch_id result db db' notified h =
    let entries = find_many (of_batch batch_id) db.ledger in
    let run = persist_transactions env batch_id entries result.transactions (db.ledger, []) in
    elim (Option-cases (find_first (batch_has_id batch_id) db.batches)) [
      | inl e ↦ ground arith
      | inr (x, e) ↦ elim (Option-cases run) [
        | inl f ↦ ground arith
        | inr ((l, n), f) ↦
            let same : n ≡ notified = ground arith in
            rw (← same) (
              persist_transactions_confirmed (IsConfirmed entries result.transactions) env batch_id
                entries result.transactions db.ledger l [] n f tt (λ p u. u))
      ]
    ]

debited-set_unknown :
    (env : Env) (batch_id : ℕ) (reason : Text) (i : ℕ) (ledger : List LedgerRow)
    → debited i (
        update_many
          (λ row. of_batch batch_id row && is_open_status row.status)
          (set_unknown env reason)
          ledger)
      ≡ debited i ledger
unfolding debited
debited-set_unknown env batch_id reason i [] = refl
debited-set_unknown env batch_id reason i (x ∷ ledger) =
    ground (arith, debited-set_unknown env batch_id reason i ledger)

-- A batch whose outcome is unknown still holds what it reserved, for every invoice.
pub debited-mark_batch_unknown :
    (env : Env) (batch_id : ℕ) (reason : Text) (db : Db) (i : ℕ)
    → debited i (mark_batch_unknown env batch_id reason db).ledger ≡ debited i db.ledger
unfolding mark_batch_unknown
debited-mark_batch_unknown env batch_id reason db i =
    debited-set_unknown env batch_id reason i db.ledger
