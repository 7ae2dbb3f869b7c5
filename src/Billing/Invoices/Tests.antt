-- ===== src/Billing/Invoices/Tests.antt =====
-- Cash payments of a concrete invoice.
use service_hub_backend.Base.{◌≡◌, ◌⊎◌, refl, some, none, arith}
use service_hub_backend.Base.Table.{find_first}
use service_hub_backend.Billing.Payments.Tests.{sample_env, sample_invoice, sample_db}
use service_hub_backend.Billing.Invoices.{
  cash, success, paid, payment_of, refused, not_found, owned_by, pending_of, cash_payment, earlier,
  pay_invoice,
}
use service_hub_backend.Billing.Invoices.Atomic.{pay_invoice_atomic}
use service_hub_backend.Billing.Invoices.Replay.{pay_invoice_again}
use service_hub_backend.Billing.Invoices.Cash.{pay_invoice_settles}

no_earlier : earlier 11 (some 88) sample_db ≡ none
unfolding earlier
no_earlier = refl

pay_invoice_settles_example :
    let (answer, db') = pay_invoice sample_env (λ d. d) 7 11 (some 88) sample_db in
    (answer
      ≡ payment_of (record {
        id = 21;
        invoice_id = 11;
        payment_method = cash;
        payment_link_id = some 88;
        status = success;
        paid_at = some 100;
        created_at = 100;
      }))
    × (find_first (owned_by 11 7) db'.invoices
        ≡ some (record sample_invoice { status = paid; revision = 2; updated_at = 100 }))
    × (find_first (pending_of 11) db'.payments ≡ none)
pay_invoice_settles_example =
    pay_invoice_settles sample_env 7 11 (some 88) sample_db sample_invoice refl refl (omega arith)
      no_earlier

first_answer :
    (pay_invoice sample_env (λ d. d) 7 11 (some 88) sample_db).0
    ≡ payment_of (cash_payment sample_env 11 (some 88))
unfolding cash_payment
first_answer =
    (pay_invoice_settles sample_env 7 11 (some 88) sample_db sample_invoice refl refl (omega arith)
      no_earlier).0

pay_invoice_again_example :
    let db' = (pay_invoice sample_env (λ d. d) 7 11 (some 88) sample_db).1 in
    pay_invoice sample_env (λ d. d) 7 11 (some 88) db'
    ≡ (payment_of (cash_payment sample_env 11 (some 88)), db')
pay_invoice_again_example =
    pay_invoice_again sample_env sample_env (λ d. d) (λ d. d) 7 11 88 sample_db
      (cash_payment sample_env 11 (some 88)) first_answer

other_provider : (pay_invoice sample_env (λ d. d) 8 11 (some 88) sample_db).0 ≡ refused not_found
unfolding pay_invoice
other_provider = refl

pay_invoice_atomic_example :
    ((pay_invoice sample_env (λ d. d) 8 11 (some 88) sample_db).1 ≡ sample_db)
    ⊎ ((pay_invoice sample_env (λ d. d) 8 11 (some 88) sample_db).1 ≡ sample_db)
pay_invoice_atomic_example =
    pay_invoice_atomic sample_env (λ d. d) 8 11 (some 88) sample_db not_found other_provider
