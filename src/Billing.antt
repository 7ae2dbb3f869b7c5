-- ===== src/Billing.antt =====
-- apps/billing-service: invoices, payments and the ledger.
pub mod Rows
pub mod Payments
pub mod Invoices
pub mod Sagas
pub mod Payouts
