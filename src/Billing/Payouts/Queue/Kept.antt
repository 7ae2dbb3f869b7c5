-- ===== src/Billing/Payouts/Queue/Kept.antt =====
-- No job is lost between the lists.
