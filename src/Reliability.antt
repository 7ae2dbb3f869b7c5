-- ===== src/Reliability.antt =====
-- libs/common/src/reliability: the transactional outbox, its poller, the inbox and the retention job.
pub mod Json
pub mod Outbox
pub mod Poller
pub mod Inbox
