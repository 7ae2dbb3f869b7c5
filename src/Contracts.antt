-- ===== src/Contracts.antt =====
-- apps/contract-service: contracts, violations and restrictions.
pub mod Rows
pub mod Keys
pub mod Provider
pub mod Customer
pub mod Activation
pub mod Prepaid
pub mod Drafts
pub mod Edits
pub mod Updates
pub mod Restrictions
pub mod Booking
pub mod Violations
pub mod Lifecycle
pub mod Races
mod Tests
