-- ===== src/Resources.antt =====
-- src/resources.rs.
pub mod Claim
pub mod ClaimLaws
pub mod Limits
pub mod Policy
pub mod Pool
pub mod Reserve
pub mod Account
pub mod Ledger
pub mod Atomic
pub mod Interleave
pub mod Balance
pub mod Steps
pub mod Validate
pub mod Users
pub mod Tests
