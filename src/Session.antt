-- ===== src/Session.antt =====
-- src/session.rs: the catalog of workspaces and the registry of attachments.
pub mod Catalog
pub mod Store
pub mod Workspaces
pub mod Returns
pub mod Updates
pub mod Deletes
pub mod Tests
pub mod Attachments
pub mod States
pub mod Register
pub mod Registered
pub mod RegisterTests
