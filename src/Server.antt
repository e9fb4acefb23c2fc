-- ===== src/Server.antt =====
-- pkg/server: the service that keeps the users' roles, and its HTTP interface.
pub mod Permissions
pub mod Auth
pub mod Quota
pub mod Tests
