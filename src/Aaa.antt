-- ===== src/Aaa.antt =====
-- pkg/client/tac_plus: authentication, authorization and accounting on the device side.
pub mod Users
pub mod Command
pub mod Handler
pub mod Snapshot
pub mod Tests
