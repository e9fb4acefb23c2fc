-- ===== src/Swm.antt =====
-- pkg/swm: the web console.
pub mod RateLimit
pub mod Tests
