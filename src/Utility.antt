-- ===== src/Utility.antt =====
-- packages/utility.
pub mod Case
