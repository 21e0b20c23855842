-- ===== src/Deploy.antt =====
-- The deployment engine (src/deploy).
pub mod Ledger
pub mod Health
