-- ===== src/Mutation.antt =====
-- The idempotency of mutations (src/mutation/).
pub mod Idempotency
