-- ===== src/Registry.antt =====
-- Image references, platforms and identities, and the poll states (src/registry).
pub mod Reference
pub mod Identity
pub mod PollStates
