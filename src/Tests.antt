-- ===== src/Tests.antt =====
-- Concrete runs of the modelled code, and the theorems at concrete inputs.
mod Ledger
mod Health
mod Polling
mod Images
mod Upkeep
mod Mutation
mod Domain
mod Drafts
mod Delivery
