-- ===== src/Domain.antt =====
-- Validation of the configuration of an application (src/domain/).
pub mod Errors
pub mod Names
pub mod Paths
pub mod Mounts
pub mod Binds
pub mod Ports
pub mod Limits
pub mod Sorting
pub mod Environment
pub mod Networks
pub mod Files
pub mod Draft
