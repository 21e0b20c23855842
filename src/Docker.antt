-- ===== src/Docker.antt =====
-- What is read from Docker (src/docker).
pub mod Models
pub mod Ownership
