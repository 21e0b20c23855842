-- ===== src/Auth.antt =====
-- The administrator's credentials (src/auth/): login, change of the password, and the throttle of
-- failed attempts.
mod Store
mod Throttle
mod Credentials
mod Sessions
pub mod Guesses
pub mod Expiry
unfoldable pub use Store.*
unfoldable pub use Throttle.*
unfoldable pub use Credentials.*
unfoldable pub use Sessions.*
