-- ===== src/Core.antt =====
-- What the desktop and the phone share, ferusa-core/src.
pub mod Message
pub mod Wire
pub mod Approval
pub mod Blob
pub mod Vault
mod Tests
