-- ===== src/Phone/Storage.antt =====
-- Pairing generations in the phone's keystore, app/src-tauri/src/storage.rs.
pub mod Types
pub mod Generation
pub mod Cleanup
pub mod Transaction
pub mod Queries
pub mod Laws
pub mod View
pub mod Invariant
pub mod Effects
pub mod Settling
pub mod Finalizing
pub mod Discarding
pub mod Pairing
pub mod Committing
pub mod Publishing
pub mod Activating
pub mod Answers
pub mod History
mod Tests
pub mod Refusals
