-- ===== src/Cli/Pairing.antt =====
-- The desktop's side of a change of pairing, cli/src/storage/paths.rs: files, and the transaction
-- that puts a new vault and a new pairing in the place of the old ones.
pub mod Files
pub mod Transaction
pub mod Sight
pub mod Writing
pub mod Clearing
pub mod Promotion
pub mod Recovery
pub mod Preparing
pub mod Success
pub mod Status
pub mod Settled
pub mod Resume
mod Tests
