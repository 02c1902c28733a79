-- ===== src/Cli/Clipboard.antt =====
-- The clipboard, cli/src/clipboard.rs: which commands may be run, and the helper that clears a
-- password away after a while.
pub mod Command
pub mod Expiry
pub mod Manual
pub mod Aiming
pub mod Emptying
pub mod Helper
pub mod Plain
pub mod Clearing
pub mod Running
mod Tests
