-- ===== src/Phone/Throttle.antt =====
-- Wrong PINs and the cooldown after them, app/src-tauri/src/commands.rs, with the stored state of
-- app/src-tauri/src/storage.rs.
pub mod Cooldown
pub mod Attempt
pub mod Bounds
pub mod Allowance
pub mod Laws
pub mod Outcomes
pub mod Success
pub mod Trying
pub mod Guesses
mod Tests
