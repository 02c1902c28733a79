-- ===== src/Phone/Session.antt =====
-- The session of the running app, app/src-tauri/src/state.rs, and the parts of
-- app/src-tauri/src/commands.rs that admit requests and take them against it.
pub mod State
pub mod Requests
pub mod Tokens
pub mod Replay
pub mod Taking
mod Tests
