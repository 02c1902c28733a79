-- ===== src/Phone/Consent.antt =====
-- How the phone comes to sign an answer: the handlers of app/src-tauri/src/commands.rs that admit a
-- request, deny it, or approve it, with `build_response_for_signing` of app/src-tauri/src/peer.rs.
pub mod Desk
pub mod Answering
pub mod Expiry
pub mod Approve
pub mod Admit
pub mod Sound
pub mod History
pub mod Tests
