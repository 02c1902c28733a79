-- ===== src/Phone.antt =====
-- The Android companion, app/src-tauri/src.
pub mod Storage
pub mod Throttle
pub mod Pin
pub mod Session
pub mod Consent
pub mod Admission
