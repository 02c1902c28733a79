-- ===== src/Protocol.antt =====
-- The two sides together: the phone of app/src-tauri/src and the desktop of cli/src.
pub mod EndToEnd
mod Tests
