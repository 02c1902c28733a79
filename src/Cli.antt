-- ===== src/Cli.antt =====
-- The desktop program, cli/src.
pub mod Twofa
pub mod Pairing
pub mod Passwords
pub mod Clipboard
pub mod VaultFile
pub mod Tests
