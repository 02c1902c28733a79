-- ===== src/Protocol/Tests.antt =====
-- The phone of Phone/Consent/Tests and the desktop of Cli/Tests.
