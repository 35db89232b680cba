-- ===== src/Worker/Tests.antt =====
-- Runs.
