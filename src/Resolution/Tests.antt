-- ===== src/Resolution/Tests.antt =====
-- Runs.
