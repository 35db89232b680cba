-- ===== src/Orchestrator/Tests.antt =====
-- Runs.
