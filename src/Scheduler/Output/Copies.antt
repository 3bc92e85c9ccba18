-- ===== src/Scheduler/Output/Copies.antt =====
-- A copy of a decision shows the same decision.
