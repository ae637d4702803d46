-- ===== src/Orchestrator/Termination.antt =====
-- Why the loop of OrchestratorCore._execute_task in src/w1cip/orchestrator.py ends: every pass that
-- goes on gives up a resource of the plan, or uses up an attempt.
pub mod Measure
pub mod Loop
pub mod Recovery
