-- ===== src/Orchestrator/Budget.antt =====
-- How many provider calls OrchestratorCore of src/w1cip/orchestrator.py starts for a run.
pub mod Rules
pub mod Calls
pub mod Whole
