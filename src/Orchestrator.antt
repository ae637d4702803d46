-- ===== src/Orchestrator.antt =====
-- The orchestration core: src/w1cip/orchestrator.py (OrchestratorJournal, OrchestratorCore.run,
-- _execute_task, _accept_task_response and what they call).
pub mod Types
pub mod Journal
pub mod Effects
pub mod Accept
pub mod Recover
pub mod Graph
pub mod Compile
pub mod Execute
pub mod Run
pub mod Steps
pub mod Budget
pub mod Termination
