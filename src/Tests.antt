-- ===== src/Tests.antt =====
-- Concrete inputs for src/w1cip/validation.py, session_store.py and orchestrator.py, on which the
-- theorems are applied.
pub mod Routing
pub mod Ledgers
pub mod Runs
pub mod Gates
pub mod Parallel
pub mod Merges
pub mod Goals
