-- ===== src/Parallel.antt =====
-- The parallel runtime: src/w1cip/parallel_runtime.py, with its jobs, resource locks, scheduler and
-- merge coordinator.
pub mod Types
pub mod Paths
pub mod Locks
pub mod Plan
pub mod Scheduler
pub mod Merge
