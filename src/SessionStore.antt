-- ===== src/SessionStore.antt =====
-- The append-only session ledger: src/w1cip/session_store.py (SessionStore.append, append_many,
-- _replace_projection_locked, verify_integrity, rebuild_projections and the readers).
pub mod Types
pub mod Platform
pub mod Projections
pub mod Append
pub mod Integrity
pub mod Ledger
