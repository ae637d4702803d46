-- ===== src/Resources.antt =====
-- Execution-resource plans and their routing: src/w1cip/validation.py
-- (validate_execution_resource_plan_semantics, route_execution_resource) and the plan edits of
-- src/w1cip/orchestrator.py (_plan_with_unavailable_resources, _mark_resource_quota_exhausted,
-- _consume_resource_units, _routing_metadata_for_resource).
pub mod Plan
pub mod Semantics
pub mod Route
pub mod Edits
