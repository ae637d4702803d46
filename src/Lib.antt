-- ===== src/Lib.antt =====
-- W1 NEXUS: a governed multi-model orchestrator with an append-only session ledger.
--
-- The parts and how they interact. A plan of execution resources (model accounts with quotas) is
-- checked and routed by src/w1cip/validation.py. The orchestrator, src/w1cip/orchestrator.py,
-- compiles a goal into a workflow and runs it: for each task it routes by the plan, calls the
-- provider of the selected resource, accepts or refuses the response, edits the plan, and records
-- all of it in a SQLite journal from which it resumes. Its events go to the session store,
-- src/w1cip/session_store.py, a ledger of hash-chained events with projection tables.
-- src/w1cip/parallel_runtime.py runs the jobs of several agents side by side, each in a worktree of
-- its own, and merges their branches after tests and a review.
--
-- Prelude       shared helpers: Boolean tests, lists, texts, signed integers.
-- Resources     Plan: the data of a plan. Semantics: validate_execution_resource_plan_semantics.
--               Route: _routing_rule_matches and route_execution_resource. Edits:
--               _plan_with_unavailable_resources, _mark_resource_quota_exhausted,
--               _consume_resource_units and _routing_metadata_for_resource of orchestrator.py.
-- SessionStore  Types: the tables. Platform: JSON, hashing, schema and replay, as parameters.
--               Projections: _replace_projection_locked and _load_envelopes_locked. Append:
--               append and append_many. Integrity: verify_integrity and rebuild_projections.
--               Ledger: what an intact ledger is, and its proofs; Log and Batch: the log that it
--               keeps; Whole and Sound: what verify_integrity tells of it; Binding: what its head
--               says of it.
-- Dependencies  the depth-first walk over dependencies that orchestrator.py and parallel_runtime.py
--               share: the order it leaves, its fuel, and ranks.
-- Orchestrator  Types: the dataclasses. Journal: OrchestratorJournal. Effects: the environment and
--               the state that the core passes. Accept: _validate_response and
--               _accept_task_response. Recover, Execute: the two halves of _execute_task. Graph:
--               _validate_workflow, _depends_transitively, _enforce_extra_review. Compile:
--               GoalTaskCompiler; Team: TeamPlanner. Run: run and _result_from_journal. Steps:
--               what a proof about all of them needs. Budget: the calls that a run starts.
--               Termination: the loop of _execute_task.
-- Parallel      Types: the dataclasses and the job states. Paths: _normalise_resource and
--               _paths_overlap, on lists of characters. Locks: acquire_resources and
--               release_resources. Plan: _validate_jobs. Scheduler: the loop of run, and the status
--               in which _execute_job ends. Merge: MergeCoordinator and its table.
-- Tests         concrete inputs for all of them.
--
-- A table is a list of rows, a transaction is a function that returns no store when it raises. An
-- exception of the orchestrator is an exit beside the state, since what was written before it
-- stays. Times are numbers, and JSON values that are only passed on are texts. The loops of
-- _execute_task and run, and the recursion through the task graph, take fuel. The outer loop of run
-- gets one pass more than there are tasks, since every pass but the last completes one; a walk of
-- the graph gets one or two levels more than there are tasks, since no task is twice on a path; the
-- fuel of a task is an argument, which has to exceed the resources of the plan plus the attempts
-- that are allowed, and running out of it is an exit of its own.
--
-- Parameters: the JSON library, SHA-256, the JSON Schema validator, the replay validator that the
-- store is given (by default replay_protocol_log of src/w1cip/validation.py, whose active events
-- are among its records), providers, memory, the action runtime, the event listener and envelope
-- factory, the clock, the regular expression CANONICAL_ID, the native library behind
-- compute_state_hash and verify_dag_acyclic, pathlib, git, and the hash of a merge proposal. The
-- threads of the parallel runtime are the input of each round of its loop: the futures that are
-- done, and how their jobs ended.
--
-- Not modelled: the other protocol validators, the events and worktrees of the parallel runtime,
-- and everything around the core (gateway, command line, desktop, plugins, sandboxes, benchmarks).
-- Of the code that is modelled: the foreign and primary keys of the projection tables, so that more
-- projections are stored than SQLite would take; exceptions of canonical_json on a response; the
-- RecursionError of CPython on a very deep chain of dependencies; exceptions of listeners and of
-- journal writes inside the loop of the parallel runtime, and of the events of the merge
-- coordinator. A time that a plan holds has an offset; one without it in a provider's report is
-- modelled, with the TypeError of its comparison.
pub mod Prelude
pub mod Dependencies
pub mod Resources
pub mod SessionStore
pub mod Orchestrator
pub mod Parallel
pub mod Tests
