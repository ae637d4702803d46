-- ===== src/Orchestrator/Types.antt =====
-- The data of src/w1cip/orchestrator.py: tasks, workflows, provider calls and results. JSON values
-- that the core only passes on are texts.
use w1_nexus.Prelude.{ℕ, String, Bool, true, false, Option, List, ℤ}
use w1_nexus.Resources.Plan.{Plan}
use w1_nexus.Resources.Edits.{ResetText}

pub record CompiledTask : Type 0 where
  pub task_id : String
  pub title : String
  pub phase : String
  pub role : String
  pub expected_output_type : String
  pub depends_on : List String
  pub deliverable_id : Option String
  pub criterion_id : Option String
  pub required_context_fields : List String
  pub estimated_units : ℤ
  pub domains : List String

pub record CompiledWorkflow : Type 0 where
  pub tasks : List CompiledTask
  pub risk_level : String
  pub error_cost : String
  pub task_complexity : String

-- The status of a task row and of a run row.
pub data Status : Type 0 where
  pending running completed failed blocked cancelled : Status
  awaiting_reset awaiting_user awaiting_reconciliation : Status

abbrev pub is_completed : Status → Bool
is_completed completed = true
is_completed _ = false

-- `status in {"pending", "running"}`
abbrev pub is_open : Status → Bool
is_open pending = true
is_open running = true
is_open _ = false

-- TERMINAL_RUN_STATUSES
abbrev pub is_terminal : Status → Bool
is_terminal completed = true
is_terminal cancelled = true
is_terminal failed = true
is_terminal awaiting_reconciliation = true
is_terminal _ = false

-- RESUMABLE_RUN_STATUSES
abbrev pub is_resumable : Status → Bool
is_resumable blocked = true
is_resumable awaiting_reset = true
is_resumable awaiting_user = true
is_resumable _ = false

pub record ActionRequest : Type 0 where
  pub action_id : String
  pub kind : String
  pub parameters : String
  pub requested_by : Option String
  pub reason : Option String

pub record ActionResult : Type 0 where
  pub action_id : String
  pub is_done : Bool
  pub error_code : Option String
  pub changed_paths : List String

pub data TaskOutput : Type 0 where
  payload : String → TaskOutput
  payload_with_actions : String → List ActionResult → TaskOutput
  pending_action : String → String → String → TaskOutput
  action_results : List ActionResult → TaskOutput

pub record ProviderRequest : Type 0 where
  pub run_id : String
  pub session_id : String
  pub task : CompiledTask
  pub resource_id : String
  pub idempotency_key : String
  pub context : List (String × String)
  pub prior_outputs : List (String × TaskOutput)
  pub attempt : ℕ

-- An action request that is no mapping, or lacks a key, is `none`; an envelope is its session name
-- and its text.
pub record ProviderResponse : Type 0 where
  pub output_type : String
  pub payload : String
  pub units_consumed : ℤ
  pub context_fields_used : List String
  pub protocol_envelopes : List (Option String × String)
  pub action_requests : List (Option ActionRequest)
  pub quota_observation : Option (Option String × Option String × String)

-- What a call of a provider comes to: a response, or one of the exceptions that the core catches,
-- or another exception, which goes through it.
-- A transient error is told apart by the code provider_rate_limited.
pub data Outcome : Type 0 where
  returned : ProviderResponse → Outcome
  quota_exhausted : Option ResetText → Outcome
  outcome_uncertain : Outcome
  transient_error : String → Option ℕ → Outcome
  permanent_error : String → Outcome
  other_exception : String → Outcome

pub record TaskRunResult : Type 0 where
  pub task_id : String
  pub status : Status
  pub resource_id : Option String
  pub output : Option TaskOutput
  pub attempts : ℕ
  pub error_code : Option String
  pub requires_extra_review : Bool

pub data Disclosure : Type 0 where
  quota_disclosed : String → String → Option ResetText → Disclosure
  rate_limit_disclosed : String → String → Option ℕ → Disclosure
  fallback_disclosed : String → String → Bool → Disclosure

pub record RunInputs : Type 0 where
  pub run_id : String
  pub session_id : String
  pub max_model_calls : Option ℕ
  pub resource_plan : Plan
  pub context : List (String × String)
  pub domains : List String
  pub max_attempts_per_resource : ℕ

-- The events that the core emits, by their event_type.
pub data RuntimeEvent : Type 0 where
  run_started : ℕ → RuntimeEvent
  run_ended : Status → String → Option String → RuntimeEvent
  run_completed : Bool → RuntimeEvent
  task_started : CompiledTask → ℕ → String → RuntimeEvent
  context_granted : String → ℕ → String → List String → List (String × String) → RuntimeEvent
  resource_quota_exhausted : Disclosure → RuntimeEvent
  action_approval_required : String → TaskOutput → RuntimeEvent
  action_completed : String → ActionRequest → ActionResult → RuntimeEvent
  response_accepted : String → ℕ → String → ProviderResponse → Bool → Bool → RuntimeEvent
  task_completed : String → String → String → RuntimeEvent

pub data OrchestratorError : Type 0 where
  workflow_invalid : String → OrchestratorError
  run_conflict unsafe_resume : OrchestratorError
  output_contract : String → OrchestratorError
  external_error : String → OrchestratorError
  -- StopIteration of routing, KeyError of a row that is not there, TypeError of an absent column
  stop_iteration key_error type_error : OrchestratorError
