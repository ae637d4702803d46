-- ===== src/Orchestrator/Recover.antt =====
-- The first half of OrchestratorCore._execute_task of src/w1cip/orchestrator.py: what becomes of a
-- provider call that was persisted before the process stopped.
use w1_nexus.Prelude.{
  ℕ, suc, zero, max, String, Bool, true, false, not, ◌&&◌, Option, none, some, List, [], ◌∷◌, ◌++◌,
  ◌==◌, if◌then◌else◌,
}
use w1_nexus.Resources.Plan.{Plan}
use w1_nexus.Resources.Route.{Intent, ResourceRoutingResult}
use w1_nexus.Resources.Edits.{
  ResetText, mark_resource_quota_exhausted, routing_metadata_for_resource,
}
use w1_nexus.Orchestrator.Types.{
  CompiledTask, CompiledWorkflow, Status, awaiting_reconciliation, is_open, ProviderRequest,
  ProviderResponse, Outcome, returned, quota_exhausted, outcome_uncertain, transient_error,
  permanent_error, other_exception, OrchestratorError, Disclosure, quota_disclosed,
  rate_limit_disclosed, RunInputs, stop_iteration, type_error,
}
use w1_nexus.Orchestrator.Journal.{
  CallRow, CallStatus, call_completed, call_failed, call_uncertain, save_resource_plan,
  latest_call_for_task, complete_call, fail_call,
}
use w1_nexus.Orchestrator.Effects.{Environment, M, pure, raise, ◌>>=◌, ◌>>◌, read, write, outside}
use w1_nexus.Orchestrator.Accept.{Attempt, TaskStep, stop_task, accept_task_response}

-- What the loop of _execute_task changes: the plan, the attempts, unavailable_for_task and the
-- disclosures.
pub record Progress : Type 0 where
  pub resource_plan : Plan
  pub attempts : ℕ
  pub unavailable : List String
  pub disclosures : List Disclosure

-- The arguments of _execute_task that it does not change, and the row's attempts.
pub record Work : Type 0 where
  pub inputs : RunInputs
  pub workflow : CompiledWorkflow
  pub task : CompiledTask

abbrev pub intent_of : Work → Intent
intent_of w = record {
  role = w.task.role;
  phase = w.task.phase;
  risk_level = w.workflow.risk_level;
  task_complexity = w.workflow.task_complexity;
  domains = w.task.domains ++ w.inputs.domains;
  estimated_units = w.task.estimated_units;
}

abbrev pub without : Progress → String → Progress
without p resource_id = record p { unavailable = resource_id ∷ p.unavailable }

abbrev pub disclosing : Progress → Disclosure → Progress
disclosing p d = record p { disclosures = p.disclosures ++ d ∷ [] }

-- A rate limit is disclosed, other errors are not.
abbrev pub rate_limited : Progress → String → String → String → Option ℕ → Progress
rate_limited p task_id resource_id code retry_after =
    if code == "provider_rate_limited"
    then disclosing p (rate_limit_disclosed task_id resource_id retry_after)
    else p

abbrev pub unsafe_resume_code : String
unsafe_resume_code = "orchestrator_unsafe_provider_resume"

abbrev pub uncertain_code : String
uncertain_code = "provider_outcome_uncertain"

abbrev pub quota_code : String
quota_code = "provider_quota_exhausted"

abbrev pub is_uncertain : CallStatus → Bool
is_uncertain call_uncertain = true
is_uncertain _ = false

module _ (env : Environment) where
  open env use {World}

  -- The plan, or the TypeError, that _mark_resource_quota_exhausted comes to.
  abbrev pub settled : Option Plan → M World Plan
  settled none = raise type_error
  settled (some plan) = pure plan

  -- save_resource_plan, and what the loop keeps of it.
  abbrev pub save_retired :
      Work → ProviderRequest → Option ResetText → Progress → Plan → M World Progress
  save_retired w request reset_at p plan = do
    _ ← write (save_resource_plan w.inputs.run_id plan)
    pure (
        disclosing (without (record p { resource_plan = plan }) request.resource_id)
          (quota_disclosed w.task.task_id request.resource_id reset_at))

  -- fail_call, _mark_resource_quota_exhausted and save_resource_plan of an exhausted quota.
  unfoldable pub retire_resource :
      Work → ProviderRequest → Option ResetText → Progress → M World Progress
  retire_resource w request reset_at p = do
    _ ← write (fail_call request.idempotency_key quota_code false)
    now ← outside (λ x. (env.now x, x))
    plan ← settled (mark_resource_quota_exhausted p.resource_plan request.resource_id reset_at now)
    save_retired w request reset_at p plan

  abbrev pub recovered :
      Work
      → ProviderRequest
      → Progress
      → M World (Option ProviderResponse × Progress)
      → Outcome
      → M World (Option ProviderResponse × Progress)
  recovered w request p again (returned response) = pure (some response, p)
  recovered w request p again outcome_uncertain =
      write (fail_call request.idempotency_key uncertain_code true) >> again
  recovered w request p again (quota_exhausted reset_at) = do
    p ← retire_resource w request reset_at p
    pure (none, p)
  recovered w request p again (transient_error code retry_after) = do
    _ ← write (fail_call request.idempotency_key code false)
    pure (
      none,
      rate_limited (without p request.resource_id) w.task.task_id request.resource_id code
          retry_after,
    )
  recovered w request p again (permanent_error code) = do
    _ ← write (fail_call request.idempotency_key code false)
    pure (
      none,
      rate_limited (without p request.resource_id) w.task.task_id request.resource_id code none,
    )
  recovered w request p again (other_exception code) = raise (OrchestratorError.external_error code)

  -- The persisted request is sent again, with its own idempotency key, at most n times.
  unfoldable pub invoke_again :
      Work → ProviderRequest → Progress → ℕ → M World (Option ProviderResponse × Progress)
  invoke_again w request p zero = pure (none, p)
  invoke_again w request p (suc n) =
      let again = invoke_again w request p n in
      do
        outcome ← outside (env.invoke request.resource_id request)
        recovered w request p again outcome

  abbrev pub attempt_of : Work → ProviderRequest → ResourceRoutingResult → Progress → Attempt
  attempt_of w request routing p = record {
    inputs = w.inputs;
    task = w.task;
    request = request;
    routing = routing;
    resource_plan = p.resource_plan;
    attempts = p.attempts;
    disclosures = p.disclosures;
  }

  abbrev pub stop_work : Work → Progress → Status → Option String → String → M World TaskStep
  stop_work w p status resource_id code = do
    result ← stop_task w.inputs w.task status resource_id none p.attempts code
    pure (result, p.resource_plan, p.disclosures)

  abbrev pub is_nil : List String → Bool
  is_nil [] = true
  is_nil (x ∷ xs) = false

  -- After the repeated invocations.
  abbrev pub after_invocations :
      Work
      → CallRow
      → ResourceRoutingResult
      → (Progress → M World TaskStep)
      → Option ProviderResponse × Progress
      → M World TaskStep
  after_invocations w call routing loop (some response, p) = do
    _ ← write (complete_call call.request.idempotency_key response)
    accept_task_response env (attempt_of w call.request routing p) response
  after_invocations w call routing loop (none, p) =
      if is_uncertain call.status && is_nil p.unavailable
      then stop_work w p awaiting_reconciliation (some call.request.resource_id) uncertain_code
      else loop p

  abbrev pub supports : Option Bool → Bool
  supports none = false
  supports (some b) = b

  abbrev pub recover_unfinished :
      Work
      → CallRow
      → ResourceRoutingResult
      → Progress
      → (Progress → M World TaskStep)
      → M World TaskStep
  recover_unfinished w call routing p loop =
      if supports (env.provider call.request.resource_id)
      then (do
        r ← invoke_again w call.request p (max 1 w.inputs.max_attempts_per_resource)
        after_invocations w call routing loop r)
      else stop_work w p awaiting_reconciliation (some call.request.resource_id) unsafe_resume_code

  abbrev pub accept_recorded :
      Work
      → ProviderRequest
      → ResourceRoutingResult
      → Progress
      → Option ProviderResponse
      → M World TaskStep
  accept_recorded w request routing p none = raise type_error
  accept_recorded w request routing p (some response) =
      accept_task_response env (attempt_of w request routing p) response

  abbrev pub recover_routed :
      Work
      → CallRow
      → Progress
      → (Progress → M World TaskStep)
      → Option ResourceRoutingResult
      → CallStatus
      → M World TaskStep
  recover_routed w call p loop none _ = raise stop_iteration
  recover_routed w call p loop (some routing) call_completed =
      accept_recorded w call.request routing p call.response
  recover_routed w call p loop (some routing) _ = recover_unfinished w call routing p loop

  abbrev pub is_failed : CallStatus → Bool
  is_failed call_failed = true
  is_failed _ = false

  -- A failed call, or none, leaves everything to the loop.
  abbrev pub recover_call :
      Work → Bool → Progress → (Progress → M World TaskStep) → Option CallRow → M World TaskStep
  recover_call w open_task p loop none = loop p
  recover_call w open_task p loop (some call) =
      if open_task && not (is_failed call.status)
      then (let p = record p { attempts = max p.attempts call.request.attempt } in
          recover_routed w call p loop
            (routing_metadata_for_resource p.resource_plan (intent_of w) call.request.resource_id)
            call.status)
      else loop p

  -- The recovery part of _execute_task; `loop` is the rest of it.
  unfoldable pub recover_task :
      Work → Status → Progress → (Progress → M World TaskStep) → M World TaskStep
  recover_task w status p loop = do
    call ← read (latest_call_for_task w.inputs.run_id w.task.task_id)
    recover_call w (is_open status) p loop call
