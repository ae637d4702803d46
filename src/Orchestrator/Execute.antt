-- ===== src/Orchestrator/Execute.antt =====
-- The loop of OrchestratorCore._execute_task of src/w1cip/orchestrator.py: budget, routing, context,
-- the provider call and its errors. `while True` is a recursion on fuel.
use w1_nexus.Prelude.{
  ℕ, suc, zero, String, Bool, true, false, not, Option, none, some, List, [], ◌∷◌, ◌++◌, ◌==◌,
  if◌then◌else◌, length, leb, any, elem, select, lookup, map,
}
use w1_nexus.Resources.Plan.{Plan, Action, await_reset, await_user, cancelled}
use w1_nexus.Resources.Route.{ResourceRoutingResult, route_execution_resource}
use w1_nexus.Resources.Edits.{plan_with_unavailable_resources}
use w1_nexus.Orchestrator.Types.{
  CompiledTask, Status, running, blocked, awaiting_reset, awaiting_user, awaiting_reconciliation,
  is_completed, TaskOutput, ProviderRequest, ProviderResponse, Outcome, returned, quota_exhausted,
  outcome_uncertain, transient_error, permanent_error, other_exception, OrchestratorError,
  quota_disclosed, rate_limit_disclosed, task_started, context_granted, resource_quota_exhausted,
  unsafe_resume, stop_iteration, type_error,
}
use w1_nexus.Orchestrator.Journal.{
  TaskRow, CallRow, CallStatus, call_completed, call_failed, update_task, set_run_status,
  call_by_key, start_call, complete_call, fail_call, count_started_calls,
}
use w1_nexus.Orchestrator.Effects.{
  Environment, Answer, answer, raised_outside, pure, MemoryResolution, M, raise, exhausted, ◌>>=◌,
  read, write, outside, emit_event,
}
use w1_nexus.Orchestrator.Accept.{TaskStep, accept_task_response}
use w1_nexus.Orchestrator.Recover.{
  Work, Progress, intent_of, without, disclosing, unsafe_resume_code, uncertain_code,
  retire_resource, attempt_of, stop_work, recover_task,
}

-- `isinstance(max_calls, int) and count >= max_calls`
abbrev pub over_budget : Option ℕ → ℕ → Bool
over_budget none started = false
over_budget (some n) started = leb n started

-- The status of a task that routing finds no resource for.
abbrev waiting_status : Action → Status
waiting_status await_reset = awaiting_reset
waiting_status await_user = awaiting_user
waiting_status cancelled = Status.cancelled
waiting_status _ = blocked

abbrev first_error : List String → String
first_error [] = "orchestrator_resource_unavailable"
first_error (e ∷ errors) = e

-- `resolved_context.setdefault(field, value)` for every value of the memory.
abbrev set_defaults : List (String × String) → List (String × String) → List (String × String)
set_defaults context [] = context
set_defaults context ((k, v) ∷ values) =
    set_defaults (if any (λ p. p.0 == k) context then context else context ++ (k, v) ∷ []) values

abbrev missing_fields : List String → List (String × String) → List String
missing_fields fields context = select (λ f. not (any (λ p. p.0 == f) context)) fields

abbrev granted : List String → List (String × String) → List (String × String)
granted [] context = []
granted (f ∷ fields) context = elim (lookup f context) [
  | none ↦ granted fields context
  | some v ↦ (f, v) ∷ granted fields context
]

abbrev missing_code : List String → List String → String
missing_code missing conflicts =
    if any (λ f. elem f conflicts) missing
    then "orchestrator_memory_conflict"
    else "orchestrator_required_context_missing"

-- The errors that use up an attempt: the resource is given up once the attempts are.
abbrev pub give_up_after : ℕ → String → Progress → Progress
give_up_after limit resource_id p = if leb limit p.attempts then without p resource_id else p

-- A transient error: a rate limit gives the resource up at once and is disclosed.
abbrev pub after_transient : Work → String → String → Option ℕ → Progress → Progress
after_transient w resource_id code retry_after p =
    if code == "provider_rate_limited"
    then disclosing (without p resource_id)
        (rate_limit_disclosed w.task.task_id resource_id retry_after)
    else give_up_after w.inputs.max_attempts_per_resource resource_id p

abbrev pub Outputs : Type 0
Outputs = List (String × TaskOutput)

module _ (env : Environment) where
  open env use {World}

  -- _idempotency_key
  abbrev pub idempotency_key : Work → String → ℕ → String
  idempotency_key w resource_id attempts =
      env.compute_state_hash ("w1-cip" ∷ w.inputs.run_id ∷ w.task.task_id ∷ resource_id ∷ [])
        attempts

  -- The exceptions of `provider.invoke(request)`, and the acceptance of a response.
  abbrev pub after_invoke :
      Work
      → ProviderRequest
      → ResourceRoutingResult
      → Bool
      → Progress
      → (Progress → M World TaskStep)
      → Outcome
      → M World TaskStep
  after_invoke w request routing idempotent p again (returned response) = do
    _ ← write (complete_call request.idempotency_key response)
    accept_task_response env (attempt_of env w request routing p) response
  after_invoke w request routing idempotent p again (quota_exhausted reset_at) = do
    p ← retire_resource env w request reset_at p
    _ ←
        emit_event env
          (resource_quota_exhausted (quota_disclosed w.task.task_id request.resource_id reset_at))
    again p
  after_invoke w request routing idempotent p again outcome_uncertain = do
    _ ← write (fail_call request.idempotency_key uncertain_code true)
    if idempotent
        then again (give_up_after w.inputs.max_attempts_per_resource request.resource_id p)
        else stop_work env w p awaiting_reconciliation (some request.resource_id) unsafe_resume_code
  after_invoke w request routing idempotent p again (transient_error code retry_after) = do
    _ ← write (fail_call request.idempotency_key code false)
    again (after_transient w request.resource_id code retry_after p)
  after_invoke w request routing idempotent p again (permanent_error code) = do
    _ ← write (fail_call request.idempotency_key code false)
    again (without p request.resource_id)
  after_invoke w request routing idempotent p again (other_exception code) =
      raise (OrchestratorError.external_error code)

  -- start_call, and the provider.
  abbrev pub invoke_started :
      Work
      → ProviderRequest
      → ResourceRoutingResult
      → Bool
      → Progress
      → (Progress → M World TaskStep)
      → M World TaskStep
  invoke_started w request routing idempotent p again = do
    _ ← write (start_call (env.call_id_of request.idempotency_key) request)
    outcome ← outside (env.invoke request.resource_id request)
    after_invoke w request routing idempotent p again outcome

  abbrev pub accept_existing :
      Work
      → ProviderRequest
      → ResourceRoutingResult
      → Progress
      → Option ProviderResponse
      → M World TaskStep
  accept_existing w request routing p none = raise type_error
  accept_existing w request routing p (some response) =
      accept_task_response env (attempt_of env w request routing p) response

  abbrev pub refuse_resume : Work → M World TaskStep
  refuse_resume w = do
    _ ←
        write
          (set_run_status w.inputs.run_id awaiting_reconciliation (some unsafe_resume_code) none)
    raise unsafe_resume

  -- By the status of a call that is on record under the key.
  abbrev pub invoke_by_status :
      Work
      → ProviderRequest
      → ResourceRoutingResult
      → Bool
      → Progress
      → (Progress → M World TaskStep)
      → Option ProviderResponse
      → CallStatus
      → M World TaskStep
  invoke_by_status w request routing idempotent p again response call_completed =
      accept_existing w request routing p response
  invoke_by_status w request routing idempotent p again response call_failed =
      invoke_started w request routing idempotent p again
  invoke_by_status w request routing idempotent p again response _ =
      if idempotent then invoke_started w request routing idempotent p again else refuse_resume w

  abbrev pub invoke_or_reuse :
      Work
      → ProviderRequest
      → ResourceRoutingResult
      → Bool
      → Progress
      → (Progress → M World TaskStep)
      → Option CallRow
      → M World TaskStep
  invoke_or_reuse w request routing idempotent p again none =
      invoke_started w request routing idempotent p again
  invoke_or_reuse w request routing idempotent p again (some call) =
      invoke_by_status w request routing idempotent p again call.response call.status

  -- With the context granted: one more attempt.
  unfoldable pub attempt_task :
      Work
      → Outputs
      → ResourceRoutingResult
      → String
      → Bool
      → List (String × String)
      → List (String × String)
      → Progress
      → (Progress → M World TaskStep)
      → M World TaskStep
  attempt_task w outputs routing resource_id idempotent context citations p again =
      let attempts = suc p.attempts in
      let key = idempotency_key w resource_id attempts in
      let p = record p { attempts = attempts } in
      let request : ProviderRequest = record {
        run_id = w.inputs.run_id;
        session_id = w.inputs.session_id;
        task = w.task;
        resource_id = resource_id;
        idempotency_key = key;
        context = context;
        prior_outputs = outputs;
        attempt = attempts;
      } in
      do
        _ ← write (
            update_task w.inputs.run_id w.task.task_id record {
              status = running;
              attempts = some attempts;
              resource_id = some resource_id;
              output = none;
              error_code = none;
              requires_extra_review = none;
            })
        _ ← emit_event env (task_started w.task attempts resource_id)
        _ ←
            emit_event env (
              context_granted w.task.task_id attempts resource_id (map (λ c. c.0) context)
                citations)
        existing ← read (call_by_key key)
        invoke_or_reuse w request routing idempotent p again existing

  abbrev pub given : Answer MemoryResolution → M World MemoryResolution
  given (answer resolution) = pure resolution
  given (raised_outside code) = raise (OrchestratorError.external_error code)

  -- resolve_fields; no memory context provider resolves to nothing.
  abbrev pub resolve :
      Work
      → Option (CompiledTask → List (String × String) → World → Answer MemoryResolution × World)
      → M World MemoryResolution
  resolve w none = pure record { values = []; citations = []; conflict_fields = [] }
  resolve w (some resolve_fields) = do
    resolution ← outside (resolve_fields w.task w.inputs.context)
    given resolution

  abbrev pub grant_or_stop :
      Work
      → Outputs
      → ResourceRoutingResult
      → String
      → Bool
      → List (String × String)
      → MemoryResolution
      → Progress
      → (Progress → M World TaskStep)
      → List String
      → M World TaskStep
  grant_or_stop w outputs routing resource_id idempotent resolved memory p again (f ∷ missing) =
      stop_work env w p awaiting_user (some resource_id)
        (missing_code (f ∷ missing) memory.conflict_fields)
  grant_or_stop w outputs routing resource_id idempotent resolved memory p again [] =
      attempt_task w outputs routing resource_id idempotent
        (granted w.task.required_context_fields resolved) memory.citations p again

  abbrev pub with_provider :
      Work
      → Outputs
      → ResourceRoutingResult
      → String
      → Progress
      → (Progress → M World TaskStep)
      → Option Bool
      → M World TaskStep
  with_provider w outputs routing resource_id p again none =
      let p = without p resource_id in
      if leb (length p.resource_plan.resources) (length p.unavailable)
      then stop_work env w p blocked (some resource_id) "orchestrator_provider_adapter_missing"
      else again p
  with_provider w outputs routing resource_id p again (some idempotent) = do
    memory ← resolve w env.memory
    let resolved = set_defaults w.inputs.context memory.values
    grant_or_stop w outputs routing resource_id idempotent resolved memory p again
        (missing_fields w.task.required_context_fields resolved)

  abbrev pub with_resource :
      Work
      → Outputs
      → ResourceRoutingResult
      → Progress
      → (Progress → M World TaskStep)
      → Option String
      → M World TaskStep
  with_resource w outputs routing p again none =
      stop_work env w p (waiting_status routing.action) none (first_error routing.error_codes)
  with_resource w outputs routing p again (some resource_id) =
      with_provider w outputs routing resource_id p again (env.provider resource_id)

  abbrev pub with_routing :
      Work
      → Outputs
      → Progress
      → (Progress → M World TaskStep)
      → Option ResourceRoutingResult
      → M World TaskStep
  with_routing w outputs p again none = raise stop_iteration
  with_routing w outputs p again (some routing) =
      with_resource w outputs routing p again routing.selected_resource_id

  -- One pass of the loop; `again` is `continue`.
  unfoldable pub task_pass :
      Work → Outputs → (Progress → M World TaskStep) → Progress → M World TaskStep
  unfolding attempt_task
  task_pass w outputs again p = do
    started ← read (count_started_calls w.inputs.run_id)
    if over_budget w.inputs.max_model_calls started
        then stop_work env w p blocked none "orchestrator_model_call_budget_exhausted"
        else with_routing w outputs p again (
            route_execution_resource (plan_with_unavailable_resources p.resource_plan p.unavailable)
              (intent_of w))

  unfoldable pub task_loop : ℕ → Work → Outputs → Progress → M World TaskStep
  unfolding task_pass
  task_loop zero w outputs p = exhausted
  task_loop (suc n) w outputs p = task_pass w outputs (task_loop n w outputs) p

  -- The outputs of the completed rows.
  abbrev pub prior_outputs : List TaskRow → Outputs
  prior_outputs [] = []
  prior_outputs (r ∷ rows) =
      if is_completed r.status
      then elim r.output [
        | none ↦ prior_outputs rows
        | some o ↦ (r.task_id, o) ∷ prior_outputs rows
      ]
      else prior_outputs rows

  -- _execute_task
  unfoldable pub execute_task : ℕ → Work → Plan → List TaskRow → TaskRow → M World TaskStep
  unfolding task_loop
  execute_task fuel w plan rows row =
      recover_task env w row.status
        record { resource_plan = plan; attempts = row.attempts; unavailable = []; disclosures = [] }
        (task_loop fuel w (prior_outputs rows))
