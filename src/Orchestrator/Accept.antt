-- ===== src/Orchestrator/Accept.antt =====
-- _validate_response and OrchestratorCore._accept_task_response of src/w1cip/orchestrator.py: what
-- happens to a response once its call is recorded as completed.
use w1_nexus.Prelude.{
  ℕ, String, false, not, Option, none, some, List, [], ◌∷◌, ◌++◌, map, ◌==◌, is_subset,
  if◌then◌else◌, ltb_ℤ, pos,
}
use w1_nexus.Resources.Plan.{Plan}
use w1_nexus.Resources.Route.{ResourceRoutingResult}
use w1_nexus.Resources.Edits.{consume_resource_units}
use w1_nexus.Orchestrator.Types.{
  CompiledTask, Status, completed, failed, blocked, awaiting_user, ActionRequest, ActionResult,
  TaskOutput, payload, payload_with_actions, pending_action, action_results, ProviderRequest,
  ProviderResponse, TaskRunResult, Disclosure, fallback_disclosed, RunInputs,
  action_approval_required, action_completed, response_accepted, task_completed, output_contract,
  external_error,
}
use w1_nexus.Orchestrator.Journal.{
  update_task, save_resource_plan, fail_call, record_quota_observation,
}
use w1_nexus.Orchestrator.Effects.{
  Environment, M, pure, raise, ◌>>=◌, write, outside, append_names, emit_event, ActionOutcome,
  action_done, approval_required, action_raised, Answer, answer, raised_outside,
}

-- _validate_response
unfoldable pub validate_response :
    CompiledTask → List (String × String) → ProviderResponse → Option String
validate_response task granted response =
    if not (response.output_type == task.expected_output_type)
    then some "orchestrator_output_type_mismatch"
    else if ltb_ℤ response.units_consumed (pos 0)
    then some "orchestrator_negative_units_consumed"
    else if not (is_subset response.context_fields_used (map (λ p. p.0) granted))
    then some "orchestrator_undeclared_context_used"
    else none

-- The arguments of _accept_task_response but the response.
pub record Attempt : Type 0 where
  pub inputs : RunInputs
  pub task : CompiledTask
  pub request : ProviderRequest
  pub routing : ResourceRoutingResult
  pub resource_plan : Plan
  pub attempts : ℕ
  pub disclosures : List Disclosure

-- What the execution of a task returns.
abbrev pub TaskStep : Type 0
TaskStep = TaskRunResult × Plan × List Disclosure

abbrev pub stopped_result :
    CompiledTask → Status → Option String → Option TaskOutput → ℕ → String → TaskRunResult
stopped_result task status resource_id output attempts code = record {
  task_id = task.task_id;
  status = status;
  resource_id = resource_id;
  output = output;
  attempts = attempts;
  error_code = some code;
  requires_extra_review = false;
}

-- The update of a task's row and the result that a task which does not complete returns.
unfoldable pub stop_task :
    {W : Type 0}
    → RunInputs
    → CompiledTask
    → Status
    → Option String
    → Option TaskOutput
    → ℕ
    → String
    → M W TaskRunResult
stop_task inputs task status resource_id output attempts code = do
  _ ← write (
      update_task inputs.run_id task.task_id record {
        status = status;
        attempts = some attempts;
        resource_id = resource_id;
        output = output;
        error_code = some code;
        requires_extra_review = none;
      })
  pure (stopped_result task status resource_id output attempts code)

abbrev pub stop_attempt :
    {W : Type 0} → Attempt → Status → Option TaskOutput → String → M W TaskRunResult
stop_attempt a status output code =
    stop_task a.inputs a.task status (some a.request.resource_id) output a.attempts code

-- Where the loop over the action requests ends: in a result, or with all actions completed.
pub data Actions : Type 0 where
  actions_stopped : TaskRunResult → Actions
  actions_done : List ActionResult → Actions

-- `existing.error_code or "orchestrator_action_failed"`
abbrev failure_code : Option String → String
failure_code none = "orchestrator_action_failed"
failure_code (some code) = if code == "" then "orchestrator_action_failed" else code

-- `item.get("requested_by", resource_id)`
abbrev requested_by_or : String → ActionRequest → ActionRequest
requested_by_or resource_id r = record r {
  requested_by = elim r.requested_by [ none ↦ some resource_id | some name ↦ some name ];
}

module _ (env : Environment) where
  open env use {World}

  unfoldable pub after_action :
      Attempt
      → ActionRequest
      → List ActionResult
      → (List ActionResult → M World Actions)
      → ActionOutcome
      → M World Actions
  after_action a r results rest (action_raised code) = raise (external_error code)
  after_action a r results rest (approval_required plan) =
      let output = pending_action r.action_id r.kind plan in
      do
        result ← stop_attempt a awaiting_user (some output) "action_approval_required"
        _ ← emit_event env (action_approval_required a.task.task_id output)
        pure (actions_stopped result)
  after_action a r results rest (action_done existing) =
      let results = results ++ existing ∷ [] in
      if existing.is_done
      then (do _ ← emit_event env (action_completed a.task.task_id r existing); rest results)
      else (do
        result ←
            stop_attempt a failed (some (action_results results)) (failure_code existing.error_code)
        pure (actions_stopped result))

  -- A result that the action runtime has for the action is reused.
  abbrev pub known_or_executed : ActionRequest → Option ActionResult → M World ActionOutcome
  known_or_executed r (some existing) = pure (action_done existing)
  known_or_executed r none = outside (env.execute_action r)

  unfoldable pub process_actions :
      Attempt → List (Option ActionRequest) → List ActionResult → M World Actions
  unfolding after_action
  process_actions a [] results = pure (actions_done results)
  process_actions a (none ∷ rest) results =
      raise (output_contract "provider_action_request_invalid")
  process_actions a (some item ∷ rest) results =
      let r = requested_by_or a.request.resource_id item in
      do
        existing ← outside (λ w. (env.get_result r.action_id w, w))
        outcome ← known_or_executed r existing
        after_action a r results (process_actions a rest) outcome

  abbrev pub append_answer : Answer String → M World (Unit {0})
  append_answer (answer name) = append_names (name ∷ [])
  append_answer (raised_outside code) = raise (external_error code)

  unfoldable pub append_envelopes : String → List (Option String × String) → M World (Unit {0})
  append_envelopes session_id [] = pure tt
  append_envelopes session_id ((none, text) ∷ rest) =
      raise (output_contract "provider_envelope_session_mismatch")
  append_envelopes session_id ((some name, text) ∷ rest) =
      if name == session_id
      then (do
        r ← outside (env.append_envelope text)
        _ ← append_answer r
        append_envelopes session_id rest)
      else raise (output_contract "provider_envelope_session_mismatch")

  abbrev accepted_output : ProviderResponse → List ActionResult → TaskOutput
  accepted_output response [] = payload response.payload
  accepted_output response (r ∷ results) = payload_with_actions response.payload (r ∷ results)

  abbrev pub observe_quota :
      Attempt → Option (Option String × Option String × String) → M World (Unit {0})
  observe_quota a none = pure tt
  observe_quota a (some observation) =
      write
        (record_quota_observation a.inputs.run_id a.task.task_id a.request.resource_id observation)

  abbrev disclose_fallback : Attempt → List Disclosure
  disclose_fallback a =
      if a.routing.used_fallback
      then a.disclosures
        ++ fallback_disclosed a.task.task_id a.request.resource_id a.routing.requires_extra_review
          ∷ []
      else a.disclosures

  -- From the envelopes on: the plan is charged before the task is completed.
  unfoldable pub finish_task : Attempt → ProviderResponse → List ActionResult → M World TaskStep
  unfolding append_envelopes
  finish_task a response results =
      let run_id = a.inputs.run_id in
      let task_id = a.task.task_id in
      let resource_id = a.request.resource_id in
      let extra = a.routing.requires_extra_review in
      let output = accepted_output response results in
      do
        _ ← append_envelopes a.inputs.session_id response.protocol_envelopes
        _ ← observe_quota a response.quota_observation
        now ← outside (λ w. (env.now w, w))
        let plan = consume_resource_units a.resource_plan resource_id response.units_consumed now
        _ ← write (save_resource_plan run_id plan)
        _ ← emit_event env (
            response_accepted task_id a.attempts resource_id response a.routing.used_fallback extra)
        _ ← write (
            update_task run_id task_id record {
              status = completed;
              attempts = some a.attempts;
              resource_id = some resource_id;
              output = some output;
              error_code = none;
              requires_extra_review = some extra;
            })
        _ ← emit_event env (task_completed task_id resource_id response.output_type)
        pure (
          record {
            task_id = task_id;
            status = completed;
            resource_id = some resource_id;
            output = some output;
            attempts = a.attempts;
            error_code = none;
            requires_extra_review = extra;
          },
          plan,
          disclose_fallback a,
        )

  abbrev pub after_actions : Attempt → ProviderResponse → Actions → M World TaskStep
  after_actions a response (actions_stopped result) = pure (result, a.resource_plan, a.disclosures)
  after_actions a response (actions_done results) = finish_task a response results

  abbrev pub run_actions : Attempt → List (Option ActionRequest) → M World Actions
  run_actions a [] = pure (actions_done [])
  run_actions a (item ∷ items) =
      if env.has_action_runtime then process_actions a (item ∷ items) [] else (do
        result ← stop_attempt a blocked none "orchestrator_action_runtime_unavailable"
        pure (actions_stopped result))

  abbrev pub accept_valid : Attempt → ProviderResponse → Option String → M World TaskStep
  accept_valid a response (some code) = do
    _ ← write (fail_call a.request.idempotency_key code false)
    result ← stop_attempt a failed none code
    pure (result, a.resource_plan, a.disclosures)
  accept_valid a response none = do
    actions ← run_actions a response.action_requests
    after_actions a response actions

  -- _accept_task_response
  unfoldable pub accept_task_response : Attempt → ProviderResponse → M World TaskStep
  accept_task_response a response =
      accept_valid a response (validate_response a.task a.request.context response)
