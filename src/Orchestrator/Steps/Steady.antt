-- ===== src/Orchestrator/Steps/Steady.antt =====
-- The parts of OrchestratorCore of src/w1cip/orchestrator.py that start no provider call: the
-- acceptance of a response, and the recovery of a persisted call.
use w1_nexus.Prelude.{ℕ, suc, zero, String, Bool, Option, none, some, List, [], ◌∷◌, ◌==◌}
use w1_nexus.Resources.Route.{ResourceRoutingResult}
use w1_nexus.Resources.Plan.{Plan}
use w1_nexus.Resources.Edits.{ResetText}
use w1_nexus.Orchestrator.Types.{
  CompiledTask, Status, is_open, TaskOutput, ActionRequest, ActionResult, ProviderRequest,
  ProviderResponse, Outcome, returned, quota_exhausted, outcome_uncertain, transient_error,
  permanent_error, other_exception, RunInputs,
}
use w1_nexus.Orchestrator.Journal.{
  CallRow, CallStatus, call_pending, call_completed, call_failed, call_uncertain,
}
use w1_nexus.Orchestrator.Effects.{
  MemoryResolution, Environment, M, ActionOutcome, action_done, approval_required, action_raised,
  Answer, answer, raised_outside,
}
use w1_nexus.Orchestrator.Accept.{
  Attempt, TaskStep, stop_task, Actions, actions_stopped, actions_done, after_action,
  known_or_executed, process_actions, append_answer, append_envelopes, observe_quota, finish_task,
  after_actions, run_actions, accept_valid, accept_task_response,
}
use w1_nexus.Orchestrator.Execute.{given, resolve}
use w1_nexus.Orchestrator.Recover.{
  Progress, Work, settled, retire_resource, recovered, invoke_again, stop_work, after_invocations,
  recover_unfinished, accept_recorded, recover_routed, recover_call, recover_task,
}
use w1_nexus.Orchestrator.Steps.{Steps, if_step, emit_step}

module _ (env : Environment) {Q : (A : Type 0) → M env.World A → Type 0}
    (c : Steps env.World Q) where
  open env use {World}

  pub stop_task_step :
      (inputs : RunInputs) (task : CompiledTask) (status : Status) (resource_id : Option String)
      (output : Option TaskOutput) (attempts : ℕ) (code : String)
      → Q _ (stop_task inputs task status resource_id output attempts code)
  unfolding stop_task
  stop_task_step inputs task status resource_id output attempts code =
      c.bind_step (c.task_step _ _ _) (λ _. c.pure_step _)

  after_action_step :
      (a : Attempt) (r : ActionRequest) (results : List ActionResult)
      (rest : List ActionResult → M World Actions)
      → ((rs : List ActionResult) → Q _ (rest rs))
      → (o : ActionOutcome) → Q _ (after_action env a r results rest o)
  unfolding after_action
  after_action_step a r results rest h (action_raised code) = c.raise_step _
  after_action_step a r results rest h (approval_required plan) =
      c.bind_step (stop_task_step _ _ _ _ _ _ _)
        (λ result. c.bind_step (emit_step env c _) (λ _. c.pure_step _))
  after_action_step a r results rest h (action_done existing) =
      if_step env c existing.is_done (c.bind_step (emit_step env c _) (λ _. h _))
        (c.bind_step (stop_task_step _ _ _ _ _ _ _) (λ result. c.pure_step _))

  known_or_executed_step :
      (r : ActionRequest) (o : Option ActionResult) → Q _ (known_or_executed env r o)
  known_or_executed_step r none = c.outside_step _
  known_or_executed_step r (some x) = c.pure_step _

  process_actions_step :
      (a : Attempt) (items : List (Option ActionRequest)) (results : List ActionResult)
      → Q _ (process_actions env a items results)
  unfolding process_actions
  process_actions_step a [] results = c.pure_step _
  process_actions_step a (none ∷ rest) results = c.raise_step _
  process_actions_step a (some item ∷ rest) results = c.bind_step (c.outside_step _) (λ existing.
      c.bind_step (known_or_executed_step _ existing)
        (after_action_step a _ results _ (process_actions_step a rest)))

  append_answer_step : (r : Answer String) → Q _ (append_answer env r)
  append_answer_step (answer name) = c.names_step _
  append_answer_step (raised_outside code) = c.raise_step _

  append_envelopes_step :
      (session_id : String) (envelopes : List (Option String × String))
      → Q _ (append_envelopes env session_id envelopes)
  unfolding append_envelopes
  append_envelopes_step k [] = c.pure_step _
  append_envelopes_step k ((none, text) ∷ rest) = c.raise_step _
  append_envelopes_step k ((some name, text) ∷ rest) =
      if_step env c (name == k)
        (c.bind_step (c.outside_step _)
          (λ r. c.bind_step (append_answer_step r) (λ _. append_envelopes_step k rest)))
        (c.raise_step _)

  observe_quota_step :
      (a : Attempt) (o : Option (Option String × Option String × String))
      → Q _ (observe_quota env a o)
  observe_quota_step a none = c.pure_step _
  observe_quota_step a (some x) = c.observation_step _ _ _ x

  finish_task_step :
      (a : Attempt) (response : ProviderResponse) (results : List ActionResult)
      → Q _ (finish_task env a response results)
  unfolding finish_task
  finish_task_step a response results =
      c.bind_step (append_envelopes_step a.inputs.session_id response.protocol_envelopes) (λ _.
        c.bind_step (observe_quota_step a _) (λ _. c.bind_step (c.outside_step _) (λ now.
          c.bind_step (c.plan_step _ _) (λ _. c.bind_step (emit_step env c _) (λ _.
            c.bind_step (c.task_step _ _ _)
              (λ _. c.bind_step (emit_step env c _) (λ _. c.pure_step _)))))))

  after_actions_step :
      (a : Attempt) (response : ProviderResponse) (x : Actions)
      → Q _ (after_actions env a response x)
  after_actions_step a response (actions_stopped result) = c.pure_step _
  after_actions_step a response (actions_done results) = finish_task_step a response results

  run_actions_step :
      (a : Attempt) (items : List (Option ActionRequest)) → Q _ (run_actions env a items)
  run_actions_step a [] = c.pure_step _
  run_actions_step a (item ∷ items) =
      if_step env c env.has_action_runtime (process_actions_step a (item ∷ items) [])
        (c.bind_step (stop_task_step _ _ _ _ _ _ _) (λ result. c.pure_step _))

  accept_valid_step :
      (a : Attempt) (response : ProviderResponse) (o : Option String)
      → Q _ (accept_valid env a response o)
  accept_valid_step a response (some code) =
      c.bind_step (c.fail_step _ _ _)
        (λ _. c.bind_step (stop_task_step _ _ _ _ _ _ _) (λ result. c.pure_step _))
  accept_valid_step a response none =
      c.bind_step (run_actions_step a _) (after_actions_step a response)

  pub accept_task_response_step :
      (a : Attempt) (response : ProviderResponse) → Q _ (accept_task_response env a response)
  unfolding accept_task_response
  accept_task_response_step a response = accept_valid_step a response _

  given_step : (r : Answer MemoryResolution) → Q _ (given env r)
  given_step (answer resolution) = c.pure_step _
  given_step (raised_outside code) = c.raise_step _

  pub resolve_step :
      (w : Work)
      (o : Option (CompiledTask → List (String × String) → World → Answer MemoryResolution × World))
      → Q _ (resolve env w o)
  resolve_step w none = c.pure_step _
  resolve_step w (some f) = c.bind_step (c.outside_step _) given_step

  settled_step : (o : Option Plan) → Q _ (settled env o)
  settled_step none = c.raise_step _
  settled_step (some plan) = c.pure_step _

  pub retire_resource_step :
      (w : Work) (request : ProviderRequest) (reset_at : Option ResetText) (p : Progress)
      → Q _ (retire_resource env w request reset_at p)
  unfolding retire_resource
  retire_resource_step w request reset_at p = c.bind_step (c.fail_step _ _ _) (λ _.
      c.bind_step (c.outside_step _) (λ now.
        c.bind_step (settled_step _) (λ _. c.bind_step (c.plan_step _ _) (λ _. c.pure_step _))))

  recovered_step :
      (w : Work) (request : ProviderRequest) (p : Progress)
      (again : M World (Option ProviderResponse × Progress))
      → Q _ again
      → (o : Outcome) → Q _ (recovered env w request p again o)
  recovered_step w request p again h (returned response) = c.pure_step _
  recovered_step w request p again h outcome_uncertain = c.bind_step (c.fail_step _ _ _) (λ _. h)
  recovered_step w request p again h (quota_exhausted reset_at) =
      c.bind_step (retire_resource_step w request reset_at p) (λ q. c.pure_step _)
  recovered_step w request p again h (transient_error code retry_after) =
      c.bind_step (c.fail_step _ _ _) (λ _. c.pure_step _)
  recovered_step w request p again h (permanent_error code) =
      c.bind_step (c.fail_step _ _ _) (λ _. c.pure_step _)
  recovered_step w request p again h (other_exception code) = c.raise_step _

  invoke_again_step :
      (w : Work) (request : ProviderRequest) (p : Progress) (k : ℕ)
      → Q _ (invoke_again env w request p k)
  unfolding invoke_again
  invoke_again_step w request p zero = c.pure_step _
  invoke_again_step w request p (suc k) =
      c.bind_step (c.outside_step _)
        (recovered_step w request p _ (invoke_again_step w request p k))

  pub stop_work_step :
      (w : Work) (p : Progress) (status : Status) (resource_id : Option String) (code : String)
      → Q _ (stop_work env w p status resource_id code)
  stop_work_step w p status resource_id code =
      c.bind_step (stop_task_step _ _ _ _ _ _ _) (λ result. c.pure_step _)

  module _ (w : Work) (loop : Progress → M World TaskStep) (h : (p : Progress) → Q _ (loop p)) where
    after_invocations_step :
        (call : CallRow) (routing : ResourceRoutingResult) (r : Option ProviderResponse × Progress)
        → Q _ (after_invocations env w call routing loop r)
    after_invocations_step call routing (some response, p) =
        c.bind_step (c.complete_step _ response) (λ _. accept_task_response_step _ response)
    after_invocations_step call routing (none, p) = if_step env c _ (stop_work_step w p _ _ _) (h p)

    recover_unfinished_step :
        (call : CallRow) (routing : ResourceRoutingResult) (p : Progress)
        → Q _ (recover_unfinished env w call routing p loop)
    recover_unfinished_step call routing p =
        if_step env c _
          (c.bind_step (invoke_again_step w call.request p _) (after_invocations_step call routing))
          (stop_work_step w p _ _ _)

    accept_recorded_step :
        (request : ProviderRequest) (routing : ResourceRoutingResult) (p : Progress)
        (o : Option ProviderResponse)
        → Q _ (accept_recorded env w request routing p o)
    accept_recorded_step request routing p none = c.raise_step _
    accept_recorded_step request routing p (some response) = accept_task_response_step _ response

    recover_routed_step :
        (call : CallRow) (p : Progress) (o : Option ResourceRoutingResult) (status : CallStatus)
        → Q _ (recover_routed env w call p loop o status)
    recover_routed_step call p none status = c.raise_step _
    recover_routed_step call p (some routing) call_completed =
        accept_recorded_step call.request routing p _
    recover_routed_step call p (some routing) call_pending = recover_unfinished_step call routing p
    recover_routed_step call p (some routing) call_failed = recover_unfinished_step call routing p
    recover_routed_step call p (some routing) call_uncertain =
        recover_unfinished_step call routing p

    recover_call_step :
        (open_task : Bool) (p : Progress) (o : Option CallRow)
        → Q _ (recover_call env w open_task p loop o)
    recover_call_step open_task p none = h p
    recover_call_step open_task p (some call) =
        if_step env c _ (recover_routed_step call _ _ call.status) (h p)

    pub recover_task_step :
        (status : Status) (p : Progress) → Q _ (recover_task env w status p loop)
    unfolding recover_task
    recover_task_step status p = c.bind_step (c.read_step _) (recover_call_step (is_open status) p)
