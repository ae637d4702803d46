-- ===== src/Orchestrator/Budget/Calls.antt =====
-- The calls that one pass of the loop of OrchestratorCore._execute_task, in
-- src/w1cip/orchestrator.py, starts.
use w1_nexus.Prelude.{ℕ, suc, ◌≤◌, refl, String, Bool, Option, none, some, List, [], ◌∷◌, arith}
use w1_nexus.Resources.Route.{ResourceRoutingResult}
use w1_nexus.Orchestrator.Types.{
  Status, ProviderRequest, ProviderResponse, Outcome, returned, quota_exhausted, outcome_uncertain,
  transient_error, permanent_error, other_exception,
}
use w1_nexus.Orchestrator.Journal.{
  CallRow, CallStatus, call_pending, call_completed, call_failed, call_uncertain,
  count_started_calls, set_run_status,
}
use w1_nexus.Orchestrator.Effects.{Environment, M, MemoryResolution}
use w1_nexus.Orchestrator.Accept.{TaskStep}
use w1_nexus.Orchestrator.Recover.{Work, Progress, without, stop_work}
use w1_nexus.Orchestrator.Execute.{
  Outputs, after_invoke, invoke_started, accept_existing, refuse_resume, invoke_by_status,
  invoke_or_reuse, attempt_task, grant_or_stop, with_provider, with_resource, with_routing,
}
use w1_nexus.Orchestrator.Budget.Rules.{
  Within, Within-Steps, count-complete_call, count-start_call, raise-Within, read-Within,
  outside-Within, write-Within, start-Within, bind-Within, weaken-Within, then-Within, if-Within,
  update_task-Within, emit_event-Within,
}
use w1_nexus.Orchestrator.Steps.Steady.{
  accept_task_response_step, resolve_step, retire_resource_step, stop_work_step,
}

module _ (run_id : String) (env : Environment) (n : ℕ) where
  open env use {World}

  -- A pass of the loop, before and after the call is started.
  module _ (w : Work) (outputs : Outputs) (again : Progress → M World TaskStep)
      (h : (p : Progress) → Within run_id n n (again p)) where
    after_invoke-Within :
        (request : ProviderRequest) (routing : ResourceRoutingResult) (idempotent : Bool)
        (p : Progress) (o : Outcome)
        → Within run_id n n (after_invoke env w request routing idempotent p again o)
    after_invoke-Within request routing idempotent p (returned response) =
        then-Within run_id (write-Within run_id _ (count-complete_call run_id _ response))
          (λ _. accept_task_response_step env (Within-Steps run_id n) _ response)
    after_invoke-Within request routing idempotent p (quota_exhausted reset_at) =
        then-Within run_id (retire_resource_step env (Within-Steps run_id n) w request reset_at p)
          (λ q. then-Within run_id (emit_event-Within run_id env _) (λ _. h q))
    after_invoke-Within request routing idempotent p outcome_uncertain =
        then-Within run_id ((Within-Steps run_id n).fail_step _ _ _) (λ _.
          if-Within run_id idempotent (h _) (stop_work_step env (Within-Steps run_id n) w p _ _ _))
    after_invoke-Within request routing idempotent p (transient_error code retry_after) =
        then-Within run_id ((Within-Steps run_id n).fail_step _ _ _) (λ _. h _)
    after_invoke-Within request routing idempotent p (permanent_error code) =
        then-Within run_id ((Within-Steps run_id n).fail_step _ _ _) (λ _. h _)
    after_invoke-Within request routing idempotent p (other_exception code) =
        (Within-Steps run_id n).raise_step _

    module _ (c : ℕ) (room : suc c ≤ n) where
      invoke_started-Within :
          (request : ProviderRequest) (routing : ResourceRoutingResult) (idempotent : Bool)
          (p : Progress)
          → Within run_id c n (invoke_started env w request routing idempotent p again)
      invoke_started-Within request routing idempotent p =
          bind-Within run_id (omega arith)
            (start-Within run_id _ (count-start_call run_id _ request) room)
            (λ _.
              then-Within run_id (outside-Within run_id _)
                (after_invoke-Within request routing idempotent p))

      accept_existing-Within :
          (request : ProviderRequest) (routing : ResourceRoutingResult) (p : Progress)
          (o : Option ProviderResponse)
          → Within run_id n n (accept_existing env w request routing p o)
      accept_existing-Within request routing p none = raise-Within run_id _
      accept_existing-Within request routing p (some response) =
          accept_task_response_step env (Within-Steps run_id n) _ response

      refuse_resume-Within : Within run_id n n (refuse_resume env w)
      unfolding count_started_calls set_run_status
      refuse_resume-Within =
          then-Within run_id (write-Within run_id _ (λ j. refl)) (λ _. raise-Within run_id _)

      invoke_by_status-Within :
          (request : ProviderRequest) (routing : ResourceRoutingResult) (idempotent : Bool)
          (p : Progress) (o : Option ProviderResponse) (status : CallStatus)
          → Within run_id c n (invoke_by_status env w request routing idempotent p again o status)
      invoke_by_status-Within request routing b p o call_completed =
          weaken-Within run_id (omega (arith, room)) (accept_existing-Within request routing p o)
      invoke_by_status-Within request routing b p o call_failed =
          invoke_started-Within request routing b p
      invoke_by_status-Within request routing b p o call_pending =
          if-Within run_id b (invoke_started-Within request routing b p)
            (weaken-Within run_id (omega (arith, room)) refuse_resume-Within)
      invoke_by_status-Within request routing b p o call_uncertain =
          if-Within run_id b (invoke_started-Within request routing b p)
            (weaken-Within run_id (omega (arith, room)) refuse_resume-Within)

      invoke_or_reuse-Within :
          (request : ProviderRequest) (routing : ResourceRoutingResult) (idempotent : Bool)
          (p : Progress) (o : Option CallRow)
          → Within run_id c n (invoke_or_reuse env w request routing idempotent p again o)
      invoke_or_reuse-Within request routing b p none = invoke_started-Within request routing b p
      invoke_or_reuse-Within request routing b p (some call) =
          invoke_by_status-Within request routing b p call.response call.status

      attempt_task-Within :
          (routing : ResourceRoutingResult) (k : String) (idempotent : Bool)
          (context citations : List (String × String)) (p : Progress)
          → Within run_id c n
              (attempt_task env w outputs routing k idempotent context citations p again)
      unfolding attempt_task
      attempt_task-Within routing k b context citations p =
          let le : c ≤ n = omega (arith, room) in
          bind-Within run_id le (update_task-Within run_id _ _ _) (λ _.
            bind-Within run_id le (emit_event-Within run_id env _) (λ _.
              bind-Within run_id le (emit_event-Within run_id env _) (λ _.
                bind-Within run_id le (read-Within run_id _)
                  (invoke_or_reuse-Within _ routing b _))))

      stopped :
          (p : Progress) (status : Status) (o : Option String) (code : String)
          → Within run_id c n (stop_work env w p status o code)
      stopped p status o code =
          weaken-Within run_id (omega (arith, room))
            (stop_work_step env (Within-Steps run_id n) w p status o code)

      grant_or_stop-Within :
          (routing : ResourceRoutingResult) (k : String) (idempotent : Bool)
          (resolved : List (String × String)) (memory : MemoryResolution) (p : Progress)
          (missing : List String)
          → Within run_id c n
              (grant_or_stop env w outputs routing k idempotent resolved memory p again missing)
      grant_or_stop-Within routing k b resolved memory p (f ∷ missing) = stopped p _ _ _
      grant_or_stop-Within routing k b resolved memory p [] = attempt_task-Within routing k b _ _ p

      with_provider-Within :
          (routing : ResourceRoutingResult) (k : String) (p : Progress) (o : Option Bool)
          → Within run_id c n (with_provider env w outputs routing k p again o)
      with_provider-Within routing k p none =
          if-Within run_id _ (stopped (without p k) _ _ _)
            (weaken-Within run_id (omega (arith, room)) (h (without p k)))
      with_provider-Within routing k p (some b) =
          bind-Within run_id (omega (arith, room))
            (resolve_step env (Within-Steps run_id c) w env.memory)
            (λ memory. grant_or_stop-Within routing k b _ memory p _)

      with_resource-Within :
          (routing : ResourceRoutingResult) (p : Progress) (o : Option String)
          → Within run_id c n (with_resource env w outputs routing p again o)
      with_resource-Within routing p none = stopped p _ _ _
      with_resource-Within routing p (some k) = with_provider-Within routing k p _

      pub with_routing-Within :
          (p : Progress) (o : Option ResourceRoutingResult)
          → Within run_id c n (with_routing env w outputs p again o)
      with_routing-Within p none =
          weaken-Within run_id (omega (arith, room)) (raise-Within run_id _)
      with_routing-Within p (some routing) = with_resource-Within routing p _
