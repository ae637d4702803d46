-- ===== src/Orchestrator/Termination/Loop.antt =====
-- The loop of OrchestratorCore._execute_task in src/w1cip/orchestrator.py ends.
use w1_nexus.Prelude.{
  ℕ, suc, zero, ◌+◌, ◌-◌, ◌≤◌, ◌<◌, ◌≡◌, refl, String, Bool, Option, none, some, List, [], ◌∷◌,
  arith, leb, ◌==◌, Bool-cases, inl, inr,
}
use w1_nexus.Resources.Route.{ResourceRoutingResult, route_execution_resource}
use w1_nexus.Resources.Plan.{Plan}
use w1_nexus.Resources.Edits.{
  ResetText, plan_with_unavailable_resources, mark_resource_quota_exhausted,
}
use w1_nexus.Orchestrator.Types.{
  ProviderRequest, ProviderResponse, Outcome, returned, quota_exhausted, outcome_uncertain,
  transient_error, permanent_error, other_exception,
}
use w1_nexus.Orchestrator.Journal.{
  Journal, CallRow, CallStatus, call_pending, call_completed, call_failed, call_uncertain,
}
use w1_nexus.Orchestrator.Effects.{
  Environment, Exit, done, raised, out_of_fuel, State, MemoryResolution, M, pure, raise, ◌>>=◌,
  continue, read, write, outside, append_names,
}
use w1_nexus.Orchestrator.Accept.{TaskStep}
use w1_nexus.Orchestrator.Recover.{
  settled, save_retired, Work, Progress, intent_of, without, retire_resource,
}
use w1_nexus.Orchestrator.Execute.{
  Outputs, give_up_after, after_transient, after_invoke, invoke_started, accept_existing,
  refuse_resume, invoke_by_status, invoke_or_reuse, attempt_task, grant_or_stop, with_provider,
  with_resource, with_routing, task_pass, task_loop,
}
use w1_nexus.Orchestrator.Steps.{Steps, if_step, emit_step}
use w1_nexus.Orchestrator.Steps.Steady.{accept_task_response_step, resolve_step, stop_work_step}
use w1_nexus.Orchestrator.Termination.Measure.{open_resources, open_resources-mark, selected-open}

abbrev pub IsExit : {A : Type 0} → Exit A → Type 0
IsExit (done x) = Unit
IsExit (raised e) = Unit
IsExit out_of_fuel = ⊥

-- A computation that ends in a value or an error from every state.
pub record Ends {W A : Type 0} (m : M W A) : Type 0 where
  pub at : (s : State W) → IsExit (m s).0

module _ {W : Type 0} where
  continue-Ends :
      {A B : Type 0} (f : A → M W B)
      → ((x : A) → Ends (f x))
      → (r : Exit A) (s : State W) → IsExit r
      → IsExit (continue r f s).0
  continue-Ends f h (done x) s e = (h x).at s
  continue-Ends f h (raised x) s e = tt
  continue-Ends f h out_of_fuel s e = e

  pub bind-Ends :
      {A B : Type 0} {m : M W A} {f : A → M W B} → Ends m → ((x : A) → Ends (f x)) → Ends (m >>= f)
  unfolding ◌>>=◌
  bind-Ends {m = m} {f = f} hm hf = record {
    at = λ s. continue-Ends f hf (m s).0 (m s).1 (hm.at s);
  }

  pub write-Ends : (f : Journal → Journal) → Ends {W = W} (write f)
  unfolding write
  write-Ends f = record { at = λ s. tt }

  pub Ends-Steps : Steps W (λ A m. Ends m)
  unfolding pure raise read outside append_names
  Ends-Steps = record {
    pure_step = λ x. record { at = λ s. tt };
    raise_step = λ e. record { at = λ s. tt };
    read_step = λ f. record { at = λ s. tt };
    outside_step = λ f. record { at = λ s. tt };
    names_step = λ names. record { at = λ s. tt };
    task_step = λ r t u. write-Ends _;
    plan_step = λ r plan. write-Ends _;
    fail_step = λ key code b. write-Ends _;
    complete_step = λ key response. write-Ends _;
    observation_step = λ r t k o. write-Ends _;
    bind_step = λ h k. bind-Ends h k;
  }

-- What a task can still try: the resources it has not given up, and the attempts it has left.
abbrev pub tries_left : Work → Progress → ℕ
tries_left w p =
    open_resources p.resource_plan.resources p.unavailable
    + (w.inputs.max_attempts_per_resource - p.attempts)

module _ (env : Environment) (w : Work) (outputs : Outputs)
    (again : Progress → M env.World TaskStep) (p : Progress)
    (h : (q : Progress) → tries_left w q < tries_left w p → Ends (again q)) where
  open env use {World}

  -- After the resource k is selected, which is open.
  module _ (k : String)
      (fresh : suc (open_resources p.resource_plan.resources (k ∷ p.unavailable))
        ≤ open_resources p.resource_plan.resources p.unavailable) where
    abbrev tried : Progress
    tried = record p { attempts = suc p.attempts }

    given_up-fewer : tries_left w (without tried k) < tries_left w p
    given_up-fewer = omega (arith, fresh)

    give_up-fewer :
        tries_left w (give_up_after w.inputs.max_attempts_per_resource k tried) < tries_left w p
    give_up-fewer = elim (Bool-cases (leb w.inputs.max_attempts_per_resource (suc p.attempts))) [
      | inl e ↦ rw e given_up-fewer
      | inr e ↦ rw e (ground arith)
    ]

    transient-fewer :
        (code : String) (retry_after : Option ℕ)
        → tries_left w (after_transient w k code retry_after tried) < tries_left w p
    transient-fewer code retry_after = elim (Bool-cases (code == "provider_rate_limited")) [
      | inl e ↦ rw e given_up-fewer
      | inr e ↦ rw e give_up-fewer
    ]

  module _ (request : ProviderRequest)
      (fresh : suc (open_resources p.resource_plan.resources (request.resource_id ∷ p.unavailable))
        ≤ open_resources p.resource_plan.resources p.unavailable)
      (routing : ResourceRoutingResult) where
    abbrev next : Progress
    next = record p { attempts = suc p.attempts }

    retired-fewer :
        (reset_at : Option ResetText) (now : ℕ) (plan : Plan)
        → mark_resource_quota_exhausted p.resource_plan request.resource_id reset_at now ≡ some plan
        → open_resources plan.resources (request.resource_id ∷ p.unavailable)
            + (w.inputs.max_attempts_per_resource - suc p.attempts)
          < tries_left w p
    retired-fewer reset_at now plan marks =
        let same =
          open_resources-mark p.resource_plan plan request.resource_id reset_at now
            (request.resource_id ∷ p.unavailable) marks in
        omega (arith, same, fresh)

    settled-Ends :
        (reset_at : Option ResetText) (now : ℕ) (f : Progress → M World TaskStep)
        → ((q : Progress) → tries_left w q < tries_left w p → Ends (f q))
        → (o : Option Plan)
        → mark_resource_quota_exhausted p.resource_plan request.resource_id reset_at now ≡ o
        → Ends ((settled env o >>= save_retired env w request reset_at next) >>= f)
    unfolding ◌>>=◌ write pure raise
    settled-Ends reset_at now f k none e = record { at = λ s. tt }
    settled-Ends reset_at now f k (some plan) e = record {
      at = λ s. (k _ (retired-fewer reset_at now plan e)).at _;
    }

    retire-Ends :
        (reset_at : Option ResetText) (f : Progress → M World TaskStep)
        → ((q : Progress) → tries_left w q < tries_left w p → Ends (f q))
        → Ends (retire_resource env w request reset_at next >>= f)
    unfolding ◌>>=◌ retire_resource write outside pure
    retire-Ends reset_at f k = record {
      at = λ s. (settled-Ends reset_at (env.now s.world) f k _ refl).at _;
    }

    after_invoke-Ends :
        (idempotent : Bool) (o : Outcome)
        → Ends (after_invoke env w request routing idempotent next again o)
    after_invoke-Ends b (returned response) =
        bind-Ends (write-Ends _) (λ _. accept_task_response_step env Ends-Steps _ response)
    after_invoke-Ends b (quota_exhausted reset_at) =
        retire-Ends reset_at _ (λ q less. bind-Ends (emit_step env Ends-Steps _) (λ _. h q less))
    after_invoke-Ends b outcome_uncertain = bind-Ends (write-Ends _) (λ _.
        if_step env Ends-Steps b (h _ (give_up-fewer request.resource_id fresh))
          (stop_work_step env Ends-Steps w next _ _ _))
    after_invoke-Ends b (transient_error code retry_after) =
        bind-Ends (write-Ends _)
          (λ _. h _ (transient-fewer request.resource_id fresh code retry_after))
    after_invoke-Ends b (permanent_error code) =
        bind-Ends (write-Ends _) (λ _. h _ (given_up-fewer request.resource_id fresh))
    after_invoke-Ends b (other_exception code) = Ends-Steps.raise_step _

    invoke_started-Ends :
        (idempotent : Bool) → Ends (invoke_started env w request routing idempotent next again)
    invoke_started-Ends b =
        bind-Ends (write-Ends _) (λ _. bind-Ends (Ends-Steps.outside_step _) (after_invoke-Ends b))

    accept_existing-Ends :
        (o : Option ProviderResponse) → Ends (accept_existing env w request routing next o)
    accept_existing-Ends none = Ends-Steps.raise_step _
    accept_existing-Ends (some response) = accept_task_response_step env Ends-Steps _ response

    refuse_resume-Ends : Ends (refuse_resume env w)
    refuse_resume-Ends = bind-Ends (write-Ends _) (λ _. Ends-Steps.raise_step _)

    invoke_by_status-Ends :
        (idempotent : Bool) (o : Option ProviderResponse) (status : CallStatus)
        → Ends (invoke_by_status env w request routing idempotent next again o status)
    invoke_by_status-Ends b o call_completed = accept_existing-Ends o
    invoke_by_status-Ends b o call_failed = invoke_started-Ends b
    invoke_by_status-Ends b o call_pending =
        if_step env Ends-Steps b (invoke_started-Ends b) refuse_resume-Ends
    invoke_by_status-Ends b o call_uncertain =
        if_step env Ends-Steps b (invoke_started-Ends b) refuse_resume-Ends

    invoke_or_reuse-Ends :
        (idempotent : Bool) (o : Option CallRow)
        → Ends (invoke_or_reuse env w request routing idempotent next again o)
    invoke_or_reuse-Ends b none = invoke_started-Ends b
    invoke_or_reuse-Ends b (some call) = invoke_by_status-Ends b call.response call.status

  module _ (k : String)
      (fresh : suc (open_resources p.resource_plan.resources (k ∷ p.unavailable))
        ≤ open_resources p.resource_plan.resources p.unavailable)
      (routing : ResourceRoutingResult) where
    attempt_task-Ends :
        (idempotent : Bool) (context citations : List (String × String))
        → Ends (attempt_task env w outputs routing k idempotent context citations p again)
    unfolding attempt_task
    attempt_task-Ends b context citations = bind-Ends (Ends-Steps.task_step _ _ _) (λ _.
        bind-Ends (emit_step env Ends-Steps _) (λ _.
          bind-Ends (emit_step env Ends-Steps _)
            (λ _. bind-Ends (Ends-Steps.read_step _) (invoke_or_reuse-Ends _ fresh routing b))))

    grant_or_stop-Ends :
        (idempotent : Bool) (resolved : List (String × String)) (memory : MemoryResolution)
        (missing : List String)
        → Ends (grant_or_stop env w outputs routing k idempotent resolved memory p again missing)
    grant_or_stop-Ends b resolved memory (f ∷ missing) = stop_work_step env Ends-Steps w p _ _ _
    grant_or_stop-Ends b resolved memory [] = attempt_task-Ends b _ _

    with_provider-Ends : (o : Option Bool) → Ends (with_provider env w outputs routing k p again o)
    with_provider-Ends none =
        if_step env Ends-Steps _ (stop_work_step env Ends-Steps w (without p k) _ _ _)
          (h (without p k) (omega (arith, fresh)))
    with_provider-Ends (some b) =
        bind-Ends (resolve_step env Ends-Steps w env.memory)
          (λ memory. grant_or_stop-Ends b _ memory _)

  with_resource-Ends :
      (routing : ResourceRoutingResult)
      → route_execution_resource
          (plan_with_unavailable_resources p.resource_plan p.unavailable)
          (intent_of w)
        ≡ some routing
      → (o : Option String) → routing.selected_resource_id ≡ o
      → Ends (with_resource env w outputs routing p again o)
  with_resource-Ends routing e none g = stop_work_step env Ends-Steps w p _ _ _
  with_resource-Ends routing e (some k) g =
      with_provider-Ends k (selected-open p.resource_plan p.unavailable (intent_of w) routing k e g)
        routing _

  with_routing-Ends :
      (o : Option ResourceRoutingResult)
      → route_execution_resource
          (plan_with_unavailable_resources p.resource_plan p.unavailable)
          (intent_of w)
        ≡ o
      → Ends (with_routing env w outputs p again o)
  with_routing-Ends none e = Ends-Steps.raise_step _
  with_routing-Ends (some routing) e = with_resource-Ends routing e _ refl

  task_pass-Ends : Ends (task_pass env w outputs again p)
  unfolding task_pass
  task_pass-Ends = bind-Ends (Ends-Steps.read_step _) (λ started.
      if_step env Ends-Steps _ (stop_work_step env Ends-Steps w p _ _ _) (with_routing-Ends _ refl))

pub task_loop-Ends :
    (env : Environment) (w : Work) (outputs : Outputs) (fuel : ℕ) (p : Progress)
    → tries_left w p < fuel
    → Ends (task_loop env fuel w outputs p)
unfolding task_loop
task_loop-Ends env w outputs zero p h = absurd (omega (arith, h))
task_loop-Ends env w outputs (suc fuel) p h =
    task_pass-Ends env w outputs (task_loop env fuel w outputs) p
      (λ q less. task_loop-Ends env w outputs fuel q (omega (arith, h, less)))
