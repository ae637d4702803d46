-- ===== src/Orchestrator/Termination/Recovery.antt =====
-- OrchestratorCore._execute_task of src/w1cip/orchestrator.py ends, the recovery of a persisted call
-- included.
use w1_nexus.Prelude.{
  ◌≡◌, refl, some, ℕ, suc, zero, max, ◌+◌, ◌-◌, ◌≤◌, ◌<◌, ◌≢◌, subst, String, Bool, Option, none,
  List, [], ◌∷◌, arith, length, ◌==◌, Bool-cases, inl, inr,
}
use w1_nexus.Resources.Plan.{Plan, Plan}
use w1_nexus.Resources.Route.{ResourceRoutingResult}
use w1_nexus.Resources.Edits.{ResetText, mark_resource_quota_exhausted}
use w1_nexus.Orchestrator.Types.{
  Status, is_open, ProviderRequest, ProviderResponse, Outcome, returned, quota_exhausted,
  outcome_uncertain, transient_error, permanent_error, other_exception,
}
use w1_nexus.Orchestrator.Journal.{
  TaskRow, CallRow, CallStatus, call_pending, call_completed, call_failed, call_uncertain,
}
use w1_nexus.Orchestrator.Effects.{
  raise, Environment, Exit, done, raised, out_of_fuel, State, M, pure, ◌>>=◌, continue, write,
  outside,
}
use w1_nexus.Orchestrator.Accept.{TaskStep}
use w1_nexus.Orchestrator.Recover.{
  settled, save_retired, Work, Progress, without, rate_limited, retire_resource, recovered,
  invoke_again, after_invocations, recover_unfinished, accept_recorded, recover_routed,
  recover_call, recover_task,
}
use w1_nexus.Orchestrator.Execute.{task_loop, execute_task, prior_outputs}
use w1_nexus.Orchestrator.Steps.{if_step}
use w1_nexus.Orchestrator.Steps.Steady.{accept_task_response_step, stop_work_step}
use w1_nexus.Orchestrator.Termination.Measure.{
  open_resources, open_resources-without_le, open_resources-mark, open_resources_le_length,
}
use w1_nexus.Orchestrator.Termination.Loop.{
  IsExit, Ends, bind-Ends, write-Ends, Ends-Steps, tries_left, task_loop-Ends,
}

-- An exit whose value, if it has one, has a property.
abbrev ExitsIn : {A : Type 0} → (A → Type 0) → Exit A → Type 0
ExitsIn P (done x) = P x
ExitsIn P (raised e) = Unit
ExitsIn P out_of_fuel = ⊥

record EndsIn {W A : Type 0} (P : A → Type 0) (m : M W A) : Type 0 where
  at : (s : State W) → ExitsIn P (m s).0

module _ {W : Type 0} where
  continue-EndsIn :
      {A B : Type 0} (P : A → Type 0) (f : A → M W B)
      → ((x : A) → P x → Ends (f x))
      → (r : Exit A) (s : State W) → ExitsIn P r
      → IsExit (continue r f s).0
  continue-EndsIn P f h (done x) s e = (h x e).at s
  continue-EndsIn P f h (raised x) s e = tt
  continue-EndsIn P f h out_of_fuel s e = e

  bind-EndsIn :
      {A B : Type 0} {m : M W A} {f : A → M W B} (P : A → Type 0)
      → EndsIn P m
      → ((x : A) → P x → Ends (f x))
      → Ends (m >>= f)
  unfolding ◌>>=◌
  bind-EndsIn {m = m} {f = f} P hm hf = record {
    at = λ s. continue-EndsIn P f hf (m s).0 (m s).1 (hm.at s);
  }

module _ (env : Environment) (w : Work) (bound : ℕ) where
  open env use {World}

  abbrev Bounded : Option ProviderResponse × Progress → Type 0
  Bounded (o, q) = tries_left w q ≤ bound

  without-Bounded :
      (p : Progress) (k : String) → tries_left w p ≤ bound → tries_left w (without p k) ≤ bound
  without-Bounded p k h =
      omega (arith, h, open_resources-without_le k p.unavailable p.resource_plan.resources)

  rate_limited-Bounded :
      (p : Progress) (t k code : String) (o : Option ℕ)
      → tries_left w p ≤ bound
      → tries_left w (rate_limited (without p k) t k code o) ≤ bound
  rate_limited-Bounded p t k code o h = elim (Bool-cases (code == "provider_rate_limited")) [
    | inl e ↦ rw e (without-Bounded p k h)
    | inr e ↦ rw e (without-Bounded p k h)
  ]

  retired-Bounded :
      (p : Progress) (k : String) (reset_at : Option ResetText) (now : ℕ) (plan : Plan)
      → mark_resource_quota_exhausted p.resource_plan k reset_at now ≡ some plan
      → tries_left w p ≤ bound
      → open_resources plan.resources (k ∷ p.unavailable)
          + (w.inputs.max_attempts_per_resource - p.attempts)
        ≤ bound
  retired-Bounded p k reset_at now plan marks h =
      let same =
        open_resources-mark p.resource_plan plan k reset_at now (k ∷ p.unavailable) marks in
      omega (arith, same, without-Bounded p k h)

  module _ (request : ProviderRequest) where
    settled-EndsIn :
        (p : Progress) (reset_at : Option ResetText) (now : ℕ)
        → tries_left w p ≤ bound
        → (o : Option Plan)
        → mark_resource_quota_exhausted p.resource_plan request.resource_id reset_at now ≡ o
        → EndsIn Bounded
            ((settled env o >>= save_retired env w request reset_at p) >>= λ q. pure (none, q))
    unfolding ◌>>=◌ write pure raise
    settled-EndsIn p reset_at now h none e = record { at = λ s. tt }
    settled-EndsIn p reset_at now h (some plan) e = record {
      at = λ s. retired-Bounded p request.resource_id reset_at now plan e h;
    }

    recovered-EndsIn :
        (p : Progress)
        → tries_left w p ≤ bound
        → (again : M World (Option ProviderResponse × Progress)) → EndsIn Bounded again
        → (o : Outcome) → EndsIn Bounded (recovered env w request p again o)
    unfolding ◌>>=◌ retire_resource write outside pure raise
    recovered-EndsIn p h again a (returned response) = record { at = λ s. h }
    recovered-EndsIn p h again a outcome_uncertain = record { at = λ s. a.at _ }
    recovered-EndsIn p h again a (quota_exhausted reset_at) = record {
      at = λ s. (settled-EndsIn p reset_at (env.now s.world) h _ refl).at _;
    }
    recovered-EndsIn p h again a (transient_error code o) = record {
      at = λ s. rate_limited-Bounded p w.task.task_id request.resource_id code o h;
    }
    recovered-EndsIn p h again a (permanent_error code) = record {
      at = λ s. rate_limited-Bounded p w.task.task_id request.resource_id code none h;
    }
    recovered-EndsIn p h again a (other_exception code) = record { at = λ s. tt }

    invoke_again-EndsIn :
        (p : Progress) (n : ℕ)
        → tries_left w p ≤ bound
        → EndsIn Bounded (invoke_again env w request p n)
    unfolding invoke_again ◌>>=◌ pure outside
    invoke_again-EndsIn p zero h = record { at = λ s. h }
    invoke_again-EndsIn p (suc n) h = record {
      at = λ s. (recovered-EndsIn p h _ (invoke_again-EndsIn p n h) _).at _;
    }

  module _ (loop : Progress → M World TaskStep)
      (ends : (q : Progress) → tries_left w q ≤ bound → Ends (loop q)) where
    after_invocations-Ends :
        (call : CallRow) (routing : ResourceRoutingResult) (x : Option ProviderResponse × Progress)
        → Bounded x
        → Ends (after_invocations env w call routing loop x)
    after_invocations-Ends call routing (some response, q) h =
        bind-Ends (write-Ends _) (λ _. accept_task_response_step env Ends-Steps _ response)
    after_invocations-Ends call routing (none, q) h =
        if_step env Ends-Steps _ (stop_work_step env Ends-Steps w q _ _ _) (ends q h)

    recover_unfinished-Ends :
        (call : CallRow) (routing : ResourceRoutingResult) (p : Progress)
        → tries_left w p ≤ bound
        → Ends (recover_unfinished env w call routing p loop)
    recover_unfinished-Ends call routing p h =
        if_step env Ends-Steps _
          (bind-EndsIn Bounded (invoke_again-EndsIn call.request p _ h)
            (after_invocations-Ends call routing))
          (stop_work_step env Ends-Steps w p _ _ _)

    accept_recorded-Ends :
        (request : ProviderRequest) (routing : ResourceRoutingResult) (p : Progress)
        (o : Option ProviderResponse)
        → Ends (accept_recorded env w request routing p o)
    accept_recorded-Ends request routing p none = Ends-Steps.raise_step _
    accept_recorded-Ends request routing p (some response) =
        accept_task_response_step env Ends-Steps _ response

    recover_routed-Ends :
        (call : CallRow) (p : Progress) (o : Option ResourceRoutingResult) (status : CallStatus)
        → tries_left w p ≤ bound
        → Ends (recover_routed env w call p loop o status)
    recover_routed-Ends call p none status h = Ends-Steps.raise_step _
    recover_routed-Ends call p (some routing) call_completed h =
        accept_recorded-Ends call.request routing p _
    recover_routed-Ends call p (some routing) call_pending h =
        recover_unfinished-Ends call routing p h
    recover_routed-Ends call p (some routing) call_failed h =
        recover_unfinished-Ends call routing p h
    recover_routed-Ends call p (some routing) call_uncertain h =
        recover_unfinished-Ends call routing p h

    recover_call-Ends :
        (open_task : Bool) (p : Progress) (o : Option CallRow)
        → tries_left w p ≤ bound
        → Ends (recover_call env w open_task p loop o)
    recover_call-Ends open_task p none h = ends p h
    recover_call-Ends open_task p (some call) h =
        if_step env Ends-Steps _
          (recover_routed-Ends call (record p { attempts = max p.attempts call.request.attempt }) _
            call.status (omega (arith, h)))
          (ends p h)

    recover_task-Ends :
        (status : Status) (p : Progress)
        → tries_left w p ≤ bound
        → Ends (recover_task env w status p loop)
    unfolding recover_task
    recover_task-Ends status p h =
        bind-Ends (Ends-Steps.read_step _) (λ o. recover_call-Ends (is_open status) p o h)

exit-ne-out_of_fuel : {A : Type 0} (e : Exit A) → IsExit e → e ≢ out_of_fuel
exit-ne-out_of_fuel e h same = subst IsExit same h

-- The execution of a task ends for all providers and environments, in a result or an error: fuel
-- above the number of the plan's resources plus the attempts allowed is never used up, whatever
-- call of the task is on record, and from every state.
pub execute_task_ends :
    (env : Environment) (w : Work) (plan : Plan) (rows : List TaskRow) (row : TaskRow) (fuel : ℕ)
    (s : State env.World)
    → length plan.resources + w.inputs.max_attempts_per_resource < fuel
    → (execute_task env fuel w plan rows row s).0 ≢ out_of_fuel
unfolding execute_task
execute_task_ends env w plan rows row fuel s h =
    let bound = length plan.resources + w.inputs.max_attempts_per_resource in
    exit-ne-out_of_fuel _ (
      (recover_task-Ends env w bound (task_loop env fuel w (prior_outputs env rows))
          (λ q le. task_loop-Ends env w _ fuel q (omega (arith, h, le))) row.status _
          (omega (arith, open_resources_le_length [] plan.resources))).at
        s)
