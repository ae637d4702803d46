-- ===== src/Orchestrator/Steps.antt =====
-- What a property of the computations of src/w1cip/orchestrator.py has to satisfy to pass from the
-- single steps to the parts of the core that start no provider call.
pub mod Steady
use w1_nexus.Prelude.{ℕ, String, Bool, true, false, Option, List, if◌then◌else◌}
use w1_nexus.Resources.Plan.{Plan}
use w1_nexus.Orchestrator.Types.{ProviderResponse, OrchestratorError, RuntimeEvent}
use w1_nexus.Orchestrator.Journal.{
  Journal, TaskUpdate, update_task, save_resource_plan, complete_call, fail_call,
  record_quota_observation,
}
use w1_nexus.Orchestrator.Effects.{
  Environment, M, pure, raise, ◌>>=◌, read, write, outside, append_names, emit_event, Answer,
  answer, raised_outside, answered,
}

pub record Steps (W : Type 0) (Q : (A : Type 0) → M W A → Type 0) : Type 1 where
  pub pure_step : {A : Type 0} (x : A) → Q A (pure x)
  pub raise_step : {A : Type 0} (e : OrchestratorError) → Q A (raise e)
  pub read_step : {A : Type 0} (f : Journal → A) → Q A (read f)
  pub outside_step : {A : Type 0} (f : W → A × W) → Q A (outside f)
  pub names_step : (names : List String) → Q (Unit {0}) (append_names names)
  pub task_step : (r t : String) (u : TaskUpdate) → Q (Unit {0}) (write (update_task r t u))
  pub plan_step : (r : String) (plan : Plan) → Q (Unit {0}) (write (save_resource_plan r plan))
  pub fail_step :
      (key code : String) (uncertain : Bool) → Q (Unit {0}) (write (fail_call key code uncertain))
  pub complete_step :
      (key : String) (response : ProviderResponse)
      → Q (Unit {0}) (write (complete_call key response))
  pub observation_step :
      (r t k : String) (o : Option String × Option String × String)
      → Q (Unit {0}) (write (record_quota_observation r t k o))
  pub bind_step :
      {A B : Type 0} {m : M W A} {f : A → M W B} → Q A m → ((x : A) → Q B (f x)) → Q B (m >>= f)

module _ (env : Environment) {Q : (A : Type 0) → M env.World A → Type 0}
    (c : Steps env.World Q) where
  pub if_step :
      {A : Type 0} {m k : M env.World A} (test : Bool) → Q A m → Q A k → Q A (if test then m else k)
  if_step true h k = h
  if_step false h k = k

  answered_step : (r : Answer (List String)) → Q (Unit {0}) (answered append_names r)
  answered_step (answer names) = c.names_step names
  answered_step (raised_outside code) = c.raise_step _

  pub emit_step : (event : RuntimeEvent) → Q (Unit {0}) (emit_event env event)
  unfolding emit_event
  emit_step event = c.bind_step (c.outside_step _) answered_step
