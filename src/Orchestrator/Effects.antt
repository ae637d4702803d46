-- ===== src/Orchestrator/Effects.antt =====
-- The effects of OrchestratorCore in src/w1cip/orchestrator.py: the journal, and an environment of the
-- providers, the memory, the action runtime, the session store and the clock, whose state the core
-- does not see. What was written before an exception stays written.
use w1_nexus.Prelude.{ℕ, String, Bool, Option, List, ◌++◌}
use w1_nexus.Orchestrator.Types.{
  CompiledTask, ActionRequest, ActionResult, ProviderRequest, Outcome, RuntimeEvent,
  OrchestratorError,
}
use w1_nexus.Orchestrator.Journal.{Journal}

-- What resolve_fields of a memory context provider returns: values, citations, conflict fields.
pub record MemoryResolution : Type 0 where
  pub values : List (String × String)
  pub citations : List (String × String)
  pub conflict_fields : List String

-- execute of the action runtime: a result, ActionApprovalRequired with its plan, or another exception.
pub data ActionOutcome : Type 0 where
  action_done : ActionResult → ActionOutcome
  approval_required : String → ActionOutcome
  action_raised : String → ActionOutcome

-- `Option` at a callee that the core may lack; an error of a callee is a text.
pub data Answer (A : Type 0) : Type 0 where
  answer : A → Answer A
  raised_outside : String → Answer A

pub record Environment : Type 1 where
  pub World : Type 0
  pub now : World → ℕ
  -- `None` without an adapter of that name; the flag is supports_idempotency.
  pub provider : String → Option Bool
  pub invoke : String → ProviderRequest → World → Outcome × World
  pub memory :
      Option (CompiledTask → List (String × String) → World → Answer MemoryResolution × World)
  pub has_action_runtime : Bool
  pub get_result : String → World → Option ActionResult
  pub execute_action : ActionRequest → World → ActionOutcome × World
  -- The envelopes of an event, built by the factory and appended to the session store: their names.
  pub emit : RuntimeEvent → World → Answer (List String) × World
  pub append_envelope : String → World → Answer String × World
  pub canonical_id : String → Bool
  pub compute_state_hash : List String → ℕ → String
  pub call_id_of : String → String

pub data Exit (A : Type 0) : Type 0 where
  done : A → Exit A
  raised : OrchestratorError → Exit A
  out_of_fuel : Exit A

-- `appended` is the list of message names that `run` passes down and its callees extend.
pub record State (W : Type 0) : Type 0 where
  pub journal : Journal
  pub world : W
  pub appended : List String

abbrev pub M : Type 0 → Type 0 → Type 0
M W A = State W → Exit A × State W

module _ {W : Type 0} where
  unfoldable pub pure : {A : Type 0} → A → M W A
  pure a s = (done a, s)

  unfoldable pub raise : {A : Type 0} → OrchestratorError → M W A
  raise e s = (raised e, s)

  unfoldable pub exhausted : {A : Type 0} → M W A
  exhausted s = (out_of_fuel, s)

  abbrev pub continue : {A B : Type 0} → Exit A → (A → M W B) → M W B
  continue (done a) f s = f a s
  continue (raised e) f s = (raised e, s)
  continue out_of_fuel f s = (out_of_fuel, s)

  infixl 10 ◌>>=◌ ◌>>◌
  unfoldable pub ◌>>=◌ : {A B : Type 0} → M W A → (A → M W B) → M W B
  unfolding pure raise exhausted
  ◌>>=◌ m f s = let (r, s') = m s in continue r f s'

  abbrev pub ◌>>◌ : {A B : Type 0} → M W A → M W B → M W B
  m >> n = m >>= λ _. n

  -- Reads and writes of the journal.
  unfoldable pub read : {A : Type 0} → (Journal → A) → M W A
  read f s = (done (f s.journal), s)

  unfoldable pub write : (Journal → Journal) → M W (Unit {0})
  write f s = (done tt, record s { journal = f s.journal })

  -- A step of the world that the journal does not see.
  unfoldable pub outside : {A : Type 0} → (W → A × W) → M W A
  outside f s = let (a, w) = f s.world in (done a, record s { world = w })

  unfoldable pub append_names : List String → M W (Unit {0})
  append_names names s = (done tt, record s { appended = s.appended ++ names })

abbrev pub answered : {W A : Type 0} → (A → M W (Unit {0})) → Answer A → M W (Unit {0})
answered f (answer a) = f a
answered f (raised_outside code) = raise (OrchestratorError.external_error code)

module _ (env : Environment) where
  open env use {World}

  -- _emit: the listener's errors are swallowed, those of the factory and the store are not.
  unfoldable pub emit_event : RuntimeEvent → M World (Unit {0})
  unfolding ◌>>=◌ outside append_names
  emit_event event = do r ← outside (env.emit event); answered append_names r
