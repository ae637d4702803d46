-- ===== src/Orchestrator/Run.antt =====
-- OrchestratorCore.run and _result_from_journal of src/w1cip/orchestrator.py. The outer `while True`
-- is a recursion on fuel too.
pub mod Ready
pub mod Progress
use w1_nexus.Prelude.{
  ℕ, suc, zero, String, Bool, true, false, ◌&&◌, Option, none, some, List, [], ◌++◌, map, ◌==◌,
  if◌then◌else◌, length, eqb, any, all, first, select, is_subset,
}
use w1_nexus.Resources.Plan.{Plan}
use w1_nexus.Orchestrator.Types.{
  CompiledTask, CompiledWorkflow, Status, completed, failed, is_completed, is_open, is_terminal,
  TaskOutput, TaskRunResult, Disclosure, RunInputs, run_started, run_ended, run_completed,
  workflow_invalid, run_conflict, output_contract, key_error,
}
use w1_nexus.Orchestrator.Journal.{
  RunRow, TaskRow, initialize_run, load_run, task_rows, set_run_status,
}
use w1_nexus.Orchestrator.Effects.{
  Environment, Exit, M, pure, raise, exhausted, ◌>>=◌, read, write, emit_event,
}
use w1_nexus.Orchestrator.Accept.{TaskStep}
use w1_nexus.Orchestrator.Execute.{execute_task}
use w1_nexus.Orchestrator.Graph.{
  task_row, Verdict, valid_workflow, invalid_workflow, missing_task, verdict_fuel,
  validate_workflow, Review, review_covered, review_missing, review_key_error, review_fuel,
  enforce_extra_review,
}

pub record OrchestratorRunResult : Type 0 where
  pub status : Status
  pub tasks : List TaskRunResult
  pub final_output : Option TaskOutput
  pub appended_message_ids : List String
  pub resource_plan : Plan
  pub disclosures : List Disclosure
  pub error_code : Option String

abbrev result_of_row : TaskRow → TaskRunResult
result_of_row r = record {
  task_id = r.task_id;
  status = r.status;
  resource_id = r.resource_id;
  output = r.output;
  attempts = r.attempts;
  error_code = r.error_code;
  requires_extra_review = r.requires_extra_review;
}

-- The names of the completed rows.
abbrev pub completed_names : List TaskRow → List String
completed_names rows = map (λ r. r.task_id) (select (λ r. is_completed r.status) rows)

abbrev pub has_open : Option TaskRow → Bool
has_open none = false
has_open (some r) = is_open r.status

-- `rows[task.task_id]["status"] in {...} and set(task.depends_on).issubset(completed)`
abbrev pub is_ready : List TaskRow → CompiledTask → Bool
is_ready rows t =
    has_open (task_row t.task_id rows) && is_subset t.depends_on (completed_names rows)

abbrev pub has_row : List TaskRow → CompiledTask → Bool
has_row rows t = any (λ r. r.task_id == t.task_id) rows

-- Where one pass of the loop goes.
pub data Next : Type 0 where
  all_completed no_runnable missing_row : Next
  runnable : CompiledTask → TaskRow → Next

abbrev pub with_row : CompiledTask → Option TaskRow → Next
with_row t none = missing_row
with_row t (some r) = runnable t r

-- `ready[0]`
unfoldable pub next_task : CompiledWorkflow → List TaskRow → Next
next_task w rows =
    if eqb (length (completed_names rows)) (length w.tasks)
    then all_completed
    else if all (has_row rows) w.tasks
    then elim (first (is_ready rows) w.tasks) [
      | none ↦ no_runnable
      | some t ↦ with_row t (task_row t.task_id rows)
    ]
    else missing_row

abbrev pub output_of_row : Option TaskRow → Option TaskOutput
output_of_row none = none
output_of_row (some r) = r.output

abbrev is_present : Option TaskOutput → Bool
is_present none = false
is_present (some o) = true

module _ (env : Environment) where
  open env use {World}

  abbrev pub result_of_run :
      Plan
      → List String
      → List Disclosure
      → List TaskRow
      → Option RunRow
      → M World OrchestratorRunResult
  result_of_run plan names disclosures rows none = raise key_error
  result_of_run plan names disclosures rows (some run) = pure record {
    status = run.status;
    tasks = map result_of_row rows;
    final_output = run.result;
    appended_message_ids = names;
    resource_plan = plan;
    disclosures = disclosures;
    error_code = run.last_error_code;
  }

  abbrev pub names_so_far : M World (List String)
  names_so_far s = (Exit.done s.appended, s)

  -- _result_from_journal
  unfoldable pub result_from_journal :
      RunInputs → Plan → List Disclosure → M World OrchestratorRunResult
  result_from_journal inputs plan disclosures = do
    run ← read (load_run inputs.run_id)
    rows ← read (task_rows inputs.run_id)
    names ← names_so_far
    result_of_run plan names disclosures rows run

  -- After the loop: the review gate, the final output, and the end of the run.
  abbrev pub complete_run :
      RunInputs
      → Plan
      → List Disclosure
      → Option TaskOutput
      → Review
      → M World OrchestratorRunResult
  complete_run inputs plan disclosures output review_missing =
      raise (output_contract "orchestrator_required_extra_review_missing")
  complete_run inputs plan disclosures output review_key_error = raise key_error
  complete_run inputs plan disclosures output review_fuel = exhausted
  complete_run inputs plan disclosures output review_covered = do
    _ ← write (set_run_status inputs.run_id completed none output)
    _ ← emit_event env (run_completed (is_present output))
    result_from_journal inputs plan disclosures

  -- A task that did not complete ends the run with its status.
  abbrev pub after_task :
      RunInputs
      → List Disclosure
      → (Plan → List Disclosure → M World OrchestratorRunResult)
      → TaskStep
      → M World OrchestratorRunResult
  after_task inputs disclosures loop (result, plan, new) =
      if is_completed result.status then loop plan (disclosures ++ new) else (do
        _ ← write (set_run_status inputs.run_id result.status result.error_code none)
        _ ← emit_event env (run_ended result.status result.task_id result.error_code)
        result_from_journal inputs plan (disclosures ++ new))

  abbrev pub run_next :
      ℕ
      → RunInputs
      → CompiledWorkflow
      → List TaskRow
      → Plan
      → List Disclosure
      → (Plan → List Disclosure → M World OrchestratorRunResult)
      → Next
      → M World OrchestratorRunResult
  run_next fuel inputs w rows plan disclosures loop missing_row = raise key_error
  run_next fuel inputs w rows plan disclosures loop no_runnable = do
    _ ← write (set_run_status inputs.run_id failed (some "orchestrator_no_runnable_task") none)
    result_from_journal inputs plan disclosures
  run_next fuel inputs w rows plan disclosures loop all_completed =
      complete_run inputs plan disclosures (output_of_row (task_row "synthesize-final-result" rows))
        (enforce_extra_review w rows rows)
  run_next fuel inputs w rows plan disclosures loop (runnable task row) = do
    step ← execute_task env fuel record { inputs = inputs; workflow = w; task = task } plan rows row
    after_task inputs disclosures loop step

  -- The loop; `fuel` is what each task gets, n bounds the passes.
  unfoldable pub run_loop :
      ℕ → ℕ → RunInputs → CompiledWorkflow → Plan → List Disclosure → M World OrchestratorRunResult
  unfolding result_from_journal
  run_loop fuel zero inputs w plan disclosures = exhausted
  run_loop fuel (suc n) inputs w plan disclosures =
      let again = run_loop fuel n inputs w in
      do
        rows ← read (task_rows inputs.run_id)
        run_next fuel inputs w rows plan disclosures again (next_task w rows)

  abbrev pub run_persisted :
      ℕ → RunInputs → CompiledWorkflow → Option RunRow → M World OrchestratorRunResult
  run_persisted fuel inputs w none = raise key_error
  run_persisted fuel inputs w (some run) =
      if is_terminal run.status then result_from_journal inputs run.resource_plan [] else (do
        _ ← emit_event env (run_started (length w.tasks))
        run_loop fuel (suc (length w.tasks)) inputs w run.resource_plan [])

  -- The transaction of initialize_run.
  abbrev pub initialize : RunInputs → String → CompiledWorkflow → M World (Unit {0})
  initialize inputs text w s = elim (initialize_run inputs text w s.journal) [
    | none ↦ (Exit.raised run_conflict, s)
    | some j ↦ (Exit.done tt, record s { journal = j })
  ]

  -- `appended: list[str] = []`
  abbrev pub no_names : M World (Unit {0})
  no_names s = (Exit.done tt, record s { appended = [] })

  abbrev pub run_valid :
      ℕ → RunInputs → String → CompiledWorkflow → Verdict → M World OrchestratorRunResult
  run_valid fuel inputs text w (invalid_workflow code) = raise (workflow_invalid code)
  run_valid fuel inputs text w missing_task = raise key_error
  run_valid fuel inputs text w verdict_fuel = exhausted
  run_valid fuel inputs text w valid_workflow = do
    _ ← initialize inputs text w
    _ ← no_names
    run ← read (load_run inputs.run_id)
    run_persisted fuel inputs w run

  -- run, with a workflow whose text is `text`.
  unfoldable pub run :
      (List (String × String) → Bool)
      → ℕ
      → RunInputs
      → String
      → CompiledWorkflow
      → M World OrchestratorRunResult
  unfolding run_loop
  run acyclic fuel inputs text w =
      if env.canonical_id inputs.run_id
      then run_valid fuel inputs text w (validate_workflow env.canonical_id acyclic w)
      else raise (workflow_invalid "invalid_run_id")
