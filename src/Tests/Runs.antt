-- ===== src/Tests/Runs.antt =====
-- A workflow of two tasks and an environment whose providers always answer, for OrchestratorCore of
-- src/w1cip/orchestrator.py.
use w1_nexus.Prelude.{
  ◌≢◌, arith, ℕ, suc, max, ◌≤◌, refl, String, true, false, none, some, List, [], ◌∷◌, pos,
}
use w1_nexus.Orchestrator.Types.{
  CompiledTask, CompiledWorkflow, pending, ProviderResponse, returned, RunInputs,
}
use w1_nexus.Orchestrator.Journal.{TaskRow, count_started_calls}
use w1_nexus.Orchestrator.Effects.{Environment, State, out_of_fuel, action_raised, answer}
use w1_nexus.Orchestrator.Run.{run}
use w1_nexus.Orchestrator.Budget.Whole.{run-call_budget}
use w1_nexus.Orchestrator.Recover.{Work}
use w1_nexus.Orchestrator.Execute.{execute_task}
use w1_nexus.Orchestrator.Termination.Recovery.{execute_task_ends}
use w1_nexus.Tests.Routing.{plan}

abbrev pub task : String → List String → CompiledTask
task name depends_on = record {
  task_id = name;
  title = name;
  phase = "execution";
  role = "engineer";
  expected_output_type = "analysis";
  depends_on = depends_on;
  deliverable_id = none;
  criterion_id = none;
  required_context_fields = "goal" ∷ [];
  estimated_units = pos 7;
  domains = [];
}

abbrev pub workflow : CompiledWorkflow
workflow = record {
  tasks = task "analyse" [] ∷ task "build" ("analyse" ∷ []) ∷ [];
  risk_level = "low";
  error_cost = "low";
  task_complexity = "moderate";
}

abbrev inputs : RunInputs
inputs = record {
  run_id = "run-1";
  session_id = "s-1";
  max_model_calls = some 1;
  resource_plan = plan;
  context = ("goal", "a text") ∷ [];
  domains = [];
  max_attempts_per_resource = 2;
}

abbrev response : ProviderResponse
response = record {
  output_type = "analysis";
  payload = "{}";
  units_consumed = pos 3;
  context_fields_used = "goal" ∷ [];
  protocol_envelopes = [];
  action_requests = [];
  quota_observation = none;
}

-- The world is a clock.
abbrev environment : Environment
environment = record {
  World = ℕ;
  now = λ w. w;
  provider = λ k. some true;
  invoke = λ k request w. (returned response, suc w);
  memory = none;
  has_action_runtime = false;
  get_result = λ k w. none;
  execute_action = λ r w. (action_raised "unavailable", w);
  emit = λ event w. (answer ("m-1" ∷ []), suc w);
  append_envelope = λ text w. (answer "m-2", suc w);
  canonical_id = λ name. true;
  compute_state_hash = λ parts attempt. "key";
  call_id_of = λ key. key;
}

abbrev start : State ℕ
start = record {
  journal = record { runs = []; tasks = []; calls = []; observations = [] };
  world = 0;
  appended = [];
}

run-call_budget_example :
    count_started_calls "run-1"
      (run environment (λ edges. true) 5 inputs "{}" workflow start).1.journal
    ≤ max 1 (count_started_calls "run-1" start.journal)
run-call_budget_example =
    run-call_budget environment (λ edges. true) 5 1 inputs "{}" workflow start refl

abbrev work : Work
work = record { inputs = inputs; workflow = workflow; task = task "analyse" [] }

abbrev pub pending_row : TaskRow
pending_row = record {
  run_id = "run-1";
  task_id = "analyse";
  status = pending;
  attempts = 0;
  resource_id = none;
  output = none;
  error_code = none;
  requires_extra_review = false;
}

execute_task_ends_example :
    (execute_task environment 5 work plan (pending_row ∷ []) pending_row start).0 ≢ out_of_fuel
execute_task_ends_example =
    execute_task_ends environment work plan (pending_row ∷ []) pending_row 5 start (omega arith)
