-- ===== src/Orchestrator/Journal.antt =====
-- OrchestratorJournal of src/w1cip/orchestrator.py: its SQLite tables as lists of rows, and one
-- function for each method. Columns hold decoded values, and timestamps are left out.
use w1_nexus.Prelude.{
  ℕ, String, Bool, false, not, ◌&&◌, ◌||◌, Option, none, some, List, [], ◌∷◌, ◌++◌, map, ◌==◌, any,
  select, first, length, if◌then◌else◌, ℤ,
}
use w1_nexus.Resources.Plan.{Plan}
use w1_nexus.Orchestrator.Types.{
  CompiledTask, CompiledWorkflow, Status, pending, running, is_resumable, TaskOutput,
  ProviderRequest, ProviderResponse, RunInputs,
}

pub record RunRow : Type 0 where
  pub run_id : String
  pub session_id : String
  pub status : Status
  pub workflow_json : String
  pub resource_plan : Plan
  pub context : List (String × String)
  pub last_error_code : Option String
  pub result : Option TaskOutput

pub record TaskRow : Type 0 where
  pub run_id : String
  pub task_id : String
  pub status : Status
  pub attempts : ℕ
  pub resource_id : Option String
  pub output : Option TaskOutput
  pub error_code : Option String
  pub requires_extra_review : Bool

pub data CallStatus : Type 0 where
  call_pending call_completed call_failed call_uncertain : CallStatus

pub record CallRow : Type 0 where
  pub call_id : String
  pub run_id : String
  pub task_id : String
  pub resource_id : String
  pub idempotency_key : String
  pub status : CallStatus
  pub request : ProviderRequest
  pub response : Option ProviderResponse
  pub error_code : Option String
  pub units_consumed : Option ℤ

pub record Journal : Type 0 where
  pub runs : List RunRow
  pub tasks : List TaskRow
  pub calls : List CallRow
  pub observations : List (String × String × String × String)

-- The rows of a task, in the order of their ordinals.
abbrev pub pending_rows : String → List CompiledTask → List TaskRow
pending_rows run_id [] = []
pending_rows run_id (t ∷ rest) =
    record {
      run_id = run_id;
      task_id = t.task_id;
      status = pending;
      attempts = 0;
      resource_id = none;
      output = none;
      error_code = none;
      requires_extra_review = false;
    }
    ∷ pending_rows run_id rest

abbrev pub resume_row : String → TaskRow → TaskRow
resume_row run_id r =
    if r.run_id == run_id && is_resumable r.status
    then record r { status = pending; error_code = none }
    else r

abbrev pub resume_run : RunInputs → RunRow → RunRow
resume_run inputs r =
    if r.run_id == inputs.run_id
    then record r {
      status = running;
      resource_plan = inputs.resource_plan;
      context = inputs.context;
      last_error_code = none;
    }
    else r

abbrev pub new_run : RunInputs → String → CompiledWorkflow → Journal → Journal
new_run inputs workflow_json workflow j = record j {
  runs =
      j.runs
      ++ record {
        run_id = inputs.run_id;
        session_id = inputs.session_id;
        status = running;
        workflow_json = workflow_json;
        resource_plan = inputs.resource_plan;
        context = inputs.context;
        last_error_code = none;
        result = none;
      }
        ∷ [];
  tasks = j.tasks ++ pending_rows inputs.run_id workflow.tasks;
}

abbrev pub resumed : RunInputs → String → RunRow → Journal → Option Journal
resumed inputs workflow_json row j =
    if not (row.session_id == inputs.session_id) || not (row.workflow_json == workflow_json)
    then none
    else if is_resumable row.status
    then some (record j {
      runs = map (resume_run inputs) j.runs;
      tasks = map (resume_row inputs.run_id) j.tasks;
    })
    else some j

-- load_run
unfoldable pub load_run : String → Journal → Option RunRow
load_run run_id j = first (λ r. r.run_id == run_id) j.runs

-- initialize_run; `none` is RunConflictError, which rolls the transaction back. The text of the
-- workflow is canonical_json(_workflow_to_dict(workflow)).
unfoldable pub initialize_run : RunInputs → String → CompiledWorkflow → Journal → Option Journal
unfolding load_run
initialize_run inputs workflow_json workflow j = elim (load_run inputs.run_id j) [
  | none ↦ some (new_run inputs workflow_json workflow j)
  | some row ↦ resumed inputs workflow_json row j
]

-- task_rows
unfoldable pub task_rows : String → Journal → List TaskRow
task_rows run_id j = select (λ r. r.run_id == run_id) j.tasks

-- The optional columns of update_task: None leaves the column as it is.
pub record TaskUpdate : Type 0 where
  pub status : Status
  pub attempts : Option ℕ
  pub resource_id : Option String
  pub output : Option TaskOutput
  pub error_code : Option String
  pub requires_extra_review : Option Bool

abbrev keep {ℓ} : {A : Type ℓ} → Option A → A → A
keep none old = old
keep (some new) old = new

abbrev keep_option {ℓ} : {A : Type ℓ} → Option A → Option A → Option A
keep_option none old = old
keep_option (some new) old = some new

abbrev pub updated_row : TaskUpdate → TaskRow → TaskRow
updated_row u r = record r {
  status = u.status;
  attempts = keep u.attempts r.attempts;
  resource_id = keep_option u.resource_id r.resource_id;
  output = keep_option u.output r.output;
  error_code = u.error_code;
  requires_extra_review = keep u.requires_extra_review r.requires_extra_review;
}

-- update_task
unfoldable pub update_task : String → String → TaskUpdate → Journal → Journal
update_task run_id task_id u j = record j {
  tasks =
      map (λ r. if r.run_id == run_id && r.task_id == task_id then updated_row u r else r) j.tasks;
}

abbrev pub update_run : String → (RunRow → RunRow) → Journal → Journal
update_run run_id f j = record j { runs = map (λ r. if r.run_id == run_id then f r else r) j.runs }

-- save_resource_plan
unfoldable pub save_resource_plan : String → Plan → Journal → Journal
save_resource_plan run_id plan = update_run run_id (λ r. record r { resource_plan = plan })

-- set_run_status
unfoldable pub set_run_status :
    String → Status → Option String → Option TaskOutput → Journal → Journal
set_run_status run_id status error_code result =
    update_run run_id
      (λ r. record r { status = status; last_error_code = error_code; result = result })

-- call_by_key
unfoldable pub call_by_key : String → Journal → Option CallRow
call_by_key key j = first (λ c. c.idempotency_key == key) j.calls

abbrev last_match : (CallRow → Bool) → Option CallRow → List CallRow → Option CallRow
last_match p found [] = found
last_match p found (c ∷ rest) = last_match p (if p c then some c else found) rest

-- latest_call_for_task: the row with the largest rowid.
unfoldable pub latest_call_for_task : String → String → Journal → Option CallRow
latest_call_for_task run_id task_id j =
    last_match (λ c. c.run_id == run_id && c.task_id == task_id) none j.calls

-- start_call, INSERT OR IGNORE: a row with the call's name or its idempotency key is left alone.
unfoldable pub start_call : String → ProviderRequest → Journal → Journal
start_call call_id request j =
    if any (λ c. c.call_id == call_id || c.idempotency_key == request.idempotency_key) j.calls
    then j
    else record j {
      calls =
          j.calls
          ++ record {
            call_id = call_id;
            run_id = request.run_id;
            task_id = request.task.task_id;
            resource_id = request.resource_id;
            idempotency_key = request.idempotency_key;
            status = call_pending;
            request = request;
            response = none;
            error_code = none;
            units_consumed = none;
          }
            ∷ [];
    }

abbrev update_call : String → (CallRow → CallRow) → Journal → Journal
update_call key f j = record j {
  calls = map (λ c. if c.idempotency_key == key then f c else c) j.calls;
}

abbrev pub completed_row : ProviderResponse → CallRow → CallRow
completed_row response c = record c {
  status = call_completed;
  response = some response;
  units_consumed = some response.units_consumed;
}

-- complete_call
unfoldable pub complete_call : String → ProviderResponse → Journal → Journal
complete_call key response = update_call key (completed_row response)

abbrev pub failed_row : String → Bool → CallRow → CallRow
failed_row code uncertain c = record c {
  status = if uncertain then call_uncertain else call_failed;
  error_code = some code;
}

-- fail_call
unfoldable pub fail_call : String → String → Bool → Journal → Journal
fail_call key code uncertain = update_call key (failed_row code uncertain)

-- record_quota_observation: an observation without a provider and a time is dropped.
unfoldable pub record_quota_observation :
    String → String → String → Option String × Option String × String → Journal → Journal
record_quota_observation run_id task_id resource_id (some provider, some observed_at, text) j =
    record j { observations = j.observations ++ (run_id, task_id, resource_id, text) ∷ [] }
record_quota_observation run_id task_id resource_id _ j = j

-- count_started_calls
unfoldable pub count_started_calls : String → Journal → ℕ
count_started_calls run_id j = length (select (λ c. c.run_id == run_id) j.calls)
