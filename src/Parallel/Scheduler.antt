-- ===== src/Parallel/Scheduler.antt =====
-- The loop of ParallelAgentRuntime.run in src/w1cip/parallel_runtime.py, and the status in which
-- _execute_job leaves a job. One round is one pass of `while True`; what the threads of the pool do
-- meanwhile is the round's input.
pub mod Moves
pub mod Causal
pub mod Collected
pub mod Ends
pub mod Measure
pub mod Liveness
pub mod Success
pub mod Journal
use w1_nexus.Prelude.{
  ◌≡◌, ℕ, String, Bool, true, false, not, ◌&&◌, ◌||◌, Option, none, some, List, [], ◌∷◌, ◌++◌, map,
  ◌==◌, eqb, if◌then◌else◌, elem, is_subset, any, all, select, ℤ, pos, negsuc,
}
use w1_nexus.Parallel.Types.{
  AgentJob, ParallelRunPolicy, JobStatus, pending, queued, running, completed, failed, cancelled,
  timed_out, blocked, is_pending, is_queued, is_completed, is_terminal, has_failed, is_hard_failure,
}
use w1_nexus.Parallel.Plan.{PlanVerdict, valid_plan, job_ids, validate_jobs}

-- How _execute_job ends: without its locks, with an exception, or with an exit code. A flag says
-- whether the run is cancelled then, and for an exit code also whether an expected output is
-- missing. The row is that of the job in the journal at the exception: running, or what was
-- written before a listener raised.
pub data Execution : Type 0 where
  lock_unavailable : Bool → Execution
  raised : JobStatus → Execution
  exited : Bool → ℤ → Bool → Execution

abbrev pub is_code : ℕ → ℤ → Bool
is_code n (pos m) = eqb n m
is_code n (negsuc m) = false

-- `result.status`; the exception is the failed result that run makes of it.
unfoldable pub execution_status : Execution → JobStatus
execution_status (lock_unavailable cancel) = if cancel then cancelled else blocked
execution_status (raised row) = failed
execution_status (exited cancel code missing) =
    if cancel
    then cancelled
    else if is_code 124 code
    then timed_out
    else if not (is_code 0 code)
    then failed
    else if missing
    then failed
    else completed

-- The row of the job in the journal.
unfoldable pub execution_row : Execution → JobStatus
unfolding execution_status
execution_row (raised row) = row
execution_row e = execution_status e

-- `states`, whose keys are the names of all jobs; `futures`; the event `cancel`; and the column
-- status of agent_jobs, where the rows of the jobs in `futures` are those before they run.
pub record SchedulerState : Type 0 where
  pub states : String → JobStatus
  pub futures : List AgentJob
  pub is_cancelled : Bool
  pub rows : String → JobStatus

abbrev pub set_status : String → JobStatus → (String → JobStatus) → String → JobStatus
set_status key status states k = if key == k then status else states k

-- The state before the loop.
abbrev pub start : SchedulerState
start = record { states = λ k. pending; futures = []; is_cancelled = false; rows = λ k. pending }

abbrev pub block : AgentJob → SchedulerState → SchedulerState
block job s = record s {
  states = set_status job.job_id blocked s.states;
  rows = set_status job.job_id blocked s.rows;
}

-- `pool.submit`
abbrev pub submit : AgentJob → SchedulerState → SchedulerState
submit job s = record s {
  states = set_status job.job_id queued s.states;
  futures = s.futures ++ job ∷ [];
}

-- The state with `progressed`, or the KeyError of `states[d]`.
pub data Pass : Type 0 where
  passed : SchedulerState → Bool → Pass
  pass_key_error : Pass

-- The body of `for job in jobs`.
unfoldable pub pass_job : List String → AgentJob → SchedulerState → Bool → Pass
pass_job known job s progressed =
    if not (is_pending (s.states job.job_id))
    then passed s progressed
    else if not (is_subset job.dependencies known)
    then pass_key_error
    else if any (λ d. has_failed (s.states d)) job.dependencies
    then passed (block job s) true
    else if all (λ d. is_completed (s.states d)) job.dependencies
    then passed (submit job s) true
    else passed s progressed

unfoldable pub pass_jobs : List String → List AgentJob → SchedulerState → Bool → Pass
unfolding pass_job
pass_jobs known [] s progressed = passed s progressed
pass_jobs known (job ∷ jobs) s progressed = elim (pass_job known job s progressed) [
  | passed t more ↦ pass_jobs known jobs t more
  | pass_key_error ↦ pass_key_error
]

-- The futures that are done when `wait` returns, and whether cancel was called meanwhile.
pub record RoundInput : Type 0 where
  pub finished : String → Option Execution
  pub cancel_called : Bool

abbrev pub status_after : Option Execution → JobStatus → JobStatus
status_after none status = status
status_after (some e) status = execution_status e

abbrev pub row_after : Option Execution → JobStatus → JobStatus
row_after none row = row
row_after (some e) row = execution_row e

abbrev pub is_running_on : Option Execution → Bool
is_running_on none = true
is_running_on (some e) = false

-- `result.status != "completed"`
abbrev pub is_failure : Option Execution → Bool
is_failure none = false
is_failure (some e) = not (is_completed (execution_status e))

abbrev pub is_future : SchedulerState → String → Bool
is_future s key = any (λ j. j.job_id == key) s.futures

-- The loop over `done`, all at once: it is a set, and the jobs' names differ.
unfoldable pub collect : Bool → RoundInput → SchedulerState → SchedulerState
unfolding execution_status execution_row
collect fail_fast input s = record {
  states = λ k. if is_future s k then status_after (input.finished k) (s.states k) else s.states k;
  futures = select (λ j. is_running_on (input.finished j.job_id)) s.futures;
  is_cancelled =
      (s.is_cancelled || input.cancel_called)
      || (fail_fast && any (λ j. is_failure (input.finished j.job_id)) s.futures);
  rows = λ k. if is_future s k then row_after (input.finished k) (s.rows k) else s.rows k;
}

-- `states[job.job_id] in {"pending","queued"}`
abbrev pub is_open : JobStatus → Bool
is_open status = is_pending status || is_queued status

-- The jobs that are cancelled at the end.
unfoldable pub cancel_open : List AgentJob → SchedulerState → SchedulerState
cancel_open jobs s = record s {
  states = λ k. if elem k (job_ids jobs) && is_open (s.states k) then cancelled else s.states k;
  rows = λ k. if elem k (job_ids jobs) && is_open (s.states k) then cancelled else s.rows k;
}

abbrev pub no_futures : List AgentJob → Bool
no_futures [] = true
no_futures (j ∷ js) = false

abbrev pub all_terminal : List AgentJob → SchedulerState → Bool
all_terminal jobs s = all (λ j. is_terminal (s.states j.job_id)) jobs

pub data Round : Type 0 where
  continues ended : SchedulerState → Round
  deadlock round_key_error : Round

-- The test of `cancel` at the end of a round.
abbrev pub end_round : List AgentJob → SchedulerState → Round
end_round jobs s =
    if s.is_cancelled && no_futures s.futures then ended (cancel_open jobs s) else continues s

abbrev pub after_pass : Bool → List AgentJob → RoundInput → Pass → Round
after_pass fail_fast jobs input pass_key_error = round_key_error
after_pass fail_fast jobs input (passed s progressed) =
    if no_futures s.futures && all_terminal jobs s
    then ended s
    else if no_futures s.futures && not progressed
    then deadlock
    else end_round jobs (collect fail_fast input s)

unfoldable pub round : Bool → List AgentJob → RoundInput → SchedulerState → Round
unfolding pass_jobs collect cancel_open
round fail_fast jobs input s =
    after_pass fail_fast jobs input (pass_jobs (job_ids jobs) jobs s false)

-- The loop goes on, or it is left.
abbrev pub and_then : (SchedulerState → Round) → Round → Round
and_then next (continues s) = next s
and_then next r = r

-- The rounds of a run, as many as there are inputs; `continues` is a run that is not over yet.
unfoldable pub rounds : Bool → List AgentJob → List RoundInput → SchedulerState → Round
unfolding round
rounds fail_fast jobs [] s = continues s
rounds fail_fast jobs (input ∷ inputs) s =
    and_then (rounds fail_fast jobs inputs) (round fail_fast jobs input s)

-- `status`, after the loop.
abbrev pub run_status : List AgentJob → SchedulerState → JobStatus
run_status jobs s =
    if any (λ j. is_hard_failure (s.states j.job_id)) jobs
    then failed
    else if all (λ j. is_completed (s.states j.job_id)) jobs
    then completed
    else cancelled

-- What run finds beside the jobs: whether its name has the pattern, _ensure_repo_clean and the two
-- git queries go through, and create_run finds no run of that name.
pub record RunChecks : Type 0 where
  pub id_matches : Bool
  pub is_clean : Bool
  pub is_new : Bool

pub record Passes (checks : RunChecks) : Type 0 where
  pub named : checks.id_matches ≡ true
  pub clean : checks.is_clean ≡ true
  pub new : checks.is_new ≡ true

-- What run raises or returns. A refused run has changed nothing.
pub data RunEnd : Type 0 where
  invalid_run_id repository_refused run_exists : RunEnd
  plan_error : PlanVerdict → RunEnd
  run_finished : JobStatus → SchedulerState → RunEnd
  run_deadlock run_key_error : RunEnd
  run_open : SchedulerState → RunEnd

abbrev pub end_of_rounds : List AgentJob → Round → RunEnd
end_of_rounds jobs (continues s) = run_open s
end_of_rounds jobs (ended s) = run_finished (run_status jobs s) s
end_of_rounds jobs deadlock = run_deadlock
end_of_rounds jobs round_key_error = run_key_error

abbrev pub run_plan :
    ParallelRunPolicy → RunChecks → List AgentJob → List RoundInput → PlanVerdict → RunEnd
run_plan policy checks jobs inputs valid_plan =
    if not checks.is_clean
    then repository_refused
    else if not checks.is_new
    then run_exists
    else end_of_rounds jobs (rounds policy.fail_fast jobs inputs start)
run_plan policy checks jobs inputs v = plan_error v

-- run; the rows of parallel_runs and of the events are not modelled.
unfoldable pub run : ParallelRunPolicy → RunChecks → List AgentJob → List RoundInput → RunEnd
unfolding rounds validate_jobs
run policy checks jobs inputs =
    if not checks.id_matches
    then invalid_run_id
    else run_plan policy checks jobs inputs (validate_jobs jobs)
