-- ===== src/Tests/Parallel.antt =====
-- A plan of two jobs, their locks and their merge, for src/w1cip/parallel_runtime.py.
use w1_nexus.Prelude.{
  sym, ◌∙◌, some-inj, ◌+◌, ◌≡◌, ◌≢◌, ◌⊎◌, ◌↔◌, refl, String, true, false, Option, none, some, List,
  [], ◌∷◌, In, here, there, pos, length, arith, ◌<◌, ◌==◌, true-ne-false, ap,
}
use w1_nexus.Dependencies.{visit, visit_all}
use w1_nexus.Parallel.Types.{
  ResourcePath, AgentJob, ParallelRunPolicy, JobStatus, completed, failed, running,
}
use w1_nexus.Parallel.Paths.{paths_overlap, normalise_resource}
use w1_nexus.Parallel.Paths.Inside.{IsOverlap, paths_overlap_iff}
use w1_nexus.Parallel.Locks.{LockRow, insert_all, acquire_once, acquires, empty, after}
use w1_nexus.Parallel.Locks.Exclusive.{held, locks_exclude}
use w1_nexus.Parallel.Locks.Held.{none_yet, acquired, lock_kept}
use w1_nexus.Parallel.Plan.{valid_plan, validate_jobs}
use w1_nexus.Parallel.Plan.Accepts.{IsPlan, validate_jobs_accepts}
use w1_nexus.Parallel.Scheduler.{
  RunChecks, Passes, exited, raised, execution_status, execution_row, SchedulerState, start,
  RoundInput, pass_job, pass_jobs, collect, all_terminal, round, rounds, run_status, RunEnd,
  run_finished, run,
}
use w1_nexus.Parallel.Scheduler.Ends.{IsSound, run-IsSound}
use w1_nexus.Parallel.Scheduler.Liveness.{idle_rounds, run_returns}
use w1_nexus.Parallel.Scheduler.Journal.{run_rows}
use w1_nexus.Parallel.Scheduler.Success.{IsSuccess, run_completes}

abbrev source_path : ResourcePath
source_path = b's' ∷ b'r' ∷ b'c' ∷ []

abbrev test_path : ResourcePath
test_path = b't' ∷ []

abbrev job : String → List String → AgentJob
job name dependencies = record {
  job_id = name;
  agent_id = name;
  branch = name;
  dependencies = dependencies;
  resource_paths = source_path ∷ [];
}

abbrev pub jobs : List AgentJob
jobs = job "b" ("a" ∷ []) ∷ job "a" [] ∷ []

jobs_valid : validate_jobs jobs ≡ valid_plan
unfolding validate_jobs visit visit_all
jobs_valid = refl

validate_jobs_accepts_example : (validate_jobs jobs ≡ valid_plan) ↔ IsPlan jobs
validate_jobs_accepts_example = validate_jobs_accepts jobs

abbrev policy : ParallelRunPolicy
policy = record { max_workers = 4; fail_fast = false }

abbrev passing : RunChecks
passing = record { id_matches = true; is_clean = true; is_new = true }

passes : Passes passing
passes = record { named = refl; clean = refl; new = refl }

-- Every job that runs is done, with exit code 0.
abbrev succeeds : RoundInput
succeeds = record { finished = λ k. some (exited false (pos 0) false); cancel_called = false }

-- Every job that runs raises.
abbrev raises : RoundInput
raises = record { finished = λ k. some (raised running); cancel_called = false }

abbrev five : RoundInput → List RoundInput
five input = input ∷ input ∷ input ∷ input ∷ input ∷ []

run-IsSound_example : IsSound jobs (run policy passing jobs (five succeeds))
run-IsSound_example = run-IsSound policy passing jobs (five succeeds) passes jobs_valid

idle_count : idle_rounds false jobs (five succeeds) start ≡ 0
unfolding idle_rounds round pass_jobs pass_job collect execution_status execution_row
idle_count = refl

never_idle :
    idle_rounds false jobs (five succeeds) start + (length jobs + length jobs)
    < length (five succeeds)
never_idle = omega (arith, idle_count)

run_returns_example :
    (s : SchedulerState) × (run policy passing jobs (five succeeds)
      ≡ run_finished (run_status jobs s) s)
    × (all_terminal jobs s ≡ true)
run_returns_example = run_returns policy passing jobs (five succeeds) passes jobs_valid never_idle

abbrev outcome_of : RunEnd → Option SchedulerState
outcome_of (run_finished status s) = some s
outcome_of e = none

abbrev row_of_run : String → Option SchedulerState → Option JobStatus
row_of_run key none = none
row_of_run key (some s) = some (s.rows key)

-- The job that raised is failed, and its row is still running.
stale_row : row_of_run "a" (outcome_of (run policy passing jobs (five raises))) ≡ some running
unfolding run validate_jobs visit visit_all rounds round pass_jobs pass_job collect execution_status
    execution_row
stale_row = refl

a_not_b : ◌≢◌ {A = String} "a" "b"
a_not_b h = true-ne-false (ap (λ (k : String). k == "a") h)

abbrev locked : List LockRow
locked = held "r" "a" source_path ∷ held "r" "b" test_path ∷ []

a_acquires : acquire_once "r" "a" (source_path ∷ []) [] ≡ some (held "r" "a" source_path ∷ [])
unfolding acquire_once insert_all paths_overlap
a_acquires = refl

b_acquires : acquire_once "r" "b" (test_path ∷ []) (held "r" "a" source_path ∷ []) ≡ some locked
unfolding acquire_once insert_all paths_overlap
b_acquires = refl

locks_exclude_example : paths_overlap source_path test_path ≡ false
locks_exclude_example =
    locks_exclude
      (after (after empty (acquires "r" "a" (source_path ∷ []) a_acquires))
        (acquires "r" "b" (test_path ∷ []) b_acquires))
      (held "r" "a" source_path) (held "r" "b" test_path) here (there here) refl a_not_b

lock_kept_example : In (held "r" "a" source_path) locked
lock_kept_example =
    lock_kept [] (held "r" "a" source_path ∷ []) locked "r" "a" (source_path ∷ []) a_acquires
      (acquired "r" "b" (test_path ∷ []) none_yet (λ same. a_not_b) b_acquires) source_path here

ended_state :
    (s : SchedulerState) × (run policy passing jobs (five succeeds) ≡ run_finished completed s)
unfolding run validate_jobs visit visit_all rounds round pass_jobs pass_job collect execution_status
    execution_row
ended_state = (_, refl)

run_rows_example :
    (ended_state.0.rows "a" ≡ ended_state.0.states "a") ⊎ (ended_state.0.states "a" ≡ failed)
run_rows_example =
    run_rows policy passing jobs (five succeeds) completed ended_state.0 passes jobs_valid
      ended_state.1 (job "a" []) (there here)

succeeds-IsSuccess : IsSuccess succeeds
unfolding execution_status
succeeds-IsSuccess = record {
  uncancelled = refl;
  succeeds = λ key e h. ap execution_status (sym (some-inj h)) ∙ refl;
}

run_completes_example :
    (s : SchedulerState) × (run policy passing jobs (five succeeds) ≡ run_finished completed s)
run_completes_example =
    run_completes policy passing jobs (five succeeds) passes jobs_valid
      (
        succeeds-IsSuccess,
        (succeeds-IsSuccess, (succeeds-IsSuccess, (succeeds-IsSuccess, (succeeds-IsSuccess, tt)))),
      )
      never_idle

-- "src/" is normalised to "src", which holds "src/t".
abbrev inner_path : ResourcePath
inner_path = b's' ∷ b'r' ∷ b'c' ∷ b'/' ∷ b't' ∷ []

inner_normal : normalise_resource (λ t. t) inner_path ≡ some inner_path
unfolding normalise_resource
inner_normal = refl

source_normal : normalise_resource (λ t. t) (b's' ∷ b'r' ∷ b'c' ∷ b'/' ∷ []) ≡ some source_path
unfolding normalise_resource
source_normal = refl

paths_overlap_iff_example :
    (paths_overlap inner_path source_path ≡ true) ↔ IsOverlap inner_path source_path
paths_overlap_iff_example =
    paths_overlap_iff (λ t. t) inner_path (b's' ∷ b'r' ∷ b'c' ∷ b'/' ∷ []) inner_path source_path
      inner_normal source_normal
