-- ===== src/Parallel/Plan.antt =====
-- ParallelAgentRuntime._validate_jobs of src/w1cip/parallel_runtime.py. The patterns of the
-- identifiers, which the constructor AgentJob checks, are not part of it.
pub mod Accepts
use w1_nexus.Prelude.{
  ℕ, suc, String, Bool, true, false, not, Option, none, some, List, [], ◌∷◌, map, ◌==◌,
  if◌then◌else◌, first, elem, is_subset, has_duplicate, all, length,
}
use w1_nexus.Dependencies.{Walk, walked, walk_cycle, walk_key_error, walk_fuel, visit_all, visit}
use w1_nexus.Parallel.Types.{AgentJob}

abbrev pub job_by_id : String → List AgentJob → Option AgentJob
job_by_id key jobs = first (λ j. j.job_id == key) jobs

abbrev pub dependencies_of : Option AgentJob → Option (List String)
dependencies_of none = none
dependencies_of (some j) = some j.dependencies

-- `graph={j.job_id:j.dependencies}`, after the test that the names are unique.
abbrev pub job_graph : List AgentJob → String → Option (List String)
job_graph jobs key = dependencies_of (job_by_id key jobs)

-- Nothing raised, a ParallelPlanError, a KeyError, or not enough fuel.
pub data PlanVerdict : Type 0 where
  valid_plan : PlanVerdict
  no_jobs duplicate_job duplicate_agent duplicate_branch unknown_dependency dependency_cycle :
      PlanVerdict
  plan_key_error plan_fuel : PlanVerdict

abbrev pub plan_of_walk : Walk → PlanVerdict
plan_of_walk (walked visited) = valid_plan
plan_of_walk walk_cycle = dependency_cycle
plan_of_walk walk_key_error = plan_key_error
plan_of_walk walk_fuel = plan_fuel

abbrev pub job_ids : List AgentJob → List String
job_ids jobs = map (λ j. j.job_id) jobs

-- `set(j.dependencies)-known` is empty for each job.
abbrev pub all_known : List AgentJob → Bool
all_known jobs = all (λ j. is_subset j.dependencies (job_ids jobs)) jobs

abbrev pub is_empty : List AgentJob → Bool
is_empty [] = true
is_empty (j ∷ jobs) = false

-- _validate_jobs
unfoldable pub validate_jobs : List AgentJob → PlanVerdict
validate_jobs jobs =
    if is_empty jobs
    then no_jobs
    else if has_duplicate (job_ids jobs)
    then duplicate_job
    else if has_duplicate (map (λ j. j.agent_id) jobs)
    then duplicate_agent
    else if has_duplicate (map (λ j. j.branch) jobs)
    then duplicate_branch
    else if not (all_known jobs)
    then unknown_dependency
    else plan_of_walk
        (visit_all (visit (suc (length (job_ids jobs))) (job_graph jobs) []) (job_ids jobs) [])
