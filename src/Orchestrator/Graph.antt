-- ===== src/Orchestrator/Graph.antt =====
-- The dependency graph of a workflow in src/w1cip/orchestrator.py: _validate_workflow,
-- _depends_transitively and _enforce_extra_review. Recursion through the graph is on fuel, which
-- counts the tasks on the current path.
pub mod Covered
pub mod Valid
pub mod Accepts
use w1_nexus.Prelude.{
  ℕ, suc, zero, String, Bool, false, not, ◌&&◌, Option, none, some, List, [], ◌∷◌, ◌++◌, map, ◌==◌,
  if◌then◌else◌, length, first, elem, is_subset, has_duplicate,
}
use w1_nexus.Dependencies.{Walk, walked, walk_cycle, walk_key_error, walk_fuel, visit_all, visit}
use w1_nexus.Orchestrator.Types.{CompiledTask, CompiledWorkflow, is_completed}
use w1_nexus.Orchestrator.Journal.{TaskRow}

-- CompiledWorkflow.task_by_id, and `[key]`; task names do not occur twice in a valid workflow.
unfoldable pub task_by_id : String → CompiledWorkflow → Option CompiledTask
task_by_id key w = first (λ t. t.task_id == key) w.tasks

abbrev pub task_row : String → List TaskRow → Option TaskRow
task_row key rows = first (λ r. r.task_id == key) rows

-- `by_id[key].depends_on`
abbrev pub depends_of : Option CompiledTask → Option (List String)
depends_of none = none
depends_of (some t) = some t.depends_on

abbrev pub graph_of : CompiledWorkflow → String → Option (List String)
graph_of w key = depends_of (task_by_id key w)

-- The code of the first error in a task, if it has one.
abbrev pub task_error : (String → Bool) → List String → CompiledTask → Option String
task_error canonical_id known t =
    if not (canonical_id t.task_id)
    then some "invalid_task_id"
    else if elem t.task_id t.depends_on
    then some "task_self_dependency"
    else if not (is_subset t.depends_on known)
    then some "unknown_task_dependency"
    else none

abbrev pub first_task_error : (String → Bool) → List String → List CompiledTask → Option String
first_task_error canonical_id known [] = none
first_task_error canonical_id known (t ∷ tasks) = elim (task_error canonical_id known t) [
  | none ↦ first_task_error canonical_id known tasks
  | some code ↦ some code
]

abbrev edges_to : String → List String → List (String × String)
edges_to key [] = []
edges_to key (d ∷ ds) = (d, key) ∷ edges_to key ds

-- `[(dependency, task.task_id) for task in tasks for dependency in task.depends_on]`
unfoldable pub edges : List CompiledTask → List (String × String)
edges [] = []
edges (t ∷ tasks) = edges_to t.task_id t.depends_on ++ edges tasks

-- The verdict on a workflow: valid, a WorkflowCompilationError, a KeyError, or not enough fuel.
pub data Verdict : Type 0 where
  valid_workflow : Verdict
  invalid_workflow : String → Verdict
  missing_task verdict_fuel : Verdict

abbrev pub verdict_of_walk : Walk → Verdict
verdict_of_walk (walked visited) = valid_workflow
verdict_of_walk walk_cycle = invalid_workflow "task_dependency_cycle"
verdict_of_walk walk_key_error = missing_task
verdict_of_walk walk_fuel = verdict_fuel

abbrev pub verdict_of_tasks :
    (List (String × String) → Bool) → CompiledWorkflow → List String → Option String → Verdict
verdict_of_tasks acyclic w ids (some code) = invalid_workflow code
verdict_of_tasks acyclic w ids none =
    if acyclic (edges w.tasks)
    then verdict_of_walk (visit_all (visit (suc (length ids)) (graph_of w) []) ids [])
    else invalid_workflow "task_dependency_cycle"

-- _validate_workflow; `acyclic` is verify_dag_acyclic of the native core.
unfoldable pub validate_workflow :
    (String → Bool) → (List (String × String) → Bool) → CompiledWorkflow → Verdict
unfolding edges
validate_workflow canonical_id acyclic w =
    let ids = map (λ t. t.task_id) w.tasks in
    if has_duplicate ids
    then invalid_workflow "duplicate_task_id"
    else verdict_of_tasks acyclic w ids (first_task_error canonical_id ids w.tasks)

-- The search of _depends_transitively: found, or not, with the names seen.
pub data Search : Type 0 where
  found : Search
  not_found : List String → Search
  search_key_error search_fuel : Search

-- `any(visit(dep) for dep in task.depends_on)`, which stops at the first hit.
unfoldable pub search_all : (String → List String → Search) → List String → List String → Search
search_all search [] seen = not_found seen
search_all search (key ∷ keys) seen = elim (search key seen) [
  | found ↦ found
  | not_found more ↦ search_all search keys more
  | search_key_error ↦ search_key_error
  | search_fuel ↦ search_fuel
]

abbrev pub search_task :
    (String → List String → Search) → String → List String → Option CompiledTask → Search
search_task search target seen none = search_key_error
search_task search target seen (some t) =
    if elem target t.depends_on then found else search_all search t.depends_on seen

unfoldable pub search : ℕ → CompiledWorkflow → String → String → List String → Search
unfolding search_all task_by_id
search zero w target key seen = search_fuel
search (suc n) w target key seen =
    let below = search n w target in
    if elem key seen
    then not_found seen
    else search_task below target (key ∷ seen) (task_by_id key w)

-- _depends_transitively
unfoldable pub depends_transitively : CompiledWorkflow → String → String → Search
unfolding search
depends_transitively w task_id target_id =
    search (suc (suc (length w.tasks))) w target_id task_id []

pub data Review : Type 0 where
  review_covered review_missing review_key_error review_fuel : Review

abbrev pub has_completed : Option TaskRow → Bool
has_completed none = false
has_completed (some r) = is_completed r.status

-- `any(task.phase == "review" and ... for task in workflow.tasks)`
unfoldable pub covered_by : CompiledWorkflow → List TaskRow → String → List CompiledTask → Review
unfolding depends_transitively
covered_by w rows task_id [] = review_missing
covered_by w rows task_id (t ∷ tasks) =
    let rest = covered_by w rows task_id tasks in
    if (t.phase == "review") && has_completed (task_row t.task_id rows)
    then elim (depends_transitively w t.task_id task_id) [
      | found ↦ review_covered
      | not_found seen ↦ rest
      | search_key_error ↦ review_key_error
      | search_fuel ↦ review_fuel
    ]
    else rest

-- _enforce_extra_review
unfoldable pub enforce_extra_review : CompiledWorkflow → List TaskRow → List TaskRow → Review
unfolding covered_by
enforce_extra_review w rows [] = review_covered
enforce_extra_review w rows (r ∷ rest) =
    let others = enforce_extra_review w rows rest in
    if r.requires_extra_review
    then elim (covered_by w rows r.task_id w.tasks) [
      | review_covered ↦ others
      | review_missing ↦ review_missing
      | review_key_error ↦ review_key_error
      | review_fuel ↦ review_fuel
    ]
    else others
