-- ===== src/Tests/Goals.antt =====
-- A goal with two deliverables and a criterion, for GoalTaskCompiler and TeamPlanner of
-- src/w1cip/orchestrator.py.
use w1_nexus.Prelude.{◌≡◌, refl, String, Bool, true, none, some, List, [], ◌∷◌}
use w1_nexus.Dependencies.{visit, visit_all}
use w1_nexus.Orchestrator.Types.{CompiledTask}
use w1_nexus.Orchestrator.Graph.{task_by_id, edges, validate_workflow}
use w1_nexus.Orchestrator.Compile.{
  Goal, Deliverable, required_of, compiled, compilation_error, compile_tasks, deliverable_ids,
  verification_tasks, unique, compile,
}
use w1_nexus.Orchestrator.Compile.Team.{required_roles, build, Drafted, build-Drafted, Assignment}
use w1_nexus.Orchestrator.Compile.Gate.{IsGated, compile_tasks-IsGated}
use w1_nexus.Orchestrator.Compile.Accepted.{workflow_of, compile_returns}

abbrev deliverable : String → Deliverable
deliverable d = record { deliverable_id = some d; kind = some "document"; required = true }

abbrev goal : Goal
goal = record {
  deliverables = deliverable "plan" ∷ deliverable "report" ∷ [];
  constraints = 0;
  success_criteria =
      record {
        criterion_id = some "sources";
        acceptance_effect = some "required_for_completion";
        verifiability = some "empirical";
        applies_to = "plan" ∷ [];
      }
      ∷ [];
  risk_level = none;
  error_cost = none;
  autonomy_mode = none;
  approvals = true ∷ [];
}

abbrev any_name : String → Bool
any_name k = true

abbrev any_edges : List (String × String) → Bool
any_edges e = true

goal_tasks : (ts : List CompiledTask) × (compile_tasks any_name [] [] goal ≡ compiled ts)
unfolding compile_tasks deliverable_ids verification_tasks unique
goal_tasks = (_, refl)

abbrev all_roles : List String
all_roles = "executor" ∷ "verifier" ∷ "reviewer" ∷ "decision_authority" ∷ "synthesizer" ∷ []

compile_returns_example :
    compile any_name [] [] any_edges goal all_roles ≡ compiled (workflow_of goal goal_tasks.0)
unfolding goal_tasks
compile_returns_example =
    compile_returns any_name [] [] any_edges goal all_roles goal_tasks.0 goal_tasks.1 refl refl refl
      refl

compile_tasks-IsGated_example : IsGated any_name [] [] (required_of goal) goal_tasks.0
compile_tasks-IsGated_example =
    compile_tasks-IsGated any_name [] [] goal goal_tasks.0 goal_tasks.1 refl

abbrev team : List Assignment
team = ("executor", "a") ∷ ("synthesizer", "b") ∷ ("executor", "c") ∷ []

build-Drafted_example : Drafted goal team (build goal team)
build-Drafted_example = build-Drafted goal team

-- The roles that the planner asks for do not cover the tasks of the goal, which have a review and an
-- approval.
roles_not_enough :
    compile any_name [] [] any_edges goal (required_roles goal)
    ≡ compilation_error "team_plan_missing_workflow_role"
unfolding compile compile_tasks deliverable_ids verification_tasks unique required_roles
    validate_workflow edges visit visit_all task_by_id
roles_not_enough = refl
