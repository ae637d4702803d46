-- ===== src/Tests/Gates.antt =====
-- The task that is started next, and the review gate, of src/w1cip/orchestrator.py.
use w1_nexus.Prelude.{
  ◌≡◌, ◌⊎◌, ◌↔◌, inl, inr, refl, Bool, true, String, List, [], ◌∷◌, In, here, there,
}
use w1_nexus.Dependencies.{visit, visit_all}
use w1_nexus.Orchestrator.Types.{CompiledTask, CompiledWorkflow, completed, is_open, is_completed}
use w1_nexus.Orchestrator.Journal.{TaskRow}
use w1_nexus.Orchestrator.Graph.{
  review_covered, enforce_extra_review, covered_by, depends_transitively, search, search_all,
  task_by_id, edges, valid_workflow, invalid_workflow, validate_workflow,
}
use w1_nexus.Orchestrator.Graph.Accepts.{
  IsValid, validate_workflow_accepts, validate_workflow_decides,
}
use w1_nexus.Orchestrator.Graph.Covered.{IsReviewed, enforce_extra_review-IsReviewed}
use w1_nexus.Orchestrator.Run.{all_completed, runnable, next_task}
use w1_nexus.Orchestrator.Run.Progress.{IsUnderWay, next_task_progress}
use w1_nexus.Orchestrator.Run.Ready.{IsStartable, next_task-IsStartable}
use w1_nexus.Tests.Runs.{task, workflow, pending_row}

abbrev analysed : TaskRow
analysed = record pending_row { status = completed; requires_extra_review = true }

abbrev to_build : TaskRow
to_build = record pending_row { task_id = "build" }

build_next :
    next_task workflow (analysed ∷ to_build ∷ [])
    ≡ runnable (task "build" ("analyse" ∷ [])) to_build
unfolding next_task
build_next = refl

next_task-IsStartable_example :
    IsStartable workflow (analysed ∷ to_build ∷ []) (task "build" ("analyse" ∷ [])) to_build
next_task-IsStartable_example =
    next_task-IsStartable workflow (analysed ∷ to_build ∷ []) (task "build" ("analyse" ∷ []))
      to_build build_next

abbrev reviewed_workflow : CompiledWorkflow
reviewed_workflow = record workflow {
  tasks =
      task "analyse" []
      ∷ task "build" ("analyse" ∷ [])
      ∷ record (task "check" ("build" ∷ [])) { phase = "review" }
      ∷ [];
}

abbrev reviewed_rows : List TaskRow
reviewed_rows =
    analysed
    ∷ record pending_row { task_id = "build"; status = completed }
    ∷ record pending_row { task_id = "check"; status = completed }
    ∷ []

gate_passed : enforce_extra_review reviewed_workflow reviewed_rows reviewed_rows ≡ review_covered
unfolding enforce_extra_review covered_by depends_transitively search search_all task_by_id
gate_passed = refl

enforce_extra_review-IsReviewed_example : IsReviewed reviewed_workflow reviewed_rows "analyse"
enforce_extra_review-IsReviewed_example =
    enforce_extra_review-IsReviewed reviewed_workflow reviewed_rows reviewed_rows gate_passed
      analysed here refl

abbrev any_name : String → Bool
any_name k = true

abbrev any_edges : List (String × String) → Bool
any_edges e = true

validate_workflow_accepts_example :
    (validate_workflow any_name any_edges workflow ≡ valid_workflow)
    ↔ IsValid any_name any_edges workflow
validate_workflow_accepts_example = validate_workflow_accepts any_name any_edges workflow

validate_workflow_decides_example :
    (validate_workflow any_name any_edges workflow ≡ valid_workflow)
    ⊎ ((code : String) × (validate_workflow any_name any_edges workflow ≡ invalid_workflow code))
validate_workflow_decides_example = validate_workflow_decides any_name any_edges workflow

workflow_valid : validate_workflow any_name any_edges workflow ≡ valid_workflow
unfolding validate_workflow edges visit visit_all task_by_id
workflow_valid = refl

under_way : IsUnderWay workflow (analysed ∷ to_build ∷ [])
under_way = record { named = refl; statuses = λ r m. under_way_status r m }
  where
    under_way_status :
        (r : TaskRow)
        → In r (analysed ∷ to_build ∷ [])
        → (is_open r.status ≡ true) ⊎ (is_completed r.status ≡ true)
    under_way_status r here = inr refl
    under_way_status r (there here) = inl refl
    under_way_status r (there (there m)) = elim m [ ]

next_task_progress_example :
    (next_task workflow (analysed ∷ to_build ∷ []) ≡ all_completed)
    ⊎ ((t : CompiledTask) × (r : TaskRow) × (next_task workflow (analysed ∷ to_build ∷ [])
          ≡ runnable t r))
next_task_progress_example =
    next_task_progress any_name any_edges workflow (analysed ∷ to_build ∷ []) workflow_valid
      under_way
