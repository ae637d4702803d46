-- ===== src/Orchestrator/Compile.antt =====
-- GoalTaskCompiler and TeamPlanner of src/w1cip/orchestrator.py, and _validate_team_can_cover. A goal
-- is what they read of its JSON value, with `none` for a key that is missing.
pub mod Names
pub mod Listed
pub mod Accepted
pub mod Gate
pub mod Team
use Prim.Native.String.{◌++◌ as ◌<>◌}
use w1_nexus.Prelude.{
  ℕ, String, Bool, true, false, not, ◌&&◌, ◌||◌, Option, none, some, List, [], ◌∷◌, ◌++◌, map, leb,
  ltb, ◌==◌, if◌then◌else◌, length, any, select, first, elem, lookup, pos,
}
use w1_nexus.Orchestrator.Types.{CompiledTask, CompiledWorkflow}
use w1_nexus.Orchestrator.Graph.{
  Verdict, valid_workflow, invalid_workflow, missing_task, verdict_fuel, validate_workflow,
}

pub record Deliverable : Type 0 where
  pub deliverable_id : Option String
  pub kind : Option String
  pub required : Bool

pub record Criterion : Type 0 where
  pub criterion_id : Option String
  pub acceptance_effect : Option String
  pub verifiability : Option String
  pub applies_to : List String

pub record Goal : Type 0 where
  pub deliverables : List Deliverable
  pub constraints : ℕ
  pub success_criteria : List Criterion
  pub risk_level : Option String
  pub error_cost : Option String
  pub autonomy_mode : Option String
  -- human_approval_required of the items of decision_policy
  pub approvals : List Bool

abbrev pub or_else : Option String → String → String
or_else none d = d
or_else (some x) d = x

abbrev pub is_text : Option String → String → Bool
is_text none y = false
is_text (some x) y = x == y

-- `verifiability in VERIFIABLE_KINDS`
abbrev pub is_verifiable : Option String → Bool
is_verifiable none = false
is_verifiable (some v) = elem v ("deterministic" ∷ "empirical" ∷ "source_based" ∷ "mixed" ∷ [])

-- `tuple(dict.fromkeys(xs))`
unfoldable pub unique : List String → List String
unique [] = []
unique (x ∷ xs) = x ∷ select (λ y. not (y == x)) (unique xs)

abbrev pub is_empty : List String → Bool
is_empty [] = true
is_empty (x ∷ xs) = false

-- `xs or ys`
abbrev pub or_list : List String → List String → List String
or_list [] ys = ys
or_list (x ∷ xs) ys = x ∷ xs

-- _complexity
abbrev pub complexity : Goal → String
complexity g =
    if leb (length g.deliverables) 2 && leb g.constraints 3
    then "bounded"
    else if leb (length g.deliverables) 6 && leb g.constraints 10
    then "multi_step"
    else "open_ended"

abbrev pub risk_of : Goal → String
risk_of g = or_else g.risk_level "low"

abbrev pub cost_of : Goal → String
cost_of g = or_else g.error_cost "minor"

abbrev pub is_risky : String → String → Bool
is_risky risk cost = elem risk ("medium" ∷ "high" ∷ []) || elem cost ("material" ∷ "severe" ∷ [])

abbrev pub is_decision : Deliverable → Bool
is_decision d = is_text d.kind "decision"

abbrev pub required_of : Goal → List Deliverable
required_of g = select (λ d. d.required) g.deliverables

abbrev pub needs_review : Goal → Bool
needs_review g =
    is_risky (risk_of g) (cost_of g)
    || (ltb 1 (length (required_of g)) || any is_decision (required_of g))

abbrev pub needs_approval : Goal → Bool
needs_approval g = is_text g.autonomy_mode "human_approval_required" || any (λ a. a) g.approvals

-- What compile raises, or its result.
pub data Compiled (A : Type 0) : Type 0 where
  compiled : A → Compiled A
  compilation_error : String → Compiled A

module _ (canonical_id : String → Bool) (context_fields : List (String × List String))
    (domains : List String) where
  abbrev fields_of : Option (List String) → List String
  fields_of none = []
  fields_of (some fields) = fields

  abbrev pub plain_task : String → String → String → String → String → List String → CompiledTask
  plain_task task_id title phase role output depends_on = record {
    task_id = task_id;
    title = title;
    phase = phase;
    role = role;
    expected_output_type = output;
    depends_on = depends_on;
    deliverable_id = none;
    criterion_id = none;
    required_context_fields = [];
    estimated_units = pos 1;
    domains = domains;
  }

  abbrev pub execution_task : String → CompiledTask
  execution_task d =
      record (plain_task ("execute-" <> d) ("Produce " <> d) "execution" "executor" "contribution"
        []) {
          deliverable_id = some d;
          required_context_fields = fields_of (lookup d context_fields);
        }

  -- `isinstance(x, str)` and the pattern.
  abbrev pub checked_id : Option String → Option String
  checked_id none = none
  checked_id (some x) = if canonical_id x then some x else none

  -- The names of the deliverables, or the error of the first that is not canonical.
  unfoldable pub deliverable_ids : List Deliverable → Option (List String)
  deliverable_ids [] = some []
  deliverable_ids (d ∷ ds) =
      let rest = deliverable_ids ds in
      elim (checked_id d.deliverable_id) [
        | none ↦ none
        | some x ↦ elim rest [ none ↦ none | some xs ↦ some (x ∷ xs) ]
      ]

  abbrev pub execute_name : String → String
  execute_name d = "execute-" <> d

  abbrev pub is_checked : Criterion → Bool
  is_checked c =
      is_text c.acceptance_effect "required_for_completion" && is_verifiable c.verifiability

  abbrev pub upstream_of : List String → Criterion → List String
  upstream_of ids c =
      or_list (map execute_name (select (λ x. elem x ids) c.applies_to))
        (map execute_name (unique ids))

  abbrev pub verify_name : String → String
  verify_name c = "verify-" <> c

  abbrev pub criterion_tasks : List String → Criterion → String → List CompiledTask
  criterion_tasks ids c name =
      record (plain_task ("collect-evidence-" <> name) ("Collect evidence for " <> name)
        "verification" "verifier" "evidence" (upstream_of ids c)) { criterion_id = some name }
      ∷ record (plain_task (verify_name name) ("Verify " <> name) "verification" "verifier"
          "verification" (("collect-evidence-" <> name) ∷ [])) { criterion_id = some name }
      ∷ []

  -- The tasks of the criteria and the names of the verifications, or invalid_criterion_id.
  unfoldable pub verification_tasks :
      List String → List Criterion → Option (List CompiledTask × List String)
  verification_tasks ids [] = some ([], [])
  verification_tasks ids (c ∷ cs) =
      let rest = verification_tasks ids cs in
      if is_checked c
      then elim (checked_id c.criterion_id) [
        | none ↦ none
        | some name ↦ elim rest [
          | none ↦ none
          | some (tasks, names) ↦
              some (criterion_tasks ids c name ++ tasks, verify_name name ∷ names)
        ]
      ]
      else rest

  abbrev pub review_task : List String → CompiledTask
  review_task depends_on =
      plain_task "review-solution-package" "Review the solution package" "review" "reviewer"
        "review" depends_on

  -- The review, and what decisions depend on.
  abbrev pub review_part : Bool → List String → List CompiledTask × List String
  review_part true done = (review_task done ∷ [], "review-solution-package" ∷ [])
  review_part false done = ([], done)

  abbrev pub id_of : Deliverable → String
  id_of d = or_else d.deliverable_id ""

  abbrev pub decision_task : List String → String → CompiledTask
  decision_task depends_on d =
      record (plain_task ("decide-" <> d) ("Decide " <> d) "approval" "decision_authority"
        "decision" depends_on) { deliverable_id = some d }

  abbrev pub decision_tasks : List String → List String → List CompiledTask
  decision_tasks depends_on ids = map (decision_task depends_on) ids

  abbrev pub decide_name : String → String
  decide_name d = "decide-" <> d

  -- The final approval, and its name.
  abbrev pub approval_part : Bool → List String → List CompiledTask × List String
  approval_part true depends_on = (
    plain_task "approve-final-decisions" "Approve the final decisions" "approval"
          "decision_authority" "approval" depends_on
        ∷ [],
    "approve-final-decisions" ∷ [],
  )
  approval_part false depends_on = ([], [])

  abbrev pub synthesis_task : List String → CompiledTask
  synthesis_task depends_on =
      plain_task "synthesize-final-result" "Synthesize the final result" "synthesis" "synthesizer"
        "final_result" depends_on

  -- `(review_id,) if review_id else tuple(verification_tasks or executions)`
  abbrev pub last_of : Bool → List String → List String → List String
  last_of true verifications executions = "review-solution-package" ∷ []
  last_of false verifications executions = or_list verifications executions

  -- The tasks in the order in which compile appends them.
  abbrev pub tasks_of : Goal → List String → List CompiledTask → List String → List CompiledTask
  tasks_of g ids checks verifications =
      let executions = map execute_name (unique ids) in
      let (reviews, before) = review_part (needs_review g) (unique (executions ++ verifications)) in
      let decided = map id_of (select is_decision (required_of g)) in
      let decisions = map decide_name decided in
      let (approvals, approved) = approval_part (needs_approval g) (or_list decisions before) in
      let last =
        or_list approved (or_list decisions (last_of (needs_review g) verifications executions)) in
      map execution_task ids
      ++ (checks
          ++ (reviews
              ++ (decision_tasks before decided ++ (approvals ++ synthesis_task last ∷ []))))

  abbrev pub with_checks :
      Goal → List String → Option (List CompiledTask × List String) → Compiled (List CompiledTask)
  with_checks g ids none = compilation_error "invalid_criterion_id"
  with_checks g ids (some (checks, verifications)) = compiled (tasks_of g ids checks verifications)

  abbrev pub with_ids : Goal → Option (List String) → Compiled (List CompiledTask)
  with_ids g none = compilation_error "invalid_deliverable_id"
  with_ids g (some []) = compilation_error "goal_has_no_required_deliverables"
  with_ids g (some (d ∷ ids)) =
      with_checks g (d ∷ ids) (verification_tasks (d ∷ ids) g.success_criteria)

  -- compile, up to the checks at its end.
  unfoldable pub compile_tasks : Goal → Compiled (List CompiledTask)
  unfolding deliverable_ids verification_tasks unique
  compile_tasks g = with_ids g (deliverable_ids (required_of g))

  -- `{task.role for task in workflow.tasks} - declared_roles` is empty.
  abbrev pub covers : List String → List CompiledTask → Bool
  covers declared [] = true
  covers declared (t ∷ ts) = elem t.role declared && covers declared ts

  abbrev pub after_validation : List String → CompiledWorkflow → Verdict → Compiled CompiledWorkflow
  after_validation declared w valid_workflow =
      if covers declared w.tasks
      then compiled w
      else compilation_error "team_plan_missing_workflow_role"
  after_validation declared w (invalid_workflow code) = compilation_error code
  after_validation declared w missing_task = compilation_error "KeyError"
  after_validation declared w verdict_fuel = compilation_error "fuel"

  abbrev pub with_tasks :
      (List (String × String) → Bool)
      → Goal
      → List String
      → Compiled (List CompiledTask)
      → Compiled CompiledWorkflow
  with_tasks acyclic g declared (compilation_error code) = compilation_error code
  with_tasks acyclic g declared (compiled tasks) =
      let w : CompiledWorkflow = record {
        tasks = tasks;
        risk_level = risk_of g;
        error_cost = cost_of g;
        task_complexity = complexity g;
      } in
      after_validation declared w (validate_workflow canonical_id acyclic w)

  -- compile; `declared` are the roles of the team plan.
  unfoldable pub compile :
      (List (String × String) → Bool) → Goal → List String → Compiled CompiledWorkflow
  unfolding compile_tasks validate_workflow
  compile acyclic g declared = with_tasks acyclic g declared (compile_tasks g)
