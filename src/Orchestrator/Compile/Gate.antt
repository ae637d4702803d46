-- ===== src/Orchestrator/Compile/Gate.antt =====
-- The review gate that GoalTaskCompiler.compile of src/w1cip/orchestrator.py builds into a workflow.
use w1_nexus.Prelude.{
  ◌≡◌, refl, sym, ◌∙◌, ap, subst, String, Bool, true, false, not, Option, none, some, some-inj,
  List, [], ◌∷◌, ◌++◌, map, arith, ◌==◌, eq_iff, Bool-cases, Option-cases, inl, inr, elem, select,
  In, In-left, In-right, here, there,
}
use w1_nexus.Dependencies.Order.{elem-cons, elem-head, elem_cons_cases}
use w1_nexus.Orchestrator.Types.{CompiledTask}
use w1_nexus.Orchestrator.Compile.{
  Deliverable, Goal, unique, or_list, is_decision, required_of, needs_review, needs_approval,
  compiled, execution_task, checked_id, deliverable_ids, execute_name, verification_tasks,
  review_task, id_of, decision_task, decision_tasks, decide_name, approval_part, synthesis_task,
  tasks_of, with_ids, compile_tasks,
}
use w1_nexus.Orchestrator.Compile.Names.{elem-named_map}

-- A task that depends on another one, over a chain of direct dependencies.
pub data WaitsFor (ts : List CompiledTask) (target : String) : String → Type 0 where
  direct :
      (t : CompiledTask) → In t ts → elem target t.depends_on ≡ true → WaitsFor ts target t.task_id
  through :
      {d : String} (t : CompiledTask)
      → In t ts
      → elem d t.depends_on ≡ true
      → WaitsFor ts target d
      → WaitsFor ts target t.task_id

elem-left : (x : String) (xs ys : List String) → elem x xs ≡ true → elem x (xs ++ ys) ≡ true
elem-left x [] ys m = cc
elem-left x (y ∷ xs) ys m = elim (elem_cons_cases x y xs m) [
  | inl e ↦ subst (λ z. elem z (y ∷ (xs ++ ys)) ≡ true) e (elem-head y (xs ++ ys))
  | inr n ↦ elem-cons x y (xs ++ ys) (elem-left x xs ys n)
]

elem-select :
    (p : String → Bool) (x : String) (xs : List String)
    → elem x xs ≡ true
    → p x ≡ true
    → elem x (select p xs) ≡ true
elem-select p x [] m h = cc
elem-select p x (y ∷ xs) m h = elim (elem_cons_cases x y xs m) [
  | inl e ↦
      rw (ap p e ∙ h) (subst (λ z. elem z (y ∷ select p xs) ≡ true) e (elem-head y (select p xs)))
  | inr n ↦ elim (Bool-cases (p y)) [
    | inl f ↦ rw f (elem-cons x y (select p xs) (elem-select p x xs n h))
    | inr f ↦ rw f (elem-select p x xs n h)
  ]
]

elem-unique : (x : String) (xs : List String) → elem x xs ≡ true → elem x (unique xs) ≡ true
unfolding unique
elem-unique x [] m = m
elem-unique x (k ∷ xs) m = elim (Bool-cases (x == k)) [
  | inl e ↦
      subst (λ z. elem x (z ∷ select (λ y. not (y == k)) (unique xs)) ≡ true) ((eq_iff x k).0 e)
        (elem-head x (select (λ y. not (y == k)) (unique xs)))
  | inr e ↦ elim (elem_cons_cases x k xs m) [
    | inl f ↦ ground (arith, e, f, eq_iff x k)
    | inr n ↦
        elem-cons x k (select (λ y. not (y == k)) (unique xs))
          (elem-select (λ y. not (y == k)) x (unique xs) (elem-unique x xs n) (rw e refl))
  ]
]

module _ (canonical_id : String → Bool) (context_fields : List (String × List String))
    (domains : List String) where
  checked-name :
      (o : Option String) (x name : String)
      → checked_id canonical_id context_fields domains o ≡ some x
      → o ≡ some name
      → x ≡ name
  checked-name none x name h k = cc
  checked-name (some y) x name h k = ground (arith, h, k)

  ids-elem_cons :
      (d q : Deliverable) (ds : List Deliverable) (x name : String) (xs : List String)
      → checked_id canonical_id context_fields domains q.deliverable_id ≡ some x
      → d.deliverable_id ≡ some name
      → (In d ds → elem name xs ≡ true)
      → In d (q ∷ ds)
      → elem name (x ∷ xs) ≡ true
  ids-elem_cons d r ds x name xs f e later here =
      subst (λ z. elem name (z ∷ xs) ≡ true) (sym (checked-name d.deliverable_id x name f e))
        (elem-head name xs)
  ids-elem_cons d q ds x name xs f e later (there k) = elem-cons name x xs (later k)

  ids-elem :
      (ds : List Deliverable) (ids : List String) (d : Deliverable) (name : String)
      → deliverable_ids canonical_id context_fields domains ds ≡ some ids
      → In d ds
      → d.deliverable_id ≡ some name
      → elem name ids ≡ true
  unfolding deliverable_ids
  ids-elem [] ids d name h m e = elim m [ ]
  ids-elem (q ∷ ds) ids d name h m e =
      elim (Option-cases (checked_id canonical_id context_fields domains q.deliverable_id)) [
        | inl f ↦ cc (rw (f, deliverable_ids) at h)
        | inr (x, f) ↦
            elim (Option-cases (deliverable_ids canonical_id context_fields domains ds)) [
              | inl g ↦ cc (rw (f, g, deliverable_ids) at h)
              | inr (xs, g) ↦
                  subst (λ l. elem name l ≡ true) (some-inj (rw (f, g, deliverable_ids) at h))
                    (ids-elem_cons d q ds x name xs f e (λ k. ids-elem ds xs d name g k e) m)
            ]
      ]

  abbrev review_name : String
  review_name = "review-solution-package"

  -- A task that depends on the decisions, or on the review where there are none.
  decided-WaitsFor :
      (ts : List CompiledTask) (decided : List String) (t : CompiledTask)
      → ((d : String)
          → elem d decided ≡ true
          → In (decision_task canonical_id context_fields domains (review_name ∷ []) d) ts)
      → In t ts
      → t.depends_on
        ≡ or_list (map (decide_name canonical_id context_fields domains) decided) (review_name ∷ [])
      → WaitsFor ts review_name t.task_id
  decided-WaitsFor ts [] t decisions m e =
      direct t m (ap (elem review_name) e ∙ elem-head review_name [])
  decided-WaitsFor ts (d ∷ ds) t decisions m e =
      let name = decide_name canonical_id context_fields domains d in
      through t m
        (ap (elem name) e
          ∙ elem-head name (map (decide_name canonical_id context_fields domains) ds))
        (direct (decision_task canonical_id context_fields domains (review_name ∷ []) d)
          (decisions d (elem-head d ds)) (elem-head review_name []))

  decision-In :
      (before decided : List String) (d : String)
      → elem d decided ≡ true
      → In
          (decision_task canonical_id context_fields domains before d)
          (decision_tasks canonical_id context_fields domains before decided)
  decision-In before [] d m = cc
  decision-In before (x ∷ decided) d m = elim (elem_cons_cases d x decided m) [
    | inl e ↦
        subst
          (λ z.
            In (decision_task canonical_id context_fields domains before z)
              (decision_tasks canonical_id context_fields domains before (x ∷ decided)))
          e here
    | inr n ↦ there (decision-In before decided d n)
  ]

  final-WaitsFor :
      (ts : List CompiledTask) (decided : List String) (approval : Bool)
      → ((d : String)
          → elem d decided ≡ true
          → In (decision_task canonical_id context_fields domains (review_name ∷ []) d) ts)
      → ((t : CompiledTask)
          → In t
              (approval_part canonical_id context_fields domains approval (
                or_list
                  (map (decide_name canonical_id context_fields domains) decided)
                  (review_name ∷ []))).0
          → In t ts)
      → In
          (synthesis_task canonical_id context_fields domains (
            or_list
              (approval_part canonical_id context_fields domains approval (
                or_list
                  (map (decide_name canonical_id context_fields domains) decided)
                  (review_name ∷ []))).1
              (or_list
                (map (decide_name canonical_id context_fields domains) decided)
                (review_name ∷ []))))
          ts
      → WaitsFor ts review_name "synthesize-final-result"
  final-WaitsFor ts decided false decisions approvals m =
      decided-WaitsFor ts decided
        (synthesis_task canonical_id context_fields domains (
          or_list (map (decide_name canonical_id context_fields domains) decided)
            (review_name ∷ [])))
        decisions m refl
  final-WaitsFor ts decided true decisions approvals m =
      through (synthesis_task canonical_id context_fields domains ("approve-final-decisions" ∷ []))
        m (elem-head "approve-final-decisions" [])
        (decided-WaitsFor ts decided _ decisions (approvals _ here) refl)

  -- The synthesis waits for the review, and the review for every execution.
  abbrev pub IsGated : List Deliverable → List CompiledTask → Type 0
  IsGated ds ts =
      WaitsFor ts review_name "synthesize-final-result"
      × ((d : Deliverable) (name : String)
          → In d ds
          → d.deliverable_id ≡ some name
          → WaitsFor ts (execute_name canonical_id context_fields domains name) review_name)

  tasks-IsGated :
      (g : Goal) (ids : List String) (checks : List CompiledTask) (verifications : List String)
      → needs_review g ≡ true
      → deliverable_ids canonical_id context_fields domains (required_of g) ≡ some ids
      → IsGated
          (required_of g)
          (tasks_of canonical_id context_fields domains g ids checks verifications)
  tasks-IsGated g ids checks verifications e listed =
      let executed = map (execution_task canonical_id context_fields domains) ids in
      let executions = map (execute_name canonical_id context_fields domains) (unique ids) in
      let done = unique (executions ++ verifications) in
      let decided =
        map (id_of canonical_id context_fields domains) (select is_decision (required_of g)) in
      let decide = decision_tasks canonical_id context_fields domains (review_name ∷ []) decided in
      let approve = approval_part canonical_id context_fields domains (needs_approval g) (
        or_list (map (decide_name canonical_id context_fields domains) decided)
          (review_name ∷ [])) in
      let last = synthesis_task canonical_id context_fields domains (
        or_list approve.1 (
          or_list (map (decide_name canonical_id context_fields domains) decided)
            (review_name ∷ []))) in
      let review = review_task canonical_id context_fields domains done in
      let rest = review ∷ (decide ++ (approve.0 ++ last ∷ [])) in
      rw e (
        final-WaitsFor (executed ++ (checks ++ rest)) decided (needs_approval g)
            (λ d m. In-right executed _ (
              In-right checks _
                (there (In-left decide _ (decision-In (review_name ∷ []) decided d m)))))
            (λ t m.
              In-right executed _
                (In-right checks _ (there (In-right decide _ (In-left approve.0 _ m)))))
            (In-right executed _
              (In-right checks _ (there (In-right decide _ (In-right approve.0 _ here))))),
        (λ d name m k. direct review (In-right executed _ (In-right checks _ here)) (
            elem-unique (execute_name canonical_id context_fields domains name)
              (executions ++ verifications)
              (elem-left (execute_name canonical_id context_fields domains name) executions
                verifications
                (elem-named_map (execute_name canonical_id context_fields domains) name (unique ids)
                  (elem-unique name ids (ids-elem (required_of g) ids d name listed m k)))))),
      )

-- In the workflow of a goal that needs a review, by its risk, its error cost, several deliverables
-- or a decision, the synthesis of the final result depends, over a chain of dependencies, on the
-- review, and the review on the execution of every required deliverable.
pub compile_tasks-IsGated :
    (canonical_id : String → Bool) (context_fields : List (String × List String))
    (domains : List String) (g : Goal) (ts : List CompiledTask)
    → compile_tasks canonical_id context_fields domains g ≡ compiled ts
    → needs_review g ≡ true
    → IsGated canonical_id context_fields domains (required_of g) ts
unfolding compile_tasks
compile_tasks-IsGated canonical_id context_fields domains g ts h needed =
    with_ids-IsGated (deliverable_ids canonical_id context_fields domains (required_of g)) refl h
  where
    compiled-inj : {a b : List CompiledTask} → compiled a ≡ compiled b → a ≡ b
    compiled-inj h = cc

    with_ids-IsGated :
        (o : Option (List String))
        → deliverable_ids canonical_id context_fields domains (required_of g) ≡ o
        → with_ids canonical_id context_fields domains g o ≡ compiled ts
        → IsGated canonical_id context_fields domains (required_of g) ts
    with_ids-IsGated none l e = cc
    with_ids-IsGated (some []) l e = cc
    with_ids-IsGated (some (d ∷ ids)) l e =
        elim (Option-cases
          (verification_tasks canonical_id context_fields domains (d ∷ ids) g.success_criteria)) [
            | inl f ↦ cc (rw f at e)
            | inr ((checks, verifications), f) ↦
                subst (IsGated canonical_id context_fields domains (required_of g))
                  (compiled-inj (rw f at e))
                  (tasks-IsGated canonical_id context_fields domains g (d ∷ ids) checks
                    verifications needed l)
          ]
