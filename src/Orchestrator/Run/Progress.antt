-- ===== src/Orchestrator/Run/Progress.antt =====
-- A valid workflow does not get stuck in run of src/w1cip/orchestrator.py.
use w1_nexus.Prelude.{
  unique-first, first-named, elem-named, has_duplicate, some-inj, ◌≡◌, ◌⊎◌, refl, sym, ◌∙◌, ap,
  subst, String, Bool, true, false, ◌&&◌, none, some, List, [], ◌∷◌, map, arith, eq_iff, eqb,
  eqb_iff, Bool-cases, Option-cases, inl, inr, elem, elem-map, all, all-false, In-all, first,
  first-none, first-In, length, length-map, length-select-all, select, In, here, there,
  true-ne-false,
}
use w1_nexus.Dependencies.Order.{IsOrdered, Within, no_stuck}
use w1_nexus.Dependencies.Fuel.{IsClosed}
use w1_nexus.Orchestrator.Types.{CompiledTask, CompiledWorkflow, is_completed, is_open}
use w1_nexus.Orchestrator.Journal.{TaskRow}
use w1_nexus.Orchestrator.Graph.{task_row, graph_of, depends_of, valid_workflow, validate_workflow}
use w1_nexus.Orchestrator.Graph.Valid.{names_of, names-IsClosed, task_by_id-named, graph_of-named}
use w1_nexus.Orchestrator.Graph.Accepts.{valid-IsOrdered, validate_workflow_accepts}
use w1_nexus.Orchestrator.Run.{
  all_completed, runnable, next_task, is_ready, has_row, has_open, completed_names,
}

done_name :
    (rows : List TaskRow) (r : TaskRow)
    → In r rows
    → is_completed r.status ≡ true
    → elem r.task_id (completed_names rows) ≡ true
done_name [] r m e = elim m [ ]
done_name (q ∷ rows) r here e =
    rw (e, completed_names) (rw ((eq_iff r.task_id r.task_id).1 refl) refl)
done_name (q ∷ rows) r (there m) e = ground (arith, done_name rows r m e)

-- The rows of a run whose tasks are all pending, running or completed, in the workflow's order.
pub record IsUnderWay (w : CompiledWorkflow) (rows : List TaskRow) : Type 0 where
  pub named : map (λ r. r.task_id) rows ≡ names_of w
  pub statuses :
      (r : TaskRow) → In r rows → (is_open r.status ≡ true) ⊎ (is_completed r.status ≡ true)

module _ (w : CompiledWorkflow) (rows : List TaskRow) (u : IsUnderWay w rows) where
  row_of :
      (key : String)
      → elem key (names_of w) ≡ true
      → (r : TaskRow) × (task_row key rows ≡ some r) × In r rows × (r.task_id ≡ key)
  row_of key m = first-named (λ r. r.task_id) rows key (ap (elem key) u.named ∙ m)

  has_rows : all (has_row rows) w.tasks ≡ true
  has_rows = In-all (has_row rows) w.tasks λ t m.
      sym (elem-map (λ r. r.task_id) t.task_id rows)
      ∙ (ap (elem t.task_id) u.named ∙ elem-named (λ t. t.task_id) w.tasks t m)

  stuck : String → Bool
  stuck key = has_open (task_row key rows)

  -- A name without an open row is completed.
  settled :
      (key : String)
      → elem key (names_of w) ≡ true
      → stuck key ≡ false
      → elem key (completed_names rows) ≡ true
  unfolding stuck
  settled key m h =
      let (r, e, listed, same) = row_of key m in
      elim (u.statuses r listed) [
        | inl o ↦ absurd (true-ne-false (sym o ∙ (rw e at h)))
        | inr d ↦ subst (λ k. elem k (completed_names rows) ≡ true) same (done_name rows r listed d)
      ]

  -- With nothing ready, each open task waits for another one.
  waits :
      first (is_ready rows) w.tasks ≡ none
      → (key : String) (ds : List String) → graph_of w key ≡ some ds
      → stuck key ≡ true
      → Within ds (names_of w)
      → (d : String) × (elem d ds ≡ true) × (stuck d ≡ true)
  unfolding stuck
  waits none_ready key ds g h known =
      let (t, listed, named, e) = task_by_id-named w key (graph_of-named w key ds g) in
      let same : t.depends_on ≡ ds = depends-inj (sym (ap depends_of e) ∙ g) in
      let blocked : is_ready rows t ≡ false =
        first-none (is_ready rows) w.tasks none_ready t listed in
      let (d, md, missing) =
        all-false (λ x. elem x (completed_names rows)) t.depends_on
          (unready (has_open (task_row t.task_id rows)) _
            (subst (λ k. has_open (task_row k rows) ≡ true) (sym named) h) blocked) in
      let md' : elem d ds ≡ true = subst (λ l. elem d l ≡ true) same md in
      elim (Bool-cases (has_open (task_row d rows))) [
        | inl o ↦ (d, md', o)
        | inr o ↦ absurd (true-ne-false (sym (settled d (known d md') o) ∙ missing))
      ]
    where
      depends-inj : {a b : List String} → some a ≡ some b → a ≡ b
      depends-inj h = cc

      unready : (a b : Bool) → a ≡ true → (a && b) ≡ false → b ≡ false
      unready a b h k = ground arith

  module _ (order : List String) (ordered : IsOrdered (graph_of w) order)
      (covers : Within (names_of w) order) (unique : has_duplicate (names_of w) ≡ false)
      (closed : IsClosed (graph_of w) (names_of w))
      (none_ready : first (is_ready rows) w.tasks ≡ none) where
    deps_known :
        (key : String) (ds : List String) → graph_of w key ≡ some ds → Within ds (names_of w)
    deps_known key ds g =
        let (es, f, known) = closed key (graph_of-named w key ds g) in
        subst (λ l. Within l (names_of w)) (some-inj (sym f ∙ g)) known

    unstuck : (r : TaskRow) → In r rows → is_open r.status ≡ false
    unfolding stuck
    unstuck r m =
        let here = unique-first (λ r. r.task_id) rows (ap has_duplicate u.named ∙ unique) r m in
        ap has_open (sym here)
        ∙ no_stuck (graph_of w) stuck order ordered
            (λ key ds mk g h. waits none_ready key ds g h (deps_known key ds g)) r.task_id
            (covers r.task_id
              (ap (elem r.task_id) (sym u.named) ∙ (elem-named (λ r. r.task_id) rows r m)))

    all_done : all (λ r. is_completed r.status) rows ≡ true
    all_done =
        In-all (λ r. is_completed r.status) rows
          λ r m. elim (u.statuses r m) [
            | inr d ↦ d
            | inl o ↦ absurd (true-ne-false (sym o ∙ unstuck r m))
          ]

    count_done : eqb (length (completed_names rows)) (length w.tasks) ≡ true
    count_done =
        let a =
          length-map (λ (r : TaskRow). r.task_id) (select (λ r. is_completed r.status) rows) in
        let b = length-select-all (λ r. is_completed r.status) rows all_done in
        let c = length-map (λ (r : TaskRow). r.task_id) rows in
        let d = length-map (λ (t : CompiledTask). t.task_id) w.tasks in
        let e : length (map (λ r. r.task_id) rows) ≡ length (names_of w) = ap length u.named in
        (eqb_iff _ _).1 (omega (arith, a, b, c, d, e))

-- In a run of a valid workflow whose rows are the workflow's tasks, each pending, running or
-- completed, the next pass completes the run or has a task to start: run does not fail for want
-- of a runnable task.
pub next_task_progress :
    (canonical_id : String → Bool) (acyclic : List (String × String) → Bool) (w : CompiledWorkflow)
    (rows : List TaskRow)
    → validate_workflow canonical_id acyclic w ≡ valid_workflow
    → IsUnderWay w rows
    → (next_task w rows ≡ all_completed)
      ⊎ ((t : CompiledTask) × (r : TaskRow) × (next_task w rows ≡ runnable t r))
unfolding next_task
next_task_progress canonical_id acyclic w rows valid u =
    let (order, ordered, covers) = valid-IsOrdered canonical_id acyclic w valid in
    let v = (validate_workflow_accepts canonical_id acyclic w).0 valid in
    elim (Bool-cases (eqb (length (completed_names rows)) (length w.tasks))) [
      | inl e ↦ inl (rw e refl)
      | inr e ↦ elim (Option-cases (first (is_ready rows) w.tasks)) [
        | inl f ↦ absurd (
            true-ne-false (
              sym (
                count_done w rows u order ordered covers v.unique
                  (names-IsClosed w canonical_id v.sound) f)
              ∙ e))
        | inr (t, f) ↦
            let listed = first-In (is_ready rows) w.tasks t f in
            let (r, g, m, same) =
              row_of w rows u t.task_id (elem-named (λ t. t.task_id) w.tasks t listed) in
            inr (t, r, rw (e, has_rows w rows u, f) (rw g refl))
      ]
    ]
