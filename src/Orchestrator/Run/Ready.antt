-- ===== src/Orchestrator/Run/Ready.antt =====
-- Which task OrchestratorCore.run of src/w1cip/orchestrator.py takes next.
use w1_nexus.Prelude.{
  all-In, ◌≡◌, refl, sym, ◌∙◌, ap, String, true, Option, none, some, List, [], ◌∷◌, ◌==◌, eq_iff,
  Bool-cases, Option-cases, inl, inr, all, elem, first, length, eqb, In, here, there, first-In,
  first-holds, and-left, and-right,
}
use w1_nexus.Orchestrator.Types.{CompiledTask, CompiledWorkflow, is_completed, is_open}
use w1_nexus.Orchestrator.Journal.{TaskRow}
use w1_nexus.Orchestrator.Graph.{task_row}
use w1_nexus.Orchestrator.Run.{
  runnable, with_row, next_task, is_ready, has_row, has_open, completed_names,
}

-- A completed row of a task.
pub record IsDone (rows : List TaskRow) (name : String) : Type 0 where
  pub row : TaskRow
  pub listed : In row rows
  pub named : row.task_id ≡ name
  pub finished : is_completed row.status ≡ true

later-IsDone :
    (r : TaskRow) (rows : List TaskRow) (d : String) → IsDone rows d → IsDone (r ∷ rows) d
later-IsDone r rows d x = record {
  row = x.row;
  listed = there x.listed;
  named = x.named;
  finished = x.finished;
}

completed_names-IsDone :
    (rows : List TaskRow) (d : String) → elem d (completed_names rows) ≡ true → IsDone rows d
completed_names-IsDone [] d h = cc
completed_names-IsDone (r ∷ rows) d h = elim (Bool-cases (is_completed r.status)) [
  | inr e ↦ later-IsDone r rows d (completed_names-IsDone rows d (rw (e, completed_names) at h))
  | inl e ↦ elim (Bool-cases (r.task_id == d)) [
    | inl f ↦ record { row = r; listed = here; named = (eq_iff r.task_id d).0 f; finished = e }
    | inr f ↦
        later-IsDone r rows d
          (completed_names-IsDone rows d (rw f at (rw (e, completed_names) at h)))
  ]
]

-- What holds of a task that is started.
pub record IsStartable (w : CompiledWorkflow) (rows : List TaskRow) (t : CompiledTask) (r : TaskRow)
    : Type 0 where
  pub listed : In t w.tasks
  pub row_listed : In r rows
  pub named : r.task_id ≡ t.task_id
  pub open_row : is_open r.status ≡ true
  pub dependencies : (d : String) → In d t.depends_on → IsDone rows d

runnable-inj :
    {t u : CompiledTask} {r q : TaskRow} → runnable t r ≡ runnable u q → (t ≡ u) × (r ≡ q)
runnable-inj h = (cc, cc)

ready-IsStartable :
    (w : CompiledWorkflow) (rows : List TaskRow) (u : CompiledTask)
    → first (is_ready rows) w.tasks ≡ some u
    → (o : Option TaskRow) → task_row u.task_id rows ≡ o
    → (t : CompiledTask) (r : TaskRow) → with_row u o ≡ runnable t r
    → IsStartable w rows t r
ready-IsStartable w rows u f none e t r h = cc
ready-IsStartable w rows u f (some q) e t r h =
    let (same, row_same) = runnable-inj h in
    let ready = first-holds (is_ready rows) w.tasks u f in
    let startable : IsStartable w rows u q = record {
      listed = first-In (is_ready rows) w.tasks u f;
      row_listed = first-In (λ x. x.task_id == u.task_id) rows q e;
      named = (eq_iff q.task_id u.task_id).0 (first-holds (λ x. x.task_id == u.task_id) rows q e);
      open_row = ap has_open (sym e) ∙ and-left (has_open (task_row u.task_id rows)) _ ready;
      dependencies = λ d m. completed_names-IsDone rows d (
          all-In (λ x. elem x (completed_names rows)) u.depends_on
            (and-right (has_open (task_row u.task_id rows)) _ ready) d m);
    } in
    subst2 same row_same startable
  where
    subst2 :
        {u t : CompiledTask} {q r : TaskRow}
        → u ≡ t
        → q ≡ r
        → IsStartable w rows u q
        → IsStartable w rows t r
    subst2 a b x = rw (← a, ← b) x

-- A run starts a task only if it is one of the workflow, its row is pending or running, and each of
-- the tasks that it depends on has a completed row.
pub next_task-IsStartable :
    (w : CompiledWorkflow) (rows : List TaskRow) (t : CompiledTask) (r : TaskRow)
    → next_task w rows ≡ runnable t r
    → IsStartable w rows t r
unfolding next_task
next_task-IsStartable w rows t r h =
    elim (Bool-cases (eqb (length (completed_names rows)) (length w.tasks))) [
      | inl e ↦ cc (rw e at h)
      | inr e ↦ elim (Bool-cases (all (has_row rows) w.tasks)) [
        | inr f ↦ cc (rw f at (rw e at h))
        | inl f ↦ elim (Option-cases (first (is_ready rows) w.tasks)) [
          | inl g ↦ cc (rw (g, next_task) at (rw f at (rw e at h)))
          | inr (u, g) ↦
              ready-IsStartable w rows u g _ refl t r (rw (g, next_task) at (rw f at (rw e at h)))
        ]
      ]
    ]
