-- ===== src/Orchestrator/Graph/Valid.antt =====
-- What _validate_workflow of src/w1cip/orchestrator.py accepts.
use w1_nexus.Prelude.{
  first-named, elem-named, suc, ◌≡◌, refl, ap, String, Bool, true, false, none, some, List, [], ◌∷◌,
  map, arith, ◌==◌, eq_iff, Bool-cases, Option-cases, inl, inr, elem, first-holds, first-In, length,
  is_subset, all, In, here, there, and-left, and-right, subst,
}
use w1_nexus.Dependencies.{visit_all, visit}
use w1_nexus.Dependencies.Fuel.{
  IsVerdict, IsClosed, visit_all-IsVerdict, visit-IsVerdict, off_path_le_length,
}
use w1_nexus.Orchestrator.Types.{CompiledTask, CompiledWorkflow}
use w1_nexus.Orchestrator.Graph.{task_by_id, depends_of, graph_of, task_error, first_task_error}

abbrev pub names_of : CompiledWorkflow → List String
names_of w = map (λ t. t.task_id) w.tasks

-- The checks on one task.
pub record IsSound (canonical_id : String → Bool) (known : List String) (t : CompiledTask)
    : Type 0 where
  pub canonical : canonical_id t.task_id ≡ true
  pub other : elem t.task_id t.depends_on ≡ false
  pub known_dependencies : is_subset t.depends_on known ≡ true

module _ (canonical_id : String → Bool) (known : List String) where
  task_error-IsSound :
      (t : CompiledTask) → task_error canonical_id known t ≡ none → IsSound canonical_id known t
  task_error-IsSound t h = record {
    canonical = ground arith;
    other = ground arith;
    known_dependencies = ground arith;
  }

  IsSound-task_error :
      (t : CompiledTask) → IsSound canonical_id known t → task_error canonical_id known t ≡ none
  IsSound-task_error t s = rw (s.canonical, s.other, s.known_dependencies) refl

  IsSound-cons :
      {u t : CompiledTask} {tasks : List CompiledTask}
      → IsSound canonical_id known u
      → (In t tasks → IsSound canonical_id known t)
      → In t (u ∷ tasks)
      → IsSound canonical_id known t
  IsSound-cons s f here = s
  IsSound-cons s f (there m) = f m

  pub first_task_error-none :
      (tasks : List CompiledTask)
      → first_task_error canonical_id known tasks ≡ none
      → (t : CompiledTask) → In t tasks
      → IsSound canonical_id known t
  first_task_error-none [] h t m = elim m [ ]
  first_task_error-none (u ∷ tasks) h t m = elim (Option-cases (task_error canonical_id known u)) [
    | inr (code, e) ↦ cc (rw (e, first_task_error) at h)
    | inl e ↦
        IsSound-cons (task_error-IsSound u e)
          (first_task_error-none tasks (rw (e, first_task_error) at h) t) m
  ]

  pub none-first_task_error :
      (tasks : List CompiledTask)
      → ((t : CompiledTask) → In t tasks → IsSound canonical_id known t)
      → first_task_error canonical_id known tasks ≡ none
  none-first_task_error [] h = refl
  none-first_task_error (t ∷ tasks) h =
      rw (IsSound-task_error t (h t here), first_task_error)
        (none-first_task_error tasks (λ u m. h u (there m)))

all-elem :
    (p : String → Bool) (x : String) (xs : List String)
    → all p xs ≡ true
    → elem x xs ≡ true
    → p x ≡ true
all-elem p x [] h m = cc
all-elem p x (y ∷ ys) h m = elim (Bool-cases (y == x)) [
  | inl e ↦ subst (λ z. p z ≡ true) ((eq_iff y x).0 e) (and-left (p y) _ h)
  | inr e ↦ all-elem p x ys (and-right (p y) _ h) (rw e at m)
]

module _ (w : CompiledWorkflow) where
  -- A name of the workflow is that of a task, which the lookup finds.
  pub task_by_id-named :
      (key : String)
      → elem key (names_of w) ≡ true
      → (t : CompiledTask) × In t w.tasks × (t.task_id ≡ key) × (task_by_id key w ≡ some t)
  unfolding task_by_id
  task_by_id-named key m =
      let (t, e, listed, named) = first-named (λ t. t.task_id) w.tasks key m in
      (t, listed, named, e)

  pub graph_of-named :
      (key : String) (ds : List String) → graph_of w key ≡ some ds → elem key (names_of w) ≡ true
  unfolding task_by_id
  graph_of-named key ds h = elim (Option-cases (task_by_id key w)) [
    | inl e ↦ cc (rw e at h)
    | inr (t, e) ↦
        let holds = first-holds (λ t. t.task_id == key) w.tasks t e in
        subst (λ k. elem k (names_of w) ≡ true) ((eq_iff t.task_id key).0 holds)
          (elem-named (λ t. t.task_id) w.tasks t (first-In (λ t. t.task_id == key) w.tasks t e))
  ]

  module _ (canonical_id : String → Bool)
      (sound : (t : CompiledTask) → In t w.tasks → IsSound canonical_id (names_of w) t) where
    pub names-IsClosed : IsClosed (graph_of w) (names_of w)
    names-IsClosed key m =
        let (t, listed, named, e) = task_by_id-named key m in
        (
          t.depends_on,
          ap depends_of e,
          λ x mx.
              all-elem (λ d. elem d (names_of w)) x t.depends_on (sound t listed).known_dependencies
                mx,
        )

    pub walk-IsVerdict :
        IsVerdict (visit_all (visit (suc (length (names_of w))) (graph_of w) []) (names_of w) [])
    walk-IsVerdict =
        visit_all-IsVerdict (graph_of w) (names_of w) names-IsClosed
          (visit (suc (length (names_of w))) (graph_of w) [])
          (λ k v m.
            visit-IsVerdict (graph_of w) (names_of w) names-IsClosed _ [] k v m
              (omega (arith, off_path_le_length [] (names_of w))))
          (names_of w) [] (λ x m. m)
