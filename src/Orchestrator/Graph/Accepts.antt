-- ===== src/Orchestrator/Graph/Accepts.antt =====
-- The verdict of _validate_workflow of src/w1cip/orchestrator.py, told apart from its walk: the checks
-- on the names, and a rank that falls along the dependencies.
use w1_nexus.Prelude.{
  unique-first, elem-named, ℕ, suc, ◌<◌, ◌≡◌, ◌↔◌, ◌⊎◌, refl, sym, ◌∙◌, ap, String, Bool, true,
  false, some, some-inj, List, [], ◌==◌, eq_iff, Bool-cases, Option-cases, inl, inr, elem,
  first-holds, first-In, length, has_duplicate, In, subst,
}
use w1_nexus.Dependencies.{Walk, walked, walk_cycle, walk_key_error, walk_fuel, visit_all, visit}
use w1_nexus.Dependencies.Order.{Within, IsOrdered, visit_all-Extends, visit-Extends}
use w1_nexus.Dependencies.Fuel.{IsVerdict}
use w1_nexus.Dependencies.Rank.{
  NoCycle, IsRanked, visit_all-NoCycle, visit-NoCycle, height, height-lt,
}
use w1_nexus.Orchestrator.Types.{CompiledTask, CompiledWorkflow}
use w1_nexus.Orchestrator.Graph.{
  task_by_id, depends_of, graph_of, first_task_error, edges, valid_workflow, invalid_workflow,
  verdict_of_walk, validate_workflow,
}
use w1_nexus.Orchestrator.Graph.Valid.{
  names_of, IsSound, first_task_error-none, none-first_task_error, walk-IsVerdict,
}

-- What makes a workflow valid.
pub record IsValid (canonical_id : String → Bool) (acyclic : List (String × String) → Bool)
    (w : CompiledWorkflow) : Type 0 where
  pub unique : has_duplicate (names_of w) ≡ false
  pub sound : (t : CompiledTask) → In t w.tasks → IsSound canonical_id (names_of w) t
  pub accepted : acyclic (edges w.tasks) ≡ true
  pub rank : String → ℕ
  pub falls :
      (t : CompiledTask) (d : String)
      → In t w.tasks
      → elem d t.depends_on ≡ true
      → rank d < rank t.task_id

module _ (canonical_id : String → Bool) (acyclic : List (String × String) → Bool)
    (w : CompiledWorkflow) where
  abbrev walk : Walk
  walk = visit_all (visit (suc (length (names_of w))) (graph_of w) []) (names_of w) []

  -- The checks that come before the walk.
  record IsChecked : Type 0 where
    unique : has_duplicate (names_of w) ≡ false
    sound : (t : CompiledTask) → In t w.tasks → IsSound canonical_id (names_of w) t
    accepted : acyclic (edges w.tasks) ≡ true

  checked_cases :
      ((code : String) × (validate_workflow canonical_id acyclic w ≡ invalid_workflow code))
      ⊎ (IsChecked × (validate_workflow canonical_id acyclic w ≡ verdict_of_walk walk))
  unfolding validate_workflow
  checked_cases = elim (Bool-cases (has_duplicate (names_of w))) [
    | inl e ↦ inl ("duplicate_task_id", rw e refl)
    | inr e ↦ elim (Option-cases (first_task_error canonical_id (names_of w) w.tasks)) [
      | inr (code, f) ↦ inl (code, rw (e, f) refl)
      | inl f ↦ elim (Bool-cases (acyclic (edges w.tasks))) [
        | inr g ↦ inl ("task_dependency_cycle", rw (e, f, g) refl)
        | inl g ↦ inr (
          record {
            unique = e;
            sound = first_task_error-none canonical_id (names_of w) w.tasks f;
            accepted = g;
          },
          rw (e, f, g) refl,
        )
      ]
    ]
  ]

  checked-verdict : IsChecked → validate_workflow canonical_id acyclic w ≡ verdict_of_walk walk
  unfolding validate_workflow
  checked-verdict c =
      rw (c.unique, none-first_task_error canonical_id (names_of w) w.tasks c.sound, c.accepted)
        refl

  unique-task_by_id :
      IsChecked → (t : CompiledTask) → In t w.tasks → task_by_id t.task_id w ≡ some t
  unfolding task_by_id
  unique-task_by_id c t m = unique-first (λ t. t.task_id) w.tasks c.unique t m

  ordered-IsValid :
      IsChecked → (out : List String) → walk ≡ walked out → IsValid canonical_id acyclic w
  ordered-IsValid c out e =
      let (ordered, old, all) =
        visit_all-Extends (graph_of w) (visit (suc (length (names_of w))) (graph_of w) [])
          (visit-Extends (graph_of w) (suc (length (names_of w))) []) (names_of w) [] out e tt in
      record {
        unique = c.unique;
        sound = c.sound;
        accepted = c.accepted;
        rank = λ k. height k out;
        falls = λ t d m md.
            (height-lt (graph_of w) out ordered t.task_id t.depends_on
              (all t.task_id (elem-named (λ t. t.task_id) w.tasks t m))
              (ap depends_of (unique-task_by_id c t m)) d md).1;
      }

  IsValid-IsRanked : (v : IsValid canonical_id acyclic w) → IsRanked (graph_of w) v.rank
  unfolding task_by_id
  IsValid-IsRanked v key ds g d md = elim (Option-cases (task_by_id key w)) [
    | inl e ↦ cc (rw e at g)
    | inr (t, e) ↦
        let holds = first-holds (λ t. t.task_id == key) w.tasks t e in
        let listed = first-In (λ t. t.task_id == key) w.tasks t e in
        let same : t.depends_on ≡ ds = some-inj (rw e at g) in
        subst (λ k. v.rank d < v.rank k) ((eq_iff t.task_id key).0 holds)
          (v.falls t d listed (ap (elem d) same ∙ md))
  ]

  verdict_of-NoCycle : (r : Walk) → IsVerdict r → NoCycle r → verdict_of_walk r ≡ valid_workflow
  verdict_of-NoCycle (walked out) h n = refl
  verdict_of-NoCycle walk_cycle h n = absurd n
  verdict_of-NoCycle walk_key_error h n = absurd h
  verdict_of-NoCycle walk_fuel h n = absurd h

  IsValid-valid :
      IsValid canonical_id acyclic w → validate_workflow canonical_id acyclic w ≡ valid_workflow
  IsValid-valid v =
      checked-verdict (record { unique = v.unique; sound = v.sound; accepted = v.accepted })
      ∙ verdict_of-NoCycle walk (walk-IsVerdict w canonical_id v.sound) (
          visit_all-NoCycle (graph_of w) v.rank (IsValid-IsRanked v)
            (visit (suc (length (names_of w))) (graph_of w) []) (names_of w) []
            (λ k u m.
              visit-NoCycle (graph_of w) v.rank (IsValid-IsRanked v) (suc (length (names_of w))) []
                k u (λ x mx. cc)))

  valid-checked :
      validate_workflow canonical_id acyclic w ≡ valid_workflow
      → IsChecked × (validate_workflow canonical_id acyclic w ≡ verdict_of_walk walk)
  valid-checked h = elim checked_cases [ inl (code, e) ↦ cc (sym e ∙ h) | inr (c, e) ↦ (c, e) ]

  valid-walked :
      (r : Walk)
      → walk ≡ r
      → verdict_of_walk r ≡ valid_workflow
      → (out : List String) × (walk ≡ walked out)
  valid-walked (walked out) e h = (out, e)
  valid-walked walk_cycle e h = cc
  valid-walked walk_key_error e h = cc
  valid-walked walk_fuel e h = cc

  verdict-IsValid :
      validate_workflow canonical_id acyclic w ≡ valid_workflow → IsValid canonical_id acyclic w
  verdict-IsValid h =
      let (c, e) = valid-checked h in
      let (out, f) = valid-walked walk refl (sym e ∙ h) in ordered-IsValid c out f

  walk-decides :
      (r : Walk)
      → IsVerdict r
      → (verdict_of_walk r ≡ valid_workflow)
        ⊎ ((code : String) × (verdict_of_walk r ≡ invalid_workflow code))
  walk-decides (walked out) h = inl refl
  walk-decides walk_cycle h = inr (_, refl)
  walk-decides walk_key_error h = absurd h
  walk-decides walk_fuel h = absurd h

-- The order of a valid workflow: every task before its dependencies.
pub valid-IsOrdered :
    (canonical_id : String → Bool) (acyclic : List (String × String) → Bool) (w : CompiledWorkflow)
    → validate_workflow canonical_id acyclic w ≡ valid_workflow
    → (out : List String) × IsOrdered (graph_of w) out × Within (names_of w) out
valid-IsOrdered canonical_id acyclic w h =
    let (c, e) = valid-checked canonical_id acyclic w h in
    let (out, f) =
      valid-walked canonical_id acyclic w (walk canonical_id acyclic w) refl (sym e ∙ h) in
    let (ordered, old, all) =
      visit_all-Extends (graph_of w) (visit (suc (length (names_of w))) (graph_of w) [])
        (visit-Extends (graph_of w) (suc (length (names_of w))) []) (names_of w) [] out f tt in
    (out, ordered, all)

-- _validate_workflow accepts exactly the workflows with unique, canonical names and known
-- dependencies, none of a task on itself, that the native test finds acyclic and whose tasks have
-- a rank that falls along the dependencies: the walk reports a cycle exactly if there is no rank.
pub validate_workflow_accepts :
    (canonical_id : String → Bool) (acyclic : List (String × String) → Bool) (w : CompiledWorkflow)
    → (validate_workflow canonical_id acyclic w ≡ valid_workflow) ↔ IsValid canonical_id acyclic w
validate_workflow_accepts canonical_id acyclic w =
    (verdict-IsValid canonical_id acyclic w, IsValid-valid canonical_id acyclic w)

-- _validate_workflow accepts a workflow or raises WorkflowCompilationError: `by_id[task_id]` raises
-- no KeyError, and the recursion ends, at most one level deeper than there are tasks.
pub validate_workflow_decides :
    (canonical_id : String → Bool) (acyclic : List (String × String) → Bool) (w : CompiledWorkflow)
    → (validate_workflow canonical_id acyclic w ≡ valid_workflow)
      ⊎ ((code : String) × (validate_workflow canonical_id acyclic w ≡ invalid_workflow code))
validate_workflow_decides canonical_id acyclic w = elim (checked_cases canonical_id acyclic w) [
  | inl (code, e) ↦ inr (code, e)
  | inr (c, e) ↦
      rw e (walk-decides canonical_id acyclic w _ (walk-IsVerdict w canonical_id c.sound))
]
