-- ===== src/Orchestrator/Compile/Accepted.antt =====
-- The workflow that GoalTaskCompiler.compile of src/w1cip/orchestrator.py validates at its end.
use w1_nexus.Prelude.{
  ℕ, ◌≡◌, ◌⊎◌, refl, ap, subst, String, Bool, true, false, Option, some, List, [], ◌∷◌, map, arith,
  ◌<◌, Bool-cases, inl, inr, all, elem, elem-named, has_duplicate, unique-first, is_subset, In,
  here, there,
}
use w1_nexus.Dependencies.Order.{Within, IsOrdered, elem-cons, elem-head, elem_cons_cases}
use w1_nexus.Dependencies.Rank.{height, height-lt}
use w1_nexus.Orchestrator.Types.{CompiledTask, CompiledWorkflow}
use w1_nexus.Orchestrator.Graph.{depends_of, graph_of, task_by_id, edges}
use w1_nexus.Orchestrator.Graph.Valid.{names_of}
use w1_nexus.Orchestrator.Graph.Accepts.{IsValid, validate_workflow_accepts}
use w1_nexus.Orchestrator.Compile.{
  Goal, complexity, risk_of, cost_of, compiled, compile_tasks, covers, compile,
}
use w1_nexus.Orchestrator.Compile.Listed.{
  IsListed, seen_after, seen_after-names, compile_tasks-IsListed,
}

subset_of-Within : (xs ys : List String) → Within xs ys → is_subset xs ys ≡ true
subset_of-Within [] ys w = refl
subset_of-Within (x ∷ xs) ys w =
    rw (w x (elem-head x xs)) (subset_of-Within xs ys (λ y m. w y (elem-cons y x xs m)))

-- What is seen after a list are its names.
seen_after_cases :
    (seen : List String) (ts : List CompiledTask) (x : String)
    → elem x (seen_after seen ts) ≡ true
    → (elem x seen ≡ true) ⊎ (elem x (map (λ t. t.task_id) ts) ≡ true)
seen_after_cases seen [] x m = inl m
seen_after_cases seen (t ∷ ts) x m = elim (seen_after_cases (t.task_id ∷ seen) ts x m) [
  | inr n ↦ inr (elem-cons x t.task_id (map (λ u. u.task_id) ts) n)
  | inl n ↦ elim (elem_cons_cases x t.task_id seen n) [
    | inl e ↦ inr (
        subst (λ z. elem z (map (λ u. u.task_id) (t ∷ ts)) ≡ true) e
          (elem-head t.task_id (map (λ u. u.task_id) ts)))
    | inr k ↦ inl k
  ]
]

seen_after-IsOrdered :
    (graph : String → Option (List String)) (seen : List String) (ts : List CompiledTask)
    → IsOrdered graph seen
    → IsListed seen ts
    → ((t : CompiledTask) → In t ts → graph t.task_id ≡ some t.depends_on)
    → IsOrdered graph (seen_after seen ts)
seen_after-IsOrdered graph seen [] o h g = o
seen_after-IsOrdered graph seen (t ∷ ts) o (d, h) g =
    seen_after-IsOrdered graph (t.task_id ∷ seen) ts ((t.depends_on, g t here, d), o) h
      (λ u m. g u (there m))

module _ (canonical_id : String → Bool) (acyclic : List (String × String) → Bool)
    (w : CompiledWorkflow) where
  canonical-In :
      (ts : List CompiledTask)
      → all canonical_id (map (λ t. t.task_id) ts) ≡ true
      → (t : CompiledTask) → In t ts
      → canonical_id t.task_id ≡ true
  canonical-In [] h t m = elim m [ ]
  canonical-In (u ∷ ts) h t here = ground arith
  canonical-In (u ∷ ts) h t (there m) = canonical-In ts (ground arith) t m

  irreflexive :
      (rank : String → ℕ) (k : String) (ds : List String)
      → ((d : String) → elem d ds ≡ true → rank d < rank k)
      → elem k ds ≡ false
  irreflexive rank k ds h = elim (Bool-cases (elem k ds)) [
    | inr e ↦ e
    | inl e ↦ absurd (omega (arith, h k e))
  ]

  -- A workflow whose tasks each depend on tasks before them.
  pub listed-IsValid :
      has_duplicate (names_of w) ≡ false
      → all canonical_id (names_of w) ≡ true
      → acyclic (edges w.tasks) ≡ true
      → IsListed [] w.tasks
      → IsValid canonical_id acyclic w
  unfolding task_by_id
  listed-IsValid unique canonical accepted listed =
      let graph_at : (t : CompiledTask) → In t w.tasks → graph_of w t.task_id ≡ some t.depends_on =
        λ t m. ap depends_of (unique-first (λ (u : CompiledTask). u.task_id) w.tasks unique t m) in
      let order = seen_after [] w.tasks in
      let ordered = seen_after-IsOrdered (graph_of w) [] w.tasks tt listed graph_at in
      let seen : (t : CompiledTask) → In t w.tasks → elem t.task_id order ≡ true = λ t m.
        seen_after-names [] w.tasks t.task_id
          (elem-named (λ (u : CompiledTask). u.task_id) w.tasks t m) in
      let falls =
        λ (t : CompiledTask) (m : In t w.tasks) (d : String) (md : elem d t.depends_on ≡ true).
          height-lt (graph_of w) order ordered t.task_id t.depends_on (seen t m) (graph_at t m) d
            md in
      record {
        unique = unique;
        sound = λ t m. record {
          canonical = canonical-In w.tasks canonical t m;
          other =
              irreflexive (λ k. height k order) t.task_id t.depends_on (λ d md. (falls t m d md).1);
          known_dependencies = subset_of-Within t.depends_on (names_of w) λ d md.
              elim (seen_after_cases [] w.tasks d (falls t m d md).0) [ inl n ↦ cc | inr n ↦ n ];
        };
        accepted = accepted;
        rank = λ k. height k order;
        falls = λ t d m md. (falls t m d md).1;
      }

abbrev pub workflow_of : Goal → List CompiledTask → CompiledWorkflow
workflow_of g ts = record {
  tasks = ts;
  risk_level = risk_of g;
  error_cost = cost_of g;
  task_complexity = complexity g;
}

-- Where the tasks that compile makes of a goal have unique, canonical names, the native test finds
-- no cycle in their edges and the team has their roles, compile returns them: the tasks never
-- have an unknown dependency, one on themselves, or a cycle of dependencies.
pub compile_returns :
    (canonical_id : String → Bool) (context_fields : List (String × List String))
    (domains : List String) (acyclic : List (String × String) → Bool) (g : Goal)
    (declared : List String) (ts : List CompiledTask)
    → compile_tasks canonical_id context_fields domains g ≡ compiled ts
    → has_duplicate (map (λ t. t.task_id) ts) ≡ false
    → all canonical_id (map (λ t. t.task_id) ts) ≡ true
    → acyclic (edges ts) ≡ true
    → covers canonical_id context_fields domains declared ts ≡ true
    → compile canonical_id context_fields domains acyclic g declared ≡ compiled (workflow_of g ts)
unfolding compile
compile_returns canonical_id context_fields domains acyclic g declared ts h unique canonical
      accepted covered =
    let valid = (validate_workflow_accepts canonical_id acyclic (workflow_of g ts)).1 (
      listed-IsValid canonical_id acyclic (workflow_of g ts) unique canonical accepted
        (compile_tasks-IsListed canonical_id context_fields domains g ts h)) in
    rw (h, valid, covered) refl
