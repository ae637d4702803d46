-- ===== src/Orchestrator/Compile/Listed.antt =====
-- The order of the tasks that GoalTaskCompiler.compile of src/w1cip/orchestrator.py appends: each of
-- them depends on tasks before it.
use Prim.Native.String.{◌++◌ as ◌<>◌}
use w1_nexus.Prelude.{
  ◌≡◌, subst, String, Bool, true, false, Option, none, some, some-inj, List, [], ◌∷◌, ◌++◌, map,
  Bool-cases, Option-cases, inl, inr, elem, select,
}
use w1_nexus.Dependencies.Order.{Within, elem-cons, elem-head, elem_cons_cases}
use w1_nexus.Orchestrator.Types.{CompiledTask}
use w1_nexus.Orchestrator.Compile.{
  Criterion, Goal, unique, or_list, is_decision, required_of, needs_review, needs_approval,
  compiled, execution_task, checked_id, deliverable_ids, execute_name, is_checked, upstream_of,
  verify_name, criterion_tasks, verification_tasks, review_part, id_of, decision_tasks, decide_name,
  approval_part, last_of, tasks_of, with_ids, compile_tasks,
}
use w1_nexus.Orchestrator.Compile.Names.{
  Within-cons, Within-single, Within-append, Within-or_list, Within-unique, Within-map,
  selected-Within,
}

-- Every task depends on names that are seen, or on tasks before it.
abbrev pub IsListed : List String → List CompiledTask → Type 0
IsListed seen [] = Unit
IsListed seen (t ∷ ts) = Within t.depends_on seen × IsListed (t.task_id ∷ seen) ts

abbrev pub seen_after : List String → List CompiledTask → List String
seen_after seen [] = seen
seen_after seen (t ∷ ts) = seen_after (t.task_id ∷ seen) ts

IsListed-more :
    (seen more : List String) (ts : List CompiledTask)
    → Within seen more
    → IsListed seen ts
    → IsListed more ts
IsListed-more seen more [] w h = tt
IsListed-more seen more (t ∷ ts) w (d, h) = (
  (λ x m. w x (d x m)),
  IsListed-more (t.task_id ∷ seen) (t.task_id ∷ more) ts (Within-cons t.task_id seen more w) h,
)

seen_after-Within : (seen : List String) (ts : List CompiledTask) → Within seen (seen_after seen ts)
seen_after-Within seen [] x m = m
seen_after-Within seen (t ∷ ts) x m =
    seen_after-Within (t.task_id ∷ seen) ts x (elem-cons x t.task_id seen m)

pub seen_after-names :
    (seen : List String) (ts : List CompiledTask)
    → Within (map (λ t. t.task_id) ts) (seen_after seen ts)
seen_after-names seen [] x m = cc
seen_after-names seen (t ∷ ts) x m =
    elim (elem_cons_cases x t.task_id (map (λ u. u.task_id) ts) m) [
      | inl e ↦
          seen_after-Within (t.task_id ∷ seen) ts x
            (subst (λ z. elem z (t.task_id ∷ seen) ≡ true) e (elem-head t.task_id seen))
      | inr n ↦ seen_after-names (t.task_id ∷ seen) ts x n
    ]

IsListed-append :
    (seen : List String) (xs ys : List CompiledTask)
    → IsListed seen xs
    → IsListed (seen_after seen xs) ys
    → IsListed seen (xs ++ ys)
IsListed-append seen [] ys h k = k
IsListed-append seen (t ∷ xs) ys (d, h) k = (d, IsListed-append (t.task_id ∷ seen) xs ys h k)

-- A part of the list, and names that are seen after it.
record IsPart (seen : List String) (ts : List CompiledTask) (names : List String) : Type 0 where
  listed : IsListed seen ts
  found : Within names (seen_after seen ts)

module _ (canonical_id : String → Bool) (context_fields : List (String × List String))
    (domains : List String) where
  abbrev execute : String → String
  execute = execute_name canonical_id context_fields domains

  executions-IsPart :
      (seen ids : List String)
      → IsPart seen (map (execution_task canonical_id context_fields domains) ids) (map execute ids)
  executions-IsPart seen [] = record { listed = tt; found = λ x m. cc }
  executions-IsPart seen (d ∷ ids) =
      let rest = executions-IsPart (execute d ∷ seen) ids in
      record {
        listed = ((λ x m. cc), rest.listed);
        found = λ x m. elim (elem_cons_cases x (execute d) (map execute ids) m) [
          | inl e ↦
              seen_after-Within (execute d ∷ seen)
                (map (execution_task canonical_id context_fields domains) ids) x
                (subst (λ z. elem z (execute d ∷ seen) ≡ true) e (elem-head (execute d) seen))
          | inr n ↦ rest.found x n
        ];
      }

  abbrev check : List String → Criterion → String → List CompiledTask
  check = criterion_tasks canonical_id context_fields domains

  abbrev verify : String → String
  verify = verify_name canonical_id context_fields domains

  upstream-Within :
      (ids seen : List String) (c : Criterion)
      → Within (map execute ids) seen
      → Within (upstream_of canonical_id context_fields domains ids c) seen
  upstream-Within ids seen c w =
      Within-or_list (map execute (select (λ x. elem x ids) c.applies_to))
        (map execute (unique ids)) seen
        (λ x m. w x (
          Within-map execute (select (λ x. elem x ids) c.applies_to) ids
            (selected-Within ids c.applies_to) x m))
        (λ x m. w x (Within-map execute (unique ids) ids (Within-unique ids) x m))

  -- The two tasks of a criterion before further ones.
  criterion-IsPart :
      (ids seen : List String) (c : Criterion) (name : String) (ts : List CompiledTask)
      (names : List String)
      → Within (map execute ids) seen
      → ((more : List String) → Within (map execute ids) more → IsPart more ts names)
      → IsPart seen (check ids c name ++ ts) (verify name ∷ names)
  criterion-IsPart ids seen c name ts names w later =
      let after : List String = verify name ∷ ("collect-evidence-" <> name) ∷ seen in
      let rest = later after (λ x m.
        elem-cons x (verify name) (("collect-evidence-" <> name) ∷ seen)
          (elem-cons x ("collect-evidence-" <> name) seen (w x m))) in
      record {
        listed = (
          upstream-Within ids seen c w,
          (
            Within-single ("collect-evidence-" <> name) (("collect-evidence-" <> name) ∷ seen)
                (elem-head ("collect-evidence-" <> name) seen),
            rest.listed,
          ),
        );
        found = λ x m. elim (elem_cons_cases x (verify name) names m) [
          | inl e ↦ seen_after-Within after ts x (
              subst (λ z. elem z after ≡ true) e
                (elem-head (verify name) (("collect-evidence-" <> name) ∷ seen)))
          | inr n ↦ rest.found x n
        ];
      }

  checks-IsPart :
      (ids : List String) (cs : List Criterion) (ts : List CompiledTask) (names seen : List String)
      → verification_tasks canonical_id context_fields domains ids cs ≡ some (ts, names)
      → Within (map execute ids) seen
      → IsPart seen ts names
  unfolding verification_tasks
  checks-IsPart ids [] ts names seen h w =
      let same = some-inj h in
      subst (λ x. IsPart seen x.0 x.1) same (record { listed = tt; found = λ x m. cc })
  checks-IsPart ids (c ∷ cs) ts names seen h w =
      elim (Bool-cases (is_checked canonical_id context_fields domains c)) [
        | inr e ↦ checks-IsPart ids cs ts names seen (rw (e, verification_tasks) at h) w
        | inl e ↦
            elim (Option-cases (checked_id canonical_id context_fields domains c.criterion_id)) [
              | inl f ↦ cc (rw (e, f, verification_tasks) at h)
              | inr (name, f) ↦
                  elim (Option-cases
                    (verification_tasks canonical_id context_fields domains ids cs)) [
                      | inl g ↦ cc (rw (e, f, g, verification_tasks) at h)
                      | inr ((more, rest), g) ↦
                          subst (λ x. IsPart seen x.0 x.1)
                            (some-inj (rw (e, f, g, verification_tasks) at h))
                            (criterion-IsPart ids seen c name more rest w
                              (λ after v. checks-IsPart ids cs more rest after g v))
                    ]
            ]
      ]

  review-IsPart :
      (b : Bool) (done seen verifications executions : List String)
      → Within done seen
      → Within verifications seen
      → Within executions seen
      → IsPart seen
          (review_part canonical_id context_fields domains b done).0
          (review_part canonical_id context_fields domains b done).1
        × Within
            (last_of canonical_id context_fields domains b verifications executions)
            (seen_after seen (review_part canonical_id context_fields domains b done).0)
  review-IsPart true done seen verifications executions d v w =
      let here =
        Within-single "review-solution-package" ("review-solution-package" ∷ seen)
          (elem-head "review-solution-package" seen) in
      (record { listed = (d, tt); found = here }, here)
  review-IsPart false done seen verifications executions d v w =
      (record { listed = tt; found = d }, Within-or_list verifications executions seen v w)

  decisions-IsPart :
      (before decided seen : List String)
      → Within before seen
      → IsPart seen
          (decision_tasks canonical_id context_fields domains before decided)
          (map (decide_name canonical_id context_fields domains) decided)
  decisions-IsPart before [] seen w = record { listed = tt; found = λ x m. cc }
  decisions-IsPart before (d ∷ decided) seen w =
      let name = decide_name canonical_id context_fields domains d in
      let rest =
        decisions-IsPart before decided (name ∷ seen) (λ x m. elem-cons x name seen (w x m)) in
      record {
        listed = (w, rest.listed);
        found = λ x m.
            elim (elem_cons_cases x name
              (map (decide_name canonical_id context_fields domains) decided) m) [
                | inl e ↦
                    seen_after-Within (name ∷ seen)
                      (decision_tasks canonical_id context_fields domains before decided) x
                      (subst (λ z. elem z (name ∷ seen) ≡ true) e (elem-head name seen))
                | inr n ↦ rest.found x n
              ];
      }

  approval-IsPart :
      (b : Bool) (depends_on seen : List String)
      → Within depends_on seen
      → IsPart seen
          (approval_part canonical_id context_fields domains b depends_on).0
          (approval_part canonical_id context_fields domains b depends_on).1
  approval-IsPart true depends_on seen w = record {
    listed = (w, tt);
    found =
        Within-single "approve-final-decisions" ("approve-final-decisions" ∷ seen)
          (elem-head "approve-final-decisions" seen);
  }
  approval-IsPart false depends_on seen w = record { listed = tt; found = λ x m. cc }

  tasks-IsListed :
      (g : Goal) (ids : List String) (checks : List CompiledTask) (verifications : List String)
      → verification_tasks canonical_id context_fields domains ids g.success_criteria
        ≡ some (checks, verifications)
      → IsListed [] (tasks_of canonical_id context_fields domains g ids checks verifications)
  tasks-IsListed g ids checks verifications h =
      let executed = map (execution_task canonical_id context_fields domains) ids in
      let executions = map execute (unique ids) in
      let one = executions-IsPart [] ids in
      let s1 = seen_after [] executed in
      let two = checks-IsPart ids g.success_criteria checks verifications s1 h one.found in
      let s2 = seen_after s1 checks in
      let ready : Within executions s2 = λ x m.
        seen_after-Within s1 checks x
          (one.found x (Within-map execute (unique ids) ids (Within-unique ids) x m)) in
      let done : Within (unique (executions ++ verifications)) s2 = λ x m.
        Within-append executions verifications s2 ready two.found x
          (Within-unique (executions ++ verifications) x m) in
      let (three, last) =
        review-IsPart (needs_review g) (unique (executions ++ verifications)) s2 verifications
          executions done two.found ready in
      let (reviews, before) =
        review_part canonical_id context_fields domains (needs_review g)
          (unique (executions ++ verifications)) in
      let s3 = seen_after s2 reviews in
      let decided =
        map (id_of canonical_id context_fields domains) (select is_decision (required_of g)) in
      let four = decisions-IsPart before decided s3 three.found in
      let decisions = map (decide_name canonical_id context_fields domains) decided in
      let decide = decision_tasks canonical_id context_fields domains before decided in
      let s4 = seen_after s3 decide in
      let to_approve : Within (or_list decisions before) s4 =
        Within-or_list decisions before s4 four.found
          (λ x m. seen_after-Within s3 decide x (three.found x m)) in
      let five = approval-IsPart (needs_approval g) (or_list decisions before) s4 to_approve in
      let (approvals, approved) =
        approval_part canonical_id context_fields domains (needs_approval g)
          (or_list decisions before) in
      let s5 = seen_after s4 approvals in
      let final =
        last_of canonical_id context_fields domains (needs_review g) verifications executions in
      let to_final : Within (or_list approved (or_list decisions final)) s5 =
        Within-or_list approved (or_list decisions final) s5 five.found (
          Within-or_list decisions final s5
            (λ x m. seen_after-Within s4 approvals x (four.found x m))
            (λ x m. seen_after-Within s4 approvals x (seen_after-Within s3 decide x (last x m)))) in
      IsListed-append [] executed _ one.listed (
        IsListed-append s1 checks _ two.listed (
          IsListed-append s2 reviews _ three.listed (
            IsListed-append s3 decide _ four.listed
              (IsListed-append s4 approvals _ five.listed (to_final, tt)))))

  compiled-inj : {A : Type 0} {a b : A} → compiled a ≡ compiled b → a ≡ b
  compiled-inj h = cc

  -- In the list that compile makes of a goal, every task depends on tasks before it.
  pub compile_tasks-IsListed :
      (g : Goal) (ts : List CompiledTask)
      → compile_tasks canonical_id context_fields domains g ≡ compiled ts
      → IsListed [] ts
  unfolding compile_tasks
  compile_tasks-IsListed g ts h =
      with_ids-IsListed (deliverable_ids canonical_id context_fields domains (required_of g)) h
    where
      with_ids-IsListed :
          (o : Option (List String))
          → with_ids canonical_id context_fields domains g o ≡ compiled ts
          → IsListed [] ts
      with_ids-IsListed none e = cc
      with_ids-IsListed (some []) e = cc
      with_ids-IsListed (some (d ∷ ids)) e =
          elim (Option-cases
            (verification_tasks canonical_id context_fields domains (d ∷ ids) g.success_criteria)) [
              | inl f ↦ cc (rw f at e)
              | inr ((checks, verifications), f) ↦
                  subst (IsListed []) (compiled-inj (rw f at e))
                    (tasks-IsListed g (d ∷ ids) checks verifications f)
            ]
