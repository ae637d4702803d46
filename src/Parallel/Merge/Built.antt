-- ===== src/Parallel/Merge/Built.antt =====
-- The proposals that _build_integration of src/w1cip/parallel_runtime.py lets pass.
use w1_nexus.Prelude.{
  ◌≡◌, refl, ◌∙◌, ap, ℤ, pos, negsuc, String, Bool, true, false, List, [], ◌∷◌, Option, none, some,
  some-inj, eqb_iff, if◌then◌else◌, Bool-cases, Option-cases, inl, inr, subst,
}
use w1_nexus.Parallel.Types.{MergeProposal, tests_passed, tests_failed, conflicted, proposed}
use w1_nexus.Parallel.Merge.{
  MergePlatform, merge_sources, is_zero, tested, run_proposal_tests, with_tests, with_merges,
  build_integration,
}

module _ (platform : MergePlatform) where
  open platform use {World}

  -- Branches that were merged one after the other, each without a conflict.
  pub data IsMerged : List String → World → World → Type 0 where
    no_more : {w : World} → IsMerged [] w w
    merged_next :
        {source : String} {sources : List String} {w w' w'' : World}
        → platform.merge_source source w ≡ (true, w')
        → IsMerged sources w' w''
        → IsMerged (source ∷ sources) w w''

  -- Tests that were run and exited with 0, or the world as it is where there are none.
  pub data IsPassed : List String → World → World → Type 0 where
    no_tests : {w : World} → IsPassed [] w w
    exited_zero :
        {arg : String} {args : List String} {w w' : World}
        → platform.run_tests (arg ∷ args) w ≡ some (pos 0, w')
        → IsPassed (arg ∷ args) w w'

  -- From a worktree at the base, all sources were merged, and the tests passed on the result.
  pub record IsTested (p : MergeProposal) : Type 0 where
    pub before : World
    pub start : World
    pub merged : World
    pub finished : World
    pub commit : String
    pub from_base : platform.create_worktree p.base_commit before ≡ some start
    pub all_merged : IsMerged p.source_branches start merged
    pub head : platform.integration_head merged ≡ some commit
    pub is_result : p.integration_commit ≡ some commit
    pub passed : IsPassed p.test_argv merged finished

  -- The first branch went through, as its result r says, and so did the others.
  merged_head :
      (source : String) (sources : List String) (w merged : World) (r : Bool × World)
      → platform.merge_source source w ≡ r
      → (if r.0 then merge_sources platform sources r.1 else (false, r.1)) ≡ (true, merged)
      → (platform.merge_source source w ≡ (true, r.1))
        × (merge_sources platform sources r.1 ≡ (true, merged))
  merged_head source sources w merged (true, next) e h = (e, h)
  merged_head source sources w merged (false, next) e h = cc

  merge_sources-IsMerged :
      (sources : List String) (w merged : World)
      → merge_sources platform sources w ≡ (true, merged)
      → IsMerged sources w merged
  unfolding merge_sources
  merge_sources-IsMerged [] w merged h =
      subst (IsMerged [] w) (ap (λ (x : Bool × World). x.1) h) no_more
  merge_sources-IsMerged (source ∷ sources) w merged h =
      let next = (platform.merge_source source w).1 in
      let (fine, later) =
        merged_head source sources w merged (platform.merge_source source w) refl h in
      merged_next fine (merge_sources-IsMerged sources next merged later)

  run_proposal_tests-IsPassed :
      (argv : List String) (w finished : World)
      → run_proposal_tests platform argv w ≡ some (pos 0, finished)
      → IsPassed argv w finished
  run_proposal_tests-IsPassed [] w finished h =
      subst (IsPassed [] w) (ap (λ (x : ℤ × World). x.1) (some-inj h)) no_tests
  run_proposal_tests-IsPassed (arg ∷ args) w finished h = exited_zero h

  zero_code : (code : ℤ) → is_zero platform code ≡ true → code ≡ pos 0
  zero_code (pos n) h = ap pos ((eqb_iff n 0).0 h)
  zero_code (negsuc n) h = cc

  passed_code :
      (code : ℤ)
      → (if is_zero platform code then tests_passed else tests_failed) ≡ tests_passed
      → code ≡ pos 0
  passed_code code h = elim (Bool-cases (is_zero platform code)) [
    | inl e ↦ zero_code code e
    | inr e ↦ cc (rw e at h)
  ]

  module _ (p : MergeProposal) (new : p.status ≡ proposed) (before start : World)
      (created : platform.create_worktree p.base_commit before ≡ some start) where
    with_tests-IsTested :
        (merged : World) (commit : String) (o : Option (ℤ × World)) (q : MergeProposal) (w : World)
        → merge_sources platform p.source_branches start ≡ (true, merged)
        → platform.integration_head merged ≡ some commit
        → run_proposal_tests platform p.test_argv merged ≡ o
        → with_tests platform p commit o ≡ some (q, w)
        → q.status ≡ tests_passed
        → IsTested q
    with_tests-IsTested merged commit none q w m h r e s = cc
    with_tests-IsTested merged commit (some (code, after)) q w m h r e s =
        let same : tested platform p commit code ≡ q = ap (λ x. x.0) (some-inj e) in
        let zero = passed_code code (ap (λ (x : MergeProposal). x.status) same ∙ s) in
        subst IsTested same (record {
          before = before;
          start = start;
          merged = merged;
          finished = after;
          commit = commit;
          from_base = created;
          all_merged = merge_sources-IsMerged p.source_branches start merged m;
          head = h;
          is_result = refl;
          passed = run_proposal_tests-IsPassed p.test_argv merged after (
              subst (λ c. run_proposal_tests platform p.test_argv merged ≡ some (c, after)) zero r);
        })

    with_merges-IsTested :
        (r : Bool × World) (q : MergeProposal) (w : World)
        → merge_sources platform p.source_branches start ≡ r
        → with_merges platform p r ≡ some (q, w)
        → q.status ≡ tests_passed
        → IsTested q
    with_merges-IsTested (false, after) q w m e s =
        let same : record p { status = conflicted } ≡ q = ap (λ x. x.0) (some-inj e) in
        cc (ap (λ (x : MergeProposal). x.status) same ∙ s)
    with_merges-IsTested (true, merged) q w m e s =
        elim (Option-cases (platform.integration_head merged)) [
          | inl f ↦ cc (rw f at e)
          | inr (commit, f) ↦
              with_tests-IsTested merged commit (run_proposal_tests platform p.test_argv merged) q w
                m f refl (rw f at e) s
        ]

  -- A new proposal that _build_integration returns with the status tests_passed carries the commit
  -- of the integration branch on which, from the base commit, every source branch was merged without
  -- a conflict, and on which the tests exited with 0, where there are tests.
  pub build_integration-IsTested :
      (p q : MergeProposal) (w after : World)
      → p.status ≡ proposed
      → build_integration platform p w ≡ some (q, after)
      → q.status ≡ tests_passed
      → IsTested q
  unfolding build_integration
  build_integration-IsTested p q w after new e s =
      elim (Option-cases (platform.create_worktree p.base_commit w)) [
        | inl f ↦ cc (rw f at e)
        | inr (start, f) ↦
            with_merges-IsTested p new w start f (merge_sources platform p.source_branches start) q
              after refl (rw f at e) s
      ]
