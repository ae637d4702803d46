-- ===== src/Parallel/Merge/Reviewed.antt =====
-- What the table of merge proposals of src/w1cip/parallel_runtime.py holds: MergeCoordinator keeps it.
use w1_nexus.Prelude.{
  ◌≡◌, refl, sym, ◌∙◌, ap, subst, String, true, false, not, ◌&&◌, Option, none, some, some-inj,
  List, map, arith, ◌==◌, eq_iff, Bool-cases, Option-cases, inl, inr, all, elem, first, select,
  select-In, has_duplicate, unique-first, In, none-ne-some,
}
use w1_nexus.Parallel.Types.{JobRow, MergeProposal, MergeReview, tests_passed}
use w1_nexus.Parallel.Merge.{
  MergeRow, MergePlatform, is_tests_passed, save_proposal, set_review, save_review, set_applied,
  mark_applied, get_proposal, rows_of_run, agents_of, MergeState, done, is_mergeable,
  build_integration, new_proposal, propose, outcomes, review, apply_merged, apply,
}
use w1_nexus.Parallel.Merge.Built.{IsTested, build_integration-IsTested}
use w1_nexus.Parallel.Merge.Rows.{
  In-map, In-last, passed_status, name_of, unique_replaced, names_kept, set_review_cases,
  set_applied_cases,
}

module _ (platform : MergePlatform) where
  open platform use {World}

  -- A review of the proposal as it stands, by somebody who produced none of it, and an approval
  -- only of what passed.
  pub record IsReview (jobs : List JobRow) (p : MergeProposal) (v : MergeReview) : Type 0 where
    pub unchanged : v.source_snapshot ≡ platform.snapshot p
    pub independent : elem v.reviewer_id (agents_of p.run_id jobs) ≡ false
    pub approves : (v.outcome == "approved") ≡ true → p.status ≡ tests_passed

  pub record IsGuarded (jobs : List JobRow) (r : MergeRow) : Type 0 where
    pub is_tested : r.proposal.status ≡ tests_passed → IsTested platform r.proposal
    pub is_reviewed : (v : MergeReview) → r.review ≡ some v → IsReview jobs r.proposal v

  pub record IsTable (s : MergeState platform) : Type 0 where
    pub unique : has_duplicate (map name_of s.table) ≡ false
    pub guarded : (r : MergeRow) → In r s.table → IsGuarded s.jobs r

  done-inj :
      {A : Type 0} {a b : A} {s t : MergeState platform} → done a s ≡ done b t → (a ≡ b) × (s ≡ t)
  done-inj h = (cc, cc)

  -- save_proposal of a proposal that is tested, if it passed.
  saved-IsTable :
      (s : MergeState platform) (q : MergeProposal) (w : World)
      → IsTable s
      → (q.status ≡ tests_passed → IsTested platform q)
      → IsTable (record s { table = save_proposal q s.table; world = w })
  saved-IsTable s q w i h = record {
    unique = unique_replaced q s.table i.unique;
    guarded = λ r m.
        elim (In-last (select (λ r. not (r.proposal.proposal_id == q.proposal_id)) s.table) m) [
          | inl k ↦
              i.guarded r
                (select-In (λ r. not (r.proposal.proposal_id == q.proposal_id)) s.table k).0
          | inr e ↦
              subst (IsGuarded s.jobs) (sym e)
                (record { is_tested = h; is_reviewed = λ v f. absurd (none-ne-some f) })
        ];
  }

  pub propose-IsTable :
      (run_id : String) (test_argv : List String) (p : MergeProposal) (s t : MergeState platform)
      → propose platform run_id test_argv s ≡ done p t
      → IsTable s
      → IsTable t
  unfolding propose
  propose-IsTable run_id test_argv p s t h i =
      elim (Option-cases (first (λ r. r.run_id == run_id) s.runs)) [
        | inl e ↦ cc (rw e at h)
        | inr (run, e) ↦
            let jobs = rows_of_run run.run_id s.jobs in
            let named = platform.fresh_proposal_id run.run_id s.world in
            let new = new_proposal platform named.0 run jobs test_argv in
            elim (Bool-cases (all is_mergeable jobs)) [
              | inr f ↦ cc (rw (e, f) at h)
              | inl f ↦ elim (Option-cases (build_integration platform new named.1)) [
                | inl g ↦ cc (rw (e, f, g) at h)
                | inr ((q, w), g) ↦ subst IsTable (done-inj (rw (e, f, g) at h)).1 (
                    saved-IsTable s q w i
                      (build_integration-IsTested platform new q named.1 w refl g))
              ]
            ]
      ]

  -- save_review of a review of the proposal that get_proposal finds.
  reviewed-IsTable :
      (s : MergeState platform) (row : MergeRow) (v : MergeReview) (w : World)
      → IsTable s
      → get_proposal v.proposal_id s.table ≡ some row
      → IsReview s.jobs row.proposal v
      → IsTable (record s { table = save_review v s.table; world = w })
  reviewed-IsTable s row v w i found good = record {
    unique =
        ap has_duplicate (
          names_kept (set_review v)
            (λ r. elim (set_review_cases v r) [ inl e ↦ ap name_of e | inr (e, f) ↦ ap name_of e ])
            s.table)
        ∙ i.unique;
    guarded = λ r m.
        let (old, k, e) = In-map (set_review v) s.table m in
        elim (set_review_cases v old) [
          | inl f ↦ subst (IsGuarded s.jobs) (sym (e ∙ f)) (i.guarded old k)
          | inr (f, named) ↦
              let only : some row ≡ some old =
                sym found
                ∙ subst (λ x. first (λ r. r.proposal.proposal_id == x) s.table ≡ some old) named
                    (unique-first name_of s.table i.unique old k) in
              subst (IsGuarded s.jobs) (sym (e ∙ f)) (record {
                is_tested = (i.guarded old k).is_tested;
                is_reviewed = λ u g.
                    subst (IsReview s.jobs old.proposal) (some-inj g)
                      (subst (λ (x : MergeRow). IsReview s.jobs x.proposal v) (some-inj only) good);
              })
        ];
  }

  pub review-IsTable :
      (proposal_id reviewer_id outcome : String) (v : MergeReview) (s t : MergeState platform)
      → review platform proposal_id reviewer_id outcome s ≡ done v t
      → IsTable s
      → IsTable t
  unfolding review
  review-IsTable proposal_id reviewer_id outcome v s t h i =
      elim (Option-cases (get_proposal proposal_id s.table)) [
        | inl e ↦ cc (rw e at h)
        | inr (row, e) ↦
            elim (Bool-cases (elem reviewer_id (agents_of row.proposal.run_id s.jobs))) [
              | inl f ↦ cc (rw (e, f) at h)
              | inr f ↦ elim (Bool-cases (elem outcome (outcomes platform))) [
                | inr g ↦ cc (rw (e, f, g) at h)
                | inl g ↦
                    elim (Bool-cases
                      (outcome == "approved" && not (is_tests_passed row.proposal.status))) [
                        | inl k ↦ cc (rw (e, f, g, k) at h)
                        | inr k ↦ subst IsTable (done-inj (rw (e, f, g, k) at h)).1 (
                            reviewed-IsTable s row _ (platform.fresh_review_id s.world).1 i e
                              (record {
                                unchanged = refl;
                                independent = f;
                                approves =
                                    λ a. passed_status row.proposal.status (ground (arith, a, k));
                              }))
                      ]
              ]
            ]
      ]

  pub applied-IsTable :
      (s : MergeState platform) (proposal_id by : String) (w : World)
      → IsTable s
      → IsTable (record s { table = mark_applied proposal_id by s.table; world = w })
  applied-IsTable s proposal_id by w i = record {
    unique =
        ap has_duplicate (
          names_kept (set_applied proposal_id by)
            (λ r. elim (set_applied_cases proposal_id by r) [
              | inl e ↦ ap name_of e
              | inr e ↦ ap name_of e
            ])
            s.table)
        ∙ i.unique;
    guarded = λ r m.
        let (old, k, e) = In-map (set_applied proposal_id by) s.table m in
        let g = i.guarded old k in
        elim (set_applied_cases proposal_id by old) [
          | inl f ↦ subst (IsGuarded s.jobs) (sym (e ∙ f)) g
          | inr f ↦
              subst (IsGuarded s.jobs) (sym (e ∙ f))
                (record { is_tested = g.is_tested; is_reviewed = g.is_reviewed })
        ];
  }

  -- What apply has found when it returns.
  pub record IsApplied (proposal_id : String) (s t : MergeState platform) (row : MergeRow)
      : Type 0 where
    pub found : get_proposal proposal_id s.table ≡ some row
    pub verdict : MergeReview
    pub given : row.review ≡ some verdict
    pub is_approved : (verdict.outcome == "approved") ≡ true
    pub at_base :
        platform.head_of row.proposal.target_branch s.world ≡ some row.proposal.base_commit
    pub fast_forward : platform.merge_ff row.proposal.integration_commit s.world ≡ some t.world

  merged_state :
      (proposal_id by commit : String) (s t : MergeState platform) (o : Option World)
      → apply_merged platform proposal_id by s o ≡ done commit t
      → (w : World) × (o ≡ some w)
        × (record s { table = mark_applied proposal_id by s.table; world = w } ≡ t)
  merged_state proposal_id by commit s t none h = cc
  merged_state proposal_id by commit s t (some w) h =
      elim (Option-cases (platform.current_head w)) [
        | inl e ↦ cc (rw e at h)
        | inr (c, e) ↦ (w, refl, (done-inj (rw e at h)).1)
      ]

  pub apply_cases :
      (proposal_id by commit : String) (s t : MergeState platform)
      → apply platform proposal_id by s ≡ done commit t
      → (row : MergeRow) × IsApplied proposal_id s t row
        × (t ≡ record s { table = mark_applied proposal_id by s.table; world = t.world })
  unfolding apply
  apply_cases proposal_id by commit s t h = elim (Option-cases (get_proposal proposal_id s.table)) [
    | inl e ↦ cc (rw e at h)
    | inr (row, e) ↦ elim (Option-cases row.review) [
      | inl f ↦ cc (rw (e, f) at h)
      | inr (v, f) ↦ elim (Bool-cases (v.outcome == "approved")) [
        | inr g ↦ cc (rw (e, f, g) at h)
        | inl g ↦ elim (Bool-cases (platform.snapshot row.proposal == v.source_snapshot)) [
          | inr k ↦ cc (rw (e, f, g, k) at h)
          | inl k ↦ elim (Option-cases (platform.head_of row.proposal.target_branch s.world)) [
            | inl l ↦ cc (rw (e, f, g, k, l) at h)
            | inr (head, l) ↦ elim (Bool-cases (head == row.proposal.base_commit)) [
              | inr m ↦ cc (rw (e, f, g, k, l, m) at h)
              | inl m ↦
                  let (w, n, o) =
                    merged_state proposal_id by commit s t
                      (platform.merge_ff row.proposal.integration_commit s.world)
                      (rw (e, f, g, k, l, m) at h) in
                  let here : w ≡ t.world = ap (λ (x : MergeState platform). x.world) o in
                  (
                    row,
                    record {
                      found = e;
                      verdict = v;
                      given = f;
                      is_approved = g;
                      at_base = l ∙ ap some ((eq_iff head row.proposal.base_commit).0 m);
                      fast_forward = n ∙ ap some here;
                    },
                    sym o
                        ∙ ap
                            (λ x. record s {
                              table = mark_applied proposal_id by s.table;
                              world = x;
                            })
                            here,
                  )
            ]
          ]
        ]
      ]
    ]
  ]
