-- ===== src/Tests/Merges.antt =====
-- The merge of one job's branch, for MergeCoordinator of src/w1cip/parallel_runtime.py. The world is
-- the commit of the target branch.
use w1_nexus.Prelude.{◌≡◌, refl, String, true, none, some, [], ◌∷◌, pos}
use w1_nexus.Parallel.Types.{JobRow, completed, MergeProposal, MergeReview, proposed, tests_passed}
use w1_nexus.Parallel.Merge.{
  MergePlatform, MergeRow, MergeState, done, propose, build_integration, merge_sources,
  potential_conflicts_of, sorted_set, place_text, review, apply, initial, after, proposes, reviews,
}
use w1_nexus.Parallel.Merge.Built.{IsTested}
use w1_nexus.Parallel.Merge.Reviewed.{IsApplied, IsReview}
use w1_nexus.Parallel.Merge.Applied.{apply_merges_reviewed}

abbrev platform : MergePlatform
platform = record {
  World = String;
  snapshot = λ p. p.proposal_id;
  fresh_proposal_id = λ run_id w. ("merge-1", w);
  fresh_review_id = λ w. ("review-1", w);
  create_worktree = λ base w. some w;
  merge_source = λ source w. (true, w);
  integration_head = λ w. some "c2";
  run_tests = λ argv w. some (pos 0, w);
  head_of = λ branch w. some w;
  merge_ff = λ commit w. some "c2";
  current_head = λ w. some w;
}

abbrev job_row : JobRow
job_row = record {
  run_id = "run-1";
  job_id = "a";
  agent_id = "agent-a";
  status = completed;
  result_branch = "w1/a";
  commit_sha = some "c1";
  changed_files = "f" ∷ [];
}

abbrev before : MergeState platform
before = record {
  runs = record { run_id = "run-1"; base_commit = "c0"; target_branch = "main" } ∷ [];
  jobs = job_row ∷ [];
  table = [];
  world = "c0";
}

abbrev new : MergeProposal
new = record {
  proposal_id = "merge-1";
  run_id = "run-1";
  target_branch = "main";
  base_commit = "c0";
  source_branches = "w1/a" ∷ [];
  source_commits = "c1" ∷ [];
  potential_conflicts = [];
  status = proposed;
  integration_commit = none;
  test_argv = "pytest" ∷ [];
  test_exit_code = none;
}

abbrev tested_proposal : MergeProposal
tested_proposal = record new {
  status = tests_passed;
  integration_commit = some "c2";
  test_exit_code = some (pos 0);
}

abbrev with_proposal : MergeState platform
with_proposal = record before {
  table = record { proposal = tested_proposal; review = none; applied_by = none } ∷ [];
}

abbrev verdict : MergeReview
verdict = record {
  proposal_id = "merge-1";
  reviewer_id = "someone";
  outcome = "approved";
  source_snapshot = "merge-1";
}

abbrev with_review : MergeState platform
with_review = record before {
  table = record { proposal = tested_proposal; review = some verdict; applied_by = none } ∷ [];
}

abbrev applied : MergeState platform
applied = record before {
  table =
      record { proposal = tested_proposal; review = some verdict; applied_by = some "lead" } ∷ [];
  world = "c2";
}

built : build_integration platform new "c0" ≡ some (tested_proposal, "c0")
unfolding build_integration merge_sources
built = refl

is_proposed : propose platform "run-1" ("pytest" ∷ []) before ≡ done tested_proposal with_proposal
unfolding propose build_integration merge_sources potential_conflicts_of sorted_set place_text
is_proposed = refl

is_reviewed :
    review platform "merge-1" "someone" "approved" with_proposal ≡ done verdict with_review
unfolding review
is_reviewed = refl

is_applied : apply platform "merge-1" "lead" with_review ≡ done "c2" applied
unfolding apply
is_applied = refl

apply_merges_reviewed_example :
    (row : MergeRow) × (a : IsApplied platform "merge-1" with_review applied row) × IsTested
      platform row.proposal
    × IsReview platform with_review.jobs row.proposal a.verdict
apply_merges_reviewed_example =
    apply_merges_reviewed platform "merge-1" "lead" "c2" with_review applied
      (after
        (after (initial before.runs before.jobs "c0")
          (proposes "run-1" ("pytest" ∷ []) is_proposed))
        (reviews "merge-1" "someone" "approved" is_reviewed))
      is_applied
