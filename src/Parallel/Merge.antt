-- ===== src/Parallel/Merge.antt =====
-- MergeCoordinator of src/w1cip/parallel_runtime.py, with the merge_proposals table: propose,
-- _build_integration, review and apply. Git, the action runtime that runs its commands, and the
-- hash of a proposal are parameters. The events that are emitted are not modelled.
pub mod Built
pub mod Rows
pub mod Reviewed
pub mod Applied
use Prim.Native.Nat.{Ordering}
use Prim.Native.String.{compare}
use w1_nexus.Prelude.{
  ℕ, suc, ◌+◌, ◌≡◌, ℤ, pos, negsuc, String, Bool, true, false, not, ◌&&◌, ◌||◌, Option, none, some,
  List, [], ◌∷◌, ◌++◌, map, ◌==◌, eqb, ltb, if◌then◌else◌, length, select, first, all, elem, In,
}
use w1_nexus.Parallel.Types.{
  JobRow, JobStatus, is_completed, ProposalStatus, proposed, conflicted, tests_passed, tests_failed,
  MergeProposal, MergeReview,
}

-- The columns of parallel_runs that the coordinator reads.
pub record RunRecord : Type 0 where
  pub run_id : String
  pub base_commit : String
  pub target_branch : String

-- A row of merge_proposals.
pub record MergeRow : Type 0 where
  pub proposal : MergeProposal
  pub review : Option MergeReview
  pub applied_by : Option String

pub data MergeError : Type 0 where
  run_not_found plan_error review_required review_invalid outside_error : MergeError

-- What is outside: `none` is an exception.
pub record MergePlatform : Type 1 where
  pub World : Type 0
  pub snapshot : MergeProposal → String
  pub fresh_proposal_id : String → World → String × World
  pub fresh_review_id : World → String × World
  -- The worktree of the integration branch at a commit.
  pub create_worktree : String → World → Option World
  -- `git merge --no-ff` of a branch there, with whether it went through.
  pub merge_source : String → World → Bool × World
  pub integration_head : World → Option String
  pub run_tests : List String → World → Option (ℤ × World)
  pub head_of : String → World → Option String
  pub merge_ff : Option String → World → Option World
  pub current_head : World → Option String

abbrev is_tests_passed : ProposalStatus → Bool
is_tests_passed tests_passed = true
is_tests_passed _ = false

-- A row whose job completed, with a commit.
abbrev pub has_commit : Option String → Bool
has_commit none = false
has_commit (some sha) = not (sha == "")

abbrev pub is_mergeable : JobRow → Bool
is_mergeable j = is_completed j.status && has_commit j.commit_sha

abbrev pub text_of : Option String → String
text_of none = ""
text_of (some x) = x

-- How many jobs own a path.
abbrev pub owners : String → List JobRow → ℕ
owners path [] = 0
owners path (j ∷ js) = length (select (λ p. p == path) j.changed_files) + owners path js

abbrev pub text_lt : String → String → Bool
text_lt a b = elim (compare a b) [ Ordering.lt ↦ true | _ ↦ false ]

-- A text put in its place, once.
unfoldable pub place_text : String → List String → List String
place_text x [] = x ∷ []
place_text x (y ∷ ys) =
    let rest = place_text x ys in
    if x == y then y ∷ ys else if text_lt x y then x ∷ y ∷ ys else y ∷ rest

unfoldable pub sorted_set : List String → List String
unfolding place_text
sorted_set [] = []
sorted_set (x ∷ xs) = place_text x (sorted_set xs)

abbrev pub all_changed : List JobRow → List String
all_changed [] = []
all_changed (j ∷ js) = j.changed_files ++ all_changed js

-- `tuple(sorted(path for path,js in owners.items() if len(js)>1))`
unfoldable pub potential_conflicts_of : List JobRow → List String
unfolding sorted_set
potential_conflicts_of jobs = sorted_set (select (λ p. ltb 1 (owners p jobs)) (all_changed jobs))

-- save_proposal: INSERT OR REPLACE drops the review and the application of the row it replaces.
abbrev pub save_proposal : MergeProposal → List MergeRow → List MergeRow
save_proposal p rows =
    select (λ r. not (r.proposal.proposal_id == p.proposal_id)) rows
    ++ record { proposal = p; review = none; applied_by = none } ∷ []

abbrev pub set_review : MergeReview → MergeRow → MergeRow
set_review v r = if r.proposal.proposal_id == v.proposal_id then record r { review = some v } else r

-- save_review
abbrev pub save_review : MergeReview → List MergeRow → List MergeRow
save_review v rows = map (set_review v) rows

abbrev pub set_applied : String → String → MergeRow → MergeRow
set_applied proposal_id by r =
    if r.proposal.proposal_id == proposal_id then record r { applied_by = some by } else r

-- mark_applied
abbrev pub mark_applied : String → String → List MergeRow → List MergeRow
mark_applied proposal_id by rows = map (set_applied proposal_id by) rows

-- get_proposal
abbrev pub get_proposal : String → List MergeRow → Option MergeRow
get_proposal proposal_id rows = first (λ r. r.proposal.proposal_id == proposal_id) rows

abbrev pub rows_of_run : String → List JobRow → List JobRow
rows_of_run run_id jobs = select (λ j. j.run_id == run_id) jobs

-- `{j["agent_id"] for j in self.journal.status(run_id)["jobs"]}`
abbrev pub agents_of : String → List JobRow → List String
agents_of run_id jobs = map (λ j. j.agent_id) (rows_of_run run_id jobs)

module _ (platform : MergePlatform) where
  open platform use {World}

  pub record MergeState : Type 0 where
    pub runs : List RunRecord
    pub jobs : List JobRow
    pub table : List MergeRow
    pub world : World

  -- A result with the state, or an exception. The table is the last thing that is written but for
  -- the events, so that an exception leaves it as it was, unless it is one of _emit, which is not
  -- modelled.
  pub data MergeResult (A : Type 0) : Type 0 where
    done : A → MergeState → MergeResult A
    raised : MergeError → MergeResult A

  -- The merges of the sources, up to the first that fails.
  unfoldable pub merge_sources : List String → World → Bool × World
  merge_sources [] w = (true, w)
  merge_sources (source ∷ sources) w =
      let (fine, after) = platform.merge_source source w in
      let rest = merge_sources sources after in if fine then rest else (false, after)

  abbrev pub is_zero : ℤ → Bool
  is_zero (pos n) = eqb n 0
  is_zero (negsuc n) = false

  abbrev pub tested : MergeProposal → String → ℤ → MergeProposal
  tested p commit code = record p {
    status = if is_zero code then tests_passed else tests_failed;
    integration_commit = some commit;
    test_exit_code = some code;
  }

  -- The tests, where there are any.
  abbrev pub run_proposal_tests : List String → World → Option (ℤ × World)
  run_proposal_tests [] w = some (pos 0, w)
  run_proposal_tests (arg ∷ args) w = platform.run_tests (arg ∷ args) w

  abbrev pub with_tests :
      MergeProposal → String → Option (ℤ × World) → Option (MergeProposal × World)
  with_tests p commit none = none
  with_tests p commit (some (code, w)) = some (tested p commit code, w)

  abbrev pub with_head : MergeProposal → World → Option String → Option (MergeProposal × World)
  with_head p w none = none
  with_head p w (some commit) = with_tests p commit (run_proposal_tests p.test_argv w)

  abbrev pub with_merges : MergeProposal → Bool × World → Option (MergeProposal × World)
  with_merges p (true, w) = with_head p w (platform.integration_head w)
  with_merges p (false, w) = some (record p { status = conflicted }, w)

  abbrev pub with_worktree : MergeProposal → Option World → Option (MergeProposal × World)
  with_worktree p none = none
  with_worktree p (some w) = with_merges p (merge_sources p.source_branches w)

  -- _build_integration
  unfoldable pub build_integration : MergeProposal → World → Option (MergeProposal × World)
  unfolding merge_sources
  build_integration p w = with_worktree p (platform.create_worktree p.base_commit w)

  abbrev pub new_proposal : String → RunRecord → List JobRow → List String → MergeProposal
  new_proposal proposal_id run jobs test_argv = record {
    proposal_id = proposal_id;
    run_id = run.run_id;
    target_branch = run.target_branch;
    base_commit = run.base_commit;
    source_branches = map (λ j. j.result_branch) jobs;
    source_commits = map (λ j. text_of j.commit_sha) jobs;
    potential_conflicts = potential_conflicts_of jobs;
    status = proposed;
    integration_commit = none;
    test_argv = test_argv;
    test_exit_code = none;
  }

  abbrev pub save_built : MergeState → Option (MergeProposal × World) → MergeResult MergeProposal
  save_built s none = raised outside_error
  save_built s (some (p, w)) = done p (record s { table = save_proposal p s.table; world = w })

  abbrev pub propose_run : List String → MergeState → Option RunRecord → MergeResult MergeProposal
  propose_run test_argv s none = raised run_not_found
  propose_run test_argv s (some run) =
      let jobs = rows_of_run run.run_id s.jobs in
      let (proposal_id, w) = platform.fresh_proposal_id run.run_id s.world in
      if all is_mergeable jobs
      then save_built s (build_integration (new_proposal proposal_id run jobs test_argv) w)
      else raised plan_error

  -- propose
  unfoldable pub propose : String → List String → MergeState → MergeResult MergeProposal
  unfolding build_integration potential_conflicts_of
  propose run_id test_argv s = propose_run test_argv s (first (λ r. r.run_id == run_id) s.runs)

  abbrev pub outcomes : List String
  outcomes = "approved" ∷ "revision_required" ∷ "rejected" ∷ []

  abbrev pub save_reviewed :
      String
      → String
      → String
      → MergeProposal
      → MergeState
      → String × World
      → MergeResult MergeReview
  save_reviewed proposal_id reviewer_id outcome p s (review_id, w) =
      let review : MergeReview = record {
        proposal_id = proposal_id;
        reviewer_id = reviewer_id;
        outcome = outcome;
        source_snapshot = platform.snapshot p;
      } in
      done review (record s { table = save_review review s.table; world = w })

  abbrev pub review_row :
      String → String → String → MergeState → Option MergeRow → MergeResult MergeReview
  review_row proposal_id reviewer_id outcome s none = raised run_not_found
  review_row proposal_id reviewer_id outcome s (some row) =
      if elem reviewer_id (agents_of row.proposal.run_id s.jobs)
      then raised review_invalid
      else if not (elem outcome outcomes)
      then raised review_invalid
      else if outcome == "approved" && not (is_tests_passed row.proposal.status)
      then raised review_invalid
      else save_reviewed proposal_id reviewer_id outcome row.proposal s
          (platform.fresh_review_id s.world)

  -- review
  unfoldable pub review : String → String → String → MergeState → MergeResult MergeReview
  review proposal_id reviewer_id outcome s =
      review_row proposal_id reviewer_id outcome s (get_proposal proposal_id s.table)

  abbrev pub mark_done : String → String → MergeState → World → Option String → MergeResult String
  mark_done proposal_id by s w none = raised outside_error
  mark_done proposal_id by s w (some commit) =
      done commit (record s { table = mark_applied proposal_id by s.table; world = w })

  abbrev pub apply_merged : String → String → MergeState → Option World → MergeResult String
  apply_merged proposal_id by s none = raised outside_error
  apply_merged proposal_id by s (some w) = mark_done proposal_id by s w (platform.current_head w)

  abbrev pub apply_at :
      String → String → MergeProposal → MergeState → Option String → MergeResult String
  apply_at proposal_id by p s none = raised outside_error
  apply_at proposal_id by p s (some head) =
      if not (head == p.base_commit)
      then raised review_invalid
      else apply_merged proposal_id by s (platform.merge_ff p.integration_commit s.world)

  abbrev pub apply_reviewed :
      String → String → MergeProposal → MergeState → Option MergeReview → MergeResult String
  apply_reviewed proposal_id by p s none = raised review_required
  apply_reviewed proposal_id by p s (some v) =
      if not (v.outcome == "approved")
      then raised review_required
      else if not (platform.snapshot p == v.source_snapshot)
      then raised review_invalid
      else apply_at proposal_id by p s (platform.head_of p.target_branch s.world)

  abbrev pub apply_row : String → String → MergeState → Option MergeRow → MergeResult String
  apply_row proposal_id by s none = raised run_not_found
  apply_row proposal_id by s (some row) = apply_reviewed proposal_id by row.proposal s row.review

  -- apply
  unfoldable pub apply : String → String → MergeState → MergeResult String
  apply proposal_id by s = apply_row proposal_id by s (get_proposal proposal_id s.table)

  -- The coordinator's operations, by anyone in any order, while the world changes and the jobs run
  -- on; the agents of a run with a proposal stay the same.
  pub data MergeStep (s : MergeState) : MergeState → Type 0 where
    proposes :
        {p : MergeProposal} {t : MergeState} (run_id : String) (test_argv : List String)
        → propose run_id test_argv s ≡ done p t
        → MergeStep s t
    reviews :
        {v : MergeReview} {t : MergeState} (proposal_id reviewer_id outcome : String)
        → review proposal_id reviewer_id outcome s ≡ done v t
        → MergeStep s t
    applies :
        {commit : String} {t : MergeState} (proposal_id by : String)
        → apply proposal_id by s ≡ done commit t
        → MergeStep s t
    moves_on :
        (runs : List RunRecord) (jobs : List JobRow) (w : World)
        → ((r : MergeRow)
            → In r s.table
            → agents_of r.proposal.run_id jobs ≡ agents_of r.proposal.run_id s.jobs)
        → MergeStep s (record s { runs = runs; jobs = jobs; world = w })

  pub data Reachable : MergeState → Type 0 where
    initial :
        (runs : List RunRecord) (jobs : List JobRow) (w : World)
        → Reachable (record { runs = runs; jobs = jobs; table = []; world = w })
    after : {s t : MergeState} → Reachable s → MergeStep s t → Reachable t
