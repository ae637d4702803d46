-- ===== src/Parallel/Merge/Applied.antt =====
-- What MergeCoordinator.apply of src/w1cip/parallel_runtime.py merges into the target branch.
use w1_nexus.Prelude.{◌≡◌, refl, sym, subst, String, List, first-In, ◌==◌}
use w1_nexus.Parallel.Types.{JobRow}
use w1_nexus.Parallel.Merge.{
  MergePlatform, MergeRow, agents_of, MergeState, done, apply, MergeStep, proposes, reviews,
  applies, moves_on, Reachable, initial, after,
}
use w1_nexus.Parallel.Merge.Built.{IsTested}
use w1_nexus.Parallel.Merge.Reviewed.{
  IsReview, IsGuarded, IsTable, IsApplied, propose-IsTable, review-IsTable, applied-IsTable,
  apply_cases,
}

module _ (platform : MergePlatform) where
  moved-IsGuarded :
      (jobs later : List JobRow) (r : MergeRow)
      → agents_of r.proposal.run_id later ≡ agents_of r.proposal.run_id jobs
      → IsGuarded platform jobs r
      → IsGuarded platform later r
  moved-IsGuarded jobs later r same g = record {
    is_tested = g.is_tested;
    is_reviewed = λ v e.
        let old = g.is_reviewed v e in
        record {
          unchanged = old.unchanged;
          independent = rw same old.independent;
          approves = old.approves;
        };
  }

  MergeStep-IsTable :
      {s t : MergeState platform} → MergeStep platform s t → IsTable platform s → IsTable platform t
  MergeStep-IsTable {s} {t} (proposes {p} run_id test_argv h) i =
      propose-IsTable platform run_id test_argv p s t h i
  MergeStep-IsTable {s} {t} (reviews {v} proposal_id reviewer_id outcome h) i =
      review-IsTable platform proposal_id reviewer_id outcome v s t h i
  MergeStep-IsTable {s} {t} (applies {commit} proposal_id by h) i =
      let (row, a, e) = apply_cases platform proposal_id by commit s t h in
      subst (IsTable platform) (sym e) (applied-IsTable platform s proposal_id by t.world i)
  MergeStep-IsTable {s} (moves_on runs jobs w same) i = record {
    unique = i.unique;
    guarded = λ r m. moved-IsGuarded s.jobs jobs r (same r m) (i.guarded r m);
  }

  Reachable-IsTable : {s : MergeState platform} → Reachable platform s → IsTable platform s
  Reachable-IsTable (initial runs jobs w) = record { unique = refl; guarded = λ r m. elim m [ ] }
  Reachable-IsTable (after before step) = MergeStep-IsTable step (Reachable-IsTable before)

-- When apply returns, after any sequence of proposals, reviews and applications, it has
-- fast-forwarded to the integration commit of a proposal on which all source branches were merged
-- from the base commit and the tests passed. The proposal has an approval by a reviewer who is none
-- of the producing agents, for the proposal as it stands, and the target branch was at its base.
pub apply_merges_reviewed :
    (platform : MergePlatform) (proposal_id by commit : String) (s t : MergeState platform)
    → Reachable platform s
    → apply platform proposal_id by s ≡ done commit t
    → (row : MergeRow) × (a : IsApplied platform proposal_id s t row) × IsTested platform
        row.proposal
      × IsReview platform s.jobs row.proposal a.verdict
apply_merges_reviewed platform proposal_id by commit s t r h =
    let (row, a, e) = apply_cases platform proposal_id by commit s t h in
    let i = Reachable-IsTable platform r in
    let listed = first-In (λ r. r.proposal.proposal_id == proposal_id) s.table row a.found in
    let g = i.guarded row listed in
    let v = g.is_reviewed a.verdict a.given in (row, a, g.is_tested (v.approves a.is_approved), v)
