-- ===== src/Parallel/Locks.antt =====
-- The resource_locks table of src/w1cip/parallel_runtime.py: acquire_resources and release_resources.
pub mod Exclusive
pub mod Held
use w1_nexus.Prelude.{
  String, Bool, true, false, not, ◌&&◌, Option, none, some, List, [], ◌∷◌, ◌++◌, any, select, ◌==◌,
  if◌then◌else◌, ◌≡◌,
}
use w1_nexus.Parallel.Types.{ResourcePath}
use w1_nexus.Parallel.Paths.{path_eq, paths_overlap, normalise_resource}

pub record LockRow : Type 0 where
  pub run_id : String
  pub resource_path : ResourcePath
  pub job_id : String

-- `any(_paths_overlap(row["resource_path"], p) for p in normalized)`
abbrev pub overlaps_any : ResourcePath → List ResourcePath → Bool
overlaps_any path paths = any (λ p. paths_overlap path p) paths

-- A row of the run that another job holds, on a path that overlaps.
abbrev pub is_conflict : String → String → List ResourcePath → LockRow → Bool
is_conflict run_id job_id paths r =
    r.run_id == run_id && (not (r.job_id == job_id) && overlaps_any r.resource_path paths)

abbrev pub same_key : String → ResourcePath → LockRow → Bool
same_key run_id path r = r.run_id == run_id && path_eq r.resource_path path

-- INSERT OR REPLACE, by the primary key (run_id, resource_path).
abbrev pub insert_or_replace : String → String → ResourcePath → List LockRow → List LockRow
insert_or_replace run_id job_id path rows =
    select (λ r. not (same_key run_id path r)) rows
    ++ record { run_id = run_id; resource_path = path; job_id = job_id } ∷ []

unfoldable pub insert_all : String → String → List ResourcePath → List LockRow → List LockRow
insert_all run_id job_id [] rows = rows
insert_all run_id job_id (path ∷ paths) rows =
    insert_all run_id job_id paths (insert_or_replace run_id job_id path rows)

-- One transaction of the loop: the rows with the job's paths, or a conflict.
unfoldable pub acquire_once :
    String → String → List ResourcePath → List LockRow → Option (List LockRow)
unfolding insert_all
acquire_once run_id job_id paths rows =
    if any (is_conflict run_id job_id paths) rows
    then none
    else some (insert_all run_id job_id paths rows)

-- The rounds of the loop: whether the time is not up and nothing is cancelled, and the table that
-- the transaction of the round finds. `none` is the answer False.
unfoldable pub acquire_rounds :
    String → String → List ResourcePath → List (Bool × List LockRow) → Option (List LockRow)
unfolding acquire_once
acquire_rounds run_id job_id paths [] = none
acquire_rounds run_id job_id paths ((open_round, rows) ∷ rounds) =
    let later = acquire_rounds run_id job_id paths rounds in
    if open_round
    then elim (acquire_once run_id job_id paths rows) [ none ↦ later | some taken ↦ some taken ]
    else none

-- release_resources
unfoldable pub release_resources : String → String → List LockRow → List LockRow
release_resources run_id job_id rows =
    select (λ r. not (r.run_id == run_id && r.job_id == job_id)) rows

-- `{_normalise_resource(p) for p in resources}`: the order and the repetitions do not matter to the
-- table; `none` is an invalid path.
unfoldable pub normalise_all :
    (ResourcePath → ResourcePath) → List ResourcePath → Option (List ResourcePath)
unfolding normalise_resource
normalise_all posix [] = some []
normalise_all posix (p ∷ ps) =
    let rest = normalise_all posix ps in
    elim (normalise_resource posix p) [
      | none ↦ none
      | some q ↦ elim rest [ none ↦ none | some qs ↦ some (q ∷ qs) ]
    ]

-- Transactions of all jobs on the table, in any order.
pub data LockStep (s : List LockRow) : List LockRow → Type 0 where
  acquires :
      {t : List LockRow} (run_id job_id : String) (paths : List ResourcePath)
      → acquire_once run_id job_id paths s ≡ some t
      → LockStep s t
  releases : (run_id job_id : String) → LockStep s (release_resources run_id job_id s)

pub data Reachable : List LockRow → Type 0 where
  empty : Reachable []
  after : {s t : List LockRow} → Reachable s → LockStep s t → Reachable t
