-- ===== src/Parallel/Locks/Held.antt =====
-- A job of src/w1cip/parallel_runtime.py holds its paths until it releases them.
use w1_nexus.Prelude.{
  ◌≡◌, ◌≢◌, refl, sym, ◌∙◌, String, false, not, ◌&&◌, some, some-inj, List, [], ◌∷◌, ◌++◌, arith,
  any, select, In, In-select, In-left, here, there, ◌==◌, eq_iff, Bool-cases, inl, inr,
  true-ne-false,
}
use w1_nexus.Parallel.Types.{ResourcePath}
use w1_nexus.Parallel.Paths.{path_eq, paths_overlap}
use w1_nexus.Parallel.Paths.Overlap.{path_eq→eq, path_eq-overlap}
use w1_nexus.Parallel.Locks.{
  LockRow, overlaps_any, is_conflict, same_key, insert_or_replace, insert_all, acquire_once,
  release_resources,
}
use w1_nexus.Parallel.Locks.Exclusive.{any-false, held}

In-last : {A : Type 0} {x : A} (xs : List A) → In x (xs ++ x ∷ [])
In-last [] = here
In-last (y ∷ xs) = there (In-last xs)

module _ (run_id job_id : String) where
  -- Inserting a path keeps a row with another key.
  insert-keeps :
      (path : ResourcePath) (rows : List LockRow) (r : LockRow)
      → same_key run_id path r ≡ false
      → In r rows
      → In r (insert_or_replace run_id job_id path rows)
  insert-keeps path rows r h m =
      In-left _ (held run_id job_id path ∷ [])
        (In-select (λ q. not (same_key run_id path q)) rows m (rw h refl))

  insert-keeps_held :
      (path q : ResourcePath) (rows : List LockRow)
      → In (held run_id job_id q) rows
      → In (held run_id job_id q) (insert_or_replace run_id job_id path rows)
  insert-keeps_held path q rows m = elim (Bool-cases (path_eq q path)) [
    | inl e ↦ rw (path_eq→eq q path e) (In-last (select (λ r. not (same_key run_id path r)) rows))
    | inr e ↦ insert-keeps path rows _ (ground arith) m
  ]

  insert_all-keeps_held :
      (paths : List ResourcePath) (q : ResourcePath) (rows : List LockRow)
      → In (held run_id job_id q) rows
      → In (held run_id job_id q) (insert_all run_id job_id paths rows)
  unfolding insert_all
  insert_all-keeps_held [] q rows m = m
  insert_all-keeps_held (path ∷ paths) q rows m =
      insert_all-keeps_held paths q _ (insert-keeps_held path q rows m)

  insert_all-held :
      (paths : List ResourcePath) (rows : List LockRow) (q : ResourcePath)
      → In q paths
      → In (held run_id job_id q) (insert_all run_id job_id paths rows)
  unfolding insert_all
  insert_all-held [] rows q m = elim m [ ]
  insert_all-held (p ∷ paths) rows q here =
      insert_all-keeps_held paths q _ (In-last (select (λ r. not (same_key run_id q r)) rows))
  insert_all-held (path ∷ paths) rows q (there m) = insert_all-held paths _ q m

  -- What acquire_once does not find in conflict has another key.
  insert_all-keeps :
      (paths : List ResourcePath) (rows : List LockRow) (r : LockRow)
      → ((p : ResourcePath) → In p paths → same_key run_id p r ≡ false)
      → In r rows
      → In r (insert_all run_id job_id paths rows)
  unfolding insert_all
  insert_all-keeps [] rows r h m = m
  insert_all-keeps (path ∷ paths) rows r h m =
      insert_all-keeps paths _ r (λ p k. h p (there k)) (insert-keeps path rows r (h path here) m)

  other_key :
      (paths : List ResourcePath) (rows : List LockRow) (r : LockRow)
      → any (is_conflict run_id job_id paths) rows ≡ false
      → In r rows
      → (r.run_id ≡ run_id → r.job_id ≢ job_id)
      → (p : ResourcePath) → In p paths
      → same_key run_id p r ≡ false
  other_key paths rows r h m other p mp = elim (Bool-cases (r.run_id == run_id)) [
    | inr e ↦ rw e refl
    | inl e ↦ elim (Bool-cases (path_eq r.resource_path p)) [
      | inr f ↦ ground (arith, f)
      | inl f ↦
          let free = any-false (is_conflict run_id job_id paths) rows h r m in
          let apart : overlaps_any r.resource_path paths ≡ false =
            ground (arith, free, e, eq_iff r.run_id run_id, eq_iff r.job_id job_id, other) in
          absurd (
            true-ne-false (
              sym (path_eq-overlap r.resource_path p f)
              ∙ any-false (λ q. paths_overlap r.resource_path q) paths apart p mp))
    ]
  ]

  pub acquire_once-held :
      (paths : List ResourcePath) (s t : List LockRow)
      → acquire_once run_id job_id paths s ≡ some t
      → (p : ResourcePath) → In p paths
      → In (held run_id job_id p) t
  unfolding acquire_once
  acquire_once-held paths s t h p m = elim (Bool-cases (any (is_conflict run_id job_id paths) s)) [
    | inl e ↦ cc (rw e at h)
    | inr e ↦
        let same : insert_all run_id job_id paths s ≡ t = some-inj (rw e at h) in
        rw (← same) (insert_all-held paths s p m)
  ]

  pub acquire_once-keeps :
      (paths : List ResourcePath) (s t : List LockRow) (r : LockRow)
      → acquire_once run_id job_id paths s ≡ some t
      → (r.run_id ≡ run_id → r.job_id ≢ job_id)
      → In r s
      → In r t
  unfolding acquire_once
  acquire_once-keeps paths s t r h other m =
      elim (Bool-cases (any (is_conflict run_id job_id paths) s)) [
        | inl e ↦ cc (rw e at h)
        | inr e ↦
            let same : insert_all run_id job_id paths s ≡ t = some-inj (rw e at h) in
            rw (← same) (insert_all-keeps paths s r (other_key paths s r e m other) m)
      ]

release-keeps :
    (run_id job_id : String) (s : List LockRow) (r : LockRow)
    → (r.run_id ≡ run_id → r.job_id ≢ job_id)
    → In r s
    → In r (release_resources run_id job_id s)
unfolding release_resources
release-keeps run_id job_id s r other m =
    In-select (λ q. not (q.run_id == run_id && q.job_id == job_id)) s m
      (ground (arith, eq_iff r.run_id run_id, eq_iff r.job_id job_id, other))

-- Transactions of other jobs, or of the jobs of other runs.
pub data Others (run_id job_id : String) (s : List LockRow) : List LockRow → Type 0 where
  none_yet : Others run_id job_id s s
  acquired :
      {t u : List LockRow} (other_run other_job : String) (paths : List ResourcePath)
      → Others run_id job_id s t
      → (run_id ≡ other_run → job_id ≢ other_job)
      → acquire_once other_run other_job paths t ≡ some u
      → Others run_id job_id s u
  released :
      {t : List LockRow} (other_run other_job : String)
      → Others run_id job_id s t
      → (run_id ≡ other_run → job_id ≢ other_job)
      → Others run_id job_id s (release_resources other_run other_job t)

Others-keeps :
    {run_id job_id : String} {s u : List LockRow}
    → Others run_id job_id s u
    → (p : ResourcePath) → In (held run_id job_id p) s
    → In (held run_id job_id p) u
Others-keeps none_yet p m = m
Others-keeps {run_id} {job_id} {s} {u} (acquired {t} other_run other_job paths before other h) p m =
    acquire_once-keeps other_run other_job paths t u (held run_id job_id p) h other
      (Others-keeps before p m)
Others-keeps {run_id} {job_id} (released {t} other_run other_job before other) p m =
    release-keeps other_run other_job t (held run_id job_id p) other (Others-keeps before p m)

-- A job that has acquired its paths holds each of them until it releases them, whatever other jobs
-- acquire and release meanwhile: INSERT OR REPLACE never takes a lock away.
pub lock_kept :
    (s t u : List LockRow) (run_id job_id : String) (paths : List ResourcePath)
    → acquire_once run_id job_id paths s ≡ some t
    → Others run_id job_id t u
    → (p : ResourcePath) → In p paths
    → In (held run_id job_id p) u
lock_kept s t u run_id job_id paths h others p m =
    Others-keeps others p (acquire_once-held run_id job_id paths s t h p m)
