-- ===== src/Parallel/Locks/Exclusive.antt =====
-- Two jobs of a run never hold overlapping paths in the table of src/w1cip/parallel_runtime.py.
use w1_nexus.Prelude.{
  ◌≡◌, ◌≢◌, ◌⊎◌, refl, sym, ◌∙◌, String, Bool, false, not, ◌&&◌, some, some-inj, List, [], ◌∷◌,
  ◌++◌, arith, any, select, select-In, In, here, there, ◌==◌, eq_iff, Bool-cases, inl, inr,
}
use w1_nexus.Parallel.Types.{ResourcePath}
use w1_nexus.Parallel.Paths.{paths_overlap}
use w1_nexus.Parallel.Paths.Overlap.{paths_overlap_comm}
use w1_nexus.Parallel.Locks.{
  LockRow, is_conflict, same_key, insert_or_replace, insert_all, acquire_once, release_resources,
  LockStep, acquires, releases, Reachable, empty, after,
}

pub any-false :
    {A : Type 0} (p : A → Bool) (xs : List A) → any p xs ≡ false → (x : A) → In x xs → p x ≡ false
any-false p [] h x m = elim m [ ]
any-false p (y ∷ ys) h x here = ground arith
any-false p (y ∷ ys) h x (there m) = any-false p ys (ground arith) x m

In-append : {A : Type 0} (xs ys : List A) {x : A} → In x (xs ++ ys) → In x xs ⊎ In x ys
In-append [] ys m = inr m
In-append (y ∷ xs) ys here = inl here
In-append (y ∷ xs) ys (there m) = elim (In-append xs ys m) [ inl k ↦ inl (there k) | inr k ↦ inr k ]

In-single-eq : {A : Type 0} {x y : A} → In x (y ∷ []) → x ≡ y
In-single-eq here = refl
In-single-eq (there m) = elim m [ ]

-- Rows of two jobs of one run are on paths that do not overlap.
abbrev pub Apart : LockRow → LockRow → Type 0
Apart r q =
    r.run_id ≡ q.run_id
    → r.job_id ≢ q.job_id
    → paths_overlap r.resource_path q.resource_path ≡ false

abbrev pub IsExclusive : List LockRow → Type 0
IsExclusive rows = (r q : LockRow) → In r rows → In q rows → Apart r q

Apart-sym : (r q : LockRow) → Apart r q → Apart q r
Apart-sym r q h same other =
    paths_overlap_comm q.resource_path r.resource_path ∙ h (sym same) (λ e. other (sym e))

module _ (run_id job_id : String) where
  abbrev pub held : ResourcePath → LockRow
  held path = record { run_id = run_id; resource_path = path; job_id = job_id }

  -- Every row is apart from what the job takes.
  abbrev IsFree : List ResourcePath → List LockRow → Type 0
  IsFree paths rows = (r : LockRow) → In r rows → (p : ResourcePath) → In p paths → Apart r (held p)

  insert-In :
      (path : ResourcePath) (rows : List LockRow) (r : LockRow)
      → In r (insert_or_replace run_id job_id path rows)
      → In r rows ⊎ (r ≡ held path)
  insert-In path rows r m =
      elim (In-append (select (λ r. not (same_key run_id path r)) rows) (held path ∷ []) m) [
        | inl k ↦ inl (select-In (λ r. not (same_key run_id path r)) rows k).0
        | inr k ↦ inr (In-single-eq k)
      ]

  held-Apart : (p q : ResourcePath) → Apart (held p) (held q)
  held-Apart p q same other = absurd (other refl)

  insert-IsExclusive :
      (path : ResourcePath) (rows : List LockRow)
      → IsExclusive rows
      → IsFree (path ∷ []) rows
      → IsExclusive (insert_or_replace run_id job_id path rows)
  insert-IsExclusive path rows ex free r q mr mq = elim (insert-In path rows r mr) [
    | inl a ↦ elim (insert-In path rows q mq) [
      | inl b ↦ ex r q a b
      | inr b ↦ rw b (free r a path here)
    ]
    | inr a ↦ elim (insert-In path rows q mq) [
      | inl b ↦ rw a (Apart-sym q (held path) (free q b path here))
      | inr b ↦ rw (a, b) (held-Apart path path)
    ]
  ]

  insert-IsFree :
      (path : ResourcePath) (paths : List ResourcePath) (rows : List LockRow)
      → IsFree (path ∷ paths) rows
      → IsFree paths (insert_or_replace run_id job_id path rows)
  insert-IsFree path paths rows free r m p mp = elim (insert-In path rows r m) [
    | inl a ↦ free r a p (there mp)
    | inr a ↦ rw a (held-Apart path p)
  ]

  IsFree-head :
      (path : ResourcePath) (paths : List ResourcePath) (rows : List LockRow)
      → IsFree (path ∷ paths) rows
      → IsFree (path ∷ []) rows
  IsFree-head path paths rows free r m p mp = rw (In-single-eq mp) (free r m path here)

  pub insert_all-IsExclusive :
      (paths : List ResourcePath) (rows : List LockRow)
      → IsExclusive rows
      → IsFree paths rows
      → IsExclusive (insert_all run_id job_id paths rows)
  unfolding insert_all
  insert_all-IsExclusive [] rows ex free = ex
  insert_all-IsExclusive (path ∷ paths) rows ex free =
      insert_all-IsExclusive paths _
        (insert-IsExclusive path rows ex (IsFree-head path paths rows free))
        (insert-IsFree path paths rows free)

  no_conflict-IsFree :
      (paths : List ResourcePath) (rows : List LockRow)
      → any (is_conflict run_id job_id paths) rows ≡ false
      → IsFree paths rows
  no_conflict-IsFree paths rows h r m p mp same other =
      any-false (λ q. paths_overlap r.resource_path q) paths
        (ground (
          arith,
          any-false (is_conflict run_id job_id paths) rows h r m,
          eq_iff r.run_id run_id,
          eq_iff r.job_id job_id,
          same,
          other,
        ))
        p mp

  pub acquire_once-IsExclusive :
      (paths : List ResourcePath) (rows t : List LockRow)
      → acquire_once run_id job_id paths rows ≡ some t
      → IsExclusive rows
      → IsExclusive t
  unfolding acquire_once
  acquire_once-IsExclusive paths rows t h ex =
      elim (Bool-cases (any (is_conflict run_id job_id paths) rows)) [
        | inl e ↦ cc (rw e at h)
        | inr e ↦
            let same : insert_all run_id job_id paths rows ≡ t = some-inj (rw e at h) in
            rw (← same) (insert_all-IsExclusive paths rows ex (no_conflict-IsFree paths rows e))
      ]

release-IsExclusive :
    (run_id job_id : String) (rows : List LockRow)
    → IsExclusive rows
    → IsExclusive (release_resources run_id job_id rows)
unfolding release_resources
release-IsExclusive run_id job_id rows ex r q mr mq =
    ex r q (select-In (λ r. not (r.run_id == run_id && r.job_id == job_id)) rows mr).0
      (select-In (λ r. not (r.run_id == run_id && r.job_id == job_id)) rows mq).0

LockStep-IsExclusive : {s t : List LockRow} → LockStep s t → IsExclusive s → IsExclusive t
LockStep-IsExclusive {s} {t} (acquires run_id job_id paths h) ex =
    acquire_once-IsExclusive run_id job_id paths s t h ex
LockStep-IsExclusive {s} (releases run_id job_id) ex = release-IsExclusive run_id job_id s ex

-- However the transactions of the jobs interleave, two jobs of a run never hold paths that overlap.
pub locks_exclude :
    {s : List LockRow}
    → Reachable s
    → (r q : LockRow) → In r s
    → In q s
    → r.run_id ≡ q.run_id
    → r.job_id ≢ q.job_id
    → paths_overlap r.resource_path q.resource_path ≡ false
locks_exclude empty r q mr mq = elim mr [ ]
locks_exclude (after reach step) r q mr mq =
    LockStep-IsExclusive step (locks_exclude reach) r q mr mq
