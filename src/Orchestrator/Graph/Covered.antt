-- ===== src/Orchestrator/Graph/Covered.antt =====
-- What the review gate _enforce_extra_review of src/w1cip/orchestrator.py lets through.
use w1_nexus.Prelude.{
  ℕ, suc, zero, ◌≡◌, refl, String, true, ◌&&◌, Option, none, some, List, [], ◌∷◌, ◌==◌, eq_iff,
  Bool-cases, inl, inr, ◌⊎◌, elem, In, here, there, and-left, and-right, length,
}
use w1_nexus.Orchestrator.Types.{CompiledTask, CompiledWorkflow}
use w1_nexus.Orchestrator.Journal.{TaskRow}
use w1_nexus.Orchestrator.Graph.{
  task_by_id, task_row, Search, found, not_found, search_key_error, search_fuel, search_all,
  search_task, search, depends_transitively, Review, review_covered, review_missing,
  review_key_error, review_fuel, has_completed, covered_by, enforce_extra_review,
}

-- One task depends on another: over a chain of direct dependencies.
pub data DependsOn (w : CompiledWorkflow) (target : String) : String → Type 0 where
  direct :
      {key : String} {t : CompiledTask}
      → task_by_id key w ≡ some t
      → elem target t.depends_on ≡ true
      → DependsOn w target key
  through :
      {key d : String} {t : CompiledTask}
      → task_by_id key w ≡ some t
      → In d t.depends_on
      → DependsOn w target d
      → DependsOn w target key

Search-cases :
    (r : Search)
    → (r ≡ found)
      ⊎ ((seen : List String) × (r ≡ not_found seen))
      ⊎ (r ≡ search_key_error)
      ⊎ (r ≡ search_fuel)
Search-cases found = inl refl
Search-cases (not_found seen) = inr (inl (seen, refl))
Search-cases search_key_error = inr (inr (inl refl))
Search-cases search_fuel = inr (inr (inr refl))

search_all-found :
    (f : String → List String → Search) (keys seen : List String)
    → search_all f keys seen ≡ found
    → (d : String) × (before : List String) × In d keys × (f d before ≡ found)
unfolding search_all
search_all-found f [] seen h = cc
search_all-found f (k ∷ keys) seen h = elim (Search-cases (f k seen)) [
  | inl e ↦ (k, seen, here, e)
  | inr (inl (more, e)) ↦
      let (d, before, m, g) = search_all-found f keys more (rw (e, search_all) at h) in
      (d, before, there m, g)
  | inr (inr (inl e)) ↦ cc (rw (e, search_all) at h)
  | inr (inr (inr e)) ↦ cc (rw (e, search_all) at h)
]

module _ (w : CompiledWorkflow) (target : String) where
  search_task-DependsOn :
      (n : ℕ)
      → ((key : String) (seen : List String)
          → search n w target key seen ≡ found
          → DependsOn w target key)
      → (key : String) (seen : List String) (o : Option CompiledTask) → task_by_id key w ≡ o
      → search_task (search n w target) target seen o ≡ found
      → DependsOn w target key
  search_task-DependsOn n ih key seen none e h = cc
  search_task-DependsOn n ih key seen (some t) e h = elim (Bool-cases (elem target t.depends_on)) [
    | inl f ↦ direct e f
    | inr f ↦
        let (d, before, m, g) =
          search_all-found (search n w target) t.depends_on seen (rw f at h) in
        through e m (ih d before g)
  ]

  search-DependsOn :
      (n : ℕ) (key : String) (seen : List String)
      → search n w target key seen ≡ found
      → DependsOn w target key
  unfolding search
  search-DependsOn zero key seen h = cc
  search-DependsOn (suc n) key seen h = elim (Bool-cases (elem key seen)) [
    | inl e ↦ cc (rw e at h)
    | inr e ↦
        search_task-DependsOn n (search-DependsOn n) key (key ∷ seen) (task_by_id key w) refl
          (rw e at h)
  ]

-- A completed review task of the workflow that depends on a task.
pub record IsReviewed (w : CompiledWorkflow) (rows : List TaskRow) (name : String) : Type 0 where
  pub reviewer : CompiledTask
  pub listed : In reviewer w.tasks
  pub phase : reviewer.phase ≡ "review"
  pub finished : has_completed (task_row reviewer.task_id rows) ≡ true
  pub depends : DependsOn w name reviewer.task_id

module _ (w : CompiledWorkflow) (rows : List TaskRow) where
  covered_by-IsReviewed :
      (name : String) (tasks : List CompiledTask)
      → ((t : CompiledTask) → In t tasks → In t w.tasks)
      → covered_by w rows name tasks ≡ review_covered
      → IsReviewed w rows name
  unfolding covered_by depends_transitively
  covered_by-IsReviewed name [] sub h = cc
  covered_by-IsReviewed name (t ∷ tasks) sub h =
      let rest = covered_by-IsReviewed name tasks (λ u m. sub u (there m)) in
      elim (Bool-cases ((t.phase == "review") && has_completed (task_row t.task_id rows))) [
        | inr e ↦ rest (rw e at h)
        | inl e ↦ elim (Search-cases (search (suc (suc (length w.tasks))) w name t.task_id [])) [
          | inl f ↦ record {
            reviewer = t;
            listed = sub t here;
            phase = (eq_iff t.phase "review").0 (and-left (t.phase == "review") _ e);
            finished = and-right (t.phase == "review") _ e;
            depends = search-DependsOn w name (suc (suc (length w.tasks))) t.task_id [] f;
          }
          | inr (inl (seen, f)) ↦ rest (rw (f, covered_by) at (rw e at h))
          | inr (inr (inl f)) ↦ cc (rw (f, covered_by) at (rw e at h))
          | inr (inr (inr f)) ↦ cc (rw (f, covered_by) at (rw e at h))
        ]
      ]

  Review-cases :
      (r : Review)
      → (r ≡ review_covered) ⊎ (r ≡ review_missing) ⊎ (r ≡ review_key_error) ⊎ (r ≡ review_fuel)
  Review-cases review_covered = inl refl
  Review-cases review_missing = inr (inl refl)
  Review-cases review_key_error = inr (inr (inl refl))
  Review-cases review_fuel = inr (inr (inr refl))

  -- One row: it is covered if it wants a review, and so are the others.
  enforce-cons :
      (r : TaskRow) (rest : List TaskRow)
      → enforce_extra_review w rows (r ∷ rest) ≡ review_covered
      → (r.requires_extra_review ≡ true → covered_by w rows r.task_id w.tasks ≡ review_covered)
        × (enforce_extra_review w rows rest ≡ review_covered)
  unfolding enforce_extra_review
  enforce-cons r rest h = elim (Bool-cases r.requires_extra_review) [
    | inr e ↦ ((λ f. cc), rw e at h)
    | inl e ↦ elim (Review-cases (covered_by w rows r.task_id w.tasks)) [
      | inl f ↦ ((λ g. f), rw (f, enforce_extra_review) at (rw e at h))
      | inr (inl f) ↦ cc (rw (f, enforce_extra_review) at (rw e at h))
      | inr (inr (inl f)) ↦ cc (rw (f, enforce_extra_review) at (rw e at h))
      | inr (inr (inr f)) ↦ cc (rw (f, enforce_extra_review) at (rw e at h))
    ]
  ]

-- The gate passes only if each row that wants an extra review belongs to a task on which a
-- completed review task of the workflow depends, over a chain of direct dependencies.
pub enforce_extra_review-IsReviewed :
    (w : CompiledWorkflow) (rows rs : List TaskRow)
    → enforce_extra_review w rows rs ≡ review_covered
    → (r : TaskRow) → In r rs
    → r.requires_extra_review ≡ true
    → IsReviewed w rows r.task_id
enforce_extra_review-IsReviewed w rows [] h r m e = elim m [ ]
enforce_extra_review-IsReviewed w rows (q ∷ rs) h r here e =
    covered_by-IsReviewed w rows r.task_id w.tasks (λ t m. m) ((enforce-cons w rows r rs h).0 e)
enforce_extra_review-IsReviewed w rows (q ∷ rs) h r (there m) e =
    enforce_extra_review-IsReviewed w rows rs (enforce-cons w rows q rs h).1 r m e
