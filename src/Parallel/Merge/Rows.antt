-- ===== src/Parallel/Merge/Rows.antt =====
-- Lists of rows of the merge_proposals table of src/w1cip/parallel_runtime.py.
use w1_nexus.Prelude.{
  ◌≡◌, ◌⊎◌, refl, String, true, false, some, List, [], ◌∷◌, ◌++◌, map, arith, ◌==◌, eq_iff,
  Bool-cases, inl, inr, elem, has_duplicate, In, here, there,
}
use w1_nexus.Parallel.Types.{
  MergeProposal, MergeReview, ProposalStatus, proposed, tests_passed, tests_failed, conflicted,
}
use w1_nexus.Parallel.Merge.{MergeRow, is_tests_passed, save_proposal, set_review, set_applied}

pub In-map :
    {A B : Type 0} (f : A → B) (xs : List A) {y : B}
    → In y (map f xs)
    → (x : A) × In x xs × (y ≡ f x)
In-map f [] m = elim m [ ]
In-map f (x ∷ xs) here = (x, here, refl)
In-map f (x ∷ xs) (there m) = let (z, k, e) = In-map f xs m in (z, there k, e)

pub In-last : {A : Type 0} (xs : List A) {x y : A} → In x (xs ++ y ∷ []) → In x xs ⊎ (x ≡ y)
In-last [] here = inr refl
In-last [] (there m) = elim m [ ]
In-last (z ∷ xs) here = inl here
In-last (z ∷ xs) (there m) = elim (In-last xs m) [ inl k ↦ inl (there k) | inr e ↦ inr e ]

pub passed_status : (st : ProposalStatus) → is_tests_passed st ≡ true → st ≡ tests_passed
passed_status tests_passed h = refl
passed_status proposed h = cc
passed_status conflicted h = cc
passed_status tests_failed h = cc

abbrev pub name_of : MergeRow → String
name_of r = r.proposal.proposal_id

absent_replaced :
    (p : MergeProposal) (rows : List MergeRow) (k : String)
    → elem k (map name_of rows) ≡ false
    → (p.proposal_id == k) ≡ false
    → elem k (map name_of (save_proposal p rows)) ≡ false
absent_replaced p [] k h e = ground arith
absent_replaced p (r ∷ rows) k h e = elim (Bool-cases (r.proposal.proposal_id == p.proposal_id)) [
  | inl f ↦ rw f (absent_replaced p rows k (ground arith) e)
  | inr f ↦ rw f (ground (arith, h, absent_replaced p rows k (ground arith) e))
]

pub unique_replaced :
    (p : MergeProposal) (rows : List MergeRow)
    → has_duplicate (map name_of rows) ≡ false
    → has_duplicate (map name_of (save_proposal p rows)) ≡ false
unique_replaced p [] h = refl
unique_replaced p (r ∷ rows) h = elim (Bool-cases (r.proposal.proposal_id == p.proposal_id)) [
  | inl f ↦ rw f (unique_replaced p rows (ground arith))
  | inr f ↦
      let apart : (p.proposal_id == r.proposal.proposal_id) ≡ false = ground (
        arith,
        f,
        eq_iff p.proposal_id r.proposal.proposal_id,
        eq_iff r.proposal.proposal_id p.proposal_id,
      ) in
      let absent = absent_replaced p rows r.proposal.proposal_id (ground (arith, h)) apart in
      rw (f, absent) (unique_replaced p rows (ground (arith, h)))
]

pub names_kept :
    (f : MergeRow → MergeRow)
    → ((r : MergeRow) → name_of (f r) ≡ name_of r)
    → (rows : List MergeRow) → map name_of (map f rows) ≡ map name_of rows
names_kept f h [] = refl
names_kept f h (r ∷ rows) = rw (h r, names_kept f h rows) refl

pub set_review_cases :
    (v : MergeReview) (r : MergeRow)
    → (set_review v r ≡ r)
      ⊎ ((set_review v r ≡ record r { review = some v }) × (r.proposal.proposal_id ≡ v.proposal_id))
set_review_cases v r = elim (Bool-cases (r.proposal.proposal_id == v.proposal_id)) [
  | inl e ↦ inr (rw e refl, (eq_iff r.proposal.proposal_id v.proposal_id).0 e)
  | inr e ↦ inl (rw e refl)
]

pub set_applied_cases :
    (k by : String) (r : MergeRow)
    → (set_applied k by r ≡ r) ⊎ (set_applied k by r ≡ record r { applied_by = some by })
set_applied_cases k by r = elim (Bool-cases (r.proposal.proposal_id == k)) [
  | inl e ↦ inr (rw e refl)
  | inr e ↦ inl (rw e refl)
]
