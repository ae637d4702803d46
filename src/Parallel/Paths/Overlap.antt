-- ===== src/Parallel/Paths/Overlap.antt =====
-- _paths_overlap of src/w1cip/parallel_runtime.py on paths as lists of segments.
use w1_nexus.Prelude.{◌≡◌, refl, true, [], ◌∷◌, arith, eqb_iff}
use w1_nexus.Parallel.Types.{ResourcePath}
use w1_nexus.Parallel.Paths.{path_eq, paths_overlap}

path_eq_comm : (a b : ResourcePath) → path_eq a b ≡ path_eq b a
path_eq_comm [] [] = refl
path_eq_comm [] (d ∷ ds) = refl
path_eq_comm (c ∷ cs) [] = refl
path_eq_comm (c ∷ cs) (d ∷ ds) = ground (arith, path_eq_comm cs ds, eqb_iff c d, eqb_iff d c)

-- Overlap goes both ways.
pub paths_overlap_comm : (a b : ResourcePath) → paths_overlap a b ≡ paths_overlap b a
unfolding paths_overlap
paths_overlap_comm a b = ground (arith, path_eq_comm a b)

pub path_eq→eq : (a b : ResourcePath) → path_eq a b ≡ true → a ≡ b
path_eq→eq [] [] h = refl
path_eq→eq [] (d ∷ ds) h = cc
path_eq→eq (c ∷ cs) [] h = cc
path_eq→eq (c ∷ cs) (d ∷ ds) h = ground (arith, path_eq→eq cs ds, eqb_iff c d)

-- Equal paths overlap.
pub path_eq-overlap : (a b : ResourcePath) → path_eq a b ≡ true → paths_overlap a b ≡ true
unfolding paths_overlap
path_eq-overlap a b h = ground arith
