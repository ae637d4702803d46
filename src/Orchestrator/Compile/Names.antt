-- ===== src/Orchestrator/Compile/Names.antt =====
-- Names among other names, for the dependencies that GoalTaskCompiler.compile of
-- src/w1cip/orchestrator.py lists.
use w1_nexus.Prelude.{
  ◌≡◌, subst, String, Bool, true, not, List, [], ◌∷◌, ◌++◌, map, ◌==◌, Bool-cases, inl, inr, elem,
  select,
}
use w1_nexus.Dependencies.Order.{Within, elem-cons, elem-head, elem_cons_cases}
use w1_nexus.Orchestrator.Compile.{unique, or_list}

pub Within-cons : (k : String) (xs ys : List String) → Within xs ys → Within (k ∷ xs) (k ∷ ys)
Within-cons k xs ys w x m = elim (elem_cons_cases x k xs m) [
  | inl e ↦ subst (λ z. elem z (k ∷ ys) ≡ true) e (elem-head k ys)
  | inr n ↦ elem-cons x k ys (w x n)
]

pub Within-single : (k : String) (ys : List String) → elem k ys ≡ true → Within (k ∷ []) ys
Within-single k ys h x m = elim (elem_cons_cases x k [] m) [
  | inl e ↦ subst (λ z. elem z ys ≡ true) e h
  | inr n ↦ cc
]

pub Within-append : (xs ys zs : List String) → Within xs zs → Within ys zs → Within (xs ++ ys) zs
Within-append [] ys zs v w x m = w x m
Within-append (k ∷ xs) ys zs v w x m = elim (elem_cons_cases x k (xs ++ ys) m) [
  | inl e ↦ v x (subst (λ z. elem z (k ∷ xs) ≡ true) e (elem-head k xs))
  | inr n ↦ Within-append xs ys zs (λ y q. v y (elem-cons y k xs q)) w x n
]

pub Within-or_list :
    (xs ys zs : List String) → Within xs zs → Within ys zs → Within (or_list xs ys) zs
Within-or_list [] ys zs v w = w
Within-or_list (x ∷ xs) ys zs v w = v

pub Within-select : (p : String → Bool) (xs : List String) → Within (select p xs) xs
Within-select p [] x m = cc
Within-select p (k ∷ xs) x m = elim (Bool-cases (p k)) [
  | inl e ↦ Within-cons k (select p xs) xs (Within-select p xs) x (rw e at m)
  | inr e ↦ elem-cons x k xs (Within-select p xs x (rw e at m))
]

pub Within-unique : (xs : List String) → Within (unique xs) xs
unfolding unique
Within-unique [] x m = m
Within-unique (k ∷ xs) x m =
    Within-cons k (select (λ y. not (y == k)) (unique xs)) xs
      (λ y n. Within-unique xs y (Within-select (λ y. not (y == k)) (unique xs) y n)) x m

pub elem-named_map :
    (f : String → String) (k : String) (xs : List String)
    → elem k xs ≡ true
    → elem (f k) (map f xs) ≡ true
elem-named_map f k [] m = cc
elem-named_map f k (y ∷ xs) m = elim (elem_cons_cases k y xs m) [
  | inl e ↦ subst (λ z. elem (f z) (f y ∷ map f xs) ≡ true) e (elem-head (f y) (map f xs))
  | inr n ↦ elem-cons (f k) (f y) (map f xs) (elem-named_map f k xs n)
]

pub Within-map :
    (f : String → String) (xs ys : List String) → Within xs ys → Within (map f xs) (map f ys)
Within-map f [] ys w x m = cc
Within-map f (k ∷ xs) ys w x m = elim (elem_cons_cases x (f k) (map f xs) m) [
  | inl e ↦ subst (λ z. elem z (map f ys) ≡ true) e (elem-named_map f k ys (w k (elem-head k xs)))
  | inr n ↦ Within-map f xs ys (λ y q. w y (elem-cons y k xs q)) x n
]

-- What passes a test of a selection.
pub selected-Within : (ids xs : List String) → Within (select (λ x. elem x ids) xs) ids
selected-Within ids [] x m = cc
selected-Within ids (k ∷ xs) x m = elim (Bool-cases (elem k ids)) [
  | inr e ↦ selected-Within ids xs x (rw e at m)
  | inl e ↦ elim (elem_cons_cases x k (select (λ y. elem y ids) xs) (rw e at m)) [
    | inl f ↦ subst (λ z. elem z ids ≡ true) f e
    | inr n ↦ selected-Within ids xs x n
  ]
]
