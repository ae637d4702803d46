-- ===== src/Prelude/Texts.antt =====
-- Lists of texts as Python uses them: `in`, `issubset`, and `len(xs) != len(set(xs))`.
use Prim.Native.String.{String}
use mathlib.Core.Path.{◌≡◌, refl}
use mathlib.Core.Bool.{Bool, true, false, ◌||◌}
use mathlib.Core.Logic.{inl, inr}
use mathlib.Core.Option.{Option, none, some}
use mathlib.Core.List.{List, map, [], ◌∷◌}
use native.Mathlib.Omega.{arith}
use text.Mathlib.Text.{◌==◌}
use text.Mathlib.TextEquality.{eq_iff}
use w1_nexus.Prelude.Tests.{if◌then◌else◌, Bool-cases}
use w1_nexus.Prelude.Lists.{any, all}

-- `k in xs`
abbrev pub elem : String → List String → Bool
elem k xs = any (λ x. x == k) xs

-- `set(xs).issubset(ys)`
abbrev pub is_subset : List String → List String → Bool
is_subset xs ys = all (λ x. elem x ys) xs

-- Some text occurs twice.
abbrev pub has_duplicate : List String → Bool
has_duplicate [] = false
has_duplicate (x ∷ xs) = elem x xs || has_duplicate xs

-- Equality of optional texts, as Python's `==` with None.
abbrev pub option_eq : Option String → Option String → Bool
option_eq none none = true
option_eq (some a) (some b) = a == b
option_eq _ _ = false

-- `d.get(k)` of a dict as an association list.
abbrev pub lookup {ℓ} : {V : Type ℓ} → String → List (String × V) → Option V
lookup k [] = none
lookup k ((j, v) ∷ m) = if j == k then some v else lookup k m

pub option_eq_refl : (a : Option String) → option_eq a a ≡ true
option_eq_refl none = refl
option_eq_refl (some a) = (eq_iff a a).1 refl

pub option_eq→eq : (a b : Option String) → option_eq a b ≡ true → a ≡ b
option_eq→eq none none h = refl
option_eq→eq (some a) (some b) h = ground (arith, eq_iff a b)
option_eq→eq none (some b) h = ground arith
option_eq→eq (some a) none h = ground arith

-- A name among those of a list is that of an element.
pub elem-map {ℓ} :
    {A : Type ℓ} (f : A → String) (key : String) (xs : List A)
    → elem key (map f xs) ≡ any (λ x. f x == key) xs
elem-map f key [] = refl
elem-map f key (x ∷ xs) = ground (arith, elem-map f key xs)

-- What fails for all names fails for one of them.
pub all-false :
    (p : String → Bool) (xs : List String)
    → all p xs ≡ false
    → (x : String) × (elem x xs ≡ true) × (p x ≡ false)
all-false p [] h = cc
all-false p (x ∷ xs) h = elim (Bool-cases (p x)) [
  | inr e ↦ (x, ground (arith, eq_iff x x), e)
  | inl e ↦ let (y, m, f) = all-false p xs (rw e at h) in (y, ground (arith, m), f)
]
