-- ===== src/Resources/Route/Order.antt =====
-- The order in which route_execution_resource of src/w1cip/validation.py tries the candidates.
use native.Mathlib.Nat.{le_refl}
use w1_nexus.Prelude.{
  ℕ, ◌∙◌, subst, ◌≤◌, ◌≡◌, refl, ap, Bool, true, ◌||◌, some, List, [], ◌∷◌, arith, ltb, any, first,
  In, here, there, All, All-In, Bool-cases, inl, inr,
}
use w1_nexus.Resources.Plan.{Candidate}
use w1_nexus.Resources.Route.{place, by_priority}

pub any-place :
    (p : Candidate → Bool) (c : Candidate) (ds : List Candidate)
    → any p (place c ds) ≡ (p c || any p ds)
unfolding place
any-place p c [] = refl
any-place p c (d ∷ ds) = ground (arith, any-place p c ds)

pub any-by_priority :
    (p : Candidate → Bool) (cs : List Candidate) → any p (by_priority cs) ≡ any p cs
unfolding by_priority
any-by_priority p [] = refl
any-by_priority p (c ∷ cs) =
    any-place p c (by_priority cs) ∙ ap (λ b. p c || b) (any-by_priority p cs)

In-skip : {a c d : Candidate} {ds : List Candidate} → In a (c ∷ ds) → In a (c ∷ d ∷ ds)
In-skip here = here
In-skip (there m) = there (there m)

-- What an entry for the tail becomes after a step on the tail.
In-step :
    {a d : Candidate} {xs ys : List Candidate} → (In a xs → In a ys) → In a (d ∷ xs) → In a (d ∷ ys)
In-step f here = here
In-step f (there m) = there (f m)

In-back :
    {a c d : Candidate} {xs ds : List Candidate}
    → (In a (c ∷ ds) → In a xs)
    → In a (c ∷ d ∷ ds)
    → In a (d ∷ xs)
In-back f here = there (f here)
In-back f (there here) = here
In-back f (there (there m)) = there (f (there m))

In-split :
    {a c d : Candidate} {xs ds : List Candidate}
    → (In a xs → In a (c ∷ ds))
    → In a (d ∷ xs)
    → In a (c ∷ d ∷ ds)
In-split f here = there here
In-split f (there m) = In-skip (f m)

place-In : {a : Candidate} (c : Candidate) (ds : List Candidate) → In a (place c ds) → In a (c ∷ ds)
unfolding place
place-In c [] m = m
place-In c (d ∷ ds) m = elim (Bool-cases (ltb d.priority c.priority)) [
  | inl e ↦ In-split (place-In c ds) (rw e at m)
  | inr e ↦ rw e at m
]

pub by_priority-In : {a : Candidate} (cs : List Candidate) → In a (by_priority cs) → In a cs
unfolding by_priority
by_priority-In [] m = m
by_priority-In (c ∷ cs) m = In-step (by_priority-In cs) (place-In c (by_priority cs) m)

In-place : {a : Candidate} (c : Candidate) (ds : List Candidate) → In a (c ∷ ds) → In a (place c ds)
unfolding place
In-place c [] m = m
In-place c (d ∷ ds) m = elim (Bool-cases (ltb d.priority c.priority)) [
  | inl e ↦ rw e (In-back (In-place c ds) m)
  | inr e ↦ rw e m
]

pub In-by_priority : {a : Candidate} (cs : List Candidate) → In a cs → In a (by_priority cs)
unfolding by_priority
In-by_priority [] m = elim m [ ]
In-by_priority (c ∷ cs) m = In-place c (by_priority cs) (In-step (In-by_priority cs) m)

abbrev pub IsOrdered : List Candidate → Type 0
IsOrdered [] = Unit
IsOrdered (c ∷ cs) = All (λ d. c.priority ≤ d.priority) cs × IsOrdered cs

All-place :
    (n : ℕ) (c : Candidate) (ds : List Candidate)
    → n ≤ c.priority
    → All (λ d. n ≤ d.priority) ds
    → All (λ d. n ≤ d.priority) (place c ds)
unfolding place
All-place n c [] h k = (h, tt)
All-place n c (d ∷ ds) h k = elim (Bool-cases (ltb d.priority c.priority)) [
  | inl e ↦ rw e (k.0, All-place n c ds h k.1)
  | inr e ↦ rw e (h, k)
]

All-weaken :
    (m n : ℕ) (ds : List Candidate)
    → m ≤ n
    → All (λ d. n ≤ d.priority) ds
    → All (λ d. m ≤ d.priority) ds
All-weaken m n [] h k = tt
All-weaken m n (d ∷ ds) h k = (omega arith, All-weaken m n ds h k.1)

place-IsOrdered : (c : Candidate) (ds : List Candidate) → IsOrdered ds → IsOrdered (place c ds)
unfolding place
place-IsOrdered c [] o = (tt, tt)
place-IsOrdered c (d ∷ ds) o = elim (Bool-cases (ltb d.priority c.priority)) [
  | inl e ↦ rw e (All-place d.priority c ds (ground arith) o.0, place-IsOrdered c ds o.1)
  | inr e ↦
      let le : c.priority ≤ d.priority = ground arith in
      rw e ((le, All-weaken c.priority d.priority ds le o.0), o)
]

pub by_priority-IsOrdered : (cs : List Candidate) → IsOrdered (by_priority cs)
unfolding by_priority
by_priority-IsOrdered [] = tt
by_priority-IsOrdered (c ∷ cs) = place-IsOrdered c (by_priority cs) (by_priority-IsOrdered cs)

first-head :
    (p : Candidate → Bool) (c : Candidate) (cs : List Candidate) (a : Candidate)
    → p c ≡ true
    → first p (c ∷ cs) ≡ some a
    → c ≡ a
first-head p c cs a h f = ground arith

-- Of the candidates that pass a test, the first in an ordered list has the smallest priority.
pub first-le :
    (p : Candidate → Bool) (cs : List Candidate) (a b : Candidate)
    → IsOrdered cs
    → first p cs ≡ some a
    → In b cs
    → p b ≡ true
    → a.priority ≤ b.priority
first-le p [] a b o f m h = elim m [ ]
first-le p (c ∷ cs) a _ o f here h =
    subst (λ x. x.priority ≤ c.priority) (first-head p c cs a h f) (le_refl c.priority)
first-le p (c ∷ cs) a b o f (there m) h = elim (Bool-cases (p c)) [
  | inl e ↦
      subst (λ x. x.priority ≤ b.priority) (first-head p c cs a e f)
        (All-In (λ d. c.priority ≤ d.priority) o.0 m)
  | inr e ↦ first-le p cs a b o.1 (rw e at f) m h
]
