-- ===== src/Prelude/Lists.antt =====
-- Lists over the native numbers: length, Boolean quantifiers, selection by a Boolean test, the
-- first element that passes a test, and predicates by recursion.
use Prim.Native.Nat.{ℕ, suc, ◌+◌}
use mathlib.Core.Path.{◌≡◌, refl, subst}
use mathlib.Core.Bool.{Bool, true, false, not, ◌&&◌, ◌||◌}
use mathlib.Core.Logic.{inl, inr}
use mathlib.Core.Option.{Option, none, some}
use mathlib.Core.List.{List, [], ◌∷◌, ◌++◌, map}
use native.Mathlib.Omega.{arith}
use w1_nexus.Prelude.Tests.{if◌then◌else◌, Bool-cases}

module _ {ℓ} {A : Type ℓ} where
  abbrev pub length : List A → ℕ
  length [] = 0
  length (x ∷ xs) = suc (length xs)

  abbrev pub any : (A → Bool) → List A → Bool
  any p [] = false
  any p (x ∷ xs) = p x || any p xs

  abbrev pub all : (A → Bool) → List A → Bool
  all p [] = true
  all p (x ∷ xs) = p x && all p xs

  -- A comprehension with a condition, `[x for x in xs if p(x)]`, and a WHERE clause.
  abbrev pub select : (A → Bool) → List A → List A
  select p [] = []
  select p (x ∷ xs) = if p x then x ∷ select p xs else select p xs

  -- `next((x for x in xs if p(x)), None)`, and `fetchone`.
  abbrev pub first : (A → Bool) → List A → Option A
  first p [] = none
  first p (x ∷ xs) = if p x then some x else first p xs

  -- A value that occurs in a list, at a place.
  pub data In (a : A) : List A → Type ℓ where
    here : {xs : List A} → In a (a ∷ xs)
    there : {x : A} {xs : List A} → In a xs → In a (x ∷ xs)

  abbrev pub All {κ} : (A → Type κ) → List A → Type κ
  All P [] = Unit
  All P (x ∷ xs) = P x × All P xs

  pub length-append : (xs ys : List A) → length (xs ++ ys) ≡ length xs + length ys
  length-append [] ys = omega arith
  length-append (x ∷ xs) ys = omega (arith, length-append xs ys)

  pub select-append :
      (p : A → Bool) (xs ys : List A) → select p (xs ++ ys) ≡ select p xs ++ select p ys
  select-append p [] ys = refl
  select-append p (x ∷ xs) ys = ground (arith, select-append p xs ys)

  pub select_disjoint : (p : A → Bool) (xs : List A) → select p (select (λ x. not (p x)) xs) ≡ []
  select_disjoint p [] = refl
  select_disjoint p (x ∷ xs) = ground (arith, select_disjoint p xs)

  pub All-append {κ} : (P : A → Type κ) (xs ys : List A) → All P xs → All P ys → All P (xs ++ ys)
  All-append P [] ys h k = k
  All-append P (x ∷ xs) ys h k = (h.0, All-append P xs ys h.1 k)

  pub All-select {κ} :
      (P : A → Type κ) (p : A → Bool) (xs : List A) → All P xs → All P (select p xs)
  All-select P p [] h = h
  All-select P p (x ∷ xs) h =
      elim (p x) as (λ b. All P (if b then x ∷ select p xs else select p xs)) [
        | true ↦ (h.0, All-select P p xs h.1)
        | false ↦ All-select P p xs h.1
      ]

  pub All-In {κ} : (P : A → Type κ) {a : A} {xs : List A} → All P xs → In a xs → P a
  All-In P h here = h.0
  All-In P h (there m) = All-In P h.1 m

  pub first-In : (p : A → Bool) (xs : List A) (a : A) → first p xs ≡ some a → In a xs
  first-In p [] a h = ground arith
  first-In p (x ∷ xs) a h = elim (Bool-cases (p x)) [
    | inl e ↦ let same : x ≡ a = ground arith in subst (λ y. In y (x ∷ xs)) same here
    | inr e ↦ there (first-In p xs a (rw e at h))
  ]

  pub first-holds : (p : A → Bool) (xs : List A) (a : A) → first p xs ≡ some a → p a ≡ true
  first-holds p [] a h = ground arith
  first-holds p (x ∷ xs) a h = ground (arith, first-holds p xs a)

  pub any-first : (p : A → Bool) (xs : List A) → any p xs ≡ true → (a : A) × (first p xs ≡ some a)
  any-first p [] h = ground arith
  any-first p (x ∷ xs) h = elim (Bool-cases (p x)) [
    | inl e ↦ (x, rw e)
    | inr e ↦ let (a, f) = any-first p xs (rw e at h) in (a, rw e f)
  ]

  pub select-nil : (p : A → Bool) (xs : List A) → any p xs ≡ false → select p xs ≡ []
  select-nil p [] h = refl
  select-nil p (x ∷ xs) h = ground (arith, select-nil p xs)

  select-In_cons :
      (p : A → Bool) {a x : A} {xs ys : List A}
      → p x ≡ true
      → (In a ys → In a xs × (p a ≡ true))
      → In a (x ∷ ys)
      → In a (x ∷ xs) × (p a ≡ true)
  select-In_cons p e f here = (here, e)
  select-In_cons p e f (there m) = let (k, h) = f m in (there k, h)

  pub select-In : (p : A → Bool) {a : A} (xs : List A) → In a (select p xs) → In a xs × (p a ≡ true)
  select-In p [] m = elim m [ ]
  select-In p (x ∷ xs) m = elim (Bool-cases (p x)) [
    | inl e ↦ select-In_cons p e (select-In p xs) (rw e at m)
    | inr e ↦ let (k, h) = select-In p xs (rw e at m) in (there k, h)
  ]

  pub In-select : (p : A → Bool) {x : A} (xs : List A) → In x xs → p x ≡ true → In x (select p xs)
  In-select p [] m h = elim m [ ]
  In-select p (y ∷ xs) here h = rw h here
  In-select p (y ∷ xs) (there m) h = elim (Bool-cases (p y)) [
    | inl e ↦ rw e (there (In-select p xs m h))
    | inr e ↦ rw e (In-select p xs m h)
  ]

  pub In-left : {x : A} (xs ys : List A) → In x xs → In x (xs ++ ys)
  In-left [] ys m = elim m [ ]
  In-left (y ∷ xs) ys here = here
  In-left (y ∷ xs) ys (there m) = there (In-left xs ys m)

  pub In-right : {x : A} (xs ys : List A) → In x ys → In x (xs ++ ys)
  In-right [] ys m = m
  In-right (y ∷ xs) ys m = there (In-right xs ys m)

  pub append-nil_left : (xs ys : List A) → xs ++ ys ≡ [] → xs ≡ []
  append-nil_left [] ys h = refl
  append-nil_left (x ∷ xs) ys h = ground arith

  pub append-nil_right : (xs ys : List A) → xs ++ ys ≡ [] → ys ≡ []
  append-nil_right [] ys h = h
  append-nil_right (x ∷ xs) ys h = ground arith

  pub In-single : {a b : A} → In a (b ∷ []) → a ≡ b
  In-single here = refl
  In-single (there m) = elim m [ ]

  pub cons-ne-nil : {x : A} {xs : List A} → x ∷ xs ≡ [] → ⊥
  cons-ne-nil h = cc

  pub first-none :
      (p : A → Bool) (xs : List A) → first p xs ≡ none → (x : A) → In x xs → p x ≡ false
  first-none p [] h x m = elim m [ ]
  first-none p (y ∷ ys) h x here = ground arith
  first-none p (y ∷ ys) h x (there m) = first-none p ys (ground arith) x m

  pub all-In : (p : A → Bool) (xs : List A) → all p xs ≡ true → (x : A) → In x xs → p x ≡ true
  all-In p [] h x m = elim m [ ]
  all-In p (y ∷ ys) h x here = ground arith
  all-In p (y ∷ ys) h x (there m) = all-In p ys (ground arith) x m

  pub In-all : (p : A → Bool) (xs : List A) → ((x : A) → In x xs → p x ≡ true) → all p xs ≡ true
  In-all p [] h = refl
  In-all p (x ∷ xs) h = rw (h x here) (In-all p xs (λ y m. h y (there m)))

  pub length-select-all :
      (p : A → Bool) (xs : List A) → all p xs ≡ true → length (select p xs) ≡ length xs
  length-select-all p [] h = refl
  length-select-all p (x ∷ xs) h = ground (arith, length-select-all p xs)

pub length-map {ℓ κ} :
    {A : Type ℓ} {B : Type κ} (f : A → B) (xs : List A) → length (map f xs) ≡ length xs
length-map f [] = refl
length-map f (x ∷ xs) = omega (arith, length-map f xs)
