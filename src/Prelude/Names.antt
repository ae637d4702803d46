-- ===== src/Prelude/Names.antt =====
-- Lists of records that carry a name: whether a name occurs, and lookup by a name that is unique.
use Prim.Native.String.{String}
use mathlib.Core.Path.{◌≡◌, refl, sym, subst}
use mathlib.Core.Bool.{true, false}
use mathlib.Core.Logic.{inl, inr}
use mathlib.Core.Option.{some}
use mathlib.Core.List.{List, [], ◌∷◌, map}
use native.Mathlib.Omega.{arith}
use text.Mathlib.Text.{◌==◌}
use text.Mathlib.TextEquality.{eq_iff}
use w1_nexus.Prelude.Tests.{Bool-cases}
use w1_nexus.Prelude.Lists.{first, In, here, there, any-first, first-In, first-holds}
use w1_nexus.Prelude.Texts.{elem, has_duplicate, elem-map}

module _ {ℓ} {A : Type ℓ} (name : A → String) where
  pub elem-named : (xs : List A) (x : A) → In x xs → elem (name x) (map name xs) ≡ true
  elem-named [] x m = elim m [ ]
  elem-named (y ∷ xs) x here = ground (arith, eq_iff (name y) (name y))
  elem-named (y ∷ xs) x (there m) = ground (arith, elem-named xs x m)

  -- The first element with a name that occurs.
  pub first-named :
      (xs : List A) (key : String)
      → elem key (map name xs) ≡ true
      → (x : A) × (first (λ y. name y == key) xs ≡ some x) × In x xs × (name x ≡ key)
  first-named xs key m =
      let (x, e) = any-first (λ y. name y == key) xs (ground (arith, m, elem-map name key xs)) in
      (
        x,
        e,
        first-In (λ y. name y == key) xs x e,
        (eq_iff (name x) key).0 (first-holds (λ y. name y == key) xs x e),
      )

  unique-first_cons :
      {x y : A} {xs : List A}
      → In x (y ∷ xs)
      → has_duplicate (map name (y ∷ xs)) ≡ false
      → (In x xs → first (λ z. name z == name x) xs ≡ some x)
      → first (λ z. name z == name x) (y ∷ xs) ≡ some x
  unique-first_cons {x} here d f = rw ((eq_iff (name x) (name x)).1 refl) refl
  unique-first_cons {x} {y} {xs} (there k) d f = elim (Bool-cases (name y == name x)) [
    | inr e ↦ rw e (f k)
    | inl e ↦
        let same : name y ≡ name x = (eq_iff (name y) (name x)).0 e in
        let seen : elem (name y) (map name xs) ≡ true =
          subst (λ z. elem z (map name xs) ≡ true) (sym same) (elem-named xs x k) in
        cc (rw seen at d)
  ]

  -- With unique names the lookup finds each element by its own.
  pub unique-first :
      (xs : List A)
      → has_duplicate (map name xs) ≡ false
      → (x : A) → In x xs
      → first (λ z. name z == name x) xs ≡ some x
  unique-first [] d x m = elim m [ ]
  unique-first (y ∷ xs) d x m = unique-first_cons m d (unique-first xs (ground arith) x)
