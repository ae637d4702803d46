-- ===== src/Dependencies/Rank.antt =====
-- The walk of src/w1cip/orchestrator.py reports no cycle where a rank falls along the dependencies.
use w1_nexus.Prelude.{
  ℕ, suc, zero, ◌≤◌, ◌<◌, ◌≡◌, refl, sym, ◌∙◌, String, true, Option, none, some, List, [], ◌∷◌,
  arith, ◌==◌, eq_iff, Bool-cases, inl, inr, elem, length, if◌then◌else◌, subst, ap, some-inj,
  true-ne-false,
}
use w1_nexus.Dependencies.{
  Walk, walked, walk_cycle, walk_key_error, walk_fuel, leave, visit_all, visit_node, visit,
}
use w1_nexus.Dependencies.Order.{Walk-cases, IsOrdered, elem-cons, elem-head, elem_cons_cases}

abbrev pub NoCycle : Walk → Type 0
NoCycle (walked out) = Unit
NoCycle walk_cycle = ⊥
NoCycle walk_key_error = Unit
NoCycle walk_fuel = Unit

leave-NoCycle : (key : String) (r : Walk) → NoCycle r → NoCycle (leave key r)
leave-NoCycle key (walked out) h = tt
leave-NoCycle key walk_cycle h = h
leave-NoCycle key walk_key_error h = tt
leave-NoCycle key walk_fuel h = tt

-- Every dependency has a smaller rank.
abbrev pub IsRanked : (String → Option (List String)) → (String → ℕ) → Type 0
IsRanked graph rank =
    (key : String) (depends_on : List String)
    → graph key ≡ some depends_on
    → (d : String) → elem d depends_on ≡ true
    → rank d < rank key

module _ (graph : String → Option (List String)) (rank : String → ℕ)
    (ranked : IsRanked graph rank) where
  pub visit_all-NoCycle :
      (f : String → List String → Walk) (keys visited : List String)
      → ((key : String) (visited : List String) → elem key keys ≡ true → NoCycle (f key visited))
      → NoCycle (visit_all f keys visited)
  unfolding visit_all
  visit_all-NoCycle f [] visited h = tt
  visit_all-NoCycle f (key ∷ keys) visited h =
      let first = h key visited (elem-head key keys) in
      elim (Walk-cases (f key visited)) [
        | inl (more, e) ↦
            rw (e, visit_all)
              (visit_all-NoCycle f keys more (λ k v m. h k v (elem-cons k key keys m)))
        | inr (inl e) ↦ absurd (rw e at first)
        | inr (inr (inl e)) ↦ rw (e, visit_all) tt
        | inr (inr (inr e)) ↦ rw (e, visit_all) tt
      ]

  visit_node-NoCycle :
      (f : String → List String → Walk) (key : String) (visited : List String)
      (o : Option (List String))
      → graph key ≡ o
      → ((d : String) (v : List String) → rank d < rank key → NoCycle (f d v))
      → NoCycle (visit_node f key visited o)
  visit_node-NoCycle f key visited none g h = tt
  visit_node-NoCycle f key visited (some ds) g h =
      leave-NoCycle key (visit_all f ds visited)
        (visit_all-NoCycle f ds visited (λ d v m. h d v (ranked key ds g d m)))

  -- All names on the path are above the one that is visited.
  abbrev Above : String → List String → Type 0
  Above key visiting = (v : String) → elem v visiting ≡ true → rank key < rank v

  pub visit-NoCycle :
      (n : ℕ) (visiting : List String) (key : String) (visited : List String)
      → Above key visiting
      → NoCycle (visit n graph visiting key visited)
  unfolding visit
  visit-NoCycle zero visiting key visited h = tt
  visit-NoCycle (suc n) visiting key visited h = elim (Bool-cases (elem key visiting)) [
    | inl e ↦ absurd (omega (arith, h key e))
    | inr e ↦ elim (Bool-cases (elem key visited)) [
      | inl f ↦ rw (e, f) tt
      | inr f ↦
          rw (e, f)
            (visit_node-NoCycle (visit n graph (key ∷ visiting)) key visited (graph key) refl
              (λ d v less. visit-NoCycle n (key ∷ visiting) d v (λ x m.
                elim (elem_cons_cases x key visiting m) [
                  | inl same ↦ subst (λ y. rank d < rank y) same less
                  | inr there ↦ omega (arith, less, h x there)
                ])))
    ]
  ]

-- The place of the last occurrence of a name, from the end.
abbrev pub height : String → List String → ℕ
height key [] = 0
height key (x ∷ xs) = if elem key xs then height key xs else if x == key then suc (length xs) else 0

height_le_length : (key : String) (xs : List String) → height key xs ≤ length xs
height_le_length key [] = omega arith
height_le_length key (x ∷ xs) = ground (arith, height_le_length key xs)

-- The heights of an order fall along the dependencies.
pub height-lt :
    (graph : String → Option (List String)) (xs : List String)
    → IsOrdered graph xs
    → (key : String) (ds : List String) → elem key xs ≡ true
    → graph key ≡ some ds
    → (d : String) → elem d ds ≡ true
    → (elem d xs ≡ true) × (height d xs < height key xs)
height-lt graph [] o key ds m g d md = cc
height-lt graph (x ∷ xs) ((es, ge, behind), o) key ds m g d md = elim (Bool-cases (elem key xs)) [
  | inl e ↦
      let (md', less) = height-lt graph xs o key ds e g d md in
      (elem-cons d x xs md', rw (e, md') less)
  | inr e ↦ elim (elem_cons_cases key x xs m) [
    | inr f ↦ absurd (true-ne-false (sym f ∙ e))
    | inl same ↦
        let equal : es ≡ ds = some-inj (sym ge ∙ (ap graph same ∙ g)) in
        let md' = behind d (ap (elem d) equal ∙ md) in
        (
          elem-cons d x xs md',
          rw (e, md') (rw (← same, (eq_iff x x).1 refl) (omega (arith, height_le_length d xs))),
        )
  ]
]
