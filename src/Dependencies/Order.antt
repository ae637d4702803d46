-- ===== src/Dependencies/Order.antt =====
-- A walk that ends, as in _validate_workflow of src/w1cip/orchestrator.py, leaves the names in an
-- order in which every name comes before its dependencies.
use w1_nexus.Prelude.{
  ℕ, suc, zero, ◌≡◌, refl, sym, ◌∙◌, String, Bool, true, false, Option, none, some, List, [], ◌∷◌,
  arith, ◌==◌, eq_iff, Bool-cases, inl, inr, ◌⊎◌, elem, true-ne-false, subst,
}
use w1_nexus.Dependencies.{
  Walk, walked, walk_cycle, walk_key_error, walk_fuel, visit_all, visit_node, visit,
}

pub Walk-cases :
    (r : Walk)
    → ((out : List String) × (r ≡ walked out))
      ⊎ (r ≡ walk_cycle)
      ⊎ (r ≡ walk_key_error)
      ⊎ (r ≡ walk_fuel)
Walk-cases (walked out) = inl (out, refl)
Walk-cases walk_cycle = inr (inl refl)
Walk-cases walk_key_error = inr (inr (inl refl))
Walk-cases walk_fuel = inr (inr (inr refl))

abbrev pub Within : List String → List String → Type 0
Within xs ys = (x : String) → elem x xs ≡ true → elem x ys ≡ true

pub elem-cons : (x y : String) (ys : List String) → elem x ys ≡ true → elem x (y ∷ ys) ≡ true
elem-cons x y ys h = ground arith

pub elem-head : (x : String) (ys : List String) → elem x (x ∷ ys) ≡ true
elem-head x ys = ground (arith, eq_iff x x)

pub elem_cons_cases :
    (x y : String) (ys : List String) → elem x (y ∷ ys) ≡ true → (y ≡ x) ⊎ (elem x ys ≡ true)
elem_cons_cases x y ys h = elim (Bool-cases (y == x)) [
  | inl e ↦ inl ((eq_iff y x).0 e)
  | inr e ↦ inr (rw e at h)
]

module _ (graph : String → Option (List String)) where
  -- Every name has its dependencies behind it.
  abbrev pub IsOrdered : List String → Type 0
  IsOrdered [] = Unit
  IsOrdered (key ∷ rest) =
      ((depends_on : List String) × (graph key ≡ some depends_on) × Within depends_on rest)
      × IsOrdered rest

  -- From ordered names, a walk leaves ordered ones, with those it had and the one it was to visit.
  abbrev Extends : (visited keys out : List String) → Type 0
  Extends visited keys out = IsOrdered out × Within visited out × Within keys out

  abbrev Good : (String → List String → Walk) → Type 0
  Good f =
      (key : String) (visited out : List String)
      → f key visited ≡ walked out
      → IsOrdered visited
      → Extends visited (key ∷ []) out

  walked-inj : {a b : List String} → walked a ≡ walked b → a ≡ b
  walked-inj h = cc

  pub visit_all-Extends :
      (f : String → List String → Walk)
      → Good f
      → (keys visited out : List String) → visit_all f keys visited ≡ walked out
      → IsOrdered visited
      → Extends visited keys out
  unfolding visit_all
  visit_all-Extends f good [] visited out h o =
      subst (Extends visited []) (walked-inj h) (o, (λ x m. m), (λ x m. cc))
  visit_all-Extends f good (key ∷ keys) visited out h o = elim (Walk-cases (f key visited)) [
    | inl (more, e) ↦
        let (o1, w1, k1) = good key visited more e o in
        let (o2, w2, k2) = visit_all-Extends f good keys more out (rw (e, visit_all) at h) o1 in
        (
          o2,
          (λ x m. w2 x (w1 x m)),
          (λ x m. elim (elem_cons_cases x key keys m) [
            | inl same ↦ subst (λ y. elem y out ≡ true) same (w2 key (k1 key (elem-head key [])))
            | inr there ↦ k2 x there
          ]),
        )
    | inr (inl e) ↦ cc (rw (e, visit_all) at h)
    | inr (inr (inl e)) ↦ cc (rw (e, visit_all) at h)
    | inr (inr (inr e)) ↦ cc (rw (e, visit_all) at h)
  ]

  visit_node-Extends :
      (f : String → List String → Walk)
      → Good f
      → (key : String) (visited out : List String) (o : Option (List String)) → graph key ≡ o
      → visit_node f key visited o ≡ walked out
      → IsOrdered visited
      → Extends visited (key ∷ []) out
  visit_node-Extends f good key visited out none g h o = cc
  visit_node-Extends f good key visited out (some ds) g h o =
      elim (Walk-cases (visit_all f ds visited)) [
        | inl (more, e) ↦
            let (o1, w1, k1) = visit_all-Extends f good ds visited more e o in
            let same : key ∷ more ≡ out = walked-inj (rw e at h) in
            subst (Extends visited (key ∷ [])) same (
              ((ds, g, k1), o1),
              (λ x m. elem-cons x key more (w1 x m)),
              (λ x m. elim (elem_cons_cases x key [] m) [
                | inl f ↦ subst (λ y. elem y (key ∷ more) ≡ true) f (elem-head key more)
                | inr f ↦ cc
              ]),
            )
        | inr (inl e) ↦ cc (rw e at h)
        | inr (inr (inl e)) ↦ cc (rw e at h)
        | inr (inr (inr e)) ↦ cc (rw e at h)
      ]

  pub visit-Extends : (n : ℕ) (visiting : List String) → Good (visit n graph visiting)
  unfolding visit
  visit-Extends zero visiting key visited out h o = cc
  visit-Extends (suc n) visiting key visited out h o = elim (Bool-cases (elem key visiting)) [
    | inl e ↦ cc (rw e at h)
    | inr e ↦ elim (Bool-cases (elem key visited)) [
      | inl f ↦
          let same : visited ≡ out = walked-inj (rw f at (rw e at h)) in
          subst (Extends visited (key ∷ [])) same (
            o,
            (λ x m. m),
            (λ x m. elim (elem_cons_cases x key [] m) [
              | inl g ↦ subst (λ y. elem y visited ≡ true) g f
              | inr g ↦ cc
            ]),
          )
      | inr f ↦
          visit_node-Extends (visit n graph (key ∷ visiting)) (visit-Extends n (key ∷ visiting)) key
            visited out (graph key) refl (rw f at (rw e at h)) o
    ]
  ]

  -- In an order no name is stuck, if a name is stuck only on one of its dependencies.
  pub no_stuck :
      (stuck : String → Bool) (xs : List String)
      → IsOrdered xs
      → ((key : String) (depends_on : List String)
          → elem key xs ≡ true
          → graph key ≡ some depends_on
          → stuck key ≡ true
          → (d : String) × (elem d depends_on ≡ true) × (stuck d ≡ true))
      → (key : String) → elem key xs ≡ true
      → stuck key ≡ false
  no_stuck stuck [] o h key m = cc
  no_stuck stuck (x ∷ xs) ((ds, g, behind), o) h key m =
      let rest = no_stuck stuck xs o (λ k ds mk. h k ds (elem-cons k x xs mk)) in
      elim (elem_cons_cases key x xs m) [
        | inr e ↦ rest key e
        | inl same ↦
            subst (λ y. stuck y ≡ false) same
              (elim (Bool-cases (stuck x)) [
                | inr e ↦ e
                | inl e ↦
                    let (d, md, sd) = h x ds (elem-head x xs) g e in
                    absurd (true-ne-false (sym sd ∙ rest d (behind d md)))
              ])
      ]
