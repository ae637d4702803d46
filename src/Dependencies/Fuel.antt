-- ===== src/Dependencies/Fuel.antt =====
-- The walk of src/w1cip/orchestrator.py over names that are closed under dependencies finds each of
-- them, and fuel above the number of names that are not on the path is enough.
use w1_nexus.Prelude.{
  ℕ, suc, zero, ◌≤◌, ◌<◌, ◌≡◌, refl, String, true, false, not, Option, some, List, [], ◌∷◌, arith,
  ◌==◌, eq_iff, Bool-cases, inl, inr, elem, length, select,
}
use w1_nexus.Dependencies.{
  Walk, walked, walk_cycle, walk_key_error, walk_fuel, leave, visit_all, visit,
}
use w1_nexus.Dependencies.Order.{Walk-cases, Within, elem-cons, elem-head}

-- The names that are not among those on the path.
abbrev pub off_path : List String → List String → ℕ
off_path known path = length (select (λ k. not (elem k path)) known)

off_path-cons_le :
    (key : String) (path known : List String) → off_path known (key ∷ path) ≤ off_path known path
off_path-cons_le key path [] = omega arith
off_path-cons_le key path (k ∷ known) = ground (arith, off_path-cons_le key path known)

pub off_path-cons :
    (key : String) (path known : List String)
    → elem key path ≡ false
    → elem key known ≡ true
    → suc (off_path known (key ∷ path)) ≤ off_path known path
off_path-cons key path [] h e = ground arith
off_path-cons key path (k ∷ known) h e = elim (Bool-cases (k == key)) [
  | inl f ↦
      let same : k ≡ key = (eq_iff k key).0 f in
      rw (same, (eq_iff key key).1 refl, h) (ground (arith, off_path-cons_le key path known))
  | inr f ↦
      let rest = off_path-cons key path known h (rw f at e) in
      ground (arith, rest, eq_iff key k, eq_iff k key)
]

pub off_path_le_length : (path known : List String) → off_path known path ≤ length known
off_path_le_length path [] = omega arith
off_path_le_length path (k ∷ known) = ground (arith, off_path_le_length path known)

-- Neither a KeyError nor the end of the fuel.
abbrev pub IsVerdict : Walk → Type 0
IsVerdict (walked out) = Unit
IsVerdict walk_cycle = Unit
IsVerdict walk_key_error = ⊥
IsVerdict walk_fuel = ⊥

-- Every known name has dependencies, and these are known.
abbrev pub IsClosed : (String → Option (List String)) → List String → Type 0
IsClosed graph known =
    (key : String)
    → elem key known ≡ true
    → (depends_on : List String) × (graph key ≡ some depends_on) × Within depends_on known

leave-IsVerdict : (key : String) (r : Walk) → IsVerdict r → IsVerdict (leave key r)
leave-IsVerdict key (walked out) h = tt
leave-IsVerdict key walk_cycle h = tt
leave-IsVerdict key walk_key_error h = h
leave-IsVerdict key walk_fuel h = h

module _ (graph : String → Option (List String)) (known : List String)
    (closed : IsClosed graph known) where
  pub visit_all-IsVerdict :
      (f : String → List String → Walk)
      → ((key : String) (visited : List String) → elem key known ≡ true → IsVerdict (f key visited))
      → (keys visited : List String) → Within keys known
      → IsVerdict (visit_all f keys visited)
  unfolding visit_all
  visit_all-IsVerdict f h [] visited w = tt
  visit_all-IsVerdict f h (key ∷ keys) visited w =
      let first = h key visited (w key (elem-head key keys)) in
      elim (Walk-cases (f key visited)) [
        | inl (more, e) ↦
            rw (e, visit_all)
              (visit_all-IsVerdict f h keys more (λ x m. w x (elem-cons x key keys m)))
        | inr (inl e) ↦ rw (e, visit_all) tt
        | inr (inr (inl e)) ↦ absurd (rw e at first)
        | inr (inr (inr e)) ↦ absurd (rw e at first)
      ]

  pub visit-IsVerdict :
      (n : ℕ) (visiting : List String) (key : String) (visited : List String)
      → elem key known ≡ true
      → off_path known visiting < n
      → IsVerdict (visit n graph visiting key visited)
  unfolding visit
  visit-IsVerdict zero visiting key visited m h = absurd (omega (arith, h))
  visit-IsVerdict (suc n) visiting key visited m h = elim (Bool-cases (elem key visiting)) [
    | inl e ↦ rw e tt
    | inr e ↦ elim (Bool-cases (elem key visited)) [
      | inl f ↦ rw (e, f) tt
      | inr f ↦
          let (ds, g, w) = closed key m in
          let less = off_path-cons key visiting known e m in
          rw (e, f, g)
            (leave-IsVerdict key (visit_all (visit n graph (key ∷ visiting)) ds visited) (
              visit_all-IsVerdict (visit n graph (key ∷ visiting))
                (λ k v mk. visit-IsVerdict n (key ∷ visiting) k v mk (omega (arith, less, h))) ds
                visited w))
    ]
  ]
