-- ===== src/Orchestrator/Compile/Team.antt =====
-- TeamPlanner of src/w1cip/orchestrator.py. An assignment is its role and the rest of its JSON value.
use w1_nexus.Prelude.{
  ◌≡◌, ◌⊎◌, inl, inr, refl, ap, ◌∙◌, String, Bool, true, false, not, ◌&&◌, ◌||◌, Option, none, some,
  List, [], ◌∷◌, ◌++◌, ◌==◌, eq_iff, Bool-cases, arith, any, elem, select, first, In, here, there,
}
use w1_nexus.Orchestrator.Compile.{Goal, is_verifiable, is_decision, or_else, unique}

abbrev pub Assignment : Type 0
Assignment = String × String

abbrev pub option_elem : Option String → List String → Bool
option_elem none xs = false
option_elem (some x) xs = elem x xs

abbrev pub role_if : Bool → String → List String
role_if true role = role ∷ []
role_if false role = []

-- TeamPlanner.required_roles
unfoldable pub required_roles : Goal → List String
unfolding unique
required_roles g = unique (
    ("orchestrator" ∷ "executor" ∷ "synthesizer" ∷ [])
    ++ (role_if
          (option_elem g.risk_level ("medium" ∷ "high" ∷ [])
            || option_elem g.error_cost ("material" ∷ "severe" ∷ []))
          "reviewer"
        ++ (role_if (any (λ c. is_verifiable c.verifiability) g.success_criteria) "verifier"
            ++ role_if (any is_decision g.deliverables) "decision_authority")))

pub record TeamFormationDraft : Type 0 where
  pub required : List String
  pub selected_assignments : List (String × Assignment)
  pub missing_roles : List String
  pub risk_level : String
  pub error_cost : String

abbrev pub selected_for : String → Option Assignment → List (String × Assignment)
selected_for role none = []
selected_for role (some a) = (role, a) ∷ []

-- `selected`, by the roles in their order.
unfoldable pub select_assignments : List String → List Assignment → List (String × Assignment)
select_assignments [] available = []
select_assignments (role ∷ roles) available =
    selected_for role (first (λ a. a.0 == role) available) ++ select_assignments roles available

abbrev pub is_selected : List (String × Assignment) → String → Bool
is_selected selected role = any (λ s. s.0 == role) selected

-- TeamPlanner.build
unfoldable pub build : Goal → List Assignment → TeamFormationDraft
unfolding required_roles select_assignments
build g available =
    let selected = select_assignments (required_roles g) available in
    record {
      required = required_roles g;
      selected_assignments = selected;
      missing_roles = select (λ role. not (is_selected selected role)) (required_roles g);
      risk_level = or_else g.risk_level "low";
      error_cost = or_else g.error_cost "minor";
    }

any-append :
    {A : Type 0} (p : A → Bool) (xs ys : List A) → any p (xs ++ ys) ≡ (any p xs || any p ys)
any-append p [] ys = refl
any-append p (x ∷ xs) ys = ground (arith, any-append p xs ys)

select_same :
    (p q : String → Bool) (xs : List String)
    → ((x : String) → elem x xs ≡ true → p x ≡ q x)
    → select p xs ≡ select q xs
select_same p q [] h = refl
select_same p q (x ∷ xs) h =
    rw (h x (ground (arith, eq_iff x x)), select_same p q xs (λ y m. h y (ground (arith, m)))) refl

abbrev has_role : List Assignment → String → Bool
has_role available role = any (λ (a : Assignment). a.0 == role) available

-- The selection for one role has another one only if that is the same.
selected_for-has_role :
    (r role : String) (available : List Assignment)
    → any (λ s. s.0 == role) (selected_for r (first (λ a. a.0 == r) available))
      ≡ (r == role && has_role available role)
selected_for-has_role r role [] = ground arith
selected_for-has_role r role (x ∷ xs) = elim (Bool-cases (x.0 == r)) [
  | inl e ↦ rw e (ground (arith, e, eq_iff x.0 r, eq_iff r role, eq_iff x.0 role))
  | inr e ↦ rw e (
      ground
        (arith, selected_for-has_role r role xs, e, eq_iff x.0 r, eq_iff r role, eq_iff x.0 role))
]

selected-has_role :
    (roles : List String) (role : String) (available : List Assignment)
    → is_selected (select_assignments roles available) role
      ≡ (elem role roles && has_role available role)
unfolding select_assignments
selected-has_role [] role available = refl
selected-has_role (r ∷ roles) role available =
    any-append (λ s. s.0 == role) (selected_for r (first (λ a. a.0 == r) available))
      (select_assignments roles available)
    ∙ ground (arith, selected_for-has_role r role available, selected-has_role roles role available)

In-append : {A : Type 0} {x : A} (xs ys : List A) → In x (xs ++ ys) → In x xs ⊎ In x ys
In-append [] ys m = inr m
In-append (y ∷ xs) ys here = inl here
In-append (y ∷ xs) ys (there m) = elim (In-append xs ys m) [ inl k ↦ inl (there k) | inr k ↦ inr k ]

In-selected_for :
    (r : String) (o : Option Assignment) (s : String × Assignment)
    → In s (selected_for r o)
    → (s.0 ≡ r) × (o ≡ some s.1)
In-selected_for r none s m = elim m [ ]
In-selected_for r (some a) s here = (refl, refl)
In-selected_for r (some a) s (there m) = elim m [ ]

selected-first :
    (roles : List String) (available : List Assignment) (s : String × Assignment)
    → In s (select_assignments roles available)
    → first (λ a. a.0 == s.0) available ≡ some s.1
unfolding select_assignments
selected-first [] available s m = elim m [ ]
selected-first (r ∷ roles) available s m =
    elim (In-append (selected_for r (first (λ a. a.0 == r) available))
      (select_assignments roles available) m) [
        | inr k ↦ selected-first roles available s k
        | inl k ↦
            let (e, f) = In-selected_for r (first (λ a. a.0 == r) available) s k in
            ap (λ (k : String). first (λ (a : Assignment). a.0 == k) available) e ∙ f
      ]

-- A draft in which the missing roles are the required ones that nobody has, and every other role
-- has the first assignment that is available for it.
pub record Drafted (g : Goal) (available : List Assignment) (t : TeamFormationDraft) : Type 0 where
  pub asks : t.required ≡ required_roles g
  pub missing : t.missing_roles ≡ select (λ role. not (has_role available role)) (required_roles g)
  pub chosen :
      (role : String)
      → elem role (required_roles g) ≡ true
      → is_selected t.selected_assignments role ≡ has_role available role
  pub first_choice :
      (s : String × Assignment)
      → In s t.selected_assignments
      → first (λ a. a.0 == s.0) available ≡ some s.1

-- TeamPlanner.build selects for a required role the first available assignment that has it, and
-- reports exactly the required roles that no assignment has as missing.
pub build-Drafted :
    (g : Goal) (available : List Assignment) → Drafted g available (build g available)
unfolding build
build-Drafted g available =
    let chosen = λ (role : String) (m : elem role (required_roles g) ≡ true).
      selected-has_role (required_roles g) role available
      ∙ ap (λ b. b && has_role available role) m in
    record {
      asks = refl;
      missing = select_same _ _ (required_roles g) (λ role m. ap not (chosen role m));
      chosen = chosen;
      first_choice = selected-first (required_roles g) available;
    }
