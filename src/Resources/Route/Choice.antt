-- ===== src/Resources/Route/Choice.antt =====
-- What a selection of route_execution_resource in src/w1cip/validation.py rests on.
use w1_nexus.Prelude.{
  ℕ, ◌∙◌, ◌≤◌, ◌<◌, ◌≡◌, ◌≢◌, sym, refl, ap, subst, String, Bool, true, Option, none, some,
  some-inj, none-ne-some, List, [], ◌∷◌, arith, elem, select, first, In, here, select-In, first-In,
  In-single, first-holds, Bool-cases, inl, inr, ℤ, pos, negsuc,
}
use w1_nexus.Resources.Plan.{
  Candidate, RoutingRule, Plan, is_primary, is_fallback, is_prohibited, is_plan_active,
}
use w1_nexus.Resources.Semantics.{validate_execution_resource_plan_semantics}
use w1_nexus.Resources.Route.{
  ResourceRoutingResult, Intent, by_priority, accept_candidate, with_primary, with_selection,
  route_by_rule, route_matching, route_estimated, route_valid, route_execution_resource,
  routing_rule_matches, usable,
}
use w1_nexus.Resources.Route.Order.{by_priority-In, In-by_priority, by_priority-IsOrdered, first-le}

-- The facts on which a result with a selected resource rests.
pub record Selection (plan : Plan) (i : Intent) (r : ResourceRoutingResult) : Type 0 where
  pub rule : RoutingRule
  pub estimated : ℕ
  pub chosen : Candidate
  pub primary : Candidate
  pub valid : validate_execution_resource_plan_semantics plan ≡ []
  pub active : is_plan_active plan.status ≡ true
  pub estimate : i.estimated_units ≡ pos estimated
  pub rule_listed : In rule plan.routing_rules
  pub matches : routing_rule_matches i rule ≡ true
  pub unambiguous :
      (other : RoutingRule)
      → In other (select (routing_rule_matches i) plan.routing_rules)
      → other ≡ rule
  pub chosen_listed : In chosen rule.candidates
  pub primary_listed : In primary rule.candidates
  pub primary_mode : is_primary primary.mode ≡ true
  pub chosen_usable :
      usable plan.resources (elem i.phase plan.protected_phases) estimated chosen ≡ true
  pub least :
      (d : Candidate)
      → In d rule.candidates
      → usable plan.resources (elem i.phase plan.protected_phases) estimated d ≡ true
      → chosen.priority ≤ d.priority
  pub result : r ≡ accept_candidate i rule chosen primary

abbrev Selects : ResourceRoutingResult → Type 0
Selects r = r.selected_resource_id ≢ none

module _ (plan : Plan) (i : Intent) (r : ResourceRoutingResult) (selects : Selects r) where
  not_refused : (q : ResourceRoutingResult) → q.selected_resource_id ≡ none → some q ≡ some r → ⊥
  not_refused q e h =
      selects (ap (λ (x : ResourceRoutingResult). x.selected_resource_id) (sym (some-inj h)) ∙ e)

  abbrev usable_here : ℕ → Candidate → Bool
  usable_here n = usable plan.resources (elem i.phase plan.protected_phases) n

  module _ (n : ℕ) (valid : validate_execution_resource_plan_semantics plan ≡ [])
      (active : is_plan_active plan.status ≡ true) (estimate : i.estimated_units ≡ pos n) where
    with_primary-Selection :
        (rule : RoutingRule)
        → In rule plan.routing_rules
        → routing_rule_matches i rule ≡ true
        → ((other : RoutingRule)
            → In other (select (routing_rule_matches i) plan.routing_rules)
            → other ≡ rule)
        → (c : Candidate) → first (usable_here n) (by_priority rule.candidates) ≡ some c
        → (o : Option Candidate) → first (λ d. is_primary d.mode) (by_priority rule.candidates) ≡ o
        → with_primary i rule c o ≡ some r
        → Selection plan i r
    unfolding with_primary
    with_primary-Selection rule m k u c f none g h = cc
    with_primary-Selection rule m k u c f (some p) g h = record {
      rule = rule;
      estimated = n;
      chosen = c;
      primary = p;
      valid = valid;
      active = active;
      estimate = estimate;
      rule_listed = m;
      matches = k;
      unambiguous = u;
      chosen_listed =
          by_priority-In rule.candidates
            (first-In (usable_here n) (by_priority rule.candidates) c f);
      primary_listed =
          by_priority-In rule.candidates
            (first-In (λ d. is_primary d.mode) (by_priority rule.candidates) p g);
      primary_mode = first-holds (λ d. is_primary d.mode) (by_priority rule.candidates) p g;
      chosen_usable = first-holds (usable_here n) (by_priority rule.candidates) c f;
      least = λ d md e.
          first-le (usable_here n) (by_priority rule.candidates) c d
            (by_priority-IsOrdered rule.candidates) f (In-by_priority rule.candidates md) e;
      result = sym (some-inj h);
    }

    with_selection-Selection :
        (rule : RoutingRule)
        → In rule plan.routing_rules
        → routing_rule_matches i rule ≡ true
        → ((other : RoutingRule)
            → In other (select (routing_rule_matches i) plan.routing_rules)
            → other ≡ rule)
        → (o : Option Candidate) → first (usable_here n) (by_priority rule.candidates) ≡ o
        → with_selection plan i rule o ≡ some r
        → Selection plan i r
    unfolding with_selection
    with_selection-Selection rule m k u none f h = absurd (not_refused _ refl h)
    with_selection-Selection rule m k u (some c) f h =
        with_primary-Selection rule m k u c f _ refl h

    matching-Selection :
        (rules : List RoutingRule)
        → select (routing_rule_matches i) plan.routing_rules ≡ rules
        → route_matching plan i n rules ≡ some r
        → Selection plan i r
    unfolding route_matching route_by_rule
    matching-Selection [] e h = absurd (not_refused _ refl h)
    matching-Selection (rule ∷ []) e h =
        let (m, k) = select-In (routing_rule_matches i) {a = rule} plan.routing_rules (rw e here) in
        with_selection-Selection rule m k (λ other mo. In-single (subst (In other) e mo)) _ refl h
    matching-Selection (a ∷ b ∷ rest) e h = absurd (not_refused _ refl h)

  estimated-Selection :
      (z : ℤ)
      → i.estimated_units ≡ z
      → validate_execution_resource_plan_semantics plan ≡ []
      → is_plan_active plan.status ≡ true
      → route_estimated plan i z ≡ some r
      → Selection plan i r
  unfolding route_estimated
  estimated-Selection (negsuc n) e v a h = absurd (not_refused _ refl h)
  estimated-Selection (pos n) e v a h = matching-Selection n v a e _ refl h

  valid-Selection :
      (errors : List String)
      → validate_execution_resource_plan_semantics plan ≡ errors
      → route_valid plan i errors ≡ some r
      → Selection plan i r
  unfolding route_valid
  valid-Selection (e ∷ errors) v h = absurd (not_refused _ refl h)
  valid-Selection [] v h = elim (Bool-cases (is_plan_active plan.status)) [
    | inl a ↦ estimated-Selection i.estimated_units refl v a (rw a at h)
    | inr a ↦ absurd (not_refused _ refl (rw a at h))
  ]

-- A result that selects a resource comes from a plan with no local error and in the state active,
-- for an estimate that is not negative, by the one rule that matches the intent; its resource is
-- that of a candidate of the rule that its quota can serve, and no candidate of the rule with a
-- smaller priority number can be served.
pub route-Selection :
    (plan : Plan) (i : Intent) (r : ResourceRoutingResult)
    → route_execution_resource plan i ≡ some r
    → r.selected_resource_id ≢ none
    → Selection plan i r
unfolding route_execution_resource
route-Selection plan i r h selects = valid-Selection plan i r selects _ refl h

module _ (i : Intent) (rule : RoutingRule) (c p : Candidate) (k : String)
    (accepted : (accept_candidate i rule c p).selected_resource_id ≡ some k) where
  pub accepted-name : c.resource_id ≡ k
  unfolding accept_candidate
  accepted-name = ground arith

  pub accepted-floor :
      is_prohibited rule.below_floor_policy ≡ true → rule.minimum_fitness_score ≤ c.fitness_score
  unfolding accept_candidate
  accepted-floor prohibited = ground arith

  pub accepted-disclosure : (accept_candidate i rule c p).disclosure_required ≡ is_fallback c.mode
  unfolding accept_candidate
  accepted-disclosure = ground arith

  pub accepted-review :
      is_fallback c.mode ≡ true
      → c.fitness_score < p.fitness_score
      → (accept_candidate i rule c p).requires_extra_review ≡ true
  unfolding accept_candidate
  accepted-review f h = ground arith

-- A selection never lowers the capability silently: a resource that is weaker than the primary
-- candidate of its rule is disclosed and marked for an extra review if it is a fallback, and one
-- below the floor of a rule that prohibits this is not selected.
pub route_no_silent_downgrade :
    (plan : Plan) (i : Intent) (r : ResourceRoutingResult) (k : String)
    → route_execution_resource plan i ≡ some r
    → r.selected_resource_id ≡ some k
    → (rule : RoutingRule) × (c : Candidate) × (p : Candidate) × In rule plan.routing_rules
      × In c rule.candidates
      × In p rule.candidates
      × (is_primary p.mode ≡ true)
      × (c.resource_id ≡ k)
      × (r.disclosure_required ≡ is_fallback c.mode)
      × (is_fallback c.mode ≡ true
          → c.fitness_score < p.fitness_score
          → r.requires_extra_review ≡ true)
      × (is_prohibited rule.below_floor_policy ≡ true
          → rule.minimum_fitness_score ≤ c.fitness_score)
route_no_silent_downgrade plan i r k h e =
    let s = route-Selection plan i r h (λ n. none-ne-some (sym n ∙ e)) in
    let accepted = ap (λ (x : ResourceRoutingResult). x.selected_resource_id) (sym s.result) ∙ e in
    (
      s.rule,
      s.chosen,
      s.primary,
      s.rule_listed,
      s.chosen_listed,
      s.primary_listed,
      s.primary_mode,
      accepted-name i s.rule s.chosen s.primary k accepted,
      ap (λ (x : ResourceRoutingResult). x.disclosure_required) s.result
          ∙ accepted-disclosure i s.rule s.chosen s.primary k accepted,
      (λ f w.
          ap (λ (x : ResourceRoutingResult). x.requires_extra_review) s.result
          ∙ accepted-review i s.rule s.chosen s.primary k accepted f w),
      accepted-floor i s.rule s.chosen s.primary k accepted,
    )
