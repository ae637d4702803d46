-- ===== src/Resources/Route/Total.antt =====
-- route_execution_resource of src/w1cip/validation.py always returns: the search for the primary
-- candidate of a rule cannot fail once the plan has passed its own checks.
use w1_nexus.Prelude.{
  ℕ, ◌∙◌, ◌≡◌, refl, ◌≢◌, String, true, false, Option, none, some, List, [], ◌∷◌, any, first, In,
  here, there, any-first, select-nil, select-In, append-nil_left, append-nil_right, elem, ◌⊎◌,
  Bool-cases, inl, inr, ℤ, pos, negsuc,
}
use w1_nexus.Resources.Plan.{Candidate, Resource, RoutingRule, Plan, is_primary, is_plan_active}
use w1_nexus.Resources.Semantics.{
  report, primaries, primary_errors, rule_errors, rules_errors, resource_errors,
  validate_execution_resource_plan_semantics, candidate_errors,
}
use w1_nexus.Resources.Route.{
  ResourceRoutingResult, accept_candidate, Intent, by_priority, with_primary, with_selection,
  route_by_rule, route_matching, route_estimated, route_valid, route_execution_resource,
  routing_rule_matches, usable,
}
use w1_nexus.Resources.Route.Order.{any-by_priority}

abbrev duplicate_rule : String
duplicate_rule = "execution_resource_duplicate_rule_id"

no_primary : (cs : List Candidate) → primary_errors (primaries cs) ≡ [] → primaries cs ≢ []
unfolding primary_errors
no_primary cs h e = cc (rw e at h)

-- A rule that passes has a primary candidate.
rule-primary :
    (resources : List Resource) (rule : RoutingRule)
    → rule_errors resources rule ≡ []
    → any (λ c. is_primary c.mode) rule.candidates ≡ true
unfolding rule_errors
rule-primary resources rule h =
    let after = append-nil_right (candidate_errors resources [] [] rule.candidates) _ h in
    let passed = append-nil_left (primary_errors (primaries rule.candidates)) _ after in
    elim (Bool-cases (any (λ c. is_primary c.mode) rule.candidates)) [
      | inl e ↦ e
      | inr e ↦ absurd (
          no_primary rule.candidates passed (select-nil (λ c. is_primary c.mode) rule.candidates e))
    ]

rules-primary :
    (resources : List Resource) (seen : List String) (rules : List RoutingRule) (rule : RoutingRule)
    → rules_errors resources seen rules ≡ []
    → In rule rules
    → any (λ c. is_primary c.mode) rule.candidates ≡ true
unfolding rules_errors
rules-primary resources seen [] rule h m = elim m [ ]
rules-primary resources seen (r ∷ rest) _ h here =
    let rest_ok = append-nil_right (report (elem r.rule_id seen) duplicate_rule) _ h in
    rule-primary resources r (append-nil_left (rule_errors resources r) _ rest_ok)
rules-primary resources seen (r ∷ rest) rule h (there m) =
    let rest_ok = append-nil_right (report (elem r.rule_id seen) duplicate_rule) _ h in
    rules-primary resources (r.rule_id ∷ seen) rest rule
      (append-nil_right (rule_errors resources r) _ rest_ok) m

-- A plan that passes its checks has a primary candidate in each rule.
pub plan-primary :
    (plan : Plan) (rule : RoutingRule)
    → validate_execution_resource_plan_semantics plan ≡ []
    → In rule plan.routing_rules
    → any (λ c. is_primary c.mode) rule.candidates ≡ true
unfolding validate_execution_resource_plan_semantics
plan-primary plan rule h m =
    rules-primary plan.resources [] plan.routing_rules rule
      (append-nil_right (resource_errors [] plan.resources) _ h) m

abbrev Returns : Option ResourceRoutingResult → Type 0
Returns o = (r : ResourceRoutingResult) × (o ≡ some r)

returned : (r : ResourceRoutingResult) → Returns (some r)
returned r = (r, refl)

module _ (plan : Plan) (i : Intent) where
  by_rule-Returns :
      (n : ℕ) (rule : RoutingRule)
      → any (λ c. is_primary c.mode) rule.candidates ≡ true
      → Returns (route_by_rule plan i n rule)
  unfolding route_by_rule with_selection
  by_rule-Returns n rule h =
      chosen (first (usable plan.resources (elem i.phase plan.protected_phases) n) _)
    where
      chosen : (o : Option Candidate) → Returns (with_selection plan i rule o)
      chosen none = returned _
      chosen (some c) =
          let (p, e) =
            any-first (λ d. is_primary d.mode) (by_priority rule.candidates)
              (any-by_priority (λ d. is_primary d.mode) rule.candidates ∙ h) in
          rw (e, with_primary) (returned (accept_candidate i rule c p))

  matching-Returns :
      (n : ℕ) (rules : List RoutingRule)
      → ((rule : RoutingRule) → In rule rules → any (λ c. is_primary c.mode) rule.candidates ≡ true)
      → Returns (route_matching plan i n rules)
  unfolding route_matching
  matching-Returns n [] h = returned _
  matching-Returns n (rule ∷ []) h = by_rule-Returns n rule (h rule here)
  matching-Returns n (a ∷ b ∷ rest) h = returned _

  estimated-Returns :
      (z : ℤ)
      → validate_execution_resource_plan_semantics plan ≡ []
      → Returns (route_estimated plan i z)
  unfolding route_estimated
  estimated-Returns (negsuc n) h = returned _
  estimated-Returns (pos n) h =
      matching-Returns n _ λ rule m.
        plan-primary plan rule h (select-In (routing_rule_matches i) plan.routing_rules m).0

-- Routing returns a result for every plan and every intent: no StopIteration escapes.
pub route_returns :
    (plan : Plan) (i : Intent)
    → (r : ResourceRoutingResult) × (route_execution_resource plan i ≡ some r)
unfolding route_execution_resource route_valid
route_returns plan i =
    go (validate_execution_resource_plan_semantics plan) refl
      (Bool-cases (is_plan_active plan.status))
  where
    go :
        (es : List String)
        → validate_execution_resource_plan_semantics plan ≡ es
        → (is_plan_active plan.status ≡ true) ⊎ (is_plan_active plan.status ≡ false)
        → (r : ResourceRoutingResult) × (route_valid plan i es ≡ some r)
    go (e ∷ es) h b = returned _
    go [] h (inl b) = rw b (estimated-Returns plan i i.estimated_units h)
    go [] h (inr b) = rw b (returned _)
