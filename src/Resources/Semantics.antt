-- ===== src/Resources/Semantics.antt =====
-- validate_execution_resource_plan_semantics of src/w1cip/validation.py: the error codes in the
-- order in which the source appends them.
use w1_nexus.Prelude.{
  ℕ, String, Bool, true, false, not, ◌&&◌, ◌||◌, Option, none, some, List, [], ◌∷◌, ◌++◌, map, ltb,
  leb, eqb, ◌==◌, any, select, elem, option_eq, if◌then◌else◌,
}
use w1_nexus.Resources.Plan.{
  Quota, Resource, Candidate, RoutingRule, Plan, is_available, is_exhausted, is_primary,
  is_fallback, is_active, is_initial_selection, is_prohibited, wants_extra_review,
  forbids_final_work, resource_by_id, routing_candidate_by_id,
}

-- `if test: errors.append(code)`
abbrev pub report : Bool → String → List String
report test code = if test then code ∷ [] else []

abbrev pub is_zero? : Option ℕ → Bool
is_zero? none = false
is_zero? (some n) = eqb n 0

abbrev pub is_nonzero? : Option ℕ → Bool
is_nonzero? none = false
is_nonzero? (some n) = not (eqb n 0)

-- Both are present and the first exceeds the second.
abbrev pub exceeds? : Option ℕ → Option ℕ → Bool
exceeds? (some a) (some b) = ltb b a
exceeds? _ _ = false

-- The boundary is present and does not lie after the observation.
abbrev pub not_after : Option ℕ → ℕ → Bool
not_after none observed = false
not_after (some reset) observed = leb reset observed

unfoldable pub quota_errors : Quota → List String
quota_errors q =
    report (exceeds? q.remaining_units q.limit_units) "execution_resource_remaining_exceeds_limit"
    ++ (report (exceeds? (some q.reserved_units) q.limit_units)
          "execution_resource_reserve_exceeds_limit"
        ++ (report (is_available q.status && is_zero? q.remaining_units)
              "execution_resource_available_with_zero_remaining"
            ++ (report (is_exhausted q.status && is_nonzero? q.remaining_units)
                  "execution_resource_exhausted_with_remaining"
                ++ report (not_after q.reset_at q.observed_at)
                    "execution_resource_reset_not_after_observation")))

-- The loop over `resources`, with the names met so far.
unfoldable pub resource_errors : List String → List Resource → List String
resource_errors seen [] = []
resource_errors seen (r ∷ rest) =
    report (elem r.resource_id seen) "execution_resource_duplicate_resource_id"
    ++ (quota_errors r.quota ++ resource_errors (r.resource_id ∷ seen) rest)

abbrev pub is_declared : List Resource → String → Bool
is_declared resources key = any (λ r. r.resource_id == key) resources

-- The loop over a rule's candidates, with the resources and the priorities met so far.
unfoldable pub candidate_errors :
    List Resource → List String → List ℕ → List Candidate → List String
candidate_errors resources names priorities [] = []
candidate_errors resources names priorities (c ∷ rest) =
    report (elem c.resource_id names) "execution_resource_duplicate_candidate"
    ++ (report (any (eqb c.priority) priorities) "execution_resource_duplicate_candidate_priority"
        ++ (report (not (is_declared resources c.resource_id))
              "execution_resource_candidate_not_declared"
            ++ candidate_errors resources (c.resource_id ∷ names) (c.priority ∷ priorities) rest))

abbrev pub primaries : List Candidate → List Candidate
primaries = select (λ c. is_primary c.mode)

unfoldable pub primary_errors : List Candidate → List String
primary_errors (p ∷ []) =
    report (not (eqb p.priority 1)) "execution_resource_primary_priority_must_be_one"
primary_errors _ = "execution_resource_exactly_one_primary_required" ∷ []

abbrev exhausted_resource : Option Resource → Bool
exhausted_resource none = false
exhausted_resource (some r) = is_exhausted r.quota.status

abbrev final_phase : String → Bool
final_phase phase = phase == "approval" || phase == "synthesis"

abbrev is_present : Option String → Bool
is_present none = false
is_present (some x) = true

-- `fallback_from not in candidate_resources or fallback_from == active_id`
abbrev invalid_origin : RoutingRule → Bool
invalid_origin rule = elim rule.fallback_from_resource_id [
  | none ↦ true
  | some origin ↦
      not (elem origin (map (λ c. c.resource_id) rule.candidates))
      || option_eq (some origin) rule.active_resource_id
]

active_candidate_errors : List Resource → RoutingRule → Candidate → List String
active_candidate_errors resources rule c =
    let below_floor = ltb c.fitness_score rule.minimum_fitness_score in
    report (exhausted_resource (resource_by_id c.resource_id resources))
      "execution_resource_active_candidate_exhausted"
    ++ (report (below_floor && is_prohibited rule.below_floor_policy)
          "execution_resource_active_candidate_below_floor"
        ++ (report
              (below_floor
                && (wants_extra_review rule.below_floor_policy
                    && not rule.additional_review_required))
              "execution_resource_extra_review_required"
            ++ (report
                  (below_floor
                    && (forbids_final_work rule.below_floor_policy
                        && any final_phase rule.applies_to.phases))
                  "execution_resource_below_floor_final_phase_forbidden"
                ++ (if is_fallback c.mode
                    then report (is_initial_selection rule.activation_reason)
                        "execution_resource_fallback_requires_activation_reason"
                      ++ report (invalid_origin rule) "execution_resource_invalid_fallback_origin"
                    else report (is_present rule.fallback_from_resource_id)
                        "execution_resource_primary_must_not_declare_fallback_origin"))))

abbrev checked_active : List Resource → RoutingRule → Option Candidate → List String
checked_active resources rule none = "execution_resource_active_candidate_not_found" ∷ []
checked_active resources rule (some c) = active_candidate_errors resources rule c

unfoldable pub status_errors : List Resource → RoutingRule → List String
unfolding routing_candidate_by_id active_candidate_errors
status_errors resources rule =
    if is_active rule.routing_status
    then checked_active resources rule (routing_candidate_by_id rule rule.active_resource_id)
    else report (is_present rule.active_resource_id)
        "execution_resource_inactive_routing_has_active_resource"
      ++ (report (is_initial_selection rule.activation_reason)
            "execution_resource_inactive_routing_requires_unavailability_reason"
          ++ report rule.additional_review_required
              "execution_resource_inactive_routing_cannot_require_review")

-- `primary_score < max(scores)` for the first primary, if there is one.
abbrev pub not_strongest : List Candidate → List Candidate → Bool
not_strongest [] candidates = false
not_strongest (p ∷ ps) candidates = any (λ c. ltb p.fitness_score c.fitness_score) candidates

unfoldable pub objective_errors : RoutingRule → List String
objective_errors rule =
    report (rule.capability_first && not_strongest (primaries rule.candidates) rule.candidates)
      "execution_resource_capability_first_primary_not_strongest"
    ++ report (rule.activate_fallback && not (any (λ c. is_fallback c.mode) rule.candidates))
        "execution_resource_fallback_candidate_required"

unfoldable pub rule_errors : List Resource → RoutingRule → List String
rule_errors resources rule =
    candidate_errors resources [] [] rule.candidates
    ++ (primary_errors (primaries rule.candidates)
        ++ (status_errors resources rule ++ objective_errors rule))

unfoldable pub rules_errors : List Resource → List String → List RoutingRule → List String
rules_errors resources seen [] = []
rules_errors resources seen (rule ∷ rest) =
    report (elem rule.rule_id seen) "execution_resource_duplicate_rule_id"
    ++ (rule_errors resources rule ++ rules_errors resources (rule.rule_id ∷ seen) rest)

unfoldable pub validate_execution_resource_plan_semantics : Plan → List String
validate_execution_resource_plan_semantics plan =
    resource_errors [] plan.resources ++ rules_errors plan.resources [] plan.routing_rules
