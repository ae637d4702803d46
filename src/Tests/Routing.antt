-- ===== src/Tests/Routing.antt =====
-- A plan with a primary and a fallback candidate, for route_execution_resource of
-- src/w1cip/validation.py and the plan edits of src/w1cip/orchestrator.py.
use w1_nexus.Prelude.{
  ℕ, ◌+◌, ◌≤◌, ◌<◌, ◌≡◌, ◌≢◌, refl, true, false, none, some, [], ◌∷◌, arith, pos, In,
}
use w1_nexus.Resources.Plan.{
  available, Quota, Resource, primary, fallback, Candidate, active, initial_selection,
  allow_with_extra_review, RoutingRule, plan_active, await_user, Plan, selected, is_primary,
  is_fallback, is_prohibited, resource_by_id, routing_candidate_by_id,
}
use w1_nexus.Resources.Semantics.{
  validate_execution_resource_plan_semantics, resource_errors, quota_errors, rules_errors,
  rule_errors, candidate_errors, primary_errors, status_errors, objective_errors,
}
use w1_nexus.Resources.Route.{
  ResourceRoutingResult, Intent, routing_rule_matches, usable, by_priority, accept_candidate,
  route_execution_resource, route_valid, route_estimated, route_matching, route_by_rule,
  with_selection, with_primary, place, quota_usable,
}
use w1_nexus.Resources.Route.Total.{route_returns}
use w1_nexus.Resources.Route.Choice.{Selection, route-Selection, route_no_silent_downgrade}
use w1_nexus.Resources.Edits.{
  instant, comparable, marked, consume, consume_resource_units, plan_with_unavailable_resources,
  mark_resource_quota_exhausted, exhaust, update_resource, retire_in_rule, replacement_for,
  advance_rule,
}
use w1_nexus.Resources.Edits.Unavailable.{route_avoids_unavailable, route_avoids_exhausted}
use w1_nexus.Resources.Edits.Units.{reserve_kept}
use w1_nexus.Resources.Edits.Quotas.{AreQuotas, BoundaryStep, quotas_kept}

abbrev pub quota_with : ℕ → Quota
quota_with n = record {
  status = available;
  limit_units = some 100;
  remaining_units = some n;
  reserved_units = 10;
  observed_at = 5;
  reset_at = some 1000;
  reset_timestamp_stale = false;
}

abbrev pub claude : Resource
claude = record { resource_id = "claude"; quota = quota_with 50 }

abbrev pub gemini : Resource
gemini = record { resource_id = "gemini"; quota = quota_with 80 }

abbrev pub first_choice : Candidate
first_choice = record {
  resource_id = "claude";
  mode = primary;
  priority = 1;
  fitness_score = 90;
  minimum_remaining_units = 5;
}

abbrev pub second_choice : Candidate
second_choice = record {
  resource_id = "gemini";
  mode = fallback;
  priority = 2;
  fitness_score = 70;
  minimum_remaining_units = 5;
}

abbrev pub rule : RoutingRule
rule = record {
  rule_id = "rule-1";
  applies_to = record {
    roles = "engineer" ∷ [];
    phases = "execution" ∷ [];
    risk_levels = [];
    task_complexities = [];
    domains = [];
  };
  routing_status = active;
  capability_first = true;
  minimum_fitness_score = 60;
  active_resource_id = some "claude";
  candidates = second_choice ∷ first_choice ∷ [];
  activate_fallback = false;
  below_floor_policy = allow_with_extra_review;
  additional_review_required = false;
  activation_reason = initial_selection;
  fallback_from_resource_id = none;
}

abbrev pub plan : Plan
plan = record {
  resources = claude ∷ gemini ∷ [];
  routing_rules = rule ∷ [];
  protected_phases = "synthesis" ∷ [];
  all_candidates_unavailable = await_user;
  status = plan_active;
}

abbrev intent : Intent
intent = record {
  role = "engineer";
  phase = "execution";
  risk_level = "low";
  task_complexity = "moderate";
  domains = [];
  estimated_units = pos 7;
}

abbrev by_claude : ResourceRoutingResult
by_claude = record {
  selected_resource_id = some "claude";
  action = selected;
  used_fallback = false;
  requires_extra_review = false;
  disclosure_required = false;
  plan_update_required = false;
  error_codes = [];
}

abbrev by_gemini : ResourceRoutingResult
by_gemini = record {
  selected_resource_id = some "gemini";
  action = selected;
  used_fallback = true;
  requires_extra_review = true;
  disclosure_required = true;
  plan_update_required = true;
  error_codes = [];
}

routed : route_execution_resource plan intent ≡ some by_claude
unfolding route_execution_resource plan_with_unavailable_resources mark_resource_quota_exhausted
    route_valid validate_execution_resource_plan_semantics resource_errors quota_errors rules_errors
    rule_errors candidate_errors primary_errors status_errors objective_errors resource_by_id
    route_estimated route_matching routing_rule_matches route_by_rule with_selection by_priority
    place accept_candidate routing_candidate_by_id quota_usable usable with_primary exhaust
    update_resource retire_in_rule replacement_for advance_rule
routed = refl

routed_without_claude :
    route_execution_resource (plan_with_unavailable_resources plan ("claude" ∷ [])) intent
    ≡ some by_gemini
unfolding route_execution_resource plan_with_unavailable_resources mark_resource_quota_exhausted
    route_valid validate_execution_resource_plan_semantics resource_errors quota_errors rules_errors
    rule_errors candidate_errors primary_errors status_errors objective_errors resource_by_id
    route_estimated route_matching routing_rule_matches route_by_rule with_selection by_priority
    place accept_candidate routing_candidate_by_id quota_usable usable with_primary exhaust
    update_resource retire_in_rule replacement_for advance_rule
routed_without_claude = refl

abbrev after_exhaustion : ResourceRoutingResult
after_exhaustion = record by_gemini { plan_update_required = false }

abbrev after_quota : Plan
after_quota = marked plan "claude" (some (instant 2000)) 100 (some claude)

marks_claude :
    mark_resource_quota_exhausted plan "claude" (some (comparable (instant 2000))) 100
    ≡ some after_quota
unfolding mark_resource_quota_exhausted resource_by_id
marks_claude = refl

routed_after_exhaustion : route_execution_resource after_quota intent ≡ some after_exhaustion
unfolding route_execution_resource plan_with_unavailable_resources mark_resource_quota_exhausted
    route_valid validate_execution_resource_plan_semantics resource_errors quota_errors rules_errors
    rule_errors candidate_errors primary_errors status_errors objective_errors resource_by_id
    route_estimated route_matching routing_rule_matches route_by_rule with_selection by_priority
    place accept_candidate routing_candidate_by_id quota_usable usable with_primary exhaust
    update_resource retire_in_rule replacement_for advance_rule
routed_after_exhaustion = refl

route-Selection_example : Selection plan intent by_claude
route-Selection_example = route-Selection plan intent by_claude routed (λ e. cc)

-- The fallback is weaker, so it is disclosed and reviewed.
route_no_silent_downgrade_example :
    (rule : RoutingRule) × (c : Candidate) × (p : Candidate) × In rule
      (plan_with_unavailable_resources plan ("claude" ∷ [])).routing_rules
    × In c rule.candidates
    × In p rule.candidates
    × (is_primary p.mode ≡ true)
    × (c.resource_id ≡ "gemini")
    × (true ≡ is_fallback c.mode)
    × (is_fallback c.mode ≡ true → c.fitness_score < p.fitness_score → true ≡ true)
    × (is_prohibited rule.below_floor_policy ≡ true → rule.minimum_fitness_score ≤ c.fitness_score)
route_no_silent_downgrade_example =
    route_no_silent_downgrade (plan_with_unavailable_resources plan ("claude" ∷ [])) intent
      by_gemini "gemini" routed_without_claude refl

route_returns_example :
    (r : ResourceRoutingResult) × (route_execution_resource plan intent ≡ some r)
route_returns_example = route_returns plan intent

route_avoids_unavailable_example : by_gemini.selected_resource_id ≢ some "claude"
route_avoids_unavailable_example =
    route_avoids_unavailable plan ("claude" ∷ []) intent by_gemini "claude" routed_without_claude
      refl

route_avoids_exhausted_example : after_exhaustion.selected_resource_id ≢ some "claude"
route_avoids_exhausted_example =
    route_avoids_exhausted plan after_quota "claude" (some (comparable (instant 2000))) 100 intent
      after_exhaustion marks_claude routed_after_exhaustion

valid_resources : resource_errors [] plan.resources ≡ []
unfolding resource_errors quota_errors
valid_resources = refl

found_claude : resource_by_id "claude" plan.resources ≡ some claude
unfolding resource_by_id
found_claude = refl

-- 2000 is after the boundary that the quotas declare.
quotas_kept_example :
    (resource_errors [] (consume_resource_units plan "claude" (pos 45) 2000).resources ≡ [])
    × AreQuotas
        (mark_resource_quota_exhausted plan "claude" (some (comparable (instant 2500))) 2000)
    × ((q : Resource) × (resource_by_id "claude"
            (consume_resource_units plan "claude" (pos 45) 2000).resources
          ≡ some q)
        × BoundaryStep 2000 (quota_with 50) q.quota)
quotas_kept_example =
    quotas_kept plan "claude" "claude" (pos 45) (some (comparable (instant 2500))) 2000 claude
      valid_resources found_claude

reserve_kept_example :
    (left : ℕ) × (resource_by_id "claude"
        (consume_resource_units plan "claude" (pos 6) 100).resources
      ≡ some (record claude { quota = consume (pos 6) 100 claude.quota }))
    × ((consume (pos 6) 100 claude.quota).remaining_units ≡ some left)
    × (left + 6 ≡ 50)
    × (10 ≤ left)
reserve_kept_example =
    reserve_kept plan intent by_claude "claude" claude 50 7 6 100 routed refl refl refl
      (omega arith) found_claude refl (omega arith)
