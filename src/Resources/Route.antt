-- ===== src/Resources/Route.antt =====
-- route_execution_resource of src/w1cip/validation.py.
pub mod Order
pub mod Total
pub mod Choice
pub mod Served
use w1_nexus.Prelude.{
  ℕ, ◌-◌, String, Bool, true, false, not, ◌&&◌, ◌||◌, Option, none, some, List, [], ◌∷◌, ltb, leb,
  eqb, ◌==◌, select, first, elem, is_subset, option_eq, if◌then◌else◌, max, ℤ, pos, negsuc,
}
use w1_nexus.Resources.Plan.{
  Quota, Resource, Candidate, RoutingRule, Plan, Action, selected, await_reset, await_user,
  cancelled, block, invalid_plan, invalid_request, is_available, is_unusable, is_primary,
  is_fallback, is_active, is_prohibited, forbids_final_work, is_plan_active, resource_by_id,
}
use w1_nexus.Resources.Semantics.{validate_execution_resource_plan_semantics}

pub record ResourceRoutingResult : Type 0 where
  pub selected_resource_id : Option String
  pub action : Action
  pub used_fallback : Bool
  pub requires_extra_review : Bool
  pub disclosure_required : Bool
  pub plan_update_required : Bool
  pub error_codes : List String

-- The keyword arguments of a routing call.
pub record Intent : Type 0 where
  pub role : String
  pub phase : String
  pub risk_level : String
  pub task_complexity : String
  pub domains : List String
  pub estimated_units : ℤ

-- A selector's list that may be absent: `selector.get(k) and x not in set(selector[k])` refuses.
abbrev pub admits : List String → String → Bool
admits [] x = true
admits (y ∷ ys) x = elem x (y ∷ ys)

-- _routing_rule_matches
unfoldable pub routing_rule_matches : Intent → RoutingRule → Bool
routing_rule_matches i rule =
    let selector = rule.applies_to in
    elem i.role selector.roles
    && (elem i.phase selector.phases
        && (admits selector.risk_levels i.risk_level
            && (admits selector.task_complexities i.task_complexity
                && is_subset selector.domains i.domains)))

-- The units that a quota leaves to a phase: the reserve is kept back unless the phase is protected.
abbrev pub available_units : Bool → ℕ → ℕ → ℕ
available_units protected remaining reserved = if protected then remaining else remaining - reserved

abbrev pub covers : Bool → ℕ → Candidate → Quota → Option ℕ → Bool
covers protected estimated c q none = is_available q.status && eqb estimated 0
covers protected estimated c q (some remaining) =
    leb (max estimated c.minimum_remaining_units)
      (available_units protected remaining q.reserved_units)

-- For a candidate with no declared resource the quota is `{}`: it is usable exactly if nothing
-- makes it unusable and `remaining` is an integer, which it is not.
unfoldable pub quota_usable : Bool → ℕ → Candidate → Option Resource → Bool
quota_usable protected estimated c none = false
quota_usable protected estimated c (some r) =
    if is_unusable r.quota.status
    then false
    else covers protected estimated c r.quota r.quota.remaining_units

-- `usable`
unfoldable pub usable : List Resource → Bool → ℕ → Candidate → Bool
unfolding quota_usable
usable resources protected estimated c =
    quota_usable protected estimated c (resource_by_id c.resource_id resources)

-- `sorted(candidates, key=priority)`, which is stable.
unfoldable pub place : Candidate → List Candidate → List Candidate
place c [] = c ∷ []
place c (d ∷ ds) = if ltb d.priority c.priority then d ∷ place c ds else c ∷ d ∷ ds

unfoldable pub by_priority : List Candidate → List Candidate
unfolding place
by_priority [] = []
by_priority (c ∷ cs) = place c (by_priority cs)

-- A result with no selection.
abbrev pub refused : Action → Bool → String → ResourceRoutingResult
refused action disclosure code = record {
  selected_resource_id = none;
  action = action;
  used_fallback = false;
  requires_extra_review = false;
  disclosure_required = disclosure;
  plan_update_required = false;
  error_codes = code ∷ [];
}

-- `await_reset`, `await_user` and `cancelled` pass; anything else is "blocked".
abbrev pub unavailable_action : Action → Action
unavailable_action await_reset = await_reset
unavailable_action await_user = await_user
unavailable_action cancelled = cancelled
unavailable_action _ = block

abbrev pub is_final : String → Bool
is_final phase = phase == "approval" || phase == "synthesis"

unfoldable pub accept_candidate :
    Intent → RoutingRule → Candidate → Candidate → ResourceRoutingResult
accept_candidate i rule chosen primary =
    let used_fallback = is_fallback chosen.mode in
    let below_floor = ltb chosen.fitness_score rule.minimum_fitness_score in
    if below_floor && is_prohibited rule.below_floor_policy
    then refused block true "execution_resource_selected_below_quality_floor"
    else if below_floor && (forbids_final_work rule.below_floor_policy && is_final i.phase)
    then refused block true "execution_resource_lower_tier_final_work_forbidden"
    else record {
      selected_resource_id = some chosen.resource_id;
      action = selected;
      used_fallback = used_fallback;
      requires_extra_review =
          (used_fallback && (below_floor || ltb chosen.fitness_score primary.fitness_score))
          || rule.additional_review_required;
      disclosure_required = used_fallback;
      plan_update_required =
          not (is_active rule.routing_status)
          || not (option_eq (some chosen.resource_id) rule.active_resource_id);
      error_codes = [];
    }

-- `none` is the uncaught StopIteration of `next(c for c in candidates if mode == "primary")`.
unfoldable pub with_primary :
    Intent → RoutingRule → Candidate → Option Candidate → Option ResourceRoutingResult
with_primary i rule chosen none = none
with_primary i rule chosen (some primary) = some (accept_candidate i rule chosen primary)

unfoldable pub with_selection :
    Plan → Intent → RoutingRule → Option Candidate → Option ResourceRoutingResult
unfolding with_primary
with_selection plan i rule none = some (
    refused (unavailable_action plan.all_candidates_unavailable) true
      "execution_resource_all_candidates_unavailable")
with_selection plan i rule (some chosen) =
    with_primary i rule chosen (first (λ c. is_primary c.mode) (by_priority rule.candidates))

unfoldable pub route_by_rule : Plan → Intent → ℕ → RoutingRule → Option ResourceRoutingResult
route_by_rule plan i estimated rule = with_selection plan i rule (
    first (usable plan.resources (elem i.phase plan.protected_phases) estimated)
      (by_priority rule.candidates))

unfoldable pub route_matching : Plan → Intent → ℕ → List RoutingRule → Option ResourceRoutingResult
route_matching plan i estimated [] =
    some (refused block false "execution_resource_no_matching_rule")
route_matching plan i estimated (rule ∷ []) = route_by_rule plan i estimated rule
route_matching plan i estimated _ =
    some (refused block false "execution_resource_ambiguous_routing_rule")

unfoldable pub route_estimated : Plan → Intent → ℤ → Option ResourceRoutingResult
route_estimated plan i (negsuc n) =
    some (refused invalid_request false "execution_resource_negative_estimate")
route_estimated plan i (pos estimated) =
    route_matching plan i estimated (select (routing_rule_matches i) plan.routing_rules)

-- A plan with local errors is refused with all of them.
unfoldable pub route_valid : Plan → Intent → List String → Option ResourceRoutingResult
route_valid plan i (e ∷ errors) =
    some (record (refused invalid_plan false e) { error_codes = e ∷ errors })
route_valid plan i [] =
    if is_plan_active plan.status
    then route_estimated plan i i.estimated_units
    else some (refused block false "execution_resource_plan_inactive")

unfoldable pub route_execution_resource : Plan → Intent → Option ResourceRoutingResult
route_execution_resource plan i =
    route_valid plan i (validate_execution_resource_plan_semantics plan)
