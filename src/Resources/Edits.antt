-- ===== src/Resources/Edits.antt =====
-- The plan edits of src/w1cip/orchestrator.py: _plan_with_unavailable_resources,
-- _mark_resource_quota_exhausted, _consume_resource_units and _routing_metadata_for_resource.
-- `now` is the value of utc_now(), which the source calls in them.
pub mod Update
pub mod Unavailable
pub mod Units
pub mod Quotas
use w1_nexus.Prelude.{
  ℕ, zero, suc, ◌-◌, String, Bool, true, false, not, ◌&&◌, ◌||◌, Option, none, some, List, [], ◌∷◌,
  map, ltb, leb, ◌==◌, first, select, any, elem, option_eq, if◌then◌else◌, ℤ, pos_part,
}
use w1_nexus.Resources.Plan.{
  Quota, QuotaStatus, available, low, exhausted, unknown, Resource, Candidate, RoutingRule, Plan,
  selected, is_unusable, is_primary, is_fallback, RoutingStatus, quota_exhausted, resource_by_id,
}
use w1_nexus.Resources.Route.{
  ResourceRoutingResult, Intent, routing_rule_matches, by_priority, route_execution_resource,
}

abbrev pub hide : List String → Resource → Resource
hide unavailable r =
    if elem r.resource_id unavailable
    then record r { quota = record r.quota { status = unknown } }
    else r

-- _plan_with_unavailable_resources
unfoldable pub plan_with_unavailable_resources : Plan → List String → Plan
plan_with_unavailable_resources plan unavailable = record plan {
  resources = map (hide unavailable) plan.resources;
}

-- Changes the resource that `_resource_by_id` finds: the last one of that name.
unfoldable pub update_resource : String → (Quota → Quota) → List Resource → List Resource
update_resource key f [] = []
update_resource key f (r ∷ rest) =
    if any (λ s. s.resource_id == key) rest
    then r ∷ update_resource key f rest
    else (if r.resource_id == key then record r { quota = f r.quota } else r)
      ∷ update_resource key f rest

-- A reset text that can be dealt with: an instant, or what `fromisoformat` refuses.
pub data Moment : Type 0 where
  instant : ℕ → Moment
  unparsable : Moment

-- A reset text that a provider reports. A naive one is read by `fromisoformat`, but has no offset,
-- so that its comparison with the time of the observation raises TypeError.
pub data ResetText : Type 0 where
  comparable : Moment → ResetText
  naive : ResetText

abbrev stale_boundary : Quota → Quota
stale_boundary q = record q { reset_at = none; reset_timestamp_stale = true }

abbrev later_boundary : ℕ → ℕ → Quota → Quota
later_boundary t now q = if ltb now t then record q { reset_at = some t } else stale_boundary q

-- `candidate_reset = reset_at if reset_at is not None else quota.get("reset_at")`, and its use.
abbrev reset_boundary : Option Moment → Option ℕ → ℕ → Quota → Quota
reset_boundary (some (instant t)) old now q = later_boundary t now q
reset_boundary (some unparsable) old now q = stale_boundary q
reset_boundary none (some t) now q = later_boundary t now q
reset_boundary none none now q = q

unfoldable pub exhaust : Option Moment → ℕ → Quota → Quota
exhaust reset_at now q =
    reset_boundary reset_at q.reset_at now
      (record q { status = exhausted; remaining_units = some 0; observed_at = now })

abbrev short_of : Option ℕ → ℕ → Bool
short_of none required = false
short_of (some remaining) required = ltb remaining required

-- A candidate with no declared resource has the quota `{}`, which nothing rules out.
abbrev can_replace : Candidate → Option Resource → Bool
can_replace c none = true
can_replace c (some r) =
    not (is_unusable r.quota.status)
    && not (short_of r.quota.remaining_units c.minimum_remaining_units)

unfoldable pub replacement_for : List Resource → String → RoutingRule → Option Candidate
replacement_for resources key rule =
    first
      (λ c. not (c.resource_id == key) && can_replace c (resource_by_id c.resource_id resources))
      (by_priority rule.candidates)

-- `bool(primary and replacement.fitness_score < primary.fitness_score)`
abbrev below_primary : Candidate → Option Candidate → Bool
below_primary c none = false
below_primary c (some p) = ltb c.fitness_score p.fitness_score

unfoldable pub advance_rule : String → RoutingRule → Option Candidate → RoutingRule
advance_rule key rule none = record rule {
  active_resource_id = none;
  fallback_from_resource_id = none;
  routing_status = RoutingStatus.awaiting_reset;
  activation_reason = quota_exhausted;
  additional_review_required = false;
}
advance_rule key rule (some c) = record rule {
  active_resource_id = some c.resource_id;
  fallback_from_resource_id = some key;
  routing_status = RoutingStatus.active;
  activation_reason = quota_exhausted;
  additional_review_required =
      below_primary c (first (λ d. is_primary d.mode) (by_priority rule.candidates));
}

unfoldable pub retire_in_rule : List Resource → String → RoutingRule → RoutingRule
unfolding replacement_for advance_rule
retire_in_rule resources key rule =
    if option_eq rule.active_resource_id (some key)
    then advance_rule key rule (replacement_for resources key rule)
    else rule

abbrev pub marked : Plan → String → Option Moment → ℕ → Option Resource → Plan
marked plan key reset_at now none = plan
marked plan key reset_at now (some r) =
    let resources = update_resource key (exhaust reset_at now) plan.resources in
    record plan {
      resources = resources;
      routing_rules = map (retire_in_rule resources key) plan.routing_rules;
    }

abbrev pub mark_found : Plan → String → ℕ → Option Resource → Option ResetText → Option Plan
mark_found plan key now none reset_at = some plan
mark_found plan key now (some r) none = some (marked plan key none now (some r))
mark_found plan key now (some r) (some (comparable t)) =
    some (marked plan key (some t) now (some r))
mark_found plan key now (some r) (some naive) = none

-- _mark_resource_quota_exhausted, with `none` for the TypeError; a resource that the plan lacks
-- leaves it as it is.
unfoldable pub mark_resource_quota_exhausted : Plan → String → Option ResetText → ℕ → Option Plan
unfolding retire_in_rule exhaust
mark_resource_quota_exhausted plan key reset_at now =
    mark_found plan key now (resource_by_id key plan.resources) reset_at

abbrev pub status_after : ℕ → ℕ → QuotaStatus
status_after zero reserved = exhausted
status_after (suc remaining) reserved = if leb (suc remaining) reserved then low else available

abbrev passed_boundary : Option ℕ → ℕ → Quota → Quota
passed_boundary none now q = q
passed_boundary (some t) now q = if leb t now then stale_boundary q else q

abbrev spend : ℤ → ℕ → Quota → Option ℕ → Quota
spend units now q none = q
spend units now q (some n) =
    let remaining = n - pos_part units in
    passed_boundary q.reset_at now (record q {
      remaining_units = some remaining;
      status = status_after remaining q.reserved_units;
      observed_at = now;
    })

unfoldable pub consume : ℤ → ℕ → Quota → Quota
consume units now q = spend units now q q.remaining_units

-- _consume_resource_units; a resource that the plan lacks leaves it as it is.
unfoldable pub consume_resource_units : Plan → String → ℤ → ℕ → Plan
consume_resource_units plan key units now = record plan {
  resources = update_resource key (consume units now) plan.resources;
}

-- The result for a resource that an earlier attempt used and routing would not choose now.
abbrev resumed_result : String → RoutingRule → Candidate → ResourceRoutingResult
resumed_result key rule c = record {
  selected_resource_id = some key;
  action = selected;
  used_fallback = is_fallback c.mode;
  requires_extra_review =
      (is_fallback c.mode && below_primary c (first (λ d. is_primary d.mode) rule.candidates))
      || rule.additional_review_required;
  disclosure_required = is_fallback c.mode;
  plan_update_required = false;
  error_codes = [];
}

unfoldable pub resume_by_rules : String → List RoutingRule → ResourceRoutingResult
resume_by_rules key [] = record {
  selected_resource_id = some key;
  action = selected;
  used_fallback = false;
  requires_extra_review = false;
  disclosure_required = false;
  plan_update_required = false;
  error_codes = "orchestrator_resumed_resource_not_in_routing_rule" ∷ [];
}
resume_by_rules key (rule ∷ rest) =
    let otherwise = resume_by_rules key rest in
    elim (first (λ c. c.resource_id == key) rule.candidates) [
      | none ↦ otherwise
      | some c ↦ resumed_result key rule c
    ]

abbrev routed_or_resumed : Plan → Intent → String → ResourceRoutingResult → ResourceRoutingResult
routed_or_resumed plan i key routed =
    if option_eq routed.selected_resource_id (some key)
    then routed
    else resume_by_rules key (select (routing_rule_matches i) plan.routing_rules)

-- _routing_metadata_for_resource
unfoldable pub routing_metadata_for_resource : Plan → Intent → String → Option ResourceRoutingResult
unfolding resume_by_rules
routing_metadata_for_resource plan i key = elim (route_execution_resource plan i) [
  | none ↦ none
  | some routed ↦ some (routed_or_resumed plan i key routed)
]
