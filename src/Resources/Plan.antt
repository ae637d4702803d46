-- ===== src/Resources/Plan.antt =====
-- The data of an ExecutionResourcePlan payload, as
-- src/w1cip/schemas/0.1/execution-resource-plan.schema.json shapes it: what the schema requires is
-- a field, what it leaves out is an Option, an enumeration is a data type, and its integers have a
-- minimum of 0 or 1. Fields that neither routing nor the plan edits read are left out.
use w1_nexus.Prelude.{
  ℕ, String, Bool, true, false, Option, none, some, List, [], ◌∷◌, ◌==◌, first, if◌then◌else◌,
}

pub data QuotaStatus : Type 0 where
  available low exhausted unknown : QuotaStatus

abbrev pub is_available : QuotaStatus → Bool
is_available available = true
is_available _ = false

abbrev pub is_exhausted : QuotaStatus → Bool
is_exhausted exhausted = true
is_exhausted _ = false

-- `status in {"exhausted", "unknown"}`
abbrev pub is_unusable : QuotaStatus → Bool
is_unusable exhausted = true
is_unusable unknown = true
is_unusable _ = false

-- A date-time text is an instant: the number that it parses to.
pub record Quota : Type 0 where
  pub status : QuotaStatus
  pub limit_units : Option ℕ
  pub remaining_units : Option ℕ
  pub reserved_units : ℕ
  pub observed_at : ℕ
  pub reset_at : Option ℕ
  pub reset_timestamp_stale : Bool

pub record Resource : Type 0 where
  pub resource_id : String
  pub quota : Quota

pub data Mode : Type 0 where
  primary fallback : Mode

abbrev pub is_primary : Mode → Bool
is_primary primary = true
is_primary fallback = false

abbrev pub is_fallback : Mode → Bool
is_fallback primary = false
is_fallback fallback = true

pub record Candidate : Type 0 where
  pub resource_id : String
  pub mode : Mode
  pub priority : ℕ
  pub fitness_score : ℕ
  pub minimum_remaining_units : ℕ

-- `risk_levels`, `task_complexities` and `domains` are absent as the empty list, which the code
-- treats alike.
pub record Selector : Type 0 where
  pub roles : List String
  pub phases : List String
  pub risk_levels : List String
  pub task_complexities : List String
  pub domains : List String

pub data RoutingStatus : Type 0 where
  active awaiting_reset awaiting_user blocked : RoutingStatus

abbrev pub is_active : RoutingStatus → Bool
is_active active = true
is_active _ = false

pub data ActivationReason : Type 0 where
  initial_selection quota_low quota_exhausted provider_unavailable : ActivationReason
  reserve_protection manual_override : ActivationReason

abbrev pub is_initial_selection : ActivationReason → Bool
is_initial_selection initial_selection = true
is_initial_selection _ = false

pub data BelowFloorPolicy : Type 0 where
  prohibited allow_with_extra_review allow_for_non_final_work : BelowFloorPolicy

abbrev pub is_prohibited : BelowFloorPolicy → Bool
is_prohibited prohibited = true
is_prohibited _ = false

abbrev pub wants_extra_review : BelowFloorPolicy → Bool
wants_extra_review allow_with_extra_review = true
wants_extra_review _ = false

abbrev pub forbids_final_work : BelowFloorPolicy → Bool
forbids_final_work allow_for_non_final_work = true
forbids_final_work _ = false

pub record RoutingRule : Type 0 where
  pub rule_id : String
  pub applies_to : Selector
  pub routing_status : RoutingStatus
  pub capability_first : Bool
  pub minimum_fitness_score : ℕ
  pub active_resource_id : Option String
  pub candidates : List Candidate
  pub activate_fallback : Bool
  pub below_floor_policy : BelowFloorPolicy
  pub additional_review_required : Bool
  pub activation_reason : ActivationReason
  pub fallback_from_resource_id : Option String

pub data PlanStatus : Type 0 where
  plan_active plan_suspended plan_completed plan_cancelled : PlanStatus

abbrev pub is_plan_active : PlanStatus → Bool
is_plan_active plan_active = true
is_plan_active _ = false

-- fallback_policy.all_candidates_unavailable, and the action of a routing result.
pub data Action : Type 0 where
  selected await_reset await_user cancelled block invalid_plan invalid_request : Action

pub record Plan : Type 0 where
  pub resources : List Resource
  pub routing_rules : List RoutingRule
  pub protected_phases : List String
  pub all_candidates_unavailable : Action
  pub status : PlanStatus

abbrev pub or_this : String → Resource → Option Resource → Option Resource
or_this key r (some found) = some found
or_this key r none = if r.resource_id == key then some r else none

-- `{r.get("resource_id"): r for r in resources}.get(key)`: of two resources with one name the
-- later one counts.
unfoldable pub resource_by_id : String → List Resource → Option Resource
resource_by_id key [] = none
resource_by_id key (r ∷ rest) = or_this key r (resource_by_id key rest)

-- _routing_candidate_by_id
unfoldable pub routing_candidate_by_id : RoutingRule → Option String → Option Candidate
routing_candidate_by_id rule none = none
routing_candidate_by_id rule (some key) = first (λ c. c.resource_id == key) rule.candidates
