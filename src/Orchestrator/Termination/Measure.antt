-- ===== src/Orchestrator/Termination/Measure.antt =====
-- The resources of a plan that a task of src/w1cip/orchestrator.py has not found unavailable.
use w1_nexus.Prelude.{
  subst, ℕ, suc, ◌≤◌, ◌≡◌, refl, sym, ◌∙◌, String, Bool, true, false, not, Option, none, some, List,
  [], ◌∷◌, map, arith, length, select, elem, any, ◌==◌, eq_iff, Bool-cases, inl, inr,
}
use w1_nexus.Resources.Plan.{Plan, Resource, Candidate, Quota, resource_by_id}
use w1_nexus.Resources.Route.{ResourceRoutingResult, Intent, route_execution_resource, quota_usable}
use w1_nexus.Resources.Route.Served.{route-resource}
use w1_nexus.Resources.Edits.{
  hide, Moment, ResetText, update_resource, marked, mark_resource_quota_exhausted,
  plan_with_unavailable_resources, exhaust,
}
use w1_nexus.Resources.Edits.Update.{mark_found-marked, is_found, found_lem}
use w1_nexus.Resources.Edits.Unavailable.{route_avoids_unavailable}

abbrev pub open_resources : List Resource → List String → ℕ
open_resources rs unavailable = length (select (λ r. not (elem r.resource_id unavailable)) rs)

pub open_resources-without_le :
    (k : String) (U : List String) (rs : List Resource)
    → open_resources rs (k ∷ U) ≤ open_resources rs U
open_resources-without_le k U [] = omega arith
open_resources-without_le k U (r ∷ rs) = ground (arith, open_resources-without_le k U rs)

pub open_resources_le_length :
    (U : List String) (rs : List Resource) → open_resources rs U ≤ length rs
open_resources_le_length U [] = omega arith
open_resources_le_length U (r ∷ rs) = ground (arith, open_resources_le_length U rs)

-- A name of the plan that was not given up is one less.
pub open_resources-without :
    (k : String) (U : List String) (rs : List Resource)
    → elem k U ≡ false
    → any (λ r. r.resource_id == k) rs ≡ true
    → suc (open_resources rs (k ∷ U)) ≤ open_resources rs U
open_resources-without k U [] h e = ground arith
open_resources-without k U (r ∷ rs) h e = elim (Bool-cases (r.resource_id == k)) [
  | inl f ↦
      let same : r.resource_id ≡ k = (eq_iff r.resource_id k).0 f in
      rw (same, (eq_iff k k).1 refl, h) (ground (arith, open_resources-without_le k U rs))
  | inr f ↦
      let rest = open_resources-without k U rs h (rw f at e) in
      ground (arith, rest, eq_iff k r.resource_id, eq_iff r.resource_id k)
]

open_resources-update :
    (k : String) (f : Quota → Quota) (U : List String) (rs : List Resource)
    → open_resources (update_resource k f rs) U ≡ open_resources rs U
unfolding update_resource
open_resources-update k f U [] = refl
open_resources-update k f U (r ∷ rs) = ground (arith, open_resources-update k f U rs)

marked_lem :
    (plan : Plan) (k : String) (reset_at : Option Moment) (now : ℕ) (o : Option Resource)
    (U : List String)
    → open_resources (marked plan k reset_at now o).resources U ≡ open_resources plan.resources U
marked_lem plan k reset_at now none U = refl
marked_lem plan k reset_at now (some r) U =
    open_resources-update k (exhaust reset_at now) U plan.resources

pub open_resources-mark :
    (plan plan' : Plan) (k : String) (reset_at : Option ResetText) (now : ℕ) (U : List String)
    → mark_resource_quota_exhausted plan k reset_at now ≡ some plan'
    → open_resources plan'.resources U ≡ open_resources plan.resources U
unfolding mark_resource_quota_exhausted
open_resources-mark plan plan' k reset_at now U h =
    let o = resource_by_id k plan.resources in
    let (t, same) = mark_found-marked plan plan' k now o reset_at h in
    subst (λ q. open_resources q.resources U ≡ open_resources plan.resources U) same
      (marked_lem plan k t now o U)

usable-found :
    (b : Bool) (n : ℕ) (c : Candidate) (o : Option Resource)
    → quota_usable b n c o ≡ true
    → is_found o ≡ true
unfolding quota_usable
usable-found b n c none h = h
usable-found b n c (some r) h = refl

any-hide :
    (k : String) (U : List String) (rs : List Resource)
    → any (λ r. r.resource_id == k) (map (hide U) rs) ≡ any (λ r. r.resource_id == k) rs
any-hide k U [] = refl
any-hide k U (r ∷ rs) = ground (arith, any-hide k U rs)

selected-found :
    (plan : Plan) (i : Intent) (r : ResourceRoutingResult) (k : String)
    → route_execution_resource plan i ≡ some r
    → r.selected_resource_id ≡ some k
    → any (λ x. x.resource_id == k) plan.resources ≡ true
selected-found plan i r k h e =
    let (c, served) = route-resource plan i r k h e in
    found_lem k plan.resources ∙ usable-found _ _ c (resource_by_id k plan.resources) served

-- A resource that is routed to is one of the plan that was not given up, so that giving it up
-- leaves fewer.
pub selected-open :
    (plan : Plan) (U : List String) (i : Intent) (r : ResourceRoutingResult) (k : String)
    → route_execution_resource (plan_with_unavailable_resources plan U) i ≡ some r
    → r.selected_resource_id ≡ some k
    → suc (open_resources plan.resources (k ∷ U)) ≤ open_resources plan.resources U
unfolding plan_with_unavailable_resources
selected-open plan U i r k h e = elim (Bool-cases (elem k U)) [
  | inl m ↦ absurd (route_avoids_unavailable plan U i r k h m e)
  | inr m ↦
      open_resources-without k U plan.resources m
        (sym (any-hide k U plan.resources) ∙ selected-found _ i r k h e)
]
