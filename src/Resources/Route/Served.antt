-- ===== src/Resources/Route/Served.antt =====
-- Which resources route_execution_resource of src/w1cip/validation.py never selects.
use w1_nexus.Prelude.{
  ℕ, ◌∙◌, ◌≡◌, ◌≢◌, sym, ap, String, Bool, true, Option, none, some, elem, pos_part, none-ne-some,
}
use w1_nexus.Resources.Plan.{Candidate, Resource, Plan, is_unusable, resource_by_id}
use w1_nexus.Resources.Route.{
  ResourceRoutingResult, Intent, quota_usable, usable, route_execution_resource,
}
use w1_nexus.Resources.Route.Choice.{route-Selection, accepted-name}

-- What serves a selected name: the resource that the plan has under it, with a usable quota.
pub route-resource :
    (plan : Plan) (i : Intent) (r : ResourceRoutingResult) (k : String)
    → route_execution_resource plan i ≡ some r
    → r.selected_resource_id ≡ some k
    → (c : Candidate) × (quota_usable
          (elem i.phase plan.protected_phases)
          (pos_part i.estimated_units)
          c
          (resource_by_id k plan.resources)
        ≡ true)
unfolding usable
route-resource plan i r k h e =
    let s = route-Selection plan i r h (λ n. none-ne-some (sym n ∙ e)) in
    let accepted = ap (λ (x : ResourceRoutingResult). x.selected_resource_id) (sym s.result) ∙ e in
    let name = accepted-name i s.rule s.chosen s.primary k accepted in
    (s.chosen, rw (← name, s.estimate) s.chosen_usable)

-- The resource under a name, if there is one, is of a kind that no candidate can use.
abbrev pub Unusable : Option Resource → Type 0
Unusable none = Unit
Unusable (some r) = is_unusable r.quota.status ≡ true

pub quota_usable-Unusable :
    (b : Bool) (n : ℕ) (c : Candidate) (o : Option Resource)
    → quota_usable b n c o ≡ true
    → ¬ Unusable o
unfolding quota_usable
quota_usable-Unusable b n c none h u = cc
quota_usable-Unusable b n c (some r) h u = cc (rw u at h)

pub route-Unusable :
    (plan : Plan) (i : Intent) (r : ResourceRoutingResult) (k : String)
    → route_execution_resource plan i ≡ some r
    → Unusable (resource_by_id k plan.resources)
    → r.selected_resource_id ≢ some k
route-Unusable plan i r k h u e =
    let (c, served) = route-resource plan i r k h e in
    quota_usable-Unusable _ _ c (resource_by_id k plan.resources) served u
