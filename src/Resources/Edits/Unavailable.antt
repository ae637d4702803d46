-- ===== src/Resources/Edits/Unavailable.antt =====
-- What routing makes of a plan after _plan_with_unavailable_resources and
-- _mark_resource_quota_exhausted of src/w1cip/orchestrator.py.
use w1_nexus.Prelude.{
  subst, ℕ, ◌≡◌, ap, sym, ◌∙◌, ◌≢◌, refl, String, true, Option, none, some, List, [], ◌∷◌, map,
  arith, elem, ◌==◌, eq_iff, Bool-cases, true-ne-false, inl, inr,
}
use w1_nexus.Resources.Plan.{Resource, Quota, Plan, is_unusable, or_this, resource_by_id}
use w1_nexus.Resources.Route.{ResourceRoutingResult, Intent, route_execution_resource}
use w1_nexus.Resources.Route.Served.{Unusable, route-Unusable}
use w1_nexus.Resources.Edits.Update.{mark_found-marked, with_quota, resource_by_id-update}
use w1_nexus.Resources.Edits.{
  hide, marked, Moment, ResetText, exhaust, plan_with_unavailable_resources,
  mark_resource_quota_exhausted,
}

or_this-Unusable :
    (k : String) (r : Resource) (o : Option Resource)
    → Unusable o
    → ((r.resource_id == k) ≡ true → is_unusable r.quota.status ≡ true)
    → Unusable (or_this k r o)
or_this-Unusable k r (some x) h f = h
or_this-Unusable k r none h f = elim (Bool-cases (r.resource_id == k)) [
  | inl e ↦ rw e (f e)
  | inr e ↦ rw e tt
]

hide_status :
    (U : List String) (k : String) (r : Resource)
    → elem k U ≡ true
    → ((hide U r).resource_id == k) ≡ true
    → is_unusable (hide U r).quota.status ≡ true
hide_status U k r h e = elim (Bool-cases (elem r.resource_id U)) [
  | inl m ↦ rw m refl
  | inr m ↦
      let same : r.resource_id ≡ k = (eq_iff r.resource_id k).0 (rw m at e) in
      absurd (true-ne-false (sym h ∙ ap (λ x. elem x U) (sym same) ∙ m))
]

hide-Unusable :
    (U : List String) (k : String) (rs : List Resource)
    → elem k U ≡ true
    → Unusable (resource_by_id k (map (hide U) rs))
unfolding resource_by_id
hide-Unusable U k [] h = tt
hide-Unusable U k (r ∷ rs) h =
    or_this-Unusable k (hide U r) _ (hide-Unusable U k rs h) (hide_status U k r h)

-- A resource that a task has found unavailable is not selected again for that task.
pub route_avoids_unavailable :
    (plan : Plan) (unavailable : List String) (i : Intent) (r : ResourceRoutingResult) (k : String)
    → route_execution_resource (plan_with_unavailable_resources plan unavailable) i ≡ some r
    → elem k unavailable ≡ true
    → r.selected_resource_id ≢ some k
unfolding plan_with_unavailable_resources
route_avoids_unavailable plan unavailable i r k h m =
    route-Unusable _ i r k h (hide-Unusable unavailable k plan.resources m)

exhaust-unusable :
    (reset_at : Option Moment) (now : ℕ) (q : Quota)
    → is_unusable (exhaust reset_at now q).status ≡ true
unfolding exhaust
exhaust-unusable reset_at now q = ground arith

mapped-Unusable :
    (f : Quota → Quota) (o : Option Resource)
    → ((q : Quota) → is_unusable (f q).status ≡ true)
    → Unusable (with_quota f o)
mapped-Unusable f none h = tt
mapped-Unusable f (some r) h = h r.quota

marked-Unusable :
    (plan : Plan) (k : String) (reset_at : Option Moment) (now : ℕ) (o : Option Resource)
    → resource_by_id k plan.resources ≡ o
    → Unusable (resource_by_id k (marked plan k reset_at now o).resources)
marked-Unusable plan k reset_at now none e = rw e tt
marked-Unusable plan k reset_at now (some r) e =
    rw resource_by_id-update
      (mapped-Unusable (exhaust reset_at now) _ (exhaust-unusable reset_at now))

-- After a provider has reported that the quota of a resource is exhausted, routing by the plan that
-- marking it returns does not select that resource, whatever reset boundary came with the report.
pub route_avoids_exhausted :
    (plan marked_plan : Plan) (k : String) (reset_at : Option ResetText) (now : ℕ) (i : Intent)
    (r : ResourceRoutingResult)
    → mark_resource_quota_exhausted plan k reset_at now ≡ some marked_plan
    → route_execution_resource marked_plan i ≡ some r
    → r.selected_resource_id ≢ some k
unfolding mark_resource_quota_exhausted
route_avoids_exhausted plan marked_plan k reset_at now i r marks h =
    let o = resource_by_id k plan.resources in
    let (t, same) = mark_found-marked plan marked_plan k now o reset_at marks in
    route-Unusable marked_plan i r k h (
      subst (λ q. Unusable (resource_by_id k q.resources)) same
        (marked-Unusable plan k t now o refl))
