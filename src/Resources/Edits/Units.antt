-- ===== src/Resources/Edits/Units.antt =====
-- The units that _consume_resource_units of src/w1cip/orchestrator.py takes off a quota, and the
-- reserve that routing keeps for the protected phases.
use w1_nexus.Prelude.{
  ℕ, ◌+◌, ◌-◌, ◌≤◌, ◌<◌, ◌≡◌, ap, ◌∙◌, String, true, false, Option, some, arith, elem, ℤ, pos,
  pos_part,
}
use w1_nexus.Resources.Plan.{Resource, Quota, Plan, Candidate, resource_by_id}
use w1_nexus.Resources.Route.{ResourceRoutingResult, Intent, quota_usable, route_execution_resource}
use w1_nexus.Resources.Route.Served.{route-resource}
use w1_nexus.Resources.Edits.Update.{with_quota, resource_by_id-update}
use w1_nexus.Resources.Edits.{consume, consume_resource_units}

consume-remaining :
    (units : ℤ) (now : ℕ) (q : Quota) (n : ℕ)
    → q.remaining_units ≡ some n
    → (consume units now q).remaining_units ≡ some (n - pos_part units)
unfolding consume
consume-remaining units now q n h = ground arith

served_units :
    (n : ℕ) (c : Candidate) (o : Option Resource)
    → quota_usable false n c o ≡ true
    → (r : Resource) → o ≡ some r
    → (m : ℕ) → r.quota.remaining_units ≡ some m
    → 0 < n
    → n + r.quota.reserved_units ≤ m
unfolding quota_usable
served_units n c o h r e m w p = ground arith

-- Work in a phase that is not protected leaves the reserve of the resource that serves it whole,
-- if the provider uses no more units than were estimated.
pub reserve_kept :
    (plan : Plan) (i : Intent) (r : ResourceRoutingResult) (k : String) (res : Resource) (m : ℕ)
    (n used now : ℕ)
    → route_execution_resource plan i ≡ some r
    → r.selected_resource_id ≡ some k
    → elem i.phase plan.protected_phases ≡ false
    → i.estimated_units ≡ pos n
    → 0 < n
    → resource_by_id k plan.resources ≡ some res
    → res.quota.remaining_units ≡ some m
    → used ≤ n
    → (left : ℕ) × (resource_by_id k (consume_resource_units plan k (pos used) now).resources
        ≡ some (record res { quota = consume (pos used) now res.quota }))
      × ((consume (pos used) now res.quota).remaining_units ≡ some left)
      × (left + used ≡ m)
      × (res.quota.reserved_units ≤ left)
unfolding consume_resource_units
reserve_kept plan i r k res m n used now h e unprotected estimate p found remaining fits =
    let (c, served) = route-resource plan i r k h e in
    let room = served_units n c _ (rw (unprotected, estimate) at served) res found m remaining p in
    (
      m - used,
      resource_by_id-update k _ plan.resources ∙ ap (with_quota (consume (pos used) now)) found,
      consume-remaining (pos used) now res.quota m remaining,
      omega arith,
      omega arith,
    )
