-- ===== src/Resources/Edits/Update.antt =====
-- The update of a resource by name in src/w1cip/orchestrator.py: it changes the quota of the
-- resource that the name stands for, and of no other.
use w1_nexus.Prelude.{
  ◌≡◌, ◌≢◌, refl, String, Bool, true, false, Option, none, some, some-inj, ℕ, List, [], ◌∷◌, arith,
  any, ◌==◌, eq_iff,
}
use w1_nexus.Resources.Plan.{Plan, Resource, Quota, resource_by_id}
use w1_nexus.Resources.Edits.{
  update_resource, Moment, ResetText, comparable, naive, marked, mark_found,
}

abbrev pub with_quota : (Quota → Quota) → Option Resource → Option Resource
with_quota f none = none
with_quota f (some r) = some (record r { quota = f r.quota })

abbrev pub is_found : Option Resource → Bool
is_found none = false
is_found (some r) = true

pub found_lem :
    (k : String) (rs : List Resource)
    → any (λ r. r.resource_id == k) rs ≡ is_found (resource_by_id k rs)
unfolding resource_by_id
found_lem k [] = refl
found_lem k (r ∷ rs) = ground (arith, found_lem k rs)

-- The name stands for the updated resource.
pub resource_by_id-update :
    (k : String) (f : Quota → Quota) (rs : List Resource)
    → resource_by_id k (update_resource k f rs) ≡ with_quota f (resource_by_id k rs)
unfolding resource_by_id update_resource
resource_by_id-update k f [] = refl
resource_by_id-update k f (r ∷ rs) =
    ground (arith, found_lem k rs, resource_by_id-update k f rs, eq_iff r.resource_id k)

-- Another name stands for what it stood for.
pub resource_by_id-update_ne :
    (k j : String) (f : Quota → Quota) (rs : List Resource)
    → k ≢ j
    → resource_by_id j (update_resource k f rs) ≡ resource_by_id j rs
unfolding resource_by_id update_resource
resource_by_id-update_ne k j f [] h = refl
resource_by_id-update_ne k j f (r ∷ rs) h = ground (
  arith,
  resource_by_id-update_ne k j f rs h,
  eq_iff r.resource_id k,
  eq_iff r.resource_id j,
  eq_iff k j,
)

-- A marked plan comes from a reset text that can be dealt with.
pub mark_found-marked :
    (plan plan' : Plan) (k : String) (now : ℕ) (o : Option Resource) (reset_at : Option ResetText)
    → mark_found plan k now o reset_at ≡ some plan'
    → (t : Option Moment) × (marked plan k t now o ≡ plan')
mark_found-marked plan plan' k now none reset_at h = (none, some-inj h)
mark_found-marked plan plan' k now (some r) none h = (none, some-inj h)
mark_found-marked plan plan' k now (some r) (some (comparable t)) h = (some t, some-inj h)
mark_found-marked plan plan' k now (some r) (some naive) h = cc
