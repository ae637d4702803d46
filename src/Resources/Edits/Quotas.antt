-- ===== src/Resources/Edits/Quotas.antt =====
-- The quotas of a plan after _mark_resource_quota_exhausted and _consume_resource_units of
-- src/w1cip/orchestrator.py, against the rules of src/w1cip/validation.py for them.
use w1_nexus.Prelude.{
  ap, sym, subst, ◌∙◌, eq_iff, true-ne-false, leb, ◌==◌, ◌≤◌, ℕ, ◌≡◌, refl, String, Bool, true,
  false, ◌&&◌, Option, none, some, List, [], ◌∷◌, arith, any, elem, ℤ, append-nil_left,
  append-nil_right, Bool-cases, inl, inr, cons-ne-nil,
}
use w1_nexus.Resources.Plan.{Resource, Quota, Plan, is_available, is_exhausted, resource_by_id}
use w1_nexus.Resources.Semantics.{
  report, exceeds?, is_zero?, is_nonzero?, not_after, quota_errors, resource_errors,
}
use w1_nexus.Resources.Edits.Update.{resource_by_id-update, resource_by_id-update_ne, with_quota}
use w1_nexus.Resources.Edits.{
  ResetText, comparable, naive, mark_found, Moment, update_resource, exhaust, consume,
  consume_resource_units, mark_resource_quota_exhausted, marked,
}

-- A quota that breaks no rule.
record IsQuota (q : Quota) : Type 0 where
  within : exceeds? q.remaining_units q.limit_units ≡ false
  reserve : exceeds? (some q.reserved_units) q.limit_units ≡ false
  not_zero : (is_available q.status && is_zero? q.remaining_units) ≡ false
  is_spent : (is_exhausted q.status && is_nonzero? q.remaining_units) ≡ false
  ahead : not_after q.reset_at q.observed_at ≡ false

report-false : (b : Bool) (code : String) → report b code ≡ [] → b ≡ false
report-false true code h = absurd (cons-ne-nil h)
report-false false code h = refl

quota_errors-IsQuota : (q : Quota) → quota_errors q ≡ [] → IsQuota q
unfolding quota_errors
quota_errors-IsQuota q h =
    let h1 = append-nil_right _ _ h in
    let h2 = append-nil_right _ _ h1 in
    let h3 = append-nil_right _ _ h2 in
    record {
      within = report-false _ _ (append-nil_left _ _ h);
      reserve = report-false _ _ (append-nil_left _ _ h1);
      not_zero = report-false _ _ (append-nil_left _ _ h2);
      is_spent = report-false _ _ (append-nil_left _ _ h3);
      ahead = report-false _ _ (append-nil_right _ _ h3);
    }

IsQuota-quota_errors : (q : Quota) → IsQuota q → quota_errors q ≡ []
unfolding quota_errors
IsQuota-quota_errors q h = rw (h.within, h.reserve, h.not_zero, h.is_spent, h.ahead) refl

consume-IsQuota : (units : ℤ) (now : ℕ) (q : Quota) → IsQuota q → IsQuota (consume units now q)
unfolding consume
consume-IsQuota units now q h = record {
  within = ground (arith, h.within);
  reserve = ground (arith, h.reserve);
  not_zero = ground (arith, h.not_zero);
  is_spent = ground (arith, h.is_spent);
  ahead = ground (arith, h.ahead);
}

exhaust-IsQuota :
    (reset_at : Option Moment) (now : ℕ) (q : Quota) → IsQuota q → IsQuota (exhaust reset_at now q)
unfolding exhaust
exhaust-IsQuota reset_at now q h = record {
  within = ground (arith, h.within);
  reserve = ground (arith, h.reserve);
  not_zero = ground (arith, h.not_zero);
  is_spent = ground (arith, h.is_spent);
  ahead = ground (arith, h.ahead);
}

cons-errors :
    (seen : List String) (r : Resource) (rest : List Resource)
    → report (elem r.resource_id seen) "execution_resource_duplicate_resource_id" ≡ []
    → quota_errors r.quota ≡ []
    → resource_errors (r.resource_id ∷ seen) rest ≡ []
    → resource_errors seen (r ∷ rest) ≡ []
unfolding resource_errors
cons-errors seen r rest fresh quota later = rw (fresh, quota, later) refl

module _ (key : String) (f : Quota → Quota)
    (keeps : (q : Quota) → quota_errors q ≡ [] → quota_errors (f q) ≡ []) where
  update-resource_errors :
      (seen : List String) (rs : List Resource)
      → resource_errors seen rs ≡ []
      → resource_errors seen (update_resource key f rs) ≡ []
  unfolding resource_errors update_resource
  update-resource_errors seen [] h = refl
  update-resource_errors seen (r ∷ rs) h =
      let fresh =
        append-nil_left
          (report (elem r.resource_id seen) "execution_resource_duplicate_resource_id") _ h in
      let h1 =
        append-nil_right
          (report (elem r.resource_id seen) "execution_resource_duplicate_resource_id") _ h in
      let quota = append-nil_left (quota_errors r.quota) _ h1 in
      let later = append-nil_right (quota_errors r.quota) _ h1 in
      let rest = update-resource_errors (r.resource_id ∷ seen) rs later in
      elim (Bool-cases (any (λ q. q.resource_id == key) rs)) [
        | inl e ↦ rw e (cons-errors seen r (update_resource key f rs) fresh quota rest)
        | inr e ↦ elim (Bool-cases (r.resource_id == key)) [
          | inl g ↦
              rw (e, g)
                (cons-errors seen (record r { quota = f r.quota }) (update_resource key f rs) fresh
                  (keeps r.quota quota) rest)
          | inr g ↦ rw (e, g) (cons-errors seen r (update_resource key f rs) fresh quota rest)
        ]
      ]

marked-quotas :
    (plan : Plan) (key : String) (reset_at : Option Moment) (now : ℕ) (o : Option Resource)
    → resource_errors [] plan.resources ≡ []
    → resource_errors [] (marked plan key reset_at now o).resources ≡ []
marked-quotas plan key reset_at now none h = h
marked-quotas plan key reset_at now (some r) h =
    update-resource_errors key (exhaust reset_at now)
      (λ q clean.
        IsQuota-quota_errors (exhaust reset_at now q)
          (exhaust-IsQuota reset_at now q (quota_errors-IsQuota q clean)))
      [] plan.resources h

-- The resources of a plan, if there is one, pass validation.
abbrev pub AreQuotas : Option Plan → Type 0
AreQuotas none = Unit
AreQuotas (some plan) = resource_errors [] plan.resources ≡ []

mark_found-AreQuotas :
    (plan : Plan) (key : String) (now : ℕ) (o : Option Resource) (reset_at : Option ResetText)
    → resource_errors [] plan.resources ≡ []
    → AreQuotas (mark_found plan key now o reset_at)
mark_found-AreQuotas plan key now none reset_at h = h
mark_found-AreQuotas plan key now (some r) none h = marked-quotas plan key none now (some r) h
mark_found-AreQuotas plan key now (some r) (some (comparable t)) h =
    marked-quotas plan key (some t) now (some r) h
mark_found-AreQuotas plan key now (some r) (some naive) h = tt

-- A reset boundary stays as it is, or it has passed, is dropped, and is marked as stale.
pub data BoundaryStep (now : ℕ) (old new : Quota) : Type 0 where
  stays :
      new.reset_at ≡ old.reset_at
      → new.reset_timestamp_stale ≡ old.reset_timestamp_stale
      → BoundaryStep now old new
  passes :
      (t : ℕ)
      → old.reset_at ≡ some t
      → t ≤ now
      → new.reset_at ≡ none
      → new.reset_timestamp_stale ≡ true
      → BoundaryStep now old new

consume-BoundaryStep :
    (units : ℤ) (now : ℕ) (q : Quota) (remaining reset_at : Option ℕ)
    → q.remaining_units ≡ remaining
    → q.reset_at ≡ reset_at
    → BoundaryStep now q (consume units now q)
unfolding consume
consume-BoundaryStep units now q none reset_at e f = rw e (stays refl refl)
consume-BoundaryStep units now q (some n) none e f = rw (e, f) (stays refl refl)
consume-BoundaryStep units now q (some n) (some t) e f = elim (Bool-cases (leb t now)) [
  | inl g ↦ rw (e, f, g) (passes t refl (ground arith) refl refl)
  | inr g ↦ rw (e, f, g) (stays refl refl)
]

updated-BoundaryStep :
    (plan : Plan) (key k : String) (units : ℤ) (now : ℕ) (r : Resource)
    → resource_by_id k plan.resources ≡ some r
    → (q : Resource) × (resource_by_id k (consume_resource_units plan key units now).resources
        ≡ some q)
      × BoundaryStep now r.quota q.quota
unfolding consume_resource_units
updated-BoundaryStep plan key k units now r found = elim (Bool-cases (key == k)) [
  | inl e ↦
      let same = (eq_iff key k).0 e in
      (
        record r { quota = consume units now r.quota },
        subst
            (λ i.
              resource_by_id i (update_resource key (consume units now) plan.resources)
              ≡ some (record r { quota = consume units now r.quota }))
            same
            (resource_by_id-update key (consume units now) plan.resources
              ∙ ap (with_quota (consume units now))
                  (subst (λ i. resource_by_id i plan.resources ≡ some r) (sym same) found)),
        consume-BoundaryStep units now r.quota r.quota.remaining_units r.quota.reset_at refl refl,
      )
  | inr e ↦ (
    r,
    resource_by_id-update_ne key k (consume units now) plan.resources
          (λ h. true-ne-false (sym ((eq_iff key k).1 h) ∙ e))
        ∙ found,
    stays refl refl,
  )
]

-- A plan whose resources pass validation passes it again after a use of units and after a resource
-- is marked exhausted, at any time and with any reset that the provider reports, if marking it
-- returns: names stay unique, what remains stays within the limit and agrees with the status, and
-- no boundary stays that does not lie after the observation. A use of units drops the boundary of a
-- resource only if it has passed, and then marks it as stale.
pub quotas_kept :
    (plan : Plan) (key k : String) (units : ℤ) (reset_at : Option ResetText) (now : ℕ)
    (r : Resource)
    → resource_errors [] plan.resources ≡ []
    → resource_by_id k plan.resources ≡ some r
    → (resource_errors [] (consume_resource_units plan key units now).resources ≡ [])
      × AreQuotas (mark_resource_quota_exhausted plan key reset_at now)
      × ((q : Resource) × (resource_by_id k (consume_resource_units plan key units now).resources
            ≡ some q)
          × BoundaryStep now r.quota q.quota)
unfolding consume_resource_units mark_resource_quota_exhausted
quotas_kept plan key k units reset_at now r h found = (
  update-resource_errors key (consume units now)
      (λ q clean.
        IsQuota-quota_errors (consume units now q)
          (consume-IsQuota units now q (quota_errors-IsQuota q clean)))
      [] plan.resources h,
  mark_found-AreQuotas plan key now (resource_by_id key plan.resources) reset_at h,
  updated-BoundaryStep plan key k units now r found,
)
