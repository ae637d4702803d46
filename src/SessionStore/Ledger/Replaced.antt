-- ===== src/SessionStore/Ledger/Replaced.antt =====
-- _replace_projection_locked of src/w1cip/session_store.py stores the projection of one session and
-- leaves those of the others.
use w1_nexus.Prelude.{
  ◌≡◌, ◌≢◌, refl, ap, ◌∙◌, sym, subst, String, Bool, true, ◌&&◌, List, [], ◌∷◌, map, arith, ◌==◌,
  all, select, ◌⊎◌, inl, inr,
}
use w1_nexus.SessionStore.Types.{
  Projection, EntityVersionRow, LatestRow, EffectRow, Store, StoreError, Result, ok, err, key_eq,
}
use w1_nexus.SessionStore.Platform.{Platform, Replay, is_protocol_event, has_key}
use w1_nexus.SessionStore.Projections.{
  events_of, version_rows, latest_rows, effect_rows, replace_projection,
}
use w1_nexus.SessionStore.Integrity.{stored_active, same_entries}
use w1_nexus.SessionStore.Ledger.{IsProjected}
use w1_nexus.SessionStore.Ledger.Tables.{
  ok-inj, of, replaced, active_keys, of-replaced, of-replaced_ne, version_rows_lem, latest_rows_lem,
  effect_rows_lem,
}
use w1_nexus.SessionStore.Ledger.Effects.{marked-same_entries}

pub Result-cases {ℓ} :
    {A : Type ℓ} (m : Result A) → ((e : StoreError) × (m ≡ err e)) ⊎ ((a : A) × (m ≡ ok a))
Result-cases (ok a) = inr (a, refl)
Result-cases (err e) = inl (e, refl)

pub err-ne-ok {ℓ} : {A : Type ℓ} {e : StoreError} {a : A} → err e ≡ ok a → ⊥
err-ne-ok h = cc

select-and {ℓ} :
    {A : Type ℓ} (f g : A → Bool) (xs : List A)
    → select (λ x. f x && g x) xs ≡ select g (select f xs)
select-and f g [] = refl
select-and f g (x ∷ xs) = ground (arith, select-and f g xs)

abbrev version_name : EntityVersionRow → String
version_name r = r.session_id

abbrev latest_name : LatestRow → String
latest_name r = r.session_id

abbrev effect_name : EffectRow → String
effect_name r = r.session_id

-- The stored projection of a session is the same in two stores.
pub record SameTables {T : Type 0} (j : String) (s s' : Store T) : Type 0 where
  pub versions : of version_name j s'.entity_versions ≡ of version_name j s.entity_versions
  pub latest : of latest_name j s'.latest_entities ≡ of latest_name j s.latest_entities
  pub effects : of effect_name j s'.protocol_effects ≡ of effect_name j s.protocol_effects

module _ (p : Platform) (replay : Replay) where
  active_lem :
      (j : String) (s : Store p.Text)
      → stored_active p j s ≡ active_keys (of effect_name j s.protocol_effects)
  active_lem j s =
      ap (map _) (select-and (λ r. r.session_id == j) (λ r. r.active) s.protocol_effects)

  pub IsProjected-same :
      (j : String) (s s' : Store p.Text) (projection : Projection)
      → SameTables j s s'
      → IsProjected p replay j s projection
      → IsProjected p replay j s' projection
  IsProjected-same j s s' projection same h = record {
    latest = ap (map (λ r. (r.key, r.entity_version))) same.latest ∙ h.latest;
    records = ap (map (λ r. (r.key, r.record_json))) same.versions ∙ h.records;
    active =
        subst (λ l. same_entries key_eq l projection.active_protocol_events ≡ true)
          (active_lem j s ∙ (ap active_keys (sym same.effects) ∙ sym (active_lem j s'))) h.active;
  }

  -- A successful replacement: what it stores, and what it leaves.
  pub record Replaced (k : String) (projection : Projection) (s s' : Store p.Text) : Type 0 where
    pub events : s'.events ≡ s.events
    pub sessions : s'.sessions ≡ s.sessions
    pub own : IsProjected p replay k s' projection
    pub other : (j : String) → k ≢ j → SameTables j s s'

  abbrev stored :
      String → Projection → Store p.Text → List EntityVersionRow → List EffectRow → Store p.Text
  stored k projection s vs fs = record s {
    entity_versions = replaced version_name k s.entity_versions vs;
    latest_entities =
        replaced latest_name k s.latest_entities (latest_rows k projection.latest_versions);
    protocol_effects = replaced effect_name k s.protocol_effects fs;
  }

  stored-Replaced :
      (k : String) (projection : Projection) (s : Store p.Text) (vs : List EntityVersionRow)
      (fs : List EffectRow)
      → all
          (λ key. is_protocol_event key && has_key key projection.records)
          projection.active_protocol_events
        ≡ true
      → version_rows (events_of k s.events) k projection.records ≡ ok vs
      → effect_rows k projection.active_protocol_events
          (select (λ entry. is_protocol_event entry.0) projection.records)
        ≡ ok fs
      → Replaced k projection s (stored k projection s vs fs)
  stored-Replaced k projection s vs fs listed hv hf =
      let (v_own, v_same, v_other) =
        version_rows_lem (events_of k s.events) k projection.records vs hv in
      let (l_own, l_same, l_other) = latest_rows_lem k projection.latest_versions in
      let (f_own, f_same, f_other) = effect_rows_lem k projection.active_protocol_events _ fs hf in
      record {
        events = refl;
        sessions = refl;
        own = record {
          latest = ap (map _) (of-replaced latest_name k s.latest_entities _ ∙ l_own) ∙ l_same;
          records = ap (map _) (of-replaced version_name k s.entity_versions vs ∙ v_own) ∙ v_same;
          active =
              subst (λ l. same_entries key_eq l projection.active_protocol_events ≡ true)
                (sym (
                  active_lem k (stored k projection s vs fs)
                  ∙ (ap active_keys (of-replaced effect_name k s.protocol_effects fs ∙ f_own)
                      ∙ f_same)))
                (marked-same_entries projection.active_protocol_events projection.records listed);
        };
        other = λ j ne. record {
          versions = of-replaced_ne version_name k j ne s.entity_versions vs (v_other j ne);
          latest = of-replaced_ne latest_name k j ne s.latest_entities _ (l_other j ne);
          effects = of-replaced_ne effect_name k j ne s.protocol_effects fs (f_other j ne);
        };
      }

  pub replace-Replaced :
      (k : String) (projection : Projection) (s s' : Store p.Text)
      → all
          (λ key. is_protocol_event key && has_key key projection.records)
          projection.active_protocol_events
        ≡ true
      → replace_projection k projection s ≡ ok s'
      → Replaced k projection s s'
  unfolding replace_projection
  replace-Replaced k projection s s' listed h =
      elim (Result-cases (version_rows (events_of k s.events) k projection.records)) [
        | inl (e, f) ↦ absurd (err-ne-ok (rw f at h))
        | inr (vs, f) ↦
            elim (Result-cases (
              effect_rows k projection.active_protocol_events
                (select (λ entry. is_protocol_event entry.0) projection.records))) [
                  | inl (e, g) ↦ absurd (err-ne-ok (rw g at (rw f at h)))
                  | inr (fs, g) ↦
                      subst (Replaced k projection s) (ok-inj (rw g at (rw f at h)))
                        (stored-Replaced k projection s vs fs listed f g)
                ]
      ]
