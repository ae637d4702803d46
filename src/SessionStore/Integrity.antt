-- ===== src/SessionStore/Integrity.antt =====
-- SessionStore.verify_integrity, rebuild_projections and replay of src/w1cip/session_store.py.
use w1_nexus.Prelude.{
  ℕ, suc, String, Bool, true, false, not, ◌&&◌, Option, none, some, List, [], ◌∷◌, ◌++◌, map, eqb,
  ◌==◌, elem, all, any, length, select, option_eq, if◌then◌else◌,
}
use w1_nexus.SessionStore.Types.{
  SequenceValue, no_sequence, null_sequence, sequence_number, other_sequence, Envelope, EntityKey,
  EntityVersionKey, EntityRecord, Projection, SessionRow, EventRow, Store, integrity,
  session_not_found, Result, ok, err, ◌>>=◌, ◌>>◌, guard, key_eq, record_eq,
}
use w1_nexus.SessionStore.Platform.{Platform, Replay, genesis_hash, chained_event_hash}
use w1_nexus.SessionStore.Projections.{
  session_row, events_of, order_by_sequence, load_envelopes, replace_projection,
}

abbrev pub report : Bool → String → List String
report test code = if test then code ∷ [] else []

abbrev pub is_number : SequenceValue → ℕ → Bool
is_number no_sequence n = false
is_number null_sequence n = false
is_number (sequence_number m) n = eqb m n
is_number (other_sequence x) n = false

-- Two dicts with the same entries, each given by its list of entries.
abbrev pub same_entries {ℓ} : {A : Type ℓ} → (A → A → Bool) → List A → List A → Bool
same_entries eq xs ys = all (λ x. any (eq x) ys) xs && all (λ y. any (eq y) xs) ys

abbrev pub latest_eq : EntityKey × ℕ → EntityKey × ℕ → Bool
latest_eq (a, m) (b, n) = a.entity_type == b.entity_type && (a.entity_id == b.entity_id && eqb m n)

abbrev pub entry_eq : EntityVersionKey × EntityRecord → EntityVersionKey × EntityRecord → Bool
entry_eq (a, r) (b, s) = key_eq a b && record_eq r s

abbrev pub is_nil {ℓ} : {A : Type ℓ} → List A → Bool
is_nil [] = true
is_nil (x ∷ xs) = false

-- `dict.fromkeys(errors)`: each code once, in the order of the first occurrences.
unfoldable pub unique : List String → List String → List String
unique seen [] = []
unique seen (x ∷ xs) =
    let rest = unique (x ∷ seen) xs in
    let same = unique seen xs in if elem x seen then same else x ∷ rest

pub record IntegrityReport : Type 0 where
  pub valid : Bool
  pub errors : List String
  pub last_sequence : ℕ
  pub last_event_hash : String

module _ (p : Platform) where
  open p use {Text, loads}

  -- The codes for one row whose text is JSON.
  abbrev pub row_errors : ℕ → String → EventRow Text → Envelope → String → List String
  row_errors expected previous r e computed =
      report (not (is_number e.sequence expected)) "session_store_envelope_sequence_mismatch"
      ++ (report (not (option_eq e.message_id (some r.message_id)))
            "session_store_message_id_mismatch"
          ++ report (not (computed == r.event_hash)) "session_store_event_hash_mismatch")

  abbrev pub link_errors : ℕ → String → EventRow Text → List String
  link_errors expected previous r =
      report (not (eqb r.sequence expected)) "session_store_sequence_gap"
      ++ report (not (r.previous_hash == previous)) "session_store_previous_hash_mismatch"

  -- The errors, the envelopes and the last hash of the loop over the rows.
  abbrev pub Checked : Type 0
  Checked = List String × List Envelope × String

  abbrev pub prepend : List String → List Envelope → Checked → Checked
  prepend errors es (more, rest, hash) = (errors ++ more, es ++ rest, hash)

  unfoldable pub check_rows : ℕ → String → List (EventRow Text) → Result Checked
  check_rows expected previous [] = ok ([], [], previous)
  check_rows expected previous (r ∷ rest) = elim (loads r.envelope_json) [
    | none ↦ do
      more ← check_rows (suc expected) previous rest
      ok (
          prepend (link_errors expected previous r ++ "session_store_invalid_envelope_json" ∷ []) []
            more)
    | some e ↦ do
      computed ← chained_event_hash p previous e
      more ← check_rows (suc expected) r.event_hash rest
      ok (
          prepend (link_errors expected previous r ++ row_errors expected previous r e computed)
            (e ∷ []) more)
  ]

  abbrev pub stored_latest : String → Store Text → List (EntityKey × ℕ)
  stored_latest k s =
      map (λ r. (r.key, r.entity_version)) (select (λ r. r.session_id == k) s.latest_entities)

  abbrev pub stored_records : String → Store Text → List (EntityVersionKey × EntityRecord)
  stored_records k s =
      map (λ r. (r.key, r.record_json)) (select (λ r. r.session_id == k) s.entity_versions)

  abbrev pub stored_active : String → Store Text → List EntityVersionKey
  stored_active k s =
      map (λ r. record r.key { entity_type = "protocol_event" })
        (select (λ r. r.session_id == k && r.active) s.protocol_effects)

  unfoldable pub projection_errors : String → Store Text → Projection → List String
  projection_errors k s projection =
      report (not (same_entries latest_eq (stored_latest k s) projection.latest_versions))
        "session_store_latest_projection_mismatch"
      ++ (report (not (same_entries entry_eq (stored_records k s) projection.records))
            "session_store_entity_projection_mismatch"
          ++ report
              (not (same_entries key_eq (stored_active k s) projection.active_protocol_events))
              "session_store_effect_projection_mismatch")

  module _ (replay : Replay) where
    open replay use {validate}

    -- The projections are compared only if the replay has no errors.
    abbrev pub replay_checks : String → Store Text → Projection × List String → List String
    replay_checks k s (projection, []) = projection_errors k s projection
    replay_checks k s (projection, e ∷ errors) = e ∷ errors

    abbrev pub head_errors : SessionRow → ℕ → String → List String
    head_errors session count hash =
        report (not (eqb session.last_sequence count)) "session_store_head_sequence_mismatch"
        ++ report (not (session.last_event_hash == hash)) "session_store_head_hash_mismatch"

    abbrev pub verify_session : String → Store Text → Option SessionRow → Result IntegrityReport
    verify_session k s none = err session_not_found
    verify_session k s (some session) = do
      let rows = order_by_sequence (events_of k s.events)
      (errors, envelopes, hash) ← check_rows 1 genesis_hash rows
      let unique_errors = unique [] (
          errors
          ++ (head_errors session (length rows) hash ++ replay_checks k s (validate envelopes)))
      ok (record {
        valid = is_nil unique_errors;
        errors = unique_errors;
        last_sequence = length rows;
        last_event_hash = hash;
      })

    unfoldable pub verify_integrity : String → Store Text → Result IntegrityReport
    unfolding check_rows projection_errors order_by_sequence unique
    verify_integrity k s = verify_session k s (session_row k s)

    -- rebuild_projections
    unfoldable pub rebuild_projections : String → Store Text → Result (Projection × Store Text)
    rebuild_projections k s = elim (session_row k s) [
      | none ↦ err session_not_found
      | some session ↦ do
        envelopes ← load_envelopes p k s
        let (projection, errors) = validate envelopes
        guard (is_nil errors) (integrity errors)
        rebuilt ← replace_projection k projection s
        ok (projection, rebuilt)
    ]
