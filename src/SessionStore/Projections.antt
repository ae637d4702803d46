-- ===== src/SessionStore/Projections.antt =====
-- _replace_projection_locked, _load_envelopes_locked and the readers of src/w1cip/session_store.py.
use w1_nexus.Prelude.{
  ℕ, String, Bool, not, Option, none, some, List, [], ◌∷◌, ◌++◌, leb, ◌==◌, any, select, first,
  if◌then◌else◌,
}
use w1_nexus.SessionStore.Types.{
  Envelope, EntityKey, EntityVersionKey, EntityRecord, Projection, SessionRow, EventRow,
  EntityVersionRow, LatestRow, EffectRow, Store, Result, ok, err, integrity, json_decode_error,
  constraint_failed, ◌>>=◌, key_eq,
}
use w1_nexus.SessionStore.Platform.{Platform, is_protocol_event}

module _ {T : Type 0} where
  -- WHERE session_id = ?
  abbrev pub events_of : String → List (EventRow T) → List (EventRow T)
  events_of k = select (λ r. r.session_id == k)

  -- ORDER BY sequence
  unfoldable pub insert_by_sequence : EventRow T → List (EventRow T) → List (EventRow T)
  insert_by_sequence r [] = r ∷ []
  insert_by_sequence r (s ∷ rest) =
      if leb r.sequence s.sequence then r ∷ s ∷ rest else s ∷ insert_by_sequence r rest

  unfoldable pub order_by_sequence : List (EventRow T) → List (EventRow T)
  unfolding insert_by_sequence
  order_by_sequence [] = []
  order_by_sequence (r ∷ rest) = insert_by_sequence r (order_by_sequence rest)

  abbrev pub session_row : String → Store T → Option SessionRow
  session_row k s = first (λ r. r.session_id == k) s.sessions

  -- `sequence_by_message.get(message_id)`
  abbrev pub sequence_of : List (EventRow T) → Option String → Option ℕ
  sequence_of rows none = none
  sequence_of rows (some m) = elim (first (λ r. r.message_id == m) rows) [
    | none ↦ none
    | some r ↦ some r.sequence
  ]

abbrev pub version_row :
    String → EntityVersionKey → EntityRecord → Option ℕ → Result EntityVersionRow
version_row k key entity none = err (integrity ("projection_creator_event_missing" ∷ []))
version_row k key entity (some n) = ok (record {
  session_id = k;
  key = key;
  sequence = n;
  message_id = entity.created_by_event_id;
  record_json = entity;
})

module _ {T : Type 0} (rows : List (EventRow T)) (k : String) where
  unfoldable pub version_rows :
      List (EntityVersionKey × EntityRecord) → Result (List EntityVersionRow)
  version_rows [] = ok []
  version_rows ((key, entity) ∷ rest) = do
    row ← version_row k key entity (sequence_of rows entity.created_by_event_id)
    more ← version_rows rest
    ok (row ∷ more)

unfoldable pub latest_rows : String → List (EntityKey × ℕ) → List LatestRow
latest_rows k [] = []
latest_rows k ((key, version) ∷ rest) =
    record { session_id = k; key = key; entity_version = version } ∷ latest_rows k rest

-- `event_type TEXT NOT NULL`
abbrev pub effect_row :
    String → Bool → EntityVersionKey → EntityRecord → Option String → Result EffectRow
effect_row k active key entity none = err constraint_failed
effect_row k active key entity (some event_type) = ok (record {
  session_id = k;
  key = key;
  event_type = event_type;
  subject_type = entity.subject_type;
  subject_id = entity.subject_id;
  active = active;
  record_json = entity;
})

unfoldable pub effect_rows :
    String
    → List EntityVersionKey
    → List (EntityVersionKey × EntityRecord)
    → Result (List EffectRow)
effect_rows k active [] = ok []
effect_rows k active ((key, entity) ∷ rest) = do
  row ← effect_row k (any (key_eq key) active) key entity entity.event_type
  more ← effect_rows k active rest
  ok (row ∷ more)

module _ {T : Type 0} where
  -- _replace_projection_locked: the tables are keyed, so the order of the inserts does not show.
  unfoldable pub replace_projection : String → Projection → Store T → Result (Store T)
  unfolding version_rows latest_rows effect_rows
  replace_projection k projection s = do
    versions ← version_rows (events_of k s.events) k projection.records
    effects ←
        effect_rows k projection.active_protocol_events
          (select (λ entry. is_protocol_event entry.0) projection.records)
    ok (record s {
      entity_versions = select (λ r. not (r.session_id == k)) s.entity_versions ++ versions;
      latest_entities =
          select (λ r. not (r.session_id == k)) s.latest_entities
          ++ latest_rows k projection.latest_versions;
      protocol_effects = select (λ r. not (r.session_id == k)) s.protocol_effects ++ effects;
    })

module _ (p : Platform) where
  open p use {Text, loads}

  abbrev pub decoded : Option Envelope → Result Envelope
  decoded none = err json_decode_error
  decoded (some e) = ok e

  unfoldable pub decode_rows : List (EventRow Text) → Result (List Envelope)
  decode_rows [] = ok []
  decode_rows (r ∷ rest) = do
    e ← decoded (loads r.envelope_json)
    es ← decode_rows rest
    ok (e ∷ es)

  -- _load_envelopes_locked
  unfoldable pub load_envelopes : String → Store Text → Result (List Envelope)
  unfolding decode_rows order_by_sequence
  load_envelopes k s = decode_rows (order_by_sequence (events_of k s.events))
