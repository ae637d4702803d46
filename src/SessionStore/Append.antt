-- ===== src/SessionStore/Append.antt =====
-- SessionStore.append and append_many of src/w1cip/session_store.py. A method that raises has rolled
-- its transaction back, so an error carries no store.
use w1_nexus.Prelude.{
  ℕ, ◌+◌, String, Bool, true, false, not, ◌&&◌, Option, none, some, List, [], ◌∷◌, ◌++◌, map, eqb,
  ◌==◌, any, first, if◌then◌else◌,
}
use w1_nexus.SessionStore.Types.{
  SequenceValue, no_sequence, null_sequence, sequence_number, other_sequence, Envelope, Projection,
  SessionRow, EventRow, Store, validation, duplicate_message_conflict, sequence_conflict,
  constraint_failed, Result, ok, err, ◌>>=◌, ◌>>◌, guard, AppendResult,
}
use w1_nexus.SessionStore.Platform.{
  Platform, Replay, genesis_hash, chained_event_hash, structural_errors,
}
use w1_nexus.SessionStore.Projections.{session_row, decoded, load_envelopes, replace_projection}

-- `if not isinstance(x, str) or not x: raise StoreValidationError([code])`
abbrev pub required : Option String → String → Result String
required none code = err (validation (code ∷ []))
required (some x) code = if x == "" then err (validation (code ∷ [])) else ok x

abbrev pub is_event : Option String → Bool
is_event none = false
is_event (some kind) = kind == "event"

abbrev pub is_nil {ℓ} : {A : Type ℓ} → List A → Bool
is_nil [] = true
is_nil (x ∷ xs) = false

-- `expected_last_sequence is not None and last_sequence != expected_last_sequence` raises.
abbrev pub expected_ok : Option ℕ → ℕ → Bool
expected_ok none last = true
expected_ok (some n) last = eqb last n

-- The sequence that is supplied must be the next one; a missing one is assigned if that is asked for.
abbrev pub assigned : Envelope → ℕ → SequenceValue → Bool → Result Envelope
assigned e next no_sequence true = ok (record e { sequence = sequence_number next })
assigned e next no_sequence false = err sequence_conflict
assigned e next null_sequence true = ok (record e { sequence = sequence_number next })
assigned e next null_sequence false = err sequence_conflict
assigned e next (sequence_number n) assign = if eqb n next then ok e else err sequence_conflict
assigned e next (other_sequence x) assign = err sequence_conflict

-- `persisted.get("sequence")`, put under a key.
abbrev fetched : SequenceValue → SequenceValue
fetched no_sequence = null_sequence
fetched null_sequence = null_sequence
fetched (sequence_number n) = sequence_number n
fetched (other_sequence x) = other_sequence x

-- `if "sequence" not in candidate and assign_sequence` the persisted one is taken.
abbrev pub with_sequence : Envelope → SequenceValue → SequenceValue → Bool → Envelope
with_sequence e persisted no_sequence true = record e { sequence = fetched persisted }
with_sequence e persisted no_sequence false = e
with_sequence e persisted null_sequence assign = e
with_sequence e persisted (sequence_number n) assign = e
with_sequence e persisted (other_sequence x) assign = e

abbrev pub last_sequence_of : Option SessionRow → ℕ
last_sequence_of none = 0
last_sequence_of (some r) = r.last_sequence

abbrev pub last_hash_of : Option SessionRow → String
last_hash_of none = genesis_hash
last_hash_of (some r) = r.last_event_hash

abbrev text_of : Option String → String
text_of none = ""
text_of (some x) = x

-- INSERT INTO sessions, if the session is new.
abbrev pub with_session :
    Option SessionRow → Envelope → String → String → List SessionRow → List SessionRow
with_session (some r) e k m sessions = sessions
with_session none e k m sessions =
    sessions
    ++ (record {
      session_id = k;
      created_at = text_of e.recorded_at;
      first_message_id = m;
      last_sequence = 0;
      last_recorded_at = none;
      last_event_hash = genesis_hash;
    })
      ∷ []

-- UPDATE sessions SET … WHERE session_id = ?
abbrev pub advance_head : String → ℕ → Option String → String → SessionRow → SessionRow
advance_head k n recorded_at hash r =
    if r.session_id == k
    then record r { last_sequence = n; last_recorded_at = recorded_at; last_event_hash = hash }
    else r

module _ (p : Platform) where
  open p use {Text, canonical_json, text_eq}

  abbrev pub event_row : String → String → ℕ → Envelope → String → String → String → EventRow Text
  event_row k m n e kind previous hash = record {
    session_id = k;
    sequence = n;
    message_id = m;
    recorded_at = e.recorded_at;
    event_class = e.event_class;
    message_type = kind;
    entity_type = e.entity_type;
    entity_id = e.entity_id;
    entity_version = e.entity_version;
    envelope_json = canonical_json e;
    previous_hash = previous;
    event_hash = hash;
  }

  -- `message_type TEXT NOT NULL` and `PRIMARY KEY (session_id, sequence)`
  abbrev pub insert_event :
      String
      → String
      → ℕ
      → Envelope
      → String
      → String
      → Option String
      → Store Text
      → Result (Store Text)
  insert_event k m n e previous hash none s = err constraint_failed
  insert_event k m n e previous hash (some kind) s =
      if any (λ r. r.session_id == k && eqb r.sequence n) s.events
      then err constraint_failed
      else ok (record s { events = s.events ++ event_row k m n e kind previous hash ∷ [] })

  -- The message is there: the same envelope is answered again, another one is refused.
  unfoldable pub append_existing :
      Envelope → Bool → EventRow Text → Store Text → Result (AppendResult × Store Text)
  append_existing e assign row s = do
    persisted ← decoded p (p.loads row.envelope_json)
    guard
        (text_eq (canonical_json (with_sequence e persisted.sequence e.sequence assign))
          (canonical_json persisted))
        duplicate_message_conflict
    ok (
      record {
        session_id = row.session_id;
        sequence = row.sequence;
        message_id = row.message_id;
        event_hash = row.event_hash;
        envelope = persisted;
        already_present = true;
      },
      s,
    )

  module _ (replay : Replay) where
    open replay use {validate}

    -- The inserts and updates of one accepted event.
    unfoldable pub commit_event :
        String
        → String
        → ℕ
        → Envelope
        → Option SessionRow
        → Projection
        → Store Text
        → Result (AppendResult × Store Text)
    commit_event k m n candidate session projection s = do
      hash ← chained_event_hash p (last_hash_of session) candidate
      let opened = record s { sessions = with_session session candidate k m s.sessions }
      inserted ←
          insert_event k m n candidate (last_hash_of session) hash candidate.message_type opened
      projected ← replace_projection k projection inserted
      ok (
        record {
          session_id = k;
          sequence = n;
          message_id = m;
          event_hash = hash;
          envelope = candidate;
          already_present = false;
        },
        record projected {
          sessions = map (advance_head k n candidate.recorded_at hash) projected.sessions;
        },
      )

    unfoldable pub append_new :
        String
        → String
        → Envelope
        → Option ℕ
        → Bool
        → Option SessionRow
        → Store Text
        → Result (AppendResult × Store Text)
    unfolding commit_event
    append_new k m e expected assign session s = do
      let last = last_sequence_of session
      guard (expected_ok expected last) sequence_conflict
      candidate ← assigned e (last + 1) e.sequence assign
      guard (is_nil (structural_errors p candidate)) (validation (structural_errors p candidate))
      prior ← load_envelopes p k s
      let (projection, errors) = validate (prior ++ candidate ∷ [])
      guard (is_nil errors) (validation errors)
      commit_event k m (last + 1) candidate session projection s

    unfoldable pub append_locked :
        String
        → String
        → Envelope
        → Option ℕ
        → Bool
        → Store Text
        → Result (AppendResult × Store Text)
    unfolding append_existing append_new
    append_locked k m e expected assign s =
        elim (first (λ r. r.session_id == k && r.message_id == m) s.events) [
          | some row ↦ append_existing e assign row s
          | none ↦ append_new k m e expected assign (session_row k s) s
        ]

    -- SessionStore.append
    unfoldable pub append :
        List (String × String)
        → Envelope
        → Option ℕ
        → Bool
        → Store Text
        → Result (AppendResult × Store Text)
    unfolding append_locked
    append trusted_recorders e expected assign s = do
      k ← required e.session_id "session_id_required"
      m ← required e.message_id "message_id_required"
      guard (is_event e.kind) (validation ("session_store_accepts_events_only" ∷ []))
      guard (not (is_nil trusted_recorders))
          (validation ("session_store_trusted_recorder_not_configured" ∷ []))
      append_locked k m e expected assign s

    -- append_many: each event is a transaction of its own, so the store comes back beside an error.
    unfoldable pub append_many :
        List (String × String)
        → List Envelope
        → Option ℕ
        → Store Text
        → Result (List AppendResult) × Store Text
    append_many trusted_recorders [] expected s = (ok [], s)
    append_many trusted_recorders (e ∷ rest) expected s =
        elim (append trusted_recorders e expected true s) [
          | err code ↦ (err code, s)
          | ok (result, s') ↦
              let (later, s'') = append_many trusted_recorders rest (some result.sequence) s' in
              ((do results ← later; ok (result ∷ results)), s'')
        ]
