-- ===== src/SessionStore/Types.antt =====
-- The data of src/w1cip/session_store.py: envelopes, projections, the rows of its SQLite tables, and
-- the errors that its methods raise.
use w1_nexus.Prelude.{ℕ, String, Bool, true, false, ◌&&◌, Option, List, ◌==◌, eqb, option_eq}

-- What an envelope has under the key `sequence`: nothing, null, an integer, or another value, of
-- which its text is kept. `True` and `1.0`, which Python holds equal to 1, are not told from it.
pub data SequenceValue : Type 0 where
  no_sequence null_sequence : SequenceValue
  sequence_number : ℕ → SequenceValue
  other_sequence : String → SequenceValue

-- The fields of an envelope that the store reads; `rest` stands for the text of the other ones. A
-- field of another type than the one that is expected is read as absent, as the source does, but
-- for `sequence`.
pub record Envelope : Type 0 where
  pub session_id : Option String
  pub message_id : Option String
  pub kind : Option String
  pub sequence : SequenceValue
  pub recorded_at : Option String
  pub event_class : Option String
  pub message_type : Option String
  pub entity_type : Option String
  pub entity_id : Option String
  pub entity_version : Option ℕ
  pub rest : String

pub record EntityKey : Type 0 where
  pub entity_type : String
  pub entity_id : String

pub record EntityVersionKey : Type 0 where
  pub entity_type : String
  pub entity_id : String
  pub entity_version : ℕ

abbrev pub key_eq : EntityVersionKey → EntityVersionKey → Bool
key_eq a b =
    a.entity_type == b.entity_type
    && (a.entity_id == b.entity_id && eqb a.entity_version b.entity_version)

-- A VersionedEntity record of the projection: the fields that the store reads, and the text of the
-- others.
pub record EntityRecord : Type 0 where
  pub created_by_event_id : Option String
  pub event_type : Option String
  pub subject_type : Option String
  pub subject_id : Option String
  pub rest : String

abbrev pub record_eq : EntityRecord → EntityRecord → Bool
record_eq a b =
    option_eq a.created_by_event_id b.created_by_event_id
    && (option_eq a.event_type b.event_type
        && (option_eq a.subject_type b.subject_type
            && (option_eq a.subject_id b.subject_id && a.rest == b.rest)))

-- What the store uses of ProtocolReplayState. A dict is the list of its entries.
pub record Projection : Type 0 where
  pub records : List (EntityVersionKey × EntityRecord)
  pub latest_versions : List (EntityKey × ℕ)
  pub active_protocol_events : List EntityVersionKey

pub record SessionRow : Type 0 where
  pub session_id : String
  pub created_at : String
  pub first_message_id : String
  pub last_sequence : ℕ
  pub last_recorded_at : Option String
  pub last_event_hash : String

-- A row of `events`; `Text` is the type of JSON texts.
pub record EventRow (Text : Type 0) : Type 0 where
  pub session_id : String
  pub sequence : ℕ
  pub message_id : String
  pub recorded_at : Option String
  pub event_class : Option String
  pub message_type : String
  pub entity_type : Option String
  pub entity_id : Option String
  pub entity_version : Option ℕ
  pub envelope_json : Text
  pub previous_hash : String
  pub event_hash : String

-- The projection tables hold the decoded record in place of its JSON text.
pub record EntityVersionRow : Type 0 where
  pub session_id : String
  pub key : EntityVersionKey
  pub sequence : ℕ
  pub message_id : Option String
  pub record_json : EntityRecord

pub record LatestRow : Type 0 where
  pub session_id : String
  pub key : EntityKey
  pub entity_version : ℕ

pub record EffectRow : Type 0 where
  pub session_id : String
  pub key : EntityVersionKey
  pub event_type : String
  pub subject_type : Option String
  pub subject_id : Option String
  pub active : Bool
  pub record_json : EntityRecord

pub record Store (Text : Type 0) : Type 0 where
  pub sessions : List SessionRow
  pub events : List (EventRow Text)
  pub entity_versions : List EntityVersionRow
  pub latest_entities : List LatestRow
  pub protocol_effects : List EffectRow

pub data StoreError : Type 0 where
  validation : List String → StoreError
  integrity : List String → StoreError
  duplicate_message_conflict sequence_conflict session_not_found : StoreError
  constraint_failed json_decode_error value_error : StoreError

-- What a method returns, or the exception that it raises.
pub data Result {ℓ} (A : Type ℓ) : Type ℓ where
  err : StoreError → Result A
  ok : A → Result A

pub record AppendResult : Type 0 where
  pub session_id : String
  pub sequence : ℕ
  pub message_id : String
  pub event_hash : String
  pub envelope : Envelope
  pub already_present : Bool

-- Statements in sequence: the first exception ends them.
infixl 5 ◌>>=◌ ◌>>◌
abbrev pub ◌>>=◌ {ℓ κ} : {X : Type ℓ} {Y : Type κ} → Result X → (X → Result Y) → Result Y
err code >>= next = err code
ok value >>= next = next value

abbrev pub ◌>>◌ {κ} : {Y : Type κ} → Result (Unit {0}) → Result Y → Result Y
first >> second = first >>= λ _. second

-- A raise that a test of the source avoids.
abbrev pub guard : (test : Bool) (code : StoreError) → Result (Unit {0})
guard false code = err code
guard true code = ok tt
