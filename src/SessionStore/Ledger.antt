-- ===== src/SessionStore/Ledger.antt =====
-- What it means that the tables of src/w1cip/session_store.py hold an intact ledger of a session.
pub mod Verified
pub mod Whole
pub mod Tables
pub mod Effects
pub mod Replaced
pub mod Preserved
pub mod Appended
pub mod Log
pub mod Sound
pub mod Batch
pub mod Binding
use w1_nexus.Prelude.{ℕ, suc, ◌≡◌, String, Bool, true, Option, none, some, List, [], ◌∷◌, length}
use w1_nexus.SessionStore.Types.{
  sequence_number, Envelope, EntityKey, Projection, SessionRow, EventRow, Store, Result, ok, key_eq,
}
use w1_nexus.SessionStore.Platform.{Platform, Replay, genesis_hash, chained_event_hash}
use w1_nexus.SessionStore.Projections.{session_row, events_of}
use w1_nexus.SessionStore.Integrity.{stored_latest, stored_records, stored_active, same_entries}

module _ (p : Platform) where
  open p use {Text, loads}

  -- A row that carries an envelope at a place of the chain.
  pub record IsLink (previous : String) (n : ℕ) (r : EventRow Text) (e : Envelope) : Type 0 where
    pub numbered : r.sequence ≡ n
    pub linked : r.previous_hash ≡ previous
    pub decodes : loads r.envelope_json ≡ some e
    pub sequence : e.sequence ≡ sequence_number n
    pub message : e.message_id ≡ some r.message_id
    pub hashed : chained_event_hash p previous e ≡ ok r.event_hash

  -- Rows that carry the envelopes of a chain, from a hash and a number to the hash at its head.
  abbrev pub Chained : String → ℕ → List (EventRow Text) → List Envelope → String → Type 0
  Chained previous n [] [] head = previous ≡ head
  Chained previous n (r ∷ rs) (e ∷ es) head =
      IsLink previous (suc n) r e × Chained r.event_hash (suc n) rs es head
  Chained previous n _ _ head = ⊥

  module _ (replay : Replay) where
    open replay use {validate}

    pub record IsProjected (k : String) (s : Store Text) (projection : Projection) : Type 0 where
      pub latest : stored_latest p k s ≡ projection.latest_versions
      pub records : stored_records p k s ≡ projection.records
      pub active :
          same_entries key_eq (stored_active p k s) projection.active_protocol_events ≡ true

    pub record IsIntact (k : String) (s : Store Text) (session : SessionRow) (es : List Envelope)
        : Type 0 where
      pub chain : Chained genesis_hash 0 (events_of k s.events) es session.last_event_hash
      pub count : session.last_sequence ≡ length (events_of k s.events)
      pub replayed : (validate es).1 ≡ []
      pub projected : IsProjected k s (validate es).0

    abbrev pub LedgerOf : String → Store Text → Option SessionRow → Type 0
    LedgerOf k s none = events_of k s.events ≡ []
    LedgerOf k s (some session) = (es : List Envelope) × IsIntact k s session es

    -- The ledger of the session named k: with no session row there are no events.
    abbrev pub IsLedger : String → Store Text → Type 0
    IsLedger k s = LedgerOf k s (session_row k s)
