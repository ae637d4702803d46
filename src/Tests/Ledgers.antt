-- ===== src/Tests/Ledgers.antt =====
-- Two sessions with an event each, for SessionStore of src/w1cip/session_store.py.
use w1_nexus.Prelude.{
  ℕ, zero, suc, length, subst, some-inj, map, ◌⊎◌, ◌≡◌, refl, String, true, false, none, some, List,
  [], ◌∷◌, ◌==◌, option_eq, ◌&&◌,
}
use w1_nexus.SessionStore.Types.{
  no_sequence, sequence_number, Envelope, SessionRow, EntityVersionKey, Projection, Store, ok,
  AppendResult,
}
use w1_nexus.SessionStore.Platform.{
  Platform, Replay, genesis_hash, chained_event_hash, structural_errors,
}
use w1_nexus.SessionStore.Projections.{
  version_rows, latest_rows, effect_rows, replace_projection, insert_by_sequence, order_by_sequence,
  decode_rows, load_envelopes,
}
use w1_nexus.SessionStore.Append.{
  append_existing, commit_event, append_new, append_locked, append, append_many,
}
use w1_nexus.SessionStore.Ledger.{IsLedger}
use w1_nexus.SessionStore.Ledger.Batch.{Batch, append_many-Batch}
use w1_nexus.SessionStore.Ledger.Appended.{append-IsLedger}
use w1_nexus.SessionStore.Ledger.Binding.{bytes_of, Collision, heads_bind}
use w1_nexus.SessionStore.Ledger.Log.{Refines, append-Refines}

abbrev zeros : ℕ → List ℕ
zeros zero = []
zeros (suc n) = 0 ∷ zeros n

abbrev digest : List ℕ
digest = zeros 32

-- Texts are the envelopes themselves, and one digest serves for all payloads.
abbrev plain : Platform
plain = record {
  Text = Envelope;
  text_eq = λ a b. option_eq a.message_id b.message_id && a.rest == b.rest;
  canonical_json = λ e. e;
  loads = some;
  encode = λ e. 1 ∷ [];
  fromhex = λ h. some digest;
  sha256_hexdigest = λ b. "ab";
  iter_errors = none;
  loads-canonical_json = λ e. refl;
  fromhex-sha256_hexdigest = λ b. (digest, refl);
}

abbrev decision : EntityVersionKey
decision = record { entity_type = "protocol_event"; entity_id = "decision-1"; entity_version = 1 }

-- A log whose first event, the message m-1, records one decision.
abbrev one_decision : Projection
one_decision = record {
  records =
      (
        decision,
        record {
          created_by_event_id = some "m-1";
          event_type = some "ratification";
          subject_type = none;
          subject_id = none;
          rest = "{}";
        },
      )
      ∷ [];
  latest_versions = (record { entity_type = "protocol_event"; entity_id = "decision-1" }, 1) ∷ [];
  active_protocol_events = decision ∷ [];
}

abbrev decisions : Replay
decisions = record { validate = λ es. (one_decision, []); active_listed = λ es h. refl }

abbrev event_of : String → Envelope
event_of k = record {
  session_id = some k;
  message_id = some "m-1";
  kind = some "event";
  sequence = no_sequence;
  recorded_at = some "2026-01-01T00:00:00Z";
  event_class = some "decision";
  message_type = some "ratification";
  entity_type = none;
  entity_id = none;
  entity_version = none;
  rest = "{}";
}

abbrev empty_store : Store Envelope
empty_store = record {
  sessions = [];
  events = [];
  entity_versions = [];
  latest_entities = [];
  protocol_effects = [];
}

empty-IsLedger : (j : String) → IsLedger plain decisions j empty_store
empty-IsLedger j = refl

abbrev trusted : List (String × String)
trusted = ("gateway", "authority") ∷ []

abbrev recorded : Envelope
recorded = record (event_of "s-1") { sequence = sequence_number 1 }

abbrev one_session : Store Envelope
one_session = record {
  sessions =
      record {
        session_id = "s-1";
        created_at = "2026-01-01T00:00:00Z";
        first_message_id = "m-1";
        last_sequence = 1;
        last_recorded_at = some "2026-01-01T00:00:00Z";
        last_event_hash = "ab";
      }
      ∷ [];
  events =
      record {
        session_id = "s-1";
        sequence = 1;
        message_id = "m-1";
        recorded_at = some "2026-01-01T00:00:00Z";
        event_class = some "decision";
        message_type = "ratification";
        entity_type = none;
        entity_id = none;
        entity_version = none;
        envelope_json = recorded;
        previous_hash = genesis_hash;
        event_hash = "ab";
      }
      ∷ [];
  entity_versions =
      record {
        session_id = "s-1";
        key = decision;
        sequence = 1;
        message_id = some "m-1";
        record_json = record {
          created_by_event_id = some "m-1";
          event_type = some "ratification";
          subject_type = none;
          subject_id = none;
          rest = "{}";
        };
      }
      ∷ [];
  latest_entities =
      record {
        session_id = "s-1";
        key = record { entity_type = "protocol_event"; entity_id = "decision-1" };
        entity_version = 1;
      }
      ∷ [];
  protocol_effects =
      record {
        session_id = "s-1";
        key = decision;
        event_type = "ratification";
        subject_type = none;
        subject_id = none;
        active = true;
        record_json = record {
          created_by_event_id = some "m-1";
          event_type = some "ratification";
          subject_type = none;
          subject_id = none;
          rest = "{}";
        };
      }
      ∷ [];
}

abbrev first_result : AppendResult
first_result = record {
  session_id = "s-1";
  sequence = 1;
  message_id = "m-1";
  event_hash = "ab";
  envelope = recorded;
  already_present = false;
}

appended_once :
    append plain decisions trusted (event_of "s-1") none true empty_store
    ≡ ok (first_result, one_session)
unfolding append append_locked append_new append_existing commit_event load_envelopes
    chained_event_hash structural_errors replace_projection version_rows latest_rows effect_rows
    order_by_sequence insert_by_sequence decode_rows
appended_once = refl

append-IsLedger_example : IsLedger plain decisions "s-1" one_session
append-IsLedger_example =
    append-IsLedger plain decisions trusted (event_of "s-1") none true empty_store one_session
      first_result empty-IsLedger appended_once "s-1"

append_many-Batch_example :
    Batch plain decisions trusted
      (event_of "s-1" ∷ event_of "s-2" ∷ [])
      none
      empty_store
      (append_many plain decisions trusted
        (event_of "s-1" ∷ event_of "s-2" ∷ [])
        none
        empty_store).0
      (append_many plain decisions trusted
        (event_of "s-1" ∷ event_of "s-2" ∷ [])
        none
        empty_store).1
append_many-Batch_example =
    append_many-Batch plain decisions trusted (event_of "s-1" ∷ event_of "s-2" ∷ []) none
      empty_store empty-IsLedger

append-Refines_example :
    (k : String) × (some "s-1" ≡ some k)
    × Refines plain decisions k (event_of "s-1") empty_store one_session first_result
append-Refines_example =
    append-Refines plain decisions trusted (event_of "s-1") none true empty_store one_session
      first_result empty-IsLedger appended_once

one-IsLedger : (j : String) → IsLedger plain decisions j one_session
one-IsLedger =
    append-IsLedger plain decisions trusted (event_of "s-1") none true empty_store one_session
      first_result empty-IsLedger appended_once

abbrev head_row : SessionRow
head_row = record {
  session_id = "s-1";
  created_at = "2026-01-01T00:00:00Z";
  first_message_id = "m-1";
  last_sequence = 1;
  last_recorded_at = some "2026-01-01T00:00:00Z";
  last_event_hash = "ab";
}

heads_bind_example :
    (es : List Envelope) × (fs : List Envelope) × (load_envelopes plain "s-1" one_session ≡ ok es)
    × (load_envelopes plain "s-1" one_session ≡ ok fs)
    × ((map (bytes_of plain) es ≡ map (bytes_of plain) fs) ⊎ Collision plain)
heads_bind_example =
    heads_bind plain (λ b d h. subst (λ x. length x ≡ 32) (some-inj h) refl)
      (λ d h. subst (λ x. length x ≡ 32) (some-inj h) refl) (λ a b h. refl) decisions "s-1" "s-1"
      one_session one_session head_row head_row (one-IsLedger "s-1") (one-IsLedger "s-1") refl refl
      refl refl
