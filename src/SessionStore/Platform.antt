-- ===== src/SessionStore/Platform.antt =====
-- What src/w1cip/session_store.py takes from elsewhere: json.dumps and json.loads, UTF-8, bytes.fromhex,
-- SHA-256, the JSON Schema validator, and the replay validator that its constructor is given.
use w1_nexus.Prelude.{
  ℕ, ◌≡◌, String, Bool, true, ◌&&◌, Option, none, some, List, [], ◌∷◌, ◌++◌, all, any, ◌==◌,
}
use w1_nexus.SessionStore.Types.{
  Envelope, EntityVersionKey, EntityRecord, Projection, Result, ok, err, value_error, key_eq,
}

-- JSON texts, hashes and schema checks.
pub record Platform : Type 1 where
  pub Text : Type 0
  pub text_eq : Text → Text → Bool
  pub canonical_json : Envelope → Text
  pub loads : Text → Option Envelope
  pub encode : Text → List ℕ
  pub fromhex : String → Option (List ℕ)
  pub sha256_hexdigest : List ℕ → String
  -- `None` where no schema is installed
  pub iter_errors : Option (Envelope → List String)
  -- json.loads reads what json.dumps wrote.
  pub loads-canonical_json : (e : Envelope) → loads (canonical_json e) ≡ some e
  -- A hex digest is read back by bytes.fromhex.
  pub fromhex-sha256_hexdigest :
      (b : List ℕ) → (d : List ℕ) × (fromhex (sha256_hexdigest b) ≡ some d)

abbrev pub is_protocol_event : EntityVersionKey → Bool
is_protocol_event k = k.entity_type == "protocol_event"

abbrev pub has_key : EntityVersionKey → List (EntityVersionKey × EntityRecord) → Bool
has_key k records = any (λ entry. key_eq entry.0 k) records

-- The replay validator: a projection and the errors of an ordered log. The active protocol events
-- of an accepted log are protocol events among its records.
pub record Replay : Type 0 where
  pub validate : List Envelope → Projection × List String
  pub active_listed :
      (es : List Envelope)
      → (validate es).1 ≡ []
      → all
          (λ k. is_protocol_event k && has_key k (validate es).0.records)
          (validate es).0.active_protocol_events
        ≡ true

abbrev pub genesis_hash : String
genesis_hash = "0000000000000000000000000000000000000000000000000000000000000000"

module _ (p : Platform) where
  open p use {canonical_json, encode, fromhex, sha256_hexdigest, iter_errors}

  -- The bytes that are hashed: previous + b"\n" + canonical_json(envelope).
  abbrev pub payload : List ℕ → Envelope → List ℕ
  payload previous envelope = previous ++ (b'\n' ∷ encode (canonical_json envelope))

  abbrev hash_after : Envelope → Option (List ℕ) → Result String
  hash_after envelope none = err value_error
  hash_after envelope (some previous) = ok (sha256_hexdigest (payload previous envelope))

  unfoldable pub chained_event_hash : String → Envelope → Result String
  chained_event_hash previous_hash envelope = hash_after envelope (fromhex previous_hash)

  abbrev errors_of : Envelope → Option (Envelope → List String) → List String
  errors_of envelope none = []
  errors_of envelope (some validator) = validator envelope

  -- _structural_errors
  unfoldable pub structural_errors : Envelope → List String
  structural_errors envelope = errors_of envelope iter_errors
