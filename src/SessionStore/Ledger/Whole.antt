-- ===== src/SessionStore/Ledger/Whole.antt =====
-- What a valid report of verify_integrity of src/w1cip/session_store.py tells of the tables.
use w1_nexus.Prelude.{
  ◌≡◌, ◌↔◌, refl, subst, String, Bool, true, List, [], ◌∷◌, arith, eqb, option_eq, eqb_iff, ◌==◌,
  eq_iff, all, any, length, option_eq→eq, Bool-cases, inl, inr, In, here, there, and-left,
  and-right,
}
use w1_nexus.SessionStore.Types.{
  Envelope, EntityKey, EntityRecord, Projection, SessionRow, Store, key_eq, record_eq,
}
use w1_nexus.SessionStore.Platform.{Platform, Replay, genesis_hash}
use w1_nexus.SessionStore.Projections.{events_of, order_by_sequence}
use w1_nexus.SessionStore.Integrity.{
  same_entries, latest_eq, entry_eq, stored_latest, stored_records, stored_active,
}
use w1_nexus.SessionStore.Ledger.{Chained}
use w1_nexus.SessionStore.Ledger.Verified.{latest_eq_refl, entry_eq_refl, key_eq_refl}

-- Lists of which each holds what the other holds.
abbrev pub IsSame {ℓ} : {A : Type ℓ} → List A → List A → Type ℓ
IsSame {A = A} xs ys = (x : A) → (In x xs → In x ys) × (In x ys → In x xs)

module _ (p : Platform) (replay : Replay) where
  open p use {Text}
  open replay use {validate}

  pub record IsMatched (k : String) (s : Store Text) (projection : Projection) : Type 0 where
    pub latest : IsSame (stored_latest p k s) projection.latest_versions
    pub records : IsSame (stored_records p k s) projection.records
    pub active : IsSame (stored_active p k s) projection.active_protocol_events

  -- The rows of a session, read by their sequence, are one chain of envelopes from the genesis hash
  -- to the hash of the session row, as many as that row counts; they replay without errors, and the
  -- projection tables hold what the replay gives.
  pub record IsWhole (k : String) (s : Store Text) (session : SessionRow) (es : List Envelope)
      : Type 0 where
    pub chain :
        Chained p genesis_hash 0
          (order_by_sequence (events_of k s.events))
          es
          session.last_event_hash
    pub count : session.last_sequence ≡ length (order_by_sequence (events_of k s.events))
    pub replayed : (validate es).1 ≡ []
    pub matched : IsMatched k s (validate es).0

-- An equality test that decides equality.
abbrev pub IsExact {ℓ} : {A : Type ℓ} → (A → A → Bool) → Type ℓ
IsExact {A = A} eq = (x y : A) → (eq x y ≡ true) ↔ (x ≡ y)

module _ {ℓ} {A : Type ℓ} (eq : A → A → Bool) (exact : IsExact eq) where
  any-In : (x : A) (ys : List A) → any (eq x) ys ≡ true → In x ys
  any-In x [] h = cc
  any-In x (y ∷ ys) h = elim (Bool-cases (eq x y)) [
    | inl e ↦ subst (λ z. In x (z ∷ ys)) ((exact x y).0 e) here
    | inr e ↦ there (any-In x ys (rw e at h))
  ]

  In-any : (x : A) (ys : List A) → In x ys → any (eq x) ys ≡ true
  In-any x [] m = elim m [ ]
  In-any x (y ∷ ys) here = rw ((exact x x).1 refl) refl
  In-any x (y ∷ ys) (there m) = ground (arith, In-any x ys m)

  all-Within : (xs ys : List A) → all (λ x. any (eq x) ys) xs ≡ true → (x : A) → In x xs → In x ys
  all-Within [] ys h x m = elim m [ ]
  all-Within (_ ∷ xs) ys h x here = any-In x ys (and-left _ _ h)
  all-Within (z ∷ xs) ys h x (there m) = all-Within xs ys (and-right _ _ h) x m

  Within-all : (xs ys : List A) → ((x : A) → In x xs → In x ys) → all (λ x. any (eq x) ys) xs ≡ true
  Within-all [] ys h = refl
  Within-all (z ∷ xs) ys h =
      rw (In-any z ys (h z here), Within-all xs ys (λ x m. h x (there m))) refl

  -- The comparison of two dicts that verify_integrity makes decides whether they hold the same.
  pub same_entries_iff : (xs ys : List A) → (same_entries eq xs ys ≡ true) ↔ IsSame xs ys
  same_entries_iff xs ys = (
    λ h x. (all-Within xs ys (and-left _ _ h) x, all-Within ys xs (and-right _ _ h) x),
    λ h. rw (Within-all xs ys (λ x. (h x).0), Within-all ys xs (λ x. (h x).1)) refl,
  )

EntityKey-eq :
    (a b : EntityKey)
    → (a.entity_type == b.entity_type) ≡ true
    → (a.entity_id == b.entity_id) ≡ true
    → a ≡ b
EntityKey-eq a b t n = λ i. record {
  entity_type = (eq_iff a.entity_type b.entity_type).0 t i;
  entity_id = (eq_iff a.entity_id b.entity_id).0 n i;
}

pub latest_eq-IsExact : IsExact latest_eq
latest_eq-IsExact (a, m) (b, n) = (
  λ h.
      let later = and-right _ _ h in
      let same = EntityKey-eq a b (and-left _ _ h) (and-left _ _ later) in
      let version : m ≡ n = (eqb_iff m n).0 (and-right _ _ later) in λ i. (same i, version i),
  λ h. subst (λ x. latest_eq (a, m) x ≡ true) h (latest_eq_refl (a, m)),
)

pub key_eq-IsExact : IsExact key_eq
key_eq-IsExact a b = (
  λ h.
      let t : (a.entity_type == b.entity_type) ≡ true = ground arith in
      let n : (a.entity_id == b.entity_id) ≡ true = ground arith in
      let v : eqb a.entity_version b.entity_version ≡ true = ground arith in
      λ i. record {
        entity_type = (eq_iff a.entity_type b.entity_type).0 t i;
        entity_id = (eq_iff a.entity_id b.entity_id).0 n i;
        entity_version = (eqb_iff a.entity_version b.entity_version).0 v i;
      },
  λ h. subst (λ x. key_eq a x ≡ true) h (key_eq_refl a),
)

record_eq→eq : (r q : EntityRecord) → record_eq r q ≡ true → r ≡ q
record_eq→eq r q h =
    let created : option_eq r.created_by_event_id q.created_by_event_id ≡ true = ground arith in
    let event : option_eq r.event_type q.event_type ≡ true = ground arith in
    let subject : option_eq r.subject_type q.subject_type ≡ true = ground arith in
    let name : option_eq r.subject_id q.subject_id ≡ true = ground arith in
    let others : (r.rest == q.rest) ≡ true = ground arith in
    λ i. record {
      created_by_event_id = option_eq→eq r.created_by_event_id q.created_by_event_id created i;
      event_type = option_eq→eq r.event_type q.event_type event i;
      subject_type = option_eq→eq r.subject_type q.subject_type subject i;
      subject_id = option_eq→eq r.subject_id q.subject_id name i;
      rest = (eq_iff r.rest q.rest).0 others i;
    }

pub entry_eq-IsExact : IsExact entry_eq
entry_eq-IsExact (a, r) (b, q) = (
  λ h.
      let same = (key_eq-IsExact a b).0 (and-left (key_eq a b) (record_eq r q) h) in
      let equal = record_eq→eq r q (and-right (key_eq a b) (record_eq r q) h) in
      λ i. (same i, equal i),
  λ h. subst (λ x. entry_eq (a, r) x ≡ true) h (entry_eq_refl (a, r)),
)
