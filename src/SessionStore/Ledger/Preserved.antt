-- ===== src/SessionStore/Ledger/Preserved.antt =====
-- SessionStore.append of src/w1cip/session_store.py keeps the ledgers of all sessions intact.
use mathlib.Core.List.{append-nil}
use w1_nexus.Prelude.{
  ℕ, suc, ◌+◌, ◌≡◌, ◌≢◌, refl, ap, ◌∙◌, sym, subst, String, true, false, ◌&&◌, Option, none, some,
  List, [], ◌∷◌, ◌++◌, map, arith, eqb, ◌==◌, eq_iff, any, all, length, first, select-append,
  Bool-cases, inl, inr, length-append,
}
use w1_nexus.SessionStore.Types.{
  sequence_number, Envelope, Projection, SessionRow, EventRow, Store, Result, ok, ◌>>=◌,
  AppendResult,
}
use w1_nexus.SessionStore.Platform.{
  Platform, Replay, is_protocol_event, has_key, genesis_hash, chained_event_hash,
}
use w1_nexus.SessionStore.Projections.{session_row, events_of, replace_projection}
use w1_nexus.SessionStore.Append.{
  last_hash_of, with_session, advance_head, event_row, insert_event, commit_event,
}
use w1_nexus.SessionStore.Ledger.{IsLink, Chained, IsProjected, LedgerOf, IsLedger}
use w1_nexus.SessionStore.Ledger.Tables.{ok-inj}
use w1_nexus.SessionStore.Ledger.Replaced.{
  Result-cases, err-ne-ok, SameTables, IsProjected-same, Replaced, replace-Replaced,
}

-- The rows of `sessions` after an append.
module _ (k : String) (n : ℕ) (t : Option String) (hash : String) where
  abbrev advanced : SessionRow → SessionRow
  advanced = advance_head k n t hash

  first-advanced :
      (xs : List SessionRow) (r : SessionRow)
      → first (λ x. x.session_id == k) xs ≡ some r
      → first (λ x. x.session_id == k) (map advanced xs)
        ≡ some (record r { last_sequence = n; last_recorded_at = t; last_event_hash = hash })
  first-advanced [] r h = ground arith
  first-advanced (x ∷ xs) r h = ground (arith, first-advanced xs r)

  first-added :
      (xs : List SessionRow) (r : SessionRow)
      → r.session_id ≡ k
      → first (λ x. x.session_id == k) xs ≡ none
      → first (λ x. x.session_id == k) (map advanced (xs ++ r ∷ []))
        ≡ some (record r { last_sequence = n; last_recorded_at = t; last_event_hash = hash })
  first-added [] r e h = ground (arith, eq_iff r.session_id k)
  first-added (x ∷ xs) r e h = ground (arith, first-added xs r e)

  first-advanced_ne :
      (j : String)
      → k ≢ j
      → (xs : List SessionRow)
      → first (λ x. x.session_id == j) (map advanced xs) ≡ first (λ x. x.session_id == j) xs
  first-advanced_ne j ne [] = refl
  first-advanced_ne j ne (x ∷ xs) =
      ground (arith, first-advanced_ne j ne xs, eq_iff x.session_id k, eq_iff x.session_id j)

  first-added_ne :
      (j : String)
      → k ≢ j
      → (xs : List SessionRow) (r : SessionRow) → r.session_id ≡ k
      → first (λ x. x.session_id == j) (xs ++ r ∷ []) ≡ first (λ x. x.session_id == j) xs
  first-added_ne j ne [] r e = ground (arith, eq_iff r.session_id j, eq_iff k j)
  first-added_ne j ne (x ∷ xs) r e = ground (arith, first-added_ne j ne xs r e)

-- The session row that an append leaves.
abbrev head_row : Option SessionRow → Envelope → String → String → ℕ → String → SessionRow
head_row session e k m n hash = record {
  session_id = elim session [ none ↦ k | some r ↦ r.session_id ];
  created_at = elim session [
    | none ↦ elim e.recorded_at [ none ↦ "" | some x ↦ x ]
    | some r ↦ r.created_at
  ];
  first_message_id = elim session [ none ↦ m | some r ↦ r.first_message_id ];
  last_sequence = n;
  last_recorded_at = e.recorded_at;
  last_event_hash = hash;
}

module _ (k m : String) (n : ℕ) (e : Envelope) (hash : String) where
  session_row-own :
      (xs : List SessionRow) (session : Option SessionRow)
      → first (λ x. x.session_id == k) xs ≡ session
      → first
          (λ x. x.session_id == k)
          (map (advance_head k n e.recorded_at hash) (with_session session e k m xs))
        ≡ some (head_row session e k m n hash)
  session_row-own xs none h = first-added k n e.recorded_at hash xs _ refl h
  session_row-own xs (some r) h = first-advanced k n e.recorded_at hash xs r h

  session_row-other :
      (j : String)
      → k ≢ j
      → (xs : List SessionRow) (session : Option SessionRow)
      → first
          (λ x. x.session_id == j)
          (map (advance_head k n e.recorded_at hash) (with_session session e k m xs))
        ≡ first (λ x. x.session_id == j) xs
  session_row-other j ne xs none =
      first-advanced_ne k n e.recorded_at hash j ne _
      ∙ first-added_ne k n e.recorded_at hash j ne xs _ refl
  session_row-other j ne xs (some r) = first-advanced_ne k n e.recorded_at hash j ne xs

module _ (p : Platform) where
  open p use {Text}

  -- A chain grows by one link at its head.
  pub Chained-append :
      (previous : String) (n : ℕ) (rs : List (EventRow Text)) (es : List Envelope) (head : String)
      (r : EventRow Text) (e : Envelope)
      → Chained p previous n rs es head
      → IsLink p head (suc (n + length rs)) r e
      → Chained p previous n (rs ++ r ∷ []) (es ++ e ∷ []) r.event_hash
  Chained-append previous n [] [] head r e c l = (
    let same : n + 0 ≡ n = omega arith in subst (λ i. IsLink p previous (suc i) r e) same (rw c l),
    refl,
  )
  Chained-append previous n [] (f ∷ es) head r e c l = absurd c
  Chained-append previous n (s ∷ rs) [] head r e c l = absurd c
  Chained-append previous n (s ∷ rs) (f ∷ es) head r e c l = (
    c.0,
    Chained-append s.event_hash (suc n) rs es head r e c.1 (
        let same : n + suc (length rs) ≡ suc n + length rs = omega arith in
        subst (λ i. IsLink p head (suc i) r e) same l),
  )

  pub events_of-own :
      (k : String) (row : EventRow Text) → row.session_id ≡ k → events_of k (row ∷ []) ≡ row ∷ []
  events_of-own k row e = ground (arith, eq_iff row.session_id k)

  pub events_of-other :
      (j : String) (row : EventRow Text) → row.session_id ≢ j → events_of j (row ∷ []) ≡ []
  events_of-other j row ne = ground (arith, eq_iff row.session_id j)

  module _ (replay : Replay) where
    open replay use {validate}

    -- What a committed event leaves behind.
    pub record Committed (k m : String) (n : ℕ) (candidate : Envelope) (session : Option SessionRow)
        (projection : Projection) (s s' : Store Text) : Type 0 where
      pub hash : String
      pub kind : String
      pub hashed : chained_event_hash p (last_hash_of session) candidate ≡ ok hash
      pub events :
          s'.events ≡ s.events ++ event_row p k m n candidate kind (last_hash_of session) hash ∷ []
      pub sessions :
          s'.sessions
          ≡ map
              (advance_head k n candidate.recorded_at hash)
              (with_session session candidate k m s.sessions)
      pub projected : IsProjected p replay k s' projection
      pub other : (j : String) → k ≢ j → SameTables j s s'

    module _ (k m : String) (n : ℕ) (candidate : Envelope) (session : Option SessionRow)
        (projection : Projection) (s : Store Text)
        (listed : all
            (λ key. is_protocol_event key && has_key key projection.records)
            projection.active_protocol_events
          ≡ true) where
      abbrev opened : Store Text
      opened = record s { sessions = with_session session candidate k m s.sessions }

      abbrev inserted : String → String → Store Text
      inserted hash kind = record opened {
        events = s.events ++ event_row p k m n candidate kind (last_hash_of session) hash ∷ [];
      }

      insert_event_lem :
          (hash : String) (kind : Option String) (after : Store Text)
          → insert_event p k m n candidate (last_hash_of session) hash kind opened ≡ ok after
          → (name : String) × (inserted hash name ≡ after)
      insert_event_lem hash none after h = absurd (err-ne-ok h)
      insert_event_lem hash (some kind) after h =
          elim (Bool-cases (any (λ r. r.session_id == k && eqb r.sequence n) s.events)) [
            | inl e ↦ absurd (err-ne-ok (rw e at h))
            | inr e ↦ (kind, ok-inj (rw e at h))
          ]

      abbrev finished : String → Store Text → Store Text
      finished hash t = record t {
        sessions = map (advance_head k n candidate.recorded_at hash) t.sessions;
      }

      abbrev committed : String → AppendResult
      committed hash = record {
        session_id = k;
        sequence = n;
        message_id = m;
        event_hash = hash;
        envelope = candidate;
        already_present = false;
      }

      finished-Committed :
          (hash kind : String) (t : Store Text)
          → chained_event_hash p (last_hash_of session) candidate ≡ ok hash
          → Replaced p replay k projection (inserted hash kind) t
          → Committed k m n candidate session projection s (finished hash t)
      finished-Committed hash kind t e r = record {
        hash = hash;
        kind = kind;
        hashed = e;
        events = r.events;
        sessions = ap (map (advance_head k n candidate.recorded_at hash)) r.sessions;
        projected = record {
          latest = r.own.latest;
          records = r.own.records;
          active = r.own.active;
        };
        other = λ j ne. record {
          versions = (r.other j ne).versions;
          latest = (r.other j ne).latest;
          effects = (r.other j ne).effects;
        };
      }

      abbrev after_hash : String → Result (AppendResult × Store Text)
      after_hash hash = do
        after ←
            insert_event p k m n candidate (last_hash_of session) hash candidate.message_type opened
        t ← replace_projection k projection after
        ok (committed hash, finished hash t)

      hashed-Committed :
          (s' : Store Text) (res : AppendResult) (hash : String)
          → chained_event_hash p (last_hash_of session) candidate ≡ ok hash
          → after_hash hash ≡ ok (res, s')
          → Committed k m n candidate session projection s s'
      hashed-Committed s' res hash e h =
          elim (Result-cases (
            insert_event p k m n candidate (last_hash_of session) hash candidate.message_type
              opened)) [
                | inl (x, f) ↦ absurd (err-ne-ok (rw f at h))
                | inr (after, f) ↦
                    let (kind, same) = insert_event_lem hash candidate.message_type after f in
                    elim (Result-cases (replace_projection k projection after)) [
                      | inl (x, g) ↦ absurd (err-ne-ok (rw g at (rw f at h)))
                      | inr (t, g) ↦
                          subst (Committed k m n candidate session projection s)
                            (ap (λ (x : AppendResult × Store Text). x.1)
                              (ok-inj (rw g at (rw f at h))))
                            (finished-Committed hash kind t e (
                              replace-Replaced p replay k projection (inserted hash kind) t listed
                                (rw same g)))
                    ]
              ]

      pub commit-Committed :
          (s' : Store Text) (res : AppendResult)
          → commit_event p replay k m n candidate session projection s ≡ ok (res, s')
          → Committed k m n candidate session projection s s'
      unfolding commit_event
      commit-Committed s' res h =
          elim (Result-cases (chained_event_hash p (last_hash_of session) candidate)) [
            | inl (x, e) ↦ absurd (err-ne-ok (rw e at h))
            | inr (hash, e) ↦ hashed-Committed s' res hash e (rw e at h)
          ]

    LedgerOf-same :
        (j : String) (s s' : Store Text)
        → events_of j s'.events ≡ events_of j s.events
        → SameTables j s s'
        → (session : Option SessionRow) → LedgerOf p replay j s session
        → LedgerOf p replay j s' session
    LedgerOf-same j s s' rows tables none h = rows ∙ h
    LedgerOf-same j s s' rows tables (some session) (es, h) = (
      es,
      record {
        chain =
            subst (λ l. Chained p genesis_hash 0 l es session.last_event_hash) (sym rows) h.chain;
        count = h.count ∙ ap length (sym rows);
        replayed = h.replayed;
        projected = IsProjected-same p replay j s s' (validate es).0 tables h.projected;
      },
    )

    -- The ledger of the session itself after the commit of the next event.
    module _ (k m : String) (candidate : Envelope) (s s' : Store Text) (es : List Envelope)
        (named : candidate.message_id ≡ some m)
        (errors : (validate (es ++ candidate ∷ [])).1 ≡ []) where
      pub own-IsLedger :
          (session : Option SessionRow) (n : ℕ)
          → session_row k s ≡ session
          → Chained p genesis_hash 0 (events_of k s.events) es (last_hash_of session)
          → n ≡ length (events_of k s.events)
          → candidate.sequence ≡ sequence_number (suc n)
          → Committed k m (suc n) candidate session (validate (es ++ candidate ∷ [])).0 s s'
          → IsLedger p replay k s'
      own-IsLedger session n found chain count numbered c =
          let row = event_row p k m (suc n) candidate c.kind (last_hash_of session) c.hash in
          let rows : events_of k s'.events ≡ events_of k s.events ++ row ∷ [] =
            ap (events_of k) c.events
            ∙ (select-append _ s.events (row ∷ [])
                ∙ ap (λ l. events_of k s.events ++ l) (events_of-own k row refl)) in
          let link : IsLink p (last_hash_of session) (suc n) row candidate = record {
            numbered = refl;
            linked = refl;
            decodes = p.loads-canonical_json candidate;
            sequence = numbered;
            message = named;
            hashed = c.hashed;
          } in
          subst (LedgerOf p replay k s')
            (sym (
              ap (first (λ x. x.session_id == k)) c.sessions
              ∙ session_row-own k m (suc n) candidate c.hash s.sessions session found))
            (
              es ++ candidate ∷ [],
              record {
                chain =
                    subst (λ l. Chained p genesis_hash 0 l (es ++ candidate ∷ []) c.hash) (sym rows)
                      (Chained-append genesis_hash 0 (events_of k s.events) es
                        (last_hash_of session) row candidate chain
                        (let same : suc n ≡ suc (0 + length (events_of k s.events)) = omega arith in
                          subst (λ i. IsLink p (last_hash_of session) i row candidate) same link));
                count =
                    omega (
                      arith,
                      count,
                      ap length rows,
                      length-append (events_of k s.events) (row ∷ []),
                    );
                replayed = errors;
                projected = c.projected;
              },
            )

    pub other-IsLedger :
        (k m j : String) (n : ℕ) (candidate : Envelope) (session : Option SessionRow)
        (projection : Projection) (s s' : Store Text)
        → k ≢ j
        → Committed k m n candidate session projection s s'
        → IsLedger p replay j s
        → IsLedger p replay j s'
    other-IsLedger k m j n candidate session projection s s' ne c h =
        let row = event_row p k m n candidate c.kind (last_hash_of session) c.hash in
        let rows : events_of j s'.events ≡ events_of j s.events =
          ap (events_of j) c.events
          ∙ (select-append _ s.events (row ∷ [])
              ∙ (ap (λ l. events_of j s.events ++ l) (events_of-other j row ne) ∙ append-nil _)) in
        subst (LedgerOf p replay j s')
          (sym (
            ap (first (λ x. x.session_id == j)) c.sessions
            ∙ session_row-other k m n candidate c.hash j ne s.sessions session))
          (LedgerOf-same j s s' rows (c.other j ne) (session_row j s) h)
