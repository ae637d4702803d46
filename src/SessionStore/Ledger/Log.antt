-- ===== src/SessionStore/Ledger/Log.antt =====
-- The log that SessionStore of src/w1cip/session_store.py keeps of each session: the envelopes that
-- _load_envelopes_locked reads.
use mathlib.Core.List.{append-nil}
use w1_nexus.Prelude.{
  ℕ, suc, ◌+◌, ◌≡◌, ◌≢◌, refl, ap, ◌∙◌, sym, subst, String, Bool, true, false, not, ◌&&◌, Option,
  some, List, [], ◌∷◌, ◌++◌, arith, ◌==◌, eq_iff, length, first, first-In, first-holds,
  select-append, In, In-select, here, there, Option-cases, inl, inr, and-left, and-right,
}
use w1_nexus.SessionStore.Types.{
  sequence_number, Envelope, SessionRow, EventRow, Projection, Store, ok, AppendResult,
}
use w1_nexus.SessionStore.Platform.{
  Platform, Replay, genesis_hash, chained_event_hash, structural_errors,
}
use w1_nexus.SessionStore.Projections.{session_row, events_of, load_envelopes, replace_projection}
use w1_nexus.SessionStore.Append.{
  assigned, last_sequence_of, last_hash_of, expected_ok, is_nil, event_row, insert_event,
  with_session, commit_event, append_new, append_locked, append_existing, append, required,
  is_event, with_sequence,
}
use w1_nexus.SessionStore.Ledger.{IsLink, Chained, IsLedger}
use w1_nexus.SessionStore.Ledger.Tables.{ok-inj, >>=-eq-ok}
use w1_nexus.SessionStore.Ledger.Verified.{order-Chained, decode-Chained}
use w1_nexus.SessionStore.Ledger.Replaced.{Result-cases, err-ne-ok}
use w1_nexus.SessionStore.Ledger.Preserved.{
  Chained-append, events_of-own, events_of-other, commit-Committed,
}
use w1_nexus.SessionStore.Ledger.Appended.{
  is_nil→nil, guard-ok, assigned_lem, prior_lem, required-some,
}

-- What an append does to the log of its session: it writes one envelope at the end, or finds the
-- one with the same message name that is there.
pub data LogStep (e : Envelope) (es : List Envelope) (res : AppendResult)
    : List Envelope → Type 0 where
  written :
      res.already_present ≡ false
      → res.sequence ≡ suc (length es)
      → res.envelope.message_id ≡ e.message_id
      → LogStep e es res (es ++ res.envelope ∷ [])
  present :
      res.already_present ≡ true
      → res.envelope.sequence ≡ sequence_number res.sequence
      → res.envelope.message_id ≡ e.message_id
      → In res.envelope es
      → LogStep e es res es

module _ (p : Platform) (replay : Replay) where
  open p use {Text}
  open replay use {validate}

  -- The log of one session changes by a step, those of the others stay.
  pub record Refines (k : String) (e : Envelope) (s s' : Store Text) (res : AppendResult)
      : Type 0 where
    pub old : List Envelope
    pub new : List Envelope
    pub loaded : load_envelopes p k s ≡ ok old
    pub reloaded : load_envelopes p k s' ≡ ok new
    pub step : LogStep e old res new
    pub others : (j : String) → k ≢ j → load_envelopes p j s' ≡ load_envelopes p j s

  pub load-Chained :
      (k : String) (s : Store Text) (es : List Envelope) (head : String)
      → Chained p genesis_hash 0 (events_of k s.events) es head
      → load_envelopes p k s ≡ ok es
  unfolding load_envelopes
  load-Chained k s es head c =
      rw (order-Chained p genesis_hash 0 (events_of k s.events) es head c)
        (decode-Chained p genesis_hash 0 (events_of k s.events) es head c)

  load-same :
      (j : String) (s s' : Store Text)
      → events_of j s'.events ≡ events_of j s.events
      → load_envelopes p j s' ≡ load_envelopes p j s
  unfolding load_envelopes
  load-same j s s' h = rw h refl

  -- The envelope of a row in a chain.
  linked-In :
      (previous : String) (n : ℕ) (rs : List (EventRow Text)) (es : List Envelope) (head : String)
      (r : EventRow Text)
      → Chained p previous n rs es head
      → In r rs
      → (e : Envelope) × In e es
        × (p.loads r.envelope_json ≡ some e)
        × (e.sequence ≡ sequence_number r.sequence)
        × (e.message_id ≡ some r.message_id)
  linked-In previous n [] es head r c m = elim m [ ]
  linked-In previous n (q ∷ rs) [] head r c m = absurd c
  linked-In previous n (q ∷ rs) (e ∷ es) head r c here =
      (e, here, c.0.decodes, c.0.sequence ∙ ap sequence_number (sym c.0.numbered), c.0.message)
  linked-In previous n (q ∷ rs) (e ∷ es) head r c (there m) =
      let (f, k, d, a, b) = linked-In q.event_hash (suc n) rs es head r c.1 m in
      (f, there k, d, a, b)

  -- The answer of commit_event.
  pub record IsNew (n : ℕ) (candidate : Envelope) (res : AppendResult) : Type 0 where
    pub fresh : res.already_present ≡ false
    pub numbered : res.sequence ≡ n
    pub same : res.envelope ≡ candidate

  pub commit-IsNew :
      (k m : String) (n : ℕ) (candidate : Envelope) (session : Option SessionRow)
      (projection : Projection) (s s' : Store Text) (res : AppendResult)
      → commit_event p replay k m n candidate session projection s ≡ ok (res, s')
      → IsNew n candidate res
  unfolding commit_event
  commit-IsNew k m n candidate session projection s s' res h =
      let (hash, e, h1) = >>=-eq-ok (chained_event_hash p (last_hash_of session) candidate) _ h in
      let opened : Store Text = record s {
        sessions = with_session session candidate k m s.sessions;
      } in
      let (inserted, f, h2) =
        >>=-eq-ok
          (insert_event p k m n candidate (last_hash_of session) hash candidate.message_type opened)
          _ h1 in
      let (projected, g, h3) = >>=-eq-ok (replace_projection k projection inserted) _ h2 in
      let same = ap (λ (x : AppendResult × Store Text). x.0) (sym (ok-inj h3)) in
      record {
        fresh = ap (λ (x : AppendResult). x.already_present) same;
        numbered = ap (λ (x : AppendResult). x.sequence) same;
        same = ap (λ (x : AppendResult). x.envelope) same;
      }

  module _ (k m : String) (e : Envelope) (assign : Bool) (s s' : Store Text) (res : AppendResult)
      (named : e.message_id ≡ some m) (own : IsLedger p replay k s) where
    committed-Refines :
        (n : ℕ) (es : List Envelope) (c : Envelope) (session : Option SessionRow)
        → Chained p genesis_hash 0 (events_of k s.events) es (last_hash_of session)
        → n ≡ length (events_of k s.events)
        → length (events_of k s.events) ≡ length es
        → c.sequence ≡ sequence_number (suc n)
        → c.message_id ≡ some m
        → (validate (es ++ c ∷ [])).1 ≡ []
        → commit_event p replay k m (suc n) c session (validate (es ++ c ∷ [])).0 s ≡ ok (res, s')
        → Refines k e s s' res
    committed-Refines n es c session chain count total numbered same errors h =
        let projection = (validate (es ++ c ∷ [])).0 in
        let d =
          commit-Committed p replay k m (suc n) c session projection s
            (replay.active_listed (es ++ c ∷ []) errors) s' res h in
        let new = commit-IsNew k m (suc n) c session projection s s' res h in
        let row = event_row p k m (suc n) c d.kind (last_hash_of session) d.hash in
        let rows : events_of k s'.events ≡ events_of k s.events ++ row ∷ [] =
          ap (events_of k) d.events
          ∙ (select-append _ s.events (row ∷ [])
              ∙ ap (λ l. events_of k s.events ++ l) (events_of-own p k row refl)) in
        let next : suc n ≡ suc (0 + length (events_of k s.events)) = omega (arith, count) in
        let link : IsLink p (last_hash_of session) (suc (0 + length (events_of k s.events))) row c =
          record {
            numbered = next;
            linked = refl;
            decodes = p.loads-canonical_json c;
            sequence = numbered ∙ ap sequence_number next;
            message = same;
            hashed = d.hashed;
          } in
        let grown =
          subst (λ l. Chained p genesis_hash 0 l (es ++ c ∷ []) d.hash) (sym rows)
            (Chained-append p genesis_hash 0 (events_of k s.events) es (last_hash_of session) row c
              chain link) in
        record {
          old = es;
          new = es ++ res.envelope ∷ [];
          loaded = load-Chained k s es _ chain;
          reloaded =
              load-Chained k s' (es ++ c ∷ []) d.hash grown
              ∙ ap (λ x. ok (es ++ x ∷ [])) (sym new.same);
          step =
              written new.fresh (new.numbered ∙ (ap suc (count ∙ total)))
                (ap (λ (x : Envelope). x.message_id) new.same ∙ (same ∙ sym named));
          others = λ j ne. load-same j s s' (
              ap (events_of j) d.events
              ∙ (select-append _ s.events (row ∷ [])
                  ∙ (ap (λ l. events_of j s.events ++ l) (events_of-other p j row ne)
                      ∙ append-nil _)));
        }

    Chained-length :
        (previous : String) (n : ℕ) (rs : List (EventRow Text)) (es : List Envelope) (head : String)
        → Chained p previous n rs es head
        → length rs ≡ length es
    Chained-length previous n [] [] head c = refl
    Chained-length previous n [] (f ∷ es) head c = absurd c
    Chained-length previous n (r ∷ rs) [] head c = absurd c
    Chained-length previous n (r ∷ rs) (f ∷ es) head c =
        ap suc (Chained-length r.event_hash (suc n) rs es head c.1)

    new-Refines :
        (expected : Option ℕ)
        → append_new p replay k m e expected assign (session_row k s) s ≡ ok (res, s')
        → Refines k e s s' res
    unfolding append_new
    new-Refines expected h =
        let (es, chain, count, loaded) = prior_lem p replay k s (session_row k s) own in
        let last = last_sequence_of (session_row k s) in
        let next : last + 1 ≡ suc last = omega arith in
        let (_, h1) = guard-ok (expected_ok expected last) _ _ h in
        elim (Result-cases (assigned e (last + 1) e.sequence assign)) [
          | inl (x, f) ↦ absurd (err-ne-ok (rw f at h1))
          | inr (c, f) ↦
              let (_, h2) = guard-ok (is_nil (structural_errors p c)) _ _ (rw f at h1) in
              let (clean, h3) =
                guard-ok (is_nil (validate (es ++ c ∷ [])).1) _ _ (rw loaded at h2) in
              let (numbered, same) = assigned_lem e c (last + 1) assign e.sequence refl f in
              committed-Refines last es c (session_row k s) chain count
                (Chained-length genesis_hash 0 (events_of k s.events) es _ chain)
                (numbered ∙ ap sequence_number next) (same ∙ named)
                (is_nil→nil (validate (es ++ c ∷ [])).1 clean)
                (subst
                  (λ i.
                    commit_event p replay k m i c (session_row k s) (validate (es ++ c ∷ [])).0 s
                    ≡ ok (res, s'))
                  next h3)
        ]

    existing-Refines :
        (row : EventRow Text)
        → In row s.events
        → (row.session_id == k && row.message_id == m) ≡ true
        → append_existing p e assign row s ≡ ok (res, s')
        → Refines k e s s' res
    unfolding append_existing
    existing-Refines row listed matches h =
        let (es, chain, count, loaded) = prior_lem p replay k s (session_row k s) own in
        let mine : (row.session_id == k) ≡ true = and-left _ _ matches in
        let (found, k_in, decodes, numbered, message) =
          linked-In genesis_hash 0 (events_of k s.events) es _ row chain
            (In-select (λ (r : EventRow Text). r.session_id == k) s.events listed mine) in
        let h1 = rw decodes at h in
        let (_, h2) =
          guard-ok
            (p.text_eq (p.canonical_json (with_sequence e found.sequence e.sequence assign))
              (p.canonical_json found))
            _ _ h1 in
        let answer = sym (ok-inj h2) in
        let same : s' ≡ s = ap (λ (x : AppendResult × Store Text). x.1) answer in
        let result = ap (λ (x : AppendResult × Store Text). x.0) answer in
        let envelope : res.envelope ≡ found = ap (λ (x : AppendResult). x.envelope) result in
        record {
          old = es;
          new = es;
          loaded = loaded;
          reloaded = ap (load_envelopes p k) same ∙ loaded;
          step =
              present (ap (λ (x : AppendResult). x.already_present) result)
                (ap (λ (x : Envelope). x.sequence) envelope
                  ∙ (numbered
                      ∙ ap sequence_number (sym (ap (λ (x : AppendResult). x.sequence) result))))
                (ap (λ (x : Envelope). x.message_id) envelope
                  ∙ (message
                      ∙ (ap some ((eq_iff row.message_id m).0 (and-right _ _ matches))
                          ∙ sym named)))
                (subst (λ x. In x es) (sym envelope) k_in);
          others = λ j ne. ap (load_envelopes p j) same;
        }

    locked-Refines :
        (expected : Option ℕ)
        → append_locked p replay k m e expected assign s ≡ ok (res, s')
        → Refines k e s s' res
    unfolding append_locked
    locked-Refines expected h =
        elim (Option-cases
          (first (λ (r : EventRow Text). r.session_id == k && r.message_id == m) s.events)) [
            | inl f ↦ new-Refines expected (rw (f, append_locked) at h)
            | inr (row, f) ↦
                existing-Refines row
                  (first-In (λ (r : EventRow Text). r.session_id == k && r.message_id == m) s.events
                    row f)
                  (first-holds (λ (r : EventRow Text). r.session_id == k && r.message_id == m)
                    s.events row f)
                  (rw (f, append_locked) at h)
          ]

-- append refines an append-only log of envelopes for each session. On intact ledgers, an append
-- that returns either writes its envelope at the end of the log of its session, numbered by the
-- place it has there, or answers the envelope with the same message name that is in the log, which
-- it leaves as it is; what is then loaded is that log, and the logs of the other sessions stay.
pub append-Refines :
    (p : Platform) (replay : Replay) (trusted : List (String × String)) (e : Envelope)
    (expected : Option ℕ) (assign : Bool) (s s' : Store p.Text) (res : AppendResult)
    → ((j : String) → IsLedger p replay j s)
    → append p replay trusted e expected assign s ≡ ok (res, s')
    → (k : String) × (e.session_id ≡ some k) × Refines p replay k e s s' res
unfolding append
append-Refines p replay trusted e expected assign s s' res all h =
    let (k, f, h1) = >>=-eq-ok (required e.session_id "session_id_required") _ h in
    let (m, g, h2) = >>=-eq-ok (required e.message_id "message_id_required") _ h1 in
    let (_, h3) = guard-ok (is_event e.kind) _ _ h2 in
    let (_, h4) = guard-ok (not (is_nil trusted)) _ _ h3 in
    (
      k,
      required-some p replay e.session_id "session_id_required" k f,
      locked-Refines p replay k m e assign s s' res
          (required-some p replay e.message_id "message_id_required" m g) (all k) expected h4,
    )
