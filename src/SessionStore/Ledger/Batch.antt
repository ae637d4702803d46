-- ===== src/SessionStore/Ledger/Batch.antt =====
-- What append_many of src/w1cip/session_store.py leaves in the logs of the sessions.
use mathlib.Core.List.{append-nil, append_assoc}
use w1_nexus.Prelude.{
  ◌⊎◌, ℕ, suc, ◌+◌, ◌≡◌, refl, ap, ◌∙◌, sym, subst, String, true, not, ◌&&◌, Option, none, some,
  List, [], ◌∷◌, ◌++◌, arith, eqb_iff, ◌==◌, eq_iff, first, In, here, In-left, In-right, Bool-cases,
  Option-cases, inl, inr, true-ne-false,
}
use w1_nexus.SessionStore.Types.{
  Envelope, EventRow, Store, StoreError, Result, ok, err, ◌>>=◌, AppendResult,
}
use w1_nexus.SessionStore.Platform.{Platform, Replay, structural_errors}
use w1_nexus.SessionStore.Projections.{session_row, decoded, load_envelopes}
use w1_nexus.SessionStore.Append.{
  assigned, last_sequence_of, expected_ok, is_nil, append_new, append_locked, append_existing,
  append, append_many, required, is_event, with_sequence,
}
use w1_nexus.SessionStore.Ledger.{IsLedger}
use w1_nexus.SessionStore.Ledger.Tables.{ok-inj, >>=-eq-ok}
use w1_nexus.SessionStore.Ledger.Replaced.{Result-cases}
use w1_nexus.SessionStore.Ledger.Appended.{guard-ok, append-IsLedger}
use w1_nexus.SessionStore.Ledger.Log.{
  LogStep, written, present, Refines, append-Refines, commit-IsNew,
}

-- The expected sequence after some results.
abbrev pub expected_after : Option ℕ → List AppendResult → Option ℕ
expected_after expected [] = expected
expected_after expected (r ∷ rs) = expected_after (some r.sequence) rs

-- A result is of an envelope that was there, or follows the expected sequence.
abbrev pub IsNext : Option ℕ → AppendResult → Type 0
IsNext none r = Unit
IsNext (some n) r = (r.already_present ≡ true) ⊎ (r.sequence ≡ suc n)

abbrev pub IsContiguous : Option ℕ → List AppendResult → Type 0
IsContiguous expected [] = Unit
IsContiguous expected (r ∷ rs) = IsNext expected r × IsContiguous (some r.sequence) rs

module _ (p : Platform) (replay : Replay) (trusted : List (String × String)) where
  open p use {Text}
  open replay use {validate}

  -- A log that is there is a prefix of the later one.
  abbrev pub IsGrown : Store Text → Store Text → Type 0
  IsGrown s t =
      (j : String) (es : List Envelope)
      → load_envelopes p j s ≡ ok es
      → (more : List Envelope) × (load_envelopes p j t ≡ ok (es ++ more))

  -- Events with the results that answer them, each with its envelope in the log of its session.
  pub data IsRecorded (t : Store Text) : List Envelope → List AppendResult → Type 0 where
    nothing : IsRecorded t [] []
    recorded :
        {e : Envelope} {res : AppendResult} {es : List Envelope} {rs : List AppendResult}
        (k : String) (log : List Envelope)
        → e.session_id ≡ some k
        → res.envelope.message_id ≡ e.message_id
        → load_envelopes p k t ≡ ok log
        → In res.envelope log
        → IsRecorded t es rs
        → IsRecorded t (e ∷ es) (res ∷ rs)

  -- All events were taken, or the next one is refused in the store that the others left.
  pub data Ending (expected : Option ℕ) (rs : List AppendResult) (t : Store Text)
      : List Envelope → Result (List AppendResult) → Type 0 where
    completed : Ending expected rs t [] (ok rs)
    refused :
        {e : Envelope} {later : List Envelope} {code : StoreError}
        → append p replay trusted e (expected_after expected rs) true t ≡ err code
        → Ending expected rs t (e ∷ later) (err code)

  pub record Batch (es : List Envelope) (expected : Option ℕ) (s : Store Text)
      (answer : Result (List AppendResult)) (t : Store Text) : Type 0 where
    pub taken : List Envelope
    pub rest : List Envelope
    pub results : List AppendResult
    pub split : es ≡ taken ++ rest
    pub in_log : IsRecorded t taken results
    pub contiguous : IsContiguous expected results
    pub ending : Ending expected results t rest answer
    pub grown : IsGrown s t
    pub intact : (j : String) → IsLedger p replay j t

  module _ (e : Envelope) (s s' : Store Text) (res : AppendResult) where
    new-IsNext :
        (k m : String) (n : ℕ)
        → append_new p replay k m e (some n) true (session_row k s) s ≡ ok (res, s')
        → res.sequence ≡ suc n
    unfolding append_new
    new-IsNext k m n h =
        let last = last_sequence_of (session_row k s) in
        let (same, h1) = guard-ok (expected_ok (some n) last) _ _ h in
        let (c, _, h2) = >>=-eq-ok (assigned e (last + 1) e.sequence true) _ h1 in
        let (_, h3) = guard-ok (is_nil (structural_errors p c)) _ _ h2 in
        let (prior, _, h4) = >>=-eq-ok (load_envelopes p k s) _ h3 in
        let (_, h5) = guard-ok (is_nil (validate (prior ++ c ∷ [])).1) _ _ h4 in
        let new =
          commit-IsNew p replay k m (last + 1) c (session_row k s) (validate (prior ++ c ∷ [])).0 s
            s' res h5 in
        let at : last ≡ n = (eqb_iff last n).0 same in omega (arith, new.numbered, at)

    existing-present :
        (row : EventRow Text)
        → append_existing p e true row s ≡ ok (res, s')
        → res.already_present ≡ true
    unfolding append_existing
    existing-present row h =
        let (persisted, _, h1) = >>=-eq-ok (decoded p (p.loads row.envelope_json)) _ h in
        let (_, h2) =
          guard-ok
            (p.text_eq (p.canonical_json (with_sequence e persisted.sequence e.sequence true))
              (p.canonical_json persisted))
            _ _ h1 in
        ap (λ (x : AppendResult × Store Text). x.0.already_present) (sym (ok-inj h2))

    append-IsNext :
        (expected : Option ℕ)
        → append p replay trusted e expected true s ≡ ok (res, s')
        → IsNext expected res
    unfolding append append_locked
    append-IsNext none h = tt
    append-IsNext (some n) h =
        let (k, _, h1) = >>=-eq-ok (required e.session_id "session_id_required") _ h in
        let (m, _, h2) = >>=-eq-ok (required e.message_id "message_id_required") _ h1 in
        let (_, h3) = guard-ok (is_event e.kind) _ _ h2 in
        let (_, h4) = guard-ok (not (is_nil trusted)) _ _ h3 in
        elim (Option-cases
          (first (λ (r : EventRow Text). r.session_id == k && r.message_id == m) s.events)) [
            | inl f ↦ inr (new-IsNext k m n (rw (f, append_locked) at h4))
            | inr (row, f) ↦ inl (existing-present row (rw (f, append_locked) at h4))
          ]

    -- What a step on a log adds.
    LogStep-grows :
        (es new : List Envelope)
        → LogStep e es res new
        → (more : List Envelope) × (new ≡ es ++ more)
          × In res.envelope new
          × (res.envelope.message_id ≡ e.message_id)
    LogStep-grows es _ (written fresh numbered named) =
        (res.envelope ∷ [], refl, In-right es (res.envelope ∷ []) here, named)
    LogStep-grows es _ (present old numbered named m) = ([], sym (append-nil es), m, named)

    append-IsGrown : (k : String) → Refines p replay k e s s' res → IsGrown s s'
    append-IsGrown k r j es loaded = elim (Bool-cases (k == j)) [
      | inr f ↦ (
        [],
        r.others j (λ q. true-ne-false (sym ((eq_iff k j).1 q) ∙ f))
            ∙ (loaded ∙ ap ok (sym (append-nil es))),
      )
      | inl f ↦
          let (more, new, _, _) = LogStep-grows r.old r.new r.step in
          let here_k =
            subst (λ i. load_envelopes p i s' ≡ ok r.new) ((eq_iff k j).0 f) r.reloaded in
          let old = subst (λ i. load_envelopes p i s ≡ ok r.old) ((eq_iff k j).0 f) r.loaded in
          let same : r.old ≡ es = ok-inj (sym old ∙ loaded) in
          (more, here_k ∙ ap ok (new ∙ ap (λ l. l ++ more) same))
    ]

    IsGrown-trans : (t : Store Text) → IsGrown s s' → IsGrown s' t → IsGrown s t
    IsGrown-trans t a b j es loaded =
        let (more, later) = a j es loaded in
        let (rest, last) = b j (es ++ more) later in
        (more ++ rest, last ∙ ap ok (append_assoc es more rest))

    Ending-next :
        (expected : Option ℕ) (rs : List AppendResult) (t : Store Text) (rest : List Envelope)
        (answer : Result (List AppendResult))
        → Ending (some res.sequence) rs t rest answer
        → Ending expected (res ∷ rs) t rest (do results ← answer; ok (res ∷ results))
    Ending-next expected rs t _ _ completed = completed
    Ending-next expected rs t _ _ (refused h) = refused h

    Batch-next :
        (es : List Envelope) (expected : Option ℕ) (answer : Result (List AppendResult))
        (t : Store Text)
        → ((j : String) → IsLedger p replay j s)
        → append p replay trusted e expected true s ≡ ok (res, s')
        → Batch es (some res.sequence) s' answer t
        → Batch (e ∷ es) expected s (do results ← answer; ok (res ∷ results)) t
    Batch-next es expected answer t all h b =
        let (k, named, r) = append-Refines p replay trusted e expected true s s' res all h in
        let (_, _, m, message) = LogStep-grows r.old r.new r.step in
        let (more, loaded) = b.grown k r.new r.reloaded in
        record {
          taken = e ∷ b.taken;
          rest = b.rest;
          results = res ∷ b.results;
          split = ap (λ l. e ∷ l) b.split;
          in_log = recorded k (r.new ++ more) named message loaded (In-left r.new more m) b.in_log;
          contiguous = (append-IsNext expected h, b.contiguous);
          ending = Ending-next expected b.results t b.rest answer b.ending;
          grown = IsGrown-trans t (append-IsGrown k r) b.grown;
          intact = b.intact;
        }

-- append_many on intact ledgers takes the first events of its batch, up to the first that append
-- refuses in the store that these left, with the sequence of the last result as the expected one;
-- this refusal is what it raises, and if there is none, it returns the results. At the end, the
-- envelope of each result has the message name of its event and is in the log of the event's
-- session; a result that was not there before has the sequence after the one that was expected, if
-- one was, which from the second on is that of the result before it; every log that was there is a
-- prefix of the later one; and every ledger is intact.
pub append_many-Batch :
    (p : Platform) (replay : Replay) (trusted : List (String × String)) (es : List Envelope)
    (expected : Option ℕ) (s : Store p.Text)
    → ((j : String) → IsLedger p replay j s)
    → Batch p replay trusted es expected s
        (append_many p replay trusted es expected s).0
        (append_many p replay trusted es expected s).1
unfolding append_many
append_many-Batch p replay trusted [] expected s all = record {
  taken = [];
  rest = [];
  results = [];
  split = refl;
  in_log = nothing;
  contiguous = tt;
  ending = completed;
  grown = λ j es loaded. ([], loaded ∙ ap ok (sym (append-nil es)));
  intact = all;
}
append_many-Batch p replay trusted (e ∷ es) expected s all =
    elim (Result-cases (append p replay trusted e expected true s)) [
      | inl (code, f) ↦
          rw (f, append_many)
            record {
              taken = [];
              rest = e ∷ es;
              results = [];
              split = refl;
              in_log = nothing;
              contiguous = tt;
              ending = refused f;
              grown = λ j old loaded. ([], loaded ∙ ap ok (sym (append-nil old)));
              intact = all;
            }
      | inr ((res, s'), f) ↦
          rw (f, append_many)
            (Batch-next p replay trusted e s s' res es expected
              (append_many p replay trusted es (some res.sequence) s').0
              (append_many p replay trusted es (some res.sequence) s').1 all f
              (append_many-Batch p replay trusted es (some res.sequence) s'
                (append-IsLedger p replay trusted e expected true s s' res all f)))
    ]
