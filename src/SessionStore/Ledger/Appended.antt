-- ===== src/SessionStore/Ledger/Appended.antt =====
-- SessionStore.append of src/w1cip/session_store.py keeps every ledger intact.
use w1_nexus.Prelude.{
  ℕ, suc, ◌+◌, ◌≡◌, refl, ap, ◌∙◌, sym, subst, String, Bool, true, false, not, ◌&&◌, Option, none,
  some, List, [], ◌∷◌, ◌++◌, arith, eqb, eqb_iff, ◌==◌, eq_iff, length, first, Bool-cases,
  Option-cases, inl, inr, true-ne-false,
}
use w1_nexus.SessionStore.Types.{
  SequenceValue, no_sequence, null_sequence, sequence_number, other_sequence, Envelope, SessionRow,
  EventRow, Store, StoreError, Result, ok, ◌>>◌, guard, AppendResult,
}
use w1_nexus.SessionStore.Platform.{Platform, Replay, genesis_hash, structural_errors}
use w1_nexus.SessionStore.Projections.{session_row, events_of, decoded, load_envelopes}
use w1_nexus.SessionStore.Append.{
  assigned, last_sequence_of, last_hash_of, expected_ok, is_nil, commit_event, append_new,
  append_locked, append_existing, append, required, is_event, with_sequence,
}
use w1_nexus.SessionStore.Ledger.{Chained, LedgerOf, IsLedger}
use w1_nexus.SessionStore.Ledger.Tables.{ok-inj}
use w1_nexus.SessionStore.Ledger.Verified.{order-Chained, decode-Chained}
use w1_nexus.SessionStore.Ledger.Replaced.{Result-cases, err-ne-ok}
use w1_nexus.SessionStore.Ledger.Preserved.{commit-Committed, own-IsLedger, other-IsLedger}

pub is_nil→nil {ℓ} : {A : Type ℓ} (xs : List A) → is_nil xs ≡ true → xs ≡ []
is_nil→nil [] h = refl
is_nil→nil (x ∷ xs) h = cc

-- A guard that is passed holds, and leaves what follows it.
pub guard-ok {ℓ} :
    {B : Type ℓ} (b : Bool) (e : StoreError) (m : Result B) {a : B}
    → (guard b e >> m) ≡ ok a
    → (b ≡ true) × (m ≡ ok a)
guard-ok true e m h = (refl, h)
guard-ok false e m h = cc

pub assigned_lem :
    (e c : Envelope) (n : ℕ) (assign : Bool) (o : SequenceValue)
    → e.sequence ≡ o
    → assigned e n o assign ≡ ok c
    → (c.sequence ≡ sequence_number n) × (c.message_id ≡ e.message_id)
assigned_lem e c n true no_sequence q h = (ground arith, ground arith)
assigned_lem e c n false no_sequence q h = cc
assigned_lem e c n true null_sequence q h = (ground arith, ground arith)
assigned_lem e c n false null_sequence q h = cc
assigned_lem e c n assign (other_sequence x) q h = cc
assigned_lem e c n assign (sequence_number m) q h = elim (Bool-cases (eqb m n)) [
  | inr f ↦ absurd (err-ne-ok (rw f at h))
  | inl f ↦
      let same = ok-inj (rw f at h) in
      let number : m ≡ n = (eqb_iff m n).0 f in
      (
        ap (λ (x : Envelope). x.sequence) (sym same) ∙ (q ∙ ap sequence_number number),
        ap (λ (x : Envelope). x.message_id) (sym same),
      )
]

module _ (p : Platform) (replay : Replay) where
  open p use {Text}
  open replay use {validate}

  -- What a new event is appended to.
  pub prior_lem :
      (k : String) (s : Store Text) (session : Option SessionRow)
      → LedgerOf p replay k s session
      → (es : List Envelope) × Chained p genesis_hash 0
          (events_of k s.events)
          es
          (last_hash_of session)
        × (last_sequence_of session ≡ length (events_of k s.events))
        × (load_envelopes p k s ≡ ok es)
  unfolding load_envelopes
  prior_lem k s none h = ([], rw h refl, rw h refl, rw h refl)
  prior_lem k s (some r) (es, h) = (
    es,
    h.chain,
    h.count,
    rw (order-Chained p genesis_hash 0 (events_of k s.events) es r.last_event_hash h.chain)
        (decode-Chained p genesis_hash 0 (events_of k s.events) es r.last_event_hash h.chain),
  )

  abbrev IsKept : Store Text → Store Text → Type 0
  IsKept s s' = (j : String) → IsLedger p replay j s → IsLedger p replay j s'

  module _ (k m : String) (e : Envelope) (assign : Bool) (s : Store Text)
      (named : e.message_id ≡ some m) (own : IsLedger p replay k s) where
    committed-IsKept :
        (es : List Envelope) (c : Envelope) (s' : Store Text) (res : AppendResult)
        → Chained p genesis_hash 0 (events_of k s.events) es (last_hash_of (session_row k s))
        → last_sequence_of (session_row k s) ≡ length (events_of k s.events)
        → c.sequence ≡ sequence_number (last_sequence_of (session_row k s) + 1)
        → c.message_id ≡ some m
        → (validate (es ++ c ∷ [])).1 ≡ []
        → commit_event p replay k m
            (last_sequence_of (session_row k s) + 1)
            c
            (session_row k s)
            (validate (es ++ c ∷ [])).0
            s
          ≡ ok (res, s')
        → IsKept s s'
    committed-IsKept es c s' res chain count numbered same errors h j old =
        let last = last_sequence_of (session_row k s) in
        let next : last + 1 ≡ suc last = omega arith in
        let projection = (validate (es ++ c ∷ [])).0 in
        let listed = replay.active_listed (es ++ c ∷ []) errors in
        let at_next =
          commit-Committed p replay k m (suc last) c (session_row k s) projection s listed s' res (
            subst (λ i. commit_event p replay k m i c (session_row k s) projection s ≡ ok (res, s'))
              next h) in
        elim (Bool-cases (k == j)) [
          | inl f ↦
              subst (λ i. IsLedger p replay i s') ((eq_iff k j).0 f)
                (own-IsLedger p replay k m c s s' es same errors (session_row k s) last refl chain
                  count (numbered ∙ ap sequence_number next) at_next)
          | inr f ↦
              other-IsLedger p replay k m j (suc last) c (session_row k s) projection s s'
                (λ q. true-ne-false (sym ((eq_iff k j).1 q) ∙ f)) at_next old
        ]

    append_new-IsKept :
        (expected : Option ℕ) (s' : Store Text) (res : AppendResult)
        → append_new p replay k m e expected assign (session_row k s) s ≡ ok (res, s')
        → IsKept s s'
    unfolding append_new
    append_new-IsKept expected s' res h =
        let (es, chain, count, loaded) = prior_lem k s (session_row k s) own in
        let n = last_sequence_of (session_row k s) + 1 in
        let (_, h1) = guard-ok (expected_ok expected (last_sequence_of (session_row k s))) _ _ h in
        elim (Result-cases (assigned e n e.sequence assign)) [
          | inl (x, f) ↦ absurd (err-ne-ok (rw f at h1))
          | inr (c, f) ↦
              let (_, h2) = guard-ok (is_nil (structural_errors p c)) _ _ (rw f at h1) in
              let (clean, h3) =
                guard-ok (is_nil (validate (es ++ c ∷ [])).1) _ _ (rw loaded at h2) in
              let (numbered, same) = assigned_lem e c n assign e.sequence refl f in
              committed-IsKept es c s' res chain count numbered (same ∙ named)
                (is_nil→nil (validate (es ++ c ∷ [])).1 clean) h3
        ]

    existing-IsKept :
        (row : EventRow Text) (s' : Store Text) (res : AppendResult)
        → append_existing p e assign row s ≡ ok (res, s')
        → IsKept s s'
    unfolding append_existing
    existing-IsKept row s' res h j old =
        elim (Result-cases (decoded p (p.loads row.envelope_json))) [
          | inl (x, f) ↦ absurd (err-ne-ok (rw f at h))
          | inr (persisted, f) ↦
              let candidate = with_sequence e persisted.sequence e.sequence assign in
              let (_, h1) =
                guard-ok (p.text_eq (p.canonical_json candidate) (p.canonical_json persisted)) _ _
                  (rw f at h) in
              subst (IsLedger p replay j) (ap (λ (x : AppendResult × Store Text). x.1) (ok-inj h1))
                old
        ]

    append_locked-IsKept :
        (expected : Option ℕ) (s' : Store Text) (res : AppendResult)
        → append_locked p replay k m e expected assign s ≡ ok (res, s')
        → IsKept s s'
    unfolding append_locked
    append_locked-IsKept expected s' res h =
        elim (Option-cases
          (first (λ (r : EventRow Text). r.session_id == k && r.message_id == m) s.events)) [
            | inl f ↦ append_new-IsKept expected s' res (rw (f, append_locked) at h)
            | inr (row, f) ↦ existing-IsKept row s' res (rw (f, append_locked) at h)
          ]

  pub required-some : (o : Option String) (code x : String) → required o code ≡ ok x → o ≡ some x
  required-some none code x h = cc
  required-some (some y) code x h = ground arith

-- An event that is appended, whether it is new or already there, leaves an intact ledger intact,
-- that of its own session and that of every other one.
pub append-IsLedger :
    (p : Platform) (replay : Replay) (trusted : List (String × String)) (e : Envelope)
    (expected : Option ℕ) (assign : Bool) (s s' : Store p.Text) (res : AppendResult)
    → ((j : String) → IsLedger p replay j s)
    → append p replay trusted e expected assign s ≡ ok (res, s')
    → (j : String) → IsLedger p replay j s'
unfolding append
append-IsLedger p replay trusted e expected assign s s' res all h j =
    elim (Result-cases (required e.session_id "session_id_required")) [
      | inl (x, f) ↦ absurd (err-ne-ok (rw f at h))
      | inr (k, f) ↦ elim (Result-cases (required e.message_id "message_id_required")) [
        | inl (x, g) ↦ absurd (err-ne-ok (rw g at (rw f at h)))
        | inr (m, g) ↦
            let (_, h1) = guard-ok (is_event e.kind) _ _ (rw g at (rw f at h)) in
            let (_, h2) = guard-ok (not (is_nil trusted)) _ _ h1 in
            append_locked-IsKept p replay k m e assign s
              (required-some p replay e.message_id "message_id_required" m g) (all k) expected s'
              res h2 j (all j)
      ]
    ]
