-- ===== src/SessionStore/Ledger/Binding.antt =====
-- The head of the hash chain of src/w1cip/session_store.py binds the whole log of a session.
use w1_nexus.Prelude.{
  ℕ, suc, ◌≡◌, ◌≢◌, ◌⊎◌, refl, ap, ◌∙◌, sym, subst, String, some, List, [], ◌∷◌, ◌++◌, map, arith,
  eqb, eqb_iff, length, Bool-cases, Option-cases, inl, inr,
}
use w1_nexus.SessionStore.Types.{Envelope, SessionRow, EventRow, Store, ok}
use w1_nexus.SessionStore.Platform.{Platform, Replay, genesis_hash, payload, chained_event_hash}
use w1_nexus.SessionStore.Projections.{session_row, events_of, load_envelopes}
use w1_nexus.SessionStore.Ledger.{Chained, IsIntact, LedgerOf, IsLedger}
use w1_nexus.SessionStore.Ledger.Tables.{ok-inj}
use w1_nexus.SessionStore.Ledger.Replaced.{err-ne-ok}
use w1_nexus.SessionStore.Ledger.Log.{load-Chained}

cons-inj {ℓ} : {A : Type ℓ} {a b : A} {xs ys : List A} → a ∷ xs ≡ b ∷ ys → (a ≡ b) × (xs ≡ ys)
cons-inj h = (cc, cc)

bytes_cases : (a b : List ℕ) → (a ≡ b) ⊎ (a ≢ b)
bytes_cases [] [] = inl refl
bytes_cases [] (y ∷ b) = inr (λ h. cc)
bytes_cases (x ∷ a) [] = inr (λ h. cc)
bytes_cases (x ∷ a) (y ∷ b) = elim (Bool-cases (eqb x y)) [
  | inr e ↦ inr (λ h. ground (arith, e, (cons-inj h).0))
  | inl e ↦ elim (bytes_cases a b) [
    | inl f ↦ inl (rw ((eqb_iff x y).0 e, f) refl)
    | inr f ↦ inr (λ h. f (cons-inj h).1)
  ]
]

-- Texts whose first parts have the same length.
append-inj : (a b x y : List ℕ) → length a ≡ length b → a ++ x ≡ b ++ y → (a ≡ b) × (x ≡ y)
append-inj [] [] x y l h = (refl, h)
append-inj [] (c ∷ b) x y l h = absurd (omega (arith, l))
append-inj (c ∷ a) [] x y l h = absurd (omega (arith, l))
append-inj (c ∷ a) (d ∷ b) x y l h =
    let (e, f) = cons-inj h in
    let (g, k) = append-inj a b x y (omega (arith, l)) f in (rw (e, g) refl, k)

module _ (p : Platform) where
  open p use {Text}

  -- Two byte strings with one digest.
  pub record Collision : Type 0 where
    pub first : List ℕ
    pub second : List ℕ
    pub different : first ≢ second
    pub same_digest : p.sha256_hexdigest first ≡ p.sha256_hexdigest second

  -- What is hashed of an envelope.
  abbrev pub bytes_of : Envelope → List ℕ
  bytes_of e = p.encode (p.canonical_json e)

  hash_cases :
      (previous : String) (e : Envelope) (hash : String)
      → chained_event_hash p previous e ≡ ok hash
      → (d : List ℕ) × (p.fromhex previous ≡ some d) × (p.sha256_hexdigest (payload p d e) ≡ hash)
  unfolding chained_event_hash
  hash_cases previous e hash h = elim (Option-cases (p.fromhex previous)) [
    | inl f ↦ absurd (err-ne-ok (rw f at h))
    | inr (d, f) ↦ (d, f, ok-inj (rw f at h))
  ]

  module _
      (digest_size : (b d : List ℕ) → p.fromhex (p.sha256_hexdigest b) ≡ some d → length d ≡ 32)
      (genesis_size : (d : List ℕ) → p.fromhex genesis_hash ≡ some d → length d ≡ 32)
      (digest_read : (a b : List ℕ)
        → p.fromhex (p.sha256_hexdigest a) ≡ p.fromhex (p.sha256_hexdigest b)
        → p.sha256_hexdigest a ≡ p.sha256_hexdigest b) where
    -- A value of the chain: 32 bytes.
    abbrev IsDigest : String → Type 0
    IsDigest h = (d : List ℕ) → p.fromhex h ≡ some d → length d ≡ 32

    -- The same logs from the same start, or a collision.
    abbrev Agree : String → String → List Envelope → List Envelope → Type 0
    Agree a b es fs =
        ((p.fromhex a ≡ p.fromhex b) × (map bytes_of es ≡ map bytes_of fs)) ⊎ Collision

    link-Agree :
        (a b : String) (d c : List ℕ) (e f : Envelope) (es fs : List Envelope)
        → IsDigest a
        → IsDigest b
        → p.fromhex a ≡ some d
        → p.fromhex b ≡ some c
        → p.sha256_hexdigest (payload p d e) ≡ p.sha256_hexdigest (payload p c f)
        → map bytes_of es ≡ map bytes_of fs
        → Agree a b (e ∷ es) (f ∷ fs)
    link-Agree a b d c e f es fs size_a size_b read_a read_b same rest =
        elim (bytes_cases (payload p d e) (payload p c f)) [
          | inr ne ↦ inr (record {
            first = payload p d e;
            second = payload p c f;
            different = ne;
            same_digest = same;
          })
          | inl eq ↦
              let (x, y) =
                append-inj d c (b'\n' ∷ bytes_of e) (b'\n' ∷ bytes_of f)
                  (size_a d read_a ∙ sym (size_b c read_b)) eq in
              inl (read_a ∙ (ap some x ∙ sym read_b), rw ((cons-inj y).1, rest) refl)
        ]

    chains-Agree :
        (a b : String) (n m : ℕ) (rs qs : List (EventRow Text)) (es fs : List Envelope)
        (head : String)
        → IsDigest a
        → IsDigest b
        → length rs ≡ length qs
        → Chained p a n rs es head
        → Chained p b m qs fs head
        → Agree a b es fs
    chains-Agree a b n m [] [] [] [] head size_a size_b l c d = inl (ap p.fromhex (c ∙ sym d), refl)
    chains-Agree a b n m (r ∷ rs) (q ∷ qs) (e ∷ es) (f ∷ fs) head size_a size_b l c d =
        let (x, read_x, hash_x) = hash_cases a e r.event_hash c.0.hashed in
        let (y, read_y, hash_y) = hash_cases b f q.event_hash d.0.hashed in
        let size_r : IsDigest r.event_hash = subst IsDigest hash_x (digest_size (payload p x e)) in
        let size_q : IsDigest q.event_hash = subst IsDigest hash_y (digest_size (payload p y f)) in
        elim (chains-Agree r.event_hash q.event_hash (suc n) (suc m) rs qs es fs head size_r size_q
          (omega (arith, l)) c.1 d.1) [
            | inr collision ↦ inr collision
            | inl (start, rest) ↦
                link-Agree a b x y e f es fs size_a size_b read_x read_y
                  (digest_read (payload p x e) (payload p y f)
                    (ap p.fromhex hash_x ∙ (start ∙ sym (ap p.fromhex hash_y))))
                  rest
          ]
    chains-Agree a b n m [] (q ∷ qs) es fs head size_a size_b l c d = absurd (omega (arith, l))
    chains-Agree a b n m (r ∷ rs) [] es fs head size_a size_b l c d = absurd (omega (arith, l))
    chains-Agree a b n m [] [] (e ∷ es) fs head size_a size_b l c d = absurd c
    chains-Agree a b n m [] [] [] (f ∷ fs) head size_a size_b l c d = absurd d
    chains-Agree a b n m (r ∷ rs) (q ∷ qs) [] fs head size_a size_b l c d = absurd c
    chains-Agree a b n m (r ∷ rs) (q ∷ qs) (e ∷ es) [] head size_a size_b l c d = absurd d

    module _ (replay : Replay) where
      session-IsIntact :
          (k : String) (s : Store Text) (r : SessionRow)
          → session_row k s ≡ some r
          → IsLedger p replay k s
          → (es : List Envelope) × IsIntact p replay k s r es
      session-IsIntact k s r found h = subst (LedgerOf p replay k s) found h

      -- Two intact ledgers, of one store or of two, whose session rows have the same number of events
      -- and the same head hash, hold logs of the same canonical bytes, or two different byte
      -- strings with one SHA-256 digest are found. A digest and the genesis hash are read as 32
      -- bytes, and different digests are read as different bytes.
      pub heads_bind :
          (k j : String) (s t : Store Text) (r q : SessionRow)
          → IsLedger p replay k s
          → IsLedger p replay j t
          → session_row k s ≡ some r
          → session_row j t ≡ some q
          → r.last_sequence ≡ q.last_sequence
          → r.last_event_hash ≡ q.last_event_hash
          → (es : List Envelope) × (fs : List Envelope) × (load_envelopes p k s ≡ ok es)
            × (load_envelopes p j t ≡ ok fs)
            × ((map bytes_of es ≡ map bytes_of fs) ⊎ Collision)
      heads_bind k j s t r q hs ht fr fq same_count same_head =
          let (es, i) = session-IsIntact k s r fr hs in
          let (fs, l) = session-IsIntact j t q fq ht in
          let chain =
            subst (λ h. Chained p genesis_hash 0 (events_of j t.events) fs h) (sym same_head)
              l.chain in
          (
            es,
            fs,
            load-Chained p replay k s es r.last_event_hash i.chain,
            load-Chained p replay j t fs q.last_event_hash l.chain,
            elim (chains-Agree genesis_hash genesis_hash 0 0 (events_of k s.events)
                (events_of j t.events) es fs r.last_event_hash genesis_size genesis_size
                (sym i.count ∙ (same_count ∙ l.count)) i.chain chain) [
                  | inl (start, same) ↦ inl same
                  | inr collision ↦ inr collision
                ],
          )
