-- ===== src/SessionStore/Ledger/Effects.antt =====
-- The active protocol effects that src/w1cip/session_store.py stores are those of the projection.
use w1_nexus.Prelude.{
  ◌≡◌, refl, ap, ◌∙◌, Bool, true, ◌&&◌, List, [], ◌∷◌, arith, eqb_iff, eq_iff, all, any, select,
  and-left, and-right, Bool-cases, inl, inr,
}
use w1_nexus.SessionStore.Types.{EntityVersionKey, EntityRecord, key_eq}
use w1_nexus.SessionStore.Platform.{is_protocol_event, has_key}
use w1_nexus.SessionStore.Integrity.{same_entries}
use w1_nexus.SessionStore.Ledger.Verified.{all-any, key_eq_refl}
use w1_nexus.SessionStore.Ledger.Tables.{marked_keys}

key_eq→eq : (a b : EntityVersionKey) → key_eq a b ≡ true → a ≡ b
key_eq→eq a b h = ground (
  arith,
  eq_iff a.entity_type b.entity_type,
  eq_iff a.entity_id b.entity_id,
  eqb_iff a.entity_version b.entity_version,
)

typed_key :
    (a : EntityVersionKey)
    → is_protocol_event a ≡ true
    → record a { entity_type = "protocol_event" } ≡ a
typed_key a h = ground (arith, eq_iff a.entity_type "protocol_event")

all-both {ℓ} :
    {A : Type ℓ} (p q r : A → Bool)
    → ((x : A) → p x ≡ true → q x ≡ true → r x ≡ true)
    → (xs : List A) → all p xs ≡ true
    → all q xs ≡ true
    → all r xs ≡ true
all-both p q r f [] hp hq = refl
all-both p q r f (x ∷ xs) hp hq =
    rw (f x (and-left (p x) _ hp) (and-left (q x) _ hq))
      (all-both p q r f xs (and-right (p x) _ hp) (and-right (q x) _ hq))

abbrev protocol_entries :
    List (EntityVersionKey × EntityRecord) → List (EntityVersionKey × EntityRecord)
protocol_entries = select (λ entry. is_protocol_event entry.0)

module _ (active : List EntityVersionKey) where
  marked-active :
      (entries : List (EntityVersionKey × EntityRecord))
      → all (λ x. any (key_eq x) active) (marked_keys active (protocol_entries entries)) ≡ true
  marked-active [] = refl
  marked-active ((key, entity) ∷ rest) = elim (Bool-cases (is_protocol_event key)) [
    | inr e ↦ rw e (marked-active rest)
    | inl e ↦ rw e (elim (Bool-cases (any (key_eq key) active)) [
      | inr f ↦ rw f (marked-active rest)
      | inl f ↦ rw f (rw (typed_key key e, f) (marked-active rest))
    ])
  ]

  active-marked :
      (y : EntityVersionKey)
      → is_protocol_event y ≡ true
      → any (key_eq y) active ≡ true
      → (entries : List (EntityVersionKey × EntityRecord)) → has_key y entries ≡ true
      → any (key_eq y) (marked_keys active (protocol_entries entries)) ≡ true
  active-marked y t f [] h = h
  active-marked y t f ((key, entity) ∷ rest) h = elim (Bool-cases (key_eq key y)) [
    | inl e ↦
        let same = key_eq→eq key y e in
        let typed : key_eq y (record key { entity_type = "protocol_event" }) ≡ true =
          ap (λ k. key_eq y (record k { entity_type = "protocol_event" })) same
          ∙ (ap (key_eq y) (typed_key y t) ∙ key_eq_refl y) in
        rw (ap is_protocol_event same ∙ t)
          (rw (ap (λ k. any (key_eq k) active) same ∙ f) (rw typed refl))
    | inr e ↦ ground (arith, active-marked y t f rest (rw e at h))
  ]

-- The effects marked active among the entries of a projection are its active events.
pub marked-same_entries :
    (active : List EntityVersionKey) (records : List (EntityVersionKey × EntityRecord))
    → all (λ k. is_protocol_event k && has_key k records) active ≡ true
    → same_entries key_eq (marked_keys active (protocol_entries records)) active ≡ true
marked-same_entries active records h = rw (marked-active active records) (
    all-both (λ k. is_protocol_event k && has_key k records) (λ k. any (key_eq k) active) _
      (λ y a b.
        active-marked active y (and-left (is_protocol_event y) _ a) b records
          (and-right (is_protocol_event y) _ a))
      active h (all-any key_eq key_eq_refl [] active))
