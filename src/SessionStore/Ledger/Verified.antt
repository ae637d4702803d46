-- ===== src/SessionStore/Ledger/Verified.antt =====
-- What the loops of src/w1cip/session_store.py over the rows of a session read in an intact chain.
use mathlib.Core.List.{append_assoc}
use w1_nexus.Prelude.{
  ℕ, suc, ◌≡◌, refl, subst, String, Bool, true, List, [], ◌∷◌, ◌++◌, arith, eqb_refl, eq_refl, all,
  any, option_eq_refl,
}
use w1_nexus.SessionStore.Types.{
  Envelope, EntityKey, EntityVersionKey, EntityRecord, EventRow, ok, key_eq,
}
use w1_nexus.SessionStore.Platform.{Platform}
use w1_nexus.SessionStore.Projections.{insert_by_sequence, order_by_sequence, decode_rows}
use w1_nexus.SessionStore.Integrity.{check_rows, latest_eq, entry_eq, link_errors, row_errors}
use w1_nexus.SessionStore.Ledger.{IsLink, Chained}

any_self {ℓ} :
    {A : Type ℓ} (f : A → Bool) (xs ys : List A) (x : A) → f x ≡ true → any f (xs ++ x ∷ ys) ≡ true
any_self f [] ys x h = rw h
any_self f (y ∷ xs) ys x h = ground (arith, any_self f xs ys x h)

pub all-any {ℓ} :
    {A : Type ℓ} (eq : A → A → Bool) (refl_eq : (x : A) → eq x x ≡ true) (xs ys : List A)
    → all (λ x. any (eq x) (xs ++ ys)) ys ≡ true
all-any eq r xs [] = refl
all-any eq r xs (y ∷ ys) = rw (any_self (eq y) xs ys y (r y)) (
    subst (λ l. all (λ x. any (eq x) l) ys ≡ true) (append_assoc xs (y ∷ []) ys)
      (all-any eq r (xs ++ y ∷ []) ys))

pub key_eq_refl : (a : EntityVersionKey) → key_eq a a ≡ true
key_eq_refl a = rw (eq_refl a.entity_type, eq_refl a.entity_id, eqb_refl a.entity_version)

module _ (p : Platform) where
  open p use {Text}

  insert-Chained :
      (previous : String) (n : ℕ) (r : EventRow Text) (e : Envelope) (rs : List (EventRow Text))
      (es : List Envelope) (head : String)
      → IsLink p previous n r e
      → Chained p r.event_hash n rs es head
      → insert_by_sequence r rs ≡ r ∷ rs
  unfolding insert_by_sequence
  insert-Chained previous n r e [] es head l c = refl
  insert-Chained previous n r e (s ∷ rs) (f ∷ es) head l c =
      ground (arith, l.numbered, c.0.numbered)
  insert-Chained previous n r e (s ∷ rs) [] head l c = absurd c

  pub order-Chained :
      (previous : String) (n : ℕ) (rs : List (EventRow Text)) (es : List Envelope) (head : String)
      → Chained p previous n rs es head
      → order_by_sequence rs ≡ rs
  unfolding order_by_sequence
  order-Chained previous n [] es head c = refl
  order-Chained previous n (r ∷ rs) [] head c = absurd c
  order-Chained previous n (r ∷ rs) (e ∷ es) head c =
      rw (order-Chained r.event_hash (suc n) rs es head c.1)
        (insert-Chained previous (suc n) r e rs es head c.0 c.1)

  pub decode-Chained :
      (previous : String) (n : ℕ) (rs : List (EventRow Text)) (es : List Envelope) (head : String)
      → Chained p previous n rs es head
      → decode_rows p rs ≡ ok es
  unfolding decode_rows
  decode-Chained previous n [] [] head c = refl
  decode-Chained previous n [] (e ∷ es) head c = absurd c
  decode-Chained previous n (r ∷ rs) [] head c = absurd c
  decode-Chained previous n (r ∷ rs) (e ∷ es) head c =
      rw (c.0.decodes, decode-Chained r.event_hash (suc n) rs es head c.1)

  link_errors-nil :
      (previous : String) (n : ℕ) (r : EventRow Text) (e : Envelope)
      → IsLink p previous n r e
      → link_errors p n previous r ≡ []
  link_errors-nil previous n r e l =
      rw (l.numbered, l.linked) (rw (eqb_refl n, eq_refl previous) refl)

  row_errors-nil :
      (previous : String) (n : ℕ) (r : EventRow Text) (e : Envelope)
      → IsLink p previous n r e
      → row_errors p n previous r e r.event_hash ≡ []
  row_errors-nil previous n r e l =
      rw (l.sequence, l.message) (rw (eqb_refl n, eq_refl r.message_id, eq_refl r.event_hash) refl)

  pub check-Chained :
      (previous : String) (n : ℕ) (rs : List (EventRow Text)) (es : List Envelope) (head : String)
      → Chained p previous n rs es head
      → check_rows p (suc n) previous rs ≡ ok ([], es, head)
  unfolding check_rows
  check-Chained previous n [] [] head c = rw c refl
  check-Chained previous n [] (e ∷ es) head c = absurd c
  check-Chained previous n (r ∷ rs) [] head c = absurd c
  check-Chained previous n (r ∷ rs) (e ∷ es) head c =
      rw (c.0.decodes, check_rows)
        (rw (c.0.hashed, check-Chained r.event_hash (suc n) rs es head c.1)
          (rw (link_errors-nil previous (suc n) r e c.0, row_errors-nil previous (suc n) r e c.0)
            refl))

pub latest_eq_refl : (a : EntityKey × ℕ) → latest_eq a a ≡ true
latest_eq_refl (a, n) = rw (eq_refl a.entity_type, eq_refl a.entity_id, eqb_refl n) refl

pub entry_eq_refl : (a : EntityVersionKey × EntityRecord) → entry_eq a a ≡ true
entry_eq_refl (a, r) =
    rw
      (
        key_eq_refl a,
        option_eq_refl r.created_by_event_id,
        option_eq_refl r.event_type,
        option_eq_refl r.subject_type,
        option_eq_refl r.subject_id,
      )
      (eq_refl r.rest)
