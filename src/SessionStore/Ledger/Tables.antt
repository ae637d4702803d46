-- ===== src/SessionStore/Ledger/Tables.antt =====
-- The projection tables of src/w1cip/session_store.py after _replace_projection_locked.
use mathlib.Core.List.{append-nil}
use w1_nexus.Prelude.{
  ℕ, ◌≡◌, ◌≢◌, refl, ap, subst, String, Bool, not, Option, none, some, List, [], ◌∷◌, ◌++◌, map,
  arith, ◌==◌, eq_refl, eq_iff, any, select, select-append,
}
use w1_nexus.SessionStore.Types.{
  EntityKey, EntityVersionKey, EntityRecord, EventRow, EntityVersionRow, LatestRow, EffectRow,
  Result, ok, err, key_eq, ◌>>=◌,
}
use w1_nexus.SessionStore.Projections.{
  version_row, sequence_of, version_rows, latest_rows, effect_row, effect_rows,
}

-- A sequence that returns had a first part that returns.
pub >>=-eq-ok {ℓ κ} :
    {X : Type ℓ} {Y : Type κ} (first : Result X) (next : X → Result Y) {value : Y}
    → first >>= next ≡ ok value
    → (x : X) × (first ≡ ok x) × (next x ≡ ok value)
>>=-eq-ok (err code) next returns = cc
>>=-eq-ok (ok x) next returns = (x, refl, returns)

pub ok-inj {ℓ} : {A : Type ℓ} {a b : A} → ok a ≡ ok b → a ≡ b
ok-inj h = cc

cons-eq-ok {ℓ} :
    {A : Type ℓ} (m : Result A) (n : Result (List A)) {ys : List A}
    → (do x ← m; xs ← n; ok (x ∷ xs)) ≡ ok ys
    → (x : A) × (xs : List A) × (m ≡ ok x) × (n ≡ ok xs) × (x ∷ xs ≡ ys)
cons-eq-ok (ok x) (ok xs) h = (x, xs, refl, refl, ok-inj h)
cons-eq-ok (ok x) (err e) h = cc
cons-eq-ok (err e) n h = cc

-- A table after the deletion of the rows of one name, and the insertion of new ones of that name.
abbrev pub of {ℓ} : {A : Type ℓ} → (A → String) → String → List A → List A
of name j = select (λ r. name r == j)

module _ {ℓ} {A : Type ℓ} (name : A → String) (k : String) where
  abbrev pub replaced : List A → List A → List A
  replaced old new = select (λ r. not (name r == k)) old ++ new

  of-not : (old : List A) → of name k (select (λ r. not (name r == k)) old) ≡ []
  of-not [] = refl
  of-not (r ∷ rest) = ground (arith, of-not rest)

  of-not_ne :
      (j : String)
      → k ≢ j
      → (old : List A) → of name j (select (λ r. not (name r == k)) old) ≡ of name j old
  of-not_ne j h [] = refl
  of-not_ne j h (r ∷ rest) =
      ground (arith, of-not_ne j h rest, eq_iff (name r) k, eq_iff (name r) j, eq_iff k j)

  pub of-replaced : (old new : List A) → of name k (replaced old new) ≡ of name k new
  of-replaced old new = rw select-append (rw of-not refl)

  pub of-replaced_ne :
      (j : String)
      → k ≢ j
      → (old new : List A) → of name j new ≡ []
      → of name j (replaced old new) ≡ of name j old
  of-replaced_ne j h old new e = rw select-append (rw (e, of-not_ne j h) (append-nil _))

-- The rows that are inserted for the records.
version_row_lem :
    (k : String) (key : EntityVersionKey) (entity : EntityRecord) (o : Option ℕ)
    (row : EntityVersionRow)
    → version_row k key entity o ≡ ok row
    → (row.session_id ≡ k) × (row.key ≡ key) × (row.record_json ≡ entity)
version_row_lem k key entity none row h = cc
version_row_lem k key entity (some n) row h = (ground arith, ground arith, ground arith)

module _ {T : Type 0} (rows : List (EventRow T)) (k : String) where
  abbrev NamedRows : List (EntityVersionKey × EntityRecord) → List EntityVersionRow → Type 0
  NamedRows records vs =
      (of (λ (r : EntityVersionRow). r.session_id) k vs ≡ vs)
      × (map (λ (r : EntityVersionRow). (r.key, r.record_json)) vs ≡ records)
      × ((j : String) → k ≢ j → of (λ (r : EntityVersionRow). r.session_id) j vs ≡ [])

  named_row :
      (key : EntityVersionKey) (entity : EntityRecord)
      (rest : List (EntityVersionKey × EntityRecord)) (row : EntityVersionRow)
      (vs : List EntityVersionRow)
      → row.session_id ≡ k
      → row.key ≡ key
      → row.record_json ≡ entity
      → NamedRows rest vs
      → NamedRows ((key, entity) ∷ rest) (row ∷ vs)
  named_row key entity rest row vs a b c (own, same, other) = (
    ground (arith, own, eq_iff row.session_id k),
    cc,
    λ j ne. ground (arith, eq_iff row.session_id j, eq_iff k j, other j ne),
  )

  pub version_rows_lem :
      (records : List (EntityVersionKey × EntityRecord)) (vs : List EntityVersionRow)
      → version_rows rows k records ≡ ok vs
      → NamedRows records vs
  unfolding version_rows
  version_rows_lem [] vs h = subst (NamedRows []) (ok-inj h) (refl, refl, λ j ne. refl)
  version_rows_lem ((key, entity) ∷ rest) vs h =
      let found = sequence_of rows entity.created_by_event_id in
      let (row, more, made, others, same) =
        cons-eq-ok (version_row k key entity found) (version_rows rows k rest) h in
      let (a, b, c) = version_row_lem k key entity found row made in
      subst (NamedRows ((key, entity) ∷ rest)) same
        (named_row key entity rest row more a b c (version_rows_lem rest more others))

pub latest_rows_lem :
    (k : String) (latest : List (EntityKey × ℕ))
    → (of (λ (r : LatestRow). r.session_id) k (latest_rows k latest) ≡ latest_rows k latest)
      × (map (λ (r : LatestRow). (r.key, r.entity_version)) (latest_rows k latest) ≡ latest)
      × ((j : String) → k ≢ j → of (λ (r : LatestRow). r.session_id) j (latest_rows k latest) ≡ [])
unfolding latest_rows
latest_rows_lem k [] = (refl, refl, λ j ne. refl)
latest_rows_lem k ((key, n) ∷ rest) =
    let (own, same, other) = latest_rows_lem k rest in
    (
      ground (arith, own, eq_refl k),
      ap (λ l. (key, n) ∷ l) same,
      λ j ne. ground (arith, eq_iff k j, other j ne),
    )

-- The active keys that the inserted effects show.
abbrev pub active_keys : List EffectRow → List EntityVersionKey
active_keys rows =
    map (λ r. record r.key { entity_type = "protocol_event" }) (select (λ r. r.active) rows)

abbrev pub marked_keys :
    List EntityVersionKey → List (EntityVersionKey × EntityRecord) → List EntityVersionKey
marked_keys active entries =
    map (λ entry. record entry.0 { entity_type = "protocol_event" })
      (select (λ entry. any (key_eq entry.0) active) entries)

module _ (k : String) (active : List EntityVersionKey) where
  abbrev NamedEffects : List (EntityVersionKey × EntityRecord) → List EffectRow → Type 0
  NamedEffects entries rows =
      (of (λ (r : EffectRow). r.session_id) k rows ≡ rows)
      × (active_keys rows ≡ marked_keys active entries)
      × ((j : String) → k ≢ j → of (λ (r : EffectRow). r.session_id) j rows ≡ [])

  effect_row_lem :
      (key : EntityVersionKey) (entity : EntityRecord) (b : Bool) (o : Option String)
      (row : EffectRow)
      → effect_row k b key entity o ≡ ok row
      → (row.session_id ≡ k) × (row.key ≡ key) × (row.active ≡ b)
  effect_row_lem key entity b none row h = cc
  effect_row_lem key entity b (some t) row h = (ground arith, ground arith, ground arith)

  named_effect :
      (key : EntityVersionKey) (entity : EntityRecord)
      (rest : List (EntityVersionKey × EntityRecord)) (row : EffectRow) (rows : List EffectRow)
      → row.session_id ≡ k
      → row.key ≡ key
      → row.active ≡ any (key_eq key) active
      → NamedEffects rest rows
      → NamedEffects ((key, entity) ∷ rest) (row ∷ rows)
  named_effect key entity rest row rows a b c (own, same, other) = (
    ground (arith, own, eq_iff row.session_id k),
    ground (arith, same),
    λ j ne. ground (arith, eq_iff row.session_id j, eq_iff k j, other j ne),
  )

  pub effect_rows_lem :
      (entries : List (EntityVersionKey × EntityRecord)) (rows : List EffectRow)
      → effect_rows k active entries ≡ ok rows
      → NamedEffects entries rows
  unfolding effect_rows
  effect_rows_lem [] rows h = subst (NamedEffects []) (ok-inj h) (refl, refl, λ j ne. refl)
  effect_rows_lem ((key, entity) ∷ rest) rows h =
      let b = any (key_eq key) active in
      let (row, more, made, others, same) =
        cons-eq-ok (effect_row k b key entity entity.event_type) (effect_rows k active rest) h in
      let (named, keyed, marked) = effect_row_lem key entity b entity.event_type row made in
      subst (NamedEffects ((key, entity) ∷ rest)) same (
        named_effect key entity rest row more named keyed marked (effect_rows_lem rest more others))
