-- ===== src/Parallel/Paths/Inside.antt =====
-- What _paths_overlap of src/w1cip/parallel_runtime.py says of directories and what they hold.
use mathlib.Core.List.{append_assoc}
use w1_nexus.Prelude.{
  ℕ, ◌≡◌, ◌↔◌, refl, ap, ◌∙◌, subst, true, ◌||◌, [], ◌∷◌, ◌++◌, arith, eqb_iff, eqb_refl, inl, inr,
  Bool-cases, some, some-inj, map,
}
use w1_nexus.Parallel.Types.{ResourcePath}
use w1_nexus.Parallel.Paths.{
  path_eq, starts_with, lstrip, is_slash_or_dot, slashed, or_dot, normalise_resource, unless_blank,
  rstrip, is_slash, dot, is_inside, paths_overlap,
}
use w1_nexus.Parallel.Paths.Overlap.{path_eq→eq}

-- A path that does not end in a slash.
abbrev pub IsBare : ResourcePath → Type 0
IsBare a = rstrip is_slash a ≡ a

-- A path below a directory: the directory, a slash, and the rest.
abbrev pub IsBelow : ResourcePath → ResourcePath → Type 0
IsBelow a b = (rest : ResourcePath) × (a ≡ b ++ b'/' ∷ rest)

path_eq_refl : (a : ResourcePath) → path_eq a a ≡ true
path_eq_refl [] = refl
path_eq_refl (c ∷ cs) = rw (eqb_refl c) (path_eq_refl cs)

path_eq_iff : (a b : ResourcePath) → (path_eq a b ≡ true) ↔ (a ≡ b)
path_eq_iff a b = (path_eq→eq a b, λ h. subst (λ x. path_eq a x ≡ true) h (path_eq_refl a))

starts_with-append : (prefix rest : ResourcePath) → starts_with (prefix ++ rest) prefix ≡ true
starts_with-append [] [] = refl
starts_with-append [] (d ∷ rest) = refl
starts_with-append (c ∷ prefix) rest = rw (eqb_refl c) (starts_with-append prefix rest)

starts_with-split :
    (text prefix : ResourcePath)
    → starts_with text prefix ≡ true
    → (rest : ResourcePath) × (text ≡ prefix ++ rest)
starts_with-split text [] h = (text, refl)
starts_with-split [] (c ∷ prefix) h = cc
starts_with-split (d ∷ text) (c ∷ prefix) h =
    let (rest, e) = starts_with-split text prefix (ground arith) in
    let same : d ≡ c = (eqb_iff d c).0 (ground arith) in (rest, λ i. same i ∷ e i)

IsBelow-inside : (a b : ResourcePath) → IsBare b → (is_inside a b ≡ true) ↔ IsBelow a b
IsBelow-inside a b bare = (
  λ h.
      let (rest, e) = starts_with-split a (rstrip is_slash b ++ b'/' ∷ []) h in
      (rest, e ∙ (ap (λ x. (x ++ b'/' ∷ []) ++ rest) bare ∙ append_assoc b (b'/' ∷ []) rest)),
  λ h.
      rw (h.1, bare)
        (subst (λ x. starts_with x (b ++ b'/' ∷ []) ≡ true) (append_assoc b (b'/' ∷ []) h.0)
          (starts_with-append (b ++ b'/' ∷ []) h.0)),
)

-- How two paths can be in each other's way.
pub data IsOverlap (a b : ResourcePath) : Type 0 where
  whole_left : a ≡ dot → IsOverlap a b
  whole_right : b ≡ dot → IsOverlap a b
  equal : a ≡ b → IsOverlap a b
  below : IsBelow a b → IsOverlap a b
  above : IsBelow b a → IsOverlap a b

bare-IsOverlap :
    (a b : ResourcePath) → IsBare a → IsBare b → paths_overlap a b ≡ true → IsOverlap a b
unfolding paths_overlap
bare-IsOverlap a b bare_a bare_b h = elim (Bool-cases (path_eq a dot)) [
  | inl e ↦ whole_left ((path_eq_iff a dot).0 e)
  | inr e ↦ elim (Bool-cases (path_eq b dot)) [
    | inl f ↦ whole_right ((path_eq_iff b dot).0 f)
    | inr f ↦ elim (Bool-cases (path_eq a b)) [
      | inl g ↦ equal ((path_eq_iff a b).0 g)
      | inr g ↦ elim (Bool-cases (is_inside a b)) [
        | inl k ↦ below ((IsBelow-inside a b bare_b).0 k)
        | inr k ↦ above ((IsBelow-inside b a bare_a).0 (rw (e, f, g, k) at h))
      ]
    ]
  ]
]

IsOverlap-overlap :
    (a b : ResourcePath) → IsBare a → IsBare b → IsOverlap a b → paths_overlap a b ≡ true
unfolding paths_overlap
IsOverlap-overlap a b bare_a bare_b (whole_left e) = ground (arith, (path_eq_iff a dot).1 e)
IsOverlap-overlap a b bare_a bare_b (whole_right e) = ground (arith, (path_eq_iff b dot).1 e)
IsOverlap-overlap a b bare_a bare_b (equal e) = ground (arith, (path_eq_iff a b).1 e)
IsOverlap-overlap a b bare_a bare_b (below h) = ground (arith, (IsBelow-inside a b bare_b).1 h)
IsOverlap-overlap a b bare_a bare_b (above h) = ground (arith, (IsBelow-inside b a bare_a).1 h)

blank-IsBare : (c : ℕ) (u : ResourcePath) → IsBare u → IsBare (unless_blank is_slash_or_dot c u)
blank-IsBare c [] h = ground arith
blank-IsBare c (d ∷ ds) h = rw h refl

rstrip-IsBare : (t : ResourcePath) → IsBare (rstrip is_slash_or_dot t)
rstrip-IsBare [] = refl
rstrip-IsBare (c ∷ cs) = blank-IsBare c (rstrip is_slash_or_dot cs) (rstrip-IsBare cs)

unless_blank-tail :
    (c : ℕ) (u : ResourcePath) (d : ℕ) (ds : ResourcePath)
    → unless_blank is_slash c u ≡ c ∷ d ∷ ds
    → u ≡ d ∷ ds
unless_blank-tail c [] d ds h = ground arith
unless_blank-tail c (x ∷ xs) d ds h = cc

tail-IsBare : (c : ℕ) (cs : ResourcePath) → IsBare (c ∷ cs) → IsBare cs
tail-IsBare c [] h = refl
tail-IsBare c (d ∷ ds) h = unless_blank-tail c (rstrip is_slash (d ∷ ds)) d ds h

lstrip-IsBare : (u : ResourcePath) → IsBare u → IsBare (lstrip is_slash_or_dot u)
lstrip-IsBare [] h = refl
lstrip-IsBare (c ∷ cs) h = elim (Bool-cases (is_slash_or_dot c)) [
  | inl e ↦ rw e (lstrip-IsBare cs (tail-IsBare c cs h))
  | inr e ↦ rw e h
]

or_dot-IsBare : (u : ResourcePath) → IsBare u → IsBare (or_dot u)
or_dot-IsBare [] h = refl
or_dot-IsBare (c ∷ cs) h = h

normalise_resource-IsBare :
    (posix : ResourcePath → ResourcePath) (value a : ResourcePath)
    → normalise_resource posix value ≡ some a
    → IsBare a
unfolding normalise_resource
normalise_resource-IsBare posix value a h =
    let text = posix (map slashed value) in
    elim (Bool-cases (
      starts_with text (b'.' ∷ b'.' ∷ b'/' ∷ [])
      || (path_eq text (b'.' ∷ b'.' ∷ []) || starts_with text (b'/' ∷ [])))) [
        | inl e ↦ cc (rw e at h)
        | inr e ↦ subst IsBare (some-inj (rw e at h)) (
            or_dot-IsBare (lstrip is_slash_or_dot (rstrip is_slash_or_dot text))
              (lstrip-IsBare (rstrip is_slash_or_dot text) (rstrip-IsBare text)))
      ]

-- Two paths that _normalise_resource returned overlap exactly if one of them is the root ".", they
-- are equal, or one is the other followed by a slash and a rest.
pub paths_overlap_iff :
    (posix : ResourcePath → ResourcePath) (v w a b : ResourcePath)
    → normalise_resource posix v ≡ some a
    → normalise_resource posix w ≡ some b
    → (paths_overlap a b ≡ true) ↔ IsOverlap a b
paths_overlap_iff posix v w a b h k =
    let bare_a = normalise_resource-IsBare posix v a h in
    let bare_b = normalise_resource-IsBare posix w b k in
    (bare-IsOverlap a b bare_a bare_b, IsOverlap-overlap a b bare_a bare_b)
