-- ===== src/Parallel/Paths.antt =====
-- _normalise_resource and _paths_overlap of src/w1cip/parallel_runtime.py.
pub mod Overlap
pub mod Inside
use w1_nexus.Prelude.{
  ℕ, Bool, true, false, ◌&&◌, ◌||◌, Option, none, some, List, [], ◌∷◌, ◌++◌, map, eqb,
  if◌then◌else◌,
}
use w1_nexus.Parallel.Types.{ResourcePath}

-- `==`
abbrev pub path_eq : ResourcePath → ResourcePath → Bool
path_eq [] [] = true
path_eq (c ∷ cs) (d ∷ ds) = eqb c d && path_eq cs ds
path_eq _ _ = false

-- `text.startswith(prefix)`
abbrev pub starts_with : ResourcePath → ResourcePath → Bool
starts_with text [] = true
starts_with [] (c ∷ cs) = false
starts_with (d ∷ ds) (c ∷ cs) = eqb d c && starts_with ds cs

abbrev pub lstrip : (ℕ → Bool) → ResourcePath → ResourcePath
lstrip p [] = []
lstrip p (c ∷ cs) = if p c then lstrip p cs else c ∷ cs

abbrev pub unless_blank : (ℕ → Bool) → ℕ → ResourcePath → ResourcePath
unless_blank p c [] = if p c then [] else c ∷ []
unless_blank p c (d ∷ ds) = c ∷ d ∷ ds

-- `rstrip`, of the characters that pass a test.
abbrev pub rstrip : (ℕ → Bool) → ResourcePath → ResourcePath
rstrip p [] = []
rstrip p (c ∷ cs) = unless_blank p c (rstrip p cs)

abbrev pub is_slash : ℕ → Bool
is_slash c = eqb c b'/'

abbrev pub is_slash_or_dot : ℕ → Bool
is_slash_or_dot c = eqb c b'.' || eqb c b'/'

abbrev pub dot : ResourcePath
dot = b'.' ∷ []

abbrev pub slashed : ℕ → ℕ
slashed c = if eqb c b'\\' then b'/' else c

abbrev pub or_dot : ResourcePath → ResourcePath
or_dot [] = dot
or_dot (c ∷ cs) = c ∷ cs

-- _normalise_resource; `none` is ParallelPlanError, and `posix` is str(PurePosixPath(…)).
unfoldable pub normalise_resource :
    (ResourcePath → ResourcePath) → ResourcePath → Option ResourcePath
normalise_resource posix value =
    let text = posix (map slashed value) in
    if starts_with text (b'.' ∷ b'.' ∷ b'/' ∷ [])
      || (path_eq text (b'.' ∷ b'.' ∷ []) || starts_with text (b'/' ∷ []))
    then none
    else some (or_dot (lstrip is_slash_or_dot (rstrip is_slash_or_dot text)))

-- `a.startswith(b.rstrip("/")+"/")`
abbrev pub is_inside : ResourcePath → ResourcePath → Bool
is_inside a b = starts_with a (rstrip is_slash b ++ b'/' ∷ [])

-- _paths_overlap
unfoldable pub paths_overlap : ResourcePath → ResourcePath → Bool
paths_overlap a b =
    if path_eq a dot || path_eq b dot then true else path_eq a b || (is_inside a b || is_inside b a)
