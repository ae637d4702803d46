-- ===== src/Dependencies.antt =====
-- The depth-first walk over dependencies that _validate_workflow of src/w1cip/orchestrator.py (`visit`)
-- and ParallelAgentRuntime._validate_jobs of src/w1cip/parallel_runtime.py (`dfs`) share. The names
-- on the current path are `visiting`, the finished ones `visited`, the latest first; the recursion
-- is on fuel.
pub mod Order
pub mod Fuel
pub mod Rank
pub mod Decide
use w1_nexus.Prelude.{
  ℕ, suc, zero, String, Bool, Option, none, some, List, [], ◌∷◌, ◌==◌, if◌then◌else◌, elem,
}

-- The names visited, the exception for a cycle, or the KeyError of a name that is not there.
pub data Walk : Type 0 where
  walked : List String → Walk
  walk_cycle walk_key_error walk_fuel : Walk

abbrev pub leave : String → Walk → Walk
leave key (walked visited) = walked (key ∷ visited)
leave key w = w

unfoldable pub visit_all : (String → List String → Walk) → List String → List String → Walk
visit_all visit [] visited = walked visited
visit_all visit (key ∷ keys) visited = elim (visit key visited) [
  | walked more ↦ visit_all visit keys more
  | walk_cycle ↦ walk_cycle
  | walk_key_error ↦ walk_key_error
  | walk_fuel ↦ walk_fuel
]

abbrev pub visit_node :
    (String → List String → Walk) → String → List String → Option (List String) → Walk
visit_node visit key visited none = walk_key_error
visit_node visit key visited (some depends_on) = leave key (visit_all visit depends_on visited)

unfoldable pub visit :
    ℕ → (String → Option (List String)) → List String → String → List String → Walk
unfolding visit_all
visit zero graph visiting key visited = walk_fuel
visit (suc n) graph visiting key visited =
    let below = visit n graph (key ∷ visiting) in
    if elem key visiting
    then walk_cycle
    else if elem key visited
    then walked visited
    else visit_node below key visited (graph key)
