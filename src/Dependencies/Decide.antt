-- ===== src/Dependencies/Decide.antt =====
-- The whole walk, over all names from an empty start, as src/w1cip/orchestrator.py and
-- src/w1cip/parallel_runtime.py do it.
use w1_nexus.Prelude.{ℕ, suc, ◌≡◌, refl, String, Option, List, [], arith, length}
use w1_nexus.Dependencies.{Walk, walked, walk_cycle, walk_key_error, walk_fuel, visit_all, visit}
use w1_nexus.Dependencies.Order.{Within, IsOrdered, visit_all-Extends, visit-Extends}
use w1_nexus.Dependencies.Fuel.{
  IsVerdict, IsClosed, visit_all-IsVerdict, visit-IsVerdict, off_path_le_length,
}
use w1_nexus.Dependencies.Rank.{NoCycle, IsRanked, visit_all-NoCycle, visit-NoCycle}

abbrev pub walk_names : (String → Option (List String)) → List String → Walk
walk_names graph names = visit_all (visit (suc (length names)) graph []) names []

module _ (graph : String → Option (List String)) (names : List String) where
  pub walk_names-IsVerdict : IsClosed graph names → IsVerdict (walk_names graph names)
  walk_names-IsVerdict closed =
      visit_all-IsVerdict graph names closed (visit (suc (length names)) graph [])
        (λ k v m.
          visit-IsVerdict graph names closed _ [] k v m
            (omega (arith, off_path_le_length [] names)))
        names [] (λ x m. m)

  pub walk_names-NoCycle :
      (rank : String → ℕ) → IsRanked graph rank → NoCycle (walk_names graph names)
  walk_names-NoCycle rank ranked =
      visit_all-NoCycle graph rank ranked (visit (suc (length names)) graph []) names []
        (λ k v m. visit-NoCycle graph rank ranked (suc (length names)) [] k v (λ x mx. cc))

  pub walk_names-IsOrdered :
      (out : List String)
      → walk_names graph names ≡ walked out
      → IsOrdered graph out × Within names out
  walk_names-IsOrdered out e =
      let (ordered, old, all) =
        visit_all-Extends graph (visit (suc (length names)) graph [])
          (visit-Extends graph (suc (length names)) []) names [] out e tt in
      (ordered, all)

pub walked_of : (r : Walk) → IsVerdict r → NoCycle r → (out : List String) × (r ≡ walked out)
walked_of (walked out) v n = (out, refl)
walked_of walk_cycle v n = absurd n
walked_of walk_key_error v n = absurd v
walked_of walk_fuel v n = absurd v
