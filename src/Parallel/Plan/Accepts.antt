-- ===== src/Parallel/Plan/Accepts.antt =====
-- The plans that _validate_jobs of src/w1cip/parallel_runtime.py accepts.
use w1_nexus.Prelude.{
  ℕ, ◌<◌, ◌≡◌, ◌↔◌, ◌⊎◌, refl, sym, ◌∙◌, ap, subst, String, true, false, some, some-inj, List, [],
  ◌∷◌, map, arith, ◌==◌, eq_iff, Bool-cases, Option-cases, inl, inr, elem, all, all-In, first-In,
  first-holds, is_subset, has_duplicate, In, elem-named, first-named, unique-first,
}
use w1_nexus.Dependencies.{Walk, walked, walk_cycle, walk_key_error, walk_fuel}
use w1_nexus.Dependencies.Order.{Within, IsOrdered}
use w1_nexus.Dependencies.Fuel.{IsClosed}
use w1_nexus.Dependencies.Rank.{IsRanked, height, height-lt}
use w1_nexus.Dependencies.Decide.{
  walk_names, walk_names-IsVerdict, walk_names-NoCycle, walk_names-IsOrdered, walked_of,
}
use w1_nexus.Parallel.Types.{AgentJob}
use w1_nexus.Parallel.Plan.{
  job_by_id, dependencies_of, job_graph, PlanVerdict, valid_plan, dependency_cycle, plan_key_error,
  plan_fuel, plan_of_walk, job_ids, all_known, is_empty, validate_jobs,
}

-- The checks before the walk.
pub record IsChecked (jobs : List AgentJob) : Type 0 where
  pub some_job : is_empty jobs ≡ false
  pub unique_ids : has_duplicate (job_ids jobs) ≡ false
  pub unique_agents : has_duplicate (map (λ j. j.agent_id) jobs) ≡ false
  pub unique_branches : has_duplicate (map (λ j. j.branch) jobs) ≡ false
  pub known : all_known jobs ≡ true

-- A plan: checked names, and a rank that falls along the dependencies.
pub record IsPlan (jobs : List AgentJob) : Type 0 where
  pub checked : IsChecked jobs
  pub rank : String → ℕ
  pub falls :
      (j : AgentJob) (d : String)
      → In j jobs
      → elem d j.dependencies ≡ true
      → rank d < rank j.job_id

pub subset-Within : (xs ys : List String) → is_subset xs ys ≡ true → Within xs ys
subset-Within [] ys h x m = cc
subset-Within (y ∷ xs) ys h x m = elim (Bool-cases (y == x)) [
  | inl e ↦ subst (λ z. elem z ys ≡ true) ((eq_iff y x).0 e) (ground arith)
  | inr e ↦ subset-Within xs ys (ground arith) x (rw e at m)
]

module _ (jobs : List AgentJob) where
  abbrev walk : Walk
  walk = walk_names (job_graph jobs) (job_ids jobs)

  checked-verdict : IsChecked jobs → validate_jobs jobs ≡ plan_of_walk walk
  unfolding validate_jobs
  checked-verdict c =
      rw (c.some_job, c.unique_ids, c.unique_agents, c.unique_branches, c.known) refl

  -- An error of the checks, which is raised before the walk.
  abbrev IsEarly : PlanVerdict → Type 0
  IsEarly valid_plan = ⊥
  IsEarly dependency_cycle = ⊥
  IsEarly plan_key_error = ⊥
  IsEarly plan_fuel = ⊥
  IsEarly v = Unit

  checked_cases : IsEarly (validate_jobs jobs) ⊎ IsChecked jobs
  unfolding validate_jobs
  checked_cases = elim (Bool-cases (is_empty jobs)) [
    | inl e ↦ inl (rw e tt)
    | inr e ↦ elim (Bool-cases (has_duplicate (job_ids jobs))) [
      | inl f ↦ inl (rw (e, f) tt)
      | inr f ↦ elim (Bool-cases (has_duplicate (map (λ j. j.agent_id) jobs))) [
        | inl g ↦ inl (rw (e, f, g) tt)
        | inr g ↦ elim (Bool-cases (has_duplicate (map (λ j. j.branch) jobs))) [
          | inl h ↦ inl (rw (e, f, g, h) tt)
          | inr h ↦ elim (Bool-cases (all_known jobs)) [
            | inr k ↦ inl (rw (e, f, g, h, k) tt)
            | inl k ↦ inr (record {
              some_job = e;
              unique_ids = f;
              unique_agents = g;
              unique_branches = h;
              known = k;
            })
          ]
        ]
      ]
    ]
  ]

  -- A dependency list of the graph is that of a job.
  pub job_of :
      (key : String) (ds : List String)
      → job_graph jobs key ≡ some ds
      → (j : AgentJob) × In j jobs × (j.job_id ≡ key) × (j.dependencies ≡ ds)
  job_of key ds g = elim (Option-cases (job_by_id key jobs)) [
    | inl e ↦ cc (rw e at g)
    | inr (j, e) ↦ (
      j,
      first-In (λ j. j.job_id == key) jobs j e,
      (eq_iff j.job_id key).0 (first-holds (λ j. j.job_id == key) jobs j e),
      some-inj (rw e at g),
    )
  ]

  module _ (c : IsChecked jobs) where
    pub job_dependencies :
        (j : AgentJob) → In j jobs → job_graph jobs j.job_id ≡ some j.dependencies
    job_dependencies j m =
        ap dependencies_of (unique-first (λ (j : AgentJob). j.job_id) jobs c.unique_ids j m)

    pub known-Within : (j : AgentJob) → In j jobs → Within j.dependencies (job_ids jobs)
    known-Within j m =
        subset-Within j.dependencies (job_ids jobs)
          (all-In (λ (j : AgentJob). is_subset j.dependencies (job_ids jobs)) jobs c.known j m)

    pub jobs-IsClosed : IsClosed (job_graph jobs) (job_ids jobs)
    jobs-IsClosed key m =
        let (j, e, listed, named) = first-named (λ (j : AgentJob). j.job_id) jobs key m in
        (j.dependencies, ap dependencies_of e, known-Within j listed)

  valid-walked : (r : Walk) → plan_of_walk r ≡ valid_plan → (out : List String) × (r ≡ walked out)
  valid-walked (walked out) h = (out, refl)
  valid-walked walk_cycle h = cc
  valid-walked walk_key_error h = cc
  valid-walked walk_fuel h = cc

  early-ne-valid : (v : PlanVerdict) → IsEarly v → v ≡ valid_plan → ⊥
  early-ne-valid v h e = rw e at h

  -- The order that the walk of a plan leaves.
  pub valid-IsOrdered :
      validate_jobs jobs ≡ valid_plan
      → IsChecked jobs
        × ((out : List String) × IsOrdered (job_graph jobs) out × Within (job_ids jobs) out)
  valid-IsOrdered h = elim checked_cases [
    | inl e ↦ absurd (early-ne-valid _ e h)
    | inr c ↦
        let (out, e) = valid-walked walk (sym (checked-verdict c) ∙ h) in
        let (ordered, all) = walk_names-IsOrdered (job_graph jobs) (job_ids jobs) out e in
        (c, (out, ordered, all))
  ]

  valid-IsPlan : validate_jobs jobs ≡ valid_plan → IsPlan jobs
  valid-IsPlan h =
      let (c, (out, ordered, all)) = valid-IsOrdered h in
      record {
        checked = c;
        rank = λ k. height k out;
        falls = λ j d m md.
            (height-lt (job_graph jobs) out ordered j.job_id j.dependencies
              (all j.job_id (elem-named (λ (j : AgentJob). j.job_id) jobs j m))
              (job_dependencies c j m) d md).1;
      }

  IsPlan-IsRanked : (p : IsPlan jobs) → IsRanked (job_graph jobs) p.rank
  IsPlan-IsRanked p key ds g d md =
      let (j, listed, named, same) = job_of key ds g in
      subst (λ k. p.rank d < p.rank k) named (p.falls j d listed (ap (elem d) same ∙ md))

  IsPlan-valid : IsPlan jobs → validate_jobs jobs ≡ valid_plan
  IsPlan-valid p =
      let (out, e) =
        walked_of walk
          (walk_names-IsVerdict (job_graph jobs) (job_ids jobs) (jobs-IsClosed p.checked))
          (walk_names-NoCycle (job_graph jobs) (job_ids jobs) p.rank (IsPlan-IsRanked p)) in
      checked-verdict p.checked ∙ ap plan_of_walk e

-- _validate_jobs accepts exactly the non-empty plans with unique jobs, agents and branches, known
-- dependencies, and a rank of the jobs that falls along the dependencies.
pub validate_jobs_accepts : (jobs : List AgentJob) → (validate_jobs jobs ≡ valid_plan) ↔ IsPlan jobs
validate_jobs_accepts jobs = (valid-IsPlan jobs, IsPlan-valid jobs)
