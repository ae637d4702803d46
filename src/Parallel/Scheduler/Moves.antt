-- ===== src/Parallel/Scheduler/Moves.antt =====
-- The pass over the jobs in ParallelAgentRuntime.run of src/w1cip/parallel_runtime.py, as a sequence
-- of moves: a job is blocked, or it is submitted.
use w1_nexus.Prelude.{
  ◌≡◌, ◌⊎◌, inl, inr, refl, String, Bool, true, false, List, [], ◌∷◌, Bool-cases, any, all,
  is_subset, true-ne-false, In, here, there,
}
use w1_nexus.Parallel.Types.{AgentJob, is_pending, is_completed, has_failed}
use w1_nexus.Parallel.Scheduler.{SchedulerState, Pass, passed, pass_job, pass_jobs, block, submit}

-- The moves of a pass, and whether there was one.
pub data Moves (jobs : List AgentJob) (s : SchedulerState) : SchedulerState → Bool → Type 0 where
  unmoved : Moves jobs s s false
  blocks :
      {t : SchedulerState} {moved : Bool} (job : AgentJob)
      → Moves jobs s t moved
      → In job jobs
      → is_pending (t.states job.job_id) ≡ true
      → any (λ d. has_failed (t.states d)) job.dependencies ≡ true
      → Moves jobs s (block job t) true
  submits :
      {t : SchedulerState} {moved : Bool} (job : AgentJob)
      → Moves jobs s t moved
      → In job jobs
      → is_pending (t.states job.job_id) ≡ true
      → all (λ d. is_completed (t.states d)) job.dependencies ≡ true
      → Moves jobs s (submit job t) true

pub unmoved-eq :
    {jobs : List AgentJob} {s t : SchedulerState} {q : Bool} → Moves jobs s t q → q ≡ false → s ≡ t
unmoved-eq unmoved e = refl
unmoved-eq (blocks job before m p d) e = cc
unmoved-eq (submits job before m p d) e = cc

-- A pending job that a pass leaves pending.
pub record Waits (s : SchedulerState) (job : AgentJob) : Type 0 where
  pub none_failed : any (λ d. has_failed (s.states d)) job.dependencies ≡ false
  pub not_ready : all (λ d. is_completed (s.states d)) job.dependencies ≡ false

abbrev pub IsIdle : SchedulerState → List AgentJob → Type 0
IsIdle s jobs = (j : AgentJob) → In j jobs → is_pending (s.states j.job_id) ≡ true → Waits s j

-- What a pass over a part of the jobs does.
pub record IsPassed (jobs part : List AgentJob) (s0 s : SchedulerState) (p : Bool) (r : Pass)
    : Type 0 where
  pub out : SchedulerState
  pub progressed : Bool
  pub result : r ≡ passed out progressed
  pub moves : Moves jobs s0 out progressed
  pub idle : progressed ≡ false → (p ≡ false) × IsIdle s part

pass_job_cases :
    (known : List String) (job : AgentJob) (s : SchedulerState) (p : Bool)
    → is_subset job.dependencies known ≡ true
    → ((pass_job known job s p ≡ passed s p)
        × (is_pending (s.states job.job_id) ≡ true → Waits s job))
      ⊎ ((pass_job known job s p ≡ passed (block job s) true)
          × (is_pending (s.states job.job_id) ≡ true)
          × (any (λ d. has_failed (s.states d)) job.dependencies ≡ true))
      ⊎ ((pass_job known job s p ≡ passed (submit job s) true)
          × (is_pending (s.states job.job_id) ≡ true)
          × (all (λ d. is_completed (s.states d)) job.dependencies ≡ true))
unfolding pass_job
pass_job_cases known job s p sub = elim (Bool-cases (is_pending (s.states job.job_id))) [
  | inr e ↦ inl (rw e refl, (λ f. cc))
  | inl e ↦ elim (Bool-cases (any (λ d. has_failed (s.states d)) job.dependencies)) [
    | inl f ↦ inr (inl (rw (e, sub, f) refl, e, f))
    | inr f ↦ elim (Bool-cases (all (λ d. is_completed (s.states d)) job.dependencies)) [
      | inl g ↦ inr (inr (rw (e, sub, f, g) refl, e, g))
      | inr g ↦ inl (rw (e, sub, f, g) refl, (λ h. record { none_failed = f; not_ready = g }))
    ]
  ]
]

module _ (known : List String) (jobs : List AgentJob)
    (closed : (j : AgentJob) → In j jobs → is_subset j.dependencies known ≡ true) where
  IsIdle-cons :
      (s : SchedulerState) (job : AgentJob) (part : List AgentJob)
      → (is_pending (s.states job.job_id) ≡ true → Waits s job)
      → IsIdle s part
      → IsIdle s (job ∷ part)
  IsIdle-cons s k part w i j here e = w e
  IsIdle-cons s job part w i j (there m) e = i j m e

  moved :
      {job : AgentJob} {part : List AgentJob} {s0 s : SchedulerState} {p : Bool}
      (t : SchedulerState)
      → pass_job known job s p ≡ passed t true
      → IsPassed jobs part s0 t true (pass_jobs known part t true)
      → IsPassed jobs (job ∷ part) s0 s p (pass_jobs known (job ∷ part) s p)
  unfolding pass_jobs
  moved t e r = record {
    out = r.out;
    progressed = r.progressed;
    result = rw (e, pass_jobs) r.result;
    moves = r.moves;
    idle = λ q. absurd (true-ne-false (r.idle q).0);
  }

  pub pass_jobs-IsPassed :
      (part : List AgentJob) (s0 s : SchedulerState) (p : Bool)
      → Moves jobs s0 s p
      → ((j : AgentJob) → In j part → In j jobs)
      → IsPassed jobs part s0 s p (pass_jobs known part s p)
  unfolding pass_jobs
  pass_jobs-IsPassed [] s0 s p m sub = record {
    out = s;
    progressed = p;
    result = refl;
    moves = m;
    idle = λ e. (e, λ j k. elim k [ ]);
  }
  pass_jobs-IsPassed (job ∷ part) s0 s p m sub =
      let known_job = closed job (sub job here) in
      let later : (j : AgentJob) → In j part → In j jobs = λ j k. sub j (there k) in
      elim (pass_job_cases known job s p known_job) [
        | inl (e, w) ↦
            let r = pass_jobs-IsPassed part s0 s p m later in
            record {
              out = r.out;
              progressed = r.progressed;
              result = rw (e, pass_jobs) r.result;
              moves = r.moves;
              idle =
                  λ q. let (none_before, i) = r.idle q in (none_before, IsIdle-cons s job part w i);
            }
        | inr (inl (e, w, d)) ↦
            moved (block job s) e (
              pass_jobs-IsPassed part s0 (block job s) true (blocks job m (sub job here) w d) later)
        | inr (inr (e, w, d)) ↦ moved (submit job s) e (
            pass_jobs-IsPassed part s0 (submit job s) true (submits job m (sub job here) w d) later)
      ]
