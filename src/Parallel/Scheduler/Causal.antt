-- ===== src/Parallel/Scheduler/Causal.antt =====
-- In ParallelAgentRuntime.run of src/w1cip/parallel_runtime.py a job starts after its dependencies,
-- and the jobs that are queued are those of the futures.
use w1_nexus.Prelude.{
  ◌≡◌, refl, sym, ◌∙◌, ap, String, Bool, true, false, ◌||◌, some, List, [], ◌∷◌, ◌++◌, ◌==◌, eq_iff,
  Bool-cases, inl, inr, arith, any, all, elem, In, and-left, and-right, some-inj, subst, elem-named,
}
use w1_nexus.Parallel.Types.{
  AgentJob, JobStatus, pending, queued, running, completed, failed, cancelled, timed_out, blocked,
  is_pending, is_queued, is_completed, is_terminal,
}
use w1_nexus.Parallel.Plan.{job_graph, job_ids}
use w1_nexus.Parallel.Plan.Accepts.{IsChecked, job_dependencies}
use w1_nexus.Parallel.Scheduler.{
  Execution, lock_unavailable, raised, exited, execution_status, SchedulerState, set_status, start,
  block, submit, is_future,
}
use w1_nexus.Parallel.Scheduler.Moves.{Moves, unmoved, blocks, submits}

-- Submitted, and not failed.
abbrev pub is_started : JobStatus → Bool
is_started queued = true
is_started completed = true
is_started _ = false

abbrev pub is_running : JobStatus → Bool
is_running running = true
is_running _ = false

abbrev pub all_done : (String → JobStatus) → List String → Bool
all_done states ds = all (λ d. is_completed (states d)) ds

-- What holds at the start of every round.
pub record IsScheduled (jobs : List AgentJob) (s : SchedulerState) : Type 0 where
  pub none_running : (key : String) → is_running (s.states key) ≡ false
  pub futures_queued : (key : String) → is_future s key ≡ is_queued (s.states key)
  pub futures_known : (key : String) → is_future s key ≡ true → elem key (job_ids jobs) ≡ true
  pub causal :
      (key : String) (ds : List String)
      → job_graph jobs key ≡ some ds
      → is_started (s.states key) ≡ true
      → all_done s.states ds ≡ true

pub start-IsScheduled : (jobs : List AgentJob) → IsScheduled jobs start
start-IsScheduled jobs = record {
  none_running = λ k. refl;
  futures_queued = λ k. refl;
  futures_known = λ k h. cc;
  causal = λ k ds g h. cc;
}

pub pending_of : (st : JobStatus) → is_pending st ≡ true → st ≡ pending
pending_of pending h = refl
pending_of queued h = cc
pending_of running h = cc
pending_of completed h = cc
pending_of failed h = cc
pending_of cancelled h = cc
pending_of timed_out h = cc
pending_of blocked h = cc

-- Completed jobs stay completed in a change that keeps each of them.
pub all_done-keeps :
    (f g : String → JobStatus) (ds : List String)
    → ((d : String) → is_completed (f d) ≡ true → is_completed (g d) ≡ true)
    → all_done f ds ≡ true
    → all_done g ds ≡ true
all_done-keeps f g [] h a = refl
all_done-keeps f g (d ∷ ds) h a =
    rw (h d (and-left _ _ a)) (all_done-keeps f g ds h (and-right _ _ a))

set_status-completed :
    (key : String) (v : JobStatus) (f : String → JobStatus)
    → is_pending (f key) ≡ true
    → (d : String) → is_completed (f d) ≡ true
    → is_completed (set_status key v f d) ≡ true
set_status-completed key v f p d h = elim (Bool-cases (key == d)) [
  | inr e ↦ rw e h
  | inl e ↦
      let same : f key ≡ f d = ap f ((eq_iff key d).0 e) in
      cc (rw (← same, pending_of (f key) p) at h)
]

or-left : (a b : Bool) → (a || b) ≡ true → b ≡ false → a ≡ true
or-left a b h k = ground arith

any-last :
    (key : String) (job : AgentJob) (js : List AgentJob)
    → any (λ j. j.job_id == key) (js ++ job ∷ [])
      ≡ (any (λ j. j.job_id == key) js || job.job_id == key)
any-last key job [] = ground arith
any-last key job (j ∷ js) = ground (arith, any-last key job js)

module _ (jobs : List AgentJob) where
  block-IsScheduled :
      (job : AgentJob) (s : SchedulerState)
      → is_pending (s.states job.job_id) ≡ true
      → IsScheduled jobs s
      → IsScheduled jobs (block job s)
  block-IsScheduled job s p i = record {
    none_running = λ k. elim (Bool-cases (job.job_id == k)) [
      | inl e ↦ rw e refl
      | inr e ↦ rw e (i.none_running k)
    ];
    futures_queued = λ k. elim (Bool-cases (job.job_id == k)) [
      | inl e ↦
          let same : s.states job.job_id ≡ s.states k = ap s.states ((eq_iff job.job_id k).0 e) in
          i.futures_queued k ∙ (rw (← same, pending_of _ p, e) refl)
      | inr e ↦ rw e (i.futures_queued k)
    ];
    futures_known = i.futures_known;
    causal = λ k ds g h. elim (Bool-cases (job.job_id == k)) [
      | inl e ↦ cc (rw e at h)
      | inr e ↦
          all_done-keeps s.states _ ds (set_status-completed job.job_id blocked s.states p)
            (i.causal k ds g (rw e at h))
    ];
  }

  submit-IsScheduled :
      IsChecked jobs
      → (job : AgentJob) (s : SchedulerState) → In job jobs
      → is_pending (s.states job.job_id) ≡ true
      → all_done s.states job.dependencies ≡ true
      → IsScheduled jobs s
      → IsScheduled jobs (submit job s)
  submit-IsScheduled c job s m p d i = record {
    none_running = λ k. elim (Bool-cases (job.job_id == k)) [
      | inl e ↦ rw e refl
      | inr e ↦ rw e (i.none_running k)
    ];
    futures_queued = λ k. any-last k job s.futures ∙ elim (Bool-cases (job.job_id == k)) [
      | inl e ↦ rw e (ground arith)
      | inr e ↦ rw (e, i.futures_queued k) (ground arith)
    ];
    futures_known = λ k h. elim (Bool-cases (job.job_id == k)) [
      | inl e ↦
          subst (λ x. elem x (job_ids jobs) ≡ true) ((eq_iff job.job_id k).0 e)
            (elem-named (λ (j : AgentJob). j.job_id) jobs job m)
      | inr e ↦ i.futures_known k (or-left _ _ (sym (any-last k job s.futures) ∙ h) e)
    ];
    causal = λ k ds g h.
        all_done-keeps s.states _ ds (set_status-completed job.job_id queued s.states p)
          (elim (Bool-cases (job.job_id == k)) [
            | inl e ↦
                let same : job.dependencies ≡ ds = some-inj (
                  sym (job_dependencies jobs c job m)
                  ∙ (ap (job_graph jobs) ((eq_iff job.job_id k).0 e) ∙ g)) in
                subst (λ l. all_done s.states l ≡ true) same d
            | inr e ↦ i.causal k ds g (rw e at h)
          ]);
  }

  pub Moves-IsScheduled :
      {s t : SchedulerState} {q : Bool}
      → IsChecked jobs
      → IsScheduled jobs s
      → Moves jobs s t q
      → IsScheduled jobs t
  Moves-IsScheduled c i unmoved = i
  Moves-IsScheduled c i (blocks {t} job before m p d) =
      block-IsScheduled job t p (Moves-IsScheduled c i before)
  Moves-IsScheduled c i (submits {t} job before m p d) =
      submit-IsScheduled c job t m p d (Moves-IsScheduled c i before)

-- A job ends in a terminal state.
pub execution_status-is_terminal : (e : Execution) → is_terminal (execution_status e) ≡ true
unfolding execution_status
execution_status-is_terminal (lock_unavailable cancel) = ground arith
execution_status-is_terminal (raised row) = refl
execution_status-is_terminal (exited cancel code missing) = ground arith
