-- ===== src/Parallel/Scheduler/Measure.antt =====
-- How many rounds the loop of ParallelAgentRuntime.run in src/w1cip/parallel_runtime.py can take.
use w1_nexus.Prelude.{
  ℕ, ◌+◌, ◌≤◌, ◌<◌, ◌≡◌, refl, sym, ◌∙◌, ap, subst, String, Bool, true, not, some, List, [], ◌∷◌,
  Bool-cases, Option-cases, inl, inr, arith, ◌==◌, eq_iff, any, elem, elem-named, length,
}
use w1_nexus.Parallel.Types.{
  AgentJob, JobStatus, pending, queued, running, completed, failed, cancelled, timed_out, blocked,
  is_pending, is_queued, is_terminal,
}
use w1_nexus.Parallel.Plan.{job_ids}
use w1_nexus.Parallel.Scheduler.{
  Execution, execution_status, SchedulerState, set_status, start, RoundInput, is_running_on,
  is_future, collect,
}
use w1_nexus.Parallel.Scheduler.Moves.{Moves, unmoved, blocks, submits}
use w1_nexus.Parallel.Scheduler.Causal.{IsScheduled, pending_of, execution_status-is_terminal}

-- The changes that a job has before it.
abbrev pub to_go : JobStatus → ℕ
to_go pending = 2
to_go queued = 1
to_go running = 1
to_go _ = 0

-- Those of all jobs.
abbrev pub total : (String → JobStatus) → List String → ℕ
total states [] = 0
total states (key ∷ keys) = to_go (states key) + total states keys

abbrev pub left : List AgentJob → SchedulerState → ℕ
left jobs s = total s.states (job_ids jobs)

-- No job has more before it than it had.
abbrev pub Falls : (f g : String → JobStatus) → Type 0
Falls f g = (key : String) → to_go (g key) ≤ to_go (f key)

total-le : (f g : String → JobStatus) (keys : List String) → Falls f g → total g keys ≤ total f keys
total-le f g [] h = omega arith
total-le f g (key ∷ keys) h = omega (arith, h key, total-le f g keys h)

total-lt :
    (f g : String → JobStatus) (keys : List String)
    → Falls f g
    → (key : String) → elem key keys ≡ true
    → to_go (g key) < to_go (f key)
    → total g keys < total f keys
total-lt f g [] h key m l = cc
total-lt f g (k ∷ keys) h key m l = elim (Bool-cases (k == key)) [
  | inl e ↦
      let head : to_go (g k) < to_go (f k) =
        subst (λ x. to_go (g x) < to_go (f x)) (sym ((eq_iff k key).0 e)) l in
      omega (arith, head, total-le f g keys h)
  | inr e ↦ omega (arith, h k, total-lt f g keys h key (rw e at m) l)
]

pub total_start : (keys : List String) → total start.states keys ≡ length keys + length keys
total_start [] = refl
total_start (key ∷ keys) = omega (arith, total_start keys)

-- A pending job that is blocked or submitted.
set_status-Falls :
    (key : String) (v : JobStatus) (f : String → JobStatus)
    → is_pending (f key) ≡ true
    → to_go v < 2
    → Falls f (set_status key v f)
set_status-Falls key v f p l k = elim (Bool-cases (key == k)) [
  | inr e ↦ rw e (omega arith)
  | inl e ↦
      let same : f key ≡ f k = ap f ((eq_iff key k).0 e) in
      rw (e, ← same, pending_of (f key) p) (omega (arith, l))
]

set_status-lt :
    (key : String) (v : JobStatus) (f : String → JobStatus) (keys : List String)
    → is_pending (f key) ≡ true
    → to_go v < 2
    → elem key keys ≡ true
    → total (set_status key v f) keys < total f keys
set_status-lt key v f keys p l m =
    total-lt f (set_status key v f) keys (set_status-Falls key v f p l) key m
      (rw ((eq_iff key key).1 refl, pending_of (f key) p) l)

-- A pass that moves a job leaves less to do.
pub Moves-le :
    (jobs : List AgentJob) {s t : SchedulerState} {q : Bool}
    → Moves jobs s t q
    → left jobs t ≤ left jobs s
Moves-le jobs unmoved = omega arith
Moves-le jobs (blocks {t} job before m p d) = omega (
  arith,
  Moves-le jobs before,
  set_status-lt job.job_id blocked t.states (job_ids jobs) p (omega arith)
      (elem-named (λ (j : AgentJob). j.job_id) jobs job m),
)
Moves-le jobs (submits {t} job before m p d) = omega (
  arith,
  Moves-le jobs before,
  set_status-lt job.job_id queued t.states (job_ids jobs) p (omega arith)
      (elem-named (λ (j : AgentJob). j.job_id) jobs job m),
)

pub Moves-lt :
    (jobs : List AgentJob) {s t : SchedulerState} {q : Bool}
    → Moves jobs s t q
    → q ≡ true
    → left jobs t < left jobs s
Moves-lt jobs unmoved e = cc
Moves-lt jobs (blocks {t} job before m p d) e = omega (
  arith,
  Moves-le jobs before,
  set_status-lt job.job_id blocked t.states (job_ids jobs) p (omega arith)
      (elem-named (λ (j : AgentJob). j.job_id) jobs job m),
)
Moves-lt jobs (submits {t} job before m p d) e = omega (
  arith,
  Moves-le jobs before,
  set_status-lt job.job_id queued t.states (job_ids jobs) p (omega arith)
      (elem-named (λ (j : AgentJob). j.job_id) jobs job m),
)

to_go_terminal : (st : JobStatus) → is_terminal st ≡ true → to_go st ≡ 0
to_go_terminal pending h = cc
to_go_terminal queued h = cc
to_go_terminal running h = cc
to_go_terminal completed h = refl
to_go_terminal failed h = refl
to_go_terminal cancelled h = refl
to_go_terminal timed_out h = refl
to_go_terminal blocked h = refl

to_go_queued : (st : JobStatus) → is_queued st ≡ true → to_go st ≡ 1
to_go_queued queued h = refl
to_go_queued pending h = cc
to_go_queued running h = cc
to_go_queued completed h = cc
to_go_queued failed h = cc
to_go_queued cancelled h = cc
to_go_queued timed_out h = cc
to_go_queued blocked h = cc

-- Some future is done.
abbrev pub is_busy : RoundInput → SchedulerState → Bool
is_busy input s = any (λ j. not (is_running_on (input.finished j.job_id))) s.futures

done_future :
    (input : RoundInput) (js : List AgentJob)
    → any (λ j. not (is_running_on (input.finished j.job_id))) js ≡ true
    → (key : String) × (any (λ j. j.job_id == key) js ≡ true)
      × ((e : Execution) × (input.finished key ≡ some e))
done_future input [] h = cc
done_future input (j ∷ js) h = elim (Option-cases (input.finished j.job_id)) [
  | inr (e, f) ↦ (j.job_id, ground (arith, eq_iff j.job_id j.job_id), (e, f))
  | inl f ↦ let (key, m, r) = done_future input js (rw f at h) in (key, ground (arith, m), r)
]

module _ (fail_fast : Bool) (jobs : List AgentJob) (input : RoundInput) (s : SchedulerState)
    (i : IsScheduled jobs s) where
  collect-Falls : Falls s.states (collect fail_fast input s).states
  unfolding collect
  collect-Falls k = elim (Bool-cases (is_future s k)) [
    | inr e ↦ rw e (omega arith)
    | inl e ↦ elim (Option-cases (input.finished k)) [
      | inl f ↦ rw (e, f) (omega arith)
      | inr (x, f) ↦
          rw (e, f, to_go_terminal (execution_status x) (execution_status-is_terminal x))
            (omega arith)
    ]
  ]

  pub collect-le : left jobs (collect fail_fast input s) ≤ left jobs s
  collect-le = total-le s.states _ (job_ids jobs) collect-Falls

  pub collect-lt : is_busy input s ≡ true → left jobs (collect fail_fast input s) < left jobs s
  unfolding collect
  collect-lt h =
      let (key, m, (x, f)) = done_future input s.futures h in
      total-lt s.states _ (job_ids jobs) collect-Falls key (i.futures_known key m) (
        rw
          (
            m,
            f,
            to_go_terminal (execution_status x) (execution_status-is_terminal x),
            to_go_queued (s.states key) (sym (i.futures_queued key) ∙ m),
          )
          (omega arith))
