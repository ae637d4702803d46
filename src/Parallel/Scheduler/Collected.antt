-- ===== src/Parallel/Scheduler/Collected.antt =====
-- The end of a round of ParallelAgentRuntime.run in src/w1cip/parallel_runtime.py: the results that
-- are collected, and the jobs that are cancelled.
use w1_nexus.Prelude.{
  ◌≡◌, refl, sym, ◌∙◌, ap, String, Bool, true, false, ◌&&◌, Option, List, [], ◌∷◌, ◌==◌, eq_iff,
  Bool-cases, Option-cases, inl, inr, arith, any, In-all, elem, elem-named, select, and-left,
}
use w1_nexus.Parallel.Types.{
  AgentJob, JobStatus, pending, queued, running, completed, failed, cancelled, timed_out, blocked,
  is_queued, is_completed, is_terminal,
}
use w1_nexus.Parallel.Plan.{job_ids}
use w1_nexus.Parallel.Scheduler.{
  Execution, SchedulerState, RoundInput, is_running_on, is_future, collect, is_open, cancel_open,
  no_futures, all_terminal,
}
use w1_nexus.Parallel.Scheduler.Causal.{
  IsScheduled, is_started, is_running, all_done-keeps, execution_status-is_terminal,
}

terminal-is_running : (st : JobStatus) → is_terminal st ≡ true → is_running st ≡ false
terminal-is_running running h = cc
terminal-is_running pending h = refl
terminal-is_running queued h = refl
terminal-is_running completed h = refl
terminal-is_running failed h = refl
terminal-is_running cancelled h = refl
terminal-is_running timed_out h = refl
terminal-is_running blocked h = refl

pub terminal-is_queued : (st : JobStatus) → is_terminal st ≡ true → is_queued st ≡ false
terminal-is_queued queued h = cc
terminal-is_queued pending h = refl
terminal-is_queued running h = refl
terminal-is_queued completed h = refl
terminal-is_queued failed h = refl
terminal-is_queued cancelled h = refl
terminal-is_queued timed_out h = refl
terminal-is_queued blocked h = refl

queued-is_started : (st : JobStatus) → is_queued st ≡ true → is_started st ≡ true
queued-is_started queued h = refl
queued-is_started pending h = cc
queued-is_started running h = cc
queued-is_started completed h = cc
queued-is_started failed h = cc
queued-is_started cancelled h = cc
queued-is_started timed_out h = cc
queued-is_started blocked h = cc

-- A completed job is neither queued nor open.
completed_closed :
    (st : JobStatus) → is_completed st ≡ true → (is_queued st ≡ false) × (is_open st ≡ false)
completed_closed completed h = (refl, refl)
completed_closed pending h = cc
completed_closed queued h = cc
completed_closed running h = cc
completed_closed failed h = cc
completed_closed cancelled h = cc
completed_closed timed_out h = cc
completed_closed blocked h = cc

pub closed-is_terminal :
    (st : JobStatus) → is_running st ≡ false → is_open st ≡ false → is_terminal st ≡ true
closed-is_terminal running h k = cc
closed-is_terminal pending h k = cc
closed-is_terminal queued h k = cc
closed-is_terminal completed h k = refl
closed-is_terminal failed h k = refl
closed-is_terminal cancelled h k = refl
closed-is_terminal timed_out h k = refl
closed-is_terminal blocked h k = refl

any-select_running :
    (finished : String → Option Execution) (key : String) (js : List AgentJob)
    → any (λ j. j.job_id == key) (select (λ j. is_running_on (finished j.job_id)) js)
      ≡ (any (λ j. j.job_id == key) js && is_running_on (finished key))
any-select_running finished key [] = refl
any-select_running finished key (j ∷ js) = elim (Bool-cases (j.job_id == key)) [
  | inr e ↦ ground (arith, any-select_running finished key js, e)
  | inl e ↦
      let same : is_running_on (finished j.job_id) ≡ is_running_on (finished key) =
        ap (λ k. is_running_on (finished k)) ((eq_iff j.job_id key).0 e) in
      ground (arith, any-select_running finished key js, e, same)
]

module _ (fail_fast : Bool) (jobs : List AgentJob) (input : RoundInput) (s : SchedulerState)
    (i : IsScheduled jobs s) where
  -- A job that is not a future keeps its state.
  collect-completed :
      (d : String)
      → is_completed (s.states d) ≡ true
      → is_completed ((collect fail_fast input s).states d) ≡ true
  unfolding collect
  collect-completed d h = rw (i.futures_queued d, (completed_closed (s.states d) h).0) h

  collect-was_started :
      (key : String)
      → is_started ((collect fail_fast input s).states key) ≡ true
      → is_started (s.states key) ≡ true
  unfolding collect
  collect-was_started key h = elim (Bool-cases (is_future s key)) [
    | inl e ↦ queued-is_started (s.states key) (sym (i.futures_queued key) ∙ e)
    | inr e ↦ rw e at h
  ]

  pub collect-IsScheduled : IsScheduled jobs (collect fail_fast input s)
  unfolding collect
  collect-IsScheduled = record {
    none_running = λ k. elim (Bool-cases (is_future s k)) [
      | inr e ↦ rw e (i.none_running k)
      | inl e ↦ elim (Option-cases (input.finished k)) [
        | inl f ↦ rw (e, f) (i.none_running k)
        | inr (x, f) ↦ rw (e, f) (terminal-is_running _ (execution_status-is_terminal x))
      ]
    ];
    futures_queued = λ k.
        any-select_running input.finished k s.futures ∙ elim (Bool-cases (is_future s k)) [
          | inr e ↦ rw e (sym e ∙ i.futures_queued k)
          | inl e ↦ elim (Option-cases (input.finished k)) [
            | inl f ↦ rw (e, f) (sym e ∙ i.futures_queued k)
            | inr (x, f) ↦ rw (e, f) (sym (terminal-is_queued _ (execution_status-is_terminal x)))
          ]
        ];
    futures_known = λ k h.
        i.futures_known k (and-left _ _ (sym (any-select_running input.finished k s.futures) ∙ h));
    causal = λ k ds g h.
        all_done-keeps s.states _ ds collect-completed (i.causal k ds g (collect-was_started k h));
  }

module _ (jobs : List AgentJob) (s : SchedulerState) (i : IsScheduled jobs s) where
  module _ (over : no_futures s.futures ≡ true) where
    nothing_queued : (k : String) → is_queued (s.states k) ≡ false
    nothing_queued k = sym (i.futures_queued k) ∙ none_of s.futures over
      where
        none_of : (js : List AgentJob) → no_futures js ≡ true → any (λ j. j.job_id == k) js ≡ false
        none_of [] h = refl
        none_of (j ∷ js) h = cc

    pub cancel_open-IsScheduled : IsScheduled jobs (cancel_open jobs s)
    unfolding cancel_open
    cancel_open-IsScheduled = record {
      none_running = λ k. elim (Bool-cases (elem k (job_ids jobs) && is_open (s.states k))) [
        | inl e ↦ rw e refl
        | inr e ↦ rw e (i.none_running k)
      ];
      futures_queued = λ k. elim (Bool-cases (elem k (job_ids jobs) && is_open (s.states k))) [
        | inl e ↦ rw e (i.futures_queued k ∙ nothing_queued k)
        | inr e ↦ rw e (i.futures_queued k)
      ];
      futures_known = i.futures_known;
      causal = λ k ds g h. elim (Bool-cases (elem k (job_ids jobs) && is_open (s.states k))) [
        | inl e ↦ cc (rw e at h)
        | inr e ↦
            all_done-keeps s.states _ ds
              (λ d m. rw ((completed_closed (s.states d) m).1, and_false (elem d (job_ids jobs))) m)
              (i.causal k ds g (rw e at h))
      ];
    }
      where
        and_false : (a : Bool) → (a && false) ≡ false
        and_false a = ground arith

  pub cancel_open-all_terminal : all_terminal jobs (cancel_open jobs s) ≡ true
  unfolding cancel_open
  cancel_open-all_terminal =
      In-all (λ j. is_terminal ((cancel_open jobs s).states j.job_id)) jobs
        λ j m. elim (Bool-cases (is_open (s.states j.job_id))) [
          | inl e ↦ rw (elem-named (λ (j : AgentJob). j.job_id) jobs j m, e) refl
          | inr e ↦
              rw (elem-named (λ (j : AgentJob). j.job_id) jobs j m, e)
                (closed-is_terminal (s.states j.job_id) (i.none_running j.job_id) e)
        ]
