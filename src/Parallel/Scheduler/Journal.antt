-- ===== src/Parallel/Scheduler/Journal.antt =====
-- The rows of the jobs that ParallelAgentRuntime.run of src/w1cip/parallel_runtime.py leaves in its
-- journal.
use w1_nexus.Prelude.{
  ◌≡◌, ◌⊎◌, inl, inr, refl, subst, String, Bool, true, false, ◌&&◌, List, [], ◌∷◌, ◌==◌, Bool-cases,
  Option-cases, all-In, In, elem,
}
use w1_nexus.Dependencies.Order.{IsOrdered, Within}
use w1_nexus.Parallel.Types.{AgentJob, ParallelRunPolicy, JobStatus, queued, failed, is_terminal}
use w1_nexus.Parallel.Plan.{valid_plan, job_graph, job_ids, validate_jobs}
use w1_nexus.Parallel.Plan.Accepts.{IsChecked, valid-IsOrdered}
use w1_nexus.Parallel.Scheduler.{
  RunChecks, Passes, Execution, lock_unavailable, raised, exited, execution_status, execution_row,
  SchedulerState, start, passed, RoundInput, is_future, collect, is_open, cancel_open, no_futures,
  all_terminal, Round, continues, ended, deadlock, round_key_error, end_round, after_pass, and_then,
  round, rounds, run_finished, run, end_of_rounds,
}
use w1_nexus.Parallel.Scheduler.Moves.{Moves, unmoved, blocks, submits, pass_jobs-IsPassed}
use w1_nexus.Parallel.Scheduler.Ends.{closed, run-IsSound}

-- The row is the state, but for a failed job, and for one that is queued.
abbrev IsLogged : JobStatus → JobStatus → Type 0
IsLogged row state = (row ≡ state) ⊎ (state ≡ failed) ⊎ (state ≡ queued)

abbrev AllLogged : SchedulerState → Type 0
AllLogged s = (key : String) → IsLogged (s.rows key) (s.states key)

execution-IsLogged : (e : Execution) → IsLogged (execution_row e) (execution_status e)
unfolding execution_row execution_status
execution-IsLogged (lock_unavailable cancel) = inl refl
execution-IsLogged (raised row) = inr (inl refl)
execution-IsLogged (exited cancel code missing) = inl refl

Moves-AllLogged :
    {jobs : List AgentJob} {s t : SchedulerState} {q : Bool}
    → Moves jobs s t q
    → AllLogged s
    → AllLogged t
Moves-AllLogged unmoved h = h
Moves-AllLogged (blocks {t} job before m p d) h = λ k. elim (Bool-cases (job.job_id == k)) [
  | inl e ↦ rw e (inl refl)
  | inr e ↦ rw e (Moves-AllLogged before h k)
]
Moves-AllLogged (submits {t} job before m p d) h = λ k. elim (Bool-cases (job.job_id == k)) [
  | inl e ↦ rw e (inr (inr refl))
  | inr e ↦ rw e (Moves-AllLogged before h k)
]

collect-AllLogged :
    (fail_fast : Bool) (input : RoundInput) (s : SchedulerState)
    → AllLogged s
    → AllLogged (collect fail_fast input s)
unfolding collect
collect-AllLogged fail_fast input s h k = elim (Bool-cases (is_future s k)) [
  | inr e ↦ rw e (h k)
  | inl e ↦ elim (Option-cases (input.finished k)) [
    | inl f ↦ rw (e, f) (h k)
    | inr (x, f) ↦ rw (e, f) (execution-IsLogged x)
  ]
]

cancel_open-AllLogged :
    (jobs : List AgentJob) (s : SchedulerState) → AllLogged s → AllLogged (cancel_open jobs s)
unfolding cancel_open
cancel_open-AllLogged jobs s h k =
    elim (Bool-cases (elem k (job_ids jobs) && is_open (s.states k))) [
      | inl e ↦ rw e (inl refl)
      | inr e ↦ rw e (h k)
    ]

abbrev AreLogged : Round → Type 0
AreLogged (continues s) = AllLogged s
AreLogged (ended s) = AllLogged s
AreLogged r = Unit

end_round-AreLogged :
    (jobs : List AgentJob) (s : SchedulerState) → AllLogged s → AreLogged (end_round jobs s)
end_round-AreLogged jobs s h = elim (Bool-cases (s.is_cancelled && no_futures s.futures)) [
  | inl e ↦ rw e (cancel_open-AllLogged jobs s h)
  | inr e ↦ rw e h
]

after_pass-AreLogged :
    (fail_fast : Bool) (jobs : List AgentJob) (input : RoundInput) (s : SchedulerState) (q : Bool)
    → AllLogged s
    → AreLogged (after_pass fail_fast jobs input (passed s q))
after_pass-AreLogged fail_fast jobs input s q h =
    let collected = end_round-AreLogged jobs _ (collect-AllLogged fail_fast input s h) in
    elim (Bool-cases (no_futures s.futures)) [
      | inr e ↦ rw e collected
      | inl e ↦ elim (Bool-cases (all_terminal jobs s)) [
        | inl f ↦ rw (e, f) h
        | inr f ↦ elim (Bool-cases q) [ inl g ↦ rw (e, f, g) collected | inr g ↦ rw (e, f, g) tt ]
      ]
    ]

and_then-AreLogged :
    (next : SchedulerState → Round) (r : Round)
    → AreLogged r
    → ((t : SchedulerState) → AllLogged t → AreLogged (next t))
    → AreLogged (and_then next r)
and_then-AreLogged next (continues t) h f = f t h
and_then-AreLogged next (ended t) h f = h
and_then-AreLogged next deadlock h f = tt
and_then-AreLogged next round_key_error h f = tt

module _ (fail_fast : Bool) (jobs : List AgentJob) (c : IsChecked jobs) (order : List String)
    (ordered : IsOrdered (job_graph jobs) order) (covers : Within (job_ids jobs) order) where
  round-AreLogged :
      (input : RoundInput) (s : SchedulerState)
      → AllLogged s
      → AreLogged (round fail_fast jobs input s)
  unfolding round
  round-AreLogged input s h =
      let p =
        pass_jobs-IsPassed (job_ids jobs) jobs (closed jobs c order ordered covers) jobs s s false
          unmoved (λ j m. m) in
      rw p.result
        (after_pass-AreLogged fail_fast jobs input p.out p.progressed (Moves-AllLogged p.moves h))

  rounds-AreLogged :
      (inputs : List RoundInput) (s : SchedulerState)
      → AllLogged s
      → AreLogged (rounds fail_fast jobs inputs s)
  unfolding rounds
  rounds-AreLogged [] s h = h
  rounds-AreLogged (input ∷ inputs) s h =
      and_then-AreLogged _ (round fail_fast jobs input s) (round-AreLogged input s h)
        (λ t k. rounds-AreLogged inputs t k)

-- The row of a job in a final state.
final-IsLogged :
    {row state : JobStatus}
    → is_terminal state ≡ true
    → IsLogged row state
    → (row ≡ state) ⊎ (state ≡ failed)
final-IsLogged h (inl e) = inl e
final-IsLogged h (inr (inl e)) = inr e
final-IsLogged h (inr (inr e)) = cc (rw e at h)

finished_round :
    (jobs : List AgentJob) (r : Round) (status : JobStatus) (s : SchedulerState)
    → end_of_rounds jobs r ≡ run_finished status s
    → AreLogged r
    → AllLogged s
finished_round jobs (continues t) status s e h = cc
finished_round jobs (ended t) status s e h = subst AllLogged (state-eq e) h
  where
    state-eq :
        {a b : JobStatus} {x y : SchedulerState} → run_finished a x ≡ run_finished b y → x ≡ y
    state-eq h = cc
finished_round jobs deadlock status s e h = cc
finished_round jobs round_key_error status s e h = cc

-- When the run of a plan that _validate_jobs accepts, with a name that is valid and new and in a
-- clean repository, has returned, the journal has the final state
-- of every job in its row, except possibly for a failed job.
pub run_rows :
    (policy : ParallelRunPolicy) (checks : RunChecks) (jobs : List AgentJob)
    (inputs : List RoundInput) (status : JobStatus) (s : SchedulerState)
    → Passes checks
    → validate_jobs jobs ≡ valid_plan
    → run policy checks jobs inputs ≡ run_finished status s
    → (j : AgentJob) → In j jobs
    → (s.rows j.job_id ≡ s.states j.job_id) ⊎ (s.states j.job_id ≡ failed)
unfolding run
run_rows policy checks jobs inputs status s k valid e j m =
    let (c, (order, ordered, covers)) = valid-IsOrdered jobs valid in
    let sound = run-IsSound policy checks jobs inputs k valid in
    let logged =
      finished_round jobs (rounds policy.fail_fast jobs inputs start) status s
        (rw (k.named, valid, k.clean, k.new) at e)
        (rounds-AreLogged policy.fail_fast jobs c order ordered covers inputs start
          (λ k. inl refl)) in
    final-IsLogged
      (all-In (λ (j : AgentJob). is_terminal (s.states j.job_id)) jobs (rw e at sound).1 j m)
      (logged j.job_id)
