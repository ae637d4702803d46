-- ===== src/Parallel/Scheduler/Ends.antt =====
-- The rounds of ParallelAgentRuntime.run in src/w1cip/parallel_runtime.py do not deadlock.
use w1_nexus.Prelude.{
  ◌≡◌, refl, sym, ◌∙◌, ap, subst, String, Bool, true, false, ◌&&◌, ◌||◌, List, [], ◌∷◌, Bool-cases,
  inl, inr, arith, ◌==◌, eq_iff, any, all-In, In-all, all-false, elem, elem-named, is_subset, In,
  true-ne-false, and-right,
}
use w1_nexus.Dependencies.Order.{IsOrdered, Within, no_stuck}
use w1_nexus.Parallel.Types.{
  AgentJob, JobStatus, pending, queued, running, completed, failed, cancelled, timed_out, blocked,
  is_pending, is_queued, is_completed, is_terminal, has_failed, ParallelRunPolicy,
}
use w1_nexus.Parallel.Plan.{valid_plan, job_graph, job_ids, validate_jobs}
use w1_nexus.Parallel.Plan.Accepts.{IsChecked, job_of, valid-IsOrdered}
use w1_nexus.Parallel.Scheduler.{
  RunChecks, Passes, invalid_run_id, repository_refused, run_exists, SchedulerState, start,
  RoundInput, no_futures, all_terminal, Round, continues, ended, deadlock, round_key_error,
  end_round, and_then, round, rounds, run_status, RunEnd, plan_error, run_deadlock, run_key_error,
  run_finished, run_open, run, end_of_rounds,
}
use w1_nexus.Parallel.Scheduler.Moves.{unmoved, unmoved-eq, IsIdle, pass_jobs-IsPassed}
use w1_nexus.Parallel.Scheduler.Causal.{
  IsScheduled, start-IsScheduled, is_running, Moves-IsScheduled,
}
use w1_nexus.Parallel.Scheduler.Collected.{
  closed-is_terminal, collect-IsScheduled, cancel_open-IsScheduled, cancel_open-all_terminal,
}

any-elem :
    (p : String → Bool) (xs : List String) (x : String)
    → any p xs ≡ false
    → elem x xs ≡ true
    → p x ≡ false
any-elem p [] x h m = cc
any-elem p (y ∷ xs) x h m = elim (Bool-cases (y == x)) [
  | inl e ↦ subst (λ z. p z ≡ false) ((eq_iff y x).0 e) (ground arith)
  | inr e ↦ any-elem p xs x (ground arith) (rw e at m)
]

-- A job that is not in a final state and not in the pool is pending.
left_pending :
    (st : JobStatus)
    → is_running st ≡ false
    → is_queued st ≡ false
    → is_completed st ≡ false
    → has_failed st ≡ false
    → is_pending st ≡ true
left_pending pending a b c d = refl
left_pending queued a b c d = cc
left_pending running a b c d = cc
left_pending completed a b c d = cc
left_pending failed a b c d = cc
left_pending cancelled a b c d = cc
left_pending timed_out a b c d = cc
left_pending blocked a b c d = cc

pub no_future :
    (js : List AgentJob) (key : String)
    → no_futures js ≡ true
    → any (λ j. j.job_id == key) js ≡ false
no_future [] key h = refl
no_future (j ∷ js) key h = cc

or-intro : (a b : Bool) → a ≡ false → b ≡ false → (a || b) ≡ false
or-intro a b h k = ground arith

module _ (jobs : List AgentJob) (c : IsChecked jobs) (order : List String)
    (ordered : IsOrdered (job_graph jobs) order) (covers : Within (job_ids jobs) order) where
  pub closed : (j : AgentJob) → In j jobs → is_subset j.dependencies (job_ids jobs) ≡ true
  closed = all-In (λ (j : AgentJob). is_subset j.dependencies (job_ids jobs)) jobs c.known

  -- Where a pass moves nothing and nothing runs, no job is left.
  idle-all_terminal :
      (s : SchedulerState)
      → IsScheduled jobs s
      → no_futures s.futures ≡ true
      → IsIdle s jobs
      → all_terminal jobs s ≡ true
  idle-all_terminal s i over idle =
      let unqueued : (k : String) → is_queued (s.states k) ≡ false =
        λ k. sym (i.futures_queued k) ∙ no_future s.futures k over in
      let none_left =
        no_stuck (job_graph jobs) (λ k. is_pending (s.states k)) order ordered
          λ key ds m g p.
            let (j, listed, named, same) = job_of jobs key ds g in
            let w = idle j listed (ap (λ k. is_pending (s.states k)) named ∙ p) in
            let (d, md, undone) =
              all-false (λ x. is_completed (s.states x)) j.dependencies w.not_ready in
            (
              d,
              sym (ap (elem d) same) ∙ md,
              left_pending (s.states d) (i.none_running d) (unqueued d) undone
                  (any-elem (λ x. has_failed (s.states x)) j.dependencies d w.none_failed md),
            ) in
      In-all (λ j. is_terminal (s.states j.job_id)) jobs
        λ j m. closed-is_terminal (s.states j.job_id) (i.none_running j.job_id) (
          or-intro _ _
            (none_left j.job_id
              (covers j.job_id (elem-named (λ (j : AgentJob). j.job_id) jobs j m)))
            (unqueued j.job_id))

  -- A round or a run that goes on, or ends with every job in a final state.
  abbrev pub IsFine : Round → Type 0
  IsFine (continues t) = IsScheduled jobs t
  IsFine (ended t) = IsScheduled jobs t × (all_terminal jobs t ≡ true)
  IsFine deadlock = ⊥
  IsFine round_key_error = ⊥

  end_round-IsFine : (t : SchedulerState) → IsScheduled jobs t → IsFine (end_round jobs t)
  end_round-IsFine t i = elim (Bool-cases (t.is_cancelled && no_futures t.futures)) [
    | inl e ↦
        rw e (cancel_open-IsScheduled jobs t i (and-right _ _ e), cancel_open-all_terminal jobs t i)
    | inr e ↦ rw e i
  ]

  pub round-IsFine :
      (fail_fast : Bool) (input : RoundInput) (s : SchedulerState)
      → IsScheduled jobs s
      → IsFine (round fail_fast jobs input s)
  unfolding round
  round-IsFine fail_fast input s i =
      let p = pass_jobs-IsPassed (job_ids jobs) jobs closed jobs s s false unmoved (λ j m. m) in
      let it = Moves-IsScheduled jobs c i p.moves in
      rw p.result (elim (Bool-cases (no_futures p.out.futures)) [
        | inr e ↦ rw e (end_round-IsFine _ (collect-IsScheduled fail_fast jobs input p.out it))
        | inl e ↦ elim (Bool-cases (all_terminal jobs p.out)) [
          | inl f ↦ rw (e, f) (it, f)
          | inr f ↦ elim (Bool-cases p.progressed) [
            | inl q ↦
                rw (e, f, q)
                  (end_round-IsFine _ (collect-IsScheduled fail_fast jobs input p.out it))
            | inr q ↦
                let same = unmoved-eq p.moves q in
                absurd (
                  true-ne-false (
                    sym
                      (idle-all_terminal p.out it e (subst (λ x. IsIdle x jobs) same (p.idle q).1))
                    ∙ f))
          ]
        ]
      ])

  and_then-IsFine :
      (next : SchedulerState → Round) (r : Round)
      → IsFine r
      → ((t : SchedulerState) → IsScheduled jobs t → IsFine (next t))
      → IsFine (and_then next r)
  and_then-IsFine next (continues t) h f = f t h
  and_then-IsFine next (ended t) h f = h
  and_then-IsFine next deadlock h f = h
  and_then-IsFine next round_key_error h f = h

  pub rounds-IsFine :
      (fail_fast : Bool) (inputs : List RoundInput) (s : SchedulerState)
      → IsScheduled jobs s
      → IsFine (rounds fail_fast jobs inputs s)
  unfolding rounds
  rounds-IsFine fail_fast [] s i = i
  rounds-IsFine fail_fast (input ∷ inputs) s i =
      and_then-IsFine _ (round fail_fast jobs input s) (round-IsFine fail_fast input s i)
        (λ t j. rounds-IsFine fail_fast inputs t j)

-- A run that has not ended, or has ended with every job in a final state.
abbrev pub IsSound : List AgentJob → RunEnd → Type 0
IsSound jobs (plan_error v) = ⊥
IsSound jobs invalid_run_id = ⊥
IsSound jobs repository_refused = ⊥
IsSound jobs run_exists = ⊥
IsSound jobs run_deadlock = ⊥
IsSound jobs run_key_error = ⊥
IsSound jobs (run_open s) = IsScheduled jobs s
IsSound jobs (run_finished status s) =
    IsScheduled jobs s × (all_terminal jobs s ≡ true) × (status ≡ run_status jobs s)

end-IsSound :
    (jobs : List AgentJob) (c : IsChecked jobs) (order : List String)
    (ordered : IsOrdered (job_graph jobs) order) (covers : Within (job_ids jobs) order) (r : Round)
    → IsFine jobs c order ordered covers r
    → IsSound jobs (end_of_rounds jobs r)
end-IsSound jobs c order ordered covers (continues s) h = h
end-IsSound jobs c order ordered covers (ended s) h = (h.0, h.1, refl)
end-IsSound jobs c order ordered covers deadlock h = h
end-IsSound jobs c order ordered covers round_key_error h = h

-- The run of a plan that _validate_jobs accepts, with a name that is valid and new and in a clean
-- repository, never raises "scheduler deadlock" nor a KeyError,
-- whatever its jobs do and whenever it is cancelled. After any number of rounds no job is
-- submitted or completed before all its dependencies are completed, and the futures are the queued
-- jobs; at the end every job is in a final state.
pub run-IsSound :
    (policy : ParallelRunPolicy) (checks : RunChecks) (jobs : List AgentJob)
    (inputs : List RoundInput)
    → Passes checks
    → validate_jobs jobs ≡ valid_plan
    → IsSound jobs (run policy checks jobs inputs)
unfolding run
run-IsSound policy checks jobs inputs k valid =
    let (c, (order, ordered, covers)) = valid-IsOrdered jobs valid in
    rw (k.named, valid, k.clean, k.new)
      (end-IsSound jobs c order ordered covers _ (
        rounds-IsFine jobs c order ordered covers policy.fail_fast inputs start
          (start-IsScheduled jobs)))
