-- ===== src/Parallel/Scheduler/Liveness.antt =====
-- The loop of ParallelAgentRuntime.run in src/w1cip/parallel_runtime.py ends.
use w1_nexus.Prelude.{
  ℕ, suc, ◌+◌, ◌≤◌, ◌<◌, ◌≡◌, ◌⊎◌, refl, subst, String, Bool, true, false, not, ◌&&◌, List, [], ◌∷◌,
  if◌then◌else◌, Bool-cases, inl, inr, arith, length, length-map,
}
use w1_nexus.Dependencies.Order.{IsOrdered, Within}
use w1_nexus.Parallel.Types.{AgentJob, ParallelRunPolicy}
use w1_nexus.Parallel.Plan.{valid_plan, job_graph, job_ids, validate_jobs}
use w1_nexus.Parallel.Plan.Accepts.{IsChecked, valid-IsOrdered}
use w1_nexus.Parallel.Scheduler.{
  RunChecks, Passes, SchedulerState, start, Pass, passed, pass_key_error, pass_jobs, RoundInput,
  collect, no_futures, all_terminal, Round, continues, ended, deadlock, round_key_error, end_round,
  after_pass, round, rounds, run_status, run_finished, run,
}
use w1_nexus.Parallel.Scheduler.Moves.{unmoved, pass_jobs-IsPassed}
use w1_nexus.Parallel.Scheduler.Causal.{IsScheduled, start-IsScheduled, Moves-IsScheduled}
use w1_nexus.Parallel.Scheduler.Ends.{closed, IsFine, round-IsFine, run-IsSound}
use w1_nexus.Parallel.Scheduler.Measure.{
  left, total_start, is_busy, Moves-le, Moves-lt, collect-le, collect-lt,
}

-- A pass that moved nothing, before a wait that found nothing done.
abbrev pub is_idle_pass : RoundInput → Pass → Bool
is_idle_pass input (passed t progressed) = not progressed && not (is_busy input t)
is_idle_pass input pass_key_error = false

abbrev pub is_idle : List AgentJob → RoundInput → SchedulerState → Bool
is_idle jobs input s = is_idle_pass input (pass_jobs (job_ids jobs) jobs s false)

abbrev pub idle_after : Bool → (SchedulerState → ℕ) → Round → ℕ
idle_after idle next (continues t) = (if idle then 1 else 0) + next t
idle_after idle next r = 0

-- The rounds of a run in which the timeout of `wait` passed and nothing else happened; the round
-- that ends the run is not one of them.
unfoldable pub idle_rounds : Bool → List AgentJob → List RoundInput → SchedulerState → ℕ
idle_rounds fail_fast jobs [] s = 0
idle_rounds fail_fast jobs (input ∷ inputs) s =
    idle_after (is_idle jobs input s) (idle_rounds fail_fast jobs inputs)
      (round fail_fast jobs input s)

end_round_continues :
    (jobs : List AgentJob) (s t : SchedulerState) → end_round jobs s ≡ continues t → s ≡ t
end_round_continues jobs s t h = elim (Bool-cases (s.is_cancelled && no_futures s.futures)) [
  | inl e ↦ cc (rw e at h)
  | inr e ↦ continues-inj (rw e at h)
]
  where
    continues-inj : {a b : SchedulerState} → continues a ≡ continues b → a ≡ b
    continues-inj h = cc

-- A round that goes on has collected the futures.
after_pass_continues :
    (fail_fast : Bool) (jobs : List AgentJob) (input : RoundInput) (s t : SchedulerState) (q : Bool)
    → after_pass fail_fast jobs input (passed s q) ≡ continues t
    → collect fail_fast input s ≡ t
after_pass_continues fail_fast jobs input s t q h = elim (Bool-cases (no_futures s.futures)) [
  | inr e ↦ end_round_continues jobs _ t (rw e at h)
  | inl e ↦ elim (Bool-cases (all_terminal jobs s)) [
    | inl f ↦ cc (rw (e, f) at h)
    | inr f ↦ elim (Bool-cases q) [
      | inl g ↦ end_round_continues jobs _ t (rw (e, f, g) at h)
      | inr g ↦ cc (rw (e, f, g) at h)
    ]
  ]
]

Round-cases :
    (r : Round)
    → ((t : SchedulerState) × (r ≡ continues t))
      ⊎ ((t : SchedulerState) × (r ≡ ended t))
      ⊎ (r ≡ deadlock)
      ⊎ (r ≡ round_key_error)
Round-cases (continues t) = inl (t, refl)
Round-cases (ended t) = inr (inl (t, refl))
Round-cases deadlock = inr (inr (inl refl))
Round-cases round_key_error = inr (inr (inr refl))

module _ (fail_fast : Bool) (jobs : List AgentJob) (c : IsChecked jobs) (order : List String)
    (ordered : IsOrdered (job_graph jobs) order) (covers : Within (job_ids jobs) order) where
  -- Every round that goes on and is not idle leaves less to do.
  round-left :
      (input : RoundInput) (s t : SchedulerState)
      → IsScheduled jobs s
      → round fail_fast jobs input s ≡ continues t
      → suc (left jobs t) ≤ (if is_idle jobs input s then 1 else 0) + left jobs s
  unfolding round
  round-left input s t i h =
      let p =
        pass_jobs-IsPassed (job_ids jobs) jobs (closed jobs c order ordered covers) jobs s s false
          unmoved (λ j m. m) in
      let it = Moves-IsScheduled jobs c i p.moves in
      let same =
        after_pass_continues fail_fast jobs input p.out t p.progressed (rw p.result at h) in
      let less = collect-le fail_fast jobs input p.out it in
      rw (p.result, ← same)
        (elim (Bool-cases p.progressed) [
          | inl q ↦ rw q (omega (arith, less, Moves-lt jobs p.moves q))
          | inr q ↦ elim (Bool-cases (is_busy input p.out)) [
            | inl b ↦
                rw (q, b)
                  (omega (arith, Moves-le jobs p.moves, collect-lt fail_fast jobs input p.out it b))
            | inr b ↦ rw (q, b) (omega (arith, Moves-le jobs p.moves, less))
          ]
        ])

  rounds-left :
      (inputs : List RoundInput) (s t : SchedulerState)
      → IsScheduled jobs s
      → rounds fail_fast jobs inputs s ≡ continues t
      → length inputs ≤ idle_rounds fail_fast jobs inputs s + left jobs s
  unfolding rounds idle_rounds
  rounds-left [] s t i h = omega arith
  rounds-left (input ∷ inputs) s t i h = elim (Round-cases (round fail_fast jobs input s)) [
    | inl (u, e) ↦
        let iu : IsScheduled jobs u =
          subst (IsFine jobs c order ordered covers) e
            (round-IsFine jobs c order ordered covers fail_fast input s i) in
        let less = round-left input s u i e in
        let later = rounds-left inputs u t iu (rw (e, rounds) at h) in
        rw (e, idle_rounds) (omega (arith, less, later))
    | inr (inl (u, e)) ↦ cc (rw (e, rounds) at h)
    | inr (inr (inl e)) ↦ cc (rw (e, rounds) at h)
    | inr (inr (inr e)) ↦ cc (rw (e, rounds) at h)
  ]

-- The run of a plan that _validate_jobs accepts, with a name that is valid and new and in a clean
-- repository, is over after two rounds for each job, not counting
-- those in which no job moved and the wait for a running job timed out: it returns, with the
-- status of its states, each of which is final.
pub run_returns :
    (policy : ParallelRunPolicy) (checks : RunChecks) (jobs : List AgentJob)
    (inputs : List RoundInput)
    → Passes checks
    → validate_jobs jobs ≡ valid_plan
    → idle_rounds policy.fail_fast jobs inputs start + (length jobs + length jobs) < length inputs
    → (s : SchedulerState) × (run policy checks jobs inputs ≡ run_finished (run_status jobs s) s)
      × (all_terminal jobs s ≡ true)
unfolding run
run_returns policy checks jobs inputs k valid many =
    let (c, (order, ordered, covers)) = valid-IsOrdered jobs valid in
    let sound = run-IsSound policy checks jobs inputs k valid in
    elim (Round-cases (rounds policy.fail_fast jobs inputs start)) [
      | inl (t, e) ↦
          let most =
            rounds-left policy.fail_fast jobs c order ordered covers inputs start t
              (start-IsScheduled jobs) e in
          absurd (
            omega (
              arith,
              most,
              many,
              total_start (job_ids jobs),
              length-map (λ (j : AgentJob). j.job_id) jobs,
            ))
      | inr (inl (t, e)) ↦ (
        t,
        rw (k.named, valid, k.clean, k.new, e) refl,
        (rw (k.named, valid, k.clean, k.new, e) at sound).1,
      )
      | inr (inr (inl e)) ↦ absurd (rw (k.named, valid, k.clean, k.new, e) at sound)
      | inr (inr (inr e)) ↦ absurd (rw (k.named, valid, k.clean, k.new, e) at sound)
    ]
