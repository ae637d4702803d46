-- ===== src/Parallel/Scheduler/Success.antt =====
-- A run of ParallelAgentRuntime in src/w1cip/parallel_runtime.py in which nothing goes wrong.
use w1_nexus.Prelude.{
  ◌+◌, ◌<◌, ◌≡◌, inl, inr, refl, sym, ◌∙◌, ap, String, Bool, true, false, ◌&&◌, some, List, [], ◌∷◌,
  ◌==◌, Bool-cases, Option-cases, arith, any, In-all, all-In, All, length, true-ne-false, and-left,
}
use w1_nexus.Dependencies.Order.{IsOrdered, Within}
use w1_nexus.Parallel.Types.{
  AgentJob, ParallelRunPolicy, JobStatus, pending, queued, running, completed, failed, cancelled,
  timed_out, blocked, is_completed, is_terminal, has_failed, is_hard_failure,
}
use w1_nexus.Parallel.Plan.{valid_plan, job_graph, job_ids, validate_jobs}
use w1_nexus.Parallel.Plan.Accepts.{IsChecked, valid-IsOrdered}
use w1_nexus.Parallel.Scheduler.{
  Execution, execution_status, SchedulerState, start, passed, RoundInput, is_failure, is_future,
  collect, no_futures, all_terminal, Round, continues, ended, deadlock, round_key_error, end_round,
  after_pass, and_then, round, rounds, run_status, RunChecks, Passes, run_finished, run,
  end_of_rounds,
}
use w1_nexus.Parallel.Scheduler.Moves.{Moves, unmoved, blocks, submits, pass_jobs-IsPassed}
use w1_nexus.Parallel.Scheduler.Ends.{closed}
use w1_nexus.Parallel.Scheduler.Liveness.{idle_rounds, run_returns}

-- Nobody cancels, and every job that ends has completed.
pub record IsSuccess (input : RoundInput) : Type 0 where
  pub uncancelled : input.cancel_called ≡ false
  pub succeeds :
      (key : String) (e : Execution) → input.finished key ≡ some e → execution_status e ≡ completed

record AllWell (s : SchedulerState) : Type 0 where
  none_failed : (key : String) → has_failed (s.states key) ≡ false
  going : s.is_cancelled ≡ false

any-none {ℓ} :
    {A : Type ℓ} (p : A → Bool) (xs : List A) → ((x : A) → p x ≡ false) → any p xs ≡ false
any-none p [] h = refl
any-none p (x ∷ xs) h = rw (h x) (any-none p xs h)

unfailed-is_completed :
    (st : JobStatus) → is_terminal st ≡ true → has_failed st ≡ false → is_completed st ≡ true
unfailed-is_completed completed t h = refl
unfailed-is_completed pending t h = cc
unfailed-is_completed queued t h = cc
unfailed-is_completed running t h = cc
unfailed-is_completed failed t h = cc
unfailed-is_completed cancelled t h = cc
unfailed-is_completed timed_out t h = cc
unfailed-is_completed blocked t h = cc

unfailed-is_hard_failure : (st : JobStatus) → has_failed st ≡ false → is_hard_failure st ≡ false
unfailed-is_hard_failure completed h = refl
unfailed-is_hard_failure pending h = refl
unfailed-is_hard_failure queued h = refl
unfailed-is_hard_failure running h = refl
unfailed-is_hard_failure cancelled h = refl
unfailed-is_hard_failure failed h = cc
unfailed-is_hard_failure timed_out h = cc
unfailed-is_hard_failure blocked h = cc

Moves-AllWell :
    {jobs : List AgentJob} {s t : SchedulerState} {q : Bool}
    → Moves jobs s t q
    → AllWell s
    → AllWell t
Moves-AllWell unmoved w = w
Moves-AllWell (blocks {t} job before m p d) w = absurd (
    true-ne-false (
      sym d
      ∙ any-none (λ k. has_failed (t.states k)) job.dependencies
          (Moves-AllWell before w).none_failed))
Moves-AllWell (submits {t} job before m p d) w =
    let old = Moves-AllWell before w in
    record {
      none_failed = λ k. elim (Bool-cases (job.job_id == k)) [
        | inl e ↦ rw e refl
        | inr e ↦ rw e (old.none_failed k)
      ];
      going = old.going;
    }

collect-AllWell :
    (fail_fast : Bool) (input : RoundInput) (s : SchedulerState)
    → IsSuccess input
    → AllWell s
    → AllWell (collect fail_fast input s)
unfolding collect
collect-AllWell fail_fast input s i w = record {
  none_failed = λ k. elim (Bool-cases (is_future s k)) [
    | inr e ↦ rw e (w.none_failed k)
    | inl e ↦ elim (Option-cases (input.finished k)) [
      | inl f ↦ rw (e, f) (w.none_failed k)
      | inr (x, f) ↦ rw (e, f, i.succeeds k x f) refl
    ]
  ];
  going =
      let quiet =
        any-none (λ (j : AgentJob). is_failure (input.finished j.job_id)) s.futures
          λ j. elim (Option-cases (input.finished j.job_id)) [
            | inl f ↦ rw f refl
            | inr (x, f) ↦ rw (f, i.succeeds j.job_id x f) refl
          ] in
      rw (w.going, i.uncancelled, quiet) (ground arith);
}

all_completed :
    (jobs : List AgentJob) (s : SchedulerState)
    → AllWell s
    → all_terminal jobs s ≡ true
    → run_status jobs s ≡ completed
all_completed jobs s w t =
    let hard =
      any-none (λ (j : AgentJob). is_hard_failure (s.states j.job_id)) jobs
        (λ j. unfailed-is_hard_failure (s.states j.job_id) (w.none_failed j.job_id)) in
    let done =
      In-all (λ (j : AgentJob). is_completed (s.states j.job_id)) jobs
        λ j m.
          unfailed-is_completed (s.states j.job_id)
            (all-In (λ (j : AgentJob). is_terminal (s.states j.job_id)) jobs t j m)
            (w.none_failed j.job_id) in
    rw (hard, done) refl

-- A round that goes on without a failure, or ends with the status completed.
abbrev Succeeds : List AgentJob → Round → Type 0
Succeeds jobs (continues s) = AllWell s
Succeeds jobs (ended s) = run_status jobs s ≡ completed
Succeeds jobs r = Unit

end_round-Succeeds :
    (jobs : List AgentJob) (s : SchedulerState) → AllWell s → Succeeds jobs (end_round jobs s)
end_round-Succeeds jobs s w = elim (Bool-cases (s.is_cancelled && no_futures s.futures)) [
  | inr e ↦ rw e w
  | inl e ↦ absurd (true-ne-false (sym (and-left s.is_cancelled _ e) ∙ w.going))
]

after_pass-Succeeds :
    (fail_fast : Bool) (jobs : List AgentJob) (input : RoundInput) (s : SchedulerState) (q : Bool)
    → IsSuccess input
    → AllWell s
    → Succeeds jobs (after_pass fail_fast jobs input (passed s q))
after_pass-Succeeds fail_fast jobs input s q i w =
    let collected = end_round-Succeeds jobs _ (collect-AllWell fail_fast input s i w) in
    elim (Bool-cases (no_futures s.futures)) [
      | inr e ↦ rw e collected
      | inl e ↦ elim (Bool-cases (all_terminal jobs s)) [
        | inl f ↦ rw (e, f) (all_completed jobs s w f)
        | inr f ↦ elim (Bool-cases q) [ inl g ↦ rw (e, f, g) collected | inr g ↦ rw (e, f, g) tt ]
      ]
    ]

and_then-Succeeds :
    (jobs : List AgentJob) (next : SchedulerState → Round) (r : Round)
    → Succeeds jobs r
    → ((t : SchedulerState) → AllWell t → Succeeds jobs (next t))
    → Succeeds jobs (and_then next r)
and_then-Succeeds jobs next (continues t) h f = f t h
and_then-Succeeds jobs next (ended t) h f = h
and_then-Succeeds jobs next deadlock h f = tt
and_then-Succeeds jobs next round_key_error h f = tt

module _ (fail_fast : Bool) (jobs : List AgentJob) (c : IsChecked jobs) (order : List String)
    (ordered : IsOrdered (job_graph jobs) order) (covers : Within (job_ids jobs) order) where
  rounds-Succeeds :
      (inputs : List RoundInput) (s : SchedulerState)
      → All IsSuccess inputs
      → AllWell s
      → Succeeds jobs (rounds fail_fast jobs inputs s)
  unfolding rounds round
  rounds-Succeeds [] s i w = w
  rounds-Succeeds (input ∷ inputs) s (i, is) w =
      let p =
        pass_jobs-IsPassed (job_ids jobs) jobs (closed jobs c order ordered covers) jobs s s false
          unmoved (λ j m. m) in
      and_then-Succeeds jobs _ (round fail_fast jobs input s)
        (rw p.result
          (after_pass-Succeeds fail_fast jobs input p.out p.progressed i (Moves-AllWell p.moves w)))
        (λ t u. rounds-Succeeds inputs t is u)

finished_status :
    (jobs : List AgentJob) (r : Round) (status : JobStatus) (s : SchedulerState)
    → end_of_rounds jobs r ≡ run_finished status s
    → Succeeds jobs r
    → status ≡ completed
finished_status jobs (continues t) status s e h = cc
finished_status jobs (ended t) status s e h = sym (status-eq e) ∙ h
  where
    status-eq :
        {a b : JobStatus} {x y : SchedulerState} → run_finished a x ≡ run_finished b y → a ≡ b
    status-eq h = cc
finished_status jobs deadlock status s e h = cc
finished_status jobs round_key_error status s e h = cc

-- The run of a plan that _validate_jobs accepts, with a name that is valid and new and in a clean
-- repository, ends with the status completed where nobody cancels it and every job that ends has
-- completed, after two rounds for each job, not counting those in which no job moved and the wait
-- for a running job timed out.
pub run_completes :
    (policy : ParallelRunPolicy) (checks : RunChecks) (jobs : List AgentJob)
    (inputs : List RoundInput)
    → Passes checks
    → validate_jobs jobs ≡ valid_plan
    → All IsSuccess inputs
    → idle_rounds policy.fail_fast jobs inputs start + (length jobs + length jobs) < length inputs
    → (s : SchedulerState) × (run policy checks jobs inputs ≡ run_finished completed s)
unfolding run
run_completes policy checks jobs inputs k valid successes many =
    let (c, (order, ordered, covers)) = valid-IsOrdered jobs valid in
    let (s, e, t) = run_returns policy checks jobs inputs k valid many in
    let well =
      rounds-Succeeds policy.fail_fast jobs c order ordered covers inputs start successes
        (record { none_failed = λ key. refl; going = refl }) in
    let finished : end_of_rounds jobs (rounds policy.fail_fast jobs inputs start)
        ≡ run_finished (run_status jobs s) s =
      rw (k.named, valid, k.clean, k.new) at e in
    (s, e ∙ ap (λ x. run_finished x s) (finished_status jobs _ (run_status jobs s) s finished well))
