-- ===== src/Orchestrator/Budget/Whole.antt =====
-- The budget of provider calls over a task and over a run of src/w1cip/orchestrator.py.
use w1_nexus.Prelude.{
  ℕ, suc, zero, max, ◌≤◌, ◌≡◌, refl, String, Bool, false, Option, none, some, List, [], arith,
  Bool-cases, Option-cases, inl, inr, some-inj,
}
use w1_nexus.Resources.Plan.{Plan}
use w1_nexus.Orchestrator.Types.{CompiledWorkflow, Disclosure, RunInputs, TaskOutput}
use w1_nexus.Orchestrator.Journal.{
  Journal, RunRow, TaskRow, count_started_calls, set_run_status, initialize_run, load_run, resumed,
}
use w1_nexus.Orchestrator.Effects.{Environment, State, M, ◌>>=◌, read}
use w1_nexus.Orchestrator.Accept.{TaskStep}
use w1_nexus.Orchestrator.Recover.{Work, Progress}
use w1_nexus.Orchestrator.Execute.{
  Outputs, over_budget, task_pass, task_loop, execute_task, prior_outputs,
}
use w1_nexus.Orchestrator.Graph.{
  Review, review_covered, review_missing, review_key_error, review_fuel, Verdict, valid_workflow,
  invalid_workflow, missing_task, verdict_fuel,
}
use w1_nexus.Orchestrator.Run.{
  OrchestratorRunResult, Next, all_completed, no_runnable, missing_row, runnable, result_of_run,
  names_so_far, result_from_journal, complete_run, after_task, run_next, run_loop, run_persisted,
  initialize, run_valid, run,
}
use w1_nexus.Orchestrator.Budget.Rules.{
  Within, Within-Steps, pure-Within, raise-Within, exhausted-Within, read-Within, write-Within,
  then-Within, if-Within, emit_event-Within,
}
use w1_nexus.Orchestrator.Steps.Steady.{stop_work_step, recover_task_step}
use w1_nexus.Orchestrator.Budget.Calls.{with_routing-Within}

module _ (env : Environment) (n : ℕ) where
  open env use {World}

  module _ (w : Work) (budget : ℕ) (capped : w.inputs.max_model_calls ≡ some budget)
      (fits : budget ≤ n) where
    started_below : (m : ℕ) → over_budget w.inputs.max_model_calls m ≡ false → suc m ≤ n
    started_below m e = ground (arith, capped, fits)

    task_pass-Within :
        (outputs : Outputs) (again : Progress → M World TaskStep)
        → ((p : Progress) → Within w.inputs.run_id n n (again p))
        → (p : Progress) → Within w.inputs.run_id n n (task_pass env w outputs again p)
    unfolding task_pass ◌>>=◌ read
    task_pass-Within outputs again h p = record {
      at = λ s k.
          let m = count_started_calls w.inputs.run_id s.journal in
          elim (Bool-cases (over_budget w.inputs.max_model_calls m)) [
            | inl e ↦ rw e ((stop_work_step env (Within-Steps w.inputs.run_id n) w p _ _ _).at s k)
            | inr e ↦ rw e (
                (with_routing-Within w.inputs.run_id env n w outputs again h m (started_below m e) p
                    _).at
                  s (omega arith))
          ];
    }

    task_loop-Within :
        (fuel : ℕ) (outputs : Outputs) (p : Progress)
        → Within w.inputs.run_id n n (task_loop env fuel w outputs p)
    unfolding task_loop
    task_loop-Within zero outputs p = exhausted-Within w.inputs.run_id
    task_loop-Within (suc fuel) outputs p =
        task_pass-Within outputs _ (task_loop-Within fuel outputs) p

    pub execute_task-Within :
        (fuel : ℕ) (plan : Plan) (rows : List TaskRow) (row : TaskRow)
        → Within w.inputs.run_id n n (execute_task env fuel w plan rows row)
    unfolding execute_task
    execute_task-Within fuel plan rows row =
        recover_task_step env (Within-Steps w.inputs.run_id n) w _
          (task_loop-Within fuel (prior_outputs env rows)) row.status _

  module _ (inputs : RunInputs) (workflow : CompiledWorkflow) (budget : ℕ)
      (capped : inputs.max_model_calls ≡ some budget) (fits : budget ≤ n) where
    result_of_run-Within :
        (plan : Plan) (names : List String) (ds : List Disclosure) (rows : List TaskRow)
        (o : Option RunRow)
        → Within inputs.run_id n n (result_of_run env plan names ds rows o)
    result_of_run-Within plan names ds rows none = raise-Within inputs.run_id _
    result_of_run-Within plan names ds rows (some row) = pure-Within inputs.run_id _

    names-Within : Within inputs.run_id n n (names_so_far env)
    names-Within = record { at = λ s h. h }

    result-Within :
        (plan : Plan) (ds : List Disclosure)
        → Within inputs.run_id n n (result_from_journal env inputs plan ds)
    unfolding result_from_journal
    result-Within plan ds = then-Within inputs.run_id (read-Within inputs.run_id _) (λ row.
        then-Within inputs.run_id (read-Within inputs.run_id _) (λ rows.
          then-Within inputs.run_id names-Within
            (λ names. result_of_run-Within plan names ds rows row)))

    complete_run-Within :
        (plan : Plan) (ds : List Disclosure) (o : Option TaskOutput) (r : Review)
        → Within inputs.run_id n n (complete_run env inputs plan ds o r)
    unfolding count_started_calls set_run_status
    complete_run-Within plan ds o review_missing = raise-Within inputs.run_id _
    complete_run-Within plan ds o review_key_error = raise-Within inputs.run_id _
    complete_run-Within plan ds o review_fuel = exhausted-Within inputs.run_id
    complete_run-Within plan ds o review_covered =
        then-Within inputs.run_id (write-Within inputs.run_id _ (λ j. refl)) (λ _.
          then-Within inputs.run_id (emit_event-Within inputs.run_id env _)
            (λ _. result-Within plan ds))

    module _ (loop : Plan → List Disclosure → M World OrchestratorRunResult)
        (h : (plan : Plan) (ds : List Disclosure) → Within inputs.run_id n n (loop plan ds)) where
      after_task-Within :
          (ds : List Disclosure) (step : TaskStep)
          → Within inputs.run_id n n (after_task env inputs ds loop step)
      unfolding count_started_calls set_run_status
      after_task-Within ds (result, plan, new) = if-Within inputs.run_id _ (h plan _) (
          then-Within inputs.run_id (write-Within inputs.run_id _ (λ j. refl)) (λ _.
            then-Within inputs.run_id (emit_event-Within inputs.run_id env _)
              (λ _. result-Within plan _)))

      run_next-Within :
          (fuel : ℕ) (rows : List TaskRow) (plan : Plan) (ds : List Disclosure) (x : Next)
          → Within inputs.run_id n n (run_next env fuel inputs workflow rows plan ds loop x)
      unfolding count_started_calls set_run_status
      run_next-Within fuel rows plan ds missing_row = raise-Within inputs.run_id _
      run_next-Within fuel rows plan ds no_runnable =
          then-Within inputs.run_id (write-Within inputs.run_id _ (λ j. refl))
            (λ _. result-Within plan ds)
      run_next-Within fuel rows plan ds all_completed = complete_run-Within plan ds _ _
      run_next-Within fuel rows plan ds (runnable task row) =
          then-Within inputs.run_id
            (execute_task-Within record { inputs = inputs; workflow = workflow; task = task } budget
              capped fits fuel plan rows row)
            (after_task-Within ds)

    run_loop-Within :
        (fuel passes : ℕ) (plan : Plan) (ds : List Disclosure)
        → Within inputs.run_id n n (run_loop env fuel passes inputs workflow plan ds)
    unfolding run_loop
    run_loop-Within fuel zero plan ds = exhausted-Within inputs.run_id
    run_loop-Within fuel (suc passes) plan ds =
        then-Within inputs.run_id (read-Within inputs.run_id _)
          (λ rows. run_next-Within _ (run_loop-Within fuel passes) fuel rows plan ds _)

    run_persisted-Within :
        (fuel : ℕ) (o : Option RunRow)
        → Within inputs.run_id n n (run_persisted env fuel inputs workflow o)
    run_persisted-Within fuel none = raise-Within inputs.run_id _
    run_persisted-Within fuel (some row) =
        if-Within inputs.run_id _ (result-Within row.resource_plan []) (
          then-Within inputs.run_id (emit_event-Within inputs.run_id env _)
            (λ _. run_loop-Within fuel _ row.resource_plan []))

    resumed-count :
        (text : String) (row : RunRow) (j j' : Journal)
        → resumed inputs text row j ≡ some j'
        → count_started_calls inputs.run_id j' ≡ count_started_calls inputs.run_id j
    unfolding count_started_calls
    resumed-count text row j j' h = ground arith

    initialize_run-count :
        (text : String) (j j' : Journal)
        → initialize_run inputs text workflow j ≡ some j'
        → count_started_calls inputs.run_id j' ≡ count_started_calls inputs.run_id j
    unfolding initialize_run count_started_calls
    initialize_run-count text j j' h = elim (Option-cases (load_run inputs.run_id j)) [
      | inl e ↦ ground (arith, some-inj (rw (e, initialize_run) at h))
      | inr (row, e) ↦ resumed-count text row j j' (rw (e, initialize_run) at h)
    ]

    initialize-Within :
        (text : String) → Within inputs.run_id n n (initialize env inputs text workflow)
    initialize-Within text = record {
      at = λ s h. elim (Option-cases (initialize_run inputs text workflow s.journal)) [
        | inl e ↦ rw (e, initialize) h
        | inr (j, e) ↦
            rw (e, initialize) (omega (arith, initialize_run-count text s.journal j e, h))
      ];
    }

    run_valid-Within :
        (fuel : ℕ) (text : String) (v : Verdict)
        → Within inputs.run_id n n (run_valid env fuel inputs text workflow v)
    run_valid-Within fuel text (invalid_workflow code) = raise-Within inputs.run_id _
    run_valid-Within fuel text missing_task = raise-Within inputs.run_id _
    run_valid-Within fuel text verdict_fuel = exhausted-Within inputs.run_id
    run_valid-Within fuel text valid_workflow =
        then-Within inputs.run_id (initialize-Within text) (λ _.
          then-Within inputs.run_id (record { at = λ s h. h })
            (λ _.
              then-Within inputs.run_id (read-Within inputs.run_id _) (run_persisted-Within fuel)))

    pub run-Within :
        (acyclic : List (String × String) → Bool) (fuel : ℕ) (text : String)
        → Within inputs.run_id n n (run env acyclic fuel inputs text workflow)
    unfolding run
    run-Within acyclic fuel text =
        if-Within inputs.run_id _ (run_valid-Within fuel text _) (raise-Within inputs.run_id _)

-- With a budget of model calls, a run never has more calls on record than the budget, or than it
-- had before if these were more: over resumptions, retries, fallbacks and errors, for every
-- provider, and however the run ends.
pub run-call_budget :
    (env : Environment) (acyclic : List (String × String) → Bool) (fuel budget : ℕ)
    (inputs : RunInputs) (text : String) (workflow : CompiledWorkflow) (s : State env.World)
    → inputs.max_model_calls ≡ some budget
    → count_started_calls inputs.run_id (run env acyclic fuel inputs text workflow s).1.journal
      ≤ max budget (count_started_calls inputs.run_id s.journal)
run-call_budget env acyclic fuel budget inputs text workflow s capped =
    (run-Within env _ inputs workflow budget capped (omega arith) acyclic fuel text).at s
      (omega arith)
