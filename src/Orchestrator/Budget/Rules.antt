-- ===== src/Orchestrator/Budget/Rules.antt =====
-- The calls of a run in the journal of src/w1cip/orchestrator.py, under the steps that the core is
-- made of.
use w1_nexus.Prelude.{
  ℕ, suc, ◌≤◌, ◌≡◌, refl, String, Bool, true, false, ◌||◌, Option, none, some, List, [], ◌∷◌, map,
  arith, ◌==◌, length, length-append, select, select-append, any, Bool-cases, inl, inr,
  if◌then◌else◌,
}
use w1_nexus.Resources.Plan.{Plan}
use w1_nexus.Orchestrator.Types.{ProviderRequest, ProviderResponse, OrchestratorError, RuntimeEvent}
use w1_nexus.Orchestrator.Journal.{
  Journal, CallRow, TaskUpdate, update_task, save_resource_plan, start_call, complete_call,
  completed_row, failed_row, fail_call, record_quota_observation, count_started_calls,
}
use w1_nexus.Orchestrator.Effects.{
  Environment, State, Exit, done, raised, out_of_fuel, M, pure, raise, exhausted, continue, ◌>>=◌,
  read, write, outside, append_names, emit_event, Answer, answer, raised_outside, answered,
}
use w1_nexus.Orchestrator.Steps.{Steps}

module _ (run_id : String) where
  -- From a journal with at most a calls of the run, a computation leaves at most b, however it ends.
  pub record Within {W A : Type 0} (a b : ℕ) (m : M W A) : Type 0 where
    pub at :
        (s : State W)
        → count_started_calls run_id s.journal ≤ a
        → count_started_calls run_id (m s).1.journal ≤ b

  counted : CallRow → Bool
  counted c = c.run_id == run_id

  count-map :
      (f : CallRow → CallRow) (p : CallRow → Bool)
      → ((c : CallRow) → (f c).run_id ≡ c.run_id)
      → (cs : List CallRow)
      → length (select (λ c. c.run_id == run_id) (map (λ c. if p c then f c else c) cs))
        ≡ length (select (λ c. c.run_id == run_id) cs)
  count-map f p h [] = refl
  count-map f p h (c ∷ cs) = elim (Bool-cases (p c)) [
    | inl e ↦ rw (e, h c) (ground (arith, count-map f p h cs))
    | inr e ↦ rw e (ground (arith, count-map f p h cs))
  ]

  pub count-complete_call :
      (key : String) (response : ProviderResponse) (j : Journal)
      → count_started_calls run_id (complete_call key response j) ≡ count_started_calls run_id j
  unfolding count_started_calls complete_call
  count-complete_call key response j =
      count-map (completed_row response) (λ c. c.idempotency_key == key) (λ c. refl) j.calls

  pub count-fail_call :
      (key code : String) (uncertain : Bool) (j : Journal)
      → count_started_calls run_id (fail_call key code uncertain j) ≡ count_started_calls run_id j
  unfolding count_started_calls fail_call
  count-fail_call key code uncertain j =
      count-map (failed_row code uncertain) (λ c. c.idempotency_key == key) (λ c. refl) j.calls

  pub count-record_quota_observation :
      (r t k : String) (o : Option String × Option String × String) (j : Journal)
      → count_started_calls run_id (record_quota_observation r t k o j)
        ≡ count_started_calls run_id j
  unfolding count_started_calls record_quota_observation
  count-record_quota_observation r t k (some x, some y, z) j = refl
  count-record_quota_observation r t k (none, y, z) j = refl
  count-record_quota_observation r t k (some x, none, z) j = refl

  count-single : (c : CallRow) → length (select (λ x. x.run_id == run_id) (c ∷ [])) ≤ 1
  count-single c = ground arith

  pub count-start_call :
      (call_id : String) (request : ProviderRequest) (j : Journal)
      → count_started_calls run_id (start_call call_id request j)
        ≤ suc (count_started_calls run_id j)
  unfolding count_started_calls start_call
  count-start_call call_id request j =
      elim (Bool-cases
        (any (λ c. c.call_id == call_id || c.idempotency_key == request.idempotency_key) j.calls)) [
          | inl e ↦ rw e (omega arith)
          | inr e ↦ rw e (rw select-append (rw length-append (omega (arith, count-single _))))
        ]

  module _ {W : Type 0} where
    pub pure-Within : {A : Type 0} (x : A) {n : ℕ} → Within n n (pure {W = W} x)
    unfolding pure
    pure-Within x = record { at = λ s h. h }

    pub raise-Within :
        {A : Type 0} (e : OrchestratorError) {n : ℕ} → Within {W = W} {A = A} n n (raise e)
    unfolding raise
    raise-Within e = record { at = λ s h. h }

    pub exhausted-Within : {A : Type 0} {n : ℕ} → Within {W = W} {A = A} n n exhausted
    unfolding exhausted
    exhausted-Within = record { at = λ s h. h }

    pub read-Within : {A : Type 0} (f : Journal → A) {n : ℕ} → Within {W = W} n n (read f)
    unfolding read
    read-Within f = record { at = λ s h. h }

    pub outside-Within : {A : Type 0} (f : W → A × W) {n : ℕ} → Within n n (outside f)
    unfolding outside
    outside-Within f = record { at = λ s h. h }

    pub append_names-Within :
        (names : List String) {n : ℕ} → Within {W = W} n n (append_names names)
    unfolding append_names
    append_names-Within names = record { at = λ s h. h }

    pub write-Within :
        (f : Journal → Journal) {n : ℕ}
        → ((j : Journal) → count_started_calls run_id (f j) ≡ count_started_calls run_id j)
        → Within {W = W} n n (write f)
    unfolding write
    write-Within f e = record { at = λ s h. omega (arith, e s.journal, h) }

    pub start-Within :
        (f : Journal → Journal) {a b : ℕ}
        → ((j : Journal) → count_started_calls run_id (f j) ≤ suc (count_started_calls run_id j))
        → suc a ≤ b
        → Within {W = W} a b (write f)
    unfolding write
    start-Within f e le = record { at = λ s h. omega (arith, e s.journal, h, le) }

    continue-Within :
        {A B : Type 0} (f : A → M W B) {b c : ℕ}
        → ((x : A) → Within b c (f x))
        → b ≤ c
        → (r : Exit A) (s : State W) → count_started_calls run_id s.journal ≤ b
        → count_started_calls run_id (continue r f s).1.journal ≤ c
    continue-Within f h le (done x) s k = (h x).at s k
    continue-Within f h le (raised e) s k = omega (arith, k, le)
    continue-Within f h le out_of_fuel s k = omega (arith, k, le)

    pub bind-Within :
        {A B : Type 0} {m : M W A} {f : A → M W B} {a b c : ℕ}
        → b ≤ c
        → Within a b m
        → ((x : A) → Within b c (f x))
        → Within a c (m >>= f)
    unfolding ◌>>=◌
    bind-Within le hm hf = record { at = λ s h. continue-Within _ hf le (_) (_) (hm.at s h) }

    pub weaken-Within : {A : Type 0} {m : M W A} {a b c : ℕ} → a ≤ b → Within b c m → Within a c m
    weaken-Within le h = record { at = λ s k. h.at s (omega (arith, k, le)) }

    pub if-Within :
        {A : Type 0} {m k : M W A} {a b : ℕ} (test : Bool)
        → Within a b m
        → Within a b k
        → Within a b (if test then m else k)
    if-Within true h k = h
    if-Within false h k = k

    -- Two steps that both keep the bound.
    pub then-Within :
        {A B : Type 0} {m : M W A} {f : A → M W B} {n : ℕ}
        → Within n n m
        → ((x : A) → Within n n (f x))
        → Within n n (m >>= f)
    then-Within hm hf = bind-Within (omega arith) hm hf

    pub update_task-Within :
        (r t : String) (u : TaskUpdate) {n : ℕ} → Within {W = W} n n (write (update_task r t u))
    unfolding count_started_calls update_task
    update_task-Within r t u = write-Within _ λ j. refl

    pub save_resource_plan-Within :
        (r : String) (plan : Plan) {n : ℕ} → Within {W = W} n n (write (save_resource_plan r plan))
    unfolding count_started_calls save_resource_plan
    save_resource_plan-Within r plan = write-Within _ λ j. refl

  module _ (env : Environment) where
    open env use {World}

    answered-Within :
        (r : Answer (List String)) {n : ℕ} → Within {W = World} n n (answered append_names r)
    answered-Within (answer names) = append_names-Within names
    answered-Within (raised_outside code) = raise-Within _

    pub emit_event-Within : (event : RuntimeEvent) {n : ℕ} → Within n n (emit_event env event)
    unfolding emit_event
    emit_event-Within event = then-Within (outside-Within _) (λ r. answered-Within r)

  pub Within-Steps : {W : Type 0} (n : ℕ) → Steps W (λ A m. Within n n m)
  Within-Steps n = record {
    pure_step = λ x. pure-Within x;
    raise_step = λ e. raise-Within e;
    read_step = λ f. read-Within f;
    outside_step = λ f. outside-Within f;
    names_step = λ names. append_names-Within names;
    task_step = λ r t u. update_task-Within r t u;
    plan_step = λ r plan. save_resource_plan-Within r plan;
    fail_step = λ key code b. write-Within _ (count-fail_call key code b);
    complete_step = λ key response. write-Within _ (count-complete_call key response);
    observation_step = λ r t k o. write-Within _ (count-record_quota_observation r t k o);
    bind_step = λ h k. then-Within h k;
  }
