-- ===== src/Scheduler/Fresh/Finish.antt =====
-- src/scheduler.rs: the end of an execution task.
use grevm.Prelude.{
  ℕ, suc, ◌+◌, ◌≡◌, ◌≢◌, ◌≤◌, ◌<◌, Bool, true, false, ◌||◌, Option, none, some, arith, ◌⊎◌, inl,
  inr, refl, subst, Bool-cases, ◌>>=◌, >>=-eq-some, some-injective, usize_mod, if◌then◌else◌,
}
use grevm.Model.{executing, executed, validating, conflict, TxVersion, Task}
use grevm.Context
use grevm.Context.{SchedulerContext}
use grevm.Scheduler.{Machine, Scheduler, set_status, rewind_validation, execution_task}
use grevm.Scheduler.Execute.{finish_execution}
use grevm.Scheduler.Lifecycle.{status}
use grevm.Scheduler.Fresh.{is_open, has_passed, incarnation_of, Protected, Clocked}
use grevm.Scheduler.Fresh.Calm.{Ticks, Ticks-refl, Ticks-trans, same, claimed, Calm, Calm-same}
use grevm.Scheduler.Fresh.Clock.{rewind-Ticks, executed-Ticks, rewound}

module _ (m : Machine) where
  execution_task_effect :
      (s : Scheduler m) (j : ℕ) (t : Scheduler m) (task : Option Task)
      → execution_task m s j ≡ some (t, task)
      → (t.memory ≡ s.memory)
        × (t.tx_results ≡ s.tx_results)
        × (t.history ≡ s.history)
        × (t.ctx ≡ s.ctx)
        × ((i : ℕ)
            → (t.tx_states.at i ≡ s.tx_states.at i)
              ⊎ ((is_open (status m s i) ≡ true)
                  × (status m s i ≢ executing)
                  × (status m t i ≡ executing)))
  unfolding execution_task
  execution_task_effect s j t task e = (
    ground (arith, e),
    ground (arith, e),
    ground (arith, e),
    ground (arith, e),
    λ i. ground (arith, e),
  )

  -- A claim is calm.
  pub execution_task-Calm :
      (s : Scheduler m) (j : ℕ) (t : Scheduler m) (task : Option Task)
      → execution_task m s j ≡ some (t, task)
      → Calm m s t
  execution_task-Calm s j t task e =
      let (a, b, c, d, f) = execution_task_effect s j t task e in
      record {
        memory = a;
        results = b;
        history = c;
        states = λ i. elim (f i) [ inl x ↦ same x | inr x ↦ claimed x.0 x.1 x.2 ];
        ticks = Ticks-refl s.ctx t.ctx d;
      }

  -- Transaction `k` has finished an execution, and if it is conflicted or has written something new, no
  -- later one is protected any more.
  pub record Finished (s u : Scheduler m) (k : ℕ) (conflicted write_new : Bool) : Type 0 where
    pub memory : u.memory ≡ s.memory
    pub results : u.tx_results ≡ s.tx_results
    pub history : u.history ≡ s.history
    pub states : (i : ℕ) → i ≢ k → u.tx_states.at i ≡ s.tx_states.at i
    pub incarnation : incarnation_of m u k ≡ incarnation_of m s k
    pub opened : is_open (status m u k) ≡ conflicted
    pub stopped : status m u k ≢ executing
    pub not_passed : has_passed (status m u k) ≡ false
    pub ticks : Ticks s.ctx u.ctx
    pub rewound : conflicted || write_new ≡ true → (i : ℕ) → k < i → Protected m u i → ⊥

  pub rewind_effect :
      (s t : Scheduler m) (index : ℕ)
      → rewind_validation m s index ≡ some t
      → (c : SchedulerContext) × (Context.rewind_validation_to s.ctx index ≡ some c)
        × (record s { ctx = c } ≡ t)
  rewind_effect s t index e =
      let (c, p, q) =
        >>=-eq-some (Context.rewind_validation_to s.ctx index)
          (λ ctx. some (record s { ctx = ctx })) e in
      (c, p, some-injective q)

  module _ (s : Scheduler m) (version : TxVersion) (conflicted write_new : Bool) (v : Clocked m s)
      (small : s.ctx.logical_clock + 1 < usize_mod) where
    abbrev k : ℕ
    k = version.txid

    abbrev s₁ : Scheduler m
    s₁ = set_status m s k (if conflicted then conflict else executed)

    -- After a rewind to an index that covers every later transaction.
    rewound-Finished :
        (c : SchedulerContext) (t : Scheduler m) (index : ℕ)
        → Context.executed s.ctx k ≡ some c
        → index ≤ suc k
        → rewind_validation m (record s₁ { ctx = c }) index ≡ some t
        → Finished s t k conflicted write_new
    rewound-Finished c t index p le e =
        let (d, q, r) = rewind_effect (record s₁ { ctx = c }) t index e in
        let (x, clock) = executed-Ticks k s.ctx c p in
        let small_c : c.logical_clock + 1 < usize_mod = ground (arith, clock, small) in
        let (y, _, _) = rewind-Ticks index c d small_c q in
        subst (λ (u : Scheduler m). Finished s u k conflicted write_new) r
          (record {
            memory = refl;
            results = refl;
            history = refl;
            states = λ i h. ground (arith, h);
            incarnation = ground arith;
            opened = ground arith;
            stopped = λ h. ground (arith, h);
            not_passed = ground arith;
            ticks = Ticks-trans s.ctx c d x y;
            rewound = λ _ i lt protected.
                rewound m s (record s₁ { ctx = d }) c d index i v x small_c q (Ticks-refl d d refl)
                  (omega (arith, le, lt)) protected;
          })

    validating-Finished :
        (c : SchedulerContext)
        → Context.executed s.ctx k ≡ some c
        → conflicted ≡ false
        → write_new ≡ false
        → Finished s (set_status m (record s₁ { ctx = c }) k validating) k conflicted write_new
    validating-Finished c p solid old =
        let (x, clock) = executed-Ticks k s.ctx c p in
        record {
          memory = refl;
          results = refl;
          history = refl;
          states = λ i h. ground (arith, h);
          incarnation = ground arith;
          opened = ground (arith, solid);
          stopped = λ h. ground (arith, h);
          not_passed = ground arith;
          ticks = x;
          rewound = λ h. absurd (ground (arith, h, solid, old));
        }

    abbrev only_rewind : Scheduler m → ℕ → Option (Scheduler m × Option Task)
    only_rewind u index = do u₁ ← rewind_validation m u index; some (u₁, none)

    rewound_by :
        (c : SchedulerContext)
        → Context.executed s.ctx k ≡ some c
        → (index : ℕ) → index ≤ suc k
        → (task : Option Task) (t : Scheduler m)
        → only_rewind (record s₁ { ctx = c }) index ≡ some (t, task)
        → Finished s t k conflicted write_new
    rewound_by c p index le task t e =
        let (u, q, r) = >>=-eq-some (rewind_validation m (record s₁ { ctx = c }) index) _ e in
        subst (λ (r : Scheduler m × Option Task). Finished s r.0 k conflicted write_new)
          (some-injective r) (rewound-Finished c u index p le q)

    pub finish_execution-Finished :
        (handed : Option ℕ) (t : Scheduler m) (task : Option Task)
        → finish_execution m s version conflicted write_new handed ≡ some (t, task)
        → (u : Scheduler m) × Finished s u k conflicted write_new × Calm m u t
    unfolding finish_execution
    finish_execution-Finished (some succ) t task e =
        let (c, p, q) = >>=-eq-some (Context.executed s.ctx k) _ e in
        let (u, p₂, q₂) = >>=-eq-some (rewind_validation m (record s₁ { ctx = c }) k) _ q in
        (u, rewound-Finished c u k p (omega arith) p₂, execution_task-Calm u succ t task q₂)
    finish_execution-Finished none t task e =
        let (c, p, q) = >>=-eq-some (Context.executed s.ctx k) _ e in
        let calm = Calm-same m t t refl refl refl refl (Ticks-refl t.ctx t.ctx refl) in
        elim (Bool-cases conflicted) [
          | inl blocked ↦
              (t, rewound_by c p (k + 1) (omega arith) task t (ground (arith, q, blocked)), calm)
          | inr solid ↦ elim (Bool-cases write_new) [
            | inl expanded ↦ (
              t,
              rewound_by c p k (omega arith) task t (ground (arith, q, solid, expanded)),
              calm,
            )
            | inr old ↦
                let done : set_status m (record s₁ { ctx = c }) k validating ≡ t =
                  ground (arith, q, solid, old) in
                (
                  t,
                  subst (λ (u : Scheduler m). Finished s u k conflicted write_new) done
                      (validating-Finished c p solid old),
                  calm,
                )
          ]
        ]
