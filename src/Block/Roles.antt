-- ===== src/Block/Roles.antt =====
-- src/scheduler.rs: what a worker's turn leaves alone.
use grevm.Prelude.{
  ℕ, ◌≡◌, Bool, true, ◌||◌, Option, some, refl, arith, ◌∙◌, Bool-cases, >>=-eq-some, some-injective,
  inl, inr, subst,
}
use grevm.Model.{Task, execution, validation}
use grevm.Context
use grevm.Context.Keeps.{should_schedule-KeepsLower}
use grevm.Scheduler.{Machine, Scheduler, Evm}
use grevm.Scheduler.Validate.{claim_validation, claim_execution}
use grevm.Scheduler.Coordinate.{FinalityLoop}
use grevm.Scheduler.Lifecycle.{Frame, ctx-Frame}
use grevm.Scheduler.Frames.{execute_task-Frame}
use grevm.Scheduler.ClaimFrames.{validate-Frame, claim_validation-Frame, claim_execution-Frame}
use grevm.Scheduler.Stability.{
  Inv, Turn, Turn-Inv, executes, validates, claims_validation, claims_execution, schedules,
}
use grevm.Block.{WorkerPhase, asking, claiming, working, worker_step, run_task, ask}

module _ (m : Machine) where
  -- No boundary moves, no abort is taken back, and the finalized prefix stays one.
  pub record Follows (s t : Scheduler m) : Type 0 where
    pub size : t.block_size ≡ s.block_size
    pub committed : t.ctx.committed ≡ s.ctx.committed
    pub finality : t.ctx.finality ≡ s.ctx.finality
    pub aborts : s.aborted ≡ true → t.aborted ≡ true
    pub stable : (l : FinalityLoop) → Inv m s l → Inv m t l

  pub Follows-refl : (s : Scheduler m) → Follows s s
  Follows-refl s = record {
    size = refl;
    committed = refl;
    finality = refl;
    aborts = λ h. h;
    stable = λ l v. v;
  }

  Follows-trans : (s t u : Scheduler m) → Follows s t → Follows t u → Follows s u
  Follows-trans s t u f g = record {
    size = g.size ∙ f.size;
    committed = g.committed ∙ f.committed;
    finality = g.finality ∙ f.finality;
    aborts = λ h. g.aborts (f.aborts h);
    stable = λ l v. g.stable l (f.stable l v);
  }

  Turn-Follows :
      (txid : ℕ) (s t : Scheduler m)
      → Frame m txid s t
      → ((l : FinalityLoop) → Turn m s l t l)
      → Follows s t
  Turn-Follows txid s t f turn = record {
    size = f.size;
    committed = f.committed;
    finality = f.finality;
    aborts = f.aborts;
    stable = λ l v. Turn-Inv m s t l l (turn l) v;
  }

  run_task-Follows :
      (evm : Evm m) (s t : Scheduler m) (task : Task) (next : Option Task)
      → run_task m evm s task ≡ some (t, next)
      → Follows s t
  run_task-Follows evm s t (execution version) next e =
      Turn-Follows version.txid s t (execute_task-Frame m evm s t version next e)
        (λ l. executes evm version next e)
  run_task-Follows evm s t (validation version) next e =
      Turn-Follows version.txid s t (validate-Frame m s t version next e)
        (λ l. validates version next e)

  schedule-Follows :
      (s : Scheduler m) (idx : ℕ) (ctx : Context.SchedulerContext) (scheduled : Bool)
      → Context.should_schedule s.ctx idx ≡ some (ctx, scheduled)
      → Follows s (record s { ctx = ctx })
  schedule-Follows s idx ctx scheduled e =
      Turn-Follows 0 s (record s { ctx = ctx })
        (ctx-Frame m 0 s ctx (should_schedule-KeepsLower 0 idx s.ctx ctx scheduled e))
        (λ l. schedules idx ctx scheduled e refl)

  ask-Follows : (s t : Scheduler m) (q : WorkerPhase) → ask m s ≡ some (t, q) → Follows s t
  ask-Follows s t q e =
      let ((ctx, scheduled), p₁, q₁) =
        >>=-eq-some (Context.should_schedule s.ctx s.tx_dependency.index) _ e in
      let s₀ : Scheduler m = record s { ctx = ctx } in
      let ((s₁, claim), p₂, q₂) = >>=-eq-some (claim_validation m s₀) _ q₁ in
      subst (λ (r : Scheduler m × WorkerPhase). Follows s r.0) (some-injective q₂)
        (Follows-trans s s₀ s₁ (schedule-Follows s s.tx_dependency.index ctx scheduled p₁) (
          Turn-Follows 0 s₀ s₁ (claim_validation-Frame m 0 s₀ s₁ claim p₂)
            (λ l. claims_validation claim p₂)))

  -- A worker's turn publishes no boundary, takes no abort back, and keeps the finalized prefix.
  pub worker_step-Follows :
      (evm : Evm m) (p q : WorkerPhase) (s t : Scheduler m)
      → worker_step m evm p s ≡ some (t, q)
      → Follows s t
  unfolding worker_step
  worker_step-Follows evm WorkerPhase.rested q s t e =
      subst (λ (r : Scheduler m × WorkerPhase). Follows s r.0) (some-injective e) (Follows-refl s)
  worker_step-Follows evm (working task) q s t e =
      let ((s₁, next), p₁, q₁) = >>=-eq-some (run_task m evm s task) _ e in
      subst (λ (r : Scheduler m × WorkerPhase). Follows s r.0) (some-injective q₁)
        (run_task-Follows evm s s₁ task next p₁)
  worker_step-Follows evm claiming q s t e =
      let ((s₁, next), p₁, q₁) = >>=-eq-some (claim_execution m s) _ e in
      subst (λ (r : Scheduler m × WorkerPhase). Follows s r.0) (some-injective q₁)
        (Turn-Follows 0 s s₁ (claim_execution-Frame m 0 s s₁ next p₁)
          (λ l. claims_execution next p₁))
  worker_step-Follows evm asking q s t e = elim (Bool-cases (Context.finished s.ctx || s.aborted)) [
    | inl done ↦
        let same : (s, WorkerPhase.rested) ≡ (t, q) = ground (arith, done) in
        subst (λ (r : Scheduler m × WorkerPhase). Follows s r.0) same (Follows-refl s)
    | inr open_block ↦ ask-Follows s t q (ground (arith, open_block))
  ]
