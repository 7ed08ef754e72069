-- ===== src/Block/Rewards.antt =====
-- src/scheduler.rs and src/scheduler/ordered_commit.rs: the rewards that a block's results defer until they
-- are committed.
use grevm.Prelude.{
  ℕ, ◌≡◌, ◌≢◌, ◌<◌, inl, inr, Bool, Option, none, some, refl, arith, ◌∙◌, subst, length,
  >>=-eq-some, Bool-cases, ◌||◌,
}
use grevm.Model.{Task, execution, validation, ok}
use grevm.Context
use grevm.Scheduler.{
  Machine, Scheduler, Evm, SpeculativeResult, TransactionResult, build, execution_task,
}
use grevm.Scheduler.Validate.{claim_validation, claim_execution}
use grevm.Scheduler.Coordinate.{FinalityLoop, finalize, finality_candidate}
use grevm.Scheduler.Fresh.Calm.{Calm-same}
use grevm.Scheduler.Fresh.Clock.{should_schedule-Ticks}
use grevm.Scheduler.Fresh.Runs.{claim_validation_effect, claim_execution_effect, finalize_effect}
use grevm.Scheduler.Separate.{
  IsSeparate, Separated, Carries, Carries-Separated, Carries-refl, Carries-trans, Calm-Carries,
  validate-Carries,
}
use grevm.Scheduler.Separate.Execute.{execute_task-Carries}
use grevm.Commit.{Committed, TxEnv, Ledger, commit_result, apply_result, fold_reward}
use grevm.Replay.{Progress, commit_round}
use grevm.Replay.Quiet.{IsQuiet, commit_round-Quiet}
use grevm.Block.{
  WorkerPhase, asking, claiming, working, FinalityPhase, finalizing, CommitPhase, committing,
  returned, worker_step, finality_step, commit_step, run_task, ask, Threads, spawn, Step, works,
  finalizes, commits, Reach, begins, steps,
}
use grevm.Block.Complete.{Threads-Inv}

module _ (m : Machine) where
  claim_validation-Carries :
      (s t : Scheduler m) (task : Option Task)
      → claim_validation m s ≡ some (t, task)
      → Carries m s t
  unfolding claim_validation
  claim_validation-Carries s t task e =
      Calm-Carries m s t (ground (arith, e)) (claim_validation_effect m s t task e)

  claim_execution-Carries :
      (s t : Scheduler m) (task : Option Task)
      → claim_execution m s ≡ some (t, task)
      → Carries m s t
  unfolding claim_execution execution_task
  claim_execution-Carries s t task e =
      Calm-Carries m s t (ground (arith, e)) (claim_execution_effect m s t task e)

  finalize-Carries :
      (s t : Scheduler m) (l k : FinalityLoop) → finalize m s l ≡ some (t, k) → Carries m s t
  unfolding finalize finality_candidate
  finalize-Carries s t l k e = Calm-Carries m s t (ground (arith, e)) (finalize_effect m s t l k e)

  ask-Carries : (s t : Scheduler m) (q : WorkerPhase) → ask m s ≡ some (t, q) → Carries m s t
  ask-Carries s t q e =
      let ((ctx, scheduled), p₁, q₁) =
        >>=-eq-some (Context.should_schedule s.ctx s.tx_dependency.index) _ e in
      let s₁ : Scheduler m = record s { ctx = ctx } in
      let ((s₂, claim), p₂, q₂) = >>=-eq-some (claim_validation m s₁) _ q₁ in
      let same : s₂ ≡ t = ground (arith, q₂) in
      subst (Carries m s) same (
        Carries-trans m s s₁ s₂
          (Calm-Carries m s s₁ refl (
            Calm-same m s s₁ refl refl refl refl
              (should_schedule-Ticks s.tx_dependency.index s.ctx ctx scheduled p₁)))
          (claim_validation-Carries s₁ s₂ claim p₂))

  run_task-Carries :
      (evm : Evm m) (s t : Scheduler m) (task : Task) (next : Option Task)
      → run_task m evm s task ≡ some (t, next)
      → Carries m s t
  run_task-Carries evm s t (execution version) next e =
      execute_task-Carries m evm s t version next e
  run_task-Carries evm s t (validation version) next e = validate-Carries m s t version next e

  worker_step-Carries :
      (evm : Evm m) (p q : WorkerPhase) (s t : Scheduler m)
      → worker_step m evm p s ≡ some (t, q)
      → Carries m s t
  unfolding worker_step
  worker_step-Carries evm asking q s t e = elim (Bool-cases (Context.finished s.ctx || s.aborted)) [
    | inl over ↦ subst (Carries m s) (ground (arith, over, e)) (Carries-refl m s)
    | inr on ↦ ask-Carries s t q (ground (arith, on, e))
  ]
  worker_step-Carries evm claiming q s t e =
      let ((s₁, claim), p₁, q₁) = >>=-eq-some (claim_execution m s) _ e in
      let same : s₁ ≡ t = ground (arith, q₁) in
      subst (Carries m s) same (claim_execution-Carries s s₁ claim p₁)
  worker_step-Carries evm (working task) q s t e =
      let ((s₁, next), p₁, q₁) = >>=-eq-some (run_task m evm s task) _ e in
      let same : s₁ ≡ t = ground (arith, q₁) in
      subst (Carries m s) same (run_task-Carries evm s s₁ task next p₁)
  worker_step-Carries evm WorkerPhase.rested q s t e =
      subst (Carries m s) (ground (arith, e)) (Carries-refl m s)

  finality_step-Carries :
      (p q : FinalityPhase) (s t : Scheduler m) (l k : FinalityLoop)
      → finality_step m p s l ≡ some (t, k, q)
      → Carries m s t
  unfolding finality_step
  finality_step-Carries FinalityPhase.waiting q s t l k e =
      subst (Carries m s) (ground (arith, e)) (Carries-refl m s)
  finality_step-Carries finalizing q s t l k e =
      let ((s₁, l₁), p₁, q₁) = >>=-eq-some (finalize m s l) _ e in
      let same : s₁ ≡ t = ground (arith, q₁) in
      subst (Carries m s) same (finalize-Carries s s₁ l l₁ p₁)
  finality_step-Carries FinalityPhase.rested q s t l k e =
      subst (Carries m s) (ground (arith, e)) (Carries-refl m s)

module _ (m : Machine) (c : Committed m) where
  Quiet-Carries :
      (s : Scheduler m) (r : Scheduler m × Ledger m c × Progress m c)
      → IsQuiet m c s r
      → Carries m s r.0
  Quiet-Carries s (t, l, p) q = record {
    beneficiary = q.beneficiary;
    len = q.len;
    results = λ i closed. elim (q.results i) [
      | inl taken ↦ inr (λ stored r a b. absurd (ground (arith, taken, a)))
      | inr kept ↦ inl (ground (arith, q.states, closed), kept)
    ];
  }

  commit_step-Carries :
      (txs : ℕ → TxEnv m.keys.Address) (disable : Bool) (p q : CommitPhase m.Fatal)
      (s t : Scheduler m) (l k : Ledger m c)
      → commit_step m c txs disable p s l ≡ some (t, k, q)
      → Carries m s t
  unfolding commit_step
  commit_step-Carries txs disable CommitPhase.waiting q s t l k e =
      subst (Carries m s) (ground (arith, e)) (Carries-refl m s)
  commit_step-Carries txs disable committing q s t l k e =
      let (r, p₁, q₁) = >>=-eq-some (commit_round m c txs disable s l) _ e in
      let same : r.0 ≡ t = ground (arith, q₁) in
      subst (Carries m s) same (Quiet-Carries s r (commit_round-Quiet m c txs disable s l r p₁))
  commit_step-Carries txs disable (returned error) q s t l k e =
      subst (Carries m s) (ground (arith, e)) (Carries-refl m s)

  record Kept (n : ℕ) (s : Scheduler m) : Type 0 where
    separated : Separated m s
    sized : s.tx_results.len ≡ n

  Carries-Kept : (n : ℕ) (s t : Scheduler m) → Carries m s t → Kept n s → Kept n t
  Carries-Kept n s t f v = record {
    separated = Carries-Separated m s t f v.separated;
    sized = f.len ∙ v.sized;
  }

  Step-Kept :
      (n : ℕ) (txs : ℕ → TxEnv m.keys.Address) (disable : Bool) (r r' : Threads m c)
      → Step m c txs disable r r'
      → Kept n r.scheduler
      → Kept n r'.scheduler
  Step-Kept n txs disable r _ (works worker evm p q s at e) v =
      Carries-Kept n r.scheduler s (worker_step-Carries m evm p q r.scheduler s e) v
  Step-Kept n txs disable r _ (finalizes s l q e) v =
      Carries-Kept n r.scheduler s (finality_step-Carries m r.finality q r.scheduler s r.loop l e) v
  Step-Kept n txs disable r _ (commits s k q e) v =
      Carries-Kept n r.scheduler s
        (commit_step-Carries txs disable r.commit q r.scheduler s r.ledger k e) v

  Reach-Kept :
      (txs : ℕ → TxEnv m.keys.Address) (disable : Bool) (concurrency_level n : ℕ)
      (beneficiary : m.keys.Address) (anchor : Option m.revm.AccountInfo) (state : c.State)
      (r : Threads m c)
      → Reach m c txs disable (spawn m c concurrency_level n beneficiary anchor state) r
      → Kept n r.scheduler
  unfolding spawn build
  Reach-Kept txs disable level n beneficiary anchor state _ begins = record {
    separated = record { results = λ i closed stored r a b. absurd (ground (arith, a)) };
    sized = refl;
  }
  Reach-Kept txs disable level n beneficiary anchor state r' (steps r _ before step) =
      Step-Kept n txs disable r r' step
        (Reach-Kept txs disable level n beneficiary anchor state r before)

  commit_result_total :
      (beneficiary : m.keys.Address) (disable : Bool) (txid : ℕ) (tx : TxEnv m.keys.Address)
      (r : SpeculativeResult m) (l : Ledger m c)
      → IsSeparate m beneficiary r
      → commit_result m c beneficiary disable txid tx r l ≢ none
  unfolding commit_result apply_result fold_reward
  commit_result_total beneficiary disable txid tx r l (inl undeferred) =
      λ h. ground (arith, undeferred, h)
  commit_result_total beneficiary disable txid tx r l (inr apart) = λ h. ground (arith, apart, h)

  -- In any interleaving of the threads of a block, with any EVM: when the commit loop is behind
  -- finality, the results that it indexes have a place for its next transaction, and if a speculative
  -- result is stored there, its commit does not fail the assertion on a deferred reward, whatever
  -- the committed state and the transaction.
  pub Reach-commit_result :
      (txs : ℕ → TxEnv m.keys.Address) (disable : Bool) (concurrency_level n : ℕ)
      (beneficiary : m.keys.Address) (anchor : Option m.revm.AccountInfo) (state : c.State)
      (r : Threads m c)
      → Reach m c txs disable (spawn m c concurrency_level n beneficiary anchor state) r
      → length r.ledger.outcomes < r.scheduler.ctx.finality
      → (length r.ledger.outcomes < r.scheduler.tx_results.len)
        × ((stored : TransactionResult m) (result : SpeculativeResult m) (tx : TxEnv m.keys.Address)
            → r.scheduler.tx_results.at (length r.ledger.outcomes) ≡ some stored
            → stored.execute_result ≡ ok result
            → commit_result m c r.scheduler.beneficiary disable
                (length r.ledger.outcomes)
                tx
                result
                r.ledger
              ≢ none)
  Reach-commit_result txs disable level n beneficiary anchor state r reach behind =
      let v = Reach-Kept txs disable level n beneficiary anchor state r reach in
      let w = (Threads-Inv m c txs disable level n beneficiary anchor state r reach).bounded in
      (
        omega (arith, behind, w.stable.published, w.within, v.sized),
        λ stored result tx at is.
            commit_result_total r.scheduler.beneficiary disable (length r.ledger.outcomes) tx result
              r.ledger
              (v.separated.results (length r.ledger.outcomes)
                (ground (
                  arith,
                  w.stable.prefix (length r.ledger.outcomes)
                      (omega (arith, behind, w.stable.published)),
                ))
                stored result at is),
      )
