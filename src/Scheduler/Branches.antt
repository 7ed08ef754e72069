-- ===== src/Scheduler/Branches.antt =====
-- src/scheduler.rs: what the branches of `execute_task` leave alone.
use grevm.Prelude.{
  ℕ, ◌+◌, ◌≡◌, ◌≢◌, Bool, true, false, not, Option, none, some, [], refl, arith, if◌then◌else◌, put,
  cell, ◌>>=◌,
}
use grevm.Model.{TransactionStatus, executed, validating, conflict, TxVersion, validation, ok, err}
use grevm.Context
use grevm.Context.{SchedulerContext, tick}
use grevm.Context.Keeps.{executed-KeepsLower}
use grevm.Beneficiary
use grevm.IncarnationDb.{Accesses, is_blocked}
use grevm.Scheduler.{
  EvmError, Machine, SpeculativeResult, AbortReason, parallel_error, Scheduler, abort, set_status,
  rewind_validation, execution_task, mark_mv_estimate,
}
use grevm.Scheduler.Execute.{
  dependency_after, publish_history, remove_stale, previous_writes, writes_new, finish_execution,
  execute_ok, execute_err, retry_later,
}
use grevm.Scheduler.Lifecycle.{
  status, Frame, Frame-refl, Frame-trans, Frames, some-Frames, bind-Frames, if-Frames, after-Frames,
  rewind-Frame, ctx-Frame, set_tx-Frame, execution_task-Frames,
}

module _ (m : Machine) where
  finish_execution-Frames :
      (s : Scheduler m) (version : TxVersion) (conflicted write_new : Bool) (handed : Option ℕ)
      → status m s version.txid ≢ TransactionStatus.finality
      → Frames m version.txid s (finish_execution m s version conflicted write_new handed)
  unfolding finish_execution
  finish_execution-Frames s version conflicted write_new handed open_tx =
      bind-Frames m txid s (Context.executed s₁.ctx txid) _ λ c p.
        after-Frames m txid s (record s₁ { ctx = c }) _
          (Frame-trans m txid s s₁ _ (set_tx-Frame m txid txid s _ open_tx not_final)
            (ctx-Frame m txid s₁ c (executed-KeepsLower txid txid s₁.ctx c p)))
          (rest handed (record s₁ { ctx = c }) (λ h. not_final (ground arith)))
    where
      txid : ℕ
      txid = version.txid

      s₁ : Scheduler m
      s₁ = set_status m s txid (if conflicted then conflict else executed)

      not_final : (if conflicted then conflict else executed) ≢ TransactionStatus.finality
      not_final = λ h. ground arith

      rest :
          (handed : Option ℕ) (s₂ : Scheduler m)
          → status m s₂ txid ≢ TransactionStatus.finality
          → Frames m txid s₂ (elim handed [
            | some succ ↦ (do s₃ ← rewind_validation m s₂ txid; execution_task m s₃ succ)
            | none ↦
                if conflicted
                then (do s₃ ← rewind_validation m s₂ (txid + 1); some (s₃, none))
                else (if write_new
                    then (do s₃ ← rewind_validation m s₂ txid; some (s₃, none))
                    else some (set_status m s₂ txid validating, some (validation version)))
          ])
      rest (some succ) s₂ o = bind-Frames m txid s₂ (rewind_validation m s₂ txid) _ λ s₃ p.
          after-Frames m txid s₂ s₃ _ (rewind-Frame m txid txid s₂ s₃ (omega arith) p)
            (execution_task-Frames m txid succ s₃)
      rest none s₂ o =
          if-Frames m txid s₂ conflicted _ _
            (λ _. bind-Frames m txid s₂ (rewind_validation m s₂ (txid + 1)) _ λ s₃ p.
              some-Frames m txid s₂ s₃ none (rewind-Frame m txid (txid + 1) s₂ s₃ (omega arith) p))
            (λ _.
              if-Frames m txid s₂ write_new _ _
                (λ _. bind-Frames m txid s₂ (rewind_validation m s₂ txid) _ λ s₃ p.
                  some-Frames m txid s₂ s₃ none (rewind-Frame m txid txid s₂ s₃ (omega arith) p))
                (λ _. some-Frames m txid s₂ _ _ (set_tx-Frame m txid txid s₂ _ o (λ h. cc))))

  pub abort-Frame :
      (txid : ℕ) (s t : Scheduler m) (reason : AbortReason m)
      → Frame m txid s t
      → Frame m txid s (abort m t reason)
  unfolding abort
  abort-Frame txid s t reason f =
      Frame-trans m txid s t _ f (Frame-refl m txid t _ refl refl refl (λ h. refl))

  pub execute_ok-Frames :
      (s : Scheduler m) (version : TxVersion) (accesses : Accesses m.keys m.revm)
      (result : SpeculativeResult m)
      → status m s version.txid ≢ TransactionStatus.finality
      → Frames m version.txid s (execute_ok m s version accesses result)
  unfolding execute_ok
  execute_ok-Frames s version accesses result o =
      bind-Frames m txid s (cell s.tx_results txid) _ λ last _.
        bind-Frames m txid s (publish_history m s version accesses result) _ λ published _.
          let s₂ = record s {
            memory = remove_stale m s.memory txid accesses.write_set (previous_writes m last);
            history = published.0;
          } in
          if-Frames m txid s (not published.1) _ _
            (λ _. some-Frames m txid s (abort m s₂ (parallel_error txid)) none (
              abort-Frame txid s s₂ (parallel_error txid)
                (Frame-refl m txid s s₂ refl refl refl (λ h. h))))
            (λ _.
              bind-Frames m txid s
                (dependency_after m s₂ txid (is_blocked m.keys m.revm accesses) accesses.blockers) _
                λ d _.
                  let s₃ = record s₂ {
                    tx_dependency = d.0;
                    tx_results = put s₂.tx_results txid (
                        some (record {
                          read_set = accesses.reads;
                          write_set = accesses.write_set;
                          execute_result = ok result;
                        }));
                  } in
                  after-Frames m txid s s₃ _ (Frame-refl m txid s s₃ refl refl refl (λ h. h)) (
                    finish_execution-Frames s₃ version (is_blocked m.keys m.revm accesses)
                      (writes_new m last accesses.write_set) d.1 o))
    where
      txid : ℕ
      txid = version.txid

  retry_later-Frame :
      (s t : Scheduler m) (txid : ℕ) (accesses : Accesses m.keys m.revm)
      (e : EvmError m.Invalid m.Fatal)
      → retry_later m s txid accesses e ≡ some t
      → (t.block_size ≡ s.block_size)
        × (t.ctx ≡ s.ctx)
        × (t.tx_states ≡ s.tx_states)
        × (s.aborted ≡ true → t.aborted ≡ true)
  unfolding retry_later abort
  retry_later-Frame s t txid accesses e h = ground arith

  pub execute_err-Frames :
      (s : Scheduler m) (version : TxVersion) (accesses : Accesses m.keys m.revm)
      (e : EvmError m.Invalid m.Fatal)
      → status m s version.txid ≢ TransactionStatus.finality
      → Frames m version.txid s (execute_err m s version accesses e)
  unfolding execute_err
  execute_err-Frames s version accesses e o =
      bind-Frames m txid s (cell s.tx_results txid) _ λ last _.
        bind-Frames m txid s (Beneficiary.record_estimate s.history version) _ λ published _.
          let s₂ = record s {
            memory = mark_mv_estimate m s.memory txid (previous_writes m last);
            tx_results = elim last [
              | none ↦ s.tx_results
              | some r ↦ put s.tx_results txid (some (record r { write_set = [] }))
            ];
            history = published.0;
          } in
          if-Frames m txid s (not published.1) _ _
            (λ _. some-Frames m txid s (abort m s₂ (parallel_error txid)) none (
              abort-Frame txid s s₂ (parallel_error txid)
                (Frame-refl m txid s s₂ refl refl refl (λ h. h))))
            (λ _.
              let s₃ = record s₂ {
                tx_results = put s₂.tx_results txid (
                    some (record {
                      read_set = [];
                      write_set = previous_writes m last;
                      execute_result = err e;
                    }));
              } in
              bind-Frames m txid s (retry_later m s₃ txid accesses e) _ λ s₄ p.
                let (a, b, c, d) = retry_later-Frame s₃ s₄ txid accesses e p in
                after-Frames m txid s s₄ _ (Frame-refl m txid s s₄ a b c d)
                  (finish_execution-Frames s₄ version true false none (λ h. o (rw c at h))))
    where
      txid : ℕ
      txid = version.txid
