-- ===== src/Scheduler/ClaimFrames.antt =====
-- src/scheduler.rs: what `validate` and the two halves of `next` leave alone.
use grevm.Prelude.{
  ℕ, ◌+◌, ◌≡◌, ◌≢◌, Bool, true, false, not, Option, none, some, refl, arith, ◌==◌, ◌⊎◌, inl, inr,
  cell,
}
use grevm.Model.{TransactionStatus, executed, validating, unconfirmed, conflict, TxVersion, Task}
use grevm.Dependency
use grevm.Context
use grevm.Context.{SchedulerContext, tick}
use grevm.Context.Keeps.{unconfirmed-KeepsLower}
use grevm.Beneficiary
use grevm.Scheduler.{
  Machine, TransactionResult, parallel_error, Scheduler, set_tx, rewind_validation,
  mark_mv_estimate,
}
use grevm.Scheduler.Validate.{
  validate, validate_result, validate_conflict, validate_pass, check_reads, blocker,
  claim_validation, claim_execution,
}
use grevm.Scheduler.Branches.{abort-Frame}
use grevm.Scheduler.Frames.{validating-Frames, result-Frames, same-Frames, cell-at}
use grevm.Scheduler.Lifecycle.{
  status, Frame, Frame-refl, Frame-trans, Frames, some-Frames, bind-Frames, if-Frames, after-Frames,
  rewind-Frame, ctx-Frame, set_tx-Frame, execution_task-Frames,
}
use grevm.Context.Keeps.{tick-KeepsLower, next_validation_idx-KeepsLower}

module _ (m : Machine) where
  validate_conflict-Frames :
      (s : Scheduler m) (version : TxVersion) (result : TransactionResult m) (dependency : Option ℕ)
      → status m s version.txid ≢ TransactionStatus.finality
      → Frames m version.txid s (validate_conflict m s version result dependency)
  unfolding validate_conflict
  validate_conflict-Frames s version result dependency o =
      bind-Frames m txid s (Beneficiary.invalidate s.history version) _ λ h _.
        let s₂ = record s {
          memory = mark_mv_estimate m s.memory txid result.write_set;
          history = h.0;
        } in
        if-Frames m txid s (not h.1) _ _
          (λ _. some-Frames m txid s _ none (
            abort-Frame m txid s s₂ (parallel_error txid)
              (Frame-refl m txid s s₂ refl refl refl (λ h. h))))
          (λ _. bind-Frames m txid s (rewind_validation m s₂ (txid + 1)) _ λ s₃ p.
            let f =
              Frame-trans m txid s s₂ s₃ (Frame-refl m txid s s₂ refl refl refl (λ h. h))
                (rewind-Frame m txid (txid + 1) s₂ s₃ (omega arith) p) in
            after-Frames m txid s s₃ _ f (
              bind-Frames m txid s₃ (cell s₃.tx_states txid) _ λ tx q.
                let s₄ =
                  set_tx m s₃ txid (record tx { status = conflict; dependency = dependency }) in
                let g =
                  set_tx-Frame m txid txid s₃
                    (record tx { status = conflict; dependency = dependency })
                    (λ h. o (f.fresh txid h)) (λ h. cc) in
                bind-Frames m txid s₃
                  (Dependency.add s₄.tx_dependency txid (blocker m s₄ dependency)) _
                  λ d _.
                    some-Frames m txid s₃ (record s₄ { tx_dependency = d }) none
                      (Frame-trans m txid s₃ s₄ _ g
                        (Frame-refl m txid s₄ _ refl refl refl (λ h. h)))))
    where
      txid : ℕ
      txid = version.txid

  validate_pass-Frames :
      (s : Scheduler m) (version : TxVersion) (timestamp : ℕ) (dependency : Option ℕ)
      → status m s version.txid ≢ TransactionStatus.finality
      → Frames m version.txid s (validate_pass m s version timestamp dependency)
  unfolding validate_pass
  validate_pass-Frames s version timestamp dependency o =
      bind-Frames m txid s (Context.unconfirmed s.ctx txid timestamp) _ λ c p.
        bind-Frames m txid s (cell s.tx_states txid) _ λ tx _.
          let s₁ = record s { ctx = c } in
          some-Frames m txid s _ none (
            Frame-trans m txid s s₁ _
              (ctx-Frame m txid s c (unconfirmed-KeepsLower txid txid timestamp s.ctx c p))
              (set_tx-Frame m txid txid s₁ _ o (λ h. cc)))
    where
      txid : ℕ
      txid = version.txid

  validate_result-Frames :
      (s : Scheduler m) (version : TxVersion) (result : TransactionResult m)
      → status m s version.txid ≢ TransactionStatus.finality
      → Frames m version.txid s (validate_result m s version result)
  unfolding validate_result
  validate_result-Frames s version result o =
      result-Frames m txid s result.execute_result _ _
        (λ r.
          let s₁ = record s { ctx = (tick s.ctx).0 } in
          after-Frames m txid s s₁ _
            (ctx-Frame m txid s (tick s.ctx).0 (tick-KeepsLower txid s.ctx))
            (bind-Frames m txid s₁
              (check_reads m.keys m.revm s.memory s.history txid result.read_set (false, none)) _
              λ c _.
                if-Frames m txid s₁ c.0 _ _ (λ _. validate_conflict-Frames s₁ version result c.1 o)
                  (λ _. validate_pass-Frames s₁ version (tick s.ctx).1 c.1 o)))
        (λ e. some-Frames m txid s _ none (
          abort-Frame m txid s s (parallel_error txid)
            (Frame-refl m txid s s refl refl refl (λ h. h))))
    where
      txid : ℕ
      txid = version.txid

  stored-Frames :
      {X B : Type 0} (txid : ℕ) (s : Scheduler m) (r : Option X) (f : X → Option (Scheduler m × B))
      (p : Option (Scheduler m × B))
      → ((x : X) → Frames m txid s (f x))
      → Frames m txid s p
      → Frames m txid s (elim r [ none ↦ p | some x ↦ f x ])
  stored-Frames txid s none f p g h = h
  stored-Frames txid s (some x) f p g h = g x

  -- A validation task rewinds no validation before its own transaction, publishes no boundary, and
  -- neither makes a transaction final nor takes finality back; no validation timestamp decreases.
  pub validate-Frame :
      (s t : Scheduler m) (version : TxVersion) (task : Option Task)
      → validate m s version ≡ some (t, task)
      → Frame m version.txid s t
  unfolding validate
  validate-Frame s t version task =
      bind-Frames m txid s (cell s.tx_states txid) _
        (λ tx p. bind-Frames m txid s (cell s.tx_results txid) _ λ stored _.
          validating-Frames m txid s tx.status _ _
            (λ running.
              if-Frames m txid s (not (tx.incarnation == version.incarnation)) _ _
                (λ _. some-Frames m txid s _ none (
                  abort-Frame m txid s s (parallel_error txid)
                    (Frame-refl m txid s s refl refl refl (λ h. h))))
                (λ _.
                  stored-Frames txid s stored _ _
                    (λ result.
                      validate_result-Frames s version result
                        (λ h. ground (arith, cell-at m s txid tx validating p running)))
                    (some-Frames m txid s _ none (
                      abort-Frame m txid s s (parallel_error txid)
                        (Frame-refl m txid s s refl refl refl (λ h. h))))))
            (same-Frames m txid s none))
        t task
    where
      txid : ℕ
      txid = version.txid

  claiming-Frames :
      {B : Type 0} (txid : ℕ) (s : Scheduler m) (st : TransactionStatus)
      (p q : Option (Scheduler m × B))
      → (st ≢ TransactionStatus.finality → Frames m txid s p)
      → Frames m txid s q
      → Frames m txid s (elim st [ executed ↦ p | unconfirmed ↦ p | _ ↦ q ])
  claiming-Frames txid s executed p q f g = f (λ h. cc)
  claiming-Frames txid s unconfirmed p q f g = f (λ h. cc)
  claiming-Frames txid s _ p q f g = g

  -- A claim of a validation changes no timestamp, and claims no final transaction.
  pub claim_validation-Frame :
      (txid : ℕ) (s t : Scheduler m) (task : Option Task)
      → claim_validation m s ≡ some (t, task)
      → Frame m txid s t
  unfolding claim_validation
  claim_validation-Frame txid s t task =
      bind-Frames m txid s (Context.next_validation_idx s.ctx s.tx_dependency.index) _
        (λ r p.
          let s₁ = record s { ctx = r.0 } in
          after-Frames m txid s s₁ _
            (ctx-Frame m txid s r.0
              (next_validation_idx-KeepsLower txid s.tx_dependency.index s.ctx r.0 r.1 p))
            (stored-Frames txid s₁ r.1 _ _
              (λ idx. bind-Frames m txid s₁ (cell s₁.tx_states idx) _ λ tx q.
                claiming-Frames txid s₁ tx.status _ _
                  (λ o.
                    some-Frames m txid s₁ _ _
                      (set_tx-Frame m txid idx s₁ _ (λ h. o (ground (arith, q))) (λ h. cc)))
                  (same-Frames m txid s₁ none))
              (same-Frames m txid s₁ none)))
        t task

  -- Nor does a claim of an execution.
  pub claim_execution-Frame :
      (txid : ℕ) (s t : Scheduler m) (task : Option Task)
      → claim_execution m s ≡ some (t, task)
      → Frame m txid s t
  unfolding claim_execution
  claim_execution-Frame txid s t task =
      bind-Frames m txid s (Dependency.next s.tx_dependency) _
        (λ r p.
          let s₁ = record s { tx_dependency = r.0 } in
          after-Frames m txid s s₁ _ (Frame-refl m txid s s₁ refl refl refl (λ h. h)) (
            stored-Frames txid s₁ r.1 _ _ (λ idx. execution_task-Frames m txid idx s₁)
              (same-Frames m txid s₁ none)))
        t task

  abbrev pub is_validating : TransactionStatus → Bool
  is_validating validating = true
  is_validating _ = false

  validating_cases : (st : TransactionStatus) → (st ≡ validating) ⊎ (is_validating st ≡ false)
  validating_cases st = ground arith

  -- A validation task does nothing unless its transaction is being validated.
  pub validate-running :
      (s t : Scheduler m) (version : TxVersion) (task : Option Task)
      → validate m s version ≡ some (t, task)
      → (t ≡ s) ⊎ (status m s version.txid ≡ validating)
  unfolding validate
  validate-running s t version task e = elim (validating_cases (status m s version.txid)) [
    | inl running ↦ inr running
    | inr other ↦ inl (ground (arith, other))
  ]
