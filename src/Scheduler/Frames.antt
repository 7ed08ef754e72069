-- ===== src/Scheduler/Frames.antt =====
-- src/scheduler.rs: what `execute_task` leaves alone.
use grevm.Prelude.{
  ℕ, ◌≡◌, ◌≢◌, Bool, true, false, not, Option, none, some, refl, arith, ◌==◌, ◌⊎◌, inl, inr, cell,
}
use grevm.Model.{
  TransactionStatus, executing, validating, TxState, TxVersion, Task, Result, ok, err,
}
use grevm.IncarnationDb.{IncarnationDb, Accesses}
use grevm.Scheduler.{
  EvmError, Machine, SpeculativeResult, parallel_error, Scheduler, Evm, execute_incarnation,
  worker_db,
}
use grevm.Scheduler.Execute.{execute_task}
use grevm.Scheduler.Lifecycle.{
  status, Frame, Frame-refl, Frames, some-Frames, bind-Frames, if-Frames, after-Frames,
}
use grevm.Scheduler.Branches.{abort-Frame, execute_ok-Frames, execute_err-Frames}

module _ (m : Machine) where
  pub executing-Frames :
      {B : Type 0} (txid : ℕ) (s : Scheduler m) (st : TransactionStatus)
      (p q : Option (Scheduler m × B))
      → (st ≡ executing → Frames m txid s p)
      → Frames m txid s q
      → Frames m txid s (elim st [ executing ↦ p | _ ↦ q ])
  executing-Frames txid s executing p q f g = f refl
  executing-Frames txid s _ p q f g = g

  pub validating-Frames :
      {B : Type 0} (txid : ℕ) (s : Scheduler m) (st : TransactionStatus)
      (p q : Option (Scheduler m × B))
      → (st ≡ validating → Frames m txid s p)
      → Frames m txid s q
      → Frames m txid s (elim st [ validating ↦ p | _ ↦ q ])
  validating-Frames txid s validating p q f g = f refl
  validating-Frames txid s _ p q f g = g

  pub result-Frames :
      {E X B : Type 0} (txid : ℕ) (s : Scheduler m) (r : Result E X)
      (f : X → Option (Scheduler m × B)) (g : E → Option (Scheduler m × B))
      → ((x : X) → Frames m txid s (f x))
      → ((e : E) → Frames m txid s (g e))
      → Frames m txid s (elim r [ ok x ↦ f x | err e ↦ g e ])
  result-Frames txid s (ok x) f g p q = p x
  result-Frames txid s (err e) f g p q = q e

  pub same-Frames :
      {B : Type 0} (txid : ℕ) (s : Scheduler m) (b : B) → Frames m txid s (some (s, b))
  same-Frames txid s b = some-Frames m txid s s b (Frame-refl m txid s s refl refl refl (λ h. h))

  pub cell-at :
      (s : Scheduler m) (i : ℕ) (tx : TxState) (st : TransactionStatus)
      → cell s.tx_states i ≡ some tx
      → tx.status ≡ st
      → status m s i ≡ st
  cell-at s i tx st e h = ground arith

  -- An execution task rewinds no validation before its own transaction, publishes no boundary, and
  -- neither makes a transaction final nor takes finality back; no validation timestamp decreases.
  pub execute_task-Frame :
      (evm : Evm m) (s t : Scheduler m) (version : TxVersion) (task : Option Task)
      → execute_task m evm s version ≡ some (t, task)
      → Frame m version.txid s t
  unfolding execute_task
  execute_task-Frame evm s t version task =
      bind-Frames m txid s (cell s.tx_states txid) _
        (λ tx p.
          executing-Frames txid s tx.status _ _
            (λ running.
              if-Frames m txid s (not (tx.incarnation == version.incarnation)) _ _
                (λ _. some-Frames m txid s _ none (
                  abort-Frame m txid s s (parallel_error txid)
                    (Frame-refl m txid s s refl refl refl (λ h. h))))
                (λ _.
                  let open_tx : status m s txid ≢ TransactionStatus.finality =
                    (λ h. ground (arith, cell-at s txid tx executing p running)) in
                  let s' = record s { memory = done.0.memory } in
                  after-Frames m txid s s' _ (Frame-refl m txid s s' refl refl refl (λ h. h)) (
                    result-Frames txid s' done.2 _ _
                      (λ r. execute_ok-Frames m s' version done.1 r open_tx)
                      (λ e. execute_err-Frames m s' version done.1 e open_tx))))
            (same-Frames txid s none))
        t task
    where
      txid : ℕ
      txid = version.txid

      done :
          IncarnationDb m.keys m.revm
          × Accesses m.keys m.revm
          × Result (EvmError m.Invalid m.Fatal) (SpeculativeResult m)
      done = execute_incarnation m evm (worker_db m s) version

  abbrev pub is_executing : TransactionStatus → Bool
  is_executing executing = true
  is_executing _ = false

  executing_cases : (st : TransactionStatus) → (st ≡ executing) ⊎ (is_executing st ≡ false)
  executing_cases st = ground arith

  -- It does nothing unless its transaction is executing.
  pub execute_task-running :
      (evm : Evm m) (s t : Scheduler m) (version : TxVersion) (task : Option Task)
      → execute_task m evm s version ≡ some (t, task)
      → (t ≡ s) ⊎ (status m s version.txid ≡ executing)
  unfolding execute_task
  execute_task-running evm s t version task e = elim (executing_cases (status m s version.txid)) [
    | inl running ↦ inr running
    | inr other ↦ inl (ground (arith, other))
  ]
