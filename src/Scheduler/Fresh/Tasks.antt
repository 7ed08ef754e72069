-- ===== src/Scheduler/Fresh/Tasks.antt =====
-- src/scheduler.rs: an execution task, and the claims of tasks.
use grevm.Prelude.{
  ℕ, ◌+◌, ◌≡◌, ◌<◌, Option, some, arith, ◌⊎◌, inl, inr, refl, sym, ◌∙◌, subst, usize_mod,
}
use grevm.Model.{executing, TxVersion, Task, ok, err, Result}
use grevm.Memory.{Memory}
use grevm.IncarnationDb.{IncarnationDb, is_blocked, begin_incarnation}
use grevm.IncarnationDb.Publish.{finish_incarnation, discard_incarnation}
use grevm.IncarnationDb.Publish.Written.{publish_writes-IsWritten}
use grevm.Scheduler.{
  Machine, Scheduler, EvmError, SpeculativeResult, abort, parallel_error, Evm, Incarnation,
  execute_incarnation, close_incarnation, worker_db,
}
use grevm.Scheduler.Execute.{execute_task, execute_ok, execute_err}
use grevm.Scheduler.Lifecycle.{status}
use grevm.Scheduler.Fresh.{incarnation_of, Inv}
use grevm.Scheduler.Fresh.Calm.{Calm-Inv}
use grevm.Scheduler.Fresh.Core.{Core-Inv}
use grevm.Scheduler.Fresh.Attempt.{Ran}
use grevm.Scheduler.Fresh.Execute.{execute_ok-Core}
use grevm.Scheduler.Fresh.Failure.{execute_err-Core}
use grevm.Scheduler.Fresh.Validation.{abort-Inv}

module _ (m : Machine) where
  open m use {keys, revm, Invalid, Fatal}

  -- The EVM only reads the memory through its database: it leaves the memory and the version there.
  abbrev pub IsReader : Evm m → Type 0
  IsReader evm =
      (db : IncarnationDb keys revm) (txid : ℕ)
      → ((evm db txid).0.memory ≡ db.memory) × ((evm db txid).0.version ≡ db.version)

  -- What a run leaves in the memory that it started from.
  abbrev pub Left : Scheduler m → TxVersion → Incarnation m → Type 0
  Left s version (db, accesses, ok r) =
      Ran m s.memory db.memory version.txid accesses.write_set (is_blocked keys revm accesses)
  Left s version (db, accesses, err e) = db.memory ≡ s.memory

  closed_Left :
      (s : Scheduler m) (version : TxVersion) (db : IncarnationDb keys revm)
      (x : Result (EvmError Invalid Fatal) (SpeculativeResult m))
      → db.memory ≡ s.memory
      → db.version ≡ version
      → Left s version (close_incarnation m (db, x))
  unfolding finish_incarnation discard_incarnation
  closed_Left s version db (ok r) a b =
      let w = publish_writes-IsWritten keys revm r.state db in
      record {
        written = λ l h.
            let (entry, found, told, _) = w.written l h in
            (entry, ground (arith, found, b), told ∙ sym w.blocks);
        unwritten = λ l h. ground (arith, w.unwritten l h, a, b);
        others = λ l i h. ground (arith, w.others l i (λ x. h (ground (arith, x, b))), a);
      }
  closed_Left s version db (err e) a b = a

  run_Left :
      (evm : Evm m) (s : Scheduler m) (version : TxVersion)
      → IsReader evm
      → Left s version (execute_incarnation m evm (worker_db m s) version)
  unfolding execute_incarnation begin_incarnation
  run_Left evm s version reads =
      let r = reads (begin_incarnation keys revm (worker_db m s) version) version.txid in
      closed_Left s version
        (evm (begin_incarnation keys revm (worker_db m s) version) version.txid).0
        (evm (begin_incarnation keys revm (worker_db m s) version) version.txid).1 r.0 r.1

  unfoldable pub ran_task :
      Scheduler m → TxVersion → Incarnation m → Option (Scheduler m × Option Task)
  ran_task s version (db, accesses, ok r) =
      execute_ok m (record s { memory = db.memory }) version accesses r
  ran_task s version (db, accesses, err e) =
      execute_err m (record s { memory = db.memory }) version accesses e

  pub execute_task_cases :
      (evm : Evm m) (s t : Scheduler m) (version : TxVersion) (task : Option Task)
      → execute_task m evm s version ≡ some (t, task)
      → (t ≡ s)
        ⊎ ((t ≡ abort m s (parallel_error version.txid))
            ⊎ ((status m s version.txid ≡ executing)
                × (incarnation_of m s version.txid ≡ version.incarnation)
                × (ran_task s version (execute_incarnation m evm (worker_db m s) version)
                    ≡ some (t, task))))
  unfolding execute_task ran_task
  execute_task_cases evm s t version task e =
      by_run (execute_incarnation m evm (worker_db m s) version) refl
    where
      by_run :
          (x : Incarnation m)
          → execute_incarnation m evm (worker_db m s) version ≡ x
          → (t ≡ s)
            ⊎ ((t ≡ abort m s (parallel_error version.txid))
                ⊎ ((status m s version.txid ≡ executing)
                    × (incarnation_of m s version.txid ≡ version.incarnation)
                    × (ran_task s version (execute_incarnation m evm (worker_db m s) version)
                        ≡ some (t, task))))
      by_run (db, accesses, ok r) h = ground (arith, e, h)
      by_run (db, accesses, err x) h = ground (arith, e, h)

  ran_task-Inv :
      (s t : Scheduler m) (version : TxVersion) (task : Option Task) (x : Incarnation m)
      → Inv m s
      → s.ctx.logical_clock + 2 < usize_mod
      → status m s version.txid ≡ executing
      → incarnation_of m s version.txid ≡ version.incarnation
      → Left s version x
      → ran_task s version x ≡ some (t, task)
      → Inv m t
  unfolding ran_task
  ran_task-Inv s t version task (db, accesses, ok r) v small running claimed_as left e =
      let (u, core, calm) =
        execute_ok-Core m s version v (omega (arith, small)) running claimed_as db.memory accesses
          left r t task e in
      Calm-Inv m u t calm (Core-Inv m s u version.txid core v)
  ran_task-Inv s t version task (db, accesses, err x) v small running claimed_as left e =
      let (u, core, calm) =
        execute_err-Core m s version v (omega (arith, small)) running claimed_as accesses x t task (
          subst
            (λ (memory : Memory keys.Address revm.AccountInfo revm.Bytecode).
              execute_err m (record s { memory = memory }) version accesses x ≡ some (t, task))
            left e) in
      Calm-Inv m u t calm (Core-Inv m s u version.txid core v)

  -- An execution task keeps the invariant.
  pub execute_task-Inv :
      (evm : Evm m) (s t : Scheduler m) (version : TxVersion) (task : Option Task)
      → IsReader evm
      → Inv m s
      → s.ctx.logical_clock + 2 < usize_mod
      → execute_task m evm s version ≡ some (t, task)
      → Inv m t
  execute_task-Inv evm s t version task reads v small e =
      elim (execute_task_cases evm s t version task e) [
        | inl same ↦ subst (Inv m) (sym same) v
        | inr (inl stopped) ↦ subst (Inv m) (sym stopped) (abort-Inv m s version.txid v)
        | inr (inr (running, claimed_as, q)) ↦
            ran_task-Inv s t version task (execute_incarnation m evm (worker_db m s) version) v
              small running claimed_as (run_Left evm s version reads) q
      ]
