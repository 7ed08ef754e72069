-- ===== src/Scheduler/Execute.antt =====
-- src/scheduler.rs: `execute_task`.
use grevm.Prelude.{
  ℕ, ◌+◌, Bool, true, false, not, ◌&&◌, ◌||◌, Option, none, some, List, [], ◌∷◌, ◌==◌,
  if◌then◌else◌, put, cell, ◌>>=◌,
}
use grevm.Model.{executing, executed, validating, conflict, TxVersion, Task, validation, ok, err}
use grevm.Dependency
use grevm.Context
use grevm.Beneficiary
use grevm.Beneficiary.{History}
use grevm.Memory.{Location, Memory, location_eq}
use grevm.IncarnationDb.{Accesses, is_blocked}
use grevm.IncarnationDb.Publish.{contains_location}
use grevm.Scheduler.{
  EvmError, transaction, fatal, Machine, SpeculativeResult, TransactionResult, fatal_evm_error,
  parallel_error, fallback_sequential, Scheduler, abort, set_status, rewind_validation,
  execution_task, latest_unfinalized_blocker, mark_mv_estimate, Evm, execute_incarnation, worker_db,
}

module _ (m : Machine) where
  open m use {keys, revm, Output, Invalid, Fatal}
  open keys use {Address, eqb}
  open revm use {AccountInfo, Account, Bytecode}

  -- The journal account of the beneficiary, if the transaction touched it.
  abbrev pub account_of : Address → List (Address × Account) → Option Account
  account_of a [] = none
  account_of a ((b, account) ∷ changes) = if eqb b a then some account else account_of a changes

  -- Whether `write_set` names a location that the previous incarnation did not write.
  abbrev pub expands : List (Location Address) → List (Location Address) → Bool
  expands [] previous = false
  expands (l ∷ ls) previous = not (contains_location keys revm previous l) || expands ls previous

  abbrev pub writes_new : Option (TransactionResult m) → List (Location Address) → Bool
  writes_new none write_set = true
  writes_new (some last) write_set = expands write_set last.write_set

  abbrev pub remove_entry :
      Memory Address AccountInfo Bytecode
      → ℕ
      → List (Location Address)
      → Location Address
      → Memory Address AccountInfo Bytecode
  remove_entry memory txid write_set l k writer =
      if not (contains_location keys revm write_set l) && location_eq keys l k && txid == writer
      then none
      else memory k writer

  -- Entries of the previous incarnation at locations that this one does not write are removed.
  unfoldable pub remove_stale :
      Memory Address AccountInfo Bytecode
      → ℕ
      → List (Location Address)
      → List (Location Address)
      → Memory Address AccountInfo Bytecode
  remove_stale memory txid write_set [] = memory
  remove_stale memory txid write_set (l ∷ previous) =
      remove_stale (remove_entry memory txid write_set l) txid write_set previous

  abbrev pub previous_writes : Option (TransactionResult m) → List (Location Address)
  previous_writes none = []
  previous_writes (some last) = last.write_set

  -- From the new status on.
  unfoldable pub finish_execution :
      Scheduler m → TxVersion → Bool → Bool → Option ℕ → Option (Scheduler m × Option Task)
  finish_execution s version conflicted write_new_locations handed = do
    let s₁ = set_status m s version.txid (if conflicted then conflict else executed)
    ctx ← Context.executed s₁.ctx version.txid
    let s₂ = record s₁ { ctx = ctx }
    elim handed [
      | some succ ↦ (do s₃ ← rewind_validation m s₂ version.txid; execution_task m s₃ succ)
      | none ↦
          if conflicted
          then (do s₃ ← rewind_validation m s₂ (version.txid + 1); some (s₃, none))
          else (if write_new_locations
              then (do s₃ ← rewind_validation m s₂ version.txid; some (s₃, none))
              else some (set_status m s₂ version.txid validating, some (validation version)))
    ]

  unfoldable pub dependency_after :
      Scheduler m → ℕ → Bool → List ℕ → Option (Dependency.TxDependency × Option ℕ)
  dependency_after s txid conflicted blockers =
      if conflicted
      then (do
        d ←
            Dependency.add s.tx_dependency txid
              (latest_unfinalized_blocker m s.ctx.finality blockers)
        some (d, none))
      else Dependency.remove s.tx_dependency txid true

  -- The beneficiary's entry for this incarnation.
  unfoldable pub publish_history :
      Scheduler m
      → TxVersion
      → Accesses keys revm
      → SpeculativeResult m
      → Option (History AccountInfo × Bool)
  publish_history s version accesses result =
      if is_blocked keys revm accesses
      then Beneficiary.record_estimate s.history version
      else Beneficiary.record_execution revm s.history version result.deferred_reward
          (account_of s.beneficiary result.state)

  -- The branch of a speculative result; `s` has the incarnation's writes in its memory.
  unfoldable pub execute_ok :
      Scheduler m
      → TxVersion
      → Accesses keys revm
      → SpeculativeResult m
      → Option (Scheduler m × Option Task)
  unfolding finish_execution dependency_after remove_stale publish_history
  execute_ok s version accesses result = do
    last ← cell s.tx_results version.txid
    let conflicted = is_blocked keys revm accesses
    let s₁ = record s {
      memory = remove_stale s.memory version.txid accesses.write_set (previous_writes last);
    }
    (history, published) ← publish_history s version accesses result
    let s₂ = record s₁ { history = history }
    if not published then some (abort m s₂ (parallel_error version.txid), none) else (do
      (dependency, handed) ← dependency_after s₂ version.txid conflicted accesses.blockers
      finish_execution
          (record s₂ {
            tx_dependency = dependency;
            tx_results = put s₂.tx_results version.txid (
                some (record {
                  read_set = accesses.reads;
                  write_set = accesses.write_set;
                  execute_result = ok result;
                }));
          })
          version conflicted (writes_new last accesses.write_set) handed)

  -- Of an EVM error at the commit head; an invalid transaction falls back.
  abbrev pub abort_at_head : Scheduler m → ℕ → EvmError Invalid Fatal → Scheduler m
  abort_at_head s txid (transaction e) = abort m s fallback_sequential
  abort_at_head s txid (fatal e) = abort m s (fatal_evm_error txid)

  unfoldable pub retry_later :
      Scheduler m → ℕ → Accesses keys revm → EvmError Invalid Fatal → Option (Scheduler m)
  retry_later s txid accesses e =
      if is_blocked keys revm accesses
      then (do
        d ←
            Dependency.add s.tx_dependency txid
              (latest_unfinalized_blocker m s.ctx.finality accesses.blockers)
        some (record s { tx_dependency = d }))
      else (do
        let s₁ = if s.ctx.committed == txid then abort_at_head s txid e else s
        d ← Dependency.key_tx s₁.tx_dependency txid s₁.ctx.committed
        some (record s₁ { tx_dependency = d }))

  -- The branch of an EVM error.
  unfoldable pub execute_err :
      Scheduler m
      → TxVersion
      → Accesses keys revm
      → EvmError Invalid Fatal
      → Option (Scheduler m × Option Task)
  unfolding finish_execution retry_later
  execute_err s version accesses e = do
    last ← cell s.tx_results version.txid
    let s₁ = record s {
      memory = mark_mv_estimate m s.memory version.txid (previous_writes last);
      -- the last result's write set has been taken out of it
      tx_results = elim last [
        | none ↦ s.tx_results
        | some r ↦ put s.tx_results version.txid (some (record r { write_set = [] }))
      ];
    }
    (history, published) ← Beneficiary.record_estimate s.history version
    let s₂ = record s₁ { history = history }
    if not published then some (abort m s₂ (parallel_error version.txid), none) else (do
      s₃ ←
          retry_later
            (record s₂ {
              tx_results = put s₂.tx_results version.txid (
                  some (record {
                    read_set = [];
                    write_set = previous_writes last;
                    execute_result = err e;
                  }));
            })
            version.txid accesses e
      finish_execution s₃ version true false none)

  unfoldable pub execute_task : Evm m → Scheduler m → TxVersion → Option (Scheduler m × Option Task)
  unfolding execute_ok execute_err execute_incarnation
  execute_task evm s version = do
    tx ← cell s.tx_states version.txid
    elim tx.status [
      | executing ↦
          if not (tx.incarnation == version.incarnation)
          then some (abort m s (parallel_error version.txid), none)
          else (let (db, accesses, result) = execute_incarnation m evm (worker_db m s) version in
              let s' = record s { memory = db.memory } in
              elim result [
                | ok r ↦ execute_ok s' version accesses r
                | err e ↦ execute_err s' version accesses e
              ])
      | _ ↦ some (s, none)
    ]
