-- ===== src/Scheduler.antt =====
-- src/scheduler.rs, src/scheduler/executor.rs and src/scheduler/control.rs: the scheduler's state and
-- the operations that its roles share. A call runs whole, as under the locks that it takes; a panic is
-- `none`. Notifications and metrics carry no state and are left out.
pub mod Execute
pub mod Validate
pub mod ReadSets
pub mod Coordinate
pub mod Lifecycle
pub mod Branches
pub mod Frames
pub mod ClaimFrames
pub mod Stability
pub mod Entries
pub mod Fresh
pub mod Separate
pub mod Sample
mod Tests
use grevm.Prelude.{
  ℕ, zero, suc, ◌+◌, ◌-◌, ◌≡◌, ◌≢◌, ◌≤◌, ◌<◌, ◌%◌, ◌^◌, Bool, true, false, not, ◌&&◌, ◌||◌, Option,
  none, some, List, [], ◌∷◌, ◌++◌, refl, arith, Cells, Option-cases, ap, ◌∙◌, sym, ltb, leb, ◌==◌,
  if◌then◌else◌, ◌⊎◌, inl, inr, update, put, cell, filled, Bool-cases, ◌>>=◌, >>=-eq-some, length,
  get_elem?, length-append, contains, insert, is_none, is_some_eq, unwrap_or, is_empty, All, subst,
  map, min, max, usize_mod, usize_add, ltb→lt, lt→ltb, leb→le, ◌↔◌, ==_iff, fun_ext, cell-eq-some,
}
use mathlib.Core.Option
use grevm.Revm.{Accounts, Database}
use grevm.Model.{
  TransactionStatus, initial, executing, executed, validating, unconfirmed, conflict, finality,
  TxState, TxVersion, Task, execution, validation, Result, ok, err,
}
use grevm.Dependency
use grevm.Dependency.{TxDependency}
use grevm.Context
use grevm.Context.{SchedulerContext}
use grevm.Beneficiary
use grevm.Beneficiary.{History}
use grevm.Memory.{Location, Memory, MemoryEntry, Keys, location_eq}
use grevm.IncarnationDb.{IncarnationDb, Accesses, ReadSet, begin_incarnation}
use grevm.IncarnationDb.Publish.{finish_incarnation, discard_incarnation}

-- `EVMError`, by the one variant that the code tells apart: an invalid transaction.
pub data EvmError (Invalid Fatal : Type 0) : Type 0 where
  transaction : Invalid → EvmError Invalid Fatal
  fatal : Fatal → EvmError Invalid Fatal

-- What the model takes from revm and from the block: types, and the EVM.
pub record Machine : Type 1 where
  pub keys : Keys
  pub revm : Accounts
  pub Output : Type 0
  pub Invalid : Type 0
  pub Fatal : Type 0

module _ (m : Machine) where
  open m use {keys, revm, Output, Invalid, Fatal}
  open keys use {Address, eqb}
  open revm use {AccountInfo, Account, Bytecode}

  -- `EvmState`
  abbrev pub EvmState : Type 0
  EvmState = List (Address × Account)

  pub record SpeculativeResult : Type 0 where
    pub output : Output
    pub state : EvmState
    pub deferred_reward : Option ℕ

  pub record TransactionResult : Type 0 where
    pub read_set : ReadSet keys revm
    pub write_set : List (Location Address)
    pub execute_result : Result (EvmError Invalid Fatal) SpeculativeResult

  pub data AbortReason : Type 0 where
    fatal_evm_error : ℕ → AbortReason
    commit_error : ℕ → Fatal → AbortReason
    parallel_error : ℕ → AbortReason
    fallback_sequential : AbortReason

  pub record Scheduler : Type 0 where
    pub block_size : ℕ
    pub tx_states : Cells TxState
    pub tx_results : Cells (Option TransactionResult)
    pub tx_dependency : TxDependency
    pub memory : Memory Address AccountInfo Bytecode
    pub ctx : SchedulerContext
    pub beneficiary : Address
    pub history : History AccountInfo
    pub aborted : Bool
    pub abort_reason : Option AbortReason

  -- `build`, and the beneficiary history of `parallel_execute_inner`.
  unfoldable pub build : ℕ → Address → Option AccountInfo → Scheduler
  build num_txs address anchor = record {
    block_size = num_txs;
    tx_states = filled num_txs (record { status = initial; incarnation = 0; dependency = none });
    tx_results = filled num_txs none;
    tx_dependency = Dependency.new num_txs;
    memory = λ _ _. none;
    ctx = Context.new num_txs;
    beneficiary = address;
    history = Beneficiary.new anchor num_txs;
    aborted = false;
    abort_reason = none;
  }

  -- The first cause is kept.
  unfoldable pub abort : Scheduler → AbortReason → Scheduler
  abort s reason = record s {
    aborted = true;
    abort_reason = elim s.abort_reason [ none ↦ some reason | some first ↦ some first ];
  }

  abbrev pub set_tx : Scheduler → ℕ → TxState → Scheduler
  set_tx s txid tx = record s { tx_states = put s.tx_states txid tx }

  abbrev pub set_status : Scheduler → ℕ → TransactionStatus → Scheduler
  set_status s txid status = set_tx s txid (record (s.tx_states.at txid) { status = status })

  abbrev pub rewind_validation : Scheduler → ℕ → Option Scheduler
  rewind_validation s index = do
    ctx ← Context.rewind_validation_to s.ctx index
    some (record s { ctx = ctx })

  -- `execution_task`
  unfoldable pub execution_task : Scheduler → ℕ → Option (Scheduler × Option Task)
  execution_task s execute_id = do
    tx ← cell s.tx_states execute_id
    let claim = some (
      set_tx s execute_id
          (record tx { status = executing; incarnation = usize_add tx.incarnation 1 }),
      some (execution (record { txid = execute_id; incarnation = usize_add tx.incarnation 1 })),
    )
    elim tx.status [
      | initial ↦ claim
      | conflict ↦ claim
      | executing ↦ some (s, none)
      | _ ↦ do
        (dependency, _) ← Dependency.remove s.tx_dependency execute_id false
        some (record s { tx_dependency = dependency }, none)
    ]

  -- `latest_unfinalized_blocker`
  pub latest_unfinalized_blocker : ℕ → List ℕ → Option ℕ
  latest_unfinalized_blocker finality_idx [] = none
  latest_unfinalized_blocker finality_idx (b ∷ bs) =
      let rest = latest_unfinalized_blocker finality_idx bs in
      if leb finality_idx b then some (max b (unwrap_or rest b)) else rest

  abbrev pub as_estimate : MemoryEntry AccountInfo Bytecode → MemoryEntry AccountInfo Bytecode
  as_estimate entry = record entry { estimate = true }

  abbrev pub mark_entry :
      Memory Address AccountInfo Bytecode
      → ℕ
      → Location Address
      → Memory Address AccountInfo Bytecode
  mark_entry memory txid l k writer =
      if location_eq keys l k && txid == writer
      then Option.map as_estimate (memory k writer)
      else memory k writer

  -- `mark_mv_estimate`
  unfoldable pub mark_mv_estimate :
      Memory Address AccountInfo Bytecode
      → ℕ
      → List (Location Address)
      → Memory Address AccountInfo Bytecode
  mark_mv_estimate memory txid [] = memory
  mark_mv_estimate memory txid (l ∷ ls) = mark_mv_estimate (mark_entry memory txid l) txid ls

  abbrev pub Evm : Type 0
  Evm =
      IncarnationDb keys revm
      → ℕ
      → IncarnationDb keys revm × Result (EvmError Invalid Fatal) SpeculativeResult

  abbrev pub Incarnation : Type 0
  Incarnation =
      IncarnationDb keys revm
      × Accesses keys revm
      × Result (EvmError Invalid Fatal) SpeculativeResult

  abbrev pub close_incarnation :
      IncarnationDb keys revm × Result (EvmError Invalid Fatal) SpeculativeResult → Incarnation
  close_incarnation (db, ok r) =
      let (db', accesses) = finish_incarnation keys revm db r.state in (db', accesses, ok r)
  close_incarnation (db, err e) =
      let (db', accesses) = discard_incarnation keys revm db in (db', accesses, err e)

  -- `execute_incarnation`, with the EVM's run over the database as an argument.
  unfoldable pub execute_incarnation : Evm → IncarnationDb keys revm → TxVersion → Incarnation
  execute_incarnation evm db version =
      close_incarnation (evm (begin_incarnation keys revm db version) version.txid)

  -- A worker's database at the start of an incarnation.
  abbrev pub worker_db : Scheduler → IncarnationDb keys revm
  worker_db s = record {
    address = s.beneficiary;
    history = s.history;
    memory = s.memory;
    read_set = [];
    account_snapshots = λ _. none;
    version = record { txid = 0; incarnation = 0 };
    blocking_txs = [];
    blocked_by_beneficiary = false;
  }
