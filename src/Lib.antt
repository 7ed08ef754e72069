-- ===== src/Lib.antt =====
-- The parallel block executor of grevm: Block-STM scheduling, multi-version memory, the deferred
-- rewards of the beneficiary, ordered commit and sequential recovery.
--
-- Parts and files. `Dependency` is src/tx_dependency.rs: the graph of who waits for whom, with the
-- cursor of executions. `Model` is src/model.rs and `Account` src/account.rs. `Beneficiary` is
-- src/beneficiary/history.rs and `DeferredBeneficiaryReward::apply_to` of src/beneficiary/reward.rs;
-- `Reward` is the rest of that file, the reward's amount and the two modes of paying it.
-- `Context` is src/scheduler/cursor.rs and src/scheduler/context.rs: validation cursor, execution
-- frontier, logical clock, rewind and validation timestamps, published boundaries. `Memory` and
-- `IncarnationDb` are the multi-version memory of src/model.rs and the reads and writes of one
-- incarnation in src/incarnation_db.rs. `Scheduler` is src/scheduler.rs with `abort` of
-- src/scheduler/control.rs and `execute_incarnation` of src/scheduler/executor.rs: `Execute` is
-- `execute_task`, `Validate` is `validate` and the two halves of `next`, `Coordinate` is
-- `run_finality_loop` with `lock_finality_candidate`. `Commit` is src/scheduler/ordered_commit.rs.
-- `Replay` is `run_commit_loop`, `post_execute` and src/scheduler/fallback.rs, with `Once` the calls
-- of `run_once`, which race for the one execution, and `parallel_execute_inner`, whose joined threads
-- are an argument. `Reserve` is the
-- planner of src/delegated_safety/reserve.rs, and `Reserve.Journal` its scan of revm's journal;
-- `Handler` is the reserve check of src/delegated_safety/handler.rs, between the hooks of revm's
-- handler. `ParallelState` is src/parallel_state.rs: `Cache` the cached accounts and slots and what a
-- committed transaction does to them, `View` the loads of workers and of ordered commit, `Balances`
-- the balance changes of a block. `Bundle` is src/bundle.rs, `Precompile` is
-- src/precompile.rs, and `Wait` is src/scheduler/wait.rs, whose waits and notifications interleave in
-- `Reach` of `Wait.Wakeup`.
-- `Block` is the threads of `parallel_execute_inner` in src/scheduler.rs: `run_worker` with `next`,
-- `run_finality_loop` and `run_commit_loop` as machines that interleave in its `Reach`. `Config` is
-- src/config.rs and src/delegated_safety/config.rs, with `new_with_runtime_config` of
-- src/scheduler.rs and `build_evm` and `GrevmExecutor::new` of src/scheduler/executor.rs, and
-- `Config.Create` the guarded CREATE of src/delegated_safety/instructions.rs. `Handler.Run` is the
-- choice of the handler and its output, `Replay.Transact` the run of a transaction of the suffix, with
-- `reject_nonce_overflow`. `Scheduler.Fresh` is about the turns of workers on the reads of validated
-- transactions, and `Scheduler.Separate` and `Block.Rewards` about the rewards that results defer
-- until they are committed. `Prelude` holds what they share.
--
-- How they interact. A worker's turn is `claim_validation` or `claim_execution` (the halves of
-- `next`), then `execute_task` or `validate`; it reads and writes the memory through
-- `IncarnationDb`, publishes the beneficiary's entry in the history, keeps the graph, and rewinds the
-- validation cursor. The finality loop turns validated transactions final in order; the commit loop
-- follows it, applies their results and releases those that wait for a commit; after an abort the
-- rest of the block is replayed in order. Workers read the committed state by the loads of
-- `ParallelState.View`, which fill the cache that ordered commit changes at the same time. An
-- execution runs under `Handler`, which asks the planner for the reserve of each delegated account
-- that the journal shows debited; a custom precompile sees the journal by `Precompile` only. At the
-- end of a block `Bundle` turns the transitions that the commits made into a bundle.
--
-- State and errors. A struct is a record, shared state is passed explicitly, and a panic (an index
-- out of range, a failed assertion) is `none`; an abort is the scheduler's `aborted` and its reason.
-- A method under its locks is one atomic call, and interleavings are sequences of calls: `Reach` of
-- `Dependency.Progress`, `Grows` of `Beneficiary.Freshness`, `Run` of `Context.Cursor`, where a claim
-- may have loaded any earlier value and its exchange may fail, `Reach` of `Context.Race`, where the
-- publications and reads of the execution frontier interleave access by access, `Reach` of
-- `Replay.Once`, likewise for the calls of a scheduler, and `Reach` of `Scheduler.Stability`,
-- where a worker may run a task on any version, also a stale one. Whole worker turns are atomic
-- there: the code holds the transaction's lock for a turn, and the parts that it shares with others
-- without that lock are covered by the relations of their own modules. In `Block` the worker's loop,
-- the finality loop and the commit loop are cut into steps where another thread may act: a turn of a
-- task, a candidate, a commit. A load of the cache is two
-- accesses, with the database asked in between: its first one sees the cache `seen`, its last one the
-- cache `now`, and anything may have happened between them. A storage load looks its slot and its
-- account up in the same `seen`, although the code reads the one after the other.
--
-- Numbers. `usize` counters wrap at 2^64 (`usize_add`); `U256` is a number below 2^256, whose
-- checked and saturating sums are written out. The entries of a location of the memory are a
-- function from transactions; a `HashSet` is a list in any order; a `HashMap` by address is a
-- function or an association list.
--
-- Fuel. `advance` of the frontier runs on `rounds`: the round after the first finds the frontier
-- where it stopped, and out of fuel it gives `none`. `claimed_by` of `Dependency.Progress` takes as many calls of `next`
-- as its fuel says, which has to pass the transaction's distance from the cursor. All else is
-- structural. The logical clock is a counter below 2^64: `Scheduler.Fresh` bounds it before each turn,
-- as a turn adds at most two.
--
-- Parameters. revm's account types are `Accounts` of `Revm`, with the laws of a field write; the EVM
-- is the argument `Evm` of `execute_task` and `Transact` of the replay; the backing database is
-- `Database`; the committed state is `Committed`, with no law assumed. The calls of revm that the
-- handler makes are `Hooks`, with the gas and fees of `RewardContext`; the account statuses of
-- revm_database are `StateTypes`, whose laws say when an account's storage is known, its transitions
-- `Transitions`, its bundle types `BundleTypes` and its merge into a bundle that is not empty an
-- argument; the journal of a precompile is `EvmInternals`, and an implementation is a tree of the
-- operations that it asks for. revm's handler is `Driver`, with the law `IsFaithful` that only the
-- hooks write the reward; the EVM of the suffix is `SequentialEvm`; the forks are `Specs`, the
-- process's variables `Environment`, and the contexts of CREATE `CreateContext` with the law
-- `IsCreate`. In `Scheduler.Fresh` an EVM reads the memory as `IsReader` says and is otherwise
-- arbitrary. The samples under `Sample` and in the tests instantiate them.
--
-- Not modelled: the conversion `as_cache_state`, block hashes, `merge_transitions` and the histograms
-- of src/parallel_state.rs, the spawning and joining of threads with their panic payloads, metrics and
-- tracing. They are calls of revm, input and output, or carry no state of the scheduler; the rest is
-- left for an extension of the library.
pub mod Prelude
pub mod Dependency
pub mod Model
pub mod Revm
pub mod Reward
pub mod Handler
pub mod Precompile
pub mod Wait
pub mod Block
pub mod Config
pub mod Account
pub mod Beneficiary
pub mod Context
pub mod Memory
pub mod IncarnationDb
pub mod Scheduler
pub mod Commit
pub mod ParallelState
pub mod Bundle
pub mod Replay
pub mod Reserve
