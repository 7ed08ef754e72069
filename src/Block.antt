-- ===== src/Block.antt =====
-- src/scheduler.rs: the threads of `parallel_execute_inner`: the workers' loop with `next`, the finality
-- loop and the commit loop, each as a machine whose steps are the code between two points at which other
-- threads may act. Waits and yields carry no state and are left out. A panic is `none`.
pub mod Roles
pub mod Turns
pub mod Complete
pub mod Rewards
pub mod Outcomes
pub mod Sample
mod Tests
use grevm.Prelude.{
  ℕ, Bool, ◌||◌, Option, none, some, [], leb, ◌==◌, if◌then◌else◌, Cells, filled, put, cell, ◌>>=◌,
  ◌≡◌,
}
use grevm.Model.{Task, execution, validation}
use grevm.Context
use grevm.Scheduler.{Machine, Scheduler, Evm, build}
use grevm.Scheduler.Execute.{execute_task}
use grevm.Scheduler.Validate.{validate, claim_validation, claim_execution}
use grevm.Scheduler.Coordinate.{FinalityLoop, finalize}
use grevm.Commit.{Committed, TxEnv, Ledger, end}
use grevm.Replay.{Progress, advanced, idle, stopped, commit_round}

-- A worker asks `next` for a task, tries the second half of that loop, has a task, or has returned.
pub data WorkerPhase : Type 0 where
  asking claiming : WorkerPhase
  working : Task → WorkerPhase
  rested : WorkerPhase

-- The finality loop stands at its outer test or in its inner loop, or has returned.
pub data FinalityPhase : Type 0 where
  waiting finalizing rested : FinalityPhase

-- Likewise the commit loop, with the error that it returned.
pub data CommitPhase (Fatal : Type 0) : Type 0 where
  waiting committing : CommitPhase Fatal
  returned : Option (ℕ × Fatal) → CommitPhase Fatal

module _ (m : Machine) where
  abbrev pub run_task : Evm m → Scheduler m → Task → Option (Scheduler m × Option Task)
  run_task evm s (execution version) = execute_task m evm s version
  run_task evm s (validation version) = validate m s version

  -- The validation half of a round of `next`.
  abbrev pub ask : Scheduler m → Option (Scheduler m × WorkerPhase)
  ask s = do
    (ctx, _) ← Context.should_schedule s.ctx s.tx_dependency.index
    (s₁, claim) ← claim_validation m (record s { ctx = ctx })
    some (s₁, elim claim [ some task ↦ working task | none ↦ claiming ])

  -- `run_worker`, and the loop of `next` in it.
  unfoldable pub worker_step :
      Evm m → WorkerPhase → Scheduler m → Option (Scheduler m × WorkerPhase)
  worker_step evm asking s =
      if Context.finished s.ctx || s.aborted then some (s, WorkerPhase.rested) else ask s
  worker_step evm claiming s = do
    (s₁, claim) ← claim_execution m s
    some (s₁, elim claim [ some task ↦ working task | none ↦ asking ])
  worker_step evm (working task) s = do
    (s₁, next) ← run_task evm s task
    some (
      s₁,
      elim next [
        | some task₁ ↦ working task₁
        | none ↦ if s₁.aborted then WorkerPhase.rested else asking
      ],
    )
  worker_step evm WorkerPhase.rested s = some (s, WorkerPhase.rested)

  -- `run_finality_loop`
  unfoldable pub finality_step :
      FinalityPhase
      → Scheduler m
      → FinalityLoop
      → Option (Scheduler m × FinalityLoop × FinalityPhase)
  finality_step FinalityPhase.waiting s l = some (
    s,
    l,
    if s.aborted || leb s.block_size l.finality_idx then FinalityPhase.rested else finalizing,
  )
  finality_step finalizing s l = do
    (s₁, l₁) ← finalize m s l
    some (s₁, l₁, if l₁.finality_idx == l.finality_idx then FinalityPhase.waiting else finalizing)
  finality_step FinalityPhase.rested s l = some (s, l, FinalityPhase.rested)

  module _ (c : Committed m) where
    abbrev pub phase_after : Progress m c → CommitPhase m.Fatal
    phase_after advanced = committing
    phase_after idle = CommitPhase.waiting
    phase_after (stopped error) = returned error

    -- `run_commit_loop`
    unfoldable pub commit_step :
        (ℕ → TxEnv m.keys.Address)
        → Bool
        → CommitPhase m.Fatal
        → Scheduler m
        → Ledger m c
        → Option (Scheduler m × Ledger m c × CommitPhase m.Fatal)
    commit_step txs disable_nonce_check CommitPhase.waiting s l =
        some (s, l, if s.aborted || leb s.block_size (end m c l) then returned none else committing)
    commit_step txs disable_nonce_check committing s l = do
      (s₁, l₁, progress) ← commit_round m c txs disable_nonce_check s l
      some (s₁, l₁, phase_after progress)
    commit_step txs disable_nonce_check (returned error) s l = some (s, l, returned error)

    -- The threads, and what they share.
    pub record Threads : Type 0 where
      pub scheduler : Scheduler m
      pub loop : FinalityLoop
      pub ledger : Ledger m c
      pub workers : Cells WorkerPhase
      pub finality : FinalityPhase
      pub commit : CommitPhase m.Fatal

    -- The threads when they are spawned.
    unfoldable pub spawn : ℕ → ℕ → m.keys.Address → Option m.revm.AccountInfo → c.State → Threads
    spawn concurrency_level block_size beneficiary anchor state = record {
      scheduler = build m block_size beneficiary anchor;
      loop = record { finality_idx = 0; lower_ts = 0 };
      ledger = record { state = state; outcomes = [] };
      workers = filled concurrency_level asking;
      finality = FinalityPhase.waiting;
      commit = CommitPhase.waiting;
    }

    -- A thread takes its turn. What the EVM reads of the committed state may differ from run to run.
    pub data Step (txs : ℕ → TxEnv m.keys.Address) (disable_nonce_check : Bool) (r : Threads)
        : Threads → Type 0 where
      works :
          (worker : ℕ) (evm : Evm m) (p q : WorkerPhase) (s : Scheduler m)
          → cell r.workers worker ≡ some p
          → worker_step evm p r.scheduler ≡ some (s, q)
          → Step txs disable_nonce_check r
              (record r { scheduler = s; workers = put r.workers worker q })
      finalizes :
          (s : Scheduler m) (l : FinalityLoop) (q : FinalityPhase)
          → finality_step r.finality r.scheduler r.loop ≡ some (s, l, q)
          → Step txs disable_nonce_check r (record r { scheduler = s; loop = l; finality = q })
      commits :
          (s : Scheduler m) (l : Ledger m c) (q : CommitPhase m.Fatal)
          → commit_step txs disable_nonce_check r.commit r.scheduler r.ledger ≡ some (s, l, q)
          → Step txs disable_nonce_check r (record r { scheduler = s; ledger = l; commit = q })

    -- What the threads reach from `start` in any order of their turns.
    pub data Reach (txs : ℕ → TxEnv m.keys.Address) (disable_nonce_check : Bool) (start : Threads)
        : Threads → Type 0 where
      begins : Reach txs disable_nonce_check start start
      steps :
          (r r' : Threads)
          → Reach txs disable_nonce_check start r
          → Step txs disable_nonce_check r r'
          → Reach txs disable_nonce_check start r'
