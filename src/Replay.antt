-- ===== src/Replay.antt =====
-- src/scheduler.rs, src/scheduler/control.rs and src/scheduler/fallback.rs: the commit loop, what
-- happens to the block after it, and sequential replay of the suffix. A failed assertion is `none`.
pub mod Suffix
pub mod Rounds
pub mod Once
pub mod Election
pub mod Quiet
pub mod Transact
mod Tests
use grevm.Prelude.{
  ℕ, zero, suc, ◌+◌, ◌-◌, ◌≡◌, ◌≢◌, ◌≤◌, ◌<◌, ◌%◌, ◌^◌, Bool, true, false, not, ◌&&◌, ◌||◌, Option,
  none, some, List, [], ◌∷◌, ◌++◌, refl, arith, Cells, Option-cases, ap, ◌∙◌, sym, ltb, leb, ◌==◌,
  if◌then◌else◌, ◌⊎◌, inl, inr, update, put, cell, filled, Bool-cases, ◌>>=◌, >>=-eq-some, length,
  get_elem?, length-append, contains, insert, is_none, is_some_eq, unwrap_or, is_empty, All, subst,
  map, min, max, usize_mod, usize_add, ltb→lt, lt→ltb, leb→le, ◌↔◌, ==_iff, fun_ext, cell-eq-some,
}
use grevm.Model.{Result, ok, err}
use grevm.Dependency
use grevm.Context
use grevm.Scheduler.{
  EvmError, transaction, fatal, Machine, SpeculativeResult, TransactionResult, AbortReason,
  fatal_evm_error, commit_error, parallel_error, fallback_sequential, Scheduler, abort,
}
use grevm.Commit.{
  Committed, Outcome, executed, skipped, TxEnv, CommitOutcome, committed, needs_sequential_fallback,
  failed, Ledger, end, commit_result,
}

-- `GrevmError`; a `custom` one is a mismatch that the code reports itself.
pub data GrevmError (Invalid Fatal : Type 0) : Type 0 where
  at_tx : ℕ → EvmError Invalid Fatal → GrevmError Invalid Fatal
  custom : ℕ → GrevmError Invalid Fatal

module _ (m : Machine) (c : Committed m) where
  open m use {keys, revm, Output, Invalid, Fatal}
  open keys use {Address}

  -- What one round of the commit loop leaves: it goes on, waits, or has returned.
  pub data Progress : Type 0 where
    advanced : Progress
    idle : Progress
    stopped : Option (ℕ × Fatal) → Progress

  -- What `run_commit_loop` does with the outcome of a commit.
  pub settle :
      Scheduler m
      → ℕ
      → Ledger m c × CommitOutcome Fatal
      → Option (Scheduler m × Ledger m c × Progress)
  settle s txid (l, committed next) = do
    d ← Dependency.commit s.tx_dependency txid
    some (record s { ctx = Context.publish_commit s.ctx next; tx_dependency = d }, l, advanced)
  settle s txid (l, needs_sequential_fallback) =
      some (abort m s fallback_sequential, l, stopped none)
  settle s txid (l, failed at e) = some (abort m s (commit_error at e), l, stopped (some (at, e)))

  -- A stored result, which has to be an execution's.
  pub commit_executed :
      TxEnv Address
      → Bool
      → Scheduler m
      → Ledger m c
      → Result (EvmError Invalid Fatal) (SpeculativeResult m)
      → Option (Scheduler m × Ledger m c × Progress)
  unfolding settle
  commit_executed tx disable_nonce_check s l (err e) =
      some (abort m s (parallel_error (end m c l)), l, stopped none)
  commit_executed tx disable_nonce_check s l (ok result) =
      commit_result m c s.beneficiary disable_nonce_check (end m c l) tx result l
      >>= settle s (end m c l)

  pub commit_stored :
      TxEnv Address
      → Bool
      → Scheduler m
      → Ledger m c
      → Option (TransactionResult m)
      → Option (Scheduler m × Ledger m c × Progress)
  unfolding commit_executed
  commit_stored tx disable_nonce_check s l none =
      some (abort m s (parallel_error (end m c l)), l, stopped none)
  commit_stored tx disable_nonce_check s l (some r) =
      commit_executed tx disable_nonce_check s l r.execute_result

  -- One round of the inner loop of `run_commit_loop`, with `commit_idx` the ledger's end.
  unfoldable pub commit_round :
      (ℕ → TxEnv Address)
      → Bool
      → Scheduler m
      → Ledger m c
      → Option (Scheduler m × Ledger m c × Progress)
  unfolding commit_stored
  commit_round txs disable_nonce_check s l =
      if not (ltb (end m c l) s.ctx.finality) then some (s, l, idle) else (do
        stored ← cell s.tx_results (end m c l)
        let s₁ = record s { tx_results = put s.tx_results (end m c l) none }
        commit_stored (txs (end m c l)) disable_nonce_check s₁ l stored)

  -- The sequential run of one transaction on the committed state, by revm.
  abbrev pub Transact : Type 0
  Transact = c.State → ℕ → Result (EvmError Invalid Fatal) (Output × c.State)

  -- `execute_sequential_suffix` over `left` transactions from `txid`, with the outcomes so far.
  pub execute_suffix :
      Transact → ℕ → ℕ → Ledger m c → Ledger m c × Option (GrevmError Invalid Fatal)
  execute_suffix transact zero txid l = (l, none)
  execute_suffix transact (suc left) txid l = elim (transact l.state txid) [
    | ok (output, state) ↦
        execute_suffix transact left (suc txid)
          (record { state = state; outcomes = l.outcomes ++ executed output ∷ [] })
    | err (transaction e) ↦
        execute_suffix transact left (suc txid)
          (record l { outcomes = l.outcomes ++ skipped e ∷ [] })
    | err (fatal e) ↦ (l, some (at_tx txid (fatal e)))
  ]

  -- `replay_uncommitted_suffix`
  unfoldable pub replay_suffix :
      Transact → ℕ → ℕ → Ledger m c → Ledger m c × Option (GrevmError Invalid Fatal)
  unfolding execute_suffix
  replay_suffix transact block_size start l =
      if ltb block_size start || not (length l.outcomes == start)
      then (l, some (custom (min start (block_size - 1))))
      else (if start == block_size
          then (l, none)
          else execute_suffix transact (block_size - start) start l)

  -- The stored error of a transaction, if its result is one.
  abbrev pub stored_error : Option (TransactionResult m) → Option (EvmError Invalid Fatal)
  stored_error none = none
  stored_error (some r) = elim r.execute_result [ ok x ↦ none | err e ↦ some e ]

  -- `self.tx_results.get(txid)`
  abbrev pub error_at : Scheduler m → ℕ → Option (EvmError Invalid Fatal)
  error_at s txid = do stored ← cell s.tx_results txid; stored_error stored

  -- `post_execute`
  unfoldable pub post_execute :
      Transact → Scheduler m → Ledger m c → Ledger m c × Option (GrevmError Invalid Fatal)
  unfolding replay_suffix
  post_execute transact s l = if not s.aborted then (l, none) else elim s.abort_reason [
    | none ↦ replay_suffix transact s.block_size (end m c l) l
    | some (fatal_evm_error txid) ↦ elim (error_at s txid) [
      | some e ↦ (l, some (at_tx txid e))
      | none ↦ replay_suffix transact s.block_size (end m c l) l
    ]
    | some (commit_error txid e) ↦ (l, some (at_tx txid (fatal e)))
    | some (parallel_error txid) ↦ replay_suffix transact s.block_size (end m c l) l
    | some fallback_sequential ↦ replay_suffix transact s.block_size (end m c l) l
  ]
