-- ===== src/Scheduler/Validate.antt =====
-- src/scheduler.rs: `validate` and `next`.
use grevm.Prelude.{
  ℕ, ◌+◌, Bool, true, false, not, ◌||◌, Option, none, some, [], ◌∷◌, leb, ◌==◌, if◌then◌else◌, cell,
  ◌>>=◌, max,
}
use grevm.Revm.{Accounts}
use grevm.Model.{executed, validating, unconfirmed, conflict, TxVersion, Task, validation, ok, err}
use grevm.Dependency
use grevm.Context
use grevm.Context.{tick}
use grevm.Beneficiary
use grevm.Beneficiary.{History, Validation}
use grevm.Memory.{Location, Memory, MemoryEntry, Keys, latest_before}
use grevm.IncarnationDb.{ReadVersion, mv_memory, beneficiary, backing, ReadSet}
use grevm.Scheduler.{
  Machine, TransactionResult, parallel_error, Scheduler, abort, set_tx, set_status,
  rewind_validation, execution_task, mark_mv_estimate,
}

-- A read's check: whether it conflicts, and the predecessor that it depends on.
abbrev pub Check : Type 0
Check = Bool × Option ℕ

module _ (keys : Keys) (revm : Accounts) where
  open keys use {Address}
  open revm use {AccountInfo, Bytecode}

  -- The latest preceding entry must be the one that was read, and no estimate.
  abbrev pub check_entry : ReadVersion → ℕ × MemoryEntry AccountInfo Bytecode → Bool
  check_entry (mv_memory v) (previous, entry) =
      entry.estimate || not (v.txid == previous) || not (v.incarnation == entry.incarnation)
  check_entry (beneficiary vs) (previous, entry) = true
  check_entry backing (previous, entry) = true

  abbrev pub is_backing : ReadVersion → Bool
  is_backing backing = true
  is_backing _ = false

  abbrev pub check_latest : ReadVersion → Option (ℕ × MemoryEntry AccountInfo Bytecode) → Check
  check_latest version none = (not (is_backing version), none)
  check_latest version (some (previous, entry)) =
      (check_entry version (previous, entry), some previous)

  abbrev pub check_history : Option Validation → Option Check
  check_history none = none
  check_history (some v) = some (not v.valid, v.dependency)

  unfoldable pub check_read :
      Memory Address AccountInfo Bytecode
      → History AccountInfo
      → ℕ
      → Location Address × ReadVersion
      → Option Check
  check_read memory history txid (l, beneficiary expected) =
      check_history (Beneficiary.validate history txid expected)
  check_read memory history txid (l, mv_memory v) =
      some (check_latest (mv_memory v) (latest_before (memory l) txid))
  check_read memory history txid (l, backing) =
      some (check_latest backing (latest_before (memory l) txid))

  abbrev pub later_dependency : Option ℕ → Option ℕ → Option ℕ
  later_dependency dependency none = dependency
  later_dependency none (some previous) = some previous
  later_dependency (some d) (some previous) = some (max d previous)

  -- The scan of the read set.
  unfoldable pub check_reads :
      Memory Address AccountInfo Bytecode
      → History AccountInfo
      → ℕ
      → ReadSet keys revm
      → Check
      → Option Check
  unfolding check_read
  check_reads memory history txid [] check = some check
  check_reads memory history txid (read ∷ reads) (conflicted, dependency) = do
    (c, d) ← check_read memory history txid read
    check_reads memory history txid reads (conflicted || c, later_dependency dependency d)

module _ (m : Machine) where
  open m use {keys, revm}

  -- A dependency that is not final yet.
  abbrev pub blocker : Scheduler m → Option ℕ → Option ℕ
  blocker s none = none
  blocker s (some dep) = if leb s.ctx.finality dep then some dep else none

  -- A scan that found a conflict.
  unfoldable pub validate_conflict :
      Scheduler m → TxVersion → TransactionResult m → Option ℕ → Option (Scheduler m × Option Task)
  validate_conflict s version result dependency = do
    let s₁ = record s { memory = mark_mv_estimate m s.memory version.txid result.write_set }
    (history, current) ← Beneficiary.invalidate s.history version
    let s₂ = record s₁ { history = history }
    if not current then some (abort m s₂ (parallel_error version.txid), none) else (do
      s₃ ← rewind_validation m s₂ (version.txid + 1)
      tx ← cell s₃.tx_states version.txid
      let s₄ = set_tx m s₃ version.txid (record tx { status = conflict; dependency = dependency })
      d ← Dependency.add s₄.tx_dependency version.txid (blocker s₄ dependency)
      some (record s₄ { tx_dependency = d }, none))

  -- A scan that found none; `timestamp` was taken before it.
  unfoldable pub validate_pass :
      Scheduler m → TxVersion → ℕ → Option ℕ → Option (Scheduler m × Option Task)
  validate_pass s version timestamp dependency = do
    ctx ← Context.unconfirmed s.ctx version.txid timestamp
    tx ← cell s.tx_states version.txid
    some (
      set_tx m (record s { ctx = ctx }) version.txid
          (record tx { status = unconfirmed; dependency = dependency }),
      none,
    )

  unfoldable pub validate_result :
      Scheduler m → TxVersion → TransactionResult m → Option (Scheduler m × Option Task)
  unfolding validate_conflict validate_pass
  validate_result s version result = elim result.execute_result [
    | err e ↦ some (abort m s (parallel_error version.txid), none)
    | ok r ↦ do
      let (ctx, timestamp) = tick s.ctx
      let s₁ = record s { ctx = ctx }
      (conflicted, dependency) ←
          check_reads keys revm s.memory s.history version.txid result.read_set (false, none)
      if conflicted
          then validate_conflict s₁ version result dependency
          else validate_pass s₁ version timestamp dependency
  ]

  unfoldable pub validate : Scheduler m → TxVersion → Option (Scheduler m × Option Task)
  unfolding validate_result
  validate s version = do
    tx ← cell s.tx_states version.txid
    stored ← cell s.tx_results version.txid
    elim tx.status [
      | validating ↦
          if not (tx.incarnation == version.incarnation)
          then some (abort m s (parallel_error version.txid), none)
          else elim stored [
            | none ↦ some (abort m s (parallel_error version.txid), none)
            | some result ↦ validate_result s version result
          ]
      | _ ↦ some (s, none)
    ]

  -- The validation half of one round of `next`.
  unfoldable pub claim_validation : Scheduler m → Option (Scheduler m × Option Task)
  claim_validation s = do
    (ctx, claim) ← Context.next_validation_idx s.ctx s.tx_dependency.index
    let s₁ = record s { ctx = ctx }
    elim claim [
      | none ↦ some (s₁, none)
      | some idx ↦ do
        tx ← cell s₁.tx_states idx
        let task = some (
          set_status m s₁ idx validating,
          some (validation (record { txid = idx; incarnation = tx.incarnation })),
        )
        elim tx.status [ executed ↦ task | unconfirmed ↦ task | _ ↦ some (s₁, none) ]
    ]

  -- The execution half.
  unfoldable pub claim_execution : Scheduler m → Option (Scheduler m × Option Task)
  claim_execution s = do
    (d, claim) ← Dependency.next s.tx_dependency
    let s₁ = record s { tx_dependency = d }
    elim claim [ none ↦ some (s₁, none) | some idx ↦ execution_task m s₁ idx ]

  -- One round of the loop of `next`, whose guard is that the block is neither finished nor aborted.
  unfoldable pub next_round : Scheduler m → Option (Scheduler m × Option Task)
  unfolding claim_validation claim_execution
  next_round s = if Context.finished s.ctx || s.aborted then some (s, none) else (do
    (ctx, _) ← Context.should_schedule s.ctx s.tx_dependency.index
    (s₁, task) ← claim_validation (record s { ctx = ctx })
    elim task [ some t ↦ some (s₁, some t) | none ↦ claim_execution s₁ ])
