-- ===== src/Scheduler/Fresh.antt =====
-- src/scheduler.rs: what keeps the reads of a validated transaction current. Reads of the beneficiary,
-- which its history versions, are left aside here.
pub mod Calm
pub mod Clock
pub mod Core
pub mod Finish
pub mod Attempt
pub mod Execute
pub mod Failure
pub mod Passing
pub mod Validation
pub mod Conflict
pub mod Tasks
pub mod Runs
pub mod Serial
mod Tests
use grevm.Prelude.{ℕ, ◌≡◌, ◌≢◌, ◌≤◌, ◌<◌, Bool, true, false, none, some, All}
use grevm.Model.{TransactionStatus, initial, executing, unconfirmed, conflict, finality}
use grevm.Memory.{Location, Memory, MemoryEntry, IsLatest}
use grevm.IncarnationDb.{ReadVersion, mv_memory, beneficiary, backing}
use grevm.IncarnationDb.Publish.{contains_location}
use grevm.Scheduler.{Machine, Scheduler, TransactionResult}
use grevm.Scheduler.Execute.{previous_writes}
use grevm.Scheduler.Lifecycle.{status}

-- The transaction has no execution that counts.
abbrev pub is_open : TransactionStatus → Bool
is_open initial = true
is_open executing = true
is_open conflict = true
is_open _ = false

-- Its last validation has passed.
abbrev pub has_passed : TransactionStatus → Bool
has_passed unconfirmed = true
has_passed finality = true
has_passed _ = false

module _ (m : Machine) where
  open m use {keys, revm}
  open keys use {Address}
  open revm use {AccountInfo, Bytecode}

  -- A read of memory or of the database still gives what it gave to transaction `txid`.
  abbrev pub Stays :
      Memory Address AccountInfo Bytecode → ℕ → Location Address × ReadVersion → Type 0
  Stays memory txid (l, mv_memory v) =
      (entry : MemoryEntry AccountInfo Bytecode) × IsLatest (memory l) txid v.txid entry
      × (entry.estimate ≡ false)
      × (entry.incarnation ≡ v.incarnation)
  Stays memory txid (l, backing) = (w : ℕ) → w < txid → memory l w ≡ none
  Stays memory txid (l, beneficiary expected) = Unit {0}

  abbrev pub incarnation_of : Scheduler m → ℕ → ℕ
  incarnation_of s k = (s.tx_states.at k).incarnation

  abbrev pub recorded : Scheduler m → ℕ → ℕ
  recorded s k = (s.history.entries.at k).incarnation

  -- Its history already has an effect of this incarnation or a later one, so it will not complete.
  abbrev pub Stuck : Scheduler m → ℕ → Type 0
  Stuck s k = (status m s k ≡ executing) × (incarnation_of s k ≤ recorded s k)

  -- The transaction's entries are those of its last write set; without an execution that counts they
  -- are estimates.
  pub record Covers (s : Scheduler m) (k : ℕ) : Type 0 where
    pub covered :
        (l : Location Address)
        → contains_location keys revm (previous_writes m (s.tx_results.at k)) l ≡ true
        → s.memory l k ≢ none
    pub uncovered :
        (l : Location Address)
        → contains_location keys revm (previous_writes m (s.tx_results.at k)) l ≡ false
        → s.memory l k ≡ none
    pub estimates :
        (l : Location Address) (entry : MemoryEntry AccountInfo Bytecode)
        → is_open (status m s k) ≡ true
        → s.memory l k ≡ some entry
        → entry.estimate ≡ true

  -- Validated after every rewind that affects it.
  pub record Protected (s : Scheduler m) (i : ℕ) : Type 0 where
    pub passed : has_passed (status m s i) ≡ true
    pub after : (j : ℕ) → j ≤ i → s.ctx.lower_timestamps.at j < s.ctx.unconfirmed_timestamps.at i

  abbrev pub Current : Scheduler m → ℕ → Type 0
  Current s i =
      (result : TransactionResult m)
      → s.tx_results.at i ≡ some result
      → All (Stays s.memory i) result.read_set

  pub record Clocked (s : Scheduler m) : Type 0 where
    pub clock : (i : ℕ) → s.ctx.unconfirmed_timestamps.at i < s.ctx.logical_clock
    pub sized : (i : ℕ) → 0 < s.ctx.unconfirmed_timestamps.at i → i < s.ctx.num_txs
    pub len : s.ctx.unconfirmed_timestamps.len ≤ s.ctx.num_txs

  pub record Inv (s : Scheduler m) : Type 0 where
    pub clocked : Clocked s
    pub recorded_as : (k : ℕ) → is_open (status m s k) ≡ false → recorded s k ≡ incarnation_of s k
    pub covers : (k : ℕ) → status m s k ≢ finality → (Stuck s k → ⊥) → Covers s k
    pub current : (i : ℕ) → Protected s i → ((k : ℕ) → k < i → Stuck s k → ⊥) → Current s i
