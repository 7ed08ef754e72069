-- ===== src/Scheduler/Fresh/Serial.antt =====
-- src/scheduler.rs: what final transactions have read, in any interleaving of the roles.
use grevm.Prelude.{ℕ, ◌+◌, ◌≡◌, ◌<◌, All, Option, some, arith, refl, sym, subst, usize_mod}
use grevm.Context
use grevm.Beneficiary
use grevm.IncarnationDb.Publish.{contains_location}
use grevm.Scheduler.{Machine, Scheduler, TransactionResult, build}
use grevm.Scheduler.Coordinate.{FinalityLoop}
use grevm.Scheduler.Stability.{
  Turn, executes, validates, claims_validation, claims_execution, schedules, finalizes, Turn-Inv,
  build-Inv,
}
use grevm.Scheduler.Fresh.{Inv, Stays}
use grevm.Scheduler.Fresh.Calm.{Calm-Inv, Calm-same}
use grevm.Scheduler.Fresh.Clock.{should_schedule-Ticks}
use grevm.Scheduler.Fresh.Validation.{validate-Inv}
use grevm.Scheduler.Fresh.Tasks.{IsReader, execute_task-Inv}
use grevm.Scheduler.Fresh.Runs.{claim_validation_effect, claim_execution_effect, finalize_effect}

module _ (m : Machine) where
  -- The EVM of an execution only reads the memory.
  abbrev pub Reads : (s t : Scheduler m) (l k : FinalityLoop) → Turn m s l t k → Type 0
  Reads s t l k (executes evm version task e) = IsReader m evm
  Reads s t l k _ = Unit {0}

  turn_Inv :
      (s t : Scheduler m) (l k : FinalityLoop) (e : Turn m s l t k)
      → Reads s t l k e
      → s.ctx.logical_clock + 2 < usize_mod
      → Inv m s
      → Inv m t
  turn_Inv s t l _ (executes evm version task e) reads small v =
      execute_task-Inv m evm s t version task reads v small e
  turn_Inv s t l _ (validates version task e) reads small v =
      validate-Inv m s t version task v small e
  turn_Inv s t l _ (claims_validation task e) reads small v =
      Calm-Inv m s t (claim_validation_effect m s t task e) v
  turn_Inv s t l _ (claims_execution task e) reads small v =
      Calm-Inv m s t (claim_execution_effect m s t task e) v
  turn_Inv s t l _ (schedules idx ctx scheduled e same) reads small v = subst (Inv m) (sym same) (
      Calm-Inv m s (record s { ctx = ctx })
        (Calm-same m s (record s { ctx = ctx }) refl refl refl refl
          (should_schedule-Ticks idx s.ctx ctx scheduled e))
        v)
  turn_Inv s t l _ (finalizes k e) reads small v = Calm-Inv m s t (finalize_effect m s t l k e) v

  -- What the roles reach from a new scheduler while the logical clock stays below 2^64.
  pub data Timely (num_txs : ℕ) (address : m.keys.Address) (anchor : Option m.revm.AccountInfo)
      : Scheduler m → FinalityLoop → Type 0 where
    starts :
        Timely num_txs address anchor
          (build m num_txs address anchor)
          (record { finality_idx = 0; lower_ts = 0 })
    turns :
        (s t : Scheduler m) (l k : FinalityLoop)
        → Timely num_txs address anchor s l
        → (e : Turn m s l t k) → Reads s t l k e
        → s.ctx.logical_clock + 2 < usize_mod
        → Timely num_txs address anchor t k

  starts_well :
      (num_txs : ℕ) (address : m.keys.Address) (anchor : Option m.revm.AccountInfo)
      → Inv m (build m num_txs address anchor)
  unfolding build Context.new Beneficiary.new contains_location
  starts_well n address anchor = record {
    clocked = record {
      clock = λ i. omega arith;
      sized = λ i h. omega (arith, h);
      len = omega arith;
    };
    recorded_as = λ k h. ground (arith, h);
    covers = λ k h f. record {
      covered = λ l h. ground (arith, h);
      uncovered = λ l h. refl;
      estimates = λ l entry o e. ground (arith, e);
    };
    current = λ i p f result e. ground (arith, e);
  }

  both :
      (num_txs : ℕ) (address : m.keys.Address) (anchor : Option m.revm.AccountInfo)
      (s : Scheduler m) (l : FinalityLoop)
      → Timely num_txs address anchor s l
      → Inv m s × grevm.Scheduler.Stability.Inv m s l
  both n address anchor _ _ starts = (starts_well n address anchor, build-Inv m n address anchor)
  both n address anchor t k (turns s _ l _ r e reads small) =
      let (v, w) = both n address anchor s l r in
      (turn_Inv s t l k e reads small v, Turn-Inv m s t l k e w)

  -- In every interleaving of execution tasks, validation tasks, claims and finality rounds from a new
  -- scheduler, with EVMs that only read the memory, and as long as the logical clock does not wrap:
  -- what a final transaction has read of the memory and of the database is what it would read now.
  -- Each entry that it took is still the newest of the preceding transactions, of the same incarnation
  -- and no estimate, and where it read the database there is still no preceding entry.
  pub Timely-Stays :
      (num_txs : ℕ) (address : m.keys.Address) (anchor : Option m.revm.AccountInfo)
      (s : Scheduler m) (l : FinalityLoop) (i : ℕ) (result : TransactionResult m)
      → Timely num_txs address anchor s l
      → i < l.finality_idx
      → s.tx_results.at i ≡ some result
      → All (Stays m s.memory i) result.read_set
  Timely-Stays n address anchor s l i result r lt e =
      let (v, w) = both n address anchor s l r in
      v.current i
        (record { passed = ground (arith, w.prefix i lt); after = λ j h. w.fresh i j h lt })
        (λ k h stuck. ground (arith, w.prefix k (omega (arith, h, lt)), stuck.0)) result e
