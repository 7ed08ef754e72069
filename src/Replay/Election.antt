-- ===== src/Replay/Election.antt =====
-- src/scheduler/control.rs: which of the calls of a scheduler executes.
use grevm.Prelude.{ℕ, ◌-◌, ◌≡◌, ◌≢◌, ◌≤◌, true, false, none, some, update}
use grevm.Scheduler.{Machine}
use grevm.Commit.{Committed, Ledger}
use grevm.Replay.{GrevmError, custom}
use grevm.Replay.Once.{
  Once, Call, called, loaded, refused, elected, returned, unwound, Execution, run_once, Calls,
}

module _ (m : Machine) (c : Committed m) where
  abbrev pub Error : Type 0
  Error = GrevmError m.Invalid m.Fatal

  -- A call that has not been elected; what it reports, if it was refused, is an index of the block.
  abbrev pub Stands : ℕ → Call m c → Type 0
  Stands block_size called = Unit
  Stands block_size (loaded txid) = txid ≤ block_size - 1
  Stands block_size (refused error) = (txid : ℕ) × (error ≡ custom txid) × (txid ≤ block_size - 1)
  Stands block_size _ = ⊥

  -- Nor has it been refused.
  abbrev pub Asks : Call m c → Type 0
  Asks called = Unit
  Asks (loaded txid) = Unit
  Asks _ = ⊥

  -- The state behind the elected call: untouched before its execution, and what the execution makes of
  -- the first state after it.
  abbrev pub Elected : Execution m c → Ledger m c → Ledger m c → Call m c → Type 0
  Elected execute l l' elected = l' ≡ l
  Elected execute l l' (returned error) = execute l ≡ some (l', error)
  Elected execute l l' unwound = (l' ≡ l) × (execute l ≡ none)
  Elected execute l l' _ = ⊥

  pub record Open (block_size : ℕ) (l : Ledger m c) (r : Calls m c) : Type 0 where
    pub unstarted : r.once.started ≡ false
    pub untouched : r.once.ledger ≡ l
    pub asks : (i : ℕ) → Asks (r.at i)
    pub stands : (i : ℕ) → Stands block_size (r.at i)

  -- The call `w` executes, and no other does.
  pub record Won (block_size : ℕ) (execute : ℕ → Execution m c) (l : Ledger m c) (r : Calls m c)
      (w : ℕ) : Type 0 where
    pub started : r.once.started ≡ true
    pub elects : Elected (execute w) l r.once.ledger (r.at w)
    pub others : (i : ℕ) → i ≢ w → Stands block_size (r.at i)

  module _ (block_size : ℕ) (execute : ℕ → Execution m c) (l : Ledger m c) (r : Calls m c)
      (i committed_idx : ℕ) where
    abbrev after : Once m c → Call m c → Calls m c
    after s call = record { once = s; at = update r.at i call }

    abbrev Ran : Call m c → Once m c → Call m c → Type 0
    Ran x s call = run_once m c block_size committed_idx (execute i) x r.once ≡ (s, call)
