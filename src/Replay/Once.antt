-- ===== src/Replay/Once.antt =====
-- src/scheduler/control.rs and src/scheduler.rs: the single execution of a scheduler.
use grevm.Prelude.{
  ℕ, ◌-◌, ◌≡◌, Bool, true, false, ◌&&◌, ◌||◌, Option, none, some, update, ltb, ◌==◌, if◌then◌else◌,
  is_empty, min, ◌>>=◌,
}
use grevm.Model.{ok, err}
use grevm.Scheduler.{Machine, Scheduler, fatal}
use grevm.Commit.{Committed, Ledger, end}
use grevm.Replay.{GrevmError, at_tx, custom, Transact, replay_suffix, post_execute}

module _ (m : Machine) (c : Committed m) where
  open m use {keys, Invalid, Fatal}
  open keys use {Address}

  -- What the threads of `parallel_execute_inner` leave once they are joined.
  pub record Joined : Type 0 where
    pub scheduler : Scheduler m
    pub committed : Ledger m c
    pub error : Option (ℕ × Fatal)

  -- The commit loop's output takes the place of the outcomes, which have to be none so far.
  unfoldable pub install_commit_loop_result :
      Joined → Ledger m c → Option (Ledger m c × Option (GrevmError Invalid Fatal))
  install_commit_loop_result joined l =
      if end m c joined.committed == joined.scheduler.ctx.committed && is_empty l.outcomes
      then some (
        joined.committed,
        elim joined.error [ none ↦ none | some (at, e) ↦ some (at_tx at (fatal e)) ],
      )
      else none

  -- `parallel_execute_inner`, with the configuration's test, and the threads as an argument.
  unfoldable pub parallel_execute_inner :
      Bool
      → ℕ
      → ℕ
      → Address
      → (Ledger m c → Option Joined)
      → Transact m c
      → Ledger m c
      → Option (Ledger m c × Option (GrevmError Invalid Fatal))
  unfolding install_commit_loop_result
  parallel_execute_inner force_sequential min_parallel_txs block_size beneficiary threads transact
        l =
      if force_sequential || ltb block_size min_parallel_txs
      then some (replay_suffix m c transact block_size 0 l)
      else (elim (c.basic_ref l.state beneficiary) [
        | err e ↦ some (l, some (at_tx 0 (fatal e)))
        | ok anchor ↦ (do
          joined ← threads l
          (installed, error) ← install_commit_loop_result joined l
          elim error [
            | some e ↦ some (installed, some e)
            | none ↦ some (post_execute m c transact joined.scheduler installed)
          ])
      ])

  -- `started`, and the committed state with the outcomes.
  pub record Once : Type 0 where
    pub started : Bool
    pub ledger : Ledger m c

  -- Where a call of `run_once` stands: before its load of the committed index, before its
  -- compare-exchange, with the index of a possible refusal, refused with an error, before its execution,
  -- returned with the execution's result, or unwound by a panic of it.
  pub data Call : Type 0 where
    called : Call
    loaded : ℕ → Call
    refused : GrevmError Invalid Fatal → Call
    elected : Call
    returned : Option (GrevmError Invalid Fatal) → Call
    unwound : Call

  -- The execution that a call would run, from the committed state on.
  abbrev pub Execution : Type 0
  Execution = Ledger m c → Option (Ledger m c × Option (GrevmError Invalid Fatal))

  -- `run_once`, from one access of shared data to the next; `committed_idx` is what a load finds.
  unfoldable pub run_once : ℕ → ℕ → Execution → Call → Once → Once × Call
  run_once block_size committed_idx execute called s =
      (s, loaded (min committed_idx (block_size - 1)))
  run_once block_size committed_idx execute (loaded txid) s =
      if s.started then (s, refused (custom txid)) else (record s { started = true }, elected)
  run_once block_size committed_idx execute (refused error) s = (s, refused error)
  run_once block_size committed_idx execute elected s = elim (execute s.ledger) [
    | none ↦ (s, unwound)
    | some (l, error) ↦ (record s { ledger = l }, returned error)
  ]
  run_once block_size committed_idx execute (returned error) s = (s, returned error)
  run_once block_size committed_idx execute unwound s = (s, unwound)

  -- Any number of calls, each with its own execution, and what they share.
  pub record Calls : Type 0 where
    pub once : Once
    pub at : ℕ → Call

  -- What calls of a new scheduler reach in any order of their accesses.
  pub data Reach (block_size : ℕ) (execute : ℕ → Execution) (l : Ledger m c) : Calls → Type 0 where
    begins :
        Reach block_size execute l
          (record { once = record { started = false; ledger = l }; at = λ i. called })
    steps :
        (r : Calls) (i committed_idx : ℕ) (s : Once) (call : Call)
        → Reach block_size execute l r
        → run_once block_size committed_idx (execute i) (r.at i) r.once ≡ (s, call)
        → Reach block_size execute l (record { once = s; at = update r.at i call })
