-- ===== src/Block/Outcomes.antt =====
-- src/scheduler.rs and src/scheduler/control.rs: the outcomes of a block that has been executed.
use grevm.Prelude.{
  ℕ, ◌≡◌, ◌≤◌, ◌<◌, Bool, true, false, ◌||◌, Option, none, some, [], refl, arith, Bool-cases, ◌>>=◌,
  inl, inr, subst, Option-cases, ltb, length, sym,
}
use grevm.Model.{ok, err, Result}
use grevm.Scheduler.{
  fatal, Machine, Scheduler, AbortReason, fatal_evm_error, commit_error, parallel_error,
  fallback_sequential,
}
use grevm.Commit.{Committed, TxEnv, Ledger}
use grevm.Replay.{GrevmError, at_tx, custom, Transact, replay_suffix, post_execute}
use grevm.Replay.Suffix.{Replayed, replay_suffix-Replayed}
use grevm.Replay.Once.{Joined, parallel_execute_inner, install_commit_loop_result}
use grevm.Block.{WorkerPhase, FinalityPhase, returned, Threads, spawn, Reach}
use grevm.Block.Complete.{Inv, Threads-Inv}

module _ (m : Machine) (c : Committed m) where
  -- Every transaction of a block of `n` has its outcome, or there is an error.
  abbrev pub Complete : ℕ → Ledger m c × Option (GrevmError m.Invalid m.Fatal) → Type 0
  Complete n (l, none) = length l.outcomes ≡ n
  Complete n (l, some e) = length l.outcomes ≤ n

  Replayed-Complete :
      (n : ℕ) (l : Ledger m c) (r : Ledger m c × Option (GrevmError m.Invalid m.Fatal))
      → Replayed m c l n r
      → Complete n r
  Replayed-Complete n l (l', none) x = x.reaches
  Replayed-Complete n l (l', some (at_tx txid e)) (x, lt, y) = omega (arith, x.reaches, lt)
  Replayed-Complete n l (l', some (custom txid)) x = absurd x

  replay_suffix-Complete :
      (transact : Transact m c) (n : ℕ) (l : Ledger m c)
      → length l.outcomes ≤ n
      → Complete n (replay_suffix m c transact n (length l.outcomes) l)
  replay_suffix-Complete transact n l le =
      Replayed-Complete n l _ (replay_suffix-Replayed m c transact n l le)

  post_execute-Complete :
      (transact : Transact m c) (s : Scheduler m) (l : Ledger m c)
      → length l.outcomes ≤ s.block_size
      → (s.aborted ≡ false → s.block_size ≤ length l.outcomes)
      → Complete s.block_size (post_execute m c transact s l)
  unfolding post_execute
  post_execute-Complete transact s l le full = elim (Bool-cases s.aborted) [
    | inr running ↦ stays running (ground (arith, running))
    | inl aborted ↦ by_reason s.abort_reason refl aborted
  ]
    where
      Goal : Type 0
      Goal = Complete s.block_size (post_execute m c transact s l)

      replays :
          post_execute m c transact s l
            ≡ replay_suffix m c transact s.block_size (length l.outcomes) l
          → Goal
      replays e =
          subst (Complete s.block_size) (sym e) (replay_suffix-Complete transact s.block_size l le)

      reports :
          (e : GrevmError m.Invalid m.Fatal) → post_execute m c transact s l ≡ (l, some e) → Goal
      reports x e = subst (Complete s.block_size) (sym e) le

      stays : s.aborted ≡ false → post_execute m c transact s l ≡ (l, none) → Goal
      stays running e = subst (Complete s.block_size) (sym e) (ground (arith, le, full running))

      by_reason : (r : Option (AbortReason m)) → s.abort_reason ≡ r → s.aborted ≡ true → Goal
      by_reason none h aborted = replays (ground (arith, h, aborted))
      by_reason (some (parallel_error txid)) h aborted = replays (ground (arith, h, aborted))
      by_reason (some fallback_sequential) h aborted = replays (ground (arith, h, aborted))
      by_reason (some (commit_error txid e)) h aborted =
          reports (at_tx txid (fatal e)) (ground (arith, h, aborted))
      by_reason (some (fatal_evm_error txid)) h aborted =
          elim (Option-cases (grevm.Replay.error_at m c s txid)) [
            | inl lost ↦ replays (ground (arith, h, aborted, lost))
            | inr (e, kept) ↦ reports (at_tx txid e) (ground (arith, h, aborted, kept))
          ]

  -- What the joined threads of a block hand over.
  pub data Joins (txs : ℕ → TxEnv m.keys.Address) (disable : Bool) (start : Threads m c)
      : Joined m c → Type 0 where
    joins :
        (r : Threads m c) (error : Option (ℕ × m.Fatal))
        → Reach m c txs disable start r
        → ((i : ℕ) → i < r.workers.len → r.workers.at i ≡ WorkerPhase.rested)
        → r.finality ≡ FinalityPhase.rested
        → r.commit ≡ returned error
        → Joins txs disable start
            (record { scheduler = r.scheduler; committed = r.ledger; error = error })

  -- The commit loop's result is installed, and the block is finished from there.
  abbrev pub finish_block :
      Transact m c
      → Joined m c
      → Ledger m c
      → Option (Ledger m c × Option (GrevmError m.Invalid m.Fatal))
  finish_block transact joined l = do
    (installed, failure) ← install_commit_loop_result m c joined l
    elim failure [
      | some e ↦ some (installed, some e)
      | none ↦ some (post_execute m c transact joined.scheduler installed)
    ]

  abbrev pub fresh : c.State → Ledger m c
  fresh state = record { state = state; outcomes = [] }

  -- Something is returned, and it is complete.
  abbrev pub Finishes : ℕ → Option (Ledger m c × Option (GrevmError m.Invalid m.Fatal)) → Type 0
  Finishes n o =
      (result : Ledger m c × Option (GrevmError m.Invalid m.Fatal)) × (o ≡ some result)
      × Complete n result

  finish_block-Finishes :
      (transact : Transact m c) (n : ℕ) (state : c.State) (r : Threads m c)
      (error : Option (ℕ × m.Fatal))
      → Inv m c n r
      → r.commit ≡ returned error
      → Finishes n (
          finish_block transact
            (record { scheduler = r.scheduler; committed = r.ledger; error = error })
            (fresh state))
  unfolding install_commit_loop_result
  finish_block-Finishes transact n state r (some (at, e)) v h = (
    (r.ledger, some (at_tx at (fatal e))),
    ground (arith, v.bounded.boundary.published),
    omega (arith, v.bounded.boundary.bounded, v.bounded.stable.published, v.bounded.within),
  )
  finish_block-Finishes transact n state r none v h = (
    post_execute m c transact r.scheduler r.ledger,
    ground (arith, v.bounded.boundary.published),
    subst (λ (size : ℕ). Complete size (post_execute m c transact r.scheduler r.ledger))
        v.bounded.size
        (post_execute-Complete transact r.scheduler r.ledger
          (omega (
            arith, v.bounded.boundary.bounded, v.bounded.stable.published, v.bounded.within,
            v.bounded.size,
          ))
          (λ running. ground (arith, running, v.commit none h, v.bounded.size))),
  )

  -- A block of `n` transactions on a new scheduler: if its threads hand over what some interleaving of
  -- them reaches when all have returned, or run sequentially, `parallel_execute` returns, and each of
  -- the `n` transactions has its outcome, or there is an error and no transaction has more than one.
  pub parallel_execute_inner-Finishes :
      (txs : ℕ → TxEnv m.keys.Address) (disable force_sequential : Bool)
      (concurrency_level min_parallel_txs n : ℕ) (beneficiary : m.keys.Address)
      (threads : Ledger m c → Option (Joined m c)) (transact : Transact m c) (state : c.State)
      → ((anchor : Option m.revm.AccountInfo)
          → c.basic_ref state beneficiary ≡ ok anchor
          → (joined : Joined m c) × (threads (fresh state) ≡ some joined)
            × Joins txs disable (spawn m c concurrency_level n beneficiary anchor state) joined)
      → Finishes n (
          parallel_execute_inner m c force_sequential min_parallel_txs n beneficiary threads
            transact
            (fresh state))
  unfolding parallel_execute_inner
  parallel_execute_inner-Finishes txs disable force_sequential level min_txs n beneficiary threads
        transact state runs =
      elim (Bool-cases (force_sequential || ltb n min_txs)) [
        | inl sequential ↦ (
          replay_suffix m c transact n 0 (fresh state),
          ground (arith, sequential),
          replay_suffix-Complete transact n (fresh state) (omega arith),
        )
        | inr parallel ↦ from_anchor (c.basic_ref state beneficiary) refl parallel
      ]
    where
      Goal : Type 0
      Goal = Finishes n (
          parallel_execute_inner m c force_sequential min_txs n beneficiary threads transact
            (fresh state))

      from_anchor :
          (r : Result m.Fatal (Option m.revm.AccountInfo))
          → c.basic_ref state beneficiary ≡ r
          → force_sequential || ltb n min_txs ≡ false
          → Goal
      from_anchor (err e) h parallel =
          ((fresh state, some (at_tx 0 (fatal e))), ground (arith, h, parallel), omega arith)
      from_anchor (ok anchor) h parallel =
          let (joined, e, j) = runs anchor h in
          let (result, finished, complete) = joined-Finishes joined j in
          (result, ground (arith, h, parallel, e, finished), complete)
        where
          joined-Finishes :
              (joined : Joined m c)
              → Joins txs disable (spawn m c level n beneficiary anchor state) joined
              → Finishes n (finish_block transact joined (fresh state))
          joined-Finishes _ (joins r error reach workers finality commit) =
              finish_block-Finishes transact n state r error
                (Threads-Inv m c txs disable level n beneficiary anchor state r reach) commit
