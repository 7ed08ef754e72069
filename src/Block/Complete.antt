-- ===== src/Block/Complete.antt =====
-- src/scheduler.rs: the boundaries of a block in any interleaving of its threads, and what is left when
-- the commit loop has returned.
use grevm.Prelude.{
  ℕ, ◌≡◌, ◌≤◌, Bool, true, Option, some, refl, arith, ◌∙◌, >>=-eq-some, inl, inr, subst, ◌⊎◌,
  leb→le, length,
}
use grevm.Context
use grevm.Scheduler.{Machine, Scheduler, build}
use grevm.Scheduler.Coordinate.{FinalityLoop, finalize}
use grevm.Scheduler.Stability.{Turn, Turn-Inv, build-Inv}
use grevm.Commit.{Committed, TxEnv, Ledger}
use grevm.Replay.{Progress, advanced, idle, stopped, commit_round}
use grevm.Replay.Rounds.{Settled, commit_round-Settled}
use grevm.Replay.Quiet.{IsQuiet, commit_round-Quiet}
use grevm.Block.{
  FinalityPhase, finalizing, CommitPhase, committing, returned, finality_step, commit_step,
  phase_after, Threads, spawn, Step, works, finalizes, commits, Reach, begins, steps,
}
use grevm.Block.Roles.{Follows, worker_step-Follows}
use grevm.Block.Turns.{finalize_cases}

module _ (m : Machine) (c : Committed m) where
  -- The boundaries of a block of `n` transactions.
  pub record Bounded (n : ℕ) (s : Scheduler m) (l : FinalityLoop) (k : Ledger m c) : Type 0 where
    pub size : s.block_size ≡ n
    pub stable : grevm.Scheduler.Stability.Inv m s l
    pub within : l.finality_idx ≤ n
    pub boundary : grevm.Replay.Rounds.Inv m c s k

  -- A loop leaves only after an abort, or at the end of the block.
  abbrev pub Left : ℕ → Scheduler m → ℕ → Type 0
  Left n s idx = (s.aborted ≡ true) ⊎ (n ≤ idx)

  pub record Inv (n : ℕ) (r : Threads m c) : Type 0 where
    pub bounded : Bounded n r.scheduler r.loop r.ledger
    pub finality : r.finality ≡ FinalityPhase.rested → Left n r.scheduler r.loop.finality_idx
    pub commit :
        (e : Option (ℕ × m.Fatal))
        → r.commit ≡ returned e
        → Left n r.scheduler (length r.ledger.outcomes)

  later_Left :
      (n idx later : ℕ) (s t : Scheduler m)
      → (s.aborted ≡ true → t.aborted ≡ true)
      → idx ≤ later
      → Left n s idx
      → Left n t later
  later_Left n idx later s t aborts le (inl h) = inl (aborts h)
  later_Left n idx later s t aborts le (inr h) = inr (omega (arith, h, le))

  works-Bounded :
      (n : ℕ) (s t : Scheduler m) (l : FinalityLoop) (k : Ledger m c)
      → Follows m s t
      → Bounded n s l k
      → Bounded n t l k
  works-Bounded n s t l k f v = record {
    size = f.size ∙ v.size;
    stable = f.stable l v.stable;
    within = v.within;
    boundary = record {
      published = f.committed ∙ v.boundary.published;
      bounded = ground (arith, f.finality, v.boundary.bounded);
    };
  }

  finalize-Bounded :
      (n : ℕ) (s t : Scheduler m) (l l' : FinalityLoop) (k : Ledger m c)
      → finalize m s l ≡ some (t, l')
      → Bounded n s l k
      → Bounded n t l' k × (t.aborted ≡ s.aborted) × (l.finality_idx ≤ l'.finality_idx)
  finalize-Bounded n s t l l' k e v =
      let (a, b, d, f) = finalize_cases m s t l l' e in
      (
        record {
          size = a ∙ v.size;
          stable = Turn-Inv m s t l l' (Turn.finalizes l' e) v.stable;
          within = ground (arith, f, v.within, v.size);
          boundary = record {
            published = b ∙ v.boundary.published;
            bounded = ground (arith, f, v.boundary.bounded, v.stable.published);
          };
        },
        d,
        ground (arith, f),
      )

  commit_round-Bounded :
      (n : ℕ) (txs : ℕ → TxEnv m.keys.Address) (disable : Bool) (s t : Scheduler m)
      (l : FinalityLoop) (k k' : Ledger m c) (p : Progress m c)
      → commit_round m c txs disable s k ≡ some (t, k', p)
      → Bounded n s l k
      → Bounded n t l k'
  commit_round-Bounded n txs disable s t l k k' p e v =
      let (a, b, d, f) = commit_round-Settled m c txs disable s k (t, k', p) v.boundary e in
      let q : IsQuiet m c s (t, k', p) = commit_round-Quiet m c txs disable s k (t, k', p) e in
      record {
        size = q.size ∙ v.size;
        stable = record {
          published = f ∙ v.stable.published;
          prefix = λ i h. ground (arith, d, v.stable.prefix i h);
          only = λ i h. ground (arith, d, v.stable.only i, h);
          carried = λ j h. ground (arith, q.lower, v.stable.carried j h);
          fresh = λ i j x y. ground (arith, q.lower, q.validated, v.stable.fresh i j x y);
        };
        within = v.within;
        boundary = a;
      }

  -- What a loop's turn from `s` and boundary `idx` leaves: the bounds, and a reason if it has returned.
  abbrev pub Turned : ℕ → Scheduler m → Scheduler m → FinalityLoop → Ledger m c → Type 0
  Turned n s t l k = Bounded n t l k × (s.aborted ≡ true → t.aborted ≡ true)

  finality_step-Turned :
      (n : ℕ) (s : Scheduler m) (l : FinalityLoop) (k : Ledger m c) (p : FinalityPhase)
      (t : Scheduler m) (l' : FinalityLoop) (q : FinalityPhase)
      → finality_step m p s l ≡ some (t, l', q)
      → Bounded n s l k
      → (p ≡ FinalityPhase.rested → Left n s l.finality_idx)
      → Turned n s t l' k × (q ≡ FinalityPhase.rested → Left n t l'.finality_idx)
  unfolding finality_step
  finality_step-Turned n s l k FinalityPhase.waiting t l' q e v left =
      let same : (t ≡ s) × (l' ≡ l) = ground arith in
      (
        (
          subst (λ (r : Scheduler m × FinalityLoop). Bounded n r.0 r.1 k) (ground (arith, same)) v,
          λ h. ground (arith, same, h),
        ),
        λ h. ground (arith, e, same, h, v.size, leb→le s.block_size l.finality_idx),
      )
  finality_step-Turned n s l k finalizing t l' q e v left =
      let ((t₁, l₁), p₁, q₁) = >>=-eq-some (finalize m s l) _ e in
      let (w, a, _) = finalize-Bounded n s t₁ l l₁ k p₁ v in
      let same : (t₁ ≡ t) × (l₁ ≡ l') = ground (arith, q₁) in
      (
        (
          subst (λ (r : Scheduler m × FinalityLoop). Bounded n r.0 r.1 k) (ground (arith, same)) w,
          λ h. ground (arith, same, a, h),
        ),
        λ h. ground (arith, q₁, h),
      )
  finality_step-Turned n s l k FinalityPhase.rested t l' q e v left =
      let same : (t ≡ s) × (l' ≡ l) = ground arith in
      (
        (
          subst (λ (r : Scheduler m × FinalityLoop). Bounded n r.0 r.1 k) (ground (arith, same)) v,
          λ h. ground (arith, same, h),
        ),
        λ h. ground (arith, same, left refl),
      )

  stopped_by :
      (p : Progress m c) (x : Option (ℕ × m.Fatal)) → phase_after m c p ≡ returned x → p ≡ stopped x
  stopped_by advanced x h = ground (arith, h)
  stopped_by idle x h = ground (arith, h)
  stopped_by (stopped e) x h = ground (arith, h)

  commit_step-Turned :
      (n : ℕ) (txs : ℕ → TxEnv m.keys.Address) (disable : Bool) (s : Scheduler m) (l : FinalityLoop)
      (k : Ledger m c) (p : CommitPhase m.Fatal) (t : Scheduler m) (k' : Ledger m c)
      (q : CommitPhase m.Fatal)
      → commit_step m c txs disable p s k ≡ some (t, k', q)
      → Bounded n s l k
      → ((e : Option (ℕ × m.Fatal)) → p ≡ returned e → Left n s (length k.outcomes))
      → Turned n s t l k'
        × ((e : Option (ℕ × m.Fatal)) → q ≡ returned e → Left n t (length k'.outcomes))
  unfolding commit_step
  commit_step-Turned n txs disable s l k CommitPhase.waiting t k' q e v left =
      let same : (t ≡ s) × (k' ≡ k) = ground arith in
      (
        (
          subst (λ (r : Scheduler m × Ledger m c). Bounded n r.0 l r.1) (ground (arith, same)) v,
          λ h. ground (arith, same, h),
        ),
        λ x h. ground (arith, e, same, h, v.size, leb→le s.block_size (length k.outcomes)),
      )
  commit_step-Turned n txs disable s l k committing t k' q e v left =
      let ((t₁, k₁, progress), p₁, q₁) = >>=-eq-some (commit_round m c txs disable s k) _ e in
      let w = commit_round-Bounded n txs disable s t₁ l k k₁ progress p₁ v in
      let quiet : IsQuiet m c s (t₁, k₁, progress) =
        commit_round-Quiet m c txs disable s k (t₁, k₁, progress) p₁ in
      let same : (t₁ ≡ t) × (k₁ ≡ k') × (phase_after m c progress ≡ q) = ground (arith, q₁) in
      (
        (
          subst (λ (r : Scheduler m × Ledger m c). Bounded n r.0 l r.1) (ground (arith, same)) w,
          λ h. ground (arith, same, quiet.aborts h),
        ),
        λ x h.
            let stop = quiet.stops x (stopped_by progress x (same.2 ∙ h)) in
            inl (ground (arith, same, stop)),
      )
  commit_step-Turned n txs disable s l k (returned error) t k' q e v left =
      let same : (t ≡ s) × (k' ≡ k) = ground arith in
      (
        (
          subst (λ (r : Scheduler m × Ledger m c). Bounded n r.0 l r.1) (ground (arith, same)) v,
          λ h. ground (arith, same, h),
        ),
        λ x h. ground (arith, same, left error refl),
      )

  Step-Inv :
      (n : ℕ) (txs : ℕ → TxEnv m.keys.Address) (disable : Bool) (r r' : Threads m c)
      → Step m c txs disable r r'
      → Inv n r
      → Inv n r'
  Step-Inv n txs disable r _ (works worker evm p q s e₀ e) v =
      let f : Follows m r.scheduler s = worker_step-Follows m evm p q r.scheduler s e in
      record {
        bounded = works-Bounded n r.scheduler s r.loop r.ledger f v.bounded;
        finality = λ h.
            later_Left n r.loop.finality_idx r.loop.finality_idx r.scheduler s f.aborts
              (omega arith) (v.finality h);
        commit = λ x h.
            later_Left n (length r.ledger.outcomes) (length r.ledger.outcomes) r.scheduler s
              f.aborts (omega arith) (v.commit x h);
      }
  Step-Inv n txs disable r _ (finalizes s l q e) v =
      let ((w, aborts), left) =
        finality_step-Turned n r.scheduler r.loop r.ledger r.finality s l q e v.bounded
          v.finality in
      record {
        bounded = w;
        finality = left;
        commit = λ x h.
            later_Left n (length r.ledger.outcomes) (length r.ledger.outcomes) r.scheduler s aborts
              (omega arith) (v.commit x h);
      }
  Step-Inv n txs disable r _ (commits s k q e) v =
      let ((w, aborts), left) =
        commit_step-Turned n txs disable r.scheduler r.loop r.ledger r.commit s k q e v.bounded
          v.commit in
      record {
        bounded = w;
        finality = λ h.
            later_Left n r.loop.finality_idx r.loop.finality_idx r.scheduler s aborts (omega arith)
              (v.finality h);
        commit = left;
      }

  spawn-Inv :
      (concurrency_level n : ℕ) (beneficiary : m.keys.Address) (anchor : Option m.revm.AccountInfo)
      (state : c.State)
      → Inv n (spawn m c concurrency_level n beneficiary anchor state)
  unfolding spawn build Context.new
  spawn-Inv concurrency_level n beneficiary anchor state = record {
    bounded = record {
      size = refl;
      stable = build-Inv m n beneficiary anchor;
      within = omega arith;
      boundary = record { published = refl; bounded = omega arith };
    };
    finality = λ h. ground (arith, h);
    commit = λ x h. ground (arith, h);
  }

  -- In any interleaving of the workers, the finality loop and the commit loop of a block: the outcomes
  -- end at the published commit boundary, which is at most the finality index, which is at most the
  -- block's size; the transactions before it are exactly the final ones; and a coordinator loop has
  -- returned only after an abort or at the end of the block.
  pub Threads-Inv :
      (txs : ℕ → TxEnv m.keys.Address) (disable : Bool) (concurrency_level n : ℕ)
      (beneficiary : m.keys.Address) (anchor : Option m.revm.AccountInfo) (state : c.State)
      (r : Threads m c)
      → Reach m c txs disable (spawn m c concurrency_level n beneficiary anchor state) r
      → Inv n r
  Threads-Inv txs disable level n beneficiary anchor state _ begins =
      spawn-Inv level n beneficiary anchor state
  Threads-Inv txs disable level n beneficiary anchor state r' (steps r _ before step) =
      Step-Inv n txs disable r r' step
        (Threads-Inv txs disable level n beneficiary anchor state r before)
