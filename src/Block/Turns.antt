-- ===== src/Block/Turns.antt =====
-- src/scheduler.rs: what a turn of the finality loop and of the commit loop leaves alone.
use grevm.Prelude.{suc, ◌≡◌, ◌<◌, some, arith, ◌⊎◌}
use grevm.Scheduler.{Machine, Scheduler}
use grevm.Scheduler.Coordinate.{FinalityLoop, finalize, finality_candidate}

module _ (m : Machine) where
  -- The finality loop moves by one candidate, within the block.
  pub finalize_cases :
      (s t : Scheduler m) (l k : FinalityLoop)
      → finalize m s l ≡ some (t, k)
      → (t.block_size ≡ s.block_size)
        × (t.ctx.committed ≡ s.ctx.committed)
        × (t.aborted ≡ s.aborted)
        × (((t.ctx.finality ≡ s.ctx.finality) × (k.finality_idx ≡ l.finality_idx))
            ⊎ ((t.ctx.finality ≡ suc l.finality_idx)
                × (k.finality_idx ≡ suc l.finality_idx)
                × (l.finality_idx < s.block_size)))
  unfolding finalize finality_candidate
  finalize_cases s t l k e = ground arith
