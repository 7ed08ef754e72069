-- ===== src/Scheduler/Coordinate.antt =====
-- src/scheduler.rs: the finality loop. A round of it is atomic under the lock of its candidate.
use grevm.Prelude.{
  ℕ, suc, Bool, true, false, ◌&&◌, ◌||◌, Option, none, some, ltb, leb, if◌then◌else◌, cell, ◌>>=◌,
  max,
}
use grevm.Model.{TransactionStatus, unconfirmed, finality}
use grevm.Context
use grevm.Scheduler.{Machine, Scheduler, set_status}

-- The locals of `run_finality_loop`.
pub record FinalityLoop : Type 0 where
  pub finality_idx : ℕ
  pub lower_ts : ℕ

abbrev pub is_unconfirmed : TransactionStatus → Bool
is_unconfirmed unconfirmed = true
is_unconfirmed _ = false

module _ (m : Machine) where
  -- `lock_finality_candidate`: the rewind bound that the candidate has passed.
  unfoldable pub finality_candidate : Scheduler m → FinalityLoop → Option (Option ℕ)
  finality_candidate s l =
      if leb s.block_size l.finality_idx || leb s.ctx.validation l.finality_idx
      then some none
      else (do
        tx ← cell s.tx_states l.finality_idx
        lower ← cell s.ctx.lower_timestamps l.finality_idx
        validated ← cell s.ctx.unconfirmed_timestamps l.finality_idx
        let effective = max l.lower_ts lower
        some (if is_unconfirmed tx.status && ltb effective validated then some effective else none))

  -- The body of the inner loop of `run_finality_loop`.
  unfoldable pub finalize : Scheduler m → FinalityLoop → Option (Scheduler m × FinalityLoop)
  unfolding finality_candidate
  finalize s l = do
    candidate ← finality_candidate s l
    some (elim candidate [
      | none ↦ (s, l)
      | some effective ↦
          let s₁ = set_status m s l.finality_idx finality in
          (
            record s₁ { ctx = Context.publish_finality s₁.ctx (suc l.finality_idx) },
            record { finality_idx = suc l.finality_idx; lower_ts = effective },
          )
    ])
