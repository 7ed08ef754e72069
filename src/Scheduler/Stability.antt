-- ===== src/Scheduler/Stability.antt =====
-- src/scheduler.rs: the finalized prefix under interleavings of worker tasks and finality rounds.
use grevm.Prelude.{
  ℕ, suc, Bool, ◌≡◌, ◌≢◌, ◌≤◌, ◌<◌, Option, some, refl, arith, ◌∙◌, sym, ◌==◌, if◌then◌else◌, ◌⊎◌,
  inl, inr, subst, max,
}
use grevm.Model.{TransactionStatus, TxVersion, Task}
use grevm.Context
use grevm.Context.{SchedulerContext}
use grevm.Scheduler.{Machine, Scheduler, Evm, build}
use grevm.Scheduler.Execute.{execute_task}
use grevm.Scheduler.Validate.{validate, claim_validation, claim_execution}
use grevm.Scheduler.Coordinate.{FinalityLoop, finalize, finality_candidate}
use grevm.Context.Keeps.{should_schedule-KeepsLower}
use grevm.Scheduler.Lifecycle.{status, Frame, ctx-Frame}
use grevm.Scheduler.Frames.{execute_task-Frame, execute_task-running}
use grevm.Scheduler.ClaimFrames.{
  validate-Frame, validate-running, claim_validation-Frame, claim_execution-Frame,
}

module _ (m : Machine) where
  abbrev pub lower : Scheduler m → ℕ → ℕ
  lower s j = s.ctx.lower_timestamps.at j

  abbrev pub validated_at : Scheduler m → ℕ → ℕ
  validated_at s i = s.ctx.unconfirmed_timestamps.at i

  pub record Inv (s : Scheduler m) (l : FinalityLoop) : Type 0 where
    pub published : s.ctx.finality ≡ l.finality_idx
    pub prefix : (i : ℕ) → i < l.finality_idx → status m s i ≡ TransactionStatus.finality
    pub only : (i : ℕ) → status m s i ≡ TransactionStatus.finality → i < l.finality_idx
    pub carried : (j : ℕ) → j < l.finality_idx → lower s j ≤ l.lower_ts
    pub fresh : (i j : ℕ) → j ≤ i → i < l.finality_idx → lower s j < validated_at s i

  -- A worker's task on a transaction that is not final, or one that changes no timestamp.
  Frame-Inv :
      (txid : ℕ) (s t : Scheduler m) (l : FinalityLoop)
      → l.finality_idx ≤ txid
      → Frame m txid s t
      → Inv s l
      → Inv t l
  Frame-Inv txid s t l le f v = record {
    published = f.finality ∙ v.published;
    prefix = λ i h. f.kept i (v.prefix i h);
    only = λ i h. v.only i (f.fresh i h);
    carried = λ j h. omega (arith, f.lower j (omega arith), v.carried j h);
    fresh = λ i j a b. omega (arith, f.lower j (omega arith), f.validated i, v.fresh i j a b);
  }

  finalize_cases :
      (s t : Scheduler m) (l k : FinalityLoop)
      → finalize m s l ≡ some (t, k)
      → ((t ≡ s) × (k ≡ l))
        ⊎ ((k.finality_idx ≡ suc l.finality_idx)
            × (k.lower_ts ≡ max l.lower_ts (lower s l.finality_idx))
            × (max l.lower_ts (lower s l.finality_idx) < validated_at s l.finality_idx)
            × (t.ctx.finality ≡ suc l.finality_idx)
            × (t.ctx.lower_timestamps ≡ s.ctx.lower_timestamps)
            × (t.ctx.unconfirmed_timestamps ≡ s.ctx.unconfirmed_timestamps)
            × ((i : ℕ)
                → status m t i
                  ≡ (if l.finality_idx == i then TransactionStatus.finality else status m s i)))
  unfolding finalize finality_candidate
  finalize_cases s t l k e = ground arith

  finalize-Inv :
      (s t : Scheduler m) (l k : FinalityLoop) → finalize m s l ≡ some (t, k) → Inv s l → Inv t k
  finalize-Inv s t l k e v = elim (finalize_cases s t l k e) [
    | inl (a, b) ↦ subst (λ (p : Scheduler m × FinalityLoop). Inv p.0 p.1) (ground (arith, a, b)) v
    | inr (a, b, c, d, e, f, g) ↦ record {
      published = d ∙ sym a;
      prefix = λ i h. ground (arith, g i, v.prefix i);
      only = λ i h. ground (arith, g i, v.only i);
      carried = λ j h. ground (arith, v.carried j);
      fresh = λ i j x y. ground (arith, v.fresh i j x, v.carried j);
    }
  ]

  pub data Turn (s : Scheduler m) (l : FinalityLoop) (t : Scheduler m) : FinalityLoop → Type 0 where
    executes :
        (evm : Evm m) (version : TxVersion) (task : Option Task)
        → execute_task m evm s version ≡ some (t, task)
        → Turn s l t l
    validates :
        (version : TxVersion) (task : Option Task)
        → validate m s version ≡ some (t, task)
        → Turn s l t l
    claims_validation : (task : Option Task) → claim_validation m s ≡ some (t, task) → Turn s l t l
    claims_execution : (task : Option Task) → claim_execution m s ≡ some (t, task) → Turn s l t l
    schedules :
        (idx : ℕ) (ctx : SchedulerContext) (scheduled : Bool)
        → Context.should_schedule s.ctx idx ≡ some (ctx, scheduled)
        → t ≡ record s { ctx = ctx }
        → Turn s l t l
    finalizes : (k : FinalityLoop) → finalize m s l ≡ some (t, k) → Turn s l t k

  open_behind :
      (s : Scheduler m) (l : FinalityLoop) (txid : ℕ)
      → Inv s l
      → status m s txid ≢ TransactionStatus.finality
      → l.finality_idx ≤ txid
  open_behind s l txid v o = ground (arith, v.prefix txid, o)

  pub Turn-Inv : (s t : Scheduler m) (l k : FinalityLoop) → Turn s l t k → Inv s l → Inv t k
  Turn-Inv s t l _ (executes evm version task e) v =
      elim (execute_task-running m evm s t version task e) [
        | inl same ↦ subst (λ (u : Scheduler m). Inv u l) (sym same) v
        | inr running ↦
            Frame-Inv version.txid s t l
              (open_behind s l version.txid v (λ h. ground (arith, running)))
              (execute_task-Frame m evm s t version task e) v
      ]
  Turn-Inv s t l _ (validates version task e) v = elim (validate-running m s t version task e) [
    | inl same ↦ subst (λ (u : Scheduler m). Inv u l) (sym same) v
    | inr running ↦
        Frame-Inv version.txid s t l (open_behind s l version.txid v (λ h. ground (arith, running)))
          (validate-Frame m s t version task e) v
  ]
  Turn-Inv s t l _ (claims_validation task e) v =
      Frame-Inv l.finality_idx s t l (omega arith)
        (claim_validation-Frame m l.finality_idx s t task e) v
  Turn-Inv s t l _ (claims_execution task e) v =
      Frame-Inv l.finality_idx s t l (omega arith)
        (claim_execution-Frame m l.finality_idx s t task e) v
  Turn-Inv s t l _ (schedules idx ctx scheduled e same) v =
      subst (λ (u : Scheduler m). Inv u l) (sym same)
        (Frame-Inv l.finality_idx s (record s { ctx = ctx }) l (omega arith)
          (ctx-Frame m l.finality_idx s ctx
            (should_schedule-KeepsLower l.finality_idx idx s.ctx ctx scheduled e))
          v)
  Turn-Inv s t l _ (finalizes k e) v = finalize-Inv s t l k e v

  -- What the roles reach from a new scheduler, in any order of their turns.
  pub data Reach (num_txs : ℕ) (address : m.keys.Address) (anchor : Option m.revm.AccountInfo)
      : Scheduler m → FinalityLoop → Type 0 where
    start :
        Reach num_txs address anchor
          (build m num_txs address anchor)
          (record { finality_idx = 0; lower_ts = 0 })
    turn :
        (s t : Scheduler m) (l k : FinalityLoop)
        → Reach num_txs address anchor s l
        → Turn s l t k
        → Reach num_txs address anchor t k

  pub build-Inv :
      (num_txs : ℕ) (address : m.keys.Address) (anchor : Option m.revm.AccountInfo)
      → Inv (build m num_txs address anchor) (record { finality_idx = 0; lower_ts = 0 })
  unfolding build Context.new
  build-Inv n address anchor = record {
    published = refl;
    prefix = λ i h. ground (arith, h);
    only = λ i h. ground (arith, h);
    carried = λ j h. omega (arith, h);
    fresh = λ i j a b. omega (arith, b);
  }

  -- In every interleaving of execution tasks, validation tasks, claims and finality rounds from a new
  -- scheduler: the final transactions are exactly those before the finality index, which is published
  -- as the boundary; and each of them was validated at a timestamp later than that of every rewind
  -- recorded at its index or an earlier one, also of those recorded after it became final.
  pub Reach-finalized :
      (num_txs : ℕ) (address : m.keys.Address) (anchor : Option m.revm.AccountInfo)
      (s : Scheduler m) (l : FinalityLoop)
      → Reach num_txs address anchor s l
      → Inv s l
  Reach-finalized n address anchor _ _ start = build-Inv n address anchor
  Reach-finalized n address anchor t k (turn s _ l _ r e) =
      Turn-Inv s t l k e (Reach-finalized n address anchor s l r)
