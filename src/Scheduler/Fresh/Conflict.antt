-- ===== src/Scheduler/Fresh/Conflict.antt =====
-- src/scheduler.rs: a validation task that finds a conflict.
use grevm.Prelude.{
  ℕ, ◌+◌, ◌≡◌, ◌≢◌, ◌<◌, Bool, true, false, not, Option, none, some, arith, inr, refl, ◌∙◌, ◌>>=◌,
  >>=-eq-some, usize_mod, if◌then◌else◌, cell,
}
use grevm.Model.{validating, conflict, TxVersion, Task}
use grevm.Context.{tick}
use grevm.Dependency
use grevm.Beneficiary
use grevm.Beneficiary.{History}
use grevm.Beneficiary.Recorded.{invalidate-incarnation}
use grevm.Scheduler.{
  Machine, Scheduler, TransactionResult, abort, parallel_error, mark_mv_estimate, set_tx,
  rewind_validation,
}
use grevm.Scheduler.Validate.{blocker}
use grevm.Scheduler.Entries.{mark-others}
use grevm.Scheduler.Lifecycle.{status}
use grevm.Scheduler.Fresh.{incarnation_of, Covers, Inv}
use grevm.Scheduler.Fresh.Calm.{Ticks-refl, Ticks-trans}
use grevm.Scheduler.Fresh.Clock.{rewind-Ticks, tick-Ticks, rewound}
use grevm.Scheduler.Fresh.Core.{Core}
use grevm.Scheduler.Fresh.Failure.{marked-Covers}
use grevm.Scheduler.Fresh.Finish.{rewind_effect}

module _ (m : Machine) where
  module _ (s : Scheduler m) (version : TxVersion) (v : Inv m s)
      (small : s.ctx.logical_clock + 2 < usize_mod) (running : status m s version.txid ≡ validating)
      (claimed_as : incarnation_of m s version.txid ≡ version.incarnation)
      (result : TransactionResult m) (stored : s.tx_results.at version.txid ≡ some result) where
    abbrev k : ℕ
    k = version.txid

    abbrev ticked : Scheduler m
    ticked = record s { ctx = (tick s.ctx).0 }

    abbrev marked : History m.revm.AccountInfo → Scheduler m
    marked h = record ticked {
      memory = mark_mv_estimate m s.memory k result.write_set;
      history = h;
    }

    -- The end of a conflict, after the rewind.
    abbrev conflicted : Option ℕ → Scheduler m → Option (Scheduler m × Option Task)
    conflicted dependency s₃ = do
      tx ← cell s₃.tx_states k
      let s₄ = set_tx m s₃ k (record tx { status = conflict; dependency = dependency })
      d ← Dependency.add s₄.tx_dependency k (blocker m s₄ dependency)
      some (record s₄ { tx_dependency = d }, none)

    conflicted_effect :
        (dependency : Option ℕ) (s₃ t : Scheduler m) (task : Option Task)
        → conflicted dependency s₃ ≡ some (t, task)
        → (t.memory ≡ s₃.memory)
          × (t.tx_results ≡ s₃.tx_results)
          × (t.history ≡ s₃.history)
          × (t.ctx ≡ s₃.ctx)
          × ((i : ℕ) → i ≢ k → t.tx_states.at i ≡ s₃.tx_states.at i)
          × (status m t k ≡ conflict)
    conflicted_effect dependency s₃ t task e =
        let (tx, p, q) = >>=-eq-some (cell s₃.tx_states k) _ e in
        let s₄ : Scheduler m =
          set_tx m s₃ k (record tx { status = conflict; dependency = dependency }) in
        let (d, p₁, q₁) =
          >>=-eq-some (Dependency.add s₄.tx_dependency k (blocker m s₄ dependency)) _ q in
        (
          ground (arith, q₁),
          ground (arith, q₁),
          ground (arith, q₁),
          ground (arith, q₁),
          λ i h. ground (arith, q₁, h),
          ground (arith, q₁),
        )

    abbrev after_invalidate :
        Option ℕ → History m.revm.AccountInfo → Bool → Option (Scheduler m × Option Task)
    after_invalidate dependency h current =
        if not current
        then some (abort m (marked h) (parallel_error k), none)
        else (do s₃ ← rewind_validation m (marked h) (k + 1); conflicted dependency s₃)

    pub conflict-Core :
        (dependency : Option ℕ) (h : History m.revm.AccountInfo) (current : Bool) (t : Scheduler m)
        (task : Option Task)
        → Beneficiary.invalidate s.history version ≡ some (h, current)
        → after_invalidate dependency h current ≡ some (t, task)
        → Core m s t k
    conflict-Core dependency h false t task e q = absurd (
        (invalidate-incarnation s.history h version false e).1 refl
          (v.recorded_as k (ground (arith, running)) ∙ claimed_as))
    conflict-Core dependency h true t task e q =
        let (s₃, p, q₁) = >>=-eq-some (rewind_validation m (marked h) (k + 1)) _ q in
        let (c, p₁, q₂) = rewind_effect m (marked h) s₃ (k + 1) p in
        let (a, b, d, f, g, x) = conflicted_effect dependency s₃ t task q₁ in
        let same_ctx : t.ctx ≡ c = ground (arith, f, q₂) in
        let x₁ = tick-Ticks s.ctx (omega (arith, small)) in
        let small₁ : (tick s.ctx).0.logical_clock + 1 < usize_mod = ground (arith, small) in
        let (y, _, _) = rewind-Ticks (k + 1) (tick s.ctx).0 c small₁ p₁ in
        let memory : t.memory ≡ mark_mv_estimate m s.memory k result.write_set =
          ground (arith, a, q₂) in
        let results : t.tx_results ≡ s.tx_results = ground (arith, b, q₂) in
        let covers : Covers m s k =
          v.covers k (λ z. ground (arith, running, z)) (λ z. ground (arith, running, z.0)) in
        record {
          memory = λ l w z. ground (arith, memory, mark-others m result.write_set s.memory k l w z);
          results = λ i z. ground (arith, results);
          states = λ i z. ground (arith, g i z, q₂);
          histories =
              λ i z. ground (arith, d, q₂, (invalidate-incarnation s.history h version true e).0 i);
          not_final = λ z. ground (arith, running, z);
          not_passed = ground (arith, x);
          ticks =
              Ticks-trans s.ctx (tick s.ctx).0 t.ctx x₁
                (Ticks-trans (tick s.ctx).0 c t.ctx y (Ticks-refl c t.ctx same_ctx));
          outcome = inr (
            (λ z. ground (arith, running, z.0)),
            (λ z. absurd (ground (arith, x, z))),
            marked-Covers m s t k result.write_set covers memory (ground (arith, results))
                (ground (arith, stored)),
            (λ i lt p₂. absurd (
                rewound m s t (tick s.ctx).0 c (k + 1) i v.clocked x₁ small₁ p₁
                  (Ticks-refl c t.ctx same_ctx) (omega (arith, lt)) p₂)),
          );
        }
