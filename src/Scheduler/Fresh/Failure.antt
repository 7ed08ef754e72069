-- ===== src/Scheduler/Fresh/Failure.antt =====
-- src/scheduler.rs: an execution task that ends in an error of the EVM.
use grevm.Prelude.{
  ℕ, ◌+◌, ◌≡◌, ◌≢◌, ◌<◌, Bool, true, false, not, Option, none, some, List, [], arith, ◌⊎◌, inl, inr,
  refl, sym, ◌∙◌, subst, Bool-cases, Option-cases, ◌>>=◌, >>=-eq-some, usize_mod, if◌then◌else◌,
  put, cell, Cells,
}
use grevm.Model.{executing, TxVersion, Task, err}
use grevm.Memory.{Memory, Location}
use grevm.IncarnationDb.{Accesses}
use grevm.IncarnationDb.Publish.{contains_location}
use grevm.Context
use grevm.Beneficiary
use grevm.Beneficiary.{History}
use grevm.Beneficiary.Recorded.{Recorded, record_estimate-Recorded}
use grevm.Scheduler.{
  Machine, Scheduler, EvmError, TransactionResult, abort, parallel_error, mark_mv_estimate,
}
use grevm.Scheduler.Execute.{execute_err, retry_later, previous_writes, finish_execution}
use grevm.Scheduler.Entries.{mark-Kept, mark-others}
use grevm.Scheduler.Lifecycle.{status}
use grevm.Scheduler.Fresh.{incarnation_of, Covers, Inv}
use grevm.Scheduler.Fresh.Calm.{Ticks, Ticks-refl, Ticks-Clocked, Calm, Calm-same}
use grevm.Scheduler.Fresh.Core.{Core}
use grevm.Scheduler.Fresh.Finish.{Finished, finish_execution-Finished}
use grevm.Scheduler.Fresh.Attempt.{refused-Core, not-Stuck, Covers-before}

module _ (m : Machine) where
  open m use {keys, revm, Invalid, Fatal}
  open keys use {Address}
  open revm use {AccountInfo, Bytecode}

  retry_later_effect :
      (s t : Scheduler m) (txid : ℕ) (accesses : Accesses keys revm) (e : EvmError Invalid Fatal)
      → retry_later m s txid accesses e ≡ some t
      → (t.memory ≡ s.memory)
        × (t.tx_results ≡ s.tx_results)
        × (t.history ≡ s.history)
        × (t.tx_states ≡ s.tx_states)
        × (t.ctx ≡ s.ctx)
  unfolding retry_later abort
  retry_later_effect s t txid accesses e h = ground arith

  -- Marked entries are covered by the write set that they were covered by.
  pub marked-Covers :
      (s u : Scheduler m) (k : ℕ) (writes : List (Location Address))
      → Covers m s k
      → u.memory ≡ mark_mv_estimate m s.memory k writes
      → previous_writes m (u.tx_results.at k) ≡ previous_writes m (s.tx_results.at k)
      → writes ≡ previous_writes m (s.tx_results.at k)
      → Covers m u k
  marked-Covers s u k writes v a b c = record {
    covered = λ l h e. elim (mark-Kept m writes s.memory k l) [
      | inl gone ↦ v.covered l (ground (arith, h, b)) gone.0
      | inr kept ↦ ground (arith, e, a, kept.3)
    ];
    uncovered = λ l h. elim (mark-Kept m writes s.memory k l) [
      | inl gone ↦ ground (arith, gone, a)
      | inr kept ↦ absurd (ground (arith, v.uncovered l (ground (arith, h, b)), kept.2))
    ];
    estimates = λ l entry o e. elim (mark-Kept m writes s.memory k l) [
      | inl gone ↦ absurd (ground (arith, gone, a, e))
      | inr kept ↦ elim (Bool-cases (contains_location keys revm writes l)) [
        | inl told ↦ ground (arith, e, a, kept.3, kept.4, told)
        | inr untold ↦ absurd (ground (arith, v.uncovered l (ground (arith, untold, c)), kept.2))
      ]
    ];
  }

  module _ (s : Scheduler m) (version : TxVersion) (v : Inv m s)
      (small : s.ctx.logical_clock + 1 < usize_mod) (running : status m s version.txid ≡ executing)
      (claimed_as : incarnation_of m s version.txid ≡ version.incarnation)
      (accesses : Accesses keys revm) (e : EvmError Invalid Fatal) where
    abbrev k : ℕ
    k = version.txid

    abbrev last : Option (TransactionResult m)
    last = s.tx_results.at k

    abbrev marked : Memory Address AccountInfo Bytecode
    marked = mark_mv_estimate m s.memory k (previous_writes m last)

    abbrev emptied : Cells (Option (TransactionResult m))
    emptied = elim last [
      | none ↦ s.tx_results
      | some r ↦ put s.tx_results k (some (record r { write_set = [] }))
    ]

    emptied-others : (i : ℕ) → i ≢ k → emptied.at i ≡ s.tx_results.at i
    emptied-others i h = ground (arith, h)

    abbrev with_history : History AccountInfo → Scheduler m
    with_history h = record s { memory = marked; tx_results = emptied; history = h }

    abbrev failed : TransactionResult m
    failed = record { read_set = []; write_set = previous_writes m last; execute_result = err e }

    failed-Core :
        (s₃ u : Scheduler m)
        → s₃.memory ≡ marked
        → s₃.tx_results ≡ put emptied k (some failed)
        → Recorded s.history s₃.history version true
        → s₃.tx_states ≡ s.tx_states
        → s₃.ctx ≡ s.ctx
        → Finished m s₃ u k true false
        → Core m s u k
    failed-Core s₃ u a b r d c f = record {
      memory = λ l w h.
          ground (arith, f.memory, a, mark-others m (previous_writes m last) s.memory k l w h);
      results = λ i h. ground (arith, f.results, b, emptied-others i h, h);
      states = λ i h. ground (arith, f.states i h, d);
      histories = λ i h. ground (arith, f.history, r.others i h);
      not_final = λ h. ground (arith, running, h);
      not_passed = f.not_passed;
      ticks = subst (λ (c : Context.SchedulerContext). Ticks c u.ctx) c f.ticks;
      outcome = inr (
        not-Stuck m s version v small running claimed_as s₃.history r,
        (λ h. ground (arith, f.history, f.incarnation, d, r.accepted refl, claimed_as)),
        marked-Covers s u k (previous_writes m last)
            (Covers-before m s version v small running claimed_as s₃.history r) (f.memory ∙ a)
            (ground (arith, f.results, b)) refl,
        (λ i lt p. absurd (f.rewound refl i lt p)),
      );
    }

    abbrev after_history : History AccountInfo → Bool → Option (Scheduler m × Option Task)
    after_history h done =
        if not done then some (abort m (with_history h) (parallel_error k), none) else (do
          s₃ ←
              retry_later m (record (with_history h) { tx_results = put emptied k (some failed) }) k
                accesses e
          finish_execution m s₃ version true false none)

    after_history-Core :
        (h : History AccountInfo) (done : Bool) (t : Scheduler m) (task : Option Task)
        → Recorded s.history h version done
        → after_history h done ≡ some (t, task)
        → (u : Scheduler m) × Core m s u k × Calm m u t
    unfolding abort
    after_history-Core h false t task r q =
        let given : abort m (with_history h) (parallel_error k) ≡ t = ground (arith, q) in
        (
          t,
          subst (λ (u : Scheduler m). Core m s u k) given
              (refused-Core m s version v small running claimed_as
                (abort m (with_history h) (parallel_error k))
                (λ l w x. mark-others m (previous_writes m last) s.memory k l w x) emptied-others
                refl refl r),
          Calm-same m t t refl refl refl refl (Ticks-refl t.ctx t.ctx refl),
        )
    after_history-Core h true t task r q =
        let s₂ : Scheduler m = record (with_history h) {
          tx_results = put emptied k (some failed);
        } in
        let (s₃, p, q₁) = >>=-eq-some (retry_later m s₂ k accesses e) _ q in
        let (a, b, c, d, x) = retry_later_effect s₂ s₃ k accesses e p in
        let (u, f, calm) =
          finish_execution-Finished m s₃ version true false
            (Ticks-Clocked m s s₃ (Ticks-refl s.ctx s₃.ctx x) v.clocked) (ground (arith, x, small))
            none t task q₁ in
        (
          u,
          failed-Core s₃ u a b
              (subst (λ (y : History AccountInfo). Recorded s.history y version true) (sym c) r) d x
              f,
          calm,
        )

    abbrev published : Option (Scheduler m × Option Task)
    published = do (h, done) ← Beneficiary.record_estimate s.history version; after_history h done

    pub execute_err-Core :
        (t : Scheduler m) (task : Option Task)
        → execute_err m s version accesses e ≡ some (t, task)
        → (u : Scheduler m) × Core m s u k × Calm m u t
    unfolding execute_err
    execute_err-Core t task q =
        let given : published ≡ some (t, task) = in_range (Option-cases (cell s.tx_results k)) in
        let ((h, done), p, q₁) =
          >>=-eq-some (Beneficiary.record_estimate s.history version) _ given in
        after_history-Core h done t task (record_estimate-Recorded s.history h version done p) q₁
      where
        in_range :
            (cell s.tx_results k ≡ none)
              ⊎ ((x : Option (TransactionResult m)) × (cell s.tx_results k ≡ some x))
            → published ≡ some (t, task)
        in_range (inl outside) = absurd (ground (arith, q, outside))
        in_range (inr (x, inside)) =
            let found : cell s.tx_results k ≡ some last = ground (arith, inside) in
            ground (arith, q, found)
