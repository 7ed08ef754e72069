-- ===== src/Scheduler/Fresh/Passing.antt =====
-- src/scheduler.rs: a validation that passes.
use grevm.Prelude.{
  ℕ, ◌≡◌, ◌≢◌, ◌<◌, All, true, [], ◌∷◌, arith, inl, inr, sym, subst, Bool-cases, ◌==◌,
}
use grevm.Model.{validating, unconfirmed}
use grevm.Memory.{Memory, Location}
use grevm.IncarnationDb.{ReadVersion, mv_memory, beneficiary, backing, ReadSet}
use grevm.Beneficiary.{History}
use grevm.Scheduler.{Machine, Scheduler}
use grevm.Scheduler.ReadSets.{IsCurrent}
use grevm.Scheduler.Lifecycle.{status}
use grevm.Scheduler.Fresh.{
  is_open, incarnation_of, Stuck, Covers, Protected, Current, Clocked, Inv, Stays,
}

module _ (m : Machine) where
  open m use {keys, revm, Invalid, Fatal}
  open keys use {Address}
  open revm use {AccountInfo, Bytecode}

  IsCurrent-Stays :
      (memory : Memory Address AccountInfo Bytecode) (history : History AccountInfo) (txid : ℕ)
      (read : Location Address × ReadVersion)
      → IsCurrent keys revm memory history txid read
      → Stays m memory txid read
  unfolding IsCurrent
  IsCurrent-Stays memory history txid (l, mv_memory v) x = x
  IsCurrent-Stays memory history txid (l, backing) x = x
  IsCurrent-Stays memory history txid (l, beneficiary vs) x = tt

  pub IsCurrent-Stays-All :
      (memory : Memory Address AccountInfo Bytecode) (history : History AccountInfo) (txid : ℕ)
      (reads : ReadSet keys revm)
      → All (IsCurrent keys revm memory history txid) reads
      → All (Stays m memory txid) reads
  IsCurrent-Stays-All memory history txid [] x = tt
  IsCurrent-Stays-All memory history txid (read ∷ reads) (x, xs) =
      (IsCurrent-Stays memory history txid read x, IsCurrent-Stays-All memory history txid reads xs)

  -- Transaction `k` passes its validation.
  pub record Passes (s t : Scheduler m) (k : ℕ) : Type 0 where
    pub memory : t.memory ≡ s.memory
    pub results : t.tx_results ≡ s.tx_results
    pub history : t.history ≡ s.history
    pub before : status m s k ≡ validating
    pub after :
        t.tx_states.at k
        ≡ record (t.tx_states.at k) { status = unconfirmed; incarnation = incarnation_of m s k }
    pub states : (i : ℕ) → i ≢ k → t.tx_states.at i ≡ s.tx_states.at i
    pub lower : t.ctx.lower_timestamps ≡ s.ctx.lower_timestamps
    pub validated :
        (i : ℕ) → i ≢ k → t.ctx.unconfirmed_timestamps.at i ≡ s.ctx.unconfirmed_timestamps.at i
    pub clocked : Clocked m t
    pub current : Current m t k

  Passes-Stuck : (s t : Scheduler m) (k i : ℕ) → Passes s t k → Stuck m s i → Stuck m t i
  Passes-Stuck s t k i c (running, le) = elim (Bool-cases (i == k)) [
    | inl at ↦ absurd (ground (arith, at, running, c.before))
    | inr apart ↦
        let same : t.tx_states.at i ≡ s.tx_states.at i =
          c.states i (λ h. ground (arith, apart, h)) in
        (ground (arith, same, running), ground (arith, same, c.history, le))
  ]

  Passes-Covers :
      (s t : Scheduler m) (k i : ℕ)
      → Passes s t k
      → (is_open (status m t i) ≡ true → is_open (status m s i) ≡ true)
      → Covers m s i
      → Covers m t i
  Passes-Covers s t k i c opened v = record {
    covered = λ l h. ground (arith, c.memory, c.results, v.covered l, h);
    uncovered = λ l h. ground (arith, c.memory, c.results, v.uncovered l, h);
    estimates = λ l entry h e. v.estimates l entry (opened h) (ground (arith, c.memory, e));
  }

  pub Passes-Inv : (s t : Scheduler m) (k : ℕ) → Passes s t k → Inv m s → Inv m t
  Passes-Inv s t k c v = record {
    clocked = c.clocked;
    recorded_as = λ i h. elim (Bool-cases (i == k)) [
      | inl at ↦ ground (arith, at, c.after, c.before, c.history, v.recorded_as k)
      | inr apart ↦
          let same : t.tx_states.at i ≡ s.tx_states.at i =
            c.states i (λ x. ground (arith, apart, x)) in
          ground (arith, same, c.history, v.recorded_as i, h)
    ];
    covers = λ i h f. elim (Bool-cases (i == k)) [
      | inl at ↦
          let here : i ≡ k = ground (arith, at) in
          Passes-Covers s t k i c (λ o. ground (arith, here, c.after, o))
            (v.covers i (λ x. ground (arith, here, c.before, x))
              (λ x. f (Passes-Stuck s t k i c x)))
      | inr apart ↦
          let same : t.tx_states.at i ≡ s.tx_states.at i =
            c.states i (λ x. ground (arith, apart, x)) in
          Passes-Covers s t k i c (λ o. ground (arith, same, o))
            (v.covers i (λ x. h (ground (arith, same, x))) (λ x. f (Passes-Stuck s t k i c x)))
    ];
    current = λ i p f. elim (Bool-cases (i == k)) [
      | inl at ↦ subst (λ (x : ℕ). Current m t x) (ground (arith, at)) c.current
      | inr apart ↦ others i (λ x. ground (arith, apart, x)) p f
    ];
  }
    where
      others :
          (i : ℕ) → i ≢ k → Protected m t i → ((j : ℕ) → j < i → Stuck m t j → ⊥) → Current m t i
      others i apart p f result e =
          subst
            (λ (memory : Memory Address AccountInfo Bytecode).
              All (Stays m memory i) result.read_set)
            (sym c.memory)
            (v.current i
              (record {
                passed = ground (arith, c.states i apart, p.passed);
                after = λ j h. ground (arith, p.after j h, c.lower, c.validated i apart);
              })
              (λ j h x. f j h (Passes-Stuck s t k j c x)) result (ground (arith, c.results, e)))
