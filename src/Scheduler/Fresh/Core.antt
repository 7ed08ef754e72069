-- ===== src/Scheduler/Fresh/Core.antt =====
-- src/scheduler.rs: steps that change one transaction's entries, result and history.
use grevm.Prelude.{
  ℕ, ◌≡◌, ◌≢◌, ◌<◌, All, true, false, none, some, [], ◌∷◌, arith, ◌⊎◌, inl, inr, sym, ◌∙◌, subst,
  ◌==◌, Bool-cases,
}
use grevm.Model.{finality}
use grevm.Memory.{Memory, Location, MemoryEntry}
use grevm.IncarnationDb.{ReadVersion, mv_memory, beneficiary, backing, ReadSet}
use grevm.Scheduler.{Machine, Scheduler}
use grevm.Scheduler.Lifecycle.{status}
use grevm.Scheduler.Fresh.{
  is_open, has_passed, incarnation_of, recorded, Stuck, Covers, Protected, Current, Inv, Stays,
}
use grevm.Scheduler.Fresh.Calm.{Ticks, Ticks-Clocked}

module _ (m : Machine) where
  open m use {keys, revm}
  open keys use {Address}
  open revm use {AccountInfo, Bytecode}

  -- Only transaction `k` changes, and it is not validated. Unless it is stuck, its entries are covered
  -- again, and a later transaction is still protected only if `k` was open and has no new entry.
  pub record Core (s t : Scheduler m) (k : ℕ) : Type 0 where
    pub memory : (l : Location Address) (w : ℕ) → w ≢ k → t.memory l w ≡ s.memory l w
    pub results : (i : ℕ) → i ≢ k → t.tx_results.at i ≡ s.tx_results.at i
    pub states : (i : ℕ) → i ≢ k → t.tx_states.at i ≡ s.tx_states.at i
    pub histories : (i : ℕ) → i ≢ k → recorded m t i ≡ recorded m s i
    pub not_final : status m s k ≢ finality
    pub not_passed : has_passed (status m t k) ≡ false
    pub ticks : Ticks s.ctx t.ctx
    pub outcome :
        Stuck m t k
        ⊎ ((Stuck m s k → ⊥)
            × (is_open (status m t k) ≡ false → recorded m t k ≡ incarnation_of m t k)
            × Covers m t k
            × ((i : ℕ)
                → k < i
                → Protected m t i
                → (is_open (status m s k) ≡ true)
                  × ((l : Location Address) → s.memory l k ≡ none → t.memory l k ≡ none)))

  -- A read stays if the entries of one transaction have changed that are later, or were estimates and
  -- have got no new one.
  Stays-after :
      (before after : Memory Address AccountInfo Bytecode) (i k : ℕ)
      → ((l : Location Address) (w : ℕ) → w ≢ k → after l w ≡ before l w)
      → (k < i
          → ((l : Location Address) → before l k ≡ none → after l k ≡ none)
            × ((l : Location Address) (entry : MemoryEntry AccountInfo Bytecode)
                → before l k ≡ some entry
                → entry.estimate ≡ true))
      → (read : Location Address × ReadVersion) → Stays m before i read
      → Stays m after i read
  Stays-after before after i k others quiet (l, mv_memory v) (entry, latest, solid, same) = (
    entry,
    record {
      below = latest.below;
      found = elim (Bool-cases (v.txid == k)) [
        | inr apart ↦ ground (arith, apart, others l v.txid, latest.found)
        | inl at ↦
            let here : before l k ≡ some entry = ground (arith, at, latest.found) in
            absurd
              (ground (arith, (quiet (ground (arith, at, latest.below))).1 l entry here, solid))
      ];
      newest = λ w lo hi. elim (Bool-cases (w == k)) [
        | inr apart ↦ ground (arith, apart, others l w, latest.newest w lo hi)
        | inl at ↦
            let absent : before l k ≡ none = ground (arith, at, latest.newest w lo hi) in
            ground (arith, at, (quiet (ground (arith, at, hi))).0 l absent)
      ];
    },
    solid,
    same,
  )
  Stays-after before after i k others quiet (l, backing) nothing = λ w below.
      elim (Bool-cases (w == k)) [
        | inr apart ↦ ground (arith, apart, others l w, nothing w below)
        | inl at ↦
            let absent : before l k ≡ none = ground (arith, at, nothing w below) in
            ground (arith, at, (quiet (ground (arith, at, below))).0 l absent)
      ]
  Stays-after before after i k others quiet (l, beneficiary vs) x = tt

  Stays-after-All :
      (before after : Memory Address AccountInfo Bytecode) (i : ℕ) (reads : ReadSet keys revm)
      → ((read : Location Address × ReadVersion) → Stays m before i read → Stays m after i read)
      → All (Stays m before i) reads
      → All (Stays m after i) reads
  Stays-after-All before after i [] f x = tt
  Stays-after-All before after i (read ∷ reads) f (x, xs) =
      (f read x, Stays-after-All before after i reads f xs)

  same_or_apart : (i k : ℕ) → (i ≡ k) ⊎ (i ≢ k)
  same_or_apart i k = elim (Bool-cases (i == k)) [
    | inl at ↦ inl (ground (arith, at))
    | inr apart ↦ inr (λ h. ground (arith, apart, h))
  ]

  -- The other transactions are as stuck as they were.
  Stuck-apart : (s t : Scheduler m) (k i : ℕ) → Core s t k → i ≢ k → Stuck m s i → Stuck m t i
  Stuck-apart s t k i c apart (running, le) = (
    ground (arith, c.states i apart, running),
    ground (arith, c.states i apart, c.histories i apart, le),
  )

  Covers-apart : (s t : Scheduler m) (k i : ℕ) → Core s t k → i ≢ k → Covers m s i → Covers m t i
  Covers-apart s t k i c apart v = record {
    covered = λ l h e.
        v.covered l (ground (arith, c.results i apart, h)) (ground (arith, c.memory l i apart, e));
    uncovered = λ l h. c.memory l i apart ∙ v.uncovered l (ground (arith, c.results i apart, h));
    estimates = λ l entry o e.
        v.estimates l entry (ground (arith, c.states i apart, o))
          (ground (arith, c.memory l i apart, e));
  }

  recorded_at :
      (s t : Scheduler m) (k : ℕ)
      → Core s t k
      → is_open (status m t k) ≡ false
      → recorded m t k ≡ incarnation_of m t k
  recorded_at s t k c h = elim c.outcome [
    | inl stuck ↦ absurd (ground (arith, stuck.0, h))
    | inr done ↦ done.1 h
  ]

  Covers-at : (s t : Scheduler m) (k : ℕ) → Core s t k → (Stuck m t k → ⊥) → Covers m t k
  Covers-at s t k c f = elim c.outcome [ inl stuck ↦ absurd (f stuck) | inr done ↦ done.2 ]

  current_apart :
      (s t : Scheduler m) (k i : ℕ)
      → Core s t k
      → Inv m s
      → i ≢ k
      → Protected m t i
      → ((j : ℕ) → j < i → Stuck m t j → ⊥)
      → Current m t i
  current_apart s t k i c v apart p f result e =
      Stays-after-All s.memory t.memory i result.read_set
        (Stays-after s.memory t.memory i k c.memory quiet)
        (v.current i
          (record {
            passed = ground (arith, c.states i apart, p.passed);
            after = λ j h. ground (arith, p.after j h, c.ticks.lower j, c.ticks.validated);
          })
          unstuck result (ground (arith, c.results i apart, e)))
    where
      unstuck_at : k < i → Stuck m s k → ⊥
      unstuck_at h = elim c.outcome [ inl stuck ↦ absurd (f k h stuck) | inr done ↦ done.0 ]

      unstuck : (j : ℕ) → j < i → Stuck m s j → ⊥
      unstuck j h stuck = elim (same_or_apart j k) [
        | inr other_tx ↦ f j h (Stuck-apart s t k j c other_tx stuck)
        | inl at ↦ unstuck_at (ground (arith, at, h)) (subst (λ (x : ℕ). Stuck m s x) at stuck)
      ]

      quiet :
          k < i
          → ((l : Location Address) → s.memory l k ≡ none → t.memory l k ≡ none)
            × ((l : Location Address) (entry : MemoryEntry AccountInfo Bytecode)
                → s.memory l k ≡ some entry
                → entry.estimate ≡ true)
      quiet h = elim c.outcome [
        | inl stuck ↦ absurd (f k h stuck)
        | inr done ↦
            let (opened, fewer) = done.3 i h p in
            (fewer, λ l entry found. (v.covers k c.not_final done.0).estimates l entry opened found)
      ]

  pub Core-Inv : (s t : Scheduler m) (k : ℕ) → Core s t k → Inv m s → Inv m t
  Core-Inv s t k c v = record {
    clocked = Ticks-Clocked m s t c.ticks v.clocked;
    recorded_as = λ i h. elim (same_or_apart i k) [
      | inr apart ↦ ground (arith, h, c.states i apart, c.histories i apart, v.recorded_as i)
      | inl at ↦
          subst (λ (x : ℕ). recorded m t x ≡ incarnation_of m t x) (sym at)
            (recorded_at s t k c (ground (arith, at, h)))
    ];
    covers = λ i h f. elim (same_or_apart i k) [
      | inr apart ↦ Covers-apart s t k i c apart (
          v.covers i (λ x. h (ground (arith, c.states i apart, x)))
            (λ x. f (Stuck-apart s t k i c apart x)))
      | inl at ↦
          subst (λ (x : ℕ). Covers m t x) (sym at)
            (Covers-at s t k c (λ x. f (subst (λ (y : ℕ). Stuck m t y) (sym at) x)))
    ];
    current = λ i p f. elim (same_or_apart i k) [
      | inr apart ↦ current_apart s t k i c v apart p f
      | inl at ↦ absurd (ground (arith, at, p.passed, c.not_passed))
    ];
  }
