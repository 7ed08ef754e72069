-- ===== src/Scheduler/Fresh/Calm.antt =====
-- src/scheduler.rs: steps that change no memory, no result and no history.
use grevm.Prelude.{ℕ, ◌≡◌, ◌≢◌, ◌≤◌, ◌<◌, All, true, false, arith, sym, ◌∙◌, subst}
use grevm.Model.{executing, finality}
use grevm.Context.{SchedulerContext}
use grevm.Scheduler.{Machine, Scheduler}
use grevm.Memory.{Memory}
use grevm.Scheduler.Lifecycle.{status}
use grevm.Scheduler.Fresh.{
  is_open, has_passed, incarnation_of, recorded, Stuck, Covers, Protected, Current, Clocked, Inv,
  Stays,
}

-- Rewind bounds and the clock grow, validations stay.
pub record Ticks (c d : SchedulerContext) : Type 0 where
  pub lower : (j : ℕ) → c.lower_timestamps.at j ≤ d.lower_timestamps.at j
  pub validated : d.unconfirmed_timestamps ≡ c.unconfirmed_timestamps
  pub clock : c.logical_clock ≤ d.logical_clock
  pub size : d.num_txs ≡ c.num_txs

pub Ticks-refl : (c d : SchedulerContext) → d ≡ c → Ticks c d
Ticks-refl c d e = record {
  lower = λ j. ground (arith, e);
  validated = ground (arith, e);
  clock = ground (arith, e);
  size = ground (arith, e);
}

pub Ticks-trans : (c d e : SchedulerContext) → Ticks c d → Ticks d e → Ticks c e
Ticks-trans c d e x y = record {
  lower = λ j. omega (arith, x.lower j, y.lower j);
  validated = y.validated ∙ x.validated;
  clock = omega (arith, x.clock, y.clock);
  size = y.size ∙ x.size;
}

module _ (m : Machine) where
  pub Ticks-Clocked : (s t : Scheduler m) → Ticks s.ctx t.ctx → Clocked m s → Clocked m t
  Ticks-Clocked s t x v = record {
    clock = λ i. ground (arith, x.validated, x.clock, v.clock i);
    sized = λ i h. ground (arith, x.validated, x.size, v.sized i, h);
    len = ground (arith, x.validated, x.size, v.len);
  }

  -- A transaction is as it was, claimed for an execution, or still has one that counts.
  pub data Quietly (s t : Scheduler m) (i : ℕ) : Type 0 where
    same : t.tx_states.at i ≡ s.tx_states.at i → Quietly s t i
    claimed :
        is_open (status m s i) ≡ true
        → status m s i ≢ executing
        → status m t i ≡ executing
        → Quietly s t i
    moved :
        is_open (status m s i) ≡ false
        → is_open (status m t i) ≡ false
        → incarnation_of m t i ≡ incarnation_of m s i
        → (has_passed (status m t i) ≡ true → has_passed (status m s i) ≡ true)
        → (status m s i ≡ finality → status m t i ≡ finality)
        → Quietly s t i

  pub record Calm (s t : Scheduler m) : Type 0 where
    pub memory : t.memory ≡ s.memory
    pub results : t.tx_results ≡ s.tx_results
    pub history : t.history ≡ s.history
    pub states : (i : ℕ) → Quietly s t i
    pub ticks : Ticks s.ctx t.ctx

  -- A context, and fields that nothing here reads, may have changed.
  pub Calm-same :
      (s t : Scheduler m)
      → t.memory ≡ s.memory
      → t.tx_results ≡ s.tx_results
      → t.history ≡ s.history
      → t.tx_states ≡ s.tx_states
      → Ticks s.ctx t.ctx
      → Calm s t
  Calm-same s t a b c d x = record {
    memory = a;
    results = b;
    history = c;
    states = λ i. same (ground (arith, d));
    ticks = x;
  }

  Stuck-still : (s t : Scheduler m) (k : ℕ) → Calm s t → Stuck m s k → Stuck m t k
  Stuck-still s t k c (running, le) = by_state (c.states k)
    where
      by_state : Quietly s t k → Stuck m t k
      by_state (same e) = (ground (arith, e, running), ground (arith, e, c.history, le))
      by_state (claimed a b d) = absurd (b running)
      by_state (moved a b d e f) = absurd (ground (arith, a, running))

  Calm-Covers :
      (s t : Scheduler m) (k : ℕ)
      → Calm s t
      → (is_open (status m t k) ≡ true → is_open (status m s k) ≡ true)
      → Covers m s k
      → Covers m t k
  Calm-Covers s t k c opened v = record {
    covered = λ l h. ground (arith, c.memory, c.results, v.covered l, h);
    uncovered = λ l h. ground (arith, c.memory, c.results, v.uncovered l, h);
    estimates = λ l entry h e. v.estimates l entry (opened h) (ground (arith, c.memory, e));
  }

  pub Calm-Inv : (s t : Scheduler m) → Calm s t → Inv m s → Inv m t
  Calm-Inv s t c v = record {
    clocked = Ticks-Clocked s t c.ticks v.clocked;
    recorded_as = λ k h. recorded_after k (c.states k) h;
    covers = λ k h free_of. Covers-after k (c.states k) h free_of;
    current = λ i p free_of. current_after i (c.states i) p free_of;
  }
    where
      recorded_after :
          (k : ℕ)
          → Quietly s t k
          → is_open (status m t k) ≡ false
          → recorded m t k ≡ incarnation_of m t k
      recorded_after k (same e) h = ground (arith, e, h, c.history, v.recorded_as k)
      recorded_after k (claimed a b d) h = absurd (ground (arith, d, h))
      recorded_after k (moved a b d e f) h = ground (arith, d, c.history, v.recorded_as k a)

      Covers-after :
          (k : ℕ) → Quietly s t k → status m t k ≢ finality → (Stuck m t k → ⊥) → Covers m t k
      Covers-after k (same e) h f =
          Calm-Covers s t k c (λ o. ground (arith, e, o))
            (v.covers k (λ x. h (ground (arith, e, x))) (λ x. f (Stuck-still s t k c x)))
      Covers-after k (claimed a b d) h f =
          Calm-Covers s t k c (λ o. a) (v.covers k (λ x. ground (arith, a, x)) (λ x. b x.0))
      Covers-after k (moved a b d e g) h f =
          Calm-Covers s t k c (λ o. ground (arith, b, o))
            (v.covers k (λ x. h (g x)) (λ x. ground (arith, x.0, a)))

      current_after :
          (i : ℕ)
          → Quietly s t i
          → Protected m t i
          → ((k : ℕ) → k < i → Stuck m t k → ⊥)
          → Current m t i
      current_after i q p f result e =
          subst
            (λ (memory : Memory m.keys.Address m.revm.AccountInfo m.revm.Bytecode).
              All (Stays m memory i) result.read_set)
            (sym c.memory)
            (v.current i
              (record {
                passed = passed_before q;
                after = λ j h. ground (arith, p.after j h, c.ticks.lower j, c.ticks.validated);
              })
              (λ k h x. f k h (Stuck-still s t k c x)) result (ground (arith, c.results, e)))
        where
          passed_before : Quietly s t i → has_passed (status m s i) ≡ true
          passed_before (same x) = ground (arith, x, p.passed)
          passed_before (claimed a b d) = absurd (ground (arith, d, p.passed))
          passed_before (moved a b d g h) = g p.passed
