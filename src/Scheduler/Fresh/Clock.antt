-- ===== src/Scheduler/Fresh/Clock.antt =====
-- src/scheduler/context.rs: what the context's operations do to the timestamps, as long as the clock
-- does not wrap.
use grevm.Prelude.{
  ℕ, ◌+◌, ◌≡◌, ◌≤◌, ◌<◌, Bool, Option, some, arith, refl, >>=-eq-some, usize_mod, leb, Bool-cases,
  inl, inr,
}
use grevm.Context.{
  SchedulerContext, tick, rewind_validation_to, executed, next_validation_idx, should_schedule,
  publish_frontier, current,
}
use grevm.Scheduler.{Machine, Scheduler}
use grevm.Scheduler.Fresh.{Protected, Clocked}
use grevm.Scheduler.Fresh.Calm.{Ticks}

pub rewind-Ticks :
    (index : ℕ) (c d : SchedulerContext)
    → c.logical_clock + 1 < usize_mod
    → rewind_validation_to c index ≡ some d
    → Ticks c d
      × (index < c.num_txs → c.logical_clock ≤ d.lower_timestamps.at index)
      × (d.logical_clock ≤ c.logical_clock + 1)
unfolding rewind_validation_to
rewind-Ticks index c d small e = (
  record {
    lower = λ j. ground (arith, e);
    validated = ground (arith, e);
    clock = ground (arith, e, small);
    size = ground (arith, e);
  },
  λ h. ground (arith, e, h),
  ground (arith, e, small),
)

pub tick-Ticks : (c : SchedulerContext) → c.logical_clock + 1 < usize_mod → Ticks c (tick c).0
tick-Ticks c small = record {
  lower = λ j. omega arith;
  validated = refl;
  clock = ground (arith, small);
  size = refl;
}

pub executed-Ticks :
    (index : ℕ) (c d : SchedulerContext)
    → executed c index ≡ some d
    → Ticks c d × (d.logical_clock ≡ c.logical_clock)
unfolding executed
executed-Ticks index c d e =
    let (f, p, q) = >>=-eq-some (publish_frontier c.execution_frontier index) _ e in
    let kept : (d.lower_timestamps ≡ c.lower_timestamps)
        × (d.unconfirmed_timestamps ≡ c.unconfirmed_timestamps)
        × (d.logical_clock ≡ c.logical_clock)
        × (d.num_txs ≡ c.num_txs) =
      ground (arith, q) in
    (
      record {
        lower = λ j. ground (arith, kept);
        validated = kept.1;
        clock = ground (arith, kept);
        size = kept.3;
      },
      kept.2,
    )

pub next_validation_idx-Ticks :
    (idx : ℕ) (c d : SchedulerContext) (claim : Option ℕ)
    → next_validation_idx c idx ≡ some (d, claim)
    → Ticks c d
unfolding next_validation_idx
next_validation_idx-Ticks idx c d claim e =
    let (f, p, q) = >>=-eq-some (current c.execution_frontier) _ e in
    record {
      lower = λ j. ground (arith, q);
      validated = ground (arith, q);
      clock = ground (arith, q);
      size = ground (arith, q);
    }

pub should_schedule-Ticks :
    (idx : ℕ) (c d : SchedulerContext) (b : Bool) → should_schedule c idx ≡ some (d, b) → Ticks c d
unfolding should_schedule
should_schedule-Ticks idx c d b e =
    let kept : (d.lower_timestamps ≡ c.lower_timestamps)
        × (d.unconfirmed_timestamps ≡ c.unconfirmed_timestamps)
        × (d.logical_clock ≡ c.logical_clock)
        × (d.num_txs ≡ c.num_txs) =
      ground arith in
    record {
      lower = λ j. ground (arith, kept);
      validated = kept.1;
      clock = ground (arith, kept);
      size = kept.3;
    }

module _ (m : Machine) where
  -- A rewind leaves no transaction from its index on protected.
  pub rewound :
      (s t : Scheduler m) (c d : SchedulerContext) (index i : ℕ)
      → Clocked m s
      → Ticks s.ctx c
      → c.logical_clock + 1 < usize_mod
      → rewind_validation_to c index ≡ some d
      → Ticks d t.ctx
      → index ≤ i
      → Protected m t i
      → ⊥
  rewound s t c d index i v x small e y le p =
      let (z, raised, _) = rewind-Ticks index c d small e in
      elim (Bool-cases (leb c.num_txs index)) [
        | inl outside ↦ ground (
          arith,
          outside,
          le,
          p.after 0 (omega arith),
          v.sized i,
          x.size,
          x.validated,
          y.validated,
          z.validated,
        )
        | inr inside ↦ ground (
          arith,
          inside,
          raised,
          p.after index le,
          v.clock i,
          x.clock,
          x.validated,
          y.validated,
          z.validated,
          y.lower index,
        )
      ]
