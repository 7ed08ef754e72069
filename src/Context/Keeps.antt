-- ===== src/Context/Keeps.antt =====
-- src/scheduler/context.rs: what the context's operations leave alone.
use grevm.Prelude.{ℕ, ◌≡◌, ◌≤◌, ◌<◌, Option, some, refl, arith, >>=-eq-some, Bool}
use grevm.Context.{
  tick, SchedulerContext, rewind_validation_to, executed, unconfirmed, next_validation_idx,
  should_schedule, publish_frontier, current,
}

-- No rewind bound before `txid` has changed, no published boundary has, and no validation is forgotten.
pub record KeepsLower (txid : ℕ) (c d : SchedulerContext) : Type 0 where
  pub committed : d.committed ≡ c.committed
  pub finality : d.finality ≡ c.finality
  pub lower : (j : ℕ) → j < txid → d.lower_timestamps.at j ≡ c.lower_timestamps.at j
  pub validated : (j : ℕ) → c.unconfirmed_timestamps.at j ≤ d.unconfirmed_timestamps.at j

pub rewind-KeepsLower :
    (txid index : ℕ) (c d : SchedulerContext)
    → txid ≤ index
    → rewind_validation_to c index ≡ some d
    → KeepsLower txid c d
unfolding rewind_validation_to
rewind-KeepsLower txid index c d le e = record {
  committed = ground arith;
  finality = ground arith;
  lower = λ j h. ground arith;
  validated = λ j. ground arith;
}

pub executed-KeepsLower :
    (txid index : ℕ) (c d : SchedulerContext) → executed c index ≡ some d → KeepsLower txid c d
unfolding executed
executed-KeepsLower txid index c d e =
    let (f, p, q) = >>=-eq-some (publish_frontier c.execution_frontier index) _ e in
    record {
      committed = ground arith;
      finality = ground arith;
      lower = λ j h. ground arith;
      validated = λ j. ground arith;
    }

pub unconfirmed-KeepsLower :
    (txid index timestamp : ℕ) (c d : SchedulerContext)
    → unconfirmed c index timestamp ≡ some d
    → KeepsLower txid c d
unfolding unconfirmed
unconfirmed-KeepsLower txid index timestamp c d e = record {
  committed = ground arith;
  finality = ground arith;
  lower = λ j h. ground arith;
  validated = λ j. ground arith;
}

pub tick-KeepsLower : (txid : ℕ) (c : SchedulerContext) → KeepsLower txid c (tick c).0
tick-KeepsLower txid c = record {
  committed = refl;
  finality = refl;
  lower = λ j h. refl;
  validated = λ j. omega arith;
}

pub next_validation_idx-KeepsLower :
    (txid executing_idx : ℕ) (c d : SchedulerContext) (claim : Option ℕ)
    → next_validation_idx c executing_idx ≡ some (d, claim)
    → KeepsLower txid c d
unfolding next_validation_idx
next_validation_idx-KeepsLower txid executing_idx c d claim e =
    let (f, p, q) = >>=-eq-some (current c.execution_frontier) _ e in
    record {
      committed = ground (arith, q);
      finality = ground (arith, q);
      lower = λ j h. ground (arith, q);
      validated = λ j. ground (arith, q);
    }

pub should_schedule-KeepsLower :
    (txid executing_idx : ℕ) (c d : SchedulerContext) (scheduled : Bool)
    → should_schedule c executing_idx ≡ some (d, scheduled)
    → KeepsLower txid c d
unfolding should_schedule
should_schedule-KeepsLower txid executing_idx c d scheduled e =
    let kept : (d.committed ≡ c.committed)
        × (d.finality ≡ c.finality)
        × (d.lower_timestamps ≡ c.lower_timestamps)
        × (d.unconfirmed_timestamps ≡ c.unconfirmed_timestamps) =
      ground arith in
    record {
      committed = kept.0;
      finality = kept.1;
      lower = λ j h. ground (arith, kept.2);
      validated = λ j. ground (arith, kept.3);
    }
