-- ===== src/Context.antt =====
-- src/scheduler/cursor.rs and src/scheduler/context.rs: the cursors, the execution frontier and the
-- logical timestamps. A panic, such as an index out of range, is `none`.
pub mod Cursor
pub mod Frontier
pub mod Race
pub mod Keeps
mod Tests
use grevm.Prelude.{
  ℕ, zero, suc, ◌+◌, ◌-◌, ◌≡◌, ◌≢◌, ◌≤◌, ◌<◌, ◌%◌, ◌^◌, Bool, true, false, not, ◌&&◌, ◌||◌, Option,
  none, some, List, [], ◌∷◌, ◌++◌, refl, arith, Cells, Option-cases, ap, ◌∙◌, sym, ltb, leb, ◌==◌,
  if◌then◌else◌, ◌⊎◌, inl, inr, update, put, cell, filled, Bool-cases, ◌>>=◌, >>=-eq-some, length,
  get_elem?, length-append, contains, insert, is_none, is_some_eq, unwrap_or, is_empty, All, subst,
  map, min, max, usize_mod, usize_add, ltb→lt, lt→ltb, leb→le, ◌↔◌, ==_iff, fun_ext, cell-eq-some,
}

-- `PublishedCursor` and `RewindableCursor` are the atomics that they wrap.

-- What one round of `claim_before` does. Between its load of the cursor and its compare-exchange other
-- threads may act: `seen` is the loaded value and `found` the one that the exchange finds. The weak
-- exchange may also fail spuriously.
pub data Claim : Type 0 where
  claimed : ℕ → Claim
  exhausted : Claim
  retry : Claim

pub claim_round : ℕ → ℕ → ℕ → Bool → ℕ × Claim
claim_round limit seen found spurious =
    if leb limit seen
    then (found, exhausted)
    else (if found == seen && not spurious
        then (usize_add seen 1, claimed seen)
        else (found, retry))

-- `claim_before` with no other thread between the load and the exchange.
pub claim_before : ℕ → ℕ → ℕ × Option ℕ
claim_before cursor limit =
    if leb limit cursor then (cursor, none) else (usize_add cursor 1, some cursor)

-- `RewindableCursor::rewind`, with the value before.
pub rewind : ℕ → ℕ → ℕ × ℕ
rewind cursor value = (min cursor value, cursor)

pub record ExecutionFrontier : Type 0 where
  pub executed : Cells Bool
  pub frontier : ℕ

-- The inner loop of `advance`: the end of the run of executed transactions from `start`.
pub run_end : (ℕ → Bool) → ℕ → ℕ → ℕ
run_end executed zero start = start
run_end executed (suc left) start = elim (executed start) [
  | true ↦ run_end executed left (suc start)
  | false ↦ start
]

-- The outer loop of `advance`, with fuel.
pub advance : ℕ → ExecutionFrontier → ℕ → Option ExecutionFrontier
unfolding run_end
advance zero f start = none
advance (suc fuel) f start =
    let end = run_end f.executed.at (f.executed.len - start) start in
    let f' = record f { frontier = max f.frontier end } in
    let rest = advance fuel f' (max f.frontier end) in if end == start then some f else rest

-- The loop of `advance` runs once for each run of executed transactions, and once more.
abbrev pub rounds : ExecutionFrontier → ℕ
rounds f = suc (suc f.executed.len)

-- `publish` with no other thread between its accesses, which `Race` interleaves; its second load is that
-- of `f'`.
pub publish_frontier : ExecutionFrontier → ℕ → Option ExecutionFrontier
unfolding advance
publish_frontier f index = if ltb index f.frontier then some f else (do
  _ ← cell f.executed index
  let f' = record f { executed = put f.executed index true }
  if index == f'.frontier then advance (rounds f') f' f'.frontier else some f')

-- `current`, likewise, with the frontier that it has helped along.
pub current : ExecutionFrontier → Option (ExecutionFrontier × ℕ)
unfolding advance
current f =
    if ltb f.frontier f.executed.len && f.executed.at f.frontier
    then (do f' ← advance (rounds f) f f.frontier; some (f', f'.frontier))
    else some (f, f.frontier)

pub record SchedulerContext : Type 0 where
  pub num_txs : ℕ
  pub validation : ℕ
  pub finality : ℕ
  pub committed : ℕ
  pub execution_frontier : ExecutionFrontier
  pub validation_resets : ℕ
  pub logical_clock : ℕ
  pub lower_timestamps : Cells ℕ
  pub unconfirmed_timestamps : Cells ℕ

unfoldable pub new : ℕ → SchedulerContext
new num_txs = record {
  num_txs = num_txs;
  validation = 0;
  finality = 0;
  committed = 0;
  execution_frontier = record { executed = filled num_txs false; frontier = 0 };
  validation_resets = 0;
  logical_clock = 1;
  lower_timestamps = filled num_txs 0;
  unconfirmed_timestamps = filled num_txs 0;
}

abbrev pub raise : Cells ℕ → ℕ → ℕ → Option (Cells ℕ)
raise v i timestamp = do old ← cell v i; some (put v i (max old timestamp))

-- `logical_timestamp`, and the `fetch_add` of `rewind_validation_to`.
abbrev pub tick : SchedulerContext → SchedulerContext × ℕ
tick c = (record c { logical_clock = usize_add c.logical_clock 1 }, c.logical_clock)

unfoldable pub rewind_validation_to : SchedulerContext → ℕ → Option SchedulerContext
unfolding rewind
rewind_validation_to c index = if leb c.num_txs index then some c else (do
  let (c', timestamp) = tick c
  lower ← raise c.lower_timestamps index timestamp
  let (validation, previous) = rewind c.validation index
  some (record c' {
    lower_timestamps = lower;
    validation = validation;
    validation_resets =
        if ltb index previous then usize_add c.validation_resets 1 else c.validation_resets;
  }))

unfoldable pub executed : SchedulerContext → ℕ → Option SchedulerContext
unfolding publish_frontier
executed c index = do
  f ← publish_frontier c.execution_frontier index
  some (record c { execution_frontier = f })

unfoldable pub unconfirmed : SchedulerContext → ℕ → ℕ → Option SchedulerContext
unconfirmed c index timestamp = do
  ts ← raise c.unconfirmed_timestamps index timestamp
  some (record c { unconfirmed_timestamps = ts })

abbrev pub finished : SchedulerContext → Bool
finished c = leb c.num_txs c.finality

abbrev pub publish_finality : SchedulerContext → ℕ → SchedulerContext
publish_finality c index = record c { finality = index }

abbrev pub publish_commit : SchedulerContext → ℕ → SchedulerContext
publish_commit c index = record c { committed = index }

unfoldable pub should_schedule : SchedulerContext → ℕ → Option (SchedulerContext × Bool)
unfolding current
should_schedule c executing_idx =
    if ltb c.validation executing_idx
    then (do
      (f, frontier) ← current c.execution_frontier
      some (
        record c { execution_frontier = f },
        ltb c.validation frontier || ltb executing_idx c.num_txs,
      ))
    else some (c, ltb executing_idx c.num_txs)

unfoldable pub next_validation_idx : SchedulerContext → ℕ → Option (SchedulerContext × Option ℕ)
unfolding current claim_before
next_validation_idx c executing_idx = do
  (f, frontier) ← current c.execution_frontier
  let (validation, claim) = claim_before c.validation (min executing_idx frontier)
  some (record c { execution_frontier = f; validation = validation }, claim)
