-- ===== src/Context/Race.antt =====
-- src/scheduler/context.rs: `ExecutionFrontier::publish` and `current` from one access of an atomic to the
-- next, in threads that interleave. A panic, an index out of range, is `none`.
pub mod Moves
pub mod Prefix
use grevm.Prelude.{
  ℕ, suc, ◌≡◌, ◌≤◌, ◌<◌, ◌⊎◌, inl, inr, Bool, true, false, ◌&&◌, Option, some, refl, ◌∙◌, arith,
  subst, update, put, cell, filled, ltb, ◌==◌, if◌then◌else◌, max, ◌>>=◌, Bool-cases,
}
use grevm.Context.{ExecutionFrontier}
use grevm.Context.Frontier.{IsPrefixEnd}

-- Where a thread stands: outside, in `publish` before its load, its store or its second load, in `current`
-- before its first load or with what that has given, in `advance` before a load of the inner loop or
-- before the `fetch_max`, with its `start` and `end`, and whether `current` has called it; or in
-- `current` before its last load, and with its answer.
pub data Access : Type 0 where
  away asking answering : Access
  publishing storing reloading looking answered : ℕ → Access
  scanning raising : Bool → ℕ → ℕ → Access

unfoldable pub frontier_access : ExecutionFrontier → Access → Option (ExecutionFrontier × Access)
frontier_access f away = some (f, away)
frontier_access f (publishing index) =
    some (f, if ltb index f.frontier then away else storing index)
frontier_access f (storing index) = do
  _ ← cell f.executed index
  some (record f { executed = put f.executed index true }, reloading index)
frontier_access f (reloading index) =
    some (f, if index == f.frontier then scanning false f.frontier f.frontier else away)
frontier_access f asking = some (f, looking f.frontier)
frontier_access f (looking frontier) = some (
  f,
  if ltb frontier f.executed.len && f.executed.at frontier
      then scanning true frontier frontier
      else answered frontier,
)
frontier_access f (scanning helps start end) = some (
  f,
  if ltb end f.executed.len && f.executed.at end
      then scanning helps start (suc end)
      else (if end == start then (if helps then answering else away) else raising helps start end),
)
frontier_access f (raising helps start end) =
    let next = max f.frontier end in some (record f { frontier = next }, scanning helps next next)
frontier_access f answering = some (f, answered f.frontier)
frontier_access f (answered frontier) = some (f, answered frontier)

-- A call begins.
pub data Begins : Access → Type 0 where
  publishes : (index : ℕ) → Begins (publishing index)
  asks : Begins asking

-- The threads of a block of `n` transactions, in any order of their calls and accesses.
pub data Reach (n : ℕ) : ExecutionFrontier → (ℕ → Access) → Type 0 where
  begins : Reach n (record { executed = filled n false; frontier = 0 }) (λ t. away)
  calls :
      (f : ExecutionFrontier) (at : ℕ → Access) (t : ℕ) (call : Access)
      → Reach n f at
      → (at t ≡ away) ⊎ ((answer : ℕ) × (at t ≡ answered answer))
      → Begins call
      → Reach n f (update at t call)
  accesses :
      (f f' : ExecutionFrontier) (at : ℕ → Access) (t : ℕ) (x : Access)
      → Reach n f at
      → frontier_access f (at t) ≡ some (f', x)
      → Reach n f' (update at t x)

-- Whether a thread is on its way to move the frontier.
pub owes : ℕ → Access → Bool
owes frontier (reloading index) = index == frontier
owes frontier (scanning helps start end) = true
owes frontier (raising helps start end) = true
owes frontier _ = false

abbrev pub Below : ExecutionFrontier → ℕ → Type 0
Below f n = (i : ℕ) → i < n → f.executed.at i ≡ true

-- What a thread knows.
pub Sound : ExecutionFrontier → Access → Type 0
Sound f (reloading index) = f.executed.at index ≡ true
Sound f (looking n) = (n ≤ f.frontier) × Below f n
Sound f (answered n) = (n ≤ f.frontier) × Below f n
Sound f (scanning helps start end) =
    (start ≤ f.frontier) × (start ≤ end) × (end ≤ f.executed.len) × Below f end
Sound f (raising helps start end) =
    (start ≤ f.frontier) × (start ≤ end) × (end ≤ f.executed.len) × Below f end
Sound f _ = Unit

pub record Grows (f f' : ExecutionFrontier) : Type 0 where
  pub len : f'.executed.len ≡ f.executed.len
  pub frontier : f.frontier ≤ f'.frontier
  pub keeps : (i : ℕ) → f.executed.at i ≡ true → f'.executed.at i ≡ true

-- What an access does.
pub record Moved (f f' : ExecutionFrontier) (x y : Access) : Type 0 where
  pub grows : Grows f f'
  pub bound : f'.frontier ≤ f'.executed.len
  pub below : Below f' f'.frontier
  pub sound : Sound f' y
  -- if the frontier lags, the thread moves it, or it was another's to move
  pub owed :
      f'.frontier < f'.executed.len
      → f'.executed.at f'.frontier ≡ true
      → (owes f'.frontier y ≡ true)
        ⊎ ((owes f.frontier x ≡ false)
            × (f'.frontier ≡ f.frontier)
            × (f.executed.at f.frontier ≡ true))
