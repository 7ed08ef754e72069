-- ===== src/Prelude/Vectors.antt =====
-- A vector of separately locked cells: a length, and the cells' contents. Out of range it panics.
use Prim.Native.Nat.{ℕ, ◌<◌}
use mathlib.Core.Path.{◌≡◌}
use mathlib.Core.Option.{Option, none, some}
use native.Mathlib.Omega.{arith}
use grevm.Prelude.Tests.{ltb, ◌==◌, if◌then◌else◌}

pub record Cells {ℓ} (A : Type ℓ) : Type ℓ where
  pub len : ℕ
  pub at : ℕ → A

module _ {ℓ} {A : Type ℓ} where
  abbrev pub update : (ℕ → A) → ℕ → A → ℕ → A
  update f i a j = if i == j then a else f j

  abbrev pub filled : ℕ → A → Cells A
  filled n a = record { len = n; at = λ _. a }

  -- `v[i]`
  abbrev pub cell : Cells A → ℕ → Option A
  cell v i = if ltb i v.len then some (v.at i) else none

  -- `v[i] = a`, once `v[i]` has been read
  abbrev pub put : Cells A → ℕ → A → Cells A
  put v i a = record v { at = update v.at i a }

  pub cell-eq-some : (v : Cells A) (i : ℕ) → i < v.len → cell v i ≡ some (v.at i)
  cell-eq-some v i h = ground arith
