-- ===== src/Dependency/Invariant.antt =====
-- The invariant of the dependency graph of src/tx_dependency.rs.
use grevm.Prelude.{ℕ, ◌≡◌, ◌≤◌, ◌<◌, true, false, none, some, refl, arith, contains}
use grevm.Dependency.{TxDependency, DependentState, new}

abbrev pub state : TxDependency → ℕ → DependentState
state d tx = d.dependent_state.at tx

abbrev pub IsWaiting : TxDependency → ℕ → ℕ → Type 0
IsWaiting d tx dep_id = (state d tx).dependency ≡ some dep_id

-- `tx` is free to be claimed by the cursor.
abbrev pub IsReady : TxDependency → ℕ → Type 0
IsReady d tx = ((state d tx).onboard ≡ true) × ((state d tx).dependency ≡ none)

pub record Inv (d : TxDependency) : Type 0 where
  pub states : d.dependent_state.len ≡ d.num_txs
  pub affects : d.affect_txs.len ≡ d.num_txs
  -- the cursor never stands past work that is ready
  pub ready : (tx : ℕ) → tx < d.num_txs → IsReady d tx → d.index ≤ tx
  -- a claimed transaction waits for nothing
  pub claimed : (tx : ℕ) → (state d tx).onboard ≡ false → (state d tx).dependency ≡ none
  -- edges lead to predecessors; `key_tx` makes a transaction wait for its own commit boundary
  pub backward : (tx dep_id : ℕ) → IsWaiting d tx dep_id → dep_id ≤ tx
  -- each waiting transaction is on its predecessor's list
  pub reverse :
      (tx dep_id : ℕ)
      → IsWaiting d tx dep_id
      → dep_id < tx
      → contains (d.affect_txs.at dep_id) tx ≡ true
  -- a list names transactions of the block only
  pub known : (dep_id tx : ℕ) → contains (d.affect_txs.at dep_id) tx ≡ true → tx < d.num_txs

pub new-Inv : (n : ℕ) → Inv (new n)
unfolding new
new-Inv n = record {
  states = refl;
  affects = refl;
  ready = λ tx h r. omega arith;
  claimed = λ tx h. cc;
  backward = λ tx dep_id h. cc;
  reverse = λ tx dep_id h lt. cc;
  known = λ dep_id tx h. cc;
}
