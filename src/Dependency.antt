-- ===== src/Dependency.antt =====
-- src/tx_dependency.rs: `TxDependency`. Each operation is one atomic call; a call that panics is
-- `none`. A `HashSet` is a list in any order.
pub mod Invariant
pub mod Preservation
pub mod Progress
pub mod Wakeup
mod Tests
use grevm.Prelude.{
  ℕ, ◌+◌, Bool, true, false, ◌&&◌, Option, none, some, List, [], ◌∷◌, min, ltb, leb, ◌==◌,
  if◌then◌else◌, is_none, is_some_eq, ◌>>=◌, usize_add, insert, is_empty, Cells, cell, put, filled,
}

pub record DependentState : Type 0 where
  pub onboard : Bool
  pub dependency : Option ℕ

abbrev pub default_state : DependentState
default_state = record { onboard = true; dependency = none }

pub record TxDependency : Type 0 where
  pub num_txs : ℕ
  pub dependent_state : Cells DependentState
  pub affect_txs : Cells (List ℕ)
  pub index : ℕ

unfoldable pub new : ℕ → TxDependency
new num_txs = record {
  num_txs = num_txs;
  dependent_state = filled num_txs default_state;
  affect_txs = filled num_txs [];
  index = 0;
}

-- `fetch_min` on the cursor.
abbrev pub fetch_min : TxDependency → ℕ → TxDependency
fetch_min d tx = record d { index = min d.index tx }

abbrev pub set_state : TxDependency → ℕ → DependentState → TxDependency
set_state d tx s = record d { dependent_state = put d.dependent_state tx s }

-- `next` from its `fetch_add` on, which other threads' calls may come before.
pub claim : TxDependency → Option (TxDependency × Option ℕ)
claim d =
    let d' = record d { index = usize_add d.index 1 } in
    if leb d.num_txs d.index then some (d', none) else (do
      state ← cell d.dependent_state d.index
      if state.onboard && is_none state.dependency
          then some (set_state d' d.index (record state { onboard = false }), some d.index)
          else some (d', none))

unfoldable pub next : TxDependency → Option (TxDependency × Option ℕ)
unfolding claim
next d = if leb d.num_txs d.index then some (d, none) else claim d

-- One round of the loop of `remove`.
pub release : ℕ → Bool → ℕ → TxDependency × Option ℕ → Option (TxDependency × Option ℕ)
release txid pop_next tx (d, handed) = do
  dependent ← cell d.dependent_state tx
  if is_some_eq dependent.dependency txid
      then (if dependent.onboard
          then (if pop_next && tx == txid + 1 && ltb tx d.index
              then some (set_state d tx (record { onboard = false; dependency = none }), some tx)
              else some
                  (fetch_min (set_state d tx (record dependent { dependency = none })) tx, handed))
          else some (set_state d tx (record dependent { dependency = none }), handed))
      else some (d, handed)

pub release_all : ℕ → Bool → List ℕ → TxDependency × Option ℕ → Option (TxDependency × Option ℕ)
unfolding release
release_all txid pop_next [] r = some r
release_all txid pop_next (tx ∷ txs) r =
    release txid pop_next tx r >>= release_all txid pop_next txs

unfoldable pub remove : TxDependency → ℕ → Bool → Option (TxDependency × Option ℕ)
unfolding release_all
remove d txid pop_next = do
  affects ← cell d.affect_txs txid
  if is_empty affects then some (d, none) else (do
    (d', handed) ← release_all txid pop_next affects (d, none)
    some (record d' { affect_txs = put d'.affect_txs txid [] }, handed))

unfoldable pub commit : TxDependency → ℕ → Option TxDependency
commit d txid =
    let succ = txid + 1 in
    if ltb succ d.num_txs
    then (do
      state ← cell d.dependent_state succ
      if state.onboard
          then some (fetch_min (set_state d succ (record state { dependency = none })) succ)
          else some d)
    else some d

-- `commit_idx` is the value that the published cursor has when it is read.
pub key_tx : TxDependency → ℕ → ℕ → Option TxDependency
key_tx d txid commit_idx = do
  state ← cell d.dependent_state txid
  let dependency = if ltb commit_idx txid then some txid else state.dependency
  let d' = set_state d txid (record { onboard = true; dependency = dependency })
  some (if is_none dependency then fetch_min d' txid else d')

pub add_blocked : TxDependency → ℕ → ℕ → Option TxDependency
add_blocked d txid dep_id =
    if ltb dep_id txid
    then (do
      dep ← cell d.affect_txs dep_id
      dep_state ← cell d.dependent_state dep_id
      state ← cell d.dependent_state txid
      let d₁ = set_state d txid (record { onboard = true; dependency = some dep_id })
      let d₂ = record d₁ { affect_txs = put d₁.affect_txs dep_id (insert txid dep) }
      let d₃ = set_state d₂ dep_id (record dep_state { onboard = true })
      some (if is_none dep_state.dependency then fetch_min d₃ dep_id else d₃))
    else none

unfoldable pub add : TxDependency → ℕ → Option ℕ → Option TxDependency
unfolding add_blocked
add d txid (some dep_id) = add_blocked d txid dep_id
add d txid none = do
  state ← cell d.dependent_state txid
  if state.onboard
      then some d
      else some (fetch_min (set_state d txid (record { onboard = true; dependency = none })) txid)
