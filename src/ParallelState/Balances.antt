-- ===== src/ParallelState/Balances.antt =====
-- src/parallel_state.rs: `ParallelState`, whose transitions ordered commit owns, and the balance changes
-- of a block: rewards and withdrawals, and the accounts that the DAO fork drains.
use grevm.Prelude.{ℕ, if◌then◌else◌, Option, none, some, List, [], ◌∷◌, ◌==◌, ◌>>=◌}
use grevm.Revm.{Accounts, Database}
use grevm.Model.{Result, ok, err}
use grevm.Memory.{Keys}
use grevm.ParallelState.{StateTypes, Transition, increment_balance, drain_balance}
use grevm.ParallelState.Cache.{Cache, set_account, apply_evm_state}
use grevm.ParallelState.View.{load_mut_cache_account}

-- `TransitionState` of revm_database.
pub record Transitions (keys : Keys) (revm : Accounts) (types : StateTypes revm) : Type 1 where
  pub State : Type 0
  pub add_transitions : State → List (keys.Address × Transition revm types) → State

module _ (keys : Keys) (revm : Accounts) (types : StateTypes revm) {E : Type 0}
    (database : Database keys.Address revm E) (transitions : Transitions keys revm types) where
  open keys use {Address}
  open revm use {Account}

  pub record ParallelState : Type 0 where
    pub cache : Cache keys revm types
    pub transition_state : Option transitions.State

  unfoldable pub apply_transition :
      ParallelState → List (Address × Transition revm types) → ParallelState
  apply_transition s ts = elim s.transition_state [
    | none ↦ s
    | some old ↦ record s { transition_state = some (transitions.add_transitions old ts) }
  ]

  -- `DatabaseCommit::commit`
  unfoldable pub commit : ParallelState → List (Address × Account) → Option ParallelState
  unfolding apply_transition
  commit s evm_state = do
    (c, ts) ← apply_evm_state keys revm types s.cache evm_state
    some (apply_transition (record s { cache = c }) ts)

  -- The changed accounts before an entry, with what the rest gives.
  abbrev pub prepend :
      {A : Type 0}
      → Option A
      → Cache keys revm types × Result E (List A)
      → Cache keys revm types × Result E (List A)
  prepend x (c, err e) = (c, err e)
  prepend none (c, ok xs) = (c, ok xs)
  prepend (some x) (c, ok xs) = (c, ok (x ∷ xs))

  -- One iteration; a failed expectation is `none`.
  unfoldable pub increment_one :
      Cache keys revm types
      → Address
      → ℕ
      → Option (Cache keys revm types × Result E (Option (Address × Transition revm types)))
  unfolding load_mut_cache_account increment_balance
  increment_one c a balance =
      if balance == 0
      then some (c, ok none)
      else (let (loaded, r) = load_mut_cache_account keys revm types database c c a in
          elim r [
            | err e ↦ some (loaded, err e)
            | ok account ↦ do
              let (new, transition) = increment_balance revm types account balance
              t ← transition
              some (set_account keys revm types loaded a new, ok (some (a, t)))
          ])

  -- A load that fails keeps the earlier changes of the cache.
  unfoldable pub increment_balance_transitions :
      Cache keys revm types
      → List (Address × ℕ)
      → Option (Cache keys revm types × Result E (List (Address × Transition revm types)))
  increment_balance_transitions c [] = some (c, ok [])
  increment_balance_transitions c ((a, balance) ∷ rest) = do
    (c₁, r) ← increment_one c a balance
    elim r [
      | err e ↦ some (c₁, err e)
      | ok t ↦ (do after ← increment_balance_transitions c₁ rest; some (prepend t after))
    ]

  -- The end of `increment_balances`.
  abbrev pub incremented :
      ParallelState
      → Result E (List (Address × Transition revm types))
      → ParallelState × Result E (Unit {0})
  incremented s (err e) = (s, err e)
  incremented s (ok ts) = (apply_transition s ts, ok tt)

  unfoldable pub increment_balances :
      ParallelState → List (Address × ℕ) → Option (ParallelState × Result E (Unit {0}))
  unfolding increment_balance_transitions
  increment_balances s balances = do
    (c, r) ← increment_balance_transitions s.cache balances
    some (incremented (record s { cache = c }) r)

  -- One iteration of `drain_balances`; a balance that does not fit is `none`.
  unfoldable pub drain_one :
      Cache keys revm types
      → Address
      → Option (Cache keys revm types × Result E (ℕ × Address × Transition revm types))
  unfolding load_mut_cache_account drain_balance
  drain_one c a =
      let (loaded, r) = load_mut_cache_account keys revm types database c c a in
      elim r [
        | err e ↦ some (loaded, err e)
        | ok account ↦ do
          (new, balance, t) ← drain_balance revm types account
          some (set_account keys revm types loaded a new, ok (balance, a, t))
      ]

  unfoldable pub drain_each :
      Cache keys revm types
      → List Address
      → Option (Cache keys revm types × Result E (List (ℕ × Address × Transition revm types)))
  drain_each c [] = some (c, ok [])
  drain_each c (a ∷ rest) = do
    (c₁, r) ← drain_one c a
    elim r [
      | err e ↦ some (c₁, err e)
      | ok t ↦ (do after ← drain_each c₁ rest; some (prepend (some t) after))
    ]

  abbrev pub balances_of : List (ℕ × Address × Transition revm types) → List ℕ
  balances_of [] = []
  balances_of ((balance, a, t) ∷ rest) = balance ∷ balances_of rest

  abbrev pub transitions_of :
      List (ℕ × Address × Transition revm types) → List (Address × Transition revm types)
  transitions_of [] = []
  transitions_of ((balance, a, t) ∷ rest) = (a, t) ∷ transitions_of rest

  -- The end of `drain_balances`.
  abbrev pub drained :
      ParallelState
      → Result E (List (ℕ × Address × Transition revm types))
      → ParallelState × Result E (List ℕ)
  drained s (err e) = (s, err e)
  drained s (ok entries) = (apply_transition s (transitions_of entries), ok (balances_of entries))

  unfoldable pub drain_balances :
      ParallelState → List Address → Option (ParallelState × Result E (List ℕ))
  unfolding drain_each
  drain_balances s addresses = do
    (c, r) ← drain_each s.cache addresses
    some (drained (record s { cache = c }) r)
