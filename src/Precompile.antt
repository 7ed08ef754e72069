-- ===== src/Precompile.antt =====
-- src/precompile.rs: custom precompiles, which reach the state of the EVM only by four operations. A
-- fault of one of them stays: later ones fail with it, and it is the result of the call.
pub mod Strict
pub mod Static
mod Tests
use grevm.Prelude.{ℕ, Bool, Option, none, some, if◌then◌else◌}
use grevm.Model.{Result, ok, err, map_ok}

-- What the code uses of `EvmInternals` and of revm's precompile types: the journal's loads and writes,
-- which change it also when they fail.
pub record EvmInternals : Type 1 where
  pub State : Type 0
  pub Address : Type 0
  pub Account : Type 0
  pub AccountMut : Type 0
  pub SStoreResult : Type 0
  pub InternalsError : Type 0
  pub PrecompileHalt : Type 0
  pub PrecompileError : Type 0
  pub PrecompileOutput : Type 0
  -- a value with whether the access was cold
  pub StateLoad : Type 0 → Type 0
  pub map_load : {A B : Type 0} → (A → B) → StateLoad A → StateLoad B
  pub data_of : {A : Type 0} → StateLoad A → A
  pub load_account : State → Address → State × Result InternalsError (StateLoad Account)
  pub load_account_mut : State → Address → State × Result InternalsError (StateLoad AccountMut)
  pub sload : State → Address → ℕ → State × Result InternalsError (StateLoad ℕ)
  pub sstore : State → Address → ℕ → ℕ → State × Result InternalsError (StateLoad SStoreResult)
  pub balance_of : Account → ℕ
  pub write_balance : State → AccountMut → ℕ → State
  -- `PrecompileError::Fatal(error.to_string())`
  pub fatal_error : InternalsError → PrecompileError
  -- `PrecompileHalt::other_static("state change during static call")`
  pub static_halt : PrecompileHalt
  -- `PrecompileOutput::halt`, with the reservoir
  pub halt_output : PrecompileHalt → ℕ → PrecompileOutput

module _ (evm : EvmInternals) where
  open evm use {
    State, Address, SStoreResult, PrecompileHalt, PrecompileError, PrecompileOutput, StateLoad,
  }

  pub data ParallelPrecompileError : Type 0 where
    halt : PrecompileHalt → ParallelPrecompileError
    fatal : PrecompileError → ParallelPrecompileError

  -- `ParallelPrecompileState`
  pub record PrecompileState : Type 0 where
    pub internals : State
    pub is_static : Bool
    pub fault : Option ParallelPrecompileError

  -- `ParallelPrecompileError::database`
  abbrev pub database : evm.InternalsError → ParallelPrecompileError
  database error = fatal (evm.fatal_error error)

  -- `get_or_insert`
  abbrev pub first_of :
      Option ParallelPrecompileError → ParallelPrecompileError → ParallelPrecompileError
  first_of none fault = fault
  first_of (some first) fault = first

  pub record_fault :
      {T : Type 0}
      → PrecompileState
      → ParallelPrecompileError
      → PrecompileState × Result ParallelPrecompileError T
  record_fault s fault =
      let recorded = first_of s.fault fault in (record s { fault = some recorded }, err recorded)

  pub ensure_healthy : PrecompileState → Result ParallelPrecompileError (Unit {0})
  ensure_healthy s = elim s.fault [ none ↦ ok tt | some fault ↦ err fault ]

  pub ensure_mutable : PrecompileState → PrecompileState × Result ParallelPrecompileError (Unit {0})
  unfolding ensure_healthy record_fault
  ensure_mutable s = elim (ensure_healthy s) [
    | err fault ↦ (s, err fault)
    | ok u ↦ if s.is_static then record_fault s (halt evm.static_halt) else (s, ok u)
  ]

  -- What an operation gives once the journal has answered.
  abbrev pub answered :
      {T : Type 0}
      → PrecompileState
      → State × Result evm.InternalsError T
      → PrecompileState × Result ParallelPrecompileError T
  answered s (internals, ok load) = (record s { internals = internals }, ok load)
  answered s (internals, err error) =
      record_fault (record s { internals = internals }) (database error)

  pub balance :
      PrecompileState → Address → PrecompileState × Result ParallelPrecompileError (StateLoad ℕ)
  unfolding ensure_healthy record_fault
  balance s address = elim (ensure_healthy s) [
    | err fault ↦ (s, err fault)
    | ok u ↦
        let (internals, load) = evm.load_account s.internals address in
        answered s (internals, map_ok (λ l. evm.map_load evm.balance_of l) load)
  ]

  pub sload :
      PrecompileState → Address → ℕ → PrecompileState × Result ParallelPrecompileError (StateLoad ℕ)
  unfolding ensure_healthy record_fault
  sload s address key = elim (ensure_healthy s) [
    | err fault ↦ (s, err fault)
    | ok u ↦ answered s (evm.sload s.internals address key)
  ]

  -- The write through the loaded account.
  abbrev pub written :
      State × Result evm.InternalsError (StateLoad evm.AccountMut)
      → ℕ
      → State × Result evm.InternalsError (StateLoad (Unit {0}))
  written (internals, err error) balance = (internals, err error)
  written (internals, ok load) balance = (
    evm.write_balance internals (evm.data_of load) balance,
    ok (evm.map_load (λ account. tt) load),
  )

  pub set_balance :
      PrecompileState
      → Address
      → ℕ
      → PrecompileState × Result ParallelPrecompileError (StateLoad (Unit {0}))
  unfolding ensure_mutable record_fault
  set_balance s address balance =
      let (checked, mutable) = ensure_mutable s in
      elim mutable [
        | err fault ↦ (checked, err fault)
        | ok u ↦ answered checked (written (evm.load_account_mut checked.internals address) balance)
      ]

  pub sstore :
      PrecompileState
      → Address
      → ℕ
      → ℕ
      → PrecompileState × Result ParallelPrecompileError (StateLoad SStoreResult)
  unfolding ensure_mutable record_fault
  sstore s address key value =
      let (checked, mutable) = ensure_mutable s in
      elim mutable [
        | err fault ↦ (checked, err fault)
        | ok u ↦ answered checked (evm.sstore checked.internals address key value)
      ]

  -- An implementation: it can use the answers of the four operations, and nothing else of the state.
  pub data Precompile : Type 0 where
    returns : Result ParallelPrecompileError PrecompileOutput → Precompile
    asks_balance :
        Address → (Result ParallelPrecompileError (StateLoad ℕ) → Precompile) → Precompile
    asks_slot :
        Address → ℕ → (Result ParallelPrecompileError (StateLoad ℕ) → Precompile) → Precompile
    sets_balance :
        Address
        → ℕ
        → (Result ParallelPrecompileError (StateLoad (Unit {0})) → Precompile)
        → Precompile
    sets_slot :
        Address
        → ℕ
        → ℕ
        → (Result ParallelPrecompileError (StateLoad SStoreResult) → Precompile)
        → Precompile

  pub call :
      Precompile
      → PrecompileState
      → PrecompileState × Result ParallelPrecompileError PrecompileOutput
  unfolding balance sload set_balance sstore
  call (returns result) s = (s, result)
  call (asks_balance address next) s =
      let (after, answer) = balance s address in call (next answer) after
  call (asks_slot address key next) s =
      let (after, answer) = sload s address key in call (next answer) after
  call (sets_balance address value next) s =
      let (after, answer) = set_balance s address value in call (next answer) after
  call (sets_slot address key value next) s =
      let (after, answer) = sstore s address key value in call (next answer) after

  -- What Alloy gets: a fault takes the place of the result, and a halt is an output.
  abbrev pub reported :
      Option ParallelPrecompileError
      → Result ParallelPrecompileError PrecompileOutput
      → Result ParallelPrecompileError PrecompileOutput
  reported none result = result
  reported (some fault) result = err fault

  abbrev pub to_output :
      ℕ → Result ParallelPrecompileError PrecompileOutput → Result PrecompileError PrecompileOutput
  to_output reservoir (ok output) = ok output
  to_output reservoir (err (halt reason)) = ok (evm.halt_output reason reservoir)
  to_output reservoir (err (fatal error)) = err error

  -- The closure of `to_alloy`, with the journal before and after.
  pub to_alloy : Precompile → State → Bool → ℕ → State × Result PrecompileError PrecompileOutput
  unfolding call
  to_alloy precompile internals is_static reservoir =
      let (after, result) =
        call precompile (record { internals = internals; is_static = is_static; fault = none }) in
      (after.internals, to_output reservoir (reported after.fault result))
