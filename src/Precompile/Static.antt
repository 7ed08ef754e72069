-- ===== src/Precompile/Static.antt =====
-- src/precompile.rs: static calls.
use grevm.Prelude.{ℕ, true, sym, ap, subst}
use grevm.Model.{Result, ok, err, map_ok}
use grevm.Precompile.{
  EvmInternals, ParallelPrecompileError, Precompile, returns, asks_balance, asks_slot, sets_balance,
  sets_slot, to_alloy,
}
use grevm.Precompile.Strict.{strict, or_stop, as_fault, to_alloy-strict}

module _ (evm : EvmInternals) where
  open evm use {State, Address, PrecompileOutput}

  -- What the journal can become by loads of accounts and slots alone.
  pub data Loads : State → State → Type 0 where
    nothing : {s : State} → Loads s s
    account : {s s' : State} (a : Address) → Loads (evm.load_account s a).0 s' → Loads s s'
    slot : {s s' : State} (a : Address) (key : ℕ) → Loads (evm.sload s a key).0 s' → Loads s s'

  or_stop-Loads :
      {T : Type 0} (r : State × Result evm.InternalsError T)
      (next : State
        → Result (ParallelPrecompileError evm) T
        → State × Result (ParallelPrecompileError evm) PrecompileOutput)
      → ((load : T) (s : State) → Loads s (next s (ok load)).0)
      → Loads r.0 (or_stop evm (as_fault evm r) next).0
  or_stop-Loads (s, ok load) next rest = rest load s
  or_stop-Loads (s, err error) next rest = nothing

  strict-Loads : (p : Precompile evm) (s : State) → Loads s (strict evm p s true).0
  unfolding strict
  strict-Loads (returns result) s = nothing
  strict-Loads (asks_balance address next) s = account address (
      or_stop-Loads
        (
          (evm.load_account s address).0,
          map_ok (λ l. evm.map_load evm.balance_of l) (evm.load_account s address).1,
        )
        (λ s' answer. strict evm (next answer) s' true)
        (λ load s'. strict-Loads (next (ok load)) s'))
  strict-Loads (asks_slot address key next) s = slot address key (
      or_stop-Loads (evm.sload s address key) (λ s' answer. strict evm (next answer) s' true)
        (λ load s'. strict-Loads (next (ok load)) s'))
  strict-Loads (sets_balance address value next) s = nothing
  strict-Loads (sets_slot address key value next) s = nothing

  -- A static call changes the journal by loads alone, whatever the implementation.
  pub to_alloy-Loads :
      (p : Precompile evm) (s : State) (reservoir : ℕ) → Loads s (to_alloy evm p s true reservoir).0
  to_alloy-Loads p s reservoir =
      subst (λ (s' : State). Loads s s')
        (ap (λ r. r.0) (sym (to_alloy-strict evm p s true reservoir))) (strict-Loads p s)
