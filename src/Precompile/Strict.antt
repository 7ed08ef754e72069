-- ===== src/Precompile/Strict.antt =====
-- src/precompile.rs: an implementation that goes on after a fault.
use grevm.Prelude.{ℕ, ◌≡◌, Bool, true, false, none, some, if◌then◌else◌, refl, arith, ap, sym, ◌∙◌}
use grevm.Model.{Result, ok, err, map_ok}
use grevm.Precompile.{
  EvmInternals, ParallelPrecompileError, halt, PrecompileState, Precompile, returns, asks_balance,
  asks_slot, sets_balance, sets_slot, balance, sload, set_balance, sstore, call, to_alloy,
  to_output, reported, written, database, answered, record_fault, ensure_healthy, ensure_mutable,
}

module _ (evm : EvmInternals) where
  open evm use {State, Address, PrecompileError, PrecompileOutput, StateLoad}

  -- The implementation ends at the first error of an operation, which is its result.
  abbrev pub or_stop :
      {T : Type 0}
      → State × Result (ParallelPrecompileError evm) T
      → (State
          → Result (ParallelPrecompileError evm) T
          → State × Result (ParallelPrecompileError evm) PrecompileOutput)
      → State × Result (ParallelPrecompileError evm) PrecompileOutput
  or_stop (s, err fault) next = (s, err fault)
  or_stop (s, ok load) next = next s (ok load)

  abbrev pub as_fault :
      {T : Type 0}
      → State × Result evm.InternalsError T
      → State × Result (ParallelPrecompileError evm) T
  as_fault (s, ok load) = (s, ok load)
  as_fault (s, err error) = (s, err (database evm error))

  -- A write, which a static call refuses.
  abbrev pub unless_static :
      {T : Type 0}
      → Bool
      → State
      → State × Result evm.InternalsError T
      → State × Result (ParallelPrecompileError evm) T
  unless_static is_static s answer =
      if is_static then (s, err (halt evm.static_halt)) else as_fault answer

  -- The implementation over the journal itself, with no fault to keep.
  unfoldable pub strict :
      Precompile evm → State → Bool → State × Result (ParallelPrecompileError evm) PrecompileOutput
  strict (returns result) s is_static = (s, result)
  strict (asks_balance address next) s is_static =
      let (s', load) = evm.load_account s address in
      or_stop (as_fault (s', map_ok (λ l. evm.map_load evm.balance_of l) load))
        (λ s'' answer. strict (next answer) s'' is_static)
  strict (asks_slot address key next) s is_static =
      or_stop (as_fault (evm.sload s address key)) (λ s' answer. strict (next answer) s' is_static)
  strict (sets_balance address value next) s is_static =
      or_stop (unless_static is_static s (written evm (evm.load_account_mut s address) value))
        (λ s' answer. strict (next answer) s' is_static)
  strict (sets_slot address key value next) s is_static =
      or_stop (unless_static is_static s (evm.sstore s address key value))
        (λ s' answer. strict (next answer) s' is_static)

  -- After a fault nothing changes.
  call-faulted :
      (p : Precompile evm) (s : PrecompileState evm) (fault : ParallelPrecompileError evm)
      → s.fault ≡ some fault
      → (call evm p s).0 ≡ s
  unfolding call balance sload set_balance sstore ensure_healthy ensure_mutable
  call-faulted (returns result) s fault e = refl
  call-faulted (asks_balance address next) s fault e =
      ground (arith, e, call-faulted (next (err fault)) s fault e)
  call-faulted (asks_slot address key next) s fault e =
      ground (arith, e, call-faulted (next (err fault)) s fault e)
  call-faulted (sets_balance address value next) s fault e =
      ground (arith, e, call-faulted (next (err fault)) s fault e)
  call-faulted (sets_slot address key value next) s fault e =
      ground (arith, e, call-faulted (next (err fault)) s fault e)

  -- What a call gives once its fault has taken the place of the result.
  abbrev finish :
      PrecompileState evm × Result (ParallelPrecompileError evm) PrecompileOutput
      → State × Result (ParallelPrecompileError evm) PrecompileOutput
  finish (after, result) = (after.internals, reported evm after.fault result)

  abbrev healthy : State → Bool → PrecompileState evm
  healthy s is_static = record { internals = s; is_static = is_static; fault = none }

  -- An operation of the facade and one over the journal give the same answer or the same fault.
  data Agrees {T : Type 0} (is_static : Bool)
      (p : PrecompileState evm × Result (ParallelPrecompileError evm) T)
      (q : State × Result (ParallelPrecompileError evm) T) : Type 0 where
    answers :
        (s : State) (load : T)
        → p ≡ (healthy s is_static, ok load)
        → q ≡ (s, ok load)
        → Agrees is_static p q
    faults :
        (after : PrecompileState evm) (fault : ParallelPrecompileError evm)
        → after.fault ≡ some fault
        → p ≡ (after, err fault)
        → q ≡ (after.internals, err fault)
        → Agrees is_static p q

  answered-Agrees :
      {T : Type 0} (is_static : Bool) (s : State) (r : State × Result evm.InternalsError T)
      → Agrees is_static (answered evm (healthy s is_static) r) (as_fault r)
  unfolding record_fault
  answered-Agrees is_static s (s', ok load) = answers s' load refl refl
  answered-Agrees is_static s (s', err error) =
      faults (record (healthy s' is_static) { fault = some (database evm error) })
        (database evm error) refl refl refl

  -- An operation, and the rest of the call.
  continued :
      {T : Type 0} (is_static : Bool)
      (p : PrecompileState evm × Result (ParallelPrecompileError evm) T)
      (q : State × Result (ParallelPrecompileError evm) T)
      (next : Result (ParallelPrecompileError evm) T → Precompile evm)
      → Agrees is_static p q
      → ((load : T) (s : State)
          → finish (call evm (next (ok load)) (healthy s is_static))
            ≡ strict (next (ok load)) s is_static)
      → finish (call evm (next p.1) p.0)
        ≡ or_stop q (λ s' answer. strict (next answer) s' is_static)
  continued is_static p q next (answers s load ep eq) rest =
      ap (λ x. finish (call evm (next x.1) x.0)) ep
      ∙ rest load s
      ∙ ap (λ x. or_stop x (λ s' answer. strict (next answer) s' is_static)) (sym eq)
  continued is_static p q next (faults after fault is ep eq) rest =
      ap (λ x. finish (call evm (next x.1) x.0)) ep
      ∙ ground (arith, call-faulted (next (err fault)) after fault is, is)
      ∙ ap (λ x. or_stop x (λ s' answer. strict (next answer) s' is_static)) (sym eq)

  balance-Agrees :
      (is_static : Bool) (s : State) (address : Address)
      → Agrees is_static (balance evm (healthy s is_static) address) (
          as_fault (
            (evm.load_account s address).0,
            map_ok (λ l. evm.map_load evm.balance_of l) (evm.load_account s address).1,
          ))
  unfolding balance ensure_healthy
  balance-Agrees is_static s address = answered-Agrees is_static s (
    (evm.load_account s address).0,
    map_ok (λ l. evm.map_load evm.balance_of l) (evm.load_account s address).1,
  )

  sload-Agrees :
      (is_static : Bool) (s : State) (address : Address) (key : ℕ)
      → Agrees is_static
          (sload evm (healthy s is_static) address key)
          (as_fault (evm.sload s address key))
  unfolding sload ensure_healthy
  sload-Agrees is_static s address key = answered-Agrees is_static s (evm.sload s address key)

  set_balance-Agrees :
      (is_static : Bool) (s : State) (address : Address) (value : ℕ)
      → Agrees is_static
          (set_balance evm (healthy s is_static) address value)
          (unless_static is_static s (written evm (evm.load_account_mut s address) value))
  unfolding set_balance ensure_mutable ensure_healthy record_fault
  set_balance-Agrees true s address value =
      faults (record (healthy s true) { fault = some (halt evm.static_halt) })
        (halt evm.static_halt) refl refl refl
  set_balance-Agrees false s address value =
      answered-Agrees false s (written evm (evm.load_account_mut s address) value)

  sstore-Agrees :
      (is_static : Bool) (s : State) (address : Address) (key value : ℕ)
      → Agrees is_static
          (sstore evm (healthy s is_static) address key value)
          (unless_static is_static s (evm.sstore s address key value))
  unfolding sstore ensure_mutable ensure_healthy record_fault
  sstore-Agrees true s address key value =
      faults (record (healthy s true) { fault = some (halt evm.static_halt) })
        (halt evm.static_halt) refl refl refl
  sstore-Agrees false s address key value = answered-Agrees false s (evm.sstore s address key value)

  call-strict :
      (p : Precompile evm) (s : State) (is_static : Bool)
      → finish (call evm p (healthy s is_static)) ≡ strict p s is_static
  unfolding call strict
  call-strict (returns result) s is_static = refl
  call-strict (asks_balance address next) s is_static =
      continued is_static (balance evm (healthy s is_static) address)
        (as_fault (
          (evm.load_account s address).0,
          map_ok (λ l. evm.map_load evm.balance_of l) (evm.load_account s address).1,
        ))
        next (balance-Agrees is_static s address)
        (λ load s'. call-strict (next (ok load)) s' is_static)
  call-strict (asks_slot address key next) s is_static =
      continued is_static (sload evm (healthy s is_static) address key)
        (as_fault (evm.sload s address key)) next (sload-Agrees is_static s address key)
        (λ load s'. call-strict (next (ok load)) s' is_static)
  call-strict (sets_balance address value next) s is_static =
      continued is_static (set_balance evm (healthy s is_static) address value)
        (unless_static is_static s (written evm (evm.load_account_mut s address) value)) next
        (set_balance-Agrees is_static s address value)
        (λ load s'. call-strict (next (ok load)) s' is_static)
  call-strict (sets_slot address key value next) s is_static =
      continued is_static (sstore evm (healthy s is_static) address key value)
        (unless_static is_static s (evm.sstore s address key value)) next
        (sstore-Agrees is_static s address key value)
        (λ load s'. call-strict (next (ok load)) s' is_static)

  -- A call through Alloy changes the journal and reports as if the implementation had ended at the
  -- first error of an operation, whatever it made of the error.
  pub to_alloy-strict :
      (p : Precompile evm) (s : State) (is_static : Bool) (reservoir : ℕ)
      → to_alloy evm p s is_static reservoir
        ≡ ((strict p s is_static).0, to_output evm reservoir (strict p s is_static).1)
  unfolding to_alloy
  to_alloy-strict p s is_static reservoir =
      ap (λ x. (x.0, to_output evm reservoir x.1)) (call-strict p s is_static)
