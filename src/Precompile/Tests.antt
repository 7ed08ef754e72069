-- ===== src/Precompile/Tests.antt =====
-- A precompile that ignores a failed load, and one that writes in a static call.
use grevm.Prelude.{ℕ, ◌≡◌, true, false, ◌==◌, if◌then◌else◌}
use grevm.Model.{ok, err}
use grevm.Precompile.{EvmInternals, Precompile, returns, asks_balance, sets_balance, to_alloy}
use grevm.Precompile.Static.{Loads, to_alloy-Loads}
use grevm.Precompile.Strict.{strict, to_alloy-strict}

-- A journal of one balance, whose account 9 cannot be loaded.
abbrev journal : EvmInternals
journal = record {
  State = ℕ;
  Address = ℕ;
  Account = ℕ;
  AccountMut = ℕ;
  SStoreResult = ℕ;
  InternalsError = ℕ;
  PrecompileHalt = ℕ;
  PrecompileError = ℕ;
  PrecompileOutput = ℕ;
  StateLoad = λ A. A;
  map_load = λ f x. f x;
  data_of = λ x. x;
  load_account = λ s a. if a == 9 then (s, err a) else (s, ok s);
  load_account_mut = λ s a. if a == 9 then (s, err a) else (s, ok a);
  sload = λ s a key. (s, ok key);
  sstore = λ s a key value. (s, ok value);
  balance_of = λ x. x;
  write_balance = λ s a value. value;
  fatal_error = λ e. e;
  static_halt = 40;
  halt_output = λ reason reservoir. reason;
}

abbrev careless : Precompile journal
careless = asks_balance 9 (λ load. sets_balance 1 5 (λ written. returns (ok 7)))

to_alloy-strict_example : to_alloy journal careless 3 false 0 ≡ (3, err 9)
unfolding strict
to_alloy-strict_example = to_alloy-strict journal careless 3 false 0

writes : to_alloy journal (sets_balance 1 5 (λ written. returns (ok 7))) 3 false 0 ≡ (5, ok 7)
unfolding strict
writes = to_alloy-strict journal (sets_balance 1 5 (λ written. returns (ok 7))) 3 false 0

abbrev static_writer : Precompile journal
static_writer = asks_balance 1 (λ load. sets_balance 1 5 (λ written. returns (ok 7)))

refused : to_alloy journal static_writer 3 true 0 ≡ (3, ok 40)
unfolding strict
refused = to_alloy-strict journal static_writer 3 true 0

to_alloy-Loads_example : Loads journal 3 (to_alloy journal static_writer 3 true 0).0
to_alloy-Loads_example = to_alloy-Loads journal static_writer 3 0
