-- ===== src/Config/Tests.antt =====
-- Hard forks as numbers, with Petersburg as 8 and Prague as 20.
use grevm.Prelude.{
  ℕ, ◌≡◌, ◌≢◌, true, false, Option, none, some, leb, refl, arith, if◌then◌else◌, ◌==◌,
}
use grevm.Model.{ok, err}
use grevm.Scheduler.Sample.{numbers}
use grevm.Config.{
  Specs, enabled, GrevmConfig, Environment, Variable, grevm_concurrent_level,
  grevm_fallback_sequential, grevm_min_parallel_txs, from_env, with_delegated_safety,
  default_config, Runtime, new_with_runtime_config, new_executor, worker_executor, mainnet,
  gravity_instructions, disabled,
}
use grevm.Config.Policy.{new_with_runtime_config-worker_executor}
use grevm.Config.Create.{CreateContext, guarded_create, guarded_create-create}

abbrev forks : Specs
forks = record { SpecId = ℕ; is_enabled_in = λ a b. leb b a; prague = 20; petersburg = 8 }

-- The level cannot be parsed, and the threshold is 4.
abbrev var : Variable → Option ℕ
var grevm_concurrent_level = some 0
var grevm_fallback_sequential = none
var grevm_min_parallel_txs = some 4

abbrev environment : Environment
environment = record {
  Text = ℕ;
  var = var;
  parse_usize = λ t. if t == 0 then none else some t;
  parse_bool = λ t. none;
  available_parallelism = some 3;
}

reads : from_env environment ≡ record {
  concurrency_level = 3;
  force_sequential = false;
  min_parallel_txs = 4;
  delegated_safety = disabled;
}
unfolding from_env
reads = refl

abbrev config : GrevmConfig
config = with_delegated_safety (default_config none) enabled

abbrev built : ℕ → Runtime forks numbers ℕ
built spec = record {
  spec = spec;
  beneficiary = 9;
  config = with_delegated_safety config (if leb 20 spec then enabled else disabled);
  reserve_planner = if leb 20 spec then some 5 else none;
}

new_with_runtime_config-worker_executor_example :
    (r : Runtime forks numbers ℕ) × (new_with_runtime_config forks numbers 5 21 9 config ≡ some r)
    × (worker_executor forks numbers r ≡ some (gravity_instructions, some 5))
    × (r.config ≡ config)
    × ((other : ℕ) → other ≢ 9 → new_executor forks numbers other r ≡ none)
unfolding default_config
new_with_runtime_config-worker_executor_example =
    new_with_runtime_config-worker_executor forks numbers 5 21 9 config (omega arith)

before_prague : worker_executor forks numbers (built 19) ≡ some (mainnet, none)
unfolding worker_executor
before_prague = refl

-- CREATE2 in a call of the delegated account 1 on Prague.
abbrev delegated : CreateContext forks
delegated = record {
  Address = ℕ;
  InstructionResult = ℕ;
  state_change_during_static_call = 1;
  not_activated = 2;
  fatal_external_error = 3;
  Interpreter = ℕ;
  is_static = false;
  spec_id = 20;
  target_address = 1;
  load_account_delegated = λ a. some (if a == 1 then some true else none);
  create = λ is_create2. ok 7;
}

guarded_create-create_example : guarded_create forks delegated true ≡ err 2
guarded_create-create_example =
    guarded_create-create forks delegated
      (record { in_static = λ b h. ground (arith, h); not_yet = λ b h e. ground (arith, e) }) true
      (some true) refl
