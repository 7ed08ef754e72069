-- ===== src/Config.antt =====
-- src/config.rs, src/delegated_safety/config.rs, `new_with_runtime_config` and `build` of
-- src/scheduler.rs, and `build_evm` of src/scheduler/executor.rs: the configuration of a scheduler and
-- what it turns on. revm's hard forks and the process's environment are parameters. A panic is `none`.
pub mod Policy
pub mod Create
mod Tests
use grevm.Prelude.{
  ℕ, Bool, true, false, ◌&&◌, Option, none, some, ltb, if◌then◌else◌, unwrap_or, ◌>>=◌, is_none,
  not, ◌==◌,
}
use grevm.Memory.{Keys}

-- `SpecId`
pub record Specs : Type 1 where
  pub SpecId : Type 0
  pub is_enabled_in : SpecId → SpecId → Bool
  pub prague : SpecId
  pub petersburg : SpecId

pub record DelegatedSafetyConfig : Type 0 where
  pub forbid_delegated_create : Bool
  pub reserve_delegated_balance : Bool

abbrev pub disabled : DelegatedSafetyConfig
disabled = record { forbid_delegated_create = false; reserve_delegated_balance = false }

abbrev pub create_only : DelegatedSafetyConfig
create_only = record { forbid_delegated_create = true; reserve_delegated_balance = false }

abbrev pub reserve_only : DelegatedSafetyConfig
reserve_only = record { forbid_delegated_create = false; reserve_delegated_balance = true }

abbrev pub enabled : DelegatedSafetyConfig
enabled = record { forbid_delegated_create = true; reserve_delegated_balance = true }

pub record GrevmConfig : Type 0 where
  pub concurrency_level : ℕ
  pub force_sequential : Bool
  pub min_parallel_txs : ℕ
  pub delegated_safety : DelegatedSafetyConfig

-- `GrevmConfig::default`, from what `available_parallelism` says.
unfoldable pub default_config : Option ℕ → GrevmConfig
default_config parallelism = record {
  concurrency_level = unwrap_or parallelism 8;
  force_sequential = false;
  min_parallel_txs = 64;
  delegated_safety = disabled;
}

-- The variables that are read.
pub data Variable : Type 0 where
  grevm_concurrent_level grevm_fallback_sequential grevm_min_parallel_txs : Variable

-- The process's environment, and the parsers of `FromStr`.
pub record Environment : Type 1 where
  pub Text : Type 0
  pub var : Variable → Option Text
  pub parse_usize : Text → Option ℕ
  pub parse_bool : Text → Option Bool
  pub available_parallelism : Option ℕ

-- `env_or`
pub env_or : {Text A : Type 0} → Option Text → (Text → Option A) → A → A
env_or value parse default = unwrap_or (value >>= parse) default

unfoldable pub from_env : Environment → GrevmConfig
unfolding env_or default_config
from_env env =
    let defaults = default_config env.available_parallelism in
    record {
      concurrency_level =
          env_or (env.var grevm_concurrent_level) env.parse_usize defaults.concurrency_level;
      force_sequential =
          env_or (env.var grevm_fallback_sequential) env.parse_bool defaults.force_sequential;
      min_parallel_txs =
          env_or (env.var grevm_min_parallel_txs) env.parse_usize defaults.min_parallel_txs;
      delegated_safety = defaults.delegated_safety;
    }

abbrev pub with_delegated_safety : GrevmConfig → DelegatedSafetyConfig → GrevmConfig
with_delegated_safety config safety = record config { delegated_safety = safety }

module _ (specs : Specs) (keys : Keys) where
  open keys use {Address, eqb}
  open specs use {SpecId, is_enabled_in, prague}

  unfoldable pub for_spec : DelegatedSafetyConfig → SpecId → DelegatedSafetyConfig
  for_spec safety spec = if is_enabled_in spec prague then safety else disabled

  -- What a scheduler keeps of its configuration, with the beneficiary of its block; the planner is one
  -- of the block's transactions.
  pub record Runtime (Planner : Type 0) : Type 0 where
    pub spec : SpecId
    pub beneficiary : Address
    pub config : GrevmConfig
    pub reserve_planner : Option Planner

  -- `new_with_runtime_config` and `build`.
  unfoldable pub new_with_runtime_config :
      {Planner : Type 0} → Planner → SpecId → Address → GrevmConfig → Option (Runtime Planner)
  unfolding for_spec
  new_with_runtime_config {Planner} planner spec beneficiary config =
      if ltb 0 config.concurrency_level
      then (let safety = for_spec config.delegated_safety spec in
          some (record {
            spec = spec;
            beneficiary = beneficiary;
            config = record config { delegated_safety = safety };
            reserve_planner = if safety.reserve_delegated_balance then some planner else none;
          }))
      else none

  -- The instruction table of an EVM: revm's, or the one of `gravity_instructions`.
  pub data Instructions : Type 0 where
    mainnet gravity_instructions : Instructions

  -- `build_evm`, as far as the configuration goes.
  unfoldable pub build_evm : SpecId → Bool → Instructions
  build_evm spec forbid_delegated_create =
      if forbid_delegated_create && is_enabled_in spec prague then gravity_instructions else mainnet

  abbrev pub agrees : Bool → Bool → Bool
  agrees true b = b
  agrees false b = not b

  -- `GrevmExecutor::new` on an incarnation database of the given beneficiary: the assertion wants it to
  -- be the block's, and the debug assertion wants the planner exactly if the policy does.
  unfoldable pub new_executor :
      {Planner : Type 0} → Address → Runtime Planner → Option (Instructions × Option Planner)
  unfolding build_evm
  new_executor {Planner} db_beneficiary r =
      let safety = r.config.delegated_safety in
      if eqb db_beneficiary r.beneficiary
        && agrees safety.reserve_delegated_balance (not (is_none r.reserve_planner))
      then some (build_evm r.spec safety.forbid_delegated_create, r.reserve_planner)
      else none

  -- The executor of a worker of `parallel_execute_inner`, whose database takes the `Beneficiary` of the
  -- scheduler's own environment.
  unfoldable pub worker_executor :
      {Planner : Type 0} → Runtime Planner → Option (Instructions × Option Planner)
  unfolding new_executor
  worker_executor r = new_executor r.beneficiary r
