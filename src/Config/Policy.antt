-- ===== src/Config/Policy.antt =====
-- src/config.rs and src/scheduler.rs: the policies of a scheduler, by the hard fork of its block.
use grevm.Prelude.{
  ◌≡◌, ◌≢◌, ◌<◌, Bool, true, Bool-cases, inl, inr, Option, none, some, refl, arith, if◌then◌else◌,
}
use grevm.Memory.{Keys}
use grevm.Config.{
  Specs, DelegatedSafetyConfig, disabled, GrevmConfig, for_spec, Runtime, new_with_runtime_config,
  Instructions, mainnet, gravity_instructions, build_evm, new_executor, worker_executor,
}

module _ (specs : Specs) (keys : Keys) where
  -- The effective policy: none before Prague, the configured one from there on.
  abbrev pub effective : specs.SpecId → DelegatedSafetyConfig → DelegatedSafetyConfig
  effective spec safety = if specs.is_enabled_in spec specs.prague then safety else disabled

  abbrev pub when : {A : Type 0} → Bool → A → Option A
  when {A} b a = if b then some a else none

  abbrev pub table_of : Bool → Instructions specs keys
  table_of guarded = if guarded then gravity_instructions else mainnet

  -- A scheduler of a block is built for every configuration with a worker. Each executor of its workers
  -- meets its assertions; it guards CREATE exactly if the configuration forbids delegated creation and
  -- the block's fork has Prague, and checks reserves exactly if the configuration reserves delegated
  -- balances and the fork has Prague; the execution settings are the configured ones. An executor on a
  -- database of another beneficiary than the block's would fail its assertion.
  pub new_with_runtime_config-worker_executor :
      {Planner : Type 0} (planner : Planner) (spec : specs.SpecId) (beneficiary : keys.Address)
      (config : GrevmConfig)
      → 0 < config.concurrency_level
      → (r : Runtime specs keys Planner) × (new_with_runtime_config specs keys planner spec
            beneficiary config
          ≡ some r)
        × (worker_executor specs keys r
            ≡ some (
              table_of (effective spec config.delegated_safety).forbid_delegated_create,
              when (effective spec config.delegated_safety).reserve_delegated_balance planner,
            ))
        × (r.config ≡ record config { delegated_safety = effective spec config.delegated_safety })
        × ((other : keys.Address) → other ≢ beneficiary → new_executor specs keys other r ≡ none)
  unfolding new_with_runtime_config worker_executor new_executor build_evm for_spec
  new_with_runtime_config-worker_executor {Planner} planner spec beneficiary config workers =
      let same : keys.eqb beneficiary beneficiary ≡ true =
        (keys.eqb_iff beneficiary beneficiary).1 refl in
      (
        record {
          spec = spec;
          beneficiary = beneficiary;
          config = record config { delegated_safety = effective spec config.delegated_safety };
          reserve_planner =
              when (effective spec config.delegated_safety).reserve_delegated_balance planner;
        },
        ground arith,
        ground (arith, same),
        refl,
        λ other apart. elim (Bool-cases (keys.eqb other beneficiary)) [
          | inl equal ↦ absurd (apart ((keys.eqb_iff other beneficiary).0 equal))
          | inr unequal ↦ ground (arith, unequal)
        ],
      )
