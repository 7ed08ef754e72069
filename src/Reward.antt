-- ===== src/Reward.antt =====
-- src/beneficiary/reward.rs: what a transaction owes to the beneficiary, and who applies it. revm's
-- context and its reward hook are a parameter, `RewardContext`.
pub mod Settlement
pub mod Sample
mod Tests
use grevm.Prelude.{
  ℕ, ◌-◌, ◌*◌, ◌%◌, ◌^◌, Bool, true, false, ◌||◌, Option, none, some, ◌==◌, if◌then◌else◌,
}
use grevm.Model.{Result, ok, err, map_ok}

-- `u128` and its saturating and wrapping operations.
abbrev pub u128_mod : ℕ
u128_mod = 2 ^ 128

-- What the code uses of the EVM's context and of a frame's gas.
pub record RewardContext : Type 1 where
  pub State : Type 0
  pub Gas : Type 0
  pub Error : Type 0
  pub is_fee_charge_disabled : State → Bool
  pub basefee : State → ℕ
  pub effective_gas_price : State → ℕ → ℕ
  pub is_london : State → Bool
  pub used : Gas → ℕ
  pub reservoir : Gas → ℕ
  -- whether the journal's state holds the block's beneficiary
  pub holds_beneficiary : State → Bool
  -- `post_execution::reward_beneficiary`
  pub reward_beneficiary : State → Gas → Result Error State

pub data BeneficiaryMode : Type 0 where
  deferred immediate : BeneficiaryMode

module _ (revm : RewardContext) where
  open revm use {State, Gas, Error}

  -- `BeneficiaryReward::from_gas`; the product is one of `u128`s.
  pub from_gas : State → Gas → Option ℕ
  from_gas s gas =
      if revm.is_fee_charge_disabled s
      then none
      else (let basefee = revm.basefee s in
          let effective = revm.effective_gas_price s basefee in
          let price = if revm.is_london s then effective - basefee else effective in
          let effective_used = revm.used gas - revm.reservoir gas in
          some ((price * effective_used) % u128_mod))

  -- The state after the hook, with no reward deferred.
  abbrev pub rewarded : State → Gas → Result Error (State × Option ℕ)
  rewarded s gas = map_ok (λ t. (t, none)) (revm.reward_beneficiary s gas)

  -- `BeneficiaryMode::apply`, with the reward that it leaves to ordered commit.
  unfoldable pub apply : BeneficiaryMode → State → Gas → Result Error (State × Option ℕ)
  unfolding from_gas
  apply immediate s gas = rewarded s gas
  apply deferred s gas = elim (from_gas s gas) [
    | none ↦ ok (s, none)
    | some reward ↦
        if reward == 0 || revm.holds_beneficiary s then rewarded s gas else ok (s, some reward)
  ]
