-- ===== src/Reward/Sample.antt =====
-- A context for the tests: a state is the number of credits so far, and gas is a number.
use grevm.Prelude.{ℕ, suc, false, true}
use grevm.Model.{ok}
use grevm.Reward.{RewardContext}

abbrev pub counting : RewardContext
counting = record {
  State = ℕ;
  Gas = ℕ;
  Error = ℕ;
  is_fee_charge_disabled = λ s. false;
  basefee = λ s. 7;
  effective_gas_price = λ s basefee. 10;
  is_london = λ s. true;
  used = λ gas. gas;
  reservoir = λ gas. 1;
  holds_beneficiary = λ s. false;
  reward_beneficiary = λ s gas. ok (suc s);
}
