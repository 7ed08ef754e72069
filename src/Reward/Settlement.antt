-- ===== src/Reward/Settlement.antt =====
-- src/beneficiary/reward.rs: the ways in which a reward is settled.
use grevm.Prelude.{
  ℕ, ◌-◌, ◌*◌, ◌%◌, ◌<◌, ◌≡◌, ◌⊎◌, true, false, ◌||◌, Option, none, some, ◌==◌, if◌then◌else◌,
  arith, Bool-cases, inl, inr, subst, sym, Option-cases,
}
use grevm.Model.{Result, ok, map_ok}
use grevm.Reward.{RewardContext, BeneficiaryMode, deferred, immediate, from_gas, apply, u128_mod}

module _ (revm : RewardContext) where
  -- What a transaction owes: the effective gas price, less the base fee since London, for the gas used
  -- above the reservoir, as a `u128`.
  abbrev pub owed : revm.State → revm.Gas → ℕ
  owed s gas =
      let price = revm.effective_gas_price s (revm.basefee s) in
      ((if revm.is_london s then price - revm.basefee s else price)
        * (revm.used gas - revm.reservoir gas))
      % u128_mod

  -- How each mode settles a transaction's reward, with what it leaves to ordered commit.
  pub data Settled (s : revm.State) (gas : revm.Gas)
      : BeneficiaryMode → Result revm.Error (revm.State × Option ℕ) → Type 0 where
    sequential : Settled s gas immediate (map_ok (λ t. (t, none)) (revm.reward_beneficiary s gas))
    free : revm.is_fee_charge_disabled s ≡ true → Settled s gas deferred (ok (s, none))
    at_once :
        revm.is_fee_charge_disabled s ≡ false
        → (owed s gas ≡ 0) ⊎ (revm.holds_beneficiary s ≡ true)
        → Settled s gas deferred (map_ok (λ t. (t, none)) (revm.reward_beneficiary s gas))
    later :
        revm.is_fee_charge_disabled s ≡ false
        → 0 < owed s gas
        → owed s gas < u128_mod
        → revm.holds_beneficiary s ≡ false
        → Settled s gas deferred (ok (s, some (owed s gas)))

  disabled :
      (s : revm.State) (gas : revm.Gas)
      → from_gas revm s gas ≡ none
      → revm.is_fee_charge_disabled s ≡ true
  unfolding from_gas
  disabled s gas h = ground (arith, h)

  pub bounded :
      (s : revm.State) (gas : revm.Gas) (r : ℕ) → from_gas revm s gas ≡ some r → r < u128_mod
  unfolding from_gas
  bounded s gas r h = elim (Bool-cases (revm.is_fee_charge_disabled s)) [
    | inl unpaid ↦ absurd (ground (arith, h, unpaid))
    | inr charged ↦
        let product : ℕ =
          (if revm.is_london s
            then revm.effective_gas_price s (revm.basefee s) - revm.basefee s
            else revm.effective_gas_price s (revm.basefee s))
          * (revm.used gas - revm.reservoir gas) in
        let same : product % u128_mod ≡ r = ground (arith, h, charged) in
        subst (λ (x : ℕ). x < u128_mod) same (omega arith)
  ]

  charged :
      (s : revm.State) (gas : revm.Gas) (r : ℕ)
      → from_gas revm s gas ≡ some r
      → (revm.is_fee_charge_disabled s ≡ false) × (owed s gas ≡ r)
  unfolding from_gas
  charged s gas r h = elim (Bool-cases (revm.is_fee_charge_disabled s)) [
    | inl unpaid ↦ absurd (ground (arith, h, unpaid))
    | inr paid ↦ (paid, ground (arith, h, paid))
  ]

  -- Sequential execution leaves every reward to revm's own hook. Parallel execution does so exactly if
  -- fees are charged and the transaction owes nothing or has touched the beneficiary. With fees
  -- disabled it leaves the state alone and defers nothing; and it defers exactly what the
  -- transaction owes, a positive `u128`, and leaves the state alone, if the transaction has not
  -- touched the beneficiary.
  pub apply-Settled :
      (mode : BeneficiaryMode) (s : revm.State) (gas : revm.Gas)
      → Settled s gas mode (apply revm mode s gas)
  unfolding apply
  apply-Settled immediate s gas = sequential
  apply-Settled deferred s gas = elim (Option-cases (from_gas revm s gas)) [
    | inl nothing ↦
        subst (Settled s gas deferred) (ground (arith, nothing)) (free (disabled s gas nothing))
    | inr (r, e) ↦
        let (paid, same) = charged s gas r e in
        elim (Bool-cases (r == 0 || revm.holds_beneficiary s)) [
          | inl now ↦
              subst (Settled s gas deferred) (ground (arith, e, now))
                (at_once paid (ground (arith, same, now)))
          | inr wait ↦ subst (Settled s gas deferred) (ground (arith, e, wait, same)) (
              later paid (ground (arith, same, wait))
                (subst (λ (x : ℕ). x < u128_mod) (sym same) (bounded s gas r e))
                (ground (arith, wait)))
        ]
  ]
