-- ===== src/Handler.antt =====
-- src/delegated_safety/handler.rs: the transaction handler with the reserve check. The parts of revm's
-- handler that it calls are a parameter, `Hooks`. A failed expectation is `none`.
pub mod Guard
pub mod Rollback
pub mod Run
pub mod Deferral
pub mod Sample
mod Tests
use grevm.Prelude.{
  ℕ, Bool, true, false, Option, none, some, List, [], ◌∷◌, ltb, ◌==◌, if◌then◌else◌, min,
}
use grevm.Model.{Result, ok, err}
use grevm.Memory.{Keys}
use grevm.Reserve.{TxCost, required_after}
use grevm.Reserve.Journal.{
  JournalEntry, RootTx, JournalAccount, DelegatedDebit, delegated_debits_since,
}
use grevm.Reward.{RewardContext, BeneficiaryMode, apply}

-- A step that may panic, or fail with an error.
infixl 5 ◌>>=◌
abbrev pub ◌>>=◌ :
    {E A B : Type 0} → Option (Result E A) → (A → Option (Result E B)) → Option (Result E B)
none >>= f = none
some (err e) >>= f = some (err e)
some (ok a) >>= f = f a

-- What the handler uses of revm, over the states of the EVM's context.
pub record Hooks (keys : Keys) : Type 1 where
  pub context : RewardContext
  pub FrameResult : Type 0
  pub InitGas : Type 0
  pub ResultGas : Type 0
  pub Refund : Type 0
  pub Checkpoint : Type 0
  pub validate_and_deduct : context.State → InitGas → Result context.Error (context.State × InitGas)
  pub load_accounts : context.State → Result context.Error context.State
  pub apply_auth_list :
      context.State → InitGas → Result context.Error (context.State × InitGas × Refund)
  pub checkpoint : context.State → context.State × Checkpoint
  pub checkpoint_revert : Checkpoint → context.State → context.State
  pub checkpoint_commit : context.State → context.State
  pub journal_i : Checkpoint → ℕ
  pub journal : context.State → List (JournalEntry keys.Address)
  pub accounts : context.State → keys.Address → Option JournalAccount
  pub root_tx : context.State → RootTx keys.Address
  pub is_create : context.State → Bool
  -- `load_account_mut` of the sender and `bump_nonce`, which fails on an overflow
  pub bump_nonce : context.State → Result context.Error context.State
  pub gas : FrameResult → context.Gas
  pub is_halt : FrameResult → Bool
  -- the synthetic `Revert` without output, with the gas's refund set to 0
  pub violation_result : context.Gas → FrameResult
  pub refund : context.State → FrameResult → Refund → FrameResult
  pub build_result_gas : Bool → context.Gas → InitGas → ResultGas
  pub check_gas_floor : context.State → FrameResult → InitGas → FrameResult
  pub reimburse_caller : context.State → FrameResult → Result context.Error context.State

module _ (keys : Keys) (hooks : Hooks keys) where
  open hooks use {context, FrameResult, InitGas, ResultGas, Refund, Checkpoint}
  open context use {State, Gas, Error}
  open keys use {Address}

  -- `ReserveMode::WithReserve`: the position in the block, and the planner's answers.
  pub record WithReserve : Type 0 where
    pub block_size : ℕ
    pub txs : ℕ → TxCost Address
    pub txid : ℕ

  -- One round of the loop of `has_reserve_violation`.
  abbrev pub violates : WithReserve → DelegatedDebit Address → Bool
  violates w candidate =
      let future_cost = required_after keys w.txs w.block_size w.txid candidate.address in
      if future_cost == 0
      then false
      else ltb candidate.final_balance (min candidate.balance_before future_cost)

  pub any_violates : WithReserve → List (DelegatedDebit Address) → Bool
  any_violates w [] = false
  any_violates w (candidate ∷ candidates) =
      if violates w candidate then true else any_violates w candidates

  pub has_reserve_violation : WithReserve → State → Checkpoint → Option Bool
  unfolding any_violates
  has_reserve_violation w s c =
      elim (delegated_debits_since keys (hooks.accounts s) (hooks.root_tx s) (hooks.journal s)
        (hooks.journal_i c)) [ none ↦ none | some candidates ↦ some (any_violates w candidates) ]

  abbrev pub lift : {A : Type 0} → Result Error A → Option (Result Error A)
  lift r = some r

  -- `pre_execution`, with the checkpoint that it leaves for `post_execution`.
  pub pre_execution :
      State → InitGas → Option (Result Error (State × InitGas × Refund × Checkpoint))
  pre_execution s init = do
    (s₁, init₁) ← lift (hooks.validate_and_deduct s init)
    s₂ ← lift (hooks.load_accounts s₁)
    (s₃, init₂, eip7702_refund) ← lift (hooks.apply_auth_list s₂ init₁)
    let (s₄, c) = hooks.checkpoint s₃
    some (ok (s₄, init₂, eip7702_refund, c))

  -- The branch of a violation in `enforce_reserve`.
  pub roll_back :
      State
      → Gas
      → InitGas
      → Refund
      → Checkpoint
      → Option (Result Error (State × FrameResult × ResultGas))
  roll_back s execution_gas init eip7702_refund c = do
    let recreate_sender_nonce = hooks.is_create s
    let s₁ = hooks.checkpoint_revert c s
    s₂ ← lift (if recreate_sender_nonce then hooks.bump_nonce s₁ else ok s₁)
    let refunded = hooks.refund s₂ (hooks.violation_result execution_gas) eip7702_refund
    let result_gas = hooks.build_result_gas (hooks.is_halt refunded) (hooks.gas refunded) init
    let floored = hooks.check_gas_floor s₂ refunded init
    s₃ ← lift (hooks.reimburse_caller s₂ floored)
    some (ok (s₃, floored, result_gas))

  -- `enforce_reserve`, with the checkpoint that it takes, and the new gas if it rolls back.
  pub enforce_reserve :
      WithReserve
      → State
      → FrameResult
      → Gas
      → InitGas
      → Refund
      → Option Checkpoint
      → Option (Result Error (State × FrameResult × Option ResultGas))
  unfolding roll_back has_reserve_violation
  enforce_reserve w s frame execution_gas init eip7702_refund none = none
  enforce_reserve w s frame execution_gas init eip7702_refund (some c) =
      elim (has_reserve_violation w s c) [
        | none ↦ none
        | some true ↦ (do
          (t, frame', result_gas) ← roll_back s execution_gas init eip7702_refund c
          some (ok (t, frame', some result_gas)))
        | some false ↦ some (ok (hooks.checkpoint_commit s, frame, none))
      ]

  -- `post_execution`, with the reward that it defers.
  pub post_execution :
      WithReserve
      → BeneficiaryMode
      → State
      → FrameResult
      → InitGas
      → Refund
      → Option Checkpoint
      → Option (Result Error (State × FrameResult × ResultGas × Option ℕ))
  unfolding enforce_reserve
  post_execution w mode s frame init eip7702_refund checkpoint = do
    let execution_gas = hooks.gas frame
    let refunded = hooks.refund s frame eip7702_refund
    let result_gas = hooks.build_result_gas (hooks.is_halt refunded) (hooks.gas refunded) init
    let floored = hooks.check_gas_floor s refunded init
    s₁ ← lift (hooks.reimburse_caller s floored)
    (s₂, frame', reserve_result_gas) ←
        enforce_reserve w s₁ floored execution_gas init eip7702_refund checkpoint
    (s₃, deferred_reward) ← lift (apply context mode s₂ (hooks.gas frame'))
    some (
        ok
          (s₃, frame', elim reserve_result_gas [ none ↦ result_gas | some g ↦ g ], deferred_reward))
