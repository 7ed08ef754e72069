-- ===== src/Handler/Run.antt =====
-- src/delegated_safety/handler.rs: the choice of the handler, and its output. revm's `Handler::run`,
-- which drives the hooks that a handler overrides, is a parameter, `Driver`. A failed assertion is
-- `none`.
use grevm.Prelude.{ℕ, ◌≡◌, Option, none, some}
use grevm.Model.{Result, ok, map_ok}
use grevm.Memory.{Keys}
use grevm.Reserve.{TxCost}
use grevm.Reward.{BeneficiaryMode, apply}
use grevm.Handler.{Hooks, WithReserve, pre_execution, post_execution}

-- A run gives the EVM's context, the execution's result, and what the handler's cell for the deferred
-- reward holds at the end; the cell starts empty.
pub record Driver {keys : Keys} (hooks : Hooks keys) (ExecutionResult : Type 0) : Type 0 where
  -- with a handler that overrides the reward hook alone
  pub run_reward :
      (hooks.context.State
        → hooks.FrameResult
        → Result hooks.context.Error (hooks.context.State × Option ℕ))
      → hooks.context.State
      → Option (Result hooks.context.Error (hooks.context.State × ExecutionResult × Option ℕ))
  -- with one that overrides what surrounds the execution
  pub run_around :
      (hooks.context.State
        → hooks.InitGas
        → Option (
            Result hooks.context.Error
              (hooks.context.State × hooks.InitGas × hooks.Refund × hooks.Checkpoint)))
      → (hooks.context.State
          → hooks.FrameResult
          → hooks.InitGas
          → hooks.Refund
          → Option hooks.Checkpoint
          → Option (
              Result hooks.context.Error
                (hooks.context.State × hooks.FrameResult × hooks.ResultGas × Option ℕ)))
      → hooks.context.State
      → Option (Result hooks.context.Error (hooks.context.State × ExecutionResult × Option ℕ))

-- `GrevmHandlerOutput`
pub record HandlerOutput (ExecutionResult : Type 0) : Type 0 where
  pub result : ExecutionResult
  pub deferred_reward : Option ℕ

-- `into_immediate_result`
unfoldable pub into_immediate_result : {A : Type 0} → HandlerOutput A → Option A
into_immediate_result {A} output = elim output.deferred_reward [
  | none ↦ some output.result
  | some r ↦ none
]

module _ (keys : Keys) (hooks : Hooks keys) where
  open hooks use {context, FrameResult, InitGas, ResultGas, Refund, Checkpoint}
  open context use {State, Gas, Error}

  pub data ReserveMode : Type 0 where
    no_reserve : ReserveMode
    with_reserve : WithReserve keys hooks → ReserveMode

  -- What a planner knows: the block's transactions.
  pub record Planner : Type 0 where
    pub block_size : ℕ
    pub txs : ℕ → TxCost keys.Address

  unfoldable pub from_planner : ℕ → Option Planner → ReserveMode
  from_planner txid none = no_reserve
  from_planner txid (some p) =
      with_reserve (record { block_size = p.block_size; txs = p.txs; txid = txid })

  -- The reward hook of `NoReserveHandler`.
  abbrev pub reward_hook : BeneficiaryMode → State → FrameResult → Result Error (State × Option ℕ)
  reward_hook mode s frame = apply context mode s (hooks.gas frame)

  module _ (ExecutionResult : Type 0) (driver : Driver hooks ExecutionResult) where
    abbrev pub to_output :
        State × ExecutionResult × Option ℕ → State × HandlerOutput ExecutionResult
    to_output (s, result, reward) = (s, record { result = result; deferred_reward = reward })

    -- `GrevmHandler::run`
    unfoldable pub run :
        ReserveMode
        → BeneficiaryMode
        → State
        → Option (Result Error (State × HandlerOutput ExecutionResult))
    run no_reserve mode s = elim (driver.run_reward (reward_hook mode) s) [
      | none ↦ none
      | some r ↦ some (map_ok to_output r)
    ]
    run (with_reserve w) mode s =
        elim (driver.run_around (pre_execution keys hooks) (post_execution keys hooks w mode) s) [
          | none ↦ none
          | some r ↦ some (map_ok to_output r)
        ]

    -- The cell holds what a hook has put there, if anything.
    pub record IsFaithful : Type 0 where
      pub from_reward :
          (hook : State → FrameResult → Result Error (State × Option ℕ)) (s t : State)
          (result : ExecutionResult) (reward : ℕ)
          → driver.run_reward hook s ≡ some (ok (t, result, some reward))
          → (at after : State) × (frame : FrameResult) × (hook at frame ≡ ok (after, some reward))
      pub from_post :
          (pre : State → InitGas → Option (Result Error (State × InitGas × Refund × Checkpoint)))
          (post : State
            → FrameResult
            → InitGas
            → Refund
            → Option Checkpoint
            → Option (Result Error (State × FrameResult × ResultGas × Option ℕ)))
          (s t : State) (result : ExecutionResult) (reward : ℕ)
          → driver.run_around pre post s ≡ some (ok (t, result, some reward))
          → (at after : State) × (frame frame' : FrameResult) × (init : InitGas) × (refund : Refund)
            × (checkpoint : Option Checkpoint) × (gas : ResultGas) × (post at frame init refund
                  checkpoint
                ≡ some (ok (after, frame', gas, some reward)))
