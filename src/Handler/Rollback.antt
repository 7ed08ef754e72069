-- ===== src/Handler/Rollback.antt =====
-- src/delegated_safety/handler.rs: what a transaction that fails the reserve check leaves behind.
use grevm.Prelude.{ℕ, suc, ◌+◌, ◌≡◌, ◌≤◌, Bool, true, false, Option, some}
use grevm.Model.{Result, ok}
use grevm.Memory.{Keys}
use grevm.Handler.{Hooks}

module _ (keys : Keys) (hooks : Hooks keys) where
  open hooks use {context, FrameResult, InitGas, ResultGas, Refund, Checkpoint}
  open context use {State, Gas, Error}

  -- The caller's nonce and balance, whether a frame ended in a revert, the gas that it spent, the floor
  -- of a transaction's gas, and what the caller is paid back for a frame.
  pub record Observations : Type 0 where
    pub nonce : State → ℕ
    pub balance : State → ℕ
    pub is_revert : FrameResult → Bool
    pub spent : FrameResult → ℕ
    pub floor : InitGas → ℕ
    pub repaid : FrameResult → ℕ

  -- What revm documents of the calls of a rollback.
  pub record IsObserved (o : Observations) : Type 0 where
    pub bumps :
        (s t : State)
        → hooks.bump_nonce s ≡ ok t
        → (o.nonce t ≡ suc (o.nonce s)) × (o.balance t ≡ o.balance s)
    pub violates : (gas : Gas) → o.is_revert (hooks.violation_result gas) ≡ true
    pub refunds :
        (s : State) (f : FrameResult) (r : Refund)
        → o.is_revert (hooks.refund s f r) ≡ o.is_revert f
    pub floors :
        (s : State) (f : FrameResult) (init : InitGas)
        → (o.floor init ≤ o.spent (hooks.check_gas_floor s f init))
          × (o.is_revert (hooks.check_gas_floor s f init) ≡ o.is_revert f)
    pub repays :
        (s t : State) (f : FrameResult)
        → hooks.reimburse_caller s f ≡ ok t
        → (o.nonce t ≡ o.nonce s) × (o.balance t ≡ o.balance s + o.repaid f)

  module _ (o : Observations) (law : IsObserved o) where
    -- The nonce that the caller has before the settlement, by whether the transaction creates.
    abbrev pub spent_nonce : Bool → ℕ → ℕ
    spent_nonce true n = suc n
    spent_nonce false n = n

    -- What a rollback to the state `start` leaves.
    pub record RolledBack (start : State) (creates : Bool) (init : InitGas) (t : State)
        (frame : FrameResult) : Type 0 where
      pub nonce : o.nonce t ≡ spent_nonce creates (o.nonce start)
      pub balance : o.balance t ≡ o.balance start + o.repaid frame
      pub reverts : o.is_revert frame ≡ true
      pub floor : o.floor init ≤ o.spent frame

    abbrev settled :
        State × FrameResult × ResultGas
        → Option (Result Error (State × FrameResult × Option ResultGas))
    settled (t, frame, g) = some (ok (t, frame, some g))
