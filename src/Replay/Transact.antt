-- ===== src/Replay/Transact.antt =====
-- src/scheduler/fallback.rs: the sequential run of one transaction, which `replay_uncommitted_suffix`
-- passes to the replay. The EVM over the committed state is a parameter, `SequentialEvm`, next to what the
-- handler takes of revm.
use grevm.Prelude.{
  ℕ, ◌≡◌, ◌≢◌, Bool, true, false, not, ◌&&◌, Option, none, some, refl, arith, ◌==◌, if◌then◌else◌,
  Option-cases, inl, inr, ◌⊎◌,
}
use grevm.Model.{Result, ok, err}
use grevm.Reward.{immediate, deferred}
use grevm.Scheduler.{Machine, EvmError, transaction, fatal, EvmState}
use grevm.Commit.{Committed, TxEnv, u64_max, check_nonce}
use grevm.Handler.{Hooks}
use grevm.Handler.Run.{
  Driver, HandlerOutput, into_immediate_result, ReserveMode, Planner, from_planner, run, IsFaithful,
}
use grevm.Handler.Deferral.{run-Due}

module _ (m : Machine) (c : Committed m) where
  open m use {keys, revm, Output, Invalid, Fatal}
  open keys use {Address}

  -- Whether the transaction passes `reject_nonce_overflow`; `none` in the place of an error is a pass.
  unfoldable pub reject_nonce_overflow :
      Invalid → Bool → c.State → TxEnv Address → Option (EvmError Invalid Fatal)
  reject_nonce_overflow overflow disable_nonce_check state tx =
      if not disable_nonce_check && tx.nonce == u64_max
      then elim (c.basic_ref state tx.caller) [
        | err e ↦ some (fatal e)
        | ok info ↦
            let nonce : ℕ = elim info [ none ↦ 0 | some i ↦ revm.nonce i ] in
            if nonce == u64_max then some (transaction overflow) else none
      ]
      else none

  -- With the nonce check on, sequential replay rejects a nonce overflow only where the ordered commit
  -- has fallen back, or has failed on the same read: what the commit lets through is not rejected.
  pub reject_nonce_overflow-check_nonce :
      (overflow : Invalid) (state : c.State) (tx : TxEnv Address)
      → ((e : EvmError Invalid Fatal)
          → reject_nonce_overflow overflow false state tx ≡ some e
          → (check_nonce m c state tx ≡ ok false)
            ⊎ ((x : Fatal) × (e ≡ fatal x) × (check_nonce m c state tx ≡ err x)))
        × (check_nonce m c state tx ≡ ok true
            → reject_nonce_overflow overflow false state tx ≡ none)
  unfolding reject_nonce_overflow check_nonce
  reject_nonce_overflow-check_nonce overflow state tx = from_read (c.basic_ref state tx.caller) refl
    where
      Goal : Type 0
      Goal =
          ((e : EvmError Invalid Fatal)
            → reject_nonce_overflow overflow false state tx ≡ some e
            → (check_nonce m c state tx ≡ ok false)
              ⊎ ((x : Fatal) × (e ≡ fatal x) × (check_nonce m c state tx ≡ err x)))
          × (check_nonce m c state tx ≡ ok true
              → reject_nonce_overflow overflow false state tx ≡ none)

      from_read :
          (r : Result Fatal (Option revm.AccountInfo)) → c.basic_ref state tx.caller ≡ r → Goal
      from_read (err x) h =
          (λ e p. inr (x, ground (arith, h, p), ground (arith, h)), λ p. ground (arith, h, p))
      from_read (ok none) h = (λ e p. inl (ground (arith, h, p)), λ p. ground (arith, h, p))
      from_read (ok (some i)) h = (λ e p. inl (ground (arith, h, p)), λ p. ground (arith, h, p))

  -- The EVM over a committed state: set up for a transaction, its finalized changes, and the state
  -- with what the run has loaded.
  pub record SequentialEvm (hooks : Hooks keys) : Type 0 where
    pub set_tx : c.State → TxEnv Address → hooks.context.State
    pub finalize : hooks.context.State → EvmState m
    pub loaded : hooks.context.State → c.State
    pub error : hooks.context.Error → EvmError Invalid Fatal
    pub overflow : Invalid

  module _ (hooks : Hooks keys) (driver : Driver hooks Output) (evm : SequentialEvm hooks) where
    -- What a run that has succeeded commits.
    abbrev pub commit_output :
        hooks.context.State × HandlerOutput Output
        → Option (Result (EvmError Invalid Fatal) (Output × c.State))
    commit_output (s, output) = elim (into_immediate_result output) [
      | none ↦ none
      | some result ↦ some (ok (result, c.commit (evm.loaded s) (evm.finalize s)))
    ]

    abbrev pub commit_run :
        Result hooks.context.Error (hooks.context.State × HandlerOutput Output)
        → Option (Result (EvmError Invalid Fatal) (Output × c.State))
    commit_run (err e) = some (err (evm.error e))
    commit_run (ok r) = commit_output r

    -- The closure that `replay_uncommitted_suffix` passes on.
    unfoldable pub transact :
        Option (Planner keys hooks)
        → Bool
        → (ℕ → TxEnv Address)
        → c.State
        → ℕ
        → Option (Result (EvmError Invalid Fatal) (Output × c.State))
    unfolding into_immediate_result
    transact planner disable_nonce_check txs state txid =
        elim (reject_nonce_overflow evm.overflow disable_nonce_check state (txs txid)) [
          | some e ↦ some (err e)
          | none ↦
              elim (run keys hooks Output driver (from_planner keys hooks txid planner) immediate
                (evm.set_tx state (txs txid))) [ none ↦ none | some r ↦ commit_run r ]
        ]

    commit_output_total :
        (s : hooks.context.State) (output : HandlerOutput Output)
        → output.deferred_reward ≡ none
        → commit_output (s, output) ≢ none
    unfolding into_immediate_result
    commit_output_total s output settled = λ h. ground (arith, settled, h)

    -- Sequential replay meets the assertion that no reward is deferred, if the handler's run returns and
    -- its cell for the reward is written by its hooks only: the transaction's run returns as well.
    pub transact_total :
        (faithful : IsFaithful keys hooks Output driver) (planner : Option (Planner keys hooks))
        (disable : Bool) (txs : ℕ → TxEnv Address) (state : c.State) (txid : ℕ)
        → run keys hooks Output driver
            (from_planner keys hooks txid planner)
            immediate
            (evm.set_tx state (txs txid))
          ≢ none
        → transact planner disable txs state txid ≢ none
    unfolding transact
    transact_total faithful planner disable txs state txid returns =
        elim (Option-cases (reject_nonce_overflow evm.overflow disable state (txs txid))) [
          | inr (e, rejected) ↦ λ h. ground (arith, rejected, h)
          | inl passed ↦ returned (run keys hooks Output driver mode immediate at_start) refl passed
        ]
      where
        mode : ReserveMode keys hooks
        mode = from_planner keys hooks txid planner

        at_start : hooks.context.State
        at_start = evm.set_tx state (txs txid)

        settled :
            (t : hooks.context.State) (output : HandlerOutput Output) (reward : Option ℕ)
            → run keys hooks Output driver mode immediate at_start ≡ some (ok (t, output))
            → output.deferred_reward ≡ reward
            → reward ≡ none
        settled t output none h e = refl
        settled t output (some r) h e = absurd (
            immediate_not_deferred
              (run-Due keys hooks Output driver faithful mode immediate at_start t output r h
                e).mode_is)
          where
            immediate_not_deferred : immediate ≢ deferred
            immediate_not_deferred p = cc

        returned :
            (r : Option (Result hooks.context.Error (hooks.context.State × HandlerOutput Output)))
            → run keys hooks Output driver mode immediate at_start ≡ r
            → reject_nonce_overflow evm.overflow disable state (txs txid) ≡ none
            → transact planner disable txs state txid ≢ none
        returned none h passed = absurd (returns h)
        returned (some (err e)) h passed = λ p. ground (arith, h, passed, p)
        returned (some (ok (t, output))) h passed = λ p.
            commit_output_total t output (settled t output output.deferred_reward h refl)
              (ground (arith, h, passed, p))
