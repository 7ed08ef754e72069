-- ===== src/Handler/Deferral.antt =====
-- src/delegated_safety/handler.rs: the reward that a handler's run leaves to ordered commit.
use grevm.Prelude.{
  ℕ, ◌≡◌, ◌<◌, ◌||◌, false, Option, none, some, refl, arith, inl, inr, Option-cases, Bool-cases,
  ◌==◌, subst,
}
use grevm.Model.{Result, ok, err}
use grevm.Memory.{Keys}
use grevm.Reward.{RewardContext, BeneficiaryMode, deferred, immediate, apply, from_gas, u128_mod}
use grevm.Reward.Settlement.{bounded}
use grevm.Handler.{Hooks, WithReserve, post_execution, pre_execution, enforce_reserve, lift, ◌>>=◌}
use grevm.Handler.Run.{
  Driver, HandlerOutput, ReserveMode, no_reserve, with_reserve, run, reward_hook, IsFaithful,
}

-- Both steps of a chain that succeeds have succeeded.
pub bind-ok :
    {E A B : Type 0} (o : Option (Result E A)) (f : A → Option (Result E B)) (b : B)
    → (o >>= f) ≡ some (ok b)
    → (a : A) × (o ≡ some (ok a)) × (f a ≡ some (ok b))
bind-ok none f b h = absurd (ground (arith, h))
bind-ok (some (err e)) f b h = absurd (ground (arith, h))
bind-ok (some (ok a)) f b h = (a, refl, h)

module _ (revm : RewardContext) where
  -- What a deferred reward is: positive, an `u128`, and of a state that does not hold the beneficiary.
  pub record Due (mode : BeneficiaryMode) (r : ℕ) : Type 0 where
    pub mode_is : mode ≡ deferred
    pub at : revm.State
    pub gas : revm.Gas
    pub amount : from_gas revm at gas ≡ some r
    pub positive : 0 < r
    pub fits : r < u128_mod
    pub apart : revm.holds_beneficiary at ≡ false

  apply-Due :
      (mode : BeneficiaryMode) (s t : revm.State) (gas : revm.Gas) (r : ℕ)
      → apply revm mode s gas ≡ ok (t, some r)
      → Due mode r
  unfolding apply
  apply-Due immediate s t gas r h = absurd (ground (arith, h))
  apply-Due deferred s t gas r h = elim (Option-cases (from_gas revm s gas)) [
    | inl nothing ↦ absurd (ground (arith, h, nothing))
    | inr (q, e) ↦ elim (Bool-cases (q == 0 || revm.holds_beneficiary s)) [
      | inl now ↦ absurd (ground (arith, h, e, now))
      | inr wait ↦
          let same : q ≡ r = ground (arith, h, e, wait) in
          record {
            mode_is = refl;
            at = s;
            gas = gas;
            amount = ground (arith, e, same);
            positive = ground (arith, wait, same);
            fits = subst (λ (x : ℕ). x < u128_mod) same (bounded revm s gas q e);
            apart = ground (arith, wait);
          }
    ]
  ]

module _ (keys : Keys) (hooks : Hooks keys) where
  open hooks use {context, FrameResult, InitGas, ResultGas, Refund, Checkpoint}
  open context use {State, Gas, Error}

  post_execution-Due :
      (w : WithReserve keys hooks) (mode : BeneficiaryMode) (s t : State)
      (frame frame' : FrameResult) (init : InitGas) (refund : Refund) (c : Option Checkpoint)
      (gas : ResultGas) (r : ℕ)
      → post_execution keys hooks w mode s frame init refund c ≡ some (ok (t, frame', gas, some r))
      → Due context mode r
  unfolding post_execution
  post_execution-Due w mode s t frame frame' init refund c gas r h =
      let floored : FrameResult = hooks.check_gas_floor s (hooks.refund s frame refund) init in
      let (s₁, p₁, h₁) =
        bind-ok (lift keys hooks (hooks.reimburse_caller s floored)) _ (t, frame', gas, some r) h in
      let ((s₂, frame₂, gas₂), p₂, h₂) =
        bind-ok (enforce_reserve keys hooks w s₁ floored (hooks.gas frame) init refund c) _
          (t, frame', gas, some r) h₁ in
      let ((s₃, reward), p₃, h₃) =
        bind-ok (lift keys hooks (apply context mode s₂ (hooks.gas frame₂))) _
          (t, frame', gas, some r) h₂ in
      apply-Due context mode s₂ s₃ (hooks.gas frame₂) r (ground (arith, p₃, h₃))

  module _ (ExecutionResult : Type 0) (driver : Driver hooks ExecutionResult) where
    -- A run whose handler writes the cell for the reward only in its hooks defers a reward only in
    -- parallel execution; the reward is positive, fits a `u128`, and was left when the state did not
    -- hold the beneficiary's account.
    pub run-Due :
        (faithful : IsFaithful keys hooks ExecutionResult driver) (reserve : ReserveMode keys hooks)
        (mode : BeneficiaryMode) (s t : State) (output : HandlerOutput ExecutionResult) (r : ℕ)
        → run keys hooks ExecutionResult driver reserve mode s ≡ some (ok (t, output))
        → output.deferred_reward ≡ some r
        → Due context mode r
    unfolding run
    run-Due faithful no_reserve mode s t output r h e =
        let given : driver.run_reward (reward_hook keys hooks mode) s
            ≡ some (ok (t, output.result, some r)) =
          ground (arith, h, e) in
        let (at, after, frame, p) =
          faithful.from_reward (reward_hook keys hooks mode) s t output.result r given in
        apply-Due context mode at after (hooks.gas frame) r p
    run-Due faithful (with_reserve w) mode s t output r h e =
        let given : driver.run_around (pre_execution keys hooks) (post_execution keys hooks w mode)
              s
            ≡ some (ok (t, output.result, some r)) =
          ground (arith, h, e) in
        let (at, after, frame, frame', init, refund, c, gas, p) =
          faithful.from_post (pre_execution keys hooks) (post_execution keys hooks w mode) s t
            output.result r given in
        post_execution-Due w mode at after frame frame' init refund c gas r p
