-- ===== src/Handler/Guard.antt =====
-- src/delegated_safety/handler.rs: what a transaction that passes the reserve check leaves its accounts.
use grevm.Prelude.{
  some-injective, ◌≢◌, ℕ, ◌≡◌, ◌≤◌, false, not, Option, none, some, List, [], ◌∷◌, All, ◌==◌, min,
  arith, Bool-cases, inl, inr, subst, ◌∙◌, sym, Option-cases, ap,
}
use grevm.Model.{Result, ok, err}
use grevm.Memory.{Keys}
use grevm.Reserve.{u256_max}
use grevm.Reserve.Suffix.{total_after, required_after-total_after}
use grevm.Reserve.Journal.{
  JournalEntry, JournalAccount, DelegatedDebit, suffix, balance_before_entry,
  delegated_debits_since,
}
use grevm.Reserve.Journal.Undo.{Ran, balance_before_entry-Ran}
use grevm.Reserve.Journal.Debits.{first_debit, delegated_debits_since-first_debit}
use grevm.Handler.{
  Hooks, WithReserve, violates, any_violates, has_reserve_violation, enforce_reserve, roll_back,
  ◌>>=◌,
}

module _ (keys : Keys) (hooks : Hooks keys) where
  open hooks use {context, FrameResult, InitGas, ResultGas, Refund, Checkpoint}
  open context use {State, Gas, Error}
  open keys use {Address}

  abbrev Passes : WithReserve keys hooks → DelegatedDebit Address → Type 0
  Passes w d = violates keys hooks w d ≡ false

  any_violates-Passes :
      (w : WithReserve keys hooks) (debits : List (DelegatedDebit Address))
      → any_violates keys hooks w debits ≡ false
      → All (Passes w) debits
  unfolding any_violates
  any_violates-Passes w [] e = tt
  any_violates-Passes w (d ∷ ds) e = elim (Bool-cases (violates keys hooks w d)) [
    | inl bad ↦ absurd (ground (arith, bad, e))
    | inr good ↦ (good, any_violates-Passes w ds (ground (arith, good, e)))
  ]

  abbrev keep_gas :
      Option (Result Error (State × FrameResult × ResultGas))
      → Option (Result Error (State × FrameResult × Option ResultGas))
  keep_gas o = do (u, f, g) ← o; some (ok (u, f, some g))

  rolled_back_some :
      (o : Option (Result Error (State × FrameResult × ResultGas))) (t : State)
      (frame' : FrameResult)
      → keep_gas o ≢ some (ok (t, frame', none))
  rolled_back_some none t frame' = λ h. cc
  rolled_back_some (some (err e)) t frame' = λ h. cc
  rolled_back_some (some (ok (u, f, g))) t frame' = λ h. cc

  enforce_reserve-passed :
      (w : WithReserve keys hooks) (s t : State) (frame frame' : FrameResult) (g : Gas)
      (init : InitGas) (r : Refund) (c : Checkpoint)
      → enforce_reserve keys hooks w s frame g init r (some c) ≡ some (ok (t, frame', none))
      → has_reserve_violation keys hooks w s c ≡ some false
  unfolding enforce_reserve
  enforce_reserve-passed w s t frame frame' g init r c e =
      elim (Option-cases (has_reserve_violation keys hooks w s c)) [
        | inl stuck ↦ absurd (ground (arith, stuck, e))
        | inr (violated, found) ↦ elim (Bool-cases violated) [
          | inl bad ↦ absurd (
              rolled_back_some (roll_back keys hooks s g init r c) t frame'
                (ground (arith, found, bad, e)))
          | inr good ↦ ground (arith, found, good)
        ]
      ]

  debits_passed :
      (w : WithReserve keys hooks) (s : State) (c : Checkpoint)
      → has_reserve_violation keys hooks w s c ≡ some false
      → (debits : List (DelegatedDebit Address)) × (delegated_debits_since keys
            (hooks.accounts s)
            (hooks.root_tx s)
            (hooks.journal s)
            (hooks.journal_i c)
          ≡ some debits)
        × All (Passes w) debits
  unfolding has_reserve_violation
  debits_passed w s c e =
      elim (Option-cases (
        delegated_debits_since keys (hooks.accounts s) (hooks.root_tx s) (hooks.journal s)
          (hooks.journal_i c))) [
            | inl stuck ↦ absurd (ground (arith, stuck, e))
            | inr (debits, found) ↦
                (debits, found, any_violates-Passes w debits (ground (arith, found, e)))
          ]

  keeps :
      (w : WithReserve keys hooks) (a : Address) (before final : ℕ)
      → Passes w (record { address = a; balance_before = before; final_balance = final })
      → min before (min (total_after keys w.txs w.txid a w.block_size 0) u256_max) ≤ final
  keeps w a before final h =
      subst (λ (future : ℕ). min before future ≤ final)
        (required_after-total_after keys w.txs w.block_size w.txid a) (ground (arith, h))

  -- If a transaction passes the reserve check, each account whose delegated code took some of its
  -- balance still has at least what its later transactions of the block cost at most, or at least what
  -- it had just before the first such debit. The journal's entries from that debit on must have led
  -- to the final balances without overflow; the root transfer of the transaction is no debit.
  pub enforce_reserve-keeps :
      (w : WithReserve keys hooks) (s t : State) (frame frame' : FrameResult) (g : Gas)
      (init : InitGas) (r : Refund) (c : Checkpoint) (made rest : List (JournalEntry Address))
      (i : ℕ) (before after : Address → ℕ) (a : Address) (account : JournalAccount)
      → enforce_reserve keys hooks w s frame g init r (some c) ≡ some (ok (t, frame', none))
      → suffix (hooks.journal s) (hooks.journal_i c) ≡ some made
      → first_debit keys
          (hooks.accounts s)
          (hooks.root_tx s)
          a
          made
          (hooks.journal_i c)
          (not ((hooks.root_tx s).value == 0))
        ≡ some i
      → suffix (hooks.journal s) i ≡ some rest
      → Ran keys before rest after
      → hooks.accounts s a ≡ some account
      → account.balance ≡ after a
      → min (before a) (min (total_after keys w.txs w.txid a w.block_size 0) u256_max) ≤ after a
  enforce_reserve-keeps w s t frame frame' g init r c made rest i before after a account e from
        first there ran known final =
      let (debits, p, all) =
        debits_passed w s c (enforce_reserve-passed w s t frame frame' g init r c e) in
      let (b, q, passes) =
        delegated_debits_since-first_debit keys (hooks.accounts s) (hooks.root_tx s) (Passes w)
          (hooks.journal s) made (hooks.journal_i c) i debits a account p from first known all in
      let same : b ≡ before a = some-injective (
        sym q
        ∙ ap (balance_before_entry keys (hooks.journal s) i a) final
        ∙ balance_before_entry-Ran keys (hooks.journal s) rest i before after a there ran) in
      subst
        (λ (x : ℕ). min x (min (total_after keys w.txs w.txid a w.block_size 0) u256_max) ≤ after a)
        same
        (subst
          (λ (x : ℕ). min b (min (total_after keys w.txs w.txid a w.block_size 0) u256_max) ≤ x)
          final (keeps w a b account.balance passes))
