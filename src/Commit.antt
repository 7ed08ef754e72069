-- ===== src/Commit.antt =====
-- src/scheduler/ordered_commit.rs: a finalized result is checked against the committed state and
-- applied to it. The state is the interface `Committed`, which src/parallel_state.rs implements; no law
-- of it is assumed. A failed assertion is `none`.
pub mod Effect
pub mod Sample
mod Tests
use grevm.Prelude.{
  ℕ, zero, suc, ◌+◌, ◌-◌, ◌≡◌, ◌≢◌, ◌≤◌, ◌<◌, ◌%◌, ◌^◌, Bool, true, false, not, ◌&&◌, ◌||◌, Option,
  none, some, List, [], ◌∷◌, ◌++◌, refl, arith, Cells, Option-cases, ap, ◌∙◌, sym, ltb, leb, ◌==◌,
  if◌then◌else◌, ◌⊎◌, inl, inr, update, put, cell, filled, Bool-cases, ◌>>=◌, >>=-eq-some, length,
  get_elem?, length-append, contains, insert, is_none, is_some_eq, unwrap_or, is_empty, All, subst,
  map, min, max, usize_mod, usize_add, ltb→lt, lt→ltb, leb→le, ◌↔◌, ==_iff, fun_ext, cell-eq-some,
}
use grevm.Revm.{Accounts}
use grevm.Model.{Result, ok, err}
use grevm.Beneficiary.{apply_to}
use grevm.Memory.{Keys}
use grevm.Scheduler.{Machine, EvmState, SpeculativeResult}
use grevm.Scheduler.Execute.{account_of}

pub record Committed (m : Machine) : Type 1 where
  pub State : Type 0
  pub basic_ref : State → m.keys.Address → Result m.Fatal (Option m.revm.AccountInfo)
  pub commit : State → EvmState m → State

-- `TxExecutionOutcome`
pub data Outcome (Output Invalid : Type 0) : Type 0 where
  executed : Output → Outcome Output Invalid
  skipped : Invalid → Outcome Output Invalid

-- What the code uses of `TxEnv` here.
pub record TxEnv (Address : Type 0) : Type 0 where
  pub caller : Address
  pub nonce : ℕ

-- `CommitOutcome`, and the error that `commit` returns in its place.
pub data CommitOutcome (Fatal : Type 0) : Type 0 where
  committed : ℕ → CommitOutcome Fatal
  needs_sequential_fallback : CommitOutcome Fatal
  failed : ℕ → Fatal → CommitOutcome Fatal

abbrev pub u64_max : ℕ
u64_max = 2 ^ 64 - 1

module _ (m : Machine) (c : Committed m) where
  open m use {keys, revm, Output, Invalid, Fatal}
  open keys use {Address, eqb}
  open revm use {AccountInfo, Account}

  -- The committed state and the outcomes in block order.
  pub record Ledger : Type 0 where
    pub state : c.State
    pub outcomes : List (Outcome Output Invalid)

  -- `OrderedCommitOutput::end`
  abbrev pub end : Ledger → ℕ
  end l = length l.outcomes

  -- Whether the nonce check passes; `none` is a database error.
  unfoldable pub check_nonce : c.State → TxEnv Address → Result Fatal Bool
  check_nonce state tx = elim (c.basic_ref state tx.caller) [
    | err e ↦ err e
    | ok info ↦
        let expect : ℕ = elim info [ none ↦ 0 | some i ↦ revm.nonce i ] in
        ok (not (tx.nonce == u64_max && expect == u64_max) && tx.nonce == expect)
  ]

  -- The result's state with the deferred reward folded in.
  unfoldable pub fold_reward :
      Address → c.State → SpeculativeResult m → Option (Result Fatal (EvmState m))
  fold_reward beneficiary state result = elim result.deferred_reward [
    | none ↦ some (ok result.state)
    | some amount ↦ elim (account_of m beneficiary result.state) [
      | some account ↦ none
      | none ↦ some (elim (c.basic_ref state beneficiary) [
        | err e ↦ err e
        | ok info ↦
            ok ((beneficiary, revm.touched_account (apply_to revm amount info)) ∷ result.state)
      ])
    ]
  ]

  unfoldable pub apply_result :
      Address → ℕ → SpeculativeResult m → Ledger → Option (Ledger × CommitOutcome Fatal)
  unfolding fold_reward
  apply_result beneficiary txid result l = do
    folded ← fold_reward beneficiary l.state result
    some (elim folded [
      | err e ↦ (l, failed txid e)
      | ok state ↦ (
        record {
          state = c.commit l.state state;
          outcomes = l.outcomes ++ executed result.output ∷ [];
        },
        committed (suc (length l.outcomes)),
      )
    ])

  -- `OrderedCommitter::commit`
  unfoldable pub commit_result :
      Address
      → Bool
      → ℕ
      → TxEnv Address
      → SpeculativeResult m
      → Ledger
      → Option (Ledger × CommitOutcome Fatal)
  unfolding check_nonce apply_result
  commit_result beneficiary disable_nonce_check txid tx result l =
      if disable_nonce_check
      then apply_result beneficiary txid result l
      else elim (check_nonce l.state tx) [
        | err e ↦ some (l, failed txid e)
        | ok false ↦ some (l, needs_sequential_fallback)
        | ok true ↦ apply_result beneficiary txid result l
      ]
