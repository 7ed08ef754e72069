-- ===== src/ParallelState/Commits.antt =====
-- src/parallel_state.rs: what accounts read after the commit of a transaction's whole state.
use grevm.Prelude.{
  ◌≡◌, Option, some, List, [], ◌∷◌, if◌then◌else◌, arith, Option-cases, inl, inr, ap, ◌∙◌,
}
use grevm.Revm.{Accounts, Database}
use grevm.Model.{Result}
use grevm.Account.{finalized}
use grevm.Memory.{Keys}
use grevm.ParallelState.{StateTypes, Transition}
use grevm.ParallelState.Balances.{Transitions, ParallelState, commit, apply_transition}
use grevm.ParallelState.Cache.{Cache, apply_account_state, apply_evm_state}
use grevm.ParallelState.Committed.{basic_after, basic-apply_account_state}
use grevm.ParallelState.Reads.{basic}

module _ (keys : Keys) (revm : Accounts) (types : StateTypes revm) {E : Type 0}
    (database : Database keys.Address revm E) (transitions : Transitions keys revm types) where
  open keys use {Address, eqb}
  open revm use {AccountInfo, Account}

  -- The entries of an EVM state, one after the other, on what a read of an account gives.
  abbrev pub basic_after_all :
      List (Address × Account)
      → Address
      → Result E (Option AccountInfo)
      → Result E (Option AccountInfo)
  basic_after_all [] b before = before
  basic_after_all ((a, account) ∷ rest) b before = basic_after_all rest b (
      if eqb a b
      then basic_after keys revm types database (finalized revm account) before
      else before)

  apply_evm_state-basics :
      (c c' : Cache keys revm types) (evm_state : List (Address × Account))
      (ts : List (Address × Transition revm types))
      → apply_evm_state keys revm types c evm_state ≡ some (c', ts)
      → (b : Address)
      → basic keys revm types database c' b
        ≡ basic_after_all evm_state b (basic keys revm types database c b)
  unfolding apply_evm_state
  apply_evm_state-basics c c' [] ts e b =
      ap (λ x. basic keys revm types database x b) (ground (arith, e))
  apply_evm_state-basics c c' ((a, account) ∷ rest) ts e b =
      elim (Option-cases (apply_account_state keys revm types c a account)) [
        | inl panics ↦ ground (arith, panics, e)
        | inr ((c₁, t), one) ↦ elim (Option-cases (apply_evm_state keys revm types c₁ rest)) [
          | inl panics ↦ ground (arith, one, panics, e)
          | inr ((c₂, ts₁), others) ↦
              let same : c' ≡ c₂ = ground (arith, one, others, e) in
              ap (λ x. basic keys revm types database x b) same
              ∙ apply_evm_state-basics c₁ c₂ rest ts₁ others b
              ∙ ap (λ r. basic_after_all rest b r)
                  (basic-apply_account_state keys revm types database c c₁ a account t one b)
        ]
      ]

  -- After the commit of a transaction, each account reads as its entry in the transaction's state has
  -- left it, and every account without a touched entry reads as before.
  pub commit-basics :
      (s s' : ParallelState keys revm types database transitions)
      (evm_state : List (Address × Account))
      → commit keys revm types database transitions s evm_state ≡ some s'
      → (b : Address)
      → basic keys revm types database s'.cache b
        ≡ basic_after_all evm_state b (basic keys revm types database s.cache b)
  unfolding commit apply_transition
  commit-basics s s' evm_state e b =
      elim (Option-cases (apply_evm_state keys revm types s.cache evm_state)) [
        | inl panics ↦ ground (arith, panics, e)
        | inr ((c, ts), applied) ↦
            let same : s'.cache ≡ c = elim (Option-cases s.transition_state) [
              | inl disabled ↦ ground (arith, applied, disabled, e)
              | inr (old, enabled) ↦ ground (arith, applied, enabled, e)
            ] in
            ap (λ x. basic keys revm types database x b) same
            ∙ apply_evm_state-basics s.cache c evm_state ts applied b
      ]
