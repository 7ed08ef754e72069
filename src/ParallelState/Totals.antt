-- ===== src/ParallelState/Totals.antt =====
-- src/parallel_state.rs: `increment_balances` returns.
use grevm.Prelude.{
  ℕ, ◌≡◌, ◌≢◌, false, none, List, [], ◌∷◌, ◌==◌, arith, refl, Bool-cases, Option-cases, inl, inr,
}
use grevm.Revm.{Accounts, Database}
use grevm.Model.{Result, ok, err}
use grevm.Memory.{Keys}
use grevm.ParallelState.{StateTypes, CacheAccountInfo, increment_balance, account_info_change}
use grevm.ParallelState.Balances.{Transitions, increment_one, increment_balance_transitions}
use grevm.ParallelState.Cache.{Cache}
use grevm.ParallelState.View.{load_mut_cache_account}

module _ (keys : Keys) (revm : Accounts) (types : StateTypes revm) {E : Type 0}
    (database : Database keys.Address revm E) (transitions : Transitions keys revm types) where
  open keys use {Address, eqb, eqb_iff}
  open revm use {AccountInfo}

  one-total :
      (c loaded : Cache keys revm types) (a : Address) (n : ℕ)
      (r : Result E (CacheAccountInfo revm types))
      → (n == 0) ≡ false
      → load_mut_cache_account keys revm types database c c a ≡ (loaded, r)
      → increment_one keys revm types database transitions c a n ≢ none
  unfolding increment_one increment_balance account_info_change
  one-total c loaded a n (err x) nonzero load = λ h. ground (arith, nonzero, load, h)
  one-total c loaded a n (ok account) nonzero load = λ h. ground (arith, nonzero, load, h)

  increment_one-total :
      (c : Cache keys revm types) (a : Address) (n : ℕ)
      → increment_one keys revm types database transitions c a n ≢ none
  unfolding increment_one
  increment_one-total c a n = elim (Bool-cases (n == 0)) [
    | inl zero_balance ↦ λ h. ground (arith, zero_balance, h)
    | inr nonzero ↦
        one-total c (load_mut_cache_account keys revm types database c c a).0 a n
          (load_mut_cache_account keys revm types database c c a).1 nonzero refl
  ]

  -- `increment_balances` never meets its failed expectation, whatever the cache, the balances and the
  -- errors of the database.
  pub increment_balance_transitions-total :
      (c : Cache keys revm types) (balances : List (Address × ℕ))
      → increment_balance_transitions keys revm types database transitions c balances ≢ none
  unfolding increment_balance_transitions
  increment_balance_transitions-total c [] = λ h. ground (arith, h)
  increment_balance_transitions-total c ((a, n) ∷ rest) =
      elim (Option-cases (increment_one keys revm types database transitions c a n)) [
        | inl panics ↦ λ h. ground (arith, increment_one-total c a n panics)
        | inr ((c₁, err x), one) ↦ λ h. ground (arith, one, h)
        | inr ((c₁, ok t), one) ↦
            elim (Option-cases
              (increment_balance_transitions keys revm types database transitions c₁ rest)) [
                | inl panics ↦
                    λ h. ground (arith, increment_balance_transitions-total c₁ rest panics)
                | inr (after, others) ↦ λ h. ground (arith, one, others, h)
              ]
      ]
