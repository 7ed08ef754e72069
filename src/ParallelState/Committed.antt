-- ===== src/ParallelState/Committed.antt =====
-- src/parallel_state.rs: what accounts read after a committed transaction.
use grevm.Prelude.{
  ◌≡◌, Option, none, some, if◌then◌else◌, arith, Bool-cases, inl, inr, subst, sym, ap, ◌∙◌,
}
use grevm.Revm.{Accounts, Database}
use grevm.Model.{Result, ok}
use grevm.Account.{FinalizedAccount, unchanged, deleted, created, updated, finalized}
use grevm.Memory.{Keys}
use grevm.ParallelState.{StateTypes, CacheAccountInfo, Transition}
use grevm.ParallelState.Cache.{Cache, apply_account_state}
use grevm.ParallelState.Apply.{
  IsKnown, untouched, removes, replaces, changes, apply_account_state-Applied,
}
use grevm.ParallelState.Reads.{basic, basic-eq}

module _ (keys : Keys) (revm : Accounts) (types : StateTypes revm) {E : Type 0}
    (database : Database keys.Address revm E) where
  open keys use {Address, eqb, eqb_iff}
  open revm use {AccountInfo, Account}
  open types use {Slot}

  abbrev pub basic_after :
      FinalizedAccount AccountInfo → Result E (Option AccountInfo) → Result E (Option AccountInfo)
  basic_after unchanged before = before
  basic_after deleted before = ok none
  basic_after (created info) before = ok (some info)
  basic_after (updated info) before = ok (some info)

  -- What a read gives when the transaction has set the account to `new`.
  set-basic :
      (c c' : Cache keys revm types) (a : Address) (account : Account)
      (new : CacheAccountInfo revm types)
      → c'.accounts ≡ (λ b. if eqb a b then some new else c.accounts b)
      → ok new.account ≡ basic_after (finalized revm account) (basic keys revm types database c a)
      → (b : Address)
      → basic keys revm types database c' b ≡ (
          if eqb a b
          then basic_after (finalized revm account) (basic keys revm types database c b)
          else basic keys revm types database c b)
  set-basic c c' a account new accounts is b = elim (Bool-cases (eqb a b)) [
    | inl same ↦
        let at_b =
          subst
            (λ (x : Address).
              ok new.account
              ≡ basic_after (finalized revm account) (basic keys revm types database c x))
            ((eqb_iff a b).0 same) is in
        ground (arith, basic-eq keys revm types database c' b, ap (λ f. f b) accounts, same, at_b)
    | inr differs ↦ ground (
      arith,
      basic-eq keys revm types database c' b,
      basic-eq keys revm types database c b,
      ap (λ f. f b) accounts,
      differs,
    )
  ]

  -- The account that a read gives after a transaction is committed is what the transaction made of it,
  -- and every other account reads as before.
  pub basic-apply_account_state :
      (c c' : Cache keys revm types) (a : Address) (account : Account)
      (t : Option (Transition revm types))
      → apply_account_state keys revm types c a account ≡ some (c', t)
      → (b : Address)
      → basic keys revm types database c' b ≡ (
          if eqb a b
          then basic_after (finalized revm account) (basic keys revm types database c b)
          else basic keys revm types database c b)
  basic-apply_account_state c c' a account t e b =
      elim (apply_account_state-Applied keys revm types c c' a account t e) [
        | untouched is same ↦ ap (λ x. basic keys revm types database x b) same ∙ ground (arith, is)
        | removes old new is cached gone known accounts storage ↦
            set-basic c c' a account new accounts (ground (arith, is, gone)) b
        | replaces old new info is cached here known accounts storage ↦
            set-basic c c' a account new accounts (ground (arith, is, here)) b
        | changes old new info is cached here known accounts storage ↦
            set-basic c c' a account new accounts (ground (arith, is, here)) b
      ]

  -- After a commit, cached accounts that do not exist still have known storage.
  pub IsKnown-apply_account_state :
      (c c' : Cache keys revm types) (a : Address) (account : Account)
      (t : Option (Transition revm types))
      → IsKnown keys revm types c
      → apply_account_state keys revm types c a account ≡ some (c', t)
      → IsKnown keys revm types c'
  IsKnown-apply_account_state c c' a account t known e b x here absent =
      elim (apply_account_state-Applied keys revm types c c' a account t e) [
        | untouched is same ↦ known b x (sym (ap (λ y. y.accounts b) same) ∙ here) absent
        | removes old new is cached gone is_known accounts storage ↦
            ground (arith, known b x, here, absent, ap (λ f. f b) accounts, is_known)
        | replaces old new info is cached some_info is_known accounts storage ↦
            ground (arith, known b x, here, absent, ap (λ f. f b) accounts, some_info)
        | changes old new info is cached some_info status accounts storage ↦
            ground (arith, known b x, here, absent, ap (λ f. f b) accounts, some_info)
      ]
