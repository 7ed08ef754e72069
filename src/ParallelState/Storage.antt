-- ===== src/ParallelState/Storage.antt =====
-- src/parallel_state.rs: what slots read after a committed transaction.
use grevm.Prelude.{
  ℕ, ◌≡◌, false, Option, some, if◌then◌else◌, arith, refl, Bool-cases, Option-cases, inl, inr,
  subst, ap, ◌∙◌,
}
use grevm.Revm.{Accounts, Database}
use grevm.Account.{finalized}
use grevm.Memory.{Keys}
use grevm.ParallelState.{StateTypes, Transition}
use grevm.ParallelState.Cache.{Cache, apply_account_state}
use grevm.ParallelState.Apply.{
  IsKnown, Applied, untouched, removes, replaces, changes, apply_account_state-Applied,
}
use grevm.ParallelState.Reads.{slot, slot-eq}
use grevm.ParallelState.Update.{written, slot_after, IsFresh, changed-slot}

module _ (keys : Keys) (revm : Accounts) (types : StateTypes revm) {E : Type 0}
    (database : Database keys.Address revm E) where
  open keys use {Address, eqb, eqb_iff}
  open revm use {AccountInfo, Account}
  open types use {Slot}

  own-slot :
      (c c' : Cache keys revm types) (a : Address) (account : Account) (k : ℕ)
      → IsKnown keys revm types c
      → Applied keys revm types c a account c'
      → IsFresh keys revm types database c a k
      → slot keys revm types database c' a k
        ≡ slot_after keys revm types database
            (finalized revm account)
            (written keys revm types database account k)
            (slot keys revm types database c a k)
  own-slot c c' a account k known (untouched is same) fresh =
      ap (λ x. slot keys revm types database x a k) same ∙ ground (arith, is)
  own-slot c c' a account k known (removes old new is cached gone is_known accounts storage) fresh =
      ground (
        arith,
        slot-eq keys revm types database c' a k,
        is,
        ap (λ f. f a) accounts,
        ap (λ f. f a) storage,
        (eqb_iff a a).1 refl,
        gone,
        is_known,
      )
  own-slot c c' a account k known (replaces old new info is cached here is_known accounts storage)
        fresh =
      elim (Option-cases (written keys revm types database account k)) [
        | inl unwritten ↦ ground (
          arith,
          slot-eq keys revm types database c' a k,
          is,
          ap (λ f. f a) accounts,
          storage a k,
          (eqb_iff a a).1 refl,
          here,
          is_known,
          unwritten,
        )
        | inr (value, wrote) ↦ ground (
          arith,
          slot-eq keys revm types database c' a k,
          is,
          storage a k,
          (eqb_iff a a).1 refl,
          wrote,
        )
      ]
  own-slot c c' a account k known (changes old new info is cached here status accounts storage)
        fresh =
      let same = (eqb_iff a a).1 refl in
      changed-slot keys revm types database c c' a account old new info k known fresh cached here
        status (ground (arith, ap (λ f. f a) accounts, same)) (ground (arith, storage a k, same))
      ∙ ground (arith, is)

  other-slot :
      (c c' : Cache keys revm types) (a : Address) (account : Account)
      → Applied keys revm types c a account c'
      → (b : Address) (k : ℕ) → eqb a b ≡ false
      → slot keys revm types database c' b k ≡ slot keys revm types database c b k
  other-slot c c' a account (untouched is same) b k differs =
      ap (λ x. slot keys revm types database x b k) same
  other-slot c c' a account (removes old new is cached gone is_known accounts storage) b k differs =
      ground (
        arith,
        slot-eq keys revm types database c' b k,
        slot-eq keys revm types database c b k,
        ap (λ f. f b) accounts,
        ap (λ f. f b) storage,
        differs,
      )
  other-slot c c' a account (replaces old new info is cached here is_known accounts storage) b k
        differs =
      ground (
        arith,
        slot-eq keys revm types database c' b k,
        slot-eq keys revm types database c b k,
        ap (λ f. f b) accounts,
        storage b k,
        differs,
      )
  other-slot c c' a account (changes old new info is cached here status accounts storage) b k
        differs =
      ground (
        arith,
        slot-eq keys revm types database c' b k,
        slot-eq keys revm types database c b k,
        ap (λ f. f b) accounts,
        storage b k,
        differs,
      )

  -- A slot that a read gives after a transaction is committed is 0 if the account was removed, the
  -- written value or 0 if it was created, the written value or the slot as before if it was updated,
  -- and every slot of another account reads as before. Assumed: cached accounts that do not exist have
  -- known storage, and an account whose storage an update makes known has no such slot in the database.
  pub slot-apply_account_state :
      (c c' : Cache keys revm types) (a : Address) (account : Account)
      (t : Option (Transition revm types))
      → IsKnown keys revm types c
      → apply_account_state keys revm types c a account ≡ some (c', t)
      → (b : Address) (k : ℕ) → IsFresh keys revm types database c a k
      → slot keys revm types database c' b k ≡ (
          if eqb a b
          then slot_after keys revm types database
              (finalized revm account)
              (written keys revm types database account k)
              (slot keys revm types database c b k)
          else slot keys revm types database c b k)
  slot-apply_account_state c c' a account t known e b k fresh =
      let applied = apply_account_state-Applied keys revm types c c' a account t e in
      elim (Bool-cases (eqb a b)) [
        | inr differs ↦ other-slot c c' a account applied b k differs ∙ ground (arith, differs)
        | inl same ↦
            subst
              (λ (x : Address).
                slot keys revm types database c' x k
                ≡ slot_after keys revm types database (finalized revm account)
                    (written keys revm types database account k)
                    (slot keys revm types database c x k))
              ((eqb_iff a b).0 same) (own-slot c c' a account k known applied fresh)
            ∙ ground (arith, same)
      ]
