-- ===== src/ParallelState/Overtaken.antt =====
-- src/parallel_state.rs: a load of a slot that a commit overtakes.
use grevm.Prelude.{ℕ, ◌≡◌, false, Option, none, some, arith, refl, ap, ◌∙◌}
use grevm.Revm.{Accounts, Database}
use grevm.Model.{ok}
use grevm.Account.{deleted, finalized}
use grevm.Memory.{Keys}
use grevm.ParallelState.{StateTypes, Transition}
use grevm.ParallelState.Cache.{Cache, slots_of, apply_account_state}
use grevm.ParallelState.Apply.{
  Applied, untouched, removes, replaces, changes, apply_account_state-Applied,
}
use grevm.ParallelState.Reads.{slot, slot-eq}
use grevm.ParallelState.View.{db_storage, storage_known}
use grevm.ParallelState.Slots.{slot-inserted, with_slot-slot}

module _ (keys : Keys) (revm : Accounts) (types : StateTypes revm) {E : Type 0}
    (database : Database keys.Address revm E) where
  open keys use {Address, eqb, eqb_iff}
  open revm use {AccountInfo, Account}

  removed-slot :
      (seen now : Cache keys revm types) (a : Address) (account : Account) (k : ℕ)
      → Applied keys revm types seen a account now
      → finalized revm account ≡ deleted
      → (slot keys revm types database now a k ≡ ok 0)
        × (slots_of keys revm types (now.storage a) k ≡ none)
  removed-slot seen now a account k (untouched unchanged_account same) is =
      ground (arith, unchanged_account, is)
  removed-slot seen now a account k (removes old new gone cached absent known accounts storage) is =
      let same = (eqb_iff a a).1 refl in
      (
        ground (
          arith,
          slot-eq keys revm types database now a k,
          ap (λ f. f a) accounts,
          ap (λ f. f a) storage,
          same,
          absent,
          known,
        ),
        ground (arith, ap (λ f. f a) storage, same),
      )
  removed-slot seen now a account k (replaces old new info made cached here known accounts storage)
        is =
      ground (arith, made, is)
  removed-slot seen now a account k (changes old new info made cached here status accounts storage)
        is =
      ground (arith, made, is)

  -- A load of a slot of the database that began before the account was removed, and inserts its value
  -- after that, gives the old value and leaves it for every later read, which would have given 0.
  pub db_storage-overtaken :
      (seen now : Cache keys revm types) (a : Address) (account : Account)
      (t : Option (Transition revm types)) (k value : ℕ)
      → slots_of keys revm types (seen.storage a) k ≡ none
      → storage_known keys revm types database seen a ≡ false
      → database.storage_ref a k ≡ ok value
      → finalized revm account ≡ deleted
      → apply_account_state keys revm types seen a account ≡ some (now, t)
      → (slot keys revm types database now a k ≡ ok 0)
        × (slot keys revm types database (db_storage keys revm types database seen now a k).0 a k
            ≡ ok value)
  db_storage-overtaken seen now a account t k value uncached unknown backed is e =
      let (gone, uncached_now) =
        removed-slot seen now a account k
          (apply_account_state-Applied keys revm types seen now a account t e) is in
      let loaded =
        slot-inserted keys revm types database seen now a k value uncached
          (ground (arith, unknown, backed)) uncached_now in
      (
        gone,
        ap (λ q. slot keys revm types database q.0 a k) loaded
            ∙ with_slot-slot keys revm types database now a k value,
      )
