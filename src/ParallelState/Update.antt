-- ===== src/ParallelState/Update.antt =====
-- src/parallel_state.rs: the slots of an account that a committed transaction updates.
use grevm.Prelude.{
  ℕ, ◌≡◌, true, false, Option, none, some, [], ◌∷◌, ◌==◌, if◌then◌else◌, unwrap_or, arith, refl,
  Bool-cases, Option-cases, inl, inr,
}
use grevm.Revm.{Accounts, Database}
use grevm.Model.{Result, ok}
use grevm.Account.{FinalizedAccount, unchanged, deleted, created, updated}
use grevm.Memory.{Keys}
use grevm.ParallelState.{
  StateTypes, CacheAccountInfo, PlainStorage, present_values, had_no_nonce_and_code,
}
use grevm.ParallelState.Cache.{Cache, insert_slots, slots_of}
use grevm.ParallelState.Apply.{IsKnown}
use grevm.ParallelState.Reads.{slot, slot-eq}

module _ (keys : Keys) (revm : Accounts) (types : StateTypes revm) {E : Type 0}
    (database : Database keys.Address revm E) where
  open keys use {Address, eqb, eqb_iff}
  open revm use {AccountInfo, Account}
  open types use {Slot}

  -- The slots that a transaction wrote.
  abbrev pub written : Account → ℕ → Option ℕ
  written account =
      insert_slots keys revm types (present_values revm types (types.changed_slots account))
        (λ _. none)

  abbrev pub slot_after : FinalizedAccount AccountInfo → Option ℕ → Result E ℕ → Result E ℕ
  slot_after unchanged value before = before
  slot_after deleted value before = ok 0
  slot_after (created info) value before = ok (unwrap_or value 0)
  slot_after (updated info) none before = before
  slot_after (updated info) (some value) before = ok value

  pub insert_slots-base :
      (slots : PlainStorage revm types) (base : ℕ → Option ℕ) (k : ℕ)
      → insert_slots keys revm types slots base k
        ≡ elim (insert_slots keys revm types slots (λ _. none) k) [
          | some value ↦ some value
          | none ↦ base k
        ]
  insert_slots-base [] base k = refl
  insert_slots-base ((key, value) ∷ slots) base k = ground (
    arith,
    insert_slots-base slots (λ i. if key == i then some value else base i) k,
    insert_slots-base slots (λ i. if key == i then some value else none) k,
  )

  -- A slot that `update` leaves is in the storage that the database has.
  abbrev pub IsFresh : Cache keys revm types → Address → ℕ → Type 0
  IsFresh c a k =
      (old : CacheAccountInfo revm types)
      → c.accounts a ≡ some old
      → types.is_storage_known old.status ≡ false
      → types.is_storage_known
          (types.on_changed old.status (had_no_nonce_and_code revm types old.account))
        ≡ true
      → database.storage_ref a k ≡ ok 0

  pub changed-slot :
      (c c' : Cache keys revm types) (a : Address) (account : Account)
      (old new : CacheAccountInfo revm types) (info : AccountInfo) (k : ℕ)
      → IsKnown keys revm types c
      → IsFresh c a k
      → c.accounts a ≡ some old
      → new.account ≡ some info
      → new.status ≡ types.on_changed old.status (had_no_nonce_and_code revm types old.account)
      → c'.accounts a ≡ some new
      → slots_of keys revm types (c'.storage a) k
        ≡ insert_slots keys revm types
            (present_values revm types (types.changed_slots account))
            (slots_of keys revm types (c.storage a))
            k
      → slot keys revm types database c' a k
        ≡ slot_after (updated info) (written account k) (slot keys revm types database c a k)
  changed-slot c c' a account old new info k known fresh cached here status after_account
        after_slots =
      let base =
        insert_slots-base (present_values revm types (types.changed_slots account))
          (slots_of keys revm types (c.storage a)) k in
      elim (Option-cases (written account k)) [
        | inr (value, wrote) ↦
            ground (arith, slot-eq keys revm types database c' a k, after_slots, base, wrote)
        | inl unwritten ↦ elim (Option-cases (slots_of keys revm types (c.storage a) k)) [
          | inr (value, in_cache) ↦ ground (
            arith,
            slot-eq keys revm types database c' a k,
            slot-eq keys revm types database c a k,
            after_slots,
            base,
            unwritten,
            in_cache,
          )
          | inl uncached ↦ elim (Bool-cases (types.is_storage_known old.status)) [
            | inl was_known ↦ ground (
              arith,
              slot-eq keys revm types database c' a k,
              slot-eq keys revm types database c a k,
              after_slots,
              base,
              unwritten,
              uncached,
              cached,
              after_account,
              status,
              here,
              types.is_storage_known-on_changed old.status
                  (had_no_nonce_and_code revm types old.account) was_known,
              was_known,
            )
            | inr was_unknown ↦ elim (Option-cases old.account) [
              | inl absent ↦ ground (arith, known a old cached absent, was_unknown)
              | inr (before, present) ↦
                  elim (Bool-cases (
                    types.is_storage_known (
                      types.on_changed old.status
                        (had_no_nonce_and_code revm types old.account)))) [
                          | inl is_known ↦ ground (
                            arith,
                            slot-eq keys revm types database c' a k,
                            slot-eq keys revm types database c a k,
                            after_slots,
                            base,
                            unwritten,
                            uncached,
                            cached,
                            after_account,
                            status,
                            here,
                            was_unknown,
                            present,
                            is_known,
                            fresh old cached was_unknown is_known,
                          )
                          | inr unknown ↦ ground (
                            arith,
                            slot-eq keys revm types database c' a k,
                            slot-eq keys revm types database c a k,
                            after_slots,
                            base,
                            unwritten,
                            uncached,
                            cached,
                            after_account,
                            status,
                            here,
                            was_unknown,
                            present,
                            unknown,
                          )
                        ]
            ]
          ]
        ]
      ]
