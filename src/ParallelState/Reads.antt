-- ===== src/ParallelState/Reads.antt =====
-- src/parallel_state.rs: what reads give.
use grevm.Prelude.{
  ℕ, ◌≡◌, false, ◌||◌, Option, none, some, if◌then◌else◌, is_none, arith, refl, Bool-cases,
  Option-cases, inl, inr, sym, ◌∙◌,
}
use grevm.Revm.{Accounts, Database}
use grevm.Model.{Result, ok, err, map_ok}
use grevm.Memory.{Keys}
use grevm.ParallelState.{StateTypes, CacheAccountInfo}
use grevm.ParallelState.Cache.{Cache, loaded_account, slots_of}
use grevm.ParallelState.View.{db_storage, db_basic, load_mut_cache_account, storage_known}

module _ (keys : Keys) (revm : Accounts) (types : StateTypes revm) {E : Type 0}
    (database : Database keys.Address revm E) where
  open keys use {Address, eqb, eqb_iff}
  open revm use {AccountInfo, Account}
  open types use {Slot}

  -- What a read gives.
  abbrev pub basic : Cache keys revm types → Address → Result E (Option AccountInfo)
  basic c a = (db_basic keys revm types database c c a).1

  abbrev pub slot : Cache keys revm types → Address → ℕ → Result E ℕ
  slot c a k = (db_storage keys revm types database c c a k).1

  -- What a read gives, by the cached account and the cached slot.
  abbrev pub slot_of : Option (CacheAccountInfo revm types) → Option ℕ → Result E ℕ → Result E ℕ
  slot_of account (some value) backed = ok value
  slot_of none none backed = backed
  slot_of (some account) none backed =
      if types.is_storage_known account.status || is_none account.account then ok 0 else backed

  backed-slot_of :
      (c : Cache keys revm types) (a : Address) (k : ℕ)
      → slots_of keys revm types (c.storage a) k ≡ none
      → storage_known keys revm types database c a ≡ false
      → slot_of (c.accounts a) (slots_of keys revm types (c.storage a) k) (database.storage_ref a k)
        ≡ database.storage_ref a k
      → slot c a k
        ≡ slot_of
            (c.accounts a)
            (slots_of keys revm types (c.storage a) k)
            (database.storage_ref a k)
  unfolding db_storage
  backed-slot_of c a k uncached unknown same =
      elim (database.storage_ref a k)
          as (λ r. database.storage_ref a k ≡ r → slot c a k ≡ database.storage_ref a k) [
            | err e ↦ λ backed. ground (arith, uncached, unknown, backed)
            | ok v ↦ λ backed. ground (arith, uncached, unknown, backed)
          ]
        refl
      ∙ sym same

  pub slot-eq :
      (c : Cache keys revm types) (a : Address) (k : ℕ)
      → slot c a k
        ≡ slot_of
            (c.accounts a)
            (slots_of keys revm types (c.storage a) k)
            (database.storage_ref a k)
  unfolding db_storage
  slot-eq c a k = elim (Option-cases (slots_of keys revm types (c.storage a) k)) [
    | inr (value, cached) ↦ ground (arith, cached)
    | inl uncached ↦ elim (Option-cases (c.accounts a)) [
      | inl absent ↦
          backed-slot_of c a k uncached (ground (arith, absent)) (ground (arith, absent, uncached))
      | inr (account, present) ↦
          elim (Bool-cases (types.is_storage_known account.status || is_none account.account)) [
            | inl known ↦ ground (arith, uncached, present, known)
            | inr unknown ↦
                backed-slot_of c a k uncached (ground (arith, present, unknown))
                  (ground (arith, present, uncached, unknown))
          ]
    ]
  ]

  -- What a read gives, by the cached account and what the database has.
  abbrev pub basic_of :
      Option (CacheAccountInfo revm types)
      → Result E (Option AccountInfo)
      → Result E (Option AccountInfo)
  basic_of (some account) backed = ok account.account
  basic_of none backed = map_ok (λ info. (loaded_account keys revm types info).account) backed

  basic-backed :
      (c : Cache keys revm types) (a : Address)
      → c.accounts a ≡ none
      → (r : Result E (Option AccountInfo)) → database.basic_ref a ≡ r
      → basic c a ≡ basic_of (c.accounts a) r
  unfolding db_basic load_mut_cache_account
  basic-backed c a absent (err e) backed = ground (arith, absent, backed)
  basic-backed c a absent (ok info) backed = ground (arith, absent, backed)

  pub basic-eq :
      (c : Cache keys revm types) (a : Address)
      → basic c a ≡ basic_of (c.accounts a) (database.basic_ref a)
  unfolding db_basic load_mut_cache_account
  basic-eq c a = elim (Option-cases (c.accounts a)) [
    | inr (account, present) ↦ ground (arith, present)
    | inl absent ↦ basic-backed c a absent (database.basic_ref a) refl
  ]
