-- ===== src/ParallelState/View.antt =====
-- src/parallel_state.rs: `ParallelStateView`, the loads that workers and ordered commit share.
use grevm.Prelude.{ℕ, Bool, false, ◌||◌, Option, none, some, ◌==◌, if◌then◌else◌, is_none}
use grevm.Revm.{Accounts, Database}
use grevm.Model.{Result, ok, err, map_ok}
use grevm.Memory.{Keys}
use grevm.ParallelState.{StateTypes, CacheAccountInfo}
use grevm.ParallelState.Cache.{Cache, set_account, set_storage, slots_of, loaded_account}

module _ (keys : Keys) (revm : Accounts) (types : StateTypes revm) {E : Type 0}
    (database : Database keys.Address revm E) where
  open keys use {Address, eqb}
  open revm use {AccountInfo, Account, Bytecode, default_info}
  open types use {Status, Slot}

  -- A load looks into the cache, asks the database, and then inserts what it got unless another
  -- thread has inserted since: `seen` is the cache at the first access, `now` at the last.
  abbrev pub insert_loaded :
      (Cache keys revm types)
      → Address
      → (CacheAccountInfo revm types)
      → (Cache keys revm types) × (CacheAccountInfo revm types)
  insert_loaded now a account = elim (now.accounts a) [
    | some present ↦ (now, present)
    | none ↦ ((set_account keys revm types) now a account, account)
  ]

  unfoldable pub load_mut_cache_account :
      (Cache keys revm types)
      → (Cache keys revm types)
      → Address
      → (Cache keys revm types) × Result E (CacheAccountInfo revm types)
  load_mut_cache_account seen now a = elim (seen.accounts a) [
    | some account ↦ (now, ok account)
    | none ↦ elim (database.basic_ref a) [
      | err e ↦ (now, err e)
      | ok info ↦
          let (c, account) = insert_loaded now a ((loaded_account keys revm types) info) in
          (c, ok account)
    ]
  ]

  -- `db_basic`
  unfoldable pub db_basic :
      (Cache keys revm types)
      → (Cache keys revm types)
      → Address
      → (Cache keys revm types) × Result E (Option AccountInfo)
  unfolding load_mut_cache_account
  db_basic seen now a =
      let (c, found) = load_mut_cache_account seen now a in
      (c, map_ok (λ account. account.account) found)

  pub db_code_by_hash :
      (Cache keys revm types)
      → (Cache keys revm types)
      → ℕ
      → (Cache keys revm types) × Result E Bytecode
  db_code_by_hash seen now hash = elim (seen.contracts hash) [
    | some code ↦ (now, ok code)
    | none ↦ elim (database.code_by_hash_ref hash) [
      | err e ↦ (now, err e)
      | ok code ↦ elim (now.contracts hash) [
        | some present ↦ (now, ok present)
        | none ↦ (
          record now { contracts = λ h. if hash == h then some code else now.contracts h },
          ok code,
        )
      ]
    ]
  ]

  abbrev pub storage_known : (Cache keys revm types) → Address → Bool
  storage_known c a = elim (c.accounts a) [
    | none ↦ false
    | some account ↦ types.is_storage_known account.status || is_none account.account
  ]

  -- What a slot holds that is not cached.
  abbrev pub uncached_slot : (Cache keys revm types) → Address → ℕ → Result E ℕ
  uncached_slot seen a index = if storage_known seen a then ok 0 else database.storage_ref a index

  -- `entry(index).or_insert(value)`
  abbrev pub insert_slot : (Cache keys revm types) → Address → ℕ → ℕ → (Cache keys revm types) × ℕ
  insert_slot now a index value = elim ((slots_of keys revm types) (now.storage a) index) [
    | some present ↦ (now, present)
    | none ↦ (
      (set_storage keys revm types) now a (
          some
            (λ k. if index == k then some value else (slots_of keys revm types) (now.storage a) k)),
      value,
    )
  ]

  unfoldable pub db_storage :
      (Cache keys revm types)
      → (Cache keys revm types)
      → Address
      → ℕ
      → (Cache keys revm types) × Result E ℕ
  db_storage seen now a index = elim ((slots_of keys revm types) (seen.storage a) index) [
    | some value ↦ (now, ok value)
    | none ↦ elim (uncached_slot seen a index) [
      | err e ↦ (now, err e)
      | ok value ↦ let (c, present) = insert_slot now a index value in (c, ok present)
    ]
  ]
