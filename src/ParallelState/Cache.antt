-- ===== src/ParallelState/Cache.antt =====
-- src/parallel_state.rs: `ParallelCacheState`, and what a committed transaction does to it.
use grevm.Prelude.{ℕ, not, Option, none, some, List, [], ◌∷◌, ◌==◌, if◌then◌else◌, ◌>>=◌}
use grevm.Revm.{Accounts}
use grevm.Memory.{Keys}
use grevm.ParallelState.{
  StateTypes, CacheAccountInfo, Transition, PlainStorage, selfdestruct, newly_created,
  touch_empty_eip161, change,
}

module _ (keys : Keys) (revm : Accounts) (types : StateTypes revm) where
  open keys use {Address, eqb}
  open revm use {AccountInfo, Account, Bytecode, default_info}
  open types use {Status, Slot}

  -- `ParallelCacheState`
  pub record Cache : Type 0 where
    pub accounts : Address → Option (CacheAccountInfo revm types)
    pub storage : Address → Option (ℕ → Option ℕ)
    pub contracts : ℕ → Option Bytecode

  abbrev pub set_account : Cache → Address → (CacheAccountInfo revm types) → Cache
  set_account c a account = record c {
    accounts = λ b. if eqb a b then some account else c.accounts b;
  }

  abbrev pub set_storage : Cache → Address → Option (ℕ → Option ℕ) → Cache
  set_storage c a slots = record c { storage = λ b. if eqb a b then slots else c.storage b }

  abbrev pub insert_slots : (PlainStorage revm types) → (ℕ → Option ℕ) → ℕ → Option ℕ
  insert_slots [] slots = slots
  insert_slots ((key, value) ∷ rest) slots =
      insert_slots rest (λ k. if key == k then some value else slots k)

  abbrev pub slots_of : Option (ℕ → Option ℕ) → ℕ → Option ℕ
  slots_of none = λ _. none
  slots_of (some slots) = slots

  unfoldable pub update_storage_slot : Cache → Address → (PlainStorage revm types) → Cache
  update_storage_slot c a storage =
      set_storage c a (some (insert_slots storage (slots_of (c.storage a))))

  -- `insert_account`, and the account that a load puts into the cache.
  abbrev pub loaded_account : Option AccountInfo → (CacheAccountInfo revm types)
  loaded_account none = record { account = none; status = types.loaded_not_existing }
  loaded_account (some info) =
      if types.is_empty_info info
      then record { account = some default_info; status = types.loaded_empty_eip161 }
      else record { account = some info; status = types.loaded }

  pub insert_not_existing : Cache → Address → Cache
  insert_not_existing c a = set_account c a (loaded_account none)

  pub insert_account : Cache → Address → AccountInfo → Cache
  insert_account c a info = set_account c a (loaded_account (some info))

  pub insert_account_with_storage :
      Cache → Address → AccountInfo → (PlainStorage revm types) → Cache
  unfolding insert_account update_storage_slot
  insert_account_with_storage c a info storage =
      insert_account (update_storage_slot c a storage) a info

  -- The end of `apply_account_state`.
  abbrev pub with_slots : Cache → Address → (PlainStorage revm types) → Cache
  with_slots c a [] = c
  with_slots c a (slot ∷ slots) = update_storage_slot c a (slot ∷ slots)

  -- `contracts.entry(code_hash).or_insert_with(...)`
  abbrev pub insert_code : Cache → AccountInfo → Option Cache
  insert_code c info = elim (c.contracts (revm.code_hash info)) [
    | some code ↦ some c
    | none ↦ elim (revm.code info) [
      | none ↦ none
      | some code ↦ some (record c {
        contracts = λ h. if revm.code_hash info == h then some code else c.contracts h;
      })
    ]
  ]

  unfoldable pub apply_account_state :
      Cache → Address → Account → Option (Cache × Option (Transition revm types))
  unfolding selfdestruct newly_created touch_empty_eip161 change update_storage_slot
  apply_account_state c a account = if not (revm.is_touched account) then some (c, none) else (do
    old ← c.accounts a
    let changed_storage = types.changed_slots account
    if revm.is_selfdestructed account
        then (let (new, t) = (selfdestruct revm types) old in
            some (set_account (set_storage c a none) a new, t))
        else (if revm.is_created account
            then (do
              let (new, t, slots) =
                  (newly_created revm types) old (revm.info account) changed_storage
              c' ← insert_code (set_account (set_storage c a none) a new) (revm.info account)
              some (with_slots c' a slots, some t))
            else (if revm.is_empty account
                then (let (new, t) = (touch_empty_eip161 revm types) old in
                    some (set_account (set_storage c a none) a new, t))
                else (let (new, t, slots) =
                      (change revm types) old (revm.info account) changed_storage in
                    some (with_slots (set_account c a new) a slots, some t)))))

  -- `apply_evm_state`, over the map's entries in any order.
  unfoldable pub apply_evm_state :
      Cache → List (Address × Account) → Option (Cache × List (Address × (Transition revm types)))
  unfolding apply_account_state
  apply_evm_state c [] = some (c, [])
  apply_evm_state c ((a, account) ∷ rest) = do
    (c₁, t) ← apply_account_state c a account
    (c₂, transitions) ← apply_evm_state c₁ rest
    some (c₂, elim t [ none ↦ transitions | some x ↦ (a, x) ∷ transitions ])
