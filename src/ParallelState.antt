-- ===== src/ParallelState.antt =====
-- src/parallel_state.rs: the cache over the backing database, and the transitions of ordered commit. A
-- `DashMap` is a function. Histograms are left out; a failed expectation or conversion is `none`.
pub mod Cache
pub mod View
pub mod Loads
pub mod Slots
pub mod Overtaken
pub mod Balances
pub mod Credits
pub mod Totals
pub mod Commits
pub mod CommitTotal
pub mod Apply
pub mod Reads
pub mod Committed
pub mod Update
pub mod Storage
mod Sample
mod Tests
use grevm.Prelude.{
  ℕ, zero, suc, ◌^◌, ◌≡◌, Bool, true, false, not, ◌||◌, Option, none, some, List, [], ◌∷◌, ltb,
  ◌==◌, if◌then◌else◌, is_none, unwrap_or, is_empty, ◌>>=◌, map,
}
use grevm.Revm.{Accounts, Database}
use grevm.Model.{Result, ok, err, map_ok}
use grevm.Memory.{Keys}
use grevm.Reserve.{saturating_add}

-- What the code uses of revm_database: `AccountStatus` with its transitions, storage slots with their
-- original values, and the properties of an `AccountInfo` that they depend on.
pub record StateTypes (revm : Accounts) : Type 1 where
  pub Status : Type 0
  pub loaded : Status
  pub loaded_empty_eip161 : Status
  pub loaded_not_existing : Status
  pub is_loaded_not_existing : Status → Bool
  -- `Destroyed` or `DestroyedAgain`
  pub is_destroyed : Status → Bool
  pub is_storage_known : Status → Bool
  pub on_changed : Status → Bool → Status
  pub on_created : Status → Status
  pub on_selfdestructed : Status → Status
  pub on_touched_empty_post_eip161 : Status → Status
  pub Slot : Type 0
  pub present_value : Slot → ℕ
  -- the slots that the transaction changed
  pub changed_slots : revm.Account → List (ℕ × Slot)
  pub is_empty_info : revm.AccountInfo → Bool
  pub has_no_code_and_nonce : revm.AccountInfo → Bool
  -- the storage of an account that was loaded is not known
  pub is_storage_known-loaded : is_storage_known loaded ≡ false
  pub is_storage_known-loaded_empty : is_storage_known loaded_empty_eip161 ≡ false
  -- the storage of a created account is known
  pub is_storage_known-on_created : (s : Status) → is_storage_known (on_created s) ≡ true
  -- an account that does not exist has known storage, as it has after each way to remove it
  pub is_storage_known-loaded_not_existing : is_storage_known loaded_not_existing ≡ true
  pub is_storage_known-on_selfdestructed :
      (s : Status) → is_storage_known (on_selfdestructed s) ≡ true
  pub is_storage_known-on_touched_empty :
      (s : Status) → is_storage_known (on_touched_empty_post_eip161 s) ≡ true
  -- known storage stays known
  pub is_storage_known-on_changed :
      (s : Status) (b : Bool) → is_storage_known s ≡ true → is_storage_known (on_changed s b) ≡ true

module _ (revm : Accounts) (types : StateTypes revm) where
  open revm use {AccountInfo, Account, Bytecode, default_info}
  open types use {Status, Slot}

  pub record CacheAccountInfo : Type 0 where
    pub account : Option AccountInfo
    pub status : Status

  -- `TransitionAccount`
  pub record Transition : Type 0 where
    pub info : Option AccountInfo
    pub status : Status
    pub previous_info : Option AccountInfo
    pub previous_status : Status
    pub storage : List (ℕ × Slot)
    pub storage_was_destroyed : Bool

  abbrev pub PlainStorage : Type 0
  PlainStorage = List (ℕ × ℕ)

  abbrev pub present_values : List (ℕ × Slot) → PlainStorage
  present_values [] = []
  present_values ((key, slot) ∷ slots) = (key, types.present_value slot) ∷ present_values slots

  -- `previous_info.as_ref().map(has_no_code_and_nonce).unwrap_or_default()`
  abbrev pub had_no_nonce_and_code : Option AccountInfo → Bool
  had_no_nonce_and_code none = false
  had_no_nonce_and_code (some info) = types.has_no_code_and_nonce info

  -- The transition between two values of a cached account.
  abbrev pub transition : CacheAccountInfo → CacheAccountInfo → List (ℕ × Slot) → Bool → Transition
  transition old new storage destroyed = record {
    info = new.account;
    status = new.status;
    previous_info = old.account;
    previous_status = old.status;
    storage = storage;
    storage_was_destroyed = destroyed;
  }

  -- `account_info_change`, by the new value that `change` gives.
  pub account_info_change :
      CacheAccountInfo → (AccountInfo → AccountInfo) → CacheAccountInfo × Transition
  account_info_change c change =
      let new : CacheAccountInfo = record {
        account = some (change (unwrap_or c.account default_info));
        status = types.on_changed c.status (had_no_nonce_and_code c.account);
      } in
      (new, transition c new [] false)

  pub increment_balance : CacheAccountInfo → ℕ → CacheAccountInfo × Option Transition
  unfolding account_info_change
  increment_balance c balance =
      if balance == 0
      then (c, none)
      else (let (new, t) =
            account_info_change c
              (λ info. revm.set_balance info (saturating_add (revm.balance info) balance)) in
          (new, some t))

  -- `drain_balance`; a balance that does not fit a `u128` panics.
  pub drain_balance : CacheAccountInfo → Option (CacheAccountInfo × ℕ × Transition)
  unfolding account_info_change
  drain_balance c =
      let output = revm.balance (unwrap_or c.account default_info) in
      let (new, t) = account_info_change c (λ info. revm.set_balance info 0) in
      if ltb output (2 ^ 128) then some (new, output, t) else none

  pub selfdestruct : CacheAccountInfo → CacheAccountInfo × Option Transition
  selfdestruct c =
      let new : CacheAccountInfo = record {
        account = none;
        status = types.on_selfdestructed c.status;
      } in
      (new, if types.is_loaded_not_existing c.status then none else some (transition c new [] true))

  pub newly_created :
      CacheAccountInfo
      → AccountInfo
      → List (ℕ × Slot)
      → CacheAccountInfo × Transition × PlainStorage
  newly_created c info storage =
      let new : CacheAccountInfo = record {
        account = some info;
        status = types.on_created c.status;
      } in
      (new, transition c new storage false, present_values storage)

  pub touch_empty_eip161 : CacheAccountInfo → CacheAccountInfo × Option Transition
  touch_empty_eip161 c =
      let new : CacheAccountInfo = record {
        account = none;
        status = types.on_touched_empty_post_eip161 c.status;
      } in
      (
        new,
        if types.is_loaded_not_existing c.status || types.is_destroyed c.status
            then none
            else some (transition c new [] true),
      )

  pub change :
      CacheAccountInfo
      → AccountInfo
      → List (ℕ × Slot)
      → CacheAccountInfo × Transition × PlainStorage
  change c info storage =
      let new : CacheAccountInfo = record {
        account = some info;
        status = types.on_changed c.status (had_no_nonce_and_code c.account);
      } in
      (new, transition c new storage false, present_values storage)
