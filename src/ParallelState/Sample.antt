-- ===== src/ParallelState/Sample.antt =====
-- Types of the cache that meet the laws, and a database, for the tests.
use grevm.Prelude.{
  ℕ, ◌≡◌, Bool, true, false, ◌||◌, none, some, List, ◌++◌, ◌==◌, ltb, if◌then◌else◌, refl, arith,
}
use grevm.Model.{ok, err}
use grevm.Revm.{Accounts, Database}
use grevm.Revm.Sample.{sample, Entry}
use grevm.ParallelState.{StateTypes, Transition}
use grevm.ParallelState.Balances.{Transitions}
use grevm.ParallelState.Cache.{Cache}
use grevm.Scheduler.Sample.{numbers}

-- A nonce of 9 stands for a destructed account, 8 for a created one.
abbrev pub accounts : Accounts
accounts = record sample {
  is_selfdestructed = λ a. a.after.count == 9;
  is_created = λ a. a.after.count == 8;
}

abbrev is_known : ℕ → Bool
is_known s = s == 2 || ltb 3 s

abbrev changed : ℕ → Bool → ℕ
changed s no_nonce_and_code = if is_known s then 4 else (if no_nonce_and_code then 4 else 3)

pub known-changed : (s : ℕ) (b : Bool) → is_known s ≡ true → is_known (changed s b) ≡ true
known-changed s b known = ground (arith, known)

-- 0: loaded, 1: loaded and empty, 2: not existing, 3: changed, from 4 on: changed with known storage.
abbrev pub types : StateTypes accounts
types = record {
  Status = ℕ;
  loaded = 0;
  loaded_empty_eip161 = 1;
  loaded_not_existing = 2;
  is_loaded_not_existing = λ s. s == 2;
  is_destroyed = λ s. s == 5;
  is_storage_known = is_known;
  on_changed = changed;
  on_created = λ s. 4;
  on_selfdestructed = λ s. 5;
  on_touched_empty_post_eip161 = λ s. 5;
  Slot = ℕ;
  present_value = λ v. v;
  changed_slots = λ a. a.slots;
  is_empty_info = λ a. false;
  has_no_code_and_nonce = λ a. a.count == 0;
  is_storage_known-loaded = refl;
  is_storage_known-loaded_empty = refl;
  is_storage_known-on_created = λ s. refl;
  is_storage_known-loaded_not_existing = refl;
  is_storage_known-on_selfdestructed = λ s. refl;
  is_storage_known-on_touched_empty = λ s. refl;
  is_storage_known-on_changed = known-changed;
}

abbrev pub transitions : Transitions numbers accounts types
transitions = record {
  State = List (ℕ × Transition accounts types);
  add_transitions = λ old new. old ++ new;
}

-- Account 1 has the nonce 1, and 5 in its slots; no other account exists.
abbrev pub database : Database ℕ accounts ℕ
database = record {
  basic_ref = λ a. if a == 1 then ok (some (record { funds = 10; count = 1 })) else ok none;
  code_by_hash_ref = λ h. err h;
  storage_ref = λ a k. if a == 1 then ok 5 else ok 0;
}

abbrev pub empty_cache : Cache numbers accounts types
empty_cache = record { accounts = λ a. none; storage = λ a. none; contracts = λ h. none }

-- Account 1 is loaded.
abbrev pub cached : Cache numbers accounts types
cached = record empty_cache {
  accounts = λ a.
      if a == 1
      then some (record { account = some (record { funds = 10; count = 1 }); status = 0 })
      else none;
}

-- Account 1 with a nonce and written slots.
abbrev pub touched : ℕ → List (ℕ × ℕ) → Entry
touched count slots = record {
  after = record { funds = 7; count = count };
  touched = true;
  slots = slots;
}
