-- ===== src/IncarnationDb.antt =====
-- src/incarnation_db.rs: `IncarnationDb`, the database that one transaction incarnation reads. The
-- read set and the blockers are lists in any order, the snapshots a function. An operation that panics is `none`; one that fails with the
-- backing database's error has done what it does before the error.
pub mod Publish
pub mod Slots
mod Tests
use grevm.Prelude.{
  ℕ, zero, suc, ◌+◌, ◌-◌, ◌≡◌, ◌≢◌, ◌≤◌, ◌<◌, ◌%◌, ◌^◌, Bool, true, false, not, ◌&&◌, ◌||◌, Option,
  none, some, List, [], ◌∷◌, ◌++◌, refl, arith, Cells, Option-cases, ap, ◌∙◌, sym, ltb, leb, ◌==◌,
  if◌then◌else◌, ◌⊎◌, inl, inr, update, put, cell, filled, Bool-cases, ◌>>=◌, >>=-eq-some, length,
  get_elem?, length-append, contains, insert, is_none, is_some_eq, unwrap_or, is_empty, All, subst,
  map, min, max, usize_mod, usize_add, ltb→lt, lt→ltb, leb→le, ◌↔◌, ==_iff, fun_ext, cell-eq-some,
}
use grevm.Revm.{Accounts, Database}
use grevm.Model.{TxVersion, Result, ok, err}
use grevm.Account.{FinalizedAccount, finalized}
use grevm.Beneficiary
use grevm.Beneficiary.{History}
use grevm.Memory.{
  Location, basic, storage, storage_reset, code, MemoryValue, basic_value, code_value,
  storage_value, reset_value, MemoryEntry, Keys, location_eq, Memory, Versions, latest_before,
}

pub data ReadVersion : Type 0 where
  mv_memory : TxVersion → ReadVersion
  beneficiary : List TxVersion → ReadVersion
  backing : ReadVersion

pub record AccountBasic : Type 0 where
  pub balance : ℕ
  pub nonce : ℕ
  pub code_hash : Option ℕ

module _ (keys : Keys) (revm : Accounts) where
  open keys use {Address, eqb}
  open revm use {
    AccountInfo, Account, Bytecode, is_empty_code_hash, set_code, changed_storage_slots,
  }

  -- `AccountBasic::from`
  abbrev pub account_basic : AccountInfo → AccountBasic
  account_basic info = record {
    balance = revm.balance info;
    nonce = revm.nonce info;
    code_hash = if is_empty_code_hash info then none else some (revm.code_hash info);
  }

  abbrev pub ReadSet : Type 0
  ReadSet = List (Location Address × ReadVersion)

  -- `HashMap::insert`
  pub insert_read : Location Address → ReadVersion → ReadSet → ReadSet
  insert_read l v [] = (l, v) ∷ []
  insert_read l v ((k, w) ∷ reads) =
      if location_eq keys k l then (l, v) ∷ reads else (k, w) ∷ insert_read l v reads

  pub record IncarnationDb : Type 0 where
    pub address : Address
    pub history : History AccountInfo
    pub memory : Memory Address AccountInfo Bytecode
    pub read_set : ReadSet
    pub account_snapshots : Address → Option AccountBasic
    pub version : TxVersion
    pub blocking_txs : List ℕ
    pub blocked_by_beneficiary : Bool

  pub record Accesses : Type 0 where
    pub reads : ReadSet
    pub write_set : List (Location Address)
    pub blockers : List ℕ
    pub by_beneficiary : Bool

  abbrev pub is_blocked : Accesses → Bool
  is_blocked a = not (is_empty a.blockers)

  unfoldable pub begin_incarnation : IncarnationDb → TxVersion → IncarnationDb
  begin_incarnation db version = record db {
    version = version;
    read_set = [];
    account_snapshots = λ _. none;
    blocking_txs = [];
    blocked_by_beneficiary = false;
  }

  abbrev pub note_read : IncarnationDb → Location Address → ReadVersion → IncarnationDb
  note_read db l v = record db { read_set = insert_read l v db.read_set }

  abbrev pub note_snapshot : IncarnationDb → Address → Option AccountInfo → IncarnationDb
  note_snapshot db a none = db
  note_snapshot db a (some info) = record db {
    account_snapshots = λ b. if eqb a b then some (account_basic info) else db.account_snapshots b;
  }

  -- A read of an estimate blocks the incarnation on its writer.
  abbrev pub note_blocker : IncarnationDb → ℕ → Bool → IncarnationDb
  note_blocker db txid estimate = record db {
    blocking_txs = if estimate then insert txid db.blocking_txs else db.blocking_txs;
  }

  abbrev pub entry_version : ℕ → MemoryEntry AccountInfo Bytecode → ReadVersion
  entry_version txid entry = mv_memory (record { txid = txid; incarnation = entry.incarnation })

  -- What a location's latest preceding entry holds, if it is of the kind that the reader matches on.
  abbrev pub latest :
      {V : Type 0}
      → IncarnationDb
      → Location Address
      → (MemoryValue AccountInfo Bytecode → Option V)
      → Option (ℕ × MemoryEntry AccountInfo Bytecode × V)
  latest db l kind = do
    (txid, entry) ← latest_before (db.memory l) db.version.txid
    value ← kind entry.value
    some (txid, entry, value)

  abbrev pub as_basic : MemoryValue AccountInfo Bytecode → Option (Option AccountInfo)
  as_basic (basic_value a) = some a
  as_basic _ = none

  abbrev pub as_code : MemoryValue AccountInfo Bytecode → Option Bytecode
  as_code (code_value c) = some c
  as_code _ = none

  abbrev pub as_storage : MemoryValue AccountInfo Bytecode → Option ℕ
  as_storage (storage_value v) = some v
  as_storage _ = none

  abbrev pub as_reset : MemoryValue AccountInfo Bytecode → Option (Unit {0})
  as_reset reset_value = some tt
  as_reset _ = none

  -- The location's version as the reader notes it, and the blocker.
  abbrev pub note_latest :
      {V : Type 0}
      → IncarnationDb
      → Location Address
      → Option (ℕ × MemoryEntry AccountInfo Bytecode × V)
      → IncarnationDb
  note_latest db l none = note_read db l backing
  note_latest db l (some (txid, entry, _)) =
      note_read (note_blocker db txid entry.estimate) l (entry_version txid entry)

  module _ {E : Type 0} (backing_db : Database Address revm E) where
    pub code_by_address : IncarnationDb → Address → ℕ → IncarnationDb × Result E Bytecode
    code_by_address db a hash = elim (latest db (code a) as_code) [
      | some (txid, entry, c) ↦ (note_latest db (code a) (some (txid, entry, c)), ok c)
      | none ↦ elim (backing_db.code_by_hash_ref hash) [
        | ok c ↦ (note_read db (code a) backing, ok c)
        | err e ↦ (db, err e)
      ]
    ]

    -- The account of the beneficiary; a blocked read is absent.
    pub basic_beneficiary : IncarnationDb → Address → Option (IncarnationDb × Option AccountInfo)
    basic_beneficiary db a = do
      resolved ← Beneficiary.resolve_before revm db.history db.version.txid
      elim resolved [
        | ok read ↦ some (
          note_snapshot (note_read db (basic a) (beneficiary read.version)) a read.account,
          read.account,
        )
        | err blocker ↦ some (
          record db {
            blocking_txs = insert blocker db.blocking_txs;
            blocked_by_beneficiary = true;
          },
          none,
        )
      ]

    pub basic_memory : IncarnationDb → Address → IncarnationDb × Result E (Option AccountInfo)
    basic_memory db a = elim (latest db (basic a) as_basic) [
      | some (txid, entry, account) ↦ (
        note_snapshot (note_latest db (basic a) (some (txid, entry, account))) a account,
        ok account,
      )
      | none ↦ elim (backing_db.basic_ref a) [
        | ok account ↦ (note_snapshot (note_read db (basic a) backing) a account, ok account)
        | err e ↦ (db, err e)
      ]
    ]

    -- The end of `basic`: an account with code that is not loaded gets it.
    pub load_code :
        IncarnationDb → Address → Option AccountInfo → IncarnationDb × Result E (Option AccountInfo)
    unfolding code_by_address
    load_code db a none = (db, ok none)
    load_code db a (some info) =
        if not (is_empty_code_hash info) && is_none (revm.code info)
        then (let (db', loaded) = code_by_address db a (revm.code_hash info) in
            (db', elim loaded [ ok c ↦ ok (some (set_code info (some c))) | err e ↦ err e ]))
        else (db, ok (some info))

    pub read_basic :
        IncarnationDb → Address → Option (IncarnationDb × Result E (Option AccountInfo))
    unfolding basic_beneficiary basic_memory load_code
    read_basic db a =
        if eqb db.address a
        then (do (db', account) ← basic_beneficiary db a; some (load_code db' a account))
        else (let (db', found) = basic_memory db a in
            some (elim found [ ok account ↦ load_code db' a account | err e ↦ (db', err e) ]))

    -- A slot write counts if no later transaction has reset the storage.
    abbrev pub outlives :
        Option (ℕ × MemoryEntry AccountInfo Bytecode × ℕ)
        → Option (ℕ × MemoryEntry AccountInfo Bytecode × Unit {0})
        → Option ℕ
    outlives none reset = none
    outlives (some (slot_txid, _, value)) none = some value
    outlives (some (slot_txid, _, value)) (some (reset_txid, _, _)) =
        if leb reset_txid slot_txid then some value else none

    pub read_storage : IncarnationDb → Address → ℕ → IncarnationDb × Result E ℕ
    read_storage db a index =
        let reset = latest db (storage_reset a) as_reset in
        let db₁ = note_latest db (storage_reset a) reset in
        let slot = latest db₁ (storage a index) as_storage in
        let db₂ = note_latest db₁ (storage a index) slot in
        (
          db₂,
          elim (outlives slot reset) [
            | some value ↦ ok value
            | none ↦ if is_none reset then backing_db.storage_ref a index else ok 0
          ],
        )
