-- ===== src/IncarnationDb/Publish.antt =====
-- src/incarnation_db.rs: what an incarnation publishes when it ends.
pub mod Written
use grevm.Prelude.{
  ℕ, Bool, true, false, not, ◌&&◌, ◌||◌, Option, none, some, List, [], ◌∷◌, ◌==◌, if◌then◌else◌,
  is_none, is_some_eq, is_empty,
}
use grevm.Revm.{Accounts}
use grevm.Account.{FinalizedAccount, finalized}
use grevm.Memory.{
  Location, basic, storage, storage_reset, code, MemoryValue, basic_value, code_value,
  storage_value, reset_value, Keys, location_eq,
}
use grevm.IncarnationDb.{IncarnationDb, Accesses, AccountBasic}

module _ (keys : Keys) (revm : Accounts) where
  open keys use {Address, eqb}
  open revm use {
    AccountInfo, Account, Bytecode, is_empty_code_hash, set_code, changed_storage_slots,
  }

  abbrev Db : Type 0
  Db = IncarnationDb keys revm

  unfoldable pub contains_location : List (Location Address) → Location Address → Bool
  contains_location [] l = false
  contains_location (k ∷ ks) l = location_eq keys k l || contains_location ks l

  -- The database and the write set so far.
  abbrev pub Writing : Type 0
  Writing = Db × List (Location Address)

  pub publish_value : Bool → Location Address → MemoryValue AccountInfo Bytecode → Writing → Writing
  unfolding contains_location
  publish_value estimate l value (db, write_set) = (
    record db {
      memory = λ k txid.
          if location_eq keys l k && db.version.txid == txid
          then some
              (record { incarnation = db.version.incarnation; value = value; estimate = estimate })
          else db.memory k txid;
    },
    if contains_location write_set l then write_set else l ∷ write_set,
  )

  pub publish_slots : Bool → Address → List (ℕ × ℕ) → Writing → Writing
  unfolding publish_value
  publish_slots estimate a [] w = w
  publish_slots estimate a ((slot, value) ∷ slots) w =
      publish_slots estimate a slots
        (publish_value estimate (storage a slot) (storage_value value) w)

  -- The code was set or changed in this transaction.
  abbrev pub code_changed : Option AccountBasic → AccountInfo → Option Bytecode
  code_changed snapshot info =
      if not (is_empty_code_hash info) && elim snapshot [
        | none ↦ true
        | some b ↦ not (is_some_eq b.code_hash (revm.code_hash info))
      ]
      then revm.code info
      else none

  abbrev pub basic_changed : Option AccountBasic → AccountInfo → Bool
  basic_changed none info = true
  basic_changed (some b) info =
      not (b.nonce == revm.nonce info) || not (b.balance == revm.balance info)

  pub publish_code : Bool → Address → Option Bytecode → Writing → Writing
  unfolding publish_value
  publish_code estimate a none w = w
  publish_code estimate a (some c) w = publish_value estimate (code a) (code_value c) w

  -- A created or updated account.
  pub publish_account : Bool → Address → AccountInfo → List (ℕ × ℕ) → Bool → Writing → Writing
  unfolding publish_value publish_code publish_slots
  publish_account estimate a info slots created (db, ws) =
      let snapshot = db.account_snapshots a in
      let changed = code_changed snapshot info in
      let w₁ =
        if created
        then publish_value estimate (storage_reset a) reset_value (db, ws)
        else (db, ws) in
      let w₂ = publish_code estimate a changed w₁ in
      let w₃ =
        if not (eqb db.address a) && (not (is_none changed) || basic_changed snapshot info)
        then publish_value estimate (basic a) (basic_value (some (set_code info none))) w₂
        else w₂ in
      publish_slots estimate a slots w₃

  abbrev pub publish_deleted : Bool → Address → Writing → Writing
  publish_deleted estimate a (db, ws) = publish_value estimate (storage_reset a) reset_value (
      if not (eqb db.address a)
      then publish_value estimate (basic a) (basic_value none) (db, ws)
      else (db, ws))

  pub publish_writes : Bool → List (Address × Account) → Writing → Writing
  unfolding publish_account publish_value
  publish_writes estimate [] w = w
  publish_writes estimate ((a, account) ∷ changes) w =
      publish_writes estimate changes (elim (finalized revm account) [
        | FinalizedAccount.unchanged ↦ w
        | FinalizedAccount.deleted ↦ publish_deleted estimate a w
        | FinalizedAccount.created info ↦
            publish_account estimate a info (changed_storage_slots account) true w
        | FinalizedAccount.updated info ↦
            publish_account estimate a info (changed_storage_slots account) false w
      ])

  -- The scratch state after an incarnation, whose parts have been taken.
  abbrev pub taken : Db → Db
  taken db = record db {
    read_set = [];
    account_snapshots = λ _. none;
    blocking_txs = [];
    blocked_by_beneficiary = false;
  }

  unfoldable pub finish_incarnation : Db → List (Address × Account) → Db × Accesses keys revm
  unfolding publish_writes
  finish_incarnation db changes =
      let (db', write_set) = publish_writes (not (is_empty db.blocking_txs)) changes (db, []) in
      (
        taken db',
        record {
          reads = db'.read_set;
          write_set = write_set;
          blockers = db'.blocking_txs;
          by_beneficiary = db'.blocked_by_beneficiary;
        },
      )

  unfoldable pub discard_incarnation : Db → Db × Accesses keys revm
  discard_incarnation db = (
    taken db,
    record {
      reads = [];
      write_set = [];
      blockers = db.blocking_txs;
      by_beneficiary = db.blocked_by_beneficiary;
    },
  )
