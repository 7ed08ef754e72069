-- ===== src/IncarnationDb/Publish/Written.antt =====
-- src/incarnation_db.rs: the entries that a publication leaves in the memory.
use grevm.Prelude.{
  ℕ, is_empty, not, ◌≡◌, ◌≢◌, Bool, true, false, ◌||◌, Option, none, some, List, [], ◌∷◌, refl,
  arith, if◌then◌else◌, ap, Bool-cases, inl, inr, subst,
}
use grevm.Revm.{Accounts}
use grevm.Model.{TxVersion}
use grevm.Account.{FinalizedAccount, finalized}
use grevm.Memory.{
  Location, basic, storage, storage_reset, code, MemoryValue, MemoryEntry, Memory, Keys,
  location_eq, storage_value, basic_value, code_value, reset_value,
}
use grevm.IncarnationDb.{IncarnationDb}
use grevm.IncarnationDb.Publish.{
  contains_location, Writing, publish_value, publish_slots, publish_code, publish_account,
  publish_deleted, publish_writes, code_changed,
}

module _ (keys : Keys) (revm : Accounts) where
  open keys use {Address, eqb}
  open revm use {AccountInfo, Account, Bytecode, changed_storage_slots}

  pub location_eq_sound : (l k : Location Address) → location_eq keys l k ≡ true → l ≡ k
  location_eq_sound (basic a) (basic b) h = ap basic ((keys.eqb_iff a b).0 h)
  location_eq_sound (storage a i) (storage b j) h = ground (arith, h, (keys.eqb_iff a b).0)
  location_eq_sound (storage_reset a) (storage_reset b) h =
      ap storage_reset ((keys.eqb_iff a b).0 h)
  location_eq_sound (code a) (code b) h = ap code ((keys.eqb_iff a b).0 h)
  location_eq_sound (basic a) (storage b j) h = absurd (ground (arith, h))
  location_eq_sound (basic a) (storage_reset b) h = absurd (ground (arith, h))
  location_eq_sound (basic a) (code b) h = absurd (ground (arith, h))
  location_eq_sound (storage a i) (basic b) h = absurd (ground (arith, h))
  location_eq_sound (storage a i) (storage_reset b) h = absurd (ground (arith, h))
  location_eq_sound (storage a i) (code b) h = absurd (ground (arith, h))
  location_eq_sound (storage_reset a) (basic b) h = absurd (ground (arith, h))
  location_eq_sound (storage_reset a) (storage b j) h = absurd (ground (arith, h))
  location_eq_sound (storage_reset a) (code b) h = absurd (ground (arith, h))
  location_eq_sound (code a) (basic b) h = absurd (ground (arith, h))
  location_eq_sound (code a) (storage b j) h = absurd (ground (arith, h))
  location_eq_sound (code a) (storage_reset b) h = absurd (ground (arith, h))

  contains_added :
      (ws : List (Location Address)) (l k : Location Address)
      → contains_location keys revm (if contains_location keys revm ws l then ws else l ∷ ws) k
        ≡ (location_eq keys l k || contains_location keys revm ws k)
  unfolding contains_location
  contains_added ws l k = elim (Bool-cases (contains_location keys revm ws l)) [
    | inr absent ↦ ground (arith, absent)
    | inl present ↦ elim (Bool-cases (location_eq keys l k)) [
      | inr apart ↦ ground (arith, present, apart)
      | inl same ↦
          let there : contains_location keys revm ws k ≡ true =
            subst (λ (x : Location Address). contains_location keys revm ws x ≡ true)
              (location_eq_sound l k same) present in
          ground (arith, present, same, there)
    ]
  ]

  -- Of the version's transaction, the entries at the write set are new ones of its incarnation, which
  -- are estimates or not; the others are those of `base`, and so are all of other transactions.
  pub record IsWritten (base : Memory Address AccountInfo Bytecode) (version : TxVersion)
      (estimate : Bool) (w : Writing keys revm) : Type 0 where
    pub versioned : w.0.version ≡ version
    pub blocks : not (is_empty w.0.blocking_txs) ≡ estimate
    pub written :
        (l : Location Address)
        → contains_location keys revm w.1 l ≡ true
        → (entry : MemoryEntry AccountInfo Bytecode) × (w.0.memory l version.txid ≡ some entry)
          × (entry.estimate ≡ estimate)
          × (entry.incarnation ≡ version.incarnation)
    pub unwritten :
        (l : Location Address)
        → contains_location keys revm w.1 l ≡ false
        → w.0.memory l version.txid ≡ base l version.txid
    pub others : (l : Location Address) (k : ℕ) → k ≢ version.txid → w.0.memory l k ≡ base l k

  module _ (base : Memory Address AccountInfo Bytecode) (version : TxVersion)
      (estimate : Bool) where
    publish_value-IsWritten :
        (l : Location Address) (value : MemoryValue AccountInfo Bytecode) (w : Writing keys revm)
        → IsWritten base version estimate w
        → IsWritten base version estimate (publish_value keys revm estimate l value w)
    unfolding publish_value contains_location
    publish_value-IsWritten l value (db, ws) v = record {
      versioned = v.versioned;
      blocks = v.blocks;
      written = λ k h. elim (Bool-cases (location_eq keys l k)) [
        | inl same ↦ (
          record { incarnation = db.version.incarnation; value = value; estimate = estimate },
          ground (arith, same, v.versioned),
          refl,
          ground (arith, v.versioned),
        )
        | inr apart ↦
            let (entry, found, e, n) =
              v.written k (ground (arith, h, apart, contains_added ws l k)) in
            (entry, ground (arith, apart, found), e, n)
      ];
      unwritten = λ k h. ground (arith, h, contains_added ws l k, v.unwritten k);
      others = λ k i h. ground (arith, h, v.versioned, v.others k i h);
    }

    if-IsWritten :
        (test : Bool) (w w' : Writing keys revm)
        → IsWritten base version estimate w
        → IsWritten base version estimate w'
        → IsWritten base version estimate (if test then w else w')
    if-IsWritten true w w' v v' = v
    if-IsWritten false w w' v v' = v'

    publish_slots-IsWritten :
        (a : Address) (slots : List (ℕ × ℕ)) (w : Writing keys revm)
        → IsWritten base version estimate w
        → IsWritten base version estimate (publish_slots keys revm estimate a slots w)
    unfolding publish_slots
    publish_slots-IsWritten a [] w v = v
    publish_slots-IsWritten a ((slot, value) ∷ slots) w v =
        publish_slots-IsWritten a slots _
          (publish_value-IsWritten (storage a slot) (storage_value value) w v)

    publish_code-IsWritten :
        (a : Address) (c : Option Bytecode) (w : Writing keys revm)
        → IsWritten base version estimate w
        → IsWritten base version estimate (publish_code keys revm estimate a c w)
    unfolding publish_code
    publish_code-IsWritten a none w v = v
    publish_code-IsWritten a (some c) w v = publish_value-IsWritten (code a) (code_value c) w v

    publish_account-IsWritten :
        (a : Address) (info : AccountInfo) (slots : List (ℕ × ℕ)) (created : Bool)
        (w : Writing keys revm)
        → IsWritten base version estimate w
        → IsWritten base version estimate
            (publish_account keys revm estimate a info slots created w)
    unfolding publish_account
    publish_account-IsWritten a info slots created (db, ws) v =
        publish_slots-IsWritten a slots _
          (if-IsWritten _ _ _ (publish_value-IsWritten (basic a) _ _ coded) coded)
      where
        w₁ : Writing keys revm
        w₁ =
            if created
            then publish_value keys revm estimate (storage_reset a) reset_value (db, ws)
            else (db, ws)

        reset : IsWritten base version estimate w₁
        reset =
            if-IsWritten created _ _
              (publish_value-IsWritten (storage_reset a) reset_value (db, ws) v) v

        coded : IsWritten base version estimate (
            publish_code keys revm estimate a
              (code_changed keys revm (db.account_snapshots a) info)
              w₁)
        coded =
            publish_code-IsWritten a (code_changed keys revm (db.account_snapshots a) info) w₁ reset

    publish_deleted-IsWritten :
        (a : Address) (w : Writing keys revm)
        → IsWritten base version estimate w
        → IsWritten base version estimate (publish_deleted keys revm estimate a w)
    publish_deleted-IsWritten a (db, ws) v =
        publish_value-IsWritten (storage_reset a) reset_value _
          (if-IsWritten _ _ _ (publish_value-IsWritten (basic a) (basic_value none) (db, ws) v) v)

    publish_changes-IsWritten :
        (changes : List (Address × Account)) (w : Writing keys revm)
        → IsWritten base version estimate w
        → IsWritten base version estimate (publish_writes keys revm estimate changes w)
    unfolding publish_writes
    publish_changes-IsWritten [] w v = v
    publish_changes-IsWritten ((a, account) ∷ changes) w v =
        publish_changes-IsWritten changes _ (by_kind (finalized revm account))
      where
        by_kind :
            (kind : FinalizedAccount AccountInfo)
            → IsWritten base version estimate (elim kind [
              | FinalizedAccount.unchanged ↦ w
              | FinalizedAccount.deleted ↦ publish_deleted keys revm estimate a w
              | FinalizedAccount.created info ↦
                  publish_account keys revm estimate a info (changed_storage_slots account) true w
              | FinalizedAccount.updated info ↦
                  publish_account keys revm estimate a info (changed_storage_slots account) false w
            ])
        by_kind FinalizedAccount.unchanged = v
        by_kind FinalizedAccount.deleted = publish_deleted-IsWritten a w v
        by_kind (FinalizedAccount.created info) =
            publish_account-IsWritten a info (changed_storage_slots account) true w v
        by_kind (FinalizedAccount.updated info) =
            publish_account-IsWritten a info (changed_storage_slots account) false w v

  -- An incarnation's publication leaves exactly the entries of its write set: of the incarnation's
  -- transaction, every location of the write set holds an entry of this incarnation, which is an
  -- estimate exactly if the incarnation is blocked; every other location, and every other transaction,
  -- holds what it held before.
  pub publish_writes-IsWritten :
      (changes : List (Address × Account)) (db : IncarnationDb keys revm)
      → IsWritten db.memory db.version
          (not (is_empty db.blocking_txs))
          (publish_writes keys revm (not (is_empty db.blocking_txs)) changes (db, []))
  unfolding contains_location
  publish_writes-IsWritten changes db =
      publish_changes-IsWritten db.memory db.version (not (is_empty db.blocking_txs)) changes
        (db, [])
        (record {
          versioned = refl;
          blocks = refl;
          written = λ l h. absurd (ground (arith, h));
          unwritten = λ l h. refl;
          others = λ l k h. refl;
        })
