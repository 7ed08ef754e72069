-- ===== src/IncarnationDb/Slots.antt =====
-- src/incarnation_db.rs: the value that a storage read gives.
use grevm.Prelude.{
  ℕ, zero, suc, ◌≡◌, Bool, true, false, not, Option, none, some, refl, arith, Option-cases, leb,
  if◌then◌else◌, inl, inr, is_none,
}
use grevm.Revm.{Accounts, Database}
use grevm.Model.{Result, ok}
use grevm.Memory.{
  storage, storage_reset, storage_value, reset_value, MemoryEntry, Keys, Versions, latest_before,
  latest_before-lt, latest_before-some,
}
use grevm.IncarnationDb.{IncarnationDb, read_storage}

-- One transaction's effect on a slot: its own write, else a reset, else what was there before.
abbrev pub slot_effect : Option ℕ → Bool → Option ℕ → Option ℕ
slot_effect (some value) reset before = some value
slot_effect none true before = some 0
slot_effect none false before = before

-- The slot before transaction `n`, by the transactions' effects in block order; `none` stands for the
-- value in the backing database.
pub slot_before : (ℕ → Option ℕ) → (ℕ → Bool) → ℕ → Option ℕ
slot_before write reset zero = none
slot_before write reset (suc n) = slot_effect (write n) (reset n) (slot_before write reset n)

module _ {Info Code : Type 0} where
  -- Every entry is of the kind that its location holds.
  abbrev pub HoldsSlots : Versions Info Code → Type 0
  HoldsSlots versions =
      (w : ℕ) (entry : MemoryEntry Info Code)
      → versions w ≡ some entry
      → (v : ℕ) × (entry.value ≡ storage_value v)

  abbrev pub HoldsResets : Versions Info Code → Type 0
  HoldsResets versions =
      (w : ℕ) (entry : MemoryEntry Info Code) → versions w ≡ some entry → entry.value ≡ reset_value

  abbrev pub slot_value : Option (MemoryEntry Info Code) → Option ℕ
  slot_value none = none
  slot_value (some entry) = elim entry.value [ storage_value v ↦ some v | _ ↦ none ]

  -- The two latest entries, and the slot that they stand for.
  abbrev pub pick :
      Option (ℕ × MemoryEntry Info Code) → Option (ℕ × MemoryEntry Info Code) → Option ℕ
  pick none none = none
  pick none (some (r, _)) = some 0
  pick (some (s, entry)) none = slot_value (some entry)
  pick (some (s, entry)) (some (r, _)) = if leb r s then slot_value (some entry) else some 0

  pick-slot_before :
      (slots resets : Versions Info Code)
      → HoldsSlots slots
      → (n : ℕ)
      → pick (latest_before slots n) (latest_before resets n)
        ≡ slot_before (λ w. slot_value (slots w)) (λ w. not (is_none (resets w))) n
  unfolding slot_before latest_before
  pick-slot_before slots resets hs zero = refl
  pick-slot_before slots resets hs (suc n) = elim (Option-cases (slots n)) [
    | inl unwritten ↦ elim (Option-cases (resets n)) [
      | inl kept ↦ rw (unwritten, kept, latest_before) (pick-slot_before slots resets hs n)
      | inr (r, reset) ↦ elim (Option-cases (latest_before slots n)) [
        | inl never ↦ rw (unwritten, reset, latest_before, never)
        | inr ((s, entry), older) ↦
            ground (arith, unwritten, reset, older, latest_before-lt slots n older)
      ]
    ]
    | inr (entry, written) ↦
        let (v, kind) = hs n entry written in
        elim (Option-cases (latest_before resets n)) [
          | inl never ↦ ground (arith, written, kind, never)
          | inr ((r, reset), older) ↦
              ground (arith, written, kind, older, latest_before-lt resets n older)
        ]
  ]

module _ (keys : Keys) (revm : Accounts) {E : Type 0}
    (backing_db : Database keys.Address revm E) where
  abbrev Db : Type 0
  Db = IncarnationDb keys revm

  abbrev pub from_backing : keys.Address → ℕ → Option ℕ → Result E ℕ
  from_backing a index (some value) = ok value
  from_backing a index none = backing_db.storage_ref a index

  -- Where the entries of the slot are slot values and those of the reset are resets, a storage read gives what executing the earlier transactions' published writes and resets in block
  -- order leaves in the slot, and asks the backing database only where none of them touched it.
  pub read_storage-slot_before :
      (db : Db) (a : keys.Address) (index : ℕ)
      → HoldsSlots (db.memory (storage a index))
      → HoldsResets (db.memory (storage_reset a))
      → (read_storage keys revm backing_db db a index).1
        ≡ from_backing a index (
            slot_before
              (λ w. slot_value (db.memory (storage a index) w))
              (λ w. not (is_none (db.memory (storage_reset a) w)))
              db.version.txid)
  unfolding read_storage
  read_storage-slot_before db a index hs hr =
      let slots = db.memory (storage a index) in
      let resets = db.memory (storage_reset a) in
      let n = db.version.txid in
      rw (← pick-slot_before slots resets hs n) (elim (Option-cases (latest_before slots n)) [
        | inl no_slot ↦ elim (Option-cases (latest_before resets n)) [
          | inl no_reset ↦ ground (arith, no_slot, no_reset)
          | inr ((r, reset), p) ↦
              ground (arith, no_slot, p, hr r reset (latest_before-some resets n r reset p).found)
        ]
        | inr ((s, entry), q) ↦
            let (v, kind) = hs s entry (latest_before-some slots n s entry q).found in
            elim (Option-cases (latest_before resets n)) [
              | inl no_reset ↦ ground (arith, q, no_reset, kind)
              | inr ((r, reset), p) ↦
                  ground
                    (arith, q, p, kind, hr r reset (latest_before-some resets n r reset p).found)
            ]
      ])
