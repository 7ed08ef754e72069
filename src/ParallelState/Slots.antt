-- ===== src/ParallelState/Slots.antt =====
-- src/parallel_state.rs: loads of storage slots by several threads.
use grevm.Prelude.{
  ℕ, ◌≡◌, none, some, ◌==◌, if◌then◌else◌, arith, refl, Bool-cases, Option-cases, inl, inr, subst,
  sym, ◌∙◌, ==_iff,
}
use grevm.Revm.{Accounts, Database}
use grevm.Model.{Result, ok, err}
use grevm.Memory.{Keys}
use grevm.ParallelState.{StateTypes}
use grevm.ParallelState.Cache.{Cache, slots_of, set_storage}
use grevm.ParallelState.Loads.{ReadsAlike, settle, unchanged-ReadsAlike}
use grevm.ParallelState.Reads.{slot, basic-eq, slot-eq}
use grevm.ParallelState.View.{db_storage, uncached_slot}

module _ (keys : Keys) (revm : Accounts) (types : StateTypes revm) {E : Type 0}
    (database : Database keys.Address revm E) where
  open keys use {Address, eqb, eqb_iff}
  open revm use {AccountInfo, Account}

  abbrev pub with_slot : Cache keys revm types → Address → ℕ → ℕ → Cache keys revm types
  with_slot now a k value =
      set_storage keys revm types now a
        (some (λ i. if k == i then some value else slots_of keys revm types (now.storage a) i))

  slot-cached :
      (seen now : Cache keys revm types) (a : Address) (k value : ℕ)
      → slots_of keys revm types (seen.storage a) k ≡ some value
      → db_storage keys revm types database seen now a k ≡ (now, ok value)
  unfolding db_storage
  slot-cached seen now a k value cached = ground (arith, cached)

  slot-failed :
      (seen now : Cache keys revm types) (a : Address) (k : ℕ) (e : E)
      → slots_of keys revm types (seen.storage a) k ≡ none
      → uncached_slot keys revm types database seen a k ≡ err e
      → db_storage keys revm types database seen now a k ≡ (now, err e)
  unfolding db_storage
  slot-failed seen now a k e uncached failed = ground (arith, uncached, failed)

  slot-raced :
      (seen now : Cache keys revm types) (a : Address) (k value present : ℕ)
      → slots_of keys revm types (seen.storage a) k ≡ none
      → uncached_slot keys revm types database seen a k ≡ ok value
      → slots_of keys revm types (now.storage a) k ≡ some present
      → db_storage keys revm types database seen now a k ≡ (now, ok present)
  unfolding db_storage
  slot-raced seen now a k value present uncached backed raced =
      ground (arith, uncached, backed, raced)

  pub slot-inserted :
      (seen now : Cache keys revm types) (a : Address) (k value : ℕ)
      → slots_of keys revm types (seen.storage a) k ≡ none
      → uncached_slot keys revm types database seen a k ≡ ok value
      → slots_of keys revm types (now.storage a) k ≡ none
      → db_storage keys revm types database seen now a k ≡ (with_slot now a k value, ok value)
  unfolding db_storage
  slot-inserted seen now a k value uncached backed still = ground (arith, uncached, backed, still)

  pub with_slot-slot :
      (now : Cache keys revm types) (a : Address) (k value : ℕ)
      → slot keys revm types database (with_slot now a k value) a k ≡ ok value
  with_slot-slot now a k value = ground (
    arith,
    slot-eq keys revm types database (with_slot now a k value) a k,
    (eqb_iff a a).1 refl,
    (==_iff k k).1 refl,
  )

  with_slot-own :
      (now : Cache keys revm types) (a : Address) (k value i : ℕ)
      → slot keys revm types database now a k ≡ ok value
      → slot keys revm types database (with_slot now a k value) a i
        ≡ slot keys revm types database now a i
  with_slot-own now a k value i is = elim (Bool-cases (k == i)) [
    | inl same ↦
        subst
          (λ (x : ℕ).
            slot keys revm types database (with_slot now a k value) a x
            ≡ slot keys revm types database now a x)
          ((==_iff k i).0 same) (with_slot-slot now a k value ∙ sym is)
    | inr differs ↦ ground (
      arith,
      slot-eq keys revm types database (with_slot now a k value) a i,
      slot-eq keys revm types database now a i,
      (eqb_iff a a).1 refl,
      differs,
    )
  ]

  with_slot-ReadsAlike :
      (now : Cache keys revm types) (a : Address) (k value : ℕ)
      → slot keys revm types database now a k ≡ ok value
      → ReadsAlike keys revm types database now (with_slot now a k value)
  with_slot-ReadsAlike now a k value is = record {
    basics = λ b.
        basic-eq keys revm types database (with_slot now a k value) b
        ∙ sym (basic-eq keys revm types database now b);
    slots = λ b i. elim (Bool-cases (eqb a b)) [
      | inl same ↦
          subst
            (λ (x : Address).
              slot keys revm types database (with_slot now a k value) x i
              ≡ slot keys revm types database now x i)
            ((eqb_iff a b).0 same) (with_slot-own now a k value i is)
      | inr differs ↦ ground (
        arith,
        slot-eq keys revm types database (with_slot now a k value) b i,
        slot-eq keys revm types database now b i,
        differs,
      )
    ];
  }

  uncached-slot :
      (seen : Cache keys revm types) (a : Address) (k : ℕ)
      → slots_of keys revm types (seen.storage a) k ≡ none
      → slot keys revm types database seen a k ≡ uncached_slot keys revm types database seen a k
  uncached-slot seen a k uncached = elim (Option-cases (seen.accounts a)) [
    | inl absent ↦ ground (arith, slot-eq keys revm types database seen a k, uncached, absent)
    | inr (account, present) ↦
        ground (arith, slot-eq keys revm types database seen a k, uncached, present)
  ]

  backed-ReadsAlike :
      (seen now : Cache keys revm types) (a : Address) (k : ℕ)
      → ReadsAlike keys revm types database seen now
      → slots_of keys revm types (seen.storage a) k ≡ none
      → (r : Result E ℕ) → uncached_slot keys revm types database seen a k ≡ r
      → ((db_storage keys revm types database seen now a k).1
          ≡ slot keys revm types database seen a k)
        × ReadsAlike keys revm types database now
            (db_storage keys revm types database seen now a k).0
  backed-ReadsAlike seen now a k alike uncached (err e) failed =
      settle keys revm types database now now (db_storage keys revm types database seen now a k)
        (err e) (slot keys revm types database seen a k)
        (slot-failed seen now a k e uncached failed)
        (sym (uncached-slot seen a k uncached ∙ failed))
        (unchanged-ReadsAlike keys revm types database now)
  backed-ReadsAlike seen now a k alike uncached (ok value) backed =
      elim (Option-cases (slots_of keys revm types (now.storage a) k)) [
        | inr (present, raced) ↦
            settle keys revm types database now now
              (db_storage keys revm types database seen now a k) (ok present)
              (slot keys revm types database seen a k)
              (slot-raced seen now a k value present uncached backed raced)
              (ground (arith, slot-eq keys revm types database now a k, raced, alike.slots a k))
              (unchanged-ReadsAlike keys revm types database now)
        | inl still ↦
            settle keys revm types database now (with_slot now a k value)
              (db_storage keys revm types database seen now a k) (ok value)
              (slot keys revm types database seen a k)
              (slot-inserted seen now a k value uncached backed still)
              (sym (uncached-slot seen a k uncached ∙ backed))
              (with_slot-ReadsAlike now a k value
                (alike.slots a k ∙ uncached-slot seen a k uncached ∙ backed))
      ]

  -- Loading a slot gives what a read gave when the load began, and changes no later read, if other
  -- threads have only loaded in between.
  pub db_storage-ReadsAlike :
      (seen now : Cache keys revm types) (a : Address) (k : ℕ)
      → ReadsAlike keys revm types database seen now
      → ((db_storage keys revm types database seen now a k).1
          ≡ slot keys revm types database seen a k)
        × ReadsAlike keys revm types database now
            (db_storage keys revm types database seen now a k).0
  db_storage-ReadsAlike seen now a k alike =
      elim (Option-cases (slots_of keys revm types (seen.storage a) k)) [
        | inr (value, cached) ↦
            settle keys revm types database now now
              (db_storage keys revm types database seen now a k) (ok value)
              (slot keys revm types database seen a k) (slot-cached seen now a k value cached)
              (ground (arith, slot-eq keys revm types database seen a k, cached))
              (unchanged-ReadsAlike keys revm types database now)
        | inl uncached ↦
            backed-ReadsAlike seen now a k alike uncached
              (uncached_slot keys revm types database seen a k) refl
      ]
