-- ===== src/Memory.antt =====
-- src/model.rs and src/incarnation_db.rs: the multi-version memory. A location's `BTreeMap` is a
-- function from transactions, of which a reader `txid` sees the entries below `txid`.
use grevm.Prelude.{
  ℕ, zero, suc, ◌≡◌, ◌<◌, Bool, true, false, ◌&&◌, Option, none, some, refl, arith, Option-cases,
  ◌==◌, inl, inr, Bool-cases, ◌↔◌,
}

-- `LocationAndType` over the addresses and storage keys of revm.
pub data Location (Address : Type 0) : Type 0 where
  basic : Address → Location Address
  storage : Address → ℕ → Location Address
  storage_reset : Address → Location Address
  code : Address → Location Address

-- `MemoryValue`, with an account value as its `AccountInfo` and code as its `Bytecode`.
pub data MemoryValue (Info Code : Type 0) : Type 0 where
  basic_value : Option Info → MemoryValue Info Code
  code_value : Code → MemoryValue Info Code
  storage_value : ℕ → MemoryValue Info Code
  reset_value : MemoryValue Info Code

pub record MemoryEntry (Info Code : Type 0) : Type 0 where
  pub incarnation : ℕ
  pub value : MemoryValue Info Code
  pub estimate : Bool

-- Addresses are compared by `==`.
pub record Keys : Type 1 where
  pub Address : Type 0
  pub eqb : Address → Address → Bool
  pub eqb_iff : (a b : Address) → (eqb a b ≡ true) ↔ (a ≡ b)

module _ (keys : Keys) where
  open keys use {Address, eqb, eqb_iff}

  abbrev pub location_eq : Location Address → Location Address → Bool
  location_eq (basic a) (basic b) = eqb a b
  location_eq (storage a i) (storage b j) = eqb a b && i == j
  location_eq (storage_reset a) (storage_reset b) = eqb a b
  location_eq (code a) (code b) = eqb a b
  location_eq _ _ = false

  pub location_eq_refl : (l : Location Address) → location_eq l l ≡ true
  location_eq_refl (basic a) = (eqb_iff a a).1 refl
  location_eq_refl (storage a i) = ground (arith, (eqb_iff a a).1 refl)
  location_eq_refl (storage_reset a) = (eqb_iff a a).1 refl
  location_eq_refl (code a) = (eqb_iff a a).1 refl

-- The entries of one location, by transaction.
abbrev pub Versions : Type 0 → Type 0 → Type 0
Versions Info Code = ℕ → Option (MemoryEntry Info Code)

-- `MVMemory`
abbrev pub Memory : Type 0 → Type 0 → Type 0 → Type 0
Memory Address Info Code = Location Address → Versions Info Code

module _ {Info Code : Type 0} where
  -- `range(..txid).next_back()`
  unfoldable pub latest_before : Versions Info Code → ℕ → Option (ℕ × MemoryEntry Info Code)
  latest_before versions zero = none
  latest_before versions (suc n) = elim (versions n) [
    | some entry ↦ some (n, entry)
    | none ↦ latest_before versions n
  ]

  pub record IsLatest (versions : Versions Info Code) (txid writer : ℕ)
      (entry : MemoryEntry Info Code) : Type 0 where
    pub below : writer < txid
    pub found : versions writer ≡ some entry
    pub newest : (w : ℕ) → writer < w → w < txid → versions w ≡ none

  pub latest_before-some :
      (versions : Versions Info Code) (txid writer : ℕ) (entry : MemoryEntry Info Code)
      → latest_before versions txid ≡ some (writer, entry)
      → IsLatest versions txid writer entry
  unfolding latest_before
  latest_before-some versions zero writer entry e = cc
  latest_before-some versions (suc n) writer entry e = elim (Option-cases (versions n)) [
    | inl empty ↦
        let r = latest_before-some versions n writer entry (ground (arith, empty)) in
        record {
          below = omega (arith, r.below);
          found = r.found;
          newest = λ w lo hi. elim (Bool-cases (w == n)) [
            | inl last ↦ ground (arith, empty)
            | inr before ↦ r.newest w lo (ground arith)
          ];
        }
    | inr (x, here) ↦
        let same : n ≡ writer = ground (arith, here) in
        record {
          below = omega arith;
          found = ground (arith, here);
          newest = λ w lo hi. absurd (omega arith);
        }
  ]

  pub latest_before-none :
      (versions : Versions Info Code) (txid : ℕ)
      → latest_before versions txid ≡ none
      → (w : ℕ) → w < txid
      → versions w ≡ none
  unfolding latest_before
  latest_before-none versions zero e w h = absurd (omega arith)
  latest_before-none versions (suc n) e w h = elim (Bool-cases (w == n)) [
    | inl last ↦ ground (arith)
    | inr before ↦ latest_before-none versions n (ground arith) w (ground arith)
  ]

  pub latest_before-lt :
      (versions : Versions Info Code) (txid : ℕ) {writer : ℕ} {entry : MemoryEntry Info Code}
      → latest_before versions txid ≡ some (writer, entry)
      → writer < txid
  latest_before-lt versions txid {writer} {entry} e =
      (latest_before-some versions txid writer entry e).below
