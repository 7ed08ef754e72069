-- ===== src/Reserve/Journal.antt =====
-- src/delegated_safety/reserve.rs: the scan of revm's surviving journal for delegated debits.
pub mod Undo
pub mod Debits
use grevm.Prelude.{
  ℕ, zero, suc, ◌+◌, ◌-◌, Bool, true, false, not, ◌&&◌, Option, none, some, List, [], ◌∷◌, ◌==◌,
  if◌then◌else◌, ◌>>=◌,
}
use grevm.Memory.{Keys}
use grevm.Reserve.{saturating_add}

-- What the scan uses of revm's `JournalEntry`.
pub data JournalEntry (Address : Type 0) : Type 0 where
  balance_transfer : (source target : Address) (balance : ℕ) → JournalEntry Address
  account_destroyed : (address target : Address) (had_balance : ℕ) → JournalEntry Address
  balance_change : (address : Address) (old_balance : ℕ) → JournalEntry Address
  other : JournalEntry Address

pub data TxKind (Address : Type 0) : Type 0 where
  call : Address → TxKind Address
  create : TxKind Address

-- What the scan uses of `TxEnv`.
pub record RootTx (Address : Type 0) : Type 0 where
  pub caller : Address
  pub value : ℕ
  pub kind : TxKind Address

-- What the scan uses of an account of the journal's state.
pub record JournalAccount : Type 0 where
  pub balance : ℕ
  pub is_eip7702 : Bool

pub record DelegatedDebit (Address : Type 0) : Type 0 where
  pub address : Address
  pub balance_before : ℕ
  pub final_balance : ℕ

-- `entries[index..]`, which panics out of range.
abbrev pub suffix {ℓ} : {A : Type ℓ} → List A → ℕ → Option (List A)
suffix entries zero = some entries
suffix [] (suc index) = none
suffix (entry ∷ entries) (suc index) = suffix entries index

module _ (keys : Keys) where
  open keys use {Address, eqb}

  pub is_root_value_transfer : JournalEntry Address → RootTx Address → Bool
  is_root_value_transfer (balance_transfer source target balance) tx =
      eqb source tx.caller
      && balance == tx.value
      && elim tx.kind [ call to ↦ eqb target to | create ↦ true ]
  is_root_value_transfer _ tx = false

  -- One round of the loop of `balance_before_entry`.
  pub undo : Address → JournalEntry Address → ℕ → ℕ
  undo address (balance_transfer source target value) balance =
      if eqb source address && not (eqb target address)
      then saturating_add balance value
      else (if eqb target address && not (eqb source address) then balance - value else balance)
  undo address (account_destroyed destroyed target had_balance) balance =
      if eqb destroyed address
      then saturating_add balance had_balance
      else (if eqb target address then balance - had_balance else balance)
  undo address (balance_change changed old_balance) balance =
      if eqb changed address then old_balance else balance
  undo address other balance = balance

  -- The loop, from the last entry to the first.
  pub undo_all : Address → List (JournalEntry Address) → ℕ → ℕ
  unfolding undo
  undo_all address [] balance = balance
  undo_all address (entry ∷ entries) balance = undo address entry (undo_all address entries balance)

  unfoldable pub balance_before_entry : List (JournalEntry Address) → ℕ → Address → ℕ → Option ℕ
  unfolding undo_all
  balance_before_entry entries entry_index address final_balance = do
    made ← suffix entries entry_index
    some (undo_all address made final_balance)

  -- The account that an entry takes a balance from.
  abbrev pub source_of : JournalEntry Address → Option Address
  source_of (balance_transfer source target balance) =
      if not (eqb source target) && not (balance == 0) then some source else none
  source_of (account_destroyed address target had_balance) =
      if not (had_balance == 0) then some address else none
  source_of _ = none

  module _ (state : Address → Option JournalAccount) (tx : RootTx Address) where
    abbrev pub is_delegated : Address → Bool
    is_delegated address = elim (state address) [ none ↦ false | some a ↦ a.is_eip7702 ]

    -- The delegated account that an entry debits.
    abbrev pub debited : JournalEntry Address → Option Address
    debited entry = elim (source_of entry) [
      | none ↦ none
      | some source ↦ if is_delegated source then some source else none
    ]

    abbrev pub has : List (Address × ℕ) → Address → Bool
    has [] address = false
    has ((a, i) ∷ rest) address = if eqb a address then true else has rest address

    -- `entry(source).or_insert(entry_index)`; the order of the map is left open.
    abbrev pub or_insert : List (Address × ℕ) → Option Address → ℕ → List (Address × ℕ)
    or_insert first none index = first
    or_insert first (some source) index =
        if has first source then first else (source, index) ∷ first

    -- The loop over the entries from `index` on.
    pub first_debits :
        List (JournalEntry Address) → ℕ → Bool → List (Address × ℕ) → List (Address × ℕ)
    unfolding is_root_value_transfer
    first_debits [] index pending first = first
    first_debits (entry ∷ entries) index pending first =
        let root = pending && is_root_value_transfer entry tx in
        first_debits entries (suc index) (if root then false else pending)
          (if root then first else or_insert first (debited entry) index)

    abbrev pub report :
        List (JournalEntry Address)
        → List (DelegatedDebit Address)
        → Address
        → ℕ
        → Option JournalAccount
        → Option (List (DelegatedDebit Address))
    report entries debits address index none = some debits
    report entries debits address index (some account) = do
      before ← balance_before_entry entries index address account.balance
      some (
          record { address = address; balance_before = before; final_balance = account.balance }
          ∷ debits)

    -- The debits of the map, of which those of unknown accounts are left out.
    pub debits_of :
        List (JournalEntry Address) → List (Address × ℕ) → Option (List (DelegatedDebit Address))
    debits_of entries [] = some []
    debits_of entries ((address, index) ∷ rest) = do
      debits ← debits_of entries rest
      report entries debits address index (state address)

    -- `delegated_debits_since`, from the journal's position `checkpoint`.
    unfoldable pub delegated_debits_since :
        List (JournalEntry Address) → ℕ → Option (List (DelegatedDebit Address))
    unfolding first_debits debits_of
    delegated_debits_since entries checkpoint = do
      made ← suffix entries checkpoint
      debits_of entries (first_debits made checkpoint (not (tx.value == 0)) [])
