-- ===== src/Reserve/Journal/Undo.antt =====
-- src/delegated_safety/reserve.rs: what undoing the journal reconstructs.
use grevm.Prelude.{
  ℕ, ◌+◌, ◌-◌, ◌≡◌, ◌≤◌, true, false, some, List, [], ◌∷◌, if◌then◌else◌, arith, ap, ◌∙◌,
}
use grevm.Memory.{Keys}
use grevm.Reserve.{u256_max}
use grevm.Reserve.Journal.{
  JournalEntry, balance_transfer, account_destroyed, balance_change, other, suffix, undo, undo_all,
  balance_before_entry,
}

module _ (keys : Keys) where
  open keys use {Address, eqb, eqb_iff}

  -- What making an entry does to the balances of all accounts.
  abbrev pub Made : (Address → ℕ) → JournalEntry Address → (Address → ℕ) → Type 0
  Made before (balance_transfer source target value) after =
      (value ≤ before source)
      × ((a : Address)
          → after a
            ≡ (if eqb source a then before a - value else before a)
              + (if eqb target a then value else 0))
  Made before (account_destroyed destroyed target had_balance) after =
      (had_balance ≤ before destroyed)
      × ((a : Address)
          → after a ≡ (
              if eqb destroyed a
              then before a - had_balance
              else before a + (if eqb target a then had_balance else 0)))
  Made before (balance_change changed old_balance) after =
      (before changed ≡ old_balance) × ((a : Address) → eqb changed a ≡ false → after a ≡ before a)
  Made before other after = (a : Address) → after a ≡ before a

  -- The entries take the balances from one state to another, and no balance overflows on the way.
  abbrev pub Ran : (Address → ℕ) → List (JournalEntry Address) → (Address → ℕ) → Type 0
  Ran before [] after = (a : Address) → after a ≡ before a
  Ran before (entry ∷ entries) after =
      (between : Address → ℕ) × ((a : Address) → before a ≤ u256_max)
      × Made before entry between
      × Ran between entries after

  at_self : (f : Address → ℕ) (a b : Address) → eqb a b ≡ true → f a ≡ f b
  at_self f a b e = ap f ((eqb_iff a b).0 e)

  undo-Made :
      (before between : Address → ℕ) (entry : JournalEntry Address) (a : Address)
      → before a ≤ u256_max
      → Made before entry between
      → undo keys a entry (between a) ≡ before a
  unfolding undo
  undo-Made before between (balance_transfer source target value) a le (funded, moved) =
      ground (arith, moved a, at_self before source a)
  undo-Made before between (account_destroyed destroyed target had_balance) a le (funded, moved) =
      ground (arith, moved a, at_self before destroyed a)
  undo-Made before between (balance_change changed old_balance) a le (old, kept) =
      ground (arith, kept a, at_self before changed a)
  undo-Made before between other a le kept = kept a

  pub undo_all-Ran :
      (before after : Address → ℕ) (entries : List (JournalEntry Address)) (a : Address)
      → Ran before entries after
      → undo_all keys a entries (after a) ≡ before a
  unfolding undo_all
  undo_all-Ran before after [] a ran = ran a
  undo_all-Ran before after (entry ∷ entries) a (between, bounded, made, ran) =
      ap (undo keys a entry) (undo_all-Ran between after entries a ran)
      ∙ undo-Made before between entry a (bounded a) made

  -- Undoing the journal from its end to an entry gives each account's balance before that entry, if
  -- the entries from there on led from those balances to the final ones without overflow.
  pub balance_before_entry-Ran :
      (entries made : List (JournalEntry Address)) (index : ℕ) (before after : Address → ℕ)
      (a : Address)
      → suffix entries index ≡ some made
      → Ran before made after
      → balance_before_entry keys entries index a (after a) ≡ some (before a)
  unfolding balance_before_entry
  balance_before_entry-Ran entries made index before after a from ran =
      ground (arith, from, undo_all-Ran before after made a ran)
