-- ===== src/Reserve/Journal/Debits.antt =====
-- src/delegated_safety/reserve.rs: which debits the scan reports.
use grevm.Prelude.{
  All, >>=-eq-some, ℕ, suc, ◌≡◌, Bool, true, false, not, ◌&&◌, Option, none, some, List, [], ◌∷◌,
  ◌==◌, if◌then◌else◌, arith, refl, ap, ◌∙◌, sym, Bool-cases, inl, inr, subst, some-injective,
}
use grevm.Memory.{Keys}
use grevm.Reserve.Journal.{
  JournalEntry, RootTx, JournalAccount, DelegatedDebit, suffix, balance_before_entry,
  is_root_value_transfer, debited, has, or_insert, first_debits, report, debits_of,
  delegated_debits_since,
}

module _ (keys : Keys) (state : keys.Address → Option JournalAccount)
    (tx : RootTx keys.Address) where
  open keys use {Address, eqb, eqb_iff}

  abbrev pub is_address : Address → Option Address → Bool
  is_address a none = false
  is_address a (some source) = eqb source a

  -- The position of an account's first debit from `index` on, the root transfer left out.
  unfoldable pub first_debit : Address → List (JournalEntry Address) → ℕ → Bool → Option ℕ
  unfolding is_root_value_transfer
  first_debit a [] index pending = none
  first_debit a (entry ∷ entries) index pending =
      let root = pending && is_root_value_transfer keys entry tx in
      let rest = first_debit a entries (suc index) (if root then false else pending) in
      if not root && is_address a (debited keys state tx entry) then some index else rest

  abbrev pub found : List (Address × ℕ) → Address → Option ℕ
  found [] a = none
  found ((b, i) ∷ rest) a = if eqb b a then some i else found rest a

  abbrev pub or_else : Option ℕ → Option ℕ → Option ℕ
  or_else none o = o
  or_else (some i) o = some i

  has-found :
      (first : List (Address × ℕ)) (a : Address)
      → has keys state tx first a ≡ true
      → (i : ℕ) × (found first a ≡ some i)
  has-found [] a h = cc
  has-found ((b, i) ∷ rest) a h = elim (Bool-cases (eqb b a)) [
    | inl here ↦ (i, ground (arith, here))
    | inr other ↦
        let (j, e) = has-found rest a (ground (arith, other, h)) in (j, ground (arith, other, e))
  ]

  not-has-found :
      (first : List (Address × ℕ)) (a : Address)
      → has keys state tx first a ≡ false
      → found first a ≡ none
  not-has-found [] a h = refl
  not-has-found ((b, i) ∷ rest) a h = elim (Bool-cases (eqb b a)) [
    | inl here ↦ cc
    | inr other ↦ ground (arith, other, not-has-found rest a (ground (arith, other, h)))
  ]

  found-or_insert :
      (first : List (Address × ℕ)) (o : Option Address) (index : ℕ) (a : Address)
      → found (or_insert keys state tx first o index) a
        ≡ or_else (found first a) (if is_address a o then some index else none)
  found-or_insert first none index a = ground arith
  found-or_insert first (some source) index a = elim (Bool-cases (has keys state tx first source)) [
    | inl old ↦
        let (i, e) = has-found first source old in
        elim (Bool-cases (eqb source a)) [
          | inl same ↦ ground (arith, old, same, e, ap (found first) ((eqb_iff source a).0 same))
          | inr other ↦ ground (arith, old, other)
        ]
    | inr new ↦ elim (Bool-cases (eqb source a)) [
      | inl same ↦ ground (
        arith,
        new,
        same,
        not-has-found first source new,
        ap (found first) ((eqb_iff source a).0 same),
      )
      | inr other ↦ ground (arith, new, other)
    ]
  ]

  first_debits-found :
      (made : List (JournalEntry Address)) (index : ℕ) (pending : Bool) (first : List (Address × ℕ))
      (a : Address)
      → found (first_debits keys state tx made index pending first) a
        ≡ or_else (found first a) (first_debit a made index pending)
  unfolding first_debits first_debit is_root_value_transfer
  first_debits-found [] index pending first a = ground arith
  first_debits-found (entry ∷ entries) index pending first a =
      let root = pending && is_root_value_transfer keys entry tx in
      let next =
        if root then first else or_insert keys state tx first (debited keys state tx entry) index in
      first_debits-found entries (suc index) (if root then false else pending) next a
      ∙ elim (Bool-cases root) [
        | inl here ↦ ground (arith, here)
        | inr other ↦
            ground (arith, other, found-or_insert first (debited keys state tx entry) index a)
      ]

  report-All :
      (P : DelegatedDebit Address → Type 0) (entries : List (JournalEntry Address))
      (ds debits : List (DelegatedDebit Address)) (b : Address) (j : ℕ) (account : JournalAccount)
      → report keys state tx entries ds b j (some account) ≡ some debits
      → All P debits
      → (before : ℕ) × (balance_before_entry keys entries j b account.balance ≡ some before)
        × P (record { address = b; balance_before = before; final_balance = account.balance })
  report-All P entries ds debits b j account e all =
      let (before, u, v) =
        >>=-eq-some (balance_before_entry keys entries j b account.balance) _ e in
      let both = subst (All P) (sym (some-injective v)) all in (before, u, both.0)

  report-rest :
      (P : DelegatedDebit Address → Type 0) (entries : List (JournalEntry Address))
      (ds debits : List (DelegatedDebit Address)) (b : Address) (j : ℕ) (o : Option JournalAccount)
      → report keys state tx entries ds b j o ≡ some debits
      → All P debits
      → All P ds
  report-rest P entries ds debits b j none e all = subst (All P) (sym (some-injective e)) all
  report-rest P entries ds debits b j (some account) e all =
      let (before, u, v) =
        >>=-eq-some (balance_before_entry keys entries j b account.balance) _ e in
      (subst (All P) (sym (some-injective v)) all).1

  -- Every reported debit has a property: then the debit of an account in the map is reported with it.
  pub debits_of-All :
      (P : DelegatedDebit Address → Type 0) (entries : List (JournalEntry Address))
      (first : List (Address × ℕ)) (debits : List (DelegatedDebit Address)) (a : Address) (i : ℕ)
      (account : JournalAccount)
      → debits_of keys state tx entries first ≡ some debits
      → found first a ≡ some i
      → state a ≡ some account
      → All P debits
      → (before : ℕ) × (balance_before_entry keys entries i a account.balance ≡ some before)
        × P (record { address = a; balance_before = before; final_balance = account.balance })
  unfolding debits_of
  debits_of-All P entries [] debits a i account e f s all = cc
  debits_of-All P entries ((b, j) ∷ rest) debits a i account e f s all =
      let (ds, p, q) = >>=-eq-some (debits_of keys state tx entries rest) _ e in
      elim (Bool-cases (eqb b a)) [
        | inl same ↦
            let b≡a : b ≡ a = (eqb_iff b a).0 same in
            let j≡i : j ≡ i = ground (arith, same, f) in
            let q' : report keys state tx entries ds b j (some account) ≡ some debits =
              ground (arith, ap state b≡a, s, q) in
            subst
              (λ (k : ℕ).
                (before : ℕ) × (balance_before_entry keys entries k a account.balance ≡ some before)
                × P (record {
                  address = a;
                  balance_before = before;
                  final_balance = account.balance;
                }))
              j≡i
              (subst
                (λ (x : Address).
                  (before : ℕ) × (balance_before_entry keys entries j x account.balance
                    ≡ some before)
                  × P (record {
                    address = x;
                    balance_before = before;
                    final_balance = account.balance;
                  }))
                b≡a (report-All P entries ds debits b j account q' all))
        | inr other ↦
            debits_of-All P entries rest ds a i account p (ground (arith, other, f)) s
              (report-rest P entries ds debits b j (state b) q all)
      ]

  -- The scan reports the first delegated debit of each account, with the balance that undoing the
  -- journal to it gives.
  pub delegated_debits_since-first_debit :
      (P : DelegatedDebit Address → Type 0) (entries made : List (JournalEntry Address))
      (checkpoint i : ℕ) (debits : List (DelegatedDebit Address)) (a : Address)
      (account : JournalAccount)
      → delegated_debits_since keys state tx entries checkpoint ≡ some debits
      → suffix entries checkpoint ≡ some made
      → first_debit a made checkpoint (not (tx.value == 0)) ≡ some i
      → state a ≡ some account
      → All P debits
      → (before : ℕ) × (balance_before_entry keys entries i a account.balance ≡ some before)
        × P (record { address = a; balance_before = before; final_balance = account.balance })
  unfolding delegated_debits_since
  delegated_debits_since-first_debit P entries made checkpoint i debits a account e from f s all =
      debits_of-All P entries (first_debits keys state tx made checkpoint (not (tx.value == 0)) [])
        debits a i account (ground (arith, from, e))
        (first_debits-found made checkpoint (not (tx.value == 0)) [] a ∙ f) s all
