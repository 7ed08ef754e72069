-- ===== src/Beneficiary/Scans.antt =====
-- src/beneficiary/history.rs: how entries change, and what a scan of changed entries gives.
use grevm.Prelude.{
  ℕ, ◌≡◌, ◌<◌, arith, ◌⊎◌, length, get_elem?, length-append, zero, suc, Option, some, List, [], ◌∷◌,
  ◌++◌, refl, ap, ◌∙◌, inl, inr,
}
use grevm.Model.{TxVersion, ok}
use grevm.Beneficiary.{
  unchanged, reward, snapshot, EntryValue, estimate, exact, EntryState, HistoryScan, scan,
  record_entry, invalidate_entry,
}

module _ {Info : Type 0} where
  -- What has become of an entry: a newer incarnation, the same value, or an estimate in its place.
  abbrev pub Later : EntryState Info → EntryState Info → Type 0
  Later s t =
      (s.incarnation < t.incarnation)
      ⊎ ((s.incarnation ≡ t.incarnation) × ((t.value ≡ s.value) ⊎ (t.value ≡ estimate)))

  pub Later-trans : (s t u : EntryState Info) → Later s t → Later t u → Later s u
  Later-trans s t u p q = ground arith

  pub record_entry-Later :
      (s : EntryState Info) (i : ℕ) (v : EntryValue Info) → Later s (record_entry s i v).0
  unfolding record_entry
  record_entry-Later s i v = ground arith

  pub invalidate_entry-Later : (s : EntryState Info) (i : ℕ) → Later s (invalidate_entry s i).0
  unfolding invalidate_entry
  invalidate_entry-Later s i = ground arith

get_elem?-append :
    {A : Type 0} (xs ys : List A) (i : ℕ) → i < length xs → get_elem? (xs ++ ys) i ≡ get_elem? xs i
get_elem?-append [] ys i h = absurd (omega arith)
get_elem?-append (x ∷ xs) ys zero h = refl
get_elem?-append (x ∷ xs) ys (suc i) h = get_elem?-append xs ys i (omega arith)

get_elem?-snoc : {A : Type 0} (xs : List A) (x : A) → get_elem? (xs ++ x ∷ []) (length xs) ≡ some x
get_elem?-snoc [] x = refl
get_elem?-snoc (y ∷ xs) x = get_elem?-snoc xs x

module _ {Info : Type 0} (entry : ℕ → EntryState Info) (anchor : Option Info) where
  abbrev pub seen : ℕ → List TxVersion → List TxVersion
  seen n os = os ++ record { txid = n; incarnation = (entry n).incarnation } ∷ []

  -- How a scan that succeeds has gone on from the writer `n`, by its entry's value.
  abbrev pub Stepped : ℕ → List TxVersion → List ℕ → HistoryScan Info → EntryValue Info → Type 0
  Stepped n os rs s estimate = ⊥
  Stepped n os rs s (exact unchanged) = scan entry anchor n (seen n os) rs ≡ ok s
  Stepped n os rs s (exact (reward r)) = scan entry anchor n (seen n os) (rs ++ r ∷ []) ≡ ok s
  Stepped n os rs s (exact (snapshot account)) =
      s ≡ record { base = account; rewards_newest_first = rs; version = seen n os }

  pub scan-Stepped :
      (n : ℕ) (os : List TxVersion) (rs : List ℕ) (s : HistoryScan Info) (x : EntryValue Info)
      → (entry n).value ≡ x
      → scan entry anchor (suc n) os rs ≡ ok s
      → Stepped n os rs s x
  unfolding scan
  scan-Stepped n os rs s estimate p e = ground arith
  scan-Stepped n os rs s (exact unchanged) p e = ground arith
  scan-Stepped n os rs s (exact (reward r)) p e = ground arith
  scan-Stepped n os rs s (exact (snapshot account)) p e = ground arith

  abbrev pub Prefixed : List TxVersion → HistoryScan Info → Type 0
  Prefixed os s = (i : ℕ) → i < length os → get_elem? s.version i ≡ get_elem? os i

  pub Prefixed-seen :
      (n : ℕ) (os : List TxVersion) (s : HistoryScan Info) → Prefixed (seen n os) s → Prefixed os s
  Prefixed-seen n os s h i lt =
      h i (
        omega
          (arith, length-append os (record { txid = n; incarnation = (entry n).incarnation } ∷ [])))
      ∙ get_elem?-append os _ i lt

  pub Stepped-Prefixed :
      (n : ℕ) (os : List TxVersion) (rs : List ℕ) (s : HistoryScan Info) (x : EntryValue Info)
      → ((rs' : List ℕ) → scan entry anchor n (seen n os) rs' ≡ ok s → Prefixed (seen n os) s)
      → Stepped n os rs s x
      → Prefixed (seen n os) s
  Stepped-Prefixed n os rs s estimate ih e = absurd e
  Stepped-Prefixed n os rs s (exact unchanged) ih e = ih rs e
  Stepped-Prefixed n os rs s (exact (reward r)) ih e = ih (rs ++ r ∷ []) e
  Stepped-Prefixed n os rs s (exact (snapshot account)) ih e = λ i lt. rw e

  pub scan-Prefixed :
      (n : ℕ) (os : List TxVersion) (rs : List ℕ) (s : HistoryScan Info)
      → scan entry anchor n os rs ≡ ok s
      → Prefixed os s
  unfolding scan
  scan-Prefixed zero os rs s e = λ i lt. ground arith
  scan-Prefixed (suc n) os rs s e = Prefixed-seen n os s (
      Stepped-Prefixed n os rs s (entry n).value (λ rs'. scan-Prefixed n (seen n os) rs' s)
        (scan-Stepped n os rs s (entry n).value refl e))

  -- The version that a scan notes for its newest writer.
  pub scan-newest :
      (n : ℕ) (os : List TxVersion) (rs : List ℕ) (s : HistoryScan Info)
      → scan entry anchor (suc n) os rs ≡ ok s
      → get_elem? s.version (length os)
        ≡ some (record { txid = n; incarnation = (entry n).incarnation })
  scan-newest n os rs s e =
      Stepped-Prefixed n os rs s (entry n).value (λ rs'. scan-Prefixed n (seen n os) rs' s)
        (scan-Stepped n os rs s (entry n).value refl e) (length os)
        (omega
          (arith, length-append os (record { txid = n; incarnation = (entry n).incarnation } ∷ [])))
      ∙ get_elem?-snoc os _

module _ {Info : Type 0} (f g : ℕ → EntryState Info) (anchor : Option Info)
    (later : (w : ℕ) → Later (f w) (g w)) where
  pub scan-same_step :
      (n : ℕ) (os : List TxVersion) (rs : List ℕ) (s t : HistoryScan Info) (x : EntryValue Info)
      → ((os' : List TxVersion) (rs' : List ℕ)
          → scan f anchor n os' rs' ≡ ok s
          → scan g anchor n os' rs' ≡ ok t
          → s ≡ t)
      → (f n).incarnation ≡ (g n).incarnation
      → Stepped f anchor n os rs s x
      → Stepped g anchor n os rs t x
      → s ≡ t
  scan-same_step n os rs s t estimate ih same p q = absurd p
  scan-same_step n os rs s t (exact unchanged) ih same p q =
      ih (seen f anchor n os) rs p (rw same q)
  scan-same_step n os rs s t (exact (reward r)) ih same p q =
      ih (seen f anchor n os) (rs ++ r ∷ []) p (rw same q)
  scan-same_step n os rs s t (exact (snapshot account)) ih same p q = rw (p, q, same)

  -- Two scans that note the same versions have met the same effects.
  pub scan-same :
      (n : ℕ) (os : List TxVersion) (rs : List ℕ) (s t : HistoryScan Info)
      → scan f anchor n os rs ≡ ok s
      → scan g anchor n os rs ≡ ok t
      → s.version ≡ t.version
      → s ≡ t
  unfolding scan
  scan-same zero os rs s t p q e = ground arith
  scan-same (suc n) os rs s t p q e =
      let newest = scan-newest f anchor n os rs s p in
      let newest' = scan-newest g anchor n os rs t q in
      let same : (f n).incarnation ≡ (g n).incarnation =
        ground (arith, ap (λ v. get_elem? v (length os)) e) in
      let value : (g n).value ≡ (f n).value = elim (later n) [
        | inl older ↦ absurd (omega (arith, same))
        | inr (_, inl kept) ↦ kept
        | inr (_, inr gone) ↦ absurd (scan-Stepped g anchor n os rs t estimate gone q)
      ] in
      scan-same_step n os rs s t (f n).value (λ os' rs' a b. scan-same n os' rs' s t a b e) same
        (scan-Stepped f anchor n os rs s (f n).value refl p)
        (scan-Stepped g anchor n os rs t (f n).value value q)
