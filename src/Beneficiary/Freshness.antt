-- ===== src/Beneficiary/Freshness.antt =====
-- src/beneficiary/history.rs: what the validation of an earlier read means.
use grevm.Prelude.{
  ℕ, ◌≡◌, arith, ◌≤◌, Bool, true, Option, none, some, List, [], ◌∷◌, refl, ap, ◌∙◌, sym, inl, inr,
  ◌>>=◌,
}
use grevm.Model.{TxVersion, Result, ok, err, map_ok}
use grevm.Revm.{Accounts}
use grevm.Beneficiary.{
  EntryValue, HistoryScan, History, Read, ReadVersion, scan, scan_before, resolve, resolve_before,
  validate, Validation, validate_scan, latest_dependency, origins_eq, record_effect, invalidate,
}
use grevm.Beneficiary.Scans.{Later, Later-trans, scan-same}

-- One call that a worker makes on the shared history.
pub data Publish {Info : Type 0} (h : History Info) : History Info → Type 0 where
  records :
      {h' : History Info} (v : TxVersion) (value : EntryValue Info) (done : Bool)
      → record_effect h v value ≡ some (h', done)
      → Publish h h'
  invalidates :
      {h' : History Info} (v : TxVersion) (done : Bool)
      → invalidate h v ≡ some (h', done)
      → Publish h h'

-- What any number of calls does to the history.
pub data Grows {Info : Type 0} (h : History Info) : History Info → Type 0 where
  same : Grows h h
  more : {h₁ h₂ : History Info} → Grows h h₁ → Publish h₁ h₂ → Grows h h₂

pub record Extends {Info : Type 0} (h h' : History Info) : Type 0 where
  pub anchor : h'.block_anchor ≡ h.block_anchor
  pub size : h'.entries.len ≡ h.entries.len
  pub later : (w : ℕ) → Later (h.entries.at w) (h'.entries.at w)

module _ {Info : Type 0} where
  record_effect-Extends :
      (h h' : History Info) (v : TxVersion) (value : EntryValue Info) (done : Bool)
      → record_effect h v value ≡ some (h', done)
      → Extends h h'
  unfolding record_effect
  record_effect-Extends h h' v value done e = record {
    anchor = ground arith;
    size = ground arith;
    later = λ w. ground arith;
  }

  invalidate-Extends :
      (h h' : History Info) (v : TxVersion) (done : Bool)
      → invalidate h v ≡ some (h', done)
      → Extends h h'
  unfolding invalidate
  invalidate-Extends h h' v done e = record {
    anchor = ground arith;
    size = ground arith;
    later = λ w. ground arith;
  }

  Extends-trans : (h₁ h₂ h₃ : History Info) → Extends h₁ h₂ → Extends h₂ h₃ → Extends h₁ h₃
  Extends-trans h₁ h₂ h₃ p q = record {
    anchor = q.anchor ∙ p.anchor;
    size = q.size ∙ p.size;
    later = λ w.
        Later-trans (h₁.entries.at w) (h₂.entries.at w) (h₃.entries.at w) (p.later w) (q.later w);
  }

  Publish-Extends : {h h' : History Info} → Publish h h' → Extends h h'
  Publish-Extends {h} {h'} (records v value done e) = record_effect-Extends h h' v value done e
  Publish-Extends {h} {h'} (invalidates v done e) = invalidate-Extends h h' v done e

  pub Grows-Extends : {h h' : History Info} → Grows h h' → Extends h h'
  Grows-Extends same = record { anchor = refl; size = refl; later = λ w. inr (refl, inl refl) }
  Grows-Extends {h} {h'} (more {h₁} g p) =
      Extends-trans h h₁ h' (Grows-Extends g) (Publish-Extends p)

origins_eq_sound : (vs ws : List TxVersion) → origins_eq vs ws ≡ true → vs ≡ ws
origins_eq_sound [] [] e = refl
origins_eq_sound [] (w ∷ ws) e = cc
origins_eq_sound (v ∷ vs) [] e = cc
origins_eq_sound (v ∷ vs) (w ∷ ws) e = ground (arith, origins_eq_sound vs ws)

scan_before-ok :
    {Info : Type 0} (h : History Info) (txid : ℕ) (s : HistoryScan Info)
    → scan_before h txid ≡ some (ok s)
    → (scan h.entries.at h.block_anchor txid [] [] ≡ ok s) × (txid ≤ h.entries.len)
unfolding scan_before
scan_before-ok h txid s e = ground arith

validated :
    {Info : Type 0} (o : Option (Result ℕ (HistoryScan Info))) (expected : ReadVersion)
    (v : Validation)
    → (o >>= λ r. some (validate_scan r expected)) ≡ some v
    → v.valid ≡ true
    → (t : HistoryScan Info) × (o ≡ some (ok t)) × (t.version ≡ expected)
validated none expected v e valid = cc
validated (some (err w)) expected v e valid = absurd (ground arith)
validated (some (ok t)) expected v e valid =
    (t, refl, origins_eq_sound t.version expected (ground arith))

resolved :
    {A B : Type 0} (f : A → B) (o : Option (Result ℕ A)) {b : B}
    → (o >>= λ r. some (map_ok f r)) ≡ some (ok b)
    → (a : A) × (o ≡ some (ok a)) × (f a ≡ b)
resolved f none e = cc
resolved f (some (err w)) e = absurd (ground arith)
resolved f (some (ok a)) e = (a, refl, ground arith)

-- If a read validates after any further calls by other workers, then reading again at that point
-- gives the same account: a version in the history names one value only.
pub validate-resolve_before :
    (revm : Accounts) (h h' : History revm.AccountInfo) (txid : ℕ) (read : Read revm.AccountInfo)
    (v : Validation)
    → Grows h h'
    → resolve_before revm h txid ≡ some (ok read)
    → validate h' txid read.version ≡ some v
    → v.valid ≡ true
    → resolve_before revm h' txid ≡ some (ok read)
unfolding resolve_before validate resolve
validate-resolve_before revm h h' txid read v grows e k valid =
    let (s, p, done) = resolved (resolve revm) (scan_before h txid) e in
    let (t, q, agree) = validated (scan_before h' txid) read.version v k valid in
    let ext = Grows-Extends grows in
    let (found, bound) = scan_before-ok h txid s p in
    let (found', _) = scan_before-ok h' txid t q in
    let one : s ≡ t =
      scan-same h.entries.at h'.entries.at h.block_anchor ext.later txid [] [] s t found
        (rw (← ext.anchor) found')
        (ap (λ (r : Read revm.AccountInfo). r.version) done ∙ sym agree) in
    rw q (ap (λ r. some (ok r)) (ap (resolve revm) (sym one) ∙ done))

origins_eq_refl : (vs : List TxVersion) → origins_eq vs vs ≡ true
origins_eq_refl [] = refl
origins_eq_refl (v ∷ vs) = ground (arith, origins_eq_refl vs)

-- A read that nothing has overtaken validates, and names its newest writer as the dependency.
pub resolve_before-validate :
    (revm : Accounts) (h : History revm.AccountInfo) (txid : ℕ) (read : Read revm.AccountInfo)
    → resolve_before revm h txid ≡ some (ok read)
    → validate h txid read.version
      ≡ some (record { valid = true; dependency = latest_dependency read.version })
unfolding resolve_before validate resolve
resolve_before-validate revm h txid read e =
    let (s, p, done) = resolved (resolve revm) (scan_before h txid) e in
    let same : read.version ≡ s.version =
      sym (ap (λ (r : Read revm.AccountInfo). r.version) done) in
    rw (p, same, origins_eq_refl s.version)
