-- ===== src/Beneficiary/Origins.antt =====
-- src/beneficiary/history.rs: the versions that a read of the beneficiary notes, and their comparison
-- in a validation.
use grevm.Prelude.{
  ℕ, zero, suc, ◌≡◌, ◌↔◌, true, Option, some, List, [], ◌∷◌, ◌++◌, refl, arith, sym, ◌∙◌, subst,
}
use mathlib.Core.List.{append_assoc, append-nil}
use grevm.Model.{TxVersion, Result, ok, err}
use grevm.Beneficiary.Scans.{seen, Stepped, scan-Stepped}
use grevm.Beneficiary.{
  EntryState, EntryValue, unchanged, reward, snapshot, estimate, exact, HistoryScan, History,
  ReadVersion, Validation, scan, scan_before, validate, validate_scan, origins_eq,
}

module _ {Info : Type 0} (entry : ℕ → EntryState Info) where
  abbrev pub version_of : ℕ → TxVersion
  version_of n = record { txid = n; incarnation = (entry n).incarnation }

  -- `vs` are the versions, newest first, of every writer below `n` down to the newest snapshot, or of
  -- all of them if there is none; no estimate is among them.
  abbrev pub Follows : EntryValue Info → Type 0 → List TxVersion → Type 0
  Follows estimate rest vs = ⊥
  Follows (exact unchanged) rest vs = rest
  Follows (exact (reward r)) rest vs = rest
  Follows (exact (snapshot account)) rest vs = vs ≡ []

  pub Origins : ℕ → List TxVersion → Type 0
  Origins zero [] = Unit
  Origins zero (v ∷ vs) = ⊥
  Origins (suc n) [] = ⊥
  Origins (suc n) (v ∷ vs) = (v ≡ version_of n) × Follows (entry n).value (Origins n vs) vs

  Origins-step :
      (anchor : Option Info) (n : ℕ) (os : List TxVersion) (rs : List ℕ) (s : HistoryScan Info)
      (x : EntryValue Info)
      → (entry n).value ≡ x
      → ((rs' : List ℕ)
          → scan entry anchor n (seen entry anchor n os) rs' ≡ ok s
          → (vs : List TxVersion) × (s.version ≡ seen entry anchor n os ++ vs) × Origins n vs)
      → Stepped entry anchor n os rs s x
      → (vs : List TxVersion) × (s.version ≡ seen entry anchor n os ++ vs)
        × Follows x (Origins n vs) vs
  Origins-step anchor n os rs s estimate p ih e = absurd e
  Origins-step anchor n os rs s (exact unchanged) p ih e = ih rs e
  Origins-step anchor n os rs s (exact (reward r)) p ih e = ih (rs ++ r ∷ []) e
  Origins-step anchor n os rs s (exact (snapshot account)) p ih e =
      ([], rw (e, append-nil (seen entry anchor n os)), refl)

  -- What a scan that succeeds notes.
  scan-Origins :
      (anchor : Option Info) (n : ℕ) (os : List TxVersion) (rs : List ℕ) (s : HistoryScan Info)
      → scan entry anchor n os rs ≡ ok s
      → (vs : List TxVersion) × (s.version ≡ os ++ vs) × Origins n vs
  unfolding scan Origins
  scan-Origins anchor zero os rs s e = ([], ground (arith, e, append-nil os), tt)
  scan-Origins anchor (suc n) os rs s e =
      let (vs, same, o) =
        Origins-step anchor n os rs s (entry n).value refl
          (λ rs'. scan-Origins anchor n (seen entry anchor n os) rs' s)
          (scan-Stepped entry anchor n os rs s (entry n).value refl e) in
      (version_of n ∷ vs, same ∙ append_assoc os (version_of n ∷ []) vs, (refl, o))

  Follows-unique :
      (n : ℕ) (x : EntryValue Info) (vs ws : List TxVersion)
      → (Origins n vs → Origins n ws → vs ≡ ws)
      → Follows x (Origins n vs) vs
      → Follows x (Origins n ws) ws
      → vs ≡ ws
  Follows-unique n estimate vs ws ih p q = absurd p
  Follows-unique n (exact unchanged) vs ws ih p q = ih p q
  Follows-unique n (exact (reward r)) vs ws ih p q = ih p q
  Follows-unique n (exact (snapshot account)) vs ws ih p q = p ∙ sym q

  Origins-unique : (n : ℕ) (vs ws : List TxVersion) → Origins n vs → Origins n ws → vs ≡ ws
  unfolding Origins
  Origins-unique zero [] [] p q = refl
  Origins-unique zero [] (w ∷ ws) p q = absurd q
  Origins-unique zero (v ∷ vs) ws p q = absurd p
  Origins-unique (suc n) [] ws p q = absurd p
  Origins-unique (suc n) (v ∷ vs) [] p q = absurd q
  Origins-unique (suc n) (v ∷ vs) (w ∷ ws) (p, a) (q, b) =
      let rest = Follows-unique n (entry n).value vs ws (Origins-unique n vs ws) a b in
      cc (p, q, rest)

  -- A scan that meets an estimate has no versions to note.
  blocked_step :
      (anchor : Option Info) (n writer : ℕ) (os vs : List TxVersion) (rs : List ℕ)
      (x : EntryValue Info)
      → (entry n).value ≡ x
      → ((rs' : List ℕ)
          → scan entry anchor n (seen entry anchor n os) rs' ≡ err writer
          → Origins n vs
          → ⊥)
      → scan entry anchor (suc n) os rs ≡ err writer
      → Follows x (Origins n vs) vs
      → ⊥
  unfolding scan
  blocked_step anchor n writer os vs rs estimate p ih e f = f
  blocked_step anchor n writer os vs rs (exact unchanged) p ih e f = ih rs (ground (arith, e, p)) f
  blocked_step anchor n writer os vs rs (exact (reward r)) p ih e f =
      ih (rs ++ r ∷ []) (ground (arith, e, p)) f
  blocked_step anchor n writer os vs rs (exact (snapshot account)) p ih e f = ground (arith, e, p)

  scan-blocked :
      (anchor : Option Info) (n writer : ℕ) (os vs : List TxVersion) (rs : List ℕ)
      → scan entry anchor n os rs ≡ err writer
      → Origins n vs
      → ⊥
  unfolding scan Origins
  scan-blocked anchor zero writer os vs rs e o = ground (arith, e)
  scan-blocked anchor (suc n) writer os [] rs e o = o
  scan-blocked anchor (suc n) writer os (v ∷ vs) rs e (same, o) =
      blocked_step anchor n writer os vs rs (entry n).value refl
        (λ rs'. scan-blocked anchor n writer (seen entry anchor n os) vs rs') e o

origins_eq_sound : (vs ws : List TxVersion) → origins_eq vs ws ≡ true → vs ≡ ws
origins_eq_sound [] [] e = refl
origins_eq_sound [] (w ∷ ws) e = cc
origins_eq_sound (v ∷ vs) [] e = cc
origins_eq_sound (v ∷ vs) (w ∷ ws) e = ground (arith, origins_eq_sound vs ws)

origins_eq_refl : (vs : List TxVersion) → origins_eq vs vs ≡ true
origins_eq_refl [] = refl
origins_eq_refl (v ∷ vs) = ground (arith, origins_eq_refl vs)

module _ {Info : Type 0} where
  scanned-Origins :
      (h : History Info) (txid : ℕ) (expected : ReadVersion) (r : Result ℕ (HistoryScan Info))
      → scan h.entries.at h.block_anchor txid [] [] ≡ r
      → ((validate_scan r expected).valid ≡ true) ↔ Origins h.entries.at txid expected
  scanned-Origins h txid expected (err writer) e = (
    λ valid. absurd (ground (arith, valid)),
    λ o. absurd (scan-blocked h.entries.at h.block_anchor txid writer [] expected [] e o),
  )
  scanned-Origins h txid expected (ok s) e =
      let (vs, same, o) = scan-Origins h.entries.at h.block_anchor txid [] [] s e in
      (
        λ valid.
            subst (Origins h.entries.at txid) (sym same ∙ origins_eq_sound s.version expected valid)
              o,
        λ p.
            let equal : s.version ≡ expected =
              same ∙ Origins-unique h.entries.at txid vs expected o p in
            subst (λ (vs : List TxVersion). origins_eq s.version vs ≡ true) equal
              (origins_eq_refl s.version),
      )

  -- A validation that returns accepts a read exactly if its versions are those of the history now.
  pub validate-Origins :
      (h : History Info) (txid : ℕ) (expected : ReadVersion) (v : Validation)
      → validate h txid expected ≡ some v
      → (v.valid ≡ true) ↔ Origins h.entries.at txid expected
  unfolding validate scan_before
  validate-Origins h txid expected v e =
      let same : validate_scan (scan h.entries.at h.block_anchor txid [] []) expected ≡ v =
        ground (arith, e) in
      subst (λ (v : Validation). (v.valid ≡ true) ↔ Origins h.entries.at txid expected) same
        (scanned-Origins h txid expected (scan h.entries.at h.block_anchor txid [] []) refl)
