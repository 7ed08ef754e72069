-- ===== src/Beneficiary/Sequential.antt =====
-- src/beneficiary/history.rs: what a beneficiary read means in block order.
use mathlib.Core.List.{foldl, reverse, reverse-append}
use grevm.Prelude.{
  ℕ, zero, suc, ◌≡◌, ◌≤◌, ◌<◌, Option, none, some, List, [], ◌∷◌, ◌++◌, refl, arith, ap, ◌∙◌, subst,
  ◌>>=◌,
}
use native.Mathlib.Decide.{dec_lt}
use grevm.Revm.{Accounts}
use grevm.Model.{TxVersion, Result, ok, err, map_ok}
use grevm.Beneficiary.{
  Effect, unchanged, reward, snapshot, EntryValue, estimate, exact, EntryState, HistoryScan,
  History, Read, scan, scan_before, apply_to, resolve, resolve_before,
}

module _ (revm : Accounts) where
  open revm use {AccountInfo}

  abbrev pub add_reward : Option AccountInfo → ℕ → Option AccountInfo
  add_reward account r = some (apply_to revm r account)

  -- One transaction's effect on the account, as sequential execution applies it.
  abbrev pub apply_effect : Effect AccountInfo → Option AccountInfo → Option AccountInfo
  apply_effect unchanged account = account
  apply_effect (reward r) account = add_reward account r
  apply_effect (snapshot account') account = account'

  -- The account before transaction `n`, by executing the block from its start.
  pub replay : (ℕ → Effect AccountInfo) → Option AccountInfo → ℕ → Option AccountInfo
  replay effects anchor zero = anchor
  replay effects anchor (suc n) = apply_effect (effects n) (replay effects anchor n)

  module _ (entry : ℕ → EntryState AccountInfo) (effects : ℕ → Effect AccountInfo)
      (anchor : Option AccountInfo) where
    abbrev seen : ℕ → List TxVersion → List TxVersion
    seen n os = os ++ record { txid = n; incarnation = (entry n).incarnation } ∷ []

    -- A scan of the writers below `n` that has collected `rs` ends with the replayed account.
    abbrev Replays : ℕ → List TxVersion → List ℕ → Type 0
    Replays n os rs =
        (s : HistoryScan AccountInfo) × (scan entry anchor n os rs ≡ ok s)
        × ((resolve revm s).account ≡ foldl add_reward (replay effects anchor n) (reverse rs))

    scan_step :
        (n : ℕ) (e : Effect AccountInfo) (os : List TxVersion) (rs : List ℕ)
        → (entry n).value ≡ exact e
        → effects n ≡ e
        → ((os' : List TxVersion) (rs' : List ℕ) → Replays n os' rs')
        → Replays (suc n) os rs
    unfolding scan replay resolve
    scan_step n unchanged os rs p q ih =
        let (s, a, b) = ih (seen n os) rs in (s, rw (p, scan) a, rw (q, apply_effect, replay) b)
    scan_step n (reward r) os rs p q ih =
        let (s, a, b) = ih (seen n os) (rs ++ r ∷ []) in
        (
          s,
          rw (p, scan) a,
          rw (q, apply_effect, replay)
              (b ∙ ap (foldl add_reward (replay effects anchor n)) (reverse-append rs (r ∷ []))),
        )
    scan_step n (snapshot account) os rs p q ih = (
      record {
        base = account;
        rewards_newest_first = rs;
        version = os ++ record { txid = n; incarnation = (entry n).incarnation } ∷ [];
      },
      rw (p, scan),
      rw (q, apply_effect, replay),
    )

    scan-Replays :
        (n : ℕ) (os : List TxVersion) (rs : List ℕ)
        → ((w : ℕ) → w < n → (entry w).value ≡ exact (effects w))
        → Replays n os rs
    unfolding scan replay resolve
    scan-Replays zero os rs h = (_, refl, refl)
    scan-Replays (suc n) os rs h =
        scan_step n (effects n) os rs (h n (omega arith)) refl
          (λ os' rs'. scan-Replays n os' rs' (λ w lt. h w (omega arith)))

  -- Within the block, once every earlier transaction has published its effect, a read gives the account that
  -- executing those transactions in block order gives.
  pub resolve_before-replay :
      (h : History AccountInfo) (effects : ℕ → Effect AccountInfo) (txid : ℕ)
      → txid ≤ h.entries.len
      → ((w : ℕ) → w < txid → (h.entries.at w).value ≡ exact (effects w))
      → (r : Read AccountInfo) × (resolve_before revm h txid ≡ some (ok r))
        × (r.account ≡ replay effects h.block_anchor txid)
  unfolding resolve_before replay
  resolve_before-replay h effects txid bound published =
      let (s, a, b) = scan-Replays h.entries.at effects h.block_anchor txid [] [] published in
      (resolve revm s, ground (arith, a), b)

-- A write that a reader looks past.
abbrev pub IsPassed : {Info : Type 0} → EntryValue Info → Type 0
IsPassed (exact unchanged) = Unit {0}
IsPassed (exact (reward r)) = Unit {0}
IsPassed _ = ⊥

module _ {Info : Type 0} (entry : ℕ → EntryState Info) where
  -- What a scan that stops at `w` has met.
  abbrev pub StopsAt : ℕ → ℕ → Type 0
  StopsAt n w =
      (w < n) × ((entry w).value ≡ estimate) × ((v : ℕ) → w < v → v < n → IsPassed (entry v).value)

  StopsAt-suc : (n w : ℕ) → IsPassed (entry n).value → StopsAt n w → StopsAt (suc n) w
  StopsAt-suc n w p (lt, e, h) = (
    omega arith,
    e,
    λ v a b. elim (dec_lt v n) [
      | yes below ↦ h v a below
      | no last ↦ subst (λ (k : ℕ). IsPassed (entry k).value) {x = n} {y = v} (omega arith) p
    ],
  )

module _ {Info : Type 0} (entry : ℕ → EntryState Info) (anchor : Option Info) where
  scan-err_step :
      (n w : ℕ) (x : EntryValue Info) (os : List TxVersion) (rs : List ℕ)
      → (entry n).value ≡ x
      → ((os' : List TxVersion) (rs' : List ℕ)
          → scan entry anchor n os' rs' ≡ err w
          → StopsAt entry n w)
      → scan entry anchor (suc n) os rs ≡ err w
      → StopsAt entry (suc n) w
  unfolding scan
  scan-err_step n w estimate os rs p ih e =
      let here : n ≡ w = ground arith in (omega arith, rw (← here) p, λ v a b. absurd (omega arith))
  scan-err_step n w (exact unchanged) os rs p ih e =
      StopsAt-suc entry n w (rw p tt)
        (ih (os ++ record { txid = n; incarnation = (entry n).incarnation } ∷ []) rs (ground arith))
  scan-err_step n w (exact (reward r)) os rs p ih e = StopsAt-suc entry n w (rw p tt) (
      ih (os ++ record { txid = n; incarnation = (entry n).incarnation } ∷ []) (rs ++ r ∷ [])
        (ground arith))
  scan-err_step n w (exact (snapshot account)) os rs p ih e = absurd (ground arith)

  scan-err :
      (n w : ℕ) (os : List TxVersion) (rs : List ℕ)
      → scan entry anchor n os rs ≡ err w
      → StopsAt entry n w
  unfolding scan
  scan-err zero w os rs e = cc
  scan-err (suc n) w os rs e =
      scan-err_step n w (entry n).value os rs refl (λ os' rs' e'. scan-err n w os' rs' e') e

scan_before-err :
    {Info : Type 0} (h : History Info) (txid w : ℕ)
    → scan_before h txid ≡ some (err w)
    → scan h.entries.at h.block_anchor txid [] [] ≡ err w
unfolding scan_before
scan_before-err h txid w e = ground arith

map_ok-err :
    {A B : Type 0} (f : A → B) (o : Option (Result ℕ A)) (w : ℕ)
    → (o >>= λ r. some (map_ok f r)) ≡ some (err w)
    → o ≡ some (err w)
map_ok-err f none w e = cc
map_ok-err f (some (ok a)) w e = absurd (ground arith)
map_ok-err f (some (err v)) w e = ground arith

-- A read is blocked by an estimate only, and by the newest: every later write was looked past.
pub resolve_before-err :
    (revm : Accounts) (h : History revm.AccountInfo) (txid w : ℕ)
    → resolve_before revm h txid ≡ some (err w)
    → StopsAt h.entries.at txid w
unfolding resolve_before
resolve_before-err revm h txid w e =
    scan-err h.entries.at h.block_anchor txid w [] []
      (scan_before-err h txid w (map_ok-err (resolve revm) (scan_before h txid) w e))
