-- ===== src/Dependency/Preservation.antt =====
-- The operations of src/tx_dependency.rs and the invariant.
use grevm.Prelude.{
  is_empty, ◌≢◌, >>=-eq-some, ◌∙◌, Bool-cases, inl, inr, ℕ, ◌≡◌, Bool, true, Option, none, some,
  arith, contains, insert, List, [], ◌∷◌, ◌==◌, ◌||◌, ◌⊎◌, put, Option-cases, ◌<◌,
}
use grevm.Dependency.{
  remove, TxDependency, claim, next, release, release_all, commit, key_tx, add, add_blocked,
}
use grevm.Dependency.Invariant.{Inv, state, IsWaiting}

pub claim-Inv : (d d' : TxDependency) (r : Option ℕ) → claim d ≡ some (d', r) → Inv d → Inv d'
unfolding claim
claim-Inv d d' r h v = record {
  states = ground (arith, v.states);
  affects = ground (arith, v.affects);
  ready = λ tx lt rd. ground (arith, v.ready tx);
  claimed = λ tx e. ground (arith, v.claimed tx);
  backward = λ tx dep_id w. ground (arith, v.backward tx dep_id);
  reverse = λ tx dep_id w lt. ground (arith, v.reverse tx dep_id);
  known = λ dep_id tx c. ground (arith, v.known dep_id tx);
}

contains-insert : (n x : ℕ) (xs : List ℕ) → contains (insert n xs) x ≡ (n == x || contains xs x)
contains-insert n x xs = ground arith

pub commit-Inv : (d d' : TxDependency) (txid : ℕ) → commit d txid ≡ some d' → Inv d → Inv d'
unfolding commit
commit-Inv d d' txid h v = record {
  states = ground (arith, v.states);
  affects = ground (arith, v.affects);
  ready = λ tx lt rd. ground (arith, v.ready tx);
  claimed = λ tx e. ground (arith, v.claimed tx);
  backward = λ tx dep_id w. ground (arith, v.backward tx dep_id);
  reverse = λ tx dep_id w lt. ground (arith, v.reverse tx dep_id);
  known = λ dep_id tx c. ground (arith, v.known dep_id tx);
}

pub key_tx-Inv : (d d' : TxDependency) (txid c : ℕ) → key_tx d txid c ≡ some d' → Inv d → Inv d'
unfolding key_tx
key_tx-Inv d d' txid c h v = record {
  states = ground (arith, v.states);
  affects = ground (arith, v.affects);
  ready = λ tx lt rd. ground (arith, v.ready tx);
  claimed = λ tx e. ground (arith, v.claimed tx);
  backward = λ tx dep_id w. ground (arith, v.backward tx dep_id);
  reverse = λ tx dep_id w lt. ground (arith, v.reverse tx dep_id);
  known = λ dep_id tx c. ground (arith, v.known dep_id tx);
}

add_blocked-Inv :
    (d d' : TxDependency) (txid c : ℕ) → add_blocked d txid c ≡ some d' → Inv d → Inv d'
unfolding add_blocked
add_blocked-Inv d d' txid c h v = record {
  states = ground (arith, v.states);
  affects = ground (arith, v.affects);
  ready = λ tx lt rd. ground (arith, v.ready tx);
  claimed = λ tx e. ground (arith, v.claimed tx);
  backward = λ tx dep_id w. ground (arith, v.backward tx dep_id);
  reverse = λ tx dep_id w lt.
      ground (arith, v.reverse tx dep_id, contains-insert txid tx (d.affect_txs.at dep_id));
  known = λ dep_id tx w.
      ground (arith, v.known dep_id tx, contains-insert txid tx (d.affect_txs.at dep_id));
}

pub add-Inv :
    (d d' : TxDependency) (txid : ℕ) (dep : Option ℕ) → add d txid dep ≡ some d' → Inv d → Inv d'
unfolding add
add-Inv d d' txid (some dep_id) h v = add_blocked-Inv d d' txid dep_id h v
add-Inv d d' txid none h v = record {
  states = ground (arith, v.states);
  affects = ground (arith, v.affects);
  ready = λ tx lt rd. ground (arith, v.ready tx);
  claimed = λ tx e. ground (arith, v.claimed tx);
  backward = λ tx dep_id w. ground (arith, v.backward tx dep_id);
  reverse = λ tx dep_id w lt. ground (arith, v.reverse tx dep_id);
  known = λ dep_id tx c. ground (arith, v.known dep_id tx);
}

pub next-Inv : (d d' : TxDependency) (r : Option ℕ) → next d ≡ some (d', r) → Inv d → Inv d'
unfolding next
next-Inv d d' r h v = ground (arith, claim-Inv d d' r)

-- What one round of `remove` does to the graph, beside keeping the invariant.
pub record Frees (txid : ℕ) (d d' : TxDependency) : Type 0 where
  pub kept : d'.affect_txs ≡ d.affect_txs
  pub size : d'.num_txs ≡ d.num_txs
  pub fewer : (tx b : ℕ) → IsWaiting d' tx b → IsWaiting d tx b

module _ (txid : ℕ) (pop_next : Bool) where
  release-Inv :
      (tx : ℕ) (d d' : TxDependency) (o o' : Option ℕ)
      → release txid pop_next tx (d, o) ≡ some (d', o')
      → Inv d
      → Inv d'
  unfolding release
  release-Inv txid' d d' o o' h v = record {
    states = ground (arith, v.states);
    affects = ground (arith, v.affects);
    ready = λ tx lt rd. ground (arith, v.ready tx);
    claimed = λ tx e. ground (arith, v.claimed tx);
    backward = λ tx dep_id w. ground (arith, v.backward tx dep_id);
    reverse = λ tx dep_id w lt. ground (arith, v.reverse tx dep_id);
    known = λ dep_id tx c. ground (arith, v.known dep_id tx);
  }

  pub release-Frees :
      (tx : ℕ) (d d' : TxDependency) (o o' : Option ℕ)
      → release txid pop_next tx (d, o) ≡ some (d', o')
      → Frees txid d d' × ((state d' tx).dependency ≢ some txid)
  unfolding release
  release-Frees tx d d' o o' h = (
    record { kept = ground arith; size = ground arith; fewer = λ tx' b w. ground arith },
    λ e. ground arith,
  )

  release_all-Inv :
      (txs : List ℕ) (d d' : TxDependency) (o o' : Option ℕ)
      → release_all txid pop_next txs (d, o) ≡ some (d', o')
      → Inv d
      → Inv d'
  unfolding release_all
  release_all-Inv [] d d' o o' h v = ground arith
  release_all-Inv (tx ∷ txs) d d' o o' h v =
      let ((d₁, o₁), e, k) =
        >>=-eq-some (release txid pop_next tx (d, o)) (release_all txid pop_next txs) h in
      release_all-Inv txs d₁ d' o₁ o' k (release-Inv tx d d₁ o o₁ e v)

  pub release_all-Frees :
      (txs : List ℕ) (d d' : TxDependency) (o o' : Option ℕ)
      → release_all txid pop_next txs (d, o) ≡ some (d', o')
      → Frees txid d d' × ((tx : ℕ) → contains txs tx ≡ true → (state d' tx).dependency ≢ some txid)
  unfolding release_all
  release_all-Frees [] d d' o o' h = (
    record { kept = ground arith; size = ground arith; fewer = λ tx b w. ground arith },
    λ tx c. cc,
  )
  release_all-Frees (tx ∷ txs) d d' o o' h =
      let ((d₁, o₁), e, k) =
        >>=-eq-some (release txid pop_next tx (d, o)) (release_all txid pop_next txs) h in
      let (f, free) = release-Frees tx d d₁ o o₁ e in
      let (g, rest) = release_all-Frees txs d₁ d' o₁ o' k in
      (
        record {
          kept = g.kept ∙ f.kept;
          size = g.size ∙ f.size;
          fewer = λ t b w. f.fewer t b (g.fewer t b w);
        },
        λ t c w. elim (Bool-cases (tx == t)) [
          | inl here ↦ free (ground (arith, g.fewer t txid w))
          | inr there ↦ rest t (ground arith) w
        ],
      )

abbrev pub Removed : ℕ → Bool → TxDependency → TxDependency → Option ℕ → Type 0
Removed txid pop_next d d' r =
    ((d.affect_txs.at txid ≡ []) × (d' ≡ d) × (r ≡ none))
    ⊎ ((m : TxDependency) × (release_all txid pop_next (d.affect_txs.at txid) (d, none)
          ≡ some (m, r))
        × (d' ≡ record m { affect_txs = put m.affect_txs txid [] }))

pub remove-Removed :
    (d d' : TxDependency) (txid : ℕ) (pop_next : Bool) (r : Option ℕ)
    → remove d txid pop_next ≡ some (d', r)
    → Removed txid pop_next d d' r
unfolding remove
remove-Removed d d' txid pop_next r h =
    elim (Option-cases (release_all txid pop_next (d.affect_txs.at txid) (d, none))) [
      | inl e ↦ ground arith
      | inr ((m, o), e) ↦ elim (Bool-cases (is_empty (d.affect_txs.at txid))) [
        | inl empty ↦ inl (ground arith, ground arith, ground arith)
        | inr waiting ↦ inr (m, ground arith, ground arith)
      ]
    ]

-- Clearing a predecessor's list is sound once nobody of it waits for that predecessor.
cleared-Inv :
    (m : TxDependency) (txid : ℕ)
    → ((tx : ℕ) → contains (m.affect_txs.at txid) tx ≡ true → (state m tx).dependency ≢ some txid)
    → Inv m
    → Inv (record m { affect_txs = put m.affect_txs txid [] })
cleared-Inv m txid free v = record {
  states = v.states;
  affects = v.affects;
  ready = v.ready;
  claimed = v.claimed;
  backward = v.backward;
  reverse = λ tx dep_id w lt. ground (arith, v.reverse tx dep_id w lt, free tx);
  known = λ dep_id tx c. ground (arith, v.known dep_id tx);
}

pub remove-Inv :
    (d d' : TxDependency) (txid : ℕ) (pop_next : Bool) (r : Option ℕ)
    → remove d txid pop_next ≡ some (d', r)
    → Inv d
    → Inv d'
remove-Inv d d' txid pop_next r h v = elim (remove-Removed d d' txid pop_next r h) [
  | inl (_, same, _) ↦ rw same v
  | inr (m, e, done) ↦
      let (f, free) = release_all-Frees txid pop_next (d.affect_txs.at txid) d m none r e in
      rw done (
        cleared-Inv m txid (λ tx c. free tx (rw (← f.kept) c))
          (release_all-Inv txid pop_next (d.affect_txs.at txid) d m none r e v))
]

remove-empties :
    (d d' : TxDependency) (txid : ℕ) (pop_next : Bool) (r : Option ℕ)
    → remove d txid pop_next ≡ some (d', r)
    → d'.affect_txs.at txid ≡ []
remove-empties d d' txid pop_next r h = ground (arith, remove-Removed d d' txid pop_next r h)

-- After `remove`, no later transaction waits for `txid`.
pub remove-frees :
    (d d' : TxDependency) (txid tx : ℕ) (pop_next : Bool) (r : Option ℕ)
    → remove d txid pop_next ≡ some (d', r)
    → Inv d
    → txid < tx
    → (state d' tx).dependency ≢ some txid
remove-frees d d' txid tx pop_next r h v lt w = ground (
  arith,
  (remove-Inv d d' txid pop_next r h v).reverse tx txid w lt,
  remove-empties d d' txid pop_next r h,
)
