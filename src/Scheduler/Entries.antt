-- ===== src/Scheduler/Entries.antt =====
-- src/scheduler.rs: what the marks and removals of a transaction do to the memory's entries.
use grevm.Prelude.{
  ℕ, ◌≡◌, ◌≢◌, Bool, true, false, ◌||◌, Option, none, some, List, [], ◌∷◌, refl, arith, ◌∙◌, sym,
  Bool-cases, Option-cases, ◌⊎◌, inl, inr, subst,
}
use grevm.Memory.{Location, Memory, MemoryEntry, location_eq}
use grevm.IncarnationDb.Publish.{contains_location}
use grevm.IncarnationDb.Publish.Written.{location_eq_sound}
use grevm.Scheduler.{Machine, as_estimate, mark_entry, mark_mv_estimate}
use grevm.Scheduler.Execute.{remove_stale, remove_entry}

module _ (m : Machine) where
  open m use {keys, revm}
  open keys use {Address}
  open revm use {AccountInfo, Bytecode}

  pub contains_cons :
      (k l : Location Address) (ls : List (Location Address))
      → contains_location keys revm (k ∷ ls) l
        ≡ (location_eq keys k l || contains_location keys revm ls l)
  unfolding contains_location
  contains_cons k l ls = refl

  -- An entry that stays, and is an estimate if it was one or is told to be.
  abbrev pub Kept :
      Bool
      → Option (MemoryEntry AccountInfo Bytecode)
      → Option (MemoryEntry AccountInfo Bytecode)
      → Type 0
  Kept told before after =
      ((before ≡ none) × (after ≡ none))
      ⊎ ((e e' : MemoryEntry AccountInfo Bytecode) × (before ≡ some e)
          × (after ≡ some e')
          × (e.estimate || told ≡ true → e'.estimate ≡ true))

  mark_entry-Kept :
      (memory : Memory Address AccountInfo Bytecode) (txid : ℕ) (k l : Location Address)
      → Kept (location_eq keys k l) (memory l txid) (mark_entry m memory txid k l txid)
  mark_entry-Kept memory txid k l = elim (Option-cases (memory l txid)) [
    | inl absent ↦ inl (absent, ground (arith, absent))
    | inr (e, found) ↦ elim (Bool-cases (location_eq keys k l)) [
      | inl same ↦ inr (e, as_estimate m e, found, ground (arith, found, same), λ h. refl)
      | inr apart ↦ inr (e, e, found, ground (arith, found, apart), λ h. ground (arith, h, apart))
    ]
  ]

  Kept-trans :
      (a b : Bool) (x y z : Option (MemoryEntry AccountInfo Bytecode))
      → Kept a x y
      → Kept b y z
      → Kept (a || b) x z
  Kept-trans a b x y z (inl (p, q)) (inl (r, s)) = inl (p, s)
  Kept-trans a b x y z (inl (p, q)) (inr (e, e', r, s, t)) = absurd (ground (arith, q, r))
  Kept-trans a b x y z (inr (e, e', p, q, h)) (inl (r, s)) = absurd (ground (arith, q, r))
  Kept-trans a b x y z (inr (e, e', p, q, h)) (inr (f, f', r, s, k)) =
      let same : e' ≡ f = ground (arith, q, r) in
      inr (e, f', p, s, λ t. ground (arith, t, same, h, k))

  pub mark-Kept :
      (ls : List (Location Address)) (memory : Memory Address AccountInfo Bytecode) (txid : ℕ)
      (l : Location Address)
      → Kept
          (contains_location keys revm ls l)
          (memory l txid)
          (mark_mv_estimate m memory txid ls l txid)
  unfolding mark_mv_estimate contains_location
  mark-Kept [] memory txid l = elim (Option-cases (memory l txid)) [
    | inl absent ↦ inl (absent, absent)
    | inr (e, found) ↦ inr (e, e, found, found, λ h. ground (arith, h))
  ]
  mark-Kept (k ∷ ls) memory txid l =
      Kept-trans (location_eq keys k l) (contains_location keys revm ls l) (memory l txid)
        (mark_entry m memory txid k l txid) _ (mark_entry-Kept memory txid k l)
        (mark-Kept ls (mark_entry m memory txid k) txid l)

  pub mark-others :
      (ls : List (Location Address)) (memory : Memory Address AccountInfo Bytecode) (txid : ℕ)
      (l : Location Address) (w : ℕ)
      → w ≢ txid
      → mark_mv_estimate m memory txid ls l w ≡ memory l w
  unfolding mark_mv_estimate
  mark-others [] memory txid l w h = refl
  mark-others (k ∷ ls) memory txid l w h =
      mark-others ls (mark_entry m memory txid k) txid l w h ∙ ground (arith, h)

  pub remove-others :
      (previous : List (Location Address)) (memory : Memory Address AccountInfo Bytecode) (txid : ℕ)
      (write_set : List (Location Address)) (l : Location Address) (w : ℕ)
      → w ≢ txid
      → remove_stale m memory txid write_set previous l w ≡ memory l w
  unfolding remove_stale
  remove-others [] memory txid write_set l w h = refl
  remove-others (k ∷ ks) memory txid write_set l w h =
      remove-others ks (remove_entry m memory txid write_set k) txid write_set l w h
      ∙ ground (arith, h)

  -- A location that is written keeps its entry.
  pub remove-written :
      (previous : List (Location Address)) (memory : Memory Address AccountInfo Bytecode) (txid : ℕ)
      (write_set : List (Location Address)) (l : Location Address)
      → contains_location keys revm write_set l ≡ true
      → remove_stale m memory txid write_set previous l txid ≡ memory l txid
  unfolding remove_stale
  remove-written [] memory txid write_set l h = refl
  remove-written (k ∷ ks) memory txid write_set l h =
      remove-written ks (remove_entry m memory txid write_set k) txid write_set l h
      ∙ (elim (Bool-cases (location_eq keys k l)) [
        | inr apart ↦ ground (arith, apart)
        | inl same ↦
            let there : contains_location keys revm write_set k ≡ true =
              subst (λ (x : Location Address). contains_location keys revm write_set x ≡ true)
                (sym (location_eq_sound keys revm k l same)) h in
            ground (arith, there)
      ])

  -- Any other location has none, if only previous ones have.
  pub remove-unwritten :
      (previous : List (Location Address)) (memory : Memory Address AccountInfo Bytecode) (txid : ℕ)
      (write_set : List (Location Address)) (l : Location Address)
      → contains_location keys revm write_set l ≡ false
      → (contains_location keys revm previous l ≡ false → memory l txid ≡ none)
      → remove_stale m memory txid write_set previous l txid ≡ none
  unfolding remove_stale contains_location
  remove-unwritten [] memory txid write_set l h none_else = none_else refl
  remove-unwritten (k ∷ ks) memory txid write_set l h none_else =
      remove-unwritten ks (remove_entry m memory txid write_set k) txid write_set l h (λ rest.
        elim (Bool-cases (location_eq keys k l)) [
          | inr apart ↦ ground (arith, apart, none_else, rest)
          | inl same ↦
              let there : contains_location keys revm write_set k ≡ false =
                subst (λ (x : Location Address). contains_location keys revm write_set x ≡ false)
                  (sym (location_eq_sound keys revm k l same)) h in
              ground (arith, there, same)
        ])
