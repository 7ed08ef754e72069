-- ===== src/Context/Race/Prefix.antt =====
-- src/scheduler/context.rs: the execution frontier in any interleaving of its accesses.
use grevm.Prelude.{
  ℕ, ◌≡◌, ◌≤◌, ◌<◌, ◌⊎◌, inl, inr, true, ◌&&◌, some, refl, ◌∙◌, arith, subst, update, ltb, ◌==◌,
  Bool-cases,
}
use grevm.Context.{ExecutionFrontier}
use grevm.Context.Frontier.{IsPrefixEnd}
use grevm.Context.Race.{
  Access, away, answered, frontier_access, Begins, publishes, asks, Reach, begins, calls, accesses,
  owes, Below, Sound,
}
use grevm.Context.Race.Moves.{Sound-Grows, frontier_access-Moved}

pub record Inv (n : ℕ) (f : ExecutionFrontier) (at : ℕ → Access) : Type 0 where
  pub len : f.executed.len ≡ n
  pub bound : f.frontier ≤ f.executed.len
  pub below : Below f f.frontier
  pub sound : (t : ℕ) → Sound f (at t)
  pub moved :
      f.frontier < f.executed.len
      → f.executed.at f.frontier ≡ true
      → (t : ℕ) × (owes f.frontier (at t) ≡ true)

module _ (n : ℕ) (f : ExecutionFrontier) (at : ℕ → Access) (v : Inv n f at) (t : ℕ) where
  Sound-update :
      (f' : ExecutionFrontier) (x : Access)
      → ((u : ℕ) → Sound f' (at u))
      → Sound f' x
      → (u : ℕ) → Sound f' (update at t x u)
  Sound-update f' x others s u = elim (Bool-cases (t == u)) [
    | inl same ↦ subst (Sound f') (ground (arith, same)) s
    | inr apart ↦ subst (Sound f') (ground (arith, apart)) (others u)
  ]

  call-Inv :
      (x : Access)
      → (at t ≡ away) ⊎ ((answer : ℕ) × (at t ≡ answered answer))
      → Begins x
      → Inv n f (update at t x)
  unfolding Sound owes
  call-Inv x idle begun = record {
    len = v.len;
    bound = v.bound;
    below = v.below;
    sound = Sound-update f x v.sound (fresh x begun);
    moved = λ lt done. let (u, moves) = v.moved lt done in (u, ground (arith, moves, idle));
  }
    where
      fresh : (x : Access) → Begins x → Sound f x
      fresh _ (publishes index) = tt
      fresh _ asks = tt

  frontier_access-Inv :
      (f' : ExecutionFrontier) (x : Access)
      → frontier_access f (at t) ≡ some (f', x)
      → Inv n f' (update at t x)
  frontier_access-Inv f' x e =
      let a = frontier_access-Moved f v.bound v.below (at t) f' x (v.sound t) e in
      record {
        len = a.grows.len ∙ v.len;
        bound = a.bound;
        below = a.below;
        sound = Sound-update f' x (λ u. Sound-Grows f f' (at u) a.grows (v.sound u)) a.sound;
        moved = λ lt done. elim (a.owed lt done) [
          | inl moves ↦ (t, ground (arith, moves))
          | inr (other, same, was) ↦
              let (u, moves) = v.moved (omega (arith, lt, same, a.grows.len)) was in
              (u, ground (arith, moves, other, same))
        ];
      }

Reach-Inv : (n : ℕ) (f : ExecutionFrontier) (at : ℕ → Access) → Reach n f at → Inv n f at
unfolding Sound
Reach-Inv n _ _ begins = record {
  len = refl;
  bound = omega arith;
  below = λ i h. absurd (omega (arith, h));
  sound = λ t. tt;
  moved = λ lt h. absurd (ground (arith, h));
}
Reach-Inv n _ _ (calls f at t call r idle begun) =
    call-Inv n f at (Reach-Inv n f at r) t call idle begun
Reach-Inv n _ _ (accesses f f' at t x r e) =
    frontier_access-Inv n f at (Reach-Inv n f at r) t f' x e

-- In any interleaving of publications and reads of the execution frontier, access by access: every
-- transaction before the frontier has been executed; the frontier is the end of the executed prefix,
-- or some thread is on its way to move it, in `advance` or about to find in the second load of its
-- `publish` that it has filled the gap; and whatever a read has answered, all transactions before it
-- have been executed, and the frontier is not behind it.
pub Reach-IsPrefixEnd :
    (n : ℕ) (f : ExecutionFrontier) (at : ℕ → Access)
    → Reach n f at
    → (f.executed.len ≡ n)
      × Below f f.frontier
      × (IsPrefixEnd f f.frontier ⊎ ((t : ℕ) × (owes f.frontier (at t) ≡ true)))
      × ((t answer : ℕ) → at t ≡ answered answer → (answer ≤ f.frontier) × Below f answer)
unfolding Sound
Reach-IsPrefixEnd n f at r =
    let v = Reach-Inv n f at r in
    (
      v.len,
      v.below,
      elim (Bool-cases (ltb f.frontier f.executed.len && f.executed.at f.frontier)) [
        | inl lags ↦ inr (v.moved (ground (arith, lags)) (ground (arith, lags)))
        | inr settled ↦
            inl
              (record { bound = v.bound; done = v.below; first = λ h. ground (arith, settled, h) })
      ],
      λ t answer is. subst (Sound f) is (v.sound t),
    )
