-- ===== src/Context/Race/Moves.antt =====
-- src/scheduler/context.rs: what one access of the execution frontier does.
use grevm.Prelude.{
  ℕ, suc, ◌≡◌, ◌≤◌, ◌<◌, ◌⊎◌, inl, inr, Bool, true, false, ◌&&◌, some, refl, arith, subst, put, ltb,
  ◌==◌, max, Bool-cases,
}
use grevm.Context.{ExecutionFrontier}
use grevm.Context.Race.{
  Access, away, asking, answering, publishing, storing, reloading, looking, answered, scanning,
  raising, frontier_access, owes, Below, Sound, Grows, Moved,
}

pub Sound-Grows : (f f' : ExecutionFrontier) (x : Access) → Grows f f' → Sound f x → Sound f' x
unfolding Sound
Sound-Grows f f' away g s = tt
Sound-Grows f f' asking g s = tt
Sound-Grows f f' answering g s = tt
Sound-Grows f f' (publishing index) g s = tt
Sound-Grows f f' (storing index) g s = tt
Sound-Grows f f' (reloading index) g s = g.keeps index s
Sound-Grows f f' (looking n) g (le, below) =
    (omega (arith, le, g.frontier), λ i h. g.keeps i (below i h))
Sound-Grows f f' (answered n) g (le, below) =
    (omega (arith, le, g.frontier), λ i h. g.keeps i (below i h))
Sound-Grows f f' (scanning helps start end) g (le, order, bound, below) = (
  omega (arith, le, g.frontier),
  order,
  omega (arith, bound, g.len),
  λ i h. g.keeps i (below i h),
)
Sound-Grows f f' (raising helps start end) g (le, order, bound, below) = (
  omega (arith, le, g.frontier),
  order,
  omega (arith, bound, g.len),
  λ i h. g.keeps i (below i h),
)

module _ (f : ExecutionFrontier) (bound : f.frontier ≤ f.executed.len)
    (below : Below f f.frontier) where
  -- An access that only loads.
  loads :
      (x y : Access)
      → Sound f y
      → ((owes f.frontier y ≡ true) ⊎ (owes f.frontier x ≡ false))
        ⊎ (f.frontier < f.executed.len → f.executed.at f.frontier ≡ true → ⊥)
      → (f' : ExecutionFrontier) (y' : Access) → frontier_access f x ≡ some (f', y')
      → frontier_access f x ≡ some (f, y)
      → Moved f f' x y'
  loads x y s w f' y' e given =
      let same : f ≡ f' = ground (arith, e, given) in
      let same_access : y ≡ y' = ground (arith, e, given) in
      subst (λ (f' : ExecutionFrontier). Moved f f' x y') same
        (subst (Moved f f x) same_access (record {
          grows = record { len = refl; frontier = omega arith; keeps = λ i h. h };
          bound = bound;
          below = below;
          sound = s;
          owed = λ lt done. elim w [
            | inl (inl moves) ↦ inl moves
            | inl (inr other) ↦ inr (other, refl, done)
            | inr never ↦ absurd (never lt done)
          ];
        }))

  raised :
      (helps : Bool) (start end : ℕ) (f' : ExecutionFrontier) (y : Access)
      → Sound f (raising helps start end)
      → frontier_access f (raising helps start end) ≡ some (f', y)
      → Moved f f' (raising helps start end) y
  unfolding frontier_access Sound owes
  raised helps start end f' y (le, order, within, done) e =
      let at : record f { frontier = max f.frontier end } ≡ f' = ground (arith, e) in
      let is : scanning helps (max f.frontier end) (max f.frontier end) ≡ y = ground (arith, e) in
      let known : Below f (max f.frontier end) = λ i h. elim (Bool-cases (ltb i end)) [
        | inl inside ↦ done i (ground arith)
        | inr outside ↦ below i (ground (arith, outside, h))
      ] in
      subst (λ (f' : ExecutionFrontier). Moved f f' (raising helps start end) y) at
        (subst (Moved f (record f { frontier = max f.frontier end }) (raising helps start end)) is
          (record {
            grows = record { len = refl; frontier = omega arith; keeps = λ i h. h };
            bound = omega (arith, bound, within);
            below = known;
            sound = (omega arith, omega arith, omega (arith, bound, within), known);
            owed = λ lt x. inl refl;
          }))

  stored :
      (index : ℕ) (f' : ExecutionFrontier) (y : Access)
      → frontier_access f (storing index) ≡ some (f', y)
      → Moved f f' (storing index) y
  unfolding frontier_access Sound owes
  stored index f' y e =
      let at : record f { executed = put f.executed index true } ≡ f' = ground (arith, e) in
      let is : reloading index ≡ y = ground (arith, e) in
      subst (λ (f' : ExecutionFrontier). Moved f f' (storing index) y) at
        (subst (Moved f (record f { executed = put f.executed index true }) (storing index)) is
          (record {
            grows = record { len = refl; frontier = omega arith; keeps = λ i h. ground (arith, h) };
            bound = bound;
            below = λ i h. ground (arith, below i h);
            sound = ground arith;
            owed = λ lt x. elim (Bool-cases (index == f.frontier)) [
              | inl gap ↦ inl gap
              | inr elsewhere ↦ inr (refl, refl, ground (arith, x, elsewhere))
            ];
          }))

  scanned :
      (helps : Bool) (start end : ℕ) (f' : ExecutionFrontier) (y : Access)
      → Sound f (scanning helps start end)
      → frontier_access f (scanning helps start end) ≡ some (f', y)
      → Moved f f' (scanning helps start end) y
  unfolding frontier_access Sound owes
  scanned helps start end f' y (le, order, within, done) e =
      elim (Bool-cases (ltb end f.executed.len && f.executed.at end)) [
        | inl more ↦
            loads (scanning helps start end) (scanning helps start (suc end))
              (
                le,
                omega (arith, order),
                ground (arith, more),
                λ i h. elim (Bool-cases (i == end)) [
                  | inl last ↦ ground (arith, last, more)
                  | inr before ↦ done i (ground (arith, before, h))
                ],
              )
              (inl (inl refl)) f' y e (ground (arith, more))
        | inr stops ↦ elim (Bool-cases (end == start)) [
          | inr run ↦
              loads (scanning helps start end) (raising helps start end) (le, order, within, done)
                (inl (inl refl)) f' y e (ground (arith, stops, run))
          | inl nothing ↦
              let never : f.frontier < f.executed.len → f.executed.at f.frontier ≡ true → ⊥ =
                λ lt x. absurd (ground (arith, nothing, stops, le, lt, x, below end)) in
              elim (Bool-cases helps) [
                | inl reader ↦
                    loads (scanning helps start end) answering tt (inr never) f' y e
                      (ground (arith, stops, nothing, reader))
                | inr publisher ↦
                    loads (scanning helps start end) away tt (inr never) f' y e
                      (ground (arith, stops, nothing, publisher))
              ]
        ]
      ]

  pub frontier_access-Moved :
      (x : Access) (f' : ExecutionFrontier) (y : Access)
      → Sound f x
      → frontier_access f x ≡ some (f', y)
      → Moved f f' x y
  unfolding frontier_access Sound owes
  frontier_access-Moved away f' y s e = loads away away tt (inl (inr refl)) f' y e refl
  frontier_access-Moved asking f' y s e =
      loads asking (looking f.frontier) (omega arith, below) (inl (inr refl)) f' y e refl
  frontier_access-Moved answering f' y s e =
      loads answering (answered f.frontier) (omega arith, below) (inl (inr refl)) f' y e refl
  frontier_access-Moved (answered n) f' y s e =
      loads (answered n) (answered n) s (inl (inr refl)) f' y e refl
  frontier_access-Moved (publishing index) f' y s e = elim (Bool-cases (ltb index f.frontier)) [
    | inl old ↦ loads (publishing index) away tt (inl (inr refl)) f' y e (ground (arith, old))
    | inr new ↦
        loads (publishing index) (storing index) tt (inl (inr refl)) f' y e (ground (arith, new))
  ]
  frontier_access-Moved (storing index) f' y s e = stored index f' y e
  frontier_access-Moved (reloading index) f' y s e = elim (Bool-cases (index == f.frontier)) [
    | inl gap ↦
        loads (reloading index) (scanning false f.frontier f.frontier)
          (omega arith, omega arith, bound, below) (inl (inl refl)) f' y e (ground (arith, gap))
    | inr ahead ↦ loads (reloading index) away tt (inl (inr ahead)) f' y e (ground (arith, ahead))
  ]
  frontier_access-Moved (looking n) f' y (le, done) e =
      elim (Bool-cases (ltb n f.executed.len && f.executed.at n)) [
        | inl lags ↦
            loads (looking n) (scanning true n n) (le, omega arith, ground (arith, lags), done)
              (inl (inl refl)) f' y e (ground (arith, lags))
        | inr settled ↦
            loads (looking n) (answered n) (le, done) (inl (inr refl)) f' y e
              (ground (arith, settled))
      ]
  frontier_access-Moved (scanning helps start end) f' y s e = scanned helps start end f' y s e
  frontier_access-Moved (raising helps start end) f' y s e = raised helps start end f' y s e
