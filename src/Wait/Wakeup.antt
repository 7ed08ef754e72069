-- ===== src/Wait/Wakeup.antt =====
-- src/scheduler/wait.rs: notifications that race with a wait.
use grevm.Prelude.{◌≡◌, ◌⊎◌, inl, inr, Bool, true, false, refl, arith}
use grevm.Wait.{
  WaitSlot, notify, Phase, outside, yielded, parking, parked, first_check, second_check, park,
}

-- A waiting thread and those that unblock it. `owed` says that a thread has changed what the predicate
-- reads, and has not notified yet.
pub record Waiting : Type 0 where
  pub slot : WaitSlot
  pub phase : Phase
  pub blocked : Bool
  pub owed : Bool

-- One access of a thread. The waiter also returns without a token, at the timeout or spuriously.
pub data Step : Waiting → Waiting → Type 0 where
  checks : (w : Waiting) → w.phase ≡ outside → Step w (record w { phase = first_check w.blocked })
  checks_again :
      (w : Waiting) → w.phase ≡ yielded → Step w (record w { phase = second_check w.blocked })
  parks :
      (w : Waiting)
      → w.phase ≡ parking
      → Step w (record w { slot = (park w.slot).0; phase = (park w.slot).1 })
  wakes :
      (w : Waiting)
      → w.phase ≡ parked
      → w.slot.token ≡ true
      → Step w (record w { slot = (park w.slot).0; phase = (park w.slot).1 })
  times_out : (w : Waiting) → w.phase ≡ parked → Step w (record w { phase = outside })
  -- the predicate becomes false, by a thread that notifies afterwards
  unblocks : (w : Waiting) → Step w (record w { blocked = false; owed = true })
  -- the predicate becomes true again, by the waiter's own progress
  blocks : (w : Waiting) → w.phase ≡ outside → Step w (record w { blocked = true })
  notifies : (w : Waiting) → Step w (record w { slot = notify w.slot; owed = false })

-- The waiter's thread is registered before its first wait.
pub data Reach : Waiting → Type 0 where
  start :
      (token blocked : Bool)
      → Reach (record {
        slot = record { registered = true; token = token };
        phase = outside;
        blocked = blocked;
        owed = false;
      })
  step : {w w' : Waiting} → Reach w → Step w w' → Reach w'

-- A thread that is about to park, or parked, is blocked, or will be notified, or has its token.
pub record Inv (w : Waiting) : Type 0 where
  pub registered : w.slot.registered ≡ true
  pub awake :
      (w.phase ≡ parking) ⊎ (w.phase ≡ parked)
      → (w.blocked ≡ true) ⊎ ((w.owed ≡ true) ⊎ (w.slot.token ≡ true))

Step-Inv : {w w' : Waiting} → Step w w' → Inv w → Inv w'
unfolding first_check second_check park notify
Step-Inv (checks w outside_now) i = record {
  registered = i.registered;
  awake = λ at. ground (arith, at);
}
Step-Inv (checks_again w at_yield) i = record {
  registered = i.registered;
  awake = λ at. ground (arith, at);
}
Step-Inv (parks w at_parking) i = record {
  registered = ground (arith, i.registered);
  awake = λ at. ground (arith, at, at_parking, i.awake (inl at_parking));
}
Step-Inv (wakes w at_parked has) i = record {
  registered = ground (arith, i.registered);
  awake = λ at. ground (arith, at, has);
}
Step-Inv (times_out w at_parked) i = record {
  registered = i.registered;
  awake = λ at. ground (arith, at);
}
Step-Inv (unblocks w) i = record { registered = i.registered; awake = λ at. inr (inl refl) }
Step-Inv (blocks w outside_now) i = record { registered = i.registered; awake = λ at. inl refl }
Step-Inv (notifies w) i = record {
  registered = ground (arith, i.registered);
  awake = λ at. inr (inr (ground (arith, i.registered)));
}

Reach-Inv : {w : Waiting} → Reach w → Inv w
Reach-Inv (start token blocked) = record { registered = refl; awake = λ at. ground (arith, at) }
Reach-Inv (step r s) = Step-Inv s (Reach-Inv r)

-- In any interleaving of a registered thread's waits with threads that make its predicate false and
-- then notify it, the thread is never parked without its token while its predicate is false and no
-- notification is outstanding: the next step of a parked thread then returns from the park.
pub Reach-wakes :
    (w : Waiting)
    → Reach w
    → w.phase ≡ parked
    → w.blocked ≡ false
    → w.owed ≡ false
    → (park w.slot).1 ≡ outside
unfolding park
Reach-wakes w r at_parked unblocked settled =
    ground (arith, (Reach-Inv r).awake (inr at_parked), unblocked, settled)
