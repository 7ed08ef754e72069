-- ===== src/Wait/Tests.antt =====
-- A notification that arrives after the second check, and one while the thread is parked.
use grevm.Prelude.{◌≡◌, Bool, true, false, refl}
use grevm.Wait.{Phase, outside, yielded, parking, parked, first_check, second_check, park, notify}
use grevm.Wait.Wakeup.{
  Waiting, Reach, start, step, checks, checks_again, parks, unblocks, notifies, Reach-wakes,
}

-- Registered, with or without the token.
abbrev at : Phase → Bool → Bool → Bool → Waiting
at phase token blocked owed = record {
  slot = record { registered = true; token = token };
  phase = phase;
  blocked = blocked;
  owed = owed;
}

parked-Reach : Reach (at parked false true false)
unfolding first_check second_check park
parked-Reach =
    step
      (step (step (start false true) (checks (at outside false true false) refl))
        (checks_again (at yielded false true false) refl))
      (parks (at parking false true false) refl)

notified-Reach : Reach (at parked true false false)
unfolding notify
notified-Reach =
    step (step parked-Reach (unblocks (at parked false true false)))
      (notifies (at parked false false true))

Reach-wakes_example : (park (at parked true false false).slot).1 ≡ outside
Reach-wakes_example = Reach-wakes (at parked true false false) notified-Reach refl refl refl
