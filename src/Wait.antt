-- ===== src/Wait.antt =====
-- src/scheduler/wait.rs: the notification slot of a coordinator thread. A thread has one token, which
-- `unpark` puts down and `park` takes.
pub mod Wakeup
mod Tests
use grevm.Prelude.{Bool, true, false, Option, none, some, if◌then◌else◌}

-- The slot of a thread that is registered or not, with the thread's token.
pub record WaitSlot : Type 0 where
  pub registered : Bool
  pub token : Bool

abbrev pub new_slot : WaitSlot
new_slot = record { registered = false; token = false }

-- A second registration is a failed expectation.
pub register_current_thread : WaitSlot → Option WaitSlot
register_current_thread slot =
    if slot.registered then none else some (record slot { registered = true })

unfoldable pub notify : WaitSlot → WaitSlot
notify slot = if slot.registered then record slot { token = true } else slot

-- Where the thread is in `wait_while`: before it, after a first check that found it blocked, after a
-- second one, or parked.
pub data Phase : Type 0 where
  outside yielded parking parked : Phase

unfoldable pub first_check : Bool → Phase
first_check blocked = if blocked then yielded else outside

unfoldable pub second_check : Bool → Phase
second_check blocked = if blocked then parking else outside

-- `park_timeout` returns at once with the token, or blocks.
unfoldable pub park : WaitSlot → WaitSlot × Phase
park slot = if slot.token then (record slot { token = false }, outside) else (slot, parked)
