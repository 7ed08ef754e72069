-- ===== src/Reward/Tests.antt =====
-- Rewards with a base fee of 7 and a price of 10, of which one gas unit is from the reservoir.
use grevm.Prelude.{◌≡◌, none, some, refl}
use grevm.Model.{ok}
use grevm.Reward.{deferred, apply}
use grevm.Reward.Sample.{counting}
use grevm.Reward.Settlement.{Settled, apply-Settled}

left_to_commit : apply counting deferred 0 5 ≡ ok (0, some 12)
unfolding apply
left_to_commit = refl

zero_at_once : apply counting deferred 0 1 ≡ ok (1, none)
unfolding apply
zero_at_once = refl

apply-Settled_example : Settled counting 0 5 deferred (apply counting deferred 0 5)
apply-Settled_example = apply-Settled counting deferred 0 5
