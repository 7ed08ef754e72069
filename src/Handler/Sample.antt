-- ===== src/Handler/Sample.antt =====
-- The handler's parameters for the tests. A delegated account 1 has 20. State 1 has spent 5 of it, the
-- states 2 and 3 have spent 15 and 16; state 0 is the checkpoint.
use grevm.Prelude.{
  ℕ, ◌+◌, ◌-◌, ◌≡◌, none, some, [], ◌∷◌, true, false, ◌==◌, if◌then◌else◌, Option, arith,
}
use grevm.Model.{Result, ok, err, map_ok}
use grevm.Scheduler.Sample.{numbers}
use grevm.Reserve.Journal.{balance_transfer, call}
use grevm.Reward.Sample.{counting}
use grevm.Handler.{Hooks, ◌>>=◌}
use grevm.Handler.Run.{Driver, IsFaithful}
use grevm.Handler.Deferral.{bind-ok}

abbrev pub spent : ℕ → ℕ
spent s = if s == 0 then 0 else (if s == 1 then 5 else 13 + s)

abbrev pub hooks : Hooks numbers
hooks = record {
  context = counting;
  FrameResult = ℕ;
  InitGas = ℕ;
  ResultGas = ℕ;
  Refund = ℕ;
  Checkpoint = ℕ;
  validate_and_deduct = λ s init. ok (s, init);
  load_accounts = λ s. ok s;
  apply_auth_list = λ s init. ok (s, init, 0);
  checkpoint = λ s. (s, 0);
  checkpoint_revert = λ c s. 0;
  checkpoint_commit = λ s. s;
  journal_i = λ c. 0;
  journal = λ s. if s == 0 then [] else balance_transfer 1 2 (spent s) ∷ [];
  accounts =
      λ s a. if a == 1 then some (record { balance = 20 - spent s; is_eip7702 = true }) else none;
  root_tx = λ s. record { caller = 1; value = 0; kind = call 2 };
  is_create = λ s. false;
  bump_nonce = λ s. ok s;
  gas = λ frame. frame;
  is_halt = λ frame. false;
  violation_result = λ gas. gas;
  refund = λ s frame r. frame + r;
  build_result_gas = λ halt gas init. gas + init;
  check_gas_floor = λ s frame init. frame;
  reimburse_caller = λ s frame. ok s;
}

-- It executes to a frame of 11, and to that number.
abbrev pub after_reward : ℕ × Option ℕ → ℕ × ℕ × Option ℕ
after_reward (s, reward) = (s, 11, reward)

abbrev pub after_post : ℕ × ℕ × ℕ × Option ℕ → ℕ × ℕ × Option ℕ
after_post (s, frame, gas, reward) = (s, frame, reward)

abbrev pub driver : Driver hooks ℕ
driver = record {
  run_reward = λ hook s. some (map_ok after_reward (hook s 11));
  run_around = λ pre post s. (do
    (s₁, init, refund, c) ← pre s 5
    (s₂, frame, gas, reward) ← post s₁ 11 init refund (some c)
    some (ok (s₂, frame, reward)));
}

rewarded :
    (r : Result ℕ (ℕ × Option ℕ)) (t result reward : ℕ)
    → map_ok after_reward r ≡ ok (t, result, some reward)
    → r ≡ ok (t, some reward)
rewarded (err e) t result reward h = absurd (ground (arith, h))
rewarded (ok (s, r)) t result reward h = ground (arith, h)

pub driver-IsFaithful : IsFaithful numbers hooks ℕ driver
driver-IsFaithful = record {
  from_reward = λ hook s t result reward h.
      (s, t, 11, rewarded (hook s 11) t result reward (ground (arith, h)));
  from_post = λ pre post s t result reward h.
      let ((s₁, init, refund, c), p, q) = bind-ok (pre s 5) _ (t, result, some reward) h in
      let ((s₂, frame, gas, r), p₂, q₂) =
        bind-ok (post s₁ 11 init refund (some c)) _ (t, result, some reward) q in
      (s₁, s₂, 11, frame, init, refund, some c, gas, ground (arith, p₂, q₂));
}
