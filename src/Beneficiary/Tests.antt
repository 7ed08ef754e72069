-- ===== src/Beneficiary/Tests.antt =====
-- Runs of the beneficiary history, after the unit tests of src/beneficiary/history.rs.
use grevm.Prelude.{
  ℕ, ◌-◌, ◌≡◌, ◌^◌, Bool, true, false, Option, none, some, [], ◌∷◌, refl, arith, ◌==◌,
  if◌then◌else◌, put, ◌>>=◌,
}
use grevm.Revm.Sample.{Info, sample, funded}
use grevm.Model.{TxVersion, ok}
use grevm.Beneficiary.{
  Effect, unchanged, reward, estimate, exact, History, Read, new, resolve_before, validate,
  record_execution, record_effect, invalidate,
}
use grevm.Beneficiary.Sequential.{replay, resolve_before-replay}
use grevm.Beneficiary.Freshness.{same, more, records, validate-resolve_before}

abbrev version : ℕ → ℕ → TxVersion
version txid incarnation = record { txid = txid; incarnation = incarnation }

abbrev rewarded : History Info
rewarded = record {
  block_anchor = some (funded 10);
  entries = record {
    len = 3;
    at = λ w.
        if w == 0
        then record { incarnation = 1; value = exact (reward 2) }
        else (if w == 1
            then record { incarnation = 1; value = exact (reward 3) }
            else record { incarnation = 0; value = estimate });
  };
}

-- `reward_chain_resolves_from_anchor_and_records_every_origin`
built : Option (History Info × Bool)
unfolding record_execution new
built = do
  (h, _) ← record_execution sample (new (some (funded 10)) 3) (version 0 1) (some 2) none
  record_execution sample h (version 1 1) (some 3) none

built_read :
    (built >>= λ h. resolve_before sample h.0 2)
    ≡ some (ok (record { account = some (funded 15); version = version 1 1 ∷ version 0 1 ∷ [] }))
unfolding built resolve_before
built_read = refl

-- `retry_replaces_write_and_stale_record_or_invalidation_cannot_win`
retried : Option (Bool × Bool × Bool × Bool)
unfolding record_execution new invalidate
retried = do
  (h, a) ← record_execution sample (new (some (funded 10)) 1) (version 0 1) (some 4) none
  (h, b) ← invalidate h (version 0 1)
  (h, _) ← record_execution sample h (version 0 2) (some 7) none
  (h, c) ← record_execution sample h (version 0 1) (some 100) none
  (h, d) ← invalidate h (version 0 1)
  some (a, b, c, d)

retried_test : retried ≡ some (true, true, false, false)
unfolding retried
retried_test = refl

-- `reward_overflow_is_evaluated_in_transaction_order`
overflow :
    resolve_before sample
      (record {
        block_anchor = some (funded (2 ^ 256 - 2));
        entries = record {
          len = 2;
          at = λ w. record { incarnation = 1; value = exact (reward (if w == 0 then 2 else 1)) };
        };
      })
      2
    ≡ some (
        ok (record {
          account = some (funded (2 ^ 256 - 1));
          version = version 1 1 ∷ version 0 1 ∷ [];
        }))
unfolding resolve_before
overflow = refl

effects : ℕ → Effect Info
effects w = if w == 0 then reward 2 else reward 3

resolve_before-replay_example :
    (r : Read Info) × (resolve_before sample rewarded 2 ≡ some (ok r))
    × (r.account ≡ replay sample effects (some (funded 10)) 2)
unfolding effects
resolve_before-replay_example =
    resolve_before-replay sample rewarded effects 2 (omega arith) (λ w lt. ground arith)

abbrev fifteen : Read Info
fifteen = record { account = some (funded 15); version = version 1 1 ∷ version 0 1 ∷ [] }

-- Transaction 2 has published in the meantime.
abbrev overtaken : History Info
overtaken = record rewarded {
  entries = put rewarded.entries 2 (record { incarnation = 1; value = exact unchanged });
}

validate-resolve_before_example : resolve_before sample overtaken 2 ≡ some (ok fifteen)
unfolding resolve_before validate record_effect
validate-resolve_before_example =
    validate-resolve_before sample rewarded overtaken 2 fifteen
      (record { valid = true; dependency = some 1 })
      (more same (records (version 2 1) (exact unchanged) true refl)) refl refl refl
