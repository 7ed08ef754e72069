-- ===== src/Model.antt =====
-- src/model.rs: the data that the parts of the scheduler share. `TxId` and incarnations are `usize`.
use grevm.Prelude.{ℕ, Option}

pub data TransactionStatus : Type 0 where
  initial executing executed validating unconfirmed conflict finality : TransactionStatus

pub record TxState : Type 0 where
  pub status : TransactionStatus
  pub incarnation : ℕ
  pub dependency : Option ℕ

pub record TxVersion : Type 0 where
  pub txid : ℕ
  pub incarnation : ℕ

pub data Task : Type 0 where
  execution : TxVersion → Task
  validation : TxVersion → Task

-- `Result`, with what went wrong first.
pub data Result {ℓ κ} (E : Type ℓ) (A : Type κ) : Type (ℓ ⊔ κ) where
  ok : A → Result E A
  err : E → Result E A

abbrev pub map_ok {ℓ κ ι} :
    {E : Type ℓ} {A : Type κ} {B : Type ι} → (A → B) → Result E A → Result E B
map_ok f (ok a) = ok (f a)
map_ok f (err e) = err e
