-- ===== src/Revm/Sample.antt =====
-- Account types that meet the laws, for the tests: a balance and a nonce, and a journal account that is
-- touched or not.
use grevm.Prelude.{ℕ, Bool, true, false, refl, none, List, []}
use grevm.Revm.{Accounts}

pub record Info : Type 0 where
  pub funds : ℕ
  pub count : ℕ

pub record Entry : Type 0 where
  pub after : Info
  pub touched : Bool
  pub slots : List (ℕ × ℕ)

abbrev pub sample : Accounts
sample = record {
  AccountInfo = Info;
  Account = Entry;
  Bytecode = ℕ;
  default_info = record { funds = 0; count = 0 };
  balance = λ a. a.funds;
  nonce = λ a. a.count;
  code_hash = λ a. 0;
  is_empty_code_hash = λ a. true;
  code = λ a. none;
  set_code = λ a c. a;
  set_balance = λ a v. record a { funds = v };
  is_touched = λ a. a.touched;
  is_selfdestructed = λ a. false;
  is_created = λ a. false;
  is_empty = λ a. false;
  info = λ a. a.after;
  changed_storage_slots = λ a. a.slots;
  touched_account = λ a. record { after = a; touched = true; slots = [] };
  info-touched_account = λ a. refl;
  is_touched-touched_account = λ a. refl;
  balance-set_balance = λ a v. refl;
  nonce-set_balance = λ a v. refl;
}

abbrev pub funded : ℕ → Info
funded n = record { funds = n; count = 0 }
