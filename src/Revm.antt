-- ===== src/Revm.antt =====
-- What the code uses of revm's account types. They are a parameter of the model, `Accounts`: struct
-- fields as functions, struct updates as functions with the laws of a field write.
pub mod Sample
use grevm.Model.{Result}
use grevm.Prelude.{
  ℕ, Bool, Option, some, none, ◌≡◌, ◌^◌, ltb, ◌+◌, if◌then◌else◌, zero, suc, ◌-◌, ◌≢◌, ◌≤◌, ◌<◌,
  ◌%◌, true, false, not, ◌&&◌, ◌||◌, List, [], ◌∷◌, ◌++◌, refl, arith, Cells, Option-cases, ap, ◌∙◌,
  sym, leb, ◌==◌, ◌⊎◌, inl, inr, update, put, cell, filled, Bool-cases, ◌>>=◌, >>=-eq-some, length,
  get_elem?, length-append, contains, insert, is_none, is_some_eq, unwrap_or, is_empty, All, subst,
  map, min, max, usize_mod, usize_add, ltb→lt, lt→ltb, leb→le, ◌↔◌, ==_iff, fun_ext, cell-eq-some,
}

-- `U256` is a number below 2^256.
abbrev pub u256_mod : ℕ
u256_mod = 2 ^ 256

unfoldable pub checked_add : ℕ → ℕ → Option ℕ
checked_add a b = if ltb (a + b) u256_mod then some (a + b) else none

pub record Accounts : Type 1 where
  pub AccountInfo : Type 0
  pub Account : Type 0
  pub Bytecode : Type 0
  pub default_info : AccountInfo
  pub balance : AccountInfo → ℕ
  pub nonce : AccountInfo → ℕ
  pub code_hash : AccountInfo → ℕ
  pub is_empty_code_hash : AccountInfo → Bool
  pub code : AccountInfo → Option Bytecode
  pub set_code : AccountInfo → Option Bytecode → AccountInfo
  pub set_balance : AccountInfo → ℕ → AccountInfo
  pub is_touched : Account → Bool
  pub is_selfdestructed : Account → Bool
  pub is_created : Account → Bool
  pub is_empty : Account → Bool
  pub info : Account → AccountInfo
  -- the changed slots, with their present values
  pub changed_storage_slots : Account → List (ℕ × ℕ)
  -- `Account::from`, then `mark_touch`
  pub touched_account : AccountInfo → Account
  pub balance-set_balance : (a : AccountInfo) (v : ℕ) → balance (set_balance a v) ≡ v
  pub nonce-set_balance : (a : AccountInfo) (v : ℕ) → nonce (set_balance a v) ≡ nonce a
  pub info-touched_account : (a : AccountInfo) → info (touched_account a) ≡ a
  pub is_touched-touched_account : (a : AccountInfo) → is_touched (touched_account a) ≡ true

-- `DatabaseRef`, over addresses that the model leaves open.
pub record Database (Address : Type 0) (revm : Accounts) (E : Type 0) : Type 0 where
  pub basic_ref : Address → Result E (Option revm.AccountInfo)
  pub code_by_hash_ref : ℕ → Result E revm.Bytecode
  pub storage_ref : Address → ℕ → Result E ℕ
