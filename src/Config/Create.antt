-- ===== src/Config/Create.antt =====
-- src/delegated_safety/instructions.rs: the guarded CREATE and CREATE2. revm's interpreter is a parameter.
use grevm.Prelude.{
  ◌≡◌, Bool, true, false, not, ◌&&◌, Option, none, some, if◌then◌else◌, arith, Bool-cases, inl, inr,
}
use grevm.Model.{Result, err}
use grevm.Config.{Specs}

-- What the instruction uses of the interpreter and the host, and revm's own instruction. The host's
-- answer for a loaded account is the coldness of its delegate, if it has one.
pub record CreateContext (specs : Specs) : Type 1 where
  pub Address : Type 0
  pub InstructionResult : Type 0
  pub state_change_during_static_call : InstructionResult
  pub not_activated : InstructionResult
  pub fatal_external_error : InstructionResult
  pub Interpreter : Type 0
  pub is_static : Bool
  pub spec_id : specs.SpecId
  pub target_address : Address
  pub load_account_delegated : Address → Option (Option Bool)
  -- `contract::create`, for CREATE and for CREATE2
  pub create : Bool → Result InstructionResult Interpreter

module _ (specs : Specs) (context : CreateContext specs) where
  open context use {InstructionResult, Interpreter}

  abbrev pub before_petersburg : Bool → Bool
  before_petersburg is_create2 =
      is_create2 && not (specs.is_enabled_in context.spec_id specs.petersburg)

  unfoldable pub guarded_create : Bool → Result InstructionResult Interpreter
  guarded_create is_create2 =
      if context.is_static
      then err context.state_change_during_static_call
      else (if before_petersburg is_create2
          then err context.not_activated
          else elim (context.load_account_delegated context.target_address) [
            | none ↦ err context.fatal_external_error
            | some (some cold) ↦ err context.not_activated
            | some none ↦ context.create is_create2
          ])

  -- revm's instruction fails in a static call, and CREATE2 is not active before Petersburg.
  pub record IsCreate : Type 0 where
    pub in_static :
        (is_create2 : Bool)
        → context.is_static ≡ true
        → context.create is_create2 ≡ err context.state_change_during_static_call
    pub not_yet :
        (is_create2 : Bool)
        → context.is_static ≡ false
        → before_petersburg is_create2 ≡ true
        → context.create is_create2 ≡ err context.not_activated

  -- With revm's CREATE failing in static calls, and its CREATE2 not activated before Petersburg: on an
  -- account that loads, the guarded instruction is revm's own unless the account is a delegated one;
  -- there it never creates, and fails as revm does in a static call, and with `NotActivated` otherwise.
  pub guarded_create-create :
      (revm : IsCreate) (is_create2 : Bool) (delegation : Option Bool)
      → context.load_account_delegated context.target_address ≡ some delegation
      → guarded_create is_create2 ≡ elim delegation [
        | none ↦ context.create is_create2
        | some cold ↦
            if context.is_static
            then err context.state_change_during_static_call
            else err context.not_activated
      ]
  unfolding guarded_create
  guarded_create-create revm is_create2 none loads = elim (Bool-cases context.is_static) [
    | inl static ↦ ground (arith, static, loads, revm.in_static is_create2 static)
    | inr mutable ↦ elim (Bool-cases (before_petersburg is_create2)) [
      | inl early ↦ ground (arith, mutable, early, loads, revm.not_yet is_create2 mutable early)
      | inr late ↦ ground (arith, mutable, late, loads)
    ]
  ]
  guarded_create-create revm is_create2 (some cold) loads = ground (arith, loads)
