-- ===== src/Mir.antt =====
-- The typed MIR: crates/ontixa-mir/src/mir.rs, with `BinOp` and `UnOp` of crates/ontixa-ast/src/ast.rs
-- and `ParamBehavior` of crates/ontixa-memory/src/behavior.rs.
-- Ids and indices (`u32` newtypes) are numbers; a text is its list of scalar values. The types and
-- symbols that `LocalDecl` and `MirBody` carry for tools are not read by the interpreter: of them
-- only how many there are is kept.
use ontixa.Prelude.{ℕ, Bool, true, false, not as Bool_not, List, [], Option, none, some, get_elem?}
use ontixa.Prelude.Int.{ℤ}

pub data BinOp : Type 0 where
  add sub mul div rem eq ne lt le gt ge and or : BinOp

pub data UnOp : Type 0 where
  neg not : UnOp

pub data ParamBehavior : Type 0 where
  copy borrow borrow_mut move escape unknown : ParamBehavior

unfoldable pub consumes_arg : ParamBehavior → Bool
consumes_arg move = true
consumes_arg escape = true
consumes_arg unknown = true
consumes_arg _ = false

unfoldable pub caller_keeps_arg : ParamBehavior → Bool
unfolding consumes_arg
caller_keeps_arg b = Bool_not (consumes_arg b)

pub record Place : Type 0 where
  pub local : ℕ
  pub proj : List ℕ

-- `Place::local`
unfoldable pub bare : ℕ → Place
bare l = record { local = l; proj = [] }

-- `F` is the type of floats.
pub data Const (F : Type 0) : Type 0 where
  int : ℤ → Const F
  float : F → Const F
  str : List ℕ → Const F
  char : ℕ → Const F
  bool : Bool → Const F
  unit : Const F

pub data Operand (F : Type 0) : Type 0 where
  const : Const F → Operand F
  place : Place → Operand F

pub data Rvalue (F : Type 0) : Type 0 where
  use_of : Operand F → Rvalue F
  binary : BinOp → Operand F → Operand F → Rvalue F
  unary : UnOp → Operand F → Rvalue F
  len : Operand F → Rvalue F
  index : Operand F → Operand F → Rvalue F
  slice : Operand F → Option (Operand F) → Option (Operand F) → Rvalue F
  array_lit : List (Operand F) → Rvalue F
  call : ℕ → List (Operand F) → List ParamBehavior → Rvalue F
  struct_lit : ℕ → List (ℕ × Operand F) → Rvalue F
  variant_lit : ℕ → ℕ → List (Operand F) → Rvalue F
  variant_payload : Operand F → ℕ → Rvalue F
  duplicate : Operand F → Rvalue F

pub data MirStmt (F : Type 0) : Type 0 where
  assign : Place → Rvalue F → MirStmt F
  eval : Rvalue F → MirStmt F

pub data Terminator (F : Type 0) : Type 0 where
  return : Operand F → Terminator F
  branch : Operand F → ℕ → ℕ → Terminator F
  goto : ℕ → Terminator F
  match : Operand F → List (ℕ × ℕ) → Option ℕ → Terminator F

pub record BasicBlock (F : Type 0) : Type 0 where
  pub stmts : List (MirStmt F)
  pub term : Terminator F

pub record MirBody (F : Type 0) : Type 0 where
  pub params : ℕ
  pub locals : ℕ
  pub blocks : List (BasicBlock F)

pub record MirModule (F : Type 0) : Type 0 where
  pub fns : List (Option (MirBody F))

unfoldable pub body : {F : Type 0} → MirModule F → ℕ → Option (MirBody F)
body m def = elim (get_elem? m.fns def) [ none ↦ none | some b ↦ b ]
