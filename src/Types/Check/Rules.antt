-- ===== src/Types/Check/Rules.antt =====
-- The parts of the type checker that do not visit expressions: literals, fields, the operators and the
-- patterns of crates/ontixa-types/src/check.rs.
use ontixa.Prelude.{
  ℕ, ◌-◌, ◌^◌, Bool, true, false, not, ◌&&◌, ◌||◌, Option, none, some, leb, if◌then◌else◌,
}
use ontixa.Prelude.Int.{ℤ, pos, negsuc}
use ontixa.Source.Span.{Span}
use ontixa.Types.Ty.{Ty, ElemTy, is_integer, is_numeric, same_ty, compatible}
use ontixa.Hir.{HirExpr, HirExprKind, Literal, node, present}
use ontixa.Mir.{BinOp, UnOp}
use ontixa.Types.Check.State.{
  type_mismatch, internal, unsupported_operation, literal_overflow, M, ◌>>=◌, pure, get_local, fail,
}

-- A signed range of `b` bits.
unfoldable fits_signed : ℕ → ℤ → Bool
fits_signed b (pos n) = leb n (2 ^ (b - 1) - 1)
fits_signed b (negsuc n) = leb n (2 ^ (b - 1) - 1)

unfoldable fits_unsigned : ℕ → ℤ → Bool
fits_unsigned b (pos n) = leb n (2 ^ b - 1)
fits_unsigned b (negsuc n) = false

unfoldable pub int_fits : ℤ → Ty → Bool
unfolding fits_signed fits_unsigned
int_fits v Ty.i8 = fits_signed 8 v
int_fits v Ty.i16 = fits_signed 16 v
int_fits v Ty.i32 = fits_signed 32 v
int_fits v Ty.i64 = fits_signed 64 v
int_fits v Ty.isize = fits_signed 64 v
int_fits v Ty.u8 = fits_unsigned 8 v
int_fits v Ty.u16 = fits_unsigned 16 v
int_fits v Ty.u32 = fits_unsigned 32 v
int_fits v Ty.u64 = fits_unsigned 64 v
int_fits v Ty.usize = fits_unsigned 64 v
int_fits v _ = true

-- `Some(t) if t.is_integer() => t, _ => I32`
unfoldable pub int_ty : Option Ty → Ty
unfolding is_integer
int_ty none = Ty.i32
int_ty (some t) = if is_integer t then t else Ty.i32

unfoldable pub float_ty : Option Ty → Ty
float_ty (some Ty.f32) = Ty.f32
float_ty _ = Ty.f64

unfoldable pub literal_ty : Literal → Option Ty → Span → M Ty
unfolding int_fits int_ty float_ty pure fail
literal_ty (Literal.int v) expected at =
    if int_fits v (int_ty expected) then pure (int_ty expected) else fail literal_overflow at
literal_ty (Literal.float bits) expected at = pure (float_ty expected)
literal_ty (Literal.str text) expected at = pure Ty.str
literal_ty (Literal.char c) expected at = pure Ty.char
literal_ty (Literal.bool b) expected at = pure Ty.bool

abbrev pub or_untyped : Span → Option Ty → M Ty
or_untyped at none = fail internal at
or_untyped at (some t) = pure t

-- A `Var`, and the base of an assignment.
unfoldable pub var_ty : ℕ → Span → M Ty
unfolding ◌>>=◌ get_local fail pure
var_ty sym at = get_local sym >>= or_untyped at

-- The arms of a `match` on a type.
pub data TyView : Type 0 where
  text other broken : TyView
  array_of : ElemTy → TyView
  data_of : ℕ → TyView

unfoldable pub view : Ty → TyView
view Ty.str = text
view (Ty.array e) = array_of e
view (Ty.struct d) = data_of d
view Ty.poison = broken
view _ = other

-- `expected.filter(|t| t.is_numeric())`
unfoldable pub numeric_context : Option Ty → Option Ty
unfolding is_numeric
numeric_context none = none
numeric_context (some t) = if is_numeric t then some t else none

pub data OpClass : Type 0 where
  arithmetic equality order logic : OpClass

unfoldable pub class_of : BinOp → OpClass
class_of BinOp.add = arithmetic
class_of BinOp.sub = arithmetic
class_of BinOp.mul = arithmetic
class_of BinOp.div = arithmetic
class_of BinOp.rem = arithmetic
class_of BinOp.eq = equality
class_of BinOp.ne = equality
class_of BinOp.lt = order
class_of BinOp.le = order
class_of BinOp.gt = order
class_of BinOp.ge = order
class_of BinOp.and = logic
class_of BinOp.or = logic

unfoldable pub is_add : BinOp → Bool
is_add BinOp.add = true
is_add _ = false

unfoldable pub operand_context : BinOp → Option Ty → Option Ty
unfolding class_of numeric_context
operand_context op expected = elim (class_of op) [
  | arithmetic ↦ numeric_context expected
  | _ ↦ none
]

unfoldable is_peer : OpClass → Bool
is_peer logic = false
is_peer _ = true

unfoldable is_number : Literal → Bool
is_number (Literal.int v) = true
is_number (Literal.float b) = true
is_number _ = false

unfoldable number_node : HirExpr → Bool
unfolding is_number
number_node (node i at (HirExprKind.literal l)) = is_number l
number_node _ = false

unfoldable numeric_literal_operand : HirExpr → Bool
unfolding number_node
numeric_literal_operand (node i at (HirExprKind.unary UnOp.neg e)) = number_node e
numeric_literal_operand e = number_node e

unfoldable context_independent_peer : HirExpr → Bool
unfolding class_of
context_independent_peer (node i at (HirExprKind.var x)) = true
context_independent_peer (node i at (HirExprKind.call d es)) = true
context_independent_peer (node i at (HirExprKind.field e n f)) = true
context_independent_peer (node i at (HirExprKind.index e k)) = true
context_independent_peer (node i at (HirExprKind.len e)) = true
context_independent_peer (node i at (HirExprKind.block ss (present t))) = context_independent_peer t
context_independent_peer (node i at (HirExprKind.unary UnOp.neg e)) = context_independent_peer e
context_independent_peer (node i at (HirExprKind.binary op l r)) =
    let left = context_independent_peer l in elim (class_of op) [ arithmetic ↦ left | _ ↦ false ]
context_independent_peer _ = false

abbrev is_none : Option Ty → Bool
is_none none = true
is_none (some t) = false

-- The right operand is checked first.
unfoldable pub peer_first : BinOp → HirExpr → HirExpr → Option Ty → Bool
unfolding operand_context is_peer numeric_literal_operand context_independent_peer
peer_first op l r expected =
    is_none (operand_context op expected)
    && (is_peer (class_of op) && (numeric_literal_operand l && context_independent_peer r))

-- The report of two operands, unless one is poison.
unfoldable pub reject : Ty → Ty → Span → M Ty
unfolding same_ty compatible pure fail
reject l r at =
    if same_ty l Ty.poison || same_ty r Ty.poison
    then pure Ty.poison
    else fail (if compatible l r then unsupported_operation else type_mismatch) at

unfoldable pub arithmetic_ty : BinOp → Ty → Ty → Span → M Ty
unfolding is_numeric is_add reject
arithmetic_ty op l r at =
    if is_numeric l && compatible l r
    then pure l
    else (if is_add op && (same_ty l Ty.str && same_ty r Ty.str)
        then pure Ty.str
        else reject l r at)

unfoldable pub is_comparable : Ty → Bool
unfolding is_numeric same_ty
is_comparable t = is_numeric t || (same_ty t Ty.bool || (same_ty t Ty.str || same_ty t Ty.char))

unfoldable pub is_ordered : Ty → Bool
unfolding is_numeric same_ty
is_ordered t = is_numeric t || (same_ty t Ty.str || same_ty t Ty.char)

unfoldable pub equality_ty : Ty → Ty → Span → M Ty
unfolding is_comparable
equality_ty l r at =
    if not (compatible l r)
    then fail type_mismatch at
    else (if not (same_ty l Ty.poison) && not (is_comparable l)
        then fail unsupported_operation at
        else pure Ty.bool)

unfoldable pub order_ty : Ty → Ty → Span → M Ty
unfolding is_ordered reject
order_ty l r at = if is_ordered l && compatible l r then pure Ty.bool else reject l r at

unfoldable pub logic_ty : Ty → Ty → Span → M Ty
logic_ty l r at =
    if same_ty l Ty.bool && same_ty r Ty.bool
    then pure Ty.bool
    else (if same_ty l Ty.poison || same_ty r Ty.poison
        then pure Ty.poison
        else fail type_mismatch at)

unfoldable pub operator_ty : BinOp → Ty → Ty → Span → M Ty
unfolding class_of arithmetic_ty equality_ty order_ty logic_ty
operator_ty op l r at = elim (class_of op) [
  | arithmetic ↦ arithmetic_ty op l r at
  | equality ↦ equality_ty l r at
  | order ↦ order_ty l r at
  | logic ↦ logic_ty l r at
]
