-- ===== src/Types/Check/Steps.antt =====
-- The steps of the walk between visits: results, joins and reports of the methods of `Checker` in
-- crates/ontixa-types/src/check.rs.
use ontixa.Prelude.{
  ℕ, suc, Bool, true, false, not, ◌||◌, List, [], ◌∷◌, Option, none, some, length, get_elem?, ◌==◌,
  if◌then◌else◌,
}
use ontixa.Source.Span.{Span}
use ontixa.Types.Ty.{Ty, ElemTy, TypeRef, ty, elem, from_ref, is_integer, same_ty, compatible}
use ontixa.Types.Scope.{ModuleScope, DataShape, FieldDef, VariantDef, is_enum, is_len}
use ontixa.Hir.{
  HirExpr, HirExprKind, HirExprs, HirOption, FnSig, ParamDef, Name, node, nil, cons, absent,
  present, span_of,
}
use ontixa.Types.Check.State.{
  Code, type_mismatch, cannot_infer, unsupported_operation, arg_count, duplicate_field,
  unreachable_arm, is_len_node, field_at, M, ◌>>=◌, ◌>>◌, pure, report, crash, get_types,
  resolve_node, set_slots, fail, unify,
}
use ontixa.Types.Check.Complete.{can_complete}
use ontixa.Types.Check.Rules.{view, text, array_of}
use ontixa.Types.Check.Access.{field_ty, field_index_of, is_integral, check_missing}

abbrev pub or_unit : Option Ty → Ty
or_unit none = Ty.unit
or_unit (some t) = t

-- `Option::or`
abbrev pub or_else : Option Ty → Option Ty → Option Ty
or_else none o = o
or_else (some t) o = some t

abbrev is_absent : HirOption → Bool
is_absent absent = true
is_absent (present e) = false

unfoldable pub is_literal : HirOption → Bool
is_literal (present (node i at (HirExprKind.literal l))) = true
is_literal _ = false

unfoldable pub is_range : HirExpr → Bool
is_range (node i at (HirExprKind.range lo hi)) = true
is_range _ = false

-- The arm of `Field`: a length, or a field whose index goes into the node.
unfoldable pub is_length : ModuleScope → Ty → Name → Bool
unfolding is_len view
is_length m t n = elim (view t) [ text ↦ is_len m n.id | array_of e ↦ is_len m n.id | _ ↦ false ]

abbrev pub note_field : ModuleScope → ℕ → Ty → Name → Option Ty → M Ty
note_field m id t n none = pure Ty.poison
note_field m id t n (some f) = resolve_node id (field_at (field_index_of m t n.id)) >> pure f

unfoldable pub field_node : ModuleScope → ℕ → Name → Ty → M Ty
unfolding ◌>>=◌ ◌>>◌ is_length resolve_node field_index_of field_ty pure
field_node m id n t =
    if is_length m t n
    then (resolve_node id is_len_node >> pure Ty.i32)
    else (field_ty m t n >>= note_field m id t n)

unfoldable pub check_index : Ty → Code → Span → M Bool
unfolding is_integral ◌>>◌ report pure
check_index t code at = if is_integral t then pure true else (report code at >> pure false)

-- The state of the loop over the bounds of a range.
abbrev pub Bounds : Type 0
Bounds = Option Ty × Bool

unfoldable pub add_bound : Span → Span → Bounds → Ty → M Bounds
unfolding ◌>>◌ same_ty is_integer report pure
add_bound at_bound at (found, ok) t =
    if same_ty t Ty.poison
    then pure (found, false)
    else (if is_integer t
        then elim found [
          | none ↦ pure (some t, ok)
          | some e ↦
              if same_ty e t
              then pure (some e, ok)
              else (report type_mismatch at >> pure (some e, false))
        ]
        else (report type_mismatch at_bound >> pure (found, false)))

abbrev pub range_elem : Bounds → M Ty
range_elem (none, true) = pure Ty.i32
range_elem (some t, true) = pure t
range_elem (o, false) = pure Ty.poison

unfoldable pub check_end : HirOption → Span → M Bounds
unfolding ◌>>◌ report pure
check_end hi at =
    if is_absent hi
    then (report unsupported_operation at >> pure (none, false))
    else pure (none, true)

-- One element of an array literal.
unfoldable pub add_elem : Span → Bounds → Ty → M Bounds
unfolding ◌>>◌ compatible report pure
add_elem at (none, ok) t = pure (some t, ok)
add_elem at (some e, ok) t =
    if compatible e t then pure (some e, ok) else (report type_mismatch at >> pure (some e, false))

unfoldable pub expected_elem : Option Ty → Option Ty
unfolding view ty
expected_elem none = none
expected_elem (some t) = elim (view t) [ array_of e ↦ some (ty e) | _ ↦ none ]

abbrev pub array_of_elem : Option ElemTy → Span → M Ty
array_of_elem none at = fail unsupported_operation at
array_of_elem (some e) at = pure (Ty.array e)

abbrev pub is_poison : Option Ty → Bool
is_poison none = false
is_poison (some t) = same_ty t Ty.poison

unfoldable pub array_result : Option Ty → Span → Bounds → M Ty
unfolding elem same_ty fail pure
array_result expected at (none, ok) =
    if is_poison expected then pure Ty.poison else fail cannot_infer at
array_result expected at (some t, ok) =
    if not ok || same_ty t Ty.poison then pure Ty.poison else array_of_elem (elem t) at

abbrev pub param_types : List ParamDef → List Ty
param_types [] = []
param_types (p ∷ ps) = from_ref p.ty ∷ param_types ps

abbrev pub payload_types : List TypeRef → List Ty
payload_types [] = []
payload_types (t ∷ ts) = from_ref t ∷ payload_types ts

unfoldable pub arity : HirExprs → ℕ
arity nil = 0
arity (cons e es) = suc (arity es)

unfoldable pub check_arity : HirExprs → List Ty → Span → M (Unit {0})
unfolding arity report pure
check_arity es ts at = if arity es == length ts then pure tt else report arg_count at

-- The result of an `if` from those of its branches.
unfoldable pub join_branches : ModuleScope → HirExpr → HirExpr → Option Ty → Span → Ty → Ty → M Ty
unfolding ◌>>=◌ get_types can_complete unify pure
join_branches m t e expected at then_ty else_ty = get_types >>= λ types.
    if can_complete m types t
    then (if can_complete m types e then unify else_ty then_ty at else pure then_ty)
    else (if can_complete m types e then pure else_ty else pure (or_unit expected))

-- A block without a tail.
unfoldable pub tailless : ModuleScope → HirExpr → Option Ty → M Ty
unfolding ◌>>=◌ get_types can_complete pure
tailless m block expected = get_types >>= λ types.
    if can_complete m types block then pure Ty.unit else pure (or_unit expected)

abbrev pub join_result : Option Ty → Ty → Span → M (Option Ty)
join_result none t at = pure (some t)
join_result (some r) t at = unify t r at >>= λ u. pure (some u)

-- The result so far after an arm.
unfoldable pub join_arm : ModuleScope → HirExpr → Option Ty → Ty → M (Option Ty)
unfolding ◌>>=◌ get_types can_complete unify pure
join_arm m e result t = get_types >>= λ types.
    if can_complete m types e then join_result result t (span_of e) else pure result

unfoldable pub warn_dead : Bool → Span → M (Unit {0})
unfolding report pure
warn_dead dead at = if dead then report unreachable_arm at else pure tt

unfoldable pub note_duplicate : Bool → Span → M (Unit {0})
unfolding report pure
note_duplicate seen at = if seen then report duplicate_field at else pure tt

-- A binding without an annotation or an initializer.
unfoldable pub annotate : Option Ty → Option Ty → Span → Span → M Ty
unfolding unify fail pure
annotate (some a) (some i) at_init at = unify i a at_init
annotate (some a) none at_init at = pure a
annotate none (some i) at_init at = pure i
annotate none none at_init at = fail cannot_infer at

abbrev pub annotation : Option TypeRef → Option Ty
annotation none = none
annotation (some t) = some (from_ref t)

unfoldable pub empty_return : Ty → Span → M (Unit {0})
unfolding same_ty report pure
empty_return ret at =
    if same_ty ret Ty.unit || same_ty ret Ty.poison then pure tt else report type_mismatch at

unfoldable pub check_cond : Ty → Span → M (Unit {0})
unfolding same_ty report pure
check_cond t at =
    if same_ty t Ty.bool || same_ty t Ty.poison then pure tt else report type_mismatch at

abbrev pub with_field : (FieldDef → M Ty) → Option FieldDef → M Ty
with_field value none = crash Ty.poison
with_field value (some f) = value f

-- A call, over the loop over its arguments.
unfoldable pub call_ty : HirExprs → (List Ty → M (Unit {0})) → Option FnSig → Span → M Ty
unfolding ◌>>◌ check_arity crash pure from_ref
call_ty es args none at = crash Ty.poison
call_ty es args (some sig) at = do
  check_arity es (param_types sig.params) at
  args (param_types sig.params)
  pure (from_ref sig.ret)

unfoldable pub variant_args_ty :
    HirExprs → (List Ty → M (Unit {0})) → ℕ → Option VariantDef → Span → M Ty
unfolding ◌>>◌ check_arity pure
variant_args_ty es args d none at = pure (Ty.struct d)
variant_args_ty es args d (some v) at = do
  check_arity es (payload_types v.payload) at
  args (payload_types v.payload)
  pure (Ty.struct d)

unfoldable pub variant_ty :
    HirExprs → (List Ty → M (Unit {0})) → ℕ → Option DataShape → ℕ → Span → M Ty
unfolding variant_args_ty crash
variant_ty es args d none v at = crash Ty.poison
variant_ty es args d (some s) v at = variant_args_ty es args d (get_elem? s.variants v) at

-- A struct literal, over the loop over its fields and that over its values.
unfoldable pub struct_ty :
    ℕ → (DataShape → M (List ℕ)) → M (Unit {0}) → ℕ → Option DataShape → Span → M Ty
unfolding ◌>>=◌ ◌>>◌ is_enum check_missing report set_slots crash pure
struct_ty id inits values d none at = crash Ty.poison
struct_ty id inits values d (some s) at =
    let enum_lit : M Ty = (do
      report unsupported_operation at
      values
      set_slots id []
      pure (Ty.struct d)) in
    let record_lit : M Ty = (do
      slots ← inits s
      check_missing 0 s.fields slots at
      set_slots id slots
      pure (Ty.struct d)) in
    if is_enum s then enum_lit else record_lit
