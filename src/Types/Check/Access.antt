-- ===== src/Types/Check/Access.antt =====
-- Fields, places, patterns and the results of operators with one operand in the type checker:
-- crates/ontixa-types/src/check.rs.
use ontixa.Prelude.{
  ℕ, suc, Bool, true, false, ◌&&◌, ◌||◌, List, [], ◌∷◌, Option, none, some, length, get_elem?, ◌==◌,
  if◌then◌else◌,
}
use ontixa.Prelude.Int.{ℤ, pos, ◌-ℤ◌}
use ontixa.Source.Span.{Span}
use ontixa.Types.Ty.{Ty, TypeRef, ty, from_ref, is_integer, is_numeric, same_ty}
use ontixa.Types.Scope.{ModuleScope, DataShape, FieldDef, VariantDef, data_shape, is_enum, is_len}
use ontixa.Hir.{HirExpr, HirExprKind, HirPlace, HirPat, Literal, Name, node}
use ontixa.Mir.{UnOp}
use ontixa.Types.Check.State.{
  Code, type_mismatch, unsupported_operation, unknown_field, not_a_struct, arg_count, internal,
  non_exhaustive, missing_field, M, ◌>>=◌, ◌>>◌, pure, report, crash, bind_local, fail,
}
use ontixa.Types.Check.Complete.{contains, add}
use ontixa.Types.Check.Rules.{view, text, other, broken, array_of, data_of, var_ty, int_fits}

-- A report with no field type.
unfoldable pub no_field : Code → Span → M (Option Ty)
unfolding ◌>>◌ report pure
no_field code at = report code at >> pure none

-- The type of a declared field with its index, as the code that follows reads both.
unfoldable pub field_at : Option FieldDef → M (Option Ty)
unfolding crash pure from_ref
field_at none = crash none
field_at (some f) = pure (some (from_ref f.ty))

unfoldable pub indexed_field : DataShape → Option ℕ → Span → M (Option Ty)
unfolding field_at no_field
indexed_field s none at = no_field unknown_field at
indexed_field s (some i) at = field_at (get_elem? s.fields i)

unfoldable pub shape_field : Option DataShape → Name → M (Option Ty)
unfolding indexed_field crash
shape_field none n = crash none
shape_field (some s) n = indexed_field s (s.field_index n.id) n.span

-- `len` of a text or an array reads, but is no place.
unfoldable pub len_field : Bool → Name → M (Option Ty)
unfolding no_field
len_field named_len n = no_field (if named_len then unsupported_operation else not_a_struct) n.span

unfoldable pub field_ty : ModuleScope → Ty → Name → M (Option Ty)
unfolding view shape_field len_field is_len data_shape no_field pure
field_ty m t n = elim (view t) [
  | broken ↦ pure none
  | text ↦ len_field (is_len m n.id) n
  | array_of e ↦ len_field (is_len m n.id) n
  | data_of d ↦ shape_field (data_shape m d) n
  | other ↦ no_field not_a_struct n.span
]

abbrev index_in : Option DataShape → ℕ → Option ℕ
index_in none name = none
index_in (some s) name = s.field_index name

unfoldable pub field_index_of : ModuleScope → Ty → ℕ → Option ℕ
unfolding view data_shape
field_index_of m t name = elim (view t) [ data_of d ↦ index_in (data_shape m d) name | _ ↦ none ]

abbrev pub or_poison : (Ty → M Ty) → Option Ty → M Ty
or_poison k none = pure Ty.poison
or_poison k (some t) = k t

-- The loop over the fields of a place.
unfoldable pub fields_ty : ModuleScope → List Name → Ty → M Ty
unfolding ◌>>=◌ field_ty pure
fields_ty m [] t = pure t
fields_ty m (n ∷ ns) t = field_ty m t n >>= or_poison (fields_ty m ns)

unfoldable pub place_ty : ModuleScope → HirPlace → M Ty
unfolding ◌>>=◌ var_ty fields_ty
place_ty m p = var_ty p.base p.span >>= fields_ty m p.fields

unfoldable pub is_integral : Ty → Bool
unfolding is_integer same_ty
is_integral t = is_integer t || same_ty t Ty.poison

-- What an index or a slice gives, and what a loop variable is.
unfoldable pub indexed_ty : Ty → Span → M Ty
unfolding view ty pure fail
indexed_ty b at = elim (view b) [
  | text ↦ pure Ty.str
  | array_of e ↦ pure (ty e)
  | broken ↦ pure Ty.poison
  | _ ↦ fail unsupported_operation at
]

unfoldable pub sliced_ty : Ty → Span → M Ty
unfolding view pure fail
sliced_ty b at = elim (view b) [
  | text ↦ pure Ty.str
  | array_of e ↦ pure b
  | broken ↦ pure Ty.poison
  | _ ↦ fail unsupported_operation at
]

unfoldable pub iterated_ty : Ty → Span → M Ty
unfolding view ty pure fail
iterated_ty b at = elim (view b) [
  | array_of e ↦ pure (ty e)
  | broken ↦ pure Ty.poison
  | _ ↦ fail unsupported_operation at
]

unfoldable pub len_ty : Ty → Span → M Ty
unfolding view pure fail
len_ty b at = elim (view b) [
  | text ↦ pure Ty.i32
  | array_of e ↦ pure Ty.i32
  | broken ↦ pure Ty.poison
  | _ ↦ fail internal at
]

unfoldable pub int_literal : HirExpr → Option ℤ
int_literal (node i at (HirExprKind.literal (Literal.int v))) = some v
int_literal _ = none

unfoldable pub fold_with : Option ℤ → Option Ty → Option (ℤ × Ty)
unfolding is_integer
fold_with none expected = none
fold_with (some v) none = some (v, Ty.i32)
fold_with (some v) (some t) = if is_integer t then some (v, t) else none

-- A negated literal that is checked as one number.
unfoldable pub fold_of : UnOp → HirExpr → Option Ty → Option (ℤ × Ty)
unfolding int_literal fold_with
fold_of UnOp.neg e expected = fold_with (int_literal e) expected
fold_of UnOp.not e expected = none

unfoldable pub negated_fits : ℤ → Ty → Bool
unfolding ◌-ℤ◌ int_fits
negated_fits v t = int_fits (pos 0 -ℤ v) t

unfoldable pub unary_result : UnOp → Ty → Span → M Ty
unfolding is_numeric same_ty pure fail
unary_result UnOp.neg t at =
    if is_numeric t
    then pure t
    else (if same_ty t Ty.poison then pure Ty.poison else fail unsupported_operation at)
unary_result UnOp.not t at =
    if same_ty t Ty.bool
    then pure Ty.bool
    else (if same_ty t Ty.poison then pure Ty.poison else fail type_mismatch at)

-- The definition of an enum that a `match` selects over.
unfoldable pub enum_def : ℕ → Option DataShape → Span → M (Option ℕ)
unfolding ◌>>◌ report pure is_enum
enum_def d none at = pure none
enum_def d (some s) at =
    if is_enum s then pure (some d) else (report unsupported_operation at >> pure none)

unfoldable pub scrutinee_def : ModuleScope → Ty → Span → M (Option ℕ)
unfolding view enum_def data_shape ◌>>◌ report pure
scrutinee_def m t at = elim (view t) [
  | data_of d ↦ enum_def d (data_shape m d) at
  | broken ↦ pure none
  | _ ↦ report unsupported_operation at >> pure none
]

abbrev pub payload_ty : Option TypeRef → Ty
payload_ty none = Ty.poison
payload_ty (some t) = from_ref t

abbrev pub first : List TypeRef → Option TypeRef
first [] = none
first (t ∷ ts) = some t

abbrev pub rest : List TypeRef → List TypeRef
rest [] = []
rest (t ∷ ts) = ts

-- The bindings of a variant pattern, with the payload's types; with none, `poison_binds`.
unfoldable pub bind_payload : List (Option ℕ) → List TypeRef → M (Unit {0})
unfolding ◌>>◌ bind_local pure from_ref
bind_payload [] ts = pure tt
bind_payload (none ∷ bs) ts = bind_payload bs (rest ts)
bind_payload (some x ∷ bs) ts = bind_local x (payload_ty (first ts)) >> bind_payload bs (rest ts)

unfoldable pub bind_variant : Option VariantDef → List (Option ℕ) → Span → M (Unit {0})
unfolding ◌>>◌ bind_payload report crash pure
bind_variant none bs at = crash tt
bind_variant (some v) bs at =
    (if length bs == length v.payload then pure tt else report arg_count at)
    >> bind_payload bs v.payload

unfoldable pub shape_variant : Option DataShape → ℕ → Option VariantDef
shape_variant none v = none
shape_variant (some s) v = get_elem? s.variants v

-- A pattern against the scrutinee of type `t`.
unfoldable pub bind_pattern : ModuleScope → Ty → Option ℕ → HirPat → M (Unit {0})
unfolding ◌>>◌ bind_variant shape_variant data_shape bind_payload bind_local report pure
bind_pattern m t (some d) (HirPat.variant def v bs at) =
    if def == d
    then bind_variant (shape_variant (data_shape m d) v) bs at
    else (report type_mismatch at >> bind_payload bs [])
bind_pattern m t none (HirPat.variant def v bs at) = bind_payload bs []
bind_pattern m t d (HirPat.bind (some x) at) = bind_local x t
bind_pattern m t d (HirPat.bind none at) = pure tt
bind_pattern m t d HirPat.poison = pure tt

unfoldable pub is_covered : HirPat → List ℕ → Bool
unfolding contains
is_covered (HirPat.variant def v bs at) js = contains v js
is_covered _ js = false

unfoldable pub cover : HirPat → List ℕ → List ℕ
unfolding add
cover (HirPat.variant def v bs at) js = add v js
cover _ js = js

unfoldable pub all_covered : List VariantDef → List ℕ → Bool
unfolding contains
all_covered [] js = true
all_covered (v ∷ vs) js = contains v.index js && all_covered vs js

unfoldable pub shape_covered : Option DataShape → List ℕ → Bool
unfolding all_covered
shape_covered none js = true
shape_covered (some s) js = all_covered s.variants js

-- The report of a match that misses a variant.
unfoldable pub check_exhaustive : ModuleScope → Option ℕ → Bool → List ℕ → Span → M (Unit {0})
unfolding shape_covered data_shape report pure
check_exhaustive m none catchall js at = pure tt
check_exhaustive m (some d) catchall js at =
    if catchall || shape_covered (data_shape m d) js then pure tt else report non_exhaustive at

-- A report for each field that has no slot.
unfoldable pub check_missing : ℕ → List FieldDef → List ℕ → Span → M (Unit {0})
unfolding ◌>>◌ contains report pure
check_missing i [] slots at = pure tt
check_missing i (f ∷ fs) slots at =
    (if contains i slots then pure tt else report missing_field at)
    >> check_missing (suc i) fs slots at
