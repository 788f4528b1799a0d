-- ===== src/Examples/Typing.antt =====
-- A checked body: crates/ontixa-types/src/check.rs.
use ontixa.Prelude.{
  ℕ, zero, suc, ◌≡◌, refl, sym, subst, false, [], ◌∷◌, none, some, All, get_elem?, arith,
}
use ontixa.Prelude.Int.{pos}
use ontixa.Source.Span.{Span}
use ontixa.Source.Interner.{new}
use ontixa.Types.Ty.{Ty, TypeRef, from_ref, Ty-discrete}
use ontixa.Types.Scope.{
  ModuleScope, DataShape, FieldDef, VariantDef, function, data_def, scope_sig, data_shape, is_enum,
}
use ontixa.Hir.{
  HirExprKind, HirArms, HirBody, HirPat, FnSig, Literal, node, present, done, let_then, arm,
  no_arms,
}
use ontixa.Mir.{BinOp}
use ontixa.Types.Check.Steps.{param_types}
use ontixa.Types.Check.Body.{check_body, start}
use ontixa.Types.Check.Walk.{Arms, arms_ty}
use ontixa.Types.Check.Access.{all_covered}
use ontixa.Types.Check.Complete.{covers_enum}
use ontixa.Types.Check.Coverage.{covers_enum-arms_ty}
use ontixa.Types.Check.Safe.{IsQuiet}
use ontixa.Types.Check.Proper.{IsProper, IsResolved}
use ontixa.Types.Check.Result.{params_ctx, Ends, check_body-HasType}
use ontixa.Types.Lowered.{IsLowered}
use ontixa.Types.Typing.{Ctx, HasType}

abbrev sp : Span
sp = record { start = 0; end = 1 }

-- `enum Side { Left, Right(i32) }`
abbrev left : VariantDef
left = record { payload = []; index = 0 }

abbrev right : VariantDef
right = record { payload = TypeRef.i32 ∷ []; index = 1 }

abbrev side : DataShape
side = record { fields = []; field_index = λ n. none; variants = left ∷ right ∷ [] }

-- `fn next(a: Side) -> i32 { let b = 1; match a { Left => b, Right(c) => c + b } }`
abbrev next_sig : FnSig
next_sig = record {
  params = record { symbol = 0; name = 0; mutable = false; ty = TypeRef.struct 1; span = sp } ∷ [];
  ret = TypeRef.i32;
}

abbrev scope : ModuleScope
scope = record { defs = function next_sig ∷ data_def side ∷ []; interner = new }

abbrev next_body : HirBody
next_body = record {
  root = node 0 sp (
      HirExprKind.block
        (let_then 1 none (present (node 1 sp (HirExprKind.literal (Literal.int (pos 1))))) sp done)
        (present (
          node 2 sp (
            HirExprKind.match_on (node 3 sp (HirExprKind.var 0)) (
              arm (HirPat.variant 1 0 [] sp) (node 4 sp (HirExprKind.var 1)) sp (
                arm (HirPat.variant 1 1 (some 2 ∷ []) sp)
                  (node 5 sp (
                    HirExprKind.binary BinOp.add (node 6 sp (HirExprKind.var 2))
                      (node 7 sp (HirExprKind.var 1))))
                  sp no_arms))))));
  symbol = λ x. record { name = x; mutable = false; span = sp };
}

only_sig : (d : ℕ) (s : FnSig) → scope_sig scope d ≡ some s → next_sig ≡ s
unfolding scope_sig
only_sig zero s h = cc
only_sig (suc zero) s h = absurd (let z : ⊥ = cc in z)
only_sig (suc (suc d)) s h = absurd (let z : ⊥ = cc in z)

only_data : (d : ℕ) (s : DataShape) → data_shape scope d ≡ some s → side ≡ s
unfolding data_shape
only_data zero s h = absurd (let z : ⊥ = cc in z)
only_data (suc zero) s h = cc
only_data (suc (suc d)) s h = absurd (let z : ⊥ = cc in z)

param-IsProper : All (IsProper scope) (param_types next_sig.params)
unfolding from_ref data_shape
param-IsProper = ((side, refl), tt)

payload-IsProper :
    (i : ℕ) (v : VariantDef)
    → get_elem? side.variants i ≡ some v
    → All (λ (t : TypeRef). IsProper scope (from_ref t)) v.payload
unfolding from_ref
payload-IsProper zero v h =
    let e : left ≡ v = cc in
    subst (λ (v : VariantDef). All (λ (t : TypeRef). IsProper scope (from_ref t)) v.payload) e tt
payload-IsProper (suc zero) v h =
    let e : right ≡ v = cc in
    subst (λ (v : VariantDef). All (λ (t : TypeRef). IsProper scope (from_ref t)) v.payload) e
      (tt, tt)
payload-IsProper (suc (suc i)) v h = absurd (let z : ⊥ = cc in z)

no_fields : (i : ℕ) (f : FieldDef) → get_elem? side.fields i ≡ some f → ⊥
no_fields i f h = let z : ⊥ = cc in z

scope-IsResolved : IsResolved scope
unfolding from_ref
scope-IsResolved = record {
  params = λ d s h.
      subst (λ (s : FnSig). All (IsProper scope) (param_types s.params)) (only_sig d s h)
        param-IsProper;
  returns = λ d s h. subst (λ (s : FnSig). IsProper scope (from_ref s.ret)) (only_sig d s h) tt;
  fields = λ d s h i f e. absurd (
      no_fields i f
        (subst (λ (s : DataShape). get_elem? s.fields i ≡ some f) (sym (only_data d s h)) e));
  payloads = λ d s h i v e.
      payload-IsProper i v
        (subst (λ (s : DataShape). get_elem? s.variants i ≡ some v) (sym (only_data d s h)) e);
}

next_body-IsQuiet : IsQuiet (check_body scope 0 next_body sp)
unfolding check_body Ty-discrete
next_body-IsQuiet = record { no_panic = refl; warnings = tt }

next_body-IsLowered : IsLowered scope next_body.root
unfolding IsLowered
next_body-IsLowered = ((tt, tt, tt), (tt, (tt, tt, (tt, (tt, tt), tt))))

check_body-HasType_example :
    (t : Ty) × (Γ : Ctx) × HasType scope Ty.i32 (params_ctx next_sig.params) next_body.root t Γ
    × Ends scope Ty.i32 next_body.root t
unfolding from_ref
check_body-HasType_example =
    check_body-HasType scope scope-IsResolved 0 next_sig next_body sp (unfold scope_sig in refl)
      next_body-IsLowered tt next_body-IsQuiet

-- `Left => ..` and `Right(_) => ..`
abbrev both_arms : HirArms
both_arms =
    arm (HirPat.variant 1 0 [] sp) (node 4 sp (HirExprKind.var 1)) sp
      (arm (HirPat.variant 1 1 (none ∷ []) sp) (node 5 sp (HirExprKind.var 1)) sp no_arms)

abbrev no_arm_yet : Arms
no_arm_yet = record { covered = []; catchall = false; result = none }

covers_enum-arms_ty_example :
    covers_enum scope (λ i. Ty.poison) 1 (some side) both_arms
    ≡ all_covered side.variants
        (((arms_ty scope Ty.i32 both_arms (Ty.struct 1) (some 1) none no_arm_yet start).0).covered)
covers_enum-arms_ty_example =
    covers_enum-arms_ty scope Ty.i32 (λ i. Ty.poison) 1 side both_arms (Ty.struct 1) (some 1) none
      no_arm_yet start (unfold is_enum in refl) (refl, (refl, tt))
      (refl, omega arith, (refl, omega arith, tt)) refl
