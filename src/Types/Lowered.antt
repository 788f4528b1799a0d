-- ===== src/Types/Lowered.antt =====
-- The trees that crates/ontixa-hir/src/lower.rs gives for source text that it reports no error in:
-- no node or pattern is poison, a literal of a variant names a declared one, and annotations are
-- proper types.
use ontixa.Prelude.{ℕ, ◌≡◌, some, get_elem?}
use ontixa.Types.Scope.{ModuleScope, DataShape, VariantDef, data_shape}
use ontixa.Hir.{
  HirExpr, HirExprKind, HirExprs, HirOption, HirInits, HirArms, HirStmts, node, nil, cons, absent,
  present, end, init, no_arms, arm, done, let_then, assign_then, expr_then, return_then,
}
use ontixa.Types.Check.Steps.{annotation}
use ontixa.Types.Check.Proper.{IsProperOption}
use ontixa.Types.Check.Patterns.{IsPattern}

module _ (m : ModuleScope) where
  abbrev IsVariant : ℕ → ℕ → Type 0
  IsVariant d v =
      (s : DataShape) × (x : VariantDef) × (data_shape m d ≡ some s)
      × (get_elem? s.variants v ≡ some x)

  unfoldable mutual
    pub IsLowered : HirExpr → Type 0
    IsLowered (node i at k) = IsLoweredKind k

    pub IsLoweredKind : HirExprKind → Type 0
    IsLoweredKind (HirExprKind.literal l) = Unit
    IsLoweredKind (HirExprKind.var x) = Unit
    IsLoweredKind (HirExprKind.call d es) = AreLowered es
    IsLoweredKind (HirExprKind.field e n f) = IsLowered e
    IsLoweredKind (HirExprKind.len e) = IsLowered e
    IsLoweredKind (HirExprKind.index e k) = IsLowered e × IsLowered k
    IsLoweredKind (HirExprKind.slice e lo hi) =
        IsLowered e × IsLoweredOption lo × IsLoweredOption hi
    IsLoweredKind (HirExprKind.array_lit es) = AreLowered es
    IsLoweredKind (HirExprKind.range lo hi) = IsLoweredOption lo × IsLoweredOption hi
    IsLoweredKind (HirExprKind.for_in x e b) = IsLowered e × IsLowered b
    IsLoweredKind (HirExprKind.binary op l r) = IsLowered l × IsLowered r
    IsLoweredKind (HirExprKind.unary op e) = IsLowered e
    IsLoweredKind (HirExprKind.if_else c t e) = IsLowered c × IsLowered t × IsLoweredOption e
    IsLoweredKind (HirExprKind.block ss e) = AreLoweredStmts ss × IsLoweredOption e
    IsLoweredKind (HirExprKind.struct_lit d fs) = AreLoweredInits fs
    IsLoweredKind (HirExprKind.variant_lit d v es) = IsVariant d v × AreLowered es
    IsLoweredKind (HirExprKind.match_on e arms) = IsLowered e × AreLoweredArms arms
    IsLoweredKind HirExprKind.poison = ⊥

    pub AreLowered : HirExprs → Type 0
    AreLowered nil = Unit
    AreLowered (cons e es) = IsLowered e × AreLowered es

    pub IsLoweredOption : HirOption → Type 0
    IsLoweredOption absent = Unit
    IsLoweredOption (present e) = IsLowered e

    pub AreLoweredInits : HirInits → Type 0
    AreLoweredInits end = Unit
    AreLoweredInits (init n e fs) = IsLowered e × AreLoweredInits fs

    pub AreLoweredArms : HirArms → Type 0
    AreLoweredArms no_arms = Unit
    AreLoweredArms (arm p e at arms) = IsPattern m p × IsLowered e × AreLoweredArms arms

    pub AreLoweredStmts : HirStmts → Type 0
    AreLoweredStmts done = Unit
    AreLoweredStmts (let_then x a e at ss) =
        IsProperOption m (annotation a) × IsLoweredOption e × AreLoweredStmts ss
    AreLoweredStmts (assign_then p e at ss) = IsLowered e × AreLoweredStmts ss
    AreLoweredStmts (expr_then e semi ss) = IsLowered e × AreLoweredStmts ss
    AreLoweredStmts (return_then e at ss) = IsLoweredOption e × AreLoweredStmts ss
