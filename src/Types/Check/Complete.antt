-- ===== src/Types/Check/Complete.antt =====
-- `can_complete` and `match_is_exhaustive` of crates/ontixa-types/src/check.rs, from the types that are
-- recorded so far.
use ontixa.Prelude.{
  ℕ, Bool, true, false, not, ◌&&◌, ◌||◌, List, [], ◌∷◌, Option, none, some, length, leb, ◌==◌,
  if◌then◌else◌,
}
use ontixa.Types.Ty.{Ty}
use ontixa.Types.Scope.{ModuleScope, DataShape, data_shape, is_enum}
use ontixa.Hir.{
  HirExpr, HirExprKind, HirExprs, HirOption, HirInits, HirArms, HirStmts, HirPat, node, nil, cons,
  absent, present, end, init, no_arms, arm, done, let_then, assign_then, expr_then, return_then,
  id_of,
}
use ontixa.Memory.Enforce.Walk.{may_skip}

unfoldable pub contains : ℕ → List ℕ → Bool
contains i [] = false
contains i (j ∷ js) = i == j || contains i js

-- `FxHashSet::insert`
unfoldable pub add : ℕ → List ℕ → List ℕ
unfolding contains
add i js = if contains i js then js else i ∷ js

unfoldable pub is_catchall : HirPat → Bool
is_catchall (HirPat.bind x at) = true
is_catchall (HirPat.variant d v bs at) = false
is_catchall HirPat.poison = false

unfoldable pub has_catchall : HirArms → Bool
unfolding is_catchall
has_catchall no_arms = false
has_catchall (arm p e at arms) = is_catchall p || has_catchall arms

unfoldable pub cover_pattern : ℕ → HirPat → List ℕ → List ℕ
unfolding add
cover_pattern d (HirPat.variant def v bs at) js = if def == d then add v js else js
cover_pattern d (HirPat.bind x at) js = js
cover_pattern d HirPat.poison js = js

unfoldable pub covered_by : ℕ → HirArms → List ℕ → List ℕ
unfolding cover_pattern
covered_by d no_arms js = js
covered_by d (arm p e at arms) js = covered_by d arms (cover_pattern d p js)

unfoldable pub is_empty : HirArms → Bool
is_empty no_arms = true
is_empty (arm p e at arms) = false

module _ (m : ModuleScope) (types : ℕ → Ty) where
  unfoldable pub covers_enum : ℕ → Option DataShape → HirArms → Bool
  unfolding is_enum covered_by
  covers_enum d none arms = false
  covers_enum d (some s) arms = is_enum s && leb (length s.variants) (length (covered_by d arms []))

  unfoldable covers_type : Ty → HirArms → Bool
  unfolding covers_enum data_shape
  covers_type (Ty.struct d) arms = covers_enum d (data_shape m d) arms
  covers_type _ arms = false

  unfoldable match_is_exhaustive : HirExpr → HirArms → Bool
  unfolding has_catchall covers_type
  match_is_exhaustive e arms = has_catchall arms || covers_type (types (id_of e)) arms

  unfoldable mutual
    unfolding may_skip match_is_exhaustive is_empty

    pub can_complete : HirExpr → Bool
    can_complete (node i at (HirExprKind.block ss e)) =
        can_complete_stmts ss && can_complete_option e
    can_complete (node i at (HirExprKind.if_else c t e)) =
        can_complete c && (can_complete t || can_complete_option e)
    can_complete (node i at (HirExprKind.match_on e arms)) =
        can_complete e
        && (is_empty arms || (not (match_is_exhaustive e arms) || can_complete_any arms))
    can_complete (node i at (HirExprKind.binary op l r)) =
        can_complete l && (may_skip op || can_complete r)
    can_complete (node i at (HirExprKind.unary op e)) = can_complete e
    can_complete (node i at (HirExprKind.field base name f)) = can_complete base
    can_complete (node i at (HirExprKind.len base)) = can_complete base
    can_complete (node i at (HirExprKind.index base k)) = can_complete base && can_complete k
    can_complete (node i at (HirExprKind.slice base lo hi)) =
        can_complete base && (can_complete_option lo && can_complete_option hi)
    can_complete (node i at (HirExprKind.call d es)) = can_complete_all es
    can_complete (node i at (HirExprKind.variant_lit d v es)) = can_complete_all es
    can_complete (node i at (HirExprKind.struct_lit d fs)) = can_complete_inits fs
    can_complete (node i at (HirExprKind.array_lit es)) = can_complete_all es
    can_complete (node i at (HirExprKind.range lo hi)) =
        can_complete_option lo && can_complete_option hi
    can_complete (node i at (HirExprKind.for_in v e b)) = can_complete e
    can_complete (node i at (HirExprKind.literal l)) = true
    can_complete (node i at (HirExprKind.var x)) = true
    can_complete (node i at HirExprKind.poison) = true

    pub can_complete_option : HirOption → Bool
    can_complete_option absent = true
    can_complete_option (present e) = can_complete e

    pub can_complete_all : HirExprs → Bool
    can_complete_all nil = true
    can_complete_all (cons e es) = can_complete e && can_complete_all es

    pub can_complete_inits : HirInits → Bool
    can_complete_inits end = true
    can_complete_inits (init name e fs) = can_complete e && can_complete_inits fs

    pub can_complete_any : HirArms → Bool
    can_complete_any no_arms = false
    can_complete_any (arm p e at arms) = can_complete e || can_complete_any arms

    pub can_complete_stmts : HirStmts → Bool
    can_complete_stmts done = true
    can_complete_stmts (return_then e at ss) = false
    can_complete_stmts (let_then x ty e at ss) = can_complete_option e && can_complete_stmts ss
    can_complete_stmts (assign_then p e at ss) = can_complete e && can_complete_stmts ss
    can_complete_stmts (expr_then e semi ss) = can_complete e && can_complete_stmts ss
