-- ===== src/Types/Check/Body.antt =====
-- The check of one body: `run_body` and `check_body` of crates/ontixa-types/src/check.rs.
use ontixa.Prelude.{ℕ, false, ◌||◌, List, [], ◌∷◌, Option, none, some, if◌then◌else◌}
use ontixa.Source.Span.{Span}
use ontixa.Types.Ty.{Ty, from_ref, same_ty}
use ontixa.Types.Scope.{ModuleScope, scope_sig}
use ontixa.Hir.{
  HirExpr, HirExprKind, HirBody, FnSig, ParamDef, TypeTables, node, absent, present, id_of, span_of,
}
use ontixa.Types.Check.State.{
  missing_return, Checker, M, ◌>>=◌, ◌>>◌, pure, report, crash, get_types, bind_local, unify,
}
use ontixa.Types.Check.Complete.{can_complete}
use ontixa.Types.Check.Walk.{expr_ty}

-- The state that `check_body` starts from.
abbrev pub start : Checker
start = record {
  locals = λ x. none;
  types = λ i. Ty.poison;
  local_types = λ x. none;
  slots = λ i. none;
  resolved = λ i. none;
  diags = [];
  panicked = false;
}

unfoldable pub bind_params : List ParamDef → M (Unit {0})
unfolding ◌>>◌ bind_local pure from_ref
bind_params [] = pure tt
bind_params (p ∷ ps) = bind_local p.symbol (from_ref p.ty) >> bind_params ps

unfoldable pub needs_value : Ty → Span → M (Unit {0})
unfolding same_ty report pure
needs_value ret name =
    if same_ty ret Ty.unit || same_ty ret Ty.poison then pure tt else report missing_return name

-- The checks of what the root block returns. `name` is the span of the function's name.
unfoldable pub check_root : HirExpr → Ty → Span → (ℕ → Ty) → M (Unit {0})
unfolding ◌>>=◌ unify needs_value pure
check_root (node i at (HirExprKind.block ss (present t))) ret name types =
    unify (types (id_of t)) ret (span_of t) >>= λ u. pure tt
check_root (node i at (HirExprKind.block ss absent)) ret name types = needs_value ret name
check_root _ ret name types = pure tt

unfoldable pub check_completion : ModuleScope → HirExpr → Ty → Span → (ℕ → Ty) → M (Unit {0})
unfolding can_complete check_root pure
check_completion m root ret name types =
    if can_complete m types root then check_root root ret name types else pure tt

unfoldable pub check_sig : ModuleScope → Option FnSig → HirBody → Span → M (Unit {0})
unfolding ◌>>=◌ ◌>>◌ bind_params expr_ty get_types check_completion crash from_ref
check_sig m none b name = crash tt
check_sig m (some sig) b name = do
  bind_params sig.params
  t ← expr_ty m (from_ref sig.ret) b.root (some (from_ref sig.ret))
  types ← get_types
  check_completion m b.root (from_ref sig.ret) name types

unfoldable pub run_body : ModuleScope → ℕ → HirBody → Span → M (Unit {0})
unfolding check_sig scope_sig
run_body m def b name = check_sig m (scope_sig m def) b name

-- The tables, the diagnostics and the rewritten nodes are fields of the state.
unfoldable pub check_body : ModuleScope → ℕ → HirBody → Span → Checker
unfolding run_body
check_body m def b name = (run_body m def b name start).1

abbrev pub tables_of : Checker → TypeTables
tables_of s = record { ty_of = s.types; local_types = s.local_types }
