-- ===== src/Types/Check/Walk.antt =====
-- The walk of the type checker over expressions and statements, and the check of a body: `expr_ty`,
-- `stmt`, the methods that they call, `run_body` and `check_body` of crates/ontixa-types/src/check.rs.
-- The name of a node's method is that of the function. A `for` over a range checks the bounds and does
-- not visit the range node.
use ontixa.Prelude.{
  ℕ, Bool, true, false, ◌&&◌, ◌||◌, List, [], ◌∷◌, ◌++◌, Option, none, some, get_elem?,
  if◌then◌else◌,
}
use ontixa.Source.Span.{Span}
use ontixa.Types.Ty.{Ty, from_ref}
use ontixa.Types.Scope.{ModuleScope, DataShape, FieldDef, scope_sig, data_shape, is_enum}
use ontixa.Hir.{
  HirExpr, HirExprKind, HirExprs, HirOption, HirInits, HirArms, HirStmts, HirPat, node, nil, cons,
  absent, present, end, init, no_arms, arm, done, let_then, assign_then, expr_then, return_then,
  id_of, span_of,
}
use ontixa.Mir.{UnOp}
use ontixa.Types.Check.State.{
  type_mismatch, unsupported_operation, unknown_field, literal_overflow, M, ◌>>=◌, ◌>>◌, pure,
  report, crash, set_ty, bind_local, set_slots, fail, unify,
}
use ontixa.Types.Check.Complete.{contains, is_catchall}
use ontixa.Types.Check.Rules.{
  literal_ty, var_ty, operand_context, peer_first, numeric_context, operator_ty,
}
use ontixa.Types.Check.Access.{
  place_ty, indexed_ty, sliced_ty, iterated_ty, len_ty, fold_of, negated_fits, unary_result,
  scrutinee_def, bind_pattern, is_covered, cover, check_exhaustive, check_missing, shape_variant,
}
use ontixa.Types.Check.Steps.{
  or_unit, or_else, is_literal, is_range, field_node, check_index, Bounds, add_bound, range_elem,
  check_end, add_elem, expected_elem, array_result, check_arity, join_branches, tailless, join_arm,
  warn_dead, note_duplicate, annotate, annotation, empty_return, check_cond, with_field, call_ty,
  variant_ty, struct_ty,
}

-- What the loop over the arms carries.
pub record Arms : Type 0 where
  pub covered : List ℕ
  pub catchall : Bool
  pub result : Option Ty

abbrev pub note_arm : HirPat → Option Ty → Arms → Arms
note_arm p result a = record {
  covered = cover p a.covered;
  catchall = a.catchall || is_catchall p;
  result = result;
}

module _ (m : ModuleScope) (ret : Ty) where
  unfoldable mutual
    unfolding ◌>>=◌ ◌>>◌ pure report crash set_ty bind_local set_slots fail unify literal_ty var_ty
        operand_context peer_first operator_ty place_ty indexed_ty sliced_ty iterated_ty len_ty
        fold_of negated_fits unary_result scrutinee_def bind_pattern is_covered cover
        check_exhaustive check_missing field_node check_index add_bound check_end add_elem
        expected_elem array_result check_arity join_branches tailless join_arm warn_dead
        note_duplicate annotate empty_return check_cond call_ty variant_ty struct_ty is_literal
        is_range contains scope_sig data_shape shape_variant is_enum

    pub expr_ty : HirExpr → Option Ty → M Ty
    expr_ty (node id at k) expected = kind_ty id at k expected >>= set_ty id

    pub kind_ty : ℕ → Span → HirExprKind → Option Ty → M Ty
    kind_ty id at (HirExprKind.literal l) expected = literal_ty l expected at
    kind_ty id at (HirExprKind.var x) expected = var_ty x at
    kind_ty id at (HirExprKind.call d es) expected = call_ty es (args_ty es) (scope_sig m d) at
    kind_ty id at (HirExprKind.field e n f) expected = expr_ty e none >>= field_node m id n
    kind_ty id at (HirExprKind.len e) expected = do t ← expr_ty e none; len_ty t at
    kind_ty id at (HirExprKind.index e k) expected = do
      b ← expr_ty e none
      i ← expr_ty k none
      result ← indexed_ty b (span_of e)
      ok ← check_index i type_mismatch (span_of k)
      pure (if ok then result else Ty.poison)
    kind_ty id at (HirExprKind.slice e lo hi) expected = do
      b ← expr_ty e none
      result ← sliced_ty b (span_of e)
      first ← bound_ok lo
      second ← bound_ok hi
      pure (if first && second then result else Ty.poison)
    kind_ty id at (HirExprKind.array_lit es) expected = do
      found ← elems_ty es (expected_elem expected) (expected_elem expected, true)
      array_result expected at found
    kind_ty id at (HirExprKind.range lo hi) expected = do
      first ← option_ty lo none
      second ← option_ty hi none
      fail unsupported_operation at
    kind_ty id at (HirExprKind.for_in v e b) expected = do
      t ← iter_ty e
      bind_local v t
      result ← expr_ty b none
      pure Ty.unit
    kind_ty id at (HirExprKind.binary op l r) expected =
        let swapped : M Ty = (do
          t ← expr_ty r none
          s ← expr_ty l (numeric_context (some t))
          operator_ty op s t at) in
        let ordered : M Ty = (do
          s ← expr_ty l (operand_context op expected)
          t ← expr_ty r (some s)
          operator_ty op s t at) in
        if peer_first op l r expected then swapped else ordered
    kind_ty id at (HirExprKind.unary op e) expected =
        let plain : M Ty =
          expr_ty e (elim op [ UnOp.neg ↦ numeric_context expected | UnOp.not ↦ none ]) >>= λ t.
          unary_result op t at in
        elim (fold_of op e expected) [
          | none ↦ plain
          | some (v, t) ↦
              if negated_fits v t
              then set_ty (id_of e) t
              else (report literal_overflow at >> set_ty (id_of e) Ty.poison)
        ]
    kind_ty id at (HirExprKind.if_else c t absent) expected = do
      s ← expr_ty c (some Ty.bool)
      check_cond s (span_of c)
      result ← expr_ty t expected
      pure Ty.unit
    kind_ty id at (HirExprKind.if_else c t (present e)) expected = do
      s ← expr_ty c (some Ty.bool)
      check_cond s (span_of c)
      then_ty ← expr_ty t expected
      else_ty ← expr_ty e expected
      join_branches m t e expected at then_ty else_ty
    kind_ty id at (HirExprKind.block ss absent) expected = do
      stmts_ty ss
      tailless m (node id at (HirExprKind.block ss absent)) expected
    kind_ty id at (HirExprKind.block ss (present e)) expected = do stmts_ty ss; expr_ty e expected
    kind_ty id at (HirExprKind.struct_lit d fs) expected =
        struct_ty id (λ s. inits_ty fs s [] []) (values_ty fs) d (data_shape m d) at
    kind_ty id at (HirExprKind.variant_lit d v es) expected =
        variant_ty es (args_ty es) d (data_shape m d) v at
    kind_ty id at (HirExprKind.match_on e arms) expected = do
      t ← expr_ty e none
      d ← scrutinee_def m t (span_of e)
      last ← arms_ty arms t d expected (record { covered = []; catchall = false; result = none })
      check_exhaustive m d last.catchall last.covered at
      pure (or_unit (or_else last.result expected))
    kind_ty id at HirExprKind.poison expected = pure Ty.poison

    -- The loop over arguments, with the types that are declared for them.
    pub args_ty : HirExprs → List Ty → M (Unit {0})
    args_ty nil ts = pure tt
    args_ty (cons e es) [] = do t ← expr_ty e none; args_ty es []
    args_ty (cons e es) (p ∷ ps) = do
      t ← expr_ty e (some p)
      u ← unify t p (span_of e)
      args_ty es ps

    pub option_ty : HirOption → Option Ty → M (Option Ty)
    option_ty absent expected = pure none
    option_ty (present e) expected = do t ← expr_ty e expected; pure (some t)

    -- A bound of a slice.
    pub bound_ok : HirOption → M Bool
    bound_ok absent = pure true
    bound_ok (present e) = do t ← expr_ty e none; check_index t type_mismatch (span_of e)

    pub elems_ty : HirExprs → Option Ty → Bounds → M Bounds
    elems_ty nil expected found = pure found
    elems_ty (cons e es) expected found = do
      t ← expr_ty e expected
      next ← add_elem (span_of e) found t
      elems_ty es expected next

    -- The type of a loop variable.
    pub iter_ty : HirExpr → M Ty
    iter_ty (node id at k) =
        let plain : M Ty = (kind_ty id at k none >>= set_ty id) >>= λ t. iterated_ty t at in
        let ranged = range_ty at k in if is_range (node id at k) then ranged else plain

    pub range_ty : Span → HirExprKind → M Ty
    range_ty at (HirExprKind.range lo hi) =
        let ends : Bounds → M Ty = λ start. (do
          first ← range_bound at lo start
          second ← range_bound at hi first
          range_elem second) in
        let swapped : Bounds → M Ty = λ start. (do
          first ← range_bound at hi start
          second ← range_bound at lo first
          range_elem second) in
        check_end hi at >>= λ start. if is_literal lo then swapped start else ends start
    range_ty at _ = crash Ty.poison

    pub range_bound : Span → HirOption → Bounds → M Bounds
    range_bound at absent found = pure found
    range_bound at (present e) found = do t ← expr_ty e (found.0); add_bound (span_of e) at found t

    -- The loop over the written fields, with the names so far.
    pub inits_ty : HirInits → DataShape → List ℕ → List ℕ → M (List ℕ)
    inits_ty end s seen slots = pure slots
    inits_ty (init n e fs) s seen slots =
        let unknown : M (List ℕ) = (do
          report unknown_field n.span
          t ← expr_ty e none
          inits_ty fs s seen slots) in
        let value : FieldDef → M Ty =
          λ f. expr_ty e (some (from_ref f.ty)) >>= λ t. unify t (from_ref f.ty) (span_of e) in
        let known : ℕ → M (List ℕ) = λ i. (do
          note_duplicate (contains n.id seen) n.span
          t ← with_field value (get_elem? s.fields i)
          inits_ty fs s (n.id ∷ seen) (slots ++ i ∷ [])) in
        elim (s.field_index n.id) [ none ↦ unknown | some i ↦ known i ]

    -- The values of a struct literal of an enum.
    pub values_ty : HirInits → M (Unit {0})
    values_ty end = pure tt
    values_ty (init n e fs) = do t ← expr_ty e none; values_ty fs

    pub arms_ty : HirArms → Ty → Option ℕ → Option Ty → Arms → M Arms
    arms_ty no_arms t d expected a = pure a
    arms_ty (arm p e at arms) t d expected a = do
      bind_pattern m t d p
      warn_dead (a.catchall || is_covered p a.covered) at
      u ← expr_ty e (or_else expected a.result)
      result ← join_arm m e a.result u
      arms_ty arms t d expected (note_arm p result a)

    pub value_ty : HirOption → Option Ty → Span → M (Option Ty × Span)
    value_ty absent expected at = pure (none, at)
    value_ty (present e) expected at = do t ← expr_ty e expected; pure (some t, span_of e)

    pub return_ty : HirOption → Span → M (Unit {0})
    return_ty absent at = empty_return ret at
    return_ty (present e) at = do t ← expr_ty e (some ret); u ← unify t ret (span_of e); pure tt

    -- `stmt` for each statement.
    pub stmts_ty : HirStmts → M (Unit {0})
    stmts_ty done = pure tt
    stmts_ty (let_then x a e at ss) = do
      i ← value_ty e (annotation a) at
      t ← annotate (annotation a) (i.0) (i.1) at
      bind_local x t
      stmts_ty ss
    stmts_ty (assign_then p e at ss) = do
      place ← place_ty m p
      t ← expr_ty e (some place)
      u ← unify t place (span_of e)
      stmts_ty ss
    stmts_ty (expr_then e semi ss) = do t ← expr_ty e none; stmts_ty ss
    stmts_ty (return_then e at ss) = do return_ty e at; stmts_ty ss
