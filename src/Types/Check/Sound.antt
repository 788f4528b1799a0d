-- ===== src/Types/Check/Sound.antt =====
-- A run of the type checker without errors gives a derivation of the typing rules: the walk of
-- crates/ontixa-types/src/check.rs.
use ontixa.Prelude.{
  ℕ, ◌≡◌, refl, sym, subst, inl, inr, true, false, ◌&&◌, List, [], ◌∷◌, ◌++◌, Option, none, some,
  get_elem?, if◌then◌else◌, arith,
}
use ontixa.Source.Span.{Span}
use ontixa.Types.Ty.{Ty, from_ref, is_integer}
use ontixa.Types.Scope.{ModuleScope, DataShape, scope_sig, data_shape}
use ontixa.Hir.{
  HirExpr, HirExprKind, HirExprs, HirOption, HirInits, HirArms, HirStmts, node, nil, cons, absent,
  present, end, init, no_arms, arm, done, let_then, assign_then, expr_then, return_then, id_of,
  span_of,
}
use ontixa.Mir.{UnOp}
use ontixa.Types.Check.State.{type_mismatch, unsupported_operation, unknown_field, literal_overflow}
use ontixa.Types.Check.Complete.{contains}
use ontixa.Types.Check.Rules.{numeric_context, operand_context, peer_first}
use ontixa.Types.Check.Access.{fold_of, fold_with, int_literal, negated_fits}
use ontixa.Types.Check.Steps.{
  or_unit, or_else, is_literal, is_range, Bounds, expected_elem, arity, annotation,
}
use ontixa.Types.Check.Walk.{
  Arms, note_arm, expr_ty, kind_ty, args_ty, option_ty, bound_ok, elems_ty, iter_ty, range_ty,
  range_bound, inits_ty, values_ty, arms_ty, value_ty, return_ty, stmts_ty,
}
use ontixa.Types.Check.Safe.{
  Post, Safe, bind-Safe, step-Safe, then-Safe, step_then-Safe, map-Safe, last-Safe, pure-Safe,
  if-Safe, option-Safe, crash-Safe, fail-Safe, report_then-Safe, set_ty-Step, bind_local-Safe,
}
use ontixa.Types.Check.Proper.{
  IsProper, IsProperOption, IsClean, IsResolved, IsClean-extend, unify-Step,
}
use ontixa.Types.Check.Operators.{
  literal_ty-Step, operator_ty-Step, unary_result-Step, integer-IsProper,
}
use ontixa.Types.Check.Accesses.{
  var_ty-Safe, place_ty-Safe, field_node-Step, len_ty-Step, indexed_ty-Step, sliced_ty-Step,
  iterated_ty-Step, check_index-Step,
}
use ontixa.Types.Check.Joins.{
  Agrees, IsInts, IsElems, range_elem-Step, check_end-Step, add_bound-Step, add_elem-Step,
  expected_elem-IsProper, array_result-Step, or_unit-IsProper, join_branches-Step, tailless-Step,
  join_arm-Step, annotate-Step, empty_return-Step, check_cond-Step, warn_dead-Step,
  note_duplicate-Step,
}
use ontixa.Types.Check.Patterns.{
  Selects, selects, scrutinee_def-Step, match_pattern-Safe, match_exhaustive-Step,
  covered-Exhaustive,
}
use ontixa.Types.Check.Forms.{
  Typed, TypedArgs, call_ty-Safe, variant_ty-Safe, struct_ty-Safe, with_field-Safe,
  numeric_context-IsProper, operand_context-IsProper, integer_option-IsProper, fold_with-Folded,
  field-HasType, Iterates, ValueType, let-StmtsType,
}
use ontixa.Types.Check.Arms.{
  array-Iterates, range-Iterates, for-HasType, or_else-IsProper, or_unit-Agrees, Covering,
  arm-Covering,
}
use ontixa.Types.Lowered.{
  IsLowered, IsLoweredKind, AreLowered, IsLoweredOption, AreLoweredInits, AreLoweredArms,
  AreLoweredStmts,
}
use ontixa.Types.Typing.{
  Ctx, HasType, ArgsType, ElemsType, BoundType, InitsType, ArmsType, StmtsType, Exhaustive,
}

module _ (m : ModuleScope) (rm : IsResolved m) (ret : Ty) (rp : IsProper m ret) where
  abbrev TypedElems : HirExprs → Option Ty → Bounds → Post Bounds
  TypedElems es expected found Γ next Γ' =
      IsClean m Γ
      → IsProperOption m expected
      → IsElems m found
      → IsClean m Γ'
        × IsElems m next
        × ((u : Ty) → Agrees (next.0) u → ElemsType m ret Γ es u Γ' × Agrees (found.0) u)

  abbrev TypedBound : HirOption → Bounds → Post Bounds
  TypedBound e found Γ next Γ' =
      IsClean m Γ
      → IsInts found
      → IsClean m Γ'
        × IsInts next
        × ((u : Ty) → Agrees (next.0) u → BoundType m ret Γ e u Γ' × Agrees (found.0) u)

  abbrev TypedIter : HirExpr → Post Ty
  TypedIter e Γ t Γ' = IsClean m Γ → IsClean m Γ' × IsProper m t × Iterates m ret Γ e t Γ'

  abbrev TypedArms : HirArms → Ty → Option ℕ → Option Ty → Arms → Post Arms
  TypedArms arms t o expected a Γ last Γ' =
      (h : Selects m rm t o)
      → IsClean m Γ
      → IsProperOption m expected
      → IsProperOption m a.result
      → IsClean m Γ'
        × IsProperOption m last.result
        × ((w : Ty) → Agrees last.result w → ArmsType m ret (h.0) Γ arms w Γ' × Agrees a.result w)
        × Covering a arms last

  abbrev before : Arms
  before = record { covered = []; catchall = false; result = none }

  abbrev ReturnType : Ctx → HirOption → Ctx → Type 0
  ReturnType Γ absent Γ' = (Γ ≡ Γ') × (ret ≡ Ty.unit)
  ReturnType Γ (present e) Γ' = HasType m ret Γ e ret Γ'

  as_type :
      {Γ Γ' : Ctx} {e : HirExpr} {t u : Ty}
      → t ≡ u
      → HasType m ret Γ e t Γ'
      → HasType m ret Γ e u Γ'
  as_type {Γ = Γ} {Γ' = Γ'} {e = e} q h = subst (λ v. HasType m ret Γ e v Γ') q h

  no_cover : (i : ℕ) → contains i [] ≡ true → ⊥
  unfolding contains
  no_cover i h = let z : ⊥ = cc in z

  no_true : false ≡ true → ⊥
  no_true h = let z : ⊥ = cc in z

  match_HasType :
      (Γ Γ₁ Γ' : Ctx) (id : ℕ) (at : Span) (e : HirExpr) (arms : HirArms) (t w : Ty) (o : Option ℕ)
      (h : Selects m rm t o)
      → HasType m ret Γ e t Γ₁
      → ArmsType m ret (h.0) Γ₁ arms w Γ'
      → Exhaustive (h.2.0) arms
      → HasType m ret Γ (node id at (HirExprKind.match_on e arms)) w Γ'
  match_HasType Γ Γ₁ Γ' id at e arms t w o (d, q, (s, f, g, i)) a b x =
      HasType.match_on s (as_type f a) g i b x

  return_StmtsType :
      (Γ Γ₁ Γ' : Ctx) (e : HirOption) (at : Span) (ss : HirStmts)
      → ReturnType Γ e Γ₁
      → StmtsType m ret Γ₁ ss Γ'
      → StmtsType m ret Γ (return_then e at ss) Γ'
  return_StmtsType Γ Γ₁ Γ' (present e) at ss h s = StmtsType.return_value h s
  return_StmtsType Γ Γ₁ Γ' absent at ss (q, u) s =
      StmtsType.return_unit u (subst (λ Δ. StmtsType m ret Δ ss Γ') (sym q) s)

  mutual
    unfolding expr_ty kind_ty args_ty option_ty bound_ok elems_ty iter_ty range_ty range_bound
        inits_ty values_ty arms_ty value_ty return_ty stmts_ty IsLowered IsLoweredKind AreLowered
        IsLoweredOption AreLoweredInits AreLoweredArms AreLoweredStmts fold_of arity

    pub expr_ty-Safe :
        (e : HirExpr) (x : Option Ty)
        → IsLowered m e
        → Safe (expr_ty m ret e x) (Typed m rm ret e x)
    expr_ty-Safe (node id at k) x w = bind-Safe (kind_ty-Safe id at k x w) (λ t.
        last-Safe (set_ty-Step {P = λ u. t ≡ u} id t refl)
          (λ Γ₁ u q Γ r c y. let (c₁, p, h) = r c y in (c₁, subst (IsProper m) q p, as_type q h)))

    kind_ty-Safe :
        (id : ℕ) (at : Span) (k : HirExprKind) (x : Option Ty)
        → IsLoweredKind m k
        → Safe (kind_ty m ret id at k x) (Typed m rm ret (node id at k) x)
    kind_ty-Safe id at (HirExprKind.literal l) x w =
        last-Safe (literal_ty-Step m l x at) (λ Γ t h c y. (c, h.1, HasType.literal (h.0)))
    kind_ty-Safe id at (HirExprKind.var v) x w = map-Safe (var_ty-Safe v at) (λ Γ t Γ' h c y.
        let (e, q) = h in
        (
          subst (IsClean m) q c,
          c v t e,
          subst (λ Δ. HasType m ret Γ (node id at (HirExprKind.var v)) t Δ) q (HasType.var e),
        ))
    kind_ty-Safe id at (HirExprKind.call d es) x w =
        call_ty-Safe m rm ret id at es (args_ty m ret es) (λ ts. args_ty-Safe es ts w) x d
          (scope_sig m d) refl
    kind_ty-Safe id at (HirExprKind.field e n f) x w = bind-Safe (expr_ty-Safe e none w) (λ t.
        last-Safe (field_node-Step m rm id n t) (λ Γ₁ u k Γ r c y.
          let (c₁, p, h) = r c tt in
          let (g, q) = k p in (c₁, q, field-HasType m ret id at n f g h)))
    kind_ty-Safe id at (HirExprKind.len e) x w = bind-Safe (expr_ty-Safe e none w) (λ t.
        last-Safe (len_ty-Step m t at) (λ Γ₁ u k Γ r c y.
          let (c₁, p, h) = r c tt in
          let (q, l) = k p in
          (c₁, subst (IsProper m) (sym q) tt, as_type (sym q) (HasType.len h l))))
    kind_ty-Safe id at (HirExprKind.index e i) x (w, v) = bind-Safe (expr_ty-Safe e none w) (λ t.
        bind-Safe (expr_ty-Safe i none v) (λ u.
          step-Safe (indexed_ty-Step m t (span_of e)) (λ result.
            step-Safe (check_index-Step m u type_mismatch (span_of i) refl) (λ ok.
              pure-Safe _ (λ Γ₂ f g Γ₁ r₂ Γ r₁ c y.
                let (c₁, p, h) = r₁ c tt in
                let (c₂, q, k) = r₂ c₁ tt in
                let (a, b) = g p in
                let (o, n) = f q in
                let e' : result ≡ (if ok then result else Ty.poison) = rw (o) refl in
                (c₂, subst (IsProper m) e' b, as_type e' (HasType.index h k n a)))))))
    kind_ty-Safe id at (HirExprKind.slice e lo hi) x (w, v, v') =
        bind-Safe (expr_ty-Safe e none w) (λ t.
          step-Safe (sliced_ty-Step m t (span_of e)) (λ result.
            bind-Safe (bound_ok-Safe lo v) (λ ok. bind-Safe (bound_ok-Safe hi v') (λ ok'.
              pure-Safe _ (λ Γ₃ Γ₂ r₃ Γ₁ r₂ g Γ r₁ c y.
                let (c₁, p, h) = r₁ c tt in
                let (l, q) = g p in
                let (c₂, o, (u₁, b₁)) = r₂ c₁ in
                let (c₃, o', (u₂, b₂)) = r₃ c₂ in
                let e' : t ≡ (if ok && ok' then result else Ty.poison) = rw (o, o') q in
                (c₃, subst (IsProper m) e' p, as_type e' (HasType.slice h l b₁ b₂)))))))
    kind_ty-Safe id at (HirExprKind.array_lit es) x w =
        bind-Safe (elems_ty-Safe es (expected_elem x) (expected_elem x, true) w) (λ found.
          last-Safe (array_result-Step m x at found) (λ Γ₁ v k Γ r c y.
            let z = expected_elem-IsProper m x y in
            let (c₁, i, f) = r c z (refl, z) in
            let (t, e, a, q, q', p) = k y i in
            (c₁, p, as_type q' (HasType.array_lit ((f t a).0) q))))
    kind_ty-Safe id at (HirExprKind.range lo hi) x (w, v) =
        bind-Safe (option_ty-Safe lo w)
          (λ a. bind-Safe (option_ty-Safe hi v) (λ b. fail-Safe unsupported_operation at refl))
    kind_ty-Safe id at (HirExprKind.for_in v e b) x (w, w') = bind-Safe (iter_ty-Safe e w) (λ t.
        then-Safe (bind_local-Safe v t) (
          bind-Safe (expr_ty-Safe b none w') (λ u. pure-Safe Ty.unit (λ Γ₃ Γ₂ r₃ Γ₁ z q Γ r₁ c y.
            let (c₁, p, h) = r₁ c in
            let (c₃, p', k) = r₃ (subst (IsClean m) q (IsClean-extend m Γ₁ v t c₁ p)) tt in
            let k' = subst (λ Δ. HasType m ret Δ b u Γ₃) (sym q) k in
            (c₃, tt, for-HasType m ret Γ Γ₁ Γ₃ id v at e b t u h k')))))
    kind_ty-Safe id at (HirExprKind.binary op l r) x (w, v) =
        if-Safe (peer_first op l r x)
          (λ z. bind-Safe (expr_ty-Safe r none v) (λ t.
            bind-Safe (expr_ty-Safe l (numeric_context (some t)) w) (λ s.
              last-Safe (operator_ty-Step m op s t at) (λ Γ₂ u k Γ₁ r₂ Γ r₁ c y.
                let (c₁, p, h) = r₁ c tt in
                let (c₂, q, g) = r₂ c₁ (numeric_context-IsProper m (some t)) in
                let (e, o, n) = k q p in (c₂, n, HasType.binary_number (as_type (sym e) h) g o)))))
          (λ z. bind-Safe (expr_ty-Safe l (operand_context op x) w) (λ s.
            bind-Safe (expr_ty-Safe r (some s) v) (λ t.
              last-Safe (operator_ty-Step m op s t at) (λ Γ₂ u k Γ₁ r₂ Γ r₁ c y.
                let (c₁, p, h) = r₁ c (operand_context-IsProper m op x) in
                let (c₂, q, g) = r₂ c₁ p in
                let (e, o, n) = k p q in (c₂, n, HasType.binary h (as_type (sym e) g) o)))))
    kind_ty-Safe id at (HirExprKind.unary UnOp.neg e) x w =
        option-Safe (fold_with (int_literal e) x)
          (λ z. bind-Safe (expr_ty-Safe e (numeric_context x) w) (λ t.
            last-Safe (unary_result-Step m UnOp.neg t at) (λ Γ₁ u k Γ r c y.
              let (c₁, p, h) = r c (numeric_context-IsProper m x) in
              let (q, o) = k p in (c₁, subst (IsProper m) q p, HasType.unary (as_type q h) o))))
          (λ p e'.
            let (f, i) = fold_with-Folded (int_literal e) x p e' in
            if-Safe (negated_fits (p.0) (p.1))
              (λ n. last-Safe (set_ty-Step {P = λ u. p.1 ≡ u} (id_of e) (p.1) refl) (λ Γ u q c y. (
                c,
                subst (IsProper m) q (integer-IsProper m (p.1) i),
                as_type q (HasType.negative f i n),
              )))
              (λ n.
                report_then-Safe literal_overflow _ refl
                  (last-Safe (set_ty-Step {P = λ u. Unit} (id_of e) Ty.poison tt) (λ Γ u q. tt))))
    kind_ty-Safe id at (HirExprKind.unary UnOp.not e) x w = bind-Safe (expr_ty-Safe e none w) (λ t.
        last-Safe (unary_result-Step m UnOp.not t at) (λ Γ₁ u k Γ r c y.
          let (c₁, p, h) = r c tt in
          let (q, o) = k p in (c₁, subst (IsProper m) q p, HasType.unary (as_type q h) o)))
    kind_ty-Safe id at (HirExprKind.if_else c t absent) x (w, v, v') =
        bind-Safe (expr_ty-Safe c (some Ty.bool) w) (λ s.
          step_then-Safe (check_cond-Step m s (span_of c)) (
            bind-Safe (expr_ty-Safe t x v) (λ u. pure-Safe Ty.unit (λ Γ₂ Γ₁ r₂ z k Γ r₁ d y.
              let (c₁, p, h) = r₁ d tt in
              let (c₂, q, g) = r₂ c₁ y in (c₂, tt, HasType.if_then (as_type (k p) h) g)))))
    kind_ty-Safe id at (HirExprKind.if_else c t (present e)) x (w, v, v') =
        bind-Safe (expr_ty-Safe c (some Ty.bool) w) (λ s.
          step_then-Safe (check_cond-Step m s (span_of c)) (
            bind-Safe (expr_ty-Safe t x v) (λ u. bind-Safe (expr_ty-Safe e x v') (λ u'.
              last-Safe (join_branches-Step m t e x at u u') (λ Γ₃ a j Γ₂ r₃ Γ₁ r₂ z k Γ r₁ d y.
                let (c₁, p, h) = r₁ d tt in
                let (c₂, q, g) = r₂ c₁ y in
                let (c₃, q', g') = r₃ c₂ y in
                let (f, f', n) = j q q' y in
                (c₃, n, HasType.if_else (as_type (k p) h) g g' f f'))))))
    kind_ty-Safe id at (HirExprKind.block ss absent) x (w, v) = then-Safe (stmts_ty-Safe ss w) (
        last-Safe (tailless-Step m (node id at (HirExprKind.block ss absent)) x)
          (λ Γ₁ t k Γ z r c y.
            let (c₁, h) = r c in let (q, p) = k y in (c₁, p, HasType.unit_block h q)))
    kind_ty-Safe id at (HirExprKind.block ss (present e)) x (w, v) =
        then-Safe (stmts_ty-Safe ss w) (
          map-Safe (expr_ty-Safe e x v) (λ Γ₁ t Γ' r₂ Γ z r c y.
            let (c₁, h) = r c in let (c₂, p, k) = r₂ c₁ y in (c₂, p, HasType.block h k)))
    kind_ty-Safe id at (HirExprKind.struct_lit d fs) x w =
        struct_ty-Safe m rm ret id at x d fs (λ s. inits_ty m ret fs s [] []) (values_ty m ret fs)
          (data_shape m d) refl (λ s e. inits_ty-Safe d s e fs [] [] w) (values_ty-Safe fs w)
    kind_ty-Safe id at (HirExprKind.variant_lit d v es) x ((s, y, e, f), w) =
        variant_ty-Safe m rm ret id at es (args_ty m ret es) (λ ts. args_ty-Safe es ts w) x d v s y
          e f
    kind_ty-Safe id at (HirExprKind.match_on e arms) x (w, v) =
        bind-Safe (expr_ty-Safe e none w) (λ t. step-Safe (scrutinee_def-Step m t (span_of e)) (λ o.
          bind-Safe (arms_ty-Safe arms t o x before v) (λ last.
            step_then-Safe (match_exhaustive-Step m rm t o last.catchall last.covered at) (
              pure-Safe _ (λ Γ₂ z k Γ₁ ra sc Γ r c y.
                let (c₁, p, h) = r c tt in
                let sel = selects m rm t o (sc p) in
                let (c₂, q, f, (g, g')) = ra sel c₁ y tt in
                let u = or_unit (or_else last.result x) in
                let all = f u (or_unit-Agrees last.result x) in
                let ex =
                  covered-Exhaustive (sel.2.0) last.covered last.catchall arms
                    (λ i l. elim (g i l) [ inl n ↦ absurd (no_cover i n) | inr n ↦ n ])
                    (λ l. elim (g' l) [ inl n ↦ absurd (no_true n) | inr n ↦ n ]) (k sel) in
                (
                  c₂,
                  or_unit-IsProper m (or_else last.result x)
                      (or_else-IsProper m ret last.result x q y),
                  match_HasType Γ Γ₁ Γ₂ id at e arms t u o sel h (all.0) ex,
                ))))))
    kind_ty-Safe id at HirExprKind.poison x w = absurd w

    args_ty-Safe :
        (es : HirExprs) (ts : List Ty)
        → AreLowered m es
        → Safe (args_ty m ret es ts) (TypedArgs m rm ret es ts)
    args_ty-Safe nil [] w = pure-Safe tt (λ Γ c a n. (c, ArgsType.no_args))
    args_ty-Safe nil (p ∷ ps) w = pure-Safe tt (λ Γ c a n. absurd (let z : ⊥ = omega arith in z))
    args_ty-Safe (cons e es) [] (w, v) = bind-Safe (expr_ty-Safe e none w) (λ t.
        map-Safe (args_ty-Safe es [] v)
          (λ Γ₁ z Γ' r₂ Γ r c a n. absurd (let z : ⊥ = omega arith in z)))
    args_ty-Safe (cons e es) (p ∷ ps) (w, v) = bind-Safe (expr_ty-Safe e (some p) w) (λ t.
        step-Safe (unify-Step m t p (span_of e)) (λ u.
          map-Safe (args_ty-Safe es ps v) (λ Γ₁ z Γ' r₂ k Γ r c a n.
            let (q, qs) = a in
            let (c₁, p', h) = r c q in
            let (x, y) = k p' q in
            let (c₂, hs) = r₂ c₁ qs (omega arith) in (c₂, ArgsType.args (as_type y h) hs))))

    option_ty-Safe :
        (o : HirOption) → IsLoweredOption m o → Safe (option_ty m ret o none) (λ Γ a Γ'. Unit {0})
    option_ty-Safe absent w = pure-Safe none (λ Γ. tt)
    option_ty-Safe (present e) w =
        bind-Safe (expr_ty-Safe e none w) (λ t. pure-Safe (some t) (λ Γ₁ Γ r. tt))

    bound_ok-Safe :
        (o : HirOption)
        → IsLoweredOption m o
        → Safe (bound_ok m ret o) (λ Γ ok Γ'.
          IsClean m Γ → IsClean m Γ' × (ok ≡ true) × ((u : Ty) × BoundType m ret Γ o u Γ'))
    bound_ok-Safe absent w = pure-Safe true (λ Γ c. (c, refl, (Ty.i32, BoundType.no_bound)))
    bound_ok-Safe (present e) w = bind-Safe (expr_ty-Safe e none w) (λ t.
        last-Safe (check_index-Step m t type_mismatch (span_of e) refl) (λ Γ₁ ok k Γ r c.
          let (c₁, p, h) = r c tt in let (o, i) = k p in (c₁, o, (t, BoundType.bound h i))))

    elems_ty-Safe :
        (es : HirExprs) (x : Option Ty) (found : Bounds)
        → AreLowered m es
        → Safe (elems_ty m ret es x found) (TypedElems es x found)
    elems_ty-Safe nil x found w =
        pure-Safe found (λ Γ c y i. (c, i, λ u a. (ElemsType.no_elems, a)))
    elems_ty-Safe (cons e es) x found (w, v) = bind-Safe (expr_ty-Safe e x w) (λ t.
        step-Safe (add_elem-Step m (span_of e) found t) (λ next.
          map-Safe (elems_ty-Safe es x next v) (λ Γ₁ last Γ' r₂ k Γ r c y i.
            let (c₁, p, h) = r c y in
            let (j, f) = k p i in
            let (c₂, l, g) = r₂ c₁ y j in
            (
              c₂,
              l,
              λ u a.
                  let (hs, b) = g u a in
                  let (q, d) = f u b in (ElemsType.elems (as_type q h) hs, d),
            ))))

    iter_ty-Safe : (e : HirExpr) → IsLowered m e → Safe (iter_ty m ret e) (TypedIter e)
    iter_ty-Safe (node id at k) w =
        if-Safe (is_range (node id at k)) (λ z. range_ty-Safe id at k w)
          (λ z.
            bind-Safe
              (bind-Safe {Q = Typed m rm ret (node id at k) none} (kind_ty-Safe id at k none w)
                (λ t. last-Safe (set_ty-Step {P = λ u. t ≡ u} id t refl) (λ Γ₁ u q Γ r c y.
                  let (c₁, p, h) = r c y in (c₁, subst (IsProper m) q p, as_type q h))))
              (λ t. last-Safe (iterated_ty-Step m t at) (λ Γ₁ u f Γ r c.
                let (c₁, p, h) = r c tt in
                let ((v, q, q'), p') = f p in
                (c₁, p', array-Iterates m ret Γ Γ₁ (node id at k) u z (v, as_type q h, q')))))

    range_ty-Safe :
        (id : ℕ) (at : Span) (k : HirExprKind)
        → IsLoweredKind m k
        → Safe (range_ty m ret at k) (TypedIter (node id at k))
    range_ty-Safe id at (HirExprKind.range lo hi) (w, v) =
        step-Safe (check_end-Step hi at) (λ start.
          if-Safe (is_literal lo)
            (λ z. bind-Safe (range_bound-Safe at hi start v) (λ a.
              bind-Safe (range_bound-Safe at lo a w) (λ b.
                last-Safe (range_elem-Step b) (λ Γ₂ t k Γ₁ r₂ Γ r₁ s c.
                  let (n, i) = s in
                  let (c₁, j, f) = r₁ c i in
                  let (c₂, l, g) = r₂ c₁ j in
                  let (d, o) = k l in
                  let (h₂, d') = g t d in
                  let (h₁, d'') = f t d' in
                  (
                    c₂,
                    integer-IsProper m t o,
                    range-Iterates m ret Γ Γ₂ id at lo hi t n (inr (Γ₁, h₁, h₂)),
                  )))))
            (λ z. bind-Safe (range_bound-Safe at lo start w) (λ a.
              bind-Safe (range_bound-Safe at hi a v) (λ b.
                last-Safe (range_elem-Step b) (λ Γ₂ t k Γ₁ r₂ Γ r₁ s c.
                  let (n, i) = s in
                  let (c₁, j, f) = r₁ c i in
                  let (c₂, l, g) = r₂ c₁ j in
                  let (d, o) = k l in
                  let (h₂, d') = g t d in
                  let (h₁, d'') = f t d' in
                  (
                    c₂,
                    integer-IsProper m t o,
                    range-Iterates m ret Γ Γ₂ id at lo hi t n (inl (Γ₁, h₁, h₂)),
                  ))))))
    range_ty-Safe id at _ w = crash-Safe Ty.poison

    range_bound-Safe :
        (at : Span) (o : HirOption) (found : Bounds)
        → IsLoweredOption m o
        → Safe (range_bound m ret at o found) (TypedBound o found)
    range_bound-Safe at absent found w =
        pure-Safe found (λ Γ c i. (c, i, λ u a. (BoundType.no_bound, a)))
    range_bound-Safe at (present e) found w = bind-Safe (expr_ty-Safe e (found.0) w) (λ t.
        last-Safe (add_bound-Step m at t (span_of e) found) (λ Γ₁ next k Γ r c i.
          let (c₁, p, h) = r c (integer_option-IsProper m (found.0) (i.1)) in
          let (j, f) = k p i in
          (
            c₁,
            j,
            λ u a.
                let (q, n, b) = f u a in
                (BoundType.bound (as_type q h) (subst (λ v. is_integer v ≡ true) q n), b),
          )))

    inits_ty-Safe :
        (d : ℕ) (s : DataShape)
        → data_shape m d ≡ some s
        → (fs : HirInits) (seen slots : List ℕ) → AreLoweredInits m fs
        → Safe (inits_ty m ret fs s seen slots) (λ Γ slots' Γ'.
          IsClean m Γ → IsClean m Γ' × InitsType m ret s Γ fs seen slots slots' Γ')
    inits_ty-Safe d s e end seen slots w = pure-Safe slots (λ Γ c. (c, InitsType.no_inits))
    inits_ty-Safe d s e (init n a fs) seen slots (w, v) =
        option-Safe (s.field_index n.id)
          (λ z. report_then-Safe unknown_field n.span refl (
            bind-Safe (expr_ty-Safe a none w)
              (λ t. map-Safe (inits_ty-Safe d s e fs seen slots v) (λ Γ₁ u Γ' k Γ r. tt))))
          (λ i z. step_then-Safe (note_duplicate-Step (contains n.id seen) n.span) (
            bind-Safe
              (with_field-Safe
                {R = λ f Γ t Γ'.
                  IsProper m (from_ref f.ty)
                  → IsClean m Γ
                  → IsClean m Γ' × HasType m ret Γ a (from_ref f.ty) Γ'}
                (get_elem? s.fields i)
                (λ f. bind-Safe (expr_ty-Safe a (some (from_ref f.ty)) w) (λ t.
                  last-Safe (unify-Step m t (from_ref f.ty) (span_of a)) (λ Γ₁ u k Γ r p c.
                    let (c₁, q, h) = r c p in let (x, y) = k q p in (c₁, as_type y h)))))
              (λ t.
                map-Safe (inits_ty-Safe d s e fs (n.id ∷ seen) (slots ++ i ∷ []) v)
                  (λ Γ₁ slots' Γ' r₂ Γ r u l c.
                    let (f, q, k) = r in
                    let (c₁, h) = k (rm.fields d s e i f q) c in
                    let (c₂, hs) = r₂ c₁ in (c₂, InitsType.inits l z q h hs)))))

    values_ty-Safe :
        (fs : HirInits) → AreLoweredInits m fs → Safe (values_ty m ret fs) (λ Γ a Γ'. Unit {0})
    values_ty-Safe end w = pure-Safe tt (λ Γ. tt)
    values_ty-Safe (init n e fs) (w, v) =
        bind-Safe (expr_ty-Safe e none w)
          (λ t. map-Safe (values_ty-Safe fs v) (λ Γ₁ u Γ' k Γ r. tt))

    arms_ty-Safe :
        (arms : HirArms) (t : Ty) (o : Option ℕ) (x : Option Ty) (a : Arms)
        → AreLoweredArms m arms
        → Safe (arms_ty m ret arms t o x a) (TypedArms arms t o x a)
    arms_ty-Safe no_arms t o x a w =
        pure-Safe a (λ Γ h c y p. (c, p, λ v b. (ArmsType.last_arm, b), (λ i l. inl l, λ l. inl l)))
    arms_ty-Safe (arm p e at arms) t o x a (w, v, v') =
        then-Safe (match_pattern-Safe m rm t o p w) (
          step_then-Safe (warn_dead-Step _ at) (
            bind-Safe (expr_ty-Safe e (or_else x a.result) v) (λ u.
              step-Safe (join_arm-Step m e a.result u) (λ result.
                map-Safe (arms_ty-Safe arms t o x (note_arm p result a) v')
                  (λ Γ₂ last Γ' ra j Γ₁ r z n Γ z' rp' h c y q.
                    let (c₁, hp) = rp' h c in
                    let (c₂, pu, he) = r c₁ (or_else-IsProper m ret x a.result y q) in
                    let (pn, f) = j pu q in
                    let (c₃, pl, g, cov) = ra h c₂ y pn in
                    (
                      c₃,
                      pl,
                      λ k b.
                          let (hs, b') = g k b in
                          let (st, b'') = f k b' in (ArmsType.next_arm hp he st hs, b''),
                      arm-Covering p e at arms result a last cov,
                    ))))))

    value_ty-Safe :
        (o : HirOption) (x : Option Ty) (at : Span)
        → IsLoweredOption m o
        → Safe (value_ty m ret o x at) (λ Γ i Γ'.
          IsClean m Γ
          → IsProperOption m x
          → IsClean m Γ' × IsProperOption m (i.0) × ValueType m ret Γ o (i.0) Γ')
    value_ty-Safe absent x at w = pure-Safe (none, at) (λ Γ c y. (c, tt, refl))
    value_ty-Safe (present e) x at w =
        bind-Safe (expr_ty-Safe e x w) (λ t. pure-Safe (some t, span_of e) (λ Γ₁ Γ r c y. r c y))

    return_ty-Safe :
        (o : HirOption) (at : Span)
        → IsLoweredOption m o
        → Safe (return_ty m ret o at) (λ Γ a Γ'. IsClean m Γ → IsClean m Γ' × ReturnType Γ o Γ')
    return_ty-Safe absent at w =
        last-Safe (empty_return-Step m ret at) (λ Γ a k c. (c, (refl, k rp)))
    return_ty-Safe (present e) at w = bind-Safe (expr_ty-Safe e (some ret) w) (λ t.
        step-Safe (unify-Step m t ret (span_of e)) (λ u.
          pure-Safe tt
            (λ Γ₁ k Γ r c. let (c₁, p, h) = r c rp in let (x, y) = k p rp in (c₁, as_type y h))))

    stmts_ty-Safe :
        (ss : HirStmts)
        → AreLoweredStmts m ss
        → Safe (stmts_ty m ret ss) (λ Γ a Γ'. IsClean m Γ → IsClean m Γ' × StmtsType m ret Γ ss Γ')
    stmts_ty-Safe done w = pure-Safe tt (λ Γ c. (c, StmtsType.no_stmts))
    stmts_ty-Safe (let_then v a e at ss) (y, w, w') =
        bind-Safe (value_ty-Safe e (annotation a) at w) (λ i.
          step-Safe (annotate-Step m (annotation a) (i.0) (i.1) at) (λ t.
            then-Safe (bind_local-Safe v t) (
              map-Safe (stmts_ty-Safe ss w') (λ Γ₂ z Γ' r₂ Γ₁ z' q k Γ r c.
                let (c₁, p, h) = r c y in
                let (p', b, f) = k y p in
                let (c₂, hs) = r₂ (subst (IsClean m) q (IsClean-extend m Γ₁ v t c₁ p')) in
                let hs' = subst (λ Δ. StmtsType m ret Δ ss Γ') (sym q) hs in
                (c₂, let-StmtsType m ret Γ Γ₁ Γ' v a e at ss (i.0) t h b f hs')))))
    stmts_ty-Safe (assign_then p e at ss) (w, w') = bind-Safe (place_ty-Safe m rm p) (λ place.
        bind-Safe (expr_ty-Safe e (some place) w) (λ t.
          step-Safe (unify-Step m t place (span_of e)) (λ u.
            map-Safe (stmts_ty-Safe ss w') (λ Γ₂ z Γ' r₃ k Γ₁ r₂ Γ r₁ c.
              let ((v, b, fs), q, g) = r₁ c in
              let (c₂, n, h) = r₂ (subst (IsClean m) g c) q in
              let (x, y) = k n q in
              let h' = subst (λ Δ. HasType m ret Δ e place Γ₂) (sym g) (as_type y h) in
              let (c₃, hs) = r₃ c₂ in (c₃, StmtsType.assign b fs h' hs)))))
    stmts_ty-Safe (expr_then e semi ss) (w, w') = bind-Safe (expr_ty-Safe e none w) (λ t.
        map-Safe (stmts_ty-Safe ss w') (λ Γ₁ z Γ' r₂ Γ r c.
          let (c₁, p, h) = r c tt in let (c₂, hs) = r₂ c₁ in (c₂, StmtsType.expr h hs)))
    stmts_ty-Safe (return_then e at ss) (w, w') = then-Safe (return_ty-Safe e at w) (
        map-Safe (stmts_ty-Safe ss w') (λ Γ₁ z Γ' r₂ Γ z' r c.
          let (c₁, h) = r c in let (c₂, hs) = r₂ c₁ in (c₂, return_StmtsType Γ Γ₁ Γ' e at ss h hs)))
