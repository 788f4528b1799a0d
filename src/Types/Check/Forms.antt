-- ===== src/Types/Check/Forms.antt =====
-- The forms of crates/ontixa-types/src/check.rs around the loops over their parts: calls, literals of
-- data types, negated literals and what the postconditions of the parts give for the whole.
use ontixa.Prelude.{
  ℕ, ◌≡◌, refl, sym, subst, inl, inr, true, ◌⊎◌, List, [], ◌∷◌, Option, none, some, All, length,
  get_elem?, Bool-cases,
}
use ontixa.Prelude.Int.{ℤ}
use ontixa.Source.Span.{Span}
use ontixa.Types.Ty.{Ty, ElemTy, TypeRef, ty, from_ref, is_integer, is_numeric}
use ontixa.Types.Scope.{
  ModuleScope, DataShape, FieldDef, VariantDef, scope_sig, data_shape, is_enum,
}
use ontixa.Hir.{
  HirExpr, HirExprKind, HirExprs, HirOption, HirInits, HirStmts, FnSig, Name, node, absent, present,
  let_then,
}
use ontixa.Types.Check.State.{M, unsupported_operation}
use ontixa.Types.Check.Rules.{numeric_context, operand_context, class_of, OpClass}
use ontixa.Types.Check.Access.{fold_with}
use ontixa.Types.Check.Steps.{
  param_types, payload_types, arity, call_ty, variant_args_ty, variant_ty, struct_ty, with_field,
  annotation,
}
use ontixa.Types.Check.Safe.{
  Post, Safe, then-Safe, step_then-Safe, bind-Safe, map-Safe, pure-Safe, if-Safe, crash-Safe,
  report_then-Safe, set_slots-Step,
}
use ontixa.Types.Check.Proper.{IsProper, IsProperOption, IsClean, IsResolved}
use ontixa.Types.Check.Operators.{integer-IsProper, numeric-IsProper}
use ontixa.Types.Check.Accesses.{FieldNode}
use ontixa.Types.Check.Joins.{Agrees, IsIntegerOption, check_arity-Step}
use ontixa.Types.Check.Patterns.{check_missing-Step}
use ontixa.Types.Typing.{Ctx, extend, HasType, ArgsType, InitsType, StmtsType, RangeType}
use ontixa.Mir.{BinOp}

module _ (m : ModuleScope) where
  pub numeric_context-IsProper : (o : Option Ty) → IsProperOption m (numeric_context o)
  unfolding numeric_context
  numeric_context-IsProper none = tt
  numeric_context-IsProper (some t) = elim (Bool-cases (is_numeric t)) [
    | inl h ↦ rw (h) (numeric-IsProper m t h)
    | inr h ↦ rw (h) tt
  ]

  pub operand_context-IsProper :
      (op : BinOp) (o : Option Ty) → IsProperOption m (operand_context op o)
  unfolding operand_context
  operand_context-IsProper op o =
      elim (class_of op)
        as (λ k. IsProperOption m (elim k [ OpClass.arithmetic ↦ numeric_context o | _ ↦ none ])) [
          | OpClass.arithmetic ↦ numeric_context-IsProper o
          | _ ↦ tt
        ]

  payload_types-All :
      (ts : List TypeRef)
      → All (λ (t : TypeRef). IsProper m (from_ref t)) ts
      → All (IsProper m) (payload_types ts)
  payload_types-All [] h = tt
  payload_types-All (t ∷ ts) (p, h) = (p, payload_types-All ts h)

  pub integer_option-IsProper : (o : Option Ty) → IsIntegerOption o → IsProperOption m o
  integer_option-IsProper none h = tt
  integer_option-IsProper (some t) h = integer-IsProper m t h

module _ (m : ModuleScope) (rm : IsResolved m) (ret : Ty) where
  -- The postcondition of an expression in the context `expected`.
  abbrev pub Typed : HirExpr → Option Ty → Post Ty
  Typed e expected Γ t Γ' =
      IsClean m Γ → IsProperOption m expected → IsClean m Γ' × IsProper m t × HasType m ret Γ e t Γ'

  abbrev pub TypedArgs : HirExprs → List Ty → Post (Unit {0})
  TypedArgs es ts Γ a Γ' =
      IsClean m Γ
      → All (IsProper m) ts
      → arity es ≡ length ts
      → IsClean m Γ' × ArgsType m ret Γ es ts Γ'

  module _ (id : ℕ) (at : Span) (es : HirExprs) (args : List Ty → M (Unit {0}))
      (h : (ts : List Ty) → Safe (args ts) (TypedArgs es ts)) (expected : Option Ty) where
    pub call_ty-Safe :
        (d : ℕ) (o : Option FnSig)
        → scope_sig m d ≡ o
        → Safe (call_ty es args o at) (Typed (node id at (HirExprKind.call d es)) expected)
    unfolding call_ty
    call_ty-Safe d none e = crash-Safe Ty.poison
    call_ty-Safe d (some sig) e = step_then-Safe (check_arity-Step es (param_types sig.params) at) (
        then-Safe (h (param_types sig.params)) (
          pure-Safe (from_ref sig.ret) (λ Γ₁ Γ a r z n c x.
            let (c₁, ht) = r c (rm.params d sig e) n in
            (c₁, rm.returns d sig e, HasType.call sig e ht))))

    pub variant_ty-Safe :
        (d v : ℕ) (s : DataShape) (x : VariantDef)
        → data_shape m d ≡ some s
        → get_elem? s.variants v ≡ some x
        → Safe
            (variant_ty es args d (data_shape m d) v at)
            (Typed (node id at (HirExprKind.variant_lit d v es)) expected)
    unfolding variant_ty variant_args_ty
    variant_ty-Safe d v s x e f =
        let Whole = Typed (node id at (HirExprKind.variant_lit d v es)) expected in
        let found = step_then-Safe {Q = Whole} (check_arity-Step es (payload_types x.payload) at) (
          then-Safe (h (payload_types x.payload)) (
            pure-Safe (Ty.struct d) (λ Γ₁ Γ a r z n c y.
              let (c₁, ht) = r c (payload_types-All m x.payload (rm.payloads d s e v x f)) n in
              (c₁, (s, e), HasType.variant_lit s x e f ht)))) in
        subst (λ o. Safe (variant_ty es args d o v at) Whole) (sym e)
          (subst (λ o. Safe (variant_args_ty es args d o at) Whole) (sym f) found)

  module _ (id : ℕ) (at : Span) (expected : Option Ty) where
    pub struct_ty-Safe :
        (d : ℕ) (fs : HirInits) (inits : DataShape → M (List ℕ)) (values : M (Unit {0}))
        (o : Option DataShape)
        → data_shape m d ≡ o
        → ((s : DataShape)
            → data_shape m d ≡ some s
            → Safe
                (inits s)
                (λ Γ slots Γ'. IsClean m Γ → IsClean m Γ' × InitsType m ret s Γ fs [] [] slots Γ'))
        → Safe values (λ Γ a Γ'. Unit {0})
        → Safe
            (struct_ty id inits values d o at)
            (Typed (node id at (HirExprKind.struct_lit d fs)) expected)
    unfolding struct_ty
    struct_ty-Safe d fs inits values none e h g = crash-Safe Ty.poison
    struct_ty-Safe d fs inits values (some s) e h g =
        if-Safe (is_enum s)
          (λ k. report_then-Safe unsupported_operation at refl (
            then-Safe g (
              step_then-Safe (set_slots-Step id [])
                (pure-Safe (Ty.struct d) (λ Γ z u Γ₀ w v. tt)))))
          (λ k. bind-Safe (h s e) (λ slots. step_then-Safe (check_missing-Step s slots at) (
            step_then-Safe (set_slots-Step id slots) (
              pure-Safe (Ty.struct d) (λ Γ' z u w f Γ r c x.
                let (c', ht) = r c in (c', (s, e), HasType.struct_lit s slots e k ht f))))))

pub with_field-Safe :
    {value : FieldDef → M Ty} {R : FieldDef → Post Ty} (o : Option FieldDef)
    → ((f : FieldDef) → Safe (value f) (R f))
    → Safe (with_field value o) (λ Γ t Γ'. (f : FieldDef) × (o ≡ some f) × R f Γ t Γ')
with_field-Safe none h = crash-Safe Ty.poison
with_field-Safe (some f) h = map-Safe (h f) (λ Γ t Γ' r. (f, refl, r))

-- The values of two folded parts.
abbrev WhenSome : {A : Type 0} → (A → Type 0) → Option A → Type 0
WhenSome P none = Unit
WhenSome P (some a) = P a

abbrev Folded : Option ℤ → ℤ × Ty → Type 0
Folded o p = (o ≡ some (p.0)) × (is_integer (p.1) ≡ true)

fold_with-WhenSome :
    (o : Option ℤ) (expected : Option Ty) → WhenSome (Folded o) (fold_with o expected)
unfolding fold_with
fold_with-WhenSome none expected = tt
fold_with-WhenSome (some v) none = (refl, unfold is_integer in refl)
fold_with-WhenSome (some v) (some t) = elim (Bool-cases (is_integer t)) [
  | inl h ↦ rw (h) (refl, h)
  | inr h ↦ rw (h) tt
]

pub fold_with-Folded :
    (o : Option ℤ) (expected : Option Ty) (p : ℤ × Ty) → fold_with o expected ≡ some p → Folded o p
fold_with-Folded o expected p h = subst (WhenSome (Folded o)) h (fold_with-WhenSome o expected)

module _ (m : ModuleScope) (ret : Ty) where
  pub field-HasType :
      {Γ Γ' : Ctx} {e : HirExpr} {t u : Ty} (id : ℕ) (at : Span) (n : Name) (f : Option ℕ)
      → FieldNode m t n u
      → HasType m ret Γ e t Γ'
      → HasType m ret Γ (node id at (HirExprKind.field e n f)) u Γ'
  field-HasType {Γ = Γ} {Γ' = Γ'} {e = e} id at n f (inl (l, i, q)) h =
      subst (λ u. HasType m ret Γ (node id at (HirExprKind.field e n f)) u Γ') (sym q)
        (HasType.length_of h l i)
  field-HasType id at n f (inr k) h = HasType.field h k

  -- A loop variable has the type `t`.
  abbrev pub Iterates : Ctx → HirExpr → Ty → Ctx → Type 0
  Iterates Γ (node j at (HirExprKind.range lo (present hi))) t Γ' = RangeType m ret Γ lo hi t Γ'
  Iterates Γ e t Γ' = (u : ElemTy) × HasType m ret Γ e (Ty.array u) Γ' × (t ≡ ty u)

  abbrev pub ValueType : Ctx → HirOption → Option Ty → Ctx → Type 0
  ValueType Γ absent none Γ' = Γ ≡ Γ'
  ValueType Γ (present e) (some t) Γ' = HasType m ret Γ e t Γ'
  ValueType Γ absent (some t) Γ' = ⊥
  ValueType Γ (present e) none Γ' = ⊥

  pub let-StmtsType :
      (Γ Γ₁ Γ' : Ctx) (x : ℕ) (a : Option TypeRef) (e : HirOption) (at : Span) (ss : HirStmts)
      (i : Option Ty) (t : Ty)
      → ValueType Γ e i Γ₁
      → Agrees i t
      → ((annotation a ≡ none) × (i ≡ some t)) ⊎ (annotation a ≡ some t)
      → StmtsType m ret (extend Γ₁ x t) ss Γ'
      → StmtsType m ret Γ (let_then x a e at ss) Γ'
  let-StmtsType Γ Γ₁ Γ' x a (present e) at ss (some u) t h q k s =
      let z : (annotation a ≡ none) ⊎ (annotation a ≡ some t) = elim k [
        | inl (n, w) ↦ inl n
        | inr w ↦ inr w
      ] in
      StmtsType.let_init (subst (λ v. HasType m ret Γ e v Γ₁) q h) z s
  let-StmtsType Γ Γ₁ Γ' x (some a) absent at ss none t h q (inr w) s =
      let e : from_ref a ≡ t = cc in
      StmtsType.let_declared (
        subst (λ v. StmtsType m ret (extend Γ x v) ss Γ') (sym e)
          (subst (λ Δ. StmtsType m ret (extend Δ x t) ss Γ') (sym h) s))
  let-StmtsType Γ Γ₁ Γ' x (some a) absent at ss none t h q (inl (n, w)) s =
      absurd (let z : ⊥ = cc in z)
  let-StmtsType Γ Γ₁ Γ' x none absent at ss none t h q (inr w) s = absurd (let z : ⊥ = cc in z)
  let-StmtsType Γ Γ₁ Γ' x none absent at ss none t h q (inl (n, w)) s = absurd (let z : ⊥ = cc in z)
  let-StmtsType Γ Γ₁ Γ' x a absent at ss (some u) t h q k s = absurd h
  let-StmtsType Γ Γ₁ Γ' x a (present e) at ss none t h q k s = absurd h
