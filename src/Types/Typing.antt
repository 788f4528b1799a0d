-- ===== src/Types/Typing.antt =====
-- The typing rules of the language, which the checker of crates/ontixa-types/src/check.rs decides.
-- `HasType Γ e t Γ'`: in the bindings `Γ` the expression has the type `t`, and leaves the bindings `Γ'`.
use ontixa.Prelude.{
  ℕ, ◌≡◌, ◌⊎◌, Bool, true, false, List, [], ◌∷◌, ◌++◌, Option, none, some, length, get_elem?, All,
}
use ontixa.Prelude.Int.{ℤ}
use ontixa.Source.Span.{Span}
use ontixa.Types.Ty.{Ty, ElemTy, TypeRef, ty, elem, from_ref, is_integer, is_numeric}
use ontixa.Types.Scope.{
  ModuleScope, DataShape, FieldDef, VariantDef, scope_sig, data_shape, is_enum, is_len,
}
use ontixa.Hir.{
  HirExpr, HirExprKind, HirExprs, HirOption, HirInits, HirArms, HirStmts, HirPat, HirPlace, FnSig,
  Literal, Name, node, nil, cons, absent, present, end, init, no_arms, arm, done, let_then,
  assign_then, expr_then, return_then,
}
use ontixa.Mir.{BinOp, UnOp}
use ontixa.Memory.Facts.{update}
use ontixa.Types.Check.Complete.{can_complete, has_catchall, contains}
use ontixa.Types.Check.Rules.{OpClass, class_of, is_comparable, is_ordered, int_fits}
use ontixa.Types.Check.Access.{int_literal, negated_fits, rest, first, payload_ty}
use ontixa.Types.Check.Steps.{param_types, payload_types, annotation}

abbrev pub Ctx : Type 0
Ctx = ℕ → Option Ty

abbrev pub extend : Ctx → ℕ → Ty → Ctx
extend Γ x t = update Γ x (some t)

-- A text or an array, which has a length.
pub data HasLen : Ty → Type 0 where
  str : HasLen Ty.str
  array : (e : ElemTy) → HasLen (Ty.array e)

-- Indexing and slicing.
pub data IndexType : Ty → Ty → Type 0 where
  str : IndexType Ty.str Ty.str
  array : (e : ElemTy) → IndexType (Ty.array e) (ty e)

-- An operator on two operands of one type.
pub data OpType : BinOp → Ty → Ty → Type 0 where
  arith_op :
      {op : BinOp} {t : Ty} → class_of op ≡ OpClass.arithmetic → is_numeric t ≡ true → OpType op t t
  concat : OpType BinOp.add Ty.str Ty.str
  equality_op :
      {op : BinOp} {t : Ty}
      → class_of op ≡ OpClass.equality
      → is_comparable t ≡ true
      → OpType op t Ty.bool
  order_op :
      {op : BinOp} {t : Ty}
      → class_of op ≡ OpClass.order
      → is_ordered t ≡ true
      → OpType op t Ty.bool
  logic_op : {op : BinOp} → class_of op ≡ OpClass.logic → OpType op Ty.bool Ty.bool

pub data UnaryType : UnOp → Ty → Type 0 where
  neg_op : {t : Ty} → is_numeric t ≡ true → UnaryType UnOp.neg t
  not_op : UnaryType UnOp.not Ty.bool

pub data LiteralType : Literal → Ty → Type 0 where
  int : {v : ℤ} {t : Ty} → is_integer t ≡ true → int_fits v t ≡ true → LiteralType (Literal.int v) t
  f32 : {b : ℕ} → LiteralType (Literal.float b) Ty.f32
  f64 : {b : ℕ} → LiteralType (Literal.float b) Ty.f64
  str : {s : List ℕ} → LiteralType (Literal.str s) Ty.str
  char : {c : ℕ} → LiteralType (Literal.char c) Ty.char
  bool : {b : Bool} → LiteralType (Literal.bool b) Ty.bool

-- Some arm has the variant.
abbrev pub Covers : ℕ → HirArms → Type 0
Covers i no_arms = ⊥
Covers i (arm (HirPat.variant d v bs at) e s arms) = (v ≡ i) ⊎ Covers i arms
Covers i (arm (HirPat.bind x at) e s arms) = Covers i arms
Covers i (arm HirPat.poison e s arms) = Covers i arms

abbrev pub Exhaustive : DataShape → HirArms → Type 0
Exhaustive s arms =
    (has_catchall arms ≡ true) ⊎ All (λ (v : VariantDef). Covers v.index arms) s.variants

abbrev pub extend_payload : Ctx → List (Option ℕ) → List TypeRef → Ctx
extend_payload Γ [] ts = Γ
extend_payload Γ (none ∷ bs) ts = extend_payload Γ bs (rest ts)
extend_payload Γ (some x ∷ bs) ts = extend_payload (extend Γ x (payload_ty (first ts))) bs (rest ts)

-- Every index of a field has a slot.
abbrev pub Filled : DataShape → List ℕ → Type 0
Filled s slots = (i : ℕ) (f : FieldDef) → get_elem? s.fields i ≡ some f → contains i slots ≡ true

module _ (m : ModuleScope) where
  -- `f` is a field of the type with this name and the type `u`.
  pub data FieldType : Ty → Name → Ty → Type 0 where
    field :
        {d : ℕ} {n : Name} {i : ℕ} {f : FieldDef} (s : DataShape)
        → data_shape m d ≡ some s
        → s.field_index n.id ≡ some i
        → get_elem? s.fields i ≡ some f
        → FieldType (Ty.struct d) n (from_ref f.ty)

  pub data FieldsType : Ty → List Name → Ty → Type 0 where
    here : {t : Ty} → FieldsType t [] t
    step :
        {t u v : Ty} {n : Name} {ns : List Name}
        → FieldType t n u
        → FieldsType u ns v
        → FieldsType t (n ∷ ns) v

  -- The pattern against the enum `d`.
  pub data PatternType : ℕ → Ctx → HirPat → Ctx → Type 0 where
    variant :
        {d v : ℕ} {Γ : Ctx} {bs : List (Option ℕ)} {at : Span} (s : DataShape) (x : VariantDef)
        → data_shape m d ≡ some s
        → get_elem? s.variants v ≡ some x
        → length bs ≡ length x.payload
        → PatternType d Γ (HirPat.variant d v bs at) (extend_payload Γ bs x.payload)
    bind :
        {d x : ℕ} {Γ : Ctx} {at : Span}
        → PatternType d Γ (HirPat.bind (some x) at) (extend Γ x (Ty.struct d))
    wildcard : {d : ℕ} {Γ : Ctx} {at : Span} → PatternType d Γ (HirPat.bind none at) Γ

  -- The expression never completes, for some types of the scrutinees in it.
  abbrev pub Stops : HirExpr → Type 0
  Stops e = (types : ℕ → Ty) × (can_complete m types e ≡ false)

  module _ (ret : Ty) where
    mutual
      pub data HasType : Ctx → HirExpr → Ty → Ctx → Type 0 where
        literal :
            {Γ : Ctx} {i : ℕ} {at : Span} {l : Literal} {t : Ty}
            → LiteralType l t
            → HasType Γ (node i at (HirExprKind.literal l)) t Γ
        var :
            {Γ : Ctx} {i : ℕ} {at : Span} {x : ℕ} {t : Ty}
            → Γ x ≡ some t
            → HasType Γ (node i at (HirExprKind.var x)) t Γ
        call :
            {Γ Γ' : Ctx} {i d : ℕ} {at : Span} {es : HirExprs} (sig : FnSig)
            → scope_sig m d ≡ some sig
            → ArgsType Γ es (param_types sig.params) Γ'
            → HasType Γ (node i at (HirExprKind.call d es)) (from_ref sig.ret) Γ'
        length_of :
            {Γ Γ' : Ctx} {i : ℕ} {at : Span} {e : HirExpr} {n : Name} {f : Option ℕ} {t : Ty}
            → HasType Γ e t Γ'
            → HasLen t
            → is_len m n.id ≡ true
            → HasType Γ (node i at (HirExprKind.field e n f)) Ty.i32 Γ'
        field :
            {Γ Γ' : Ctx} {i : ℕ} {at : Span} {e : HirExpr} {n : Name} {f : Option ℕ} {t u : Ty}
            → HasType Γ e t Γ'
            → FieldType t n u
            → HasType Γ (node i at (HirExprKind.field e n f)) u Γ'
        len :
            {Γ Γ' : Ctx} {i : ℕ} {at : Span} {e : HirExpr} {t : Ty}
            → HasType Γ e t Γ'
            → HasLen t
            → HasType Γ (node i at (HirExprKind.len e)) Ty.i32 Γ'
        index :
            {Γ Γ₁ Γ' : Ctx} {i : ℕ} {at : Span} {e k : HirExpr} {t u v : Ty}
            → HasType Γ e t Γ₁
            → HasType Γ₁ k u Γ'
            → is_integer u ≡ true
            → IndexType t v
            → HasType Γ (node i at (HirExprKind.index e k)) v Γ'
        slice :
            {Γ Γ₁ Γ₂ Γ' : Ctx} {i : ℕ} {at : Span} {e : HirExpr} {lo hi : HirOption} {t u v : Ty}
            → HasType Γ e t Γ₁
            → HasLen t
            → BoundType Γ₁ lo u Γ₂
            → BoundType Γ₂ hi v Γ'
            → HasType Γ (node i at (HirExprKind.slice e lo hi)) t Γ'
        array_lit :
            {Γ Γ' : Ctx} {i : ℕ} {at : Span} {es : HirExprs} {t : Ty} {e : ElemTy}
            → ElemsType Γ es t Γ'
            → elem t ≡ some e
            → HasType Γ (node i at (HirExprKind.array_lit es)) (Ty.array e) Γ'
        for_array :
            {Γ Γ₁ Γ' : Ctx} {i x : ℕ} {at : Span} {e b : HirExpr} {u : ElemTy} {t : Ty}
            → HasType Γ e (Ty.array u) Γ₁
            → HasType (extend Γ₁ x (ty u)) b t Γ'
            → HasType Γ (node i at (HirExprKind.for_in x e b)) Ty.unit Γ'
        for_range :
            {Γ Γ₁ Γ' : Ctx} {i j x : ℕ} {at at' : Span} {lo : HirOption} {hi b : HirExpr} {t u : Ty}
            → RangeType Γ lo hi t Γ₁
            → HasType (extend Γ₁ x t) b u Γ'
            → HasType Γ
                (node i at
                  (HirExprKind.for_in x (node j at' (HirExprKind.range lo (present hi))) b))
                Ty.unit
                Γ'
        binary :
            {Γ Γ₁ Γ' : Ctx} {i : ℕ} {at : Span} {op : BinOp} {l r : HirExpr} {t u : Ty}
            → HasType Γ l t Γ₁
            → HasType Γ₁ r t Γ'
            → OpType op t u
            → HasType Γ (node i at (HirExprKind.binary op l r)) u Γ'
        binary_number :
            {Γ Γ₁ Γ' : Ctx} {i : ℕ} {at : Span} {op : BinOp} {l r : HirExpr} {t u : Ty}
            → HasType Γ r t Γ₁
            → HasType Γ₁ l t Γ'
            → OpType op t u
            → HasType Γ (node i at (HirExprKind.binary op l r)) u Γ'
        negative :
            {Γ : Ctx} {i : ℕ} {at : Span} {e : HirExpr} {v : ℤ} {t : Ty}
            → int_literal e ≡ some v
            → is_integer t ≡ true
            → negated_fits v t ≡ true
            → HasType Γ (node i at (HirExprKind.unary UnOp.neg e)) t Γ
        unary :
            {Γ Γ' : Ctx} {i : ℕ} {at : Span} {op : UnOp} {e : HirExpr} {t : Ty}
            → HasType Γ e t Γ'
            → UnaryType op t
            → HasType Γ (node i at (HirExprKind.unary op e)) t Γ'
        if_then :
            {Γ Γ₁ Γ' : Ctx} {i : ℕ} {at : Span} {c e : HirExpr} {t : Ty}
            → HasType Γ c Ty.bool Γ₁
            → HasType Γ₁ e t Γ'
            → HasType Γ (node i at (HirExprKind.if_else c e absent)) Ty.unit Γ'
        -- A branch that never completes has any type.
        if_else :
            {Γ Γ₁ Γ₂ Γ' : Ctx} {i : ℕ} {at : Span} {c e f : HirExpr} {t u v : Ty}
            → HasType Γ c Ty.bool Γ₁
            → HasType Γ₁ e u Γ₂
            → HasType Γ₂ f v Γ'
            → (u ≡ t) ⊎ Stops e
            → (v ≡ t) ⊎ Stops f
            → HasType Γ (node i at (HirExprKind.if_else c e (present f))) t Γ'
        block :
            {Γ Γ₁ Γ' : Ctx} {i : ℕ} {at : Span} {ss : HirStmts} {e : HirExpr} {t : Ty}
            → StmtsType Γ ss Γ₁
            → HasType Γ₁ e t Γ'
            → HasType Γ (node i at (HirExprKind.block ss (present e))) t Γ'
        unit_block :
            {Γ Γ' : Ctx} {i : ℕ} {at : Span} {ss : HirStmts} {t : Ty}
            → StmtsType Γ ss Γ'
            → (t ≡ Ty.unit) ⊎ Stops (node i at (HirExprKind.block ss absent))
            → HasType Γ (node i at (HirExprKind.block ss absent)) t Γ'
        struct_lit :
            {Γ Γ' : Ctx} {i d : ℕ} {at : Span} {fs : HirInits} (s : DataShape) (slots : List ℕ)
            → data_shape m d ≡ some s
            → is_enum s ≡ false
            → InitsType s Γ fs [] [] slots Γ'
            → Filled s slots
            → HasType Γ (node i at (HirExprKind.struct_lit d fs)) (Ty.struct d) Γ'
        variant_lit :
            {Γ Γ' : Ctx} {i d v : ℕ} {at : Span} {es : HirExprs} (s : DataShape) (x : VariantDef)
            → data_shape m d ≡ some s
            → get_elem? s.variants v ≡ some x
            → ArgsType Γ es (payload_types x.payload) Γ'
            → HasType Γ (node i at (HirExprKind.variant_lit d v es)) (Ty.struct d) Γ'
        match_on :
            {Γ Γ₁ Γ' : Ctx} {i d : ℕ} {at : Span} {e : HirExpr} {arms : HirArms} {t : Ty}
            (s : DataShape)
            → HasType Γ e (Ty.struct d) Γ₁
            → data_shape m d ≡ some s
            → is_enum s ≡ true
            → ArmsType d Γ₁ arms t Γ'
            → Exhaustive s arms
            → HasType Γ (node i at (HirExprKind.match_on e arms)) t Γ'

      pub data ArgsType : Ctx → HirExprs → List Ty → Ctx → Type 0 where
        no_args : {Γ : Ctx} → ArgsType Γ nil [] Γ
        args :
            {Γ Γ₁ Γ' : Ctx} {e : HirExpr} {es : HirExprs} {t : Ty} {ts : List Ty}
            → HasType Γ e t Γ₁
            → ArgsType Γ₁ es ts Γ'
            → ArgsType Γ (cons e es) (t ∷ ts) Γ'

      pub data ElemsType : Ctx → HirExprs → Ty → Ctx → Type 0 where
        no_elems : {Γ : Ctx} {t : Ty} → ElemsType Γ nil t Γ
        elems :
            {Γ Γ₁ Γ' : Ctx} {e : HirExpr} {es : HirExprs} {t : Ty}
            → HasType Γ e t Γ₁
            → ElemsType Γ₁ es t Γ'
            → ElemsType Γ (cons e es) t Γ'

      -- An integer bound, which may be left out.
      pub data BoundType : Ctx → HirOption → Ty → Ctx → Type 0 where
        no_bound : {Γ : Ctx} {t : Ty} → BoundType Γ absent t Γ
        bound :
            {Γ Γ' : Ctx} {e : HirExpr} {t : Ty}
            → HasType Γ e t Γ'
            → is_integer t ≡ true
            → BoundType Γ (present e) t Γ'

      -- The bounds of a range have one type. A literal start is read after the end.
      pub data RangeType : Ctx → HirOption → HirExpr → Ty → Ctx → Type 0 where
        forward :
            {Γ Γ₁ Γ' : Ctx} {lo : HirOption} {hi : HirExpr} {t : Ty}
            → BoundType Γ lo t Γ₁
            → BoundType Γ₁ (present hi) t Γ'
            → RangeType Γ lo hi t Γ'
        backward :
            {Γ Γ₁ Γ' : Ctx} {lo : HirOption} {hi : HirExpr} {t : Ty}
            → BoundType Γ (present hi) t Γ₁
            → BoundType Γ₁ lo t Γ'
            → RangeType Γ lo hi t Γ'

      -- The written fields after those with the names `seen` and the indices `slots`.
      pub data InitsType
          : DataShape → Ctx → HirInits → List ℕ → List ℕ → List ℕ → Ctx → Type 0 where
        no_inits :
            {s : DataShape} {Γ : Ctx} {seen slots : List ℕ} → InitsType s Γ end seen slots slots Γ
        inits :
            {s : DataShape} {Γ Γ₁ Γ' : Ctx} {n : Name} {e : HirExpr} {fs : HirInits}
            {seen slots slots' : List ℕ} {i : ℕ} {f : FieldDef}
            → contains n.id seen ≡ false
            → s.field_index n.id ≡ some i
            → get_elem? s.fields i ≡ some f
            → HasType Γ e (from_ref f.ty) Γ₁
            → InitsType s Γ₁ fs (n.id ∷ seen) (slots ++ i ∷ []) slots' Γ'
            → InitsType s Γ (init n e fs) seen slots slots' Γ'

      -- An arm that never completes has any type.
      pub data ArmsType : ℕ → Ctx → HirArms → Ty → Ctx → Type 0 where
        last_arm : {d : ℕ} {Γ : Ctx} {t : Ty} → ArmsType d Γ no_arms t Γ
        next_arm :
            {d : ℕ} {Γ Γ₁ Γ₂ Γ' : Ctx} {p : HirPat} {e : HirExpr} {at : Span} {arms : HirArms}
            {t u : Ty}
            → PatternType d Γ p Γ₁
            → HasType Γ₁ e u Γ₂
            → (u ≡ t) ⊎ Stops e
            → ArmsType d Γ₂ arms t Γ'
            → ArmsType d Γ (arm p e at arms) t Γ'

      pub data StmtsType : Ctx → HirStmts → Ctx → Type 0 where
        no_stmts : {Γ : Ctx} → StmtsType Γ done Γ
        let_init :
            {Γ Γ₁ Γ' : Ctx} {x : ℕ} {a : Option TypeRef} {e : HirExpr} {at : Span} {ss : HirStmts}
            {t : Ty}
            → HasType Γ e t Γ₁
            → (annotation a ≡ none) ⊎ (annotation a ≡ some t)
            → StmtsType (extend Γ₁ x t) ss Γ'
            → StmtsType Γ (let_then x a (present e) at ss) Γ'
        let_declared :
            {Γ Γ' : Ctx} {x : ℕ} {a : TypeRef} {at : Span} {ss : HirStmts}
            → StmtsType (extend Γ x (from_ref a)) ss Γ'
            → StmtsType Γ (let_then x (some a) absent at ss) Γ'
        assign :
            {Γ Γ₁ Γ' : Ctx} {p : HirPlace} {e : HirExpr} {at : Span} {ss : HirStmts} {t u : Ty}
            → Γ p.base ≡ some u
            → FieldsType u p.fields t
            → HasType Γ e t Γ₁
            → StmtsType Γ₁ ss Γ'
            → StmtsType Γ (assign_then p e at ss) Γ'
        expr :
            {Γ Γ₁ Γ' : Ctx} {e : HirExpr} {semi : Bool} {ss : HirStmts} {t : Ty}
            → HasType Γ e t Γ₁
            → StmtsType Γ₁ ss Γ'
            → StmtsType Γ (expr_then e semi ss) Γ'
        return_value :
            {Γ Γ₁ Γ' : Ctx} {e : HirExpr} {at : Span} {ss : HirStmts}
            → HasType Γ e ret Γ₁
            → StmtsType Γ₁ ss Γ'
            → StmtsType Γ (return_then (present e) at ss) Γ'
        return_unit :
            {Γ Γ' : Ctx} {at : Span} {ss : HirStmts}
            → ret ≡ Ty.unit
            → StmtsType Γ ss Γ'
            → StmtsType Γ (return_then absent at ss) Γ'
