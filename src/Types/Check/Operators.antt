-- ===== src/Types/Check/Operators.antt =====
-- What the operators and literals of a run without errors have for types: crates/ontixa-types/src/check.rs.
use ontixa.Prelude.{
  and-both, ℕ, ◌≡◌, refl, sym, ◌∙◌, subst, inl, inr, Bool, true, false, not, ◌&&◌, ◌||◌, Option,
  none, some, Bool-cases, if◌then◌else◌, arith,
}
use ontixa.Source.Span.{Span}
use ontixa.Types.Ty.{Ty, ElemTy, ty, elem, is_integer, is_numeric, same_ty, compatible}
use ontixa.Types.Compatible.{same_ty_iff, elem_iff}
use ontixa.Types.Scope.{ModuleScope}
use ontixa.Hir.{Literal}
use ontixa.Mir.{BinOp, UnOp}
use ontixa.Types.Check.State.{Code, pure, fail, unsupported_operation, type_mismatch}
use ontixa.Types.Check.Rules.{
  literal_ty, int_ty, float_ty, int_fits, class_of, is_add, reject, arithmetic_ty, equality_ty,
  order_ty, logic_ty, operator_ty, is_comparable, is_ordered, OpClass,
}
use ontixa.Types.Check.Access.{unary_result}
use ontixa.Types.Check.Safe.{is_error, Step, if-Step, pure-Step, fail-Step}
use ontixa.Types.Check.Proper.{IsProper, proper-poison, compatible_eq}
use ontixa.Types.Typing.{OpType, UnaryType, LiteralType}

module _ (m : ModuleScope) where
  pub numeric-IsProper : (t : Ty) → is_numeric t ≡ true → IsProper m t
  unfolding is_numeric is_integer
  numeric-IsProper Ty.poison h = absurd (let z : ⊥ = cc in z)
  numeric-IsProper (Ty.struct d) h = absurd (let z : ⊥ = cc in z)
  numeric-IsProper (Ty.array (ElemTy.struct d)) h = absurd (let z : ⊥ = cc in z)
  numeric-IsProper (Ty.array ElemTy.bool) h = tt
  numeric-IsProper (Ty.array _) h = tt
  numeric-IsProper Ty.bool h = tt
  numeric-IsProper _ h = tt

  pub integer-IsProper : (t : Ty) → is_integer t ≡ true → IsProper m t
  unfolding is_integer
  integer-IsProper Ty.poison h = absurd (let z : ⊥ = cc in z)
  integer-IsProper (Ty.struct d) h = absurd (let z : ⊥ = cc in z)
  integer-IsProper (Ty.array (ElemTy.struct d)) h = absurd (let z : ⊥ = cc in z)
  integer-IsProper (Ty.array ElemTy.bool) h = tt
  integer-IsProper (Ty.array _) h = tt
  integer-IsProper Ty.bool h = tt
  integer-IsProper _ h = tt

  pub element-IsProper : (e : ElemTy) → IsProper m (Ty.array e) → IsProper m (ty e)
  unfolding ty
  element-IsProper (ElemTy.struct d) h = h
  element-IsProper ElemTy.bool h = tt
  element-IsProper _ h = tt

  of_element-IsProper : (e : ElemTy) → IsProper m (ty e) → IsProper m (Ty.array e)
  unfolding ty
  of_element-IsProper (ElemTy.struct d) h = h
  of_element-IsProper ElemTy.bool h = tt
  of_element-IsProper _ h = tt

  pub array-IsProper :
      (t : Ty) (e : ElemTy) → elem t ≡ some e → IsProper m t → IsProper m (Ty.array e)
  array-IsProper t e h p = of_element-IsProper e (subst (IsProper m) (sym ((elem_iff t e).0 h)) p)

  int_ty-integer : (o : Option Ty) → is_integer (int_ty o) ≡ true
  unfolding int_ty
  int_ty-integer none = unfold is_integer in refl
  int_ty-integer (some t) = elim (Bool-cases (is_integer t)) [
    | inl h ↦ rw (h, int_ty) h
    | inr h ↦ rw (h, int_ty) (unfold is_integer in refl)
  ]

  float_ty-Type :
      (b : ℕ) (o : Option Ty) → LiteralType (Literal.float b) (float_ty o) × IsProper m (float_ty o)
  unfolding float_ty
  float_ty-Type b none = (LiteralType.f64, tt)
  float_ty-Type b (some Ty.f32) = (LiteralType.f32, tt)
  float_ty-Type b (some Ty.bool) = (LiteralType.f64, tt)
  float_ty-Type b (some _) = (LiteralType.f64, tt)

  pub literal_ty-Step :
      (l : Literal) (expected : Option Ty) (at : Span)
      → Step (literal_ty l expected at) (λ t. LiteralType l t × IsProper m t)
  unfolding literal_ty
  literal_ty-Step (Literal.int v) expected at =
      let i = int_ty-integer expected in
      if-Step (int_fits v (int_ty expected))
        (λ h. pure-Step _ (LiteralType.int i h, integer-IsProper _ i)) (λ h. fail-Step _ at refl)
  literal_ty-Step (Literal.float b) expected at = pure-Step _ (float_ty-Type b expected)
  literal_ty-Step (Literal.str s) expected at = pure-Step _ (LiteralType.str, tt)
  literal_ty-Step (Literal.char c) expected at = pure-Step _ (LiteralType.char, tt)
  literal_ty-Step (Literal.bool b) expected at = pure-Step _ (LiteralType.bool, tt)

  error_if : (b : Bool) → is_error (if b then unsupported_operation else type_mismatch) ≡ true
  error_if true = refl
  error_if false = refl

  two-proper :
      {P : Type 0} (l r : Ty)
      → (same_ty l Ty.poison || same_ty r Ty.poison) ≡ true
      → IsProper m l
      → IsProper m r
      → P
  two-proper l r h p q =
      let a = proper-poison m l p in
      let b = proper-poison m r q in absurd (let z : ⊥ = ground arith in z)

  -- Of two proper types a report is made.
  reject-Step :
      {P : Ty → Type 0} (l r : Ty) (at : Span)
      → Step (reject l r at) (λ t. IsProper m l → IsProper m r → P t)
  unfolding reject
  reject-Step l r at =
      if-Step (same_ty l Ty.poison || same_ty r Ty.poison) (λ h. pure-Step _ (two-proper l r h))
        (λ h. fail-Step _ at (error_if (compatible l r)))

  -- Both operands have the type `l`, and the result is `t`.
  abbrev Operated : BinOp → Ty → Ty → Ty → Type 0
  Operated op l r t = IsProper m l → IsProper m r → (l ≡ r) × OpType op l t × IsProper m t

  concat-Operated :
      (op : BinOp) (l r : Ty)
      → is_add op ≡ true
      → same_ty l Ty.str ≡ true
      → same_ty r Ty.str ≡ true
      → (l ≡ r) × OpType op l Ty.str × IsProper m Ty.str
  unfolding is_add
  concat-Operated BinOp.add l r a p q =
      let e = (same_ty_iff l Ty.str).0 p in
      let f = (same_ty_iff r Ty.str).0 q in
      (e ∙ sym f, subst (λ t. OpType BinOp.add t Ty.str) (sym e) OpType.concat, tt)
  concat-Operated _ l r a p q = absurd (let z : ⊥ = cc in z)

  arithmetic_ty-Step :
      (op : BinOp) (l r : Ty) (at : Span)
      → class_of op ≡ OpClass.arithmetic
      → Step (arithmetic_ty op l r at) (Operated op l r)
  unfolding arithmetic_ty
  arithmetic_ty-Step op l r at c =
      if-Step (is_numeric l && compatible l r)
        (λ h. pure-Step _ (λ p q.
          let (a, b) = and-both (is_numeric l) (compatible l r) h in
          (compatible_eq m l r b p q, OpType.arith_op c a, p)))
        (λ h.
          if-Step (is_add op && (same_ty l Ty.str && same_ty r Ty.str))
            (λ k. pure-Step _ (λ p q.
              let (a, k') = and-both (is_add op) (same_ty l Ty.str && same_ty r Ty.str) k in
              let (b, d) = and-both (same_ty l Ty.str) (same_ty r Ty.str) k' in
              concat-Operated op l r a b d))
            (λ k. reject-Step l r at))

  comparable-known :
      (l : Ty)
      → (not (same_ty l Ty.poison) && not (is_comparable l)) ≡ false
      → same_ty l Ty.poison ≡ false
      → is_comparable l ≡ true
  comparable-known l k a = elim (Bool-cases (is_comparable l)) [
    | inl h ↦ h
    | inr h ↦ absurd (let z : true ≡ false = sym (rw (a, h) refl) ∙ k in let w : ⊥ = cc in w)
  ]

  not_false : (b : Bool) → not b ≡ false → b ≡ true
  not_false true h = refl
  not_false false h = sym h

  equality_ty-Step :
      (op : BinOp) (l r : Ty) (at : Span)
      → class_of op ≡ OpClass.equality
      → Step (equality_ty l r at) (Operated op l r)
  unfolding equality_ty
  equality_ty-Step op l r at c =
      if-Step (not (compatible l r)) (λ h. fail-Step _ at refl)
        (λ h.
          if-Step (not (same_ty l Ty.poison) && not (is_comparable l)) (λ k. fail-Step _ at refl)
            (λ k. pure-Step _ (λ p q.
              let c' = comparable-known l k (proper-poison m l p) in
              (
                compatible_eq m l r (not_false (compatible l r) h) p q,
                OpType.equality_op c c',
                tt,
              ))))

  order_ty-Step :
      (op : BinOp) (l r : Ty) (at : Span)
      → class_of op ≡ OpClass.order
      → Step (order_ty l r at) (Operated op l r)
  unfolding order_ty
  order_ty-Step op l r at c =
      if-Step (is_ordered l && compatible l r)
        (λ h. pure-Step _ (λ p q.
          let (a, b) = and-both (is_ordered l) (compatible l r) h in
          (compatible_eq m l r b p q, OpType.order_op c a, tt)))
        (λ h. reject-Step l r at)

  logic_ty-Step :
      (op : BinOp) (l r : Ty) (at : Span)
      → class_of op ≡ OpClass.logic
      → Step (logic_ty l r at) (Operated op l r)
  unfolding logic_ty
  logic_ty-Step op l r at c =
      if-Step (same_ty l Ty.bool && same_ty r Ty.bool)
        (λ h. pure-Step _ (λ p q.
          let (a, b) = and-both (same_ty l Ty.bool) (same_ty r Ty.bool) h in
          let e = (same_ty_iff l Ty.bool).0 a in
          let f = (same_ty_iff r Ty.bool).0 b in
          (e ∙ sym f, subst (λ t. OpType op t Ty.bool) (sym e) (OpType.logic_op c), tt)))
        (λ h.
          if-Step (same_ty l Ty.poison || same_ty r Ty.poison) (λ k. pure-Step _ (two-proper l r k))
            (λ k. fail-Step _ at refl))

  pub operator_ty-Step :
      (op : BinOp) (l r : Ty) (at : Span) → Step (operator_ty op l r at) (Operated op l r)
  unfolding operator_ty
  operator_ty-Step op l r at =
      elim (class_of op)
          as (λ k.
            class_of op ≡ k
            → Step
                (elim k [
                  | OpClass.arithmetic ↦ arithmetic_ty op l r at
                  | OpClass.equality ↦ equality_ty l r at
                  | OpClass.order ↦ order_ty l r at
                  | OpClass.logic ↦ logic_ty l r at
                ])
                (Operated op l r)) [
                  | OpClass.arithmetic ↦ arithmetic_ty-Step op l r at
                  | OpClass.equality ↦ equality_ty-Step op l r at
                  | OpClass.order ↦ order_ty-Step op l r at
                  | OpClass.logic ↦ logic_ty-Step op l r at
                ]
        refl

  unary_poison-Step :
      {P : Ty → Type 0} (t : Ty) (code : Code) (at : Span)
      → is_error code ≡ true
      → Step
          (if same_ty t Ty.poison then pure Ty.poison else fail code at)
          (λ u. IsProper m t → P u)
  unary_poison-Step t code at e =
      if-Step (same_ty t Ty.poison)
        (λ k. pure-Step _ (λ p. absurd (let a = proper-poison m t p in let z : ⊥ = cc in z)))
        (λ k. fail-Step code at e)

  pub unary_result-Step :
      (op : UnOp) (t : Ty) (at : Span)
      → Step (unary_result op t at) (λ u. IsProper m t → (t ≡ u) × UnaryType op u)
  unfolding unary_result
  unary_result-Step UnOp.neg t at =
      if-Step (is_numeric t) (λ h. pure-Step _ (λ p. (refl, UnaryType.neg_op h)))
        (λ h. unary_poison-Step t unsupported_operation at refl)
  unary_result-Step UnOp.not t at =
      if-Step (same_ty t Ty.bool)
        (λ h. pure-Step _ (λ p. ((same_ty_iff t Ty.bool).0 h, UnaryType.not_op)))
        (λ h. unary_poison-Step t type_mismatch at refl)
