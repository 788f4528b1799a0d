-- ===== src/Types/Check/Result.antt =====
-- What a check of a body without errors shows: `run_body` and `check_body` of
-- crates/ontixa-types/src/check.rs.
use ontixa.Prelude.{
  ℕ, ◌≡◌, refl, sym, ◌∙◌, subst, inl, inr, ◌||◌, ◌⊎◌, List, [], ◌∷◌, Option, none, some, All, ◌==◌,
  Bool-cases, arith,
}
use ontixa.Source.Span.{Span}
use ontixa.Types.Ty.{Ty, from_ref, same_ty}
use ontixa.Types.Scope.{ModuleScope, scope_sig}
use ontixa.Hir.{
  HirExpr, HirExprKind, HirBody, FnSig, ParamDef, node, absent, present, id_of, span_of,
}
use ontixa.Types.Check.State.{missing_return, Checker, M, ◌>>=◌, ◌>>◌, get_types, set_ty}
use ontixa.Types.Check.Complete.{can_complete}
use ontixa.Types.Check.Steps.{param_types}
use ontixa.Types.Check.Walk.{expr_ty, kind_ty}
use ontixa.Types.Check.Body.{
  start, bind_params, needs_value, check_root, check_completion, check_sig, run_body, check_body,
}
use ontixa.Types.Check.Safe.{
  Post, Safe, Step, IsQuiet, then-Safe, map-Safe, last-Safe, pure-Safe, crash-Safe, bind-Step,
  if-Step, pure-Step, map-Step, report-Step, bind_local-Safe,
}
use ontixa.Types.Check.Proper.{IsProper, IsClean, IsResolved, IsClean-extend, unify-Step}
use ontixa.Types.Check.Joins.{expected_type}
use ontixa.Types.Check.Sound.{expr_ty-Safe}
use ontixa.Types.Lowered.{IsLowered}
use ontixa.Types.Typing.{Ctx, extend, Stops, HasType}

abbrev extend_params : Ctx → List ParamDef → Ctx
extend_params Γ [] = Γ
extend_params Γ (p ∷ ps) = extend_params (extend Γ p.symbol (from_ref p.ty)) ps

-- The bindings of the parameters alone.
abbrev pub params_ctx : List ParamDef → Ctx
params_ctx ps = extend_params (λ x. none) ps

abbrev IsBlock : HirExpr → Type 0
IsBlock (node i at (HirExprKind.block ss o)) = Unit
IsBlock _ = ⊥

-- A body that completes gives a value of the return type, or has no tail and returns unit.
abbrev pub Ends : ModuleScope → Ty → HirExpr → Ty → Type 0
Ends m ret (node i at (HirExprKind.block ss (present e))) t =
    (t ≡ ret) ⊎ Stops m (node i at (HirExprKind.block ss (present e)))
Ends m ret (node i at (HirExprKind.block ss absent)) t =
    (ret ≡ Ty.unit) ⊎ Stops m (node i at (HirExprKind.block ss absent))
Ends m ret _ t = ⊥

bind_params-Safe : (ps : List ParamDef) → Safe (bind_params ps) (λ Γ a Γ'. extend_params Γ ps ≡ Γ')
unfolding bind_params
bind_params-Safe [] = pure-Safe tt (λ Γ. refl)
bind_params-Safe (p ∷ ps) = then-Safe (bind_local-Safe p.symbol (from_ref p.ty)) (
    map-Safe (bind_params-Safe ps)
      (λ Γ₁ a Γ' h Γ z k. subst (λ Δ. extend_params Δ ps ≡ Γ') (sym k) h))

-- A run that reads the types after another, of which they have a property.
types-Safe :
    {r : M Ty} {k : (ℕ → Ty) → M (Unit {0})} {R : Post Ty} {F : (ℕ → Ty) → Ty → Type 0}
    {Q : Post (Unit {0})}
    → Safe r R
    → ((s : Checker) → F ((r s).1.types) ((r s).0))
    → ((t : Ty) (types : ℕ → Ty)
        → Safe (k types) (λ Γ₁ b Γ'. F types t → (Γ : Ctx) → R Γ t Γ₁ → Q Γ b Γ'))
    → Safe (r >>= λ t. get_types >>= k) Q
unfolding ◌>>=◌ get_types
types-Safe {r = r} h f g = record {
  quiet = λ s q. h.quiet s ((g ((r s).0) ((r s).1.types)).quiet ((r s).1) q);
  post = λ s q.
      let next = g ((r s).0) ((r s).1.types) in
      next.post ((r s).1) q (f s) s.locals (h.post s (next.quiet ((r s).1) q));
}

-- After a block the type of its tail is that of the block.
abbrev TailTyped : HirExpr → (ℕ → Ty) → Ty → Type 0
TailTyped (node i at (HirExprKind.block ss (present e))) types t = types (id_of e) ≡ t
TailTyped _ types t = Unit

module _ (m : ModuleScope) (rm : IsResolved m) where
  extend_params-IsClean :
      (ps : List ParamDef) (Γ : Ctx)
      → All (IsProper m) (param_types ps)
      → IsClean m Γ
      → IsClean m (extend_params Γ ps)
  extend_params-IsClean [] Γ a c = c
  extend_params-IsClean (p ∷ ps) Γ (h, a) c =
      extend_params-IsClean ps (extend Γ p.symbol (from_ref p.ty)) a
        (IsClean-extend m Γ p.symbol (from_ref p.ty) c h)

  module _ (ret : Ty) where
    block-TailTyped :
        (e : HirExpr) (x : Option Ty) (s : Checker)
        → TailTyped e ((expr_ty m ret e x s).1.types) ((expr_ty m ret e x s).0)
    unfolding expr_ty kind_ty ◌>>=◌ ◌>>◌ set_ty
    block-TailTyped (node i at (HirExprKind.block ss (present (node j at' k)))) x s =
        elim (Bool-cases (i == j)) [ inl h ↦ rw (h) refl | inr h ↦ rw (h) (ground arith) ]
    block-TailTyped (node i at (HirExprKind.block ss absent)) x s = tt
    block-TailTyped (node i at _) x s = tt

    needs_value-Step :
        (name : Span) → Step (needs_value ret name) (λ z. IsProper m ret → ret ≡ Ty.unit)
    unfolding needs_value
    needs_value-Step name =
        if-Step (same_ty ret Ty.unit || same_ty ret Ty.poison)
          (λ h. pure-Step tt (expected_type m ret Ty.unit h))
          (λ h. report-Step missing_return name refl)

    check_completion-Step :
        (e : HirExpr) (name : Span) (types : ℕ → Ty) (t : Ty)
        → IsBlock e
        → Step
            (check_completion m e ret name types)
            (λ z. IsProper m ret → TailTyped e types t → IsProper m t → Ends m ret e t)
    unfolding check_completion check_root
    check_completion-Step (node i at (HirExprKind.block ss (present e))) name types t w =
        if-Step (can_complete m types (node i at (HirExprKind.block ss (present e))))
          (λ h.
            bind-Step (unify-Step m (types (id_of e)) ret (span_of e))
              (λ u. pure-Step tt (λ f p q n. inl (sym q ∙ (f (subst (IsProper m) (sym q) n) p).1))))
          (λ h. pure-Step tt (λ p q n. inr (types, h)))
    check_completion-Step (node i at (HirExprKind.block ss absent)) name types t w =
        if-Step (can_complete m types (node i at (HirExprKind.block ss absent)))
          (λ h. map-Step (needs_value-Step name) (λ z f p q n. inl (f p)))
          (λ h. pure-Step tt (λ p q n. inr (types, h)))
    check_completion-Step (node i at _) name types t w = absurd w

  -- The body has a type in the bindings `Γ` of its parameters.
  abbrev BodyTyped : FnSig → HirBody → Ctx → Type 0
  BodyTyped sig b Γ =
      (t : Ty) × (Γ' : Ctx) × HasType m (from_ref sig.ret) Γ b.root t Γ'
      × Ends m (from_ref sig.ret) b.root t

  check_sig-Safe :
      (d : ℕ) (o : Option FnSig) (sig : FnSig) (b : HirBody) (name : Span)
      → scope_sig m d ≡ o
      → o ≡ some sig
      → IsLowered m b.root
      → IsBlock b.root
      → Safe
          (check_sig m o b name)
          (λ Γ a Γ'. IsClean m Γ → BodyTyped sig b (extend_params Γ sig.params))
  unfolding check_sig
  check_sig-Safe d none sig b name e q w v = crash-Safe tt
  check_sig-Safe d (some sig') sig b name e q w v =
      let f = e ∙ q in
      let rp = rm.returns d sig f in
      let Whole : Post (Unit {0}) =
        λ Γ a Γ'. IsClean m Γ → BodyTyped sig b (extend_params Γ sig.params) in
      subst (λ g. Safe (check_sig m (some g) b name) Whole) (let z : sig ≡ sig' = cc in z)
        (then-Safe (bind_params-Safe sig.params) (
          types-Safe {F = TailTyped b.root} (expr_ty-Safe m rm (from_ref sig.ret) rp b.root _ w)
            (block-TailTyped (from_ref sig.ret) b.root _)
            (λ t types.
              last-Safe (check_completion-Step (from_ref sig.ret) b.root name types t v)
                (λ Γ₂ z k g Γ₁ r Γ z' h c.
                  let c₁ = extend_params-IsClean sig.params Γ (rm.params d sig f) c in
                  let (c₂, p, ht) = r (subst (IsClean m) h c₁) rp in
                  (
                    t,
                    Γ₂,
                    subst (λ Δ. HasType m (from_ref sig.ret) Δ b.root t Γ₂) (sym h) ht,
                    k rp g p,
                  )))))

-- A check without errors of a lowered body, in a scope without errors, gives a derivation of the
-- typing rules for the body from the types of the parameters, and the body ends as its signature says.
pub check_body-HasType :
    (m : ModuleScope)
    → IsResolved m
    → (d : ℕ) (sig : FnSig) (b : HirBody) (name : Span) → scope_sig m d ≡ some sig
    → IsLowered m b.root
    → IsBlock b.root
    → IsQuiet (check_body m d b name)
    → (t : Ty) × (Γ : Ctx) × HasType m (from_ref sig.ret) (params_ctx sig.params) b.root t Γ
      × Ends m (from_ref sig.ret) b.root t
unfolding check_body run_body
check_body-HasType m rm d sig b name e w v q =
    (check_sig-Safe m rm d (scope_sig m d) sig b name refl e w v).post start q
      (λ x t h. absurd (let z : ⊥ = cc in z))
