-- ===== src/Types/Check/Arms.antt =====
-- The arms of a match and the loops of a run without errors, from what their parts give:
-- crates/ontixa-types/src/check.rs.
use ontixa.Prelude.{ℕ, ◌≡◌, refl, subst, inl, inr, Bool, true, false, ◌||◌, ◌⊎◌, Option, none, some}
use ontixa.Source.Span.{Span}
use ontixa.Types.Ty.{Ty, ElemTy, ty}
use ontixa.Types.Scope.{ModuleScope}
use ontixa.Hir.{HirExpr, HirExprKind, HirOption, HirArms, HirPat, node, absent, present, arm}
use ontixa.Types.Check.Complete.{contains, is_catchall, has_catchall}
use ontixa.Types.Check.Steps.{or_unit, or_else, is_range}
use ontixa.Types.Check.Walk.{Arms, note_arm}
use ontixa.Types.Check.Proper.{IsProperOption}
use ontixa.Types.Check.Joins.{Agrees, IsPresent}
use ontixa.Types.Check.Patterns.{or_cases, cover-Covers}
use ontixa.Types.Check.Forms.{Iterates}
use ontixa.Types.Typing.{Ctx, extend, HasType, BoundType, RangeType, Covers}

module _ (m : ModuleScope) (ret : Ty) where
  pub array-Iterates :
      (Γ Γ' : Ctx) (e : HirExpr) (t : Ty)
      → is_range e ≡ false
      → ((u : ElemTy) × HasType m ret Γ e (Ty.array u) Γ' × (t ≡ ty u))
      → Iterates m ret Γ e t Γ'
  unfolding is_range
  array-Iterates Γ Γ' (node j at (HirExprKind.range lo hi)) t n h = absurd (let z : ⊥ = cc in z)
  array-Iterates Γ Γ' (node j at _) t n h = h

  -- The bounds of a range, in either order.
  abbrev BoundsType : Ctx → HirOption → HirOption → Ty → Ctx → Type 0
  BoundsType Γ lo hi t Γ' =
      ((Γ₁ : Ctx) × BoundType m ret Γ lo t Γ₁ × BoundType m ret Γ₁ hi t Γ')
      ⊎ (Γ₁ : Ctx) × BoundType m ret Γ hi t Γ₁ × BoundType m ret Γ₁ lo t Γ'

  pub range-Iterates :
      (Γ Γ' : Ctx) (j : ℕ) (at : Span) (lo hi : HirOption) (t : Ty)
      → IsPresent hi
      → BoundsType Γ lo hi t Γ'
      → Iterates m ret Γ (node j at (HirExprKind.range lo hi)) t Γ'
  range-Iterates Γ Γ' j at lo absent t p h = absurd p
  range-Iterates Γ Γ' j at lo (present e) t p (inl (Γ₁, a, b)) = RangeType.forward a b
  range-Iterates Γ Γ' j at lo (present e) t p (inr (Γ₁, a, b)) = RangeType.backward a b

  array-for :
      (Γ Γ₁ Γ' : Ctx) (i x : ℕ) (at : Span) (e b : HirExpr) (t u : Ty)
      → ((v : ElemTy) × HasType m ret Γ e (Ty.array v) Γ₁ × (t ≡ ty v))
      → HasType m ret (extend Γ₁ x t) b u Γ'
      → HasType m ret Γ (node i at (HirExprKind.for_in x e b)) Ty.unit Γ'
  array-for Γ Γ₁ Γ' i x at e b t u (v, h, q) k =
      HasType.for_array h (subst (λ w. HasType m ret (extend Γ₁ x w) b u Γ') q k)

  pub for-HasType :
      (Γ Γ₁ Γ' : Ctx) (i x : ℕ) (at : Span) (e b : HirExpr) (t u : Ty)
      → Iterates m ret Γ e t Γ₁
      → HasType m ret (extend Γ₁ x t) b u Γ'
      → HasType m ret Γ (node i at (HirExprKind.for_in x e b)) Ty.unit Γ'
  for-HasType Γ Γ₁ Γ' i x at (node j at' (HirExprKind.range lo (present hi))) b t u h k =
      HasType.for_range h k
  for-HasType Γ Γ₁ Γ' i x at (node j at' (HirExprKind.range lo absent)) b t u h k =
      array-for Γ Γ₁ Γ' i x at (node j at' (HirExprKind.range lo absent)) b t u h k
  for-HasType Γ Γ₁ Γ' i x at (node j at' k') b t u h k =
      array-for Γ Γ₁ Γ' i x at (node j at' k') b t u h k

  pub or_else-IsProper :
      (o p : Option Ty) → IsProperOption m o → IsProperOption m p → IsProperOption m (or_else o p)
  or_else-IsProper none p h k = k
  or_else-IsProper (some t) p h k = h

pub or_unit-Agrees : (o p : Option Ty) → Agrees o (or_unit (or_else o p))
or_unit-Agrees none p = tt
or_unit-Agrees (some t) p = refl

-- What the arms add to the covered variants and to the catch-all.
abbrev pub Covering : Arms → HirArms → Arms → Type 0
Covering a arms last =
    ((i : ℕ) → contains i last.covered ≡ true → (contains i a.covered ≡ true) ⊎ Covers i arms)
    × (last.catchall ≡ true → (a.catchall ≡ true) ⊎ (has_catchall arms ≡ true))

later-Covers :
    (i : ℕ) (p : HirPat) (e : HirExpr) (at : Span) (arms : HirArms)
    → Covers i arms
    → Covers i (arm p e at arms)
later-Covers i (HirPat.variant d v bs s) e at arms h = inr h
later-Covers i (HirPat.bind x s) e at arms h = h
later-Covers i HirPat.poison e at arms h = h

or_right : (a b : Bool) → b ≡ true → (a || b) ≡ true
or_right true b h = refl
or_right false b h = h

or_left : (a b : Bool) → a ≡ true → (a || b) ≡ true
or_left true b h = refl
or_left false b h = absurd (let z : ⊥ = cc in z)

pub arm-Covering :
    (p : HirPat) (e : HirExpr) (at : Span) (arms : HirArms) (result : Option Ty) (a last : Arms)
    → Covering (note_arm p result a) arms last
    → Covering a (arm p e at arms) last
unfolding has_catchall
arm-Covering p e at arms result a last (f, g) = (
  λ i h. elim (f i h) [
    | inl k ↦ elim (cover-Covers i p a.covered k) [ inl q ↦ inl q | inr q ↦ inr (q e at arms) ]
    | inr k ↦ inr (later-Covers i p e at arms k)
  ],
  λ h. elim (g h) [
    | inl k ↦ elim (or_cases a.catchall (is_catchall p) k) [
      | inl q ↦ inl q
      | inr q ↦ inr (or_left (is_catchall p) (has_catchall arms) q)
    ]
    | inr k ↦ inr (or_right (is_catchall p) (has_catchall arms) k)
  ],
)
