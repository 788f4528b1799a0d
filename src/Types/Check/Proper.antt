-- ===== src/Types/Check/Proper.antt =====
-- The types and bindings of runs without errors: `unify` and the scope of
-- crates/ontixa-types/src/check.rs.
use ontixa.Prelude.{
  ℕ, ◌≡◌, refl, sym, subst, inl, inr, true, false, Option, none, some, All, Bool-cases, ◌==◌,
  get_elem?, arith,
}
use ontixa.Source.Span.{Span}
use ontixa.Types.Ty.{Ty, ElemTy, TypeRef, from_ref, compatible, same_ty}
use ontixa.Types.Compatible.{compatible_iff, same_ty_iff}
use ontixa.Types.Scope.{ModuleScope, DataShape, FieldDef, VariantDef, scope_sig, data_shape}
use ontixa.Hir.{FnSig}
use ontixa.Types.Typing.{Ctx, extend}
use ontixa.Types.Check.State.{unify}
use ontixa.Types.Check.Steps.{param_types}
use ontixa.Types.Check.Safe.{Step, if-Step, pure-Step, fail-Step}

module _ (m : ModuleScope) where
  -- A type that is not poison, whose data type is declared.
  abbrev pub IsProper : Ty → Type 0
  IsProper Ty.poison = ⊥
  IsProper (Ty.struct d) = (s : DataShape) × (data_shape m d ≡ some s)
  IsProper (Ty.array (ElemTy.struct d)) = (s : DataShape) × (data_shape m d ≡ some s)
  IsProper _ = Unit

  abbrev pub IsProperOption : Option Ty → Type 0
  IsProperOption none = Unit
  IsProperOption (some t) = IsProper t

  abbrev pub IsClean : Ctx → Type 0
  IsClean Γ = (x : ℕ) (t : Ty) → Γ x ≡ some t → IsProper t

  -- In a scope without errors the declared types are proper.
  pub record IsResolved : Type 0 where
    pub params : (d : ℕ) (s : FnSig) → scope_sig m d ≡ some s → All IsProper (param_types s.params)
    pub returns : (d : ℕ) (s : FnSig) → scope_sig m d ≡ some s → IsProper (from_ref s.ret)
    pub fields :
        (d : ℕ) (s : DataShape)
        → data_shape m d ≡ some s
        → (i : ℕ) (f : FieldDef) → get_elem? s.fields i ≡ some f
        → IsProper (from_ref f.ty)
    pub payloads :
        (d : ℕ) (s : DataShape)
        → data_shape m d ≡ some s
        → (i : ℕ) (v : VariantDef) → get_elem? s.variants i ≡ some v
        → All (λ (t : TypeRef). IsProper (from_ref t)) v.payload

  pub IsClean-extend : (Γ : Ctx) (x : ℕ) (t : Ty) → IsClean Γ → IsProper t → IsClean (extend Γ x t)
  IsClean-extend Γ x t c p y u e = elim (Bool-cases (x == y)) [
    | inl q ↦ let h : t ≡ u = ground arith in subst IsProper h p
    | inr q ↦ let h : Γ y ≡ some u = ground arith in c y u h
  ]

  proper_ne : (t : Ty) → IsProper t → t ≡ Ty.poison → ⊥
  proper_ne t p e = subst IsProper e p

  pub proper-poison : (t : Ty) → IsProper t → same_ty t Ty.poison ≡ false
  proper-poison t p = elim (Bool-cases (same_ty t Ty.poison)) [
    | inl h ↦ absurd (proper_ne t p ((same_ty_iff t Ty.poison).0 h))
    | inr h ↦ h
  ]

  pub compatible_eq : (s t : Ty) → compatible s t ≡ true → IsProper s → IsProper t → s ≡ t
  compatible_eq s t h p q = elim ((compatible_iff s t).0 h) [
    | inl z ↦ absurd (proper_ne s p z)
    | inr (inl z) ↦ absurd (proper_ne t q z)
    | inr (inr z) ↦ z
  ]

  pub unify-Step :
      (a e : Ty) (at : Span)
      → Step (unify a e at) (λ u. IsProper a → IsProper e → (u ≡ e) × (a ≡ e))
  unfolding unify
  unify-Step a e at =
      if-Step (compatible e a)
        (λ h. pure-Step _ (λ p q. (rw (proper-poison e q) refl, sym (compatible_eq e a h q p))))
        (λ h. fail-Step _ at refl)
