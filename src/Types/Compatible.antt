-- ===== src/Types/Compatible.antt =====
-- Element types and the compatibility of types: crates/ontixa-types/src/ty.rs.
use mathlib.Core.Option
use ontixa.Prelude.{◌≡◌, ◌↔◌, refl, true, false, none, some, ◌⊎◌, inl, inr, arith}
use ontixa.Types.Ty.{
  Ty, ElemTy, TypeRef, Ty-discrete, ty, elem, from_ref, elem_from_ref, elem_ref, same_ty,
  compatible,
}

elem-cases : (t : Ty) → (elem t ≡ none) ⊎ ((e : ElemTy) × (elem t ≡ some e) × (ty e ≡ t))
unfolding elem ty
elem-cases Ty.unit = inl refl
elem-cases (Ty.array e) = inl refl
elem-cases Ty.poison = inl refl
elem-cases _ = inr (_, refl, refl)

elem-ty : (e : ElemTy) → elem (ty e) ≡ some e
unfolding elem ty
elem-ty ElemTy.bool = refl
elem-ty _ = refl

-- An element type is the element of a type exactly when the type is the element's own.
pub elem_iff : (t : Ty) (e : ElemTy) → (elem t ≡ some e) ↔ (ty e ≡ t)
elem_iff t e = (to, from)
  where
    to : elem t ≡ some e → ty e ≡ t
    to p = elim (elem-cases t) [ inl q ↦ absurd (let z : ⊥ = cc in z) | inr (e', q, r) ↦ cc ]

    from : ty e ≡ t → elem t ≡ some e
    from p = let q = elem-ty e in cc

-- The element of a resolved reference's type is that of the reference's element.
pub elem-from_ref : (t : TypeRef) → elem (from_ref t) ≡ Option.map elem_from_ref (elem_ref t)
unfolding elem from_ref elem_from_ref elem_ref
elem-from_ref TypeRef.bool = refl
elem-from_ref _ = refl

pub same_ty_iff : (s t : Ty) → (same_ty s t ≡ true) ↔ (s ≡ t)
unfolding same_ty
same_ty_iff s t =
    elim (Ty-discrete s t) as (λ d. ((elim d [ yes p ↦ true | no p ↦ false ]) ≡ true) ↔ (s ≡ t)) [
      | yes p ↦ (λ q. p, λ q. refl)
      | no p ↦ (λ q. absurd (let z : ⊥ = cc in z), λ q. absurd (p q))
    ]

-- Two types are compatible exactly when one of them is poison or they are the same.
pub compatible_iff :
    (s t : Ty) → (compatible s t ≡ true) ↔ ((s ≡ Ty.poison) ⊎ ((t ≡ Ty.poison) ⊎ (s ≡ t)))
unfolding compatible
compatible_iff s t =
    ground (arith, same_ty_iff s Ty.poison, same_ty_iff t Ty.poison, same_ty_iff s t)
