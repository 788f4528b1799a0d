-- ===== src/Types/Check/Accesses.antt =====
-- The types of fields, places, lengths and elements in a run without errors:
-- crates/ontixa-types/src/check.rs.
use ontixa.Prelude.{
  ℕ, ◌≡◌, refl, sym, inl, inr, Bool, true, false, ◌||◌, ◌⊎◌, List, [], ◌∷◌, Option, none, some,
  get_elem?,
}
use ontixa.Source.Span.{Span}
use ontixa.Types.Ty.{Ty, ElemTy, ty, is_integer, same_ty}
use ontixa.Types.Scope.{ModuleScope, DataShape, FieldDef, data_shape, is_len}
use ontixa.Hir.{HirPlace, Name}
use ontixa.Types.Check.State.{Code, internal, unknown_field, not_a_struct, unsupported_operation}
use ontixa.Types.Check.Rules.{view, or_untyped, var_ty}
use ontixa.Types.Check.Access.{
  no_field, field_at, indexed_field, shape_field, len_field, field_ty, or_poison, fields_ty,
  place_ty, is_integral, indexed_ty, sliced_ty, iterated_ty, len_ty,
}
use ontixa.Types.Check.Steps.{is_length, note_field, field_node, check_index}
use ontixa.Types.Check.Safe.{
  is_error, Safe, Step, bind-Safe, pure-Safe, last-Safe, fail-Safe, get_local-Safe, if-Step,
  pure-Step, fail-Step, map-Step, bind-Step, then-Step, crash-Step, report_pure-Step,
  resolve_node-Step,
}
use ontixa.Types.Check.Proper.{IsProper, IsClean, IsResolved, proper-poison}
use ontixa.Types.Check.Operators.{element-IsProper}
use ontixa.Types.Typing.{Ctx, HasLen, IndexType, FieldType, FieldsType}

-- There is a value with the property.
abbrev pub OnSome : {A : Type 0} → Option A → (A → Type 0) → Type 0
OnSome none P = ⊥
OnSome (some a) P = P a

or_untyped-Safe :
    (x : ℕ) (at : Span) (o : Option Ty)
    → Safe
        (or_untyped at o)
        (λ Γ₁ t Γ'. (Γ : Ctx) → (o ≡ Γ x) × (Γ ≡ Γ₁) → (Γ x ≡ some t) × (Γ ≡ Γ'))
or_untyped-Safe x at none = fail-Safe internal at refl
or_untyped-Safe x at (some t) = pure-Safe t (λ Γ₁ Γ h. (sym (h.0), h.1))

pub var_ty-Safe : (x : ℕ) (at : Span) → Safe (var_ty x at) (λ Γ t Γ'. (Γ x ≡ some t) × (Γ ≡ Γ'))
unfolding var_ty
var_ty-Safe x at = bind-Safe (get_local-Safe x) (or_untyped-Safe x at)

no_field-Step :
    {P : Option Ty → Type 0} (code : Code) (at : Span)
    → is_error code ≡ true
    → Step (no_field code at) P
unfolding no_field
no_field-Step code at h = report_pure-Step code at none h

len_field-Step : {P : Option Ty → Type 0} (b : Bool) (n : Name) → Step (len_field b n) P
unfolding len_field
len_field-Step true n = no_field-Step unsupported_operation n.span refl
len_field-Step false n = no_field-Step not_a_struct n.span refl

pub or_false : (a b : Bool) → (a || b) ≡ true → b ≡ false → a ≡ true
or_false true b h e = refl
or_false false b h e = absurd (let z : ⊥ = cc in z)

-- What a `Field` node is.
abbrev pub FieldNode : ModuleScope → Ty → Name → Ty → Type 0
FieldNode m t n u = (HasLen t × (is_len m n.id ≡ true) × (u ≡ Ty.i32)) ⊎ FieldType m t n u

module _ (m : ModuleScope) (rm : IsResolved m) where
  module _ (d : ℕ) (n : Name) where
    abbrev Found : Option Ty → Type 0
    Found o = OnSome o (λ u. FieldType m (Ty.struct d) n u × IsProper m u)

    field_at-Step :
        (s : DataShape) (i : ℕ)
        → data_shape m d ≡ some s
        → s.field_index n.id ≡ some i
        → (o : Option FieldDef) → get_elem? s.fields i ≡ o
        → Step (field_at o) Found
    unfolding field_at
    field_at-Step s i a b none e = crash-Step none
    field_at-Step s i a b (some f) e = pure-Step _ (FieldType.field s a b e, rm.fields d s a i f e)

    indexed_field-Step :
        (s : DataShape)
        → data_shape m d ≡ some s
        → (o : Option ℕ) → s.field_index n.id ≡ o
        → Step (indexed_field s o n.span) Found
    unfolding indexed_field
    indexed_field-Step s a none e = no_field-Step unknown_field n.span refl
    indexed_field-Step s a (some i) e = field_at-Step s i a e (get_elem? s.fields i) refl

    shape_field-Step : (o : Option DataShape) → data_shape m d ≡ o → Step (shape_field o n) Found
    unfolding shape_field
    shape_field-Step none e = crash-Step none
    shape_field-Step (some s) e = indexed_field-Step s e (s.field_index n.id) refl

  field_ty-Step :
      (t : Ty) (n : Name)
      → Step (field_ty m t n) (λ o. IsProper m t → OnSome o (λ u. FieldType m t n u × IsProper m u))
  unfolding field_ty view
  field_ty-Step Ty.str n = len_field-Step (is_len m n.id) n
  field_ty-Step Ty.poison n = pure-Step none (λ p. absurd p)
  field_ty-Step (Ty.array e) n = len_field-Step (is_len m n.id) n
  field_ty-Step (Ty.struct d) n = map-Step (shape_field-Step d n (data_shape m d) refl) (λ o h p. h)
  field_ty-Step _ n = no_field-Step not_a_struct n.span refl

  fields_ty-Step :
      (ns : List Name) (t : Ty)
      → Step (fields_ty m ns t) (λ u. IsProper m t → FieldsType m t ns u × IsProper m u)
  unfolding fields_ty
  fields_ty-Step [] t = pure-Step t (λ p. (FieldsType.here, p))
  fields_ty-Step (n ∷ ns) t = bind-Step (field_ty-Step t n) (λ o.
      elim o
        as (λ o. Step (or_poison (fields_ty m ns) o) (λ v.
          (IsProper m t → OnSome o (λ u. FieldType m t n u × IsProper m u))
          → IsProper m t
          → FieldsType m t (n ∷ ns) v × IsProper m v)) [
            | none ↦ pure-Step Ty.poison (λ h p. absurd (h p))
            | some u ↦
                map-Step (fields_ty-Step ns u)
                  (λ v k h p. let (f, q) = h p in let (g, r) = k q in (FieldsType.step f g, r))
          ])

  pub place_ty-Safe :
      (p : HirPlace)
      → Safe (place_ty m p) (λ Γ t Γ'.
        IsClean m Γ
        → ((u : Ty) × (Γ p.base ≡ some u) × FieldsType m u p.fields t) × IsProper m t × (Γ ≡ Γ'))
  unfolding place_ty
  place_ty-Safe p = bind-Safe (var_ty-Safe p.base p.span) (λ t.
      last-Safe (fields_ty-Step p.fields t)
        (λ Γ₁ u h Γ k c. let (f, q) = h (c p.base t (k.0)) in ((t, k.0, f), q, k.1)))

  is_length-HasLen :
      (t : Ty) (n : Name) → is_length m t n ≡ true → HasLen t × (is_len m n.id ≡ true)
  unfolding is_length view
  is_length-HasLen Ty.str n h = (HasLen.str, h)
  is_length-HasLen (Ty.array e) n h = (HasLen.array e, h)
  is_length-HasLen Ty.poison n h = absurd (let z : ⊥ = cc in z)
  is_length-HasLen (Ty.struct d) n h = absurd (let z : ⊥ = cc in z)
  is_length-HasLen _ n h = absurd (let z : ⊥ = cc in z)

  pub field_node-Step :
      (id : ℕ) (n : Name) (t : Ty)
      → Step (field_node m id n t) (λ u. IsProper m t → FieldNode m t n u × IsProper m u)
  unfolding field_node
  field_node-Step id n t =
      if-Step (is_length m t n)
        (λ h. then-Step (resolve_node-Step id _) (
          pure-Step Ty.i32
            (λ a z p. let (l, e) = is_length-HasLen t n h in (inl (l, e, refl), tt))))
        (λ h. bind-Step (field_ty-Step t n) (λ o.
          elim o
            as (λ o. Step (note_field m id t n o) (λ u.
              (IsProper m t → OnSome o (λ v. FieldType m t n v × IsProper m v))
              → IsProper m t
              → FieldNode m t n u × IsProper m u)) [
                | none ↦ pure-Step Ty.poison (λ k p. absurd (k p))
                | some f ↦
                    then-Step (resolve_node-Step id _)
                      (pure-Step f (λ a z k p. let (x, y) = k p in (inr x, y)))
              ]))

module _ (m : ModuleScope) where
  pub len_ty-Step :
      (t : Ty) (at : Span) → Step (len_ty t at) (λ u. IsProper m t → (u ≡ Ty.i32) × HasLen t)
  unfolding len_ty view
  len_ty-Step Ty.str at = pure-Step Ty.i32 (λ p. (refl, HasLen.str))
  len_ty-Step (Ty.array e) at = pure-Step Ty.i32 (λ p. (refl, HasLen.array e))
  len_ty-Step Ty.poison at = pure-Step Ty.poison (λ p. absurd p)
  len_ty-Step (Ty.struct d) at = fail-Step internal at refl
  len_ty-Step _ at = fail-Step internal at refl

  pub indexed_ty-Step :
      (t : Ty) (at : Span)
      → Step (indexed_ty t at) (λ u. IsProper m t → IndexType t u × IsProper m u)
  unfolding indexed_ty view
  indexed_ty-Step Ty.str at = pure-Step Ty.str (λ p. (IndexType.str, tt))
  indexed_ty-Step (Ty.array e) at =
      pure-Step (ty e) (λ p. (IndexType.array e, element-IsProper m e p))
  indexed_ty-Step Ty.poison at = pure-Step Ty.poison (λ p. absurd p)
  indexed_ty-Step (Ty.struct d) at = fail-Step unsupported_operation at refl
  indexed_ty-Step _ at = fail-Step unsupported_operation at refl

  pub sliced_ty-Step :
      (t : Ty) (at : Span) → Step (sliced_ty t at) (λ u. IsProper m t → HasLen t × (t ≡ u))
  unfolding sliced_ty view
  sliced_ty-Step Ty.str at = pure-Step Ty.str (λ p. (HasLen.str, refl))
  sliced_ty-Step (Ty.array e) at = pure-Step (Ty.array e) (λ p. (HasLen.array e, refl))
  sliced_ty-Step Ty.poison at = pure-Step Ty.poison (λ p. absurd p)
  sliced_ty-Step (Ty.struct d) at = fail-Step unsupported_operation at refl
  sliced_ty-Step _ at = fail-Step unsupported_operation at refl

  pub iterated_ty-Step :
      (t : Ty) (at : Span)
      → Step
          (iterated_ty t at)
          (λ u. IsProper m t → ((e : ElemTy) × (t ≡ Ty.array e) × (u ≡ ty e)) × IsProper m u)
  unfolding iterated_ty view
  iterated_ty-Step (Ty.array e) at =
      pure-Step (ty e) (λ p. ((e, refl, refl), element-IsProper m e p))
  iterated_ty-Step Ty.poison at = pure-Step Ty.poison (λ p. absurd p)
  iterated_ty-Step Ty.str at = fail-Step unsupported_operation at refl
  iterated_ty-Step (Ty.struct d) at = fail-Step unsupported_operation at refl
  iterated_ty-Step _ at = fail-Step unsupported_operation at refl

  pub check_index-Step :
      (t : Ty) (code : Code) (at : Span)
      → is_error code ≡ true
      → Step (check_index t code at) (λ b. IsProper m t → (b ≡ true) × (is_integer t ≡ true))
  unfolding check_index is_integral
  check_index-Step t code at e =
      if-Step (is_integer t || same_ty t Ty.poison)
        (λ h.
          pure-Step true
            (λ p. (refl, or_false (is_integer t) (same_ty t Ty.poison) h (proper-poison m t p))))
        (λ h. report_pure-Step code at false e)
