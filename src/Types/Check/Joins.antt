-- ===== src/Types/Check/Joins.antt =====
-- The joins of a run without errors: the bounds of a range, the elements of an array, branches, arms,
-- annotations and returns of crates/ontixa-types/src/check.rs.
use ontixa.Prelude.{
  ◌≡◌, refl, sym, ap, ◌∙◌, subst, inl, inr, Bool, true, false, not, ◌||◌, ◌⊎◌, List, length, Option,
  none, some, ◌==◌, ==_iff,
}
use ontixa.Source.Span.{Span}
use ontixa.Types.Ty.{Ty, ElemTy, elem, is_integer, same_ty, compatible}
use ontixa.Types.Compatible.{same_ty_iff}
use ontixa.Types.Scope.{ModuleScope}
use ontixa.Hir.{HirExpr, HirOption, HirExprs, absent, present, span_of}
use ontixa.Types.Check.State.{
  type_mismatch, unsupported_operation, cannot_infer, arg_count, duplicate_field,
}
use ontixa.Types.Check.Complete.{can_complete}
use ontixa.Types.Check.Rules.{view}
use ontixa.Types.Check.Steps.{
  or_unit, Bounds, add_bound, range_elem, check_end, add_elem, expected_elem, array_of_elem,
  is_poison, array_result, arity, check_arity, join_branches, tailless, join_result, join_arm,
  warn_dead, note_duplicate, annotate, empty_return, check_cond,
}
use ontixa.Types.Check.Safe.{
  Step, if-Step, pure-Step, fail-Step, map-Step, bind-Step, report-Step, report_pure-Step,
  warn-Step, get_types-Step,
}
use ontixa.Types.Check.Proper.{IsProper, IsProperOption, proper-poison, compatible_eq, unify-Step}
use ontixa.Types.Check.Operators.{element-IsProper, array-IsProper}
use ontixa.Types.Check.Accesses.{or_false}
use ontixa.Types.Typing.{Stops}

-- The type so far, if there is one, is `t`.
abbrev pub Agrees : Option Ty → Ty → Type 0
Agrees none t = Unit
Agrees (some u) t = u ≡ t

abbrev pub IsIntegerOption : Option Ty → Type 0
IsIntegerOption none = Unit
IsIntegerOption (some t) = is_integer t ≡ true

-- The bounds so far are integers, without a report.
abbrev pub IsInts : Bounds → Type 0
IsInts b = (b.1 ≡ true) × IsIntegerOption (b.0)

pub range_elem-Step :
    (found : Bounds)
    → Step (range_elem found) (λ t. IsInts found → Agrees (found.0) t × (is_integer t ≡ true))
range_elem-Step (none, true) = pure-Step Ty.i32 (λ i. (tt, unfold is_integer in refl))
range_elem-Step (some t, true) = pure-Step t (λ i. (refl, i.1))
range_elem-Step (none, false) =
    pure-Step Ty.poison (λ i. absurd (let e = i.0 in let z : ⊥ = cc in z))
range_elem-Step (some t, false) =
    pure-Step Ty.poison (λ i. absurd (let e = i.0 in let z : ⊥ = cc in z))

abbrev pub IsPresent : HirOption → Type 0
IsPresent absent = ⊥
IsPresent (present e) = Unit

pub check_end-Step :
    (hi : HirOption) (at : Span) → Step (check_end hi at) (λ found. IsPresent hi × IsInts found)
unfolding check_end
check_end-Step absent at = report_pure-Step unsupported_operation at (none, false) refl
check_end-Step (present e) at = pure-Step (none, true) (tt, (refl, tt))

module _ (m : ModuleScope) where
  poison-absurd : {P : Type 0} (t : Ty) → same_ty t Ty.poison ≡ true → IsProper m t → P
  poison-absurd t h p = absurd (let a = proper-poison m t p in let z : ⊥ = cc in z)

  module _ (at : Span) (t : Ty) where
    abbrev Added : Bounds → Bounds → Type 0
    Added found next =
        IsProper m t
        → IsInts found
        → IsInts next
          × ((u : Ty) → Agrees (next.0) u → (t ≡ u) × (is_integer t ≡ true) × Agrees (found.0) u)

    pub add_bound-Step :
        (at_bound : Span) (found : Bounds) → Step (add_bound at_bound at found t) (Added found)
    unfolding add_bound
    add_bound-Step at_bound (none, ok) =
        if-Step (same_ty t Ty.poison) (λ h. pure-Step _ (λ p. poison-absurd t h p))
          (λ h.
            if-Step (is_integer t) (λ k. pure-Step _ (λ p i. ((i.0, k), λ u a. (a, k, tt))))
              (λ k. report_pure-Step type_mismatch at_bound _ refl))
    add_bound-Step at_bound (some e, ok) =
        if-Step (same_ty t Ty.poison) (λ h. pure-Step _ (λ p. poison-absurd t h p))
          (λ h.
            if-Step (is_integer t)
              (λ k.
                if-Step (same_ty e t)
                  (λ q. pure-Step _ (λ p i. (i, λ u a. (sym ((same_ty_iff e t).0 q) ∙ a, k, a))))
                  (λ q. report_pure-Step type_mismatch at _ refl))
              (λ k. report_pure-Step type_mismatch at_bound _ refl))

  -- The elements so far are proper, without a report.
  abbrev pub IsElems : Bounds → Type 0
  IsElems b = (b.1 ≡ true) × IsProperOption m (b.0)

  pub add_elem-Step :
      (at : Span) (found : Bounds) (t : Ty)
      → Step (add_elem at found t) (λ next.
        IsProper m t
        → IsElems found
        → IsElems next × ((u : Ty) → Agrees (next.0) u → (t ≡ u) × Agrees (found.0) u))
  unfolding add_elem
  add_elem-Step at (none, ok) t = pure-Step _ (λ p i. ((i.0, p), λ u a. (a, tt)))
  add_elem-Step at (some e, ok) t =
      if-Step (compatible e t)
        (λ q. pure-Step _ (λ p i. (i, λ u a. (sym (compatible_eq m e t q (i.1) p) ∙ a, a))))
        (λ q. report_pure-Step type_mismatch at _ refl)

  pub expected_elem-IsProper :
      (o : Option Ty) → IsProperOption m o → IsProperOption m (expected_elem o)
  unfolding expected_elem view
  expected_elem-IsProper none h = tt
  expected_elem-IsProper (some (Ty.array e)) h = element-IsProper m e h
  expected_elem-IsProper (some (Ty.struct d)) h = tt
  expected_elem-IsProper (some Ty.str) h = tt
  expected_elem-IsProper (some Ty.poison) h = tt
  expected_elem-IsProper (some _) h = tt

  is_poison-absurd : {P : Type 0} (o : Option Ty) → is_poison o ≡ true → IsProperOption m o → P
  is_poison-absurd none h p = absurd (let z : ⊥ = cc in z)
  is_poison-absurd (some t) h p = poison-absurd t h p

  -- The array type of the elements so far.
  abbrev IsArray : Bounds → Ty → Type 0
  IsArray found v =
      (t : Ty) × (e : ElemTy) × Agrees (found.0) t
      × (elem t ≡ some e)
      × (Ty.array e ≡ v)
      × IsProper m v

  array_of_elem-Step :
      (at : Span) (t : Ty) (ok : Bool) (o : Option ElemTy)
      → elem t ≡ o
      → Step (array_of_elem o at) (λ v. IsElems (some t, ok) → IsArray (some t, ok) v)
  array_of_elem-Step at t ok none e = fail-Step unsupported_operation at refl
  array_of_elem-Step at t ok (some u) e =
      pure-Step (Ty.array u) (λ i. (t, u, refl, e, refl, array-IsProper m t u e (i.1)))

  known_elem :
      (t : Ty) (ok : Bool) → (not ok || same_ty t Ty.poison) ≡ true → IsElems (some t, ok) → ⊥
  known_elem t true h i = poison-absurd t h (i.1)
  known_elem t false h i = let e = i.0 in let z : ⊥ = cc in z

  pub array_result-Step :
      (expected : Option Ty) (at : Span) (found : Bounds)
      → Step
          (array_result expected at found)
          (λ v. IsProperOption m expected → IsElems found → IsArray found v)
  unfolding array_result
  array_result-Step expected at (none, ok) =
      if-Step (is_poison expected) (λ h. pure-Step _ (λ p. is_poison-absurd expected h p))
        (λ h. fail-Step cannot_infer at refl)
  array_result-Step expected at (some t, ok) =
      if-Step (not ok || same_ty t Ty.poison)
        (λ h. pure-Step _ (λ p i. absurd (known_elem t ok h i)))
        (λ h. map-Step (array_of_elem-Step at t ok (elem t) refl) (λ v k p. k))

  pub or_unit-IsProper : (o : Option Ty) → IsProperOption m o → IsProper m (or_unit o)
  or_unit-IsProper none h = tt
  or_unit-IsProper (some t) h = h

  pub join_branches-Step :
      (t e : HirExpr) (expected : Option Ty) (at : Span) (u v : Ty)
      → Step (join_branches m t e expected at u v) (λ w.
        IsProper m u
        → IsProper m v
        → IsProperOption m expected
        → ((u ≡ w) ⊎ Stops m t) × ((v ≡ w) ⊎ Stops m e) × IsProper m w)
  unfolding join_branches
  join_branches-Step t e expected at u v = bind-Step get_types-Step (λ types.
      if-Step (can_complete m types t)
        (λ h.
          if-Step (can_complete m types e)
            (λ k. map-Step (unify-Step m v u at) (λ w f z p q x.
              let (a, b) = f q p in (inl (sym a), inl (b ∙ sym a), subst (IsProper m) (sym a) p)))
            (λ k. pure-Step u (λ z p q x. (inl refl, inr (types, k), p))))
        (λ h.
          if-Step (can_complete m types e)
            (λ k. pure-Step v (λ z p q x. (inr (types, h), inl refl, q)))
            (λ k.
              pure-Step _
                (λ z p q x. (inr (types, h), inr (types, k), or_unit-IsProper expected x)))))

  pub tailless-Step :
      (block : HirExpr) (expected : Option Ty)
      → Step
          (tailless m block expected)
          (λ w. IsProperOption m expected → ((w ≡ Ty.unit) ⊎ Stops m block) × IsProper m w)
  unfolding tailless
  tailless-Step block expected = bind-Step get_types-Step (λ types.
      if-Step (can_complete m types block) (λ h. pure-Step Ty.unit (λ z x. (inl refl, tt)))
        (λ h. pure-Step _ (λ z x. (inr (types, h), or_unit-IsProper expected x))))

  abbrev Joined : HirExpr → Option Ty → Ty → Option Ty → Type 0
  Joined e result t next =
      IsProper m t
      → IsProperOption m result
      → IsProperOption m next × ((w : Ty) → Agrees next w → ((t ≡ w) ⊎ Stops m e) × Agrees result w)

  join_result-Step :
      (e : HirExpr) (result : Option Ty) (t : Ty) (at : Span)
      → Step (join_result result t at) (Joined e result t)
  join_result-Step e none t at = pure-Step (some t) (λ p q. (p, λ w a. (inl a, tt)))
  join_result-Step e (some r) t at = bind-Step (unify-Step m t r at) (λ u.
      pure-Step (some u) (λ f p q.
        let (a, b) = f p q in
        (subst (IsProper m) (sym a) q, λ w c. (inl (b ∙ sym a ∙ c), sym a ∙ c))))

  pub join_arm-Step :
      (e : HirExpr) (result : Option Ty) (t : Ty) → Step (join_arm m e result t) (Joined e result t)
  unfolding join_arm
  join_arm-Step e result t = bind-Step get_types-Step (λ types.
      if-Step (can_complete m types e)
        (λ h. map-Step (join_result-Step e result t (span_of e)) (λ o k z. k))
        (λ h. pure-Step result (λ z p q. (q, λ w a. (inr (types, h), a)))))

  pub annotate-Step :
      (a i : Option Ty) (at_init at : Span)
      → Step (annotate a i at_init at) (λ t.
        IsProperOption m a
        → IsProperOption m i
        → IsProper m t × Agrees i t × (((a ≡ none) × (i ≡ some t)) ⊎ (a ≡ some t)))
  unfolding annotate
  annotate-Step (some a) (some i) at_init at = map-Step (unify-Step m i a at_init) (λ t f p q.
      let (x, y) = f q p in (subst (IsProper m) (sym x) p, y ∙ sym x, inr (ap some (sym x))))
  annotate-Step (some a) none at_init at = pure-Step a (λ p q. (p, tt, inr refl))
  annotate-Step none (some i) at_init at = pure-Step i (λ p q. (q, refl, inl (refl, refl)))
  annotate-Step none none at_init at = fail-Step cannot_infer at refl

  pub expected_type :
      (t u : Ty) → (same_ty t u || same_ty t Ty.poison) ≡ true → IsProper m t → t ≡ u
  expected_type t u h p =
      (same_ty_iff t u).0 (or_false (same_ty t u) (same_ty t Ty.poison) h (proper-poison m t p))

  pub empty_return-Step :
      (ret : Ty) (at : Span) → Step (empty_return ret at) (λ z. IsProper m ret → ret ≡ Ty.unit)
  unfolding empty_return
  empty_return-Step ret at =
      if-Step (same_ty ret Ty.unit || same_ty ret Ty.poison)
        (λ h. pure-Step tt (expected_type ret Ty.unit h)) (λ h. report-Step type_mismatch at refl)

  pub check_cond-Step :
      (t : Ty) (at : Span) → Step (check_cond t at) (λ z. IsProper m t → t ≡ Ty.bool)
  unfolding check_cond
  check_cond-Step t at =
      if-Step (same_ty t Ty.bool || same_ty t Ty.poison)
        (λ h. pure-Step tt (expected_type t Ty.bool h)) (λ h. report-Step type_mismatch at refl)

pub warn_dead-Step : (dead : Bool) (at : Span) → Step (warn_dead dead at) (λ z. Unit {0})
unfolding warn_dead
warn_dead-Step dead at = if-Step dead (λ h. warn-Step at tt) (λ h. pure-Step tt tt)

pub note_duplicate-Step :
    (seen : Bool) (at : Span) → Step (note_duplicate seen at) (λ z. seen ≡ false)
unfolding note_duplicate
note_duplicate-Step seen at =
    if-Step seen (λ h. report-Step duplicate_field at refl) (λ h. pure-Step tt h)

pub check_arity-Step :
    (es : HirExprs) (ts : List Ty) (at : Span)
    → Step (check_arity es ts at) (λ z. arity es ≡ length ts)
unfolding check_arity
check_arity-Step es ts at =
    if-Step (arity es == length ts) (λ h. pure-Step tt ((==_iff (arity es) (length ts)).0 h))
      (λ h. report-Step arg_count at refl)
