-- ===== src/Types/Check/Patterns.antt =====
-- Patterns, the coverage of a match and the fields of a struct literal in a run without errors:
-- crates/ontixa-types/src/check.rs.
use ontixa.Prelude.{
  ℕ, zero, suc, ◌+◌, ◌≡◌, refl, sym, ap, subst, inl, inr, Bool, true, false, ◌||◌, ◌⊎◌, List, [],
  ◌∷◌, Option, none, some, All, length, get_elem?, ◌==◌, ==_iff, if◌then◌else◌, arith,
}
use ontixa.Source.Span.{Span}
use ontixa.Types.Ty.{Ty, TypeRef, from_ref}
use ontixa.Types.Scope.{ModuleScope, DataShape, FieldDef, VariantDef, data_shape, is_enum}
use ontixa.Hir.{HirExpr, HirPat, HirArms, arm}
use ontixa.Types.Check.State.{
  unsupported_operation, type_mismatch, arg_count, non_exhaustive, missing_field, pure, report,
}
use ontixa.Types.Check.Complete.{contains, add, has_catchall}
use ontixa.Types.Check.Rules.{view}
use ontixa.Types.Check.Access.{
  enum_def, scrutinee_def, payload_ty, first, rest, bind_payload, bind_variant, shape_variant,
  bind_pattern, cover, all_covered, shape_covered, check_exhaustive, check_missing,
}
use ontixa.Types.Check.Safe.{
  Safe, Step, then-Safe, step_then-Safe, map-Safe, pure-Safe, if-Safe, report_then-Safe, if-Step,
  pure-Step, map-Step, then-Step, crash-Safe, guard-Safe, report-Step, report_pure-Step,
  bind_local-Safe,
}
use ontixa.Types.Check.Proper.{IsProper, IsClean, IsResolved, IsClean-extend}
use ontixa.Prelude.{and-both}
use ontixa.Types.Check.Accesses.{OnSome}
use ontixa.Types.Typing.{Ctx, extend, extend_payload, PatternType, Covers, Exhaustive, Filled}

bind_payload-Safe :
    (bs : List (Option ℕ)) (ts : List TypeRef)
    → Safe (bind_payload bs ts) (λ Γ a Γ'. extend_payload Γ bs ts ≡ Γ')
unfolding bind_payload
bind_payload-Safe [] ts = pure-Safe tt (λ Γ. refl)
bind_payload-Safe (none ∷ bs) ts = bind_payload-Safe bs (rest ts)
bind_payload-Safe (some x ∷ bs) ts = then-Safe (bind_local-Safe x (payload_ty (first ts))) (
    map-Safe (bind_payload-Safe bs (rest ts))
      (λ Γ₁ a Γ' h Γ z k. subst (λ Δ. extend_payload Δ bs (rest ts) ≡ Γ') (sym k) h))

arity-Step :
    (bs : List (Option ℕ)) (x : VariantDef) (at : Span)
    → Step
        (if length bs == length x.payload then pure tt else report arg_count at)
        (λ a. length bs ≡ length x.payload)
arity-Step bs x at =
    if-Step (length bs == length x.payload)
      (λ k. pure-Step tt ((==_iff (length bs) (length x.payload)).0 k))
      (λ k. report-Step arg_count at refl)

module _ (m : ModuleScope) where
  -- The enum that a match on the type selects over.
  abbrev IsEnum : Ty → ℕ → Type 0
  IsEnum t d = (s : DataShape) × (t ≡ Ty.struct d) × (data_shape m d ≡ some s) × (is_enum s ≡ true)

  enum_def-Step :
      (d : ℕ) (at : Span) (o : Option DataShape)
      → data_shape m d ≡ o
      → Step (enum_def d o at) (λ r. IsProper m (Ty.struct d) → OnSome r (IsEnum (Ty.struct d)))
  unfolding enum_def
  enum_def-Step d at none e = pure-Step none (λ p. absurd (let f = p.1 in let z : ⊥ = cc in z))
  enum_def-Step d at (some s) e =
      if-Step (is_enum s) (λ h. pure-Step (some d) (λ p. (s, refl, e, h)))
        (λ h. report_pure-Step unsupported_operation at none refl)

  pub scrutinee_def-Step :
      (t : Ty) (at : Span) → Step (scrutinee_def m t at) (λ r. IsProper m t → OnSome r (IsEnum t))
  unfolding scrutinee_def view
  scrutinee_def-Step (Ty.struct d) at = enum_def-Step d at (data_shape m d) refl
  scrutinee_def-Step Ty.poison at = pure-Step none (λ p. absurd p)
  scrutinee_def-Step Ty.str at = report_pure-Step unsupported_operation at none refl
  scrutinee_def-Step (Ty.array e) at = report_pure-Step unsupported_operation at none refl
  scrutinee_def-Step _ at = report_pure-Step unsupported_operation at none refl

  extend_payload-IsClean :
      (bs : List (Option ℕ)) (ts : List TypeRef) (Γ : Ctx)
      → length bs ≡ length ts
      → All (λ (t : TypeRef). IsProper m (from_ref t)) ts
      → IsClean m Γ
      → IsClean m (extend_payload Γ bs ts)
  extend_payload-IsClean [] ts Γ e a c = c
  extend_payload-IsClean (none ∷ bs) [] Γ e a c = absurd (let z : ⊥ = omega arith in z)
  extend_payload-IsClean (some x ∷ bs) [] Γ e a c = absurd (let z : ⊥ = omega arith in z)
  extend_payload-IsClean (none ∷ bs) (t ∷ ts) Γ e (p, a) c =
      extend_payload-IsClean bs ts Γ (omega arith) a c
  extend_payload-IsClean (some x ∷ bs) (t ∷ ts) Γ e (p, a) c =
      extend_payload-IsClean bs ts (extend Γ x (from_ref t)) (omega arith) a
        (IsClean-extend m Γ x (from_ref t) c p)

  -- The pattern is one of source text that lowering accepted.
  abbrev pub IsPattern : HirPat → Type 0
  IsPattern HirPat.poison = ⊥
  IsPattern _ = Unit

  module _ (rm : IsResolved m) (d : ℕ) (s : DataShape) (e : data_shape m d ≡ some s) where
    abbrev Bound : HirPat → Ctx → Unit {0} → Ctx → Type 0
    Bound p Γ a Γ' = IsClean m Γ → IsClean m Γ' × PatternType m d Γ p Γ'

    bind_variant-Safe :
        (v : ℕ) (bs : List (Option ℕ)) (at : Span) (o : Option VariantDef)
        → get_elem? s.variants v ≡ o
        → Safe (bind_variant o bs at) (Bound (HirPat.variant d v bs at))
    unfolding bind_variant
    bind_variant-Safe v bs at none h = crash-Safe tt
    bind_variant-Safe v bs at (some x) h = step_then-Safe (arity-Step bs x at) (
        map-Safe (bind_payload-Safe bs x.payload) (λ Γ a Γ' k z n c. (
          subst (IsClean m) k (extend_payload-IsClean bs x.payload Γ n (rm.payloads d s e v x h) c),
          subst (PatternType m d Γ (HirPat.variant d v bs at)) k (PatternType.variant s x e h n),
        )))

    bind_pattern-Safe :
        (p : HirPat) → IsPattern p → Safe (bind_pattern m (Ty.struct d) (some d) p) (Bound p)
    unfolding bind_pattern
    bind_pattern-Safe (HirPat.variant def v bs at) w =
        if-Safe (def == d)
          (λ h.
            let q = (==_iff def d).0 h in
            subst
              (λ k.
                Safe (bind_variant (shape_variant (data_shape m d) v) bs at)
                  (Bound (HirPat.variant k v bs at)))
              (sym q)
              (bind_variant-Safe v bs at (shape_variant (data_shape m d) v)
                (ap (λ o. shape_variant o v) (sym e))))
          (λ h.
            report_then-Safe type_mismatch at refl
              (map-Safe (bind_payload-Safe bs []) (λ Γ a Γ' k. tt)))
    bind_pattern-Safe (HirPat.bind (some x) at) w =
        map-Safe (bind_local-Safe x (Ty.struct d)) (λ Γ a Γ' k c. (
          subst (IsClean m) k (IsClean-extend m Γ x (Ty.struct d) c (s, e)),
          subst (PatternType m d Γ (HirPat.bind (some x) at)) k PatternType.bind,
        ))
    bind_pattern-Safe (HirPat.bind none at) w = pure-Safe tt (λ Γ c. (c, PatternType.wildcard))
    bind_pattern-Safe HirPat.poison w = absurd w

bind_variant-quiet :
    (o : Option VariantDef) (bs : List (Option ℕ)) (at : Span)
    → Safe (bind_variant o bs at) (λ Γ a Γ'. Unit {0})
unfolding bind_variant
bind_variant-quiet none bs at = crash-Safe tt
bind_variant-quiet (some x) bs at =
    step_then-Safe (arity-Step bs x at)
      (map-Safe (bind_payload-Safe bs x.payload) (λ Γ a Γ' k z n. tt))

module _ (m : ModuleScope) (rm : IsResolved m) where
  bind_pattern-quiet :
      (t : Ty) (o : Option ℕ) (p : HirPat) → Safe (bind_pattern m t o p) (λ Γ a Γ'. Unit {0})
  unfolding bind_pattern
  bind_pattern-quiet t (some d) (HirPat.variant def v bs at) =
      if-Safe (def == d) (λ h. bind_variant-quiet (shape_variant (data_shape m d) v) bs at)
        (λ h.
          report_then-Safe type_mismatch at refl
            (map-Safe (bind_payload-Safe bs []) (λ Γ a Γ' k. tt)))
  bind_pattern-quiet t none (HirPat.variant def v bs at) =
      map-Safe (bind_payload-Safe bs []) (λ Γ a Γ' k. tt)
  bind_pattern-quiet t none (HirPat.bind (some x) at) =
      map-Safe (bind_local-Safe x t) (λ Γ a Γ' k. tt)
  bind_pattern-quiet t (some d) (HirPat.bind (some x) at) =
      map-Safe (bind_local-Safe x t) (λ Γ a Γ' k. tt)
  bind_pattern-quiet t none (HirPat.bind none at) = pure-Safe tt (λ Γ. tt)
  bind_pattern-quiet t (some d) (HirPat.bind none at) = pure-Safe tt (λ Γ. tt)
  bind_pattern-quiet t none HirPat.poison = pure-Safe tt (λ Γ. tt)
  bind_pattern-quiet t (some d) HirPat.poison = pure-Safe tt (λ Γ. tt)

  -- The definition of the scrutinee is that of its type.
  abbrev pub Selects : Ty → Option ℕ → Type 0
  Selects t o = (d : ℕ) × (o ≡ some d) × IsEnum m t d

  pub selects : (t : Ty) (o : Option ℕ) → OnSome o (IsEnum m t) → Selects t o
  selects t none h = absurd h
  selects t (some d) h = (d, refl, h)

  pub match_pattern-Safe :
      (t : Ty) (o : Option ℕ) (p : HirPat)
      → IsPattern m p
      → Safe
          (bind_pattern m t o p)
          (λ Γ a Γ'. (h : Selects t o) → IsClean m Γ → IsClean m Γ' × PatternType m (h.0) Γ p Γ')
  match_pattern-Safe t o p w = guard-Safe (bind_pattern-quiet t o p) (λ h.
      let (d, e, (s, f, g, i)) = h in
      subst (λ k. Safe (bind_pattern m t k p) (Bound m rm d s g p)) (sym e)
        (subst (λ k. Safe (bind_pattern m k (some d) p) (Bound m rm d s g p)) (sym f)
          (bind_pattern-Safe m rm d s g p w)))

  pub match_exhaustive-Step :
      (t : Ty) (o : Option ℕ) (catchall : Bool) (js : List ℕ) (at : Span)
      → Step
          (check_exhaustive m o catchall js at)
          (λ z. (h : Selects t o) → (catchall || all_covered (h.2.0).variants js) ≡ true)
  unfolding check_exhaustive
  match_exhaustive-Step t none catchall js at =
      pure-Step tt (λ h. absurd (let e = h.1 in let z : ⊥ = cc in z))
  match_exhaustive-Step t (some d) catchall js at =
      if-Step (catchall || shape_covered (data_shape m d) js)
        (λ k. pure-Step tt (λ h.
          let (d', e, (s, f, g, i)) = h in
          let q : d ≡ d' = cc in
          subst (λ o. (catchall || shape_covered o js) ≡ true)
            (subst (λ n. data_shape m n ≡ some s) (sym q) g) k))
        (λ k. report-Step non_exhaustive at refl)

pub or_cases : (a b : Bool) → (a || b) ≡ true → (a ≡ true) ⊎ (b ≡ true)
or_cases true b h = inl refl
or_cases false b h = inr h

if_contains :
    (i v : ℕ) (js : List ℕ) (b : Bool)
    → contains i (if b then js else v ∷ js) ≡ true
    → (i ≡ v) ⊎ (contains i js ≡ true)
unfolding contains
if_contains i v js true h = inr h
if_contains i v js false h = elim (or_cases (i == v) (contains i js) h) [
  | inl q ↦ inl ((==_iff i v).0 q)
  | inr q ↦ inr q
]

-- What an arm adds to the covered variants.
pub cover-Covers :
    (i : ℕ) (p : HirPat) (js : List ℕ)
    → contains i (cover p js) ≡ true
    → (contains i js ≡ true)
      ⊎ ((e : HirExpr) → (at : Span) → (arms : HirArms) → Covers i (arm p e at arms))
unfolding cover add
cover-Covers i (HirPat.variant d v bs at) js h = elim (if_contains i v js (contains v js) h) [
  | inl q ↦ inr (λ e at' arms. inl (sym q))
  | inr q ↦ inl q
]
cover-Covers i (HirPat.bind x at) js h = inl h
cover-Covers i HirPat.poison js h = inl h

covered-Covers :
    (vs : List VariantDef) (js : List ℕ) (arms : HirArms)
    → ((i : ℕ) → contains i js ≡ true → Covers i arms)
    → all_covered vs js ≡ true
    → All (λ (v : VariantDef). Covers v.index arms) vs
unfolding all_covered
covered-Covers [] js arms f h = tt
covered-Covers (v ∷ vs) js arms f h =
    let (a, b) = and-both (contains v.index js) (all_covered vs js) h in
    (f v.index a, covered-Covers vs js arms f b)

pub covered-Exhaustive :
    (s : DataShape) (js : List ℕ) (catchall : Bool) (arms : HirArms)
    → ((i : ℕ) → contains i js ≡ true → Covers i arms)
    → (catchall ≡ true → has_catchall arms ≡ true)
    → (catchall || all_covered s.variants js) ≡ true
    → Exhaustive s arms
covered-Exhaustive s js catchall arms f g h =
    elim (or_cases catchall (all_covered s.variants js) h) [
      | inl k ↦ inl (g k)
      | inr k ↦ inr (covered-Covers s.variants js arms f k)
    ]

missing_at :
    (k : ℕ) (g : FieldDef) (fs : List FieldDef) (slots : List ℕ)
    → ((j : ℕ) (f : FieldDef) → get_elem? fs j ≡ some f → contains (suc k + j) slots ≡ true)
    → contains k slots ≡ true
    → (j : ℕ) (f : FieldDef) → get_elem? (g ∷ fs) j ≡ some f
    → contains (k + j) slots ≡ true
missing_at k g fs slots h c zero f e = subst (λ i. contains i slots ≡ true) (omega arith) c
missing_at k g fs slots h c (suc j) f e =
    subst (λ i. contains i slots ≡ true) (omega arith) (h j f e)

missing_from :
    (k : ℕ) (fs : List FieldDef) (slots : List ℕ) (at : Span)
    → Step
        (check_missing k fs slots at)
        (λ z. (j : ℕ) (f : FieldDef) → get_elem? fs j ≡ some f → contains (k + j) slots ≡ true)
unfolding check_missing
missing_from k [] slots at = pure-Step tt (λ j f e. absurd (let z : ⊥ = cc in z))
missing_from k (g ∷ fs) slots at =
    let one =
      if-Step {P = λ z. contains k slots ≡ true} (contains k slots) (λ h. pure-Step tt h)
        (λ h. report-Step missing_field at refl) in
    then-Step one (
      map-Step (missing_from (suc k) fs slots at)
        (λ z h a c j f e. missing_at k g fs slots h c j f e))

pub check_missing-Step :
    (s : DataShape) (slots : List ℕ) (at : Span)
    → Step (check_missing 0 s.fields slots at) (λ z. Filled s slots)
check_missing-Step s slots at =
    map-Step (missing_from 0 s.fields slots at)
      (λ z h i f e. subst (λ k. contains k slots ≡ true) (omega arith) (h i f e))
