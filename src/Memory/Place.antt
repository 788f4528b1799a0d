-- ===== src/Memory/Place.antt =====
-- Places: crates/ontixa-memory/src/place.rs.
use ontixa.Prelude.{
  ℕ, ◌≡◌, refl, sym, ap, ◌∙◌, ◌↔◌, ◌⊎◌, inl, inr, Bool, true, false, ◌&&◌, ◌||◌, List, [], ◌∷◌,
  Option, none, some, ◌++◌, ◌==◌, arith,
}
use ontixa.Source.Span.{Span}
use ontixa.Hir.{HirExpr, HirExprKind, node, span_of}

pub record Place : Type 0 where
  pub base : ℕ
  pub fields : List ℕ
  pub span : Span

-- `starts_with` of a slice: the second list is a prefix of the first.
unfoldable pub starts_with : List ℕ → List ℕ → Bool
starts_with fs [] = true
starts_with [] (g ∷ gs) = false
starts_with (f ∷ fs) (g ∷ gs) = f == g && starts_with fs gs

unfoldable pub overlaps : Place → Place → Bool
unfolding starts_with
overlaps p q = p.base == q.base && (starts_with p.fields q.fields || starts_with q.fields p.fields)

-- The loop of `place_of`, with the fields that were passed, the innermost first.
unfoldable pub place_from : Span → List ℕ → HirExpr → Option Place
place_from span fields (node i at (HirExprKind.var sym)) =
    some (record { base = sym; fields = fields; span = span })
place_from span fields (node i at (HirExprKind.field base name f)) =
    place_from span (name.id ∷ fields) base
place_from span fields _ = none

unfoldable pub place_of : HirExpr → Option Place
unfolding place_from
place_of e = place_from (span_of e) [] e

-- The path of the second place extends that of the first, or is the same.
pub record IsWithin (p q : Place) : Type 0 where
  pub same_base : p.base ≡ q.base
  pub more : List ℕ
  pub extends : q.fields ≡ p.fields ++ more

starts_with-append : (fs gs : List ℕ) → starts_with fs gs ≡ true → (hs : List ℕ) × (fs ≡ gs ++ hs)
unfolding starts_with
starts_with-append fs [] p = (fs, refl)
starts_with-append [] (g ∷ gs) p = absurd (ground arith)
starts_with-append (f ∷ fs) (g ∷ gs) p =
    let (e, q) : (f ≡ g) × (starts_with fs gs ≡ true) = ground arith in
    let (hs, r) = starts_with-append fs gs q in (hs, cc)

append-starts_with : (gs hs : List ℕ) → starts_with (gs ++ hs) gs ≡ true
unfolding starts_with
append-starts_with [] hs = refl
append-starts_with (g ∷ gs) hs = ground (arith, append-starts_with gs hs)

-- Two places overlap exactly when one lies within the other.
pub overlaps_iff : (p q : Place) → (overlaps p q ≡ true) ↔ (IsWithin p q ⊎ IsWithin q p)
unfolding overlaps
overlaps_iff p q = (to, from)
  where
    to : overlaps p q ≡ true → IsWithin p q ⊎ IsWithin q p
    to h =
        let e : p.base ≡ q.base = ground arith in
        let s : (starts_with p.fields q.fields ≡ true) ⊎ (starts_with q.fields p.fields ≡ true) =
          ground arith in
        elim s [
          | inl a ↦
              let (hs, r) = starts_with-append p.fields q.fields a in
              inr (record { same_base = sym e; more = hs; extends = r })
          | inr a ↦
              let (hs, r) = starts_with-append q.fields p.fields a in
              inl (record { same_base = e; more = hs; extends = r })
        ]

    from : IsWithin p q ⊎ IsWithin q p → overlaps p q ≡ true
    from (inl w) =
        let a = append-starts_with p.fields w.more in
        let b : starts_with q.fields p.fields ≡ true =
          ap (λ x. starts_with x p.fields) w.extends ∙ a in
        let e = w.same_base in ground arith
    from (inr w) =
        let a = append-starts_with q.fields w.more in
        let b : starts_with p.fields q.fields ≡ true =
          ap (λ x. starts_with x q.fields) w.extends ∙ a in
        let e = w.same_base in ground arith
