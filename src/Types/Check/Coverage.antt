-- ===== src/Types/Check/Coverage.antt =====
-- The count of covered variants against the test of each: `match_is_exhaustive` and `match_ty` of
-- crates/ontixa-types/src/check.rs.
use ontixa.Prelude.{
  ℕ, suc, ◌≤◌, ◌<◌, ◌≡◌, refl, sym, ap, ◌∙◌, subst, inl, inr, Bool, true, false, List, Option, [],
  ◌∷◌, some, Bool-cases, length, leb, ◌==◌, ==_iff, leb→le, ◌+◌, arith,
}
use ontixa.Types.Ty.{Ty}
use ontixa.Types.Scope.{ModuleScope, DataShape, VariantDef, is_enum}
use ontixa.Hir.{HirArms, HirPat, arm, no_arms}
use ontixa.Types.Check.Distinct.{IsDistinct, Below, all-Below, length-all}
use ontixa.Types.Check.Complete.{contains, add, cover_pattern, covered_by, covers_enum}
use ontixa.Types.Check.Access.{all_covered, cover}
use ontixa.Types.Check.State.{Checker, pure, ◌>>=◌, ◌>>◌}
use ontixa.Types.Check.Walk.{Arms, note_arm, arms_ty}
use ontixa.Prelude.{and-both}

-- The patterns of the enum `d` name one of its `n` variants.
abbrev InRange : ℕ → ℕ → HirArms → Type 0
InRange n d no_arms = Unit
InRange n d (arm (HirPat.variant def v bs at) e s arms) = (def ≡ d → v < n) × InRange n d arms
InRange n d (arm (HirPat.bind x at) e s arms) = InRange n d arms
InRange n d (arm HirPat.poison e s arms) = InRange n d arms

-- The index of each variant is its position, from `k`.
abbrev Indexed : ℕ → List VariantDef → Type 0
Indexed k [] = Unit
Indexed k (v ∷ vs) = (v.index ≡ k) × Indexed (suc k) vs

add-IsDistinct : (v : ℕ) (js : List ℕ) → IsDistinct js → IsDistinct (add v js)
unfolding add
add-IsDistinct v js d = elim (Bool-cases (contains v js)) [
  | inl h ↦ rw (h) d
  | inr h ↦ rw (h) (h, d)
]

add-Below : (n v : ℕ) (js : List ℕ) → v < n → Below n js → Below n (add v js)
unfolding add contains
add-Below n v js l b i h = elim (Bool-cases (contains v js)) [
  | inl c ↦ b i (let z : contains i js ≡ true = sym (rw (c) refl) ∙ h in z)
  | inr c ↦ elim (Bool-cases (i == v)) [
    | inl q ↦ subst (λ z. z < n) (sym ((==_iff i v).0 q)) l
    | inr q ↦ b i (let z : contains i js ≡ true = sym (rw (c, q) refl) ∙ h in z)
  ]
]

covered_by-IsDistinct :
    (d : ℕ) (arms : HirArms) (js : List ℕ) → IsDistinct js → IsDistinct (covered_by d arms js)
unfolding covered_by cover_pattern
covered_by-IsDistinct d no_arms js h = h
covered_by-IsDistinct d (arm (HirPat.variant def v bs at) e s arms) js h =
    covered_by-IsDistinct d arms _
      (elim (Bool-cases (def == d)) [ inl q ↦ rw (q) (add-IsDistinct v js h) | inr q ↦ rw (q) h ])
covered_by-IsDistinct d (arm (HirPat.bind x at) e s arms) js h = covered_by-IsDistinct d arms js h
covered_by-IsDistinct d (arm HirPat.poison e s arms) js h = covered_by-IsDistinct d arms js h

covered_by-Below :
    (n d : ℕ) (arms : HirArms) (js : List ℕ)
    → InRange n d arms
    → Below n js
    → Below n (covered_by d arms js)
unfolding covered_by cover_pattern
covered_by-Below n d no_arms js r b = b
covered_by-Below n d (arm (HirPat.variant def v bs at) e s arms) js (r, rs) b =
    covered_by-Below n d arms _ rs (elim (Bool-cases (def == d)) [
      | inl q ↦ rw (q) (add-Below n v js (r ((==_iff def d).0 q)) b)
      | inr q ↦ rw (q) b
    ])
covered_by-Below n d (arm (HirPat.bind x at) e s arms) js r b = covered_by-Below n d arms js r b
covered_by-Below n d (arm HirPat.poison e s arms) js r b = covered_by-Below n d arms js r b

all_covered-contains :
    (k : ℕ) (vs : List VariantDef) (js : List ℕ)
    → Indexed k vs
    → ((i : ℕ) → k ≤ i → i < k + length vs → contains i js ≡ true)
    → all_covered vs js ≡ true
unfolding all_covered
all_covered-contains k [] js x h = refl
all_covered-contains k (v ∷ vs) js (e, x) h =
    let a : contains v.index js ≡ true =
      subst (λ i. contains i js ≡ true) (sym e) (h k (omega arith) (omega arith)) in
    let b = all_covered-contains (suc k) vs js x (λ i l u. h i (omega arith) (omega arith)) in
    rw (a, b) refl

contains-all_covered :
    (k : ℕ) (vs : List VariantDef) (js : List ℕ)
    → Indexed k vs
    → all_covered vs js ≡ true
    → (i : ℕ) → k ≤ i
    → i < k + length vs
    → contains i js ≡ true
unfolding all_covered
contains-all_covered k [] js x h i l u = absurd (let z : ⊥ = omega arith in z)
contains-all_covered k (v ∷ vs) js (e, x) h i l u =
    let (a, b) = and-both (contains v.index js) (all_covered vs js) h in
    elim (Bool-cases (i == k)) [
      | inl q ↦ subst (λ z. contains z js ≡ true) (e ∙ sym ((==_iff i k).0 q)) a
      | inr q ↦ contains-all_covered (suc k) vs js x b i (ground arith) (omega arith)
    ]

both_ways : (a b : Bool) → (a ≡ true → b ≡ true) → (b ≡ true → a ≡ true) → a ≡ b
both_ways true b f g = sym (f refl)
both_ways false true f g = g refl
both_ways false false f g = refl

-- The variants that a walk over the arms covers, of whatever enum.
walked : HirArms → List ℕ → List ℕ
walked no_arms js = js
walked (arm p e at arms) js = walked arms (cover p js)

-- The patterns name variants of the enum `d`, which has `n` of them.
abbrev pub OfEnum : ℕ → ℕ → HirArms → Type 0
OfEnum n d no_arms = Unit
OfEnum n d (arm (HirPat.variant def v bs at) e s arms) = (def ≡ d) × (v < n) × OfEnum n d arms
OfEnum n d (arm (HirPat.bind x at) e s arms) = OfEnum n d arms
OfEnum n d (arm HirPat.poison e s arms) = OfEnum n d arms

OfEnum-InRange : (n d : ℕ) (arms : HirArms) → OfEnum n d arms → InRange n d arms
OfEnum-InRange n d no_arms h = tt
OfEnum-InRange n d (arm (HirPat.variant def v bs at) e s arms) (p, q, h) =
    ((λ r. q), OfEnum-InRange n d arms h)
OfEnum-InRange n d (arm (HirPat.bind x at) e s arms) h = OfEnum-InRange n d arms h
OfEnum-InRange n d (arm HirPat.poison e s arms) h = OfEnum-InRange n d arms h

walked-covered_by :
    (n d : ℕ) (arms : HirArms) (js : List ℕ)
    → OfEnum n d arms
    → walked arms js ≡ covered_by d arms js
unfolding walked covered_by cover cover_pattern
walked-covered_by n d no_arms js h = refl
walked-covered_by n d (arm (HirPat.variant def v bs at) e s arms) js (p, q, h) =
    let r : (def == d) ≡ true = (==_iff def d).1 p in rw r (walked-covered_by n d arms (add v js) h)
walked-covered_by n d (arm (HirPat.bind x at) e s arms) js h = walked-covered_by n d arms js h
walked-covered_by n d (arm HirPat.poison e s arms) js h = walked-covered_by n d arms js h

-- What the loop over the arms has collected at its end.
arms_ty-walked :
    (m : ModuleScope) (ret : Ty) (arms : HirArms) (t : Ty) (o : Option ℕ) (x : Option Ty) (a : Arms)
    (c : Checker)
    → ((arms_ty m ret arms t o x a c).0).covered ≡ walked arms a.covered
unfolding arms_ty walked pure ◌>>=◌ ◌>>◌
arms_ty-walked m ret no_arms t o x a c = refl
arms_ty-walked m ret (arm p e at arms) t o x a c =
    arms_ty-walked m ret arms t o x (note_arm p _ a) _

-- The two tests over the same list.
covers_enum-all_covered :
    (m : ModuleScope) (types : ℕ → Ty) (d : ℕ) (s : DataShape) (arms : HirArms)
    → is_enum s ≡ true
    → Indexed 0 s.variants
    → InRange (length s.variants) d arms
    → covers_enum m types d (some s) arms ≡ all_covered s.variants (covered_by d arms [])
unfolding covers_enum contains
covers_enum-all_covered m types d s arms e x r =
    let js = covered_by d arms [] in
    let n = length s.variants in
    let distinct = covered_by-IsDistinct d arms [] tt in
    let below = covered_by-Below n d arms [] r (λ i h. absurd (let z : ⊥ = cc in z)) in
    rw (e) (
      both_ways (leb n (length js)) (all_covered s.variants js)
        (λ h.
          all_covered-contains 0 s.variants js x
            (λ i l u. all-Below n js distinct below (leb→le n (length js) h) i (omega arith)))
        (λ h.
          let l =
            length-all n js
              (λ i u. contains-all_covered 0 s.variants js x h i (omega arith) (omega arith)) in
          ground arith))

-- For an enum whose variants are indexed by position and arms whose patterns name variants of it, the
-- count of covered variants, by which `can_complete` takes a match for exhaustive, decides the same as
-- the test of each variant in what the loop over the arms collects from no variant on, by which a
-- match is reported.
pub covers_enum-arms_ty :
    (m : ModuleScope) (ret : Ty) (types : ℕ → Ty) (d : ℕ) (s : DataShape) (arms : HirArms) (t : Ty)
    (o : Option ℕ) (x : Option Ty) (a : Arms) (c : Checker)
    → is_enum s ≡ true
    → Indexed 0 s.variants
    → OfEnum (length s.variants) d arms
    → a.covered ≡ []
    → covers_enum m types d (some s) arms
      ≡ all_covered s.variants (((arms_ty m ret arms t o x a c).0).covered)
covers_enum-arms_ty m ret types d s arms t o x a c e i r z =
    covers_enum-all_covered m types d s arms e i (OfEnum-InRange (length s.variants) d arms r)
    ∙ ap (all_covered s.variants) (
        sym (
          arms_ty-walked m ret arms t o x a c
          ∙ (ap (walked arms) z ∙ walked-covered_by (length s.variants) d arms [] r)))
