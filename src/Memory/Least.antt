-- ===== src/Memory/Least.antt =====
-- The round without memos ends with the least contracts that the bodies confirm: `fixpoint_round` of
-- crates/ontixa-memory/src/analyze.rs, as a one-shot compilation calls it.
use ontixa.Prelude.{
  ℕ, ◌<◌, Bool, true, false, List, Option, none, some, ◌≡◌, refl, sym, ap, ◌∙◌, subst, ◌==◌,
  Bool-cases, Option-cases, inl, inr, All, length, get_elem?, get_elem?-lt, arith,
}
use ontixa.Mir.{ParamBehavior}
use ontixa.Hir.{HirBody, HirModule, FnSig, fn_sig, body}
use ontixa.Memory.Facts.{update}
use ontixa.Memory.Order.{UnderAll, UnderAll-refl, UnderAll-trans}
use ontixa.Memory.Walk.{Fits}
use ontixa.Memory.Contracts.{ContractTable, is_function, bottom, or_empty}
use ontixa.Memory.Derive.{
  derive, derive-Under, derive-Fits, derive-IsKnown, copies, IsTyped, IsKnown,
}
use ontixa.Memory.Worklist.{has}

-- A first run has no hypothesis.
abbrev pub no_hypothesis : ContractTable
no_hypothesis g = none

abbrev pub current : ContractTable → ℕ → List ParamBehavior
current c g = or_empty (c g)

-- Contracts that start high enough, and that no body exceeds.
pub record IsClosed (m : HirModule) (v : ℕ → List ParamBehavior) : Type 0 where
  pub start : (g : ℕ) → UnderAll (or_empty (bottom m g)) (v g)
  pub closed :
      (g : ℕ) (sig : FnSig) (b : HirBody)
      → fn_sig m g ≡ some sig
      → body m g ≡ some b
      → UnderAll (derive m v g sig b) (v g)

-- What holds of the contracts at each round of the loop.
pub record IsRising (m : HirModule) (c : ContractTable) : Type 0 where
  pub known : (g : ℕ) → All IsKnown (current c g)
  pub fits : (g : ℕ) → Fits (copies m g) (current c g)
  pub rising :
      (g : ℕ) (sig : FnSig) (b : HirBody)
      → fn_sig m g ≡ some sig
      → body m g ≡ some b
      → (x : List ParamBehavior) × (c g ≡ some x) × UnderAll x (derive m (current c) g sig b)
  pub kept : (g : ℕ) → is_function m g ≡ false → c g ≡ bottom m g
  pub least : (v : ℕ → List ParamBehavior) → IsClosed m v → (g : ℕ) → UnderAll (current c g) (v g)

-- The function has the contract that its body gives.
abbrev pub IsSettled : HirModule → ContractTable → ℕ → Type 0
IsSettled m c g =
    (sig : FnSig) (b : HirBody)
    → fn_sig m g ≡ some sig
    → body m g ≡ some b
    → c g ≡ some (derive m (current c) g sig b)

-- What does not wait is settled.
pub record IsQueue (m : HirModule) (c : ContractTable) (queued : ℕ → Bool) (work : List ℕ)
    : Type 0 where
  pub settled : (g : ℕ) → queued g ≡ false → IsSettled m c g
  pub waits : (g : ℕ) → queued g ≡ true → has g work ≡ true
  pub functions : All (λ g. is_function m g ≡ true) work

pub is_function-parts :
    (m : HirModule) (f : ℕ)
    → is_function m f ≡ true
    → (sig : FnSig) × (b : HirBody) × (fn_sig m f ≡ some sig) × (body m f ≡ some b)
unfolding is_function
is_function-parts m f h = elim (Option-cases (fn_sig m f)) [
  | inl p ↦ absurd (ground arith)
  | inr (sig, p) ↦ elim (Option-cases (body m f)) [
    | inl q ↦ absurd (ground arith)
    | inr (b, q) ↦ (sig, b, p, q)
  ]
]

pub is_function-of :
    (m : HirModule) (f : ℕ) (sig : FnSig) (b : HirBody)
    → fn_sig m f ≡ some sig
    → body m f ≡ some b
    → is_function m f ≡ true
unfolding is_function
is_function-of m f sig b p q = rw (p, is_function) (rw q refl)

pub fn_sig-lt : (m : HirModule) (f : ℕ) (sig : FnSig) → fn_sig m f ≡ some sig → f < length m.defs
unfolding fn_sig
fn_sig-lt m f sig p = elim (Option-cases (get_elem? m.defs f)) [
  | inl q ↦ absurd (ground arith)
  | inr (d, q) ↦ get_elem?-lt m.defs f q
]

pub some_eq : {A : Type 0} {o : Option A} {x y : A} → o ≡ some x → o ≡ some y → x ≡ y
some_eq p q = cc

-- The table with a raised contract.
module _ (m : HirModule) (typed : IsTyped m) (c : ContractTable) (r : IsRising m c) (f : ℕ)
    (sig : FnSig) (b : HirBody) (ps : fn_sig m f ≡ some sig) (pb : body m f ≡ some b) where
  abbrev pub next : List ParamBehavior
  next = derive m (current c) f sig b

  abbrev pub raised : ContractTable
  raised = update c f (some next)

  pub at_least : (g : ℕ) → UnderAll (current c g) (current raised g)
  at_least g = elim (Bool-cases (f == g)) [
    | inr e ↦ rw e (UnderAll-refl (current c g))
    | inl e ↦
        let q : f ≡ g = ground arith in
        let (x, p, u) = r.rising f sig b ps pb in
        let s : c g ≡ some x = ap c (sym q) ∙ p in rw (e, s) u
  ]

  for_each :
      (P : ℕ → List ParamBehavior → Type 0)
      → ((g : ℕ) → P g (current c g))
      → P f next
      → (g : ℕ) → P g (current raised g)
  for_each P h p g = elim (Bool-cases (f == g)) [
    | inr e ↦ rw e (h g)
    | inl e ↦ let q : f ≡ g = ground arith in rw e (subst (λ k. P k next) q p)
  ]

  pub raised-IsRising : IsRising m raised
  raised-IsRising = record {
    known = for_each (λ g x. All IsKnown x) r.known (derive-IsKnown m (current c) f sig b);
    fits = for_each (λ g x. Fits (copies m g) x) r.fits (derive-Fits m (current c) f sig b ps);
    rising = λ g sig' b' p q.
        let up = derive-Under m (current c) (current raised) g sig' b' typed q r.fits at_least in
        elim (Bool-cases (f == g)) [
          | inr e ↦
              let (x, w, u) = r.rising g sig' b' p q in
              (x, rw (e, w) refl, UnderAll-trans x _ _ u up)
          | inl e ↦
              let t : f ≡ g = ground arith in
              let s : sig' ≡ sig = some_eq p (ap (fn_sig m) (sym t) ∙ ps) in
              let s' : b' ≡ b = some_eq q (ap (body m) (sym t) ∙ pb) in
              let same : derive m (current c) g sig' b' ≡ next = rw (sym t, s, s') refl in
              (
                next,
                rw e refl,
                subst (λ x. UnderAll x (derive m (current raised) g sig' b')) same up,
              )
        ];
    kept = λ g p. elim (Bool-cases (f == g)) [
      | inr e ↦ rw e (r.kept g p)
      | inl e ↦
          let t : f ≡ g = ground arith in
          let z = ap (is_function m) t ∙ p in
          let y = is_function-of m f sig b ps pb in absurd (let w : ⊥ = cc in w)
    ];
    least = λ v closed.
        for_each (λ g x. UnderAll x (v g)) (r.least v closed)
          (UnderAll-trans next _ _
            (derive-Under m (current c) v f sig b typed pb r.fits (r.least v closed))
            (closed.closed f sig b ps pb));
  }
