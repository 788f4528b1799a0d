-- ===== src/Memory/Derive.antt =====
-- The contract that a body gives its function, as a function of the contracts of the others: the body
-- of the loop of `fixpoint_round` in crates/ontixa-memory/src/analyze.rs.
use ontixa.Prelude.{
  ℕ, suc, Bool, true, List, [], ◌∷◌, none, some, ◌≡◌, ap, All, if◌then◌else◌, arith,
}
use ontixa.Types.Ty.{Ty, is_copy, from_ref}
use ontixa.Mir.{ParamBehavior}
use ontixa.Hir.{HirBody, HirModule, FnSig, ParamDef, TypeTables, fn_sig, body, span_of}
use ontixa.Memory.Facts.{ParamFacts, Ctx, Collector, no_facts, classify, collect_facts, start}
use ontixa.Memory.Order.{rank, level, Under, Under-refl, UnderAll, Below, classify-Under}
use ontixa.Memory.Walk.{Fits, WellTyped, eval-≼, escape_all-Moves}
use ontixa.Memory.Contracts.{tables_of, classify_all, bottom_of, calls}
use ontixa.Memory.Locality.{collect_facts-local}

unfoldable pub derive :
    HirModule → (ℕ → List ParamBehavior) → ℕ → FnSig → HirBody → List ParamBehavior
unfolding classify_all collect_facts tables_of
derive m view f sig b = classify_all (collect_facts b (tables_of m f) view sig).facts 0 sig.params

-- Which parameters are of copied types.
unfoldable pub copied : List ParamDef → List Bool
copied [] = []
copied (p ∷ ps) = is_copy (from_ref p.ty) ∷ copied ps

unfoldable pub copies : HirModule → ℕ → List Bool
unfolding copied
copies m d = elim (fn_sig m d) [ none ↦ [] | some s ↦ copied s.params ]

-- Every body fits the types that the checker gave it, and has a signature.
pub record IsTyped (m : HirModule) : Type 0 where
  pub typed :
      (f : ℕ) (b : HirBody) → body m f ≡ some b → WellTyped (tables_of m f) (copies m) b.root
  pub signed : (f : ℕ) (b : HirBody) → body m f ≡ some b → (s : FnSig) × (fn_sig m f ≡ some s)

start-Below : Below start start
unfolding level
start-Below = record {
  levels = λ i. Under-refl (level no_facts);
  carried = λ sym i p. p;
  carried_used = λ sym i p. absurd (ground arith);
}

-- Stronger contracts of the callees give stronger facts.
pub collect_facts-Under :
    (b : HirBody) (tables : TypeTables) (flags : ℕ → List Bool)
    (view view' : ℕ → List ParamBehavior) (sig : FnSig)
    → ((d : ℕ) → UnderAll (view d) (view' d))
    → ((d : ℕ) → Fits (flags d) (view d))
    → WellTyped tables flags b.root
    → (i : ℕ)
    → Under
        (level ((collect_facts b tables view sig).facts i))
        (level ((collect_facts b tables view' sig).facts i))
unfolding collect_facts
collect_facts-Under b tables flags view view' sig below fits w i =
    let r =
      eval-≼ tables flags sig.params view view' below fits b.root Ctx.move Ctx.move tt w start start
        start-Below in
    (escape_all-Moves (span_of b.root) _ _ _ _ r.below r.sub r.used).0.levels i

classify_all-Under :
    (ps : List ParamDef) (f f' : ℕ → ParamFacts) (i : ℕ)
    → ((j : ℕ) → Under (level (f j)) (level (f' j)))
    → UnderAll (classify_all f i ps) (classify_all f' i ps)
unfolding classify_all
classify_all-Under [] f f' i h = tt
classify_all-Under (p ∷ ps) f f' i h =
    (classify-Under (from_ref p.ty) (f i) (f' i) (h i), classify_all-Under ps f f' (suc i) h)

pub derive-Under :
    (m : HirModule) (view view' : ℕ → List ParamBehavior) (f : ℕ) (sig : FnSig) (b : HirBody)
    → IsTyped m
    → body m f ≡ some b
    → ((d : ℕ) → Fits (copies m d) (view d))
    → ((d : ℕ) → UnderAll (view d) (view' d))
    → UnderAll (derive m view f sig b) (derive m view' f sig b)
unfolding derive
derive-Under m view view' f sig b t p fits below =
    classify_all-Under sig.params _ _ 0
      (collect_facts-Under b (tables_of m f) (copies m) view view' sig below fits (t.typed f b p))

-- The contract depends on those of the callees.
pub derive-local :
    (m : HirModule) (view view' : ℕ → List ParamBehavior) (f : ℕ) (sig : FnSig) (b : HirBody)
    → ((g : ℕ) → calls g b.root ≡ true → view g ≡ view' g)
    → derive m view f sig b ≡ derive m view' f sig b
unfolding derive
derive-local m view view' f sig b h =
    ap (λ (c : Collector). classify_all c.facts 0 sig.params)
      (collect_facts-local b (tables_of m f) view view' sig h)

classify-copy : (t : Ty) (f : ParamFacts) → is_copy t ≡ true → rank (classify t f) ≡ 0
unfolding classify rank
classify-copy t f p = ground arith

classify_all-Fits :
    (ps : List ParamDef) (f : ℕ → ParamFacts) (i : ℕ) → Fits (copied ps) (classify_all f i ps)
unfolding classify_all copied
classify_all-Fits [] f i = tt
classify_all-Fits (p ∷ ps) f i =
    (classify-copy (from_ref p.ty) (f i), classify_all-Fits ps f (suc i))

pub bottom_of-Fits : (ps : List ParamDef) → Fits (copied ps) (bottom_of ps)
unfolding bottom_of copied rank
bottom_of-Fits [] = tt
bottom_of-Fits (p ∷ ps) = (ground arith, bottom_of-Fits ps)

pub derive-Fits :
    (m : HirModule) (view : ℕ → List ParamBehavior) (f : ℕ) (sig : FnSig) (b : HirBody)
    → fn_sig m f ≡ some sig
    → Fits (copies m f) (derive m view f sig b)
unfolding derive copies
derive-Fits m view f sig b p = rw (p, copies) (classify_all-Fits sig.params _ 0)

-- What a round starts from is below what a body gives.
bottom-classify :
    (t : Ty) (f : ParamFacts)
    → Under
        (rank (if is_copy t then ParamBehavior.copy else ParamBehavior.borrow))
        (rank (classify t f))
unfolding classify rank
bottom-classify t f = ground arith

bottom_of-classify_all :
    (ps : List ParamDef) (f : ℕ → ParamFacts) (i : ℕ)
    → UnderAll (bottom_of ps) (classify_all f i ps)
unfolding bottom_of classify_all
bottom_of-classify_all [] f i = tt
bottom_of-classify_all (p ∷ ps) f i =
    (bottom-classify (from_ref p.ty) (f i), bottom_of-classify_all ps f (suc i))

pub bottom_of-derive :
    (m : HirModule) (view : ℕ → List ParamBehavior) (f : ℕ) (sig : FnSig) (b : HirBody)
    → UnderAll (bottom_of sig.params) (derive m view f sig b)
unfolding derive
bottom_of-derive m view f sig b = bottom_of-classify_all sig.params _ 0

-- No contract is `unknown`.
abbrev pub IsKnown : ParamBehavior → Type 0
IsKnown b = b ≡ ParamBehavior.unknown → ⊥

classify-IsKnown : (t : Ty) (f : ParamFacts) → IsKnown (classify t f)
unfolding classify
classify-IsKnown t f p = ground arith

classify_all-IsKnown :
    (ps : List ParamDef) (f : ℕ → ParamFacts) (i : ℕ) → All IsKnown (classify_all f i ps)
unfolding classify_all
classify_all-IsKnown [] f i = tt
classify_all-IsKnown (p ∷ ps) f i =
    (classify-IsKnown (from_ref p.ty) (f i), classify_all-IsKnown ps f (suc i))

pub derive-IsKnown :
    (m : HirModule) (view : ℕ → List ParamBehavior) (f : ℕ) (sig : FnSig) (b : HirBody)
    → All IsKnown (derive m view f sig b)
unfolding derive
derive-IsKnown m view f sig b = classify_all-IsKnown sig.params _ 0

pub bottom_of-IsKnown : (ps : List ParamDef) → All IsKnown (bottom_of ps)
unfolding bottom_of
bottom_of-IsKnown [] = tt
bottom_of-IsKnown (p ∷ ps) = (λ e. ground arith, bottom_of-IsKnown ps)
