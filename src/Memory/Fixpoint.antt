-- ===== src/Memory/Fixpoint.antt =====
-- A round of the inference without memos and hypothesis: `fixpoint_round` of
-- crates/ontixa-memory/src/analyze.rs.
use ontixa.Prelude.{
  ℕ, ◌≤◌, false, List, none, some, ◌≡◌, refl, Bool-cases, Option-cases, inl, inr, All, arith,
}
use ontixa.Mir.{ParamBehavior}
use ontixa.Db.Query.{DefKey}
use ontixa.Hir.{HirModule, fn_sig}
use ontixa.Memory.Order.{UnderAll}
use ontixa.Memory.Walk.{Fits}
use ontixa.Memory.Contracts.{
  ContractTable, Round, Oracle, is_function, bottom, bottom_of, first_state, drifted, ids_from,
  fixpoint_round,
}
use ontixa.Memory.Derive.{
  bottom_of-derive, bottom_of-Fits, bottom_of-IsKnown, copies, IsTyped, IsKnown,
}
use ontixa.Memory.Worklist.{ids_from-All, has-ids_from}
use ontixa.Memory.Least.{
  no_hypothesis, current, IsClosed, IsRising, IsSettled, IsQueue, is_function-parts, is_function-of,
  fn_sig-lt,
}
use ontixa.Memory.Rounds.{distance, drain_ends}

-- Fuel for a round: how far the contracts are from the strongest ones, times the functions, and the
-- first worklist.
unfoldable pub enough : HirModule → ℕ
unfolding distance bottom ids_from is_function
enough m = distance m (bottom m) (ids_from 0 (is_function m) m.defs)

-- The contracts are those that the bodies give, and no closed ones are below them.
pub record IsLeastFixpoint (m : HirModule) (c : ContractTable) : Type 0 where
  pub fixed : (g : ℕ) → IsSettled m c g
  pub kept : (g : ℕ) → is_function m g ≡ false → c g ≡ bottom m g
  pub least : (v : ℕ → List ParamBehavior) → IsClosed m v → (g : ℕ) → UnderAll (current c g) (v g)

module _ (m : HirModule) where
  bottom-IsKnown : (g : ℕ) → All IsKnown (current (bottom m) g)
  unfolding bottom
  bottom-IsKnown g = elim (Option-cases (fn_sig m g)) [
    | inl p ↦ rw (p, bottom) tt
    | inr (s, p) ↦ rw (p, bottom) (bottom_of-IsKnown s.params)
  ]

  bottom-Fits : (g : ℕ) → Fits (copies m g) (current (bottom m) g)
  unfolding bottom copies
  bottom-Fits g = elim (Option-cases (fn_sig m g)) [
    | inl p ↦ rw (p, bottom, copies) tt
    | inr (s, p) ↦ rw (p, bottom, copies) (bottom_of-Fits s.params)
  ]

  bottom-IsRising : IsRising m (bottom m)
  unfolding bottom
  bottom-IsRising = record {
    known = bottom-IsKnown;
    fits = bottom-Fits;
    rising = λ g sig b p q. (
      bottom_of sig.params,
      rw (p, bottom) refl,
      bottom_of-derive m (current (bottom m)) g sig b,
    );
    kept = λ g p. refl;
    least = λ v closed. closed.start;
  }

  first-IsQueue : IsQueue m (bottom m) (is_function m) (ids_from 0 (is_function m) m.defs)
  first-IsQueue = record {
    settled = λ g h sig b p q. let y = is_function-of m g sig b p q in absurd (let z : ⊥ = cc in z);
    waits = λ g h.
        let (sig, b, p, q) = is_function-parts m g h in
        has-ids_from g 0 (is_function m) m.defs (omega arith) (omega (arith, fn_sig-lt m g sig p))
          h;
    functions = ids_from-All _ 0 (is_function m) m.defs λ g h. h;
  }

-- A round with enough fuel ends, and its contracts are the least ones that every body confirms:
-- each function has the contract that its body gives under them, and contracts that start no lower
-- and that no body exceeds are nowhere below.
pub fixpoint_round-IsLeastFixpoint :
    (m : HirModule) (o : Oracle) (fuel : ℕ)
    → IsTyped m
    → enough m ≤ fuel
    → (s : Round) × (keys : List DefKey) × (fixpoint_round m none no_hypothesis fuel o
        ≡ some (s, keys))
      × IsLeastFixpoint m s.contracts
unfolding fixpoint_round first_state enough
fixpoint_round-IsLeastFixpoint m o fuel typed h =
    let (t, e, r, q) =
      drain_ends m typed fuel _ (first_state m none no_hypothesis o) (bottom-IsRising m)
        (first-IsQueue m) h in
    (
      t,
      drifted m none no_hypothesis t.contracts t.facts,
      rw (e, fixpoint_round) refl,
      record {
        fixed = λ g. elim (Bool-cases (t.queued g)) [
          | inl w ↦ let y = q.waits g w in absurd (let z : ⊥ = ground arith in z)
          | inr w ↦ q.settled g w
        ];
        kept = r.kept;
        least = r.least;
      },
    )
