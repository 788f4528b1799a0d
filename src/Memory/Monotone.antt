-- ===== src/Memory/Monotone.antt =====
-- Stronger contracts of the callees give stronger facts: the walk of crates/ontixa-memory/src/analyze.rs
-- on a body whose types fit.
use ontixa.Prelude.{
  ℕ, ◌≤◌, true, List, Option, none, some, ◌==◌, ◌≡◌, refl, sym as flip, Bool-cases, inl, inr, arith,
  ==_refl, subst,
}
use ontixa.Source.Span.{Span}
use ontixa.Mir.{ParamBehavior}
use ontixa.Hir.{ParamDef, TypeTables}
use ontixa.Memory.Facts.{
  ParamFacts, Ctx, Collector, update, set_flag, index_from, flag, where_some, carried_by,
  flag_param, mutate_param, use_var,
}
use ontixa.Memory.Order.{level, Under, Under-refl, UnderCtx, Related, ◌≼◌, Moves, Below-facts}

pub level-flag :
    (c c' : Ctx) (f f' : ParamFacts)
    → UnderCtx c c'
    → Under (level f) (level f')
    → Under (level (set_flag c f)) (level (set_flag c' f')) × (level f' ≤ level (set_flag c' f'))
unfolding level set_flag
level-flag Ctx.read Ctx.read f f' p h = ground arith
level-flag Ctx.read Ctx.move f f' p h = ground arith
level-flag Ctx.move Ctx.move f f' p h = ground arith
level-flag Ctx.move Ctx.read f f' p h = absurd p

pub level-mutated :
    (f f' : ParamFacts)
    → Under (level f) (level f')
    → Under (level (record f { mutated = true })) (level (record f' { mutated = true }))
      × (level f' ≤ level (record f' { mutated = true }))
unfolding level
level-mutated f f' h = ground arith

pub level-escaped :
    (f : ParamFacts)
    → (level f ≤ level (record f { escaped = true })) × (level (record f { escaped = true }) ≡ 4)
unfolding level
level-escaped f = ground arith

module _ (tables : TypeTables) (params : List ParamDef) (view view' : ℕ → List ParamBehavior) where
  pub update-Under :
      (f f' : ℕ → ParamFacts) (i : ℕ) (g g' : ParamFacts)
      → ((j : ℕ) → Under (level (f j)) (level (f' j)))
      → Under (level g) (level g')
      → (j : ℕ) → Under (level (update f i g j)) (level (update f' i g' j))
  update-Under f f' i g g' h p j = elim (Bool-cases (i == j)) [
    | inl e ↦ rw e p
    | inr e ↦ rw e (h j)
  ]

  pub update-Grows :
      (f : ℕ → ParamFacts) (i : ℕ) (g : ParamFacts)
      → level (f i) ≤ level g
      → (j : ℕ) → level (f j) ≤ level (update f i g j)
  update-Grows f i g p j = elim (Bool-cases (i == j)) [
    | inl e ↦ let q : i ≡ j = ground arith in rw (e, flip q) p
    | inr e ↦ rw e (Under-refl (level (f j))).0
  ]

  pub where_some-Moves :
      (o : Option ℕ) (f f' : ℕ → Collector → Collector)
      → ((i : ℕ) → Moves (f i) (f' i))
      → Moves (where_some o f) (where_some o f')
  where_some-Moves none f f' p s s' b = (b, λ i. omega arith)
  where_some-Moves (some i) f f' p s s' b = p i s s' b

  flag_param-Moves :
      (c c' : Ctx) (at : Span) (i : ℕ)
      → UnderCtx c c'
      → Moves (flag_param c at i) (flag_param c' at i)
  unfolding flag_param
  flag_param-Moves c c' at i p s s' b =
      let (u, g) = level-flag c c' (s.facts i) (s'.facts i) p (b.levels i) in
      let grows = update-Grows s'.facts i (set_flag c' (s'.facts i)) g in
      (
        Below-facts s s' _ _ b refl refl (update-Under s.facts s'.facts i _ _ b.levels u) grows,
        grows,
      )

  pub mutate_param-Moves : (at : Span) (i : ℕ) → Moves (mutate_param at i) (mutate_param at i)
  unfolding mutate_param
  mutate_param-Moves at i s s' b =
      let (u, g) = level-mutated (s.facts i) (s'.facts i) (b.levels i) in
      let grows = update-Grows s'.facts i (record (s'.facts i) { mutated = true }) g in
      (
        Below-facts s s' _ _ b refl refl (update-Under s.facts s'.facts i _ _ b.levels u) grows,
        grows,
      )

  -- The parameter has a flag once it was used.
  pub flag_param-used :
      (c : Ctx) (at : Span) (i : ℕ) (s : Collector) → 1 ≤ level ((flag_param c at i s).facts i)
  unfolding flag_param set_flag level
  flag_param-used Ctx.read at i s = ground (arith, ==_refl i)
  flag_param-used Ctx.move at i s = ground (arith, ==_refl i)

  pub flag_param-moved :
      (at : Span) (i : ℕ) (s : Collector) → 3 ≤ level ((flag_param Ctx.move at i s).facts i)
  unfolding flag_param set_flag level
  flag_param-moved at i s = ground (arith, ==_refl i)

  pub use_var-≼ :
      (sym : ℕ) (c c' : Ctx) (at : Span)
      → UnderCtx c c'
      → use_var tables view params sym c at ≼ use_var tables view' params sym c' at
  unfolding use_var flag
  use_var-≼ sym c c' at p s s' b = go (index_from 0 params sym)
    where
      go :
          (o : Option ℕ)
          → (let t = where_some o (flag_param c at) s in
              let t' = where_some o (flag_param c' at) s' in
              Related s' (carried_by o sym t, t) (carried_by o sym t', t'))
      go none = record {
        sub = b.carried sym;
        used = b.carried_used sym;
        below = b;
        grows = λ i. omega arith;
      }
      go (some i) =
          let (below, grows) = flag_param-Moves c c' at i p s s' b in
          record {
            sub = λ j q. q;
            used = λ j q.
                let e : i ≡ j = ground arith in
                subst (λ k. 1 ≤ level ((flag_param c' at i s').facts k)) e
                  (flag_param-used c' at i s');
            below = below;
            grows = grows;
          }
