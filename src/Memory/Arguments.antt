-- ===== src/Memory/Arguments.antt =====
-- One argument of a call under related contracts: the `Call` case of `eval` in
-- crates/ontixa-memory/src/analyze.rs.
use ontixa.Prelude.{
  ℕ, ◌≤◌, true, List, Option, none, some, ◌==◌, ◌≡◌, refl, sym as flip, subst, Bool-cases, inl, inr,
  arith,
}
use ontixa.Source.Span.{Span}
use ontixa.Mir.{ParamBehavior}
use ontixa.Hir.{HirExpr, ParamDef, TypeTables, span_of}
use ontixa.Memory.Facts.{
  ParamFacts, Carriers, Collector, Walk, nothing, no_carriers, index_from, root_var, where_some,
  mutate_param, flag_mutated, mutate_root, pass, mark_all, via_call,
}
use ontixa.Memory.Order.{
  rank, level, Under, Under-refl, Sub, Used, Grows, Below, Related, ◌≼◌, Moves, then-≼, nothing-≼,
  modify-≼, Below-facts,
}
use ontixa.Memory.Monotone.{level-mutated, where_some-Moves, mutate_param-Moves, update-Grows}

-- A write does not pass a fact that is moved.
level-write :
    (f f' : ParamFacts)
    → Under (level f) (level f')
    → 3 ≤ level f'
    → Under (level (record f { mutated = true })) (level f')
unfolding level
level-write f f' h p = ground arith

module _ (tables : TypeTables) (params : List ParamDef) (view view' : ℕ → List ParamBehavior) where
  -- After the walk, the parameter at the root of the expression has a level of `k` at least.
  abbrev pub Rooted : HirExpr → Walk → ℕ → Type 0
  Rooted e w k =
      (sym i : ℕ)
      → root_var e ≡ some sym
      → index_from 0 params sym ≡ some i
      → (s : Collector) → k ≤ level ((w s).1.facts i)

  -- The same of a state.
  abbrev RootedAt : HirExpr → Collector → ℕ → Type 0
  RootedAt e s k =
      (sym i : ℕ) → root_var e ≡ some sym → index_from 0 params sym ≡ some i → k ≤ level (s.facts i)

  mutate_root-Moves :
      (e : HirExpr) → Moves (mutate_root tables view params e) (mutate_root tables view' params e)
  unfolding mutate_root flag_mutated
  mutate_root-Moves e = where_some-Moves tables params view view' (root_var e) _ _ λ sym.
      where_some-Moves tables params view view' (index_from 0 params sym) _ _
        λ i. mutate_param-Moves tables params view view' (span_of e) i

  -- A write on the right only, to a parameter that is used.
  mutate_root-right :
      (e : HirExpr) (s s' : Collector)
      → Below s s'
      → RootedAt e s' 1
      → Below s (mutate_root tables view' params e s')
        × Grows s' (mutate_root tables view' params e s')
  unfolding mutate_root flag_mutated mutate_param
  mutate_root-right e s s' b r = go (root_var e) λ sym i p q. r sym i p q
    where
      at_index :
          (o : Option ℕ)
          → ((i : ℕ) → o ≡ some i → 1 ≤ level (s'.facts i))
          → Below s (where_some o (mutate_param (span_of e)) s')
            × Grows s' (where_some o (mutate_param (span_of e)) s')
      at_index none u = (b, λ i. omega arith)
      at_index (some i) u =
          let (_, g) = level-mutated (s'.facts i) (s'.facts i) (Under-refl (level (s'.facts i))) in
          let grows =
            update-Grows tables params view view' s'.facts i
              (record (s'.facts i) { mutated = true }) g in
          (
            Below-facts s s' s _ b refl refl
                (λ j. (
                  omega (arith, grows j, b.levels j),
                  λ h. elim (Bool-cases (i == j)) [
                    | inl e' ↦
                        let q : i ≡ j = ground arith in
                        (b.levels j).1 (subst (λ k. 1 ≤ level (s'.facts k)) q (u i refl))
                    | inr e' ↦ (b.levels j).1 (rw e' at h)
                  ],
                ))
                grows,
            grows,
          )

      go :
          (o : Option ℕ)
          → ((sym i : ℕ) → o ≡ some sym → index_from 0 params sym ≡ some i → 1 ≤ level (s'.facts i))
          → (let f = λ (sym : ℕ). where_some (index_from 0 params sym) (mutate_param (span_of e)) in
              Below s (where_some o f s') × Grows s' (where_some o f s'))
      go none u = (b, λ i. omega arith)
      go (some sym) u = at_index (index_from 0 params sym) λ i p. u sym i refl p

  -- A write on the left only, to a parameter that is moved on the right.
  mutate_root-left :
      (e : HirExpr) (s s' : Collector)
      → Below s s'
      → RootedAt e s' 3
      → Below (mutate_root tables view params e s) s'
  unfolding mutate_root flag_mutated mutate_param
  mutate_root-left e s s' b r = go (root_var e) λ sym i p q. r sym i p q
    where
      at_index :
          (o : Option ℕ)
          → ((i : ℕ) → o ≡ some i → 3 ≤ level (s'.facts i))
          → Below (where_some o (mutate_param (span_of e)) s) s'
      at_index none u = b
      at_index (some i) u =
          Below-facts s s' _ s' b refl refl
            (λ j. elim (Bool-cases (i == j)) [
              | inl e' ↦
                  let q : i ≡ j = ground arith in
                  rw (e', flip q) (level-write (s.facts i) (s'.facts i) (b.levels i) (u i refl))
              | inr e' ↦ rw e' (b.levels j)
            ])
            (λ j. omega arith)

      go :
          (o : Option ℕ)
          → ((sym i : ℕ) → o ≡ some sym → index_from 0 params sym ≡ some i → 3 ≤ level (s'.facts i))
          → Below
              (where_some o
                (λ sym. where_some (index_from 0 params sym) (mutate_param (span_of e)))
                s)
              s'
      go none u = b
      go (some sym) u = at_index (index_from 0 params sym) λ i p. u sym i refl p

  -- From related walks to related results, by a last step on both sides.
  finish :
      (s' : Collector) (x x' : Carriers × Collector) (c c' : Carriers) (t t' : Collector)
      → Related s' x x'
      → Below t t'
      → Grows (x'.1) t'
      → Sub c c'
      → Used c' t'
      → Related s' (c, t) (c', t')
  finish s' x x' c c' t t' r below grows sub used = record {
    sub = sub;
    used = used;
    below = below;
    grows = λ i. omega (arith, r.grows i, grows i);
  }

  none-Sub : (c : Carriers) → Sub no_carriers c
  none-Sub c i p = absurd (ground arith)

  none-Used : (s : Collector) → Used no_carriers s
  none-Used s i p = absurd (ground arith)

  -- The same where nothing is carried.
  finish_none :
      (s' : Collector) (x x' : Carriers × Collector) (t t' : Collector)
      → Related s' x x'
      → Below t t'
      → Grows (x'.1) t'
      → Related s' (no_carriers, t) (no_carriers, t')
  finish_none s' x x' t t' r below grows =
      finish s' x x' no_carriers no_carriers t t' r below grows (none-Sub no_carriers)
        (none-Used t')

  still : (s : Collector) → Grows s s
  still s i = omega arith

  -- A mark leaves facts and carriers.
  pub marked :
      (s s' : Collector) (c c' : Carriers) (def : ℕ) (at : Span)
      → Below s s'
      → Below (mark_all c (via_call def) at s) (mark_all c' (via_call def) at s')
  unfolding mark_all
  marked s s' c c' def at b = record {
    levels = b.levels;
    carried = b.carried;
    carried_used = b.carried_used;
  }

  -- Where the right side lets the argument escape.
  escape_right :
      (s' : Collector) (x x' : Carriers × Collector) (t : Collector) (def : ℕ) (at : Span)
      → Related s' x x'
      → Below t (x'.1)
      → Related s' (no_carriers, t) (x'.0, mark_all (x'.0) (via_call def) at (x'.1))
  unfolding mark_all
  escape_right s' x x' t def at r b =
      finish s' x x' no_carriers (x'.0) t _ r
        (record { levels = b.levels; carried = b.carried; carried_used = b.carried_used })
        (still (x'.1)) (none-Sub (x'.0)) r.used

  pub pass-≼ :
      (def : ℕ) (at : Span) (b b' : ParamBehavior) (e : HirExpr) (reads moves reads' moves' : Walk)
      → Under (rank b) (rank b')
      → reads ≼ reads'
      → reads ≼ moves'
      → moves ≼ moves'
      → Rooted e reads' 1
      → (b ≡ ParamBehavior.borrow_mut → Rooted e moves' 3)
      → pass tables view params def at b e reads moves
        ≼ pass tables view' params def at b' e reads' moves'
  unfolding pass rank
  pass-≼ def at ParamBehavior.copy ParamBehavior.copy e rd mv rd' mv' u p q r ru rm s s' b =
      (then-≼ rd rd' nothing nothing p nothing-≼) s s' b
  pass-≼ def at ParamBehavior.borrow ParamBehavior.borrow e rd mv rd' mv' u p q r ru rm s s' b =
      (then-≼ rd rd' nothing nothing p nothing-≼) s s' b
  pass-≼ def at ParamBehavior.borrow ParamBehavior.borrow_mut e rd mv rd' mv' u p q r ru rm s s' b =
      let x = p s s' b in
      let (below, grows) =
        mutate_root-right e ((rd s).1) ((rd' s').1) x.below λ sym i m n. ru sym i m n s' in
      finish_none s' (rd s) (rd' s') _ _ x below grows
  pass-≼ def at ParamBehavior.borrow ParamBehavior.move e rd mv rd' mv' u p q r ru rm s s' b =
      (then-≼ rd mv' nothing nothing q nothing-≼) s s' b
  pass-≼ def at ParamBehavior.borrow ParamBehavior.unknown e rd mv rd' mv' u p q r ru rm s s' b =
      (then-≼ rd mv' nothing nothing q nothing-≼) s s' b
  pass-≼ def at ParamBehavior.borrow ParamBehavior.escape e rd mv rd' mv' u p q r ru rm s s' b =
      let x = q s s' b in escape_right s' (rd s) (mv' s') _ def at x x.below
  pass-≼ def at ParamBehavior.borrow_mut ParamBehavior.borrow_mut e rd mv rd' mv' u p q r ru rm s s'
        b =
      (then-≼ rd rd' _ _ p (modify-≼ _ _ (mutate_root-Moves e))) s s' b
  pass-≼ def at ParamBehavior.borrow_mut ParamBehavior.move e rd mv rd' mv' u p q r ru rm s s' b =
      let x = q s s' b in
      let below =
        mutate_root-left e ((rd s).1) ((mv' s').1) x.below λ sym i m n. rm refl sym i m n s' in
      finish_none s' (rd s) (mv' s') _ _ x below (still ((mv' s').1))
  pass-≼ def at ParamBehavior.borrow_mut ParamBehavior.unknown e rd mv rd' mv' u p q r ru rm s s'
        b =
      let x = q s s' b in
      let below =
        mutate_root-left e ((rd s).1) ((mv' s').1) x.below λ sym i m n. rm refl sym i m n s' in
      finish_none s' (rd s) (mv' s') _ _ x below (still ((mv' s').1))
  pass-≼ def at ParamBehavior.borrow_mut ParamBehavior.escape e rd mv rd' mv' u p q r ru rm s s' b =
      let x = q s s' b in
      let below =
        mutate_root-left e ((rd s).1) ((mv' s').1) x.below λ sym i m n. rm refl sym i m n s' in
      escape_right s' (rd s) (mv' s') _ def at x below
  pass-≼ def at ParamBehavior.move ParamBehavior.move e rd mv rd' mv' u p q r ru rm s s' b =
      (then-≼ mv mv' nothing nothing r nothing-≼) s s' b
  pass-≼ def at ParamBehavior.move ParamBehavior.unknown e rd mv rd' mv' u p q r ru rm s s' b =
      (then-≼ mv mv' nothing nothing r nothing-≼) s s' b
  pass-≼ def at ParamBehavior.move ParamBehavior.escape e rd mv rd' mv' u p q r ru rm s s' b =
      let x = r s s' b in escape_right s' (mv s) (mv' s') _ def at x x.below
  pass-≼ def at ParamBehavior.unknown ParamBehavior.move e rd mv rd' mv' u p q r ru rm s s' b =
      (then-≼ mv mv' nothing nothing r nothing-≼) s s' b
  pass-≼ def at ParamBehavior.unknown ParamBehavior.unknown e rd mv rd' mv' u p q r ru rm s s' b =
      (then-≼ mv mv' nothing nothing r nothing-≼) s s' b
  pass-≼ def at ParamBehavior.unknown ParamBehavior.escape e rd mv rd' mv' u p q r ru rm s s' b =
      let x = r s s' b in escape_right s' (mv s) (mv' s') _ def at x x.below
  pass-≼ def at ParamBehavior.escape ParamBehavior.escape e rd mv rd' mv' u p q r ru rm s s' b =
      let x = r s s' b in
      finish s' (mv s) (mv' s') ((mv s).0) ((mv' s').0) _ _ x
        (marked ((mv s).1) ((mv' s').1) ((mv s).0) ((mv' s').0) def at x.below) (still ((mv' s').1))
        x.sub x.used
  pass-≼ def at _ _ e rd mv rd' mv' u p q r ru rm s s' b =
      absurd (let z : ⊥ = omega (arith, u.0, u.1) in z)
