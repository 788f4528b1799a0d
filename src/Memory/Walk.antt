-- ===== src/Memory/Walk.antt =====
-- The walk of a whole body is monotone in the contracts of its callees: `collect_facts` of
-- crates/ontixa-memory/src/analyze.rs.
use ontixa.Prelude.{
  ℕ, ◌≤◌, Bool, true, false, List, [], ◌∷◌, Option, none, some, ◌≡◌, refl, subst, if◌then◌else◌,
  Bool-cases, ◌⊎◌, inl, inr, arith,
}
use ontixa.Source.Span.{Span}
use ontixa.Types.Ty.{is_copy}
use ontixa.Mir.{ParamBehavior}
use ontixa.Hir.{
  HirExpr, HirExprKind, HirExprs, HirOption, HirInits, HirArms, HirStmts, HirPat, HirPlace,
  ParamDef, TypeTables, node, nil, cons, absent, present, end, init, no_arms, arm, done, let_then,
  assign_then, expr_then, return_then, id_of, span_of,
}
use ontixa.Memory.Facts.{
  Ctx, Carriers, Collector, Walk, ◌>>◌, modify, union, index_from, root_var, behavior_or_move,
  first_of, rest_of, flag, use_var, flag_mutated, carry, carry_binds, carry_pattern, is_copy_local,
  consume_view, assign_to, escape_all, mark_all, eval, eval_option, eval_args, eval_all, eval_inits,
  eval_arms, walk_stmts,
}
use ontixa.Memory.Order.{
  rank, level, Under, Under-refl, UnderAll, UnderCtx, Sub, Used, Grows, Below, ◌≼◌, ◌≼ₖ◌, Moves,
  bind-≼, then-≼, join-≼, union_sub, union_used, nothing-≼, modify-≼, Below-carry, Below-facts,
}
use ontixa.Memory.Monotone.{
  level-escaped, flag_param-used, flag_param-moved, use_var-≼, where_some-Moves, mutate_param-Moves,
}
use ontixa.Memory.Arguments.{Rooted, pass-≼}

-- A contract fits the parameters of a function, of which the flags say whether their types are copied.
abbrev pub Fits : List Bool → List ParamBehavior → Type 0
Fits cs [] = Unit
Fits [] (b ∷ bs) = ⊥
Fits (c ∷ cs) (b ∷ bs) = (c ≡ true → rank b ≡ 0) × Fits cs bs

abbrev rest_flags : List Bool → List Bool
rest_flags [] = []
rest_flags (c ∷ cs) = cs

-- An argument for a parameter that is not copied.
abbrev NotCopied : TypeTables → List Bool → HirExpr → Type 0
NotCopied t [] e = Unit
NotCopied t (c ∷ cs) e = c ≡ false → is_copy (t.ty_of (id_of e)) ≡ false

-- What the type checker gives the analysis: the base of a field access is not of a copied type, and
-- neither is an argument for a parameter that is not.
module _ (tables : TypeTables) (copies : ℕ → List Bool) where
  unfoldable mutual
    pub WellTyped : HirExpr → Type 0
    WellTyped (node i at (HirExprKind.literal l)) = Unit
    WellTyped (node i at HirExprKind.poison) = Unit
    WellTyped (node i at (HirExprKind.var sym)) = Unit
    WellTyped (node i at (HirExprKind.field base name f)) =
        (is_copy (tables.ty_of (id_of base)) ≡ false) × WellTyped base
    WellTyped (node i at (HirExprKind.len e)) = WellTyped e
    WellTyped (node i at (HirExprKind.index e k)) = WellTyped e × WellTyped k
    WellTyped (node i at (HirExprKind.slice e lo hi)) =
        WellTyped e × TypedOption lo × TypedOption hi
    WellTyped (node i at (HirExprKind.call def args)) = TypedArgs (copies def) args
    WellTyped (node i at (HirExprKind.binary op l r)) = WellTyped l × WellTyped r
    WellTyped (node i at (HirExprKind.unary op e)) = WellTyped e
    WellTyped (node i at (HirExprKind.if_else c t e)) = WellTyped c × WellTyped t × TypedOption e
    WellTyped (node i at (HirExprKind.block ss e)) = TypedStmts ss × TypedOption e
    WellTyped (node i at (HirExprKind.struct_lit d fs)) = TypedInits fs
    WellTyped (node i at (HirExprKind.array_lit es)) = TypedAll es
    WellTyped (node i at (HirExprKind.range lo hi)) = TypedOption lo × TypedOption hi
    WellTyped (node i at (HirExprKind.for_in v e b)) = WellTyped e × WellTyped b
    WellTyped (node i at (HirExprKind.variant_lit d v es)) = TypedAll es
    WellTyped (node i at (HirExprKind.match_on e arms)) = WellTyped e × TypedArms arms

    pub TypedOption : HirOption → Type 0
    TypedOption absent = Unit
    TypedOption (present e) = WellTyped e

    pub TypedArgs : List Bool → HirExprs → Type 0
    TypedArgs cs nil = Unit
    TypedArgs cs (cons e es) = NotCopied tables cs e × WellTyped e × TypedArgs (rest_flags cs) es

    pub TypedAll : HirExprs → Type 0
    TypedAll nil = Unit
    TypedAll (cons e es) = WellTyped e × TypedAll es

    pub TypedInits : HirInits → Type 0
    TypedInits end = Unit
    TypedInits (init name e fs) = WellTyped e × TypedInits fs

    pub TypedArms : HirArms → Type 0
    TypedArms no_arms = Unit
    TypedArms (arm p e at arms) = WellTyped e × TypedArms arms

    pub TypedStmts : HirStmts → Type 0
    TypedStmts done = Unit
    TypedStmts (let_then sym ty e at ss) = TypedOption e × TypedStmts ss
    TypedStmts (assign_then target e at ss) = WellTyped e × TypedStmts ss
    TypedStmts (expr_then e semi ss) = WellTyped e × TypedStmts ss
    TypedStmts (return_then e at ss) = TypedOption e × TypedStmts ss

if-≼ :
    (t : Bool) (m m' k k' : Walk) → m ≼ m' → k ≼ k' → (if t then m else k) ≼ (if t then m' else k')
if-≼ true m m' k k' p q = p
if-≼ false m m' k k' p q = q

-- The flags of a state change by an escape of what it carries.
pub escape_all-Moves :
    (at : Span) (c c' : Carriers) (s s' : Collector)
    → Below s s'
    → Sub c c'
    → Used c' s'
    → Below (escape_all c at s) (escape_all c' at s') × Grows s' (escape_all c' at s')
unfolding escape_all mark_all
escape_all-Moves at c c' s s' b sub used =
    let grows : Grows s' (escape_all c' at s') = λ i. elim (Bool-cases (c' i)) [
      | inl e ↦ rw e (level-escaped (s'.facts i)).0
      | inr e ↦ rw e (Under-refl (level (s'.facts i))).0
    ] in
    (
      Below-facts s s' _ _ b refl refl (λ i. levels i (Bool-cases (c i)) (Bool-cases (c' i))) grows,
      grows,
    )
  where
    levels :
        (i : ℕ)
        → ((c i ≡ true) ⊎ (c i ≡ false))
        → ((c' i ≡ true) ⊎ (c' i ≡ false))
        → Under
            (level (if c i then record (s.facts i) { escaped = true } else s.facts i))
            (level (if c' i then record (s'.facts i) { escaped = true } else s'.facts i))
    levels i (inl e) (inl e') =
        rw (e, e')
          (let p = level-escaped (s.facts i) in
            let q = level-escaped (s'.facts i) in
            (omega (arith, p.1, q.1), λ h. omega (arith, p.1)))
    levels i (inl e) (inr e') = absurd (let q = sub i e in let z : ⊥ = cc in z)
    levels i (inr e) (inl e') =
        rw (e, e')
          (let q = level-escaped (s'.facts i) in
            let u = b.levels i in (omega (arith, q.0, u.0), λ h. u.1 (used i e')))
    levels i (inr e) (inr e') = rw (e, e') (b.levels i)

escape-≼ :
    (at : Span) (k k' : Walk)
    → k ≼ k'
    → (λ c. modify (escape_all c at) >> k) ≼ₖ (λ c. modify (escape_all c at) >> k')
escape-≼ at k k' p c c' s s' b sub used =
    let (below, grows) = escape_all-Moves at c c' s s' b sub used in
    let r = p _ _ below in
    record {
      sub = r.sub;
      used = r.used;
      below = r.below;
      grows = λ i. omega (arith, grows i, r.grows i);
    }

rank_mut : (b : ParamBehavior) → b ≡ ParamBehavior.borrow_mut → rank b ≡ 2
unfolding rank
rank_mut b p = ground arith

module _ (tables : TypeTables) (copies : ℕ → List Bool) (params : List ParamDef)
    (view view' : ℕ → List ParamBehavior) where
  -- The root of an expression is used by its walk, and moved by a walk that moves.
  used-Rooted :
      (e : HirExpr) (c : Ctx) → Rooted tables params view view' e (eval tables view' params e c) 1
  unfolding eval use_var flag root_var
  used-Rooted (node j at (HirExprKind.var x)) c sym i p q s =
      let e : x ≡ sym = ground arith in
      let q' : index_from 0 params x ≡ some i = cc in
      rw q' (flag_param-used tables params view view' c at i s)
  used-Rooted (node j at (HirExprKind.field base name f)) c sym i p q s =
      elim (Bool-cases (is_copy (tables.ty_of j))) [
        | inl t ↦ rw t (used-Rooted base Ctx.read sym i p q s)
        | inr t ↦ rw t (used-Rooted base c sym i p q s)
      ]
  used-Rooted (node j at _) c sym i p q s = absurd (ground arith)

  moved-Rooted :
      (e : HirExpr)
      → WellTyped tables copies e
      → is_copy (tables.ty_of (id_of e)) ≡ false
      → Rooted tables params view view' e (eval tables view' params e Ctx.move) 3
  unfolding eval use_var flag root_var WellTyped
  moved-Rooted (node j at (HirExprKind.var x)) w t sym i p q s =
      let e : x ≡ sym = ground arith in
      let q' : index_from 0 params x ≡ some i = cc in
      rw q' (flag_param-moved tables params view view' at i s)
  moved-Rooted (node j at (HirExprKind.field base name f)) (wt, w) t sym i p q s =
      rw t (moved-Rooted base w wt sym i p q s)
  moved-Rooted (node j at _) w t sym i p q s = absurd (ground arith)

  carry-≼ :
      (sym : ℕ) (k k' : Walk)
      → k ≼ k'
      → (λ c. modify (carry tables view params sym c) >> k)
        ≼ₖ (λ c. modify (carry tables view' params sym c) >> k')
  unfolding carry
  carry-≼ sym k k' p c c' s s' b sub used =
      let r = p _ _ (Below-carry s s' sym c c' b sub used) in
      record { sub = r.sub; used = r.used; below = r.below; grows = r.grows }

  carry_binds-Below :
      (bs : List (Option ℕ)) (c c' : Carriers) (s s' : Collector)
      → Below s s'
      → Sub c c'
      → Used c' s'
      → Below (carry_binds tables view params bs c s) (carry_binds tables view' params bs c' s')
        × ((carry_binds tables view' params bs c' s').facts ≡ s'.facts)
  unfolding carry_binds carry
  carry_binds-Below [] c c' s s' b sub used = (b, refl)
  carry_binds-Below (none ∷ bs) c c' s s' b sub used = carry_binds-Below bs c c' s s' b sub used
  carry_binds-Below (some x ∷ bs) c c' s s' b sub used =
      elim (Bool-cases (is_copy_local tables view params (tables.local_types x))) [
        | inl t ↦ rw (t, carry_binds) (carry_binds-Below bs c c' s s' b sub used)
        | inr t ↦
            rw (t, carry_binds)
              (carry_binds-Below bs c c' _ _ (Below-carry s s' x c c' b sub used) sub used)
      ]

  carry_pattern-Below :
      (p : HirPat) (c c' : Carriers) (s s' : Collector)
      → Below s s'
      → Sub c c'
      → Used c' s'
      → Below (carry_pattern tables view params p c s) (carry_pattern tables view' params p c' s')
        × ((carry_pattern tables view' params p c' s').facts ≡ s'.facts)
  unfolding carry_pattern carry
  carry_pattern-Below (HirPat.variant d v bs at) c c' s s' b sub used =
      carry_binds-Below bs c c' s s' b sub used
  carry_pattern-Below (HirPat.bind (some x) at) c c' s s' b sub used =
      (Below-carry s s' x c c' b sub used, refl)
  carry_pattern-Below (HirPat.bind none at) c c' s s' b sub used = (b, refl)
  carry_pattern-Below HirPat.poison c c' s s' b sub used = (b, refl)

  consume_view-Moves :
      (def : ℕ) → Moves (consume_view tables view params def) (consume_view tables view' params def)
  unfolding consume_view
  consume_view-Moves def s s' b = (
    record { levels = b.levels; carried = b.carried; carried_used = b.carried_used },
    λ i. omega arith,
  )

  -- An assignment adds to what its target carries.
  assign_to-≼ :
      (target : HirPlace) (k k' : Walk)
      → k ≼ k'
      → (λ c. modify (assign_to tables view params target c) >> k)
        ≼ₖ (λ c. modify (assign_to tables view' params target c) >> k')
  unfolding assign_to flag_mutated
  assign_to-≼ target k k' p c c' s s' b sub used =
      let (below, grows) =
        where_some-Moves tables params view view' (index_from 0 params target.base) _ _
          (λ i. mutate_param-Moves tables params view view' target.span i) s s' b in
      let t = flag_mutated tables view params target.base target.span s in
      let t' = flag_mutated tables view' params target.base target.span s' in
      let r = p _ _ (
        Below-carry t t' target.base (union (t.carriers target.base) c)
          (union (t'.carriers target.base) c') below
          (λ i. union_sub _ _ _ _ (below.carried target.base i) (sub i))
          (λ i.
            union_used _ _ (below.carried_used target.base i)
              (λ e. omega (arith, used i e, grows i)))) in
      record {
        sub = r.sub;
        used = r.used;
        below = r.below;
        grows = λ i. omega (arith, grows i, r.grows i);
      }

  -- What the contracts of a callee give for a given argument.
  first-Under :
      (bs bs' : List ParamBehavior)
      → UnderAll bs bs'
      → Under (rank (behavior_or_move (first_of bs))) (rank (behavior_or_move (first_of bs')))
  first-Under [] [] u = Under-refl (rank ParamBehavior.move)
  first-Under (b ∷ bs) (b' ∷ bs') u = u.0
  first-Under [] (b' ∷ bs') u = absurd u
  first-Under (b ∷ bs) [] u = absurd u

  rest-Under : (bs bs' : List ParamBehavior) → UnderAll bs bs' → UnderAll (rest_of bs) (rest_of bs')
  rest-Under [] [] u = tt
  rest-Under (b ∷ bs) (b' ∷ bs') u = u.1
  rest-Under [] (b' ∷ bs') u = absurd u
  rest-Under (b ∷ bs) [] u = absurd u

  rest-Fits :
      (cs : List Bool) (bs : List ParamBehavior) → Fits cs bs → Fits (rest_flags cs) (rest_of bs)
  rest-Fits [] [] f = tt
  rest-Fits (c ∷ cs) [] f = tt
  rest-Fits [] (b ∷ bs) f = absurd f
  rest-Fits (c ∷ cs) (b ∷ bs) f = f.1

  -- An argument that is borrowed mutably is not of a copied type.
  first-NotCopied :
      (cs : List Bool) (bs : List ParamBehavior) (e : HirExpr)
      → Fits cs bs
      → NotCopied tables cs e
      → behavior_or_move (first_of bs) ≡ ParamBehavior.borrow_mut
      → is_copy (tables.ty_of (id_of e)) ≡ false
  first-NotCopied cs [] e f n p = absurd (ground arith)
  first-NotCopied [] (b ∷ bs) e f n p = absurd f
  first-NotCopied (true ∷ cs) (b ∷ bs) e (f, fs) n p =
      absurd (
        let q : rank b ≡ 0 = f refl in let r = rank_mut b p in let z : ⊥ = omega (arith, q, r) in z)
  first-NotCopied (false ∷ cs) (b ∷ bs) e f n p = n refl

  module _ (below : (d : ℕ) → UnderAll (view d) (view' d))
      (fits : (d : ℕ) → Fits (copies d) (view d)) where
    mutual
      unfolding eval WellTyped

      pub eval-≼ :
          (e : HirExpr) (c c' : Ctx)
          → UnderCtx c c'
          → WellTyped tables copies e
          → eval tables view params e c ≼ eval tables view' params e c'
      eval-≼ (node i at (HirExprKind.literal l)) c c' u w = nothing-≼
      eval-≼ (node i at HirExprKind.poison) c c' u w = nothing-≼
      eval-≼ (node i at (HirExprKind.var x)) c c' u w =
          use_var-≼ tables params view view' x c c' at u
      eval-≼ (node i at (HirExprKind.field base name f)) c c' u (n, w) =
          if-≼ (is_copy (tables.ty_of i)) _ _ _ _
            (then-≼ _ _ _ _ (eval-≼ base Ctx.read Ctx.read tt w) nothing-≼) (eval-≼ base c c' u w)
      eval-≼ (node i at (HirExprKind.len base)) c c' u w =
          then-≼ _ _ _ _ (eval-≼ base Ctx.read Ctx.read tt w) nothing-≼
      eval-≼ (node i at (HirExprKind.index base k)) c c' u (w, v) =
          if-≼ (is_copy (tables.ty_of i)) _ _ _ _
            (then-≼ _ _ _ _
              (then-≼ _ _ _ _ (eval-≼ base Ctx.read Ctx.read tt w)
                (eval-≼ k Ctx.read Ctx.read tt v))
              nothing-≼)
            (join-≼ _ _ _ _ (eval-≼ base c c' u w)
              (then-≼ _ _ _ _ (eval-≼ k Ctx.read Ctx.read tt v) nothing-≼))
      eval-≼ (node i at (HirExprKind.slice base lo hi)) c c' u (w, v, v') =
          if-≼ (is_copy (tables.ty_of i)) _ _ _ _
            (then-≼ _ _ _ _
              (then-≼ _ _ _ _
                (then-≼ _ _ _ _ (eval-≼ base Ctx.read Ctx.read tt w)
                  (eval_option-≼ lo Ctx.read Ctx.read tt v))
                (eval_option-≼ hi Ctx.read Ctx.read tt v'))
              nothing-≼)
            (join-≼ _ _ _ _ (eval-≼ base c c' u w) (
              then-≼ _ _ _ _
                (then-≼ _ _ _ _ (eval_option-≼ lo Ctx.read Ctx.read tt v)
                  (eval_option-≼ hi Ctx.read Ctx.read tt v'))
                nothing-≼))
      eval-≼ (node i at (HirExprKind.call def args)) c c' u w =
          then-≼ _ _ _ _ (modify-≼ _ _ (consume_view-Moves def))
            (eval_args-≼ def at (copies def) (view def) (view' def) args (below def) (fits def) w)
      eval-≼ (node i at (HirExprKind.binary op l r)) c c' u (w, v) =
          then-≼ _ _ _ _
            (then-≼ _ _ _ _ (eval-≼ l Ctx.read Ctx.read tt w) (eval-≼ r Ctx.read Ctx.read tt v))
            nothing-≼
      eval-≼ (node i at (HirExprKind.unary op e)) c c' u w =
          then-≼ _ _ _ _ (eval-≼ e Ctx.read Ctx.read tt w) nothing-≼
      eval-≼ (node i at (HirExprKind.if_else x t e)) c c' u (w, v, v') =
          then-≼ _ _ _ _ (eval-≼ x Ctx.read Ctx.read tt w)
            (join-≼ _ _ _ _ (eval-≼ t c c' u v) (eval_option-≼ e c c' u v'))
      eval-≼ (node i at (HirExprKind.block ss e)) c c' u (w, v) =
          then-≼ _ _ _ _ (walk_stmts-≼ ss w) (eval_option-≼ e c c' u v)
      eval-≼ (node i at (HirExprKind.struct_lit d fs)) c c' u w = eval_inits-≼ fs w
      eval-≼ (node i at (HirExprKind.array_lit es)) c c' u w = eval_all-≼ es w
      eval-≼ (node i at (HirExprKind.range lo hi)) c c' u (w, v) =
          then-≼ _ _ _ _
            (then-≼ _ _ _ _ (eval_option-≼ lo Ctx.read Ctx.read tt w)
              (eval_option-≼ hi Ctx.read Ctx.read tt v))
            nothing-≼
      eval-≼ (node i at (HirExprKind.for_in x e b)) c c' u (w, v) =
          then-≼ _ _ _ _
            (then-≼ _ _ _ _ (eval-≼ e Ctx.read Ctx.read tt w) (eval-≼ b Ctx.move Ctx.move tt v))
            nothing-≼
      eval-≼ (node i at (HirExprKind.variant_lit d v es)) c c' u w = eval_all-≼ es w
      eval-≼ (node i at (HirExprKind.match_on e arms)) c c' u (w, v) =
          bind-≼ _ _ _ _ (eval-≼ e Ctx.read Ctx.read tt w) (eval_arms-≼ c c' u arms v)

      eval_option-≼ :
          (o : HirOption) (c c' : Ctx)
          → UnderCtx c c'
          → TypedOption tables copies o
          → eval_option tables view params o c ≼ eval_option tables view' params o c'
      eval_option-≼ absent c c' u w = nothing-≼
      eval_option-≼ (present e) c c' u w = eval-≼ e c c' u w

      eval_args-≼ :
          (def : ℕ) (at : Span) (cs : List Bool) (bs bs' : List ParamBehavior) (es : HirExprs)
          → UnderAll bs bs'
          → Fits cs bs
          → TypedArgs tables copies cs es
          → eval_args tables view params def at bs es ≼ eval_args tables view' params def at bs' es
      eval_args-≼ def at cs bs bs' nil u f w = nothing-≼
      eval_args-≼ def at cs bs bs' (cons e es) u f (n, w, ws) =
          join-≼ _ _ _ _
            (pass-≼ tables params view view' def at _ _ e _ _ _ _ (first-Under bs bs' u)
              (eval-≼ e Ctx.read Ctx.read tt w) (eval-≼ e Ctx.read Ctx.move tt w)
              (eval-≼ e Ctx.move Ctx.move tt w) (used-Rooted e Ctx.read)
              (λ p. moved-Rooted e w (first-NotCopied cs bs e f n p)))
            (eval_args-≼ def at (rest_flags cs) (rest_of bs) (rest_of bs') es (rest-Under bs bs' u)
              (rest-Fits cs bs f) ws)

      eval_all-≼ :
          (es : HirExprs)
          → TypedAll tables copies es
          → eval_all tables view params es ≼ eval_all tables view' params es
      eval_all-≼ nil w = nothing-≼
      eval_all-≼ (cons e es) (w, ws) =
          join-≼ _ _ _ _ (eval-≼ e Ctx.move Ctx.move tt w) (eval_all-≼ es ws)

      eval_inits-≼ :
          (fs : HirInits)
          → TypedInits tables copies fs
          → eval_inits tables view params fs ≼ eval_inits tables view' params fs
      eval_inits-≼ end w = nothing-≼
      eval_inits-≼ (init name e fs) (w, ws) =
          join-≼ _ _ _ _ (eval-≼ e Ctx.move Ctx.move tt w) (eval_inits-≼ fs ws)

      eval_arms-≼ :
          (c c' : Ctx)
          → UnderCtx c c'
          → (arms : HirArms) → TypedArms tables copies arms
          → (λ x. eval_arms tables view params x c arms)
            ≼ₖ (λ x. eval_arms tables view' params x c' arms)
      eval_arms-≼ c c' u no_arms w x x' s s' b sub used = nothing-≼ s s' b
      eval_arms-≼ c c' u (arm p e at arms) (w, ws) x x' s s' b sub used =
          let (b', same) = carry_pattern-Below p x x' s s' b sub used in
          let r = eval-≼ e c c' u w _ _ b' in
          let grows : Grows s'
              ((eval tables view' params e c' (carry_pattern tables view' params p x' s')).1) =
            λ i.
              subst
                (λ f.
                  level (f i)
                  ≤ level (
                      (eval tables view' params e c'
                          (carry_pattern tables view' params p x' s')).1.facts
                        i))
                same (r.grows i) in
          let r' =
            eval_arms-≼ c c' u arms ws x x' _ _ r.below sub
              (λ i h. omega (arith, grows i, used i h)) in
          record {
            sub = λ i. union_sub _ _ _ _ (r.sub i) (r'.sub i);
            used = λ i. union_used _ _ (λ h. omega (arith, r.used i h, r'.grows i)) (r'.used i);
            below = r'.below;
            grows = λ i. omega (arith, grows i, r'.grows i);
          }

      walk_stmts-≼ :
          (ss : HirStmts)
          → TypedStmts tables copies ss
          → walk_stmts tables view params ss ≼ walk_stmts tables view' params ss
      walk_stmts-≼ done w = nothing-≼
      walk_stmts-≼ (let_then x ty e at ss) (w, ws) =
          bind-≼ _ _ _ _ (eval_option-≼ e Ctx.move Ctx.move tt w)
            (carry-≼ x _ _ (walk_stmts-≼ ss ws))
      walk_stmts-≼ (assign_then target e at ss) (w, ws) =
          bind-≼ _ _ _ _ (eval-≼ e Ctx.move Ctx.move tt w)
            (assign_to-≼ target _ _ (walk_stmts-≼ ss ws))
      walk_stmts-≼ (expr_then e semi ss) (w, ws) =
          then-≼ _ _ _ _ (eval-≼ e Ctx.move Ctx.move tt w) (walk_stmts-≼ ss ws)
      walk_stmts-≼ (return_then absent at ss) (w, ws) = walk_stmts-≼ ss ws
      walk_stmts-≼ (return_then (present e) at ss) (w, ws) =
          bind-≼ _ _ _ _ (eval-≼ e Ctx.move Ctx.move tt w)
            (escape-≼ (span_of e) _ _ (walk_stmts-≼ ss ws))
