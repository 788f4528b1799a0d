-- ===== src/Memory/Locality.antt =====
-- A walk reads the contracts of the callees of its body and no others: `eval` and `callees_of` of
-- crates/ontixa-memory/src/analyze.rs.
use mathlib.Core.Path.{ap₂, fun_ext}
use ontixa.Prelude.{
  ℕ, Bool, true, false, ◌||◌, List, [], ◌∷◌, Option, none, some, ◌≡◌, refl, ap, ◌∙◌, ==_refl,
  if◌then◌else◌,
}
use ontixa.Source.Span.{Span}
use ontixa.Types.Ty.{is_copy}
use ontixa.Mir.{ParamBehavior}
use ontixa.Hir.{
  HirExpr, HirExprKind, HirExprs, HirOption, HirInits, HirArms, HirStmts, HirPat, HirBody, FnSig,
  ParamDef, TypeTables, node, nil, cons, absent, present, end, init, no_arms, arm, done, let_then,
  assign_then, expr_then, return_then, span_of,
}
use ontixa.Memory.Facts.{
  Ctx, Carriers, Collector, Walk, ◌>>=◌, ◌>>◌, ◌⊔◌, modify, nothing, use_var, flag, flag_mutated,
  carry, carry_binds, carry_pattern, consume, consume_view, mutate_root, mark_all, via_call, pure,
  assign_to, pass, behavior_or_move, first_of, rest_of, escape_all, eval, eval_option, eval_args,
  eval_all, eval_inits, eval_arms, walk_stmts, collect_facts, start,
}
use ontixa.Memory.Contracts.{calls, calls_option, calls_any, calls_inits, calls_arms, calls_stmts}

pub or_left : (a b : Bool) → a ≡ true → (a || b) ≡ true
or_left a b p = rw p refl

pub or_right : (a b : Bool) → b ≡ true → (a || b) ≡ true
or_right true b p = refl
or_right false b p = p

then-eq : {m m' k k' : Walk} → m ≡ m' → k ≡ k' → (m >> k) ≡ (m' >> k')
then-eq p q = ap₂ (λ (m k : Walk). m >> k) p q

quiet-eq : {m m' : Walk} → m ≡ m' → (m >> nothing) ≡ (m' >> nothing)
quiet-eq p = ap (λ (m : Walk). m >> nothing) p

modify-eq : (f : Collector → Collector) {k k' : Walk} → k ≡ k' → (modify f >> k) ≡ (modify f >> k')
modify-eq f p = ap (λ (k : Walk). modify f >> k) p

join-eq : {m m' k k' : Walk} → m ≡ m' → k ≡ k' → (m ⊔ k) ≡ (m' ⊔ k')
join-eq p q = ap₂ (λ (m k : Walk). m ⊔ k) p q

bind-eq :
    {m m' : Walk} {k k' : Carriers → Walk}
    → m ≡ m'
    → ((c : Carriers) → k c ≡ k' c)
    → (m >>= k) ≡ (m' >>= k')
bind-eq p q = ap₂ (λ (m : Walk) (k : Carriers → Walk). m >>= k) p (fun_ext q)

if-eq :
    {m m' k k' : Walk} (t : Bool) → m ≡ m' → k ≡ k' → (if t then m else k) ≡ (if t then m' else k')
if-eq t p q = ap₂ (λ (m k : Walk). if t then m else k) p q

module _ (tables : TypeTables) (params : List ParamDef) (view view' : ℕ → List ParamBehavior) where
  -- The views agree where a test of definitions holds.
  abbrev pub AgreeOn : (ℕ → Bool) → Type 0
  AgreeOn test = (g : ℕ) → test g ≡ true → view g ≡ view' g

  carry_binds-eq :
      (bs : List (Option ℕ)) (c : Carriers) (s : Collector)
      → carry_binds tables view params bs c s ≡ carry_binds tables view' params bs c s
  unfolding carry_binds carry
  carry_binds-eq [] c s = refl
  carry_binds-eq (none ∷ bs) c s = carry_binds-eq bs c s
  carry_binds-eq (some b ∷ bs) c s = carry_binds-eq bs c _

  carry_pattern-eq :
      (p : HirPat) (c : Carriers) (s : Collector)
      → carry_pattern tables view params p c s ≡ carry_pattern tables view' params p c s
  unfolding carry_pattern carry
  carry_pattern-eq (HirPat.variant d v bs at) c s = carry_binds-eq bs c s
  carry_pattern-eq (HirPat.bind (some x) at) c s = refl
  carry_pattern-eq (HirPat.bind none at) c s = refl
  carry_pattern-eq HirPat.poison c s = refl

  pass-eq :
      (def : ℕ) (at : Span) (b : ParamBehavior) (e : HirExpr) {r r' w w' : Walk}
      → r ≡ r'
      → w ≡ w'
      → pass tables view params def at b e r w ≡ pass tables view' params def at b e r' w'
  unfolding pass mutate_root flag_mutated
  pass-eq def at ParamBehavior.borrow e p q = quiet-eq p
  pass-eq def at ParamBehavior.copy e p q = quiet-eq p
  pass-eq def at ParamBehavior.borrow_mut e p q =
      ap (λ (w : Walk). w >> modify (mutate_root tables view params e)) p
  pass-eq def at ParamBehavior.move e p q = quiet-eq q
  pass-eq def at ParamBehavior.unknown e p q = quiet-eq q
  pass-eq def at ParamBehavior.escape e p q =
      ap (λ (w : Walk). w >>= λ c. modify (mark_all c (via_call def) at) >> pure c) q

  mutual
    unfolding eval use_var flag carry assign_to flag_mutated consume_view calls

    pub eval-eq :
        (e : HirExpr) (c : Ctx)
        → AgreeOn (λ g. calls g e)
        → eval tables view params e c ≡ eval tables view' params e c
    eval-eq (node i at (HirExprKind.literal l)) c h = refl
    eval-eq (node i at HirExprKind.poison) c h = refl
    eval-eq (node i at (HirExprKind.var x)) c h = refl
    eval-eq (node i at (HirExprKind.field base name f)) c h =
        if-eq (is_copy (tables.ty_of i)) (quiet-eq (eval-eq base Ctx.read h)) (eval-eq base c h)
    eval-eq (node i at (HirExprKind.len base)) c h = quiet-eq (eval-eq base Ctx.read h)
    eval-eq (node i at (HirExprKind.index base k)) c h =
        let l = λ (x : Ctx). eval-eq base x (λ g p. h g (or_left _ _ p)) in
        let r = eval-eq k Ctx.read (λ g p. h g (or_right _ _ p)) in
        if-eq (is_copy (tables.ty_of i)) (quiet-eq (then-eq (l Ctx.read) r))
          (join-eq (l c) (quiet-eq r))
    eval-eq (node i at (HirExprKind.slice base lo hi)) c h =
        let l = λ (x : Ctx). eval-eq base x (λ g p. h g (or_left _ _ p)) in
        let r = eval_option-eq lo Ctx.read (λ g p. h g (or_right _ _ (or_left _ _ p))) in
        let r' = eval_option-eq hi Ctx.read (λ g p. h g (or_right _ _ (or_right _ _ p))) in
        if-eq (is_copy (tables.ty_of i)) (quiet-eq (then-eq (then-eq (l Ctx.read) r) r'))
          (join-eq (l c) (quiet-eq (then-eq r r')))
    eval-eq (node i at (HirExprKind.call def args)) c h =
        let e = h def (or_left _ _ (==_refl def)) in
        then-eq
          (ap
            (λ (v : List ParamBehavior).
              modify (λ s. record s { consumed = consume def v s.consumed }))
            e)
          (ap (λ (v : List ParamBehavior). eval_args tables view params def at v args) e
            ∙ eval_args-eq def at (view' def) args (λ g p. h g (or_right _ _ p)))
    eval-eq (node i at (HirExprKind.binary op l r)) c h = quiet-eq (
        then-eq (eval-eq l Ctx.read (λ g p. h g (or_left _ _ p)))
          (eval-eq r Ctx.read (λ g p. h g (or_right _ _ p))))
    eval-eq (node i at (HirExprKind.unary op e)) c h = quiet-eq (eval-eq e Ctx.read h)
    eval-eq (node i at (HirExprKind.if_else x t e)) c h =
        then-eq (eval-eq x Ctx.read (λ g p. h g (or_left _ _ p))) (
          join-eq (eval-eq t c (λ g p. h g (or_right _ _ (or_left _ _ p))))
            (eval_option-eq e c (λ g p. h g (or_right _ _ (or_right _ _ p)))))
    eval-eq (node i at (HirExprKind.block ss e)) c h =
        then-eq (walk_stmts-eq ss (λ g p. h g (or_left _ _ p)))
          (eval_option-eq e c (λ g p. h g (or_right _ _ p)))
    eval-eq (node i at (HirExprKind.struct_lit d fs)) c h = eval_inits-eq fs h
    eval-eq (node i at (HirExprKind.array_lit es)) c h = eval_all-eq es h
    eval-eq (node i at (HirExprKind.range lo hi)) c h = quiet-eq (
        then-eq (eval_option-eq lo Ctx.read (λ g p. h g (or_left _ _ p)))
          (eval_option-eq hi Ctx.read (λ g p. h g (or_right _ _ p))))
    eval-eq (node i at (HirExprKind.for_in x e b)) c h = quiet-eq (
        then-eq (eval-eq e Ctx.read (λ g p. h g (or_left _ _ p)))
          (eval-eq b Ctx.move (λ g p. h g (or_right _ _ p))))
    eval-eq (node i at (HirExprKind.variant_lit d v es)) c h = eval_all-eq es h
    eval-eq (node i at (HirExprKind.match_on e arms)) c h =
        bind-eq (eval-eq e Ctx.read (λ g p. h g (or_left _ _ p)))
          (λ x. eval_arms-eq x c arms (λ g p. h g (or_right _ _ p)))

    eval_option-eq :
        (o : HirOption) (c : Ctx)
        → AgreeOn (λ g. calls_option g o)
        → eval_option tables view params o c ≡ eval_option tables view' params o c
    eval_option-eq absent c h = refl
    eval_option-eq (present e) c h = eval-eq e c h

    eval_args-eq :
        (def : ℕ) (at : Span) (bs : List ParamBehavior) (es : HirExprs)
        → AgreeOn (λ g. calls_any g es)
        → eval_args tables view params def at bs es ≡ eval_args tables view' params def at bs es
    eval_args-eq def at bs nil h = refl
    eval_args-eq def at bs (cons e es) h =
        join-eq
          (pass-eq def at (behavior_or_move (first_of bs)) e
            (eval-eq e Ctx.read (λ g p. h g (or_left _ _ p)))
            (eval-eq e Ctx.move (λ g p. h g (or_left _ _ p))))
          (eval_args-eq def at (rest_of bs) es (λ g p. h g (or_right _ _ p)))

    eval_all-eq :
        (es : HirExprs)
        → AgreeOn (λ g. calls_any g es)
        → eval_all tables view params es ≡ eval_all tables view' params es
    eval_all-eq nil h = refl
    eval_all-eq (cons e es) h =
        join-eq (eval-eq e Ctx.move (λ g p. h g (or_left _ _ p)))
          (eval_all-eq es (λ g p. h g (or_right _ _ p)))

    eval_inits-eq :
        (fs : HirInits)
        → AgreeOn (λ g. calls_inits g fs)
        → eval_inits tables view params fs ≡ eval_inits tables view' params fs
    eval_inits-eq end h = refl
    eval_inits-eq (init name e fs) h =
        join-eq (eval-eq e Ctx.move (λ g p. h g (or_left _ _ p)))
          (eval_inits-eq fs (λ g p. h g (or_right _ _ p)))

    eval_arms-eq :
        (x : Carriers) (c : Ctx) (arms : HirArms)
        → AgreeOn (λ g. calls_arms g arms)
        → eval_arms tables view params x c arms ≡ eval_arms tables view' params x c arms
    eval_arms-eq x c no_arms h = refl
    eval_arms-eq x c (arm p e at arms) h = then-eq (ap modify (fun_ext (carry_pattern-eq p x))) (
        join-eq (eval-eq e c (λ g q. h g (or_left _ _ q)))
          (eval_arms-eq x c arms (λ g q. h g (or_right _ _ q))))

    walk_stmts-eq :
        (ss : HirStmts)
        → AgreeOn (λ g. calls_stmts g ss)
        → walk_stmts tables view params ss ≡ walk_stmts tables view' params ss
    walk_stmts-eq done h = refl
    walk_stmts-eq (let_then x ty e at ss) h =
        bind-eq (eval_option-eq e Ctx.move (λ g p. h g (or_left _ _ p))) (λ c.
          modify-eq (carry tables view params x c) (walk_stmts-eq ss (λ g p. h g (or_right _ _ p))))
    walk_stmts-eq (assign_then target e at ss) h =
        bind-eq (eval-eq e Ctx.move (λ g p. h g (or_left _ _ p))) (λ c.
          modify-eq (assign_to tables view params target c)
            (walk_stmts-eq ss (λ g p. h g (or_right _ _ p))))
    walk_stmts-eq (expr_then e semi ss) h =
        then-eq (eval-eq e Ctx.move (λ g p. h g (or_left _ _ p)))
          (walk_stmts-eq ss (λ g p. h g (or_right _ _ p)))
    walk_stmts-eq (return_then absent at ss) h = walk_stmts-eq ss h
    walk_stmts-eq (return_then (present e) at ss) h =
        bind-eq (eval-eq e Ctx.move (λ g p. h g (or_left _ _ p))) (λ c.
          modify-eq (escape_all c (span_of e)) (walk_stmts-eq ss (λ g p. h g (or_right _ _ p))))

-- The facts of a body depend on the contracts of its callees only.
pub collect_facts-local :
    (b : HirBody) (tables : TypeTables) (view view' : ℕ → List ParamBehavior) (sig : FnSig)
    → AgreeOn tables sig.params view view' (λ g. calls g b.root)
    → collect_facts b tables view sig ≡ collect_facts b tables view' sig
unfolding collect_facts
collect_facts-local b tables view view' sig h =
    ap (λ (w : Walk). let (c, s) = w start in escape_all c (span_of b.root) s)
      (eval-eq tables sig.params view view' b.root Ctx.move h)
