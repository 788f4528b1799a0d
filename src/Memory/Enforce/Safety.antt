-- ===== src/Memory/Enforce/Safety.antt =====
-- The enforcement is sound: a walk that reports nothing covers every path. `Enforcer::eval` and `stmt`
-- of crates/ontixa-memory/src/analyze.rs.
use ontixa.Prelude.{
  ℕ, Bool, true, false, ◌&&◌, List, Option, none, some, ◌≡◌, refl, if◌then◌else◌, arith,
}
use ontixa.Source.Span.{Span}
use ontixa.Types.Ty.{is_copy}
use ontixa.Mir.{ParamBehavior}
use ontixa.Hir.{
  HirExpr, HirExprKind, HirExprs, HirOption, HirInits, HirArms, HirStmts, HirBody, TypeTables, node,
  nil, cons, absent, present, end, init, no_arms, arm, done, let_then, assign_then, expr_then,
  return_then,
}
use ontixa.Memory.Place.{Place, place_of}
use ontixa.Memory.Facts.{Ctx, behavior_or_move, first_of, rest_of}
use ontixa.Memory.Contracts.{ContractTable, or_empty}
use ontixa.Memory.Enforce.State.{Enforcer, States, LoanKind, Region, live, blank}
use ontixa.Memory.Enforce.Walk.{
  may_skip, can_complete, can_complete_option, can_complete_all, can_complete_inits,
  can_complete_arms, can_complete_any, can_complete_stmts, Step, bind_pattern, lend_shared,
  lend_mut, pass, scoped, eval, eval_kind, eval_option, eval_args, eval_all, eval_inits, eval_arms,
  eval_stmts,
}
use ontixa.Memory.Enforce.Paths.{
  Route, stay, is_last, arg_ctx, run, run_kind, run_option, run_args, run_all, run_inits, run_arms,
  run_stmts, Scope, enter_scope, enter_pattern, enter_stmts, WellScoped, ScopedOption, ScopedAll,
  ScopedInits, ScopedArms, ScopedStmts,
}
use ontixa.Memory.Enforce.Sound.{Sound, Sound-seq, Sound-stay, Sound-leave, Sound-more, Sound-set}
use ontixa.Memory.Enforce.Uses.{
  Sound-use, Sound-assign, Sound-mutable, Sound-loan, Sound-enter, Sound-pattern,
}
use ontixa.Memory.Enforce.Joins.{Sound-branch, Sound-operand, Sound-loop}
use ontixa.Memory.Enforce.Arms.{
  Sound-checked, Sound-return, enter_pattern-le, enter_stmts-le, ArmsAt, arms-cons, arms-nil,
}

and_regroup : (x y z : Bool) → ((x && y) && z) ≡ true → (x && (y && z)) ≡ true
and_regroup x y z e = ground arith

and_drop : (x : Bool) → (x && true) ≡ true → x ≡ true
and_drop x e = ground arith

and_between : (x z : Bool) → ((x && true) && z) ≡ true → (x && z) ≡ true
and_between x z e = ground arith

module _ (tables : TypeTables) (contracts : ContractTable) (b : HirBody) where
  Sound-lend_shared :
      (g : Scope) (id : ℕ) (o : Option Place) → Sound g g (lend_shared id o) true stay
  Sound-lend_shared g id none = Sound-stay g
  Sound-lend_shared g id (some p) = Sound-loan g p LoanKind.shared (Region.call id)

  Sound-lend_mut :
      (g : Scope) (id : ℕ) (o : Option Place)
      → Sound g g (lend_mut tables contracts b id o) true stay
  Sound-lend_mut g id none = Sound-stay g
  Sound-lend_mut g id (some p) =
      Sound-seq g g g _ _ true true stay stay (Sound-mutable tables b g p)
        (Sound-loan g p LoanKind.mut (Region.call id))

  Sound-pass :
      (g : Scope) (id : ℕ) (x : ParamBehavior) (e : HirExpr) (reads moves : Step) (c : Bool)
      (k : Ctx → Route)
      → Sound g g reads c (k Ctx.read)
      → Sound g g moves c (k Ctx.move)
      → Sound g g (pass tables contracts b id x e reads moves) c (k (arg_ctx x))
  unfolding pass
  Sound-pass g id ParamBehavior.borrow e rd mv c k p q =
      Sound-checked g rd _ c (k Ctx.read) p (Sound-lend_shared g id (place_of e))
  Sound-pass g id ParamBehavior.copy e rd mv c k p q = p
  Sound-pass g id ParamBehavior.borrow_mut e rd mv c k p q =
      Sound-checked g rd _ c (k Ctx.read) p (Sound-lend_mut g id (place_of e))
  Sound-pass g id ParamBehavior.move e rd mv c k p q = q
  Sound-pass g id ParamBehavior.escape e rd mv c k p q = q
  Sound-pass g id ParamBehavior.unknown e rd mv c k p q = q

  Sound-scoped :
      (g : Scope) (f : Step) (c : Bool) (k : Route)
      → Sound g g f c k
      → Sound g g (scoped tables contracts b f) c k
  Sound-scoped g f c k a s = let r = a s in record { dom = r.dom; grow = r.grow; safe = r.safe }

  -- A match, from its arms.
  match-Sound :
      (arms : HirArms) (g : Scope) (ctx : Ctx)
      → ((s : Enforcer)
          → ArmsAt g s.state none s
              (eval_arms tables contracts b ctx s.state none arms s)
              (is_last arms)
              (can_complete_any arms)
              (run_arms tables contracts ctx arms))
      → Sound g g
          (λ s. eval_arms tables contracts b ctx s.state none arms s)
          (can_complete_arms arms)
          (run_arms tables contracts ctx arms)
  unfolding eval run can_complete
  match-Sound no_arms g ctx a s = record {
    dom = λ d. d;
    grow = omega arith;
    safe = λ d clean p h. (refl, h);
  }
  match-Sound (arm p e at arms) g ctx a s =
      let r = a s in
      record {
        dom = λ d. r.dom d tt;
        grow = r.grow;
        safe = λ d clean q h. r.safe d tt clean refl q h;
      }

  mutual
    unfolding eval run can_complete WellScoped

    pub eval-Sound :
        (e : HirExpr) (g : Scope) (ctx : Ctx)
        → WellScoped g e
        → Sound g g (eval tables contracts b e ctx) (can_complete e) (run tables contracts e ctx)
    eval-Sound (node i at k) g ctx w =
        Sound-seq g g g _ _ true (can_complete (node i at k)) stay _
          (Sound-enter g ctx (is_copy (tables.ty_of i)) (place_of (node i at k)))
          (kind-Sound k i at g ctx (is_copy (tables.ty_of i)) w)

    kind-Sound :
        (k : HirExprKind) (i : ℕ) (at : Span) (g : Scope) (ctx : Ctx) (copied : Bool)
        → WellScoped g (node i at k)
        → Sound g g
            (eval_kind tables contracts b k i at ctx copied)
            (can_complete (node i at k))
            (run_kind tables contracts k ctx copied)
    kind-Sound (HirExprKind.literal l) i at g ctx copied w = Sound-stay g
    kind-Sound HirExprKind.poison i at g ctx copied w = Sound-stay g
    kind-Sound (HirExprKind.var x) i at g ctx copied w = Sound-use tables b g x at ctx w
    kind-Sound (HirExprKind.field base name f) i at g ctx copied w =
        eval-Sound base g (if copied then Ctx.read else ctx) w
    kind-Sound (HirExprKind.len base) i at g ctx copied w = eval-Sound base g Ctx.read w
    kind-Sound (HirExprKind.index base k) i at g ctx copied (w, v) =
        Sound-seq g g g _ _ _ _ _ _ (eval-Sound base g (if copied then Ctx.read else ctx) w)
          (eval-Sound k g Ctx.read v)
    kind-Sound (HirExprKind.slice base lo hi) i at g ctx copied (w, v, v') =
        Sound-more g g _ _ _ _
          (and_regroup (can_complete base) (can_complete_option lo) (can_complete_option hi))
          (Sound-seq g g g _ _ _ _ _ _
            (Sound-seq g g g _ _ _ _ _ _ (eval-Sound base g (if copied then Ctx.read else ctx) w)
              (option-Sound lo g Ctx.read v))
            (option-Sound hi g Ctx.read v'))
    kind-Sound (HirExprKind.call d es) i at g ctx copied w =
        Sound-scoped g _ _ _ (args-Sound i (or_empty (contracts d)) es g w)
    kind-Sound (HirExprKind.binary op l r) i at g ctx copied (w, v) =
        Sound-seq g g g _ _ _ _ _ _ (eval-Sound l g Ctx.read w)
          (Sound-operand g (may_skip op) _ _ _ (eval-Sound r g Ctx.read v))
    kind-Sound (HirExprKind.unary op e) i at g ctx copied w = eval-Sound e g Ctx.read w
    kind-Sound (HirExprKind.if_else c t e) i at g ctx copied (w, v, v') =
        Sound-seq g g g _ _ _ _ _ _ (eval-Sound c g Ctx.read w)
          (Sound-branch g _ _ _ _ _ _ (eval-Sound t g ctx v) (option-Sound e g ctx v'))
    kind-Sound (HirExprKind.block ss e) i at g ctx copied (w, v) =
        Sound-leave g (enter_stmts g ss) g _ _ _ (enter_stmts-le g ss) (
          Sound-seq g (enter_stmts g ss) (enter_stmts g ss) _ _ _ _ _ _ (stmts-Sound ss g w)
            (option-Sound e (enter_stmts g ss) ctx v))
    kind-Sound (HirExprKind.struct_lit d fs) i at g ctx copied w = inits-Sound fs g w
    kind-Sound (HirExprKind.array_lit es) i at g ctx copied w = all-Sound es g w
    kind-Sound (HirExprKind.range lo hi) i at g ctx copied (w, v) =
        Sound-seq g g g _ _ _ _ _ _ (option-Sound lo g Ctx.read w) (option-Sound hi g Ctx.read v)
    kind-Sound (HirExprKind.for_in x e body) i at g ctx copied (w, n, v) =
        Sound-more g g _ _ _ _ (and_drop (can_complete e)) (
          Sound-seq g g g _ _ _ _ _ _ (eval-Sound e g Ctx.read w)
            (Sound-loop g x _ _ _ n (eval-Sound body (enter_scope g x) Ctx.move v)))
    kind-Sound (HirExprKind.variant_lit d v es) i at g ctx copied w = all-Sound es g w
    kind-Sound (HirExprKind.match_on e arms) i at g ctx copied (w, v) =
        Sound-seq g g g _ _ _ _ _ _ (eval-Sound e g Ctx.read w)
          (match-Sound arms g ctx λ s. arms-Sound arms g ctx s.state none s v)

    option-Sound :
        (o : HirOption) (g : Scope) (ctx : Ctx)
        → ScopedOption g o
        → Sound g g
            (eval_option tables contracts b o ctx)
            (can_complete_option o)
            (run_option tables contracts o ctx)
    option-Sound absent g ctx w = Sound-stay g
    option-Sound (present e) g ctx w = eval-Sound e g ctx w

    args-Sound :
        (id : ℕ) (xs : List ParamBehavior) (es : HirExprs) (g : Scope)
        → ScopedAll g es
        → Sound g g
            (eval_args tables contracts b id xs es)
            (can_complete_all es)
            (run_args tables contracts xs es)
    args-Sound id xs nil g w = Sound-stay g
    args-Sound id xs (cons e es) g (w, ws) =
        Sound-seq g g g _ _ _ _ _ _
          (Sound-pass g id (behavior_or_move (first_of xs)) e _ _ _ (run tables contracts e)
            (eval-Sound e g Ctx.read w) (eval-Sound e g Ctx.move w))
          (args-Sound id (rest_of xs) es g ws)

    all-Sound :
        (es : HirExprs) (g : Scope)
        → ScopedAll g es
        → Sound g g
            (eval_all tables contracts b es)
            (can_complete_all es)
            (run_all tables contracts es)
    all-Sound nil g w = Sound-stay g
    all-Sound (cons e es) g (w, ws) =
        Sound-seq g g g _ _ _ _ _ _ (eval-Sound e g Ctx.move w) (all-Sound es g ws)

    inits-Sound :
        (fs : HirInits) (g : Scope)
        → ScopedInits g fs
        → Sound g g
            (eval_inits tables contracts b fs)
            (can_complete_inits fs)
            (run_inits tables contracts fs)
    inits-Sound end g w = Sound-stay g
    inits-Sound (init name e fs) g (w, ws) =
        Sound-seq g g g _ _ _ _ _ _ (eval-Sound e g Ctx.move w) (inits-Sound fs g ws)

    arms-Sound :
        (arms : HirArms) (g : Scope) (ctx : Ctx) (saved : States) (joined : Option States)
        (s : Enforcer)
        → ScopedArms g arms
        → ArmsAt g saved joined s
            (eval_arms tables contracts b ctx saved joined arms s)
            (is_last arms)
            (can_complete_any arms)
            (run_arms tables contracts ctx arms)
    arms-Sound no_arms g ctx saved joined s w = arms-nil g saved joined s
    arms-Sound (arm p e at arms) g ctx saved joined s (w, ws) =
        arms-cons g saved joined s _ _ (can_complete e) (can_complete_any arms) (is_last arms) _ _
          (Sound-leave g (enter_pattern g p) g _ _ _ (enter_pattern-le g p)
            (Sound-seq g (enter_pattern g p) (enter_pattern g p) (bind_pattern p) _ true _ _ _
              (Sound-pattern g p) (eval-Sound e (enter_pattern g p) ctx w))
            (record s { state = saved }))
          (arms-Sound arms g ctx saved _ _ ws)

    stmts-Sound :
        (ss : HirStmts) (g : Scope)
        → ScopedStmts g ss
        → Sound g
            (enter_stmts g ss)
            (eval_stmts tables contracts b ss)
            (can_complete_stmts ss)
            (run_stmts tables contracts ss)
    stmts-Sound done g w = Sound-stay g
    stmts-Sound (let_then x ty absent at ss) g (w, ws) =
        Sound-seq g (enter_scope g x) _ _ _ true _ _ _
          (Sound-set g x blank false λ l. let z = l.0 in cc) (stmts-Sound ss (enter_scope g x) ws)
    stmts-Sound (let_then x ty (present e) at ss) g (w, ws) =
        Sound-more g _ _ _ _ _ (and_between (can_complete e) (can_complete_stmts ss)) (
          Sound-seq g (enter_scope g x) _ _ _ _ _ _ _
            (Sound-seq g g (enter_scope g x) _ _ _ true _ _ (eval-Sound e g Ctx.move w)
              (Sound-set g x live true λ l. refl))
            (stmts-Sound ss (enter_scope g x) ws))
    stmts-Sound (assign_then t e at ss) g (w, i, ws) =
        Sound-more g _ _ _ _ _ (and_between (can_complete e) (can_complete_stmts ss)) (
          Sound-seq g g _ _ _ _ _ _ _
            (Sound-seq g g g _ _ _ true _ _ (eval-Sound e g Ctx.move w)
              (Sound-assign tables b g t i))
            (stmts-Sound ss g ws))
    stmts-Sound (expr_then e semi ss) g (w, ws) =
        Sound-seq g g _ _ _ _ _ _ _ (eval-Sound e g Ctx.move w) (stmts-Sound ss g ws)
    stmts-Sound (return_then e at ss) g (w, ws) =
        Sound-return g _ _ _ _ _ _ _ (option-Sound e g Ctx.move w) (stmts-Sound ss g ws)
