-- ===== src/Memory/Enforce/Walk.antt =====
-- The enforcement walk: `eval`, `stmt` and `can_complete` of `Enforcer` in
-- crates/ontixa-memory/src/analyze.rs.
use ontixa.Prelude.{
  ℕ, Bool, true, false, ◌&&◌, ◌||◌, List, [], ◌∷◌, Option, none, some, length, take, ◌==◌,
  if◌then◌else◌,
}
use ontixa.Source.Span.{Span}
use ontixa.Types.Ty.{is_copy}
use ontixa.Mir.{BinOp, ParamBehavior}
use ontixa.Hir.{
  HirExpr, HirExprKind, HirExprs, HirOption, HirInits, HirArms, HirStmts, HirPat, HirBody,
  TypeTables, node, nil, cons, absent, present, end, init, no_arms, arm, done, let_then,
  assign_then, expr_then, return_then,
}
use ontixa.Memory.Place.{Place, place_of}
use ontixa.Memory.Facts.{Ctx, behavior_or_move, first_of, rest_of}
use ontixa.Memory.Contracts.{ContractTable, or_empty}
use ontixa.Memory.Enforce.State.{
  Enforcer, States, LoanKind, Region, live, blank, set_state, merge, use_var, assign_place,
  check_mutable, add_loan, check_move_loans,
}

-- `matches!(op, BinOp::And | BinOp::Or)`
unfoldable pub may_skip : BinOp → Bool
may_skip BinOp.and = true
may_skip BinOp.or = true
may_skip _ = false

unfoldable mutual
  unfolding may_skip

  pub can_complete : HirExpr → Bool
  can_complete (node i at (HirExprKind.block ss e)) = can_complete_stmts ss && can_complete_option e
  can_complete (node i at (HirExprKind.if_else c t e)) =
      can_complete c && (can_complete t || can_complete_option e)
  can_complete (node i at (HirExprKind.match_on e arms)) = can_complete e && can_complete_arms arms
  can_complete (node i at (HirExprKind.binary op l r)) =
      can_complete l && (may_skip op || can_complete r)
  can_complete (node i at (HirExprKind.unary op e)) = can_complete e
  can_complete (node i at (HirExprKind.field base name f)) = can_complete base
  can_complete (node i at (HirExprKind.len base)) = can_complete base
  can_complete (node i at (HirExprKind.index base k)) = can_complete base && can_complete k
  can_complete (node i at (HirExprKind.slice base lo hi)) =
      can_complete base && (can_complete_option lo && can_complete_option hi)
  can_complete (node i at (HirExprKind.call d es)) = can_complete_all es
  can_complete (node i at (HirExprKind.variant_lit d v es)) = can_complete_all es
  can_complete (node i at (HirExprKind.struct_lit d fs)) = can_complete_inits fs
  can_complete (node i at (HirExprKind.array_lit es)) = can_complete_all es
  can_complete (node i at (HirExprKind.range lo hi)) =
      can_complete_option lo && can_complete_option hi
  can_complete (node i at (HirExprKind.for_in v e b)) = can_complete e
  can_complete (node i at (HirExprKind.literal l)) = true
  can_complete (node i at (HirExprKind.var x)) = true
  can_complete (node i at HirExprKind.poison) = true

  pub can_complete_option : HirOption → Bool
  can_complete_option absent = true
  can_complete_option (present e) = can_complete e

  pub can_complete_all : HirExprs → Bool
  can_complete_all nil = true
  can_complete_all (cons e es) = can_complete e && can_complete_all es

  pub can_complete_inits : HirInits → Bool
  can_complete_inits end = true
  can_complete_inits (init name e fs) = can_complete e && can_complete_inits fs

  -- `arms.is_empty() || arms.iter().any(..)`
  pub can_complete_arms : HirArms → Bool
  can_complete_arms no_arms = true
  can_complete_arms (arm p e at arms) = can_complete e || can_complete_any arms

  pub can_complete_any : HirArms → Bool
  can_complete_any no_arms = false
  can_complete_any (arm p e at arms) = can_complete e || can_complete_any arms

  pub can_complete_stmts : HirStmts → Bool
  can_complete_stmts done = true
  can_complete_stmts (return_then e at ss) = false
  can_complete_stmts (let_then x ty e at ss) = can_complete_option e && can_complete_stmts ss
  can_complete_stmts (assign_then p e at ss) = can_complete e && can_complete_stmts ss
  can_complete_stmts (expr_then e semi ss) = can_complete e && can_complete_stmts ss

abbrev pub Step : Type 0
Step = Enforcer → Enforcer

abbrev pub skip : Step
skip s = s

infixl 5 ◌▸◌
abbrev pub ◌▸◌ : Step → Step → Step
(f ▸ g) s = g (f s)

abbrev pub set_live : ℕ → Step
set_live sym = set_state sym live

-- The bindings of a pattern hold values.
unfoldable pub bind_all : List (Option ℕ) → Step
bind_all [] = skip
bind_all (none ∷ bs) = bind_all bs
bind_all (some b ∷ bs) = set_live b ▸ bind_all bs

unfoldable pub bind_pattern : HirPat → Step
unfolding bind_all
bind_pattern (HirPat.variant d v bs at) = bind_all bs
bind_pattern (HirPat.bind (some x) at) = set_live x
bind_pattern (HirPat.bind none at) = skip
bind_pattern HirPat.poison = skip

-- The state of a join, from those after the two branches and the one before: the last matters only
-- where no branch completes.
unfoldable pub join_branches : Bool → Bool → States → States → States → States
unfolding merge
join_branches true true then' else' saved = merge else' then'
join_branches true false then' else' saved = then'
join_branches false true then' else' saved = else'
join_branches false false then' else' saved = saved

-- The two branches of an `if`, each from the state before.
unfoldable pub branch : Bool → Bool → Step → Step → Step
unfolding join_branches
branch can_then can_else then' else' s =
    let t = then' s in
    let e = else' (record t { state = s.state }) in
    record e { state = join_branches can_then can_else t.state e.state s.state }

-- A right operand that may be skipped.
unfoldable pub optional : Bool → Step → Step
unfolding merge
optional completes f s =
    let t = f s in record t { state = if completes then merge s.state t.state else s.state }

-- `remove`
abbrev pub forget : ℕ → States → States
forget sym st x = if sym == x then none else st x

-- The body of a loop, which may not run.
unfoldable pub loop : ℕ → Step → Step
unfolding merge
loop sym body s =
    let t = body (set_live sym s) in record t { state = merge (forget sym t.state) s.state }

-- The join so far, with an arm that completes.
abbrev pub join_arm : Option States → States → States
join_arm none st = st
join_arm (some j) st = merge j st

abbrev pub joined_or : Option States → States → States
joined_or none saved = saved
joined_or (some j) saved = j

-- A use of a place that is not copied moves out of it.
abbrev pub check_move : Option Place → Step
check_move none = skip
check_move (some p) = check_move_loans p

unfoldable pub enter : Ctx → Bool → Option Place → Step
enter Ctx.move false p = check_move p
enter _ _ p = skip

-- The loan of an argument, where it is a place.
abbrev pub lend_shared : ℕ → Option Place → Step
lend_shared id none = skip
lend_shared id (some p) = add_loan p LoanKind.shared (Region.call id)

module _ (tables : TypeTables) (contracts : ContractTable) (b : HirBody) where
  abbrev pub lend_mut : ℕ → Option Place → Step
  lend_mut id none = skip
  lend_mut id (some p) = check_mutable tables b p ▸ add_loan p LoanKind.mut (Region.call id)

  -- One argument, given the walks of it in both contexts.
  unfoldable pub pass : ℕ → ParamBehavior → HirExpr → Step → Step → Step
  unfolding place_of check_mutable add_loan
  pass id ParamBehavior.borrow e reads moves = reads ▸ lend_shared id (place_of e)
  pass id ParamBehavior.copy e reads moves = reads
  pass id ParamBehavior.borrow_mut e reads moves = reads ▸ lend_mut id (place_of e)
  pass id ParamBehavior.move e reads moves = moves
  pass id ParamBehavior.escape e reads moves = moves
  pass id ParamBehavior.unknown e reads moves = moves

  -- The loans of a call end with it.
  abbrev pub scoped : Step → Step
  scoped f s = let t = f s in record t { loans = take (length s.loans) t.loans }

  unfoldable mutual
    unfolding enter check_move_loans place_of use_var assign_place may_skip can_complete branch
        optional loop pass bind_pattern is_copy

    pub eval : HirExpr → Ctx → Step
    eval (node i at k) ctx =
        enter ctx (is_copy (tables.ty_of i)) (place_of (node i at k))
        ▸ eval_kind k i at ctx (is_copy (tables.ty_of i))

    pub eval_kind : HirExprKind → ℕ → Span → Ctx → Bool → Step
    eval_kind (HirExprKind.literal l) i at ctx copied = skip
    eval_kind HirExprKind.poison i at ctx copied = skip
    eval_kind (HirExprKind.var x) i at ctx copied = use_var tables b x at ctx
    eval_kind (HirExprKind.field base name f) i at ctx copied =
        eval base (if copied then Ctx.read else ctx)
    eval_kind (HirExprKind.len base) i at ctx copied = eval base Ctx.read
    eval_kind (HirExprKind.index base k) i at ctx copied =
        eval base (if copied then Ctx.read else ctx) ▸ eval k Ctx.read
    eval_kind (HirExprKind.slice base lo hi) i at ctx copied =
        eval base (if copied then Ctx.read else ctx)
        ▸ eval_option lo Ctx.read
        ▸ eval_option hi Ctx.read
    eval_kind (HirExprKind.call d es) i at ctx copied =
        scoped (eval_args i (or_empty (contracts d)) es)
    eval_kind (HirExprKind.binary op l r) i at ctx copied =
        eval l Ctx.read
        ▸ (if may_skip op then optional (can_complete r) (eval r Ctx.read) else eval r Ctx.read)
    eval_kind (HirExprKind.unary op e) i at ctx copied = eval e Ctx.read
    eval_kind (HirExprKind.if_else c t e) i at ctx copied =
        eval c Ctx.read
        ▸ branch (can_complete t) (can_complete_option e) (eval t ctx) (eval_option e ctx)
    eval_kind (HirExprKind.block ss e) i at ctx copied = eval_stmts ss ▸ eval_option e ctx
    eval_kind (HirExprKind.struct_lit d fs) i at ctx copied = eval_inits fs
    eval_kind (HirExprKind.array_lit es) i at ctx copied = eval_all es
    eval_kind (HirExprKind.range lo hi) i at ctx copied =
        eval_option lo Ctx.read ▸ eval_option hi Ctx.read
    eval_kind (HirExprKind.for_in x e body) i at ctx copied =
        eval e Ctx.read ▸ loop x (eval body Ctx.move)
    eval_kind (HirExprKind.variant_lit d v es) i at ctx copied = eval_all es
    eval_kind (HirExprKind.match_on e arms) i at ctx copied =
        eval e Ctx.read ▸ λ s. eval_arms ctx s.state none arms s

    pub eval_option : HirOption → Ctx → Step
    eval_option absent ctx = skip
    eval_option (present e) ctx = eval e ctx

    pub eval_args : ℕ → List ParamBehavior → HirExprs → Step
    eval_args id contract nil = skip
    eval_args id contract (cons e es) =
        pass id (behavior_or_move (first_of contract)) e (eval e Ctx.read) (eval e Ctx.move)
        ▸ eval_args id (rest_of contract) es

    pub eval_all : HirExprs → Step
    eval_all nil = skip
    eval_all (cons e es) = eval e Ctx.move ▸ eval_all es

    pub eval_inits : HirInits → Step
    eval_inits end = skip
    eval_inits (init name e fs) = eval e Ctx.move ▸ eval_inits fs

    -- The arms, from the state before them and the join so far.
    pub eval_arms : Ctx → States → Option States → HirArms → Step
    eval_arms ctx saved joined no_arms s = record s { state = joined_or joined saved }
    eval_arms ctx saved joined (arm p e at arms) s =
        let t = eval e ctx (bind_pattern p (record s { state = saved })) in
        eval_arms ctx saved (if can_complete e then some (join_arm joined t.state) else joined) arms
          t

    -- `stmt` for each statement.
    pub eval_stmts : HirStmts → Step
    eval_stmts done = skip
    eval_stmts (let_then x ty absent at ss) = set_state x blank ▸ eval_stmts ss
    eval_stmts (let_then x ty (present e) at ss) = eval e Ctx.move ▸ set_live x ▸ eval_stmts ss
    eval_stmts (assign_then p e at ss) = eval e Ctx.move ▸ assign_place tables b p ▸ eval_stmts ss
    eval_stmts (expr_then e semi ss) = eval e Ctx.move ▸ eval_stmts ss
    eval_stmts (return_then e at ss) = eval_option e Ctx.move ▸ eval_stmts ss
