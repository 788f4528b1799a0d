-- ===== src/Memory/Enforce/Paths.antt =====
-- The paths through a body, which the enforcement of crates/ontixa-memory/src/analyze.rs is about:
-- which bindings hold a value along a path that a list of choices takes, and whether the path uses a
-- binding that holds none. A path takes each branch, runs a loop's body at most once, and ends at a
-- `return`.
use ontixa.Prelude.{
  ℕ, Bool, true, false, ◌||◌, List, [], ◌∷◌, Option, none, some, ◌==◌, ◌≡◌, if◌then◌else◌,
}
use ontixa.Types.Ty.{is_copy}
use ontixa.Mir.{ParamBehavior}
use ontixa.Hir.{
  HirExpr, HirExprKind, HirExprs, HirOption, HirInits, HirArms, HirStmts, HirPat, Name, TypeTables,
  node, nil, cons, absent, present, end, init, no_arms, arm, done, let_then, assign_then, expr_then,
  return_then,
}
use ontixa.Memory.Facts.{Ctx, update, behavior_or_move, first_of, rest_of}
use ontixa.Memory.Contracts.{ContractTable, or_empty}
use ontixa.Memory.Enforce.State.{type_of}
use ontixa.Memory.Enforce.Walk.{may_skip}

-- Which bindings hold a value, and the choices that are left.
pub record Spot : Type 0 where
  pub holds : ℕ → Bool
  pub choices : List Bool

pub data Outcome : Type 0 where
  reached : Spot → Outcome
  returned wrong : Outcome

abbrev pub Route : Type 0
Route = Spot → Outcome

infixl 5 ◌⊳◌
abbrev pub ◌⊳◌ : Route → Route → Route
(g ⊳ h) p = elim (g p) [ reached q ↦ h q | returned ↦ returned | wrong ↦ wrong ]

abbrev pub stay : Route
stay p = reached p

abbrev pub put : ℕ → Bool → Route
put x v p = reached (record p { holds = update p.holds x v })

-- The value leaves the binding.
abbrev pub leaves : Ctx → Bool → Bool
leaves Ctx.move false = true
leaves _ _ = false

unfoldable pub spend : ℕ → Ctx → Bool → Route
spend x ctx copied p =
    if p.holds x then (if leaves ctx copied then put x false p else reached p) else wrong

abbrev pub first_choice : List Bool → Bool
first_choice [] = false
first_choice (b ∷ bs) = b

abbrev pub other_choices : List Bool → List Bool
other_choices [] = []
other_choices (b ∷ bs) = bs

abbrev pub either : Route → Route → Route
either g h p =
    let q = record p { choices = other_choices p.choices } in
    if first_choice p.choices then g q else h q

unfoldable pub put_all : List (Option ℕ) → Route
put_all [] = stay
put_all (none ∷ bs) = put_all bs
put_all (some b ∷ bs) = put b true ⊳ put_all bs

unfoldable pub put_pattern : HirPat → Route
unfolding put_all
put_pattern (HirPat.variant d v bs at) = put_all bs
put_pattern (HirPat.bind (some x) at) = put x true
put_pattern (HirPat.bind none at) = stay
put_pattern HirPat.poison = stay

-- A write to a field needs a value to write into.
unfoldable pub assign : List Name → ℕ → Route
unfolding spend
assign [] x = put x true
assign (f ∷ fs) x = spend x Ctx.read true

abbrev pub is_last : HirArms → Bool
is_last no_arms = true
is_last (arm p e at arms) = false

-- The context of an argument.
abbrev pub arg_ctx : ParamBehavior → Ctx
arg_ctx ParamBehavior.borrow = Ctx.read
arg_ctx ParamBehavior.copy = Ctx.read
arg_ctx ParamBehavior.borrow_mut = Ctx.read
arg_ctx _ = Ctx.move

module _ (tables : TypeTables) (contracts : ContractTable) where
  unfoldable mutual
    unfolding spend put_pattern assign may_skip is_copy

    pub run : HirExpr → Ctx → Route
    run (node i at k) ctx = run_kind k ctx (is_copy (tables.ty_of i))

    pub run_kind : HirExprKind → Ctx → Bool → Route
    run_kind (HirExprKind.literal l) ctx copied = stay
    run_kind HirExprKind.poison ctx copied = stay
    run_kind (HirExprKind.var x) ctx copied = spend x ctx (is_copy (type_of (tables.local_types x)))
    run_kind (HirExprKind.field base name f) ctx copied =
        run base (if copied then Ctx.read else ctx)
    run_kind (HirExprKind.len base) ctx copied = run base Ctx.read
    run_kind (HirExprKind.index base k) ctx copied =
        run base (if copied then Ctx.read else ctx) ⊳ run k Ctx.read
    run_kind (HirExprKind.slice base lo hi) ctx copied =
        run base (if copied then Ctx.read else ctx)
        ⊳ run_option lo Ctx.read
        ⊳ run_option hi Ctx.read
    run_kind (HirExprKind.call d es) ctx copied = run_args (or_empty (contracts d)) es
    run_kind (HirExprKind.binary op l r) ctx copied =
        run l Ctx.read ⊳ (if may_skip op then either (run r Ctx.read) stay else run r Ctx.read)
    run_kind (HirExprKind.unary op e) ctx copied = run e Ctx.read
    run_kind (HirExprKind.if_else c t e) ctx copied =
        run c Ctx.read ⊳ either (run t ctx) (run_option e ctx)
    run_kind (HirExprKind.block ss e) ctx copied = run_stmts ss ⊳ run_option e ctx
    run_kind (HirExprKind.struct_lit d fs) ctx copied = run_inits fs
    run_kind (HirExprKind.array_lit es) ctx copied = run_all es
    run_kind (HirExprKind.range lo hi) ctx copied = run_option lo Ctx.read ⊳ run_option hi Ctx.read
    run_kind (HirExprKind.for_in x e body) ctx copied =
        run e Ctx.read ⊳ either (put x true ⊳ run body Ctx.move ⊳ put x false) stay
    run_kind (HirExprKind.variant_lit d v es) ctx copied = run_all es
    run_kind (HirExprKind.match_on e arms) ctx copied = run e Ctx.read ⊳ run_arms ctx arms

    pub run_option : HirOption → Ctx → Route
    run_option absent ctx = stay
    run_option (present e) ctx = run e ctx

    pub run_args : List ParamBehavior → HirExprs → Route
    run_args contract nil = stay
    run_args contract (cons e es) =
        run e (arg_ctx (behavior_or_move (first_of contract))) ⊳ run_args (rest_of contract) es

    pub run_all : HirExprs → Route
    run_all nil = stay
    run_all (cons e es) = run e Ctx.move ⊳ run_all es

    pub run_inits : HirInits → Route
    run_inits end = stay
    run_inits (init name e fs) = run e Ctx.move ⊳ run_inits fs

    -- One of the arms.
    pub run_arms : Ctx → HirArms → Route
    run_arms ctx no_arms = stay
    run_arms ctx (arm p e at arms) =
        if is_last arms
        then put_pattern p ⊳ run e ctx
        else either (put_pattern p ⊳ run e ctx) (run_arms ctx arms)

    pub run_stmts : HirStmts → Route
    run_stmts done = stay
    run_stmts (let_then x ty absent at ss) = put x false ⊳ run_stmts ss
    run_stmts (let_then x ty (present e) at ss) = run e Ctx.move ⊳ put x true ⊳ run_stmts ss
    run_stmts (assign_then p e at ss) = run e Ctx.move ⊳ assign p.fields p.base ⊳ run_stmts ss
    run_stmts (expr_then e semi ss) = run e Ctx.move ⊳ run_stmts ss
    run_stmts (return_then e at ss) = run_option e Ctx.move ⊳ λ p. returned

-- The bindings in scope.
abbrev pub Scope : Type 0
Scope = ℕ → Bool

abbrev pub enter_scope : Scope → ℕ → Scope
enter_scope g x y = x == y || g y

unfoldable pub enter_all : Scope → List (Option ℕ) → Scope
enter_all g [] = g
enter_all g (none ∷ bs) = enter_all g bs
enter_all g (some b ∷ bs) = enter_all (enter_scope g b) bs

unfoldable pub enter_pattern : Scope → HirPat → Scope
unfolding enter_all
enter_pattern g (HirPat.variant d v bs at) = enter_all g bs
enter_pattern g (HirPat.bind (some x) at) = enter_scope g x
enter_pattern g (HirPat.bind none at) = g
enter_pattern g HirPat.poison = g

unfoldable pub enter_stmts : Scope → HirStmts → Scope
enter_stmts g done = g
enter_stmts g (let_then x ty e at ss) = enter_stmts (enter_scope g x) ss
enter_stmts g (assign_then p e at ss) = enter_stmts g ss
enter_stmts g (expr_then e semi ss) = enter_stmts g ss
enter_stmts g (return_then e at ss) = enter_stmts g ss

-- What name resolution gives: each use is of a binding in scope, and a loop's variable is a new one.
unfoldable mutual
  unfolding enter_pattern enter_stmts

  pub WellScoped : Scope → HirExpr → Type 0
  WellScoped g (node i at (HirExprKind.literal l)) = Unit
  WellScoped g (node i at HirExprKind.poison) = Unit
  WellScoped g (node i at (HirExprKind.var x)) = g x ≡ true
  WellScoped g (node i at (HirExprKind.field base name f)) = WellScoped g base
  WellScoped g (node i at (HirExprKind.len e)) = WellScoped g e
  WellScoped g (node i at (HirExprKind.index e k)) = WellScoped g e × WellScoped g k
  WellScoped g (node i at (HirExprKind.slice e lo hi)) =
      WellScoped g e × ScopedOption g lo × ScopedOption g hi
  WellScoped g (node i at (HirExprKind.call d es)) = ScopedAll g es
  WellScoped g (node i at (HirExprKind.binary op l r)) = WellScoped g l × WellScoped g r
  WellScoped g (node i at (HirExprKind.unary op e)) = WellScoped g e
  WellScoped g (node i at (HirExprKind.if_else c t e)) =
      WellScoped g c × WellScoped g t × ScopedOption g e
  WellScoped g (node i at (HirExprKind.block ss e)) =
      ScopedStmts g ss × ScopedOption (enter_stmts g ss) e
  WellScoped g (node i at (HirExprKind.struct_lit d fs)) = ScopedInits g fs
  WellScoped g (node i at (HirExprKind.array_lit es)) = ScopedAll g es
  WellScoped g (node i at (HirExprKind.range lo hi)) = ScopedOption g lo × ScopedOption g hi
  WellScoped g (node i at (HirExprKind.for_in x e b)) =
      WellScoped g e × (g x ≡ false) × WellScoped (enter_scope g x) b
  WellScoped g (node i at (HirExprKind.variant_lit d v es)) = ScopedAll g es
  WellScoped g (node i at (HirExprKind.match_on e arms)) = WellScoped g e × ScopedArms g arms

  pub ScopedOption : Scope → HirOption → Type 0
  ScopedOption g absent = Unit
  ScopedOption g (present e) = WellScoped g e

  pub ScopedAll : Scope → HirExprs → Type 0
  ScopedAll g nil = Unit
  ScopedAll g (cons e es) = WellScoped g e × ScopedAll g es

  pub ScopedInits : Scope → HirInits → Type 0
  ScopedInits g end = Unit
  ScopedInits g (init name e fs) = WellScoped g e × ScopedInits g fs

  pub ScopedArms : Scope → HirArms → Type 0
  ScopedArms g no_arms = Unit
  ScopedArms g (arm p e at arms) = WellScoped (enter_pattern g p) e × ScopedArms g arms

  pub ScopedStmts : Scope → HirStmts → Type 0
  ScopedStmts g done = Unit
  ScopedStmts g (let_then x ty e at ss) = ScopedOption g e × ScopedStmts (enter_scope g x) ss
  ScopedStmts g (assign_then p e at ss) = WellScoped g e × (g p.base ≡ true) × ScopedStmts g ss
  ScopedStmts g (expr_then e semi ss) = WellScoped g e × ScopedStmts g ss
  ScopedStmts g (return_then e at ss) = ScopedOption g e × ScopedStmts g ss
