-- ===== src/Memory/Facts.antt =====
-- The usage facts of one body: `classify`, `collect_facts` and `FactCollector` of
-- crates/ontixa-memory/src/analyze.rs.
-- A set of parameter indices (`Carriers`), a map from symbols and a vector by parameter are functions;
-- the walk never writes an index that is not a parameter's. `mark_escape` in a loop over a set touches
-- one summary per element, so the order of the set does not matter.
use native.Mathlib.Decide.{ℕ_discrete}
use ontixa.Prelude.{
  ℕ, suc, Bool, true, false, ◌||◌, List, [], ◌∷◌, Option, none, some, ◌==◌, if◌then◌else◌,
}
use ontixa.Source.Span.{Span}
use ontixa.Types.Ty.{Ty, is_copy}
use ontixa.Mir.{ParamBehavior}
use ontixa.Hir.{
  HirExpr, HirExprKind, HirExprs, HirOption, HirInits, HirArms, HirStmts, HirPat, HirPlace, HirBody,
  FnSig, ParamDef, TypeTables, node, nil, cons, absent, present, end, init, no_arms, arm, done,
  let_then, assign_then, expr_then, return_then, span_of,
}

pub record ParamFacts : Type 0 where
  pub read : Bool
  pub mutated : Bool
  pub moved : Bool
  pub escaped : Bool

abbrev pub no_facts : ParamFacts
no_facts = record { read = false; mutated = false; moved = false; escaped = false }

pub data EvidenceKind : Type 0 where
  read mutated moved escaped : EvidenceKind

pub record Evidence : Type 0 where
  pub kind : EvidenceKind
  pub at : Span

pub data EscapeExit : Type 0 where
  return : EscapeExit
  via_call : ℕ → EscapeExit

pub record ParamSummary : Type 0 where
  pub escapes : List EscapeExit
  pub evidence : List Evidence

pub data Ctx : Type 0 where
  move read : Ctx

unfoldable pub classify : Ty → ParamFacts → ParamBehavior
classify ty f =
    if is_copy ty
    then ParamBehavior.copy
    else (if f.escaped
        then ParamBehavior.escape
        else (if f.moved
            then ParamBehavior.move
            else (if f.mutated
                then ParamBehavior.borrow_mut
                else (if f.read then ParamBehavior.borrow else ParamBehavior.move))))

abbrev pub Carriers : Type 0
Carriers = ℕ → Bool

abbrev pub no_carriers : Carriers
no_carriers i = false

-- `extend`
abbrev pub union : Carriers → Carriers → Carriers
union c d i = c i || d i

abbrev pub singleton : ℕ → Carriers
singleton i j = i == j

-- A map with one entry changed.
abbrev pub update : {A : Type 0} → (ℕ → A) → ℕ → A → ℕ → A
update f i v j = if i == j then v else f j

pub EvidenceKind-discrete : Discrete EvidenceKind
EvidenceKind-discrete = hlevel

pub Evidence-discrete : Discrete Evidence
Evidence-discrete = hlevel (EvidenceKind-discrete, ℕ_discrete)

pub EscapeExit-discrete : Discrete EscapeExit
EscapeExit-discrete = hlevel ℕ_discrete

-- A push unless the list contains the element.
unfoldable pub push_new : {A : Type 0} → Discrete A → List A → A → List A
push_new d [] x = x ∷ []
push_new d (y ∷ ys) x = elim (d y x) [ yes p ↦ y ∷ ys | no p ↦ y ∷ push_new d ys x ]

pub record Collector : Type 0 where
  pub facts : ℕ → ParamFacts
  pub summaries : ℕ → ParamSummary
  pub carriers : ℕ → Carriers
  pub consumed : List (ℕ × List ParamBehavior)

-- `FactCollector::record`
unfoldable pub record_evidence : EvidenceKind → Span → ParamSummary → ParamSummary
unfolding push_new
record_evidence kind at s = record s {
  evidence = push_new Evidence-discrete s.evidence (record { kind = kind; at = at });
}

unfoldable pub mark_escape : EscapeExit → Span → ParamSummary → ParamSummary
unfolding push_new record_evidence
mark_escape exit at s =
    record_evidence escaped at (record s { escapes = push_new EscapeExit-discrete s.escapes exit })

-- `mark_escape` for every element of a set.
unfoldable pub mark_all : Carriers → EscapeExit → Span → Collector → Collector
unfolding mark_escape
mark_all c exit at s = record s {
  summaries = λ i. if c i then mark_escape exit at (s.summaries i) else s.summaries i;
}

-- The body of the loop of a return: the flag and the mark for every element of a set.
unfoldable pub escape_all : Carriers → Span → Collector → Collector
unfolding mark_all
escape_all c at s =
    mark_all c return at
      (record s { facts = λ i. if c i then record (s.facts i) { escaped = true } else s.facts i })

unfoldable pub set_flag : Ctx → ParamFacts → ParamFacts
set_flag Ctx.read f = record f { read = true }
set_flag Ctx.move f = record f { moved = true }

abbrev pub evidence_of : Ctx → EvidenceKind
evidence_of Ctx.read = EvidenceKind.read
evidence_of Ctx.move = EvidenceKind.moved

unfoldable pub index_from : ℕ → List ParamDef → ℕ → Option ℕ
index_from i [] sym = none
index_from i (p ∷ ps) sym =
    let later = index_from (suc i) ps sym in
    elim later [ some j ↦ some j | none ↦ if p.symbol == sym then some i else none ]

-- The entries of a vector of contracts that the walk consumed; a later view replaces an earlier one.
unfoldable pub consume :
    ℕ → List ParamBehavior → List (ℕ × List ParamBehavior) → List (ℕ × List ParamBehavior)
consume def c [] = (def, c) ∷ []
consume def c ((d, b) ∷ rest) =
    let others = consume def c rest in if d == def then (d, c) ∷ rest else (d, b) ∷ others

-- A walk of an expression: the parameters that its value may carry, and the new state.
abbrev pub Walk : Type 0
Walk = Collector → Carriers × Collector

abbrev pub pure : Carriers → Walk
pure c s = (c, s)

infixl 5 ◌>>=◌ ◌>>◌
abbrev pub ◌>>=◌ : Walk → (Carriers → Walk) → Walk
(m >>= k) s = k ((m s).0) ((m s).1)

-- What the first walk carries is dropped.
abbrev pub ◌>>◌ : Walk → Walk → Walk
m >> k = m >>= λ c. k

-- `out.extend(..)`
infixl 6 ◌⊔◌
abbrev pub ◌⊔◌ : Walk → Walk → Walk
m ⊔ k = m >>= λ c. k >>= λ d. pure (union c d)

-- A change of the state; nothing is carried.
abbrev pub modify : (Collector → Collector) → Walk
modify f s = (no_carriers, f s)

abbrev pub nothing : Walk
nothing = pure no_carriers

-- The binding at the root of a place.
unfoldable pub root_var : HirExpr → Option ℕ
root_var (node i at (HirExprKind.var sym)) = some sym
root_var (node i at (HirExprKind.field base name f)) = root_var base
root_var _ = none

-- `unwrap_or(ParamBehavior::Move)`
abbrev pub behavior_or_move : Option ParamBehavior → ParamBehavior
behavior_or_move none = ParamBehavior.move
behavior_or_move (some b) = b

-- The contract that is left after the first argument.
abbrev pub rest_of : List ParamBehavior → List ParamBehavior
rest_of [] = []
rest_of (b ∷ bs) = bs

abbrev pub first_of : List ParamBehavior → Option ParamBehavior
first_of [] = none
first_of (b ∷ bs) = some b

-- `if let Some(i) = .. { .. }`
abbrev pub where_some : Option ℕ → (ℕ → Collector → Collector) → Collector → Collector
where_some none f s = s
where_some (some i) f s = f i s

-- The parameter itself, or what the local may carry.
abbrev pub carried_by : Option ℕ → ℕ → Collector → Carriers
carried_by (some i) sym s = singleton i
carried_by none sym s = s.carriers sym

unfoldable pub flag_param : Ctx → Span → ℕ → Collector → Collector
unfolding set_flag record_evidence
flag_param ctx at i s = record s {
  facts = update s.facts i (set_flag ctx (s.facts i));
  summaries = update s.summaries i (record_evidence (evidence_of ctx) at (s.summaries i));
}

unfoldable pub mutate_param : Span → ℕ → Collector → Collector
unfolding record_evidence
mutate_param at i s = record s {
  facts = update s.facts i (record (s.facts i) { mutated = true });
  summaries = update s.summaries i (record_evidence EvidenceKind.mutated at (s.summaries i));
}

module _ (tables : TypeTables) (view : ℕ → List ParamBehavior) (params : List ParamDef) where
  abbrev pub param_index : ℕ → Option ℕ
  param_index = index_from 0 params

  unfoldable pub flag : ℕ → Ctx → Span → Collector → Collector
  unfolding flag_param index_from
  flag sym ctx at = where_some (param_index sym) (flag_param ctx at)

  unfoldable pub flag_mutated : ℕ → Span → Collector → Collector
  unfolding mutate_param index_from
  flag_mutated sym at = where_some (param_index sym) (mutate_param at)

  unfoldable pub carry : ℕ → Carriers → Collector → Collector
  carry sym c s = record s { carriers = update s.carriers sym c }

  -- `HirExprKind::Var`
  unfoldable pub use_var : ℕ → Ctx → Span → Walk
  unfolding flag
  use_var sym ctx at s = let s' = flag sym ctx at s in (carried_by (param_index sym) sym s', s')

  -- `is_some_and(|t| t.is_copy())`
  abbrev pub is_copy_local : Option Ty → Bool
  is_copy_local none = false
  is_copy_local (some t) = is_copy t

  -- The bindings of a pattern.
  unfoldable pub carry_binds : List (Option ℕ) → Carriers → Collector → Collector
  unfolding carry
  carry_binds [] c s = s
  carry_binds (none ∷ bs) c s = carry_binds bs c s
  carry_binds (some b ∷ bs) c s =
      carry_binds bs c (if is_copy_local (tables.local_types b) then s else carry b c s)

  unfoldable pub carry_pattern : HirPat → Carriers → Collector → Collector
  unfolding carry_binds carry
  carry_pattern (HirPat.variant d v binds at) c s = carry_binds binds c s
  carry_pattern (HirPat.bind (some sym) at) c s = carry sym c s
  carry_pattern (HirPat.bind none at) c s = s
  carry_pattern HirPat.poison c s = s

  -- `contract_of`
  unfoldable pub consume_view : ℕ → Collector → Collector
  unfolding consume
  consume_view def s = record s { consumed = consume def (view def) s.consumed }

  -- `flag_mutated` of the root of an argument, where it is a place.
  unfoldable pub mutate_root : HirExpr → Collector → Collector
  unfolding root_var flag_mutated
  mutate_root e = where_some (root_var e) λ sym. flag_mutated sym (span_of e)

  -- The end of an assignment.
  unfoldable pub assign_to : HirPlace → Carriers → Collector → Collector
  unfolding flag_mutated
  assign_to target c s =
      let s' = flag_mutated target.base target.span s in
      record s' { carriers = update s'.carriers target.base (union (s'.carriers target.base) c) }

  -- One argument, given the walks of it in both contexts.
  unfoldable pub pass : ℕ → Span → ParamBehavior → HirExpr → Walk → Walk → Walk
  unfolding mutate_root mark_all
  pass def at ParamBehavior.borrow e reads moves = reads >> nothing
  pass def at ParamBehavior.copy e reads moves = reads >> nothing
  pass def at ParamBehavior.borrow_mut e reads moves = reads >> modify (mutate_root e)
  pass def at ParamBehavior.move e reads moves = moves >> nothing
  pass def at ParamBehavior.unknown e reads moves = moves >> nothing
  pass def at ParamBehavior.escape e reads moves =
      moves >>= λ c. modify (mark_all c (via_call def) at) >> pure c

  unfoldable mutual
    unfolding use_var carry carry_pattern consume_view pass assign_to escape_all is_copy

    pub eval : HirExpr → Ctx → Walk
    eval (node id at (HirExprKind.literal l)) ctx = nothing
    eval (node id at HirExprKind.poison) ctx = nothing
    eval (node id at (HirExprKind.var sym)) ctx = use_var sym ctx at
    eval (node id at (HirExprKind.field base name f)) ctx =
        if is_copy (tables.ty_of id) then eval base Ctx.read >> nothing else eval base ctx
    eval (node id at (HirExprKind.len base)) ctx = eval base Ctx.read >> nothing
    eval (node id at (HirExprKind.index base i)) ctx =
        if is_copy (tables.ty_of id)
        then eval base Ctx.read >> eval i Ctx.read >> nothing
        else eval base ctx ⊔ (eval i Ctx.read >> nothing)
    eval (node id at (HirExprKind.slice base lo hi)) ctx =
        if is_copy (tables.ty_of id)
        then eval base Ctx.read >> eval_option lo Ctx.read >> eval_option hi Ctx.read >> nothing
        else eval base ctx ⊔ (eval_option lo Ctx.read >> eval_option hi Ctx.read >> nothing)
    eval (node id at (HirExprKind.call def args)) ctx =
        modify (consume_view def) >> eval_args def at (view def) args
    eval (node id at (HirExprKind.binary op l r)) ctx =
        eval l Ctx.read >> eval r Ctx.read >> nothing
    eval (node id at (HirExprKind.unary op e)) ctx = eval e Ctx.read >> nothing
    eval (node id at (HirExprKind.if_else c t e)) ctx =
        eval c Ctx.read >> (eval t ctx ⊔ eval_option e ctx)
    eval (node id at (HirExprKind.block stmts tail)) ctx = walk_stmts stmts >> eval_option tail ctx
    eval (node id at (HirExprKind.struct_lit def fields)) ctx = eval_inits fields
    eval (node id at (HirExprKind.array_lit elems)) ctx = eval_all elems
    eval (node id at (HirExprKind.range lo hi)) ctx =
        eval_option lo Ctx.read >> eval_option hi Ctx.read >> nothing
    eval (node id at (HirExprKind.for_in sym iter body)) ctx =
        eval iter Ctx.read >> eval body Ctx.move >> nothing
    eval (node id at (HirExprKind.variant_lit def tag args)) ctx = eval_all args
    eval (node id at (HirExprKind.match_on e arms)) ctx =
        eval e Ctx.read >>= λ c. eval_arms c ctx arms

    pub eval_option : HirOption → Ctx → Walk
    eval_option absent ctx = nothing
    eval_option (present e) ctx = eval e ctx

    pub eval_args : ℕ → Span → List ParamBehavior → HirExprs → Walk
    eval_args def at contract nil = nothing
    eval_args def at contract (cons e es) =
        pass def at (behavior_or_move (first_of contract)) e (eval e Ctx.read) (eval e Ctx.move)
        ⊔ eval_args def at (rest_of contract) es

    pub eval_all : HirExprs → Walk
    eval_all nil = nothing
    eval_all (cons e es) = eval e Ctx.move ⊔ eval_all es

    pub eval_inits : HirInits → Walk
    eval_inits end = nothing
    eval_inits (init name e fields) = eval e Ctx.move ⊔ eval_inits fields

    pub eval_arms : Carriers → Ctx → HirArms → Walk
    eval_arms c ctx no_arms = nothing
    eval_arms c ctx (arm pat e at arms) =
        modify (carry_pattern pat c) >> (eval e ctx ⊔ eval_arms c ctx arms)

    pub walk_stmts : HirStmts → Walk
    walk_stmts done = nothing
    walk_stmts (let_then sym ty e at stmts) =
        eval_option e Ctx.move >>= λ c. modify (carry sym c) >> walk_stmts stmts
    walk_stmts (assign_then target e at stmts) =
        eval e Ctx.move >>= λ c. modify (assign_to target c) >> walk_stmts stmts
    walk_stmts (expr_then e semi stmts) = eval e Ctx.move >> walk_stmts stmts
    walk_stmts (return_then absent at stmts) = walk_stmts stmts
    walk_stmts (return_then (present e) at stmts) =
        eval e Ctx.move >>= λ c. modify (escape_all c (span_of e)) >> walk_stmts stmts

abbrev pub start : Collector
start = record {
  facts = λ i. no_facts;
  summaries = λ i. record { escapes = []; evidence = [] };
  carriers = λ sym. no_carriers;
  consumed = [];
}

unfoldable pub collect_facts : HirBody → TypeTables → (ℕ → List ParamBehavior) → FnSig → Collector
unfolding eval escape_all
collect_facts b tables view sig =
    let (c, s) = eval tables view sig.params b.root Ctx.move start in
    escape_all c (span_of b.root) s
