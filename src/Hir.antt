-- ===== src/Hir.antt =====
-- The HIR: crates/ontixa-hir/src/hir.rs, with `TypeTables` of crates/ontixa-types/src/check.rs and
-- `Literal` of crates/ontixa-ast/src/ast.rs.
-- The expression arena of a body is read as the tree that its root spans: a node has its id, its span
-- and its payload, and the payload holds the nodes that the arena reaches by id. Ids are numbers.
use ontixa.Prelude.{ℕ, Bool, List, Option, none, some, get_elem?}
use ontixa.Prelude.Int.{ℤ}
use ontixa.Source.Span.{Span}
use ontixa.Types.Ty.{Ty, TypeRef}
use ontixa.Db.Query.{DefKey}
use ontixa.Mir.{BinOp, UnOp}

pub record Name : Type 0 where
  pub id : ℕ
  pub span : Span

-- A float is its 64 bits, a text its list of bytes.
pub data Literal : Type 0 where
  int : ℤ → Literal
  float : ℕ → Literal
  str : List ℕ → Literal
  char : ℕ → Literal
  bool : Bool → Literal

-- An assignment target.
pub record HirPlace : Type 0 where
  pub base : ℕ
  pub fields : List Name
  pub span : Span

pub data HirPat : Type 0 where
  variant : ℕ → ℕ → List (Option ℕ) → Span → HirPat
  bind : Option ℕ → Span → HirPat
  poison : HirPat

mutual
  pub data HirExpr : Type 0 where
    node : ℕ → Span → HirExprKind → HirExpr

  pub data HirExprKind : Type 0 where
    literal : Literal → HirExprKind
    var : ℕ → HirExprKind
    call : ℕ → HirExprs → HirExprKind
    field : HirExpr → Name → Option ℕ → HirExprKind
    len : HirExpr → HirExprKind
    index : HirExpr → HirExpr → HirExprKind
    slice : HirExpr → HirOption → HirOption → HirExprKind
    array_lit : HirExprs → HirExprKind
    range : HirOption → HirOption → HirExprKind
    for_in : ℕ → HirExpr → HirExpr → HirExprKind
    binary : BinOp → HirExpr → HirExpr → HirExprKind
    unary : UnOp → HirExpr → HirExprKind
    if_else : HirExpr → HirExpr → HirOption → HirExprKind
    block : HirStmts → HirOption → HirExprKind
    struct_lit : ℕ → HirInits → HirExprKind
    variant_lit : ℕ → ℕ → HirExprs → HirExprKind
    match_on : HirExpr → HirArms → HirExprKind
    poison : HirExprKind

  -- `Vec<ExprId>`
  pub data HirExprs : Type 0 where
    nil : HirExprs
    cons : HirExpr → HirExprs → HirExprs

  -- `Option<ExprId>`
  pub data HirOption : Type 0 where
    absent : HirOption
    present : HirExpr → HirOption

  -- `Vec<(Name, ExprId)>`
  pub data HirInits : Type 0 where
    end : HirInits
    init : Name → HirExpr → HirInits → HirInits

  -- `Vec<HirArm>`
  pub data HirArms : Type 0 where
    no_arms : HirArms
    arm : HirPat → HirExpr → Span → HirArms → HirArms

  -- `Vec<HirStmt>`
  pub data HirStmts : Type 0 where
    done : HirStmts
    let_then : ℕ → Option TypeRef → HirOption → Span → HirStmts → HirStmts
    assign_then : HirPlace → HirExpr → Span → HirStmts → HirStmts
    expr_then : HirExpr → Bool → HirStmts → HirStmts
    return_then : HirOption → Span → HirStmts → HirStmts

abbrev pub id_of : HirExpr → ℕ
id_of (node i at k) = i

abbrev pub span_of : HirExpr → Span
span_of (node i at k) = at

pub record ParamDef : Type 0 where
  pub symbol : ℕ
  pub name : ℕ
  pub mutable : Bool
  pub ty : TypeRef
  pub span : Span

pub record FnSig : Type 0 where
  pub params : List ParamDef
  pub ret : TypeRef

-- The part of `Symbol` that the analysis reads.
pub record Symbol : Type 0 where
  pub name : ℕ
  pub mutable : Bool
  pub span : Span

-- `symbol` is `HirBody::symbol` with its two arenas.
pub record HirBody : Type 0 where
  pub root : HirExpr
  pub symbol : ℕ → Symbol

-- `expr_types` has a type for each id of the body.
pub record TypeTables : Type 0 where
  pub ty_of : ℕ → Ty
  pub local_types : ℕ → Option Ty

-- A definition with its key, and its signature where it is a function.
pub record Def : Type 0 where
  pub key : DefKey
  pub sig : Option FnSig

-- What the analyses read of the names of a file: its functions and its data types.
pub record FileEnv : Type 0 where
  pub fns : ℕ → Option ℕ
  pub datas : ℕ → Option ℕ

-- The scope, the bodies and the type tables of a workspace, each by `DefId`.
pub record HirModule : Type 0 where
  pub root : ℕ
  pub envs : ℕ → Option FileEnv
  pub defs : List Def
  pub bodies : List (Option HirBody)
  pub types : List (Option TypeTables)

unfoldable pub fn_sig : HirModule → ℕ → Option FnSig
fn_sig m d = elim (get_elem? m.defs d) [ none ↦ none | some x ↦ x.sig ]

unfoldable pub body : HirModule → ℕ → Option HirBody
body m d = elim (get_elem? m.bodies d) [ none ↦ none | some b ↦ b ]
