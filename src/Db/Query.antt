-- ===== src/Db/Query.antt =====
-- The query vocabulary: crates/ontixa-db/src/query.rs, and `DefKey` of crates/ontixa-source/src/ids.rs.
-- A `FileId` and an `InternId` are their indices.
use Prim.Native.String.{String}
use native.Mathlib.Decide.{ℕ_discrete}
use package.text.Mathlib.Text.{◌==◌ as str_eq}
use ontixa.Prelude.{ℕ, ◌+◌, ◌<◌, Bool, false, if◌then◌else◌, List, Option, arith}

pub record DefKey : Type 0 where
  pub root : ℕ
  pub file : ℕ
  pub name : ℕ

pub data QueryKey : Type 0 where
  source parse ast scope : ℕ → QueryKey
  ast_item hir_body body_types : DefKey → QueryKey
  ownership : ℕ → QueryKey
  mir_body : DefKey → QueryKey
  graph diagnostics compile : ℕ → QueryKey

unfoldable pub DefKey-discrete : Discrete DefKey
DefKey-discrete = hlevel ℕ_discrete

pub QueryKey-discrete : Discrete QueryKey
QueryKey-discrete = hlevel (ℕ_discrete, DefKey-discrete)

unfoldable pub name : QueryKey → String
name (source _) = "source"
name (parse _) = "lex+parse"
name (ast _) = "ast"
name (scope _) = "resolve"
name (ast_item _) = "ast-item"
name (hir_body _) = "hir"
name (body_types _) = "types"
name (ownership _) = "ownership"
name (mir_body _) = "mir"
name (graph _) = "graph"
name (diagnostics _) = "diagnostics"
name (compile _) = "assemble"

unfoldable pub file : QueryKey → ℕ
file (source f) = f
file (parse f) = f
file (ast f) = f
file (scope f) = f
file (ownership f) = f
file (graph f) = f
file (diagnostics f) = f
file (compile f) = f
file (hir_body k) = k.file
file (ast_item k) = k.file
file (body_types k) = k.file
file (mir_body k) = k.file

-- The pipeline stage of a key, in the order of the enumeration: an evaluator demands earlier
-- stages only.
unfoldable pub stage : QueryKey → ℕ
stage (source _) = 0
stage (parse _) = 1
stage (ast _) = 2
stage (scope _) = 3
stage (ast_item _) = 4
stage (hir_body _) = 5
stage (body_types _) = 6
stage (ownership _) = 7
stage (mir_body _) = 8
stage (graph _) = 9
stage (diagnostics _) = 10
stage (compile _) = 11

abbrev pub stages : ℕ
stages = 12

pub stage-lt-stages : (k : QueryKey) → stage k < stages
unfolding stage
stage-lt-stages (source _) = omega arith
stage-lt-stages _ = omega arith

-- The payload types of `Value`, with the tests that `#[derive(PartialEq)]` generates for them.
pub record Payloads : Type 1 where
  pub Text : Type 0
  pub Tree : Type 0
  pub Ast : Type 0
  pub Scope : Type 0
  pub Item : Type 0
  pub Hir : Type 0
  pub Checked : Type 0
  pub Ownership : Type 0
  pub Mir : Type 0
  pub Graph : Type 0
  pub Diagnostic : Type 0
  pub Artifacts : Type 0
  pub text_eq : Text → Text → Bool
  pub ast_eq : Ast → Ast → Bool
  pub scope_eq : Scope → Scope → Bool
  pub item_eq : Option Item → Option Item → Bool
  pub hir_eq : Option Hir → Option Hir → Bool
  pub checked_eq : Option Checked → Option Checked → Bool
  pub ownership_eq : Ownership → Ownership → Bool
  pub mir_eq : Option Mir → Option Mir → Bool
  pub graph_eq : Graph → Graph → Bool
  pub diags_eq : List Diagnostic → List Diagnostic → Bool

pub data Value (P : Payloads) : Type 0 where
  text : P.Text → Value P
  tree : P.Tree → Value P
  ast : P.Ast → Value P
  scope : P.Scope → Value P
  item : Option P.Item → Value P
  hir : Option P.Hir → Value P
  checked : Option P.Checked → Value P
  ownership : P.Ownership → Value P
  mir : Option P.Mir → Value P
  graph : P.Graph → Value P
  diags : List P.Diagnostic → Value P
  compile : P.Artifacts → Value P

unfoldable pub same_value : (P : Payloads) → Value P → Value P → Bool
same_value P (Value.text x) (Value.text y) = P.text_eq x y
same_value P (Value.ast x) (Value.ast y) = P.ast_eq x y
same_value P (Value.scope x) (Value.scope y) = P.scope_eq x y
same_value P (Value.item x) (Value.item y) = P.item_eq x y
same_value P (Value.hir x) (Value.hir y) = P.hir_eq x y
same_value P (Value.checked x) (Value.checked y) = P.checked_eq x y
same_value P (Value.ownership x) (Value.ownership y) = P.ownership_eq x y
same_value P (Value.mir x) (Value.mir y) = P.mir_eq x y
same_value P (Value.graph x) (Value.graph y) = P.graph_eq x y
same_value P (Value.diags x) (Value.diags y) = P.diags_eq x y
same_value P _ _ = false

-- One memoized result with its dependencies. `V` and `D` are the types of values and diagnostics.
pub record Entry (V D : Type 0) : Type 0 where
  pub value : V
  pub deps : List QueryKey
  pub diags : List D
  pub computed_at : ℕ
  pub verified_at : ℕ

unfoldable pub bump : (String → ℕ) → QueryKey → String → ℕ
unfolding name
bump counts k s = if str_eq s (name k) then counts s + 1 else counts s
