-- ===== src/Db/Front.antt =====
-- The evaluators that depend on the sources alone: the arms of `eval` for `Parse`, `Ast`, `Scope` and
-- `AstItem`, with `scope_eval`, in crates/ontixa-db/src/eval.rs.
-- A panic that no run reaches, `unreachable!` and a file out of range, has the value `crash`. The
-- interner gives one id to a text for the life of a database. `seen` has the files of `order`. The
-- `set_root` calls after the loop are left out: no rule here reads the map of roots.
use ontixa.Prelude.{
  ℕ, zero, suc, List, [], ◌∷◌, ◌++◌, Option, none, some, map, length, get_elem?, ◌==◌,
  if◌then◌else◌,
}
use ontixa.Db.Query.{QueryKey, Payloads, Value, source, parse, scope, ast_item}
use ontixa.Types.Check.Complete.{contains}
use ontixa.Db.Task.{Task, done, ask}

-- What `resolve_workspace` is given for a file.
pub record WorkspaceFile (Name Ast : Type 0) : Type 0 where
  pub file : ℕ
  pub module_name : Name
  pub ast : Ast

-- The functions that the rules call: of crates/ontixa-syntax, crates/ontixa-ast, crates/ontixa-hir and
-- the interner, and the rules of the later stages.
pub record Calls (P : Payloads) : Type 1 where
  pub Name : Type 0
  pub intern : Name → ℕ
  pub parse_file : P.Text → P.Tree × List P.Diagnostic
  -- `tag_file_from(0, f)` on a diagnostic
  pub tag_file : ℕ → P.Diagnostic → P.Diagnostic
  -- `lower_module` with the current file of the collector
  pub lower_module : ℕ → P.Tree → P.Ast × List P.Diagnostic
  -- `u.path.segs.first()` of each use
  pub use_heads : P.Ast → List (Option Name)
  pub items : P.Ast → List P.Item
  pub item_name : P.Item → Name
  pub item_start : P.Item → ℕ
  pub rebase_item : P.Item → ℕ → P.Item
  pub resolve_workspace : ℕ → List (WorkspaceFile Name P.Ast) → P.Scope × List P.Diagnostic
  -- the files of a scope
  pub files_of : P.Scope → List ℕ
  pub crash : Value P
  pub later : List Name → QueryKey → Task (Value P) P.Diagnostic

module _ (P : Payloads) (C : Calls P) where
  open C use {Name}

  abbrev pub Eval : Type 0
  Eval = Task (Value P) P.Diagnostic

  -- `text(db, f)`
  unfoldable pub ask_text : ℕ → (P.Text → Eval) → Eval
  ask_text f k = ask (source f) λ v. elim v [ Value.text t ↦ k t | _ ↦ done C.crash [] ]

  unfoldable pub ask_tree : ℕ → (P.Tree → Eval) → Eval
  ask_tree f k = ask (parse f) λ v. elim v [ Value.tree t ↦ k t | _ ↦ done C.crash [] ]

  -- `ast(db, f)`
  unfoldable pub ask_ast : ℕ → (P.Ast → Eval) → Eval
  ask_ast f k = ask (QueryKey.ast f) λ v. elim v [ Value.ast a ↦ k a | _ ↦ done C.crash [] ]

  -- `module_of`, from the `i`-th file on: the first file of a name.
  unfoldable pub module_of : List Name → ℕ → ℕ → Option ℕ
  module_of [] i name = none
  module_of (m ∷ ms) i name = if C.intern m == name then some i else module_of ms (suc i) name

  -- A use of a module in the file `f`.
  unfoldable pub note_use : List Name → ℕ → Option Name → List ℕ → List ℕ
  unfolding module_of contains
  note_use ms f none order = order
  note_use ms f (some seg) order = elim (module_of ms 0 (C.intern seg)) [
    | none ↦ order
    | some dep ↦
        if dep == f then order else (if contains dep order then order else order ++ dep ∷ [])
  ]

  unfoldable pub note_uses : List Name → ℕ → List (Option Name) → List ℕ → List ℕ
  unfolding note_use
  note_uses ms f [] order = order
  note_uses ms f (u ∷ us) order = note_uses ms f us (note_use ms f u order)

  -- The loop `while head < order.len()`, as often as there are files at most.
  unfoldable pub discover : List Name → ℕ → ℕ → List ℕ → (List ℕ → Eval) → Eval
  unfolding ask_ast note_uses
  discover ms zero head order k = k order
  discover ms (suc n) head order k = elim (get_elem? order head) [
    | none ↦ k order
    | some f ↦ ask_ast f λ a. discover ms n (suc head) (note_uses ms f (C.use_heads a) order) k
  ]

  -- The demand of every file of `order` again, with the module names.
  unfoldable pub workspace : List Name → List ℕ → (List (WorkspaceFile Name P.Ast) → Eval) → Eval
  unfolding ask_ast
  workspace ms [] k = k []
  workspace ms (f ∷ fs) k = ask_ast f λ a. workspace ms fs λ rest. elim (get_elem? ms f) [
    | none ↦ done C.crash []
    | some m ↦ k (record { file = f; module_name = m; ast = a } ∷ rest)
  ]

  unfoldable pub scope_eval : List Name → ℕ → Eval
  unfolding discover workspace
  scope_eval ms root = discover ms (length ms) 0 (root ∷ []) λ order.
      workspace ms order
        λ files. let (s, ds) = C.resolve_workspace root files in done (Value.scope s) ds

  -- `find_map` over the items
  unfoldable pub find_item : ℕ → List P.Item → Option P.Item
  find_item name [] = none
  find_item name (i ∷ is') =
      if C.intern (C.item_name i) == name
      then some (C.rebase_item i (C.item_start i))
      else find_item name is'

  -- The engine answers a `Source` itself.
  unfoldable pub front_rule : List Name → QueryKey → Eval
  unfolding ask_text ask_tree ask_ast scope_eval find_item
  front_rule ms (source f) = done C.crash []
  front_rule ms (parse f) =
      ask_text f
        λ t. let (root, ds) = C.parse_file t in done (Value.tree root) (map (C.tag_file f) ds)
  front_rule ms (QueryKey.ast f) =
      ask_tree f λ root. let (a, ds) = C.lower_module f root in done (Value.ast a) ds
  front_rule ms (scope f) = scope_eval ms f
  front_rule ms (ast_item k) =
      ask_ast k.file λ a. done (Value.item (find_item k.name (C.items a))) []
  front_rule ms k = C.later ms k
