-- ===== src/Lib.antt =====
-- Verification library for Ontixa.
--
-- Ontixa compiles `.ixa` files by queries: text, tokens and tree, AST, scope, HIR, types, ownership,
-- MIR, semantic graph. A `Db` (crates/ontixa-db) memoizes each query and evaluates again only what an
-- edit made stale; the reference interpreter (crates/ontixa-interpreter) runs the MIR and checks at
-- each call the ownership contract that the analysis inferred.
--
-- Files and what they model:
--   Prelude          library names passed on, lists, tests, and integers over the native numbers
--   Syntax/Kinds     crates/ontixa-syntax/src/kinds.rs: SyntaxKind, kind_to_raw, kind_from_raw,
--                    keyword_kind; Syntax/Describe has describe
--   Syntax/Lexer     crates/ontixa-syntax/src/lexer.rs: one function for each scanner of `Lexer`, from
--                    the bytes that are left to a lexeme; `emit` is `push`, `round` and `run` are the
--                    loop. Utf8, Scan, Quoted, Dispatch, Tiling and Raw hold the proofs
--   Db/Query         crates/ontixa-db/src/query.rs: keys, entries, counts, `same_value`
--   Db/Task          what an evaluator of crates/ontixa-db/src/eval.rs is to the engine
--   Db/Front         crates/ontixa-db/src/eval.rs: the arms of `eval` for text, tree, AST, scope and item,
--                    and scope_eval; Rules and Discover hold the proofs
--   Db/Engine        crates/ontixa-db/src/db.rs: demand, ensure_fresh (`refresh`, `verify`), run_eval,
--                    top_demand
--   Db/Edits         crates/ontixa-db/src/db.rs: add_source_named, set_source, set_sources
--   Db/Spec          the meaning of a key (`Runs`) and the validity of a memo table (`Inv`); Insert,
--                    Moves, Sound, Contract, Total, FromScratch, Edited and Repeat hold the proofs
--   Mir              crates/ontixa-mir/src/mir.rs, with the operators of crates/ontixa-ast/src/ast.rs
--                    and ParamBehavior of crates/ontixa-memory/src/behavior.rs
--   Interp/Value     crates/ontixa-interpreter/src/value.rs over a heap of cells, and deep_eq of
--                    interp.rs
--   Interp/Arith     crates/ontixa-interpreter/src/interp.rs: binary, unary, integers of `i128`
--   Interp/Exec      crates/ontixa-interpreter/src/interp.rs: rvalue, call; Exec/Read has cell, operand
--                    and the values that need no call, Exec/Pass the contract of a call. Outcomes,
--                    Oracle and Lent hold the proofs
--   Source/Interner  crates/ontixa-source/src/intern.rs
--   Source/Span      crates/ontixa-source/src/span.rs
--   Source/File      crates/ontixa-source/src/file.rs: the line index; Lines, Position and Columns hold the
--                    proofs
--   Hir              crates/ontixa-hir/src/hir.rs as data, an arena read as the tree of its root, with
--                    TypeTables of crates/ontixa-types/src/check.rs
--   Memory/Place     crates/ontixa-memory/src/place.rs: `overlaps`, `place_of`
--   Memory/Facts     crates/ontixa-memory/src/analyze.rs: FactCollector (`eval`, `walk_stmts`), classify,
--                    collect_facts
--   Memory/Contracts crates/ontixa-memory/src/analyze.rs: fixpoint_round (`first_state`, `drain`, `visit`,
--                    `evaluate`), memo_take, callees_of (`calls`)
--   Memory/Enforce   crates/ontixa-memory/src/analyze.rs: Enforcer. State has `use_var`, `merge`,
--                    `assign_place` and the loans, Walk has `eval`, `stmt` and `can_complete`; Paths is
--                    the specification, the routes through a body; Sound, Uses, Joins, Arms and Safety
--                    hold the proofs
--   Memory/Infer     crates/ontixa-memory/src/analyze.rs: infer_ownership
--                    Order, Monotone, Arguments, Walk, Locality, Derive, Worklist, Least, Rounds,
--                    Fixpoint and Accepted hold the proofs of crates/ontixa-memory
--   Transactions     crates/ontixa-db/src/patch.rs and rename.rs: Splice has check_overlap, the order of
--                    the edits and splice_sources, Apply has the fingerprints, apply_patch and
--                    apply_rename, Shadow has shadow_db; Boundary, Weave, Atomic,
--                    Replaced and Candidate hold the proofs
--   Types/Ty         crates/ontixa-types/src/ty.rs, with `TypeRef` and `ElemRef` of
--                    crates/ontixa-hir/src/hir.rs; Compatible holds the proofs
--   Types/Scope      crates/ontixa-hir/src/hir.rs: the definitions of ModuleScope, DataShape
--   Types/Check      crates/ontixa-types/src/check.rs: State has `Checker` and its monad, `unify`; Complete
--                    has `can_complete`, `match_is_exhaustive`; Rules has literals and operators, Access
--                    fields, places, patterns and exhaustiveness, Steps the parts of the methods
--                    between two visits, Walk `expr_ty` and `stmt` with what they call, Body `run_body`
--                    and `check_body`. Safe, Proper, Operators, Accesses, Joins, Patterns, Forms, Arms,
--                    Sound, Result, Distinct and Coverage hold the proofs
--   Types/Typing     the typing rules, as the specification; Lowered says which trees have no poison
--   Examples         tests, and the theorems at concrete inputs
--
-- How code corresponds to definitions. A `Db` and a heap are passed explicitly; `?` is the bind of
-- `Option` or of `Outcome`. A panic is `none` in the engine, `panic` in the interpreter and a flag of the state in the
-- type checker. `Rc<RefCell>`
-- cells are addresses of a heap that only grows, so a cell that two places share is one address.
-- Source text is a list of bytes, a `str` value of the interpreter is a list of scalar values.
--
-- Fuel. The engine nests `ensure_fresh` once per pipeline stage at most, since an evaluator demands
-- earlier stages only: twelve units are enough. The loop of `scope_eval` takes a round for each registered
-- file at most, since the files that it finds are distinct. The lexer takes the number of bytes, as each
-- round passes a byte at least. The interpreter may run forever, so its fuel has no bound: `starved`
-- is a separate outcome. A round of the ownership inference takes as fuel the distance of the contracts
-- from the strongest ones, times the number of definitions and one, plus the first worklist: a raised
-- contract sends at most every definition back.
--
-- Parameters. `Evaluators` is the interface between the engine and the rules of eval.rs. Of the rules of
-- the stages below its `limit` it asks that what they demand and return depends on the key, the module
-- names and the values that were given, and of values that compare equal that they are equal. The rules
-- of eval.rs for text, tree, AST, scope and item meet this, with limit 5, over parse_file, lower_module,
-- resolve_workspace, rebase_item and an interner that keeps its ids. The rules from the sixth stage on do
-- not: they go through `root_of`, ownership starts from the contracts of its last run, diagnostics
-- collects what is stored and assemble reads the revision. No answer of theirs is stated.
-- The bytes of a text and of a module name are parameters of the transactions. `Floats` stands for
-- `f64`. The interpreter takes the number of fields of each data type.
--
-- Not modelled: the rules of eval.rs from the sixth stage on, with the routing to a workspace root
-- (`root_of`) and the `set_root` calls of `scope_eval`, times, `u32` offsets beyond 4 GiB of source, `u64`
-- revisions beyond their range, message texts, and the parser, formatter, resolver, MIR lowering,
-- semantic graph, the edits and conflict checks that rename and patch plans are made of, and command
-- line.
pub mod Prelude
pub mod Db
pub mod Transactions
pub mod Syntax
pub mod Mir
pub mod Interp
pub mod Source
pub mod Hir
pub mod Memory
pub mod Types
pub mod Examples
