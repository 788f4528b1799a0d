-- ===== src/Db/Rules.antt =====
-- The rules of the first five stages as evaluators of the engine: crates/ontixa-db/src/eval.rs.
use ontixa.Prelude.{
  ℕ, zero, suc, ◌+◌, ◌<◌, ◌≡◌, true, List, [], ◌∷◌, Option, none, some, length, get_elem?, ◌==◌,
  All, All-append, Bool-cases, Option-cases, inl, inr, arith,
}
use ontixa.Db.Query.{
  QueryKey, Payloads, Value, same_value, stage, file, source, parse, scope, ast_item,
}
use ontixa.Types.Check.Complete.{contains}
use ontixa.Db.Task.{done, Layered, Evaluators}
use ontixa.Db.Front.{
  WorkspaceFile, Calls, Eval, ask_text, ask_tree, ask_ast, module_of, note_use, note_uses, discover,
  workspace, scope_eval, front_rule,
}

module _ (P : Payloads) (C : Calls P) where
  open C use {Name}

  ask_text-Layered :
      (r n f : ℕ) (k : P.Text → Eval P C)
      → 0 < r
      → f < n
      → ((a : P.Text) → Layered r n (k a))
      → Layered r n (ask_text P C f k)
  unfolding ask_text stage file
  ask_text-Layered r n f k low inside h = (low, inside, λ v. answered v)
    where
      answered : (v : Value P) → Layered r n (elim v [ Value.text a ↦ k a | _ ↦ done C.crash [] ])
      answered (Value.text a) = h a
      answered _ = tt

  ask_tree-Layered :
      (r n f : ℕ) (k : P.Tree → Eval P C)
      → 1 < r
      → f < n
      → ((a : P.Tree) → Layered r n (k a))
      → Layered r n (ask_tree P C f k)
  unfolding ask_tree stage file
  ask_tree-Layered r n f k low inside h = (low, inside, λ v. answered v)
    where
      answered : (v : Value P) → Layered r n (elim v [ Value.tree a ↦ k a | _ ↦ done C.crash [] ])
      answered (Value.tree a) = h a
      answered _ = tt

  ask_ast-Layered :
      (r n f : ℕ) (k : P.Ast → Eval P C)
      → 2 < r
      → f < n
      → ((a : P.Ast) → Layered r n (k a))
      → Layered r n (ask_ast P C f k)
  unfolding ask_ast stage file
  ask_ast-Layered r n f k low inside h = (low, inside, λ v. answered v)
    where
      answered : (v : Value P) → Layered r n (elim v [ Value.ast a ↦ k a | _ ↦ done C.crash [] ])
      answered (Value.ast a) = h a
      answered _ = tt

  pub module_of-below :
      (ms : List Name) (i name d : ℕ) → module_of P C ms i name ≡ some d → d < i + length ms
  unfolding module_of
  module_of-below [] i name d h = absurd (ground arith)
  module_of-below (m ∷ ms) i name d h = elim (Bool-cases (C.intern m == name)) [
    | inl q ↦ ground arith
    | inr q ↦ let r = module_of-below ms (suc i) name d (ground arith) in omega arith
  ]

  abbrev pub Registered : ℕ → List ℕ → Type 0
  Registered n order = All (λ f. f < n) order

  note_use-Registered :
      (ms : List Name) (f : ℕ) (u : Option Name) (order : List ℕ)
      → Registered (length ms) order
      → Registered (length ms) (note_use P C ms f u order)
  unfolding note_use
  note_use-Registered ms f none order h = h
  note_use-Registered ms f (some seg) order h =
      elim (Option-cases (module_of P C ms 0 (C.intern seg))) [
        | inl q ↦ rw (q, note_use) h
        | inr (dep, q) ↦ elim (Bool-cases (dep == f)) [
          | inl a ↦ rw (q, note_use, a) h
          | inr a ↦ elim (Bool-cases (contains dep order)) [
            | inl b ↦ rw (q, note_use, a, b) h
            | inr b ↦
                let low = module_of-below ms 0 (C.intern seg) dep q in
                rw (q, note_use, a, b)
                  (All-append (λ g. g < length ms) order (dep ∷ []) h (omega arith, tt))
          ]
        ]
      ]

  pub note_uses-Registered :
      (ms : List Name) (f : ℕ) (us : List (Option Name)) (order : List ℕ)
      → Registered (length ms) order
      → Registered (length ms) (note_uses P C ms f us order)
  unfolding note_uses
  note_uses-Registered ms f [] order h = h
  note_uses-Registered ms f (u ∷ us) order h =
      note_uses-Registered ms f us (note_use P C ms f u order) (note_use-Registered ms f u order h)

  pub registered :
      (n : ℕ) (order : List ℕ) (i f : ℕ) → Registered n order → get_elem? order i ≡ some f → f < n
  registered n [] i f h p = absurd (ground arith)
  registered n (g ∷ gs) zero f (q, h) p = let e : g ≡ f = ground arith in omega arith
  registered n (g ∷ gs) (suc i) f (q, h) p = registered n gs i f h p

  discover-Layered :
      (r : ℕ) (ms : List Name) (n head : ℕ) (order : List ℕ) (k : List ℕ → Eval P C)
      → 2 < r
      → Registered (length ms) order
      → ((fs : List ℕ) → Registered (length ms) fs → Layered r (length ms) (k fs))
      → Layered r (length ms) (discover P C ms n head order k)
  unfolding discover
  discover-Layered r ms zero head order k low h g = g order h
  discover-Layered r ms (suc n) head order k low h g = elim (Option-cases (get_elem? order head)) [
    | inl q ↦ rw (q, discover) (g order h)
    | inr (f, q) ↦
        rw (q, discover)
          (ask_ast-Layered r (length ms) f _ low (registered (length ms) order head f h q) (λ a.
            discover-Layered r ms n (suc head) (note_uses P C ms f (C.use_heads a) order) k low
              (note_uses-Registered ms f (C.use_heads a) order h) g))
  ]

  workspace-Layered :
      (r : ℕ) (ms : List Name) (fs : List ℕ) (k : List (WorkspaceFile Name P.Ast) → Eval P C)
      → 2 < r
      → Registered (length ms) fs
      → ((ws : List (WorkspaceFile Name P.Ast)) → Layered r (length ms) (k ws))
      → Layered r (length ms) (workspace P C ms fs k)
  unfolding workspace
  workspace-Layered r ms [] k low h g = g []
  workspace-Layered r ms (f ∷ fs) k low (q, h) g =
      ask_ast-Layered r (length ms) f _ low q
        (λ a. workspace-Layered r ms fs _ low h (λ rest. named f a rest (get_elem? ms f)))
    where
      named :
          (f : ℕ) (a : P.Ast) (rest : List (WorkspaceFile Name P.Ast)) (o : Option Name)
          → Layered r (length ms) (elim o [
            | none ↦ done C.crash []
            | some m ↦ k (record { file = f; module_name = m; ast = a } ∷ rest)
          ])
      named f a rest none = tt
      named f a rest (some m) = g _

  -- The files of a `Value::Scope`.
  abbrev pub scope_files : Value P → Option (List ℕ)
  scope_files (Value.scope s) = some (C.files_of s)
  scope_files _ = none

  -- The rules of the first five stages demand earlier stages and registered files only.
  pub front_rule-Layered :
      (ms : List Name) (k : QueryKey)
      → stage k < 5
      → file k < length ms
      → Layered (stage k) (length ms) (front_rule P C ms k)
  unfolding front_rule scope_eval stage file
  front_rule-Layered ms (source f) low h = tt
  front_rule-Layered ms (parse f) low h =
      ask_text-Layered 1 (length ms) f _ (omega arith) h (λ t. tt)
  front_rule-Layered ms (QueryKey.ast f) low h =
      ask_tree-Layered 2 (length ms) f _ (omega arith) h (λ t. tt)
  front_rule-Layered ms (scope f) low h =
      discover-Layered 3 ms (length ms) 0 (f ∷ []) _ (omega arith) (h, tt)
        (λ fs q. workspace-Layered 3 ms fs _ (omega arith) q (λ ws. tt))
  front_rule-Layered ms (ast_item k) low h =
      ask_ast-Layered 4 (length ms) k.file _ (omega arith) h (λ a. tt)
  front_rule-Layered ms _ low h = absurd (omega arith)

  -- What `#[derive(PartialEq)]` promises of the tests: what compares equal is equal.
  module _ (sound : (a b : Value P) → same_value P a b ≡ true → a ≡ b) where
    -- The evaluators of the workspace, of which the first five stages are `front_rule`'s.
    abbrev pub front : Evaluators
    front = record {
      Val = Value P;
      Diag = P.Diagnostic;
      Text = P.Text;
      Module = Name;
      text = λ t. Value.text t;
      scope_files = scope_files;
      same = same_value P;
      same_sound = sound;
      limit = 5;
      rule = front_rule P C;
      layered = front_rule-Layered;
    }
