-- ===== src/Examples/Database.antt =====
-- The query engine over the rules of the front stages: crates/ontixa-db/src/db.rs and eval.rs.
use ontixa.Prelude.{
  ℕ, ◌+◌, ◌<◌, ◌==◌, true, false, ◌≡◌, refl, ap, List, [], ◌∷◌, none, some, map, length, arith,
}
use ontixa.Db.Query.{Payloads, Value, same_value, file, stage, scope, stages}
use ontixa.Db.Task.{done, Evaluators}
use ontixa.Db.Front.{WorkspaceFile, Calls}
use ontixa.Db.Rules.{front}
use ontixa.Db.Engine.{Db, top_demand}
use ontixa.Db.Edits.{set_sources}
use ontixa.Db.Moves.{InvOf}
use ontixa.Db.FromScratch.{Answer, top_demand_from_scratch}
use ontixa.Db.Edited.{set_sources_answers}
use ontixa.Db.Repeat.{Untouched, top_demand_again}
use ontixa.Syntax.Kinds.{bytes_eq}
use ontixa.Syntax.Raw.{bytes_eq_sound}

-- A text is the number of the module that it uses; a scope is the list of the files it was made of.
abbrev pub small : Payloads
small = record {
  Text = ℕ;
  Tree = ℕ;
  Ast = List ℕ;
  Scope = List ℕ;
  Item = ℕ;
  Hir = ℕ;
  Checked = ℕ;
  Ownership = ℕ;
  Mir = ℕ;
  Graph = ℕ;
  Diagnostic = ℕ;
  Artifacts = ℕ;
  text_eq = λ a b. a == b;
  ast_eq = bytes_eq;
  scope_eq = bytes_eq;
  item_eq = λ a b. false;
  hir_eq = λ a b. false;
  checked_eq = λ a b. false;
  ownership_eq = λ a b. a == b;
  mir_eq = λ a b. false;
  graph_eq = λ a b. a == b;
  diags_eq = bytes_eq;
}

number_eq : (a b : ℕ) → (a == b) ≡ true → a ≡ b
number_eq a b p = ground arith

pub small_sound : (a b : Value small) → same_value small a b ≡ true → a ≡ b
unfolding same_value
small_sound (Value.text a) (Value.text b) p = ap (λ x. Value.text x) (number_eq a b p)
small_sound (Value.ast a) (Value.ast b) p = ap (λ x. Value.ast x) (bytes_eq_sound a b p)
small_sound (Value.scope a) (Value.scope b) p = ap (λ x. Value.scope x) (bytes_eq_sound a b p)
small_sound (Value.ownership a) (Value.ownership b) p =
    ap (λ x. Value.ownership x) (number_eq a b p)
small_sound (Value.graph a) (Value.graph b) p = ap (λ x. Value.graph x) (number_eq a b p)
small_sound (Value.diags a) (Value.diags b) p = ap (λ x. Value.diags x) (bytes_eq_sound a b p)
small_sound (Value.item a) (Value.item b) p = absurd (let z : ⊥ = cc in z)
small_sound (Value.hir a) (Value.hir b) p = absurd (let z : ⊥ = cc in z)
small_sound (Value.checked a) (Value.checked b) p = absurd (let z : ⊥ = cc in z)
small_sound (Value.mir a) (Value.mir b) p = absurd (let z : ⊥ = cc in z)
small_sound _ _ p = absurd (let z : ⊥ = cc in z)

abbrev pub small_calls : Calls small
small_calls = record {
  Name = ℕ;
  intern = λ n. n;
  parse_file = λ t. (t, []);
  tag_file = λ f d. d;
  lower_module = λ f t. (t ∷ [], []);
  use_heads = λ a. map (λ m. some m) a;
  items = λ a. a;
  item_name = λ i. i;
  item_start = λ i. 0;
  rebase_item = λ i s. i;
  resolve_workspace = λ root ws. (map (λ (w : WorkspaceFile ℕ (List ℕ)). w.file) ws, []);
  files_of = λ s. s;
  crash = Value.text 0;
  later = λ ms k. done (Value.text 0) [];
}

abbrev pub toy : Evaluators
toy = front small small_calls small_sound

-- Two modules 7 and 8 that use each other, nothing evaluated yet.
abbrev pub two_files : Db toy
two_files = record {
  files = (record { text = 8; module_name = 7 }) ∷ (record { text = 7; module_name = 8 }) ∷ [];
  roots = λ f. f;
  revision = 0;
  memo = λ k. none;
  frames = [];
  last_run = [];
  executed = λ s. 0;
  reused = λ s. 0;
}

pub two_files-Inv : InvOf toy two_files
two_files-Inv k e p low = absurd (ground arith)

scope_inside : file (scope 0) < length two_files.files
unfolding file
scope_inside = omega arith

scope_low : stage (scope 0) < 5
unfolding stage
scope_low = omega arith

top_demand_from_scratch_example : Answer toy (scope 0) two_files
top_demand_from_scratch_example =
    top_demand_from_scratch toy (scope 0) two_files scope_low scope_inside two_files-Inv

-- The second module no longer uses the first.
set_sources_answers_example :
    (db : Db toy) × (set_sources toy ((1, 9) ∷ []) two_files ≡ some db)
    × (db.revision ≡ 0 + 1)
    × Answer toy (scope 0) db
unfolding set_sources
set_sources_answers_example =
    set_sources_answers toy ((1, 9) ∷ []) (scope 0) two_files two_files-Inv refl scope_low
      scope_inside

top_demand_again_example :
    (v : Value small) × (db₁ : Db toy) × (db₂ : Db toy) × (top_demand toy stages (scope 0) two_files
      ≡ some (v, db₁))
    × (top_demand toy stages (scope 0) db₁ ≡ some (v, db₂))
    × Untouched toy db₁ db₂
top_demand_again_example =
    top_demand_again toy (scope 0) two_files scope_low scope_inside two_files-Inv
