-- ===== src/Db/Task.antt =====
-- What an evaluator of the front stages, crates/ontixa-db/src/eval.rs, does as the engine sees it: it demands other
-- queries one after the other, each choice depending on the values before, and then returns a value
-- with the diagnostics that it emitted.
use ontixa.Prelude.{ℕ, ◌<◌, ◌≡◌, Bool, true, List, Option, length}
use ontixa.Db.Query.{QueryKey, stage, file}

pub data Task (V D : Type 0) : Type 0 where
  done : V → List D → Task V D
  ask : QueryKey → (V → Task V D) → Task V D

-- Every demand of the task is of an earlier stage than `r`, and of one of the first `n` files.
abbrev pub Layered : {V D : Type 0} → ℕ → ℕ → Task V D → Type 0
Layered r n (done v ds) = Unit
Layered r n (ask k c) = (stage k < r) × (file k < n) × ((v : _) → Layered r n (c v))

-- The evaluators, as an interface of the engine. A rule of a stage below `limit` reads its key, the
-- table of module names, as `scope_eval` does through `file_module`, and the values that it demanded.
-- Of the rules from `limit` on nothing is asked: in eval.rs these go through `root_of`, the ownership
-- oracle, the stored diagnostics and the revision. `ontixa.Db.Rules` has the rules below stage 5.
-- `Source` has no rule: the engine answers it itself.
pub record Evaluators : Type 1 where
  pub Val : Type 0
  pub Diag : Type 0
  pub Text : Type 0
  pub Module : Type 0
  -- `Value::Text`
  pub text : Text → Val
  -- the files of a `Value::Scope`
  pub scope_files : Val → Option (List ℕ)
  pub same : Val → Val → Bool
  pub same_sound : (a b : Val) → same a b ≡ true → a ≡ b
  pub limit : ℕ
  pub rule : List Module → QueryKey → Task Val Diag
  pub layered :
      (ms : List Module) (k : QueryKey)
      → stage k < limit
      → file k < length ms
      → Layered (stage k) (length ms) (rule ms k)
