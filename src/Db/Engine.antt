-- ===== src/Db/Engine.antt =====
-- The database and its operations: crates/ontixa-db/src/db.rs.
-- A panic is `none`; so is a run out of fuel, which `ontixa.Db.Total` excludes.
use Prim.Native.String.{String}
use mathlib.Core.Logic.{ite}
use ontixa.Prelude.{
  ℕ, zero, suc, Bool, true, List, [], ◌∷◌, ◌++◌, Option, none, some, map, get_elem?, ltb, ◌==◌,
  if◌then◌else◌,
}
use ontixa.Db.Query.{QueryKey, QueryKey-discrete, Entry, source, scope, file, bump}
use ontixa.Db.Task.{Task, done, ask, Evaluators}

infixl 5 ◌>>=◌
abbrev pub ◌>>=◌ : {A B : Type 0} → Option A → (A → Option B) → Option B
none >>= f = none
some a >>= f = f a

-- `FxHashMap::insert`
abbrev pub insert : {A : Type 0} → (QueryKey → Option A) → QueryKey → A → QueryKey → Option A
insert m k a j = ite (QueryKey-discrete k j) (some a) (m j)

-- `Vec::push`
abbrev pub push : {A : Type 0} → List A → A → List A
push xs x = xs ++ x ∷ []

-- A push on the last frame, when there is one.
abbrev pub push_last : {A : Type 0} → List (List A) → A → List (List A)
push_last [] x = []
push_last (f ∷ []) x = push f x ∷ []
push_last (f ∷ g ∷ fs) x = f ∷ push_last (g ∷ fs) x

-- `frames.pop().unwrap_or_default()`: the frames that are left and the popped one.
abbrev pub pop_last : {A : Type 0} → List (List A) → List (List A) × List A
pop_last [] = ([], [])
pop_last (f ∷ []) = ([], f)
pop_last (f ∷ g ∷ fs) = let (rest, top) = pop_last (g ∷ fs) in (f ∷ rest, top)

module _ (E : Evaluators) where
  open E use {Val, Diag, Text, Module}

  pub record FileSlot : Type 0 where
    pub text : Text
    pub module_name : Module

  -- `interner` and `oracle` belong to other components. `roots f` is `root_of(f)`, the file itself
  -- where the map has no entry.
  pub record Db : Type 0 where
    pub files : List FileSlot
    pub roots : ℕ → ℕ
    pub revision : ℕ
    pub memo : QueryKey → Option (Entry Val Diag)
    pub frames : List (List QueryKey)
    pub last_run : List QueryKey
    pub executed : String → ℕ
    pub reused : String → ℕ

  unfoldable pub new : Db
  new = record {
    files = [];
    roots = λ f. f;
    revision = 0;
    memo = λ k. none;
    frames = [];
    last_run = [];
    executed = λ s. 0;
    reused = λ s. 0;
  }

  -- What `eval` does for a key. A `Source` of an unknown file is an index out of range.
  unfoldable pub eval : List FileSlot → QueryKey → Option (Task Val Diag)
  eval files (source f) = elim (get_elem? files f) [
    | none ↦ none
    | some s ↦ some (done (E.text s.text) [])
  ]
  eval files k = some (E.rule (map (λ (s : FileSlot). s.module_name) files) k)

  -- The `computed_at` of a new entry: the old stamp if the value is the same.
  unfoldable pub restamp : Option (Entry Val Diag) → Val → ℕ → ℕ
  restamp none v revision = revision
  restamp (some old) v revision = if E.same old.value v then old.computed_at else revision

  unfoldable pub set_root : ℕ → ℕ → (ℕ → ℕ) → ℕ → ℕ
  set_root f root roots g = if f == g then root else roots g

  unfoldable pub set_roots : List ℕ → ℕ → (ℕ → ℕ) → ℕ → ℕ
  unfolding set_root
  set_roots [] root roots = roots
  set_roots (f ∷ fs) root roots = set_roots fs root (set_root f root roots)

  -- The end of `run_eval`: the new entry, the log and the count.
  unfoldable pub install : QueryKey → Val → List Diag → Db → Db
  unfolding restamp bump
  install k v ds db =
      let (left, deps) = pop_last db.frames in
      record db {
        frames = left;
        memo = insert db.memo k (record {
          value = v;
          deps = deps;
          diags = ds;
          computed_at = restamp (db.memo k) v db.revision;
          verified_at = db.revision;
        });
        last_run = push db.last_run k;
        executed = bump db.executed k;
      }

  -- The clean end of `ensure_fresh`.
  unfoldable pub mark_verified : QueryKey → Db → Option Db
  unfolding bump
  mark_verified k db = elim (db.memo k) [
    | none ↦ none
    | some e ↦ some (record db {
      memo = insert db.memo k (record e { verified_at = db.revision });
      reused = bump db.reused k;
    })
  ]

  -- `is_none_or(|d| d.computed_at > verified_at)`
  unfoldable pub changed_since : ℕ → Option (Entry Val Diag) → Bool
  changed_since verified_at none = true
  changed_since verified_at (some d) = ltb verified_at d.computed_at

  -- The engine, over the call `fresh` of `ensure_fresh` for a dependency.
  module _ (fresh : QueryKey → Db → Option Db) where
    unfoldable pub demand : QueryKey → Db → Option (Val × Db)
    demand k db = do
      db' ← fresh k (record db { frames = push_last db.frames k })
      e ← db'.memo k
      some (e.value, db')

    -- An evaluation: each demand of the task goes through `demand`.
    unfoldable pub run : Task Val Diag → Db → Option (Val × List Diag × Db)
    unfolding demand
    run (done v ds) db = some (v, ds, db)
    run (ask k c) db = demand k db >>= λ r. run (c (r.0)) (r.1)

    unfoldable pub run_eval : QueryKey → Db → Option Db
    unfolding run install
    run_eval k db = do
      t ← eval db.files k
      r ← run t (record db { frames = push db.frames [] })
      some (install k (r.0) (r.1) (r.2))

    -- The loop over the old dependencies, and what follows it.
    unfoldable pub verify : QueryKey → ℕ → List QueryKey → Db → Option Db
    unfolding run_eval mark_verified changed_since
    verify k verified_at [] db = mark_verified k db
    verify k verified_at (d ∷ ds) db = do
      db' ← fresh d db
      let rest = verify k verified_at ds db'
      if changed_since verified_at (db'.memo d) then run_eval k db' else rest

    unfoldable pub refresh : QueryKey → Db → Option Db
    unfolding verify run_eval bump
    refresh k db = elim (db.memo k) [
      | none ↦ run_eval k db
      | some e ↦
          if e.verified_at == db.revision
          then some (record db { reused = bump db.reused k })
          else verify k e.verified_at e.deps db
    ]

  -- Each nested call is one stage further down, which the fuel counts.
  unfoldable pub ensure_fresh : ℕ → QueryKey → Db → Option Db
  unfolding refresh
  ensure_fresh zero k db = none
  ensure_fresh (suc n) k db = refresh (ensure_fresh n) k db

  unfoldable pub top_demand : ℕ → QueryKey → Db → Option (Val × Db)
  unfolding ensure_fresh set_roots demand
  top_demand fuel k db =
      let root = file k in
      let roots = set_root root root db.roots in
      let reclaimed : ℕ → ℕ = elim (db.memo (scope root)) [
        | none ↦ roots
        | some e ↦ elim (E.scope_files e.value) [ none ↦ roots | some fs ↦ set_roots fs root roots ]
      ] in
      demand (ensure_fresh fuel) k (record db { last_run = []; roots = reclaimed })
