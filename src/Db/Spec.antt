-- ===== src/Db/Spec.antt =====
-- What the memo table means: the from-scratch value of a query, and the invariant of the table.
use mathlib.Core.Logic.{if_pos, if_neg}
use ontixa.Prelude.{ℕ, ◌≤◌, ◌<◌, ◌≡◌, refl, List, [], ◌∷◌, Option, some, length, All}
use ontixa.Db.Query.{QueryKey, QueryKey-discrete, Entry, stage, file}
use ontixa.Db.Task.{Task, done, ask, Evaluators}
use ontixa.Db.Engine.{FileSlot, eval, insert}

module _ {A : Type 0} (m : QueryKey → Option A) (k : QueryKey) (a : A) where
  pub insert_self : insert m k a k ≡ some a
  insert_self = if_pos (QueryKey-discrete k k) refl (some a) (m k)

  pub insert_ne : (j : QueryKey) → (k ≡ j → ⊥) → insert m k a j ≡ m j
  insert_ne j h = if_neg (QueryKey-discrete k j) h (some a) (m j)

module _ (E : Evaluators) where
  open E use {Val, Diag}

  abbrev pub Memo : Type 0
  Memo = QueryKey → Option (Entry Val Diag)

  -- The value of a task when every demanded query is evaluated anew from the sources.
  pub data Runs (files : List (FileSlot E)) : Task Val Diag → Val → Type 0 where
    returns : {v : Val} {ds : List Diag} → Runs files (done v ds) v
    demands :
        {k : QueryKey} {c : Val → Task Val Diag} {t : Task Val Diag} {u v : Val}
        → eval E files k ≡ some t
        → Runs files t u
        → Runs files (c u) v
        → Runs files (ask k c) v

  -- The task reads exactly these keys from the table, in this order, and returns `v`.
  pub data Replay (m : Memo) : Task Val Diag → List QueryKey → Val → Type 0 where
    returns : {v : Val} {ds : List Diag} → Replay m (done v ds) [] v
    demands :
        {k : QueryKey} {c : Val → Task Val Diag} {e : Entry Val Diag} {ks : List QueryKey} {v : Val}
        → m k ≡ some e
        → Replay m (c e.value) ks v
        → Replay m (ask k c) (k ∷ ks) v

  -- The entry of `k` was verified at `revision`.
  abbrev pub FreshAt : ℕ → Memo → QueryKey → Type 0
  FreshAt revision m k = (e : Entry Val Diag) × (m k ≡ some e) × (e.verified_at ≡ revision)

  -- A dependency of a key at stage `r` that is at least as recently verified as `verified_at`.
  abbrev pub DepOk : ℕ → ℕ → ℕ → Memo → QueryKey → Type 0
  DepOk n r verified_at m d =
      (ed : Entry Val Diag) × (m d ≡ some ed)
      × (verified_at ≤ ed.verified_at)
      × (stage d < r)
      × (file d < n)

  -- The dependency has not changed since `verified_at`.
  abbrev pub Settled : ℕ → Memo → QueryKey → Type 0
  Settled verified_at m d = (ed : Entry Val Diag) → m d ≡ some ed → ed.computed_at ≤ verified_at

  pub record EntryOk (files : List (FileSlot E)) (revision : ℕ) (m : Memo) (k : QueryKey)
      (e : Entry Val Diag) : Type 0 where
    pub task : Task Val Diag
    pub is_task : eval E files k ≡ some task
    pub stamps : e.computed_at ≤ e.verified_at
    pub past : e.verified_at ≤ revision
    pub deps_ok : All (DepOk (length files) (stage k) e.verified_at m) e.deps
    pub replays : All (Settled e.verified_at m) e.deps → Replay m task e.deps e.value

  -- The table is valid: its entries of the stages below the limit are.
  abbrev pub Inv : List (FileSlot E) → ℕ → Memo → Type 0
  Inv files revision m =
      (k : QueryKey) (e : Entry Val Diag)
      → m k ≡ some e
      → stage k < E.limit
      → EntryOk files revision m k e
