-- ===== src/Db/Repeat.antt =====
-- A demand that follows a demand of the same key: the `verified_at == revision` path of
-- `ensure_fresh`, crates/ontixa-db/src/db.rs.
use ontixa.Prelude.{
  ℕ, suc, ◌<◌, ◌≡◌, refl, sym, ap, ◌∙◌, true, ◌==◌, [], Option, some, length, arith,
}
use ontixa.Db.Query.{QueryKey, Entry, stage, file, stages, bump}
use ontixa.Db.Task.{Evaluators}
use ontixa.Db.Engine.{Db, push_last, demand, refresh, ensure_fresh, top_demand}
use ontixa.Db.Moves.{InvOf}
use ontixa.Db.FromScratch.{top_demand_from_scratch}

module _ (E : Evaluators) where
  open E use {Val, Diag}

  -- The state after a demand differs in the counts and the frames only.
  pub record Untouched (db db' : Db E) : Type 0 where
    pub files_kept : db'.files ≡ db.files
    pub revision_kept : db'.revision ≡ db.revision
    pub memo_kept : db'.memo ≡ db.memo
    pub executed_kept : db'.executed ≡ db.executed
    pub nothing_run : db'.last_run ≡ []

  refresh_verified :
      (fresh : QueryKey → Db E → Option (Db E)) (k : QueryKey) (db : Db E) (e : Entry Val Diag)
      → db.memo k ≡ some e
      → e.verified_at ≡ db.revision
      → refresh E fresh k db ≡ some (record db { reused = bump db.reused k })
  unfolding refresh
  refresh_verified fresh k db e p q =
      let t : (e.verified_at == db.revision) ≡ true = ground arith in rw (p, t, refresh) refl

  demand_verified :
      (n : ℕ) (k : QueryKey) (db : Db E) (e : Entry Val Diag)
      → db.memo k ≡ some e
      → e.verified_at ≡ db.revision
      → db.last_run ≡ []
      → (db' : Db E) × (demand E (ensure_fresh E (suc n)) k db ≡ some (e.value, db'))
        × Untouched db db'
  unfolding demand ensure_fresh
  demand_verified n k db e p q r =
      let pushed : Db E = record db { frames = push_last db.frames k } in
      (
        record pushed { reused = bump db.reused k },
        rw (refresh_verified (ensure_fresh E n) k pushed e p q, p) refl,
        record {
          files_kept = refl;
          revision_kept = refl;
          memo_kept = refl;
          executed_kept = refl;
          nothing_run = r;
        },
      )

  -- In a valid table, when a key below the limit, of a registered file, is demanded and, with no edit in
  -- between, demanded again, the second demand returns the same value, evaluates no query and leaves
  -- the sources, the revision and the memo table as they are.
  pub top_demand_again :
      (k : QueryKey) (db : Db E)
      → stage k < E.limit
      → file k < length db.files
      → InvOf E db
      → (v : Val) × (db₁ : Db E) × (db₂ : Db E) × (top_demand E stages k db ≡ some (v, db₁))
        × (top_demand E stages k db₁ ≡ some (v, db₂))
        × Untouched db₁ db₂
  unfolding top_demand
  top_demand_again k db low inside inv =
      let first = top_demand_from_scratch E k db low inside inv in
      let (db₂, p, u) =
        demand_verified 11 k (record first.after { last_run = []; roots = _ }) first.entry
          first.is_entry first.entry_fresh refl in
      (
        first.value,
        first.after,
        db₂,
        first.returned,
        p ∙ ap (λ v. some (v, db₂)) (sym first.entry_value),
        record {
          files_kept = u.files_kept;
          revision_kept = u.revision_kept;
          memo_kept = u.memo_kept;
          executed_kept = u.executed_kept;
          nothing_run = u.nothing_run;
        },
      )
