-- ===== src/Db/FromScratch.antt =====
-- A demand gives the value that evaluating everything from the current sources gives.
use ontixa.Prelude.{suc, ◌<◌, ◌≡◌, refl, sym, ◌∙◌, subst, List, [], some, length, arith}
use ontixa.Db.Query.{QueryKey, Entry, stage, file, stages, stage-lt-stages}
use ontixa.Db.Task.{Task, Evaluators}
use ontixa.Db.Engine.{Db, FileSlot, eval, ensure_fresh, top_demand}
use ontixa.Db.Spec.{Runs, returns, demands}
use ontixa.Db.Moves.{InvOf, inv_after, fresh-Runs}
use ontixa.Db.Insert.{some_inj}
use ontixa.Db.Sound.{demand_sound}
use ontixa.Db.Contract.{ensure_fresh_sound}
use ontixa.Db.Total.{ensure_fresh-Returns, demand-Returns}

module _ (E : Evaluators) where
  open E use {Val, Diag}

  -- Evaluation from the sources has one value at most: it reads neither memo table nor revision.
  Runs-unique :
      {files : List (FileSlot E)} {t : Task Val Diag} {u v : Val}
      → Runs E files t u
      → Runs E files t v
      → u ≡ v
  Runs-unique returns returns = refl
  Runs-unique {files} {v = v} (demands {c = c} p a b) (demands {u = w} q a' b') =
      let same = some_inj (sym q ∙ p) in
      let sub = Runs-unique a (subst (λ t. Runs E files t w) same a') in
      Runs-unique b (subst (λ x. Runs E files (c x) v) (sym sub) b')

  -- What a demand of `k` at the top yields: its value is the from-scratch value of the key.
  pub record Answer (k : QueryKey) (db : Db E) : Type 0 where
    pub value : Val
    pub after : Db E
    pub returned : top_demand E stages k db ≡ some (value, after)
    pub task : Task Val Diag
    pub is_task : eval E db.files k ≡ some task
    pub from_scratch : Runs E db.files task value
    pub files_kept : after.files ≡ db.files
    pub revision_kept : after.revision ≡ db.revision
    pub still_valid : InvOf E after
    pub entry : Entry Val Diag
    pub is_entry : after.memo k ≡ some entry
    pub entry_fresh : entry.verified_at ≡ after.revision
    pub entry_value : value ≡ entry.value

  -- In a valid table, a top demand of a key below the limit, of a registered file, returns, within fuel
  -- for the twelve stages, the value that evaluating from the current sources gives, and keeps the
  -- sources, the revision and the validity.
  pub top_demand_from_scratch :
      (k : QueryKey) (db : Db E)
      → stage k < E.limit
      → file k < length db.files
      → InvOf E db
      → Answer k db
  unfolding top_demand
  top_demand_from_scratch k db low inside inv =
      let start : Db E = record db { last_run = []; roots = _ } in
      let good = ensure_fresh_sound E stages in
      let (x, p) =
        demand-Returns E (ensure_fresh E stages) good stages k start (ensure_fresh-Returns E stages)
          (stage-lt-stages k) low inside inv in
      let d = demand_sound E (ensure_fresh E stages) good k start (x.1) (x.0) low inside inv p in
      let (t, q, r) =
        fresh-Runs E db.files (x.1).memo db.revision d.moves.inv (suc (stage k)) low k d.entry
          (omega arith) d.is_entry (omega (arith, d.verified)) in
      record {
        value = x.0;
        after = x.1;
        returned = p;
        task = t;
        is_task = q;
        from_scratch = subst (λ v. Runs E db.files t v) (sym d.is_value) r;
        files_kept = d.moves.files_kept;
        revision_kept = d.moves.revision_kept;
        still_valid = inv_after E d.moves;
        entry = d.entry;
        is_entry = d.is_entry;
        entry_fresh = d.verified ∙ sym d.moves.revision_kept;
        entry_value = d.is_value;
      }
