-- ===== src/Transactions/Candidate.antt =====
-- What a plan is checked in is what its write leaves: `shadow_db` of crates/ontixa-db/src/rename.rs.
use ontixa.Prelude.{ℕ, ◌<◌, ◌≡◌, List, some, length, arith}
use ontixa.Db.Query.{QueryKey, stage, file}
use ontixa.Db.Task.{Evaluators}
use ontixa.Db.Engine.{Db}
use ontixa.Db.Edits.{set_sources}
use ontixa.Db.FromScratch.{Answer, top_demand_from_scratch}
use ontixa.Transactions.Shadow.{shadow_db, shadow_db-Inv}
use ontixa.Transactions.Replaced.{IsDistinct, length-shadow_db, shadow_db-set_sources}

module _ (E : Evaluators) where
  -- For sources that name no file twice, the shadow workspace has the files, texts and module names,
  -- that the write of these sources leaves in the database, and a demand in it of a key below the limit,
  -- of a registered file, returns the value that evaluating everything from these files gives.
  pub shadow_db-answers :
      (k : QueryKey) (db db' : Db E) (sources : List (ℕ × E.Text))
      → IsDistinct E sources
      → set_sources E sources db ≡ some db'
      → stage k < E.limit
      → file k < length db.files
      → ((shadow_db E db sources).files ≡ db'.files) × Answer E k (shadow_db E db sources)
  shadow_db-answers k db db' sources distinct wrote low inside = (
    shadow_db-set_sources E db db' sources distinct wrote,
    top_demand_from_scratch E k (shadow_db E db sources) low
        (omega (arith, inside, length-shadow_db E db sources)) (shadow_db-Inv E db sources),
  )
