-- ===== src/Examples/Transactions.antt =====
-- Splicing and applying a plan on small inputs: crates/ontixa-db/src/patch.rs and
-- crates/ontixa-db/src/rename.rs.
use ontixa.Prelude.{length, ◌<◌, All, inl, ℕ, true, ◌≡◌, refl, List, [], ◌∷◌, some, arith}
use ontixa.Db.Engine.{Db}
use ontixa.Db.Edits.{set_sources, write_all, in_range}
use ontixa.Transactions.Shadow.{find_text, shadow_db}
use ontixa.Transactions.Replaced.{IsDistinct}
use ontixa.Transactions.Candidate.{shadow_db-answers}
use ontixa.Db.Query.{QueryKey, stage, file}
use ontixa.Db.FromScratch.{Answer}
use ontixa.Transactions.Splice.{Edit, check_overlap, splice_order, splice}
use ontixa.Source.File.{is_boundary}
use ontixa.Transactions.Boundary.{IsCut}
use ontixa.Transactions.Weave.{IsText, patched, splice-check_overlap}
use ontixa.Transactions.Apply.{
  other_database, rejected, Session, Plan, workspace_fingerprint, sources_fingerprint, apply_patch,
}
use ontixa.Transactions.Atomic.{apply_patch-rejected}
use ontixa.Examples.Database.{toy, two_files}

abbrev edit_at : ℕ → ℕ → List ℕ → ℕ → List ℕ → Edit
edit_at start end r op old = record {
  file = 0;
  span = record { start = start; end = end };
  replace = r;
  op = op;
  expected = old;
}

-- A replacement, an insertion before it and an insertion at its start.
abbrev three_edits : List Edit
three_edits =
    edit_at 2 4 (90 ∷ []) 2 (67 ∷ 68 ∷ [])
    ∷ edit_at 1 1 (91 ∷ 92 ∷ []) 0 []
    ∷ edit_at 2 2 (93 ∷ []) 1 []
    ∷ []

abbrev five_bytes : List ℕ
five_bytes = 65 ∷ 66 ∷ 67 ∷ 68 ∷ 69 ∷ []

splice-test :
    splice (splice_order three_edits) five_bytes ≡ some (65 ∷ 91 ∷ 92 ∷ 66 ∷ 93 ∷ 90 ∷ 69 ∷ [])
unfolding splice splice_order
splice-test = refl

three_edits-clear : check_overlap three_edits ≡ true
unfolding check_overlap
three_edits-clear = refl

three_edits-IsCut : All (IsCut five_bytes) three_edits
unfolding is_boundary
three_edits-IsCut = ((refl, refl), ((refl, refl), ((refl, refl), tt)))

three_edits-IsText : All IsText three_edits
three_edits-IsText =
    (inl (omega arith, tt), (inl (omega arith, inl (omega arith, tt)), (inl (omega arith, tt), tt)))

splice-check_overlap_example :
    splice (splice_order three_edits) five_bytes
    ≡ some (patched (splice_order three_edits) five_bytes)
splice-check_overlap_example =
    splice-check_overlap 0 three_edits five_bytes (refl, (refl, (refl, tt)))
      ((omega arith, omega arith), ((omega arith, omega arith), ((omega arith, omega arith), tt)))
      three_edits-IsCut three_edits-IsText three_edits-clear
      (
        (
          ((λ p q. absurd (omega arith)), (λ p q. absurd (omega arith))),
          (((λ p q. absurd (omega arith)), (λ p q. refl)), tt),
        ),
        ((((λ p q. absurd (omega arith)), (λ p q. absurd (omega arith))), tt), (tt, tt)),
      )

abbrev one_byte : ℕ → List ℕ
one_byte t = t ∷ []

abbrev session : Session toy one_byte one_byte
session = record { id = 3; db = two_files }

-- The text 8 becomes 30.
abbrev plan_for : ℕ → Plan toy one_byte one_byte
plan_for db_id = record {
  root = 0;
  ops = (114 ∷ []) ∷ [];
  revision = 0;
  db_id = db_id;
  workspace_fp = workspace_fingerprint toy one_byte one_byte two_files;
  candidate_fp = sources_fingerprint toy one_byte one_byte ((0, 30) ∷ []);
  edits = edit_at 0 1 (30 ∷ []) 0 (8 ∷ []) ∷ [];
  new_sources = (0, 30) ∷ [];
}

elsewhere :
    apply_patch toy one_byte one_byte (plan_for 4) session ≡ some (rejected other_database, session)
unfolding apply_patch
elsewhere = refl

apply_patch-rejected_example : session ≡ session
apply_patch-rejected_example =
    apply_patch-rejected toy one_byte one_byte (plan_for 4) session session other_database elsewhere

abbrev new_sources : List (ℕ × ℕ)
new_sources = (1, 9) ∷ []

new_sources-IsDistinct : IsDistinct toy new_sources
unfolding find_text
new_sources-IsDistinct = (refl, tt)

abbrev written : Db toy
written = write_all toy new_sources (record two_files { revision = 1 })

written-is : set_sources toy new_sources two_files ≡ some written
unfolding set_sources in_range
written-is = refl

first_scope : stage (QueryKey.scope 0) < 5
unfolding stage
first_scope = omega arith

first_inside : file (QueryKey.scope 0) < length two_files.files
unfolding file
first_inside = omega arith

shadow_db-answers_example :
    ((shadow_db toy two_files new_sources).files ≡ written.files)
    × Answer toy (QueryKey.scope 0) (shadow_db toy two_files new_sources)
shadow_db-answers_example =
    shadow_db-answers toy (QueryKey.scope 0) two_files written new_sources new_sources-IsDistinct
      written-is first_scope first_inside
