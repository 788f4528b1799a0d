-- ===== src/Transactions/Atomic.antt =====
-- A plan is applied whole or not at all: `apply_patch` of crates/ontixa-db/src/patch.rs.
use ontixa.Prelude.{
  ℕ, List, Option, none, some, ◌≡◌, ◌==◌, Bool-cases, Option-cases, inl, inr, arith,
}
use ontixa.Db.Query.{QueryKey, stages}
use ontixa.Db.Task.{Evaluators}
use ontixa.Db.Engine.{top_demand}
use ontixa.Db.Edits.{set_sources}
use ontixa.Transactions.Apply.{
  ApplyError, Outcome, rejected, Session, Plan, Report, workspace_fingerprint, sources_fingerprint,
  find_moved, commit, check_sites, apply_patch,
}

module _ (E : Evaluators) (bytes : E.Text → List ℕ) (module_bytes : E.Module → List ℕ) where
  open E use {Val, Diag, Text, Module}

  abbrev SessionOf : Type 0
  SessionOf = Session E bytes module_bytes

  abbrev PlanOf : Type 0
  PlanOf = Plan E bytes module_bytes

  abbrev ReportOf : Type 0
  ReportOf = Report E bytes module_bytes

  -- A rejection leaves the session.
  abbrev Rejection : SessionOf → Option (Outcome ReportOf × SessionOf) → Type 0
  Rejection s o = (e : ApplyError) (s' : SessionOf) → o ≡ some (rejected e, s') → s' ≡ s

  commit-Rejection : (p : PlanOf) (s : SessionOf) → Rejection s (commit E bytes module_bytes p s)
  unfolding commit
  commit-Rejection p s e s' h = elim (Option-cases (set_sources E p.new_sources s.db)) [
    | inl q ↦ absurd (ground arith)
    | inr (db, q) ↦ elim (Option-cases (top_demand E stages (QueryKey.diagnostics p.root) db)) [
      | inl r ↦ absurd (ground arith)
      | inr ((v, db'), r) ↦ absurd (ground arith)
    ]
  ]

  sites-Rejection :
      (p : PlanOf) (s : SessionOf) → Rejection s (check_sites E bytes module_bytes p s)
  unfolding check_sites
  sites-Rejection p s e s' h =
      elim (Option-cases (find_moved E bytes module_bytes s.db.files p.edits)) [
        | inl q ↦ absurd (ground arith)
        | inr (none, q) ↦ commit-Rejection p s e s' (rw (q, check_sites) at h)
        | inr (some at, q) ↦ ground arith
      ]

  -- A plan that is rejected leaves the database as it was.
  pub apply_patch-rejected :
      (p : PlanOf) (s s' : SessionOf) (e : ApplyError)
      → apply_patch E bytes module_bytes p s ≡ some (rejected e, s')
      → s' ≡ s
  unfolding apply_patch
  apply_patch-rejected p s s' e h = elim (Bool-cases (p.db_id == s.id)) [
    | inr a ↦ ground arith
    | inl a ↦ elim (Bool-cases (s.db.revision == p.revision)) [
      | inr b ↦ ground arith
      | inl b ↦
          elim (Bool-cases (workspace_fingerprint E bytes module_bytes s.db == p.workspace_fp)) [
            | inr c ↦ ground arith
            | inl c ↦
                elim (Bool-cases
                  (sources_fingerprint E bytes module_bytes p.new_sources == p.candidate_fp)) [
                    | inr d ↦ ground arith
                    | inl d ↦ sites-Rejection p s e s' (rw (a, b, c, d) at h)
                  ]
          ]
    ]
  ]
