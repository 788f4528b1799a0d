-- ===== src/Db/Total.antt =====
-- The engine returns: fuel for the twelve stages of the pipeline is enough.
use ontixa.Prelude.{
  ℕ, zero, suc, ◌≤◌, ◌<◌, ◌≡◌, refl, sym, ◌∙◌, subst, inl, inr, List, [], ◌∷◌, Option, some, length,
  get_elem?-some, All, arith, ◌==◌, Bool-cases, Option-cases,
}
use ontixa.Db.Query.{QueryKey, Entry, stage, file, source, bump}
use ontixa.Db.Task.{Task, done, ask, Evaluators, Layered}
use ontixa.Db.Engine.{
  Db, FileSlot, eval, push, push_last, insert, install, ◌>>=◌, mark_verified, changed_since, demand,
  run, run_eval, verify, refresh, ensure_fresh,
}
use ontixa.Db.Moves.{InvOf, inv_after}
use ontixa.Db.Sound.{Good, eval-Layered, demand_sound}
use ontixa.Db.Contract.{layered_deps, ensure_fresh_sound}

module _ (E : Evaluators) where
  open E use {Val, Diag}

  -- The call returns for every key below stage `r`.
  abbrev pub Returns : ℕ → (QueryKey → Db E → Option (Db E)) → Type 0
  Returns r fresh =
      (k : QueryKey) (db : Db E)
      → stage k < r
      → stage k < E.limit
      → file k < length db.files
      → InvOf E db
      → (db' : Db E) × (fresh k db ≡ some db')

  eval_returns :
      (files : List (FileSlot E)) (k : QueryKey)
      → file k < length files
      → (t : Task Val Diag) × (eval E files k ≡ some t)
  unfolding eval file
  eval_returns files (source f) inside =
      let (s, p) = get_elem?-some files f inside in (done (E.text s.text) [], rw (p, eval))
  eval_returns files k inside = (_, refl)

  module _ (fresh : QueryKey → Db E → Option (Db E)) (good : Good E fresh) where
    pub demand-Returns :
        (r : ℕ) (k : QueryKey) (db : Db E)
        → Returns r fresh
        → stage k < r
        → stage k < E.limit
        → file k < length db.files
        → InvOf E db
        → (x : Val × Db E) × (demand E fresh k db ≡ some x)
    unfolding demand
    demand-Returns r k db ret low lim inside inv =
        let pushed : Db E = record db { frames = push_last db.frames k } in
        let (db₁, p) = ret k pushed low lim inside inv in
        let (e, q, v) = (good k pushed db₁ lim inside inv p).is_fresh in
        ((e.value, db₁), rw (p, ◌>>=◌, q))

    run-Returns :
        (r : ℕ) (t : Task Val Diag) (db : Db E)
        → Returns r fresh
        → r ≤ E.limit
        → Layered r (length db.files) t
        → InvOf E db
        → (x : Val × List Diag × Db E) × (run E fresh t db ≡ some x)
    unfolding run
    run-Returns r (done v ds) db ret lim l inv = ((v, ds, db), refl)
    run-Returns r (ask k c) db ret lim (low, inside, l) inv =
        let ((u, db₁), p) = demand-Returns r k db ret low (omega arith) inside inv in
        let one = demand_sound E fresh good k db db₁ u (omega arith) inside inv p in
        let (x, q) =
          run-Returns r (c u) db₁ ret lim
            (subst (λ y. Layered r (length y) (c u)) (sym one.moves.files_kept) (l u))
            (inv_after E one.moves) in
        (x, rw (p, ◌>>=◌) q)

    run_eval-Returns :
        (r : ℕ) (k : QueryKey) (db : Db E)
        → Returns r fresh
        → stage k < E.limit
        → stage k ≤ r
        → file k < length db.files
        → InvOf E db
        → (db' : Db E) × (run_eval E fresh k db ≡ some db')
    unfolding run_eval
    run_eval-Returns r k db ret lim le inside inv =
        let (t, p) = eval_returns db.files k inside in
        let pushed : Db E = record db { frames = push db.frames [] } in
        let ((v, ds, db₁), q) =
          run-Returns (stage k) t pushed (λ j db low. ret j db (omega arith)) (omega arith)
            (eval-Layered E db.files k t lim inside p) inv in
        (install E k v ds db₁, rw (p, ◌>>=◌) (rw (q, ◌>>=◌)))

    mark_verified_returns :
        (k : QueryKey) (db : Db E) (e : Entry Val Diag)
        → db.memo k ≡ some e
        → (db' : Db E) × (mark_verified E k db ≡ some db')
    unfolding mark_verified
    mark_verified_returns k db e p = (
      record db {
        memo = insert db.memo k (record e { verified_at = db.revision });
        reused = bump db.reused k;
      },
      rw (p, mark_verified),
    )

    verify-Returns :
        (r : ℕ) (k : QueryKey) (e : Entry Val Diag) (verified_at : ℕ) (ds : List QueryKey)
        (db : Db E)
        → Returns r fresh
        → stage k < E.limit
        → stage k ≤ r
        → file k < length db.files
        → InvOf E db
        → db.memo k ≡ some e
        → All (λ d. (stage d < stage k) × (file d < length db.files)) ds
        → (db' : Db E) × (verify E fresh k verified_at ds db ≡ some db')
    unfolding verify
    verify-Returns r k e verified_at [] db ret lim le inside inv p below =
        mark_verified_returns k db e p
    verify-Returns r k e verified_at (d ∷ ds) db ret lim le inside inv p ((low, within), below) =
        let (db₁, q) = ret d db (omega arith) (omega arith) within inv in
        let moves = (good d db db₁ (omega arith) within inv q).moves in
        let inv₁ = inv_after E moves in
        elim (Bool-cases (changed_since E verified_at (db₁.memo d))) [
          | inl dirty ↦
              let (db', s) =
                run_eval-Returns r k db₁ ret lim le (rw moves.files_kept inside) inv₁ in
              (db', rw (q, ◌>>=◌, dirty) s)
          | inr clean ↦
              let (db', s) =
                verify-Returns r k e verified_at ds db₁ ret lim le (rw moves.files_kept inside) inv₁
                  (moves.above k (omega arith) ∙ p)
                  (subst
                    (λ (x : List (FileSlot E)).
                      All (λ j. (stage j < stage k) × (file j < length x)) ds)
                    (sym moves.files_kept) below) in
              (db', rw (q, ◌>>=◌, clean) s)
        ]

    refresh-Returns : (r : ℕ) → Returns r fresh → Returns (suc r) (refresh E fresh)
    unfolding refresh
    refresh-Returns r ret k db low lim inside inv = elim (Option-cases (db.memo k)) [
      | inl absent ↦
          let (db', s) = run_eval-Returns r k db ret lim (omega arith) inside inv in
          (db', rw (absent, refresh) s)
      | inr (e, p) ↦ elim (Bool-cases (e.verified_at == db.revision)) [
        | inl hit ↦ (record db { reused = bump db.reused k }, rw (p, refresh, hit))
        | inr miss ↦
            let (db', s) =
              verify-Returns r k e e.verified_at e.deps db ret lim (omega arith) inside inv p (
                layered_deps E fresh good _ _ e.verified_at db.memo e.deps
                  (inv k e p lim).deps_ok) in
            (db', rw (p, refresh, miss) s)
      ]
    ]

  -- Fuel above the stage of the key is enough.
  pub ensure_fresh-Returns : (fuel : ℕ) → Returns fuel (ensure_fresh E fuel)
  unfolding ensure_fresh
  ensure_fresh-Returns zero k db low lim inside inv = absurd (omega arith)
  ensure_fresh-Returns (suc fuel) k db low lim inside inv =
      refresh-Returns (ensure_fresh E fuel) (ensure_fresh_sound E fuel) fuel
        (ensure_fresh-Returns fuel) k db low lim inside inv
