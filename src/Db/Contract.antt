-- ===== src/Db/Contract.antt =====
-- `ensure_fresh` meets its contract, whatever the fuel.
use mathlib.Core.Path.{subst₂}
use mathlib.Core.List.{append_assoc, append-nil}
use ontixa.Prelude.{
  ℕ, zero, suc, ◌≤◌, ◌<◌, ◌≡◌, refl, sym, ap, ◌∙◌, subst, inl, inr, false, List, [], ◌∷◌, ◌++◌,
  Option, some, length, All, All-append, arith, ltb, ◌==◌, ==_iff, Bool-cases, Option-cases,
}
use ontixa.Db.Query.{QueryKey, Entry, stage, file}
use ontixa.Db.Task.{Task, Evaluators}
use ontixa.Db.Engine.{
  Db, FileSlot, eval, push, pop_last, insert, restamp, install, mark_verified, changed_since, run,
  run_eval, verify, refresh, ensure_fresh,
}
use ontixa.Db.Spec.{insert_self, insert_ne, Memo, Replay, FreshAt, DepOk, Settled, Inv}
use ontixa.Db.Insert.{some_inj, StampOk, insert-Inv}
use ontixa.Db.Moves.{
  >>=-some, pop_last-append, InvOf, Moves, Moves-trans, Moves-weaken, inv_after, Freshens,
  Moves-from_frames,
}
use ontixa.Db.Sound.{Good, restamp_ok, eval-Layered, run_sound}

module _ (E : Evaluators) where
  open E use {Val, Diag}

  abbrev pub Stale : QueryKey → Db E → Type 0
  Stale k db = (e : Entry Val Diag) → db.memo k ≡ some e → e.verified_at ≡ db.revision → ⊥

  -- A fresh entry depends on fresh keys only, so no fresh entry depends on a stale key.
  no_fresh_user :
      (k : QueryKey) (db : Db E)
      → InvOf E db
      → Stale k db
      → (j : QueryKey) (e : Entry Val Diag) → db.memo j ≡ some e
      → stage j < E.limit
      → e.verified_at ≡ db.revision
      → All (λ d. k ≡ d → ⊥) e.deps
  no_fresh_user k db inv stale j e p low v = go e.deps (inv j e p low).deps_ok
    where
      go :
          (ds : List QueryKey)
          → All (DepOk E (length db.files) (stage j) e.verified_at db.memo) ds
          → All (λ d. k ≡ d → ⊥) ds
      go [] h = tt
      go (d ∷ ds) ((ed, q, w, s, f), rest) = (
        (λ eq.
            let ok = inv d ed q (omega arith) in
            stale ed (ap db.memo eq ∙ q) (omega (arith, ok.past))),
        go ds rest,
      )

  -- The write of a fresh entry for a stale key.
  pub write_entry :
      (k : QueryKey) (db db' : Db E) (e' : Entry Val Diag) (t : Task Val Diag)
      → InvOf E db
      → Stale k db
      → eval E db.files k ≡ some t
      → e'.verified_at ≡ db.revision
      → e'.computed_at ≤ db.revision
      → StampOk E db.memo k e' db.revision
      → All (DepOk E (length db.files) (stage k) db.revision db.memo) e'.deps
      → Replay E db.memo t e'.deps e'.value
      → db'.files ≡ db.files
      → db'.revision ≡ db.revision
      → db'.memo ≡ insert db.memo k e'
      → Moves E (suc (stage k)) db db' × FreshAt E db.revision db'.memo k
  write_entry k db db' e' t inv stale is_task verified computed stamp deps replay files revision
        memo =
      (
        record {
          files_kept = files;
          revision_kept = revision;
          inv =
              subst (λ m. Inv E db.files db.revision m) (sym memo)
                (insert-Inv E db.files db.files db.memo k e' db.revision inv verified stamp refl
                  (λ j h. refl) (no_fresh_user k db inv stale) t is_task computed deps replay);
          kept = λ j e p v.
              ap (λ m. m j) memo
              ∙ (insert_ne db.memo k e' j (λ q. stale e (ap db.memo q ∙ p) v) ∙ p);
          above = λ j h.
              ap (λ m. m j) memo
              ∙ insert_ne db.memo k e' j
                  (λ q. let s : stage k ≡ stage j = ap stage q in absurd (omega arith));
        },
        (e', ap (λ m. m k) memo ∙ insert_self db.memo k e', verified),
      )

  module _ (fresh : QueryKey → Db E → Option (Db E)) (good : Good E fresh) where
    pub run_eval_sound :
        (k : QueryKey) (db db' : Db E)
        → stage k < E.limit
        → file k < length db.files
        → InvOf E db
        → Stale k db
        → run_eval E fresh k db ≡ some db'
        → Freshens E k db db'
    unfolding run_eval
    run_eval_sound k db db' low inside inv stale h =
        let (t, is_task, h₁) = >>=-some (eval E db.files k) _ h in
        let pushed : Db E = record db { frames = push db.frames [] } in
        let ((v, ds, db₁), p, q) = >>=-some (run E fresh t pushed) _ h₁ in
        let ran =
          run_sound E fresh good (stage k) t db.frames [] pushed db₁ v ds (omega arith)
            (eval-Layered E db.files k t low inside is_task) refl inv p in
        let moves : Moves E (stage k) db db₁ = Moves-from_frames E (push db.frames []) ran.moves in
        let inv₁ = inv_after E moves in
        let same_files = moves.files_kept in
        let same_revision = moves.revision_kept in
        let same_entry = moves.above k (omega arith) in
        let popped : pop_last db₁.frames ≡ (db.frames, ran.keys) =
          ap pop_last ran.frames_end ∙ pop_last-append db.frames ran.keys in
        let stamp =
          restamp_ok E db₁.memo k v db₁.revision
            (λ e p. let ok = inv₁ k e p low in omega (arith, ok.past, ok.stamps)) in
        let e' : Entry Val Diag = record {
          value = v;
          deps = (pop_last db₁.frames).1;
          diags = ds;
          computed_at = restamp E (db₁.memo k) v db₁.revision;
          verified_at = db₁.revision;
        } in
        let deps_eq : ran.keys ≡ e'.deps =
          ap (λ (x : List (List QueryKey) × List QueryKey). x.1) (sym popped) in
        let is_db : install E k v ds db₁ ≡ db' = some_inj q in
        let written =
          write_entry k db₁ db' e' t inv₁
            (λ e p v. stale e (sym same_entry ∙ p) (v ∙ same_revision)) (rw same_files is_task) refl
            (stamp.0) (stamp.1)
            (subst₂
              (λ (x : List (FileSlot E)) y. All (DepOk E (length x) (stage k) y db₁.memo) e'.deps)
              (sym same_files) (sym same_revision)
              (subst (λ x. All (DepOk E (length db.files) (stage k) db.revision db₁.memo) x) deps_eq
                ran.deps_ok))
            (subst (λ x. Replay E db₁.memo t x v) deps_eq ran.replay)
            (ap (λ (x : Db E). x.files) (sym is_db)) (ap (λ (x : Db E). x.revision) (sym is_db))
            (ap (λ (x : Db E). x.memo) (sym is_db)) in
        record {
          moves = Moves-trans E (Moves-weaken E (omega arith) moves) (written.0);
          frames_kept =
              ap (λ (x : Db E). x.frames) (sym is_db)
              ∙ ap (λ (x : List (List QueryKey) × List QueryKey). x.0) popped;
          is_fresh = subst (λ x. FreshAt E x db'.memo k) same_revision (written.1);
        }

    -- A dependency that the loop has passed: it is fresh and has not changed since.
    abbrev Passed : QueryKey → ℕ → Db E → QueryKey → Type 0
    Passed k verified_at db d =
        DepOk E (length db.files) (stage k) db.revision db.memo d × Settled E verified_at db.memo d

    Passed-Moves :
        (k : QueryKey) (verified_at : ℕ) {r : ℕ} {a b : Db E}
        → Moves E r a b
        → InvOf E a
        → stage k < E.limit
        → (ds : List QueryKey) → All (Passed k verified_at a) ds
        → All (Passed k verified_at b) ds
    Passed-Moves k verified_at m inv low [] h = tt
    Passed-Moves k verified_at {b = b} m inv low (d ∷ ds) (((ed, p, v, l, f), s), rest) =
        let ok = inv d ed p (omega arith) in
        let still = m.kept d ed p (omega (arith, ok.past)) in
        (
          (
            (ed, still, omega (arith, m.revision_kept), l, rw m.files_kept f),
            λ x q.
                subst (λ (y : Entry Val Diag). y.computed_at ≤ verified_at)
                  (some_inj (sym still ∙ q)) (s ed p),
          ),
          Passed-Moves k verified_at m inv low ds rest,
        )

    passed_deps :
        (k : QueryKey) (verified_at : ℕ) (db : Db E) (ds : List QueryKey)
        → All (Passed k verified_at db) ds
        → All (DepOk E (length db.files) (stage k) db.revision db.memo) ds
          × All (Settled E verified_at db.memo) ds
    passed_deps k verified_at db [] h = (tt, tt)
    passed_deps k verified_at db (d ∷ ds) ((p, s), rest) =
        let tail = passed_deps k verified_at db ds rest in ((p, tail.0), (s, tail.1))

    unchanged :
        (verified_at : ℕ) (m : Memo E) (d : QueryKey)
        → changed_since E verified_at (m d) ≡ false
        → Settled E verified_at m d
    unfolding changed_since
    unchanged verified_at m d h ed p =
        let q = rw p at h in let l : ltb verified_at ed.computed_at ≡ false = q in ground arith

    mark_verified_sound :
        (k : QueryKey) (e : Entry Val Diag) (db db' : Db E)
        → stage k < E.limit
        → InvOf E db
        → Stale k db
        → db.memo k ≡ some e
        → All (Passed k e.verified_at db) e.deps
        → mark_verified E k db ≡ some db'
        → Freshens E k db db'
    unfolding mark_verified
    mark_verified_sound k e db db' low inv stale p passed h =
        let ok = inv k e p low in
        let (deps, settled) = passed_deps k e.verified_at db e.deps passed in
        let is_db = some_inj (rw (p, mark_verified) at h) in
        let written =
          write_entry k db db' (record e { verified_at = db.revision }) ok.task inv stale ok.is_task
            refl (omega (arith, ok.past, ok.stamps)) (inr (e, p, refl, refl)) deps
            (ok.replays settled) (ap (λ (x : Db E). x.files) (sym is_db))
            (ap (λ (x : Db E). x.revision) (sym is_db)) (ap (λ (x : Db E). x.memo) (sym is_db)) in
        record {
          moves = written.0;
          frames_kept = ap (λ (x : Db E). x.frames) (sym is_db);
          is_fresh = written.1;
        }

    passed_now :
        (k : QueryKey) (verified_at : ℕ) (d : QueryKey) (db db₁ : Db E)
        → Freshens E d db db₁
        → stage d < stage k
        → file d < length db.files
        → Settled E verified_at db₁.memo d
        → Passed k verified_at db₁ d
    passed_now k verified_at d db db₁ one lower within settled =
        let (ed, p, v) = one.is_fresh in
        (
          (ed, p, omega (arith, one.moves.revision_kept), lower, rw one.moves.files_kept within),
          settled,
        )

    after-Moves :
        {k : QueryKey} {a b c : Db E}
        → Moves E (stage k) a b
        → b.frames ≡ a.frames
        → Freshens E k b c
        → Freshens E k a c
    after-Moves {k} {c = c} m frames f = record {
      moves = Moves-trans E (Moves-weaken E (omega arith) m) f.moves;
      frames_kept = f.frames_kept ∙ frames;
      is_fresh = subst (λ x. FreshAt E x c.memo k) m.revision_kept f.is_fresh;
    }

    verify_sound :
        (k : QueryKey) (e : Entry Val Diag) (passed rest : List QueryKey) (db db' : Db E)
        → stage k < E.limit
        → file k < length db.files
        → InvOf E db
        → Stale k db
        → db.memo k ≡ some e
        → e.deps ≡ passed ++ rest
        → All (Passed k e.verified_at db) passed
        → All (λ d. (stage d < stage k) × (file d < length db.files)) rest
        → verify E fresh k e.verified_at rest db ≡ some db'
        → Freshens E k db db'
    unfolding verify
    verify_sound k e passed [] db db' low inside inv stale p split all below h =
        mark_verified_sound k e db db' low inv stale p
          (subst (λ x. All (Passed k e.verified_at db) x) (sym (split ∙ append-nil passed)) all) h
    verify_sound k e passed (d ∷ ds) db db' low inside inv stale p split all
          ((lower, within), below) h =
        let (db₁, q, h₁) = >>=-some (fresh d db) _ h in
        let one = good d db db₁ (omega arith) within inv q in
        let moves : Moves E (stage k) db db₁ = Moves-weaken E (omega arith) one.moves in
        let same_entry = moves.above k (omega arith) in
        let inv₁ = inv_after E moves in
        let stale₁ : Stale k db₁ =
          λ x r v. stale x (sym same_entry ∙ r) (v ∙ moves.revision_kept) in
        let inside₁ : file k < length db₁.files = rw moves.files_kept inside in
        after-Moves moves one.frames_kept
          (elim (Bool-cases (changed_since E e.verified_at (db₁.memo d))) [
            | inl dirty ↦ run_eval_sound k db₁ db' low inside₁ inv₁ stale₁ (rw dirty at h₁)
            | inr clean ↦
                verify_sound k e (passed ++ d ∷ []) ds db₁ db' low inside₁ inv₁ stale₁
                  (same_entry ∙ p) (split ∙ sym (append_assoc passed (d ∷ []) ds))
                  (All-append (Passed k e.verified_at db₁) passed (d ∷ [])
                    (Passed-Moves k e.verified_at moves inv low passed all)
                    (
                      passed_now k e.verified_at d db db₁ one lower within
                          (unchanged e.verified_at db₁.memo d clean),
                      tt,
                    ))
                  (subst
                    (λ (x : List (FileSlot E)).
                      All (λ j. (stage j < stage k) × (file j < length x)) ds)
                    (sym moves.files_kept) below)
                  (rw clean at h₁)
          ])

    pub layered_deps :
        (n r verified_at : ℕ) (m : Memo E) (ds : List QueryKey)
        → All (DepOk E n r verified_at m) ds
        → All (λ d. (stage d < r) × (file d < n)) ds
    layered_deps n r verified_at m [] h = tt
    layered_deps n r verified_at m (d ∷ ds) ((ed, p, v, l, f), rest) =
        ((l, f), layered_deps n r verified_at m ds rest)

    pub refresh_sound : Good E (refresh E fresh)
    unfolding refresh
    refresh_sound k db db' low inside inv h = elim (Option-cases (db.memo k)) [
      | inl absent ↦
          run_eval_sound k db db' low inside inv (λ e p v. let q = sym absent ∙ p in cc)
            (rw (absent, refresh) at h)
      | inr (e, p) ↦ elim (Bool-cases (e.verified_at == db.revision)) [
        | inl hit ↦
            let is_db = some_inj (rw (p, refresh, hit) at h) in
            subst (λ x. Freshens E k db x) is_db
              (record {
                moves = record {
                  files_kept = refl;
                  revision_kept = refl;
                  inv = inv;
                  kept = λ j e q v. q;
                  above = λ j le. refl;
                };
                frames_kept = refl;
                is_fresh = (e, p, (==_iff _ _).0 hit);
              })
        | inr miss ↦
            verify_sound k e [] e.deps db db' low inside inv
              (λ x q v.
                let same = some_inj (sym p ∙ q) in
                let now : e.verified_at ≡ db.revision =
                  ap (λ (y : Entry Val Diag). y.verified_at) same ∙ v in
                ground arith)
              p refl tt (layered_deps _ _ e.verified_at db.memo e.deps (inv k e p low).deps_ok)
              (rw (p, refresh, miss) at h)
      ]
    ]

  -- Whatever the fuel, a call that returns has kept its contract.
  pub ensure_fresh_sound : (fuel : ℕ) → Good E (ensure_fresh E fuel)
  unfolding ensure_fresh
  ensure_fresh_sound zero k db db' low inside inv h = cc
  ensure_fresh_sound (suc fuel) k db db' low inside inv h =
      refresh_sound (ensure_fresh E fuel) (ensure_fresh_sound fuel) k db db' low inside inv h
