-- ===== src/Db/Sound.antt =====
-- The engine keeps the invariant and returns from-scratch values.
use mathlib.Core.Path.{subst₂}
use mathlib.Core.List.{append_assoc, append-nil}
use ontixa.Prelude.{
  ℕ, suc, ◌≤◌, ◌<◌, ◌≡◌, refl, sym, ap, ◌∙◌, subst, ◌⊎◌, inl, inr, List, [], ◌∷◌, ◌++◌, Option,
  some, map, length, length-map, All, arith, Bool-cases, Option-cases, get_elem?,
}
use ontixa.Db.Query.{QueryKey, Entry, stage, file, source}
use ontixa.Db.Task.{Task, done, ask, Evaluators, Layered}
use ontixa.Db.Engine.{Db, FileSlot, eval, push, push_last, restamp, demand, run}
use ontixa.Db.Spec.{Memo, Replay, returns, demands, DepOk}
use ontixa.Db.Insert.{some_inj}
use ontixa.Db.Moves.{
  >>=-some, push_last-append, InvOf, Moves, Moves-refl, Moves-trans, Moves-weaken, inv_after,
  Moves-from_frames, Freshens,
}

module _ (E : Evaluators) where
  open E use {Val, Diag}

  -- The contract of a call of `ensure_fresh`.
  abbrev pub Good : (QueryKey → Db E → Option (Db E)) → Type 0
  Good fresh =
      (k : QueryKey) (db db' : Db E)
      → stage k < E.limit
      → file k < length db.files
      → InvOf E db
      → fresh k db ≡ some db'
      → Freshens E k db db'

  pub restamp_ok :
      (m : Memo E) (k : QueryKey) (v : Val) (revision : ℕ)
      → ((e : Entry Val Diag) → m k ≡ some e → e.computed_at ≤ revision)
      → (restamp E (m k) v revision ≤ revision)
        × ((restamp E (m k) v revision ≡ revision)
            ⊎ ((e : Entry Val Diag) × (m k ≡ some e)
                × (e.computed_at ≡ restamp E (m k) v revision)
                × (e.value ≡ v)))
  unfolding restamp
  restamp_ok m k v revision past = elim (Option-cases (m k)) [
    | inl absent ↦ rw (absent, restamp) (omega arith, inl refl)
    | inr (e, p) ↦ elim (Bool-cases (E.same e.value v)) [
      | inl same ↦
          rw (p, same, restamp) (past e p, inr (e, refl, refl, E.same_sound e.value v same))
      | inr differ ↦ rw (p, differ, restamp) (omega arith, inl refl)
    ]
  ]

  -- Every task of the engine is layered.
  pub eval-Layered :
      (files : List (FileSlot E)) (k : QueryKey) (t : Task Val Diag)
      → stage k < E.limit
      → file k < length files
      → eval E files k ≡ some t
      → Layered (stage k) (length files) t
  unfolding eval
  eval-Layered files (source f) t low inside p = elim (Option-cases (get_elem? files f)) [
    | inl absent ↦ let q = rw (absent, eval) at p in cc
    | inr (s, found) ↦
        let q : some (done (E.text s.text) []) ≡ some t = rw (found, eval) at p in
        subst (Layered (stage (source f)) (length files)) (some_inj q) tt
  ]
  eval-Layered files k t low inside p = subst (Layered (stage k) (length files)) (some_inj p) (
      rw (← length-map (λ (s : FileSlot E). s.module_name) files) (
        E.layered (map (λ (s : FileSlot E). s.module_name) files) k low
          (rw (length-map (λ (s : FileSlot E). s.module_name) files) inside)))

  -- A demand pushes its key on the last frame and returns the value of a fresh entry.
  pub record Demanded (k : QueryKey) (db db' : Db E) (v : Val) : Type 0 where
    pub moves : Moves E (suc (stage k)) db db'
    pub frames_pushed : db'.frames ≡ push_last db.frames k
    pub entry : Entry Val Diag
    pub is_entry : db'.memo k ≡ some entry
    pub verified : entry.verified_at ≡ db.revision
    pub is_value : v ≡ entry.value

  -- What the run of a task below stage `r` leaves behind, the last frame having been `f`.
  pub record Ran (r : ℕ) (t : Task Val Diag) (fs : List (List QueryKey)) (f : List QueryKey)
      (db db' : Db E) (v : Val) : Type 0 where
    pub moves : Moves E r db db'
    pub keys : List QueryKey
    pub frames_end : db'.frames ≡ fs ++ (f ++ keys) ∷ []
    pub replay : Replay E db'.memo t keys v
    pub deps_ok : All (DepOk E (length db.files) r db.revision db'.memo) keys

  module _ (fresh : QueryKey → Db E → Option (Db E)) (good : Good fresh) where
    pub demand_sound :
        (k : QueryKey) (db db' : Db E) (v : Val)
        → stage k < E.limit
        → file k < length db.files
        → InvOf E db
        → demand E fresh k db ≡ some (v, db')
        → Demanded k db db' v
    unfolding demand
    demand_sound k db db' v low inside inv h =
        let pushed : Db E = record db { frames = push_last db.frames k } in
        let (db₁, p, q) = >>=-some (fresh k pushed) _ h in
        let (e, r, s) = >>=-some (db₁.memo k) _ q in
        let fr = good k pushed db₁ low inside inv p in
        let (e₀, p₀, v₀) = fr.is_fresh in
        subst (λ (x : Val × Db E). Demanded k db (x.1) (x.0)) (some_inj s)
          (record {
            moves = Moves-from_frames E (push_last db.frames k) fr.moves;
            frames_pushed = fr.frames_kept;
            entry = e;
            is_entry = r;
            verified =
                subst (λ (x : Entry Val Diag). x.verified_at ≡ db.revision) (some_inj (sym p₀ ∙ r))
                  v₀;
            is_value = refl;
          })

    pub run_sound :
        (r : ℕ) (t : Task Val Diag) (fs : List (List QueryKey)) (f : List QueryKey) (db db' : Db E)
        (v : Val) (ds : List Diag)
        → r ≤ E.limit
        → Layered r (length db.files) t
        → db.frames ≡ fs ++ f ∷ []
        → InvOf E db
        → run E fresh t db ≡ some (v, ds, db')
        → Ran r t fs f db db' v
    unfolding run
    run_sound r (done u us) fs f db db' v ds le l fr inv h =
        subst (λ (x : Val × List Diag × Db E). Ran r (done u us) fs f db (x.2) (x.0)) (some_inj h)
          (record {
            moves = Moves-refl E r db inv;
            keys = [];
            frames_end = fr ∙ ap (λ x. fs ++ x ∷ []) (sym (append-nil f));
            replay = returns;
            deps_ok = tt;
          })
    run_sound r (ask k c) fs f db db' v ds le (below, inside, l) fr inv h =
        let ((u, db₁), p, q) = >>=-some (demand E fresh k db) _ h in
        let one = demand_sound k db db₁ u (omega arith) inside inv p in
        let files = one.moves.files_kept in
        let rest =
          run_sound r (c u) fs (push f k) db₁ db' v ds le
            (subst (λ x. Layered r (length x) (c u)) (sym files) (l u))
            (one.frames_pushed ∙ (ap (λ x. push_last x k) fr ∙ push_last-append fs f k))
            (inv_after E one.moves) q in
        let still : db'.memo k ≡ some one.entry =
          rest.moves.kept k one.entry one.is_entry (one.verified ∙ sym one.moves.revision_kept) in
        record {
          moves = Moves-trans E (Moves-weaken E (omega arith) one.moves) rest.moves;
          keys = k ∷ rest.keys;
          frames_end = rest.frames_end ∙ ap (λ x. fs ++ x ∷ []) (append_assoc f (k ∷ []) rest.keys);
          replay =
              demands still
                (subst (λ x. Replay E db'.memo (c x) rest.keys v) one.is_value rest.replay);
          deps_ok = (
            (one.entry, still, omega (arith, one.verified), below, inside),
            subst₂ (λ x y. All (DepOk E (length x) r y db'.memo) rest.keys) files
                one.moves.revision_kept rest.deps_ok,
          );
        }
