-- ===== src/Db/Insert.antt =====
-- A new entry keeps the invariant of the memo table, if no fresh entry depends on its key.
use mathlib.Core.Path.{subst}
use native.Mathlib.Decide.{dec_lt}
use ontixa.Prelude.{
  ℕ, ◌≤◌, ◌<◌, ◌≡◌, refl, sym, ap, ◌∙◌, ◌⊎◌, inl, inr, List, [], ◌∷◌, some, length, All, arith,
}
use ontixa.Db.Query.{QueryKey, QueryKey-discrete, Entry, stage}
use ontixa.Db.Task.{Task, Evaluators}
use ontixa.Db.Engine.{FileSlot, eval, insert}
use ontixa.Db.Spec.{
  insert_self, insert_ne, Memo, Replay, returns, demands, DepOk, Settled, EntryOk, Inv,
}

pub some_inj : {A : Type 0} {a b : A} → some a ≡ some b → a ≡ b
some_inj h = ground arith

module _ (E : Evaluators) where
  open E use {Val, Diag}

  -- Where the old table has an entry, the new one has an entry with the same value.
  abbrev Agree : Memo E → Memo E → QueryKey → Type 0
  Agree m m' d =
      (ed : Entry Val Diag)
      → m d ≡ some ed
      → (ed' : Entry Val Diag) × (m' d ≡ some ed') × (ed.value ≡ ed'.value)

  pub Replay-Agree :
      {m m' : Memo E} {t : Task Val Diag} {ks : List QueryKey} {v : Val}
      → Replay E m t ks v
      → All (Agree m m') ks
      → Replay E m' t ks v
  Replay-Agree returns h = returns
  Replay-Agree {m} {m'} (demands {c = c} {e = e} {ks = ks} {v = v} p r) h =
      let a = h.0 e p in
      demands (a.1) (subst (λ u. Replay E m' (c u) ks v) (a.2) (Replay-Agree r (h.1)))

  pub Agree-of_eq : (m m' : Memo E) (d : QueryKey) → m' d ≡ m d → Agree m m' d
  Agree-of_eq m m' d h ed p = (ed, h ∙ p, refl)

  module _ (m : Memo E) (k : QueryKey) (e' : Entry Val Diag) (revision : ℕ) where
    -- The stamp of the new entry is the current revision, or the value is the old one.
    abbrev pub StampOk : Type 0
    StampOk =
        (e'.computed_at ≡ revision)
        ⊎ ((e : Entry Val Diag) × (m k ≡ some e)
            × (e.computed_at ≡ e'.computed_at)
            × (e.value ≡ e'.value))

  -- What one dependency gives when the table is extended.
  module _ (files files' : List (FileSlot E)) (m : Memo E) (k : QueryKey) (e' : Entry Val Diag)
      (revision : ℕ) (inv : Inv E files revision m) (verified : e'.verified_at ≡ revision)
      (stamp : StampOk m k e' revision) where
    insert_dep :
        (n r verified_at : ℕ)
        → verified_at ≤ revision
        → (ds : List QueryKey) → All (DepOk E n r verified_at m) ds
        → All (DepOk E n r verified_at (insert m k e')) ds
    insert_dep n r verified_at past [] h = tt
    insert_dep n r verified_at past (d ∷ ds) ((ed, p, l, s, f), rest) =
        let tail = insert_dep n r verified_at past ds rest in
        elim (QueryKey-discrete k d) [
          | yes q ↦ (
            (
              e',
              subst (λ j. insert m k e' j ≡ some e') q (insert_self m k e'),
              rw verified past,
              s,
              f,
            ),
            tail,
          )
          | no q ↦ ((ed, insert_ne m k e' d q ∙ p, l, s, f), tail)
        ]

    -- A dependency that is settled in the new table was settled in the old one, with that value.
    unsettle :
        (verified_at : ℕ)
        → verified_at < revision
        → (d : QueryKey) → Settled E verified_at (insert m k e') d
        → Settled E verified_at m d × Agree m (insert m k e') d
    unsettle verified_at past d s = elim (QueryKey-discrete k d) [
      | yes q ↦ elim stamp [
        | inl now ↦ absurd (
            let le : e'.computed_at ≤ verified_at =
              s e' (subst (λ j. insert m k e' j ≡ some e') q (insert_self m k e')) in
            omega arith)
        | inr (e, p, c, v) ↦ (
          (λ ed pd.
              let same : e ≡ ed = some_inj (sym p ∙ (ap m q ∙ pd)) in
              let le : e'.computed_at ≤ verified_at =
                s e' (subst (λ j. insert m k e' j ≡ some e') q (insert_self m k e')) in
              subst (λ (x : Entry Val Diag). x.computed_at ≤ verified_at) same (omega arith)),
          (λ ed pd. (
            e',
            subst (λ j. insert m k e' j ≡ some e') q (insert_self m k e'),
            ap (λ (x : Entry Val Diag). x.value) (sym (some_inj (sym p ∙ (ap m q ∙ pd)))) ∙ v,
          )),
        )
      ]
      | no q ↦ (
        (λ ed pd. s ed (insert_ne m k e' d q ∙ pd)),
        Agree-of_eq m (insert m k e') d (insert_ne m k e' d q),
      )
    ]

    unsettle-All :
        (verified_at : ℕ)
        → verified_at < revision
        → (ds : List QueryKey) → All (Settled E verified_at (insert m k e')) ds
        → All (Settled E verified_at m) ds × All (Agree m (insert m k e')) ds
    unsettle-All verified_at past [] h = (tt, tt)
    unsettle-All verified_at past (d ∷ ds) (s, rest) =
        let one = unsettle verified_at past d s in
        let tail = unsettle-All verified_at past ds rest in ((one.0, tail.0), (one.1, tail.1))

    -- Dependencies other than the key itself are read as before.
    untouched : (ds : List QueryKey) → All (λ d. k ≡ d → ⊥) ds → All (λ d. insert m k e' d ≡ m d) ds
    untouched [] h = tt
    untouched (d ∷ ds) (h, rest) = (insert_ne m k e' d h, untouched ds rest)

    untouched-Settled :
        (verified_at : ℕ) (ds : List QueryKey)
        → All (λ d. insert m k e' d ≡ m d) ds
        → All (Settled E verified_at (insert m k e')) ds
        → All (Settled E verified_at m) ds × All (Agree m (insert m k e')) ds
    untouched-Settled verified_at [] u h = (tt, tt)
    untouched-Settled verified_at (d ∷ ds) (u, us) (s, rest) =
        let tail = untouched-Settled verified_at ds us rest in
        (((λ ed pd. s ed (u ∙ pd)), tail.0), (Agree-of_eq m (insert m k e') d u, tail.1))

    -- No fresh entry depends on the key.
    abbrev pub NoFreshUser : Type 0
    NoFreshUser =
        (j : QueryKey) (e : Entry Val Diag)
        → m j ≡ some e
        → stage j < E.limit
        → e.verified_at ≡ revision
        → All (λ d. k ≡ d → ⊥) e.deps

    module _ (lengths : length files' ≡ length files)
        (others : (j : QueryKey) → (k ≡ j → ⊥) → eval E files' j ≡ eval E files j)
        (no_user : NoFreshUser) where
      kept_entry :
          (j : QueryKey) (e : Entry Val Diag)
          → (k ≡ j → ⊥)
          → m j ≡ some e
          → stage j < E.limit
          → EntryOk E files' revision (insert m k e') j e
      kept_entry j e q p low =
          let ok = inv j e p low in
          record {
            task = ok.task;
            is_task = others j q ∙ ok.is_task;
            stamps = ok.stamps;
            past = ok.past;
            deps_ok =
                rw lengths
                  (insert_dep (length files) (stage j) e.verified_at ok.past e.deps ok.deps_ok);
            replays = λ settled. elim (dec_lt e.verified_at revision) [
              | yes old ↦
                  let both = unsettle-All e.verified_at old e.deps settled in
                  Replay-Agree (ok.replays (both.0)) (both.1)
              | no current ↦
                  let now : e.verified_at ≡ revision = ground (arith, ok.past) in
                  let both =
                    untouched-Settled e.verified_at e.deps
                      (untouched e.deps (no_user j e p low now)) settled in
                  Replay-Agree (ok.replays (both.0)) (both.1)
            ];
          }

      -- The invariant after the write of a new entry.
      pub insert-Inv :
          (t : Task Val Diag)
          → eval E files' k ≡ some t
          → e'.computed_at ≤ revision
          → All (DepOk E (length files) (stage k) revision m) e'.deps
          → Replay E m t e'.deps e'.value
          → Inv E files' revision (insert m k e')
      insert-Inv t is_task computed deps replay j e p low = elim (QueryKey-discrete k j) [
        | yes q ↦
            let same : e' ≡ e = some_inj (sym (insert_self m k e') ∙ (ap (insert m k e') q ∙ p)) in
            subst (λ i. EntryOk E files' revision (insert m k e') i e) q
              (subst (λ x. EntryOk E files' revision (insert m k e') k x) same
                (record {
                  task = t;
                  is_task = is_task;
                  stamps = omega arith;
                  past = omega arith;
                  deps_ok =
                      subst (λ x. All (DepOk E (length files') (stage k) x (insert m k e')) e'.deps)
                        (sym verified)
                        (rw lengths (
                          insert_dep (length files) (stage k) revision (omega arith) e'.deps deps));
                  replays = λ settled.
                      Replay-Agree replay
                        (agree_all e'.deps (untouched e'.deps (below_ne e'.deps deps)));
                }))
        | no q ↦ kept_entry j e q (sym (insert_ne m k e' j q) ∙ p) low
      ]
        where
          below_ne :
              (ds : List QueryKey)
              → All (DepOk E (length files) (stage k) revision m) ds
              → All (λ d. k ≡ d → ⊥) ds
          below_ne [] h = tt
          below_ne (d ∷ ds) (h, rest) = (
            (λ q. let s : stage k ≡ stage d = ap stage q in absurd (omega (arith, h.3))),
            below_ne ds rest,
          )

          agree_all :
              (ds : List QueryKey)
              → All (λ d. insert m k e' d ≡ m d) ds
              → All (Agree m (insert m k e')) ds
          agree_all [] h = tt
          agree_all (d ∷ ds) (h, rest) = (Agree-of_eq m (insert m k e') d h, agree_all ds rest)
