-- ===== src/Db/Moves.antt =====
-- What a step of the engine may do to the database: the frame conditions of a call.
use mathlib.Core.Path.{subst₂}
use ontixa.Prelude.{
  ℕ, zero, suc, ◌≤◌, ◌<◌, ◌≡◌, refl, sym, ap, ◌∙◌, subst, List, [], ◌∷◌, ◌++◌, Option, none, some,
  length, All, arith,
}
use ontixa.Db.Query.{QueryKey, Entry, stage}
use ontixa.Db.Task.{Task, Evaluators}
use ontixa.Db.Engine.{Db, FileSlot, eval, push, push_last, pop_last, ◌>>=◌}
use ontixa.Db.Spec.{Memo, Replay, Runs, returns, demands, FreshAt, DepOk, Settled, Inv}
use ontixa.Db.Insert.{some_inj}

pub >>=-some :
    {A B : Type 0} (m : Option A) (f : A → Option B) {b : B}
    → (m >>= f) ≡ some b
    → (a : A) × (m ≡ some a) × (f a ≡ some b)
>>=-some none f h = absurd (ground arith)
>>=-some (some a) f h = (a, refl, h)

pub push_last-append :
    {A : Type 0} (fs : List (List A)) (f : List A) (x : A)
    → push_last (fs ++ f ∷ []) x ≡ fs ++ push f x ∷ []
push_last-append [] f x = refl
push_last-append (g ∷ []) f x = refl
push_last-append (g ∷ h ∷ fs) f x = ap (λ r. g ∷ r) (push_last-append (h ∷ fs) f x)

pub pop_last-append :
    {A : Type 0} (fs : List (List A)) (f : List A) → pop_last (fs ++ f ∷ []) ≡ (fs, f)
pop_last-append [] f = refl
pop_last-append (g ∷ []) f = refl
pop_last-append (g ∷ h ∷ fs) f =
    ap (λ (r : List (List _) × List _). (g ∷ r.0, r.1)) (pop_last-append (h ∷ fs) f)

module _ (E : Evaluators) where
  open E use {Val, Diag}

  abbrev pub InvOf : Db E → Type 0
  InvOf db = Inv E db.files db.revision db.memo

  -- From `db` to `db'` the sources stay, fresh entries stay, the stages from `r` on are not
  -- touched, and the table keeps its invariant.
  pub record Moves (r : ℕ) (db db' : Db E) : Type 0 where
    pub files_kept : db'.files ≡ db.files
    pub revision_kept : db'.revision ≡ db.revision
    pub inv : Inv E db.files db.revision db'.memo
    pub kept :
        (j : QueryKey) (e : Entry Val Diag)
        → db.memo j ≡ some e
        → e.verified_at ≡ db.revision
        → db'.memo j ≡ some e
    pub above : (j : QueryKey) → r ≤ stage j → db'.memo j ≡ db.memo j

  pub Moves-refl : (r : ℕ) (db : Db E) → InvOf db → Moves r db db
  Moves-refl r db inv = record {
    files_kept = refl;
    revision_kept = refl;
    inv = inv;
    kept = λ j e p v. p;
    above = λ j h. refl;
  }

  pub Moves-trans : {r : ℕ} {a b c : Db E} → Moves r a b → Moves r b c → Moves r a c
  Moves-trans {c = c} m n = record {
    files_kept = n.files_kept ∙ m.files_kept;
    revision_kept = n.revision_kept ∙ m.revision_kept;
    inv = subst₂ (λ f v. Inv E f v c.memo) m.files_kept m.revision_kept n.inv;
    kept = λ j e p v. n.kept j e (m.kept j e p v) (v ∙ sym m.revision_kept);
    above = λ j h. n.above j h ∙ m.above j h;
  }

  pub Moves-weaken : {r s : ℕ} {a b : Db E} → r ≤ s → Moves r a b → Moves s a b
  Moves-weaken le m = record {
    files_kept = m.files_kept;
    revision_kept = m.revision_kept;
    inv = m.inv;
    kept = m.kept;
    above = λ j h. m.above j (omega arith);
  }

  pub inv_after : {r : ℕ} {a b : Db E} → Moves r a b → InvOf b
  inv_after {b = b} m =
      subst₂ (λ f v. Inv E f v b.memo) (sym m.files_kept) (sym m.revision_kept) m.inv

  -- The frames are no part of what a step preserves.
  pub Moves-from_frames :
      {r : ℕ} {a b : Db E} (fs : List (List QueryKey))
      → Moves r (record a { frames = fs }) b
      → Moves r a b
  Moves-from_frames fs m = record {
    files_kept = m.files_kept;
    revision_kept = m.revision_kept;
    inv = m.inv;
    kept = m.kept;
    above = m.above;
  }

  -- A call that brings one key to the current revision.
  pub record Freshens (k : QueryKey) (db db' : Db E) : Type 0 where
    pub moves : Moves (suc (stage k)) db db'
    pub frames_kept : db'.frames ≡ db.frames
    pub is_fresh : FreshAt E db.revision db'.memo k

  -- A dependency that is fresh stays so.
  pub DepOk-Moves :
      {r : ℕ} {a b : Db E}
      → Moves r a b
      → InvOf a
      → (n s : ℕ) → s ≤ E.limit
      → (ds : List QueryKey) → All (DepOk E n s a.revision a.memo) ds
      → All (DepOk E n s a.revision b.memo) ds
  DepOk-Moves m inv n s le [] h = tt
  DepOk-Moves m inv n s le (d ∷ ds) ((ed, p, v, l, f), rest) =
      let ok = inv d ed p (omega arith) in
      ((ed, m.kept d ed p (omega (arith, ok.past)), v, l, f), DepOk-Moves m inv n s le ds rest)

  -- A fresh entry holds the value that evaluating everything anew would give.
  Runs-of_Replay :
      (files : List (FileSlot E)) (m : Memo E) (revision n r : ℕ)
      → ((k : QueryKey) (e : Entry Val Diag)
          → m k ≡ some e
          → revision ≤ e.verified_at
          → stage k < r
          → (t : Task Val Diag) × (eval E files k ≡ some t) × Runs E files t e.value)
      → {t : Task Val Diag} {ks : List QueryKey} {v : Val} → Replay E m t ks v
      → All (DepOk E n r revision m) ks
      → Runs E files t v
  Runs-of_Replay files m revision n r ih returns h = returns
  Runs-of_Replay files m revision n r ih (demands {k = k} {e = e} p rest) ((ed, q, v, s, f), hs) =
      let same : ed ≡ e = some_inj (sym q ∙ p) in
      let sub = ih k e p (subst (λ (x : Entry Val Diag). revision ≤ x.verified_at) same v) s in
      demands (sub.1) (sub.2) (Runs-of_Replay files m revision n r ih rest hs)

  All-Settled :
      (files : List (FileSlot E)) (m : Memo E) (revision n r verified_at : ℕ)
      → r ≤ E.limit
      → Inv E files revision m
      → verified_at ≡ revision
      → (ds : List QueryKey) → All (DepOk E n r verified_at m) ds
      → All (Settled E verified_at m) ds
  All-Settled files m revision n r verified_at le inv now [] h = tt
  All-Settled files m revision n r verified_at le inv now (d ∷ ds) (h, hs) = (
    (λ ed p. let ok = inv d ed p (omega (arith, h.3)) in omega (arith, ok.past, ok.stamps)),
    All-Settled files m revision n r verified_at le inv now ds hs,
  )

  pub fresh-Runs :
      (files : List (FileSlot E)) (m : Memo E) (revision : ℕ)
      → Inv E files revision m
      → (n : ℕ) → n ≤ E.limit
      → (k : QueryKey) (e : Entry Val Diag) → stage k < n
      → m k ≡ some e
      → revision ≤ e.verified_at
      → (t : Task Val Diag) × (eval E files k ≡ some t) × Runs E files t e.value
  fresh-Runs files m revision inv zero le k e below p v = absurd (omega arith)
  fresh-Runs files m revision inv (suc n) le k e below p v =
      let ok = inv k e p (omega arith) in
      let now : e.verified_at ≡ revision = omega (arith, ok.past) in
      let settled =
        All-Settled files m revision _ _ e.verified_at (omega arith) inv now e.deps ok.deps_ok in
      (
        ok.task,
        ok.is_task,
        Runs-of_Replay files m revision (length files) (stage k)
            (λ j ej q w l. fresh-Runs files m revision inv n (omega arith) j ej (omega arith) q w)
            (ok.replays settled)
            (subst (λ x. All (DepOk E (length files) (stage k) x m) e.deps) now ok.deps_ok),
      )
