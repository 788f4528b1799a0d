-- ===== src/Db/Edited.antt =====
-- Edits keep the table valid, so the demand after an edit answers from the new sources.
use ontixa.Prelude.{
  ℕ, zero, suc, ◌+◌, ◌<◌, ◌≡◌, refl, sym, ap, ◌∙◌, subst, inl, inr, true, List, [], ◌∷◌, some, map,
  length, get_elem?, set, length-set, get_elem?-some, get_elem?-set_self, get_elem?-set_ne, All,
  arith, ltb, ltb→lt, Option-cases,
}
use ontixa.Db.Query.{QueryKey, QueryKey-discrete, Entry, stage, file, source}
use ontixa.Db.Task.{done, Evaluators}
use ontixa.Db.Engine.{Db, FileSlot, eval, restamp}
use ontixa.Db.Spec.{insert_ne, Memo, returns, DepOk, Inv}
use ontixa.Db.Insert.{insert-Inv}
use ontixa.Db.Moves.{InvOf}
use ontixa.Db.Sound.{restamp_ok}
use ontixa.Db.Edits.{set_text, write_source, in_range, write_all, set_sources}
use ontixa.Db.FromScratch.{Answer, top_demand_from_scratch}

module _ (E : Evaluators) where
  open E use {Val, Diag, Text}

  -- Of the entries verified at the current revision all are inputs.
  abbrev pub Quiet : ℕ → Memo E → Type 0
  Quiet revision m =
      (j : QueryKey) (e : Entry Val Diag)
      → m j ≡ some e
      → stage j < E.limit
      → e.verified_at ≡ revision
      → stage j ≡ 0

  bump-Inv :
      (files : List (FileSlot E)) (revision : ℕ) (m : Memo E)
      → Inv E files revision m
      → Inv E files (revision + 1) m
  bump-Inv files revision m inv k e p low =
      let ok = inv k e p low in
      record {
        task = ok.task;
        is_task = ok.is_task;
        stamps = ok.stamps;
        past = omega (arith, ok.past);
        deps_ok = ok.deps_ok;
        replays = ok.replays;
      }

  bump-Quiet :
      (files : List (FileSlot E)) (revision : ℕ) (m : Memo E)
      → Inv E files revision m
      → Quiet (revision + 1) m
  bump-Quiet files revision m inv j e p low now =
      let ok = inv j e p low in absurd (omega (arith, ok.past))

  length-set_text :
      (files : List (FileSlot E)) (f : ℕ) (t : Text) → length (set_text E files f t) ≡ length files
  unfolding set_text
  length-set_text files f t = elim (Option-cases (get_elem? files f)) [
    | inl absent ↦ rw (absent, set_text)
    | inr (s, found) ↦ rw (found, set_text) (length-set files f (record s { text = t }))
  ]

  map-set {ℓ} :
      {A : Type ℓ} {B : Type 0} (g : A → B) (xs : List A) (i : ℕ) (x y : A)
      → get_elem? xs i ≡ some x
      → g y ≡ g x
      → map g (set xs i y) ≡ map g xs
  map-set g [] i x y p q = refl
  map-set g (z ∷ xs) zero x y p q = ground (arith, q)
  map-set g (z ∷ xs) (suc i) x y p q = ap (λ r. g z ∷ r) (map-set g xs i x y p q)

  modules-set_text :
      (files : List (FileSlot E)) (f : ℕ) (t : Text)
      → map (λ (s : FileSlot E). s.module_name) (set_text E files f t)
        ≡ map (λ (s : FileSlot E). s.module_name) files
  unfolding set_text
  modules-set_text files f t = elim (Option-cases (get_elem? files f)) [
    | inl absent ↦ rw (absent, set_text)
    | inr (s, found) ↦
        rw (found, set_text)
          (map-set (λ (s : FileSlot E). s.module_name) files f s (record s { text = t }) found refl)
  ]

  set_text_self :
      (files : List (FileSlot E)) (f : ℕ) (t : Text)
      → f < length files
      → eval E (set_text E files f t) (source f) ≡ some (done (E.text t) [])
  unfolding set_text eval
  set_text_self files f t inside =
      let (s, found) = get_elem?-some files f inside in
      rw (found, set_text, eval)
        (rw (get_elem?-set_self files f (record s { text = t }) inside, eval))

  pub set_text-ne :
      (files : List (FileSlot E)) (f g : ℕ) (t : Text)
      → (f ≡ g → ⊥)
      → get_elem? (set_text E files f t) g ≡ get_elem? files g
  unfolding set_text
  set_text-ne files f g t h = elim (Option-cases (get_elem? files f)) [
    | inl absent ↦ rw (absent, set_text)
    | inr (s, found) ↦ rw (found, set_text) (get_elem?-set_ne files f g (record s { text = t }) h)
  ]

  eval-set_text :
      (files : List (FileSlot E)) (f : ℕ) (t : Text) (j : QueryKey)
      → (source f ≡ j → ⊥)
      → eval E (set_text E files f t) j ≡ eval E files j
  unfolding eval
  eval-set_text files f t (source g) h = rw (set_text-ne files f g t (λ q. h (ap source q)), eval)
  eval-set_text files f t j h = rw (modules-set_text files f t, eval)

  -- At stage 0 there are no dependencies.
  no_deps :
      (n v : ℕ) (m : Memo E) (r : ℕ) (k : QueryKey) (ds : List QueryKey)
      → r ≡ 0
      → All (DepOk E n r v m) ds
      → All (λ d. k ≡ d → ⊥) ds
  no_deps n v m r k [] z h = tt
  no_deps n v m r k (d ∷ ds) z ((ed, p, w, l, f), rest) = absurd (omega arith)

  pub record Written (db db' : Db E) : Type 0 where
    pub inv : InvOf E db'
    pub quiet : Quiet db'.revision db'.memo
    pub lengths : length db'.files ≡ length db.files

  pub write_source-Written :
      (f : ℕ) (t : Text) (db : Db E)
      → 0 < E.limit
      → f < length db.files
      → InvOf E db
      → Quiet db.revision db.memo
      → Written db (write_source E f t db)
  unfolding write_source
  write_source-Written f t db pos inside inv quiet =
      let stamp = restamp_ok E db.memo (source f) (E.text t) db.revision (λ e p.
        let ok = inv (source f) e p (subst (λ x. x < E.limit) (sym stage_source) pos) in
        omega (arith, ok.past, ok.stamps)) in
      let entry : Entry Val Diag = record {
        value = E.text t;
        deps = [];
        diags = [];
        computed_at = restamp E (db.memo (source f)) (E.text t) db.revision;
        verified_at = db.revision;
      } in
      record {
        inv =
            insert-Inv E db.files (set_text E db.files f t) db.memo (source f) entry db.revision inv
              refl (stamp.1) (length-set_text db.files f t) (eval-set_text db.files f t)
              (λ j e p low v.
                no_deps _ e.verified_at db.memo (stage j) (source f) e.deps (quiet j e p low v)
                  (inv j e p low).deps_ok)
              (done (E.text t) []) (set_text_self db.files f t inside) (stamp.0) tt returns;
        quiet = λ j e p low v. elim (QueryKey-discrete (source f) j) [
          | yes q ↦ subst (λ x. stage x ≡ 0) q stage_source
          | no q ↦ quiet j e (sym (insert_ne db.memo (source f) entry j q) ∙ p) low v
        ];
        lengths = length-set_text db.files f t;
      }
    where
      stage_source : stage (source f) ≡ 0
      stage_source = unfold stage in refl

  write_all-Written :
      (edits : List (ℕ × Text)) (db : Db E)
      → 0 < E.limit
      → in_range E (length db.files) edits ≡ true
      → InvOf E db
      → Quiet db.revision db.memo
      → Written db (write_all E edits db)
  unfolding write_all in_range
  write_all-Written [] db pos inside inv quiet = record { inv = inv; quiet = quiet; lengths = refl }
  write_all-Written ((f, t) ∷ edits) db pos inside inv quiet =
      let first : ltb f (length db.files) ≡ true = ground arith in
      let others : in_range E (length db.files) edits ≡ true = ground arith in
      let one = write_source-Written f t db pos (ltb→lt f (length db.files) first) inv quiet in
      let rest =
        write_all-Written edits (write_source E f t db) pos (rw one.lengths others) one.inv
          one.quiet in
      record { inv = rest.inv; quiet = rest.quiet; lengths = rest.lengths ∙ one.lengths }

  write_all-revision :
      (edits : List (ℕ × Text)) (db : Db E) → (write_all E edits db).revision ≡ db.revision
  unfolding write_all
  write_all-revision [] db = refl
  write_all-revision ((f, t) ∷ edits) db = write_all-revision edits (write_source E f t db)

  -- In a valid table, a batch of edits whose files are all registered succeeds with one revision more,
  -- and a demand after it answers a key below the limit, of a registered file, from the edited sources.
  pub set_sources_answers :
      (edits : List (ℕ × Text)) (k : QueryKey) (db : Db E)
      → InvOf E db
      → in_range E (length db.files) edits ≡ true
      → stage k < E.limit
      → file k < length db.files
      → (db' : Db E) × (set_sources E edits db ≡ some db')
        × (db'.revision ≡ db.revision + 1)
        × Answer E k db'
  unfolding set_sources
  set_sources_answers edits k db inv inside low within =
      let start : Db E = record db { revision = db.revision + 1 } in
      let w =
        write_all-Written edits start (omega (arith, low)) inside
          (bump-Inv db.files db.revision db.memo inv)
          (bump-Quiet db.files db.revision db.memo inv) in
      (
        write_all E edits start,
        rw inside,
        write_all-revision edits start,
        top_demand_from_scratch E k (write_all E edits start) low (rw w.lengths within) w.inv,
      )
